-- ===== src/Engines/Ingest/Stored.antt =====
-- One payload of a batch: what is stored under its fingerprint, where that row came from, and which
-- entries stay as they were.
use iceberg_sst.Prelude.{
  ℕ, Bool, true, false, not, ◌&&◌, Option, none, some, List, String, ◌≡◌, refl, ◌≢◌, ◌⊎◌, inl, inr,
  arith, ◌==◌, string_eq, option_eq, if◌then◌else◌, Bool-cases, Option-cases, ◌∙◌, beq_self,
}
use iceberg_sst.Prelude.Dicts.{Dict, lookup, insert, erase, lookup-insert, lookup-erase}
use iceberg_sst.Enums.{opened}
use iceberg_sst.Models.{Uuid, Finding, FindingPayload}
use iceberg_sst.Suppression.Matching.{SuppressionRule, first_match}
use iceberg_sst.Engines.Sighting.{Submission, create, refresh}
use iceberg_sst.Engines.Sighting.Kept.{
  IsKept, IsKept-trans, IsSighted, refresh-IsSighted, create-IsSighted,
}
use iceberg_sst.Engines.Ingest.{
  Batch, Match, unseen, seen, rotated, same_secret, known_before, previously, find_existing, rekey,
  subject_of, ingest_one, added, sighted,
}

-- What `find_existing` found, as facts about the dict.
abbrev Found : Dict String Finding → FindingPayload → Match → Type 0
Found known payload unseen =
    (lookup payload.fingerprint known ≡ none)
    × ((p : String) (f : Finding)
        → payload.previous_fingerprint ≡ some p
        → lookup p known ≡ some f
        → (p ≡ "") ⊎ (same_secret f payload ≡ false))
Found known payload (seen f) = lookup payload.fingerprint known ≡ some f
Found known payload (rotated p f) =
    (lookup payload.fingerprint known ≡ none)
    × (payload.previous_fingerprint ≡ some p)
    × (lookup p known ≡ some f)
    × (same_secret f payload ≡ true)

known_before-Found :
    (known : Dict String Finding) (payload : FindingPayload) (p : String) (o : Option Finding)
    → lookup payload.fingerprint known ≡ none
    → payload.previous_fingerprint ≡ some p
    → lookup p known ≡ o
    → Found known payload (known_before payload p o)
unfolding known_before
known_before-Found known payload p none new e there = (new, λ q f h k. ground arith)
known_before-Found known payload p (some f) new e there =
    elim (Bool-cases (not (p == "") && same_secret f payload)) [
      | inl match ↦ rw match (new, e, there, ground arith)
      | inr differ ↦ rw differ (new, λ q g h k. ground (arith, string_eq.beq_iff p ""))
    ]

previously-Found :
    (known : Dict String Finding) (payload : FindingPayload) (o : Option String)
    → lookup payload.fingerprint known ≡ none
    → payload.previous_fingerprint ≡ o
    → Found known payload (previously known payload o)
unfolding previously
previously-Found known payload none new e = (new, λ p f h k. ground arith)
previously-Found known payload (some p) new e =
    known_before-Found known payload p (lookup p known) new e refl

find_existing-Found :
    (known : Dict String Finding) (payload : FindingPayload)
    → Found known payload (find_existing known payload)
unfolding find_existing
find_existing-Found known payload = elim (Option-cases (lookup payload.fingerprint known)) [
  | inl new ↦
      rw (new, find_existing) (previously-Found known payload payload.previous_fingerprint new refl)
  | inr (f, there) ↦ rw (there, find_existing) there
]

rekey-IsKept :
    (sub : Submission) (payload : FindingPayload) (f : Finding) → IsKept f (rekey sub payload f)
unfolding rekey
rekey-IsKept sub payload f = ground arith

rekey_lem :
    (sub : Submission) (payload : FindingPayload) (f : Finding)
    → ((rekey sub payload f).fingerprint ≡ payload.fingerprint)
      × ((rekey sub payload f).secret_hash ≡ payload.secret_hash)
unfolding rekey
rekey_lem sub payload f = (refl, refl)

-- Every entry but `payload`'s and the dropped one is as it was.
abbrev pub SameBut : String → (String → Bool) → Dict String Finding → Dict String Finding → Type 0
SameBut fp dropped known known' =
    (k : String) → k ≢ fp → lookup k known' ≡ (if dropped k then none else lookup k known)

-- Where the stored row `g` came from. First: it is the row stored under the payload's fingerprint.
-- Second: nothing was stored there, and it is the row stored under the payload's previous
-- fingerprint, whose secret hash agrees as far as one was sent; it leaves that place and takes the
-- payload's secret hash. Third: neither, and it is a new open row with the next identifier.
abbrev pub Origin : (ℕ → Uuid) → Batch → FindingPayload → Finding → Dict String Finding → Type 0
Origin uuid4 b payload g known' =
    ((f : Finding) × (lookup payload.fingerprint b.known ≡ some f)
      × IsKept f g
      × (g.secret_hash ≡ f.secret_hash)
      × SameBut payload.fingerprint (λ _. false) b.known known')
    ⊎ ((p : String) × (f : Finding) × (lookup payload.fingerprint b.known ≡ none)
        × (payload.previous_fingerprint ≡ some p)
        × (lookup p b.known ≡ some f)
        × (same_secret f payload ≡ true)
        × IsKept f g
        × (g.secret_hash ≡ payload.secret_hash)
        × SameBut payload.fingerprint (λ k. p == k) b.known known')
    ⊎ ((lookup payload.fingerprint b.known ≡ none)
        × ((p : String) (f : Finding)
            → payload.previous_fingerprint ≡ some p
            → lookup p b.known ≡ some f
            → (p ≡ "") ⊎ (same_secret f payload ≡ false))
        × (g.state ≡ opened)
        × (g.id ≡ uuid4 b.created)
        × SameBut payload.fingerprint (λ _. false) b.known known')

module _ (fnmatchcase : String → String → Bool) (uuid4 : ℕ → Uuid) (sub : Submission)
    (rules : List SuppressionRule) where
  abbrev pub IsStored : Batch → FindingPayload → Batch → Type 0
  IsStored b payload b' =
      (g : Finding) × (lookup payload.fingerprint b'.known ≡ some g)
      × (g.fingerprint ≡ payload.fingerprint)
      × IsSighted sub (first_match fnmatchcase rules (subject_of payload)) payload g
      × Origin uuid4 b payload g b'.known

  others_insert :
      (fp : String) (g : Finding) (known : Dict String Finding)
      → SameBut fp (λ _. false) known (insert fp g known)
  others_insert fp g known k ne = ground (arith, lookup-insert fp k g known, string_eq.beq_iff fp k)

  others_moved :
      (fp p : String) (g : Finding) (known : Dict String Finding)
      → SameBut fp (λ k. p == k) known (insert fp g (erase p known))
  others_moved fp p g known k ne =
      ground (
        arith,
        lookup-insert fp k g (erase p known),
        lookup-erase p k known,
        string_eq.beq_iff fp k,
      )

  there :
      (fp : String) (g : Finding) (known : Dict String Finding)
      → lookup fp (insert fp g known) ≡ some g
  there fp g known = rw (lookup-insert, beq_self fp) refl

  -- The whole effect of one payload on the stored findings, where every finding is stored under its own
  -- fingerprint: the row under the payload's fingerprint is seen, live, shown and hidden as it should
  -- be; what people decided about the row that it came from is kept; and no other row is touched.
  pub ingest_one-IsStored :
      (b : Batch) (payload : FindingPayload)
      → ((k : String) (f : Finding) → lookup k b.known ≡ some f → f.fingerprint ≡ k)
      → IsStored b payload (ingest_one fnmatchcase uuid4 sub rules b payload)
  unfolding ingest_one
  ingest_one-IsStored b payload keyed =
      at (find_existing b.known payload) (find_existing-Found b.known payload)
    where
      s : Option SuppressionRule
      s = first_match fnmatchcase rules (subject_of payload)

      at :
          (m : Match)
          → Found b.known payload m
          → IsStored b payload (elim m [
            | unseen ↦ added fnmatchcase uuid4 sub rules b payload
            | seen existing ↦ sighted fnmatchcase uuid4 sub rules b payload b.known existing false
            | rotated previous existing ↦
                sighted fnmatchcase uuid4 sub rules b payload
                  (erase previous b.known)
                  (rekey sub payload existing)
                  true
          ])
      at unseen (new, other) =
          let (sight, fp, _, id, state) = create-IsSighted sub s (uuid4 b.created) payload in
          (
            (create sub s (uuid4 b.created) payload).finding,
            there payload.fingerprint _ b.known,
            fp,
            sight,
            inr (inr (new, other, state, id, others_insert payload.fingerprint _ b.known)),
          )
      at (seen f) stored =
          let (kept, sight, fp, hash) = refresh-IsSighted sub s payload f in
          (
            (refresh sub s payload f).0.finding,
            there payload.fingerprint _ b.known,
            fp ∙ keyed payload.fingerprint f stored,
            sight,
            inl (f, stored, kept, hash, others_insert payload.fingerprint _ b.known),
          )
      at (rotated p f) (new, e, stored, same) =
          let f' = rekey sub payload f in
          let (kept, sight, fp, hash) = refresh-IsSighted sub s payload f' in
          (
            (refresh sub s payload f').0.finding,
            there payload.fingerprint _ (erase p b.known),
            fp ∙ (rekey_lem sub payload f).0,
            sight,
            inr (
                inl (
                  p,
                  f,
                  new,
                  e,
                  stored,
                  same,
                  IsKept-trans (rekey-IsKept sub payload f) kept,
                  hash ∙ (rekey_lem sub payload f).1,
                  others_moved payload.fingerprint p _ b.known,
                )),
          )
