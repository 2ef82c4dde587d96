-- ===== src/Engines/Ingest/Carried.antt =====
-- What becomes of a stored finding over a whole batch.
use iceberg_sst.Prelude.{
  ℕ, Bool, true, false, not, Option, none, some, List, [], ◌∷◌, String, ◌≡◌, ◌≢◌, inl, inr, arith,
  ◌==◌, nat_eq, string_eq, if◌then◌else◌, Bool-cases, ◌∙◌, ap, sym, subst, All, Has, All-at,
  Has-append_left, Has-append_right, Has-filter, filter, length, ◌-◌,
}
use iceberg_sst.Prelude.Dicts.{Dict, lookup, lookup-insert, lookup-Has}
use iceberg_sst.Models.{Uuid, Datetime, Score, Finding, FindingPayload}
use iceberg_sst.Suppression.Matching.{SuppressionRule}
use iceberg_sst.Findings.Suppressions.{applicable_suppressions}
use iceberg_sst.Engines.Sighting.{Submission}
use iceberg_sst.Engines.Sighting.Kept.{IsKept, IsKept-refl, IsKept-trans}
use iceberg_sst.Engines.Ingest.{
  Batch, Tables, Python, ingest_one, ingest_each, ingest_findings, load_findings, by_fingerprint,
  wanted, is_scored, submission, start,
}
use iceberg_sst.Engines.Ingest.Stored.{ingest_one-IsStored, IsStored, Origin}

abbrev pub IsKeyed : Dict String Finding → Type 0
IsKeyed known = (k : String) (f : Finding) → lookup k known ≡ some f → f.fingerprint ≡ k

abbrev pub Carries : Dict String Finding → Dict String Finding → Type 0
Carries known known' =
    (k : String) (f : Finding)
    → lookup k known ≡ some f
    → (k' : String) × (g : Finding) × (lookup k' known' ≡ some g) × IsKept f g

-- What a lookup elsewhere gives where an entry may have been dropped.
kept_or_dropped :
    (c : Bool) (o : Option Finding) (f : Finding)
    → (if c then none else o) ≡ some f
    → (c ≡ false) × (o ≡ some f)
kept_or_dropped c o f e = ground arith

some_eq : {A : Type 0} {x y : A} {o : Option A} → o ≡ some x → o ≡ some y → x ≡ y
some_eq a b = ground arith

pub differs : {a b : String} → (a == b) ≡ false → b ≢ a
differs {a} {b} e q = ground (arith, string_eq.beq_iff a b)

module _ (fnmatchcase : String → String → Bool) (uuid4 : ℕ → Uuid) (sub : Submission)
    (rules : List SuppressionRule) where
  -- An entry under another key was there before.
  elsewhere :
      (b : Batch) (payload : FindingPayload) (g : Finding) (b' : Batch) (k : String) (f : Finding)
      → k ≢ payload.fingerprint
      → lookup k b'.known ≡ some f
      → Origin uuid4 b payload g b'.known
      → lookup k b.known ≡ some f
  elsewhere b payload g b' k f ne e (inl (_, _, _, _, same)) = sym (same k ne) ∙ e
  elsewhere b payload g b' k f ne e (inr (inl (p, _, _, _, _, _, _, _, same))) =
      (kept_or_dropped (p == k) (lookup k b.known) f (sym (same k ne) ∙ e)).1
  elsewhere b payload g b' k f ne e (inr (inr (_, _, _, _, same))) = sym (same k ne) ∙ e

  stored-IsKeyed :
      (b : Batch) (payload : FindingPayload) (b' : Batch)
      → IsKeyed b.known
      → IsStored fnmatchcase uuid4 sub rules b payload b'
      → IsKeyed b'.known
  stored-IsKeyed b payload b' keyed (g, at_fp, fp, _, origin) k f e =
      elim (Bool-cases (payload.fingerprint == k)) [
        | inl same ↦
            let k_eq = (string_eq.beq_iff payload.fingerprint k).0 same in
            let at_k : lookup k b'.known ≡ some g =
              subst (λ x. lookup x b'.known ≡ some g) k_eq at_fp in
            ap (λ x. x.fingerprint) (some_eq e at_k) ∙ fp ∙ k_eq
        | inr other ↦ keyed k f (elsewhere b payload g b' k f (differs other) e origin)
      ]

  stored-Carries :
      (b : Batch) (payload : FindingPayload) (b' : Batch)
      → IsStored fnmatchcase uuid4 sub rules b payload b'
      → Carries b.known b'.known
  stored-Carries b payload b' (g, at_fp, fp, _, origin) k f e =
      elim (Bool-cases (payload.fingerprint == k)) [
        | inl same ↦
            under origin
              (subst (λ x. lookup x b.known ≡ some f) (sym ((string_eq.beq_iff _ k).0 same)) e)
        | inr other ↦ apart origin (differs other)
      ]
    where
      under :
          Origin uuid4 b payload g b'.known
          → lookup payload.fingerprint b.known ≡ some f
          → (k' : String) × (h : Finding) × (lookup k' b'.known ≡ some h) × IsKept f h
      under (inl (f', stored, kept, _, _)) e' =
          (payload.fingerprint, g, at_fp, subst (λ x. IsKept x g) (some_eq stored e') kept)
      under (inr (inl (_, _, new, _, _, _, _, _, _))) e' = ground arith
      under (inr (inr (new, _, _, _, _))) e' = ground arith

      apart :
          Origin uuid4 b payload g b'.known
          → k ≢ payload.fingerprint
          → (k' : String) × (h : Finding) × (lookup k' b'.known ≡ some h) × IsKept f h
      apart (inl (_, _, _, _, same)) ne = (k, f, same k ne ∙ e, IsKept-refl f)
      apart (inr (inr (_, _, _, _, same))) ne = (k, f, same k ne ∙ e, IsKept-refl f)
      apart (inr (inl (p, f', _, _, stored, _, kept, _, same))) ne = elim (Bool-cases (p == k)) [
        | inl moved ↦
            let at_p =
              subst (λ x. lookup x b.known ≡ some f) (sym ((string_eq.beq_iff p k).0 moved)) e in
            (payload.fingerprint, g, at_fp, subst (λ x. IsKept x g) (some_eq stored at_p) kept)
        | inr stays ↦ (
          k,
          f,
          same k ne ∙ ap (λ c. if c then none else lookup k b.known) stays ∙ e,
          IsKept-refl f,
        )
      ]

  ingest_each-Carries :
      (b : Batch) (payloads : List FindingPayload)
      → IsKeyed b.known
      → Carries b.known (ingest_each fnmatchcase uuid4 sub rules b payloads).known
  unfolding ingest_each
  ingest_each-Carries b [] keyed k f e = (k, f, e, IsKept-refl f)
  ingest_each-Carries b (payload ∷ payloads) keyed k f e =
      let stored = ingest_one-IsStored fnmatchcase uuid4 sub rules b payload keyed in
      let b' = ingest_one fnmatchcase uuid4 sub rules b payload in
      let (k1, g, at_k1, kept) = stored-Carries b payload b' stored k f e in
      let (k2, h, at_k2, kept') =
        ingest_each-Carries b' payloads (stored-IsKeyed b payload b' keyed stored) k1 g at_k1 in
      (k2, h, at_k2, IsKept-trans kept kept')

-- A source holds one row per fingerprint (`uq_findings_source_id_fingerprint`).
abbrev pub IsUnique : Uuid → List Finding → Type 0
IsUnique source_id [] = Unit
IsUnique source_id (f ∷ fs) =
    All (λ g. (f.source_id ≡ source_id) → (g.source_id ≡ source_id) → g.fingerprint ≢ f.fingerprint)
      fs
    × IsUnique source_id fs

-- Distinct fingerprints in the rows that a query returned.
abbrev AreDistinct : List Finding → Type 0
AreDistinct [] = Unit
AreDistinct (f ∷ fs) = All (λ g. g.fingerprint ≢ f.fingerprint) fs × AreDistinct fs

by_fingerprint-IsKeyed : (fs : List Finding) → IsKeyed (by_fingerprint fs)
unfolding by_fingerprint lookup
by_fingerprint-IsKeyed [] k f e = ground arith
by_fingerprint-IsKeyed (g ∷ fs) k f e = ground (
  arith,
  lookup-insert g.fingerprint k g (by_fingerprint fs),
  by_fingerprint-IsKeyed fs k f,
  string_eq.beq_iff g.fingerprint k,
)

by_fingerprint-Has :
    (fs : List Finding) (f : Finding)
    → AreDistinct fs
    → Has f fs
    → lookup f.fingerprint (by_fingerprint fs) ≡ some f
unfolding by_fingerprint
by_fingerprint-Has [] f h m = absurd m
by_fingerprint-Has (g ∷ fs) f h (inl same) =
    lookup-insert g.fingerprint f.fingerprint g (by_fingerprint fs)
    ∙ ground (arith, ap (λ x. x.fingerprint) same, string_eq.beq_iff g.fingerprint f.fingerprint)
by_fingerprint-Has (g ∷ fs) f h (inr m) =
    let ne : f.fingerprint ≢ g.fingerprint =
      All-at (λ x. x.fingerprint ≢ g.fingerprint) fs f h.0 m in
    lookup-insert g.fingerprint f.fingerprint g (by_fingerprint fs)
    ∙ ground (arith, string_eq.beq_iff g.fingerprint f.fingerprint, by_fingerprint-Has fs f h.1 m)

wanted_lem :
    (source_id : Uuid) (payloads : List FindingPayload) (f : Finding)
    → wanted source_id payloads f ≡ true
    → f.source_id ≡ source_id
wanted_lem source_id payloads f e = ground (arith, nat_eq.beq_iff f.source_id source_id)

apart :
    (source_id : Uuid) (payloads : List FindingPayload) (f : Finding) (fs : List Finding)
    → All
        (λ g. (f.source_id ≡ source_id) → (g.source_id ≡ source_id) → g.fingerprint ≢ f.fingerprint)
        fs
    → f.source_id ≡ source_id
    → All (λ g. g.fingerprint ≢ f.fingerprint) (filter (wanted source_id payloads) fs)
apart source_id payloads f [] h e = tt
apart source_id payloads f (g ∷ fs) h e = elim (Bool-cases (wanted source_id payloads g)) [
  | inl asked ↦
      rw asked (h.0 e (wanted_lem source_id payloads g asked), apart source_id payloads f fs h.1 e)
  | inr other ↦ rw other (apart source_id payloads f fs h.1 e)
]

wanted-AreDistinct :
    (source_id : Uuid) (payloads : List FindingPayload) (fs : List Finding)
    → IsUnique source_id fs
    → AreDistinct (filter (wanted source_id payloads) fs)
wanted-AreDistinct source_id payloads [] h = tt
wanted-AreDistinct source_id payloads (f ∷ fs) h = elim (Bool-cases (wanted source_id payloads f)) [
  | inl asked ↦ rw asked (
    apart source_id payloads f fs h.0 (wanted_lem source_id payloads f asked),
    wanted-AreDistinct source_id payloads fs h.1,
  )
  | inr other ↦ rw other (wanted-AreDistinct source_id payloads fs h.1)
]

load_findings-lookup :
    (source_id : Uuid) (payloads : List FindingPayload) (fs : List Finding) (f : Finding)
    → IsUnique source_id fs
    → wanted source_id payloads f ≡ true
    → Has f fs
    → lookup f.fingerprint (load_findings fs source_id payloads) ≡ some f
unfolding load_findings
load_findings-lookup source_id payloads fs f unique asked m =
    by_fingerprint-Has (filter (wanted source_id payloads) fs) f
      (wanted-AreDistinct source_id payloads fs unique)
      (Has-filter (wanted source_id payloads) f fs asked m)

pub load_findings-IsKeyed :
    (source_id : Uuid) (payloads : List FindingPayload) (fs : List Finding)
    → IsKeyed (load_findings fs source_id payloads)
unfolding load_findings
load_findings-IsKeyed source_id payloads fs =
    by_fingerprint-IsKeyed (filter (wanted source_id payloads) fs)

-- Where a source holds one row per fingerprint, every row in the table before a batch has a row in
-- the table after it that has the same identifier, source, first scan, notes, assignee and pin, the
-- same owner once it has one or is pinned, and the same state and resolution, save that a resolved
-- row may be open again.
pub ingest_findings-keeps :
    (py : Python) (db : Tables) (scan_id source_id : Uuid) (payloads : List FindingPayload)
    (at : Datetime) (threshold : Score) (correlation : Option (String → String)) (f : Finding)
    → IsUnique source_id db.findings
    → Has f db.findings
    → (g : Finding) × Has g
        (ingest_findings py db scan_id source_id payloads at threshold correlation).0.findings
      × IsKept f g
unfolding ingest_findings
ingest_findings-keeps py db scan_id source_id payloads at threshold correlation f unique m =
    elim (Bool-cases (wanted source_id scored f)) [
      | inl asked ↦
          let (k, g, found, kept) =
            ingest_each-Carries py.fnmatchcase py.uuid4
              (submission py db scan_id source_id at correlation)
              (applicable_suppressions db.suppressions source_id at)
              (start db.findings source_id scored (length payloads - length scored)) scored
              (load_findings-IsKeyed source_id scored db.findings) f.fingerprint f
              (load_findings-lookup source_id scored db.findings f unique asked m) in
          (g, Has-append_right g others _ (lookup-Has k _ g found), kept)
      | inr apart ↦
          let stays : not (wanted source_id scored f) ≡ true = ap not apart in
          (
            f,
            Has-append_left f others _
                (Has-filter (λ x. not (wanted source_id scored x)) f db.findings stays m),
            IsKept-refl f,
          )
    ]
  where
    scored : List FindingPayload
    scored = filter (is_scored threshold) payloads

    others : List Finding
    others = filter (λ x. not (wanted source_id scored x)) db.findings
