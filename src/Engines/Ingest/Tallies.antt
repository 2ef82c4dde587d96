-- ===== src/Engines/Ingest/Tallies.antt =====
-- The tallies that a batch reports.
use iceberg_sst.Prelude.{
  append_nil, append_assoc, ℕ, ◌+◌, ◌-◌, ◌≤◌, Bool, true, false, not, Option, none, some, List, [],
  ◌∷◌, ◌++◌, String, ◌≡◌, refl, ◌∙◌, ap, arith, length, filter, map, count, count-append, any, ltb,
  is_some, string_eq, if◌then◌else◌, Bool-cases, Option-cases, inl, inr,
}
use iceberg_sst.Prelude.Dicts.{Dict, erase, lookup}
use iceberg_sst.Models.{Uuid, Datetime, Score, Finding, FindingPayload, FindingEvent}
use iceberg_sst.Suppression.Matching.{SuppressionRule, Subject, matches, first_match}
use iceberg_sst.Findings.Events.{is_reopening}
use iceberg_sst.Findings.Suppressions.{applicable_suppressions}
use iceberg_sst.Engines.Sighting.{Submission}
use iceberg_sst.Engines.Sighting.Reopenings.{refresh_reopenings, create_reopenings}
use iceberg_sst.Engines.Ingest.{
  Batch, Match, unseen, seen, rotated, find_existing, previously, tally, ingest_one, ingest_each,
  ingest_findings, is_scored, submission, start, Tables, Python, added, sighted, rekey, subject_of,
}

-- The payload has a score, and it is under the threshold.
abbrev pub is_below : Score → FindingPayload → Bool
is_below threshold p = elim p.confidence [ none ↦ false | some c ↦ ltb c threshold ]

abbrev pub is_rotating : FindingPayload → Bool
is_rotating p = is_some p.previous_fingerprint

-- Some rule covers the payload.
abbrev pub is_covered : (String → String → Bool) → List SuppressionRule → FindingPayload → Bool
is_covered fnmatchcase rules p = any (λ r. matches fnmatchcase r (subject_of p)) rules

first_match-any :
    (fnmatchcase : String → String → Bool) (rules : List SuppressionRule) (subject : Subject)
    → is_some (first_match fnmatchcase rules subject)
      ≡ any (λ r. matches fnmatchcase r subject) rules
unfolding first_match
first_match-any fnmatchcase [] subject = refl
first_match-any fnmatchcase (r ∷ rules) subject =
    elim (Bool-cases (matches fnmatchcase r subject)) [
      | inl hit ↦ rw hit refl
      | inr miss ↦ rw miss (first_match-any fnmatchcase rules subject)
    ]

is_scored-is_below :
    (threshold : Score) (p : FindingPayload) → is_scored threshold p ≡ not (is_below threshold p)
is_scored-is_below threshold p = elim (Option-cases p.confidence) [
  | inl e ↦ rw e refl
  | inr (c, e) ↦ rw e (ground arith)
]

filter-scored :
    (threshold : Score) (ps : List FindingPayload)
    → filter (is_scored threshold) ps ≡ filter (λ p. not (is_below threshold p)) ps
filter-scored threshold [] = refl
filter-scored threshold (p ∷ ps) =
    rw (is_scored-is_below threshold p, filter-scored threshold ps) refl

below_rest :
    (threshold : Score) (ps : List FindingPayload)
    → length (filter (λ p. not (is_below threshold p)) ps) + count (is_below threshold) ps
      ≡ length ps
below_rest threshold [] = refl
below_rest threshold (p ∷ ps) = ground (arith, below_rest threshold ps)

seen_not_rotated : {f g : Finding} {previous : String} → seen f ≡ rotated previous g → ⊥
seen_not_rotated e = cc

unseen_not_rotated : {g : Finding} {previous : String} → unseen ≡ rotated previous g → ⊥
unseen_not_rotated e = cc

-- Only a payload that carries an outgoing fingerprint finds a row under one.
rotated_only_if :
    (b : Batch) (p : FindingPayload) (previous : String) (f : Finding)
    → find_existing b.known p ≡ rotated previous f
    → is_rotating p ≡ true
unfolding find_existing previously
rotated_only_if b p previous f e = at (lookup p.fingerprint b.known) p.previous_fingerprint e
  where
    at :
        (l : Option Finding) (o : Option String)
        → (elim l [ none ↦ previously b.known p o | some existing ↦ seen existing ])
          ≡ rotated previous f
        → is_some o ≡ true
    at (some existing) o e' = absurd (seen_not_rotated e')
    at none none e' = absurd (unseen_not_rotated e')
    at none (some s) e' = refl

-- What the payloads `ps` make of the tallies and the events.
record IsTallied (covered : FindingPayload → Bool) (ps : List FindingPayload) (b b' : Batch)
    : Type 0 where
  ingested : b'.outcome.ingested ≡ b.outcome.ingested + length ps
  below : b'.outcome.below_threshold ≡ b.outcome.below_threshold
  fingerprints : b'.outcome.fingerprints ≡ b.outcome.fingerprints ++ map (λ p. p.fingerprint) ps
  suppressed : b'.outcome.suppressed ≡ b.outcome.suppressed + count covered ps
  reopened :
      count is_reopening b'.events + b.outcome.reopened
      ≡ count is_reopening b.events + b'.outcome.reopened
  rekeyed : b'.outcome.rekeyed ≤ b.outcome.rekeyed + count is_rotating ps

module _ (fnmatchcase : String → String → Bool) (uuid4 : ℕ → Uuid) (sub : Submission)
    (rules : List SuppressionRule) where
  -- The end of the loop's body, from the events of the one row.
  tally-IsTallied :
      (r k : Bool) (known : Dict String Finding) (created : ℕ) (events : List FindingEvent)
      (b : Batch) (p : FindingPayload)
      → count is_reopening events ≡ (if r then 1 else 0)
      → (k ≡ true → is_rotating p ≡ true)
      → IsTallied (is_covered fnmatchcase rules) (p ∷ []) b (record {
        known = known;
        created = created;
        events = b.events ++ events;
        outcome = tally r k (is_some (first_match fnmatchcase rules (subject_of p))) p b.outcome;
      })
  unfolding tally
  tally-IsTallied r k known created events b p opens rotates = record {
    ingested = refl;
    below = refl;
    fingerprints = refl;
    suppressed = ground (arith, first_match-any fnmatchcase rules (subject_of p));
    reopened = ground (arith, count-append is_reopening b.events events);
    rekeyed = ground (arith, rotates);
  }

  ingest_one-IsTallied :
      (b : Batch) (p : FindingPayload)
      → IsTallied
          (is_covered fnmatchcase rules)
          (p ∷ [])
          b
          (ingest_one fnmatchcase uuid4 sub rules b p)
  unfolding ingest_one
  ingest_one-IsTallied b p = at (find_existing b.known p) (rotated_only_if b p)
    where
      at :
          (m : Match)
          → ((previous : String) (f : Finding) → m ≡ rotated previous f → is_rotating p ≡ true)
          → IsTallied (is_covered fnmatchcase rules) (p ∷ []) b (elim m [
            | unseen ↦ added fnmatchcase uuid4 sub rules b p
            | seen existing ↦ sighted fnmatchcase uuid4 sub rules b p b.known existing false
            | rotated previous existing ↦
                sighted fnmatchcase uuid4 sub rules b p
                  (erase previous b.known)
                  (rekey sub p existing)
                  true
          ])
      at unseen h =
          tally-IsTallied false false _ _ _ b p
            (create_reopenings sub (first_match fnmatchcase rules (subject_of p)) (uuid4 b.created)
              p)
            (λ e. cc)
      at (seen f) h =
          tally-IsTallied _ false _ _ _ b p
            (refresh_reopenings sub (first_match fnmatchcase rules (subject_of p)) p f) (λ e. cc)
      at (rotated previous f) h =
          tally-IsTallied _ true _ _ _ b p
            (refresh_reopenings sub (first_match fnmatchcase rules (subject_of p)) p
              (rekey sub p f))
            (λ e. h previous f refl)

  ingest_each-IsTallied :
      (b : Batch) (ps : List FindingPayload)
      → IsTallied (is_covered fnmatchcase rules) ps b (ingest_each fnmatchcase uuid4 sub rules b ps)
  unfolding ingest_each
  ingest_each-IsTallied b [] = record {
    ingested = omega arith;
    below = refl;
    fingerprints = append_nil b.outcome.fingerprints;
    suppressed = omega arith;
    reopened = refl;
    rekeyed = omega arith;
  }
  ingest_each-IsTallied b (p ∷ ps) =
      let b' = ingest_one fnmatchcase uuid4 sub rules b p in
      let one = ingest_one-IsTallied b p in
      let more = ingest_each-IsTallied b' ps in
      record {
        ingested = omega (arith, one.ingested, more.ingested);
        below = more.below ∙ one.below;
        fingerprints =
            more.fingerprints
            ∙ ap (λ l. l ++ map (λ (q : FindingPayload). q.fingerprint) ps) one.fingerprints
            ∙ append_assoc b.outcome.fingerprints (p.fingerprint ∷ [])
                (map (λ q. q.fingerprint) ps);
        suppressed = ground (arith, one.suppressed, more.suppressed);
        reopened = omega (arith, one.reopened, more.reopened);
        rekeyed = ground (arith, one.rekeyed, more.rekeyed);
      }

-- A payload is below the threshold if it has a score and that is under it; the others are ingested, and
-- their fingerprints reported in order. Exactly those that a live suppression of the source covers
-- are counted as suppressed. As many are counted as re-opened as `reopened` events are written, and
-- no more as re-keyed than carry an outgoing fingerprint.
pub ingest_findings_tallies :
    (py : Python) (db : Tables) (scan_id source_id : Uuid) (payloads : List FindingPayload)
    (at : Datetime) (threshold : Score) (correlation : Option (String → String))
    → let (after, o) = ingest_findings py db scan_id source_id payloads at threshold correlation in
      let taken = filter (λ p. not (is_below threshold p)) payloads in
      let rules = applicable_suppressions db.suppressions source_id at in
      (o.below_threshold ≡ count (is_below threshold) payloads)
      × (o.ingested ≡ length taken)
      × (o.fingerprints ≡ map (λ p. p.fingerprint) taken)
      × (o.suppressed ≡ count (is_covered py.fnmatchcase rules) taken)
      × (count is_reopening after.events ≡ count is_reopening db.events + o.reopened)
      × (o.rekeyed ≤ count is_rotating taken)
unfolding ingest_findings
ingest_findings_tallies py db scan_id source_id payloads at threshold correlation =
    let scored = filter (is_scored threshold) payloads in
    let rules = applicable_suppressions db.suppressions source_id at in
    let before = start db.findings source_id scored (length payloads - length scored) in
    let sub = submission py db scan_id source_id at correlation in
    let after = ingest_each py.fnmatchcase py.uuid4 sub rules before scored in
    let t = ingest_each-IsTallied py.fnmatchcase py.uuid4 sub rules before scored in
    let same = filter-scored threshold payloads in
    let counted = ap length same in
    (
      (t.below ∙ omega (arith, counted, below_rest threshold payloads)),
      omega (arith, t.ingested, counted),
      (t.fingerprints ∙ ap (map (λ (p : FindingPayload). p.fingerprint)) same),
      omega (arith, t.suppressed, ap (count (is_covered py.fnmatchcase rules)) same),
      omega (arith, count-append is_reopening db.events after.events, t.reopened),
      omega (arith, t.rekeyed, ap (count is_rotating) same),
    )
