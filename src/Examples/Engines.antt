-- ===== src/Examples/Engines.antt =====
-- One batch of results at concrete inputs.
use iceberg_sst.Prelude.{
  filter, map, count, not, ◌+◌, ◌≤◌, length, none, List, [], ◌∷◌, ◌≡◌, refl, inl, inr, Has,
  string_eq,
}
use iceberg_sst.Models.{Finding}
use iceberg_sst.Suppression.Matching.{SuppressionRule}
use iceberg_sst.Findings.Suppressions.{as_rule}
use iceberg_sst.Engines.Sighting.{Submission, refresh}
use iceberg_sst.Engines.Sighting.Kept.{IsKept, IsSighted, refresh-IsSighted}
use iceberg_sst.Engines.Ingest.{
  Batch, submission, start, ingest_one, IngestOutcome, merge_scan_counts, ingest_findings,
}
use iceberg_sst.Engines.Ingest.Stored.{IsStored, ingest_one-IsStored}
use iceberg_sst.Engines.Ingest.Carried.{
  IsUnique, IsKeyed, load_findings-IsKeyed, differs, ingest_findings-keeps,
}
use iceberg_sst.Engines.Ingest.Tallies.{is_below, is_covered, is_rotating, ingest_findings_tallies}
use iceberg_sst.Findings.Events.{is_reopening}
use iceberg_sst.Findings.Suppressions.{applicable_suppressions}
use iceberg_sst.Engines.Ingest.Merging.{count_of, sum_of, tallies, merge_scan_counts_lem}
use iceberg_sst.Examples.Samples.{
  fixed_key, hidden_key, payload_a, payload_b, by_print, equal_texts, python, database,
}

abbrev sub : Submission
sub = submission python database 11 1 40 none

database-IsUnique : IsUnique 1 database.findings
database-IsUnique = (
  (
    (λ a b. differs {a = "fp-a"} {b = "fp-b"} refl),
    ((λ a b. differs {a = "fp-a"} {b = "fp-c"} refl), tt),
  ),
  (((λ a b. differs {a = "fp-b"} {b = "fp-c"} refl), tt), (tt, tt)),
)

ingest_findings-keeps_example :
    (g : Finding) × Has g
      (ingest_findings python database 11 1 (payload_a ∷ payload_b ∷ []) 40 5 none).0.findings
    × IsKept fixed_key g
ingest_findings-keeps_example =
    ingest_findings-keeps python database 11 1 (payload_a ∷ payload_b ∷ []) 40 5 none fixed_key
      database-IsUnique (inr (inl refl))

abbrev batch : Batch
batch = start (fixed_key ∷ []) 1 (payload_b ∷ []) 0

abbrev rules : List SuppressionRule
rules = as_rule by_print ∷ []

keyed : IsKeyed batch.known
keyed = load_findings-IsKeyed 1 (payload_b ∷ []) (fixed_key ∷ [])

ingest_one-IsStored_example :
    IsStored equal_texts
      (λ n. n)
      sub
      rules
      batch
      payload_b
      (ingest_one equal_texts (λ n. n) sub rules batch payload_b)
ingest_one-IsStored_example =
    ingest_one-IsStored equal_texts (λ n. n) sub rules batch payload_b keyed

refresh-IsSighted_example :
    let g = (refresh sub none payload_a hidden_key).0.finding in
    IsKept hidden_key g
    × IsSighted sub none payload_a g
    × (g.fingerprint ≡ "fp-c")
    × (g.secret_hash ≡ "hash-a")
refresh-IsSighted_example = refresh-IsSighted sub none payload_a hidden_key

ingest_findings_tallies_example :
    let (after, o) = ingest_findings python database 11 1 (payload_a ∷ payload_b ∷ []) 40 5 none in
    let taken = filter (λ p. not (is_below 5 p)) (payload_a ∷ payload_b ∷ []) in
    let rules = applicable_suppressions database.suppressions 1 40 in
    (o.below_threshold ≡ count (is_below 5) (payload_a ∷ payload_b ∷ []))
    × (o.ingested ≡ length taken)
    × (o.fingerprints ≡ map (λ p. p.fingerprint) taken)
    × (o.suppressed ≡ count (is_covered python.fnmatchcase rules) taken)
    × (count is_reopening after.events ≡ count is_reopening database.events + o.reopened)
    × (o.rekeyed ≤ count is_rotating taken)
ingest_findings_tallies_example =
    ingest_findings_tallies python database 11 1 (payload_a ∷ payload_b ∷ []) 40 5 none

abbrev first_batch : IngestOutcome
first_batch = record {
  ingested = 4;
  suppressed = 1;
  reopened = 0;
  below_threshold = 2;
  rekeyed = 0;
  fingerprints = [];
}

abbrev second_batch : IngestOutcome
second_batch = record first_batch { ingested = 3; reopened = 1 }

merge_scan_counts_lem_example :
    count_of "findings" (merge_scan_counts (("findings", 5) ∷ []) first_batch (("units", 9) ∷ []))
    ≡ count_of "findings" (("findings", 5) ∷ [])
      + sum_of "findings" (("units", 9) ∷ [])
      + sum_of "findings" (tallies first_batch)
merge_scan_counts_lem_example =
    merge_scan_counts_lem "findings" (("findings", 5) ∷ []) (("units", 9) ∷ []) first_batch
