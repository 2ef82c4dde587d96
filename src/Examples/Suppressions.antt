-- ===== src/Examples/Suppressions.antt =====
-- Suppressions at concrete inputs.
use iceberg_sst.Prelude.{none, some, List, [], ◌∷◌, ◌≡◌, refl, ◌≢◌, All, length, map, arith}
use iceberg_sst.Models.{Finding, Suppression}
use iceberg_sst.Suppression.Matching.{SuppressionRule, first_match}
use iceberg_sst.Suppression.Covering.{IsFirst, first_match-IsFirst}
use iceberg_sst.Suppression.Lease.{
  Splits, prefilter, as_payload, rules_from_lease, rules_from_lease-as_payload,
  prefilter_agrees_with_api, ok,
}
use iceberg_sst.Findings.Suppressions.{
  as_rule, subject_of, apply_to_existing, release_lapsed, release_covered_by,
}
use iceberg_sst.Findings.Suppressions.Sweeps.{AllApplied, apply_to_existing-AllApplied}
use iceberg_sst.Findings.Suppressions.Marking.{
  IsKeyed, IsHeld, release_lapsed-IsHeld, release_covered_by-free,
}
use iceberg_sst.Examples.Samples.{
  leaked_key, fixed_key, hidden_key, by_rule, by_print, equal_texts, uuid_text,
}

abbrev rules : List SuppressionRule
rules = as_rule by_print ∷ as_rule by_rule ∷ []

abbrev stored : List Finding
stored = leaked_key ∷ fixed_key ∷ hidden_key ∷ []

first_match-IsFirst_example :
    IsFirst equal_texts rules
      (subject_of leaked_key)
      (first_match equal_texts rules (subject_of leaked_key))
first_match-IsFirst_example = first_match-IsFirst equal_texts rules (subject_of leaked_key)

prefilter_agrees_with_api_example :
    Splits equal_texts subject_of rules stored (prefilter equal_texts subject_of stored rules)
prefilter_agrees_with_api_example =
    prefilter_agrees_with_api uuid_text equal_texts subject_of rules rules stored
      (rules_from_lease-as_payload uuid_text rules)

rules_from_lease-as_payload_example :
    rules_from_lease uuid_text (map (as_payload uuid_text) rules) ≡ ok rules
rules_from_lease-as_payload_example = rules_from_lease-as_payload uuid_text rules

apply_to_existing-AllApplied_example :
    let after = apply_to_existing equal_texts by_rule 9 (some 5) stored in
    AllApplied equal_texts by_rule 9 stored after.findings × (length after.events ≡ after.count)
apply_to_existing-AllApplied_example =
    apply_to_existing-AllApplied equal_texts by_rule 9 (some 5) stored

abbrev rows : List Suppression
rows = by_rule ∷ by_print ∷ []

rows-IsKeyed : IsKeyed rows
rows-IsKeyed = (refl, (refl, tt))

-- The suppression that hides `hidden_key` lapses at 50, and `by_print` covers it too.
release_lapsed-IsHeld_example :
    All (IsHeld rows 60) (release_lapsed equal_texts rows 60 stored).findings
release_lapsed-IsHeld_example = release_lapsed-IsHeld equal_texts rows 60 stored rows-IsKeyed

stored_marked : All (λ f. f.suppressed_at ≡ none → f.suppressed_by_id ≡ none) stored
stored_marked = ((λ e. refl), ((λ e. refl), ((λ e. ground arith), tt)))

release_covered_by-free_example :
    All
      (λ f. f.suppressed_by_id ≢ some 7)
      (release_covered_by equal_texts by_rule rows 9 (some 5) stored).findings
release_covered_by-free_example =
    release_covered_by-free equal_texts rows 9 by_rule (some 5) stored stored_marked
