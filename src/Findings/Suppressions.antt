-- ===== src/Findings/Suppressions.antt =====
-- apps/api/src/iceberg_api/suppressions.py: applying suppressions to stored findings and lifting
-- them. A sweep reads the findings in the order of its query; `_in_batches` yields exactly those rows.
pub mod Marking
pub mod Sweeps
use iceberg_sst.Prelude.{
  ℕ, ◌+◌, Bool, true, false, not, ◌&&◌, ◌||◌, Option, none, some, List, [], ◌∷◌, ◌++◌, String, ◌==◌,
  nat_eq, string_eq, option_eq, if◌then◌else◌, filter, map, find?, leb, ltb, is_some, is_none,
  or_else,
}
use iceberg_sst.Enums.{SuppressionScope, FindingState, opened, FindingEventKind}
use iceberg_sst.Models.{
  Uuid, Datetime, Finding, Suppression, of_scope, Comment, matched_suppression, suppression_deleted,
  suppression_expired, suppression_no_longer_exists, FindingEvent,
}
use iceberg_sst.Suppression.Matching.{SuppressionRule, Subject, matches, first_match}
use iceberg_sst.Findings.Events.{Logged, unlogged}

abbrev pub subject_of : Finding → Subject
subject_of f = record {
  fingerprint = f.fingerprint;
  rule_id = f.rule_id;
  resource_locator = f.resource_locator;
}

abbrev pub as_rule : Suppression → SuppressionRule
as_rule s = record { id = s.id; scope = s.scope; pattern = s.pattern }

abbrev pub for_source : Uuid → Suppression → Bool
for_source source_id s = elim s.source_id [ none ↦ true | some t ↦ t == source_id ]

abbrev pub is_expired : Datetime → Suppression → Bool
is_expired at s = elim s.expires_at [ none ↦ false | some e ↦ leb e at ]

unfoldable pub applicable_suppressions : List Suppression → Uuid → Datetime → List SuppressionRule
applicable_suppressions rows source_id at =
    map as_rule (filter (λ s. not (is_expired at s)) (filter (for_source source_id) rows))

unfoldable pub suppress : SuppressionRule → Datetime → Option Uuid → Finding → Logged
suppress rule at actor f = record {
  finding = record f {
    suppressed_at = some (or_else f.suppressed_at at);
    suppressed_by_id = some rule.id;
  };
  events =
      if is_some f.suppressed_at
      then []
      else record {
        finding_id = f.id;
        actor_id = actor;
        scan_id = none;
        kind = FindingEventKind.suppressed;
        from_value = none;
        to_value = some (of_scope rule.scope);
        comment = some (matched_suppression rule.id);
      }
        ∷ [];
}

unfoldable pub release : Comment → Option Uuid → Finding → Logged
release reason actor f = if is_none f.suppressed_at then unlogged f else record {
  finding = record f { suppressed_at = none; suppressed_by_id = none };
  events =
      record {
        finding_id = f.id;
        actor_id = actor;
        scan_id = none;
        kind = FindingEventKind.comment;
        from_value = none;
        to_value = none;
        comment = some reason;
      }
      ∷ [];
}

-- A loop over findings: the table after it, the events, and the number that it counts.
pub record Swept : Type 0 where
  pub findings : List Finding
  pub events : List FindingEvent
  pub count : ℕ

-- One finding's part of a sweep: what becomes of it, and whether it is counted.
pub record Visit : Type 0 where
  pub outcome : Logged
  pub counted : Bool

abbrev skip : Finding → Visit
skip f = record { outcome = unlogged f; counted = false }

unfoldable pub sweep : (Finding → Visit) → List Finding → Swept
sweep visit [] = record { findings = []; events = []; count = 0 }
sweep visit (f ∷ fs) =
    let rest = sweep visit fs in
    let v = visit f in
    record {
      findings = v.outcome.finding ∷ rest.findings;
      events = v.outcome.events ++ rest.events;
      count = (if v.counted then 1 else 0) + rest.count;
    }

abbrev pub is_opened : FindingState → Bool
is_opened opened = true
is_opened _ = false

module _ (fnmatchcase : String → String → Bool) where
  -- The WHERE clauses of `apply_to_existing`.
  candidate : Suppression → Finding → Bool
  candidate s f =
      is_none f.suppressed_at
      && (elim s.source_id [ none ↦ true | some t ↦ f.source_id == t ])
      && (elim s.scope [
        | SuppressionScope.fingerprint ↦ f.fingerprint == s.pattern
        | SuppressionScope.rule ↦ f.rule_id == s.pattern
        | SuppressionScope.path_glob ↦ is_opened f.state
      ])

  apply_visit : Suppression → Datetime → Option Uuid → Finding → Visit
  unfolding candidate suppress
  apply_visit s at actor f =
      if candidate s f && matches fnmatchcase (as_rule s) (subject_of f)
      then record { outcome = suppress (as_rule s) at actor f; counted = true }
      else skip f

  unfoldable pub apply_to_existing : Suppression → Datetime → Option Uuid → List Finding → Swept
  unfolding apply_visit sweep
  apply_to_existing s at actor = sweep (apply_visit s at actor)

  -- A hidden finding that another live rule covers is handed over; any other is released.
  hand_over_or_release : List SuppressionRule → Comment → Option Uuid → Finding → Visit
  unfolding release
  hand_over_or_release rules reason actor f = elim (first_match fnmatchcase rules (subject_of f)) [
    | some replacement ↦ record {
      outcome = unlogged (record f { suppressed_by_id = some replacement.id });
      counted = false;
    }
    | none ↦ record { outcome = release reason actor f; counted = true }
  ]

  covered_visit : Suppression → List Suppression → Datetime → Option Uuid → Finding → Visit
  unfolding hand_over_or_release
  covered_visit s rows at actor f =
      if f.suppressed_by_id == some s.id
      then hand_over_or_release
          (filter (λ r. not (r.id == s.id)) (applicable_suppressions rows f.source_id at))
          (suppression_deleted s.id) actor f
      else skip f

  unfoldable pub release_covered_by :
      Suppression → List Suppression → Datetime → Option Uuid → List Finding → Swept
  unfolding covered_visit sweep
  release_covered_by s rows at actor = sweep (covered_visit s rows at actor)

  abbrev recorded : List Suppression → Option Uuid → Option Suppression
  recorded rows none = none
  recorded rows (some id) = find? (λ s. s.id == id) rows

  lapsed_visit : List Suppression → Datetime → Finding → Visit
  unfolding hand_over_or_release
  lapsed_visit rows at f =
      let live = applicable_suppressions rows f.source_id at in
      if is_none f.suppressed_at then skip f else elim (recorded rows f.suppressed_by_id) [
        | none ↦ hand_over_or_release live suppression_no_longer_exists none f
        | some s ↦
            if is_expired at s
            then hand_over_or_release live (suppression_expired s.id) none f
            else skip f
      ]

  unfoldable pub release_lapsed : List Suppression → Datetime → List Finding → Swept
  unfolding lapsed_visit sweep
  release_lapsed rows at = sweep (lapsed_visit rows at)
