-- ===== src/Scans/Cursors.antt =====
-- apps/api/src/iceberg_api/scans/cursors.py: the watermarks of a source's scopes, when they may be
-- trusted, and how a scan moves them. Datetimes are aware, so `_utc` changes none. The scopes of a
-- source's rows are distinct (a unique index), so a dictionary of them by scope holds them all.
pub mod Trusted
pub mod Advanced
use iceberg_sst.Prelude.{
  ℕ, ◌+◌, min, Bool, true, false, not, ◌&&◌, ◌||◌, Option, none, some, List, [], ◌∷◌, ◌++◌, String,
  ◌==◌, nat_eq, string_eq, option_eq, if◌then◌else◌, is_none, is_some, count, filter, map, any, leb,
  or_else,
}
use iceberg_sst.Prelude.Rows.{update_where}
use iceberg_sst.Enums.{
  ScanMode, full, incremental, ScanTaskStatus, task_status_eq, EngineStatus, active,
  engine_status_eq, CursorInvalidationReason, no_cursor, source_configuration_changed,
  rulepack_changed, pepper_rotating, interval_elapsed, operator_requested, scan_mode_eq,
}
use iceberg_sst.Models.{Uuid, Datetime, days}
use iceberg_sst.Models.Json.{
  Json, Fields, end, field, get_field, put_field, merge_fields, is_truthy,
}
use iceberg_sst.Models.Sources.{Source, SourceCursor, Engine}
use iceberg_sst.Models.Runs.{Scan, ScanTask}

abbrev pub is_live : Uuid → SourceCursor → Bool
is_live source_id c = c.source_id == source_id && is_none c.invalidated_at

unfoldable pub active_cursors : Uuid → List SourceCursor → List SourceCursor
active_cursors source_id rows = filter (is_live source_id) rows

unfoldable pub positions_for_scan : Scan → List SourceCursor → List (String × Fields)
unfolding active_cursors
positions_for_scan scan rows =
    if scan.mode == full
    then []
    else map (λ c. (c.scope, c.position)) (active_cursors scan.source_id rows)

-- What the caller of `plan_mode` knows.
pub record Fleet : Type 0 where
  pub rulepack_version : Option String
  pub rotating : Bool
  pub now : Datetime

is_elapsed : Source → Datetime → SourceCursor → Bool
is_elapsed source now c = leb (c.minted_at + days source.full_scan_interval_days) now

-- `invalidation_for`, of a cursor that there is.
unfoldable pub invalidation_of : SourceCursor → Source → Fleet → Option CursorInvalidationReason
unfolding is_elapsed
invalidation_of c source fleet =
    if is_some c.invalidated_at
    then some (or_else c.invalidation_reason operator_requested)
    else if not (c.source_configuration_version == some source.updated_at)
    then some source_configuration_changed
    else if is_none fleet.rulepack_version || not (c.rulepack_version == fleet.rulepack_version)
    then some rulepack_changed
    else if fleet.rotating
    then some pepper_rotating
    else if is_elapsed source fleet.now c
    then some interval_elapsed
    else none

unfoldable pub invalidation_for :
    Option SourceCursor → Source → Fleet → Option CursorInvalidationReason
unfolding invalidation_of
invalidation_for none source fleet = some no_cursor
invalidation_for (some c) source fleet = invalidation_of c source fleet

-- The rows that `invalidate` selects; `scope` narrows them to one.
abbrev pub is_selected : Uuid → Option String → SourceCursor → Bool
is_selected source_id scope c =
    is_live source_id c && elim scope [ none ↦ true | some s ↦ c.scope == s ]

abbrev pub retired : CursorInvalidationReason → Datetime → SourceCursor → SourceCursor
retired reason at c = record c { invalidated_at = some at; invalidation_reason = some reason }

unfoldable pub invalidate :
    Uuid
    → CursorInvalidationReason
    → (scope : Option String) → (at : Datetime) → List SourceCursor
    → List SourceCursor × ℕ
invalidate source_id reason scope at rows = (
  update_where (is_selected source_id scope) (retired reason at) rows,
  count (is_selected source_id scope) rows,
)

-- The reason that the loop over the live cursors stops at.
unfoldable pub first_reason : List SourceCursor → Source → Fleet → Option CursorInvalidationReason
unfolding invalidation_for
first_reason [] source fleet = none
first_reason (c ∷ cs) source fleet =
    let rest = first_reason cs source fleet in
    elim (invalidation_for (some c) source fleet) [ some reason ↦ some reason | none ↦ rest ]

unfoldable pub oldest : SourceCursor → List SourceCursor → Datetime
oldest c [] = c.minted_at
oldest c (d ∷ cs) = min c.minted_at (oldest d cs)

pub record Plan : Type 0 where
  pub mode : ScanMode
  pub reason : Option CursorInvalidationReason
  pub baseline : Option Datetime
  pub cursors : List SourceCursor

-- The answer from the live cursors, where an incremental scan is asked for.
pub plan_incremental : Source → Fleet → List SourceCursor → List SourceCursor → Plan
unfolding first_reason invalidate oldest
plan_incremental source fleet rows [] = record {
  mode = full;
  reason = some no_cursor;
  baseline = none;
  cursors = rows;
}
plan_incremental source fleet rows (c ∷ live) = elim (first_reason (c ∷ live) source fleet) [
  | some reason ↦ record {
    mode = full;
    reason = some reason;
    baseline = none;
    cursors = (invalidate source.id reason none fleet.now rows).0;
  }
  | none ↦ record {
    mode = incremental;
    reason = none;
    baseline = some (oldest c live);
    cursors = rows;
  }
]

unfoldable pub plan_mode : Source → (requested : ScanMode) → Fleet → List SourceCursor → Plan
unfolding plan_incremental active_cursors
plan_mode source full fleet rows = record {
  mode = full;
  reason = none;
  baseline = none;
  cursors = rows;
}
plan_mode source incremental fleet rows =
    plan_incremental source fleet rows (active_cursors source.id rows)

pub record Proposal : Type 0 where
  pub scope : String
  pub version : String
  pub position : Fields

abbrev pub is_of_scope : Uuid → String → SourceCursor → Bool
is_of_scope source_id scope c = c.source_id == source_id && c.scope == scope

abbrev pub advanced : Scan → Datetime → Proposal → SourceCursor → SourceCursor
advanced scan at p c = record c {
  position = merge_fields p.position (field "version" (Json.str p.version) end);
  rulepack_version = scan.rulepack_version;
  source_configuration_version = scan.source_configuration_version;
  minted_by_scan_id = scan.id;
  minted_at = at;
  invalidated_at = none;
  invalidation_reason = none;
}

abbrev pub blank : Scan → Datetime → String → SourceCursor
blank scan at scope = record {
  source_id = scan.source_id;
  scope = scope;
  position = end;
  rulepack_version = none;
  source_configuration_version = none;
  minted_by_scan_id = scan.id;
  minted_at = at;
  invalidated_at = none;
  invalidation_reason = none;
}

-- The row of the proposal's scope is revived, or a new one is added.
pub store : Scan → Datetime → Proposal → List SourceCursor → List SourceCursor
store scan at p rows =
    if count (is_of_scope scan.source_id p.scope) rows == 0
    then rows ++ advanced scan at p (blank scan at p.scope) ∷ []
    else update_where (is_of_scope scan.source_id p.scope) (advanced scan at p) rows

-- `print` is Python's `str` of a value that is no text; only the empty text's is empty.
module _ (print : Json → String) where
  abbrev text_of : Json → String
  text_of (Json.str s) = s
  text_of j = print j

  -- `str(d.get(key) or "")`
  unfoldable pub text_at : String → Fields → String
  unfolding get_field is_truthy
  text_at key fs =
      let v : Option Json = get_field key fs in
      elim v [ none ↦ "" | some j ↦ if is_truthy j then text_of j else "" ]

  -- `versions`, a set.
  pub versions_of : List Engine → List String
  unfolding text_at
  versions_of [] = []
  versions_of (e ∷ es) =
      let rest = versions_of es in
      let version = text_at "version" e.rulepack in
      if not (e.status == active) || version == "" || any (λ v. v == version) rest
      then rest
      else version ∷ rest

  abbrev only_one : List String → Option String
  only_one (v ∷ []) = some v
  only_one _ = none

  unfoldable pub fleet_rulepack_version : List Engine → Option String
  unfolding versions_of
  fleet_rulepack_version engines = only_one (versions_of engines)

  -- The proposal of a task that may move a watermark.
  unfoldable pub proposal_of : ScanTask → Option Proposal
  unfolding text_at get_field
  proposal_of task =
      let scope = text_at "scope" task.cursor_proposal in
      let version = text_at "version" task.cursor_proposal in
      if not (task.status == ScanTaskStatus.completed) || scope == "" || version == ""
      then none
      else let position : Option Json = get_field "position" task.cursor_proposal in
        elim position [
          | some (Json.obj p) ↦ some (record { scope = scope; version = version; position = p })
          | _ ↦ none
        ]

  -- The count that is logged and returned, which no caller reads, is left out.
  unfoldable pub commit_proposals :
      Scan → List ScanTask → (at : Datetime) → List SourceCursor → List SourceCursor
  unfolding store proposal_of merge_fields
  commit_proposals scan [] at rows = rows
  commit_proposals scan (task ∷ tasks) at rows =
      commit_proposals scan tasks at
        (elim (proposal_of task) [ none ↦ rows | some p ↦ store scan at p rows ])
