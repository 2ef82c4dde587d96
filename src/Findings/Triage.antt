-- ===== src/Findings/Triage.antt =====
-- apps/api/src/iceberg_api/findings/triage.py: the triage state machine and its audit trail.
pub mod Legal
pub mod Audit
use iceberg_sst.Prelude.{
  Bool, true, false, not, ◌&&◌, ◌||◌, Option, none, some, List, [], ◌∷◌, ◌++◌, String, ◌==◌, nat_eq,
  string_eq, option_eq, if◌then◌else◌,
}
use iceberg_sst.Enums.{
  FindingState, opened, false_positive, accepted_risk, resolved, manual, FindingEventKind, state_eq,
}
use iceberg_sst.Models.{Uuid, Finding, EventValue, of_state, of_id, Comment, text, FindingEvent}
use iceberg_sst.Findings.Events.{Logged, unlogged, ◌then_do◌}

-- `target in LEGAL_TRANSITIONS[source]`
unfoldable pub legal_transitions : FindingState → FindingState → Bool
legal_transitions opened false_positive = true
legal_transitions opened accepted_risk = true
legal_transitions opened resolved = true
legal_transitions opened opened = false
legal_transitions false_positive opened = true
legal_transitions accepted_risk opened = true
legal_transitions resolved opened = true
legal_transitions _ _ = false

-- The request body. The outer `some` of the last four is "in `model_fields_set`".
pub record FindingUpdate : Type 0 where
  pub state : Option FindingState
  pub assignee_id : Option (Option Uuid)
  pub owner_group_id : Option (Option Uuid)
  pub notes : Option (Option String)
  pub comment : Option String

pub data Refusal : Type 0 where
  illegal_transition : (source target : FindingState) → Refusal
  evidence_required : Refusal

pub data Applied : Type 0 where
  applied : Logged → Applied
  refused : Refusal → Applied

abbrev pub as_comment : Option String → Option Comment
as_comment none = none
as_comment (some s) = some (text s)

abbrev pub as_id : Option Uuid → Option EventValue
as_id none = none
as_id (some u) = some (of_id u)

abbrev pub is_opened : FindingState → Bool
is_opened opened = true
is_opened _ = false

abbrev pub is_resolved : FindingState → Bool
is_resolved resolved = true
is_resolved _ = false

-- `previous = finding.state`, before the assignment.
transition : Finding → FindingState → Uuid → Option String → Logged
transition f target actor comment = record {
  finding = record f {
    state = target;
    resolution = if is_resolved target then some manual else none;
  };
  events =
      record {
        finding_id = f.id;
        actor_id = some actor;
        scan_id = none;
        kind =
            if is_opened target then FindingEventKind.reopened else FindingEventKind.state_change;
        from_value = some (of_state f.state);
        to_value = some (of_state target);
        comment = as_comment comment;
      }
      ∷ [];
}

abbrev id_event :
    Finding → Uuid → FindingEventKind → Option Uuid → Option Uuid → Option String → FindingEvent
id_event f actor kind previous next comment = record {
  finding_id = f.id;
  actor_id = some actor;
  scan_id = none;
  kind = kind;
  from_value = as_id previous;
  to_value = as_id next;
  comment = as_comment comment;
}

assign : Finding → Option Uuid → Uuid → Option String → Logged
assign f assignee actor comment = record {
  finding = record f { assignee_id = assignee };
  events = id_event f actor FindingEventKind.assign f.assignee_id assignee comment ∷ [];
}

own : Finding → Option Uuid → Uuid → Option String → Logged
own f group actor comment =
    if f.owner_group_id == group && f.owner_pinned then unlogged f else record {
      finding = record f { owner_group_id = group; owner_pinned = true };
      events = id_event f actor FindingEventKind.owner f.owner_group_id group comment ∷ [];
    }

annotate : Finding → Option String → Uuid → Logged
annotate f notes actor = record {
  finding = record f { notes = notes };
  events =
      record {
        finding_id = f.id;
        actor_id = some actor;
        scan_id = none;
        kind = FindingEventKind.comment;
        from_value = none;
        to_value = none;
        comment = as_comment notes;
      }
      ∷ [];
}

-- `changes.state if changes.state is not finding.state else None`
pub moving_to : Finding → FindingUpdate → Option FindingState
moving_to f changes = elim changes.state [
  | none ↦ none
  | some target ↦ if target == f.state then none else some target
]

-- The four parts of the body, in the order in which they run.
change_state : Option FindingState → Uuid → Option String → Finding → Logged
unfolding transition
change_state none actor comment f = unlogged f
change_state (some target) actor comment f = transition f target actor comment

change_assignee : Option (Option Uuid) → Uuid → Option String → Finding → Logged
unfolding assign
change_assignee none actor comment f = unlogged f
change_assignee (some assignee) actor comment f =
    if assignee == f.assignee_id then unlogged f else assign f assignee actor comment

change_owner : Option (Option Uuid) → Uuid → Option String → Finding → Logged
unfolding own
change_owner none actor comment f = unlogged f
change_owner (some group) actor comment f = own f group actor comment

change_notes : Option (Option String) → Uuid → Finding → Logged
unfolding annotate
change_notes none actor f = unlogged f
change_notes (some notes) actor f = if notes == f.notes then unlogged f else annotate f notes actor

-- The validation that precedes any write. `evidence_check` is none where no policy is configured.
pub refusal :
    Option FindingState → (evidence_check : Option (Finding → Bool)) → Finding → Option Refusal
unfolding legal_transitions
refusal none check f = none
refusal (some target) check f =
    if not (legal_transitions f.state target)
    then some (illegal_transition f.state target)
    else if is_resolved target && (elim check [ none ↦ false | some c ↦ not (c f) ])
    then some evidence_required
    else none

pub perform : Option FindingState → FindingUpdate → Uuid → Finding → Logged
unfolding change_state change_assignee change_owner change_notes
perform target changes actor f =
    change_state target actor changes.comment f
    then_do change_assignee changes.assignee_id actor changes.comment
    then_do change_owner changes.owner_group_id actor changes.comment
    then_do change_notes changes.notes actor

-- The two raises stand before the writes.
pub unless_refused : Option Refusal → Logged → Applied
unless_refused (some r) l = refused r
unless_refused none l = applied l

unfoldable pub apply : Finding → FindingUpdate → Uuid → Option (Finding → Bool) → Applied
unfolding moving_to refusal perform unless_refused
apply f changes actor check =
    let target = moving_to f changes in
    unless_refused (refusal target check f) (perform target changes actor f)
