-- ===== src/Findings/Ownership.antt =====
-- apps/api/src/iceberg_api/findings/ownership.py: routing a finding to an accountable group, and its
-- response target. `str.strip` and `str.casefold` are parameters.
pub mod Routing
pub mod Clock
use iceberg_sst.Prelude.{
  ℕ, ◌+◌, Bool, true, false, not, ◌&&◌, ◌||◌, Option, none, some, List, [], ◌∷◌, ◌++◌, String, ◌==◌,
  nat_eq, string_eq, option_eq, if◌then◌else◌, filter, map, any, all, count, ltb, is_some, is_none,
  find?,
}
use iceberg_sst.Enums.{Severity, severity_rank, severity_eq, FindingState, opened, FindingEventKind}
use iceberg_sst.Models.{Uuid, Datetime, hours, Finding, of_id, routed_by_rule, FindingEvent}
use iceberg_sst.Models.Sources.{Source}
use iceberg_sst.Findings.Events.{Logged, unlogged}

pub record OwnerGroup : Type 0 where
  pub id : Uuid
  pub disabled : Bool
  pub notification_channel_id : Option Uuid

pub record RoutingRule : Type 0 where
  pub id : Uuid
  pub created_at : Datetime
  pub name : String
  pub priority : ℕ
  pub owner_group_id : Uuid
  pub source_id : Option Uuid
  pub rule_id : Option String
  pub min_severity : Option Severity
  pub source_tags : List String
  pub enabled : Bool

pub record ResponseTarget : Type 0 where
  pub severity : Severity
  pub hours : ℕ

-- `source_tags` has the tags of the one source that `load` read it for.
pub record Policy : Type 0 where
  pub rules : List RoutingRule
  pub targets : List ResponseTarget
  pub source_tags : List (Uuid × List String)

unfoldable pub target_for : Policy → Severity → Option ℕ
target_for policy severity = elim (find? (λ t. t.severity == severity) policy.targets) [
  | none ↦ none
  | some t ↦ some t.hours
]

unfoldable pub tags_for : Policy → Uuid → List String
tags_for policy source_id = elim (find? (λ e. e.0 == source_id) policy.source_tags) [
  | none ↦ []
  | some e ↦ e.1
]

-- The order of `ORDER BY priority, created_at, id`.
unfoldable pub precedes : RoutingRule → RoutingRule → Bool
precedes a b =
    ltb a.priority b.priority
    || a.priority == b.priority
      && (ltb a.created_at b.created_at || a.created_at == b.created_at && ltb a.id b.id)

insert_rule : RoutingRule → List RoutingRule → List RoutingRule
insert_rule r [] = r ∷ []
insert_rule r (s ∷ rules) = if precedes s r then s ∷ insert_rule r rules else r ∷ s ∷ rules

order_rules : List RoutingRule → List RoutingRule
unfolding insert_rule
order_rules [] = []
order_rules (r ∷ rules) = insert_rule r (order_rules rules)

-- The JOIN on a group that takes work, and the filter on the rule.
in_force : List OwnerGroup → RoutingRule → Bool
in_force groups r = r.enabled && any (λ g. g.id == r.owner_group_id && not g.disabled) groups

module _ (strip casefold : String → String) where
  abbrev folded_tags : Option Source → List String
  folded_tags none = []
  folded_tags (some source) =
      map (λ t. casefold (strip t)) (filter (λ t. not (strip t == "")) source.tags)

  unfoldable pub load :
      List RoutingRule → List OwnerGroup → List ResponseTarget → List Source → Uuid → Policy
  unfolding order_rules in_force
  load rules groups targets sources source_id = record {
    rules = order_rules (filter (in_force groups) rules);
    targets = targets;
    source_tags = (source_id, folded_tags (find? (λ s. s.id == source_id) sources)) ∷ [];
  }

abbrev pub narrowed {ℓ} : {A : Type ℓ} → (A → Bool) → Option A → Bool
narrowed p none = false
narrowed p (some a) = p a

module _ (casefold : String → String) where
  unfoldable pub matches : RoutingRule → Finding → List String → Bool
  unfolding severity_rank
  matches rule f tags =
      if narrowed (λ s. not (s == f.source_id)) rule.source_id
      then false
      else if narrowed (λ r. not (r == f.rule_id)) rule.rule_id
      then false
      else if narrowed (λ m. ltb (severity_rank f.severity) (severity_rank m)) rule.min_severity
      then false
      else all (λ tag. any (λ t. t == casefold tag) tags) rule.source_tags

  pub routed : RoutingRule → Uuid → Finding → Logged
  routed rule scan_id f = record {
    finding = record f { owner_group_id = some rule.owner_group_id };
    events =
        record {
          finding_id = f.id;
          actor_id = none;
          scan_id = some scan_id;
          kind = FindingEventKind.owner;
          from_value = none;
          to_value = some (of_id rule.owner_group_id);
          comment = some (routed_by_rule rule.name);
        }
        ∷ [];
  }

  -- The loop over the rules: the first that claims the finding routes it.
  route_by : List RoutingRule → List String → Uuid → Finding → Logged
  unfolding routed
  route_by [] tags scan_id f = unlogged f
  route_by (rule ∷ rules) tags scan_id f =
      if matches rule f tags then routed rule scan_id f else route_by rules tags scan_id f

  unfoldable pub route : Policy → Uuid → Finding → Logged
  unfolding route_by tags_for
  route policy scan_id f =
      if f.owner_pinned || is_some f.owner_group_id
      then unlogged f
      else route_by policy.rules (tags_for policy f.source_id) scan_id f

-- The row after it, and the value returned.
unfoldable pub start_clock :
    Policy → Datetime → (restart : Bool) → Finding → Finding × Option Datetime
unfolding target_for
start_clock policy at restart f =
    if is_some f.due_at && not restart then (f, f.due_at) else elim (target_for policy f.severity) [
      | none ↦ (f, none)
      | some h ↦ (record f { due_at = some (at + hours h) }, some (at + hours h))
    ]

abbrev pub is_opened : FindingState → Bool
is_opened opened = true
is_opened _ = false

unfoldable pub overdue : Datetime → Finding → Bool
overdue at f =
    if not (is_opened f.state) || is_some f.suppressed_at
    then false
    else elim f.due_at [ none ↦ false | some due ↦ ltb due at ]

-- The clauses of `actionable`, as a WHERE on a row.
unfoldable pub actionable : Finding → Bool
actionable f = is_opened f.state && is_none f.suppressed_at

-- `open_for` and `overdue_for` of the grouped query: `due_at < at` is NULL on a row with no date, and
-- the `case` then has no value to count.
unfoldable pub open_for : List Finding → Uuid → ℕ
unfolding actionable
open_for findings group = count (λ f. actionable f && f.owner_group_id == some group) findings

unfoldable pub overdue_for : List Finding → Datetime → Uuid → ℕ
unfolding actionable
overdue_for findings at group =
    count
      (λ f. actionable f && f.owner_group_id == some group && narrowed (λ due. ltb due at) f.due_at)
      findings
