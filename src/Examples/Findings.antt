-- ===== src/Examples/Findings.antt =====
-- Triage and ownership at concrete inputs.
use iceberg_sst.Prelude.{
  Bool, true, false, ◌||◌, none, some, List, [], ◌∷◌, ◌≡◌, refl, ◌↔◌, ◌⊎◌, nat_eq, option_eq,
  is_some, arith,
}
use iceberg_sst.Enums.{opened, resolved, FindingState-discrete}
use iceberg_sst.Models.{Finding}
use iceberg_sst.Findings.Events.{Logged, unlogged}
use iceberg_sst.Findings.Triage.{FindingUpdate, applied, apply, perform}
use iceberg_sst.Findings.Triage.Legal.{
  IsPermitted, Accepts, IsCoherent, apply-Accepts_iff, apply-state,
}
use iceberg_sst.Findings.Triage.Audit.{apply_silent, apply_again}
use iceberg_sst.Findings.Ownership.{load, route, tags_for}
use iceberg_sst.Findings.Ownership.Routing.{RoutedBy, exchange, route_by_first}
use iceberg_sst.Examples.Samples.{
  leaked_key, hidden_key, as_is, platform_rule, fallback_rule, groups, targets, sources,
}

abbrev resolve_it : FindingUpdate
resolve_it = record {
  state = some resolved;
  assignee_id = some (some 3);
  owner_group_id = none;
  notes = none;
  comment = some "rotated";
}

abbrev nothing_new : FindingUpdate
nothing_new = record resolve_it { state = some opened; assignee_id = some none }

abbrev always : Finding → Bool
always f = true

apply-Accepts_iff_example :
    Accepts (apply leaked_key resolve_it 5 (some always))
    ↔ IsPermitted leaked_key (some resolved) (some always)
apply-Accepts_iff_example = apply-Accepts_iff leaked_key resolve_it 5 (some always)

abbrev after : Logged
after = perform (some resolved) resolve_it 5 leaked_key

leaked_key-IsCoherent : IsCoherent leaked_key
leaked_key-IsCoherent = ground arith

accepted : apply leaked_key resolve_it 5 (some always) ≡ applied after
unfolding apply FindingState-discrete
accepted = refl

apply-state_example : (after.finding.state ≡ resolved) × IsCoherent after.finding
apply-state_example =
    apply-state leaked_key resolve_it 5 (some always) after leaked_key-IsCoherent accepted

unchanged : apply leaked_key nothing_new 5 none ≡ applied (unlogged leaked_key)
unfolding apply FindingState-discrete
unchanged = refl

apply_silent_example : leaked_key ≡ leaked_key
apply_silent_example =
    apply_silent leaked_key nothing_new 5 none (unlogged leaked_key) unchanged refl

apply_again_example : apply after.finding resolve_it 5 none ≡ applied (unlogged after.finding)
apply_again_example =
    apply_again leaked_key resolve_it 5 (some always) none after leaked_key-IsCoherent accepted

route_by_first_example :
    let policy = load as_is as_is (fallback_rule ∷ platform_rule ∷ []) groups targets sources 1 in
    let policy' = load as_is as_is (platform_rule ∷ fallback_rule ∷ []) groups targets sources 1 in
    (route as_is policy 11 leaked_key ≡ route as_is policy' 11 leaked_key)
    × (((leaked_key.owner_pinned || is_some leaked_key.owner_group_id) ≡ true)
          × (route as_is policy 11 leaked_key ≡ unlogged leaked_key)
        ⊎ ((leaked_key.owner_pinned || is_some leaked_key.owner_group_id) ≡ false)
          × RoutedBy as_is
              (tags_for policy 1)
              11
              leaked_key
              policy.rules
              (route as_is policy 11 leaked_key))
route_by_first_example =
    route_by_first as_is as_is (fallback_rule ∷ platform_rule ∷ [])
      (platform_rule ∷ fallback_rule ∷ []) groups targets sources 11 leaked_key
      (exchange fallback_rule platform_rule [] (ground arith))

abbrev owned : List Finding
owned =
    record leaked_key { owner_group_id = some 41; due_at = some 20 }
    ∷ record hidden_key { owner_group_id = some 41; due_at = some 20 }
    ∷ []
