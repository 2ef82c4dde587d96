-- ===== src/Findings/Ownership/Clock.antt =====
-- The response target and the test for lateness.
use iceberg_sst.Prelude.{
  ◌≡◌, refl, ◌&&◌, some, List, [], ◌∷◌, ◌==◌, nat_eq, option_eq, count, arith,
}
use iceberg_sst.Models.{Uuid, Datetime, Finding}
use iceberg_sst.Findings.Ownership.{overdue, overdue_for}

-- The grouped query counts as late, for each group, exactly the findings of that group that
-- `overdue` calls late.
pub overdue_for-eq-count :
    (findings : List Finding) (at : Datetime) (group : Uuid)
    → overdue_for findings at group
      ≡ count (λ f. overdue at f && f.owner_group_id == some group) findings
unfolding overdue_for overdue
overdue_for-eq-count [] at group = refl
overdue_for-eq-count (f ∷ fs) at group = ground (arith, overdue_for-eq-count fs at group)
