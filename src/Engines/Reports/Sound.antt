-- ===== src/Engines/Reports/Sound.antt =====
-- apps/api/src/iceberg_api/engines/schemas.py: the validators of a coverage report, key by key.
use iceberg_sst.Prelude.{
  ℕ, ◌+◌, ◌≤◌, ◌<◌, Bool, true, false, not, ◌||◌, some, List, [], ◌∷◌, ◌≡◌, refl, inl, inr, arith,
  ◌==◌, nat_eq, leb, length, any, all, All, All-from, All-at, Bool-cases, Option-cases, subst,
}
use iceberg_sst.Prelude.Counting.{
  all-All, All-all, count_or_Has, any-count, count-any, count-Has_pos,
}
use iceberg_sst.Enums.{CoverageDisposition, CoverageReason, disposition_eq, reason_eq, task_kind_eq}
use iceberg_sst.Models.Coverage.{CoverageScope, CoverageReasonCount, TaskCoverageReport}
use iceberg_sst.Engines.Reports.{
  max_gap_references, counts_reconcile, scope_reconciles, is_reason_valid, is_gap_valid, is_key,
  sum_where, entries_where, gaps_where, has_unique_keys, of_outcome, subtotals_reconcile,
  is_gap_covered, is_discovery, is_zero, is_valid,
}

pub record IsSound (r : TaskCoverageReport) : Type 0 where
  pub requested : r.counts.requested ≡ r.counts.discovered
  pub reconciled : r.counts.discovered ≡ r.counts.scanned + r.counts.skipped + r.counts.failed
  pub scoped : (n : ℕ) → r.scope.requested ≡ some n → n ≡ r.scope.discovered + r.scope.gaps
  pub entries : All (λ e. is_reason_valid e ≡ true) r.reasons
  pub references : All (λ g. is_gap_valid g ≡ true) r.gaps
  pub capped : length r.gaps ≤ max_gap_references
  pub unique :
      (o : CoverageDisposition) (s : CoverageReason) → entries_where (is_key o s) r.reasons ≤ 1
  pub skipped : sum_where (of_outcome CoverageDisposition.skipped) r.reasons ≡ r.counts.skipped
  pub failed : sum_where (of_outcome CoverageDisposition.failed) r.reasons ≡ r.counts.failed
  pub gaps : sum_where (of_outcome CoverageDisposition.scope_gap) r.reasons ≡ r.scope.gaps
  pub referenced :
      length r.gaps + r.gaps_omitted ≡ r.counts.skipped + r.counts.failed + r.scope.gaps
  pub covered :
      (o : CoverageDisposition) (s : CoverageReason)
      → gaps_where (is_key o s) r.gaps ≤ sum_where (is_key o s) r.reasons
  pub scopes_only : is_discovery r.phase ≡ true → is_zero r.counts ≡ true

-- A key is the same as itself, and two keys that are the same have the same entries.
pub is_key-eq :
    (o o' : CoverageDisposition) (s s' : CoverageReason)
    → (is_key o s o' s' ≡ true)
    → (o' ≡ o) × (s' ≡ s)
is_key-eq o o' s s' e = ground (arith, disposition_eq.beq_iff o' o, reason_eq.beq_iff s' s)

has_unique_keys-le :
    (es : List CoverageReasonCount)
    → has_unique_keys es ≡ true
    → (o : CoverageDisposition) (s : CoverageReason) → entries_where (is_key o s) es ≤ 1
has_unique_keys-le [] e o s = omega arith
has_unique_keys-le (x ∷ es) e o s =
    let later = has_unique_keys-le es (ground arith) o s in
    elim (Bool-cases (is_key o s x.outcome x.reason)) [
      | inl here ↦
          let (same_o, same_s) = is_key-eq o x.outcome s x.reason here in
          let absent : entries_where (is_key x.outcome x.reason) es ≡ 0 =
            any-count (λ f. is_key x.outcome x.reason f.outcome f.reason) es (ground arith) in
          let absent' : entries_where (is_key o s) es ≡ 0 =
            subst (λ a. entries_where (is_key a s) es ≡ 0) same_o
              (subst (λ b. entries_where (is_key x.outcome b) es ≡ 0) same_s absent) in
          ground arith
      | inr apart ↦ ground arith
    ]

le-has_unique_keys :
    (es : List CoverageReasonCount)
    → ((o : CoverageDisposition) (s : CoverageReason) → entries_where (is_key o s) es ≤ 1)
    → has_unique_keys es ≡ true
le-has_unique_keys [] h = refl
le-has_unique_keys (x ∷ es) h =
    let rest = le-has_unique_keys es (λ o s. ground (arith, h o s)) in
    let here : is_key x.outcome x.reason x.outcome x.reason ≡ true =
      ground
        (arith, disposition_eq.beq_iff x.outcome x.outcome, reason_eq.beq_iff x.reason x.reason) in
    let absent : any (λ f. is_key x.outcome x.reason f.outcome f.reason) es ≡ false =
      count-any (λ f. is_key x.outcome x.reason f.outcome f.reason) es
        (ground (arith, h x.outcome x.reason)) in
    ground arith

-- Positive entries of a key are as good as a positive sum.
sum_where-any :
    (p : CoverageDisposition → CoverageReason → Bool) (es : List CoverageReasonCount)
    → 0 < sum_where p es
    → any (λ e. p e.outcome e.reason) es ≡ true
sum_where-any p [] h = ground arith
sum_where-any p (e ∷ es) h = ground (arith, sum_where-any p es)

pub is_key_self : (o : CoverageDisposition) (s : CoverageReason) → is_key o s o s ≡ true
is_key_self o s = ground (arith, disposition_eq.beq_iff o o, reason_eq.beq_iff s s)

is_gap_covered-le :
    (r : TaskCoverageReport)
    → all (is_gap_covered r) r.gaps ≡ true
    → (o : CoverageDisposition) (s : CoverageReason)
    → gaps_where (is_key o s) r.gaps ≤ sum_where (is_key o s) r.reasons
is_gap_covered-le r e o s = elim (count_or_Has (λ g. is_key o s g.outcome g.reason) r.gaps) [
  | inl absent ↦ ground arith
  | inr (g, has, met) ↦
      let (same_o, same_s) = is_key-eq o g.outcome s g.reason met in
      let here : is_gap_covered r g ≡ true =
        All-at (λ x. is_gap_covered r x ≡ true) r.gaps g (all-All (is_gap_covered r) r.gaps e)
          has in
      let bound : gaps_where (is_key g.outcome g.reason) r.gaps
          ≤ sum_where (is_key g.outcome g.reason) r.reasons =
        ground arith in
      subst (λ a. gaps_where (is_key a s) r.gaps ≤ sum_where (is_key a s) r.reasons) same_o
        (subst
          (λ b. gaps_where (is_key g.outcome b) r.gaps ≤ sum_where (is_key g.outcome b) r.reasons)
          same_s bound)
]

le-is_gap_covered :
    (r : TaskCoverageReport)
    → ((o : CoverageDisposition) (s : CoverageReason)
        → gaps_where (is_key o s) r.gaps ≤ sum_where (is_key o s) r.reasons)
    → all (is_gap_covered r) r.gaps ≡ true
le-is_gap_covered r h = All-all (is_gap_covered r) r.gaps (
    All-from (λ g. is_gap_covered r g ≡ true) r.gaps
      (λ g has.
        let key = is_key g.outcome g.reason in
        let some_gap : 0 < gaps_where key r.gaps =
          count-Has_pos (λ x. key x.outcome x.reason) r.gaps g has
            (is_key_self g.outcome g.reason) in
        let bound = h g.outcome g.reason in
        let entry : any (λ e. key e.outcome e.reason) r.reasons ≡ true =
          sum_where-any key r.reasons (omega arith) in
        rw entry (ground (arith, bound))))

pub is_valid-IsSound : (r : TaskCoverageReport) → is_valid r ≡ true → IsSound r
unfolding is_valid
is_valid-IsSound r e = record {
  requested = ground (arith, nat_eq.beq_iff r.counts.requested r.counts.discovered);
  reconciled = ground arith;
  scoped = λ n q. ground arith;
  entries = all-All is_reason_valid r.reasons (ground arith);
  references = all-All is_gap_valid r.gaps (ground arith);
  capped = ground arith;
  unique = has_unique_keys-le r.reasons (ground arith);
  skipped = ground arith;
  failed = ground arith;
  gaps = ground arith;
  referenced = ground arith;
  covered = is_gap_covered-le r (ground arith);
  scopes_only = λ d. ground arith;
}

pub IsSound-is_valid : (r : TaskCoverageReport) → IsSound r → is_valid r ≡ true
unfolding is_valid
IsSound-is_valid r h =
    let a : counts_reconcile r.counts ≡ true = ground (arith, h.requested, h.reconciled) in
    let b : scope_reconciles r.scope ≡ true = scoped r.scope h.scoped in
    let c = All-all is_reason_valid r.reasons h.entries in
    let d = All-all is_gap_valid r.gaps h.references in
    let e : leb (length r.gaps) max_gap_references ≡ true = ground (arith, h.capped) in
    let f = le-has_unique_keys r.reasons h.unique in
    let g : subtotals_reconcile r ≡ true = ground (arith, h.skipped, h.failed, h.gaps) in
    let i : (length r.gaps + r.gaps_omitted == r.counts.skipped + r.counts.failed + r.scope.gaps)
        ≡ true =
      (nat_eq.beq_iff (length r.gaps + r.gaps_omitted)
          (r.counts.skipped + r.counts.failed + r.scope.gaps)).1
        h.referenced in
    let j = le-is_gap_covered r h.covered in
    let k : (not (is_discovery r.phase) || is_zero r.counts) ≡ true = implied _ _ h.scopes_only in
    rw (a, b, c, d, e, f, g, i, j, k) refl
  where
    implied : (x y : Bool) → (x ≡ true → y ≡ true) → (not x || y) ≡ true
    implied true y q = q refl
    implied false y q = refl

    scoped :
        (s : CoverageScope)
        → ((n : ℕ) → s.requested ≡ some n → n ≡ s.discovered + s.gaps)
        → scope_reconciles s ≡ true
    scoped s q = elim (Option-cases s.requested) [
      | inl absent ↦ rw absent refl
      | inr (n, known) ↦ rw known ((nat_eq.beq_iff n (s.discovered + s.gaps)).1 (q n known))
    ]
