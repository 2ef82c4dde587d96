-- ===== src/Scans/Coverage/Merging.antt =====
-- apps/api/src/iceberg_api/scans/coverage.py: `merge_task_report` and the validators of a report.
use iceberg_sst.Prelude.{
  ℕ, ◌+◌, ◌≤◌, Bool, true, Option, none, some, List, [], ◌∷◌, ◌++◌, ◌≡◌, ◌≢◌, refl, inl, inr, arith,
  ◌==◌, nat_eq, take, All-append, length-append, count-append, Bool-cases, ◌∙◌, subst,
}
use iceberg_sst.Prelude.Counting.{length-take, count-take, take-All}
use iceberg_sst.Enums.{CoverageDisposition, CoverageReason, disposition_eq, reason_eq, task_kind_eq}
use iceberg_sst.Models.Coverage.{CoverageReasonCount, CoverageGap, TaskCoverageReport}
use iceberg_sst.Engines.Reports.{
  max_gap_references, is_reason_valid, is_gap_valid, is_key, sum_where, gaps_where, of_outcome,
  is_discovery, is_valid,
}
use iceberg_sst.Engines.Reports.Sound.{IsSound, is_valid-IsSound, IsSound-is_valid}
use iceberg_sst.Scans.Coverage.{
  passed, phases_disagree, add_known, accumulate, construct, merge_task_report, tally_reasons,
  sort_reasons,
}
use iceberg_sst.Scans.Coverage.Counter.{sum_where-sorted, sorted-OneEach, sorted-valid}

sum_where-append :
    (p : CoverageDisposition → CoverageReason → Bool) (xs ys : List CoverageReasonCount)
    → sum_where p (xs ++ ys) ≡ sum_where p xs + sum_where p ys
sum_where-append p [] ys = omega arith
sum_where-append p (x ∷ xs) ys = omega (arith, sum_where-append p xs ys)

known_adds :
    (a b : Option ℕ) (c d n : ℕ)
    → ((i : ℕ) → a ≡ some i → i ≡ c)
    → ((j : ℕ) → b ≡ some j → j ≡ d)
    → add_known a b ≡ some n
    → n ≡ c + d
known_adds (some i) (some j) c d n h k e =
    let i_is : i ≡ c = h i refl in let j_is : j ≡ d = k j refl in ground arith
known_adds none b c d n h k e = cc
known_adds (some i) none c d n h k e = cc

module _ (a b : TaskCoverageReport) (sound_a : IsSound a) (sound_b : IsSound b)
    (same : a.phase ≡ b.phase) where
  retained_le :
      (o : CoverageDisposition) (s : CoverageReason)
      → gaps_where (is_key o s) (take max_gap_references (a.gaps ++ b.gaps))
        ≤ sum_where (is_key o s) a.reasons + sum_where (is_key o s) b.reasons
  retained_le o s =
      let key = λ (g : CoverageGap). is_key o s g.outcome g.reason in
      let kept = count-take key max_gap_references (a.gaps ++ b.gaps) in
      let whole = count-append key a.gaps b.gaps in
      let left = sound_a.covered o s in let right = sound_b.covered o s in omega arith

  accumulate-IsSound : IsSound (accumulate a b)
  unfolding accumulate
  accumulate-IsSound = record {
    requested = omega (arith, sound_a.requested, sound_b.requested);
    reconciled = omega (arith, sound_a.reconciled, sound_b.reconciled);
    scoped = λ n known.
        let total =
          known_adds a.scope.requested b.scope.requested (a.scope.discovered + a.scope.gaps)
            (b.scope.discovered + b.scope.gaps) n sound_a.scoped sound_b.scoped known in
        omega arith;
    entries = sorted-valid (a.reasons ++ b.reasons) (
        All-append (λ e. is_reason_valid e ≡ true) a.reasons b.reasons sound_a.entries
          sound_b.entries);
    references =
        take-All (λ g. is_gap_valid g ≡ true) max_gap_references (a.gaps ++ b.gaps)
          (All-append (λ g. is_gap_valid g ≡ true) a.gaps b.gaps sound_a.references
            sound_b.references);
    capped = (length-take max_gap_references (a.gaps ++ b.gaps)).0;
    unique = sorted-OneEach (a.reasons ++ b.reasons);
    skipped =
        subtotal CoverageDisposition.skipped a.counts.skipped b.counts.skipped sound_a.skipped
          sound_b.skipped;
    failed =
        subtotal CoverageDisposition.failed a.counts.failed b.counts.failed sound_a.failed
          sound_b.failed;
    gaps =
        subtotal CoverageDisposition.scope_gap a.scope.gaps b.scope.gaps sound_a.gaps sound_b.gaps;
    referenced = omega (
      arith,
      length-take max_gap_references (a.gaps ++ b.gaps),
      length-append a.gaps b.gaps,
      sound_a.referenced,
      sound_b.referenced,
    );
    covered = λ o s. omega (
      arith,
      sum_where-sorted (is_key o s) (a.reasons ++ b.reasons),
      sum_where-append (is_key o s) a.reasons b.reasons,
      retained_le o s,
    );
    scopes_only = λ d.
        let other : is_discovery b.phase ≡ true = subst (λ k. is_discovery k ≡ true) same d in
        ground (arith, sound_a.scopes_only d, sound_b.scopes_only other);
  }
    where
      subtotal :
          (o : CoverageDisposition) (m n : ℕ)
          → sum_where (of_outcome o) a.reasons ≡ m
          → sum_where (of_outcome o) b.reasons ≡ n
          → sum_where (of_outcome o) (sort_reasons (tally_reasons (a.reasons ++ b.reasons) []))
            ≡ m + n
      subtotal o m n left right = omega (
        arith,
        sum_where-sorted (of_outcome o) (a.reasons ++ b.reasons),
        sum_where-append (of_outcome o) a.reasons b.reasons,
      )

  -- The two that agree on their phase are merged, and no validator refuses what they make.
  pub merge_task_report-accumulate :
      (merge_task_report (some a) b ≡ passed (accumulate a b)) × IsSound (accumulate a b)
  unfolding merge_task_report construct
  merge_task_report-accumulate =
      let agree : (a.phase == b.phase) ≡ true = (task_kind_eq.beq_iff a.phase b.phase).1 same in
      let valid = IsSound-is_valid (accumulate a b) accumulate-IsSound in
      (rw agree (rw valid refl), accumulate-IsSound)

disagree :
    (a b : TaskCoverageReport) → a.phase ≢ b.phase → merge_task_report (some a) b ≡ phases_disagree
unfolding merge_task_report
disagree a b apart = elim (Bool-cases (a.phase == b.phase)) [
  | inl agree ↦ absurd (apart ((task_kind_eq.beq_iff a.phase b.phase).0 agree))
  | inr differ ↦ rw differ refl
]

-- Two reports that pass their validators are merged when they are of the same phase: the merged
-- report passes them too, its counts are those of the two added, and so is the subtotal of every
-- outcome and reason. Reports of two phases are refused.
pub merge_task_report_adds :
    (a b : TaskCoverageReport)
    → is_valid a ≡ true
    → is_valid b ≡ true
    → (a.phase ≡ b.phase
        → (r : TaskCoverageReport) × (merge_task_report (some a) b ≡ passed r)
          × (is_valid r ≡ true)
          × (r.phase ≡ a.phase)
          × (r.counts.scanned ≡ a.counts.scanned + b.counts.scanned)
          × (r.counts.skipped ≡ a.counts.skipped + b.counts.skipped)
          × (r.counts.failed ≡ a.counts.failed + b.counts.failed)
          × (r.scope.discovered ≡ a.scope.discovered + b.scope.discovered)
          × (r.scope.gaps ≡ a.scope.gaps + b.scope.gaps)
          × ((o : CoverageDisposition) (s : CoverageReason)
              → sum_where (is_key o s) r.reasons
                ≡ sum_where (is_key o s) a.reasons + sum_where (is_key o s) b.reasons))
      × (a.phase ≢ b.phase → merge_task_report (some a) b ≡ phases_disagree)
unfolding accumulate
merge_task_report_adds a b valid_a valid_b = (
  (λ same.
      let (made, sound) =
        merge_task_report-accumulate a b (is_valid-IsSound a valid_a) (is_valid-IsSound b valid_b)
          same in
      (
        accumulate a b,
        made,
        IsSound-is_valid (accumulate a b) sound,
        refl,
        refl,
        refl,
        refl,
        refl,
        refl,
        λ o s.
            sum_where-sorted (is_key o s) (a.reasons ++ b.reasons)
            ∙ sum_where-append (is_key o s) a.reasons b.reasons,
      )),
  disagree a b,
)
