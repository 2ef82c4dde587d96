-- ===== src/Scans/Coverage/Stored.antt =====
-- apps/api/src/iceberg_api/scans/coverage.py: the report that a task stores, and the one that a
-- cancellation writes over it.
use iceberg_sst.Prelude.{
  ◌+◌, ◌<◌, true, ◌&&◌, Option, none, some, ◌≡◌, ◌≢◌, refl, inl, inr, arith, ◌==◌, if◌then◌else◌,
  Bool-cases, Option-cases, sym, ◌∙◌, ap, subst,
}
use iceberg_sst.Enums.{
  ScanTaskKind, discovery, fetch, CoverageReason, CoverageDisposition, task_kind_eq,
  coverage_reason_allowed, disposition_eq, reason_eq,
}
use iceberg_sst.Models.Json.{Fields, end, field}
use iceberg_sst.Models.Coverage.{TaskCoverageReport}
use iceberg_sst.Models.Runs.{ScanTask}
use iceberg_sst.Engines.Reports.{is_key, sum_where, is_valid}
use iceberg_sst.Scans.Coverage.{
  passed, validation_error, phases_disagree, ReportJson, accepted, validated_report,
  cancelled_report, failure_report, construct, merge_task_report,
}
use iceberg_sst.Scans.Coverage.Merging.{merge_task_report_adds}

accepted-valid :
    (json : ReportJson) (kind : ScanTaskKind) (o : Option TaskCoverageReport)
    (r : TaskCoverageReport)
    → accepted json kind o ≡ some r
    → (is_valid r ≡ true) × (r.phase ≡ kind)
unfolding accepted
accepted-valid json kind none r e = cc
accepted-valid json kind (some s) r e = elim (Bool-cases (is_valid s && s.phase == kind)) [
  | inl good ↦
      let same : some s ≡ some r = rw good at e in
      let (valid, phase) : (is_valid s ≡ true) × ((s.phase == kind) ≡ true) =
        (ground arith, ground arith) in
      ((cc), (cc ((task_kind_eq.beq_iff s.phase kind).0 phase)))
  | inr bad ↦ let never : ◌≡◌ {A = Option TaskCoverageReport} none (some r) = rw bad at e in cc
]

pub validated_report-valid :
    (json : ReportJson) (task : ScanTask) (r : TaskCoverageReport)
    → validated_report json task ≡ some r
    → (is_valid r ≡ true) × (r.phase ≡ task.kind)
unfolding validated_report
validated_report-valid json task r = at task.coverage
  where
    at :
        (f : Fields)
        → (elim f [
          | end ↦ none
          | field n v rest ↦ accepted json task.kind (json.parse (field n v rest))
        ])
          ≡ some r
        → (is_valid r ≡ true) × (r.phase ≡ task.kind)
    at end e = cc
    at (field n v rest) e = accepted-valid json task.kind (json.parse (field n v rest)) r e

-- A valid report of the task's kind is read back after it is dumped.
pub validated_report-dump :
    (json : ReportJson) (task : ScanTask) (r : TaskCoverageReport)
    → is_valid r ≡ true
    → r.phase ≡ task.kind
    → task.coverage ≡ json.dump r
    → validated_report json task ≡ some r
unfolding validated_report accepted
validated_report-dump json task r valid phase stored =
    at task.coverage (λ e. json.dump-end r (sym stored ∙ e))
      (ap json.parse stored ∙ json.parse-dump r)
  where
    at :
        (f : Fields)
        → f ≢ end
        → json.parse f ≡ some r
        → (elim f [
          | end ↦ none
          | field n v rest ↦ accepted json task.kind (json.parse (field n v rest))
        ])
          ≡ some r
    at end full e = absurd (full refl)
    at (field n v rest) full e =
        let same : (r.phase == task.kind) ≡ true =
          (task_kind_eq.beq_iff r.phase task.kind).1 phase in
        rw e (rw valid (rw same refl))

-- `failure_report` with a reason that a gap of scope may have passes its validators.
failure_report-valid :
    (phase : ScanTaskKind) (s : CoverageReason)
    → coverage_reason_allowed CoverageDisposition.scope_gap s ≡ true
    → is_valid (failure_report phase s) ≡ true
unfolding is_valid failure_report
failure_report-valid discovery s e = ground arith
failure_report-valid fetch s e = ground arith

cancelled-valid :
    (phase : ScanTaskKind) → is_valid (failure_report phase CoverageReason.cancelled) ≡ true
unfolding coverage_reason_allowed
cancelled-valid phase = failure_report-valid phase CoverageReason.cancelled refl

abbrev gap_of : ScanTask → TaskCoverageReport
gap_of task = failure_report task.kind CoverageReason.cancelled

cancelled-passed : (task : ScanTask) → construct (gap_of task) ≡ passed (gap_of task)
unfolding construct
cancelled-passed task = rw (cancelled-valid task.kind) refl

cancelled_report-merge_task_report :
    (json : ReportJson) (task : ScanTask)
    → cancelled_report json task ≡ merge_task_report (validated_report json task) (gap_of task)
unfolding cancelled_report
cancelled_report-merge_task_report json task =
    ap
      (λ c. elim c [
        | passed cancelled ↦ merge_task_report (validated_report json task) cancelled
        | validation_error ↦ validation_error
        | phases_disagree ↦ phases_disagree
      ])
      (cancelled-passed task)

-- Whatever a task has stored, `cancelled_report` does not raise. Its report has passed its validators
-- and is read back from the task; it has a gap of scope more than the report that was stored, if one
-- counted, and the counts of that report; its subtotals are those of that report, with one more for
-- the scope that was cancelled.
pub cancelled_report_keeps :
    (json : ReportJson) (task : ScanTask)
    → (r : TaskCoverageReport) × (cancelled_report json task ≡ passed r)
      × (validated_report json (record task { coverage = json.dump r }) ≡ some r)
      × (0 < r.scope.gaps)
      × ((s : TaskCoverageReport)
          → validated_report json task ≡ some s
          → (r.scope.gaps ≡ s.scope.gaps + 1)
            × (r.counts.scanned ≡ s.counts.scanned)
            × (r.counts.skipped ≡ s.counts.skipped)
            × (r.counts.failed ≡ s.counts.failed)
            × ((o : CoverageDisposition) (why : CoverageReason)
                → sum_where (is_key o why) r.reasons
                  ≡ sum_where (is_key o why) s.reasons
                    + (if is_key o why CoverageDisposition.scope_gap CoverageReason.cancelled
                        then 1
                        else 0)))
cancelled_report_keeps json task = elim (Option-cases (validated_report json task)) [
  | inl absent ↦
      let gap = gap_of task in
      let valid = cancelled-valid task.kind in
      (
        gap,
        cancelled_report-merge_task_report json task ∙ rw absent (unfold merge_task_report in refl),
        validated_report-dump json (record task { coverage = json.dump gap }) gap valid
            (unfold failure_report in refl) refl,
        (unfold failure_report in omega arith),
        λ s e. cc,
      )
  | inr (stored, found) ↦
      let (valid, phase) = validated_report-valid json task stored found in
      let gap = gap_of task in
      let gap_phase : gap.phase ≡ task.kind = unfold failure_report in refl in
      let gap_valid = cancelled-valid task.kind in
      let (r, made, r_valid, r_phase, scanned, skipped, failed, discovered, gaps, subtotals) =
        (merge_task_report_adds stored gap valid gap_valid).0 (phase ∙ sym gap_phase) in
      (
        r,
        cancelled_report-merge_task_report json task ∙ (rw found made),
        validated_report-dump json (record task { coverage = json.dump r }) r r_valid
            (r_phase ∙ phase) refl,
        (unfold failure_report in omega (arith, gaps)),
        λ s e.
            let same : stored ≡ s = cc in
            subst
              (λ x.
                (r.scope.gaps ≡ x.scope.gaps + 1)
                × (r.counts.scanned ≡ x.counts.scanned)
                × (r.counts.skipped ≡ x.counts.skipped)
                × (r.counts.failed ≡ x.counts.failed)
                × ((o : CoverageDisposition) (why : CoverageReason)
                    → sum_where (is_key o why) r.reasons
                      ≡ sum_where (is_key o why) x.reasons
                        + (if is_key o why CoverageDisposition.scope_gap CoverageReason.cancelled
                            then 1
                            else 0)))
              same
              (unfold failure_report in
                (
                  gaps,
                  omega (arith, scanned),
                  omega (arith, skipped),
                  omega (arith, failed),
                  λ o why. omega (arith, subtotals o why),
                )),
      )
]
