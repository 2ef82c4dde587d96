-- ===== src/Scans/Manifest/Complete.antt =====
-- apps/api/src/iceberg_api/scans/coverage.py: when a manifest says that coverage is complete.
use iceberg_sst.Prelude.{
  ℕ, ◌+◌, not, ◌||◌, none, some, List, [], ◌∷◌, ◌≡◌, ◌≢◌, ◌↔◌, refl, inl, inr, arith, ◌==◌, nat_eq,
  if◌then◌else◌, All, Bool-cases, Option-cases, sym, ◌∙◌, ap, subst,
}
use iceberg_sst.Enums.{ScanStatus, CoverageState}
use iceberg_sst.Models.Coverage.{TaskCoverageReport, CoverageManifest}
use iceberg_sst.Models.Runs.{Scan, ScanTask}
use iceberg_sst.Scans.Coverage.{passed, ReportJson, validated_report}
use iceberg_sst.Scans.Manifest.{
  Tally, no_tally, unaccounted, accounted, account, coverage_state, assembled, tally_tasks,
  build_manifest,
}
use iceberg_sst.Scans.Manifest.Balanced.{tallied, build_manifest-tallied}

-- A task with a report that counts, which read everything it came upon.
pub record IsClean (json : ReportJson) (task : ScanTask) : Type 0 where
  pub report : TaskCoverageReport
  pub read : validated_report json task ≡ some report
  pub no_skips : report.counts.skipped ≡ 0
  pub no_failures : report.counts.failed ≡ 0
  pub no_gaps : report.scope.gaps ≡ 0

abbrev troubles : Tally → ℕ
troubles t = t.counts.skipped + t.counts.failed + t.scope_gaps + t.unreported

account-troubles :
    (json : ReportJson) (task : ScanTask) (t : Tally)
    → (troubles (account task (validated_report json task) t) ≡ 0)
      ↔ ((troubles t ≡ 0) × IsClean json task)
unfolding account accounted unaccounted
account-troubles json task t = elim (Option-cases (validated_report json task)) [
  | inl absent ↦ rw absent ((λ e. ground arith), (λ h. absurd (missing absent h.1)))
  | inr (r, found) ↦ rw found (
    (λ e. (
      omega arith,
      record {
        report = r;
        read = found;
        no_skips = omega arith;
        no_failures = omega arith;
        no_gaps = omega arith;
      },
    )),
    (λ h.
        let same : h.1.report ≡ r = cc (h.1.read) in
        let a = ap (λ x. x.counts.skipped) same in
        let b = ap (λ x. x.counts.failed) same in
        let c = ap (λ x. x.scope.gaps) same in
        omega (arith, h.0, h.1.no_skips, h.1.no_failures, h.1.no_gaps)),
  )
]
  where
    missing : validated_report json task ≡ none → IsClean json task → ⊥
    missing absent clean = cc (clean.read)

tally_tasks-troubles :
    (json : ReportJson) (tasks : List ScanTask) (t : Tally)
    → (troubles (tally_tasks json tasks t) ≡ 0) ↔ ((troubles t ≡ 0) × All (IsClean json) tasks)
unfolding tally_tasks
tally_tasks-troubles json [] t = ((λ e. (e, tt)), (λ h. h.0))
tally_tasks-troubles json (task ∷ tasks) t =
    let rest = tally_tasks-troubles json tasks (account task (validated_report json task) t) in
    let first = account-troubles json task t in
    (
      (λ e.
          let (now, later) = rest.0 e in
          let (before, here) = first.0 now in (before, (here, later))),
      (λ h. rest.1 (first.1 (h.0, h.1.0), h.1.1)),
    )

-- A status that does not by itself decide the state of the coverage.
abbrev pub IsUnbroken : ScanStatus → Type 0
IsUnbroken s = (s ≢ ScanStatus.cancelled) × (s ≢ ScanStatus.failed) × (s ≢ ScanStatus.partial)

partial_if_any :
    (skipped failed gaps unreported : ℕ)
    → ((if not (skipped == 0) || not (failed == 0) || not (gaps == 0) || not (unreported == 0)
          then CoverageState.partial
          else CoverageState.complete)
        ≡ CoverageState.complete)
      ↔ (skipped + failed + gaps + unreported ≡ 0)
partial_if_any skipped failed gaps unreported =
    elim (Bool-cases
      (not (skipped == 0) || not (failed == 0) || not (gaps == 0) || not (unreported == 0))) [
        | inl some_left ↦ rw some_left ((λ e. cc), (λ e. ground arith))
        | inr none_left ↦ rw none_left ((λ e. ground arith), (λ e. refl))
      ]

coverage_state-complete :
    (s : ScanStatus) (skipped failed gaps unreported : ℕ)
    → (coverage_state s skipped failed gaps unreported ≡ CoverageState.complete)
      ↔ (IsUnbroken s × (skipped + failed + gaps + unreported ≡ 0))
unfolding coverage_state
coverage_state-complete ScanStatus.cancelled a b c d = ((λ e. cc), (λ h. absurd (h.0.0 refl)))
coverage_state-complete ScanStatus.failed a b c d = ((λ e. cc), (λ h. absurd (h.0.1 refl)))
coverage_state-complete ScanStatus.partial a b c d = ((λ e. cc), (λ h. absurd (h.0.2 refl)))
coverage_state-complete ScanStatus.queued a b c d = (
  (λ e. (((λ q. cc), (λ q. cc), (λ q. cc)), (partial_if_any a b c d).0 e)),
  (λ h. (partial_if_any a b c d).1 h.1),
)
coverage_state-complete ScanStatus.discovering a b c d = (
  (λ e. (((λ q. cc), (λ q. cc), (λ q. cc)), (partial_if_any a b c d).0 e)),
  (λ h. (partial_if_any a b c d).1 h.1),
)
coverage_state-complete ScanStatus.running a b c d = (
  (λ e. (((λ q. cc), (λ q. cc), (λ q. cc)), (partial_if_any a b c d).0 e)),
  (λ h. (partial_if_any a b c d).1 h.1),
)
coverage_state-complete ScanStatus.completed a b c d = (
  (λ e. (((λ q. cc), (λ q. cc), (λ q. cc)), (partial_if_any a b c d).0 e)),
  (λ h. (partial_if_any a b c d).1 h.1),
)

tallied_complete :
    (json : ReportJson) (scan : Scan) (tasks : List ScanTask)
    → ((tallied json scan tasks).coverage_state ≡ CoverageState.complete)
      ↔ (IsUnbroken scan.status × All (IsClean json) tasks)
unfolding assembled
tallied_complete json scan tasks =
    let t = tally_tasks json tasks no_tally in
    let state =
      coverage_state-complete scan.status t.counts.skipped t.counts.failed t.scope_gaps
        t.unreported in
    let nothing = tally_tasks-troubles json tasks no_tally in
    (
      (λ e. let (unbroken, zero_sum) = state.0 e in (unbroken, (nothing.0 zero_sum).1)),
      (λ h. state.1 (h.0, nothing.1 (refl, h.1))),
    )

-- A manifest says that the coverage is complete exactly when the scan was not cancelled, did not fail
-- and is not partial, and every one of its tasks has a valid report of its kind in which nothing was
-- skipped, nothing failed and no scope is missing.
pub build_manifest_complete :
    (json : ReportJson) (scan : Scan) (tasks : List ScanTask) (m : CoverageManifest)
    → build_manifest json scan tasks ≡ passed m
    → (m.coverage_state ≡ CoverageState.complete)
      ↔ (IsUnbroken scan.status × All (IsClean json) tasks)
build_manifest_complete json scan tasks m made =
    subst
      (λ x.
        (x.coverage_state ≡ CoverageState.complete)
        ↔ (IsUnbroken scan.status × All (IsClean json) tasks))
      (inverse (sym (build_manifest-tallied json scan tasks) ∙ made))
      (tallied_complete json scan tasks)
  where
    inverse : {a b : CoverageManifest} → passed a ≡ passed b → a ≡ b
    inverse e = cc
