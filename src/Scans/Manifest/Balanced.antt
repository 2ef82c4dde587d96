-- ===== src/Scans/Manifest/Balanced.antt =====
-- apps/api/src/iceberg_api/scans/coverage.py: what the tallies of `build_manifest` add up to.
use iceberg_sst.Prelude.{
  ℕ, ◌+◌, ◌-◌, ◌≤◌, true, Option, none, some, List, [], ◌∷◌, ◌++◌, ◌≡◌, refl, inl, inr, arith,
  nat_eq, leb, if◌then◌else◌, length, take, map, All, All-append, length-append, Option-cases, ◌∙◌,
}
use iceberg_sst.Prelude.Counting.{length-take, take-All, All-all}
use iceberg_sst.Enums.{
  CoverageReason, CoverageDisposition, CoverageDisposition-discrete, coverage_reason_allowed,
}
use iceberg_sst.Models.Coverage.{
  CoverageGap, TaskCoverageReport, CoverageManifestGap, CoverageManifest,
}
use iceberg_sst.Models.Runs.{Scan, ScanTask}
use iceberg_sst.Engines.Reports.{
  max_gap_references, is_hex, is_reason_valid, is_gap_valid, sum_where, of_outcome,
  counts_reconcile, scope_reconciles,
}
use iceberg_sst.Engines.Reports.Sound.{IsSound, is_valid-IsSound}
use iceberg_sst.Scans.Coverage.{
  passed, ReportJson, bump, tally_reasons, sort_reasons, validated_report,
}
use iceberg_sst.Scans.Coverage.Counter.{
  AllValid, sum_where-bump, bump-valid, sum_where-tally_reasons, tally_reasons-valid,
  sum_where-sort_reasons, sort_reasons-valid,
}
use iceberg_sst.Scans.Coverage.Stored.{validated_report-valid}
use iceberg_sst.Scans.Manifest.{
  Tally, no_tally, unaccounted, manifest_gap, accounted, account, requested_scope, assembled,
  is_manifest_valid, tally_tasks, build_manifest,
}

abbrev AllHex : List CoverageManifestGap → Type 0
AllHex gs = All (λ g. is_hex 64 g.reference ≡ true) gs

-- What holds of the local variables of `build_manifest` after each task.
record IsBalanced (t : Tally) : Type 0 where
  requested : t.counts.requested ≡ t.counts.discovered
  reconciled : t.counts.discovered ≡ t.counts.scanned + t.counts.skipped + t.counts.failed
  entries : AllValid t.reasons
  references : AllHex t.gaps
  capped : length t.gaps ≤ max_gap_references
  referenced : length t.gaps + t.gaps_omitted ≡ t.counts.skipped + t.counts.failed + t.scope_gaps
  skipped : sum_where (of_outcome CoverageDisposition.skipped) t.reasons ≡ t.counts.skipped
  failed : sum_where (of_outcome CoverageDisposition.failed) t.reasons ≡ t.counts.failed
  gaps : sum_where (of_outcome CoverageDisposition.scope_gap) t.reasons ≡ t.scope_gaps

unaccounted-IsBalanced :
    (task : ScanTask) (t : Tally) → IsBalanced t → IsBalanced (unaccounted task t)
unfolding unaccounted coverage_reason_allowed CoverageDisposition-discrete
unaccounted-IsBalanced task t h = record {
  requested = h.requested;
  reconciled = h.reconciled;
  entries =
      bump-valid CoverageDisposition.scope_gap CoverageReason.unreported 1 t.reasons (omega arith)
        refl h.entries;
  references = h.references;
  capped = h.capped;
  referenced = omega (arith, h.referenced);
  skipped = sum_of CoverageDisposition.skipped ∙ omega (arith, h.skipped);
  failed = sum_of CoverageDisposition.failed ∙ omega (arith, h.failed);
  gaps = sum_of CoverageDisposition.scope_gap ∙ omega (arith, h.gaps);
}
  where
    sum_of :
        (o : CoverageDisposition)
        → sum_where
            (of_outcome o)
            (bump CoverageDisposition.scope_gap CoverageReason.unreported 1 t.reasons)
          ≡ sum_where (of_outcome o) t.reasons
            + (if of_outcome o CoverageDisposition.scope_gap CoverageReason.unreported
                then 1
                else 0)
    sum_of o =
        sum_where-bump (of_outcome o) CoverageDisposition.scope_gap CoverageReason.unreported 1
          t.reasons

length-map : {A B : Type 0} (f : A → B) (xs : List A) → length (map f xs) ≡ length xs
length-map f [] = refl
length-map f (x ∷ xs) = omega (arith, length-map f xs)

manifest_gaps-AllHex :
    (task : ScanTask) (r : TaskCoverageReport) (gs : List CoverageGap)
    → All (λ g. is_gap_valid g ≡ true) gs
    → AllHex (map (manifest_gap task r) gs)
unfolding is_gap_valid
manifest_gaps-AllHex task r [] h = tt
manifest_gaps-AllHex task r (g ∷ gs) h = (ground (arith, h.0), manifest_gaps-AllHex task r gs h.1)

accounted-IsBalanced :
    (task : ScanTask) (r : TaskCoverageReport) (t : Tally)
    → IsSound r
    → IsBalanced t
    → IsBalanced (accounted task r t)
unfolding accounted
accounted-IsBalanced task r t s h = record {
  requested = omega (arith, h.requested, s.requested);
  reconciled = omega (arith, h.reconciled, s.reconciled);
  entries = tally_reasons-valid r.reasons t.reasons s.entries h.entries;
  references =
      All-append (λ g. is_hex 64 g.reference ≡ true) t.gaps (map (manifest_gap task r) kept)
        h.references
        (manifest_gaps-AllHex task r kept
          (take-All (λ g. is_gap_valid g ≡ true) room r.gaps s.references));
  capped = omega (arith, sizes, length-take room r.gaps, h.capped);
  referenced = omega (arith, sizes, length-take room r.gaps, h.referenced, s.referenced);
  skipped = omega (arith, sum_of CoverageDisposition.skipped, h.skipped, s.skipped);
  failed = omega (arith, sum_of CoverageDisposition.failed, h.failed, s.failed);
  gaps = omega (arith, sum_of CoverageDisposition.scope_gap, h.gaps, s.gaps);
}
  where
    room : ℕ
    room = max_gap_references - length t.gaps

    kept : List CoverageGap
    kept = take room r.gaps

    sizes : length (t.gaps ++ map (manifest_gap task r) kept) ≡ length t.gaps + length kept
    sizes = omega (
      arith,
      length-append t.gaps (map (manifest_gap task r) kept),
      length-map (manifest_gap task r) kept,
    )

    sum_of :
        (o : CoverageDisposition)
        → sum_where (of_outcome o) (tally_reasons r.reasons t.reasons)
          ≡ sum_where (of_outcome o) r.reasons + sum_where (of_outcome o) t.reasons
    sum_of o = sum_where-tally_reasons (of_outcome o) r.reasons t.reasons

account-IsBalanced :
    (json : ReportJson) (task : ScanTask) (t : Tally)
    → IsBalanced t
    → IsBalanced (account task (validated_report json task) t)
unfolding account
account-IsBalanced json task t h = elim (Option-cases (validated_report json task)) [
  | inl absent ↦ rw absent (unaccounted-IsBalanced task t h)
  | inr (r, found) ↦ rw found (
      accounted-IsBalanced task r t
        (is_valid-IsSound r (validated_report-valid json task r found).0) h)
]

tally_tasks-IsBalanced :
    (json : ReportJson) (tasks : List ScanTask) (t : Tally)
    → IsBalanced t
    → IsBalanced (tally_tasks json tasks t)
unfolding tally_tasks
tally_tasks-IsBalanced json [] t h = h
tally_tasks-IsBalanced json (task ∷ tasks) t h =
    tally_tasks-IsBalanced json tasks (account task (validated_report json task) t)
      (account-IsBalanced json task t h)

no_tally-IsBalanced : IsBalanced no_tally
no_tally-IsBalanced = record {
  requested = refl;
  reconciled = refl;
  entries = tt;
  references = tt;
  capped = omega arith;
  referenced = refl;
  skipped = refl;
  failed = refl;
  gaps = refl;
}

-- Every task is either reported or not.
account_counts :
    (task : ScanTask) (o : Option TaskCoverageReport) (t : Tally)
    → (account task o t).reported + (account task o t).unreported ≡ t.reported + t.unreported + 1
unfolding account accounted unaccounted
account_counts task none t = omega arith
account_counts task (some r) t = omega arith

tally_tasks_counts :
    (json : ReportJson) (tasks : List ScanTask) (t : Tally)
    → (tally_tasks json tasks t).reported + (tally_tasks json tasks t).unreported
      ≡ t.reported + t.unreported + length tasks
unfolding tally_tasks
tally_tasks_counts json [] t = omega arith
tally_tasks_counts json (task ∷ tasks) t = omega (
  arith,
  account_counts task (validated_report json task) t,
  tally_tasks_counts json tasks (account task (validated_report json task) t),
)

requested_scope-reconciles :
    (t : Tally)
    → scope_reconciles (record {
      requested = requested_scope t;
      discovered = t.scope_discovered;
      gaps = t.scope_gaps;
    })
      ≡ true
unfolding requested_scope
requested_scope-reconciles t =
    ground (arith, nat_eq.beq_iff t.discovery_requested (t.scope_discovered + t.scope_gaps))

assembled-valid :
    (scan : Scan) (tasks : List ScanTask) (t : Tally)
    → IsBalanced t
    → is_manifest_valid (assembled scan tasks t) ≡ true
unfolding is_manifest_valid assembled
assembled-valid scan tasks t h =
    let a : counts_reconcile t.counts ≡ true = ground (arith, h.requested, h.reconciled) in
    let b = requested_scope-reconciles t in
    let c =
      All-all is_reason_valid (sort_reasons t.reasons) (sort_reasons-valid t.reasons h.entries) in
    let d = All-all (λ (g : CoverageManifestGap). is_hex 64 g.reference) t.gaps h.references in
    let e : leb (length t.gaps) max_gap_references ≡ true = ground (arith, h.capped) in
    rw (a, b, c, d, e) refl

abbrev pub tallied : ReportJson → Scan → List ScanTask → CoverageManifest
tallied json scan tasks = assembled scan tasks (tally_tasks json tasks no_tally)

pub build_manifest-tallied :
    (json : ReportJson) (scan : Scan) (tasks : List ScanTask)
    → build_manifest json scan tasks ≡ passed (tallied json scan tasks)
unfolding build_manifest
build_manifest-tallied json scan tasks =
    rw
      (assembled-valid scan tasks (tally_tasks json tasks no_tally)
        (tally_tasks-IsBalanced json tasks no_tally no_tally-IsBalanced))
      refl

-- Whatever the tasks of a scan have stored, its manifest is made and passes its validators. What was not
-- read is accounted for: the references and the omitted ones are as many as the objects that were
-- skipped or failed and the gaps of scope, the subtotals of each outcome add up to its total, and each
-- task is either reported or not.
pub build_manifest_accounts :
    (json : ReportJson) (scan : Scan) (tasks : List ScanTask)
    → (m : CoverageManifest) × (build_manifest json scan tasks ≡ passed m)
      × (is_manifest_valid m ≡ true)
      × (length m.gaps + m.gaps_omitted ≡ m.counts.skipped + m.counts.failed + m.scope.gaps)
      × (sum_where (of_outcome CoverageDisposition.skipped) m.reasons ≡ m.counts.skipped)
      × (sum_where (of_outcome CoverageDisposition.failed) m.reasons ≡ m.counts.failed)
      × (sum_where (of_outcome CoverageDisposition.scope_gap) m.reasons ≡ m.scope.gaps)
      × (m.task_counts.reported + m.task_counts.unreported ≡ length tasks)
unfolding assembled
build_manifest_accounts json scan tasks =
    let t = tally_tasks json tasks no_tally in
    let h = tally_tasks-IsBalanced json tasks no_tally no_tally-IsBalanced in
    (
      tallied json scan tasks,
      build_manifest-tallied json scan tasks,
      assembled-valid scan tasks t h,
      h.referenced,
      sum_where-sort_reasons (of_outcome CoverageDisposition.skipped) t.reasons ∙ h.skipped,
      sum_where-sort_reasons (of_outcome CoverageDisposition.failed) t.reasons ∙ h.failed,
      sum_where-sort_reasons (of_outcome CoverageDisposition.scope_gap) t.reasons ∙ h.gaps,
      omega (arith, tally_tasks_counts json tasks no_tally),
    )
