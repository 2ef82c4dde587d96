-- ===== src/Scans/Finalize/Guarded.antt =====
-- apps/api/src/iceberg_api/scans/service.py: what lets `finalize_and_reconcile` touch findings,
-- watermarks and announcements.
use iceberg_sst.Prelude.{
  Bool, true, ◌&&◌, Option, none, some, List, [], ◌∷◌, ◌≡◌, refl, ◌⊎◌, inl, inr, ◌==◌, nat_eq,
  find?, filter, map, count, All, All-at, All-from, Has, Bool-cases, sym, ◌∙◌, ap, subst,
}
use iceberg_sst.Prelude.Counting.{both}
use iceberg_sst.Prelude.Rows.{update_where, update_where-All}
use iceberg_sst.Enums.{
  ScanStatus, ScanMode, full, ScanTaskStatus, CoverageState, scan_status_eq, scan_mode_eq,
  coverage_state_eq,
}
use iceberg_sst.Models.{Uuid, Datetime}
use iceberg_sst.Models.Coverage.{CoverageManifest}
use iceberg_sst.Models.Runs.{Scan, ScanTask}
use iceberg_sst.Scans.Tasks.{Tables}
use iceberg_sst.Scans.Coverage.{passed, validation_error, phases_disagree}
use iceberg_sst.Scans.Manifest.Balanced.{tallied, build_manifest-tallied}
use iceberg_sst.Scans.Manifest.Complete.{IsClean, build_manifest_complete}
use iceberg_sst.Scans.Finish.{
  tasks_of, is_done, is_unfinished, final_status, first_error, finalize_scan_if_done,
}
use iceberg_sst.Scans.Finish.Outcome.{finalize_scan_if_done-completed}
use iceberg_sst.Scans.Finalize.{
  Database, World, with_scan, frozen, reconciled, advanced, gated, freeze, with_status,
  after_finishing, finalize_and_reconcile,
}

-- A row of the scan, as it was before it was ended.
abbrev pub IsRow : Tables → Uuid → ScanMode → Type 0
IsRow tables id mode = (r : Scan) × Has r tables.scans × (r.id ≡ id) × (r.mode ≡ mode)

find?-Has :
    {A : Type 0} (p : A → Bool) (xs : List A) (a : A)
    → find? p xs ≡ some a
    → Has a xs × (p a ≡ true)
find?-Has p [] a e = cc
find?-Has p (x ∷ xs) a e = elim (Bool-cases (p x)) [
  | inl met ↦
      let same : some x ≡ some a = rw met at e in
      let x_is : x ≡ a = cc in (inl x_is, ap p (sym x_is) ∙ met)
  | inr unmet ↦
      let later : find? p xs ≡ some a = rw unmet at e in
      let (has, met) = find?-Has p xs a later in (inr has, met)
]

ended_rows :
    (at : Datetime) (scan_id : Uuid) (db db' : Tables) (st : ScanStatus)
    → finalize_scan_if_done at scan_id db ≡ some (db', st)
    → All (λ s. IsRow db s.id s.mode) db'.scans
unfolding finalize_scan_if_done
ended_rows at scan_id db db' st e =
    let tasks = tasks_of scan_id db in
    let final = final_status (map (λ (t : ScanTask). t.status) tasks) in
    let written =
      update_where (is_unfinished scan_id)
        (λ (s : Scan). record s {
          status = final;
          finished_at = some at;
          error = first_error tasks;
        })
        db.scans in
    let good : All (λ s. IsRow db s.id s.mode) written =
      update_where-All (λ s. IsRow db s.id s.mode) (is_unfinished scan_id)
        (λ (s : Scan). record s {
          status = final;
          finished_at = some at;
          error = first_error tasks;
        })
        db.scans (λ r met h. h)
        (All-from (λ s. IsRow db s.id s.mode) db.scans (λ s m. (s, m, refl, refl))) in
    elim (Bool-cases (is_done tasks && count (is_unfinished scan_id) db.scans == 1)) [
      | inl over ↦
          let same : ◌≡◌ {A = Option (Tables × ScanStatus)}
              (some (record db { scans = written }, final)) (some (db', st)) =
            rw over at e in
          let tables_are : ◌≡◌ {A = Tables} (record db { scans = written }) db' = cc in
          subst (λ t. All (λ s. IsRow db s.id s.mode) t.scans) tables_are good
      | inr unfinished ↦
          let never : ◌≡◌ {A = Option (Tables × ScanStatus)} none (some (db', st)) =
            rw unfinished at e in
          cc
    ]

-- Findings and their events are as they were.
abbrev pub SameFindings : Database → Database → Type 0
SameFindings db db' = (db'.findings ≡ db.findings) × (db'.events ≡ db.events)

-- So are watermarks and announcements.
abbrev pub Untouched : Database → Database → Type 0
Untouched db db' =
    SameFindings db db' × (db'.cursors ≡ db.cursors) × (db'.deliveries ≡ db.deliveries)

-- What has to be so for the end of a scan to touch them.
pub record IsAuthorised (world : World) (scan_id : Uuid) (final : ScanStatus) (db db' : Database)
    : Type 0 where
  pub completed : final ≡ ScanStatus.completed
  pub all_completed : All (λ t. t.status ≡ ScanTaskStatus.completed) (tasks_of scan_id db.tables)
  pub all_clean : All (IsClean world.json) (tasks_of scan_id db.tables)
  pub full_only : IsRow db.tables scan_id full ⊎ SameFindings db db'

module _ (world : World) (at : Datetime) where
  reconciled-full :
      (scan : Scan) (db : Database) → (scan.mode ≡ full) ⊎ (reconciled world at scan db ≡ db)
  unfolding reconciled
  reconciled-full scan db = elim (Bool-cases (scan.mode == full)) [
    | inl whole ↦ inl ((scan_mode_eq.beq_iff scan.mode full).0 whole)
    | inr windowed ↦ inr (rw windowed refl)
  ]

  gated_lem :
      (final : ScanStatus) (scan : Scan) (m : CoverageManifest) (db : Database)
      → (gated world at final scan m db ≡ db)
        ⊎ ((final ≡ ScanStatus.completed)
            × (m.coverage_state ≡ CoverageState.complete)
            × ((scan.mode ≡ full) ⊎ SameFindings db (gated world at final scan m db)))
  unfolding gated advanced
  gated_lem final scan m db =
      elim (Bool-cases
        (final == ScanStatus.completed && m.coverage_state == CoverageState.complete)) [
          | inl opens ↦
              let (ended, whole) =
                (both (final == ScanStatus.completed)
                    (m.coverage_state == CoverageState.complete)).0
                  opens in
              inr (
                (scan_status_eq.beq_iff final ScanStatus.completed).0 ended,
                (coverage_state_eq.beq_iff m.coverage_state CoverageState.complete).0 whole,
                elim (reconciled-full scan db) [
                  | inl every ↦ inl every
                  | inr none_written ↦ inr (
                      rw opens (
                        ap (λ (d : Database). d.findings) none_written,
                        ap (λ (d : Database). d.events) none_written,
                      ))
                ],
              )
          | inr shut ↦ inl (rw shut refl)
        ]

  -- The end of a scan, once its status is set.
  freeze_lem :
      (scan_id : Uuid) (final : ScanStatus) (db : Database) (tables : Tables)
      → tables.tasks ≡ db.tables.tasks
      → All (λ s. IsRow db.tables s.id s.mode) tables.scans
      → (o : Option Scan) → find? (λ s. s.id == scan_id) tables.scans ≡ o
      → (db' : Database) × (freeze world at final o (record db { tables = tables }) ≡ passed db')
        × (Untouched db db'
            ⊎ ((final ≡ ScanStatus.completed)
                × All (IsClean world.json) (tasks_of scan_id db.tables)
                × (IsRow db.tables scan_id full ⊎ SameFindings db db')))
  unfolding freeze
  freeze_lem scan_id final db tables same rows none e =
      (record db { tables = tables }, refl, inl ((refl, refl), refl, refl))
  freeze_lem scan_id final db tables same rows (some scan) e =
      let (has, met) = find?-Has (λ (s : Scan). s.id == scan_id) tables.scans scan e in
      let of_id = (nat_eq.beq_iff scan.id scan_id).0 met in
      let tasks = tasks_of scan.id tables in
      let m = tallied world.json scan tasks in
      let made = build_manifest-tallied world.json scan tasks in
      let db0 = with_scan (frozen m scan) (record db { tables = tables }) in
      let db' = gated world at final (frozen m scan) m db0 in
      let same_tasks : tasks ≡ tasks_of scan_id db.tables =
        ap (λ ts. filter (λ (t : ScanTask). t.scan_id == scan.id) ts) same
        ∙ ap (λ i. filter (λ (t : ScanTask). t.scan_id == i) db.tables.tasks) of_id in
      let row = All-at (λ s. IsRow db.tables s.id s.mode) tables.scans scan rows has in
      (
        db',
        ap
            (λ c. elim c [
              | passed x ↦ passed (
                  gated world at final (frozen x scan) x
                    (with_scan (frozen x scan) (record db { tables = tables })))
              | validation_error ↦ validation_error
              | phases_disagree ↦ phases_disagree
            ])
            made,
        elim (gated_lem final (frozen m scan) m db0) [
          | inl shut ↦ inl (
            (ap (λ (d : Database). d.findings) shut, ap (λ (d : Database). d.events) shut),
            ap (λ (d : Database). d.cursors) shut,
            ap (λ (d : Database). d.deliveries) shut,
          )
          | inr (ended, whole, mode) ↦
              let clean = ((build_manifest_complete world.json scan tasks m made).0 whole).1 in
              inr (
                ended,
                subst (All (IsClean world.json)) same_tasks clean,
                elim mode [ inl every ↦ inl (of_row scan of_id every row) | inr kept ↦ inr kept ],
              )
        ],
      )
    where
      of_row :
          (s : Scan)
          → s.id ≡ scan_id
          → s.mode ≡ full
          → IsRow db.tables s.id s.mode
          → IsRow db.tables scan_id full
      of_row s i f (r, m, a, b) = (r, m, a ∙ i, b ∙ f)

-- Whatever the tasks have stored, ending a scan does not raise. Where it ends one, findings, events,
-- watermarks and announcements are as they were, or the scan is completed, every task of it is
-- completed and has a valid report with nothing skipped, failed or missing; and findings and their
-- events are as they were even then, unless the scan is a full one.
pub finalize_and_reconcile_guarded :
    (world : World) (at : Datetime) (scan_id : Uuid) (db : Database)
    → (out : Option (Database × ScanStatus)) × (finalize_and_reconcile world at scan_id db
        ≡ passed out)
      × ((db' : Database) (final : ScanStatus)
          → out ≡ some (db', final)
          → Untouched db db' ⊎ IsAuthorised world scan_id final db db')
unfolding finalize_and_reconcile after_finishing with_status
finalize_and_reconcile_guarded world at scan_id db =
    by_end (finalize_scan_if_done at scan_id db.tables) refl
  where
    by_end :
        (o : Option (Tables × ScanStatus))
        → finalize_scan_if_done at scan_id db.tables ≡ o
        → (out : Option (Database × ScanStatus)) × (after_finishing world at scan_id db o
            ≡ passed out)
          × ((db' : Database) (final : ScanStatus)
              → out ≡ some (db', final)
              → Untouched db db' ⊎ IsAuthorised world scan_id final db db')
    by_end none e = (none, refl, λ db' final q. cc)
    by_end (some (tables, st)) e =
        let (some_tasks, over, same, exact) =
          finalize_scan_if_done-completed at scan_id db.tables tables st e in
        let (db', made, outcome) =
          freeze_lem world at scan_id st db tables same
            (ended_rows at scan_id db.tables tables st e)
            (find? (λ (s : Scan). s.id == scan_id) tables.scans) refl in
        (
          some (db', st),
          ap (with_status world at st) made,
          λ db'' final q.
              let same_db : db' ≡ db'' = cc in
              let same_st : st ≡ final = cc in
              subst (λ d. Untouched db d ⊎ IsAuthorised world scan_id final db d) same_db
                (subst (λ s. Untouched db db' ⊎ IsAuthorised world scan_id s db db') same_st
                  (elim outcome [
                    | inl idle ↦ inl idle
                    | inr (ended, clean, mode) ↦ inr (record {
                      completed = ended;
                      all_completed = exact.0 ended;
                      all_clean = clean;
                      full_only = mode;
                    })
                  ])),
        )
