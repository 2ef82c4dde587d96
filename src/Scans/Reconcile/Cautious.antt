-- ===== src/Scans/Reconcile/Cautious.antt =====
-- Which findings reconciliation resolves.
use iceberg_sst.Prelude.{
  not-eq_true, count, ◌&&◌, Bool, true, false, none, some, List, [], ◌∷◌, ◌≡◌, refl, ◌≢◌, ◌⊎◌, inl,
  inr, arith, ◌==◌, nat_eq, if◌then◌else◌, filter, filter-Has, length, All, All-from, Has,
  Bool-cases, sym, ◌∙◌, ap, subst,
}
use iceberg_sst.Prelude.Rows.{update_where}
use iceberg_sst.Enums.{fetch, opened, resolved, ScanStatus, state_eq, scan_status_eq, task_kind_eq}
use iceberg_sst.Models.{Uuid, Datetime, Finding}
use iceberg_sst.Models.Runs.{Scan, ScanTask}
use iceberg_sst.Scans.Reconcile.{
  is_missing, saw_any_content, is_still_open, auto_resolved, resolve_each, Reconciled,
  reconcile_scan, missing_of, reconcile, unless_blind,
}

-- A row is left as it is, or it was open and is one of the allowed ones, and then it is resolved.
abbrev pub Resolves : (Uuid → Type 0) → Finding → Finding → Type 0
Resolves May f g = (g ≡ f) ⊎ (May f.id × (f.state ≡ opened) × (g ≡ auto_resolved f))

abbrev pub AllResolve : (Uuid → Type 0) → List Finding → List Finding → Type 0
AllResolve May [] [] = Unit
AllResolve May [] (g ∷ gs) = ⊥
AllResolve May (f ∷ fs) [] = ⊥
AllResolve May (f ∷ fs) (g ∷ gs) = Resolves May f g × AllResolve May fs gs

Resolves-trans :
    (May : Uuid → Type 0) (f g h : Finding) → Resolves May f g → Resolves May g h → Resolves May f h
Resolves-trans May f g h (inl same) later = subst (λ x. Resolves May x h) same later
Resolves-trans May f g h (inr (may, open_before, done)) (inl same) =
    inr (may, open_before, same ∙ done)
Resolves-trans May f g h (inr (may, open_before, done)) (inr (_, open_after, _)) =
    let state : g.state ≡ resolved = ap (λ x. x.state) done in ground arith

AllResolve-refl : (May : Uuid → Type 0) (fs : List Finding) → AllResolve May fs fs
AllResolve-refl May [] = tt
AllResolve-refl May (f ∷ fs) = (inl refl, AllResolve-refl May fs)

AllResolve-trans :
    (May : Uuid → Type 0) (fs gs hs : List Finding)
    → AllResolve May fs gs
    → AllResolve May gs hs
    → AllResolve May fs hs
AllResolve-trans May [] [] [] a b = tt
AllResolve-trans May [] [] (h ∷ hs) a b = absurd b
AllResolve-trans May [] (g ∷ gs) hs a b = absurd a
AllResolve-trans May (f ∷ fs) [] hs a b = absurd a
AllResolve-trans May (f ∷ fs) (g ∷ gs) [] a b = absurd b
AllResolve-trans May (f ∷ fs) (g ∷ gs) (h ∷ hs) a b =
    (Resolves-trans May f g h a.0 b.0, AllResolve-trans May fs gs hs a.1 b.1)

one_update :
    (May : Uuid → Type 0) (id : Uuid) (fs : List Finding)
    → May id
    → AllResolve May fs (update_where (is_still_open id) auto_resolved fs)
unfolding update_where
one_update May id [] may = tt
one_update May id (f ∷ fs) may = (at (is_still_open id f) refl, one_update May id fs may)
  where
    at : (b : Bool) → is_still_open id f ≡ b → Resolves May f (if b then auto_resolved f else f)
    at true e = inr (
      subst May (sym ((nat_eq.beq_iff f.id id).0 (ground arith))) may,
      (state_eq.beq_iff f.state opened).0 (ground arith),
      refl,
    )
    at false e = inl refl

resolve_each-AllResolve :
    (May : Uuid → Type 0) (scan_id : Uuid) (missing fs : List Finding)
    → All (λ m. May m.id) missing
    → AllResolve May fs (resolve_each scan_id missing fs).findings
unfolding resolve_each
resolve_each-AllResolve May scan_id [] fs h = AllResolve-refl May fs
resolve_each-AllResolve May scan_id (m ∷ missing) fs h =
    let fs' = update_where (is_still_open m.id) auto_resolved fs in
    AllResolve-trans May fs fs' _ (one_update May m.id fs h.0)
      (resolve_each-AllResolve May scan_id missing fs' h.1)

-- The loop writes one event for each finding that it counts.
resolve_each-events :
    (scan_id : Uuid) (missing fs : List Finding)
    → length (resolve_each scan_id missing fs).events ≡ (resolve_each scan_id missing fs).resolved
unfolding resolve_each
resolve_each-events scan_id [] fs = refl
resolve_each-events scan_id (m ∷ missing) fs = ground (
  arith,
  resolve_each-events scan_id missing (update_where (is_still_open m.id) auto_resolved fs),
)

-- What the scan must have found when it looked, for the finding of that identifier to be resolved: an
-- open finding of its source in view that it did not see, and a fetch task of its own.
abbrev pub MayResolve : Scan → List ScanTask → List Finding → Uuid → Type 0
MayResolve scan tasks findings id =
    (m : Finding) × Has m findings
    × (m.id ≡ id)
    × (m.source_id ≡ scan.source_id)
    × (m.state ≡ opened)
    × (m.last_seen_scan_id ≢ scan.id)
    × (m.suppressed_at ≡ none)
    × (t : ScanTask) × Has t tasks
    × (t.scan_id ≡ scan.id)
    × (t.kind ≡ fetch)

is_missing_lem :
    (scan : Scan) (m : Finding)
    → is_missing scan m ≡ true
    → (m.source_id ≡ scan.source_id)
      × (m.state ≡ opened)
      × (m.last_seen_scan_id ≢ scan.id)
      × (m.suppressed_at ≡ none)
is_missing_lem scan m e = ground (
  arith,
  nat_eq.beq_iff m.source_id scan.source_id,
  state_eq.beq_iff m.state opened,
  nat_eq.beq_iff m.last_seen_scan_id scan.id,
)

count-Has :
    (p : ScanTask → Bool) (ts : List ScanTask)
    → (count p ts == 0) ≡ false
    → (t : ScanTask) × Has t ts × (p t ≡ true)
count-Has p [] e = ground arith
count-Has p (t ∷ ts) e = elim (Bool-cases (p t)) [
  | inl met ↦ (t, inl refl, met)
  | inr unmet ↦ let (u, has, met) = count-Has p ts (ground arith) in (u, inr has, met)
]

saw_any_content_lem :
    (tasks : List ScanTask) (scan : Scan)
    → saw_any_content tasks scan ≡ true
    → (t : ScanTask) × Has t tasks × (t.scan_id ≡ scan.id) × (t.kind ≡ fetch)
saw_any_content_lem tasks scan e =
    let (t, has, met) =
      count-Has (λ t. t.scan_id == scan.id && t.kind == fetch) tasks (not-eq_true _ e) in
    (
      t,
      has,
      (nat_eq.beq_iff t.scan_id scan.id).0 (ground arith),
      (task_kind_eq.beq_iff t.kind fetch).0 (ground arith),
    )

unless_blind-All :
    (P : Finding → Type 0) (saw : Bool) (missing : List Finding)
    → ((m : Finding) → Has m missing → saw ≡ true → P m)
    → All P (unless_blind saw missing)
unless_blind-All P saw [] h = tt
unless_blind-All P true (m ∷ missing) h = All-from P (m ∷ missing) (λ x has. h x has refl)
unless_blind-All P false (m ∷ missing) h = tt

missing_of-May :
    (scan : Scan) (tasks : List ScanTask) (fs : List Finding)
    → All (λ m. MayResolve scan tasks fs m.id) (missing_of scan tasks fs)
missing_of-May scan tasks fs =
    unless_blind-All (λ m. MayResolve scan tasks fs m.id) (saw_any_content tasks scan)
      (filter (is_missing scan) fs)
      (λ m has saw.
        let (there, missing) = filter-Has (is_missing scan) m fs has in
        let (source, state, unseen, bare) = is_missing_lem scan m missing in
        let (t, has_task, own, fetched) = saw_any_content_lem tasks scan saw in
        (m, there, refl, source, state, unseen, bare, t, has_task, own, fetched))

opt_given :
    {A : Type 0} (b : Bool) (x y : A) → (if b then some x else none) ≡ some y → (b ≡ true) × (x ≡ y)
opt_given b x y e = ground arith

-- Whatever other transactions commit meanwhile, a reconciliation that runs is of a completed scan with a
-- fetch task or changes nothing; each row is left as it is or was open both when the scan looked and
-- when it wrote, belonged to the source, was not seen by the scan and not suppressed, and becomes
-- resolved with the resolution auto and no other change; and one event is written per finding counted.
pub reconcile_scan-AllResolve :
    (between : List Finding → List Finding) (at : Datetime) (scan : Scan) (tasks : List ScanTask)
    (findings : List Finding) (r : Reconciled)
    → reconcile_scan between at scan tasks findings ≡ some r
    → (scan.status ≡ ScanStatus.completed)
      × AllResolve (MayResolve scan tasks findings) (between findings) r.findings
      × (length r.events ≡ r.result.resolved)
unfolding reconcile_scan reconcile
reconcile_scan-AllResolve between at scan tasks findings r e =
    let (over, same) =
      opt_given (scan.status == ScanStatus.completed) (reconcile between at scan tasks findings) r
        e in
    (
      (scan_status_eq.beq_iff scan.status ScanStatus.completed).0 over,
      subst (λ x. AllResolve (MayResolve scan tasks findings) (between findings) x.findings) same
          (resolve_each-AllResolve (MayResolve scan tasks findings) scan.id
            (missing_of scan tasks findings) (between findings)
            (missing_of-May scan tasks findings)),
      subst (λ x. length x.events ≡ x.result.resolved) same
          (resolve_each-events scan.id (missing_of scan tasks findings) (between findings)),
    )
