-- ===== src/Scans/Reconcile/Thorough.antt =====
-- What an undisturbed reconciliation leaves.
use iceberg_sst.Prelude.{
  All-map, Bool, true, false, none, some, List, [], ◌∷◌, ◌≡◌, refl, ◌≢◌, inl, inr, arith, nat_eq,
  if◌then◌else◌, filter, All, All-from, All-at, Has-filter, Has, Bool-cases, sym, ◌∙◌, ap, subst,
}
use iceberg_sst.Prelude.Rows.{update_where, update_where-All}
use iceberg_sst.Enums.{opened, resolved, ScanStatus, state_eq, scan_status_eq, task_kind_eq}
use iceberg_sst.Models.{Uuid, Datetime, Finding}
use iceberg_sst.Models.Runs.{Scan, ScanTask}
use iceberg_sst.Scans.Reconcile.{
  is_missing, saw_any_content, is_still_open, auto_resolved, resolve_each, Reconciled,
  reconcile_scan, reconcile, unless_blind,
}

-- What no resolution undoes holds after the loop if it held before.
resolve_each-All :
    (Q : Finding → Type 0) (scan_id : Uuid) (missing fs : List Finding)
    → ((f : Finding) → Q f → Q (auto_resolved f))
    → All Q fs
    → All Q (resolve_each scan_id missing fs).findings
unfolding resolve_each
resolve_each-All Q scan_id [] fs keep h = h
resolve_each-All Q scan_id (m ∷ missing) fs keep h =
    resolve_each-All Q scan_id missing (update_where (is_still_open m.id) auto_resolved fs) keep
      (update_where-All Q (is_still_open m.id) auto_resolved fs (λ f e q. keep f q) h)

one_update-closed :
    (id : Uuid) (fs : List Finding)
    → All (λ g. g.id ≡ id → g.state ≢ opened) (update_where (is_still_open id) auto_resolved fs)
unfolding update_where
one_update-closed id [] = tt
one_update-closed id (f ∷ fs) = (at (is_still_open id f) refl, one_update-closed id fs)
  where
    at :
        (b : Bool)
        → is_still_open id f ≡ b
        → (if b then auto_resolved f else f).id ≡ id
        → (if b then auto_resolved f else f).state ≢ opened
    at true e same = λ c. ground arith
    at false e same = λ c. ground (arith, nat_eq.beq_iff f.id id, state_eq.beq_iff f.state opened)

-- No row that the loop was given is open after it.
resolve_each-closed :
    (scan_id : Uuid) (missing fs : List Finding) (m : Finding)
    → Has m missing
    → All (λ g. g.id ≡ m.id → g.state ≢ opened) (resolve_each scan_id missing fs).findings
unfolding resolve_each
resolve_each-closed scan_id [] fs m has = absurd has
resolve_each-closed scan_id (n ∷ missing) fs m (inl same) =
    resolve_each-All (λ g. g.id ≡ m.id → g.state ≢ opened) scan_id missing _
      (λ f q named c. ground arith)
      (subst
        (λ i.
          All (λ g. g.id ≡ i → g.state ≢ opened)
            (update_where (is_still_open n.id) auto_resolved fs))
        (ap (λ x. x.id) same) (one_update-closed n.id fs))
resolve_each-closed scan_id (n ∷ missing) fs m (inr later) =
    resolve_each-closed scan_id missing (update_where (is_still_open n.id) auto_resolved fs) m later

unless_blind_seen : (missing : List Finding) → unless_blind true missing ≡ missing
unless_blind_seen [] = refl
unless_blind_seen (m ∷ missing) = refl

resolve_missing :
    (scan : Scan) (fs : List Finding)
    → All
        (λ g. is_missing scan g ≡ false)
        (resolve_each scan.id (filter (is_missing scan) fs) fs).findings
resolve_missing scan fs =
    All-from (λ g. is_missing scan g ≡ false) after
      (λ g has. elim (Bool-cases (is_missing scan g)) [
        | inl still ↦
            let (m, there, same) = All-at Named after g named has still in
            let closed =
              All-at (λ x. x.id ≡ m.id → x.state ≢ opened) after g
                (resolve_each-closed scan.id missing fs m there) has in
            absurd (closed (sym same) ((state_eq.beq_iff g.state opened).0 (ground arith)))
        | inr gone ↦ gone
      ])
  where
    missing : List Finding
    missing = filter (is_missing scan) fs

    after : List Finding
    after = (resolve_each scan.id missing fs).findings

    Named : Finding → Type 0
    Named g = is_missing scan g ≡ true → (m : Finding) × Has m missing × (m.id ≡ g.id)

    named : All Named after
    named =
        resolve_each-All Named scan.id missing fs
          (λ f q e. ground (arith, state_eq.beq_iff resolved opened))
          (All-from Named fs (λ f has e. (f, Has-filter (is_missing scan) f fs e has, refl)))

-- An open finding of the source in view was seen by the scan.
abbrev pub IsSettled : Scan → Finding → Type 0
IsSettled scan g =
    g.source_id ≡ scan.source_id
    → g.state ≡ opened
    → g.suppressed_at ≡ none
    → g.last_seen_scan_id ≡ scan.id

settled_lem : (scan : Scan) (g : Finding) → is_missing scan g ≡ false → IsSettled scan g
settled_lem scan g e source state bare = ground (
  arith,
  nat_eq.beq_iff g.source_id scan.source_id,
  state_eq.beq_iff g.state opened,
  nat_eq.beq_iff g.last_seen_scan_id scan.id,
)

-- Undisturbed, a completed scan that had a fetch task leaves no open finding of its source that it did
-- not see and that is not suppressed.
pub reconcile_scan_complete :
    (at : Datetime) (scan : Scan) (tasks : List ScanTask) (findings : List Finding)
    → scan.status ≡ ScanStatus.completed
    → saw_any_content tasks scan ≡ true
    → (r : Reconciled) × (reconcile_scan (λ fs. fs) at scan tasks findings ≡ some r)
      × All (IsSettled scan) r.findings
unfolding reconcile_scan reconcile
reconcile_scan_complete at scan tasks findings over saw = (
  reconcile (λ fs. fs) at scan tasks findings,
  ap (λ b. if b then some (reconcile (λ fs. fs) at scan tasks findings) else none)
      ((scan_status_eq.beq_iff scan.status ScanStatus.completed).1 over),
  subst (λ ms. All (IsSettled scan) (resolve_each scan.id ms findings).findings)
      (sym (
        ap (λ b. unless_blind b (filter (is_missing scan) findings)) saw
        ∙ unless_blind_seen (filter (is_missing scan) findings)))
      (All-map (λ g. is_missing scan g ≡ false) (IsSettled scan) _ (settled_lem scan)
        (resolve_missing scan findings)),
)
