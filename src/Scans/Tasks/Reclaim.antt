-- ===== src/Scans/Tasks/Reclaim.antt =====
-- What the sweep over expired leases changes.
use iceberg_sst.Prelude.{
  Bool, true, false, List, [], ◌∷◌, ◌≡◌, refl, ◌⊎◌, inl, inr, arith, nat_eq, if◌then◌else◌, filter,
  map, All, All-from, All-at, Has, Has-filter, Bool-cases, ◌∙◌, subst, ap,
}
use iceberg_sst.Prelude.Rows.{update_where, update_where-All}
use iceberg_sst.Enums.{ScanTaskStatus}
use iceberg_sst.Models.{Uuid, Datetime}
use iceberg_sst.Models.Runs.{ScanTask}
use iceberg_sst.Scans.Tasks.{
  Tables, is_expired, requeued, is_reclaimable, requeue_one, reclaim_each, reclaim_expired_leases,
}

-- A row is left as it is, or its lease had lapsed and it goes back to the queue without an engine.
abbrev pub Reclaims : Datetime → ScanTask → ScanTask → Type 0
Reclaims at t u = (u ≡ t) ⊎ ((is_expired at t ≡ true) × (u ≡ requeued at t))

abbrev pub AllReclaim : Datetime → List ScanTask → List ScanTask → Type 0
AllReclaim at [] [] = Unit
AllReclaim at [] (u ∷ us) = ⊥
AllReclaim at (t ∷ ts) [] = ⊥
AllReclaim at (t ∷ ts) (u ∷ us) = Reclaims at t u × AllReclaim at ts us

Reclaims-trans :
    (at : Datetime) (t u v : ScanTask) → Reclaims at t u → Reclaims at u v → Reclaims at t v
Reclaims-trans at t u v (inl same) later = subst (λ x. Reclaims at x v) same later
Reclaims-trans at t u v (inr (lapsed, done)) (inl same) = inr (lapsed, same ∙ done)
Reclaims-trans at t u v (inr (lapsed, done)) (inr (again, _)) =
    let queued : u.status ≡ ScanTaskStatus.queued = ap (λ x. x.status) done in ground arith

AllReclaim-refl : (at : Datetime) (ts : List ScanTask) → AllReclaim at ts ts
AllReclaim-refl at [] = tt
AllReclaim-refl at (t ∷ ts) = (inl refl, AllReclaim-refl at ts)

AllReclaim-trans :
    (at : Datetime) (ts us vs : List ScanTask)
    → AllReclaim at ts us
    → AllReclaim at us vs
    → AllReclaim at ts vs
AllReclaim-trans at [] [] [] a b = tt
AllReclaim-trans at [] [] (v ∷ vs) a b = absurd b
AllReclaim-trans at [] (u ∷ us) vs a b = absurd a
AllReclaim-trans at (t ∷ ts) [] vs a b = absurd a
AllReclaim-trans at (t ∷ ts) (u ∷ us) [] a b = absurd b
AllReclaim-trans at (t ∷ ts) (u ∷ us) (v ∷ vs) a b =
    (Reclaims-trans at t u v a.0 b.0, AllReclaim-trans at ts us vs a.1 b.1)

requeue-AllReclaim :
    (at : Datetime) (id : Uuid) (ts : List ScanTask)
    → AllReclaim at ts (update_where (is_reclaimable at id) (requeued at) ts)
unfolding update_where
requeue-AllReclaim at id [] = tt
requeue-AllReclaim at id (t ∷ ts) =
    (case (is_reclaimable at id t) refl, requeue-AllReclaim at id ts)
  where
    case : (b : Bool) → is_reclaimable at id t ≡ b → Reclaims at t (if b then requeued at t else t)
    case true e = inr (ground arith, refl)
    case false e = inl refl

reclaim_each-AllReclaim :
    (at : Datetime) (ids : List Uuid) (db : Tables)
    → AllReclaim at db.tasks (reclaim_each at ids db).0.tasks
unfolding reclaim_each
reclaim_each-AllReclaim at [] db = AllReclaim-refl at db.tasks
reclaim_each-AllReclaim at (id ∷ ids) db =
    AllReclaim-trans at db.tasks (requeue_one at id db).tasks _ (requeue-AllReclaim at id db.tasks)
      (reclaim_each-AllReclaim at ids (requeue_one at id db))

-- What no requeueing undoes holds after the loop if it held before.
reclaim_each-All :
    (Q : ScanTask → Type 0) (at : Datetime) (ids : List Uuid) (db : Tables)
    → ((t : ScanTask) → Q t → Q (requeued at t))
    → All Q db.tasks
    → All Q (reclaim_each at ids db).0.tasks
unfolding reclaim_each
reclaim_each-All Q at [] db keep h = h
reclaim_each-All Q at (id ∷ ids) db keep h =
    reclaim_each-All Q at ids (requeue_one at id db) keep
      (update_where-All Q (is_reclaimable at id) (requeued at) db.tasks (λ t e q. keep t q) h)

requeue-live :
    (at : Datetime) (id : Uuid) (ts : List ScanTask)
    → All
        (λ t. t.id ≡ id → is_expired at t ≡ false)
        (update_where (is_reclaimable at id) (requeued at) ts)
unfolding update_where
requeue-live at id [] = tt
requeue-live at id (t ∷ ts) = (case (is_reclaimable at id t) refl, requeue-live at id ts)
  where
    case :
        (b : Bool)
        → is_reclaimable at id t ≡ b
        → (if b then requeued at t else t).id ≡ id
        → is_expired at (if b then requeued at t else t) ≡ false
    case true e same = refl
    case false e same = ground (arith, nat_eq.beq_iff t.id id)

-- No task that the loop was given has an expired lease after it.
reclaim_each-live :
    (at : Datetime) (ids : List Uuid) (db : Tables) (id : Uuid)
    → Has id ids
    → All (λ t. t.id ≡ id → is_expired at t ≡ false) (reclaim_each at ids db).0.tasks
unfolding reclaim_each
reclaim_each-live at [] db id has = absurd has
reclaim_each-live at (j ∷ ids) db id (inl same) =
    reclaim_each-All (λ t. t.id ≡ id → is_expired at t ≡ false) at ids (requeue_one at j db)
      (λ t q e. refl)
      (subst (λ i. All (λ t. t.id ≡ i → is_expired at t ≡ false) (requeue_one at j db).tasks) same
        (requeue-live at j db.tasks))
reclaim_each-live at (j ∷ ids) db id (inr later) =
    reclaim_each-live at ids (requeue_one at j db) id later

-- Whatever other transactions commit after the sweep has looked, each row is left as it is unless its
-- lease had still expired when it was written, and then it is queued again and held by no engine.
pub reclaim_expired_leases-AllReclaim :
    (between : Tables → Tables) (at : Datetime) (db : Tables)
    → AllReclaim at (between db).tasks (reclaim_expired_leases between at db).0.tasks
unfolding reclaim_expired_leases
reclaim_expired_leases-AllReclaim between at db =
    reclaim_each-AllReclaim at (map (λ t. t.id) (filter (is_expired at) db.tasks)) (between db)

Has-map : (t : ScanTask) (ts : List ScanTask) → Has t ts → Has t.id (map (λ u. u.id) ts)
Has-map t [] has = absurd has
Has-map t (u ∷ ts) (inl same) = inl (ap (λ x. x.id) same)
Has-map t (u ∷ ts) (inr later) = inr (Has-map t ts later)

-- Undisturbed, the sweep leaves no task under an expired lease.
pub reclaim_expired_leases-All :
    (at : Datetime) (db : Tables)
    → All (λ t. is_expired at t ≡ false) (reclaim_expired_leases (λ d. d) at db).0.tasks
unfolding reclaim_expired_leases
reclaim_expired_leases-All at db =
    All-from (λ t. is_expired at t ≡ false) after
      (λ t has. elim (Bool-cases (is_expired at t)) [
        | inl lapsed ↦
            All-at (λ x. x.id ≡ t.id → is_expired at x ≡ false) after t
              (reclaim_each-live at ids db t.id (All-at Named after t named has lapsed)) has refl
        | inr live ↦ live
      ])
  where
    ids : List Uuid
    ids = map (λ t. t.id) (filter (is_expired at) db.tasks)

    after : List ScanTask
    after = (reclaim_each at ids db).0.tasks

    Named : ScanTask → Type 0
    Named t = is_expired at t ≡ true → Has t.id ids

    named : All Named after
    named =
        reclaim_each-All Named at ids db (λ t q e. ground arith)
          (All-from Named db.tasks (λ t has e.
            Has-map t (filter (is_expired at) db.tasks)
              (Has-filter (is_expired at) t db.tasks e has)))
