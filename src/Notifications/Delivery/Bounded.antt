-- ===== src/Notifications/Delivery/Bounded.antt =====
-- apps/api/src/iceberg_api/notifications/dispatch.py: the tries of the outbox, round after round of
-- `deliver_pending`.
use iceberg_sst.Prelude.{
  ℕ, zero, suc, ◌+◌, ◌-◌, ◌≤◌, Bool, true, false, Option, List, [], ◌∷◌, ◌≡◌, refl, ◌⊎◌, inl, inr,
  arith, ◌==◌, nat_eq, leb, if◌then◌else◌, filter, take, count, length, All, All-at, Has,
  filter-Has, Bool-cases, beq_self, sym, ◌∙◌, ap,
}
use iceberg_sst.Prelude.Counting.{count-take, count-Has_pos, both}
use iceberg_sst.Prelude.Rows.{
  update_where, update_where-All, update_where_none, Has-update_where, count-update_where,
}
use iceberg_sst.Enums.{NotificationDeliveryStatus, delivery_status_eq, NotificationChannelType}
use iceberg_sst.Models.{Uuid, Datetime}
use iceberg_sst.Models.Notifications.{NotificationDelivery}
use iceberg_sst.Notifications.Delivery.{
  Settings, Stored, Transport, attempt, is_due, insert_by_time, order_by_time, due_rows,
  deliver_each, deliver_pending,
}
use iceberg_sst.Notifications.Delivery.Attempt.{HasTries, attempt_settles}

abbrev is_row : Uuid → NotificationDelivery → Bool
is_row id r = r.id == id

-- The tries that are left to the rows that are pending.
abbrev tries : Settings → NotificationDelivery → ℕ
tries settings d =
    if d.status == NotificationDeliveryStatus.pending
    then settings.notification_max_attempts - d.attempts
    else 0

abbrev pub budget : Settings → List NotificationDelivery → ℕ
budget settings [] = 0
budget settings (d ∷ ds) = tries settings d + budget settings ds

-- Identifiers are distinct.
abbrev pub Distinct : List NotificationDelivery → Type 0
Distinct rows = (id : Uuid) → count (is_row id) rows ≤ 1

take-Has : {A : Type 0} (n : ℕ) (a : A) (xs : List A) → Has a (take n xs) → Has a xs
take-Has zero a xs m = absurd m
take-Has (suc n) a [] m = absurd m
take-Has (suc n) a (x ∷ xs) (inl same) = inl same
take-Has (suc n) a (x ∷ xs) (inr later) = inr (take-Has n a xs later)

count-filter : {A : Type 0} (p q : A → Bool) (xs : List A) → count p (filter q xs) ≤ count p xs
count-filter p q [] = omega arith
count-filter p q (x ∷ xs) = ground (arith, count-filter p q xs)

count-insert_by_time :
    (p : NotificationDelivery → Bool) (d : NotificationDelivery) (ds : List NotificationDelivery)
    → count p (insert_by_time d ds) ≡ count p (d ∷ ds)
unfolding insert_by_time
count-insert_by_time p d [] = refl
count-insert_by_time p d (e ∷ es) = ground (arith, count-insert_by_time p d es)

count-order_by_time :
    (p : NotificationDelivery → Bool) (ds : List NotificationDelivery)
    → count p (order_by_time ds) ≡ count p ds
unfolding order_by_time
count-order_by_time p [] = refl
count-order_by_time p (d ∷ ds) =
    omega (arith, count-insert_by_time p d (order_by_time ds), count-order_by_time p ds)

insert_by_time-Has :
    (d a : NotificationDelivery) (ds : List NotificationDelivery)
    → Has a (insert_by_time d ds)
    → (d ≡ a) ⊎ Has a ds
unfolding insert_by_time
insert_by_time-Has d a [] m = elim m [ inl same ↦ inl same | inr no_more ↦ absurd no_more ]
insert_by_time-Has d a (e ∷ es) m = elim (Bool-cases (leb d.next_attempt_at e.next_attempt_at)) [
  | inl earlier ↦ rw earlier at m
  | inr later ↦
      let moved : (e ≡ a) ⊎ Has a (insert_by_time d es) = rw later at m in
      elim moved [
        | inl same ↦ inr (inl same)
        | inr deeper ↦ elim (insert_by_time-Has d a es deeper) [
          | inl same ↦ inl same
          | inr has ↦ inr (inr has)
        ]
      ]
]

order_by_time-Has :
    (a : NotificationDelivery) (ds : List NotificationDelivery)
    → Has a (order_by_time ds)
    → Has a ds
unfolding order_by_time
order_by_time-Has a [] m = m
order_by_time-Has a (d ∷ ds) m = elim (insert_by_time-Has d a (order_by_time ds) m) [
  | inl same ↦ inl same
  | inr has ↦ inr (order_by_time-Has a ds has)
]

module _ (settings : Settings) (stored : Stored)
    (transports : NotificationChannelType → Option Transport) where
  -- What an attempt does to the tries of a row that has one left.
  attempt-HasTries :
      (at : Datetime) (d : NotificationDelivery)
      → d.status ≡ NotificationDeliveryStatus.pending
      → HasTries settings d
      → HasTries settings (attempt settings stored transports at d)
  attempt-HasTries at d waiting h =
      let (same, counted, left) = attempt_settles settings stored transports at d in
      (omega (arith, counted, h.1 waiting), λ e. omega (arith, counted, (left e).0))

  attempt-tries :
      (at : Datetime) (d : NotificationDelivery)
      → d.status ≡ NotificationDeliveryStatus.pending
      → HasTries settings d
      → tries settings (attempt settings stored transports at d) + 1 ≤ tries settings d
  attempt-tries at d waiting h =
      let (same, counted, left) = attempt_settles settings stored transports at d in
      let now : (d.status == NotificationDeliveryStatus.pending) ≡ true =
        (delivery_status_eq.beq_iff d.status NotificationDeliveryStatus.pending).1 waiting in
      elim (Bool-cases
        ((attempt settings stored transports at d).status == NotificationDeliveryStatus.pending)) [
          | inl again ↦ rw (again, now) (omega (arith, counted, h.1 waiting))
          | inr ended ↦ rw (ended, now) (omega (arith, h.1 waiting))
        ]

  -- One row written.
  abbrev write :
      Datetime → NotificationDelivery → List NotificationDelivery → List NotificationDelivery
  write at d rows =
      update_where (λ r. r.id == d.id) (λ r. attempt settings stored transports at d) rows

  write-budget :
      (at : Datetime) (d : NotificationDelivery) (rows : List NotificationDelivery)
      → Has d rows
      → count (is_row d.id) rows ≤ 1
      → tries settings (attempt settings stored transports at d) + 1 ≤ tries settings d
      → budget settings (write at d rows) + 1 ≤ budget settings rows
  unfolding update_where
  write-budget at d [] m one spent = absurd m
  write-budget at d (r ∷ rows) (inl same) one spent =
      let hit : (r.id == d.id) ≡ true =
        ap (λ (x : NotificationDelivery). x.id == d.id) same ∙ beq_self d.id in
      let free : count (is_row d.id) rows ≡ 0 = ground (arith, one, hit) in
      let weight : tries settings r ≡ tries settings d = ap (tries settings) same in
      let rest =
        update_where_none (is_row d.id)
          (λ (x : NotificationDelivery). attempt settings stored transports at d) rows free in
      rw hit (rw rest (omega (arith, weight, spent)))
  write-budget at d (r ∷ rows) (inr later) one spent =
      let some_row = count-Has_pos (is_row d.id) rows d later (beq_self d.id) in
      let missed : (r.id == d.id) ≡ false = ground (arith, one, some_row) in
      rw missed (omega (arith, write-budget at d rows later (ground (arith, one, missed)) spent))

  write-Distinct :
      (at : Datetime) (d : NotificationDelivery) (rows : List NotificationDelivery)
      → Distinct rows
      → Distinct (write at d rows)
  write-Distinct at d rows h id = omega (
    arith,
    h id,
    count-update_where (is_row id) (is_row d.id)
        (λ (x : NotificationDelivery). attempt settings stored transports at d) rows
        (λ r e.
          let (same, counted, left) = attempt_settles settings stored transports at d in
          let of_row = (nat_eq.beq_iff r.id d.id).0 e in ap (λ i. i == id) (same ∙ sym of_row)),
  )

  write-HasTries :
      (at : Datetime) (d : NotificationDelivery) (rows : List NotificationDelivery)
      → HasTries settings (attempt settings stored transports at d)
      → All (HasTries settings) rows
      → All (HasTries settings) (write at d rows)
  write-HasTries at d rows good h =
      update_where-All (HasTries settings) (is_row d.id)
        (λ (x : NotificationDelivery). attempt settings stored transports at d) rows (λ r e k. good)
        h

  -- A row of another identifier stays as it is.
  write-Has :
      (at : Datetime) (d a : NotificationDelivery) (rows : List NotificationDelivery)
      → Has a rows
      → (a.id == d.id) ≡ false
      → Has a (write at d rows)
  write-Has at d a rows m other = rw other at (
      Has-update_where (is_row d.id)
        (λ (x : NotificationDelivery). attempt settings stored transports at d) a rows m)

  -- What the rows to be attempted are: pending rows of the table, each once.
  abbrev IsBatch : List NotificationDelivery → List NotificationDelivery → Type 0
  IsBatch due rows =
      Distinct due
      × ((d : NotificationDelivery)
          → Has d due
          → Has d rows × (d.status ≡ NotificationDeliveryStatus.pending))

  IsBatch-rest :
      (at : Datetime) (d : NotificationDelivery) (due rows : List NotificationDelivery)
      → IsBatch (d ∷ due) rows
      → IsBatch due (write at d rows)
  IsBatch-rest at d due rows (one, h) = (
    (λ id. ground (arith, one id)),
    λ a m.
        let (has, waiting) = h a (inr m) in
        let some_row = count-Has_pos (is_row a.id) due a m (beq_self a.id) in
        let missed : (d.id == a.id) ≡ false = ground (arith, one a.id, some_row) in
        (write-Has at d a rows has (turned a.id d.id missed), waiting),
  )
    where
      turned : (x y : Uuid) → (y == x) ≡ false → (x == y) ≡ false
      turned x y e = ground arith

  pub deliver_each_spends :
      (at : Datetime) (due rows : List NotificationDelivery)
      → IsBatch due rows
      → Distinct rows
      → All (HasTries settings) rows
      → All (HasTries settings) (deliver_each settings stored transports at due rows)
        × Distinct (deliver_each settings stored transports at due rows)
        × (budget settings (deliver_each settings stored transports at due rows) + length due
            ≤ budget settings rows)
  unfolding deliver_each
  deliver_each_spends at [] rows batch one h = (h, one, omega arith)
  deliver_each_spends at (d ∷ due) rows batch one h =
      let (has, waiting) = batch.1 d (inl refl) in
      let left = All-at (HasTries settings) rows d h has in
      let (h', one', spent) =
        deliver_each_spends at due (write at d rows) (IsBatch-rest at d due rows batch)
          (write-Distinct at d rows one)
          (write-HasTries at d rows (attempt-HasTries at d waiting left) h) in
      (
        h',
        one',
        omega
            (arith, spent, write-budget at d rows has (one d.id) (attempt-tries at d waiting left)),
      )

  due_rows-IsBatch :
      (at : Datetime) (rows : List NotificationDelivery)
      → Distinct rows
      → IsBatch (due_rows settings stored transports at rows) rows
  unfolding due_rows
  due_rows-IsBatch at rows one =
      let due = filter (is_due at) rows in
      (
        (λ id. omega (
          arith,
          one id,
          count-filter (is_row id) (is_due at) rows,
          count-order_by_time (is_row id) due,
          count-take (is_row id) settings.notification_batch_size (order_by_time due),
        )),
        λ d m.
            let (has, met) = filter-Has (is_due at) d rows (
              order_by_time-Has d due
                (take-Has settings.notification_batch_size d (order_by_time due) m)) in
            (
              has,
              (delivery_status_eq.beq_iff d.status NotificationDeliveryStatus.pending).0
                  ((both (d.status == NotificationDeliveryStatus.pending)
                      (leb d.next_attempt_at at)).0
                    met).0,
            ),
      )

  -- Rounds one after another, at given times, and how many attempts they make.
  unfoldable pub attempts_made : List Datetime → List NotificationDelivery → ℕ
  unfolding deliver_pending due_rows
  attempts_made [] rows = 0
  attempts_made (at ∷ times) rows =
      length (due_rows settings stored transports at rows)
      + attempts_made times (deliver_pending settings stored transports at rows)

  unfoldable pub rounds : List Datetime → List NotificationDelivery → List NotificationDelivery
  unfolding deliver_pending
  rounds [] rows = rows
  rounds (at ∷ times) rows = rounds times (deliver_pending settings stored transports at rows)

  -- Whatever the receivers answer and however often the loop runs, the attempts made are at most the tries
  -- that the pending rows have left, and no row is attempted more than the ceiling allows: each row
  -- keeps within it, and one that is still pending has a try left. The rows stay distinct.
  pub rounds_bounded :
      (times : List Datetime) (rows : List NotificationDelivery)
      → Distinct rows
      → All (HasTries settings) rows
      → (attempts_made times rows + budget settings (rounds times rows) ≤ budget settings rows)
        × All (HasTries settings) (rounds times rows)
        × Distinct (rounds times rows)
  unfolding attempts_made rounds
  rounds_bounded [] rows one h = (omega arith, h, one)
  rounds_bounded (at ∷ times) rows one h =
      let due = due_rows settings stored transports at rows in
      let (h', one', spent) : All (HasTries settings)
            (deliver_pending settings stored transports at rows)
          × Distinct (deliver_pending settings stored transports at rows)
          × (budget settings (deliver_pending settings stored transports at rows) + length due
              ≤ budget settings rows) =
        unfold deliver_pending in
        deliver_each_spends at due rows (due_rows-IsBatch at rows one) one h in
      let (total, kept, distinct) =
        rounds_bounded times (deliver_pending settings stored transports at rows) one' h' in
      (omega (arith, total, spent), kept, distinct)
