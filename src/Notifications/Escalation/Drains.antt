-- ===== src/Notifications/Escalation/Drains.antt =====
-- apps/api/src/iceberg_api/notifications/dispatch.py: what `escalate_overdue` leaves to escalate, beat
-- after beat.
use iceberg_sst.Prelude.{
  ℕ, zero, suc, ◌+◌, ◌≤◌, ◌<◌, Bool, true, false, not, ◌&&◌, Option, none, some, List, [], ◌∷◌,
  ◌++◌, ◌≡◌, refl, ◌⊎◌, inl, inr, arith, ◌==◌, nat_eq, option_eq, if◌then◌else◌, any, filter,
  length, take, count, All, All-at, Has, filter-Has, Bool-cases, beq_self, sym, ◌∙◌, ap,
}
use iceberg_sst.Prelude.Counting.{length-filter, any-append, both}
use iceberg_sst.Enums.{notification_kind_eq, finding_overdue}
use iceberg_sst.Models.{Uuid, Datetime, Finding}
use iceberg_sst.Models.Notifications.{NotificationChannel, NotificationDelivery}
use iceberg_sst.Findings.Ownership.{OwnerGroup, actionable}
use iceberg_sst.Notifications.Filters.{is_empty}
use iceberg_sst.Notifications.Escalation.{
  has_escalation_target, channel_of, escalation_targets, group_of, is_escalation, is_late,
  is_overdue, insert_by_due, order_by_due, is_before, escalation, escalate_to, escalate_each,
  escalate_among, escalate_overdue,
}
use iceberg_sst.Notifications.Escalation.Targets.{
  IsStored, has_escalation_target-escalation_targets,
}

-- Fewer members meet the narrower of two tests, if one meets only the wider.
count_le :
    {A : Type 0} (p q : A → Bool) (xs : List A)
    → ((x : A) → q x ≡ true → p x ≡ true)
    → count q xs ≤ count p xs
count_le p q [] h = omega arith
count_le p q (x ∷ xs) h = elim (Bool-cases (q x)) [
  | inl met ↦ rw met (rw (h x met) (omega (arith, count_le p q xs h)))
  | inr unmet ↦ rw unmet (ground (arith, count_le p q xs h))
]

count_lt :
    {A : Type 0} (p q : A → Bool) (a : A) (xs : List A)
    → ((x : A) → q x ≡ true → p x ≡ true)
    → Has a xs
    → p a ≡ true
    → q a ≡ false
    → count q xs < count p xs
count_lt p q a [] h m e f = absurd m
count_lt p q a (x ∷ xs) h (inl same) e f =
    let e' : p x ≡ true = ap p same ∙ e in
    let f' : q x ≡ false = ap q same ∙ f in rw e' (rw f' (omega (arith, count_le p q xs h)))
count_lt p q a (x ∷ xs) h (inr later) e f =
    let rest = count_lt p q a xs h later e f in
    elim (Bool-cases (q x)) [
      | inl met ↦ rw met (rw (h x met) (omega (arith, rest)))
      | inr unmet ↦ rw unmet (ground (arith, rest))
    ]

-- The first finding in order is one of those that were ordered.
insert_by_due-Has :
    (f a : Finding) (fs : List Finding) → Has a (insert_by_due f fs) → (f ≡ a) ⊎ Has a fs
unfolding insert_by_due
insert_by_due-Has f a [] m = elim m [ inl same ↦ inl same | inr no_more ↦ absurd no_more ]
insert_by_due-Has f a (g ∷ gs) m = elim (Bool-cases (is_before f g)) [
  | inl earlier ↦ rw earlier at m
  | inr later ↦
      let moved : (g ≡ a) ⊎ Has a (insert_by_due f gs) = rw later at m in
      elim moved [
        | inl same ↦ inr (inl same)
        | inr deeper ↦ elim (insert_by_due-Has f a gs deeper) [
          | inl same ↦ inl same
          | inr has ↦ inr (inr has)
        ]
      ]
]

order_by_due-Has : (a : Finding) (fs : List Finding) → Has a (order_by_due fs) → Has a fs
unfolding order_by_due
order_by_due-Has a [] m = m
order_by_due-Has a (f ∷ fs) m = elim (insert_by_due-Has f a (order_by_due fs) m) [
  | inl same ↦ inl same
  | inr has ↦ inr (order_by_due-Has a fs has)
]

length-insert_by_due :
    (f : Finding) (fs : List Finding) → length (insert_by_due f fs) ≡ length fs + 1
unfolding insert_by_due
length-insert_by_due f [] = refl
length-insert_by_due f (g ∷ gs) = ground (arith, length-insert_by_due f gs)

length-order_by_due : (fs : List Finding) → length (order_by_due fs) ≡ length fs
unfolding order_by_due
length-order_by_due [] = refl
length-order_by_due (f ∷ fs) =
    omega (arith, length-insert_by_due f (order_by_due fs), length-order_by_due fs)

module _ (uuid4 : ℕ → Uuid) (at : Datetime) where
  -- A row that is there stays there.
  escalate_to-any :
      (p : NotificationDelivery → Bool) (f : Finding) (cs : List NotificationChannel)
      (ds : List NotificationDelivery)
      → any p ds ≡ true
      → any p (escalate_to uuid4 at f cs ds) ≡ true
  unfolding escalate_to
  escalate_to-any p f [] ds e = e
  escalate_to-any p f (c ∷ cs) ds e =
      let new = escalation (uuid4 (length ds)) at f c in
      escalate_to-any p f cs (ds ++ new ∷ []) (ground (arith, any-append p ds (new ∷ []), e))

  escalate_each-any :
      (p : NotificationDelivery → Bool) (channels : List NotificationChannel)
      (groups : List OwnerGroup) (fs : List Finding) (ds : List NotificationDelivery)
      → any p ds ≡ true
      → any p (escalate_each uuid4 at channels groups fs ds) ≡ true
  unfolding escalate_each
  escalate_each-any p channels groups [] ds e = e
  escalate_each-any p channels groups (f ∷ fs) ds e =
      let targets = escalation_targets f (group_of f.owner_group_id groups) channels in
      escalate_each-any p channels groups fs (escalate_to uuid4 at f targets ds)
        (escalate_to-any p f targets ds e)

  is_escalation-escalation :
      (id : Uuid) (f : Finding) (c : NotificationChannel)
      → is_escalation f (escalation id at f c) ≡ true
  is_escalation-escalation id f c =
      let a : (f.id == f.id) ≡ true = beq_self f.id in
      let b : (f.due_at == f.due_at) ≡ true = beq_self f.due_at in
      let k : (finding_overdue == finding_overdue) ≡ true = beq_self finding_overdue in
      rw (a, b, k) refl

  -- A finding with a target is escalated.
  escalate_to-tells :
      (f : Finding) (cs : List NotificationChannel) (ds : List NotificationDelivery)
      → not (is_empty cs) ≡ true
      → any (is_escalation f) (escalate_to uuid4 at f cs ds) ≡ true
  unfolding escalate_to
  escalate_to-tells f [] ds e = cc
  escalate_to-tells f (c ∷ cs) ds e =
      let new = escalation (uuid4 (length ds)) at f c in
      escalate_to-any (is_escalation f) f cs (ds ++ new ∷ []) (
        ground (
          arith,
          any-append (is_escalation f) ds (new ∷ []),
          is_escalation-escalation (uuid4 (length ds)) f c,
        ))

module _ (uuid4 : ℕ → Uuid) (at : Datetime) (channels : List NotificationChannel)
    (groups : List OwnerGroup) where
  -- A finding that is overdue after a beat was overdue before it.
  overdue_before :
      (fs : List Finding) (ds : List NotificationDelivery) (f : Finding)
      → is_overdue at channels groups (escalate_each uuid4 at channels groups fs ds) f ≡ true
      → is_overdue at channels groups ds f ≡ true
  unfolding is_overdue
  overdue_before fs ds f e = elim (Bool-cases (any (is_escalation f) ds)) [
    | inl already ↦
        let still = escalate_each-any uuid4 at (is_escalation f) channels groups fs ds already in
        absurd (refused still e)
    | inr fresh ↦ rw fresh (kept e)
  ]
    where
      refused :
          any (is_escalation f) (escalate_each uuid4 at channels groups fs ds) ≡ true
          → (actionable f
              && is_late at f
              && not (any (is_escalation f) (escalate_each uuid4 at channels groups fs ds))
              && has_escalation_target channels groups f)
            ≡ true
          → ⊥
      refused still q = ground arith

      kept :
          (actionable f
              && is_late at f
              && not (any (is_escalation f) (escalate_each uuid4 at channels groups fs ds))
              && has_escalation_target channels groups f)
            ≡ true
          → (actionable f && is_late at f && not false && has_escalation_target channels groups f)
            ≡ true
      kept q = ground arith

  -- A finding that was escalated is no longer overdue.
  not_overdue :
      (ds : List NotificationDelivery) (f : Finding)
      → any (is_escalation f) ds ≡ true
      → is_overdue at channels groups ds f ≡ false
  unfolding is_overdue
  not_overdue ds f e = rw e (ground arith)

  targeted :
      (ds : List NotificationDelivery) (f : Finding)
      → IsStored f.owner_group_id groups
      → is_overdue at channels groups ds f ≡ true
      → not (is_empty (escalation_targets f (group_of f.owner_group_id groups) channels)) ≡ true
  unfolding is_overdue
  targeted ds f stored e =
      sym (has_escalation_target-escalation_targets channels groups f stored)
      ∙ ((both (actionable f && is_late at f && not (any (is_escalation f) ds))
            (has_escalation_target channels groups f)).0
          e).1

  first_escalated :
      (limit : ℕ) (findings : List Finding) (ds : List NotificationDelivery) (sorted : List Finding)
      → 0 < limit
      → All (λ f. IsStored f.owner_group_id groups) findings
      → 0 < length sorted
      → ((f : Finding)
          → Has f sorted
          → Has f findings × (is_overdue at channels groups ds f ≡ true))
      → count
          (is_overdue at channels groups
            (escalate_each uuid4 at channels groups (take limit sorted) ds))
          findings
        < count (is_overdue at channels groups ds) findings
  unfolding escalate_each
  first_escalated zero findings ds sorted pos stored some_left h = absurd (omega (arith, pos))
  first_escalated (suc n) findings ds [] pos stored some_left h = absurd (omega (arith, some_left))
  first_escalated (suc n) findings ds (f ∷ fs) pos stored some_left h =
      let (has, due) = h f (inl refl) in
      let targets = escalation_targets f (group_of f.owner_group_id groups) channels in
      let told = escalate_to-tells uuid4 at f targets ds (
        targeted ds f (All-at (λ g. IsStored g.owner_group_id groups) findings f stored has) due) in
      let ds' = escalate_each uuid4 at channels groups (f ∷ take n fs) ds in
      let told' =
        escalate_each-any uuid4 at (is_escalation f) channels groups (take n fs)
          (escalate_to uuid4 at f targets ds) told in
      count_lt (is_overdue at channels groups ds) (is_overdue at channels groups ds') f findings
        (λ g q. overdue_before (f ∷ take n fs) ds g q) has due (not_overdue ds' f told')

  beat-lt :
      (limit : ℕ) (findings : List Finding) (ds : List NotificationDelivery)
      → 0 < limit
      → All (λ f. IsStored f.owner_group_id groups) findings
      → 0 < count (is_overdue at channels groups ds) findings
      → count
          (is_overdue at channels groups
            (escalate_among uuid4 at limit channels groups findings ds))
          findings
        < count (is_overdue at channels groups ds) findings
  unfolding escalate_among
  beat-lt limit findings ds pos stored some_left =
      let due = filter (is_overdue at channels groups ds) findings in
      first_escalated limit findings ds (order_by_due due) pos stored
        (omega (
          arith,
          length-order_by_due due,
          length-filter (is_overdue at channels groups ds) findings,
          some_left,
        ))
        (λ f m. filter-Has (is_overdue at channels groups ds) f findings (order_by_due-Has f due m))

among_before :
    (uuid4 : ℕ → Uuid) (at : Datetime) (channels : List NotificationChannel)
    (groups : List OwnerGroup) (limit : ℕ) (findings : List Finding)
    (ds : List NotificationDelivery) (f : Finding)
    → is_overdue at channels groups (escalate_among uuid4 at limit channels groups findings ds) f
      ≡ true
    → is_overdue at channels groups ds f ≡ true
unfolding escalate_among
among_before uuid4 at channels groups limit findings ds f q =
    overdue_before uuid4 at channels groups
      (take limit (order_by_due (filter (is_overdue at channels groups ds) findings))) ds f q

-- With no channel enabled, nothing is overdue that has anywhere to go.
none_overdue :
    (at : Datetime) (groups : List OwnerGroup) (findings : List Finding)
    (ds : List NotificationDelivery)
    → All (λ f. IsStored f.owner_group_id groups) findings
    → count (is_overdue at [] groups ds) findings ≡ 0
unfolding is_overdue escalation_targets
none_overdue at groups [] ds stored = refl
none_overdue at groups (f ∷ fs) ds stored =
    let nowhere =
      has_escalation_target-escalation_targets [] groups f stored.0
      ∙ silent (group_of f.owner_group_id groups) in
    ground (arith, nowhere, none_overdue at groups fs ds stored.1)
  where
    by_id : (o : Option Uuid) → not (is_empty (channel_of o [])) ≡ false
    by_id none = refl
    by_id (some id) = refl

    silent : (g : Option OwnerGroup) → not (is_empty (escalation_targets f g [])) ≡ false
    silent none = refl
    silent (some g) = elim (Bool-cases g.disabled) [
      | inl disabled ↦ rw disabled refl
      | inr enabled ↦ rw enabled (by_id g.notification_channel_id)
    ]

module _ (uuid4 : ℕ → Uuid) (at : Datetime) (limit : ℕ) (channels : List NotificationChannel)
    (groups : List OwnerGroup) (findings : List Finding) where
  -- How many findings are overdue, have not been escalated, and have somewhere to go.
  abbrev pub waiting : List NotificationDelivery → ℕ
  waiting ds = count (is_overdue at (filter (λ c. c.enabled) channels) groups ds) findings

  -- Beats one after another, with no other change to the tables.
  unfoldable pub beats : ℕ → List NotificationDelivery → List NotificationDelivery
  unfolding escalate_overdue
  beats zero ds = ds
  beats (suc n) ds = beats n (escalate_overdue uuid4 at limit channels groups findings ds)

  beat-waiting :
      (ds : List NotificationDelivery)
      → 0 < limit
      → All (λ f. IsStored f.owner_group_id groups) findings
      → 0 < waiting ds
      → waiting (escalate_overdue uuid4 at limit channels groups findings ds) < waiting ds
  unfolding escalate_overdue
  beat-waiting ds pos stored some_left =
      at_channels (filter (λ (c : NotificationChannel). c.enabled) channels) some_left
    where
      at_channels :
          (enabled : List NotificationChannel)
          → 0 < count (is_overdue at enabled groups ds) findings
          → count
              (is_overdue at enabled groups (
                if is_empty enabled
                then ds
                else escalate_among uuid4 at limit enabled groups findings ds))
              findings
            < count (is_overdue at enabled groups ds) findings
      at_channels [] left = absurd (omega (arith, none_overdue at groups findings ds stored, left))
      at_channels (c ∷ cs) left = beat-lt uuid4 at (c ∷ cs) groups limit findings ds pos stored left

  beat-idle :
      (ds : List NotificationDelivery)
      → waiting ds ≡ 0
      → waiting (escalate_overdue uuid4 at limit channels groups findings ds) ≡ 0
  unfolding escalate_overdue
  beat-idle ds e = at_channels (filter (λ (c : NotificationChannel). c.enabled) channels) e
    where
      at_channels :
          (enabled : List NotificationChannel)
          → count (is_overdue at enabled groups ds) findings ≡ 0
          → count
              (is_overdue at enabled groups (
                if is_empty enabled
                then ds
                else escalate_among uuid4 at limit enabled groups findings ds))
              findings
            ≡ 0
      at_channels [] z = z
      at_channels (c ∷ cs) z = omega (
        arith,
        z,
        count_le (is_overdue at (c ∷ cs) groups ds)
            (is_overdue at (c ∷ cs) groups
              (escalate_among uuid4 at limit (c ∷ cs) groups findings ds))
            findings (λ f q. among_before uuid4 at (c ∷ cs) groups limit findings ds f q),
      )

  -- With a page of at least one finding, and every owner a group of the table, as many beats as there
  -- are findings to escalate leave none: each beat escalates at least one more, whatever has no target.
  pub beats_drain :
      (n : ℕ) (ds : List NotificationDelivery)
      → 0 < limit
      → All (λ f. IsStored f.owner_group_id groups) findings
      → waiting ds ≤ n
      → waiting (beats n ds) ≡ 0
  unfolding beats
  beats_drain zero ds pos stored bound = omega (arith, bound)
  beats_drain (suc n) ds pos stored bound = elim (Bool-cases (waiting ds == 0)) [
    | inl idle ↦
        beats_drain n (escalate_overdue uuid4 at limit channels groups findings ds) pos stored
          (omega (arith, beat-idle ds ((nat_eq.beq_iff (waiting ds) 0).0 idle)))
    | inr busy ↦
        beats_drain n (escalate_overdue uuid4 at limit channels groups findings ds) pos stored (
          omega (
            arith,
            bound,
            beat-waiting ds pos stored (ground (arith, nat_eq.beq_iff (waiting ds) 0, busy)),
          ))
  ]
