-- ===== src/Notifications/Escalation/Targets.antt =====
-- apps/api/src/iceberg_api/notifications/dispatch.py: `_has_escalation_target` and
-- `_escalation_targets`.
use iceberg_sst.Prelude.{
  ◌≤◌, ◌<◌, Bool, true, false, not, ◌&&◌, ◌||◌, Option, none, some, List, [], ◌∷◌, ◌≡◌, refl, inl,
  inr, arith, ◌==◌, nat_eq, option_eq, is_none, any, filter, map, find?, count, Bool-cases, sym,
  ◌∙◌, subst,
}
use iceberg_sst.Enums.{severity_eq}
use iceberg_sst.Models.{Uuid, Finding}
use iceberg_sst.Models.Notifications.{NotificationChannel}
use iceberg_sst.Findings.Ownership.{OwnerGroup}
use iceberg_sst.Notifications.Filters.{channel_wants, wanted_by, is_in, is_empty}
use iceberg_sst.Notifications.Filters.Agree.{wanted_by-channel_wants}
use iceberg_sst.Notifications.Escalation.{
  is_among, is_targeted, has_escalation_target, channel_of, escalation_targets, group_of,
}

is_empty-filter :
    {A : Type 0} (p : A → Bool) (xs : List A) → not (is_empty (filter p xs)) ≡ any p xs
is_empty-filter p [] = refl
is_empty-filter p (x ∷ xs) = ground (arith, is_empty-filter p xs)

broadcast :
    (f : Finding) (channels : List NotificationChannel)
    → any (λ c. wanted_by c f) channels ≡ not (is_empty (filter (λ c. channel_wants c f) channels))
broadcast f channels = same channels ∙ sym (is_empty-filter (λ c. channel_wants c f) channels)
  where
    same :
        (cs : List NotificationChannel)
        → any (λ c. wanted_by c f) cs ≡ any (λ c. channel_wants c f) cs
    same [] = refl
    same (c ∷ cs) = rw (wanted_by-channel_wants c f) (rw (same cs) refl)

-- The channel that a team names is found exactly where it is one of the enabled ones.
channel_found :
    (id : Uuid) (channels : List NotificationChannel)
    → is_in id (map (λ c. c.id) channels)
      ≡ not (is_empty (elim (find? (λ c. c.id == id) channels) [ none ↦ [] | some c ↦ c ∷ [] ]))
channel_found id [] = refl
channel_found id (c ∷ cs) = elim (Bool-cases (c.id == id)) [
  | inl hit ↦ rw hit refl
  | inr missed ↦ rw missed (channel_found id cs)
]

team_channel :
    (o : Option Uuid) (channels : List NotificationChannel)
    → is_among o (map (λ c. c.id) channels) ≡ not (is_empty (channel_of o channels))
team_channel none channels = refl
team_channel (some id) channels = channel_found id channels

-- Where identifiers are distinct, the groups of an identifier that meet a test are the one that is found.
chosen :
    (p : OwnerGroup → Bool) (id : Uuid) (groups : List OwnerGroup) (g : OwnerGroup)
    → count (λ h. h.id == id) groups ≤ 1
    → find? (λ h. h.id == id) groups ≡ some g
    → is_in id (map (λ h. h.id) (filter p groups)) ≡ p g
chosen p id [] g one e = cc
chosen p id (h ∷ hs) g one e = elim (Bool-cases (h.id == id)) [
  | inl hit ↦
      let same : some h ≡ some g = rw hit at e in
      let h_is : h ≡ g = cc in
      let none_later : count (λ k. k.id == id) hs ≡ 0 = ground (arith, one, hit) in
      subst (λ x. is_in id (map (λ k. k.id) (filter p (h ∷ hs))) ≡ p x) h_is
        (first hit (absent p hs none_later))
  | inr missed ↦
      let later : find? (λ k. k.id == id) hs ≡ some g = rw missed at e in
      let rest = chosen p id hs g (ground (arith, one, missed)) later in
      elim (Bool-cases (p h)) [
        | inl kept ↦ rw kept (rw missed rest)
        | inr dropped ↦ rw dropped rest
      ]
]
  where
    absent :
        (q : OwnerGroup → Bool) (ks : List OwnerGroup)
        → count (λ k. k.id == id) ks ≡ 0
        → is_in id (map (λ k. k.id) (filter q ks)) ≡ false
    absent q [] z = refl
    absent q (k ∷ ks) z =
        let away : (k.id == id) ≡ false = ground (arith, z) in
        let rest = absent q ks (ground (arith, z)) in
        elim (Bool-cases (q k)) [
          | inl kept ↦ rw kept (rw away rest)
          | inr dropped ↦ rw dropped rest
        ]

    first :
        (h.id == id) ≡ true
        → is_in id (map (λ k. k.id) (filter p hs)) ≡ false
        → is_in id (map (λ k. k.id) (filter p (h ∷ hs))) ≡ p h
    first hit none_later = elim (Bool-cases (p h)) [
      | inl kept ↦ rw kept (rw hit refl)
      | inr dropped ↦ rw dropped none_later
    ]

found :
    (id : Uuid) (groups : List OwnerGroup)
    → 0 < count (λ g. g.id == id) groups
    → (g : OwnerGroup) × (find? (λ h. h.id == id) groups ≡ some g)
found id [] h = absurd (omega (arith, h))
found id (g ∷ gs) h = elim (Bool-cases (g.id == id)) [
  | inl hit ↦ rw hit (g, refl)
  | inr missed ↦ rw missed (found id gs (ground (arith, h)))
]

-- The owner of a finding, where it has one, is a group of the table: a foreign key.
abbrev pub IsStored : Option Uuid → List OwnerGroup → Type 0
IsStored owner groups = (id : Uuid) → owner ≡ some id → count (λ g. g.id == id) groups ≡ 1

owned_by :
    (channels : List NotificationChannel) (f : Finding) (g : OwnerGroup) {targeted disbanded : Bool}
    → targeted ≡ is_targeted channels g
    → disbanded ≡ g.disabled
    → (targeted || (false || disbanded) && any (λ c. wanted_by c f) channels)
      ≡ not (is_empty (escalation_targets f (some g) channels))
unfolding escalation_targets
owned_by channels f g a b = elim (Bool-cases g.disabled) [
  | inl disabled ↦ rw (a, b) (rw disabled (broadcast f channels))
  | inr enabled ↦
      rw (a, b) (rw enabled (rw (team_channel g.notification_channel_id channels) (or_false _)))
]
  where
    or_false : (x : Bool) → (x || false) ≡ x
    or_false true = refl
    or_false false = refl

-- The query selects a finding for escalation exactly where `escalation_targets` names a channel for it,
-- if the group that owns the finding, where one does, is in the table, and once.
pub has_escalation_target-escalation_targets :
    (channels : List NotificationChannel) (groups : List OwnerGroup) (f : Finding)
    → IsStored f.owner_group_id groups
    → has_escalation_target channels groups f
      ≡ not (is_empty (escalation_targets f (group_of f.owner_group_id groups) channels))
unfolding has_escalation_target escalation_targets
has_escalation_target-escalation_targets channels groups f = by_owner f.owner_group_id
  where
    wants : Bool
    wants = any (λ c. wanted_by c f) channels

    by_owner :
        (owner : Option Uuid)
        → IsStored owner groups
        → (is_among owner (map (λ g. g.id) (filter (is_targeted channels) groups))
            || (is_none owner || is_among owner (map (λ g. g.id) (filter (λ g. g.disabled) groups)))
              && wants)
          ≡ not (is_empty (escalation_targets f (group_of owner groups) channels))
    by_owner none h = broadcast f channels
    by_owner (some id) h =
        let once = h id refl in
        let (g, e) = found id groups (omega (arith, once)) in
        let targeted = chosen (is_targeted channels) id groups g (omega (arith, once)) e in
        let disbanded =
          chosen (λ (k : OwnerGroup). k.disabled) id groups g (omega (arith, once)) e in
        rw e (owned_by channels f g targeted disbanded)
