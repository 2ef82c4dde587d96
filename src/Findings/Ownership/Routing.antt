-- ===== src/Findings/Ownership/Routing.antt =====
-- Which rule routes a finding, and which findings routing leaves alone.
use iceberg_sst.Prelude.{
  ◌≡◌, refl, ◌≢◌, ◌⊎◌, inl, inr, Bool, true, false, ◌||◌, List, [], ◌∷◌, ◌++◌, String, nat_eq,
  option_eq, is_some, arith, if◌then◌else◌, All, filter, Bool-cases, ap, sym, ◌∙◌, subst,
}
use iceberg_sst.Models.{Uuid, Finding}
use iceberg_sst.Findings.Events.{Logged, unlogged, reopenings}
use iceberg_sst.Models.Sources.{Source}
use iceberg_sst.Findings.Ownership.{
  OwnerGroup, RoutingRule, ResponseTarget, Policy, tags_for, precedes, insert_rule, order_rules,
  in_force, load, matches, routed, route_by, route,
}

module _ (casefold : String → String) (tags : List String) (scan_id : Uuid) (f : Finding) where
  -- What the rules do to the finding: the first that claims it gives it its group and one event; where
  -- none does, nothing happens.
  abbrev pub RoutedBy : List RoutingRule → Logged → Type 0
  RoutedBy rules l =
      (All (λ r. matches casefold r f tags ≡ false) rules × (l ≡ unlogged f))
      ⊎ ((before : List RoutingRule) × (rule : RoutingRule) × (after : List RoutingRule) × (rules
            ≡ before ++ rule ∷ after)
          × All (λ r. matches casefold r f tags ≡ false) before
          × (matches casefold rule f tags ≡ true)
          × (l ≡ routed casefold rule scan_id f))

  RoutedBy-cons :
      (rule : RoutingRule) (rules : List RoutingRule) (l : Logged)
      → matches casefold rule f tags ≡ false
      → RoutedBy rules l
      → RoutedBy (rule ∷ rules) l
  RoutedBy-cons rule rules l miss (inl (missed, same)) = inl ((miss, missed), same)
  RoutedBy-cons rule rules l miss (inr (before, r, after, split, missed, hit, e)) =
      inr (rule ∷ before, r, after, ap (λ l. rule ∷ l) split, (miss, missed), hit, e)

  route_by-RoutedBy :
      (rules : List RoutingRule) → RoutedBy rules (route_by casefold rules tags scan_id f)
  unfolding route_by
  route_by-RoutedBy [] = inl (tt, refl)
  route_by-RoutedBy (rule ∷ rules) =
      let claimed = λ (b : Bool).
        if b then routed casefold rule scan_id f else route_by casefold rules tags scan_id f in
      elim (Bool-cases (matches casefold rule f tags)) [
        | inl hit ↦ inr ([], rule, rules, refl, tt, hit, ap claimed hit)
        | inr miss ↦
            subst (RoutedBy (rule ∷ rules)) (sym (ap claimed miss))
              (RoutedBy-cons rule rules _ miss (route_by-RoutedBy rules))
      ]

precedes_trans :
    (a b c : RoutingRule) → precedes a b ≡ true → precedes b c ≡ true → precedes a c ≡ true
unfolding precedes
precedes_trans a b c h k = ground arith

precedes_asym : (a b : RoutingRule) → precedes a b ≡ true → precedes b a ≡ false
unfolding precedes
precedes_asym a b h = ground arith

precedes_total : (a b : RoutingRule) → a.id ≢ b.id → precedes a b ≡ false → precedes b a ≡ true
unfolding precedes
precedes_total a b ne h = ground arith

-- Rules with distinct ids may be inserted in either order.
insert_rule_comm :
    (a b : RoutingRule) (l : List RoutingRule)
    → a.id ≢ b.id
    → insert_rule a (insert_rule b l) ≡ insert_rule b (insert_rule a l)
unfolding insert_rule
insert_rule_comm a b [] ne =
    ground (arith, precedes_asym a b, precedes_asym b a, precedes_total a b ne)
insert_rule_comm a b (c ∷ l) ne = ground (
  arith,
  precedes_asym a b,
  precedes_asym b a,
  precedes_total a b ne,
  precedes_trans a b c,
  precedes_trans b a c,
  precedes_trans c a b,
  precedes_trans c b a,
  insert_rule_comm a b l ne,
)

-- The rows of a table read in another order. Two rows have two ids.
pub data Reordered : List RoutingRule → List RoutingRule → Type 0 where
  none_moved : (l : List RoutingRule) → Reordered l l
  behind : (r : RoutingRule) {l m : List RoutingRule} → Reordered l m → Reordered (r ∷ l) (r ∷ m)
  exchange :
      (a b : RoutingRule) (l : List RoutingRule) → a.id ≢ b.id → Reordered (a ∷ b ∷ l) (b ∷ a ∷ l)
  both : {l m n : List RoutingRule} → Reordered l m → Reordered m n → Reordered l n

filter-Reordered :
    (p : RoutingRule → Bool) {l m : List RoutingRule}
    → Reordered l m
    → Reordered (filter p l) (filter p m)
filter-Reordered p (none_moved l) = none_moved (filter p l)
filter-Reordered p (behind r {l} {m} h) = elim (Bool-cases (p r)) [
  | inl kept ↦ rw kept (behind r (filter-Reordered p h))
  | inr dropped ↦ rw dropped (filter-Reordered p h)
]
filter-Reordered p (exchange a b l ne) = elim (Bool-cases (p a)) [
  | inl a_kept ↦ elim (Bool-cases (p b)) [
    | inl b_kept ↦ rw (a_kept, b_kept) (exchange a b (filter p l) ne)
    | inr b_gone ↦ rw (a_kept, b_gone) (none_moved (a ∷ filter p l))
  ]
  | inr a_gone ↦ elim (Bool-cases (p b)) [
    | inl b_kept ↦ rw (a_gone, b_kept) (none_moved (b ∷ filter p l))
    | inr b_gone ↦ rw (a_gone, b_gone) (none_moved (filter p l))
  ]
]
filter-Reordered p (both h k) = both (filter-Reordered p h) (filter-Reordered p k)

order_rules-Reordered : {l m : List RoutingRule} → Reordered l m → order_rules l ≡ order_rules m
unfolding order_rules
order_rules-Reordered (none_moved l) = refl
order_rules-Reordered (behind r h) = ap (insert_rule r) (order_rules-Reordered h)
order_rules-Reordered (exchange a b l ne) = insert_rule_comm a b (order_rules l) ne
order_rules-Reordered (both h k) = order_rules-Reordered h ∙ order_rules-Reordered k

load-Reordered :
    (strip casefold : String → String) (rules rules' : List RoutingRule) (groups : List OwnerGroup)
    (targets : List ResponseTarget) (sources : List Source) (source_id : Uuid)
    → Reordered rules rules'
    → load strip casefold rules groups targets sources source_id
      ≡ load strip casefold rules' groups targets sources source_id
unfolding load
load-Reordered strip casefold rules rules' groups targets sources source_id moved =
    rw (order_rules-Reordered (filter-Reordered (in_force groups) moved)) refl

-- Routing a finding under the policy that one source's rows give: a pinned or owned finding is left
-- as it is; any other is routed by the first of the loaded rules that claims it, or by none. The
-- outcome is the same in whatever order the database returns the routing rules.
pub route_by_first :
    (strip casefold : String → String) (rules rules' : List RoutingRule) (groups : List OwnerGroup)
    (targets : List ResponseTarget) (sources : List Source) (scan_id : Uuid) (f : Finding)
    → Reordered rules rules'
    → let policy = load strip casefold rules groups targets sources f.source_id in
      let policy' = load strip casefold rules' groups targets sources f.source_id in
      (route casefold policy scan_id f ≡ route casefold policy' scan_id f)
      × (((f.owner_pinned || is_some f.owner_group_id) ≡ true)
            × (route casefold policy scan_id f ≡ unlogged f)
          ⊎ ((f.owner_pinned || is_some f.owner_group_id) ≡ false)
            × RoutedBy casefold
                (tags_for policy f.source_id)
                scan_id
                f
                policy.rules
                (route casefold policy scan_id f))
unfolding route
route_by_first strip casefold rules rules' groups targets sources scan_id f moved =
    let policy = load strip casefold rules groups targets sources f.source_id in
    let tags = tags_for policy f.source_id in
    let tested =
      λ (b : Bool). if b then unlogged f else route_by casefold policy.rules tags scan_id f in
    (
      ap (λ p. route casefold p scan_id f)
          (load-Reordered strip casefold rules rules' groups targets sources f.source_id moved),
      elim (Bool-cases (f.owner_pinned || is_some f.owner_group_id)) [
        | inl settled ↦ inl (settled, ap tested settled)
        | inr free ↦ inr (
          free,
          subst (RoutedBy casefold tags scan_id f policy.rules) (sym (ap tested free))
              (route_by-RoutedBy casefold tags scan_id f policy.rules),
        )
      ],
    )

route_by-columns :
    (casefold : String → String) (rules : List RoutingRule) (tags : List String) (scan_id : Uuid)
    (f : Finding)
    → (route_by casefold rules tags scan_id f).finding ≡ record f {
      owner_group_id = (route_by casefold rules tags scan_id f).finding.owner_group_id;
    }
unfolding route_by
route_by-columns casefold [] tags scan_id f = refl
route_by-columns casefold (rule ∷ rules) tags scan_id f =
    elim (Bool-cases (matches casefold rule f tags)) [
      | inl hit ↦ rw hit refl
      | inr miss ↦ rw miss (route_by-columns casefold rules tags scan_id f)
    ]

-- Routing writes the owner and no other column.
pub route-columns :
    (casefold : String → String) (policy : Policy) (scan_id : Uuid) (f : Finding)
    → (route casefold policy scan_id f).finding
      ≡ record f { owner_group_id = (route casefold policy scan_id f).finding.owner_group_id }
unfolding route
route-columns casefold policy scan_id f =
    elim (Bool-cases (f.owner_pinned || is_some f.owner_group_id)) [
      | inl settled ↦ rw settled refl
      | inr free ↦
          rw free (route_by-columns casefold policy.rules (tags_for policy f.source_id) scan_id f)
    ]

pub route_settled :
    (casefold : String → String) (policy : Policy) (scan_id : Uuid) (f : Finding)
    → (f.owner_pinned || is_some f.owner_group_id) ≡ true
    → route casefold policy scan_id f ≡ unlogged f
unfolding route
route_settled casefold policy scan_id f settled = rw settled refl

route_by_quiet :
    (casefold : String → String) (rules : List RoutingRule) (tags : List String) (scan_id : Uuid)
    (f : Finding)
    → reopenings (route_by casefold rules tags scan_id f) ≡ 0
unfolding route_by routed
route_by_quiet casefold [] tags scan_id f = refl
route_by_quiet casefold (rule ∷ rules) tags scan_id f =
    elim (Bool-cases (matches casefold rule f tags)) [
      | inl hit ↦ rw hit refl
      | inr miss ↦ rw miss (route_by_quiet casefold rules tags scan_id f)
    ]

-- Routing writes no `reopened` event.
pub route_quiet :
    (casefold : String → String) (policy : Policy) (scan_id : Uuid) (f : Finding)
    → reopenings (route casefold policy scan_id f) ≡ 0
unfolding route
route_quiet casefold policy scan_id f =
    elim (Bool-cases (f.owner_pinned || is_some f.owner_group_id)) [
      | inl settled ↦ rw settled refl
      | inr free ↦
          rw free (route_by_quiet casefold policy.rules (tags_for policy f.source_id) scan_id f)
    ]
