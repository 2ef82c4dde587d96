-- ===== src/RateLimit/Ceiling.antt =====
-- How many calls of one window are allowed to a key.
use iceberg_sst.Prelude.{
  ℕ, ◌+◌, ◌-◌, ◌≤◌, ◌<◌, Bool, true, false, ◌&&◌, Option, none, some, List, [], ◌∷◌, String, ◌≡◌,
  refl, ◌⊎◌, string_eq, if◌then◌else◌, leb, length, Bool-cases, inl, inr, arith, ap, sym, ◌∙◌, ◌==◌,
  subst, All,
}
use iceberg_sst.Prelude.Dicts.{lookup, IsDict, lookup-insert, insert-IsDict}
use iceberg_sst.RateLimit.{Hit, Windows, expires_at, swept, next_count, hit}
use iceberg_sst.RateLimit.Sweeping.{live, lookup-swept, kept, kept-IsDict}

-- How many calls of a sequence are allowed to the key.
unfoldable pub granted : (sweep_threshold : ℕ) → String → List Hit → Windows → ℕ
granted sweep_threshold key [] windows = 0
granted sweep_threshold key (h ∷ hits) windows =
    let rest = granted sweep_threshold key hits (hit sweep_threshold h windows).0 in
    (if h.key == key && (hit sweep_threshold h windows).1.allowed then 1 else 0) + rest

-- A call from `start` to the end of the window; if it is for the key, it counts in that window under
-- the limit.
abbrev pub IsWithin : String → (start end limit : ℕ) → Hit → Type 0
IsWithin key start end limit h =
    (start ≤ h.now) × (h.now < end) × (h.key ≡ key → (expires_at h ≡ end) × (h.limit ≤ limit))

-- The key has used `c` of its window; an entry that had lapsed at the start counts for nothing.
abbrev Spent : (start end c : ℕ) → Option (ℕ × ℕ) → Type 0
Spent start end c o = ((live start o ≡ none) × (c ≡ 0)) ⊎ (o ≡ some (end, c))

live-Spent :
    (now start end c : ℕ) (o : Option (ℕ × ℕ))
    → now < end
    → Spent start end c o
    → Spent start end c (live now o)
live-Spent now start end c none before spent = spent
live-Spent now start end c (some (expiry, count)) before spent = ground arith

kept-Spent :
    (threshold now start end c : ℕ) (key : String) (w : Windows)
    → IsDict w
    → now < end
    → Spent start end c (lookup key w)
    → Spent start end c (lookup key (kept threshold now w))
kept-Spent threshold now start end c key w d before spent = case (leb threshold (length w))
  where
    case : (b : Bool) → Spent start end c (lookup key (if b then swept now w else w))
    case true =
        subst (Spent start end c) (sym (lookup-swept now key w d))
          (live-Spent now start end c (lookup key w) before spent)
    case false = spent

next_count-Spent :
    (now start end c : ℕ) (o : Option (ℕ × ℕ))
    → start ≤ now
    → now < end
    → Spent start end c o
    → next_count now o ≡ c + 1
next_count-Spent now start end c none after before spent = ground arith
next_count-Spent now start end c (some (expiry, count)) after before spent = ground arith

hit-Spent :
    (n start end limit c : ℕ) (key : String) (h : Hit) (w : Windows)
    → IsDict w
    → IsWithin key start end limit h
    → Spent start end c (lookup key w)
    → ((h.key == key) ≡ true)
        × Spent start end (c + 1) (lookup key (hit n h w).0)
        × ((hit n h w).1.allowed ≡ leb (c + 1) h.limit)
        × (h.limit ≤ limit)
      ⊎ ((h.key == key) ≡ false) × Spent start end c (lookup key (hit n h w).0)
unfolding hit
hit-Spent n start end limit c key h w d (after, before, counts) spent =
    let w' = kept n h.now w in
    let spent' = kept-Spent n h.now start end c key w d before spent in
    elim (Bool-cases (h.key == key)) [
      | inl same ↦
          let at_key : h.key ≡ key = (string_eq.beq_iff h.key key).0 same in
          let (ends, bounded) = counts at_key in
          let count : next_count h.now (lookup h.key w') ≡ c + 1 =
            next_count-Spent h.now start end c (lookup h.key w') after before
              (subst (λ k. Spent start end c (lookup k w')) (sym at_key) spent') in
          inl (
            same,
            inr (
                lookup-insert h.key key (expires_at h, next_count h.now (lookup h.key w')) w'
                ∙ ground arith),
            ap (λ m. leb m h.limit) count,
            bounded,
          )
      | inr other ↦ inr (
        other,
        subst (Spent start end c)
            (sym (
              lookup-insert h.key key (expires_at h, next_count h.now (lookup h.key w')) w'
              ∙ ap
                  (λ b.
                    if b
                    then some (expires_at h, next_count h.now (lookup h.key w'))
                    else lookup key w')
                  other))
            spent',
      )
    ]

hit-IsDict : (n : ℕ) (h : Hit) (w : Windows) → IsDict w → IsDict (hit n h w).0
unfolding hit
hit-IsDict n h w d = insert-IsDict h.key _ (kept n h.now w) (kept-IsDict n h.now w d)

granted-le_left :
    (n start end limit c : ℕ) (key : String) (hits : List Hit) (w : Windows)
    → IsDict w
    → All (IsWithin key start end limit) hits
    → Spent start end c (lookup key w)
    → granted n key hits w ≤ limit - c
unfolding granted
granted-le_left n start end limit c key [] w d within spent = omega arith
granted-le_left n start end limit c key (h ∷ hits) w d within spent =
    let d' = hit-IsDict n h w d in
    let w' = (hit n h w).0 in
    elim (hit-Spent n start end limit c key h w d within.0 spent) [
      | inl (same, spent', allowed, bounded) ↦
          ground (arith, granted-le_left n start end limit (c + 1) key hits w' d' within.1 spent')
      | inr (other, spent') ↦
          ground (arith, granted-le_left n start end limit c key hits w' d' within.1 spent')
    ]

-- In a store of one entry for each key, in which the entry of a key is absent or lapsed at `start`, the
-- calls from then to the end of a window, between calls for any other keys and windows and in any
-- order of their clock readings, are allowed to that key at most its limit, if all of its own calls
-- count in that window.
pub granted-le :
    (n start end limit : ℕ) (key : String) (hits : List Hit) (w : Windows)
    → IsDict w
    → live start (lookup key w) ≡ none
    → All (IsWithin key start end limit) hits
    → granted n key hits w ≤ limit
granted-le n start end limit key hits w d lapsed within =
    omega (arith, granted-le_left n start end limit 0 key hits w d within (inl (lapsed, refl)))
