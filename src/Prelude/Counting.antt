-- ===== src/Prelude/Counting.antt =====
-- Counts, tests of every member, and members, each in terms of the others.
use Prim.Native.Nat.{ℕ, ◌≤◌, ◌<◌, zero, suc}
use mathlib.Core.Path.{◌≡◌, refl, ap, ◌∙◌}
use mathlib.Core.Logic.{◌↔◌, ◌⊎◌, inl, inr}
use mathlib.Core.Bool.{Bool, true, false, ◌&&◌, ◌||◌}
use mathlib.Core.Option.{Option, none, some}
use mathlib.Core.List.{List, [], ◌∷◌, ◌++◌}
use native.Mathlib.Omega.{arith}
use iceberg_sst.Prelude.Tests.{is_none, Bool-cases}
use iceberg_sst.Prelude.Lists.{length, filter, any, all, count, take, All, Has}

module _ {A : Type 0} where
  pub all-All : (p : A → Bool) (xs : List A) → all p xs ≡ true → All (λ x. p x ≡ true) xs
  all-All p [] e = tt
  all-All p (x ∷ xs) e = (ground arith, all-All p xs (ground arith))

  pub All-all : (p : A → Bool) (xs : List A) → All (λ x. p x ≡ true) xs → all p xs ≡ true
  All-all p [] h = refl
  All-all p (x ∷ xs) h = ground (arith, All-all p xs h.1)

  pub count_or_Has :
      (p : A → Bool) (xs : List A) → (count p xs ≡ 0) ⊎ ((x : A) × Has x xs × (p x ≡ true))
  count_or_Has p [] = inl refl
  count_or_Has p (x ∷ xs) = elim (Bool-cases (p x)) [
    | inl met ↦ inr (x, inl refl, met)
    | inr unmet ↦ elim (count_or_Has p xs) [
      | inl none_met ↦ inl (ground arith)
      | inr (y, has, met) ↦ inr (y, inr has, met)
    ]
  ]

  pub any-count : (p : A → Bool) (xs : List A) → any p xs ≡ false → count p xs ≡ 0
  any-count p [] e = refl
  any-count p (x ∷ xs) e = ground (arith, any-count p xs)

  pub count-any : (p : A → Bool) (xs : List A) → count p xs ≡ 0 → any p xs ≡ false
  count-any p [] e = refl
  count-any p (x ∷ xs) e = ground (arith, count-any p xs)

  pub count-Has_pos : (p : A → Bool) (xs : List A) (a : A) → Has a xs → p a ≡ true → 0 < count p xs
  count-Has_pos p [] a has e = absurd has
  count-Has_pos p (x ∷ xs) a (inl same) e = let here : p x ≡ true = ap p same ∙ e in ground arith
  count-Has_pos p (x ∷ xs) a (inr later) e = ground (arith, count-Has_pos p xs a later e)

  -- A prefix: how long it is, and what it holds.
  pub length-take :
      (n : ℕ) (xs : List A) → (length (take n xs) ≤ n) × (length (take n xs) ≤ length xs)
  length-take zero xs = omega arith
  length-take (suc n) [] = omega arith
  length-take (suc n) (x ∷ xs) = omega (arith, length-take n xs)

  pub count-take : (p : A → Bool) (n : ℕ) (xs : List A) → count p (take n xs) ≤ count p xs
  count-take p zero xs = omega arith
  count-take p (suc n) [] = omega arith
  count-take p (suc n) (x ∷ xs) = omega (arith, count-take p n xs)

  pub take-All {κ} : (P : A → Type κ) (n : ℕ) (xs : List A) → All P xs → All P (take n xs)
  take-All P zero xs h = tt
  take-All P (suc n) [] h = tt
  take-All P (suc n) (x ∷ xs) h = (h.0, take-All P n xs h.1)

  -- What holds of the members that are selected.
  pub All-filter {κ} :
      (P : A → Type κ) (p : A → Bool) (xs : List A)
      → All P (filter p xs)
      → All (λ x. p x ≡ true → P x) xs
  All-filter P p [] h = tt
  All-filter P p (x ∷ xs) h = elim (Bool-cases (p x)) [
    | inl kept ↦
        let both : P x × All P (filter p xs) = rw kept at h in
        ((λ e. both.0), All-filter P p xs both.1)
    | inr dropped ↦
        let later : All P (filter p xs) = rw dropped at h in
        ((λ e. absurd (false_or_true dropped e)), All-filter P p xs later)
  ]
    where
      false_or_true : p x ≡ false → p x ≡ true → ⊥
      false_or_true a b = cc

  pub filter-All {κ} :
      (P : A → Type κ) (p : A → Bool) (xs : List A)
      → All (λ x. p x ≡ true → P x) xs
      → All P (filter p xs)
  filter-All P p [] h = tt
  filter-All P p (x ∷ xs) h = elim (Bool-cases (p x)) [
    | inl kept ↦ rw kept (h.0 kept, filter-All P p xs h.1)
    | inr dropped ↦ rw dropped (filter-All P p xs h.1)
  ]

  pub length-filter : (p : A → Bool) (xs : List A) → length (filter p xs) ≡ count p xs
  length-filter p [] = refl
  length-filter p (x ∷ xs) = ground (arith, length-filter p xs)

pub any-Has :
    {A : Type 0} (p : A → Bool) (xs : List A) → any p xs ≡ true → (a : A) × Has a xs × (p a ≡ true)
any-Has p [] e = cc
any-Has p (x ∷ xs) e = elim (Bool-cases (p x)) [
  | inl met ↦ (x, inl refl, met)
  | inr unmet ↦ let (a, has, met) = any-Has p xs (ground arith) in (a, inr has, met)
]

pub Has-any :
    {A : Type 0} (p : A → Bool) (xs : List A) (a : A) → Has a xs → p a ≡ true → any p xs ≡ true
Has-any p [] a m e = absurd m
Has-any p (x ∷ xs) a (inl same) e = let here : p x ≡ true = ap p same ∙ e in ground arith
Has-any p (x ∷ xs) a (inr later) e = ground (arith, Has-any p xs a later e)

pub any-append :
    {A : Type 0} (p : A → Bool) (xs ys : List A) → any p (xs ++ ys) ≡ (any p xs || any p ys)
any-append p [] ys = refl
any-append p (x ∷ xs) ys = ground (arith, any-append p xs ys)

pub Has-split : {A : Type 0} (a : A) (xs ys : List A) → Has a (xs ++ ys) → Has a xs ⊎ Has a ys
Has-split a [] ys m = inr m
Has-split a (x ∷ xs) ys (inl same) = inl (inl same)
Has-split a (x ∷ xs) ys (inr later) = elim (Has-split a xs ys later) [
  | inl m ↦ inl (inr m)
  | inr m ↦ inr m
]

-- A conjunction of tests, and the test for an absent value.
pub both : (a b : Bool) → ((a && b) ≡ true) ↔ ((a ≡ true) × (b ≡ true))
both true b = ((λ e. (refl, e)), (λ h. h.1))
both false b = ((λ e. cc), (λ h. h.0))

pub is_none-eq : {A : Type 0} (o : Option A) → (is_none o ≡ true) ↔ (o ≡ none)
is_none-eq none = ((λ e. refl), (λ e. refl))
is_none-eq (some a) = ((λ e. cc), (λ e. cc))
