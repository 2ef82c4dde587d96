-- ===== src/Prelude/Lists.antt =====
-- Lists with Boolean predicates and native lengths, and predicates on every member.
use Prim.Native.Nat.{ℕ, zero, suc, ◌+◌, ◌≤◌}
use mathlib.Core.Path.{◌≡◌, refl, ap, ◌∙◌, subst}
use mathlib.Core.Logic.{◌⊎◌, inl, inr}
use mathlib.Core.Bool.{Bool, true, false, ◌&&◌, ◌||◌}
use mathlib.Core.List.{List, [], ◌∷◌, ◌++◌}
use mathlib.Core.Option.{Option, none, some}
use native.Mathlib.Omega.{arith}
use iceberg_sst.Prelude.Tests.{if◌then◌else◌}

module _ {ℓ} {A : Type ℓ} where
  abbrev pub length : List A → ℕ
  length [] = 0
  length (x ∷ xs) = suc (length xs)

  abbrev pub filter : (A → Bool) → List A → List A
  filter p [] = []
  filter p (x ∷ xs) = if p x then x ∷ filter p xs else filter p xs

  abbrev pub any : (A → Bool) → List A → Bool
  any p [] = false
  any p (x ∷ xs) = p x || any p xs

  abbrev pub all : (A → Bool) → List A → Bool
  all p [] = true
  all p (x ∷ xs) = p x && all p xs

  abbrev pub count : (A → Bool) → List A → ℕ
  count p [] = 0
  count p (x ∷ xs) = (if p x then 1 else 0) + count p xs

  abbrev pub take : ℕ → List A → List A
  take zero xs = []
  take (suc n) [] = []
  take (suc n) (x ∷ xs) = x ∷ take n xs

  -- The first member that passes the test: `next((x for x in xs if p(x)), None)`.
  abbrev pub find? : (A → Bool) → List A → Option A
  find? p [] = none
  find? p (x ∷ xs) = if p x then some x else find? p xs

  pub append_nil : (xs : List A) → xs ≡ xs ++ []
  append_nil [] = refl
  append_nil (x ∷ xs) = ap (λ ys. x ∷ ys) (append_nil xs)

  pub append_assoc : (xs ys zs : List A) → (xs ++ ys) ++ zs ≡ xs ++ (ys ++ zs)
  append_assoc [] ys zs = refl
  append_assoc (x ∷ xs) ys zs = ap (λ l. x ∷ l) (append_assoc xs ys zs)

  pub length-append : (xs ys : List A) → length (xs ++ ys) ≡ length xs + length ys
  length-append [] ys = omega arith
  length-append (x ∷ xs) ys = omega (arith, length-append xs ys)

  pub count-append : (p : A → Bool) (xs ys : List A) → count p (xs ++ ys) ≡ count p xs + count p ys
  count-append p [] ys = omega arith
  count-append p (x ∷ xs) ys = omega (arith, count-append p xs ys)

  pub count-le-length : (p : A → Bool) (xs : List A) → count p xs ≤ length xs
  count-le-length p [] = omega arith
  count-le-length p (x ∷ xs) = ground (arith, count-le-length p xs)

  abbrev pub All {κ} : (A → Type κ) → List A → Type κ
  All P [] = Unit
  All P (x ∷ xs) = P x × All P xs

  pub All-append {κ} :
      (P : A → Type κ) (front back : List A) → All P front → All P back → All P (front ++ back)
  All-append P [] back none_in_front rest = rest
  All-append P (x ∷ front) back (first, others) rest = (first, All-append P front back others rest)

  pub All-map {κ μ} :
      (P : A → Type κ) (Q : A → Type μ) (xs : List A) → ((x : A) → P x → Q x) → All P xs → All Q xs
  All-map P Q [] f h = tt
  All-map P Q (x ∷ xs) f h = (f x h.0, All-map P Q xs f h.1)

module _ {A : Type 0} where
  -- Membership with its place.
  abbrev pub Has : A → List A → Type 0
  Has a [] = ⊥
  Has a (x ∷ xs) = (x ≡ a) ⊎ Has a xs

  pub All-at {κ} : (P : A → Type κ) (xs : List A) (a : A) → All P xs → Has a xs → P a
  All-at P [] a h m = absurd m
  All-at P (x ∷ xs) a h (inl e) = subst P e h.0
  All-at P (x ∷ xs) a h (inr m) = All-at P xs a h.1 m

  pub Has-append_left : (a : A) (xs ys : List A) → Has a xs → Has a (xs ++ ys)
  Has-append_left a [] ys m = absurd m
  Has-append_left a (x ∷ xs) ys (inl e) = inl e
  Has-append_left a (x ∷ xs) ys (inr m) = inr (Has-append_left a xs ys m)

  pub Has-append_right : (a : A) (xs ys : List A) → Has a ys → Has a (xs ++ ys)
  Has-append_right a [] ys m = m
  Has-append_right a (x ∷ xs) ys m = inr (Has-append_right a xs ys m)

  keep_or_drop : (a x : A) (xs : List A) (b : Bool) → Has a xs → Has a (if b then x ∷ xs else xs)
  keep_or_drop a x xs true m = inr m
  keep_or_drop a x xs false m = m

  pub Has-filter :
      (p : A → Bool) (a : A) (xs : List A) → p a ≡ true → Has a xs → Has a (filter p xs)
  Has-filter p a [] e m = absurd m
  Has-filter p a (x ∷ xs) e (inl same) = rw (ap p same ∙ e) (inl same)
  Has-filter p a (x ∷ xs) e (inr m) = keep_or_drop a x (filter p xs) (p x) (Has-filter p a xs e m)

  kept_or_not :
      (p : A → Bool) (a x : A) (xs : List A) (b : Bool)
      → p x ≡ b
      → (Has a (filter p xs) → Has a xs × (p a ≡ true))
      → Has a (if b then x ∷ filter p xs else filter p xs)
      → Has a (x ∷ xs) × (p a ≡ true)
  kept_or_not p a x xs true e rest (inl same) = (inl same, subst (λ y. p y ≡ true) same e)
  kept_or_not p a x xs true e rest (inr later) = (inr (rest later).0, (rest later).1)
  kept_or_not p a x xs false e rest later = (inr (rest later).0, (rest later).1)

  pub filter-Has :
      (p : A → Bool) (a : A) (xs : List A) → Has a (filter p xs) → Has a xs × (p a ≡ true)
  filter-Has p a [] m = absurd m
  filter-Has p a (x ∷ xs) m = kept_or_not p a x xs (p x) refl (filter-Has p a xs) m

  pub All-from {κ} : (P : A → Type κ) (xs : List A) → ((a : A) → Has a xs → P a) → All P xs
  All-from P [] h = tt
  All-from P (x ∷ xs) h = (h x (inl refl), All-from P xs (λ a m. h a (inr m)))
