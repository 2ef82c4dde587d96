-- ===== src/Prelude/Tests.antt =====
-- Boolean tests on numbers, texts and optional identifiers, and the conditional.
use Prim.Native.Nat.{ℕ, ◌≤◌, ◌<◌, compare, Ordering}
use Prim.Native.String.{String}
use mathlib.Core.Path.{◌≡◌, refl, sym}
use mathlib.Core.Logic.{◌↔◌, ◌⊎◌, inl, inr}
use mathlib.Core.Bool.{Bool, true, false, not}
use mathlib.Core.Option.{Option, none, some}
use native.Mathlib.Omega.{arith}
use text.Mathlib.Text.{◌==◌ as str_eq}
use text.Mathlib.TextEquality.{eq_iff}

abbrev pub ltb : ℕ → ℕ → Bool
ltb a b = elim (compare a b) [ Ordering.lt ↦ true | _ ↦ false ]

abbrev pub leb : ℕ → ℕ → Bool
leb a b = elim (compare a b) [ Ordering.gt ↦ false | _ ↦ true ]

abbrev nat_beq : ℕ → ℕ → Bool
nat_beq a b = elim (compare a b) [ Ordering.eq ↦ true | _ ↦ false ]

infix 1 if◌then◌else◌
abbrev pub if◌then◌else◌ {ℓ} : {A : Type ℓ} → Bool → A → A → A
if true then x else y = x
if false then x else y = y

pub nat_beq_iff : (a b : ℕ) → (nat_beq a b ≡ true) ↔ (a ≡ b)
nat_beq_iff a b = ground arith

-- A type whose values the program compares by `==`.
pub record Eq {ℓ} (X : Type ℓ) : Type ℓ where
  pub beq : X → X → Bool
  pub beq_iff : (x y : X) → (beq x y ≡ true) ↔ (x ≡ y)

instance abbrev pub string_eq : Eq String
string_eq = record { beq = str_eq; beq_iff = eq_iff }

instance abbrev pub nat_eq : Eq ℕ
nat_eq = record { beq = nat_beq; beq_iff = nat_beq_iff }

infix 50 ◌==◌
abbrev pub ◌==◌ {ℓ} : {X : Type ℓ} ⦃class : Eq X⦄ → X → X → Bool
◌==◌ ⦃class⦄ = class.beq

module _ {ℓ} {A : Type ℓ} where
  abbrev option_beq : (A → A → Bool) → Option A → Option A → Bool
  option_beq f none none = true
  option_beq f (some a) (some b) = f a b
  option_beq f _ _ = false

  pub option_beq_iff :
      (f : A → A → Bool)
      → ((a b : A) → (f a b ≡ true) ↔ (a ≡ b))
      → (o p : Option A) → (option_beq f o p ≡ true) ↔ (o ≡ p)
  option_beq_iff f h none none = ((λ _. refl), (λ _. refl))
  option_beq_iff f h none (some b) = ((λ e. cc), (λ e. cc))
  option_beq_iff f h (some a) none = ((λ e. cc), (λ e. cc))
  option_beq_iff f h (some a) (some b) = ((λ e. cc ((h a b).0 e)), (λ e. (h a b).1 (cc)))

  instance abbrev pub option_eq : ⦃e : Eq A⦄ → Eq (Option A)
  option_eq ⦃e⦄ = record { beq = option_beq e.beq; beq_iff = option_beq_iff e.beq e.beq_iff }

  -- Equality of an enumeration, from a decision of its paths.
  abbrev dec_beq : Discrete A → A → A → Bool
  dec_beq d a b = elim (d a b) [ yes _ ↦ true | no _ ↦ false ]

  pub dec_beq_iff : (d : Discrete A) (a b : A) → (dec_beq d a b ≡ true) ↔ (a ≡ b)
  dec_beq_iff d a b = at (d a b)
    where
      at : (q : Dec (a ≡ b)) → ((elim q [ yes _ ↦ true | no _ ↦ false ]) ≡ true) ↔ (a ≡ b)
      at (yes e) = ((λ _. e), (λ _. refl))
      at (no n) = ((λ e. cc), (λ e. absurd (n e)))

  abbrev pub discrete_eq : Discrete A → Eq A
  discrete_eq d = record { beq = dec_beq d; beq_iff = dec_beq_iff d }

  abbrev pub is_some : Option A → Bool
  is_some none = false
  is_some (some a) = true

  abbrev pub is_none : Option A → Bool
  is_none none = true
  is_none (some a) = false

  -- `x or y` on an optional value whose values are all true.
  abbrev pub or_else : Option A → A → A
  or_else none d = d
  or_else (some a) d = a

pub Bool-cases : (b : Bool) → (b ≡ true) ⊎ (b ≡ false)
Bool-cases true = inl refl
Bool-cases false = inr refl

pub Option-cases {ℓ} : {A : Type ℓ} (o : Option A) → (o ≡ none) ⊎ ((a : A) × (o ≡ some a))
Option-cases none = inl refl
Option-cases (some a) = inr (a, refl)

pub not-eq_true : (b : Bool) → not b ≡ true → b ≡ false
not-eq_true true h = sym h
not-eq_true false h = refl

pub beq_self {ℓ} : {A : Type ℓ} ⦃e : Eq A⦄ (a : A) → (a == a) ≡ true
beq_self ⦃e⦄ a = (e.beq_iff a a).1 refl

pub ltb→lt : (a b : ℕ) → ltb a b ≡ true → a < b
ltb→lt a b h = ground arith

pub leb→le : (a b : ℕ) → leb a b ≡ true → a ≤ b
leb→le a b h = ground arith
