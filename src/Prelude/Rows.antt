-- ===== src/Prelude/Rows.antt =====
-- Rows of a table, and the conditional UPDATE that the services issue: every row that meets the
-- predicate is rewritten, and the number of rows written is returned (`rowcount`).
use mathlib.Core.Path.{◌≡◌, refl, ap}
use mathlib.Core.Logic.{inl, inr}
use mathlib.Core.Bool.{Bool, true, false}
use mathlib.Core.List.{List, [], ◌∷◌}
use native.Mathlib.Omega.{arith}
use iceberg_sst.Prelude.Tests.{if◌then◌else◌, Bool-cases}
use iceberg_sst.Prelude.Lists.{All, Has, count}

module _ {ℓ} {A : Type ℓ} where
  unfoldable pub update_where : (A → Bool) → (A → A) → List A → List A
  update_where p f [] = []
  update_where p f (r ∷ rs) = (if p r then f r else r) ∷ update_where p f rs

  -- A predicate on rows survives an update that keeps it on the rows it writes.
  pub update_where-All {κ} :
      (P : A → Type κ) (p : A → Bool) (f : A → A) (rs : List A)
      → ((r : A) → p r ≡ true → P r → P (f r))
      → All P rs
      → All P (update_where p f rs)
  unfolding update_where
  update_where-All P p f [] keep h = tt
  update_where-All P p f (r ∷ rs) keep h = (at (p r) refl, update_where-All P p f rs keep h.1)
    where
      at : (b : Bool) → p r ≡ b → P (if b then f r else r)
      at true e = keep r e h.0
      at false e = h.0

  -- No row is written where none meets the predicate.
  pub update_where_none :
      (p : A → Bool) (f : A → A) (rs : List A) → count p rs ≡ 0 → update_where p f rs ≡ rs
  unfolding update_where
  update_where_none p f [] h = refl
  update_where_none p f (r ∷ rs) h = ground (arith, update_where_none p f rs)

module _ {A : Type 0} where
  -- A row is there after the update, written if it was to be.
  pub Has-update_where :
      (p : A → Bool) (f : A → A) (a : A) (rs : List A)
      → Has a rs
      → Has (if p a then f a else a) (update_where p f rs)
  unfolding update_where
  Has-update_where p f a [] m = absurd m
  Has-update_where p f a (r ∷ rs) (inl same) = inl (ap (λ y. if p y then f y else y) same)
  Has-update_where p f a (r ∷ rs) (inr later) = inr (Has-update_where p f a rs later)

  -- As many rows meet a test that the rows written meet as before.
  pub count-update_where :
      (q p : A → Bool) (f : A → A) (rs : List A)
      → ((r : A) → p r ≡ true → q (f r) ≡ q r)
      → count q (update_where p f rs) ≡ count q rs
  unfolding update_where
  count-update_where q p f [] h = refl
  count-update_where q p f (r ∷ rs) h = elim (Bool-cases (p r)) [
    | inl met ↦ rw met (rw (h r met) (ground (arith, count-update_where q p f rs h)))
    | inr unmet ↦ rw unmet (ground (arith, count-update_where q p f rs h))
  ]
