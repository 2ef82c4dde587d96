-- ===== src/Examples/RateLimit.antt =====
-- A flood of calls at concrete inputs.
use iceberg_sst.Prelude.{ℕ, ◌≤◌, none, ◌<◌, List, [], ◌∷◌, ◌≡◌, refl, arith, All, string_eq}
use iceberg_sst.Prelude.Dicts.{lookup, IsDict}
use iceberg_sst.RateLimit.{Hit, Windows, run, expires_at}
use iceberg_sst.Engines.Ingest.Carried.{differs}
use iceberg_sst.RateLimit.Sweeping.{live, IsOrdered, run_swept}
use iceberg_sst.RateLimit.Ceiling.{granted, IsWithin, granted-le}

abbrev call : ℕ → Hit
call now = record { now = now; key = "auth:10.0.0.1"; limit = 2; window_seconds = 60 }

abbrev other_call : ℕ → Hit
other_call now = record (call now) { key = "auth:10.0.0.2"; window_seconds = 10 }

abbrev flood : List Hit
flood = call 61 ∷ other_call 62 ∷ call 63 ∷ call 64 ∷ other_call 75 ∷ call 76 ∷ []

flood-IsOrdered : IsOrdered 0 flood
flood-IsOrdered = ground arith

run_swept_example : run 10000 flood [] ≡ run 1 flood []
run_swept_example = run_swept 10000 1 flood flood-IsOrdered

flood-IsWithin : All (IsWithin "auth:10.0.0.1" 61 120 2) flood
flood-IsWithin = (
  mine 61 (omega arith) (omega arith) refl,
  (
    theirs 62 (omega arith) (omega arith),
    (
      mine 63 (omega arith) (omega arith) refl,
      (
        mine 64 (omega arith) (omega arith) refl,
        (theirs 75 (omega arith) (omega arith), (mine 76 (omega arith) (omega arith) refl, tt)),
      ),
    ),
  ),
)
  where
    mine :
        (now : ℕ)
        → 61 ≤ now
        → now < 120
        → expires_at (call now) ≡ 120
        → IsWithin "auth:10.0.0.1" 61 120 2 (call now)
    mine now after before ends = (after, before, λ e. (ends, omega arith))

    theirs : (now : ℕ) → 61 ≤ now → now < 120 → IsWithin "auth:10.0.0.1" 61 120 2 (other_call now)
    theirs now after before =
        (after, before, λ e. absurd (differs {a = "auth:10.0.0.1"} {b = "auth:10.0.0.2"} refl e))

-- The window before, which both keys used up.
abbrev lapsed : Windows
lapsed = ("auth:10.0.0.1", (60, 7)) ∷ ("auth:10.0.0.2", (70, 3)) ∷ []

lapsed-IsDict : IsDict lapsed
unfolding lookup
lapsed-IsDict = (refl, (refl, tt))

free_again : live 61 (lookup "auth:10.0.0.1" lapsed) ≡ none
unfolding lookup
free_again = refl

granted-le_example : granted 1 "auth:10.0.0.1" flood lapsed ≤ 2
granted-le_example =
    granted-le 1 61 120 2 "auth:10.0.0.1" flood lapsed lapsed-IsDict free_again flood-IsWithin
