-- ===== src/RateLimit.antt =====
-- apps/api/src/iceberg_api/ratelimit.py: the in-memory store of fixed windows. `now` is the monotonic
-- clock in seconds; `sweep_threshold` is `SWEEP_THRESHOLD`.
pub mod Sweeping
pub mod Ceiling
use iceberg_sst.Prelude.{
  ℕ, ◌+◌, ◌-◌, ◌%◌, max, Bool, true, false, Option, none, some, List, [], ◌∷◌, String, string_eq,
  if◌then◌else◌, ltb, leb, filter, length,
}
use iceberg_sst.Prelude.Dicts.{Dict, lookup, insert}

pub record Decision : Type 0 where
  pub allowed : Bool
  pub limit : ℕ
  pub remaining : ℕ
  pub reset_after : ℕ

-- The arguments of one call of `hit`, and the clock that it reads.
pub record Hit : Type 0 where
  pub now : ℕ
  pub key : String
  pub limit : ℕ
  pub window_seconds : ℕ

-- An expiry and a count for each key.
abbrev pub Windows : Type 0
Windows = Dict String (ℕ × ℕ)

-- `expires_at`; `now % window_seconds` is at most `now`, so nothing is cut off.
abbrev pub expires_at : Hit → ℕ
expires_at h = h.now - h.now % h.window_seconds + h.window_seconds

abbrev pub swept : ℕ → Windows → Windows
swept now windows = filter (λ e. ltb now e.1.0) windows

abbrev pub next_count : ℕ → Option (ℕ × ℕ) → ℕ
next_count now none = 1
next_count now (some (expiry, count)) = if ltb now expiry then count + 1 else 1

-- `max(0, limit - count)` is the cut-off subtraction. `max(1, …)` is written out.
abbrev pub decide : Hit → ℕ → Decision
decide h count = record {
  allowed = leb count h.limit;
  limit = h.limit;
  remaining = h.limit - count;
  reset_after = max 1 (expires_at h - h.now);
}

unfoldable pub hit : (sweep_threshold : ℕ) → Hit → Windows → Windows × Decision
hit sweep_threshold h windows =
    let kept = if leb sweep_threshold (length windows) then swept h.now windows else windows in
    let count = next_count h.now (lookup h.key kept) in
    (insert h.key (expires_at h, count) kept, decide h count)

-- The decisions on a sequence of calls, in the order in which they take the lock. Each reads its clock
-- before it, so the readings need not come in that order.
unfoldable pub run : (sweep_threshold : ℕ) → List Hit → Windows → List Decision
unfolding hit
run sweep_threshold [] windows = []
run sweep_threshold (h ∷ hits) windows =
    let (after, decision) = hit sweep_threshold h windows in
    decision ∷ run sweep_threshold hits after
