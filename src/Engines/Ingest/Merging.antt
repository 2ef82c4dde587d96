-- ===== src/Engines/Ingest/Merging.antt =====
-- The totals that a scan keeps over all of its submissions.
use iceberg_sst.Prelude.{
  ℕ, ◌+◌, none, some, [], ◌∷◌, String, ◌≡◌, arith, string_eq, if◌then◌else◌, ◌==◌, or_else,
}
use iceberg_sst.Prelude.Dicts.{Dict, lookup, lookup-insert}
use iceberg_sst.Engines.Ingest.{IngestOutcome, add_to, add_each, merge_scan_counts}

-- The total under a key; a key that is not there counts as 0.
abbrev pub count_of : String → Dict String ℕ → ℕ
count_of key totals = or_else (lookup key totals) 0

-- What a list of tallies adds to a key.
abbrev pub sum_of : String → Dict String ℕ → ℕ
sum_of key [] = 0
sum_of key ((j, n) ∷ rest) = (if j == key then n else 0) + sum_of key rest

-- The tallies of a batch, by the keys that they are kept under.
abbrev pub tallies : IngestOutcome → Dict String ℕ
tallies o =
    ("findings", o.ingested)
    ∷ ("suppressed", o.suppressed)
    ∷ ("reopened", o.reopened)
    ∷ ("below_threshold", o.below_threshold)
    ∷ ("rekeyed", o.rekeyed)
    ∷ []

add_to_lem :
    (j key : String) (n : ℕ) (totals : Dict String ℕ)
    → count_of key (add_to j n totals) ≡ count_of key totals + (if j == key then n else 0)
add_to_lem j key n totals = ground (
  arith,
  lookup-insert j key (elim (lookup j totals) [ none ↦ n | some m ↦ m + n ]) totals,
  string_eq.beq_iff j key,
)

add_each_lem :
    (key : String) (added totals : Dict String ℕ)
    → count_of key (add_each added totals) ≡ count_of key totals + sum_of key added
unfolding add_each
add_each_lem key [] totals = omega arith
add_each_lem key ((j, n) ∷ added) totals =
    omega (arith, add_each_lem key added (add_to j n totals), add_to_lem j key n totals)

-- After a submission each total is what it was, with what the engine counted and what the batch tallied
-- under that key; nothing that an earlier submission counted is lost.
pub merge_scan_counts_lem :
    (key : String) (counts engine_counts : Dict String ℕ) (o : IngestOutcome)
    → count_of key (merge_scan_counts counts o engine_counts)
      ≡ count_of key counts + sum_of key engine_counts + sum_of key (tallies o)
unfolding merge_scan_counts
merge_scan_counts_lem key counts engine_counts o =
    let t₀ = add_each engine_counts counts in
    let t₁ = add_to "findings" o.ingested t₀ in
    let t₂ = add_to "suppressed" o.suppressed t₁ in
    let t₃ = add_to "reopened" o.reopened t₂ in
    let t₄ = add_to "below_threshold" o.below_threshold t₃ in
    omega (
      arith,
      add_each_lem key engine_counts counts,
      add_to_lem "findings" key o.ingested t₀,
      add_to_lem "suppressed" key o.suppressed t₁,
      add_to_lem "reopened" key o.reopened t₂,
      add_to_lem "below_threshold" key o.below_threshold t₃,
      add_to_lem "rekeyed" key o.rekeyed t₄,
    )

-- Two submissions of a scan leave the same totals in whichever order they are merged.
pub merge_scan_counts_comm :
    (key : String) (counts e e' : Dict String ℕ) (o o' : IngestOutcome)
    → count_of key (merge_scan_counts (merge_scan_counts counts o e) o' e')
      ≡ count_of key (merge_scan_counts (merge_scan_counts counts o' e') o e)
merge_scan_counts_comm key counts e e' o o' = omega (
  arith,
  merge_scan_counts_lem key counts e o,
  merge_scan_counts_lem key (merge_scan_counts counts o e) e' o',
  merge_scan_counts_lem key counts e' o',
  merge_scan_counts_lem key (merge_scan_counts counts o' e') e o,
)
