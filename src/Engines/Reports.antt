-- ===== src/Engines/Reports.antt =====
-- apps/api/src/iceberg_api/engines/schemas.py: the validators of a coverage report. A report that
-- fails one of them raises `ValidationError` where it is constructed.
pub mod Sound
use Prim.Native.Char.{code}
use Prim.Native.String.{String}
use iceberg_sst.Prelude.{
  ℕ, ◌+◌, Bool, true, false, not, ◌&&◌, ◌||◌, ◌-◌, none, some, List, [], ◌∷◌, ◌==◌, nat_eq, ltb,
  leb, if◌then◌else◌, length, count, any, all,
}
use iceberg_sst.Enums.{
  ScanTaskKind, discovery, CoverageDisposition, CoverageReason, CoverageObjectKind, scope,
  coverage_reason_allowed, disposition_eq, reason_eq, object_kind_eq, task_kind_eq,
}
use iceberg_sst.Models.Coverage.{
  CoverageCounts, CoverageScope, CoverageReasonCount, CoverageGap, TaskCoverageReport,
}

-- `MAX_COVERAGE_GAP_REFERENCES`
abbrev pub max_gap_references : ℕ
max_gap_references = 10000

is_hex_digit : ℕ → Bool
is_hex_digit c = leb b'0' c && leb c b'9' || leb b'a' c && leb c b'f'

-- `^[0-9a-f]{64}$`, of a text with so many characters to come.
pub is_hex : ℕ → String → Bool
unfolding is_hex_digit
is_hex n String.[] = n == 0
is_hex n (String.◌∷◌ c s) = not (n == 0) && is_hex_digit (code c) && is_hex (n - 1) s

-- `CoverageCounts`
abbrev pub counts_reconcile : CoverageCounts → Bool
counts_reconcile c = c.requested == c.discovered && c.discovered == c.scanned + c.skipped + c.failed

-- `CoverageScope`
abbrev pub scope_reconciles : CoverageScope → Bool
scope_reconciles s = elim s.requested [ none ↦ true | some n ↦ n == s.discovered + s.gaps ]

-- `CoverageReasonCount`
abbrev pub is_reason_valid : CoverageReasonCount → Bool
is_reason_valid e = ltb 0 e.count && coverage_reason_allowed e.outcome e.reason

-- `CoverageGap`
unfoldable pub is_gap_valid : CoverageGap → Bool
unfolding is_hex
is_gap_valid g =
    (if g.outcome == CoverageDisposition.scope_gap then g.kind == scope else not (g.kind == scope))
    && is_hex 64 g.reference

abbrev pub is_key :
    CoverageDisposition → CoverageReason → CoverageDisposition → CoverageReason → Bool
is_key outcome reason o r = o == outcome && r == reason

-- The sum of the counts whose outcome and reason meet a test.
abbrev pub sum_where : (CoverageDisposition → CoverageReason → Bool) → List CoverageReasonCount → ℕ
sum_where p [] = 0
sum_where p (e ∷ es) = (if p e.outcome e.reason then e.count else 0) + sum_where p es

-- How many entries, and how many references, have an outcome and a reason that meet a test.
abbrev pub entries_where :
    (CoverageDisposition → CoverageReason → Bool) → List CoverageReasonCount → ℕ
entries_where p es = count (λ e. p e.outcome e.reason) es

abbrev pub gaps_where : (CoverageDisposition → CoverageReason → Bool) → List CoverageGap → ℕ
gaps_where p gs = count (λ g. p g.outcome g.reason) gs

-- `len(keys) == len(set(keys))`
abbrev pub has_unique_keys : List CoverageReasonCount → Bool
has_unique_keys [] = true
has_unique_keys (e ∷ es) =
    not (any (λ f. is_key e.outcome e.reason f.outcome f.reason) es) && has_unique_keys es

abbrev pub of_outcome : CoverageDisposition → CoverageDisposition → CoverageReason → Bool
of_outcome outcome o r = o == outcome

-- `actual == expected`
abbrev pub subtotals_reconcile : TaskCoverageReport → Bool
subtotals_reconcile r =
    sum_where (of_outcome CoverageDisposition.skipped) r.reasons == r.counts.skipped
    && sum_where (of_outcome CoverageDisposition.failed) r.reasons == r.counts.failed
    && sum_where (of_outcome CoverageDisposition.scope_gap) r.reasons == r.scope.gaps

-- The key of a reference has a subtotal, which the references of that key do not exceed. The keys are
-- unique where this is asked, so the subtotal of a key is the sum over its entries.
abbrev pub is_gap_covered : TaskCoverageReport → CoverageGap → Bool
is_gap_covered r g =
    any (λ e. is_key g.outcome g.reason e.outcome e.reason) r.reasons
    && leb (gaps_where (is_key g.outcome g.reason) r.gaps)
        (sum_where (is_key g.outcome g.reason) r.reasons)

abbrev pub is_discovery : ScanTaskKind → Bool
is_discovery discovery = true
is_discovery _ = false

abbrev pub is_zero : CoverageCounts → Bool
is_zero c =
    c.requested == 0 && c.discovered == 0 && c.scanned == 0 && c.skipped == 0 && c.failed == 0

-- `TaskCoverageReport`, with the validators of its parts and the bounds of its fields.
unfoldable pub is_valid : TaskCoverageReport → Bool
is_valid r =
    counts_reconcile r.counts
    && scope_reconciles r.scope
    && all is_reason_valid r.reasons
    && all is_gap_valid r.gaps
    && leb (length r.gaps) max_gap_references
    && has_unique_keys r.reasons
    && subtotals_reconcile r
    && length r.gaps + r.gaps_omitted == r.counts.skipped + r.counts.failed + r.scope.gaps
    && all (is_gap_covered r) r.gaps
    && (not (is_discovery r.phase) || is_zero r.counts)
