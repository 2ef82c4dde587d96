-- ===== src/Scans/Coverage/Counter.antt =====
-- apps/api/src/iceberg_api/scans/coverage.py: the sums and the keys of the counter of reasons.
use iceberg_sst.Prelude.{
  ℕ, ◌+◌, ◌≤◌, ◌<◌, Bool, true, ◌&&◌, List, [], ◌∷◌, ◌≡◌, refl, inl, inr, arith, ◌==◌, nat_eq,
  if◌then◌else◌, All, Bool-cases, ◌∙◌, ap,
}
use iceberg_sst.Enums.{
  CoverageDisposition, CoverageReason, coverage_reason_allowed, disposition_eq, reason_eq,
}
use iceberg_sst.Models.Coverage.{CoverageReasonCount}
use iceberg_sst.Engines.Reports.{is_reason_valid, is_key, sum_where, entries_where}
use iceberg_sst.Engines.Reports.Sound.{is_key-eq}
use iceberg_sst.Scans.Coverage.{bump, tally_reasons, insert_reason, sort_reasons, precedes}

abbrev pub Test : Type 0
Test = CoverageDisposition → CoverageReason → Bool

-- A test of a key says the same of each entry of that key.
same_test :
    (p : Test) (o : CoverageDisposition) (s : CoverageReason) (e : CoverageReasonCount)
    → is_key o s e.outcome e.reason ≡ true
    → p e.outcome e.reason ≡ p o s
same_test p o s e h =
    let (same_o, same_s) = is_key-eq o e.outcome s e.reason h in
    ap (λ a. p a e.reason) same_o ∙ ap (p o) same_s

pub sum_where-bump :
    (p : Test) (o : CoverageDisposition) (s : CoverageReason) (n : ℕ)
    (es : List CoverageReasonCount)
    → sum_where p (bump o s n es) ≡ sum_where p es + (if p o s then n else 0)
unfolding bump
sum_where-bump p o s n [] = ground arith
sum_where-bump p o s n (e ∷ es) = elim (Bool-cases (is_key o s e.outcome e.reason)) [
  | inl here ↦ ground (arith, same_test p o s e here)
  | inr apart ↦ ground (arith, sum_where-bump p o s n es)
]

-- A key that is new gets an entry; the others have as many as before.
entries_where-bump :
    (o : CoverageDisposition) (s : CoverageReason) (n : ℕ) (es : List CoverageReasonCount)
    (o' : CoverageDisposition) (s' : CoverageReason)
    → entries_where (is_key o' s') (bump o s n es)
      ≡ entries_where (is_key o' s') es
        + (if entries_where (is_key o s) es == 0 && is_key o' s' o s then 1 else 0)
unfolding bump
entries_where-bump o s n [] o' s' = ground arith
entries_where-bump o s n (e ∷ es) o' s' = elim (Bool-cases (is_key o s e.outcome e.reason)) [
  | inl here ↦ ground (arith, nat_eq.beq_iff (1 + entries_where (is_key o s) es) 0)
  | inr apart ↦ ground (arith, entries_where-bump o s n es o' s')
]

OneEach : List CoverageReasonCount → Type 0
OneEach es = (o : CoverageDisposition) (s : CoverageReason) → entries_where (is_key o s) es ≤ 1

bump-OneEach :
    (o : CoverageDisposition) (s : CoverageReason) (n : ℕ) (es : List CoverageReasonCount)
    → OneEach es
    → OneEach (bump o s n es)
unfolding OneEach
bump-OneEach o s n es h o' s' =
    let step = entries_where-bump o s n es o' s' in
    elim (Bool-cases (is_key o' s' o s)) [
      | inl same ↦
          let (same_o, same_s) = is_key-eq o' o s' s same in
          let before : entries_where (is_key o s) es ≡ entries_where (is_key o' s') es =
            ap (λ a. entries_where (is_key a s) es) same_o
            ∙ ap (λ b. entries_where (is_key o' b) es) same_s in
          ground (arith, h o' s', nat_eq.beq_iff (entries_where (is_key o s) es) 0)
      | inr other ↦ ground (arith, h o' s')
    ]

pub bump-valid :
    (o : CoverageDisposition) (s : CoverageReason) (n : ℕ) (es : List CoverageReasonCount)
    → 0 < n
    → coverage_reason_allowed o s ≡ true
    → All (λ e. is_reason_valid e ≡ true) es
    → All (λ e. is_reason_valid e ≡ true) (bump o s n es)
unfolding bump
bump-valid o s n [] pos allowed h = (ground arith, tt)
bump-valid o s n (e ∷ es) pos allowed h = elim (Bool-cases (is_key o s e.outcome e.reason)) [
  | inl here ↦ rw here (ground arith, h.1)
  | inr apart ↦ rw apart (h.0, bump-valid o s n es pos allowed h.1)
]

-- The counter over a list of entries.
pub sum_where-tally_reasons :
    (p : Test) (es counter : List CoverageReasonCount)
    → sum_where p (tally_reasons es counter) ≡ sum_where p es + sum_where p counter
unfolding tally_reasons
sum_where-tally_reasons p [] counter = omega arith
sum_where-tally_reasons p (e ∷ es) counter = omega (
  arith,
  sum_where-tally_reasons p es (bump e.outcome e.reason e.count counter),
  sum_where-bump p e.outcome e.reason e.count counter,
)

tally_reasons-OneEach :
    (es counter : List CoverageReasonCount) → OneEach counter → OneEach (tally_reasons es counter)
unfolding tally_reasons
tally_reasons-OneEach [] counter h = h
tally_reasons-OneEach (e ∷ es) counter h =
    tally_reasons-OneEach es (bump e.outcome e.reason e.count counter)
      (bump-OneEach e.outcome e.reason e.count counter h)

abbrev pub AllValid : List CoverageReasonCount → Type 0
AllValid es = All (λ e. is_reason_valid e ≡ true) es

pub tally_reasons-valid :
    (es counter : List CoverageReasonCount)
    → AllValid es
    → AllValid counter
    → AllValid (tally_reasons es counter)
unfolding tally_reasons
tally_reasons-valid [] counter h k = k
tally_reasons-valid (e ∷ es) counter h k =
    tally_reasons-valid es (bump e.outcome e.reason e.count counter) h.1
      (bump-valid e.outcome e.reason e.count counter (ground (arith, h.0)) (ground (arith, h.0)) k)

-- Sorting keeps the entries.
sum_where-insert_reason :
    (p : Test) (e : CoverageReasonCount) (es : List CoverageReasonCount)
    → sum_where p (insert_reason e es) ≡ sum_where p (e ∷ es)
unfolding insert_reason
sum_where-insert_reason p e [] = refl
sum_where-insert_reason p e (f ∷ es) = ground (arith, sum_where-insert_reason p e es)

entries_where-insert_reason :
    (p : Test) (e : CoverageReasonCount) (es : List CoverageReasonCount)
    → entries_where p (insert_reason e es) ≡ entries_where p (e ∷ es)
unfolding insert_reason
entries_where-insert_reason p e [] = refl
entries_where-insert_reason p e (f ∷ es) = ground (arith, entries_where-insert_reason p e es)

insert_reason-valid :
    (e : CoverageReasonCount) (es : List CoverageReasonCount)
    → AllValid (e ∷ es)
    → AllValid (insert_reason e es)
unfolding insert_reason
insert_reason-valid e [] h = h
insert_reason-valid e (f ∷ es) h = elim (Bool-cases (precedes f e)) [
  | inl before ↦ rw before (h.1.0, insert_reason-valid e es (h.0, h.1.1))
  | inr after ↦ rw after h
]

pub sum_where-sort_reasons :
    (p : Test) (es : List CoverageReasonCount) → sum_where p (sort_reasons es) ≡ sum_where p es
unfolding sort_reasons
sum_where-sort_reasons p [] = refl
sum_where-sort_reasons p (e ∷ es) =
    omega (arith, sum_where-insert_reason p e (sort_reasons es), sum_where-sort_reasons p es)

entries_where-sort_reasons :
    (p : Test) (es : List CoverageReasonCount)
    → entries_where p (sort_reasons es) ≡ entries_where p es
unfolding sort_reasons
entries_where-sort_reasons p [] = refl
entries_where-sort_reasons p (e ∷ es) =
    omega
      (arith, entries_where-insert_reason p e (sort_reasons es), entries_where-sort_reasons p es)

pub sort_reasons-valid : (es : List CoverageReasonCount) → AllValid es → AllValid (sort_reasons es)
unfolding sort_reasons
sort_reasons-valid [] h = tt
sort_reasons-valid (e ∷ es) h =
    insert_reason-valid e (sort_reasons es) (h.0, sort_reasons-valid es h.1)

-- The sorted counter of a list of entries.
pub sum_where-sorted :
    (p : Test) (es : List CoverageReasonCount)
    → sum_where p (sort_reasons (tally_reasons es [])) ≡ sum_where p es
sum_where-sorted p es =
    omega (arith, sum_where-sort_reasons p (tally_reasons es []), sum_where-tally_reasons p es [])

pub sorted-OneEach :
    (es : List CoverageReasonCount) (o : CoverageDisposition) (s : CoverageReason)
    → entries_where (is_key o s) (sort_reasons (tally_reasons es [])) ≤ 1
unfolding OneEach
sorted-OneEach es o s = omega (
  arith,
  entries_where-sort_reasons (is_key o s) (tally_reasons es []),
  tally_reasons-OneEach es [] (λ o' s'. omega arith) o s,
)

pub sorted-valid :
    (es : List CoverageReasonCount) → AllValid es → AllValid (sort_reasons (tally_reasons es []))
sorted-valid es h = sort_reasons-valid (tally_reasons es []) (tally_reasons-valid es [] h tt)
