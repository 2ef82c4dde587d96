-- ===== src/Scans/Cursors/Trusted.antt =====
-- apps/api/src/iceberg_api/scans/cursors.py: `plan_mode`, `invalidation_for` and `invalidate`.
use iceberg_sst.Prelude.{
  ◌+◌, ◌≤◌, ◌<◌, min, Bool, true, false, not, ◌||◌, Option, none, some, List, [], ◌∷◌, ◌≡◌, ◌↔◌,
  refl, arith, String, ◌==◌, nat_eq, option_eq, string_eq, if◌then◌else◌, is_none, is_some, count,
  length, leb, All, All-map, sym, ◌∙◌,
}
use iceberg_sst.Prelude.Counting.{All-filter, filter-All, length-filter}
use iceberg_sst.Prelude.Rows.{update_where}
use iceberg_sst.Enums.{ScanMode, full, incremental, CursorInvalidationReason, no_cursor}
use iceberg_sst.Models.{Uuid, Datetime, days}
use iceberg_sst.Models.Sources.{Source, SourceCursor}
use iceberg_sst.Scans.Cursors.{
  is_live, active_cursors, Fleet, is_elapsed, invalidation_of, invalidation_for, invalidate,
  first_reason, oldest, Plan, plan_incremental, plan_mode,
}

-- A watermark that covers what the scan is about to enumerate, under the rules that run, and that is
-- not due for a full scan.
pub record IsTrusted (source : Source) (fleet : Fleet) (c : SourceCursor) : Type 0 where
  pub live : c.invalidated_at ≡ none
  pub configured : c.source_configuration_version ≡ some source.updated_at
  pub version : String
  pub agreed : fleet.rulepack_version ≡ some version
  pub ruled : c.rulepack_version ≡ some version
  pub settled : fleet.rotating ≡ false
  pub recent : fleet.now < c.minted_at + days source.full_scan_interval_days

-- No reason is given exactly where no test is met.
no_reason :
    (b : Bool) (r : CursorInvalidationReason) (o : Option CursorInvalidationReason)
    → ((if b then some r else o) ≡ none) ↔ ((b ≡ false) × (o ≡ none))
no_reason true r o = ((λ e. cc), (λ h. cc (h.0)))
no_reason false r o = ((λ e. (refl, e)), (λ h. h.1))

is_some-none : {A : Type 0} (o : Option A) → (is_some o ≡ false) ↔ (o ≡ none)
is_some-none none = ((λ e. refl), (λ e. refl))
is_some-none (some a) = ((λ e. cc), (λ e. cc))

not-eq_false : (b : Bool) → (not b ≡ false) ↔ (b ≡ true)
not-eq_false true = ((λ e. refl), (λ e. refl))
not-eq_false false = ((λ e. cc), (λ e. cc))

-- The versions agree, and there is one to agree on.
is_ruled :
    (mine theirs : Option String)
    → ((is_none theirs || not (mine == theirs)) ≡ false)
      ↔ ((v : String) × (theirs ≡ some v) × (mine ≡ some v))
is_ruled mine none = ((λ e. cc), (λ h. cc (h.1)))
is_ruled mine (some v) = (
  (λ e. (v, refl, (option_eq.beq_iff mine (some v)).0 ((not-eq_false (mine == some v)).0 e))),
  (λ h. (not-eq_false (mine == some v)).1 ((option_eq.beq_iff mine (some v)).1 (h.2 ∙ sym h.1))),
)

invalidation_of-IsTrusted :
    (source : Source) (fleet : Fleet) (c : SourceCursor)
    → (invalidation_of c source fleet ≡ none) ↔ IsTrusted source fleet c
unfolding invalidation_of is_elapsed
invalidation_of-IsTrusted source fleet c = (
  (λ e.
      let (unretired, e1) = (no_reason (is_some c.invalidated_at) _ _).0 e in
      let (same, e2) =
        (no_reason (not (c.source_configuration_version == some source.updated_at)) _ _).0 e1 in
      let (rules, e3) =
        (no_reason
            (is_none fleet.rulepack_version || not (c.rulepack_version == fleet.rulepack_version)) _
            _).0
          e2 in
      let (still, e4) = (no_reason fleet.rotating _ _).0 e3 in
      let (early, e5) =
        (no_reason (leb (c.minted_at + days source.full_scan_interval_days) fleet.now) _ _).0 e4 in
      let (v, agreed, ruled) = (is_ruled c.rulepack_version fleet.rulepack_version).0 rules in
      record {
        live = (is_some-none c.invalidated_at).0 unretired;
        configured =
            (option_eq.beq_iff c.source_configuration_version (some source.updated_at)).0
              ((not-eq_false _).0 same);
        version = v;
        agreed = agreed;
        ruled = ruled;
        settled = still;
        recent = ground (arith, early);
      }),
  (λ h. (no_reason (is_some c.invalidated_at) _ _).1 (
    (is_some-none c.invalidated_at).1 h.live,
    (no_reason (not (c.source_configuration_version == some source.updated_at)) _ _).1 (
      (not-eq_false _).1 (
          (option_eq.beq_iff c.source_configuration_version (some source.updated_at)).1
            h.configured),
      (no_reason
            (is_none fleet.rulepack_version || not (c.rulepack_version == fleet.rulepack_version)) _
            _).1
          (
            (is_ruled c.rulepack_version fleet.rulepack_version).1 (h.version, h.agreed, h.ruled),
            (no_reason fleet.rotating _ _).1 (
              h.settled,
              (no_reason (leb (c.minted_at + days source.full_scan_interval_days) fleet.now) _ _).1
                  (ground (arith, h.recent), refl),
            ),
          ),
    ),
  )),
)

first_reason-IsTrusted :
    (source : Source) (fleet : Fleet) (cs : List SourceCursor)
    → (first_reason cs source fleet ≡ none) ↔ All (IsTrusted source fleet) cs
unfolding first_reason invalidation_for
first_reason-IsTrusted source fleet [] = ((λ e. tt), (λ h. refl))
first_reason-IsTrusted source fleet (c ∷ cs) =
    let rest = first_reason-IsTrusted source fleet cs in
    let here = invalidation_of-IsTrusted source fleet c in
    let both = stopped (invalidation_of c source fleet) (first_reason cs source fleet) in
    ((λ e. (here.0 (both.0 e).0, rest.0 (both.0 e).1)), (λ h. both.1 (here.1 h.0, rest.1 h.1)))
  where
    stopped :
        (o later : Option CursorInvalidationReason)
        → ((elim o [ some reason ↦ some reason | none ↦ later ]) ≡ none)
          ↔ ((o ≡ none) × (later ≡ none))
    stopped none later = ((λ e. (refl, e)), (λ h. h.1))
    stopped (some r) later = ((λ e. cc), (λ h. cc (h.0)))

oldest-le :
    (c : SourceCursor) (cs : List SourceCursor) → All (λ d. oldest c cs ≤ d.minted_at) (c ∷ cs)
unfolding oldest
oldest-le c [] = (omega arith, tt)
oldest-le c (d ∷ cs) = (
  omega arith,
  All-map (λ e. oldest d cs ≤ e.minted_at) (λ e. min c.minted_at (oldest d cs) ≤ e.minted_at)
      (d ∷ cs) (λ e h. omega arith) (oldest-le d cs),
)

-- A row that `invalidate` wrote is no longer live.
none_live :
    (source_id : Uuid) (reason : CursorInvalidationReason) (at : Datetime)
    (rows : List SourceCursor)
    → count (is_live source_id) (invalidate source_id reason none at rows).0 ≡ 0
unfolding invalidate update_where
none_live source_id reason at [] = refl
none_live source_id reason at (c ∷ cs) = ground (arith, none_live source_id reason at cs)

-- The plan by the live watermarks.
by_live :
    (source : Source) (fleet : Fleet) (rows live : List SourceCursor)
    → let plan = plan_incremental source fleet rows live in
      ((plan.mode ≡ incremental) ↔ ((0 < length live) × All (IsTrusted source fleet) live))
      × (plan.mode ≡ incremental
          → (plan.cursors ≡ rows)
            × (plan.reason ≡ none)
            × ((b : Datetime) × (plan.baseline ≡ some b) × All (λ c. b ≤ c.minted_at) live))
      × (plan.mode ≡ full
          → (r : CursorInvalidationReason) × (plan.reason ≡ some r)
            × (length live ≡ count (is_live source.id) rows
                → count (is_live source.id) plan.cursors ≡ 0))
unfolding plan_incremental
by_live source fleet rows [] = (
  ((λ e. cc), (λ h. absurd (omega (arith, h.0)))),
  (λ e. cc),
  (λ e. (no_cursor, refl, λ q. omega (arith, q))),
)
by_live source fleet rows (c ∷ cs) =
    at (first_reason (c ∷ cs) source fleet) (first_reason-IsTrusted source fleet (c ∷ cs))
  where
    at :
        (o : Option CursorInvalidationReason)
        → ((o ≡ none) ↔ All (IsTrusted source fleet) (c ∷ cs))
        → let plan : Plan = elim o [
          | some reason ↦ record {
            mode = full;
            reason = some reason;
            baseline = none;
            cursors = (invalidate source.id reason none fleet.now rows).0;
          }
          | none ↦ record {
            mode = incremental;
            reason = none;
            baseline = some (oldest c cs);
            cursors = rows;
          }
        ] in
          ((plan.mode ≡ incremental)
            ↔ ((0 < length (c ∷ cs)) × All (IsTrusted source fleet) (c ∷ cs)))
          × (plan.mode ≡ incremental
              → (plan.cursors ≡ rows)
                × (plan.reason ≡ none)
                × ((b : Datetime) × (plan.baseline ≡ some b) × All (λ d. b ≤ d.minted_at) (c ∷ cs)))
          × (plan.mode ≡ full
              → (r : CursorInvalidationReason) × (plan.reason ≡ some r)
                × (length (c ∷ cs) ≡ count (is_live source.id) rows
                    → count (is_live source.id) plan.cursors ≡ 0))
    at none h = (
      ((λ e. (omega arith, h.0 refl)), (λ q. refl)),
      (λ e. (refl, refl, (oldest c cs, refl, oldest-le c cs))),
      (λ e. cc),
    )
    at (some r) h = (
      ((λ e. cc), (λ q. cc (h.1 q.1))),
      (λ e. cc),
      (λ e. (r, refl, λ q. none_live source.id r fleet.now rows)),
    )

-- An incremental scan is planned exactly where one is asked for, the source has a live watermark, and
-- every live watermark of it is trusted: taken under the source's present configuration and under
-- the one version of the rules that the fleet runs, with no rotation under way and before the
-- source's interval has passed. Then no watermark changes, and the baseline is not after any of them.
-- Where one is asked for and a full scan is planned, there is a reason, and no watermark stays live.
pub plan_mode-IsTrusted :
    (source : Source) (requested : ScanMode) (fleet : Fleet) (rows : List SourceCursor)
    → ((plan_mode source requested fleet rows).mode ≡ incremental ↔ (
        (requested ≡ incremental)
        × (0 < count (is_live source.id) rows)
        × All (λ c. is_live source.id c ≡ true → IsTrusted source fleet c) rows))
      × ((plan_mode source requested fleet rows).mode ≡ incremental
          → ((plan_mode source requested fleet rows).cursors ≡ rows)
            × ((plan_mode source requested fleet rows).reason ≡ none)
            × ((b : Datetime) × ((plan_mode source requested fleet rows).baseline ≡ some b)
                × All (λ c. is_live source.id c ≡ true → b ≤ c.minted_at) rows))
      × (requested ≡ incremental
          → (plan_mode source requested fleet rows).mode ≡ full
          → ((r : CursorInvalidationReason) × ((plan_mode source requested fleet rows).reason
                ≡ some r))
            × (count (is_live source.id) (plan_mode source requested fleet rows).cursors ≡ 0))
unfolding plan_mode
plan_mode-IsTrusted source full fleet rows = ((((λ e. cc), (λ h. cc (h.0)))), (λ e. cc), (λ e. cc))
plan_mode-IsTrusted source incremental fleet rows =
    let live = active_cursors source.id rows in
    let size : length live ≡ count (is_live source.id) rows =
      unfold active_cursors in length-filter (is_live source.id) rows in
    let (exact, kept, dropped) = by_live source fleet rows live in
    (
      (
        (λ e.
            let (full_list, trusted) = exact.0 e in
            (
              refl,
              omega (arith, size),
              unfold active_cursors in
                  All-filter (IsTrusted source fleet) (is_live source.id) rows trusted,
            )),
        (λ h. exact.1 (
          omega (arith, size, h.1),
          unfold active_cursors in filter-All (IsTrusted source fleet) (is_live source.id) rows h.2,
        )),
      ),
      (λ e.
          let (same, unreasoned, (b, based, bound)) = kept e in
          (
            same,
            unreasoned,
            (
              b,
              based,
              unfold active_cursors in
                  All-filter (λ c. b ≤ c.minted_at) (is_live source.id) rows bound,
            ),
          )),
      (λ e f. let (r, why, none_left) = dropped f in ((r, why), none_left (omega (arith, size)))),
    )
