-- ===== src/Findings/Suppressions/Sweeps.antt =====
-- What the table looks like after a suppression is created, is deleted, or lapses.
use iceberg_sst.Prelude.{
  Bool, true, ◌&&◌, Option, none, some, List, [], ◌∷◌, String, ◌≡◌, refl, ◌⊎◌, inl, inr, ◌==◌,
  nat_eq, string_eq, option_eq, if◌then◌else◌, All, arith, length, length-append, Bool-cases, sym,
  ap, ◌↔◌,
}
use iceberg_sst.Prelude.Counting.{is_none-eq}
use iceberg_sst.Enums.{SuppressionScope, path_glob, FindingState, opened}
use iceberg_sst.Models.{Uuid, Datetime, Finding, Suppression}
use iceberg_sst.Suppression.Matching.{matches}
use iceberg_sst.Suppression.Covering.{CoversIn, Covers, matches-Covers}
use iceberg_sst.Findings.Suppressions.{
  suppress, subject_of, as_rule, Visit, sweep, is_opened, apply_to_existing, apply_visit, candidate,
}

-- A predicate that every visit establishes holds of the whole table after the sweep.
pub sweep-All :
    (P : Finding → Type 0) (visit : Finding → Visit) (fs : List Finding)
    → ((f : Finding) → P (visit f).outcome.finding)
    → All P (sweep visit fs).findings
unfolding sweep
sweep-All P visit [] h = tt
sweep-All P visit (f ∷ fs) h = (h f, sweep-All P visit fs h)

-- The same, where the predicate is established from one that held before.
pub sweep-All_from :
    (Q P : Finding → Type 0) (visit : Finding → Visit) (fs : List Finding)
    → ((f : Finding) → Q f → P (visit f).outcome.finding)
    → All Q fs
    → All P (sweep visit fs).findings
unfolding sweep
sweep-All_from Q P visit [] h q = tt
sweep-All_from Q P visit (f ∷ fs) h q = (h f q.0, sweep-All_from Q P visit fs h q.1)

-- A sweep counts its events where each visit that is counted writes one, and no other writes any.
abbrev OneEach : (Finding → Visit) → Type 0
OneEach visit =
    (f : Finding) → length (visit f).outcome.events ≡ (if (visit f).counted then 1 else 0)

sweep-count :
    (visit : Finding → Visit) (fs : List Finding)
    → OneEach visit
    → length (sweep visit fs).events ≡ (sweep visit fs).count
unfolding sweep
sweep-count visit [] h = refl
sweep-count visit (f ∷ fs) h = omega (
  arith,
  length-append (visit f).outcome.events (sweep visit fs).events,
  h f,
  sweep-count visit fs h,
)

-- The suppression is for every source, or for that of the finding.
abbrev IsInSource : Suppression → Finding → Type 0
IsInSource s f = (s.source_id ≡ none) ⊎ (s.source_id ≡ some f.source_id)

is_opened_iff : (state : FindingState) → (is_opened state ≡ true) ↔ (state ≡ opened)
is_opened_iff state = ground arith

all_of :
    {a b c d : Bool} → (a && b && c && d) ≡ true → (a ≡ true) × (b ≡ true) × (c ≡ true) × (d ≡ true)
all_of e = ground arith

all_from : {a b c d : Bool} → a ≡ true → b ≡ true → c ≡ true → d ≡ true → (a && b && c && d) ≡ true
all_from e f g h = ground arith

module _ (fnmatchcase : String → String → Bool) where
  -- A finding in view that a suppression is to hide: it is in its source and covered by it, and it is
  -- open if the suppression is a path glob.
  abbrev pub IsToHide : Suppression → Finding → Type 0
  IsToHide s f =
      (f.suppressed_at ≡ none)
      × IsInSource s f
      × Covers fnmatchcase (as_rule s) (subject_of f)
      × (s.scope ≡ path_glob → f.state ≡ opened)

  -- What the sweep makes of a finding.
  abbrev IsApplied : Suppression → Datetime → Finding → Finding → Type 0
  IsApplied s at f g =
      IsToHide s f × (g ≡ record f { suppressed_at = some at; suppressed_by_id = some s.id })
      ⊎ (¬ IsToHide s f) × (g ≡ f)

  -- The same, row by row over the table.
  abbrev pub AllApplied : Suppression → Datetime → List Finding → List Finding → Type 0
  AllApplied s at [] [] = Unit
  AllApplied s at [] (g ∷ gs) = ⊥
  AllApplied s at (f ∷ fs) [] = ⊥
  AllApplied s at (f ∷ fs) (g ∷ gs) = IsApplied s at f g × AllApplied s at fs gs

  is_in_source :
      (o : Option Uuid) (id : Uuid)
      → ((elim o [ none ↦ true | some t ↦ id == t ]) ≡ true) ↔ ((o ≡ none) ⊎ (o ≡ some id))
  is_in_source none id = ((λ e. inl refl), (λ h. refl))
  is_in_source (some t) id = (
    (λ e. inr (ap (λ x. some x) (sym ((nat_eq.beq_iff id t).0 e)))),
    λ h. elim h [ inl e ↦ cc | inr e ↦ (nat_eq.beq_iff id t).1 (cc e) ],
  )

  -- The WHERE clause of a scope holds of what the suppression covers, closed findings under a path
  -- glob aside.
  scope_clause :
      (s : Suppression) (f : Finding)
      → Covers fnmatchcase (as_rule s) (subject_of f)
      → ((elim s.scope [
        | SuppressionScope.fingerprint ↦ f.fingerprint == s.pattern
        | SuppressionScope.rule ↦ f.rule_id == s.pattern
        | SuppressionScope.path_glob ↦ is_opened f.state
      ])
          ≡ true)
        ↔ (s.scope ≡ path_glob → f.state ≡ opened)
  scope_clause s f covers = at s.scope covers
    where
      at :
          (scope : SuppressionScope)
          → CoversIn fnmatchcase scope s.pattern (subject_of f)
          → ((elim scope [
            | SuppressionScope.fingerprint ↦ f.fingerprint == s.pattern
            | SuppressionScope.rule ↦ f.rule_id == s.pattern
            | SuppressionScope.path_glob ↦ is_opened f.state
          ])
              ≡ true)
            ↔ (scope ≡ path_glob → f.state ≡ opened)
      at SuppressionScope.fingerprint covered =
          ((λ e q. cc), λ h. (string_eq.beq_iff f.fingerprint s.pattern).1 covered)
      at SuppressionScope.rule covered =
          ((λ e q. cc), λ h. (string_eq.beq_iff f.rule_id s.pattern).1 covered)
      at SuppressionScope.path_glob covered =
          ((λ e q. (is_opened_iff f.state).0 e), λ h. (is_opened_iff f.state).1 (h refl))

  candidate-IsToHide :
      (s : Suppression) (f : Finding)
      → ((candidate fnmatchcase s f && matches fnmatchcase (as_rule s) (subject_of f)) ≡ true)
        ↔ IsToHide s f
  unfolding candidate
  candidate-IsToHide s f =
      let here = is_in_source s.source_id f.source_id in
      let covered = matches-Covers fnmatchcase (as_rule s) (subject_of f) in
      (
        (λ e.
            let (bare, source, clause, hit) = all_of e in
            let covers = covered.0 hit in
            (
              (is_none-eq f.suppressed_at).0 bare,
              here.0 source,
              covers,
              (scope_clause s f covers).0 clause,
            )),
        λ (bare, source, covers, open_glob).
            all_from ((is_none-eq f.suppressed_at).1 bare) (here.1 source)
              ((scope_clause s f covers).1 open_glob) (covered.1 covers),
      )

  apply_visit-IsApplied :
      (s : Suppression) (at : Datetime) (actor : Option Uuid) (f : Finding)
      → IsApplied s at f (apply_visit fnmatchcase s at actor f).outcome.finding
  unfolding apply_visit suppress
  apply_visit-IsApplied s at actor f =
      elim (Bool-cases
        (candidate fnmatchcase s f && matches fnmatchcase (as_rule s) (subject_of f))) [
          | inl hit ↦
              let hide = (candidate-IsToHide s f).0 hit in rw hit (inl (hide, rw hide.0 refl))
          | inr miss ↦ rw miss (inr ((λ hide. cc (miss, (candidate-IsToHide s f).1 hide)), refl))
        ]

  sweep-AllApplied :
      (s : Suppression) (at : Datetime) (actor : Option Uuid) (fs : List Finding)
      → AllApplied s at fs (sweep (apply_visit fnmatchcase s at actor) fs).findings
  unfolding sweep
  sweep-AllApplied s at actor [] = tt
  sweep-AllApplied s at actor (f ∷ fs) =
      (apply_visit-IsApplied s at actor f, sweep-AllApplied s at actor fs)

  apply_visit-OneEach :
      (s : Suppression) (at : Datetime) (actor : Option Uuid)
      → OneEach (apply_visit fnmatchcase s at actor)
  unfolding apply_visit candidate
  apply_visit-OneEach s at actor f = ground arith

  -- Creating a suppression hides, now and under its identifier, exactly the findings in view that are
  -- in its source and covered by it and, if it is a path glob, open. Every other finding stays as it
  -- is, and the number reported is the number of `suppressed` events written.
  pub apply_to_existing-AllApplied :
      (s : Suppression) (at : Datetime) (actor : Option Uuid) (findings : List Finding)
      → let after = apply_to_existing fnmatchcase s at actor findings in
        AllApplied s at findings after.findings × (length after.events ≡ after.count)
  unfolding apply_to_existing
  apply_to_existing-AllApplied s at actor findings = (
    sweep-AllApplied s at actor findings,
    sweep-count (apply_visit fnmatchcase s at actor) findings (apply_visit-OneEach s at actor),
  )
