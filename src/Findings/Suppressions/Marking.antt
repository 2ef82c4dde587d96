-- ===== src/Findings/Suppressions/Marking.antt =====
-- Which suppression a hidden finding is recorded under after one expires or is deleted.
use iceberg_sst.Prelude.{
  Bool, true, false, not, Option, none, some, List, [], ◌∷◌, String, ◌≡◌, refl, ◌≢◌, ◌⊎◌, inl, inr,
  ◌==◌, nat_eq, string_eq, option_eq, filter, map, find?, is_none, All, arith, Bool-cases,
  Option-cases, ap, sym, ◌∙◌, not-eq_true,
}
use iceberg_sst.Models.{Uuid, Datetime, Finding, Suppression, Comment, suppression_deleted}
use iceberg_sst.Suppression.Matching.{SuppressionRule, Subject, matches, first_match}
use iceberg_sst.Findings.Suppressions.Sweeps.{sweep-All, sweep-All_from}
use iceberg_sst.Findings.Suppressions.{
  subject_of, as_rule, is_expired, for_source, applicable_suppressions, release,
  hand_over_or_release, covered_visit, release_covered_by, recorded, lapsed_visit, release_lapsed,
}

abbrev row_of : Uuid → List Suppression → Option Suppression
row_of id rows = find? (λ s. s.id == id) rows

-- The primary key of the table.
abbrev pub IsKeyed : List Suppression → Type 0
IsKeyed [] = Unit
IsKeyed (s ∷ rows) = (row_of s.id rows ≡ none) × IsKeyed rows

row_of-cons :
    (s t : Suppression) (id : Uuid) (rows : List Suppression)
    → row_of s.id rows ≡ none
    → row_of id rows ≡ some t
    → row_of id (s ∷ rows) ≡ some t
row_of-cons s t id rows fresh e = elim (Bool-cases (s.id == id)) [
  | inl same ↦ let same_id : s.id ≡ id = ground arith in cc (ap (λ i. row_of i rows) same_id)
  | inr other ↦ rw other e
]

-- The row behind the rule that a search over the live rules finds.
module _ (fnmatchcase : String → String → Bool) (p q : Suppression → Bool) (subject : Subject) where
  first_match-row :
      (r : SuppressionRule) (rows : List Suppression)
      → IsKeyed rows
      → first_match fnmatchcase (map as_rule (filter p (filter q rows))) subject ≡ some r
      → (s : Suppression) × (row_of r.id rows ≡ some s) × (p s ≡ true) × (q s ≡ true)
  unfolding first_match
  first_match-row r [] k e = cc
  first_match-row r (s ∷ rows) k e =
      let further =
        λ (e' : first_match fnmatchcase (map as_rule (filter p (filter q rows))) subject ≡ some r).
          later (first_match-row r rows k.1 e') in
      elim (Bool-cases (q s)) [
        | inr no_q ↦ further (rw no_q at e)
        | inl q_s ↦ elim (Bool-cases (p s)) [
          | inr no_p ↦ further (rw (q_s, no_p) at e)
          | inl p_s ↦ elim (Bool-cases (matches fnmatchcase (as_rule s) subject)) [
            | inr miss ↦ further (rw (q_s, p_s, miss) at e)
            | inl hit ↦
                let found : some (as_rule s) ≡ some r = rw (q_s, p_s, hit) at e in
                let same_id : s.id ≡ r.id = ground arith in
                (s, rw ((nat_eq.beq_iff s.id r.id).1 same_id) refl, p_s, q_s)
          ]
        ]
      ]
    where
      later :
          (t : Suppression) × (row_of r.id rows ≡ some t) × (p t ≡ true) × (q t ≡ true)
          → (t : Suppression) × (row_of r.id (s ∷ rows) ≡ some t) × (p t ≡ true) × (q t ≡ true)
      later (t, at_id, p_t, q_t) = (t, row_of-cons s t r.id rows k.0 at_id, p_t, q_t)

-- A finding in view, or one hidden by a suppression that exists and has not expired.
abbrev pub IsHeld : List Suppression → Datetime → Finding → Type 0
IsHeld rows at f =
    (f.suppressed_at ≡ none)
    ⊎ ((id : Uuid) × (s : Suppression) × (f.suppressed_by_id ≡ some id)
        × (row_of id rows ≡ some s)
        × (is_expired at s ≡ false))

release_bare :
    (reason : Comment) (actor : Option Uuid) (f : Finding)
    → (release reason actor f).finding.suppressed_at ≡ none
unfolding release
release_bare reason actor f = ground arith

none_ne_some : (u : Uuid) → none ≢ some u
none_ne_some u e = cc

module _ (fnmatchcase : String → String → Bool) (rows : List Suppression) (at : Datetime) where
  kept :
      (f : Finding) (s : Suppression)
      → recorded fnmatchcase rows f.suppressed_by_id ≡ some s
      → is_expired at s ≡ false
      → (id : Uuid) × (t : Suppression) × (f.suppressed_by_id ≡ some id)
        × (row_of id rows ≡ some t)
        × (is_expired at t ≡ false)
  kept f s there live = elim (Option-cases f.suppressed_by_id) [
    | inl e ↦ cc (simp e at there)
    | inr (id, e) ↦ (id, s, e, simp e at there, live)
  ]

  hand_over-IsHeld :
      (reason : Comment) (actor : Option Uuid) (f : Finding)
      → IsKeyed rows
      → IsHeld rows at
          (hand_over_or_release fnmatchcase
            (applicable_suppressions rows f.source_id at)
            reason
            actor
            f).outcome.finding
  unfolding hand_over_or_release applicable_suppressions
  hand_over-IsHeld reason actor f k =
      elim (Option-cases
        (first_match fnmatchcase (applicable_suppressions rows f.source_id at) (subject_of f))) [
          | inl none_left ↦ rw (none_left, hand_over_or_release) (inl (release_bare reason actor f))
          | inr (r, hit) ↦
              let (s, at_id, live, _) =
                first_match-row fnmatchcase (λ s. not (is_expired at s)) (for_source f.source_id)
                  (subject_of f) r rows k hit in
              rw (hit, hand_over_or_release) (inr (r.id, s, refl, at_id, not-eq_true _ live))
        ]

  lapsed_visit-IsHeld :
      (f : Finding)
      → IsKeyed rows
      → IsHeld rows at (lapsed_visit fnmatchcase rows at f).outcome.finding
  unfolding lapsed_visit
  lapsed_visit-IsHeld f k = elim (Bool-cases (is_none f.suppressed_at)) [
    | inl bare ↦ rw bare (inl (ground arith))
    | inr hidden ↦ elim (Option-cases (recorded fnmatchcase rows f.suppressed_by_id)) [
      | inl gone ↦ rw (hidden, gone, lapsed_visit) (hand_over-IsHeld _ none f k)
      | inr (s, there) ↦ elim (Bool-cases (is_expired at s)) [
        | inl lapsed ↦ rw (hidden, there, lapsed_visit) (rw lapsed (hand_over-IsHeld _ none f k))
        | inr live ↦ rw (hidden, there, lapsed_visit) (rw live (inr (kept f s there live)))
      ]
    ]
  ]

  -- After the sweep every hidden finding is recorded under a suppression that exists and has not
  -- expired, where the suppressions have distinct ids.
  pub release_lapsed-IsHeld :
      (findings : List Finding)
      → IsKeyed rows
      → All (IsHeld rows at) (release_lapsed fnmatchcase rows at findings).findings
  unfolding release_lapsed
  release_lapsed-IsHeld findings k =
      sweep-All (IsHeld rows at) (lapsed_visit fnmatchcase rows at) findings
        (λ f. lapsed_visit-IsHeld f k)

  -- The rule found among the rules that are left is not the deleted one.
  first_match_without :
      (s : Suppression) (r : SuppressionRule) (subject : Subject) (rules : List SuppressionRule)
      → first_match fnmatchcase (filter (λ t. not (t.id == s.id)) rules) subject ≡ some r
      → (r.id == s.id) ≡ false
  unfolding first_match
  first_match_without s r subject [] e = cc
  first_match_without s r subject (t ∷ rules) e =
      let deeper = first_match_without s r subject rules in
      elim (Bool-cases (t.id == s.id)) [
        | inl same ↦ deeper (rw same at e)
        | inr other ↦ elim (Bool-cases (matches fnmatchcase t subject)) [
          | inl hit ↦ let found : some t ≡ some r = rw (other, hit) at e in ground arith
          | inr miss ↦ deeper (rw (other, miss) at e)
        ]
      ]

  abbrev left_without : Suppression → Finding → List SuppressionRule
  left_without s f = filter (λ t. not (t.id == s.id)) (applicable_suppressions rows f.source_id at)

  released_free :
      {u : Option Uuid} (reason : Comment) (actor : Option Uuid) (f : Finding)
      → (f.suppressed_at ≡ none → f.suppressed_by_id ≢ u)
      → none ≢ u
      → (release reason actor f).finding.suppressed_by_id ≢ u
  unfolding release
  released_free reason actor f bare absent = elim (Bool-cases (is_none f.suppressed_at)) [
    | inl none_there ↦ rw none_there (bare (ground arith))
    | inr there ↦ rw there absent
  ]

  covered_visit-free :
      (s : Suppression) (actor : Option Uuid) (f : Finding)
      → (f.suppressed_at ≡ none → f.suppressed_by_id ≡ none)
      → (covered_visit fnmatchcase s rows at actor f).outcome.finding.suppressed_by_id ≢ some s.id
  unfolding covered_visit
  covered_visit-free s actor f marked = elim (Bool-cases (f.suppressed_by_id == some s.id)) [
    | inr other ↦ rw other (λ e. cc ((option_eq.beq_iff f.suppressed_by_id (some s.id)).1 e))
    | inl mine ↦
        let by_it : f.suppressed_by_id ≡ some s.id =
          (option_eq.beq_iff f.suppressed_by_id (some s.id)).0 mine in
        elim (Option-cases (first_match fnmatchcase (left_without s f) (subject_of f))) [
          | inl gone ↦
              rw (mine, gone, hand_over_or_release)
                (released_free {u = some s.id} (suppression_deleted s.id) actor f
                  (λ bare e. none_ne_some s.id (sym (marked bare) ∙ e)) (none_ne_some s.id))
          | inr (r, hit) ↦
              rw (mine, hit, hand_over_or_release)
                (λ e. ground (arith, first_match_without s r (subject_of f) _ hit))
        ]
  ]

  -- After a suppression is deleted no finding is recorded under it, where every finding in view was
  -- recorded under none.
  pub release_covered_by-free :
      (s : Suppression) (actor : Option Uuid) (findings : List Finding)
      → All (λ f. f.suppressed_at ≡ none → f.suppressed_by_id ≡ none) findings
      → All
          (λ f. f.suppressed_by_id ≢ some s.id)
          (release_covered_by fnmatchcase s rows at actor findings).findings
  unfolding release_covered_by
  release_covered_by-free s actor findings marked =
      sweep-All_from _ _ (covered_visit fnmatchcase s rows at actor) findings
        (λ f m. covered_visit-free s actor f m) marked
