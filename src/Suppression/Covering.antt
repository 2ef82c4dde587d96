-- ===== src/Suppression/Covering.antt =====
-- What it means that a suppression covers a finding, stated apart from `matches`, and which of several
-- `first_match` finds.
use iceberg_sst.Prelude.{
  String, Bool, true, false, Option, none, some, List, [], ◌∷◌, ◌++◌, ◌≡◌, refl, ap, sym, ◌∙◌, any,
  All, Has, ◌==◌, string_eq, Bool-cases, inl, inr, ◌↔◌,
}
use iceberg_sst.Prelude.Counting.{any-Has, Has-any}
use iceberg_sst.Enums.{SuppressionScope}
use iceberg_sst.Models.Json.{Json, Fields, get_field, get_str}
use iceberg_sst.Suppression.Matching.{
  SuppressionRule, Subject, locator_path_keys, strings_at, locator_paths, matches, first_match,
}

get_str-get_field :
    (key path : String) (locator : Fields)
    → (get_str key locator ≡ some path) ↔ (get_field key locator ≡ some (Json.str path))
unfolding get_str
get_str-get_field key path locator = at (get_field key locator)
  where
    at :
        (o : Option Json)
        → ((elim o [ some (Json.str s) ↦ some s | _ ↦ none ]) ≡ some path)
          ↔ (o ≡ some (Json.str path))
    at none = ((λ e. cc), (λ e. cc))
    at (some (Json.str s)) = ((λ e. cc), (λ e. cc))
    at (some Json.null) = ((λ e. cc), (λ e. cc))
    at (some (Json.bool b)) = ((λ e. cc), (λ e. cc))
    at (some (Json.num n)) = ((λ e. cc), (λ e. cc))
    at (some (Json.arr js)) = ((λ e. cc), (λ e. cc))
    at (some (Json.obj fs)) = ((λ e. cc), (λ e. cc))

-- A text of the locator under one of the keys.
abbrev Names : List String → Fields → String → Type 0
Names keys locator path =
    (key : String) × Has key keys × (get_field key locator ≡ some (Json.str path))

none-some : {A : Type 0} {a : A} → none ≡ some a → ⊥
none-some e = cc

strings_at-Names :
    (keys : List String) (locator : Fields) (path : String)
    → Has path (strings_at keys locator) ↔ Names keys locator path
unfolding strings_at
strings_at-Names [] locator path = ((λ m. absurd m), (λ h. absurd h.1))
strings_at-Names (key ∷ keys) locator path =
    at (strings_at-Names keys locator path) (get_str key locator) refl
  where
    named_str :
        (k : String)
        → key ≡ k
        → get_field k locator ≡ some (Json.str path)
        → get_str key locator ≡ some path
    named_str k same named =
        ap (λ x. get_str x locator) same ∙ (get_str-get_field k path locator).1 named

    at :
        Has path (strings_at keys locator) ↔ Names keys locator path
        → (o : Option String) → get_str key locator ≡ o
        → Has path
            (elim o [ some s ↦ s ∷ strings_at keys locator | none ↦ strings_at keys locator ])
          ↔ Names (key ∷ keys) locator path
    at ih none e = (
      (λ m. let (k, has, named) = ih.0 m in (k, inr has, named)),
      λ (k, has, named). elim has [
        | inl same ↦ absurd (none-some (sym e ∙ named_str k same named))
        | inr later ↦ ih.1 (k, later, named)
      ],
    )
    at ih (some s) e = (
      (λ m. elim m [
        | inl same ↦
            (key, inl refl, (get_str-get_field key path locator).0 (e ∙ ap (λ x. some x) same))
        | inr later ↦ let (k, has, named) = ih.0 later in (k, inr has, named)
      ]),
      λ (k, has, named). elim has [
        | inl same ↦ inl (cc (sym e ∙ named_str k same named))
        | inr later ↦ inr (ih.1 (k, later, named))
      ],
    )

module _ (fnmatchcase : String → String → Bool) where
  -- An exact scope names the finding's fingerprint or its rule; a path glob is matched by one of the
  -- locator's texts.
  abbrev pub CoversIn : SuppressionScope → (pattern : String) → Subject → Type 0
  CoversIn SuppressionScope.fingerprint pattern subject = subject.fingerprint ≡ pattern
  CoversIn SuppressionScope.rule pattern subject = subject.rule_id ≡ pattern
  CoversIn SuppressionScope.path_glob pattern subject =
      (path : String) × Names locator_path_keys subject.resource_locator path
      × (fnmatchcase path pattern ≡ true)

  abbrev pub Covers : SuppressionRule → Subject → Type 0
  Covers rule subject = CoversIn rule.scope rule.pattern subject

  pub matches-Covers :
      (rule : SuppressionRule) (subject : Subject)
      → (matches fnmatchcase rule subject ≡ true) ↔ Covers rule subject
  unfolding matches locator_paths
  matches-Covers rule subject = at rule.scope
    where
      at :
          (scope : SuppressionScope)
          → ((elim scope [
            | SuppressionScope.fingerprint ↦ rule.pattern == subject.fingerprint
            | SuppressionScope.rule ↦ rule.pattern == subject.rule_id
            | SuppressionScope.path_glob ↦
                any (λ path. fnmatchcase path rule.pattern) (locator_paths subject.resource_locator)
          ])
              ≡ true)
            ↔ CoversIn scope rule.pattern subject
      at SuppressionScope.fingerprint = (
        (λ e. sym ((string_eq.beq_iff rule.pattern subject.fingerprint).0 e)),
        (λ e. (string_eq.beq_iff rule.pattern subject.fingerprint).1 (sym e)),
      )
      at SuppressionScope.rule = (
        (λ e. sym ((string_eq.beq_iff rule.pattern subject.rule_id).0 e)),
        (λ e. (string_eq.beq_iff rule.pattern subject.rule_id).1 (sym e)),
      )
      at SuppressionScope.path_glob =
          let paths = locator_paths subject.resource_locator in
          let test = λ (path : String). fnmatchcase path rule.pattern in
          let named = strings_at-Names locator_path_keys subject.resource_locator in
          (
            (λ e. let (path, has, hit) = any-Has test paths e in (path, (named path).0 has, hit)),
            λ (path, names, hit). Has-any test paths path ((named path).1 names) hit,
          )

  missed-Covers :
      (rule : SuppressionRule) (subject : Subject)
      → matches fnmatchcase rule subject ≡ false
      → Covers rule subject
      → ⊥
  missed-Covers rule subject miss covers = cc (miss, (matches-Covers rule subject).1 covers)

  -- The rule found covers the finding, and no rule before it does; where none is found, none does.
  abbrev pub IsFirst : List SuppressionRule → Subject → Option SuppressionRule → Type 0
  IsFirst rules subject none = All (λ r. ¬ Covers r subject) rules
  IsFirst rules subject (some rule) =
      (before : List SuppressionRule) × (after : List SuppressionRule) × (rules
        ≡ before ++ rule ∷ after)
      × Covers rule subject
      × All (λ r. ¬ Covers r subject) before

  IsFirst-cons :
      (rule : SuppressionRule) (rules : List SuppressionRule) (subject : Subject)
      (found : Option SuppressionRule)
      → ¬ Covers rule subject
      → IsFirst rules subject found
      → IsFirst (rule ∷ rules) subject found
  IsFirst-cons rule rules subject none miss h = (miss, h)
  IsFirst-cons rule rules subject (some r) miss (before, after, split, hit, missed) =
      (rule ∷ before, after, ap (λ l. rule ∷ l) split, hit, (miss, missed))

  -- `first_match` returns the earliest rule of the list that covers the finding, and none exactly
  -- where no rule of the list covers it. An exact scope covers a finding of that fingerprint or of that
  -- detection rule; a path glob covers one whose locator has, under one of the keys of a path, a
  -- text that `fnmatchcase` matches with the glob.
  pub first_match-IsFirst :
      (rules : List SuppressionRule) (subject : Subject)
      → IsFirst rules subject (first_match fnmatchcase rules subject)
  unfolding first_match
  first_match-IsFirst [] subject = tt
  first_match-IsFirst (rule ∷ rules) subject =
      elim (Bool-cases (matches fnmatchcase rule subject)) [
        | inl hit ↦ rw hit ([], rules, refl, (matches-Covers rule subject).0 hit, tt)
        | inr miss ↦ rw miss (
            IsFirst-cons rule rules subject (first_match fnmatchcase rules subject)
              (missed-Covers rule subject miss) (first_match-IsFirst rules subject))
      ]
