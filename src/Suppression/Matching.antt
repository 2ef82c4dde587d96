-- ===== src/Suppression/Matching.antt =====
-- Which suppression covers a finding: `matches`, `first_match` and `locator_paths`.
use iceberg_sst.Prelude.{
  String, Bool, Option, none, some, List, [], ◌∷◌, any, ◌==◌, string_eq, if◌then◌else◌,
}
use iceberg_sst.Enums.{SuppressionScope}
use iceberg_sst.Models.{Uuid}
use iceberg_sst.Models.Json.{Fields, get_str}

pub record SuppressionRule : Type 0 where
  pub id : Uuid
  pub scope : SuppressionScope
  pub pattern : String

abbrev pub locator_path_keys : List String
locator_path_keys =
    "path" ∷ "url" ∷ "space" ∷ "space_key" ∷ "resource_id" ∷ "sub_resource" ∷ "title" ∷ []

unfoldable pub strings_at : List String → Fields → List String
strings_at [] locator = []
strings_at (key ∷ keys) locator =
    let rest = strings_at keys locator in
    elim (get_str key locator) [ some s ↦ s ∷ rest | none ↦ rest ]

unfoldable pub locator_paths : Fields → List String
unfolding strings_at get_str
locator_paths locator = strings_at locator_path_keys locator

-- What a suppression looks at: the three keyword arguments of `matches`.
pub record Subject : Type 0 where
  pub fingerprint : String
  pub rule_id : String
  pub resource_locator : Fields

module _ (fnmatchcase : String → String → Bool) where
  unfoldable pub matches : SuppressionRule → Subject → Bool
  unfolding locator_paths
  matches rule subject = elim rule.scope [
    | SuppressionScope.fingerprint ↦ rule.pattern == subject.fingerprint
    | SuppressionScope.rule ↦ rule.pattern == subject.rule_id
    | SuppressionScope.path_glob ↦
        any (λ path. fnmatchcase path rule.pattern) (locator_paths subject.resource_locator)
  ]

  unfoldable pub first_match : List SuppressionRule → Subject → Option SuppressionRule
  first_match [] subject = none
  first_match (rule ∷ rules) subject =
      if matches rule subject then some rule else first_match rules subject
