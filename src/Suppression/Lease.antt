-- ===== src/Suppression/Lease.antt =====
-- The suppressions of a lease: their wire form, the engine's parser, and its pre-filter.
use iceberg_sst.Prelude.{
  String, Bool, Option, none, some, List, [], ◌∷◌, ◌≡◌, refl, ap, ◌==◌, string_eq, map,
  if◌then◌else◌, arith, length, ◌+◌, All, filter, is_none, Option-cases, inl, inr,
}
use iceberg_sst.Enums.{SuppressionScope}
use iceberg_sst.Models.{Uuid}
use iceberg_sst.Models.Json.{str, Fields, end, field, get_str}
use iceberg_sst.Suppression.Matching.{SuppressionRule, Subject, first_match}

-- `SuppressionScope.value`, and `SuppressionScope(text)`, which raises on any other text.
unfoldable pub scope_value : SuppressionScope → String
scope_value SuppressionScope.path_glob = "path_glob"
scope_value SuppressionScope.fingerprint = "fingerprint"
scope_value SuppressionScope.rule = "rule"

unfoldable pub scope_of_value : String → Option SuppressionScope
scope_of_value s =
    if s == "path_glob"
    then some SuppressionScope.path_glob
    else if s == "fingerprint"
    then some SuppressionScope.fingerprint
    else if s == "rule"
    then some SuppressionScope.rule
    else none

scope_of_value-scope_value : (s : SuppressionScope) → scope_of_value (scope_value s) ≡ some s
unfolding scope_of_value scope_value
scope_of_value-scope_value SuppressionScope.path_glob = refl
scope_of_value-scope_value SuppressionScope.fingerprint = refl
scope_of_value-scope_value SuppressionScope.rule = refl

-- `SuppressionPayloadError`, by its two messages.
pub data PayloadError : Type 0 where
  pattern_must_be_a_string unusable_payload : PayloadError

pub data Parsed {ℓ} (A : Type ℓ) : Type ℓ where
  ok : A → Parsed A
  err : PayloadError → Parsed A

infixl 5 ◌>>=◌
abbrev pub ◌>>=◌ {ℓ κ} : {A : Type ℓ} {B : Type κ} → Parsed A → (A → Parsed B) → Parsed B
ok a >>= f = f a
err e >>= f = err e

abbrev or_raise {ℓ} : {A : Type ℓ} → Option A → PayloadError → Parsed A
or_raise none e = err e
or_raise (some a) e = ok a

-- `str(uuid)`, and `uuid.UUID(text)`, which raises on a text that is no uuid.
pub record UuidText : Type 0 where
  pub show : Uuid → String
  pub parse : String → Option Uuid
  pub parse-show : (u : Uuid) → parse (show u) ≡ some u

module _ (uuids : UuidText) where
  open uuids use {show, parse, parse-show}

  unfoldable pub as_payload : SuppressionRule → Fields
  unfolding scope_value
  as_payload rule =
      field "id" (str (show rule.id))
        (field "scope" (str (scope_value rule.scope)) (field "pattern" (str rule.pattern) end))

  -- A missing key, a value of another type and a text that does not parse all raise the same error.
  unfoldable pub from_payload : Fields → Parsed SuppressionRule
  unfolding get_str
  from_payload payload = do
    text ← or_raise (get_str "pattern" payload) pattern_must_be_a_string
    id_text ← or_raise (get_str "id" payload) unusable_payload
    id ← or_raise (parse id_text) unusable_payload
    scope_text ← or_raise (get_str "scope" payload) unusable_payload
    scope ← or_raise (scope_of_value scope_text) unusable_payload
    ok (record { id = id; scope = scope; pattern = text })

  unfoldable pub rules_from_lease : List Fields → Parsed (List SuppressionRule)
  rules_from_lease [] = ok []
  rules_from_lease (payload ∷ payloads) = do
    rule ← from_payload payload
    rules ← rules_from_lease payloads
    ok (rule ∷ rules)

  from_payload-as_payload : (rule : SuppressionRule) → from_payload (as_payload rule) ≡ ok rule
  unfolding from_payload as_payload
  from_payload-as_payload rule = rw (parse-show rule.id, scope_of_value-scope_value rule.scope)

  -- The rules that the API puts into a lease are the rules that the engine reads out of it.
  pub rules_from_lease-as_payload :
      (rules : List SuppressionRule) → rules_from_lease (map as_payload rules) ≡ ok rules
  unfolding rules_from_lease
  rules_from_lease-as_payload [] = refl
  rules_from_lease-as_payload (rule ∷ rules) =
      rw (from_payload-as_payload rule, rules_from_lease-as_payload rules)

pub record PrefilterResult {ℓ} (A : Type ℓ) : Type ℓ where
  pub kept : List A
  pub suppressed : List (A × SuppressionRule)

module _ (fnmatchcase : String → String → Bool) {A : Type 0} (view : A → Subject) where
  abbrev keep : A → PrefilterResult A → PrefilterResult A
  keep x r = record { kept = x ∷ r.kept; suppressed = r.suppressed }

  abbrev drop : A → SuppressionRule → PrefilterResult A → PrefilterResult A
  drop x rule r = record { kept = r.kept; suppressed = (x, rule) ∷ r.suppressed }

  -- The loop of `prefilter`.
  split : List SuppressionRule → List A → PrefilterResult A
  split rules [] = record { kept = []; suppressed = [] }
  split rules (x ∷ xs) =
      let rest = split rules xs in
      elim (first_match fnmatchcase rules (view x)) [
        | none ↦ keep x rest
        | some rule ↦ drop x rule rest
      ]

  unfoldable pub prefilter : List A → List SuppressionRule → PrefilterResult A
  unfolding split
  prefilter xs [] = record { kept = xs; suppressed = [] }
  prefilter xs (rule ∷ rules) = split (rule ∷ rules) xs

  -- Kept is what no rule covers, and each dropped candidate stands beside its first match.
  abbrev pub Splits : List SuppressionRule → List A → PrefilterResult A → Type 0
  Splits rules xs r =
      (r.kept ≡ filter (λ x. is_none (first_match fnmatchcase rules (view x))) xs)
      × All (λ d. first_match fnmatchcase rules (view d.0) ≡ some d.1) r.suppressed
      × (length r.kept + length r.suppressed ≡ length xs)

  split-Splits : (rules : List SuppressionRule) (xs : List A) → Splits rules xs (split rules xs)
  unfolding split
  split-Splits rules [] = (refl, tt, refl)
  split-Splits rules (x ∷ xs) =
      let (kept, covered, total) = split-Splits rules xs in
      elim (Option-cases (first_match fnmatchcase rules (view x))) [
        | inl miss ↦ rw (miss, split) (ap (λ l. x ∷ l) kept, covered, omega arith)
        | inr (rule, hit) ↦ rw (hit, split) (kept, (hit, covered), omega arith)
      ]

  filter_all : (xs : List A) → xs ≡ filter (λ x. is_none (first_match fnmatchcase [] (view x))) xs
  unfolding first_match
  filter_all [] = refl
  filter_all (x ∷ xs) = ap (λ l. x ∷ l) (filter_all xs)

  prefilter-Splits :
      (rules : List SuppressionRule) (xs : List A) → Splits rules xs (prefilter xs rules)
  unfolding prefilter
  prefilter-Splits [] xs = (filter_all xs, tt, omega arith)
  prefilter-Splits (rule ∷ rules) xs = split-Splits (rule ∷ rules) xs

-- An engine that parses the lease's suppressions and pre-filters with them keeps exactly the
-- candidates that the API's own `first_match` over the same rules leaves uncovered, in order; each
-- candidate that it drops stands beside the rule that the API would record; and none is lost.
pub prefilter_agrees_with_api :
    (uuids : UuidText) (fnmatchcase : String → String → Bool) {A : Type 0} (view : A → Subject)
    (rules received : List SuppressionRule) (xs : List A)
    → rules_from_lease uuids (map (as_payload uuids) rules) ≡ ok received
    → Splits fnmatchcase view rules xs (prefilter fnmatchcase view xs received)
prefilter_agrees_with_api uuids fnmatchcase view rules received xs parsed =
    rw (← same) (prefilter-Splits fnmatchcase view rules xs)
  where
    same : rules ≡ received
    same = cc (rules_from_lease-as_payload uuids rules)
