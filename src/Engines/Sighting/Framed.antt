-- ===== src/Engines/Sighting/Framed.antt =====
-- What routing, clocks, validation and suppression leave alone on the row that they work on.
use iceberg_sst.Prelude.{
  Bool, true, ◌||◌, Option, none, some, ◌≡◌, refl, inl, inr, arith, nat_eq, string_eq, option_eq,
  is_some, Bool-cases, Option-cases,
}
use iceberg_sst.Enums.{ValidationStatus}
use iceberg_sst.Models.{Finding, FindingPayload, CredentialValidationResult}
use iceberg_sst.Suppression.Matching.{SuppressionRule}
use iceberg_sst.Findings.Ownership.{route, start_clock}
use iceberg_sst.Findings.Ownership.Routing.{route-columns, route_settled}
use iceberg_sst.Findings.Suppressions.{suppress, release}
use iceberg_sst.Engines.Sighting.{
  Submission, clocked, silenced, refresh_validation, silence_or_release, record_validation,
  same_validation,
}

-- The columns of identity, triage and history that routing, clocks, validation and suppression leave
-- alone.
pub record IsFramed (f g : Finding) : Type 0 where
  pub id : g.id ≡ f.id
  pub source_id : g.source_id ≡ f.source_id
  pub fingerprint : g.fingerprint ≡ f.fingerprint
  pub secret_hash : g.secret_hash ≡ f.secret_hash
  pub severity : g.severity ≡ f.severity
  pub resource_locator : g.resource_locator ≡ f.resource_locator
  pub redacted_snippet : g.redacted_snippet ≡ f.redacted_snippet
  pub first_seen : g.first_seen_scan_id ≡ f.first_seen_scan_id
  pub last_seen : g.last_seen_scan_id ≡ f.last_seen_scan_id
  pub state : g.state ≡ f.state
  pub resolution : g.resolution ≡ f.resolution
  pub assignee_id : g.assignee_id ≡ f.assignee_id
  pub notes : g.notes ≡ f.notes
  pub owner_pinned : g.owner_pinned ≡ f.owner_pinned
  pub owner :
      (f.owner_pinned || is_some f.owner_group_id) ≡ true → g.owner_group_id ≡ f.owner_group_id

pub IsFramed-refl : (f : Finding) → IsFramed f f
IsFramed-refl f = ground arith

pub IsFramed-trans : {f g h : Finding} → IsFramed f g → IsFramed g h → IsFramed f h
IsFramed-trans a b = ground arith

pub route-IsFramed :
    (sub : Submission) (f : Finding)
    → IsFramed f (route sub.casefold sub.policy sub.scan_id f).finding
route-IsFramed sub f = elim (Bool-cases (f.owner_pinned || is_some f.owner_group_id)) [
  | inl settled ↦ rw (route_settled sub.casefold sub.policy sub.scan_id f settled) (IsFramed-refl f)
  | inr free ↦ rw (route-columns sub.casefold sub.policy sub.scan_id f) (record {
    id = refl;
    source_id = refl;
    fingerprint = refl;
    secret_hash = refl;
    severity = refl;
    resource_locator = refl;
    redacted_snippet = refl;
    first_seen = refl;
    last_seen = refl;
    state = refl;
    resolution = refl;
    assignee_id = refl;
    notes = refl;
    owner_pinned = refl;
    owner = λ h. cc;
  })
]

pub clocked-IsFramed :
    (sub : Submission) (restart : Bool) (f : Finding) → IsFramed f (clocked sub restart f).finding
unfolding start_clock
clocked-IsFramed sub restart f = ground arith

pub silenced-IsFramed :
    (sub : Submission) (s : Option SuppressionRule) (f : Finding)
    → IsFramed f (silenced sub s f).finding
unfolding suppress
silenced-IsFramed sub none f = ground arith
silenced-IsFramed sub (some r) f = ground arith

pub silence_or_release-IsFramed :
    (sub : Submission) (s : Option SuppressionRule) (f : Finding)
    → IsFramed f (silence_or_release sub s f).finding
unfolding silence_or_release suppress release
silence_or_release-IsFramed sub none f = ground arith
silence_or_release-IsFramed sub (some r) f = ground arith

pub record_validation-IsFramed :
    (sub : Submission) (result : Option CredentialValidationResult)
    (from_status : Option ValidationStatus) (f : Finding)
    → IsFramed f (record_validation sub result from_status f).finding
unfolding record_validation
record_validation-IsFramed sub none from_status f = ground arith
record_validation-IsFramed sub (some r) from_status f = ground arith

pub refresh_validation-IsFramed :
    (sub : Submission) (payload : FindingPayload) (f : Finding)
    → IsFramed f (refresh_validation sub payload f).finding
unfolding refresh_validation
refresh_validation-IsFramed sub payload f = elim (Option-cases payload.validation) [
  | inl absent ↦ rw (absent, refresh_validation) (IsFramed-refl f)
  | inr (result, e) ↦
      rw (e, refresh_validation)
        (elim (Bool-cases (same_validation f result)) [
          | inl same ↦ rw same (IsFramed-refl f)
          | inr other ↦
              rw other (record_validation-IsFramed sub (some result) f.validation_status f)
        ])
]
