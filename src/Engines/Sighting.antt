-- ===== src/Engines/Sighting.antt =====
-- apps/api/src/iceberg_api/engines/ingest.py: `_create`, `_refresh` and `_record_validation`, the
-- effect of one sighting on one row.
pub mod Framed
pub mod Kept
pub mod Reopenings
use iceberg_sst.Prelude.{
  ℕ, Bool, true, false, not, ◌&&◌, ◌||◌, Option, none, some, List, [], ◌∷◌, ◌++◌, String, ◌==◌,
  nat_eq, string_eq, option_eq, if◌then◌else◌, is_some, is_none,
}
use iceberg_sst.Enums.{
  FindingState, opened, resolved, FindingEventKind, ValidationStatus, ValidationReason,
  validation_status_eq, validation_reason_eq,
}
use iceberg_sst.Models.{
  Uuid, Datetime, Finding, FindingPayload, CredentialValidationResult, of_state, of_validation,
  EventValue, seen_again_by_scan, validated, no_suppression_matched_in_scan, FindingEvent,
}
use iceberg_sst.Suppression.Matching.{SuppressionRule}
use iceberg_sst.Findings.Events.{Logged, unlogged, ◌then_do◌}
use iceberg_sst.Findings.Ownership.{Policy, route, start_clock}
use iceberg_sst.Findings.Suppressions.{suppress, release}

-- What one submission is processed under. `correlation` is `correlation_id` under the deployment's
-- key, or none where the key is not to be had; `casefold` is that of `str`.
pub record Submission : Type 0 where
  pub scan_id : Uuid
  pub source_id : Uuid
  pub at : Datetime
  pub correlation : Option (String → String)
  pub policy : Policy
  pub casefold : String → String

abbrev pub correlate : Option (String → String) → String → Option String
correlate none hash = none
correlate (some f) hash = some (f hash)

abbrev status_value : Option ValidationStatus → Option EventValue
status_value none = none
status_value (some s) = some (of_validation s)

pub record_validation :
    Submission → Option CredentialValidationResult → Option ValidationStatus → Finding → Logged
record_validation sub none from_status f = unlogged f
record_validation sub (some result) from_status f = record {
  finding = record f {
    validation_provider = some result.provider;
    validation_validator_id = some result.validator_id;
    validation_contract_version = some result.contract_version;
    validation_status = some result.status;
    validation_reason = some result.reason;
    validated_at = some sub.at;
  };
  events =
      record {
        finding_id = f.id;
        actor_id = none;
        scan_id = some sub.scan_id;
        kind = FindingEventKind.validation;
        from_value = status_value from_status;
        to_value = some (of_validation result.status);
        comment =
            some
              (validated result.provider result.validator_id result.contract_version result.reason);
      }
      ∷ [];
}

abbrev clocked : Submission → Bool → Finding → Logged
clocked sub restart f = unlogged (start_clock sub.policy sub.at restart f).0

abbrev silenced : Submission → Option SuppressionRule → Finding → Logged
silenced sub none f = unlogged f
silenced sub (some rule) f = suppress rule sub.at none f

pub new_finding : Submission → Uuid → FindingPayload → Finding
new_finding sub id payload = record {
  id = id;
  source_id = sub.source_id;
  fingerprint = payload.fingerprint;
  rule_id = payload.rule_id;
  rulepack_version = payload.rulepack_version;
  resource_locator = payload.resource_locator;
  redacted_snippet = payload.redacted_snippet;
  secret_hash = payload.secret_hash;
  correlation_id = correlate sub.correlation payload.secret_hash;
  entropy = payload.entropy;
  confidence = payload.confidence;
  severity = payload.severity;
  validation_provider = none;
  validation_validator_id = none;
  validation_contract_version = none;
  validation_status = none;
  validation_reason = none;
  validated_at = none;
  state = opened;
  resolution = none;
  assignee_id = none;
  owner_group_id = none;
  owner_pinned = false;
  due_at = none;
  notes = none;
  suppressed_at = none;
  suppressed_by_id = none;
  first_seen_scan_id = sub.scan_id;
  last_seen_scan_id = sub.scan_id;
}

-- `_create`, for the identifier that the new row draws.
unfoldable pub create : Submission → Option SuppressionRule → Uuid → FindingPayload → Logged
unfolding new_finding record_validation
create sub suppression id payload =
    record_validation sub payload.validation none (new_finding sub id payload)
    then_do route sub.casefold sub.policy sub.scan_id
    then_do clocked sub false
    then_do silenced sub suppression

-- `last_seen_scan_id`, the missing correlation id, and the display columns.
pub refresh_columns : Submission → FindingPayload → Finding → Finding
refresh_columns sub payload f = record f {
  last_seen_scan_id = sub.scan_id;
  correlation_id =
      if is_none f.correlation_id
      then correlate sub.correlation f.secret_hash
      else f.correlation_id;
  resource_locator = payload.resource_locator;
  redacted_snippet = payload.redacted_snippet;
  rulepack_version = payload.rulepack_version;
  entropy = payload.entropy;
  confidence = payload.confidence;
  severity = payload.severity;
}

-- The five columns of the validation identity, compared as tuples.
same_validation : Finding → CredentialValidationResult → Bool
same_validation f result =
    f.validation_provider == some result.provider
    && f.validation_validator_id == some result.validator_id
    && f.validation_contract_version == some result.contract_version
    && f.validation_status == some result.status
    && f.validation_reason == some result.reason

pub refresh_validation : Submission → FindingPayload → Finding → Logged
unfolding same_validation record_validation
refresh_validation sub payload f = elim payload.validation [
  | none ↦ unlogged f
  | some result ↦
      if same_validation f result
      then unlogged f
      else record_validation sub (some result) f.validation_status f
]

abbrev pub is_resolved : FindingState → Bool
is_resolved resolved = true
is_resolved _ = false

pub reopen : Submission → Finding → Logged
reopen sub f =
    if is_resolved f.state
    then record {
      finding = record f { state = opened; resolution = none };
      events =
          record {
            finding_id = f.id;
            actor_id = none;
            scan_id = some sub.scan_id;
            kind = FindingEventKind.reopened;
            from_value = some (of_state resolved);
            to_value = some (of_state opened);
            comment = some (seen_again_by_scan sub.scan_id);
          }
          ∷ [];
    }
    else unlogged f

pub silence_or_release : Submission → Option SuppressionRule → Finding → Logged
silence_or_release sub none f = release (no_suppression_matched_in_scan sub.scan_id) none f
silence_or_release sub (some rule) f = suppress rule sub.at none f

-- `_refresh`: the row and its events, and whether the finding was re-opened.
unfoldable pub refresh :
    Submission → Option SuppressionRule → FindingPayload → Finding → Logged × Bool
unfolding refresh_columns refresh_validation reopen silence_or_release
refresh sub suppression payload f = (
  refresh_validation sub payload (refresh_columns sub payload f)
      then_do reopen sub
      then_do route sub.casefold sub.policy sub.scan_id
      then_do clocked sub (is_resolved f.state)
      then_do silence_or_release sub suppression,
  is_resolved f.state,
)
