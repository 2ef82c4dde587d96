-- ===== src/Models.antt =====
-- packages/core/src/iceberg_core/models: the rows that the services read and write, less the
-- columns that no modelled operation touches. An identifier (uuid) is a number, a text a `String`.
-- A datetime is its microseconds since the epoch. A score (entropy, confidence) is a non-negative
-- float, held as its IEEE 754 bit pattern, whose order as a number is the order of the floats.
pub mod Json
pub mod Coverage
pub mod Runs
pub mod Sources
pub mod Notifications
use Json.{Fields}
use iceberg_sst.Prelude.{ℕ, ◌*◌, String, Bool, Option, List}
use iceberg_sst.Enums.{
  FindingState, FindingResolution, FindingEventKind, Severity, SuppressionScope, ValidationStatus,
  ValidationReason,
}

abbrev pub Uuid : Type 0
Uuid = ℕ

abbrev pub Datetime : Type 0
Datetime = ℕ

abbrev pub Score : Type 0
Score = ℕ

-- `timedelta(seconds=n)`, `timedelta(hours=n)`, `timedelta(days=n)`
abbrev pub seconds : ℕ → ℕ
seconds n = n * 1000000

abbrev pub hours : ℕ → ℕ
hours n = n * 3600000000

abbrev pub days : ℕ → ℕ
days n = n * 86400000000

pub record Finding : Type 0 where
  pub id : Uuid
  pub source_id : Uuid
  pub fingerprint : String
  pub rule_id : String
  pub rulepack_version : String
  pub resource_locator : Fields
  pub redacted_snippet : String
  pub secret_hash : String
  pub correlation_id : Option String
  pub entropy : Option Score
  pub confidence : Option Score
  pub severity : Severity
  pub validation_provider : Option String
  pub validation_validator_id : Option String
  pub validation_contract_version : Option String
  pub validation_status : Option ValidationStatus
  pub validation_reason : Option ValidationReason
  pub validated_at : Option Datetime
  pub state : FindingState
  pub resolution : Option FindingResolution
  pub assignee_id : Option Uuid
  pub owner_group_id : Option Uuid
  pub owner_pinned : Bool
  pub due_at : Option Datetime
  pub notes : Option String
  pub suppressed_at : Option Datetime
  pub suppressed_by_id : Option Uuid
  pub first_seen_scan_id : Uuid
  pub last_seen_scan_id : Uuid

-- What `from_value` and `to_value` are printed from.
pub data EventValue : Type 0 where
  of_state : FindingState → EventValue
  of_id : Uuid → EventValue
  of_scope : SuppressionScope → EventValue
  of_validation : ValidationStatus → EventValue

-- What a comment is printed from: free text, or the arguments of one of the format strings.
pub data Comment : Type 0 where
  text : String → Comment
  seen_again_by_scan not_seen_by_scan : Uuid → Comment
  no_suppression_matched_in_scan : Uuid → Comment
  matched_suppression suppression_deleted suppression_expired : Uuid → Comment
  suppression_no_longer_exists : Comment
  routed_by_rule : String → Comment
  validated : (provider validator_id contract_version : String) → ValidationReason → Comment

pub record FindingEvent : Type 0 where
  pub finding_id : Uuid
  pub actor_id : Option Uuid
  pub scan_id : Option Uuid
  pub kind : FindingEventKind
  pub from_value : Option EventValue
  pub to_value : Option EventValue
  pub comment : Option Comment

pub record Suppression : Type 0 where
  pub id : Uuid
  pub scope : SuppressionScope
  pub pattern : String
  pub source_id : Option Uuid
  pub expires_at : Option Datetime

pub record CredentialValidationResult : Type 0 where
  pub provider : String
  pub validator_id : String
  pub contract_version : String
  pub status : ValidationStatus
  pub reason : ValidationReason

pub record FindingPayload : Type 0 where
  pub fingerprint : String
  pub rule_id : String
  pub rulepack_version : String
  pub resource_locator : Fields
  pub redacted_snippet : String
  pub secret_hash : String
  pub entropy : Option Score
  pub confidence : Option Score
  pub severity : Severity
  pub validation : Option CredentialValidationResult
  pub previous_fingerprint : Option String
  pub previous_secret_hash : Option String
