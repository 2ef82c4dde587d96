-- ===== src/Enums.antt =====
-- packages/core/src/iceberg_core/enums.py: the vocabularies that every role shares, with the sets
-- and orders that the file declares over them.
use iceberg_sst.Prelude.{ℕ, Bool, true, false, Eq, discrete_eq}

-- `opened` is the source's `OPEN`.
pub data FindingState : Type 0 where
  opened false_positive accepted_risk resolved : FindingState

pub data FindingResolution : Type 0 where
  manual auto : FindingResolution

pub data FindingEventKind : Type 0 where
  state_change assign comment suppressed reopened validation : FindingEventKind
  remediation remediation_verified remediation_retracted owner : FindingEventKind

pub data Severity : Type 0 where
  low medium high critical : Severity

unfoldable pub severity_rank : Severity → ℕ
severity_rank low = 0
severity_rank medium = 1
severity_rank high = 2
severity_rank critical = 3

pub data SuppressionScope : Type 0 where
  path_glob fingerprint rule : SuppressionScope

pub data ValidationStatus : Type 0 where
  live revoked unknown blocked error : ValidationStatus

pub data ValidationReason : Type 0 where
  credential_accepted credential_rejected provider_rate_limited : ValidationReason
  provider_unavailable inconclusive_response timeout : ValidationReason
  protocol_error policy_budget_exhausted : ValidationReason

pub data ScanMode : Type 0 where
  full incremental : ScanMode

pub data ScanTrigger : Type 0 where
  manual scheduled : ScanTrigger

pub data CursorInvalidationReason : Type 0 where
  no_cursor source_configuration_changed rulepack_changed : CursorInvalidationReason
  pepper_rotating interval_elapsed connector_unsupported : CursorInvalidationReason
  operator_requested source_rejected_cursor : CursorInvalidationReason

pub data ScanStatus : Type 0 where
  queued discovering running completed partial failed cancelled : ScanStatus

-- `status in ACTIVE_SCAN_STATUSES`
abbrev pub is_active : ScanStatus → Bool
is_active ScanStatus.queued = true
is_active ScanStatus.discovering = true
is_active ScanStatus.running = true
is_active _ = false

pub data ScanTaskKind : Type 0 where
  discovery fetch : ScanTaskKind

pub data ScanTaskStatus : Type 0 where
  queued leased running completed failed cancelled : ScanTaskStatus

pub data CoverageReason : Type 0 where
  permission_denied rate_limited size_limit output_limit : CoverageReason
  unsupported_type connector_error missing_resource invalid_metadata : CoverageReason
  invalid_response parse_error timeout empty_content : CoverageReason
  binary_content cancelled unreported : CoverageReason

pub data CoverageState : Type 0 where
  complete partial failed cancelled : CoverageState

pub data CoverageDisposition : Type 0 where
  skipped failed scope_gap : CoverageDisposition

-- `coverage_reason_allowed`, a row for each disposition of `_COVERAGE_REASONS_BY_DISPOSITION`.
allowed_skipped : CoverageReason → Bool
allowed_skipped CoverageReason.unsupported_type = true
allowed_skipped CoverageReason.empty_content = true
allowed_skipped CoverageReason.binary_content = true
allowed_skipped _ = false

allowed_failed : CoverageReason → Bool
allowed_failed CoverageReason.permission_denied = true
allowed_failed CoverageReason.rate_limited = true
allowed_failed CoverageReason.size_limit = true
allowed_failed CoverageReason.output_limit = true
allowed_failed CoverageReason.connector_error = true
allowed_failed CoverageReason.missing_resource = true
allowed_failed CoverageReason.invalid_metadata = true
allowed_failed CoverageReason.invalid_response = true
allowed_failed CoverageReason.parse_error = true
allowed_failed CoverageReason.timeout = true
allowed_failed _ = false

allowed_scope_gap : CoverageReason → Bool
allowed_scope_gap CoverageReason.permission_denied = true
allowed_scope_gap CoverageReason.rate_limited = true
allowed_scope_gap CoverageReason.connector_error = true
allowed_scope_gap CoverageReason.missing_resource = true
allowed_scope_gap CoverageReason.invalid_metadata = true
allowed_scope_gap CoverageReason.invalid_response = true
allowed_scope_gap CoverageReason.timeout = true
allowed_scope_gap CoverageReason.cancelled = true
allowed_scope_gap CoverageReason.unreported = true
allowed_scope_gap _ = false

unfoldable pub coverage_reason_allowed : CoverageDisposition → CoverageReason → Bool
unfolding allowed_skipped allowed_failed allowed_scope_gap
coverage_reason_allowed CoverageDisposition.skipped r = allowed_skipped r
coverage_reason_allowed CoverageDisposition.failed r = allowed_failed r
coverage_reason_allowed CoverageDisposition.scope_gap r = allowed_scope_gap r

pub data CoverageObjectKind : Type 0 where
  scope page comment attachment project record_kind path : CoverageObjectKind

pub data EngineStatus : Type 0 where
  active draining offline : EngineStatus

pub data NotificationDeliveryStatus : Type 0 where
  pending delivered failed : NotificationDeliveryStatus

pub data NotificationEventKind : Type 0 where
  finding_opened finding_overdue : NotificationEventKind

pub data NotificationChannelType : Type 0 where
  email webhook : NotificationChannelType

unfoldable pub FindingState-discrete : Discrete FindingState
FindingState-discrete = hlevel

instance abbrev pub state_eq : Eq FindingState
state_eq = discrete_eq FindingState-discrete

unfoldable pub ValidationStatus-discrete : Discrete ValidationStatus
ValidationStatus-discrete = hlevel

instance abbrev pub validation_status_eq : Eq ValidationStatus
validation_status_eq = discrete_eq ValidationStatus-discrete

unfoldable pub ValidationReason-discrete : Discrete ValidationReason
ValidationReason-discrete = hlevel

instance abbrev pub validation_reason_eq : Eq ValidationReason
validation_reason_eq = discrete_eq ValidationReason-discrete

unfoldable pub ScanTaskKind-discrete : Discrete ScanTaskKind
ScanTaskKind-discrete = hlevel

instance abbrev pub task_kind_eq : Eq ScanTaskKind
task_kind_eq = discrete_eq ScanTaskKind-discrete

unfoldable pub Severity-discrete : Discrete Severity
Severity-discrete = hlevel

instance abbrev pub severity_eq : Eq Severity
severity_eq = discrete_eq Severity-discrete

unfoldable pub ScanStatus-discrete : Discrete ScanStatus
ScanStatus-discrete = hlevel

instance abbrev pub scan_status_eq : Eq ScanStatus
scan_status_eq = discrete_eq ScanStatus-discrete

unfoldable pub ScanTaskStatus-discrete : Discrete ScanTaskStatus
ScanTaskStatus-discrete = hlevel

instance abbrev pub task_status_eq : Eq ScanTaskStatus
task_status_eq = discrete_eq ScanTaskStatus-discrete

unfoldable pub CoverageDisposition-discrete : Discrete CoverageDisposition
CoverageDisposition-discrete = hlevel

instance abbrev pub disposition_eq : Eq CoverageDisposition
disposition_eq = discrete_eq CoverageDisposition-discrete

unfoldable pub CoverageReason-discrete : Discrete CoverageReason
CoverageReason-discrete = hlevel

instance abbrev pub reason_eq : Eq CoverageReason
reason_eq = discrete_eq CoverageReason-discrete

unfoldable pub CoverageObjectKind-discrete : Discrete CoverageObjectKind
CoverageObjectKind-discrete = hlevel

instance abbrev pub object_kind_eq : Eq CoverageObjectKind
object_kind_eq = discrete_eq CoverageObjectKind-discrete

unfoldable pub ScanMode-discrete : Discrete ScanMode
ScanMode-discrete = hlevel

instance abbrev pub scan_mode_eq : Eq ScanMode
scan_mode_eq = discrete_eq ScanMode-discrete

unfoldable pub CursorInvalidationReason-discrete : Discrete CursorInvalidationReason
CursorInvalidationReason-discrete = hlevel

instance abbrev pub invalidation_eq : Eq CursorInvalidationReason
invalidation_eq = discrete_eq CursorInvalidationReason-discrete

unfoldable pub CoverageState-discrete : Discrete CoverageState
CoverageState-discrete = hlevel

instance abbrev pub coverage_state_eq : Eq CoverageState
coverage_state_eq = discrete_eq CoverageState-discrete

unfoldable pub EngineStatus-discrete : Discrete EngineStatus
EngineStatus-discrete = hlevel

instance abbrev pub engine_status_eq : Eq EngineStatus
engine_status_eq = discrete_eq EngineStatus-discrete

unfoldable pub NotificationDeliveryStatus-discrete : Discrete NotificationDeliveryStatus
NotificationDeliveryStatus-discrete = hlevel

instance abbrev pub delivery_status_eq : Eq NotificationDeliveryStatus
delivery_status_eq = discrete_eq NotificationDeliveryStatus-discrete

unfoldable pub NotificationEventKind-discrete : Discrete NotificationEventKind
NotificationEventKind-discrete = hlevel

instance abbrev pub notification_kind_eq : Eq NotificationEventKind
notification_kind_eq = discrete_eq NotificationEventKind-discrete

unfoldable pub FindingEventKind-discrete : Discrete FindingEventKind
FindingEventKind-discrete = hlevel

instance abbrev pub event_kind_eq : Eq FindingEventKind
event_kind_eq = discrete_eq FindingEventKind-discrete
