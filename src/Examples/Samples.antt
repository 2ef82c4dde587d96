-- ===== src/Examples/Samples.antt =====
-- Rows, payloads and policies that the examples share.
use Prim.Native.String as NativeString
use iceberg_sst.Prelude.{
  ℕ, zero, suc, ◌+◌, Bool, true, false, none, some, List, [], ◌∷◌, String, ◌≡◌, refl, ap, ◌==◌,
  string_eq,
}
use iceberg_sst.Enums.{
  opened, resolved, high, auto, SuppressionScope, ScanStatus, full, ScanTaskKind, ScanTaskStatus,
  CoverageDisposition, CoverageReason, webhook, finding_opened, NotificationDeliveryStatus,
}
use iceberg_sst.Models.{Uuid, Finding, FindingPayload, Suppression}
use iceberg_sst.Models.Json.{end, field, str}
use iceberg_sst.Models.Runs.{Scan, ScanTask}
use iceberg_sst.Suppression.Lease.{UuidText}
use iceberg_sst.Models.Sources.{Source, SourceCursor}
use iceberg_sst.Models.Coverage.{TaskCoverageReport}
use iceberg_sst.Models.Notifications.{NotificationChannel, NotificationDelivery}
use iceberg_sst.Findings.Ownership.{OwnerGroup, RoutingRule, ResponseTarget}
use iceberg_sst.Engines.Ingest.{Python, Tables}

-- An open finding of source 1 that scan 10 saw first and last.
abbrev pub leaked_key : Finding
leaked_key = record {
  id = 100;
  source_id = 1;
  fingerprint = "fp-a";
  rule_id = "aws-key";
  rulepack_version = "1";
  resource_locator = field "path" (str "prod/env") end;
  redacted_snippet = "AKIA****";
  secret_hash = "hash-a";
  correlation_id = none;
  entropy = none;
  confidence = none;
  severity = high;
  validation_provider = none;
  validation_validator_id = none;
  validation_contract_version = none;
  validation_status = none;
  validation_reason = none;
  validated_at = none;
  state = opened;
  resolution = none;
  assignee_id = none;
  owner_group_id = none;
  owner_pinned = false;
  due_at = none;
  notes = none;
  suppressed_at = none;
  suppressed_by_id = none;
  first_seen_scan_id = 10;
  last_seen_scan_id = 10;
}

abbrev pub fixed_key : Finding
fixed_key = record leaked_key {
  id = 101;
  fingerprint = "fp-b";
  secret_hash = "hash-b";
  state = resolved;
  resolution = some auto;
}

abbrev pub hidden_key : Finding
hidden_key = record leaked_key {
  id = 102;
  fingerprint = "fp-c";
  suppressed_at = some 5;
  suppressed_by_id = some 7;
}

abbrev pub payload_a : FindingPayload
payload_a = record {
  fingerprint = "fp-a";
  rule_id = "aws-key";
  rulepack_version = "2";
  resource_locator = field "path" (str "prod/env") end;
  redacted_snippet = "AKIA****";
  secret_hash = "hash-a";
  entropy = none;
  confidence = some 9;
  severity = high;
  validation = none;
  previous_fingerprint = none;
  previous_secret_hash = none;
}

-- The same secret as `fixed_key`, under the next pepper.
abbrev pub payload_b : FindingPayload
payload_b = record payload_a {
  fingerprint = "fp-b2";
  secret_hash = "hash-b2";
  previous_fingerprint = some "fp-b";
  previous_secret_hash = some "hash-b";
}

abbrev pub by_rule : Suppression
by_rule = record {
  id = 7;
  scope = SuppressionScope.rule;
  pattern = "aws-key";
  source_id = none;
  expires_at = some 50;
}

abbrev pub by_print : Suppression
by_print = record {
  id = 8;
  scope = SuppressionScope.fingerprint;
  pattern = "fp-c";
  source_id = some 1;
  expires_at = none;
}

abbrev pub equal_texts : String → String → Bool
equal_texts a b = a == b

abbrev pub as_is : String → String
as_is s = s

abbrev pub platform_rule : RoutingRule
platform_rule = record {
  id = 31;
  created_at = 2;
  name = "platform";
  priority = 1;
  owner_group_id = 41;
  source_id = some 1;
  rule_id = none;
  min_severity = some high;
  source_tags = "prod" ∷ [];
  enabled = true;
}

abbrev pub fallback_rule : RoutingRule
fallback_rule = record {
  id = 32;
  created_at = 1;
  name = "fallback";
  priority = 9;
  owner_group_id = 42;
  source_id = none;
  rule_id = none;
  min_severity = none;
  source_tags = [];
  enabled = true;
}

abbrev pub groups : List OwnerGroup
groups =
    record { id = 41; disabled = false; notification_channel_id = some 71 }
    ∷ record { id = 42; disabled = false; notification_channel_id = none }
    ∷ []

abbrev pub targets : List ResponseTarget
targets = record { severity = high; hours = 24 } ∷ []

abbrev pub sources : List Source
sources = record { id = 1; tags = "prod" ∷ []; full_scan_interval_days = 7; updated_at = 10 } ∷ []

abbrev pub python : Python
python = record {
  fnmatchcase = equal_texts;
  strip = as_is;
  casefold = as_is;
  uuid4 = λ n. 1000 + n;
}

abbrev pub database : Tables
database = record {
  findings = leaked_key ∷ fixed_key ∷ hidden_key ∷ [];
  events = [];
  suppressions = by_print ∷ [];
  routing_rules = fallback_rule ∷ platform_rule ∷ [];
  owner_groups = groups;
  response_targets = targets;
  sources = sources;
}

abbrev pub scan : Scan
scan = record {
  id = 11;
  source_id = 1;
  status = ScanStatus.completed;
  mode = full;
  counts = [];
  finished_at = none;
  error = none;
  promoted_from = none;
  promotion_reason = none;
  incremental_baseline_at = none;
  rulepack_version = some "3";
  source_configuration_version = some 7;
  coverage_manifest = none;
  started_at = none;
  updated_at = 90;
}

abbrev pub task : ScanTask
task = record {
  id = 21;
  scan_id = 11;
  kind = ScanTaskKind.fetch;
  spec = end;
  status = ScanTaskStatus.queued;
  engine_id = none;
  lease_expires_at = none;
  heartbeat_at = none;
  attempts = 0;
  result_key = none;
  coverage = end;
  checkpoint = end;
  checkpoint_sequence = 0;
  checkpoint_context = end;
  started_at = none;
  finished_at = none;
  error = none;
  cursor_proposal = end;
  updated_at = 0;
}

-- Identifiers in unary.
abbrev pub unary : Uuid → String
unary zero = NativeString.[]
unary (suc n) = NativeString.◌∷◌ "i" (unary n)

abbrev pub digits : String → ℕ
digits NativeString.[] = 0
digits (NativeString.◌∷◌ c s) = suc (digits s)

pub digits-unary : (n : ℕ) → digits (unary n) ≡ n
digits-unary zero = refl
digits-unary (suc n) = ap suc (digits-unary n)

abbrev pub uuid_text : UuidText
uuid_text = record {
  show = unary;
  parse = λ s. some (digits s);
  parse-show = λ n. ap some (digits-unary n);
}

-- What a fetch task read: eight pages, one of which it skipped.
abbrev pub report : TaskCoverageReport
report = record {
  phase = ScanTaskKind.fetch;
  counts = record { requested = 8; discovered = 8; scanned = 7; skipped = 1; failed = 0 };
  scope = record { requested = some 1; discovered = 1; gaps = 0 };
  reasons =
      record {
        outcome = CoverageDisposition.skipped;
        reason = CoverageReason.binary_content;
        count = 1;
      }
      ∷ [];
  gaps = [];
  gaps_omitted = 1;
}

abbrev pub second_report : TaskCoverageReport
second_report = record report {
  counts = record { requested = 3; discovered = 3; scanned = 3; skipped = 0; failed = 0 };
  reasons = [];
  gaps_omitted = 0;
}

abbrev pub watermark : SourceCursor
watermark = record {
  source_id = 1;
  scope = "ENG";
  position = end;
  rulepack_version = some "3";
  source_configuration_version = some 10;
  minted_by_scan_id = 9;
  minted_at = 50;
  invalidated_at = none;
  invalidation_reason = none;
}

abbrev pub channel : NotificationChannel
channel = record {
  id = 71;
  type = webhook;
  event_filter = record { min_severity = some high; source_ids = 1 ∷ [] };
  enabled = true;
}

abbrev pub delivery : NotificationDelivery
delivery = record {
  id = 81;
  channel_id = 71;
  finding_id = 100;
  kind = finding_opened;
  scan_id = some 11;
  due_at = none;
  status = NotificationDeliveryStatus.pending;
  attempts = 1;
  next_attempt_at = 60;
  delivered_at = none;
  last_error = some "timeout";
}
