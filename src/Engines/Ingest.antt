-- ===== src/Engines/Ingest.antt =====
-- apps/api/src/iceberg_api/engines/ingest.py: `ingest_findings` over one batch, and the tallies that
-- a scan keeps. `known` owns the rows that the batch may touch, keyed as the code keys them; the
-- rows that no payload names stay in `others`.
pub mod Stored
pub mod Carried
pub mod Tallies
pub mod Merging
use iceberg_sst.Prelude.{
  ℕ, suc, ◌+◌, ◌-◌, Bool, true, false, not, ◌&&◌, ◌||◌, Option, none, some, List, [], ◌∷◌, ◌++◌,
  String, ◌==◌, nat_eq, string_eq, option_eq, if◌then◌else◌, is_some, filter, any, length, leb,
}
use iceberg_sst.Prelude.Dicts.{Dict, lookup, insert, erase, values}
use iceberg_sst.Models.{Uuid, Datetime, Score, Finding, FindingPayload, FindingEvent, Suppression}
use iceberg_sst.Suppression.Matching.{SuppressionRule, Subject, first_match}
use iceberg_sst.Findings.Events.{Logged}
use iceberg_sst.Models.Sources.{Source}
use iceberg_sst.Findings.Ownership.{OwnerGroup, RoutingRule, ResponseTarget, load}
use iceberg_sst.Findings.Suppressions.{applicable_suppressions}
use iceberg_sst.Engines.Sighting.{Submission, correlate, create, refresh}

pub record IngestOutcome : Type 0 where
  pub ingested : ℕ
  pub suppressed : ℕ
  pub reopened : ℕ
  pub below_threshold : ℕ
  pub rekeyed : ℕ
  pub fingerprints : List String

-- The state of the loop. `created` counts the identifiers drawn so far.
pub record Batch : Type 0 where
  pub known : Dict String Finding
  pub created : ℕ
  pub events : List FindingEvent
  pub outcome : IngestOutcome

unfoldable pub same_secret : Finding → FindingPayload → Bool
same_secret existing payload = elim payload.previous_secret_hash [
  | none ↦ true
  | some hash ↦ hash == existing.secret_hash
]

-- The stored row that a payload is about, and whether it is found under the outgoing identity.
pub data Match : Type 0 where
  unseen : Match
  seen : Finding → Match
  rotated : (previous : String) → Finding → Match

pub known_before : FindingPayload → String → Option Finding → Match
unfolding same_secret
known_before payload previous none = unseen
known_before payload previous (some existing) =
    if not (previous == "") && same_secret existing payload
    then rotated previous existing
    else unseen

pub previously : Dict String Finding → FindingPayload → Option String → Match
unfolding known_before
previously known payload none = unseen
previously known payload (some previous) = known_before payload previous (lookup previous known)

unfoldable pub find_existing : Dict String Finding → FindingPayload → Match
unfolding previously
find_existing known payload = elim (lookup payload.fingerprint known) [
  | none ↦ previously known payload payload.previous_fingerprint
  | some existing ↦ seen existing
]

unfoldable pub rekey : Submission → FindingPayload → Finding → Finding
rekey sub payload existing = record existing {
  fingerprint = payload.fingerprint;
  secret_hash = payload.secret_hash;
  correlation_id = correlate sub.correlation payload.secret_hash;
}

abbrev subject_of : FindingPayload → Subject
subject_of payload = record {
  fingerprint = payload.fingerprint;
  rule_id = payload.rule_id;
  resource_locator = payload.resource_locator;
}

-- The tallies at the end of the loop's body.
tally : Bool → Bool → Bool → FindingPayload → IngestOutcome → IngestOutcome
tally is_reopened is_rekeyed is_suppressed payload o = record o {
  ingested = o.ingested + 1;
  suppressed = if is_suppressed then o.suppressed + 1 else o.suppressed;
  reopened = if is_reopened then o.reopened + 1 else o.reopened;
  rekeyed = if is_rekeyed then o.rekeyed + 1 else o.rekeyed;
  fingerprints = o.fingerprints ++ payload.fingerprint ∷ [];
}

-- `uuid4` gives the identifier of each row created; `fnmatchcase` is Python's.
module _ (fnmatchcase : String → String → Bool) (uuid4 : ℕ → Uuid) where
  module _ (sub : Submission) (rules : List SuppressionRule) where
    abbrev sighted : Batch → FindingPayload → Dict String Finding → Finding → Bool → Batch
    sighted b payload known existing is_rekeyed =
        let suppression = first_match fnmatchcase rules (subject_of payload) in
        let (l, is_reopened) = refresh sub suppression payload existing in
        record b {
          known = insert payload.fingerprint l.finding known;
          events = b.events ++ l.events;
          outcome = tally is_reopened is_rekeyed (is_some suppression) payload b.outcome;
        }

    abbrev added : Batch → FindingPayload → Batch
    added b payload =
        let suppression = first_match fnmatchcase rules (subject_of payload) in
        let l = create sub suppression (uuid4 b.created) payload in
        record {
          known = insert payload.fingerprint l.finding b.known;
          created = suc b.created;
          events = b.events ++ l.events;
          outcome = tally false false (is_some suppression) payload b.outcome;
        }

    -- The body of the loop.
    unfoldable pub ingest_one : Batch → FindingPayload → Batch
    unfolding find_existing rekey tally
    ingest_one b payload = elim (find_existing b.known payload) [
      | unseen ↦ added b payload
      | seen existing ↦ sighted b payload b.known existing false
      | rotated previous existing ↦
          sighted b payload (erase previous b.known) (rekey sub payload existing) true
    ]

    unfoldable pub ingest_each : Batch → List FindingPayload → Batch
    unfolding ingest_one
    ingest_each b [] = b
    ingest_each b (payload ∷ payloads) = ingest_each (ingest_one b payload) payloads

abbrev pub is_scored : Score → FindingPayload → Bool
is_scored threshold payload = elim payload.confidence [ none ↦ true | some c ↦ leb threshold c ]

-- `payload.previous_fingerprint` of each payload that has one.
abbrev identities : List FindingPayload → List String
identities [] = []
identities (p ∷ ps) = elim p.previous_fingerprint [
  | none ↦ p.fingerprint ∷ identities ps
  | some previous ↦ p.fingerprint ∷ previous ∷ identities ps
]

abbrev pub wanted : Uuid → List FindingPayload → Finding → Bool
wanted source_id payloads f =
    f.source_id == source_id && any (λ k. k == f.fingerprint) (identities payloads)

-- `found[finding.fingerprint] = finding` for each row of the query, whose chunks partition the
-- identities asked for.
pub by_fingerprint : List Finding → Dict String Finding
by_fingerprint [] = []
by_fingerprint (f ∷ fs) = insert f.fingerprint f (by_fingerprint fs)

unfoldable pub load_findings : List Finding → Uuid → List FindingPayload → Dict String Finding
unfolding by_fingerprint
load_findings findings source_id payloads =
    by_fingerprint (filter (wanted source_id payloads) findings)

-- The tables that a submission reads and writes.
pub record Tables : Type 0 where
  pub findings : List Finding
  pub events : List FindingEvent
  pub suppressions : List Suppression
  pub routing_rules : List RoutingRule
  pub owner_groups : List OwnerGroup
  pub response_targets : List ResponseTarget
  pub sources : List Source

-- Python's own operations on text, and the supply of identifiers.
pub record Python : Type 0 where
  pub fnmatchcase : String → String → Bool
  pub strip : String → String
  pub casefold : String → String
  pub uuid4 : ℕ → Uuid

abbrev pub submission :
    Python → Tables → Uuid → Uuid → Datetime → Option (String → String) → Submission
submission py db scan_id source_id at correlation = record {
  scan_id = scan_id;
  source_id = source_id;
  at = at;
  correlation = correlation;
  policy =
      load py.strip py.casefold db.routing_rules db.owner_groups db.response_targets db.sources
        source_id;
  casefold = py.casefold;
}

abbrev pub start : List Finding → Uuid → List FindingPayload → ℕ → Batch
start findings source_id scored below = record {
  known = load_findings findings source_id scored;
  created = 0;
  events = [];
  outcome = record {
    ingested = 0;
    suppressed = 0;
    reopened = 0;
    below_threshold = below;
    rekeyed = 0;
    fingerprints = [];
  };
}

-- `ingest_findings`: the tables after it, and its tallies.
unfoldable pub ingest_findings :
    Python
    → Tables
    → (scan_id source_id : Uuid) → List FindingPayload
    → Datetime
    → Score
    → Option (String → String)
    → Tables × IngestOutcome
unfolding ingest_each load_findings applicable_suppressions
ingest_findings py db scan_id source_id payloads at threshold correlation =
    let scored = filter (is_scored threshold) payloads in
    let after =
      ingest_each py.fnmatchcase py.uuid4 (submission py db scan_id source_id at correlation)
        (applicable_suppressions db.suppressions source_id at)
        (start db.findings source_id scored (length payloads - length scored)) scored in
    (
      record db {
        findings = filter (λ f. not (wanted source_id scored f)) db.findings ++ values after.known;
        events = db.events ++ after.events;
      },
      after.outcome,
    )

-- `merge_scan_counts`, on counts that are all whole numbers, which is all that is ever stored.
abbrev pub add_to : String → ℕ → Dict String ℕ → Dict String ℕ
add_to key n totals = insert key (elim (lookup key totals) [ none ↦ n | some m ↦ m + n ]) totals

add_each : Dict String ℕ → Dict String ℕ → Dict String ℕ
add_each [] totals = totals
add_each ((key, n) ∷ rest) totals = add_each rest (add_to key n totals)

unfoldable pub merge_scan_counts : Dict String ℕ → IngestOutcome → Dict String ℕ → Dict String ℕ
unfolding add_each
merge_scan_counts counts outcome engine_counts = add_to "rekeyed" outcome.rekeyed (
    add_to "below_threshold" outcome.below_threshold (
      add_to "reopened" outcome.reopened (
        add_to "suppressed" outcome.suppressed
          (add_to "findings" outcome.ingested (add_each engine_counts counts)))))
