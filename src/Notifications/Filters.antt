-- ===== src/Notifications/Filters.antt =====
-- apps/api/src/iceberg_api/notifications/dispatch.py: which findings a channel wants, as the code reads
-- the filter and as the predicate that it gives to the database.
pub mod Agree
use iceberg_sst.Prelude.{
  ℕ, Bool, true, false, not, ◌&&◌, ◌||◌, Option, none, some, List, [], ◌∷◌, ◌==◌, nat_eq,
  if◌then◌else◌, ltb, leb, any, filter,
}
use iceberg_sst.Enums.{Severity, low, medium, high, critical, severity_rank, severity_eq}
use iceberg_sst.Models.{Uuid, Finding}
use iceberg_sst.Models.Notifications.{EventFilter, NotificationChannel}

-- `x in xs`
abbrev pub is_in : Uuid → List Uuid → Bool
is_in x xs = any (λ y. y == x) xs

abbrev pub is_empty {ℓ} : {A : Type ℓ} → List A → Bool
is_empty [] = true
is_empty (x ∷ xs) = false

unfoldable pub channel_wants : NotificationChannel → Finding → Bool
unfolding severity_rank
channel_wants channel f =
    let too_low : Bool = elim channel.event_filter.min_severity [
      | none ↦ false
      | some minimum ↦ ltb (severity_rank f.severity) (severity_rank minimum)
    ] in
    if too_low
    then false
    else not (
        not (is_empty channel.event_filter.source_ids)
        && not (is_in f.source_id channel.event_filter.source_ids))

-- The members of `Severity`, as `for level in Severity` goes through them.
abbrev severities : List Severity
severities = low ∷ medium ∷ high ∷ critical ∷ []

unfoldable pub severities_at_or_above : Severity → List Severity
unfolding severity_rank
severities_at_or_above minimum =
    filter (λ level. leb (severity_rank minimum) (severity_rank level)) severities

-- `_wanted_by`, as a WHERE on a finding: a clause for each part of the filter that is set.
unfoldable pub wanted_by : NotificationChannel → Finding → Bool
unfolding severities_at_or_above
wanted_by channel f =
    elim channel.event_filter.min_severity [
      | none ↦ true
      | some minimum ↦ any (λ level. level == f.severity) (severities_at_or_above minimum)
    ]
    && (if is_empty channel.event_filter.source_ids
        then true
        else is_in f.source_id channel.event_filter.source_ids)
