-- ===== src/Findings/Events.antt =====
-- The outcome of an operation on one finding: the row after it, and the events added to the session.
use iceberg_sst.Prelude.{ℕ, ◌+◌, Bool, true, false, List, ◌++◌, [], ◌≡◌, count, count-append}
use iceberg_sst.Enums.{FindingEventKind}
use iceberg_sst.Models.{Finding, FindingEvent}

pub record Logged : Type 0 where
  pub finding : Finding
  pub events : List FindingEvent

abbrev pub unlogged : Finding → Logged
unlogged f = record { finding = f; events = [] }

-- One operation after another: the events stand in the order in which they were written.
infixl 5 ◌then_do◌
abbrev pub ◌then_do◌ : Logged → (Finding → Logged) → Logged
l then_do op = record {
  finding = (op l.finding).finding;
  events = l.events ++ (op l.finding).events;
}

-- The events of one kind: a finding was re-opened.
abbrev pub is_reopening : FindingEvent → Bool
is_reopening e = elim e.kind [ FindingEventKind.reopened ↦ true | _ ↦ false ]

abbrev pub reopenings : Logged → ℕ
reopenings l = count is_reopening l.events

pub reopenings-then_do :
    (l : Logged) (op : Finding → Logged)
    → reopenings (l then_do op) ≡ reopenings l + reopenings (op l.finding)
reopenings-then_do l op = count-append is_reopening l.events (op l.finding).events
