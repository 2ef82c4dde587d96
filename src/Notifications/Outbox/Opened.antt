-- ===== src/Notifications/Outbox/Opened.antt =====
-- apps/api/src/iceberg_api/notifications/dispatch.py: what `newly_opened_findings` selects.
use iceberg_sst.Prelude.{
  Bool, true, false, not, ◌&&◌, none, some, List, ◌≡◌, ◌↔◌, refl, ◌⊎◌, inl, inr, arith, ◌==◌,
  nat_eq, option_eq, any, filter, Has, Has-append_left, Has-append_right, Has-filter, filter-Has,
  Bool-cases,
}
use iceberg_sst.Prelude.Counting.{any-Has, Has-any, Has-split, both, is_none-eq}
use iceberg_sst.Enums.{opened, state_eq, FindingEventKind, event_kind_eq}
use iceberg_sst.Models.{Uuid, Finding, FindingEvent}
use iceberg_sst.Notifications.Outbox.{is_shown, is_first_seen, is_reopened, newly_opened_findings}

-- A finding that the scan opened, and that is open and not silenced.
pub record IsOpened (scan_id : Uuid) (events : List FindingEvent) (f : Finding) : Type 0 where
  pub shown : f.state ≡ opened
  pub heard : f.suppressed_at ≡ none
  pub cause :
      (f.first_seen_scan_id ≡ scan_id)
      ⊎ ((f.last_seen_scan_id ≡ scan_id)
          × ((e : FindingEvent) × Has e events
              × (e.finding_id ≡ f.id)
              × (e.kind ≡ FindingEventKind.reopened)
              × (e.scan_id ≡ some scan_id)))

shown : (f : Finding) → (is_shown f ≡ true) ↔ ((f.state ≡ opened) × (f.suppressed_at ≡ none))
unfolding is_shown
shown f = (
  (λ e. (
    ground (arith, state_eq.beq_iff f.state opened),
    (is_none-eq f.suppressed_at).0 (ground arith),
  )),
  (λ h. ground (arith, state_eq.beq_iff f.state opened, (is_none-eq f.suppressed_at).1 h.1)),
)

first_seen-IsOpened :
    (scan_id : Uuid) (events : List FindingEvent) (f : Finding)
    → is_first_seen scan_id f ≡ true
    → IsOpened scan_id events f
unfolding is_first_seen
first_seen-IsOpened scan_id events f e =
    let (seen, showing) = (both (f.first_seen_scan_id == scan_id) (is_shown f)).0 e in
    let (open_now, unsilenced) = (shown f).0 showing in
    record {
      shown = open_now;
      heard = unsilenced;
      cause = inl ((nat_eq.beq_iff f.first_seen_scan_id scan_id).0 seen);
    }

abbrev is_reopening : Uuid → Finding → FindingEvent → Bool
is_reopening scan_id f e =
    e.finding_id == f.id && e.kind == FindingEventKind.reopened && e.scan_id == some scan_id

reopening :
    (scan_id : Uuid) (f : Finding) (e : FindingEvent)
    → (is_reopening scan_id f e ≡ true)
      ↔ ((e.finding_id ≡ f.id) × (e.kind ≡ FindingEventKind.reopened) × (e.scan_id ≡ some scan_id))
reopening scan_id f e =
    let a = nat_eq.beq_iff e.finding_id f.id in
    let b = event_kind_eq.beq_iff e.kind FindingEventKind.reopened in
    let c = option_eq.beq_iff e.scan_id (some scan_id) in
    let outer =
      both (e.finding_id == f.id && e.kind == FindingEventKind.reopened)
        (e.scan_id == some scan_id) in
    let inner = both (e.finding_id == f.id) (e.kind == FindingEventKind.reopened) in
    (
      (λ q. let (xy, z) = outer.0 q in let (x, y) = inner.0 xy in (a.0 x, b.0 y, c.0 z)),
      (λ h. outer.1 (inner.1 (a.1 h.0, b.1 h.1), c.1 h.2)),
    )

reopened-IsOpened :
    (scan_id : Uuid) (events : List FindingEvent) (f : Finding)
    → is_reopened scan_id events f ≡ true
    → IsOpened scan_id events f
unfolding is_reopened
reopened-IsOpened scan_id events f e =
    let (front, written) =
      (both (f.last_seen_scan_id == scan_id && is_shown f) (any (is_reopening scan_id f) events)).0
        e in
    let (last, showing) = (both (f.last_seen_scan_id == scan_id) (is_shown f)).0 front in
    let (open_now, unsilenced) = (shown f).0 showing in
    let (event, has, met) = any-Has (is_reopening scan_id f) events written in
    let (same, kind, by_scan) = (reopening scan_id f event).0 met in
    record {
      shown = open_now;
      heard = unsilenced;
      cause =
          inr (
            (nat_eq.beq_iff f.last_seen_scan_id scan_id).0 last,
            (event, has, same, kind, by_scan),
          );
    }

IsOpened-selected :
    (scan_id : Uuid) (events : List FindingEvent) (f : Finding)
    → IsOpened scan_id events f
    → (is_first_seen scan_id f ≡ true) ⊎ (is_reopened scan_id events f ≡ true)
unfolding is_first_seen is_reopened
IsOpened-selected scan_id events f h =
    let showing = (shown f).1 (h.shown, h.heard) in
    elim h.cause [
      | inl seen ↦ inl (
          (both (f.first_seen_scan_id == scan_id) (is_shown f)).1
            ((nat_eq.beq_iff f.first_seen_scan_id scan_id).1 seen, showing))
      | inr (last, (event, has, same, kind, by_scan)) ↦ inr (
          (both (f.last_seen_scan_id == scan_id && is_shown f)
              (any (is_reopening scan_id f) events)).1
            (
              (both (f.last_seen_scan_id == scan_id) (is_shown f)).1
                  ((nat_eq.beq_iff f.last_seen_scan_id scan_id).1 last, showing),
              Has-any (is_reopening scan_id f) events event has
                  ((reopening scan_id f event).1 (same, kind, by_scan)),
            ))
    ]

pub newly_opened_findings-IsOpened :
    (scan_id : Uuid) (events : List FindingEvent) (findings : List Finding) (f : Finding)
    → Has f (newly_opened_findings scan_id events findings)
      ↔ (Has f findings × IsOpened scan_id events f)
unfolding newly_opened_findings
newly_opened_findings-IsOpened scan_id events findings f = (
  (λ m. elim (Has-split f (filter (is_first_seen scan_id) findings) (filter second findings) m) [
    | inl early ↦
        let (has, seen) = filter-Has (is_first_seen scan_id) f findings early in
        (has, first_seen-IsOpened scan_id events f seen)
    | inr late ↦
        let (has, seen) = filter-Has second f findings late in
        (
          has,
          reopened-IsOpened scan_id events f
              ((both (is_reopened scan_id events f) (not (is_first_seen scan_id f))).0 seen).0,
        )
  ]),
  (λ h. elim (Bool-cases (is_first_seen scan_id f)) [
    | inl seen ↦
        Has-append_left f (filter (is_first_seen scan_id) findings) (filter second findings)
          (Has-filter (is_first_seen scan_id) f findings seen h.0)
    | inr unseen ↦
        Has-append_right f (filter (is_first_seen scan_id) findings) (filter second findings)
          (Has-filter second f findings (later unseen h.1) h.0)
  ]),
)
  where
    second : Finding → Bool
    second g = is_reopened scan_id events g && not (is_first_seen scan_id g)

    later : is_first_seen scan_id f ≡ false → IsOpened scan_id events f → second f ≡ true
    later unseen h = elim (IsOpened-selected scan_id events f h) [
      | inl seen ↦ cc
      | inr again ↦ rw again (rw unseen refl)
    ]
