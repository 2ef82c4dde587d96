-- ===== src/Notifications/Outbox/Once.antt =====
-- apps/api/src/iceberg_api/notifications/dispatch.py: what `enqueue_for_scan` writes.
use iceberg_sst.Prelude.{
  append_nil, append_assoc, ℕ, ◌≤◌, Bool, true, not, ◌||◌, List, [], ◌∷◌, ◌++◌, ◌≡◌, refl, inl, inr,
  arith, nat_eq, option_eq, any, filter, length, count, count-append, All, All-append, Has,
  Has-filter, filter-Has, Bool-cases, sym, ◌∙◌, ap, subst,
}
use iceberg_sst.Prelude.Counting.{any-count, any-append}
use iceberg_sst.Enums.{NotificationDeliveryStatus}
use iceberg_sst.Models.{Uuid, Datetime, Finding, FindingEvent}
use iceberg_sst.Models.Notifications.{NotificationChannel, NotificationDelivery}
use iceberg_sst.Notifications.Filters.{channel_wants}
use iceberg_sst.Notifications.Outbox.{
  newly_opened_findings, is_about, announcement, enqueue_pair, enqueue_channels, enqueue_each,
  enqueue_for_scan,
}
use iceberg_sst.Notifications.Outbox.Opened.{IsOpened, newly_opened_findings-IsOpened}

-- The rows added to a table, each of which has a property.
abbrev Adds :
    (NotificationDelivery → Type 0) → List NotificationDelivery → List NotificationDelivery → Type 0
Adds P before after = (new : List NotificationDelivery) × (after ≡ before ++ new) × All P new

Adds-none : (P : NotificationDelivery → Type 0) (ds : List NotificationDelivery) → Adds P ds ds
Adds-none P ds = ([], append_nil ds, tt)

Adds-then :
    (P : NotificationDelivery → Type 0) (a b c : List NotificationDelivery)
    → Adds P a b
    → Adds P b c
    → Adds P a c
Adds-then P a b c (m, e, h) (n, f, k) =
    (m ++ n, f ∙ ap (λ l. l ++ n) e ∙ append_assoc a m n, All-append P m n h k)

module _ (uuid4 : ℕ → Uuid) (scan_id : Uuid) (at : Datetime) where
  -- The channel has been told of the finding by this scan.
  abbrev told : Finding → NotificationChannel → List NotificationDelivery → Bool
  told f c ds = any (is_about scan_id f.id c.id) ds

  told-add :
      (f g : Finding) (c : NotificationChannel) (d : NotificationDelivery)
      (ds : List NotificationDelivery)
      → told f c ds ≡ true
      → told f c (ds ++ d ∷ []) ≡ true
  told-add f g c d ds e = ground (arith, any-append (is_about scan_id f.id c.id) ds (d ∷ []))

  enqueue_pair-told :
      (f g : Finding) (c b : NotificationChannel) (ds : List NotificationDelivery)
      → told f c ds ≡ true
      → told f c (enqueue_pair uuid4 scan_id at g b ds) ≡ true
  unfolding enqueue_pair
  enqueue_pair-told f g c b ds e =
      ground (arith, told-add f g c (announcement (uuid4 (length ds)) scan_id at g b) ds e)

  is_about-announcement :
      (id : Uuid) (f : Finding) (c : NotificationChannel)
      → is_about scan_id f.id c.id (announcement id scan_id at f c) ≡ true
  is_about-announcement id f c =
      ground
        (arith, nat_eq.beq_iff c.id c.id, nat_eq.beq_iff f.id f.id, nat_eq.beq_iff scan_id scan_id)

  enqueue_pair-tells :
      (f : Finding) (c : NotificationChannel) (ds : List NotificationDelivery)
      → channel_wants c f ≡ true
      → told f c (enqueue_pair uuid4 scan_id at f c ds) ≡ true
  unfolding enqueue_pair
  enqueue_pair-tells f c ds wanted =
      let new = announcement (uuid4 (length ds)) scan_id at f c in
      ground (
        arith,
        any-append (is_about scan_id f.id c.id) ds (new ∷ []),
        is_about-announcement (uuid4 (length ds)) f c,
      )

  enqueue_channels-told :
      (f g : Finding) (c : NotificationChannel) (cs : List NotificationChannel)
      (ds : List NotificationDelivery)
      → told f c ds ≡ true
      → told f c (enqueue_channels uuid4 scan_id at g cs ds) ≡ true
  unfolding enqueue_channels
  enqueue_channels-told f g c [] ds e = e
  enqueue_channels-told f g c (b ∷ cs) ds e =
      enqueue_channels-told f g c cs (enqueue_pair uuid4 scan_id at g b ds)
        (enqueue_pair-told f g c b ds e)

  enqueue_channels-tells :
      (f : Finding) (c : NotificationChannel) (cs : List NotificationChannel)
      (ds : List NotificationDelivery)
      → Has c cs
      → channel_wants c f ≡ true
      → told f c (enqueue_channels uuid4 scan_id at f cs ds) ≡ true
  unfolding enqueue_channels
  enqueue_channels-tells f c [] ds m wanted = absurd m
  enqueue_channels-tells f c (b ∷ cs) ds (inl same) wanted =
      enqueue_channels-told f f c cs (enqueue_pair uuid4 scan_id at f b ds) (
        subst (λ x. told f c (enqueue_pair uuid4 scan_id at f x ds) ≡ true) (sym same)
          (enqueue_pair-tells f c ds wanted))
  enqueue_channels-tells f c (b ∷ cs) ds (inr later) wanted =
      enqueue_channels-tells f c cs (enqueue_pair uuid4 scan_id at f b ds) later wanted

  enqueue_each-told :
      (f : Finding) (c : NotificationChannel) (fs : List Finding) (cs : List NotificationChannel)
      (ds : List NotificationDelivery)
      → told f c ds ≡ true
      → told f c (enqueue_each uuid4 scan_id at fs cs ds) ≡ true
  unfolding enqueue_each
  enqueue_each-told f c [] cs ds e = e
  enqueue_each-told f c (g ∷ fs) cs ds e =
      enqueue_each-told f c fs cs (enqueue_channels uuid4 scan_id at g cs ds)
        (enqueue_channels-told f g c cs ds e)

  enqueue_each-tells :
      (f : Finding) (c : NotificationChannel) (fs : List Finding) (cs : List NotificationChannel)
      (ds : List NotificationDelivery)
      → Has f fs
      → Has c cs
      → channel_wants c f ≡ true
      → told f c (enqueue_each uuid4 scan_id at fs cs ds) ≡ true
  unfolding enqueue_each
  enqueue_each-tells f c [] cs ds m n wanted = absurd m
  enqueue_each-tells f c (g ∷ fs) cs ds (inl same) n wanted =
      enqueue_each-told f c fs cs (enqueue_channels uuid4 scan_id at g cs ds) (
        subst (λ x. told f c (enqueue_channels uuid4 scan_id at x cs ds) ≡ true) (sym same)
          (enqueue_channels-tells f c cs ds n wanted))
  enqueue_each-tells f c (g ∷ fs) cs ds (inr later) n wanted =
      enqueue_each-tells f c fs cs (enqueue_channels uuid4 scan_id at g cs ds) later n wanted

  -- Where every channel has been told of all that it wants, nothing is written.
  AllTold : List Finding → List NotificationChannel → List NotificationDelivery → Type 0
  AllTold fs cs ds =
      (f : Finding) (c : NotificationChannel)
      → Has f fs
      → Has c cs
      → channel_wants c f ≡ true
      → told f c ds ≡ true

  enqueue_pair_idle :
      (f : Finding) (c : NotificationChannel) (ds : List NotificationDelivery)
      → (channel_wants c f ≡ true → told f c ds ≡ true)
      → enqueue_pair uuid4 scan_id at f c ds ≡ ds
  unfolding enqueue_pair
  enqueue_pair_idle f c ds h = elim (Bool-cases (channel_wants c f)) [
    | inl wanted ↦ rw wanted (rw (h wanted) refl)
    | inr unwanted ↦ rw unwanted refl
  ]

  enqueue_channels_idle :
      (f : Finding) (cs : List NotificationChannel) (ds : List NotificationDelivery)
      → ((c : NotificationChannel) → Has c cs → channel_wants c f ≡ true → told f c ds ≡ true)
      → enqueue_channels uuid4 scan_id at f cs ds ≡ ds
  unfolding enqueue_channels
  enqueue_channels_idle f [] ds h = refl
  enqueue_channels_idle f (c ∷ cs) ds h =
      ap (enqueue_channels uuid4 scan_id at f cs) (enqueue_pair_idle f c ds (h c (inl refl)))
      ∙ enqueue_channels_idle f cs ds (λ b m. h b (inr m))

  enqueue_each_idle :
      (fs : List Finding) (cs : List NotificationChannel) (ds : List NotificationDelivery)
      → AllTold fs cs ds
      → enqueue_each uuid4 scan_id at fs cs ds ≡ ds
  unfolding enqueue_each AllTold
  enqueue_each_idle [] cs ds h = refl
  enqueue_each_idle (f ∷ fs) cs ds h =
      ap (enqueue_each uuid4 scan_id at fs cs)
        (enqueue_channels_idle f cs ds (λ c m. h f c (inl refl) m))
      ∙ enqueue_each_idle fs cs ds (λ g c m. h g c (inr m))

  -- The rows that are added.
  enqueue_pair-Adds :
      (P : NotificationDelivery → Type 0) (f : Finding) (c : NotificationChannel)
      (ds : List NotificationDelivery)
      → ((id : Uuid) → channel_wants c f ≡ true → P (announcement id scan_id at f c))
      → Adds P ds (enqueue_pair uuid4 scan_id at f c ds)
  unfolding enqueue_pair
  enqueue_pair-Adds P f c ds h =
      elim (Bool-cases (not (channel_wants c f) || any (is_about scan_id f.id c.id) ds)) [
        | inl idle ↦ rw idle (Adds-none P ds)
        | inr due ↦
            let new = announcement (uuid4 (length ds)) scan_id at f c in
            let wanted : channel_wants c f ≡ true = ground (arith, due) in
            rw due (new ∷ [], refl, (h (uuid4 (length ds)) wanted, tt))
      ]

  enqueue_channels-Adds :
      (P : NotificationDelivery → Type 0) (f : Finding) (cs : List NotificationChannel)
      (ds : List NotificationDelivery)
      → ((c : NotificationChannel) (id : Uuid)
          → Has c cs
          → channel_wants c f ≡ true
          → P (announcement id scan_id at f c))
      → Adds P ds (enqueue_channels uuid4 scan_id at f cs ds)
  unfolding enqueue_channels
  enqueue_channels-Adds P f [] ds h = Adds-none P ds
  enqueue_channels-Adds P f (c ∷ cs) ds h =
      let step = enqueue_pair uuid4 scan_id at f c ds in
      Adds-then P ds step (enqueue_channels uuid4 scan_id at f cs step)
        (enqueue_pair-Adds P f c ds (λ id. h c id (inl refl)))
        (enqueue_channels-Adds P f cs step (λ b id m. h b id (inr m)))

  enqueue_each-Adds :
      (P : NotificationDelivery → Type 0) (fs : List Finding) (cs : List NotificationChannel)
      (ds : List NotificationDelivery)
      → ((f : Finding) (c : NotificationChannel) (id : Uuid)
          → Has f fs
          → Has c cs
          → channel_wants c f ≡ true
          → P (announcement id scan_id at f c))
      → Adds P ds (enqueue_each uuid4 scan_id at fs cs ds)
  unfolding enqueue_each
  enqueue_each-Adds P [] cs ds h = Adds-none P ds
  enqueue_each-Adds P (f ∷ fs) cs ds h =
      let step = enqueue_channels uuid4 scan_id at f cs ds in
      Adds-then P ds step (enqueue_each uuid4 scan_id at fs cs step)
        (enqueue_channels-Adds P f cs ds (λ c id. h f c id (inl refl)))
        (enqueue_each-Adds P fs cs step (λ g c id m. h g c id (inr m)))

-- No two rows are about the same channel, finding and scan: the unique constraint of the table.
OneEach : List NotificationDelivery → Type 0
OneEach ds = (s f c : Uuid) → count (is_about s f c) ds ≤ 1

module _ (uuid4 : ℕ → Uuid) (scan_id : Uuid) (at : Datetime) where
  enqueue_pair-OneEach :
      (f : Finding) (c : NotificationChannel) (ds : List NotificationDelivery)
      → OneEach ds
      → OneEach (enqueue_pair uuid4 scan_id at f c ds)
  unfolding enqueue_pair OneEach
  enqueue_pair-OneEach f c ds h s f' c' =
      elim (Bool-cases (not (channel_wants c f) || any (is_about scan_id f.id c.id) ds)) [
        | inl idle ↦ rw idle (h s f' c')
        | inr due ↦ rw due (one (any-count (is_about scan_id f.id c.id) ds (ground (arith, due))))
      ]
    where
      new : NotificationDelivery
      new = announcement (uuid4 (length ds)) scan_id at f c

      one :
          count (is_about scan_id f.id c.id) ds ≡ 0 → count (is_about s f' c') (ds ++ new ∷ []) ≤ 1
      one free =
          let total = count-append (is_about s f' c') ds (new ∷ []) in
          elim (Bool-cases (is_about s f' c' new)) [
            | inl hit ↦
                let same_c : c.id ≡ c' = ground (arith, nat_eq.beq_iff c.id c', hit) in
                let same_f : f.id ≡ f' = ground (arith, nat_eq.beq_iff f.id f', hit) in
                let same_s : scan_id ≡ s = ground (arith, nat_eq.beq_iff scan_id s, hit) in
                let free' : count (is_about s f' c') ds ≡ 0 =
                  subst (λ x. count (is_about x f' c') ds ≡ 0) same_s
                    (subst (λ y. count (is_about scan_id y c') ds ≡ 0) same_f
                      (subst (λ z. count (is_about scan_id f.id z) ds ≡ 0) same_c free)) in
                ground arith
            | inr missed ↦ ground (arith, h s f' c')
          ]

  enqueue_channels-OneEach :
      (f : Finding) (cs : List NotificationChannel) (ds : List NotificationDelivery)
      → OneEach ds
      → OneEach (enqueue_channels uuid4 scan_id at f cs ds)
  unfolding enqueue_channels
  enqueue_channels-OneEach f [] ds h = h
  enqueue_channels-OneEach f (c ∷ cs) ds h =
      enqueue_channels-OneEach f cs (enqueue_pair uuid4 scan_id at f c ds)
        (enqueue_pair-OneEach f c ds h)

  enqueue_each-OneEach :
      (fs : List Finding) (cs : List NotificationChannel) (ds : List NotificationDelivery)
      → OneEach ds
      → OneEach (enqueue_each uuid4 scan_id at fs cs ds)
  unfolding enqueue_each
  enqueue_each-OneEach [] cs ds h = h
  enqueue_each-OneEach (f ∷ fs) cs ds h =
      enqueue_each-OneEach fs cs (enqueue_channels uuid4 scan_id at f cs ds)
        (enqueue_channels-OneEach f cs ds h)

-- An announcement that the scan owes: of a finding that it opened, to an enabled channel that wants it.
pub record IsOwed (scan_id : Uuid) (events : List FindingEvent) (findings : List Finding)
    (channels : List NotificationChannel) (f : Finding) (c : NotificationChannel) : Type 0 where
  pub stored : Has f findings
  pub opened_here : IsOpened scan_id events f
  pub listed : Has c channels
  pub enabled : c.enabled ≡ true
  pub wanted : channel_wants c f ≡ true

-- A pending row about an announcement that is owed.
pub record IsDue (scan_id : Uuid) (events : List FindingEvent) (findings : List Finding)
    (channels : List NotificationChannel) (d : NotificationDelivery) : Type 0 where
  pub finding : Finding
  pub channel : NotificationChannel
  pub owed : IsOwed scan_id events findings channels finding channel
  pub about : is_about scan_id finding.id channel.id d ≡ true
  pub waiting : d.status ≡ NotificationDeliveryStatus.pending

-- The rows that were there stay first and as they were. Each row that is added is pending, and about a
-- finding that the scan opened and an enabled channel that wants it; every such pair has a row. No
-- channel has two rows about one finding and one scan, if none had before. Once more adds nothing.
pub enqueue_for_scan_once :
    (uuid4 : ℕ → Uuid) (scan_id : Uuid) (at : Datetime) (events : List FindingEvent)
    (findings : List Finding) (channels : List NotificationChannel) (ds : List NotificationDelivery)
    → ((new : List NotificationDelivery) × (enqueue_for_scan uuid4 scan_id at events findings
            channels ds
          ≡ ds ++ new)
        × All (IsDue scan_id events findings channels) new)
      × ((f : Finding) (c : NotificationChannel)
          → IsOwed scan_id events findings channels f c
          → any
              (is_about scan_id f.id c.id)
              (enqueue_for_scan uuid4 scan_id at events findings channels ds)
            ≡ true)
      × (((s f c : Uuid) → count (is_about s f c) ds ≤ 1)
          → (s f c : Uuid)
          → count (is_about s f c) (enqueue_for_scan uuid4 scan_id at events findings channels ds)
            ≤ 1)
      × (enqueue_for_scan uuid4 scan_id at events findings channels
            (enqueue_for_scan uuid4 scan_id at events findings channels ds)
          ≡ enqueue_for_scan uuid4 scan_id at events findings channels ds)
unfolding enqueue_for_scan AllTold OneEach
enqueue_for_scan_once uuid4 scan_id at events findings channels ds =
    let fs = newly_opened_findings scan_id events findings in
    let cs = filter (λ (c : NotificationChannel). c.enabled) channels in
    let tells =
      λ (f : Finding) (c : NotificationChannel) (m : Has f fs) (n : Has c cs)
          (wanted : channel_wants c f ≡ true).
        enqueue_each-tells uuid4 scan_id at f c fs cs ds m n wanted in
    (
      enqueue_each-Adds uuid4 scan_id at (IsDue scan_id events findings channels) fs cs ds
          (λ f c id m n wanted.
            let (stored, opened_here) =
              (newly_opened_findings-IsOpened scan_id events findings f).0 m in
            let (listed, enabled) =
              filter-Has (λ (b : NotificationChannel). b.enabled) c channels n in
            record {
              finding = f;
              channel = c;
              owed = record {
                stored = stored;
                opened_here = opened_here;
                listed = listed;
                enabled = enabled;
                wanted = wanted;
              };
              about = is_about-announcement uuid4 scan_id at id f c;
              waiting = refl;
            }),
      (λ f c h.
          tells f c
            ((newly_opened_findings-IsOpened scan_id events findings f).1 (h.stored, h.opened_here))
            (Has-filter (λ (b : NotificationChannel). b.enabled) c channels h.enabled h.listed)
            h.wanted),
      (λ h. enqueue_each-OneEach uuid4 scan_id at fs cs ds h),
      enqueue_each_idle uuid4 scan_id at fs cs (enqueue_each uuid4 scan_id at fs cs ds) tells,
    )
