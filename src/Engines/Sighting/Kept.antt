-- ===== src/Engines/Sighting/Kept.antt =====
-- What a sighting may not touch, and what it leaves on the row.
use iceberg_sst.Prelude.{
  Bool, true, false, ◌||◌, Option, none, some, ◌≡◌, refl, ◌≢◌, ◌⊎◌, inl, inr, arith, nat_eq,
  string_eq, option_eq, is_some, Option-cases, ◌∙◌, ap, sym,
}
use iceberg_sst.Enums.{opened, resolved}
use iceberg_sst.Models.{Uuid, Finding, FindingPayload}
use iceberg_sst.Suppression.Matching.{SuppressionRule}
use iceberg_sst.Findings.Ownership.{route, start_clock}
use iceberg_sst.Findings.Ownership.Routing.{route-columns}
use iceberg_sst.Findings.Suppressions.{suppress, release}
use iceberg_sst.Engines.Sighting.{
  Submission, clocked, silenced, refresh_columns, refresh_validation, reopen, silence_or_release,
  record_validation, refresh, is_resolved, create, new_finding,
}
use iceberg_sst.Engines.Sighting.Framed.{
  IsFramed, IsFramed-trans, clocked-IsFramed, record_validation-IsFramed,
  refresh_validation-IsFramed, route-IsFramed, silence_or_release-IsFramed, silenced-IsFramed,
}

-- A sighting keeps the row's identity in the table and everything a person decided about it. It may
-- re-open a resolved finding, and give an owner to one that has none.
pub record IsKept (f g : Finding) : Type 0 where
  pub id : g.id ≡ f.id
  pub source_id : g.source_id ≡ f.source_id
  pub first_seen : g.first_seen_scan_id ≡ f.first_seen_scan_id
  pub assignee_id : g.assignee_id ≡ f.assignee_id
  pub notes : g.notes ≡ f.notes
  pub owner_pinned : g.owner_pinned ≡ f.owner_pinned
  pub owner :
      (f.owner_pinned || is_some f.owner_group_id) ≡ true → g.owner_group_id ≡ f.owner_group_id
  pub state :
      (g.state ≡ f.state) × (g.resolution ≡ f.resolution)
      ⊎ (f.state ≡ resolved) × (g.state ≡ opened) × (g.resolution ≡ none)

pub IsKept-refl : (f : Finding) → IsKept f f
IsKept-refl f = ground arith

pub IsKept-trans : {f g h : Finding} → IsKept f g → IsKept g h → IsKept f h
IsKept-trans a b = ground arith

-- The row is in view where no suppression covers it, and hidden under the one that does.
abbrev pub HiddenBy : Option SuppressionRule → Finding → Type 0
HiddenBy none g = g.suppressed_at ≡ none
HiddenBy (some r) g = (is_some g.suppressed_at ≡ true) × (g.suppressed_by_id ≡ some r.id)

-- What a sighting leaves on the row: it is seen by this scan, not resolved, shown as the payload
-- says, and hidden under the suppression that covers it or in view where none does.
pub record IsSighted (sub : Submission) (suppression : Option SuppressionRule)
    (payload : FindingPayload) (g : Finding) : Type 0 where
  pub last_seen : g.last_seen_scan_id ≡ sub.scan_id
  pub live : g.state ≢ resolved
  pub severity : g.severity ≡ payload.severity
  pub resource_locator : g.resource_locator ≡ payload.resource_locator
  pub redacted_snippet : g.redacted_snippet ≡ payload.redacted_snippet
  pub hidden : HiddenBy suppression g

-- The four parts after the columns, as one step from `f` to `g`.
reopen-then :
    (sub : Submission) (f g : Finding)
    → IsFramed (reopen sub f).finding g
    → IsKept f g
      × (g.state ≢ resolved)
      × (g.last_seen_scan_id ≡ f.last_seen_scan_id)
      × (g.fingerprint ≡ f.fingerprint)
      × (g.secret_hash ≡ f.secret_hash)
      × (g.severity ≡ f.severity)
      × (g.resource_locator ≡ f.resource_locator)
      × (g.redacted_snippet ≡ f.redacted_snippet)
unfolding reopen
reopen-then sub f g framed = ground arith

silence_or_release_hidden :
    (sub : Submission) (s : Option SuppressionRule) (f : Finding)
    → HiddenBy s (silence_or_release sub s f).finding
unfolding silence_or_release suppress release
silence_or_release_hidden sub none f = ground arith
silence_or_release_hidden sub (some r) f = ground arith

columns_shown :
    (sub : Submission) (payload : FindingPayload) (f : Finding)
    → let g = refresh_columns sub payload f in
      (g.last_seen_scan_id ≡ sub.scan_id)
      × (g.fingerprint ≡ f.fingerprint)
      × (g.secret_hash ≡ f.secret_hash)
      × (g.severity ≡ payload.severity)
      × (g.resource_locator ≡ payload.resource_locator)
      × (g.redacted_snippet ≡ payload.redacted_snippet)
unfolding refresh_columns
columns_shown sub payload f = (refl, refl, refl, refl, refl, refl)

columns-IsKept :
    (sub : Submission) (payload : FindingPayload) (f : Finding)
    → IsKept f (refresh_columns sub payload f)
unfolding refresh_columns
columns-IsKept sub payload f = ground arith

IsFramed→IsKept : {f g : Finding} → IsFramed f g → IsKept f g
IsFramed→IsKept h = ground arith

-- Refreshing a row keeps its identifier, source, first scan, fingerprint, secret hash, notes, assignee
-- and pin, its owner once it has one or is pinned, and its state and resolution unless it was resolved
-- and is open again. The row is then seen by this scan and not resolved, has the payload's severity,
-- locator and snippet, and is hidden under the identifier of the suppression given, or in view where
-- none is given.
pub refresh-IsSighted :
    (sub : Submission) (s : Option SuppressionRule) (payload : FindingPayload) (f : Finding)
    → let g = (refresh sub s payload f).0.finding in
      IsKept f g
      × IsSighted sub s payload g
      × (g.fingerprint ≡ f.fingerprint)
      × (g.secret_hash ≡ f.secret_hash)
unfolding refresh
refresh-IsSighted sub s payload f =
    let f₀ = refresh_columns sub payload f in
    let f₁ = (refresh_validation sub payload f₀).finding in
    let f₂ = (reopen sub f₁).finding in
    let f₃ = (route sub.casefold sub.policy sub.scan_id f₂).finding in
    let f₄ = (clocked sub (is_resolved f.state) f₃).finding in
    let framed =
      IsFramed-trans
        (IsFramed-trans (route-IsFramed sub f₂) (clocked-IsFramed sub (is_resolved f.state) f₃))
        (silence_or_release-IsFramed sub s f₄) in
    let shown = refresh_validation-IsFramed sub payload f₀ in
    let (kept, live, last, fp, hash, sev, loc, snip) =
      reopen-then sub f₁ (silence_or_release sub s f₄).finding framed in
    let (last₀, fp₀, hash₀, sev₀, loc₀, snip₀) = columns_shown sub payload f in
    (
      IsKept-trans (columns-IsKept sub payload f) (IsKept-trans (IsFramed→IsKept shown) kept),
      record {
        last_seen = last ∙ shown.last_seen ∙ last₀;
        live = live;
        severity = sev ∙ shown.severity ∙ sev₀;
        resource_locator = loc ∙ shown.resource_locator ∙ loc₀;
        redacted_snippet = snip ∙ shown.redacted_snippet ∙ snip₀;
        hidden = silence_or_release_hidden sub s f₄;
      },
      fp ∙ shown.fingerprint ∙ fp₀,
      hash ∙ shown.secret_hash ∙ hash₀,
    )

opened_not_resolved : opened ≢ resolved
opened_not_resolved e = cc

new_finding_lem :
    (sub : Submission) (id : Uuid) (payload : FindingPayload)
    → let g = new_finding sub id payload in
      (g.last_seen_scan_id ≡ sub.scan_id)
      × (g.state ≡ opened)
      × (g.severity ≡ payload.severity)
      × (g.resource_locator ≡ payload.resource_locator)
      × (g.redacted_snippet ≡ payload.redacted_snippet)
      × (g.fingerprint ≡ payload.fingerprint)
      × (g.source_id ≡ sub.source_id)
      × (g.id ≡ id)
unfolding new_finding
new_finding_lem sub id payload = (refl, refl, refl, refl, refl, refl, refl, refl)

new_suppressed_at :
    (sub : Submission) (id : Uuid) (payload : FindingPayload)
    → (record_validation sub payload.validation none
        (new_finding sub id payload)).finding.suppressed_at
      ≡ none
unfolding new_finding record_validation
new_suppressed_at sub id payload = elim (Option-cases payload.validation) [
  | inl e ↦ simp e refl
  | inr (r, e) ↦ simp e refl
]

clocked_suppressed_at :
    (sub : Submission) (restart : Bool) (f : Finding)
    → (clocked sub restart f).finding.suppressed_at ≡ f.suppressed_at
unfolding start_clock
clocked_suppressed_at sub restart f = ground arith

silenced_hidden :
    (sub : Submission) (s : Option SuppressionRule) (f : Finding)
    → f.suppressed_at ≡ none
    → HiddenBy s (silenced sub s f).finding
unfolding suppress
silenced_hidden sub none f bare = ground arith
silenced_hidden sub (some r) f bare = ground arith

-- A new row is sighted, open, and keyed by the payload's fingerprint.
pub create-IsSighted :
    (sub : Submission) (s : Option SuppressionRule) (id : Uuid) (payload : FindingPayload)
    → let g = (create sub s id payload).finding in
      IsSighted sub s payload g
      × (g.fingerprint ≡ payload.fingerprint)
      × (g.source_id ≡ sub.source_id)
      × (g.id ≡ id)
      × (g.state ≡ opened)
unfolding create
create-IsSighted sub s id payload =
    let f₀ = new_finding sub id payload in
    let f₁ = (record_validation sub payload.validation none f₀).finding in
    let f₂ = (route sub.casefold sub.policy sub.scan_id f₁).finding in
    let f₃ = (clocked sub false f₂).finding in
    let framed = IsFramed-trans (record_validation-IsFramed sub payload.validation none f₀) (
      IsFramed-trans (IsFramed-trans (route-IsFramed sub f₁) (clocked-IsFramed sub false f₂))
        (silenced-IsFramed sub s f₃)) in
    let bare : f₃.suppressed_at ≡ none =
      clocked_suppressed_at sub false f₂
      ∙ ap (λ (f : Finding). f.suppressed_at) (route-columns sub.casefold sub.policy sub.scan_id f₁)
      ∙ new_suppressed_at sub id payload in
    let start = new_finding_lem sub id payload in
    (
      record {
        last_seen = framed.last_seen ∙ start.0;
        live = λ e. opened_not_resolved (sym (framed.state ∙ start.1) ∙ e);
        severity = framed.severity ∙ start.2;
        resource_locator = framed.resource_locator ∙ start.3;
        redacted_snippet = framed.redacted_snippet ∙ start.4;
        hidden = silenced_hidden sub s f₃ bare;
      },
      framed.fingerprint ∙ start.5,
      framed.source_id ∙ start.6,
      framed.id ∙ start.7,
      framed.state ∙ start.1,
    )
