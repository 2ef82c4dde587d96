-- ===== src/Engines/Sighting/Reopenings.antt =====
-- How many `reopened` events a sighting writes.
use iceberg_sst.Prelude.{
  false, Option, none, some, ◌≡◌, refl, ◌∙◌, ap, arith, nat_eq, string_eq, option_eq, if◌then◌else◌,
  is_some, is_none, count, Bool-cases, inl, inr, Option-cases,
}
use iceberg_sst.Models.{Uuid, Finding, FindingPayload, CredentialValidationResult}
use iceberg_sst.Suppression.Matching.{SuppressionRule}
use iceberg_sst.Findings.Events.{◌then_do◌, is_reopening, reopenings, reopenings-then_do}
use iceberg_sst.Findings.Ownership.{route}
use iceberg_sst.Findings.Ownership.Routing.{route_quiet}
use iceberg_sst.Findings.Suppressions.{suppress, release}
use iceberg_sst.Engines.Sighting.{
  Submission, clocked, silenced, new_finding, refresh_columns, refresh_validation, same_validation,
  reopen, silence_or_release, record_validation, refresh, is_resolved, create,
}
use iceberg_sst.Engines.Sighting.Framed.{refresh_validation-IsFramed}

record_validation_quiet :
    (sub : Submission) (o : Option CredentialValidationResult) (f : Finding)
    → reopenings (record_validation sub o none f) ≡ 0
unfolding record_validation
record_validation_quiet sub none f = refl
record_validation_quiet sub (some result) f = refl

refresh_validation_quiet :
    (sub : Submission) (payload : FindingPayload) (f : Finding)
    → reopenings (refresh_validation sub payload f) ≡ 0
unfolding refresh_validation record_validation
refresh_validation_quiet sub payload f = elim (Option-cases payload.validation) [
  | inl e ↦ rw e refl
  | inr (result, e) ↦ rw e (elim (Bool-cases (same_validation f result)) [
    | inl same ↦ rw same refl
    | inr other ↦ rw other refl
  ])
]

reopen_lem :
    (sub : Submission) (f : Finding)
    → reopenings (reopen sub f) ≡ (if is_resolved f.state then 1 else 0)
unfolding reopen
reopen_lem sub f = elim (Bool-cases (is_resolved f.state)) [ inl e ↦ rw e refl | inr e ↦ rw e refl ]

silence_or_release_quiet :
    (sub : Submission) (s : Option SuppressionRule) (f : Finding)
    → reopenings (silence_or_release sub s f) ≡ 0
unfolding silence_or_release suppress release
silence_or_release_quiet sub none f = elim (Bool-cases (is_none f.suppressed_at)) [
  | inl e ↦ rw e refl
  | inr e ↦ rw e refl
]
silence_or_release_quiet sub (some r) f = elim (Bool-cases (is_some f.suppressed_at)) [
  | inl e ↦ rw e refl
  | inr e ↦ rw e refl
]

silenced_quiet :
    (sub : Submission) (s : Option SuppressionRule) (f : Finding)
    → reopenings (silenced sub s f) ≡ 0
unfolding silence_or_release
silenced_quiet sub none f = refl
silenced_quiet sub (some r) f = silence_or_release_quiet sub (some r) f

-- A refreshed row has one where it tells its caller that it was re-opened, and none otherwise.
pub refresh_reopenings :
    (sub : Submission) (s : Option SuppressionRule) (payload : FindingPayload) (f : Finding)
    → let (l, is_reopened) = refresh sub s payload f in
      count is_reopening l.events ≡ (if is_reopened then 1 else 0)
unfolding refresh
refresh_reopenings sub s payload f =
    let f₀ = refresh_columns sub payload f in
    let l₁ = refresh_validation sub payload f₀ in
    let l₂ = l₁ then_do reopen sub in
    let l₃ = l₂ then_do route sub.casefold sub.policy sub.scan_id in
    let l₄ = l₃ then_do clocked sub (is_resolved f.state) in
    let same : is_resolved l₁.finding.state ≡ is_resolved f.state =
      ap is_resolved (refresh_validation-IsFramed sub payload f₀).state in
    let opens : reopenings (reopen sub l₁.finding) ≡ (if is_resolved f.state then 1 else 0) =
      reopen_lem sub l₁.finding ∙ ap (λ b. if b then 1 else 0) same in
    omega (
      arith,
      reopenings-then_do l₄ (silence_or_release sub s),
      reopenings-then_do l₃ (clocked sub (is_resolved f.state)),
      reopenings-then_do l₂ (route sub.casefold sub.policy sub.scan_id),
      reopenings-then_do l₁ (reopen sub),
      refresh_validation_quiet sub payload f₀,
      opens,
      route_quiet sub.casefold sub.policy sub.scan_id l₂.finding,
      silence_or_release_quiet sub s l₄.finding,
    )

-- A new row has none.
pub create_reopenings :
    (sub : Submission) (s : Option SuppressionRule) (id : Uuid) (payload : FindingPayload)
    → count is_reopening (create sub s id payload).events ≡ 0
unfolding create
create_reopenings sub s id payload =
    let l₁ = record_validation sub payload.validation none (new_finding sub id payload) in
    let l₂ = l₁ then_do route sub.casefold sub.policy sub.scan_id in
    let l₃ = l₂ then_do clocked sub false in
    omega (
      arith,
      reopenings-then_do l₃ (silenced sub s),
      reopenings-then_do l₂ (clocked sub false),
      reopenings-then_do l₁ (route sub.casefold sub.policy sub.scan_id),
      record_validation_quiet sub payload.validation (new_finding sub id payload),
      route_quiet sub.casefold sub.policy sub.scan_id l₁.finding,
      silenced_quiet sub s l₃.finding,
    )
