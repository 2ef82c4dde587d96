-- ===== src/Findings/Triage/Legal.antt =====
-- Which triage requests are accepted, and the state that an accepted one leaves.
use iceberg_sst.Prelude.{
  String, Bool, true, Option, none, some, ◌≡◌, refl, ◌≢◌, ◌↔◌, ◌⊎◌, inl, inr, arith, ◌==◌,
  Bool-cases, Option-cases, or_else, ◌∙◌, ap, sym,
}
use iceberg_sst.Enums.{FindingState, opened, false_positive, accepted_risk, resolved, state_eq}
use iceberg_sst.Models.{Uuid, Finding}
use iceberg_sst.Findings.Events.{Logged}
use iceberg_sst.Findings.Triage.{
  FindingUpdate, Applied, applied, refused, Refusal, unless_refused, moving_to, refusal, perform,
  apply, legal_transitions, change_state,
}

-- The diagram: a judgement is made from `open`, and undone to `open`.
pub data Move : FindingState → FindingState → Type 0 where
  judge : {t : FindingState} → t ≢ opened → Move opened t
  reopen : {s : FindingState} → s ≢ opened → Move s opened

legal→Move : (s t : FindingState) → legal_transitions s t ≡ true → Move s t
unfolding legal_transitions
legal→Move opened opened h = cc
legal→Move opened false_positive h = judge (λ e. cc)
legal→Move opened accepted_risk h = judge (λ e. cc)
legal→Move opened resolved h = judge (λ e. cc)
legal→Move false_positive opened h = reopen (λ e. cc)
legal→Move accepted_risk opened h = reopen (λ e. cc)
legal→Move resolved opened h = reopen (λ e. cc)
legal→Move false_positive _ h = cc
legal→Move accepted_risk _ h = cc
legal→Move resolved _ h = cc

Move→legal : (s t : FindingState) → Move s t → legal_transitions s t ≡ true
unfolding legal_transitions
Move→legal opened t (judge n) = ground arith
Move→legal s opened (reopen n) = ground arith

-- A policy, where there is one, finds evidence on the finding as it stands.
abbrev pub HasEvidence : Option (Finding → Bool) → Finding → Type 0
HasEvidence none f = Unit
HasEvidence (some check) f = check f ≡ true

-- A requested change of state is a move of the diagram, and evidence backs a resolution.
abbrev pub IsPermitted : Finding → Option FindingState → Option (Finding → Bool) → Type 0
IsPermitted f none check = Unit
IsPermitted f (some t) check =
    (t ≡ f.state) ⊎ (Move f.state t × (t ≡ resolved → HasEvidence check f))

refusal-none_iff :
    (t : FindingState) (check : Option (Finding → Bool)) (f : Finding)
    → (refusal (some t) check f ≡ none)
      ↔ ((legal_transitions f.state t ≡ true) × (t ≡ resolved → HasEvidence check f))
unfolding refusal
refusal-none_iff t none f = ground arith
refusal-none_iff t (some c) f = ground arith

abbrev pub Accepts : Applied → Type 0
Accepts (applied _) = Unit
Accepts (refused _) = ⊥

unless_refused-Accepts_iff :
    (r : Option Refusal) (l : Logged) → Accepts (unless_refused r l) ↔ (r ≡ none)
unfolding unless_refused
unless_refused-Accepts_iff none l = ((λ _. refl), (λ _. tt))
unless_refused-Accepts_iff (some r) l = ((λ h. absurd h), (λ e. cc))

-- Asking for the state that is there is asking for no move.
pub moving_to_self :
    (f : Finding) (changes : FindingUpdate)
    → f.state ≡ or_else changes.state f.state
    → moving_to f changes ≡ none
unfolding moving_to
moving_to_self f changes e = elim (Option-cases changes.state) [
  | inl absent ↦ rw (absent, moving_to) refl
  | inr (t, asked) ↦
      rw (asked, (state_eq.beq_iff t f.state).1 (sym (rw asked at e)), moving_to) refl
]

-- What the request asks to move to is none where it asks for no state or for the current one.
moving_to_cases :
    (f : Finding) (changes : FindingUpdate)
    → ((moving_to f changes ≡ none) × ((changes.state ≡ none) ⊎ (changes.state ≡ some f.state)))
      ⊎ ((t : FindingState) × (changes.state ≡ some t)
          × (t ≢ f.state)
          × (moving_to f changes ≡ some t))
unfolding moving_to
moving_to_cases f changes = elim (Option-cases changes.state) [
  | inl e ↦ inl (rw e refl, inl e)
  | inr (t, e) ↦ elim (Bool-cases (t == f.state)) [
    | inl same ↦ inl (rw (e, same), inr (e ∙ ap some ((state_eq.beq_iff t f.state).0 same)))
    | inr other ↦ inr (t, e, (λ q. cc ((state_eq.beq_iff t f.state).1 q)), rw (e, other))
  ]
]

-- A request is accepted exactly where it is permitted: no state or the current one is asked for, or
-- the change is a move of the diagram and, for a resolution under a policy, evidence is found.
pub apply-Accepts_iff :
    (f : Finding) (changes : FindingUpdate) (actor : Uuid) (check : Option (Finding → Bool))
    → Accepts (apply f changes actor check) ↔ IsPermitted f changes.state check
unfolding apply
apply-Accepts_iff f changes actor check =
    let iff =
      unless_refused-Accepts_iff (refusal (moving_to f changes) check f)
        (perform (moving_to f changes) changes actor f) in
    elim (moving_to_cases f changes) [
      | inl (still, asked) ↦
          let none_refused : refusal (moving_to f changes) check f ≡ none =
            rw (still, refusal) refl in
          elim asked [
            | inl e ↦ simp e ((λ _. tt), (λ _. iff.1 none_refused))
            | inr e ↦ simp e ((λ _. inl refl), (λ _. iff.1 none_refused))
          ]
      | inr (t, asked, other, moves) ↦ simp asked (
        (λ accepted.
            let (legal, backed) = (refusal-none_iff t check f).0 (rw moves at (iff.0 accepted)) in
            inr (legal→Move f.state t legal, backed)),
        (λ permitted. elim permitted [
          | inl same ↦ absurd (other same)
          | inr (move, backed) ↦
              iff.1 (rw moves ((refusal-none_iff t check f).1 (Move→legal f.state t move, backed)))
        ]),
      )
    ]

abbrev pub IsCoherent : Finding → Type 0
IsCoherent f = (f.state ≡ resolved) ↔ (f.resolution ≢ none)

pub apply-eq-applied :
    (f : Finding) (changes : FindingUpdate) (actor : Uuid) (check : Option (Finding → Bool))
    (l : Logged)
    → apply f changes actor check ≡ applied l
    → (refusal (moving_to f changes) check f ≡ none)
      × (l ≡ perform (moving_to f changes) changes actor f)
unfolding apply unless_refused
apply-eq-applied f changes actor check l e = ground arith

-- The parts after the first leave the state and the resolution alone.
perform-state :
    (target : Option FindingState) (changes : FindingUpdate) (actor : Uuid) (f : Finding)
    → ((perform target changes actor f).finding.state
        ≡ (change_state target actor changes.comment f).finding.state)
      × ((perform target changes actor f).finding.resolution
          ≡ (change_state target actor changes.comment f).finding.resolution)
unfolding perform
perform-state target changes actor f = ground arith

change_state-IsCoherent :
    (t : FindingState) (actor : Uuid) (comment : Option String) (f : Finding)
    → ((change_state (some t) actor comment f).finding.state ≡ t)
      × IsCoherent (change_state (some t) actor comment f).finding
unfolding change_state
change_state-IsCoherent t actor comment f = ground arith

-- Coherence reads two columns only.
pub IsCoherent-inherit :
    (g l : Finding) → l.state ≡ g.state → l.resolution ≡ g.resolution → IsCoherent g → IsCoherent l
IsCoherent-inherit g l p q h = simp (p, q) h

change_state-none :
    (actor : Uuid) (comment : Option String) (f : Finding)
    → (change_state none actor comment f).finding ≡ f
unfolding change_state
change_state-none actor comment f = refl

-- An accepted request leaves the state that it names, or else the state that was there; and a
-- finding has a resolution exactly while it is resolved, if that held before.
pub apply-state :
    (f : Finding) (changes : FindingUpdate) (actor : Uuid) (check : Option (Finding → Bool))
    (l : Logged)
    → IsCoherent f
    → apply f changes actor check ≡ applied l
    → (l.finding.state ≡ or_else changes.state f.state) × IsCoherent l.finding
apply-state f changes actor check l h e =
    let (_, l_eq) = apply-eq-applied f changes actor check l e in
    let (same_state, same_resolution) = perform-state (moving_to f changes) changes actor f in
    let moved = (change_state (moving_to f changes) actor changes.comment f).finding in
    let state_eq' : l.finding.state ≡ moved.state = cc in
    let resolution_eq : l.finding.resolution ≡ moved.resolution = cc in
    elim (moving_to_cases f changes) [
      | inl (still, asked) ↦
          let back : moved ≡ f = simp still (change_state-none actor changes.comment f) in
          (
            elim asked [ inl a ↦ simp a (cc) | inr a ↦ simp a (cc) ],
            IsCoherent-inherit f l.finding (cc) (cc) h,
          )
      | inr (t, asked, other, moves) ↦
          let (now, coherent) = change_state-IsCoherent t actor changes.comment f in
          let there : moved ≡ (change_state (some t) actor changes.comment f).finding =
            simp moves refl in
          (
            simp asked (cc),
            IsCoherent-inherit (change_state (some t) actor changes.comment f).finding l.finding
                (cc) (cc) coherent,
          )
    ]
