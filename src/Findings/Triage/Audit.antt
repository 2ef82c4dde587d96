-- ===== src/Findings/Triage/Audit.antt =====
-- The audit trail of triage, and a request that is sent again.
use iceberg_sst.Prelude.{
  String, Bool, true, false, Option, none, some, List, [], ◌∷◌, ◌++◌, ◌≡◌, refl, inl, inr, arith,
  ◌==◌, Bool-cases, or_else, is_some, ◌∙◌, ap, sym, ◌||◌, nat_eq, string_eq, option_eq,
}
use iceberg_sst.Enums.{FindingState, state_eq}
use iceberg_sst.Models.{Uuid, Finding, FindingEvent}
use iceberg_sst.Findings.Events.{Logged, unlogged, ◌then_do◌}
use iceberg_sst.Findings.Triage.Legal.{IsCoherent, apply-state, apply-eq-applied, moving_to_self}
use iceberg_sst.Findings.Triage.{
  FindingUpdate, applied, moving_to, refusal, perform, apply, change_state, change_assignee,
  unless_refused, change_owner, change_notes,
}

-- A part of the request that writes no event leaves the row alone.
abbrev Silent : Finding → Logged → Type 0
Silent f l = l.events ≡ [] → l.finding ≡ f

change_state-Silent :
    (t : Option FindingState) (actor : Uuid) (comment : Option String) (f : Finding)
    → Silent f (change_state t actor comment f)
unfolding change_state
change_state-Silent none actor comment f e = refl
change_state-Silent (some t) actor comment f e = cc

change_assignee-Silent :
    (t : Option (Option Uuid)) (actor : Uuid) (comment : Option String) (f : Finding)
    → Silent f (change_assignee t actor comment f)
unfolding change_assignee
change_assignee-Silent none actor comment f e = refl
change_assignee-Silent (some t) actor comment f e = elim (Bool-cases (t == f.assignee_id)) [
  | inl same ↦ rw same refl
  | inr other ↦ cc
]

change_owner-Silent :
    (t : Option (Option Uuid)) (actor : Uuid) (comment : Option String) (f : Finding)
    → Silent f (change_owner t actor comment f)
unfolding change_owner
change_owner-Silent none actor comment f e = refl
change_owner-Silent (some t) actor comment f e = ground arith

change_notes-Silent :
    (t : Option (Option String)) (actor : Uuid) (f : Finding) → Silent f (change_notes t actor f)
unfolding change_notes
change_notes-Silent none actor f e = refl
change_notes-Silent (some t) actor f e = elim (Bool-cases (t == f.notes)) [
  | inl same ↦ rw same refl
  | inr other ↦ cc
]

append-eq-nil : (xs ys : List FindingEvent) → xs ++ ys ≡ [] → (xs ≡ []) × (ys ≡ [])
append-eq-nil [] ys e = (refl, e)
append-eq-nil (x ∷ xs) ys e = cc

then_do-Silent :
    (f : Finding) (l : Logged) (op : Finding → Logged)
    → Silent f l
    → ((g : Finding) → Silent g (op g))
    → Silent f (l then_do op)
then_do-Silent f l op first second e =
    let (e₁, e₂) = append-eq-nil l.events (op l.finding).events e in second l.finding e₂ ∙ first e₁

perform-Silent :
    (target : Option FindingState) (changes : FindingUpdate) (actor : Uuid) (f : Finding)
    → Silent f (perform target changes actor f)
unfolding perform
perform-Silent target changes actor f =
    then_do-Silent f _ _
      (then_do-Silent f _ _
        (then_do-Silent f _ _ (change_state-Silent target actor changes.comment f)
          (change_assignee-Silent changes.assignee_id actor changes.comment))
        (change_owner-Silent changes.owner_group_id actor changes.comment))
      (change_notes-Silent changes.notes actor)

-- Each part of the request as one assignment to the row.
module _ (actor : Uuid) (comment : Option String) (f : Finding) where
  change_assignee-finding :
      (t : Option (Option Uuid))
      → (change_assignee t actor comment f).finding
        ≡ record f { assignee_id = or_else t f.assignee_id }
  unfolding change_assignee
  change_assignee-finding none = refl
  change_assignee-finding (some t) = elim (Bool-cases (t == f.assignee_id)) [
    | inl same ↦
        let e = (option_eq.beq_iff t f.assignee_id).0 same in
        rw same (ap (λ a. record f { assignee_id = a }) (sym e))
    | inr other ↦ rw other refl
  ]

  change_owner-finding :
      (t : Option (Option Uuid))
      → (change_owner t actor comment f).finding ≡ record f {
        owner_group_id = or_else t f.owner_group_id;
        owner_pinned = is_some t || f.owner_pinned;
      }
  unfolding change_owner
  change_owner-finding none = refl
  change_owner-finding (some t) = ground arith

  change_notes-finding :
      (t : Option (Option String))
      → (change_notes t actor f).finding ≡ record f { notes = or_else t f.notes }
  unfolding change_notes
  change_notes-finding none = refl
  change_notes-finding (some t) = elim (Bool-cases (t == f.notes)) [
    | inl same ↦
        let e = (option_eq.beq_iff t f.notes).0 same in
        rw same (ap (λ a. record f { notes = a }) (sym e))
    | inr other ↦ rw other refl
  ]

  -- A part that asks for what is there already does nothing.
  change_assignee_again :
      (t : Option (Option Uuid))
      → or_else t f.assignee_id ≡ f.assignee_id
      → change_assignee t actor comment f ≡ unlogged f
  unfolding change_assignee
  change_assignee_again none e = refl
  change_assignee_again (some t) e = rw ((option_eq.beq_iff t f.assignee_id).1 e)

  change_owner_again :
      (t : Option (Option Uuid))
      → or_else t f.owner_group_id ≡ f.owner_group_id
      → is_some t || f.owner_pinned ≡ f.owner_pinned
      → change_owner t actor comment f ≡ unlogged f
  unfolding change_owner
  change_owner_again none e p = refl
  change_owner_again (some t) e p = ground arith

  change_notes_again :
      (t : Option (Option String))
      → or_else t f.notes ≡ f.notes
      → change_notes t actor f ≡ unlogged f
  unfolding change_notes
  change_notes_again none e = refl
  change_notes_again (some t) e = rw ((option_eq.beq_iff t f.notes).1 e)

-- The columns that the last three parts write, after an accepted request.
perform-finding :
    (target : Option FindingState) (changes : FindingUpdate) (actor : Uuid) (f : Finding)
    → (perform target changes actor f).finding
      ≡ record (change_state target actor changes.comment f).finding {
        assignee_id =
            or_else changes.assignee_id
              (change_state target actor changes.comment f).finding.assignee_id;
        owner_group_id =
            or_else changes.owner_group_id
              (change_state target actor changes.comment f).finding.owner_group_id;
        owner_pinned =
            is_some changes.owner_group_id
            || (change_state target actor changes.comment f).finding.owner_pinned;
        notes = or_else changes.notes (change_state target actor changes.comment f).finding.notes;
      }
unfolding perform
perform-finding target changes actor f = simp (
  change_notes-finding actor changes.comment,
  change_owner-finding actor changes.comment,
  change_assignee-finding actor changes.comment,
)

or_else_settled {ℓ} : {A : Type ℓ} (o : Option A) (d x : A) → x ≡ or_else o d → or_else o x ≡ x
or_else_settled none d x e = refl
or_else_settled (some a) d x e = sym e

or_settled : (a b x : Bool) → x ≡ a || b → a || x ≡ x
or_settled true b x e = sym e
or_settled false b x e = refl

-- Asking again for what the columns hold is no change.
perform_again :
    (changes : FindingUpdate) (actor : Uuid) (g : Finding)
    → or_else changes.assignee_id g.assignee_id ≡ g.assignee_id
    → or_else changes.owner_group_id g.owner_group_id ≡ g.owner_group_id
    → is_some changes.owner_group_id || g.owner_pinned ≡ g.owner_pinned
    → or_else changes.notes g.notes ≡ g.notes
    → perform none changes actor g ≡ unlogged g
unfolding perform change_state
perform_again changes actor g a o p n =
    rw (change_assignee_again actor changes.comment g changes.assignee_id a) (
      rw (change_owner_again actor changes.comment g changes.owner_group_id o p)
        (rw (change_notes_again actor changes.comment g changes.notes n) refl))

-- An accepted request that writes no event leaves the finding exactly as it was: nothing changes
-- without a trace.
pub apply_silent :
    (f : Finding) (changes : FindingUpdate) (actor : Uuid) (check : Option (Finding → Bool))
    (l : Logged)
    → apply f changes actor check ≡ applied l
    → l.events ≡ []
    → l.finding ≡ f
apply_silent f changes actor check l e quiet =
    let (_, l_eq) = apply-eq-applied f changes actor check l e in
    rw l_eq (perform-Silent (moving_to f changes) changes actor f (rw l_eq at quiet))

-- A request that was accepted and is sent again is accepted again, changes nothing and writes no
-- event, whatever the evidence policy says by then.
pub apply_again :
    (f : Finding) (changes : FindingUpdate) (actor : Uuid) (check check' : Option (Finding → Bool))
    (l : Logged)
    → IsCoherent f
    → apply f changes actor check ≡ applied l
    → apply l.finding changes actor check' ≡ applied (unlogged l.finding)
unfolding apply
apply_again f changes actor check check' l h e =
    let (_, l_eq) = apply-eq-applied f changes actor check l e in
    let (now, _) = apply-state f changes actor check l h e in
    let columns : l.finding ≡ _ =
      ap (λ (k : Logged). k.finding) l_eq ∙ perform-finding (moving_to f changes) changes actor f in
    let still =
      moving_to_self l.finding changes (sym (or_else_settled changes.state f.state _ now)) in
    rw (still, refusal, unless_refused)
      (ap applied (
        perform_again changes actor l.finding
          (or_else_settled changes.assignee_id _ _ (ap (λ (g : Finding). g.assignee_id) columns))
          (or_else_settled changes.owner_group_id _ _
            (ap (λ (g : Finding). g.owner_group_id) columns))
          (or_settled (is_some changes.owner_group_id) _ _
            (ap (λ (g : Finding). g.owner_pinned) columns))
          (or_else_settled changes.notes _ _ (ap (λ (g : Finding). g.notes) columns))))
