-- ===== src/Scans/Cursors/Advanced.antt =====
-- apps/api/src/iceberg_api/scans/cursors.py: `commit_proposals`.
use iceberg_sst.Prelude.{
  ◌≤◌, Bool, true, false, not, ◌||◌, Option, none, some, List, [], ◌∷◌, ◌++◌, ◌≡◌, refl, ◌⊎◌, inl,
  inr, arith, String, ◌==◌, nat_eq, string_eq, if◌then◌else◌, count, count-append, All, All-append,
  All-from, Has, Has-append_left, Has-append_right, Bool-cases, sym, ◌∙◌, ap, subst,
}
use iceberg_sst.Prelude.Counting.{count_or_Has, count-Has_pos}
use iceberg_sst.Prelude.Rows.{update_where, update_where-All, Has-update_where, count-update_where}
use iceberg_sst.Enums.{ScanTaskStatus, task_status_eq}
use iceberg_sst.Models.{Uuid, Datetime}
use iceberg_sst.Models.Json.{Json, get_field, end, field, merge_fields}
use iceberg_sst.Models.Sources.{SourceCursor}
use iceberg_sst.Models.Runs.{Scan, ScanTask}
use iceberg_sst.Scans.Cursors.{
  text_at, Proposal, proposal_of, is_of_scope, advanced, blank, store, commit_proposals,
}

same_scope :
    (s : Uuid) (k : String) (c : SourceCursor)
    → is_of_scope s k c ≡ true
    → (c.source_id ≡ s) × (c.scope ≡ k)
same_scope s k c e = ground (arith, nat_eq.beq_iff c.source_id s, string_eq.beq_iff c.scope k)

is_of_own_scope :
    (s : Uuid) (k : String) (c : SourceCursor)
    → c.source_id ≡ s
    → c.scope ≡ k
    → is_of_scope s k c ≡ true
is_of_own_scope s k c e f =
    ground (arith, nat_eq.beq_iff c.source_id s, string_eq.beq_iff c.scope k)

-- One proposal.
module _ (scan : Scan) (at : Datetime) (p : Proposal) where
  store-All :
      (P : SourceCursor → Type 0) (rows : List SourceCursor)
      → ((c : SourceCursor)
          → is_of_scope scan.source_id p.scope c ≡ true
          → P (advanced scan at p c))
      → All P rows
      → All P (store scan at p rows)
  unfolding store
  store-All P rows h all_rows =
      elim (Bool-cases (count (is_of_scope scan.source_id p.scope) rows == 0)) [
        | inl absent ↦ rw absent (
            All-append P rows (advanced scan at p (blank scan at p.scope) ∷ []) all_rows (
              h (blank scan at p.scope)
                  (is_of_own_scope scan.source_id p.scope (blank scan at p.scope) refl refl),
              tt,
            ))
        | inr present ↦ rw present (
            update_where-All P (is_of_scope scan.source_id p.scope) (advanced scan at p) rows
              (λ c e q. h c e) all_rows)
      ]

  store_unique :
      (rows : List SourceCursor)
      → ((s : Uuid) (k : String) → count (is_of_scope s k) rows ≤ 1)
      → (s : Uuid) (k : String) → count (is_of_scope s k) (store scan at p rows) ≤ 1
  unfolding store
  store_unique rows h s k =
      elim (Bool-cases (count (is_of_scope scan.source_id p.scope) rows == 0)) [
        | inl absent ↦ rw absent (appended absent)
        | inr present ↦ rw present (
            omega (
              arith,
              h s k,
              count-update_where (is_of_scope s k) (is_of_scope scan.source_id p.scope)
                  (advanced scan at p) rows (λ c e. refl),
            ))
      ]
    where
      fresh : SourceCursor
      fresh = advanced scan at p (blank scan at p.scope)

      appended :
          (count (is_of_scope scan.source_id p.scope) rows == 0) ≡ true
          → count (is_of_scope s k) (rows ++ fresh ∷ []) ≤ 1
      appended absent =
          let total = count-append (is_of_scope s k) rows (fresh ∷ []) in
          elim (Bool-cases (is_of_scope s k fresh)) [
            | inl hit ↦
                let (same_s, same_k) = same_scope s k fresh hit in
                let free : count (is_of_scope s k) rows ≡ 0 =
                  subst (λ x. count (is_of_scope x k) rows ≡ 0) same_s
                    (subst (λ y. count (is_of_scope scan.source_id y) rows ≡ 0) same_k
                      ((nat_eq.beq_iff (count (is_of_scope scan.source_id p.scope) rows) 0).0
                        absent)) in
                ground arith
            | inr missed ↦ ground (arith, h s k)
          ]

-- A watermark that this scan minted.
pub record IsMinted (scan : Scan) (at : Datetime) (c : SourceCursor) : Type 0 where
  pub source : c.source_id ≡ scan.source_id
  pub live : c.invalidated_at ≡ none
  pub by_scan : c.minted_by_scan_id ≡ scan.id
  pub now : c.minted_at ≡ at
  pub rules : c.rulepack_version ≡ scan.rulepack_version
  pub configuration : c.source_configuration_version ≡ scan.source_configuration_version

advanced-IsMinted :
    (scan : Scan) (at : Datetime) (p : Proposal) (c : SourceCursor)
    → c.source_id ≡ scan.source_id
    → IsMinted scan at (advanced scan at p c)
advanced-IsMinted scan at p c e = record {
  source = e;
  live = refl;
  by_scan = refl;
  now = refl;
  rules = refl;
  configuration = refl;
}

-- A watermark of a scope that this scan minted is there, with the property `Q`.
abbrev pub Covers : (SourceCursor → Type 0) → Scan → Datetime → String → List SourceCursor → Type 0
Covers Q scan at scope rows =
    (c : SourceCursor) × Has c rows × (c.scope ≡ scope) × IsMinted scan at c × Q c

-- The proposal gives `Q` to every row of its scope that it moves.
abbrev Gives : (SourceCursor → Type 0) → Scan → Datetime → Proposal → Type 0
Gives Q scan at p =
    (c : SourceCursor) → is_of_scope scan.source_id p.scope c ≡ true → Q (advanced scan at p c)

store-Covers :
    (Q : SourceCursor → Type 0) (scan : Scan) (at : Datetime) (p : Proposal)
    (rows : List SourceCursor)
    → Gives Q scan at p
    → Covers Q scan at p.scope (store scan at p rows)
unfolding store
store-Covers Q scan at p rows gives =
    elim (count_or_Has (is_of_scope scan.source_id p.scope) rows) [
      | inl absent ↦
          let zero_test : (count (is_of_scope scan.source_id p.scope) rows == 0) ≡ true =
            (nat_eq.beq_iff (count (is_of_scope scan.source_id p.scope) rows) 0).1 absent in
          let fresh = advanced scan at p (blank scan at p.scope) in
          rw zero_test (
            fresh,
            Has-append_right fresh rows (fresh ∷ []) (inl refl),
            refl,
            advanced-IsMinted scan at p (blank scan at p.scope) refl,
            gives (blank scan at p.scope)
                (is_of_own_scope scan.source_id p.scope (blank scan at p.scope) refl refl),
          )
      | inr (c, has, hit) ↦
          let (of_source, of_scope) = same_scope scan.source_id p.scope c hit in
          let written : Has (advanced scan at p c)
              (update_where (is_of_scope scan.source_id p.scope) (advanced scan at p) rows) =
            rw hit at (
              Has-update_where (is_of_scope scan.source_id p.scope) (advanced scan at p) c rows
                has) in
          let mine : Covers Q scan at p.scope
              (update_where (is_of_scope scan.source_id p.scope) (advanced scan at p) rows) =
            (
              advanced scan at p c,
              written,
              of_scope,
              advanced-IsMinted scan at p c of_source,
              gives c hit,
            ) in
          let some_row : (count (is_of_scope scan.source_id p.scope) rows == 0) ≡ false =
            present c has hit in
          rw some_row mine
    ]
  where
    present :
        (c : SourceCursor)
        → Has c rows
        → is_of_scope scan.source_id p.scope c ≡ true
        → (count (is_of_scope scan.source_id p.scope) rows == 0) ≡ false
    present c has hit =
        ground (arith, count-Has_pos (is_of_scope scan.source_id p.scope) rows c has hit)

Covers-store :
    (Q : SourceCursor → Type 0) (scan : Scan) (at : Datetime) (p : Proposal) (scope : String)
    (rows : List SourceCursor)
    → Gives Q scan at p
    → Covers Q scan at scope rows
    → Covers Q scan at scope (store scan at p rows)
unfolding store
Covers-store Q scan at p scope rows gives (c, has, of_scope, minted, q) =
    elim (Bool-cases (count (is_of_scope scan.source_id p.scope) rows == 0)) [
      | inl absent ↦ rw absent (
        c,
        Has-append_left c rows (advanced scan at p (blank scan at p.scope) ∷ []) has,
        of_scope,
        minted,
        q,
      )
      | inr present ↦ rw present (kept (is_of_scope scan.source_id p.scope c) refl)
    ]
  where
    kept :
        (b : Bool)
        → is_of_scope scan.source_id p.scope c ≡ b
        → Covers Q scan at scope
            (update_where (is_of_scope scan.source_id p.scope) (advanced scan at p) rows)
    kept true e = (
      advanced scan at p c,
      (rw e at
          (Has-update_where (is_of_scope scan.source_id p.scope) (advanced scan at p) c rows has)),
      of_scope,
      advanced-IsMinted scan at p c minted.source,
      gives c e,
    )
    kept false e = (
      c,
      (rw e at
          (Has-update_where (is_of_scope scan.source_id p.scope) (advanced scan at p) c rows has)),
      of_scope,
      minted,
      q,
    )

-- All the tasks.
module _ (print : Json → String) (scan : Scan) (at : Datetime) where
  abbrev after_task : ScanTask → List SourceCursor → List SourceCursor
  after_task task rows = elim (proposal_of print task) [
    | none ↦ rows
    | some p ↦ store scan at p rows
  ]

  -- Every proposal of the tasks gives `Q`.
  abbrev AllGive : (SourceCursor → Type 0) → List ScanTask → Type 0
  AllGive Q tasks =
      (task : ScanTask) (p : Proposal)
      → Has task tasks
      → proposal_of print task ≡ some p
      → Gives Q scan at p

  commit_proposals-Covers :
      (Q : SourceCursor → Type 0) (tasks : List ScanTask) (scope : String)
      (rows : List SourceCursor)
      → AllGive Q tasks
      → Covers Q scan at scope rows
      → Covers Q scan at scope (commit_proposals print scan tasks at rows)
  unfolding commit_proposals
  commit_proposals-Covers Q [] scope rows give h = h
  commit_proposals-Covers Q (task ∷ tasks) scope rows give h =
      commit_proposals-Covers Q tasks scope (after_task task rows) (λ t p m. give t p (inr m))
        (step (proposal_of print task) refl)
    where
      step :
          (o : Option Proposal)
          → proposal_of print task ≡ o
          → Covers Q scan at scope (elim o [ none ↦ rows | some p ↦ store scan at p rows ])
      step none e = h
      step (some p) e = Covers-store Q scan at p scope rows (give task p (inl refl) e) h

  committed :
      (Q : SourceCursor → Type 0) (tasks : List ScanTask) (task : ScanTask) (p : Proposal)
      (rows : List SourceCursor)
      → AllGive Q tasks
      → Has task tasks
      → proposal_of print task ≡ some p
      → Covers Q scan at p.scope (commit_proposals print scan tasks at rows)
  unfolding commit_proposals
  committed Q [] task p rows give m e = absurd m
  committed Q (t ∷ tasks) task p rows give (inl same) e =
      let made : proposal_of print t ≡ some p = ap (proposal_of print) same ∙ e in
      commit_proposals-Covers Q tasks p.scope (after_task t rows) (λ u q m. give u q (inr m))
        (subst
          (λ o. Covers Q scan at p.scope (elim o [ none ↦ rows | some q ↦ store scan at q rows ]))
          (sym made) (store-Covers Q scan at p rows (give t p (inl refl) made)))
  committed Q (t ∷ tasks) task p rows give (inr later) e =
      committed Q tasks task p (after_task t rows) (λ u q m. give u q (inr m)) later e

  commit_proposals-All :
      (P : SourceCursor → Type 0) (tasks : List ScanTask) (rows : List SourceCursor)
      → ((task : ScanTask) (p : Proposal) (c : SourceCursor)
          → Has task tasks
          → proposal_of print task ≡ some p
          → is_of_scope scan.source_id p.scope c ≡ true
          → P (advanced scan at p c))
      → All P rows
      → All P (commit_proposals print scan tasks at rows)
  unfolding commit_proposals
  commit_proposals-All P [] rows h all_rows = all_rows
  commit_proposals-All P (task ∷ tasks) rows h all_rows =
      commit_proposals-All P tasks (after_task task rows) (λ t p c m. h t p c (inr m))
        (step (proposal_of print task) refl)
    where
      step :
          (o : Option Proposal)
          → proposal_of print task ≡ o
          → All P (elim o [ none ↦ rows | some p ↦ store scan at p rows ])
      step none e = all_rows
      step (some p) e = store-All scan at p P rows (λ c. h task p c (inl refl) e) all_rows

  commit_proposals_unique :
      (tasks : List ScanTask) (rows : List SourceCursor)
      → ((s : Uuid) (k : String) → count (is_of_scope s k) rows ≤ 1)
      → (s : Uuid) (k : String)
      → count (is_of_scope s k) (commit_proposals print scan tasks at rows) ≤ 1
  unfolding commit_proposals
  commit_proposals_unique [] rows h = h
  commit_proposals_unique (task ∷ tasks) rows h =
      commit_proposals_unique tasks (after_task task rows) (step (proposal_of print task))
    where
      step :
          (o : Option Proposal) (s : Uuid) (k : String)
          → count (is_of_scope s k) (elim o [ none ↦ rows | some p ↦ store scan at p rows ]) ≤ 1
      step none = h
      step (some p) = store_unique scan at p rows h

  made_only_if :
      (b : Bool) (scope version : String) (o : Option Json) (p : Proposal)
      → (if b then none else elim o [
        | some (Json.obj q) ↦ some (record { scope = scope; version = version; position = q })
        | _ ↦ none
      ])
        ≡ some p
      → (b ≡ false) × (scope ≡ p.scope)
  made_only_if true scope version o p e = cc
  made_only_if false scope version none p e = cc
  made_only_if false scope version (some (Json.obj q)) p e =
      let same : ◌≡◌ {A = Proposal} (record { scope = scope; version = version; position = q }) p =
        cc in
      (refl, ap (λ x. x.scope) same)
  made_only_if false scope version (some Json.null) p e = cc
  made_only_if false scope version (some (Json.bool b)) p e = cc
  made_only_if false scope version (some (Json.num n)) p e = cc
  made_only_if false scope version (some (Json.str s)) p e = cc
  made_only_if false scope version (some (Json.arr js)) p e = cc

  proposed :
      (task : ScanTask) (p : Proposal)
      → proposal_of print task ≡ some p
      → (task.status ≡ ScanTaskStatus.completed)
        × (text_at print "scope" task.cursor_proposal ≡ p.scope)
  unfolding proposal_of
  proposed task p e =
      let scope = text_at print "scope" task.cursor_proposal in
      let version = text_at print "version" task.cursor_proposal in
      let (kept, of_scope) =
        made_only_if (not (task.status == ScanTaskStatus.completed) || scope == "" || version == "")
          scope version (get_field "position" task.cursor_proposal) p e in
      (ground (arith, task_status_eq.beq_iff task.status ScanTaskStatus.completed, kept), of_scope)

-- A completed task of the scan proposed to move the scope of a watermark to the position that it has.
pub record IsProposed (print : Json → String) (tasks : List ScanTask) (c : SourceCursor)
    : Type 0 where
  pub task : ScanTask
  pub proposal : Proposal
  pub of_scan : Has task tasks
  pub completed : task.status ≡ ScanTaskStatus.completed
  pub named : text_at print "scope" task.cursor_proposal ≡ c.scope
  pub made : proposal_of print task ≡ some proposal
  pub position :
      c.position ≡ merge_fields proposal.position (field "version" (Json.str proposal.version) end)

-- When a scan's proposals are committed, the scopes of each source stay distinct. A row is one that was
-- there, or a live one that this scan minted now, under its own rules and configuration, for a scope
-- that a completed task of it proposed, at the position and version of that proposal. Every
-- well-formed proposal of a completed task has such a row for its scope.
pub commit_proposals_advances :
    (print : Json → String) (scan : Scan) (tasks : List ScanTask) (at : Datetime)
    (rows : List SourceCursor)
    → ((s : Uuid) (k : String) → count (is_of_scope s k) rows ≤ 1)
    → ((s : Uuid) (k : String)
        → count (is_of_scope s k) (commit_proposals print scan tasks at rows) ≤ 1)
      × All
          (λ c. Has c rows ⊎ (IsMinted scan at c × IsProposed print tasks c))
          (commit_proposals print scan tasks at rows)
      × ((task : ScanTask) (p : Proposal)
          → Has task tasks
          → proposal_of print task ≡ some p
          → Covers
              (IsProposed print tasks)
              scan
              at
              p.scope
              (commit_proposals print scan tasks at rows))
commit_proposals_advances print scan tasks at rows h = (
  commit_proposals_unique print scan at tasks rows h,
  commit_proposals-All print scan at
      (λ c. Has c rows ⊎ (IsMinted scan at c × IsProposed print tasks c)) tasks rows
      (λ task p c m e hit. inr (
        advanced-IsMinted scan at p c (same_scope scan.source_id p.scope c hit).0,
        written task p m e c hit,
      ))
      (All-from (λ c. Has c rows ⊎ (IsMinted scan at c × IsProposed print tasks c)) rows
        (λ c m. inl m)),
  λ task p m e. committed print scan at (IsProposed print tasks) tasks task p rows written m e,
)
  where
    written : AllGive print scan at (IsProposed print tasks) tasks
    written task p m e c hit =
        let (completed, named) = proposed print scan at task p e in
        record {
          task = task;
          proposal = p;
          of_scan = m;
          completed = completed;
          named = named ∙ sym (same_scope scan.source_id p.scope c hit).1;
          made = e;
          position = refl;
        }
