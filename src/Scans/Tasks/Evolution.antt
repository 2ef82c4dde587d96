-- ===== src/Scans/Tasks/Evolution.antt =====
-- What one conditional UPDATE may make of the row of a task, and of the table.
use iceberg_sst.Prelude.{
  ℕ, ◌+◌, ◌≤◌, Bool, true, false, some, List, [], ◌∷◌, String, ◌≡◌, refl, ◌≢◌, ◌⊎◌, inl, inr, arith,
  nat_eq, option_eq, if◌then◌else◌, count, Bool-cases, All, All-map, sym, ◌∙◌, subst,
}
use iceberg_sst.Prelude.Rows.{update_where}
use iceberg_sst.Enums.{ScanTaskStatus, scan_status_eq, task_status_eq}
use iceberg_sst.Models.{Uuid, Datetime}
use iceberg_sst.Models.Json.{Fields, end}
use iceberg_sst.Models.Runs.{ScanTask}
use iceberg_sst.Scans.Tasks.{
  is_terminal, is_claimable, claimed, is_renewable, is_accepting, is_next, is_expired, requeued,
}

-- What any number of transactions may make of a task: its work is the same, a terminal task stays
-- as it is, an accepted result key is never replaced, neither counter ever runs back, and a task comes
-- to be completed only with a result key.
pub record Evolves (t u : ScanTask) : Type 0 where
  pub id : u.id ≡ t.id
  pub scan_id : u.scan_id ≡ t.scan_id
  pub kind : u.kind ≡ t.kind
  pub spec : u.spec ≡ t.spec
  pub terminal : is_terminal t.status ≡ true → u.status ≡ t.status
  pub finished_at : is_terminal t.status ≡ true → u.finished_at ≡ t.finished_at
  pub coverage : is_terminal t.status ≡ true → u.coverage ≡ t.coverage
  pub result_key : (k : String) → t.result_key ≡ some k → u.result_key ≡ some k
  pub completed :
      u.status ≡ ScanTaskStatus.completed
      → (t.status ≡ ScanTaskStatus.completed) ⊎ (k : String) × (u.result_key ≡ some k)
  pub batches : t.checkpoint_sequence ≤ u.checkpoint_sequence
  pub attempts : t.attempts ≤ u.attempts

-- The same, row by row over a table.
abbrev pub AllEvolve : List ScanTask → List ScanTask → Type 0
AllEvolve [] [] = Unit
AllEvolve [] (u ∷ us) = ⊥
AllEvolve (t ∷ ts) [] = ⊥
AllEvolve (t ∷ ts) (u ∷ us) = Evolves t u × AllEvolve ts us

pub Evolves-refl : (t : ScanTask) → Evolves t t
Evolves-refl t = ground arith

completed_trans :
    {t u v : ScanTask}
    → Evolves t u
    → Evolves u v
    → v.status ≡ ScanTaskStatus.completed
    → (t.status ≡ ScanTaskStatus.completed) ⊎ (k : String) × (v.result_key ≡ some k)
completed_trans {v} a b e = elim (b.completed e) [
  | inr keyed ↦ inr keyed
  | inl before ↦ elim (a.completed before) [
    | inl first ↦ inl first
    | inr (k, keyed) ↦ inr (k, b.result_key k keyed)
  ]
]

pub Evolves-trans : {t u v : ScanTask} → Evolves t u → Evolves u v → Evolves t v
Evolves-trans a b = record {
  id = b.id ∙ a.id;
  scan_id = b.scan_id ∙ a.scan_id;
  kind = b.kind ∙ a.kind;
  spec = b.spec ∙ a.spec;
  terminal = ground (arith, a.terminal, b.terminal);
  finished_at = ground (arith, a.terminal, a.finished_at, b.finished_at);
  coverage = ground (arith, a.terminal, a.coverage, b.coverage);
  result_key = λ k e. b.result_key k (a.result_key k e);
  completed = completed_trans a b;
  batches = omega (arith, a.batches, b.batches);
  attempts = omega (arith, a.attempts, b.attempts);
}

pub AllEvolve-refl : (ts : List ScanTask) → AllEvolve ts ts
AllEvolve-refl [] = tt
AllEvolve-refl (t ∷ ts) = (Evolves-refl t, AllEvolve-refl ts)

pub AllEvolve-trans :
    (ts us vs : List ScanTask) → AllEvolve ts us → AllEvolve us vs → AllEvolve ts vs
AllEvolve-trans [] [] [] a b = tt
AllEvolve-trans [] [] (v ∷ vs) a b = absurd b
AllEvolve-trans [] (u ∷ us) vs a b = absurd a
AllEvolve-trans (t ∷ ts) [] vs a b = absurd a
AllEvolve-trans (t ∷ ts) (u ∷ us) [] a b = absurd b
AllEvolve-trans (t ∷ ts) (u ∷ us) (v ∷ vs) a b =
    (Evolves-trans a.0 b.0, AllEvolve-trans ts us vs a.1 b.1)

pub update_where-AllEvolve :
    (p : ScanTask → Bool) (f : ScanTask → ScanTask) (ts : List ScanTask)
    → ((t : ScanTask) → p t ≡ true → Evolves t (f t))
    → AllEvolve ts (update_where p f ts)
unfolding update_where
update_where-AllEvolve p f [] h = tt
update_where-AllEvolve p f (t ∷ ts) h = (at (p t) refl, update_where-AllEvolve p f ts h)
  where
    at : (b : Bool) → p t ≡ b → Evolves t (if b then f t else t)
    at true e = h t e
    at false e = Evolves-refl t

pub claimed-Evolves :
    (at : Datetime) (n : ℕ) (task_id engine_id : Uuid) (t : ScanTask)
    → is_claimable task_id t ≡ true
    → Evolves t (claimed at n engine_id t)
claimed-Evolves at n task_id engine_id t e =
    ground (arith, task_status_eq.beq_iff t.status ScanTaskStatus.queued)

pub requeued-Evolves :
    (at : Datetime) (t : ScanTask) → is_expired at t ≡ true → Evolves t (requeued at t)
requeued-Evolves at t e = ground arith

pub renewed-Evolves :
    (at expires : Datetime) (task t : ScanTask)
    → is_renewable task t ≡ true
    → Evolves t (record t {
      heartbeat_at = some at;
      lease_expires_at = some expires;
      status = ScanTaskStatus.running;
    })
renewed-Evolves at expires task t e = ground arith

pub advanced-Evolves :
    (task : ScanTask) (sequence : ℕ) (checkpoint context : Fields) (t : ScanTask)
    → is_next task sequence t ≡ true
    → Evolves t (record t {
      checkpoint = checkpoint;
      checkpoint_sequence = sequence;
      checkpoint_context = context;
    })
advanced-Evolves task sequence checkpoint context t e =
    ground (arith, nat_eq.beq_iff (t.checkpoint_sequence + 1) sequence)

pub keyed-Evolves :
    (task : ScanTask) (key : String) (t : ScanTask)
    → is_accepting task t ≡ true
    → Evolves t (record t { result_key = some key })
keyed-Evolves task key t e = ground arith

pub discarded-Evolves :
    (t : ScanTask) → Evolves t (record t { checkpoint = end; checkpoint_context = end })
discarded-Evolves t = ground arith

-- A task of the table is identified by its `id` (the primary key).
abbrev pub AreDistinct : List ScanTask → Type 0
AreDistinct [] = Unit
AreDistinct (t ∷ ts) = All (λ u. u.id ≢ t.id) ts × AreDistinct ts

-- No row meets a predicate that asks for an identifier which no row has.
pub count-absent :
    (p : ScanTask → Bool) (id : Uuid) (ts : List ScanTask)
    → ((t : ScanTask) → p t ≡ true → t.id ≡ id)
    → All (λ u. u.id ≢ id) ts
    → count p ts ≡ 0
count-absent p id [] h a = refl
count-absent p id (t ∷ ts) h a = elim (Bool-cases (p t)) [
  | inl met ↦ absurd (a.0 (h t met))
  | inr unmet ↦ ground (arith, count-absent p id ts h a.1)
]

-- The one row written is the row of that identifier.
pub count-only :
    (p : ScanTask → Bool) (id : Uuid) (ts : List ScanTask)
    → ((t : ScanTask) → p t ≡ true → t.id ≡ id)
    → AreDistinct ts
    → count p ts ≡ 1
    → All (λ t. t.id ≡ id → p t ≡ true) ts
count-only p id [] h d e = tt
count-only p id (t ∷ ts) h d e = elim (Bool-cases (p t)) [
  | inl met ↦ (
    λ _. met,
    All-map (λ u. u.id ≢ t.id) (λ u. u.id ≡ id → p u ≡ true) ts
        (λ u ne same. absurd (ne (same ∙ sym (h t met)))) d.0,
  )
  | inr unmet ↦ (
    λ same. ground (arith, count-absent p id ts h (subst (λ i. All (λ u. u.id ≢ i) ts) same d.0)),
    count-only p id ts h d.1 (ground arith),
  )
]
