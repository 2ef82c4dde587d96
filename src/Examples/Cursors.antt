-- ===== src/Examples/Cursors.antt =====
-- Watermarks at concrete inputs.
use iceberg_sst.Prelude.{
  ◌≤◌, ◌<◌, true, false, none, some, [], ◌∷◌, ◌≡◌, ◌↔◌, ◌⊎◌, arith, All, Has, count, String,
}
use iceberg_sst.Enums.{ScanTaskStatus, full, incremental, CursorInvalidationReason}
use iceberg_sst.Models.{Uuid, Datetime}
use iceberg_sst.Models.Json.{Json, str, obj, end, field}
use iceberg_sst.Models.Sources.{Source}
use iceberg_sst.Models.Runs.{ScanTask}
use iceberg_sst.Scans.Cursors.{
  Fleet, is_live, plan_mode, Proposal, proposal_of, is_of_scope, commit_proposals,
}
use iceberg_sst.Scans.Cursors.Trusted.{IsTrusted, plan_mode-IsTrusted}
use iceberg_sst.Scans.Cursors.Advanced.{IsMinted, IsProposed, Covers, commit_proposals_advances}
use iceberg_sst.Examples.Samples.{watermark, task, scan}

abbrev wiki : Source
wiki = record { id = 1; tags = []; full_scan_interval_days = 7; updated_at = 10 }

abbrev fleet : Fleet
fleet = record { rulepack_version = some "3"; rotating = false; now = 90 }

plan_mode-IsTrusted_example :
    let plan = plan_mode wiki incremental fleet (watermark ∷ []) in
    (plan.mode ≡ incremental ↔ (
      (incremental ≡ incremental)
      × (0 < count (is_live 1) (watermark ∷ []))
      × All (λ c. is_live 1 c ≡ true → IsTrusted wiki fleet c) (watermark ∷ [])))
    × (plan.mode ≡ incremental
        → (plan.cursors ≡ watermark ∷ [])
          × (plan.reason ≡ none)
          × ((b : Datetime) × (plan.baseline ≡ some b)
              × All (λ c. is_live 1 c ≡ true → b ≤ c.minted_at) (watermark ∷ [])))
    × (incremental ≡ incremental
        → plan.mode ≡ full
        → ((r : CursorInvalidationReason) × (plan.reason ≡ some r))
          × (count (is_live 1) plan.cursors ≡ 0))
plan_mode-IsTrusted_example = plan_mode-IsTrusted wiki incremental fleet (watermark ∷ [])

abbrev print : Json → String
print j = "?"

abbrev proposing : ScanTask
proposing = record task {
  status = ScanTaskStatus.completed;
  cursor_proposal =
      field "scope" (str "OPS")
        (field "version" (str "1") (field "position" (obj (field "since" (str "x") end)) end));
}

one_scope : (s : Uuid) (k : String) → count (is_of_scope s k) (watermark ∷ []) ≤ 1
one_scope s k = ground arith

commit_proposals_advances_example :
    ((s : Uuid) (k : String)
      → count (is_of_scope s k) (commit_proposals print scan (proposing ∷ []) 90 (watermark ∷ []))
        ≤ 1)
    × All
        (λ c. Has c (watermark ∷ []) ⊎ (IsMinted scan 90 c × IsProposed print (proposing ∷ []) c))
        (commit_proposals print scan (proposing ∷ []) 90 (watermark ∷ []))
    × ((t : ScanTask) (p : Proposal)
        → Has t (proposing ∷ [])
        → proposal_of print t ≡ some p
        → Covers
            (IsProposed print (proposing ∷ []))
            scan
            90
            p.scope
            (commit_proposals print scan (proposing ∷ []) 90 (watermark ∷ [])))
commit_proposals_advances_example =
    commit_proposals_advances print scan (proposing ∷ []) 90 (watermark ∷ []) one_scope
