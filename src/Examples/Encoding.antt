-- ===== src/Examples/Encoding.antt =====
-- A JSON form of a coverage report, for the examples: each member by its place, an enumeration by the
-- place of its member.
use iceberg_sst.Prelude.{
  ℕ, ◌-◌, Bool, true, false, Option, none, some, List, [], ◌∷◌, ◌≡◌, ◌≢◌, refl, ◌==◌, nat_eq,
  if◌then◌else◌,
}
use iceberg_sst.Enums.{
  ScanTaskKind, discovery, fetch, CoverageReason, CoverageDisposition, CoverageObjectKind, scope,
  page, comment, attachment, project, record_kind, path,
}
use iceberg_sst.Models.Json.{Json, num, null, bool, str, arr, Items, nil, cons, Fields, end, field}
use iceberg_sst.Models.Coverage.{
  CoverageCounts, CoverageScope, CoverageReasonCount, CoverageGap, TaskCoverageReport,
}
use iceberg_sst.Scans.Coverage.{ReportJson}

abbrev nth : {A : Type 0} → ℕ → List A → Option A
nth n [] = none
nth n (x ∷ xs) = if n == 0 then some x else nth (n - 1) xs

abbrev dispositions : List CoverageDisposition
dispositions =
    CoverageDisposition.skipped ∷ CoverageDisposition.failed ∷ CoverageDisposition.scope_gap ∷ []

abbrev disposition_place : CoverageDisposition → ℕ
disposition_place CoverageDisposition.skipped = 0
disposition_place CoverageDisposition.failed = 1
disposition_place CoverageDisposition.scope_gap = 2

nth-disposition_place : (o : CoverageDisposition) → nth (disposition_place o) dispositions ≡ some o
nth-disposition_place CoverageDisposition.skipped = refl
nth-disposition_place CoverageDisposition.failed = refl
nth-disposition_place CoverageDisposition.scope_gap = refl

abbrev reasons : List CoverageReason
reasons =
    CoverageReason.permission_denied ∷ CoverageReason.rate_limited ∷ CoverageReason.size_limit
    ∷ CoverageReason.output_limit ∷ CoverageReason.unsupported_type ∷ CoverageReason.connector_error
    ∷ CoverageReason.missing_resource ∷ CoverageReason.invalid_metadata
    ∷ CoverageReason.invalid_response ∷ CoverageReason.parse_error ∷ CoverageReason.timeout
    ∷ CoverageReason.empty_content ∷ CoverageReason.binary_content ∷ CoverageReason.cancelled
    ∷ CoverageReason.unreported ∷ []

abbrev reason_place : CoverageReason → ℕ
reason_place CoverageReason.permission_denied = 0
reason_place CoverageReason.rate_limited = 1
reason_place CoverageReason.size_limit = 2
reason_place CoverageReason.output_limit = 3
reason_place CoverageReason.unsupported_type = 4
reason_place CoverageReason.connector_error = 5
reason_place CoverageReason.missing_resource = 6
reason_place CoverageReason.invalid_metadata = 7
reason_place CoverageReason.invalid_response = 8
reason_place CoverageReason.parse_error = 9
reason_place CoverageReason.timeout = 10
reason_place CoverageReason.empty_content = 11
reason_place CoverageReason.binary_content = 12
reason_place CoverageReason.cancelled = 13
reason_place CoverageReason.unreported = 14

nth-reason_place : (x : CoverageReason) → nth (reason_place x) reasons ≡ some x
nth-reason_place CoverageReason.permission_denied = refl
nth-reason_place CoverageReason.rate_limited = refl
nth-reason_place CoverageReason.size_limit = refl
nth-reason_place CoverageReason.output_limit = refl
nth-reason_place CoverageReason.unsupported_type = refl
nth-reason_place CoverageReason.connector_error = refl
nth-reason_place CoverageReason.missing_resource = refl
nth-reason_place CoverageReason.invalid_metadata = refl
nth-reason_place CoverageReason.invalid_response = refl
nth-reason_place CoverageReason.parse_error = refl
nth-reason_place CoverageReason.timeout = refl
nth-reason_place CoverageReason.empty_content = refl
nth-reason_place CoverageReason.binary_content = refl
nth-reason_place CoverageReason.cancelled = refl
nth-reason_place CoverageReason.unreported = refl

abbrev kinds : List CoverageObjectKind
kinds = scope ∷ page ∷ comment ∷ attachment ∷ project ∷ record_kind ∷ path ∷ []

abbrev kind_place : CoverageObjectKind → ℕ
kind_place scope = 0
kind_place page = 1
kind_place comment = 2
kind_place attachment = 3
kind_place project = 4
kind_place record_kind = 5
kind_place path = 6

nth-kind_place : (x : CoverageObjectKind) → nth (kind_place x) kinds ≡ some x
nth-kind_place scope = refl
nth-kind_place page = refl
nth-kind_place comment = refl
nth-kind_place attachment = refl
nth-kind_place project = refl
nth-kind_place record_kind = refl
nth-kind_place path = refl

abbrev put_list : {A : Type 0} → (A → Json) → List A → Items
put_list f [] = nil
put_list f (x ∷ xs) = cons (f x) (put_list f xs)

abbrev both_of : {A : Type 0} → Option A → Option (List A) → Option (List A)
both_of (some x) (some xs) = some (x ∷ xs)
both_of _ _ = none

abbrev get_list : {A : Type 0} → (Json → Option A) → Items → Option (List A)
get_list g nil = some []
get_list g (cons j js) = both_of (g j) (get_list g js)

get_list-put_list :
    {A : Type 0} (f : A → Json) (g : Json → Option A)
    → ((x : A) → g (f x) ≡ some x)
    → (xs : List A) → get_list g (put_list f xs) ≡ some xs
get_list-put_list f g h [] = refl
get_list-put_list f g h (x ∷ xs) = rw (h x) (rw (get_list-put_list f g h xs) refl)

abbrev put_entry : CoverageReasonCount → Json
put_entry e = arr (
    cons (num (disposition_place e.outcome))
      (cons (num (reason_place e.reason)) (cons (num e.count) nil)))

abbrev make_entry :
    Option CoverageDisposition → Option CoverageReason → ℕ → Option CoverageReasonCount
make_entry (some o) (some s) n = some (record { outcome = o; reason = s; count = n })
make_entry _ _ n = none

abbrev get_entry : Json → Option CoverageReasonCount
get_entry (arr (cons (num o) (cons (num s) (cons (num n) nil)))) =
    make_entry (nth o dispositions) (nth s reasons) n
get_entry _ = none

get_entry-put_entry : (e : CoverageReasonCount) → get_entry (put_entry e) ≡ some e
get_entry-put_entry e = rw (nth-disposition_place e.outcome) (rw (nth-reason_place e.reason) refl)

abbrev put_gap : CoverageGap → Json
put_gap g = arr (
    cons (num (kind_place g.kind)) (
      cons (num (disposition_place g.outcome))
        (cons (num (reason_place g.reason)) (cons (str g.reference) nil))))

abbrev make_gap :
    Option CoverageObjectKind
    → Option CoverageDisposition
    → Option CoverageReason
    → Json
    → Option CoverageGap
make_gap (some k) (some o) (some s) (str t) =
    some (record { kind = k; outcome = o; reason = s; reference = t })
make_gap _ _ _ _ = none

abbrev get_gap : Json → Option CoverageGap
get_gap (arr (cons (num k) (cons (num o) (cons (num s) (cons t nil))))) =
    make_gap (nth k kinds) (nth o dispositions) (nth s reasons) t
get_gap _ = none

get_gap-put_gap : (g : CoverageGap) → get_gap (put_gap g) ≡ some g
get_gap-put_gap g =
    rw (nth-kind_place g.kind)
      (rw (nth-disposition_place g.outcome) (rw (nth-reason_place g.reason) refl))

abbrev is_fetch : ScanTaskKind → Bool
is_fetch fetch = true
is_fetch discovery = false

abbrev put_known : Option ℕ → Json
put_known none = null
put_known (some n) = num n

abbrev pub put_report : TaskCoverageReport → Fields
put_report r = field "phase" (bool (is_fetch r.phase)) (
    field "counts" (num r.counts.requested) (
      field "discovered" (num r.counts.discovered) (
        field "scanned" (num r.counts.scanned) (
          field "skipped" (num r.counts.skipped) (
            field "failed" (num r.counts.failed) (
              field "requested" (put_known r.scope.requested) (
                field "found" (num r.scope.discovered) (
                  field "missing" (num r.scope.gaps) (
                    field "reasons" (arr (put_list put_entry r.reasons)) (
                      field "gaps" (arr (put_list put_gap r.gaps))
                        (field "gaps_omitted" (num r.gaps_omitted) end)))))))))))

abbrev get_known : Json → Option ℕ
get_known (num n) = some n
get_known _ = none

abbrev finish :
    Bool
    → CoverageCounts
    → CoverageScope
    → Option (List CoverageReasonCount)
    → Option (List CoverageGap)
    → ℕ
    → Option TaskCoverageReport
finish b c s (some rs) (some gs) n = some (record {
  phase = if b then fetch else discovery;
  counts = c;
  scope = s;
  reasons = rs;
  gaps = gs;
  gaps_omitted = n;
})
finish b c s _ _ n = none

abbrev pub get_report : Fields → Option TaskCoverageReport
get_report
      (field _ (bool b) (
        field _ (num a1) (
          field _ (num a2) (
            field _ (num a3) (
              field _ (num a4) (
                field _ (num a5) (
                  field _ known (
                    field _ (num d) (
                      field _
                        (num g)
                        (field _ (arr rs) (field _ (arr gs) (field _ (num n) end)))))))))))) =
    finish b (record { requested = a1; discovered = a2; scanned = a3; skipped = a4; failed = a5 })
      (record { requested = get_known known; discovered = d; gaps = g }) (get_list get_entry rs)
      (get_list get_gap gs) n
get_report _ = none

is_fetch-back : (k : ScanTaskKind) → (if is_fetch k then fetch else discovery) ≡ k
is_fetch-back fetch = refl
is_fetch-back discovery = refl

get_known-put_known : (o : Option ℕ) → get_known (put_known o) ≡ o
get_known-put_known none = refl
get_known-put_known (some n) = refl

pub get_report-put_report : (r : TaskCoverageReport) → get_report (put_report r) ≡ some r
get_report-put_report r = rw (get_list-put_list put_entry get_entry get_entry-put_entry r.reasons) (
    rw (get_list-put_list put_gap get_gap get_gap-put_gap r.gaps)
      (rw (is_fetch-back r.phase) (rw (get_known-put_known r.scope.requested) refl)))

pub put_report-end : (r : TaskCoverageReport) → put_report r ≢ end
put_report-end r e = cc

abbrev pub report_json : ReportJson
report_json = record {
  parse = get_report;
  dump = put_report;
  parse-dump = get_report-put_report;
  dump-end = put_report-end;
}
