-- ===== src/Ingestion/Normalization.antt =====
-- core/vericlose/adapters/base.py: the normalization of a file.
pub mod Disposed
pub mod Complete
use veri_close.Prelude.{
  String, not, ◌&&◌, none, some, List, [], ◌∷◌, ◌++◌, map, ℤ, Result, ok, err, Error, value_error,
  type_error, ◌>>=◌, ◌>>◌, raise_if, filter, length, non_empty, dedup, if◌then◌else◌,
}
use veri_close.Domain.Events.{CanonicalEvent}
use veri_close.Ingestion.Contracts.{
  ValidationStage, RowDispositionStatus, SourceDocument, ValidationIssue, can_normalize_valid_rows,
  NormalizationContext, RowDisposition, row_disposition, NormalizationResult, normalization_result,
  same_row,
}
use veri_close.Ingestion.Mappings.{FileMappingProfile, bind}
use veri_close.Ingestion.Validation.{
  TabularRow, TabularData, read, RowProblem, RowResult, done, problem, raised, Adapter,
  problem_issue, validate,
}

-- the blocking issues of a row: issues_by_row[row.row_number]
unfoldable pub issues_of_row : List ValidationIssue → ℤ → List ValidationIssue
issues_of_row issues row_number =
    filter (λ (i : ValidationIssue). i.blocking && same_row i.row_number (some row_number)) issues

-- parse and build, under the `except (RowProblem, TypeError, ValueError)`
unfoldable pub failed_row : Error → RowResult CanonicalEvent
failed_row (value_error message) = problem (record {
  code = "NORMALIZATION_FAILED";
  message = message;
  canonical_field = none;
  suggested_fix = "Correct this row and import it again";
  stage = ValidationStage.semantic;
})
failed_row (type_error message) = problem (record {
  code = "NORMALIZATION_FAILED";
  message = message;
  canonical_field = none;
  suggested_fix = "Correct this row and import it again";
  stage = ValidationStage.semantic;
})
failed_row e = raised e

abbrev caught : RowResult CanonicalEvent → RowResult CanonicalEvent
caught (done event) = done event
caught (problem p) = problem p
caught (raised e) = failed_row e

unfoldable pub build_row :
    {Parsed : Type 0}
    → Adapter Parsed
    → SourceDocument
    → FileMappingProfile
    → NormalizationContext
    → TabularRow
    → RowResult CanonicalEvent
build_row adapter document bound context row = elim (adapter.parse_row row bound) [
  | done parsed ↦ caught (adapter.build_event document row bound context parsed)
  | problem p ↦ problem p
  | raised e ↦ failed_row e
]

-- what the loop of normalize has gathered
pub record Normalized : Type 0 where
  pub events : List CanonicalEvent
  pub dispositions : List RowDisposition
  pub issues : List ValidationIssue

-- the disposition of a row that is held back
unfoldable pub quarantine : TabularRow → List ValidationIssue → Result RowDisposition
quarantine row issues = row_disposition (record {
  row_number = row.row_number;
  status = RowDispositionStatus.quarantined;
  event_ids = [];
  issue_codes = dedup (map (λ (i : ValidationIssue). i.code) (issues_of_row issues row.row_number));
})

unfoldable pub accept : TabularRow → CanonicalEvent → Result RowDisposition
accept row event = row_disposition (record {
  row_number = row.row_number;
  status = RowDispositionStatus.normalized;
  event_ids = event.event_id ∷ [];
  issue_codes = [];
})

-- the loop of normalize over the rows, with the issues known so far
unfoldable pub normalize_rows :
    {Parsed : Type 0}
    → Adapter Parsed
    → SourceDocument
    → FileMappingProfile
    → NormalizationContext
    → List TabularRow
    → List ValidationIssue
    → Result Normalized
normalize_rows adapter document bound context [] issues =
    ok (record { events = []; dispositions = []; issues = issues })
normalize_rows adapter document bound context (row ∷ rows) issues =
    if non_empty (issues_of_row issues row.row_number)
    then (do
      d ← quarantine row issues
      rest ← normalize_rows adapter document bound context rows issues
      ok (record rest { dispositions = d ∷ rest.dispositions }))
    else elim (build_row adapter document bound context row) [
      | raised e ↦ err e
      | done event ↦ do
        d ← accept row event
        rest ← normalize_rows adapter document bound context rows issues
        ok (record rest { events = event ∷ rest.events; dispositions = d ∷ rest.dispositions })
      | problem p ↦ do
        i ← problem_issue document bound row p
        d ← quarantine row (issues ++ i ∷ [])
        rest ← normalize_rows adapter document bound context rows (issues ++ i ∷ [])
        ok (record rest { dispositions = d ∷ rest.dispositions })
    ]

-- TabularSourceAdapter.normalize, of rows that were read; NormalizationBlockedError is a ValueError
unfoldable pub normalize :
    {Parsed : Type 0}
    → Adapter Parsed
    → (String → String)
    → (String → String)
    → SourceDocument
    → FileMappingProfile
    → NormalizationContext
    → TabularData
    → Result NormalizationResult
normalize adapter casefold lower document profile context table = do
  raise_if (not (adapter.accepts profile.ref.source_type))
      (value_error "mapping profile belongs to another source type")
  bound ← bind casefold profile table.headers
  checked ← validate adapter casefold document bound (read table)
  raise_if (not (can_normalize_valid_rows checked))
      (value_error "normalization blocked by file or schema validation")
  rows ← normalize_rows adapter document bound context table.rows checked.issues
  normalization_result lower (record {
    adapter_id = adapter.adapter_id;
    adapter_version = adapter.adapter_version;
    source_file_id = document.file_id;
    source_file_sha256 = document.sha256;
    mapping_profile = bound.ref;
    rows_seen = length table.rows;
    events = rows.events;
    row_dispositions = rows.dispositions;
    issues = rows.issues;
  })
