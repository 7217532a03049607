-- ===== src/Ingestion/Examples.antt =====
-- The theorems on a file of two rows, of which the second has no identifier.
use veri_close.Prelude.{
  ℕ, ◌≤◌, ◌≡◌, refl, String, str_eq, true, false, some, List, [], ◌∷◌, pos, Result, ok, all, any,
  filter, first, contains, dedup_from, is_blank, is_space, sort_by, insert_sorted, lstrip_str,
  rstrip_str, strip_str, if◌then◌else◌,
}
use veri_close.Domain.Enums.{SourceType}
use veri_close.Domain.Events.{require_text}
use veri_close.Reconciliation.Outcomes.{is_ok, result_of, result_of-ok}
use veri_close.Reconciliation.Policy
use veri_close.Reconciliation.Samples.{receipt}
use veri_close.Ingestion.Contracts.{
  SourceDocument, NormalizationContext, NormalizationResult, ValidationStage, validation_issue,
  validation_report, can_normalize_valid_rows, require_texts, row_disposition, hex_bytes,
  is_hex_space, is_hex_digit, require_digest, has_number, distinct_numbers, same_texts, has_key,
  cited_keys, disposition_event_ids, issue_keys, check_event, check_events, normalization_result,
}
use veri_close.Ingestion.Mappings.{
  FileMappingProfile, SourceFormat, ref_versioned_id, file_mapping_profile, header_of, column_of,
  resolve_fields, bind, find_field, source_column_for, required_fields, is_required, is_resolved,
  optional_score, bound_score, match_score_bps,
}
use veri_close.Ingestion.Mappings.Score.{match_score_bps-bounds}
use veri_close.Ingestion.Validation.{
  Adapter, TabularRow, TabularData, done, problem, issue, report, problem_column, value_of,
  supplied, problem_issue, row_issues, validate_bound, validate_data, validate,
}
use veri_close.Ingestion.Normalization.{
  issues_of_row, failed_row, build_row, quarantine, accept, normalize_rows, normalize,
}
use veri_close.Ingestion.Normalization.Complete.{IsComplete, normalize-IsComplete}

abbrev no_fold : String → String
no_fold s = s

-- match_score_bps, with all that the adapters call open to a run
unfoldable run_ingestion : (String → String) → FileMappingProfile → List String → Result ℕ
unfolding all any filter first contains dedup_from is_blank is_space sort_by insert_sorted
    lstrip_str rstrip_str strip_str require_text Policy.get validation_issue validation_report
    can_normalize_valid_rows require_texts row_disposition hex_bytes is_hex_space is_hex_digit
    require_digest has_number distinct_numbers same_texts has_key cited_keys disposition_event_ids
    issue_keys check_event check_events normalization_result ref_versioned_id file_mapping_profile
    header_of column_of resolve_fields bind find_field source_column_for required_fields is_resolved
    optional_score bound_score match_score_bps issue report problem_column value_of supplied
    problem_issue row_issues validate_bound validate_data validate issues_of_row failed_row
    build_row quarantine accept normalize_rows normalize
run_ingestion = match_score_bps

abbrev profile : FileMappingProfile
profile = record {
  ref = record { profile_id = "bank"; version = "1"; source_type = SourceType.bank };
  supported_formats = SourceFormat.csv ∷ [];
  fields =
      record {
        canonical_field = "source_record_id";
        aliases = "line id" ∷ "id" ∷ [];
        required = true;
        transform = "strip";
      }
      ∷ record {
        canonical_field = "narration";
        aliases = "text" ∷ [];
        required = false;
        transform = "strip";
      }
      ∷ [];
  resolved_columns = [];
  is_bound = false;
}

abbrev tabular_row : ℕ → String → TabularRow
tabular_row number id = record {
  table_name = "rows";
  row_number = pos number;
  values = ("id", id) ∷ [];
  raw_row_hash = "e3b0c44298fc1c149afbf4c8996fb92427ae41e4649b934ca495991b7852b855";
}

abbrev table : TabularData
table = record {
  table_name = "rows";
  headers = "id" ∷ [];
  rows = tabular_row 2 "b1" ∷ tabular_row 3 "" ∷ [];
}

abbrev document : SourceDocument
document = record {
  file_id = "file";
  sha256 = "e3b0c44298fc1c149afbf4c8996fb92427ae41e4649b934ca495991b7852b855";
}

abbrev context : NormalizationContext
context = record { run_id = "run_1"; legal_entity_id = "entity_1"; currency = "INR" }

abbrev row_id : TabularRow → String
row_id row = elim row.values [ [] ↦ "" | v ∷ values ↦ v.1 ]

abbrev adapter : Adapter String
adapter = record {
  adapter_id = "generic-bank-statement";
  adapter_version = "1.0.0";
  source_type_value = "BANK";
  accepts = λ s. true;
  parse_row = λ row bound.
      if str_eq (row_id row) ""
      then problem (record {
        code = "SOURCE_RECORD_ID_MISSING";
        message = "Bank record ID is blank";
        canonical_field = some "source_record_id";
        suggested_fix = "Supply a stable statement line ID";
        stage = ValidationStage.semantic;
      })
      else done (row_id row);
  build_event = λ doc row bound ctx id.
      done (record (receipt id 976 "UTR1") { mapping_profile_version = "bank@1" });
  batch_issues = λ doc tab bound issues. ok [];
}

normalization_succeeds :
    is_ok (normalize adapter no_fold no_fold document profile context table) ≡ true
unfolding run_ingestion
normalization_succeeds = refl

abbrev r : NormalizationResult
r =
    result_of (normalize adapter no_fold no_fold document profile context table)
      normalization_succeeds

normalize-IsComplete_example : IsComplete adapter no_fold document profile context table r
normalize-IsComplete_example =
    normalize-IsComplete adapter no_fold no_fold document profile context table r (
      result_of-ok (normalize adapter no_fold no_fold document profile context table)
        normalization_succeeds)

score_runs : match_score_bps no_fold profile ("id" ∷ []) ≡ ok 8_000
unfolding run_ingestion
score_runs = refl

abbrev score : ℕ
score = 8_000

match_score_bps-bounds_example :
    (score ≤ 10_000)
    × (all
            (is_resolved (resolve_fields no_fold ("id" ∷ []) profile.fields))
            (filter is_required profile.fields)
          ≡ true
        → 8_000 ≤ score)
    × (all
            (is_resolved (resolve_fields no_fold ("id" ∷ []) profile.fields))
            (filter is_required profile.fields)
          ≡ false
        → score ≡ 0)
match_score_bps-bounds_example =
    match_score_bps-bounds no_fold profile ("id" ∷ []) score refl refl score_runs
