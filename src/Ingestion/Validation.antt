-- ===== src/Ingestion/Validation.antt =====
-- core/vericlose/adapters/base.py: the validation of a file. An adapter is its abstract methods; the
-- rows that read_tabular gives are an argument.
use veri_close.Prelude.{
  ℕ, String, str_append, str_eq, Bool, true, false, not, Option, none, some, List, [], ◌∷◌, ◌++◌, ℤ,
  Result, ok, err, Error, ◌>>=◌, filter, length, join, if◌then◌else◌,
}
use veri_close.Domain.Enums.{SourceType}
use veri_close.Domain.Events.{CanonicalEvent, Scalar}
use veri_close.Ingestion.Contracts.{
  ValidationStage, IssueSeverity, SourceDocument, ValidationIssue, validation_issue,
  ValidationReport, validation_report, NormalizationContext,
}
use veri_close.Ingestion.Mappings.{
  FileMappingProfile, MappingProfileRef, bind, required_fields, source_column_for,
}

-- TabularRow and TabularData of ingestion/tabular.py
pub record TabularRow : Type 0 where
  pub table_name : String
  pub row_number : ℤ
  pub values : List (String × String)
  pub raw_row_hash : String

pub record TabularData : Type 0 where
  pub table_name : String
  pub headers : List String
  pub rows : List TabularRow

-- read_tabular returns, or raises a TabularReadError
pub data Reading : Type 0 where
  read : TabularData → Reading
  unreadable : String → String → Reading

pub record RowProblem : Type 0 where
  pub code : String
  pub message : String
  pub canonical_field : Option String
  pub suggested_fix : String
  pub stage : ValidationStage

-- what a method called on a row does
pub data RowResult (A : Type 0) : Type 0 where
  done : A → RowResult A
  problem : RowProblem → RowResult A
  raised : Error → RowResult A

pub record Adapter (Parsed : Type 0) : Type 0 where
  pub adapter_id : String
  pub adapter_version : String
  pub source_type_value : String
  -- mapping_profile.ref.source_type is self.source_type
  pub accepts : SourceType → Bool
  pub parse_row : TabularRow → FileMappingProfile → RowResult Parsed
  pub build_event :
      SourceDocument
      → TabularRow
      → FileMappingProfile
      → NormalizationContext
      → Parsed
      → RowResult CanonicalEvent
  pub batch_issues :
      SourceDocument
      → TabularData
      → FileMappingProfile
      → List ValidationIssue
      → Result (List ValidationIssue)

-- TabularSourceAdapter._issue, of a blocking error
unfoldable pub issue :
    SourceDocument
    → Option ℤ
    → String
    → String
    → Option String
    → Scalar
    → String
    → ValidationStage
    → Option String
    → Result ValidationIssue
issue document row_number code message field_name supplied_value suggested_fix stage table_name =
    validation_issue (record {
      stage = stage;
      severity = IssueSeverity.error;
      code = code;
      message = message;
      file_id = document.file_id;
      table_name = table_name;
      row_number = row_number;
      field_name = field_name;
      supplied_value = supplied_value;
      suggested_fix = suggested_fix;
      blocking = true;
    })

-- TabularSourceAdapter._report
unfoldable pub report :
    {Parsed : Type 0}
    → Adapter Parsed
    → SourceDocument
    → MappingProfileRef
    → ℕ
    → List ValidationIssue
    → Result ValidationReport
report adapter document ref rows_seen issues = validation_report (record {
  adapter_id = adapter.adapter_id;
  adapter_version = adapter.adapter_version;
  source_file_id = document.file_id;
  mapping_profile = ref;
  rows_seen = rows_seen;
  issues = issues;
})

-- bound.source_column_for(problem.canonical_field) if problem.canonical_field else None
unfoldable pub problem_column : FileMappingProfile → RowProblem → Option String
problem_column bound p = elim p.canonical_field [
  | none ↦ none
  | some field ↦ if str_eq field "" then none else source_column_for bound field
]

-- dict(self.values).get(column): the last value of a column stands
unfoldable pub value_of : List (String × String) → String → Option String
value_of [] column = none
value_of ((c, v) ∷ values) column = elim (value_of values column) [
  | some later ↦ some later
  | none ↦ if str_eq c column then some v else none
]

-- row.get(source_column) if source_column else None
unfoldable pub supplied : TabularRow → Option String → Scalar
supplied row none = Scalar.null
supplied row (some column) =
    if str_eq column ""
    then Scalar.null
    else elim (value_of row.values column) [ none ↦ Scalar.str "" | some value ↦ Scalar.str value ]

-- the issue of a problem of a row
unfoldable pub problem_issue :
    SourceDocument → FileMappingProfile → TabularRow → RowProblem → Result ValidationIssue
problem_issue document bound row p =
    let column = problem_column bound p in
    issue document (some row.row_number) p.code p.message column (supplied row column)
      p.suggested_fix p.stage (some row.table_name)

-- the loop of validate over the rows
unfoldable pub row_issues :
    {Parsed : Type 0}
    → Adapter Parsed
    → SourceDocument
    → FileMappingProfile
    → List TabularRow
    → Result (List ValidationIssue)
row_issues adapter document bound [] = ok []
row_issues adapter document bound (row ∷ rows) = elim (adapter.parse_row row bound) [
  | done parsed ↦ row_issues adapter document bound rows
  | raised e ↦ err e
  | problem p ↦ do
    i ← problem_issue document bound row p
    rest ← row_issues adapter document bound rows
    ok (i ∷ rest)
]

abbrev pub is_missing : FileMappingProfile → String → Bool
is_missing bound field = elim (source_column_for bound field) [ none ↦ true | some c ↦ false ]

-- validate, of a bound profile, the rows and the required fields without a column
unfoldable pub validate_bound :
    {Parsed : Type 0}
    → Adapter Parsed
    → SourceDocument
    → FileMappingProfile
    → TabularData
    → List String
    → Result ValidationReport
validate_bound adapter document bound table [] = do
  rows ← row_issues adapter document bound table.rows
  batch ← adapter.batch_issues document table bound rows
  report adapter document bound.ref (length table.rows) (rows ++ batch)
validate_bound adapter document bound table (field ∷ missing) = do
  i ←
      issue document none "REQUIRED_MAPPING_MISSING"
        (str_append "Required canonical fields are unresolved: " (join ", " (field ∷ missing))) none
        Scalar.null "Select a compatible profile or map every required field" ValidationStage.schema
        (some table.table_name)
  report adapter document bound.ref (length table.rows) (i ∷ [])

-- validate, of a profile of the adapter's source and of rows that were read
unfoldable pub validate_data :
    {Parsed : Type 0}
    → Adapter Parsed
    → (String → String)
    → SourceDocument
    → FileMappingProfile
    → TabularData
    → Result ValidationReport
validate_data adapter casefold document profile table = do
  bound ← bind casefold profile table.headers
  validate_bound adapter document bound table (filter (is_missing bound) (required_fields bound))

-- TabularSourceAdapter.validate
unfoldable pub validate :
    {Parsed : Type 0}
    → Adapter Parsed
    → (String → String)
    → SourceDocument
    → FileMappingProfile
    → Reading
    → Result ValidationReport
validate adapter casefold document profile reading =
    if not (adapter.accepts profile.ref.source_type)
    then (do
      i ←
          issue document none "MAPPING_PROFILE_INVALID"
            "mapping profile belongs to another source type" none Scalar.null
            "Choose a mapping profile for this source and file format" ValidationStage.schema none
      report adapter document profile.ref 0 (i ∷ []))
    else elim reading [
      | read table ↦ validate_data adapter casefold document profile table
      | unreadable code message ↦ do
        i ←
            issue document none code message none Scalar.null
              "Upload a valid UTF-8 CSV or XLSX workbook" ValidationStage.file none
        report adapter document profile.ref 0 (i ∷ [])
    ]
