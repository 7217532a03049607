-- ===== src/Ingestion/Contracts.antt =====
-- core/vericlose/ingestion/contracts.py: issues, reports, dispositions and the result of a file. A
-- set of keys is the list of them.
use veri_close.Prelude.{
  ℕ, suc, String, str_eq, str_leb, Bool, true, false, not, ◌&&◌, ◌||◌, Option, none, some, List, [],
  ◌∷◌, ◌++◌, map, ℤ, pos, Result, ok, value_error, ◌>>◌, raise_if, ltb_ℤ, eqb_ℤ, nat_eq, leb,
  filter, all, any, length, non_empty, codes, dedup, sort_by, if◌then◌else◌,
}
use veri_close.Domain.Events.{CanonicalEvent, Scalar, require_text}
use veri_close.Domain.Evidence.{if_some}
use veri_close.Ingestion.Mappings.{MappingProfileRef, ref_versioned_id}

pub data ValidationStage : Type 0 where
  file schema semantic accounting cross_source : ValidationStage

pub data IssueSeverity : Type 0 where
  warning error : IssueSeverity

pub data RowDispositionStatus : Type 0 where
  normalized quarantined : RowDispositionStatus

abbrev pub is_error : IssueSeverity → Bool
is_error IssueSeverity.error = true
is_error IssueSeverity.warning = false

abbrev pub is_normalized : RowDispositionStatus → Bool
is_normalized RowDispositionStatus.normalized = true
is_normalized RowDispositionStatus.quarantined = false

pub record SourceDocument : Type 0 where
  pub file_id : String
  pub sha256 : String

pub record ValidationIssue : Type 0 where
  pub stage : ValidationStage
  pub severity : IssueSeverity
  pub code : String
  pub message : String
  pub file_id : String
  pub table_name : Option String
  pub row_number : Option ℤ
  pub field_name : Option String
  pub supplied_value : Scalar
  pub suggested_fix : String
  pub blocking : Bool

-- ValidationIssue.__post_init__
unfoldable pub validation_issue : ValidationIssue → Result ValidationIssue
validation_issue i = do
  require_text i.code "code"
  require_text i.message "message"
  require_text i.file_id "file_id"
  require_text i.suggested_fix "suggested_fix"
  if_some i.row_number (λ n. raise_if (ltb_ℤ n (pos 1)) (value_error "row_number must be >= 1"))
  raise_if (i.blocking && not (is_error i.severity))
      (value_error "only ERROR issues can be blocking")
  if_some i.table_name (λ t. require_text t "table_name")
  if_some i.field_name (λ t. require_text t "field_name")
  ok i

pub record ValidationReport : Type 0 where
  pub adapter_id : String
  pub adapter_version : String
  pub source_file_id : String
  pub mapping_profile : MappingProfileRef
  pub rows_seen : ℕ
  pub issues : List ValidationIssue

-- ValidationReport.__post_init__
unfoldable pub validation_report : ValidationReport → Result ValidationReport
validation_report r = do
  require_text r.adapter_id "adapter_id"
  require_text r.adapter_version "adapter_version"
  require_text r.source_file_id "source_file_id"
  raise_if (any (λ (i : ValidationIssue). not (str_eq i.file_id r.source_file_id)) r.issues)
      (value_error "all validation issues must reference source_file_id")
  ok r

abbrev pub is_absent_row : ValidationIssue → Bool
is_absent_row i = elim i.row_number [ none ↦ true | some n ↦ false ]

-- ValidationReport.can_normalize_valid_rows
unfoldable pub can_normalize_valid_rows : ValidationReport → Bool
can_normalize_valid_rows r =
    not (any (λ (i : ValidationIssue). i.blocking && is_absent_row i) r.issues)

pub record NormalizationContext : Type 0 where
  pub run_id : String
  pub legal_entity_id : String
  pub currency : String

pub record RowDisposition : Type 0 where
  pub row_number : ℤ
  pub status : RowDispositionStatus
  pub event_ids : List String
  pub issue_codes : List String

-- the loops of `_require_text`
unfoldable pub require_texts : List String → String → Result (Unit {0})
require_texts [] field_name = ok tt
require_texts (t ∷ texts) field_name = do require_text t field_name; require_texts texts field_name

-- RowDisposition.__post_init__
unfoldable pub row_disposition : RowDisposition → Result RowDisposition
row_disposition d = do
  raise_if (ltb_ℤ d.row_number (pos 1)) (value_error "row_number must be >= 1")
  require_texts d.event_ids "event_id"
  require_texts d.issue_codes "issue_code"
  raise_if (not (nat_eq (length (dedup d.event_ids)) (length d.event_ids)))
      (value_error "event IDs cannot be repeated within a row disposition")
  raise_if (not (nat_eq (length (dedup d.issue_codes)) (length d.issue_codes)))
      (value_error "issue codes cannot be repeated within a row disposition")
  raise_if (is_normalized d.status && (not (non_empty d.event_ids) || non_empty d.issue_codes))
      (value_error "NORMALIZED rows require event IDs and no issue codes")
  raise_if
      (not (is_normalized d.status) && (non_empty d.event_ids || not (non_empty d.issue_codes)))
      (value_error "QUARANTINED rows require issue codes and no event IDs")
  ok d

pub record NormalizationResult : Type 0 where
  pub adapter_id : String
  pub adapter_version : String
  pub source_file_id : String
  pub source_file_sha256 : String
  pub mapping_profile : MappingProfileRef
  pub rows_seen : ℕ
  pub events : List CanonicalEvent
  pub row_dispositions : List RowDisposition
  pub issues : List ValidationIssue

-- a white character between the bytes of `bytes.fromhex`, and a hexadecimal digit
unfoldable pub is_hex_space : ℕ → Bool
is_hex_space c = leb 9 c && leb c 13 || nat_eq c 32

unfoldable pub is_hex_digit : ℕ → Bool
is_hex_digit c = leb 48 c && leb c 57 || leb 65 c && leb c 70 || leb 97 c && leb c 102

-- len(bytes.fromhex(text)), where it does not raise
unfoldable pub hex_bytes : List ℕ → Option ℕ
hex_bytes [] = some 0
hex_bytes (c ∷ []) = if is_hex_space c then some 0 else none
hex_bytes (c ∷ d ∷ cs) =
    let spaced = hex_bytes (d ∷ cs) in
    let rest = hex_bytes cs in
    if is_hex_space c
    then spaced
    else if is_hex_digit c && is_hex_digit d
    then (elim rest [ none ↦ none | some n ↦ some (suc n) ])
    else none

abbrev is_count : ℕ → Option ℕ → Bool
is_count n none = false
is_count n (some m) = nat_eq n m

-- _require_sha256
unfoldable pub require_digest : String → String → Result (Unit {0})
require_digest value field_name = do
  require_text value field_name
  raise_if (not (is_count 32 (hex_bytes (codes value))))
      (value_error "must be a SHA-256 hex digest")

-- len(set(numbers)) == len(numbers)
unfoldable pub has_number : ℤ → List ℤ → Bool
has_number n [] = false
has_number n (m ∷ ms) = eqb_ℤ n m || has_number n ms

unfoldable pub distinct_numbers : List ℤ → Bool
distinct_numbers [] = true
distinct_numbers (n ∷ ns) = not (has_number n ns) && distinct_numbers ns

unfoldable pub same_texts : List String → List String → Bool
same_texts [] [] = true
same_texts (s ∷ ss) (t ∷ ts) = str_eq s t && same_texts ss ts
same_texts _ _ = false

-- (row_number, code) pairs
abbrev pub IssueKey : Type 0
IssueKey = Option ℤ × String

abbrev pub same_row : Option ℤ → Option ℤ → Bool
same_row none none = true
same_row (some m) (some n) = eqb_ℤ m n
same_row _ _ = false

unfoldable pub has_key : IssueKey → List IssueKey → Bool
has_key (r, c) [] = false
has_key (r, c) ((r', c') ∷ keys) = (same_row r r' && str_eq c c') || has_key (r, c) keys

unfoldable pub cited_keys : List RowDisposition → List IssueKey
cited_keys [] = []
cited_keys (d ∷ ds) = map (λ (c : String). (some d.row_number, c)) d.issue_codes ++ cited_keys ds

unfoldable pub disposition_event_ids : List RowDisposition → List String
disposition_event_ids [] = []
disposition_event_ids (d ∷ ds) = d.event_ids ++ disposition_event_ids ds

unfoldable pub issue_keys : List ValidationIssue → List IssueKey
issue_keys issues =
    map (λ (i : ValidationIssue). (i.row_number, i.code))
      (filter (λ (i : ValidationIssue). i.blocking) issues)

-- the checks on one event
unfoldable pub check_event :
    (String → String) → NormalizationResult → CanonicalEvent → Result (Unit {0})
check_event lower r e = do
  raise_if (not (str_eq e.lineage.source_file_id r.source_file_id))
      (value_error "event lineage source_file_id does not match result")
  raise_if (not (str_eq (lower e.lineage.file_sha256) (lower r.source_file_sha256)))
      (value_error "event lineage file hash does not match result")
  raise_if (not (str_eq e.mapping_profile_version (ref_versioned_id r.mapping_profile)))
      (value_error "event mapping version does not match normalization result")

unfoldable pub check_events :
    (String → String) → NormalizationResult → List CanonicalEvent → Result (Unit {0})
check_events lower r [] = ok tt
check_events lower r (e ∷ events) = do check_event lower r e; check_events lower r events

-- NormalizationResult.__post_init__
unfoldable pub normalization_result :
    (String → String) → NormalizationResult → Result NormalizationResult
normalization_result lower r = do
  let event_ids = map (λ (e : CanonicalEvent). e.event_id) r.events
  let cited = cited_keys r.row_dispositions
  let blocked = issue_keys r.issues
  require_text r.adapter_id "adapter_id"
  require_text r.adapter_version "adapter_version"
  require_text r.source_file_id "source_file_id"
  require_text r.source_file_sha256 "source_file_sha256"
  require_digest r.source_file_sha256 "source_file_sha256"
  raise_if (not (nat_eq (length r.row_dispositions) r.rows_seen))
      (value_error "every input row must have exactly one row disposition")
  raise_if (any (λ (i : ValidationIssue). not (str_eq i.file_id r.source_file_id)) r.issues)
      (value_error "all normalization issues must reference source_file_id")
  raise_if (not (distinct_numbers (map (λ (d : RowDisposition). d.row_number) r.row_dispositions)))
      (value_error "row dispositions must have unique row numbers")
  raise_if (not (nat_eq (length (dedup event_ids)) (length event_ids)))
      (value_error "normalized event IDs must be unique")
  raise_if
      (not (
        same_texts (sort_by str_leb event_ids)
          (sort_by str_leb (disposition_event_ids r.row_dispositions))))
      (value_error "every normalized event must belong to one row disposition")
  raise_if (any (λ (i : ValidationIssue). i.blocking && is_absent_row i) r.issues)
      (value_error "file-level blockers must be fixed before normalization")
  raise_if (not (all (λ k. has_key k blocked) cited && all (λ k. has_key k cited) blocked))
      (value_error "every row blocker must have a matching quarantined disposition")
  check_events lower r r.events
  ok r

-- NormalizationResult.normalized_row_count
unfoldable pub normalized_row_count : NormalizationResult → ℕ
normalized_row_count r =
    length (filter (λ (d : RowDisposition). is_normalized d.status) r.row_dispositions)
