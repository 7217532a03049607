-- ===== src/Domain/Events.antt =====
-- core/vericlose/domain/events.py. A date is its proleptic Gregorian ordinal, and a datetime its
-- date, the time within it, and whether it has a UTC offset.
use veri_close.Prelude.{
  ℕ, String, str_append, Bool, false, not, ◌||◌, ◌&&◌, Option, none, some, List, ℤ, pos, Result, ok,
  value_error, ◌>>◌, raise_if, ltb_ℤ, leb, nat_eq, codes, is_blank, all, length, non_empty_str,
}
use veri_close.Domain.Enums.{SourceType, EventType, Direction}
use veri_close.Domain.Money.{Money}

pub record DateTime : Type 0 where
  pub date : ℕ
  pub clock : ℕ
  pub aware : Bool

-- str | int | bool | None
pub data Scalar : Type 0 where
  str : String → Scalar
  int : ℤ → Scalar
  bool : Bool → Scalar
  null : Scalar

-- _require_text
unfoldable pub require_text : String → String → Result (Unit {0})
unfolding is_blank
require_text value field_name =
    raise_if (is_blank value) (value_error (str_append field_name " cannot be blank"))

-- bool(value) of a value that may be None
abbrev pub truthy : Option String → Bool
truthy none = false
truthy (some s) = non_empty_str s

-- `character in _HEX` of a lower-cased character
is_hex : ℕ → Bool
is_hex c = leb 48 c && leb c 57 || leb 97 c && leb c 102 || leb 65 c && leb c 70

-- _require_sha256
unfoldable pub require_sha256 : String → String → Result (Unit {0})
unfolding is_hex all
require_sha256 value field_name =
    raise_if (not (nat_eq (length (codes value)) 64) || not (all is_hex (codes value)))
      (value_error (str_append field_name " must be a 64-character hexadecimal string"))

-- tzinfo is None or utcoffset() is None
unfoldable pub require_aware : DateTime → String → Result (Unit {0})
require_aware at field_name =
    raise_if (not at.aware) (value_error (str_append field_name " must be timezone-aware"))

pub record RawField : Type 0 where
  pub name : String
  pub value : Scalar

unfoldable pub raw_field : RawField → Result RawField
unfolding require_text
raw_field r = do require_text r.name "RawField.name"; ok r

pub record RawRowRef : Type 0 where
  pub source_file_id : String
  pub file_sha256 : String
  pub table_name : String
  pub row_number : ℤ
  pub raw_row_hash : String

unfoldable pub raw_row_ref : RawRowRef → Result RawRowRef
unfolding require_text require_sha256
raw_row_ref r = do
  require_text r.source_file_id "source_file_id"
  require_text r.table_name "table_name"
  raise_if (ltb_ℤ r.row_number (pos 1)) (value_error "row_number must be >= 1")
  require_sha256 r.file_sha256 "file_sha256"
  require_sha256 r.raw_row_hash "raw_row_hash"
  ok r

pub record CanonicalEvent : Type 0 where
  pub event_id : String
  pub run_id : String
  pub source_type : SourceType
  pub source_record_id : String
  pub legal_entity_id : String
  pub event_type : EventType
  pub money : Money
  pub direction : Direction
  pub event_at : DateTime
  pub value_date : Option ℕ
  pub external_reference : Option String
  pub settlement_reference : Option String
  pub payment_reference : Option String
  pub bank_utr : Option String
  pub account_code : Option String
  pub narration : Option String
  pub lineage : RawRowRef
  pub raw_fields : List RawField
  pub mapping_profile_version : String

unfoldable pub canonical_event : CanonicalEvent → Result CanonicalEvent
unfolding require_text require_aware
canonical_event e = do
  require_text e.event_id "event_id"
  require_text e.run_id "run_id"
  require_text e.source_record_id "source_record_id"
  require_text e.legal_entity_id "legal_entity_id"
  require_text e.mapping_profile_version "mapping_profile_version"
  require_aware e.event_at "event_at"
  ok e
