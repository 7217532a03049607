-- ===== src/Domain/Evidence.antt =====
-- core/vericlose/domain/evidence.py
use veri_close.Prelude.{
  String, Bool, not, ◌&&◌, Option, none, some, List, ℤ, pos, Result, ok, value_error, ◌>>◌,
  raise_if, ltb_ℤ, nat_eq, is_blank, any, length, non_empty, dedup, dedup_from,
}
use veri_close.Domain.Events.{Scalar, require_text, require_sha256}

pub record EvidenceLink : Type 0 where
  pub event_id : Option String
  pub source_file_id : String
  pub table_name : String
  pub row_number : ℤ
  pub raw_row_hash : String
  pub purpose : String

-- `if value is not None: check(value)`
abbrev pub if_some {ℓ} : {A : Type ℓ} → Option A → (A → Result (Unit {0})) → Result (Unit {0})
if_some none check = ok tt
if_some (some a) check = check a

unfoldable pub evidence_link : EvidenceLink → Result EvidenceLink
unfolding require_text require_sha256
evidence_link link = do
  if_some link.event_id (λ id. require_text id "event_id")
  require_text link.source_file_id "source_file_id"
  require_text link.table_name "table_name"
  require_text link.purpose "purpose"
  raise_if (ltb_ℤ link.row_number (pos 1)) (value_error "row_number must be >= 1")
  require_sha256 link.raw_row_hash "raw_row_hash"
  ok link

pub record ProofCheck : Type 0 where
  pub check_code : String
  pub expected : Scalar
  pub observed : Scalar
  pub tolerance_minor : Option ℤ
  pub passed : Bool
  pub required : Bool
  pub evidence_links : List EvidenceLink

unfoldable pub proof_check : ProofCheck → Result ProofCheck
unfolding require_text
proof_check c = do
  require_text c.check_code "check_code"
  if_some c.tolerance_minor
      (λ t. raise_if (ltb_ℤ t (pos 0)) (value_error "tolerance_minor cannot be negative"))
  raise_if (c.required && not (non_empty c.evidence_links))
      (value_error "a required proof check must cite evidence")
  ok c

pub record MatchGroup : Type 0 where
  pub group_id : String
  pub event_ids : List String

unfoldable pub match_group : MatchGroup → Result MatchGroup
unfolding require_text any is_blank dedup_from
match_group g = do
  require_text g.group_id "group_id"
  raise_if (not (non_empty g.event_ids)) (value_error "event_ids cannot be empty")
  raise_if (any is_blank g.event_ids) (value_error "event_ids cannot contain blank values")
  raise_if (not (nat_eq (length (dedup g.event_ids)) (length g.event_ids)))
      (value_error "event_ids must be unique")
  ok g
