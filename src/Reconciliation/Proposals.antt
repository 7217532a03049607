-- ===== src/Reconciliation/Proposals.antt =====
-- core/vericlose/reconciliation/proposals.py
use veri_close.Prelude.{
  String, str_append, str_eq, Bool, true, false, ◌&&◌, ◌||◌, Option, none, some, List, [], ◌∷◌, ℤ,
  Result, join, take_str, if◌then◌else◌,
}
use veri_close.Domain.Events.{CanonicalEvent}
use veri_close.Domain.Evidence.{EvidenceLink, ProofCheck, evidence_link}
use veri_close.Reconciliation.Platform.{Platform}

pub record SupportFeature : Type 0 where
  pub name : String
  pub score_bps : ℤ
  pub observed : String

pub record CaseProposal : Type 0 where
  pub proposal_id : String
  pub case_key : String
  pub event_ids : List String
  pub proof_checks : List ProofCheck
  pub evidence_links : List EvidenceLink
  pub reason_codes : List String
  pub rules_attempted : List String
  pub support_features : List SupportFeature
  pub support_score_bps : ℤ
  pub amount_at_risk_minor : ℤ
  pub uniqueness_passed : Bool
  pub ambiguous : Bool
  pub invalid_input : Bool

-- The separator is U+001F.
unfoldable pub stable_id : Platform → String → List String → String
unfolding join take_str
stable_id platform prefix parts =
    let digest = take_str 20 (platform.sha256_hexdigest (join "\u{1f}" parts)) in
    str_append prefix (str_append "_" digest)

-- the link before its constructor's checks
abbrev pub link_to : CanonicalEvent → String → EvidenceLink
link_to event purpose = record {
  event_id = some event.event_id;
  source_file_id = event.lineage.source_file_id;
  table_name = event.lineage.table_name;
  row_number = event.lineage.row_number;
  raw_row_hash = event.lineage.raw_row_hash;
  purpose = purpose;
}

unfoldable pub evidence : CanonicalEvent → String → Result EvidenceLink
unfolding evidence_link
evidence event purpose = evidence_link (link_to event purpose)

abbrev pub same_option : Option String → Option String → Bool
same_option none none = true
same_option (some a) (some b) = str_eq a b
same_option _ _ = false

-- (link.event_id, link.purpose) in seen
unfoldable pub seen_link : EvidenceLink → List EvidenceLink → Bool
seen_link link [] = false
seen_link link (l ∷ seen) =
    same_option link.event_id l.event_id && str_eq link.purpose l.purpose || seen_link link seen

unfoldable pub unique_from : List EvidenceLink → List EvidenceLink → List EvidenceLink
unfolding seen_link
unique_from seen [] = []
unique_from seen (link ∷ links) =
    let fresh = unique_from (link ∷ seen) links in
    let rest = unique_from seen links in if seen_link link seen then rest else link ∷ fresh

abbrev pub unique_evidence : List EvidenceLink → List EvidenceLink
unique_evidence = unique_from []
