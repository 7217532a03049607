-- ===== src/Application/Workflow/Journals.antt =====
-- core/vericlose/application/actions.py: the journals that ActionService proposes.
use veri_close.Prelude.{
  String, str_append, str_eq, str_leb, Bool, true, false, not, ◌&&◌, ◌||◌, Option, none, some, List,
  [], ◌∷◌, ◌++◌, map, Result, ok, err, value_error, index_error, ◌>>=◌, ◌>>◌, raise_if, ℕ, pos,
  zero, suc, nat_eq, ltb, length, filter, first, total, sort_by, traverse, codes, if◌then◌else◌,
}
use veri_close.Domain.Actions.{
  JournalLine, journal_line, JournalProposal, journal_proposal, line_amount,
}
use veri_close.Domain.Enums.{
  Direction, EventType, is_bank, is_erp, is_gateway, is_credit, same_direction, event_type_value,
}
use veri_close.Domain.Events.{CanonicalEvent}
use veri_close.Domain.Evidence.{EvidenceLink}
use veri_close.Domain.Exceptions.{ExceptionCase}
use veri_close.Domain.Money.{money}
use veri_close.Reconciliation.Context.{group_journals}
use veri_close.Reconciliation.Indexes.{get}
use veri_close.Reconciliation.Policy.{ReconciliationPolicy, role}
use veri_close.Reconciliation.Proposals.{evidence}
use veri_close.Application.Host.{Host}

-- _event_evidence
unfoldable pub event_evidence : CanonicalEvent → Result EvidenceLink
event_evidence event = evidence event "Deterministic journal source"

-- sorted(codes)[0]
unfoldable pub first_code : List String → Result String
first_code codes = elim (sort_by str_leb codes) [
  | [] ↦ err (index_error "account_codes")
  | code ∷ rest ↦ ok code
]

-- ActionService._line
unfoldable pub line :
    ReconciliationPolicy
    → String
    → ℕ
    → Direction
    → String
    → List CanonicalEvent
    → Result JournalLine
line policy role_name amount_minor direction narration events = do
  configured ← role policy role_name
  raise_if (not (same_direction configured.direction direction))
      (value_error "policy direction does not match journal design")
  account_code ← first_code configured.account_codes
  m ← money (pos amount_minor) policy.currency
  links ← traverse event_evidence events
  journal_line (record {
    account_code = account_code;
    money = m;
    direction = direction;
    narration = narration;
    evidence_links = links;
  })

-- sum(event.money.amount_minor for event in gateway if event.event_type is kind)
unfoldable pub of_kind : EventType → CanonicalEvent → Bool
of_kind kind e = str_eq (event_type_value e.event_type) (event_type_value kind)

unfoldable pub component : EventType → List CanonicalEvent → ℕ
component kind gateway =
    total (λ (e : CanonicalEvent). e.money.amount_minor) (filter (of_kind kind) gateway)

-- `if amount: lines.append(...)`
unfoldable pub line_if :
    ReconciliationPolicy → String → ℕ → String → List CanonicalEvent → Result (List JournalLine)
line_if policy role_name zero narration events = ok []
line_if policy role_name (suc n) narration events = do
  l ← line policy role_name (suc n) Direction.debit narration events
  ok (l ∷ [])

unfoldable pub component_line :
    ReconciliationPolicy
    → String
    → EventType
    → String
    → List CanonicalEvent
    → Result (List JournalLine)
component_line policy role_name kind narration gateway =
    line_if policy role_name (component kind gateway) narration (filter (of_kind kind) gateway)

-- the events that the clearing line cites
unfoldable pub is_clearing : CanonicalEvent → Bool
is_clearing e =
    of_kind EventType.payment e
    || of_kind EventType.refund e
    || of_kind EventType.adjustment e
    || of_kind EventType.settlement e

abbrev pub is_bank_receipt : CanonicalEvent → Bool
is_bank_receipt e = is_bank e.source_type && is_credit e.direction

-- len(bank) != 1
abbrev pub the_receipt : List CanonicalEvent → Result CanonicalEvent
the_receipt (receipt ∷ []) = ok receipt
the_receipt _ = err (value_error "missing-ERP journal requires one proved bank receipt")

-- the debit lines of _missing_erp_journal
unfoldable pub debit_lines :
    ReconciliationPolicy → CanonicalEvent → List CanonicalEvent → Result (List JournalLine)
debit_lines policy receipt gateway = do
  bank ← line policy "bank" receipt.money.amount_minor Direction.debit "Bank receipt" (receipt ∷ [])
  fee ← component_line policy "fee" EventType.fee "Gateway fee expense" gateway
  tax ← component_line policy "tax" EventType.tax "Input GST on gateway fee" gateway
  ok (bank ∷ (fee ++ tax))

-- ActionService._missing_erp_journal
unfoldable pub missing_erp_journal :
    ReconciliationPolicy → List CanonicalEvent → Result JournalProposal
missing_erp_journal policy events = do
  let gateway = filter (λ (e : CanonicalEvent). is_gateway e.source_type) events
  receipt ← the_receipt (filter is_bank_receipt events)
  lines ← debit_lines policy receipt gateway
  clearing ←
      line policy "clearing" (total line_amount lines) Direction.credit "Gateway clearing"
        (filter is_clearing gateway)
  journal_proposal (lines ++ clearing ∷ [])

-- part in text, on code points
unfoldable pub starts_with : List ℕ → List ℕ → Bool
starts_with [] text = true
starts_with (c ∷ cs) [] = false
starts_with (c ∷ cs) (d ∷ ds) = nat_eq c d && starts_with cs ds

unfoldable pub has_part : List ℕ → List ℕ → Bool
has_part part [] = starts_with part []
has_part part (c ∷ cs) = starts_with part (c ∷ cs) || has_part part cs

unfoldable pub is_duplicate_name : Host → String → Bool
is_duplicate_name host journal_id =
    has_part (codes "duplicate") (codes (host.platform.lower journal_id))

-- names[-1]
unfoldable pub last_name : List String → String
last_name [] = ""
last_name (x ∷ []) = x
last_name (x ∷ y ∷ rest) = last_name (y ∷ rest)

-- the name of the journal to reverse, of the sorted names
unfoldable pub duplicate_name : Host → List String → String
duplicate_name host names = elim (first (is_duplicate_name host) names) [
  | some name ↦ name
  | none ↦ last_name names
]

abbrev pub opposite : Direction → Direction
opposite Direction.debit = Direction.credit
opposite Direction.credit = Direction.debit

-- event.account_code or "UNMAPPED"
abbrev pub account_or_unmapped : Option String → String
account_or_unmapped none = "UNMAPPED"
account_or_unmapped (some code) = if str_eq code "" then "UNMAPPED" else code

unfoldable pub reversal_line : String → CanonicalEvent → Result JournalLine
reversal_line duplicate_id e = do
  link ← event_evidence e
  journal_line (record {
    account_code = account_or_unmapped e.account_code;
    money = e.money;
    direction = opposite e.direction;
    narration = str_append "Reverse duplicate posting " duplicate_id;
    evidence_links = link ∷ [];
  })

-- ActionService._duplicate_reversal
unfoldable pub duplicate_reversal : Host → List CanonicalEvent → Result JournalProposal
duplicate_reversal host events = do
  let journals = group_journals [] (filter (λ (e : CanonicalEvent). is_erp e.source_type) events)
  raise_if (ltb (length journals) 2)
      (value_error "duplicate reversal requires at least two ERP journals")
  let names = sort_by str_leb (map (λ (j : String × List CanonicalEvent). j.0) journals)
  let duplicate_id = duplicate_name host names
  lines ← traverse (reversal_line duplicate_id) (get str_eq duplicate_id journals)
  journal_proposal lines

-- ActionService._journal_for
unfoldable pub journal_for :
    Host
    → ReconciliationPolicy
    → ExceptionCase
    → List CanonicalEvent
    → Result (Option JournalProposal)
journal_for host policy exception events =
    if str_eq exception.reason_code "MISSING_ERP_POSTING"
    then (do j ← missing_erp_journal policy events; ok (some j))
    else if str_eq exception.reason_code "DUPLICATE_ERP_POSTING"
    then (do j ← duplicate_reversal host events; ok (some j))
    else ok none
