-- ===== src/Reconciliation/Rules/Erp.antt =====
-- rules/settlement.py, the ledger step: the ERP journal and the postings of the four roles.
pub mod Facts
use veri_close.Prelude.{
  ℕ, String, Bool, true, false, not, ◌&&◌, Option, none, some, List, [], ◌∷◌, ◌++◌, ℤ, pos, ◌-ℤ◌,
  abs, leb_ℤ, ltb, nat_eq, Result, ok, ◌>>=◌, traverse, filter, length, non_empty, total, contains,
}
use mathlib.Core.List.{flatten}
use veri_close.Domain.Enums.{EventType, is_credit, same_direction}
use veri_close.Domain.Events.{CanonicalEvent, Scalar}
use veri_close.Domain.Evidence.{EvidenceLink, ProofCheck}
use veri_close.Reconciliation.Context.{ReconciliationContext, erp_journals}
use veri_close.Reconciliation.Grouping.{amount}
use veri_close.Reconciliation.Policy.{ReconciliationPolicy, AccountRolePolicy, role, tolerance}
use veri_close.Reconciliation.Proposals.{evidence}
use veri_close.Reconciliation.Rules.Bank.{or_links, reason_if}
use veri_close.Reconciliation.Rules.Checks.{check}
use veri_close.Reconciliation.Rules.Gateway.{GatewayPart}

-- erp_journals[0] if len(erp_journals) == 1 else ()
abbrev pub only_journal : List (List CanonicalEvent) → List CanonicalEvent
only_journal (journal ∷ []) = journal
only_journal _ = []

abbrev pub is_fee : CanonicalEvent → Bool
is_fee event = elim event.event_type [ EventType.fee ↦ true | _ ↦ false ]

abbrev pub is_tax : CanonicalEvent → Bool
is_tax event = elim event.event_type [ EventType.tax ↦ true | _ ↦ false ]

-- event.account_code in account_codes
abbrev pub has_code : List String → Option String → Bool
has_code codes none = false
has_code codes (some code) = contains code codes

unfoldable pub is_posting : AccountRolePolicy → CanonicalEvent → Bool
unfolding contains
is_posting role_policy event =
    has_code role_policy.account_codes event.account_code
    && same_direction event.direction role_policy.direction

-- One round of the loop over the roles: the check and whether it passed.
pub record Posting : Type 0 where
  pub proof : ProofCheck
  pub passed : Bool

unfoldable pub posting :
    ReconciliationPolicy
    → List CanonicalEvent
    → List EvidenceLink
    → String
    → String
    → ℤ
    → Result Posting
posting policy journal cited check_code role_name expected = do
  role_policy ← role policy role_name
  let observed = total amount (filter (is_posting role_policy) journal)
  posting_tolerance ← tolerance policy "erp_posting"
  let passed = non_empty journal && leb_ℤ (abs (pos observed -ℤ expected)) posting_tolerance
  proof ←
      check check_code (Scalar.int expected) (Scalar.int (pos observed)) passed cited
        (some posting_tolerance)
  ok (record { proof = proof; passed = passed })

pub record ErpPart : Type 0 where
  pub events : List CanonicalEvent
  pub journal : List CanonicalEvent
  pub links : List EvidenceLink
  pub unique : Bool
  pub balanced : Bool
  pub invalid_input : Bool
  pub checks : List ProofCheck
  pub reasons : List String

unfoldable pub journal_debits : List CanonicalEvent → ℕ
unfolding filter total
journal_debits journal =
    total amount (filter (λ (e : CanonicalEvent). not (is_credit e.direction)) journal)

unfoldable pub journal_credits : List CanonicalEvent → ℕ
unfolding filter total
journal_credits journal =
    total amount (filter (λ (e : CanonicalEvent). is_credit e.direction) journal)

-- the ledger step of `analyze_settlement`, up to the postings of the four roles
unfoldable pub erp_part : ReconciliationContext → GatewayPart → String → Result ErpPart
erp_part context gateway settlement_reference = do
  let journals = erp_journals context settlement_reference
  let events = flatten journals
  links ← traverse (λ (e : CanonicalEvent). evidence e "ERP posting candidate") events
  let cited = or_links links gateway.links
  let present = non_empty journals
  present_check ←
      check "ERP_JOURNAL_PRESENT" (Scalar.bool true) (Scalar.bool present) present cited none
  let unique = nat_eq (length journals) 1
  unique_check ←
      check "ERP_JOURNAL_UNIQUE" (Scalar.int (pos 1)) (Scalar.int (pos (length journals))) unique
        cited none
  let journal = only_journal journals
  let debit_total = journal_debits journal
  let credit_total = journal_credits journal
  let balanced = non_empty journal && nat_eq debit_total credit_total
  balanced_check ←
      check "ERP_JOURNAL_BALANCED" (Scalar.int (pos debit_total)) (Scalar.int (pos credit_total))
        balanced cited none
  let fees = total amount (filter is_fee gateway.gateway)
  let taxes = total amount (filter is_tax gateway.gateway)
  bank ← posting context.policy journal cited "ERP_BANK_POSTING" "bank" (pos gateway.observed_net)
  clearing ←
      posting context.policy journal cited "ERP_CLEARING_POSTING" "clearing"
        gateway.clearing_expected
  fee ← posting context.policy journal cited "ERP_FEE_POSTING" "fee" (pos fees)
  tax ← posting context.policy journal cited "ERP_TAX_POSTING" "tax" (pos taxes)
  let all_posted = bank.passed && clearing.passed && fee.passed && tax.passed
  ok (record {
    events = events;
    journal = journal;
    links = links;
    unique = unique;
    balanced = balanced;
    invalid_input = non_empty journal && not balanced;
    checks =
        present_check ∷ unique_check ∷ balanced_check ∷ bank.proof ∷ clearing.proof ∷ fee.proof
        ∷ tax.proof ∷ [];
    reasons =
        reason_if (not present) "MISSING_ERP_POSTING"
        ++ reason_if (ltb 1 (length journals)) "DUPLICATE_ERP_POSTING"
        ++ reason_if (non_empty journal && not balanced) "ERP_JOURNAL_UNBALANCED"
        ++ reason_if (non_empty journal && balanced && not all_posted) "ERP_POSTING_MISMATCH";
  })
