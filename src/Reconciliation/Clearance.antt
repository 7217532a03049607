-- ===== src/Reconciliation/Clearance.antt =====
-- What an automatic clearance has to mean, said of the events and without the checks of
-- rules/settlement.py.
mod Analysis
mod Codes
mod Passed
mod Uniqueness
pub mod Sound
use veri_close.Prelude.{
  sort_by, String, true, not, ◌≡◌, ◌⊎◌, some, List, [], ◌∷◌, ℤ, pos, ◌-ℤ◌, ◌≤ℤ◌, abs, ok, All,
  filter, total, non_empty, non_empty_str, all, contains,
}
use veri_close.Domain.Enums.{is_credit}
use veri_close.Domain.Events.{CanonicalEvent}
use veri_close.Reconciliation.Context.{
  ReconciliationContext, gateway_settlement, erp_journals, bank_candidates,
}
use veri_close.Reconciliation.Grouping.{amount}
use veri_close.Reconciliation.Grouping.Complete.{IsGroup}
use veri_close.Reconciliation.Indexes.{by_id}
use veri_close.Reconciliation.Policy.{ReconciliationPolicy, AccountRolePolicy, tolerance, role}
use veri_close.Reconciliation.Rules.Bank.{utr_events, date_in_range}
use veri_close.Reconciliation.Rules.Erp.{
  is_posting, is_fee, is_tax, journal_debits, journal_credits,
}
use veri_close.Reconciliation.Rules.Gateway.{is_settlement, is_clearing, signed_total}

-- Two amounts differ by no more than a tolerance that the policy has.
abbrev pub Within : ReconciliationPolicy → String → ℤ → ℤ → Type 0
Within policy name a b = (t : ℤ) × (tolerance policy name ≡ ok t) × (abs (a -ℤ b) ≤ℤ t)

-- A journal posts an amount on the accounts of a role.
abbrev pub RolePosted : ReconciliationPolicy → List CanonicalEvent → String → ℤ → Type 0
RolePosted policy journal role_name expected =
    (r : AccountRolePolicy) × (role policy role_name ≡ ok r)
    × Within policy "erp_posting" (pos (total amount (filter (is_posting r) journal))) expected

-- The gateway: one settlement row, whose amount its signed components add up to.
pub record IsSettled (context : ReconciliationContext) (reference : String) (row : CanonicalEvent)
    : Type 0 where
  pub one_row : filter is_settlement (gateway_settlement context reference) ≡ row ∷ []
  pub net : ℤ
  pub components :
      signed_total context.policy (
        filter
          (λ (e : CanonicalEvent). not (is_settlement e))
          (gateway_settlement context reference))
      ≡ ok net
  pub adds_up : Within context.policy "settlement_components" net (pos (amount row))

-- The bank: credits that carry the reference of the row, in its window, with its amount.
pub record IsPaid (context : ReconciliationContext) (row : CanonicalEvent)
    (group : List CanonicalEvent) : Type 0 where
  pub some_receipt : non_empty group ≡ true
  pub paid : Within context.policy "bank_receipt" (pos (total amount group)) (pos (amount row))
  pub credited : All (λ (e : CanonicalEvent). is_credit e.direction ≡ true) group
  pub utr : String
  pub visible : non_empty_str utr ≡ true
  pub referenced : row.external_reference ≡ some utr
  pub carried : All (λ (e : CanonicalEvent). e.bank_utr ≡ some utr) group
  pub dated : All (λ (e : CanonicalEvent). date_in_range context row.event_at.date e ≡ true) group

-- No other group of an allowed size could have been meant: it is the only group of the unconsumed
-- candidates, of a size that the policy allows, with the amount, or no group of such a size has the
-- amount and it is the only unconsumed event with the reference.
abbrev pub IsOnly :
    ReconciliationContext → CanonicalEvent → List String → List CanonicalEvent → Type 0
IsOnly context row consumed group =
    (candidates : List CanonicalEvent) × (bank_candidates context row.event_at.date consumed
      ≡ ok candidates)
    × ((IsGroup context.policy.grouping (sort_by by_id candidates) (amount row) group
          × ((other : List CanonicalEvent)
              → IsGroup context.policy.grouping (sort_by by_id candidates) (amount row) other
              → other ≡ group))
        ⊎ (((other : List CanonicalEvent)
              → ¬ (IsGroup context.policy.grouping (sort_by by_id candidates) (amount row) other))
            × (event : CanonicalEvent) × (group ≡ event ∷ [])
            × (utr_events context consumed row.external_reference ≡ event ∷ [])))

-- The ledger: one journal, balanced, with the four postings.
pub record IsPosted (context : ReconciliationContext) (reference : String) (row : CanonicalEvent)
    : Type 0 where
  pub journal : List CanonicalEvent
  pub one_journal : erp_journals context reference ≡ journal ∷ []
  pub balanced : journal_debits journal ≡ journal_credits journal
  pub bank : RolePosted context.policy journal "bank" (pos (amount row))
  pub cleared : ℤ
  pub clearing_total :
      signed_total context.policy (filter is_clearing (gateway_settlement context reference))
      ≡ ok cleared
  pub clearing : RolePosted context.policy journal "clearing" cleared
  pub fee :
      RolePosted context.policy journal "fee"
        (pos (total amount (filter is_fee (gateway_settlement context reference))))
  pub tax :
      RolePosted context.policy journal "tax"
        (pos (total amount (filter is_tax (gateway_settlement context reference))))

pub record IsReconciled (context : ReconciliationContext) (reference : String)
    (consumed : List String) : Type 0 where
  pub row : CanonicalEvent
  pub settled : IsSettled context reference row
  pub group : List CanonicalEvent
  pub paid : IsPaid context row group
  pub only : IsOnly context row consumed group
  pub posted : IsPosted context reference row

-- the checks that the frozen policy requires
abbrev pub standard_checks : List String
standard_checks =
    "GATEWAY_SETTLEMENT_UNIQUE" ∷ "SETTLEMENT_COMPONENT_INVARIANT" ∷ "BANK_RECEIPT_PRESENT"
    ∷ "BANK_RECEIPT_AMOUNT" ∷ "BANK_RECEIPT_DIRECTION" ∷ "BANK_RECEIPT_REFERENCE"
    ∷ "BANK_RECEIPT_DATE" ∷ "BANK_RECEIPT_UNIQUE" ∷ "ERP_JOURNAL_PRESENT" ∷ "ERP_JOURNAL_UNIQUE"
    ∷ "ERP_JOURNAL_BALANCED" ∷ "ERP_BANK_POSTING" ∷ "ERP_CLEARING_POSTING" ∷ "ERP_FEE_POSTING"
    ∷ "ERP_TAX_POSTING" ∷ []

-- The policy requires them all.
abbrev pub RequiresStandard : ReconciliationPolicy → Type 0
RequiresStandard policy =
    All (λ (code : String). contains code policy.auto_clear_required_checks ≡ true) standard_checks
