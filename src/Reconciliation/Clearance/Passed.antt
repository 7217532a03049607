-- ===== src/Reconciliation/Clearance/Passed.antt =====
-- What the checks of an analysis say where the gate has cleared it.
use veri_close.Prelude.{
  String, true, false, ◌≡◌, refl, sym, ◌∙◌, ap, none, List, [], ◌∷◌, ◌++◌, map, ok, contains,
  contains_elim, non_empty, subst, dedup, Bool-cases, inl, inr,
}
use mathlib.Core.Bool.{false≢true}
use veri_close.Reconciliation.Platform.{Platform}
use veri_close.Reconciliation.Clearance.{standard_checks, RequiresStandard}
use veri_close.Reconciliation.Clearance.Analysis.{Analysis, analysis}
use veri_close.Reconciliation.Clearance.Codes.{
  last_flag-support, map-append_three, no_hard-middle, support_codes,
}
use veri_close.Reconciliation.Context.{ReconciliationContext, erp_journals}
use veri_close.Reconciliation.Proposals.{CaseProposal}
use veri_close.Reconciliation.RiskGate.{contradiction_of}
use veri_close.Reconciliation.RiskGate.Laws.{IsClear}
use veri_close.Reconciliation.Rules.Bank.{BankPart, identifier_conflict}
use veri_close.Reconciliation.Rules.Bank.Facts as Bank
use veri_close.Reconciliation.Rules.Erp.{ErpPart}
use veri_close.Reconciliation.Rules.Erp.Facts as Erp
use veri_close.Reconciliation.Rules.Flags.{Flag, flag, last_flag, or_false, required_flag}
use veri_close.Reconciliation.Rules.Gateway.{GatewayPart, one_row}
use veri_close.Reconciliation.Rules.Settlement.{analyze_settlement}
use veri_close.Reconciliation.Rules.Gateway.Facts as Gateway

-- the codes and results of all the checks of the three steps
abbrev flags_of :
    (context : ReconciliationContext) (reference : String) (g : GatewayPart) (b : BankPart)
    (e : ErpPart)
    → Erp.Roles context g reference e
    → List Flag
flags_of context reference g b e roles =
    (record { code = "GATEWAY_SETTLEMENT_UNIQUE"; passed = one_row g.rows }
      ∷ record { code = "SETTLEMENT_COMPONENT_INVARIANT"; passed = g.component_passed }
      ∷ record { code = "SETTLEMENT_COMPONENT_VARIANCE"; passed = g.component_passed }
      ∷ [])
    ++ ((record { code = "BANK_RECEIPT_PRESENT"; passed = non_empty b.group }
          ∷ record { code = "BANK_RECEIPT_AMOUNT"; passed = b.amount_passed }
          ∷ record { code = "BANK_RECEIPT_DIRECTION"; passed = b.direction_passed }
          ∷ record { code = "BANK_RECEIPT_REFERENCE"; passed = b.reference_passed }
          ∷ record { code = "BANK_RECEIPT_DATE"; passed = b.date_passed }
          ∷ record { code = "BANK_RECEIPT_UNIQUE"; passed = b.unique }
          ∷ [])
        ++ (record {
          code = "ERP_JOURNAL_PRESENT";
          passed = non_empty (erp_journals context reference);
        }
            ∷ record { code = "ERP_JOURNAL_UNIQUE"; passed = e.unique }
            ∷ record { code = "ERP_JOURNAL_BALANCED"; passed = e.balanced }
            ∷ record { code = "ERP_BANK_POSTING"; passed = roles.bank }
            ∷ record { code = "ERP_CLEARING_POSTING"; passed = roles.clearing }
            ∷ record { code = "ERP_FEE_POSTING"; passed = roles.fee }
            ∷ record { code = "ERP_TAX_POSTING"; passed = roles.tax }
            ∷ []))

pub record IsPassed (context : ReconciliationContext) (reference : String) (consumed : List String)
    (g : GatewayPart) (b : BankPart) (e : ErpPart) (roles : Erp.Roles context g reference e)
    : Type 0 where
  pub row : one_row g.rows ≡ true
  pub component : g.component_passed ≡ true
  pub present : non_empty b.group ≡ true
  pub receipt : b.amount_passed ≡ true
  pub direction : b.direction_passed ≡ true
  pub referenced : b.reference_passed ≡ true
  pub date : b.date_passed ≡ true
  pub only : b.unique ≡ true
  pub journal : e.unique ≡ true
  pub balanced : e.balanced ≡ true
  pub bank : roles.bank ≡ true
  pub clearing : roles.clearing ≡ true
  pub fee : roles.fee ≡ true
  pub tax : roles.tax ≡ true
  pub no_conflict :
      identifier_conflict (Bank.exact_events context g consumed) g.observed_net ≡ false

module _ (platform : Platform) (context : ReconciliationContext) (reference : String)
    (consumed : List String) (p : CaseProposal)
    (h : analyze_settlement platform context reference consumed ≡ ok p)
    (clear : IsClear p context.policy) (standard : RequiresStandard context.policy) where
  abbrev pub a : Analysis platform context reference consumed p
  a = analysis platform context reference consumed p h

  abbrev pub gateway_facts : Gateway.Facts context reference a.gateway
  gateway_facts = Gateway.gateway_part-Facts context reference a.gateway a.gateway_ok

  abbrev pub bank_facts : Bank.Facts context a.gateway consumed a.bank
  bank_facts = Bank.bank_part-Facts context a.gateway consumed a.bank a.bank_ok

  abbrev pub erp_facts : Erp.Facts context a.gateway reference a.erp
  erp_facts = Erp.erp_part-Facts context a.gateway reference a.erp a.erp_ok

  abbrev flags : List Flag
  flags = flags_of context reference a.gateway a.bank a.erp erp_facts.roles

  flags_eq : map flag p.proof_checks ≡ flags ++ map flag a.support
  flags_eq =
      ap (map flag) a.proof_checks
      ∙ map-append_three flag a.gateway.checks a.bank.checks a.erp.checks a.support
      ∙ rw (gateway_facts.flags, bank_facts.flags, erp_facts.roles.flags) refl

  -- A required check has passed, by the last check of its code.
  passed_of :
      (code : String)
      → contains code standard_checks ≡ true
      → contains code support_codes ≡ false
      → or_false (last_flag flags code) ≡ true
  passed_of code k s =
      subst (λ o. or_false o ≡ true)
        (ap (λ fs. last_flag fs code) flags_eq
          ∙ last_flag-support platform context reference a.gateway a.bank a.proved a.score
              a.features a.support flags code a.score_ok a.support_ok s)
        (required_flag context.policy.auto_clear_required_checks p.proof_checks code clear.checked (
          contains_elim (λ c. contains c context.policy.auto_clear_required_checks ≡ true) code
            standard_checks k standard))

  no_conflict_of :
      identifier_conflict (Bank.exact_events context a.gateway consumed) a.gateway.observed_net
      ≡ false
  no_conflict_of =
      elim (Bool-cases (
        identifier_conflict (Bank.exact_events context a.gateway consumed)
          a.gateway.observed_net)) [
            | inr none_there ↦ none_there
            | inl conflict ↦
                let given = bank_facts.conflict_reason conflict in
                let uncontradicted : contradiction_of
                      (dedup (a.gateway.reasons ++ (a.bank.reasons ++ a.erp.reasons)))
                    ≡ none =
                  ap contradiction_of (sym a.reason_codes) ∙ clear.uncontradicted in
                absurd (
                  false≢true (
                    sym (
                      no_hard-middle a.gateway.reasons a.bank.reasons a.erp.reasons
                        "DUPLICATE_IDENTIFIER" uncontradicted (unfold contains in refl))
                    ∙ given))
          ]

  pub passed : IsPassed context reference consumed a.gateway a.bank a.erp erp_facts.roles
  unfolding last_flag contains
  passed = record {
    row = passed_of "GATEWAY_SETTLEMENT_UNIQUE" refl refl;
    component = passed_of "SETTLEMENT_COMPONENT_INVARIANT" refl refl;
    present = passed_of "BANK_RECEIPT_PRESENT" refl refl;
    receipt = passed_of "BANK_RECEIPT_AMOUNT" refl refl;
    direction = passed_of "BANK_RECEIPT_DIRECTION" refl refl;
    referenced = passed_of "BANK_RECEIPT_REFERENCE" refl refl;
    date = passed_of "BANK_RECEIPT_DATE" refl refl;
    only = passed_of "BANK_RECEIPT_UNIQUE" refl refl;
    journal = passed_of "ERP_JOURNAL_UNIQUE" refl refl;
    balanced = passed_of "ERP_JOURNAL_BALANCED" refl refl;
    bank = passed_of "ERP_BANK_POSTING" refl refl;
    clearing = passed_of "ERP_CLEARING_POSTING" refl refl;
    fee = passed_of "ERP_FEE_POSTING" refl refl;
    tax = passed_of "ERP_TAX_POSTING" refl refl;
    no_conflict = no_conflict_of;
  }
