-- ===== src/Reconciliation/Clearance/Analysis.antt =====
-- The parts that an analysis of rules/settlement.py that returned was put together from.
use veri_close.Prelude.{
  String, ◌≡◌, inl, inr, Bool, ◌&&◌, List, ◌++◌, ℤ, ok, arith, Result-cases, traverse, dedup,
}
use veri_close.Domain.Evidence.{ProofCheck}
use veri_close.Reconciliation.Platform.{Platform}
use veri_close.Reconciliation.Context.{ReconciliationContext}
use veri_close.Reconciliation.Proposals.{CaseProposal, SupportFeature}
use veri_close.Reconciliation.Rules.Bank.{BankPart, bank_part}
use veri_close.Reconciliation.Rules.Checks.{required_passed}
use veri_close.Reconciliation.Rules.Erp.{ErpPart, erp_part}
use veri_close.Reconciliation.Rules.Gateway.{GatewayPart, gateway_part, one_row}
use veri_close.Reconciliation.Rules.Settlement.{
  analyze_settlement, proof_checks_of, settlement_score, support_check,
}

pub record Analysis (platform : Platform) (context : ReconciliationContext) (reference : String)
    (consumed : List String) (p : CaseProposal) : Type 0 where
  pub gateway : GatewayPart
  pub gateway_ok : gateway_part context reference ≡ ok gateway
  pub bank : BankPart
  pub bank_ok : bank_part context gateway consumed ≡ ok bank
  pub erp : ErpPart
  pub erp_ok : erp_part context gateway reference ≡ ok erp
  pub proved : Bool
  pub score : ℤ
  pub features : List SupportFeature
  pub score_ok :
      settlement_score platform context reference gateway bank proved ≡ ok (score, features)
  pub support : List ProofCheck
  pub support_ok : traverse (support_check context.policy bank.cited) features ≡ ok support
  pub proof_checks : p.proof_checks ≡ proof_checks_of gateway bank erp ++ support
  pub reason_codes : p.reason_codes ≡ dedup (gateway.reasons ++ (bank.reasons ++ erp.reasons))
  pub unique : p.uniqueness_passed ≡ (one_row gateway.rows && bank.unique && erp.unique)
  pub ambiguous : p.ambiguous ≡ bank.ambiguous

module _ (platform : Platform) (context : ReconciliationContext) (reference : String)
    (consumed : List String) (p : CaseProposal)
    (h : analyze_settlement platform context reference consumed ≡ ok p) where
  hard_proved : GatewayPart → BankPart → ErpPart → Bool
  hard_proved g b e =
      required_passed context.policy.auto_clear_required_checks (proof_checks_of g b e)
      && (one_row g.rows && b.unique && e.unique)

  pub analysis : Analysis platform context reference consumed p
  unfolding analyze_settlement hard_proved
  analysis = elim (Result-cases (gateway_part context reference)) [
    | inr (x, f) ↦ absurd (ground arith)
    | inl (g, eg) ↦ elim (Result-cases (bank_part context g consumed)) [
      | inr (x, f) ↦ absurd (ground arith)
      | inl (b, eb) ↦ elim (Result-cases (erp_part context g reference)) [
        | inr (x, f) ↦ absurd (ground arith)
        | inl (e, ee) ↦
            elim (Result-cases
              (settlement_score platform context reference g b (hard_proved g b e))) [
                | inr (x, f) ↦ absurd (ground arith)
                | inl ((score, features), es) ↦
                    elim (Result-cases (traverse (support_check context.policy b.cited) features)) [
                      | inr (x, f) ↦ absurd (ground arith)
                      | inl (support, et) ↦ record {
                        gateway = g;
                        gateway_ok = eg;
                        bank = b;
                        bank_ok = eb;
                        erp = e;
                        erp_ok = ee;
                        proved = hard_proved g b e;
                        score = score;
                        features = features;
                        score_ok = es;
                        support = support;
                        support_ok = et;
                        proof_checks = ground arith;
                        reason_codes = ground arith;
                        unique = ground arith;
                        ambiguous = ground arith;
                      }
                    ]
              ]
      ]
    ]
  ]
