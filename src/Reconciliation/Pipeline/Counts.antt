-- ===== src/Reconciliation/Pipeline/Counts.antt =====
-- The count of cleared decisions that a result of reconciliation/pipeline.py reports.
use veri_close.Prelude.{
  String, Bool, true, ◌≡◌, refl, sym, ◌∙◌, ap, inl, inr, List, [], ◌∷◌, ok, arith, filter, length,
  traverse, Result-cases, Bool-cases,
}
use mathlib.Core.Bool.{false≢true}
use veri_close.Domain.Decisions.{ReconciliationDecision, is_auto_cleared}
use veri_close.Domain.Enums.{DecisionState}
use veri_close.Domain.Events.{CanonicalEvent}
use veri_close.Reconciliation.Pipeline.{KernelResult, auto_cleared_count, reconcile}
use veri_close.Reconciliation.Pipeline.Parts.{run_of}
use veri_close.Reconciliation.Platform.{Platform}
use veri_close.Reconciliation.Policy.{ReconciliationPolicy}
use veri_close.Reconciliation.Proposals.{CaseProposal}
use veri_close.Reconciliation.RiskGate.{decide}
use veri_close.Reconciliation.RiskGate.Laws.{decide_clears_iff}

abbrev pub clears : ReconciliationDecision → Bool
clears d = is_auto_cleared d.state

abbrev allows : ReconciliationDecision → Bool
allows d = d.policy_allows_auto_clear

cleared_state : (s : DecisionState) → is_auto_cleared s ≡ true → s ≡ DecisionState.auto_cleared
cleared_state DecisionState.auto_cleared h = refl
cleared_state s h = absurd (false≢true h)

module _ (platform : Platform) (run_id : String) (policy : ReconciliationPolicy) where
  clears-allows :
      (p : CaseProposal) (d : ReconciliationDecision)
      → decide platform run_id p policy ≡ ok d
      → clears d ≡ allows d
  clears-allows p d h =
      let (by_state, by_flag) = decide_clears_iff platform run_id p policy d h in
      elim (Bool-cases (allows d)) [
        | inl allowed ↦ ap is_auto_cleared (by_state.1 (by_flag.0 allowed)) ∙ sym allowed
        | inr held ↦ elim (Bool-cases (clears d)) [
          | inl cleared ↦
              absurd
                (false≢true (sym held ∙ by_flag.1 (by_state.0 (cleared_state d.state cleared))))
          | inr open_case ↦ open_case ∙ sym held
        ]
      ]

  filter-clears :
      (ps : List CaseProposal) (ds : List ReconciliationDecision)
      → traverse (λ (p : CaseProposal). decide platform run_id p policy) ps ≡ ok ds
      → filter allows ds ≡ filter clears ds
  unfolding traverse filter
  filter-clears [] ds h = let same : ds ≡ [] = ground arith in rw same refl
  filter-clears (p ∷ ps) ds h = elim (Result-cases (decide platform run_id p policy)) [
    | inr (e, failed) ↦ absurd (ground arith)
    | inl (d, made) ↦
        elim (Result-cases (traverse (λ (q : CaseProposal). decide platform run_id q policy) ps)) [
          | inr (e, failed) ↦ absurd (ground arith)
          | inl (rest, rest_ok) ↦
              let same : ds ≡ d ∷ rest = ground arith in
              rw same (rw (clears-allows p d made) (rw (filter-clears ps rest rest_ok) refl))
        ]
  ]

-- The count that a run reports is the number of its decisions whose state is AUTO_CLEARED.
pub auto_cleared_count-reconcile :
    (platform : Platform) (events : List CanonicalEvent) (policy : ReconciliationPolicy)
    (k : KernelResult)
    → reconcile platform events policy ≡ ok k
    → auto_cleared_count k ≡ length (filter clears k.decisions)
unfolding auto_cleared_count
auto_cleared_count-reconcile platform events policy k h =
    let r = run_of platform events policy k h in
    ap length (filter-clears platform r.context.run_id policy k.proposals k.decisions r.decided)
