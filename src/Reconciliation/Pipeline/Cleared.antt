-- ===== src/Reconciliation/Pipeline/Cleared.antt =====
-- What a run of reconciliation/pipeline.py has cleared.
use veri_close.Prelude.{[], ◌≡◌, ◌≤ℤ◌, sym, ◌∙◌, inl, inr, List, pos, ok}
use mathlib.Core.Bool.{false≢true}
use mathlib.Core.List.{Memᴰ}
use veri_close.Domain.Decisions.{ReconciliationDecision}
use veri_close.Domain.Enums.{DecisionState}
use veri_close.Domain.Events.{CanonicalEvent}
use veri_close.Reconciliation.Clearance.{IsReconciled, RequiresStandard}
use veri_close.Reconciliation.Clearance.Sound.{auto_cleared-IsReconciled}
use veri_close.Reconciliation.Context
use veri_close.Reconciliation.Context.{ReconciliationContext, settlement_references}
use veri_close.Reconciliation.Pipeline.{KernelResult, reconcile}
use veri_close.Reconciliation.Platform.{Platform}
use veri_close.Reconciliation.Policy.{ReconciliationPolicy}
use veri_close.Reconciliation.Proposals.{CaseProposal}
use veri_close.Reconciliation.RiskGate.{decide}
use veri_close.Reconciliation.RiskGate.Laws.{decide_clears_iff}
use veri_close.Reconciliation.Pipeline.Rounds.{traverse-mem}
use veri_close.Reconciliation.Pipeline.Turns.{IsTurn}
use veri_close.Reconciliation.Pipeline.Parts.{run_of, build_policy, Origin-of_run}

-- A decision of a run stands for a settlement of its gateway events: the gate made it of the analysis
-- in the turn of the settlement's reference, and the settlement is reconciled with the receipts
-- that the turns before had not consumed.
pub record StandsForReconciled (platform : Platform) (events : List CanonicalEvent)
    (policy : ReconciliationPolicy) (d : ReconciliationDecision) : Type 0 where
  pub context : ReconciliationContext
  pub built : Context.build events policy ≡ ok context
  pub proposal : CaseProposal
  pub turn :
      IsTurn platform context
        (settlement_references context)
        (record { bank = []; erp = [] })
        proposal
  pub decided : decide platform context.run_id proposal policy ≡ ok d
  pub reconciled : IsReconciled context turn.reference turn.so_far.consumed.bank

-- Whatever events a run is given: each of its decisions that clears automatically is the gate's
-- decision on the analysis of one of the settlement references of its gateway events, made with the
-- bank identifiers that matching the references before it, from nothing consumed, had left consumed;
-- and that settlement is reconciled with the receipts that are not among them. The policy requires
-- the fifteen checks of the frozen one and lets the search find two groups.
pub reconcile-StandsForReconciled :
    (platform : Platform) (events : List CanonicalEvent) (policy : ReconciliationPolicy)
    (k : KernelResult) (d : ReconciliationDecision)
    → reconcile platform events policy ≡ ok k
    → RequiresStandard policy
    → pos 2 ≤ℤ policy.grouping.max_valid_groups
    → Memᴰ d k.decisions
    → d.state ≡ DecisionState.auto_cleared
    → StandsForReconciled platform events policy d
reconcile-StandsForReconciled platform events policy k d h standard two m cleared =
    let r = run_of platform events policy k h in
    let (p, inside, decided) = traverse-mem _ k.proposals k.decisions d r.decided m in
    let clear = (decide_clears_iff platform r.context.run_id p policy d decided).0.0 cleared in
    let own = build_policy events policy r.context r.built in
    elim (Origin-of_run platform events policy k r p inside) [
      | inr ambiguous ↦ absurd (false≢true (sym clear.unambiguous ∙ ambiguous))
      | inl turn ↦ record {
        context = r.context;
        built = r.built;
        proposal = p;
        turn = turn;
        decided = decided;
        reconciled =
            auto_cleared-IsReconciled platform r.context turn.reference turn.so_far.consumed.bank p
              d r.context.run_id turn.analysed (rw own decided) cleared (rw own standard)
              (rw own two);
      }
    ]
