-- ===== src/Reconciliation/Pipeline/Parts.antt =====
-- The parts of a run of reconciliation/pipeline.py that returned.
use veri_close.Prelude.{
  ◌≡◌, refl, ◌⊎◌, true, inl, inr, List, [], ◌∷◌, ◌++◌, ok, arith, >>=-eq-ok, traverse, subst,
}
use mathlib.Core.List.{Memᴰ}
use veri_close.Domain.Events.{CanonicalEvent}
use veri_close.Domain.Exceptions.{ExceptionCase}
use veri_close.Reconciliation.Context
use veri_close.Reconciliation.Context.{ReconciliationContext, build_from, settlement_references}
use veri_close.Reconciliation.Grouping.Subsets.{mem_append-cases}
use veri_close.Reconciliation.Pipeline.{
  KernelResult, Matched, match_references, orphan_proposals, reconcile, exceptions_of,
}
use veri_close.Reconciliation.Platform.{Platform}
use veri_close.Reconciliation.Policy.{ReconciliationPolicy}
use veri_close.Reconciliation.Proposals.{CaseProposal}
use veri_close.Reconciliation.RiskGate.{decide}
use veri_close.Reconciliation.Pipeline.Turns.{IsTurn, match_references-IsTurn}
use veri_close.Reconciliation.Pipeline.Rounds.{orphan_proposals-ambiguous}

-- What a run consists of.
pub record Run (platform : Platform) (events : List CanonicalEvent) (policy : ReconciliationPolicy)
    (k : KernelResult) : Type 0 where
  pub context : ReconciliationContext
  pub built : Context.build events policy ≡ ok context
  pub matched : Matched
  pub matched_ok :
      match_references platform context
        (settlement_references context)
        (record { bank = []; erp = [] })
      ≡ ok matched
  pub orphans : List CaseProposal
  pub orphans_ok : orphan_proposals platform context matched.consumed ≡ ok orphans
  pub proposals : k.proposals ≡ matched.proposals ++ orphans
  pub decided :
      traverse (λ (p : CaseProposal). decide platform context.run_id p policy) k.proposals
      ≡ ok k.decisions
  pub reported :
      exceptions_of platform context.run_id policy k.proposals k.decisions ≡ ok k.exceptions

pub run_of :
    (platform : Platform) (events : List CanonicalEvent) (policy : ReconciliationPolicy)
    (k : KernelResult)
    → reconcile platform events policy ≡ ok k
    → Run platform events policy k
unfolding reconcile
run_of platform events policy k h =
    let (context, built, h1) = >>=-eq-ok _ _ h in
    let (matched, matched_ok, h2) = >>=-eq-ok _ _ h1 in
    let (orphans, orphans_ok, h3) = >>=-eq-ok _ _ h2 in
    let (decisions, decided, h4) = >>=-eq-ok _ _ h3 in
    let (exceptions, made, h5) =
      >>=-eq-ok
        (exceptions_of platform context.run_id policy (matched.proposals ++ orphans) decisions)
        (λ (xs : List ExceptionCase). ok (record {
          proposals = matched.proposals ++ orphans;
          decisions = decisions;
          exceptions = xs;
        }))
        h4 in
    let same : record {
      proposals = matched.proposals ++ orphans;
      decisions = decisions;
      exceptions = exceptions;
    }
        ≡ k =
      ground arith in
    subst (Run platform events policy) same (record {
      context = context;
      built = built;
      matched = matched;
      matched_ok = matched_ok;
      orphans = orphans;
      orphans_ok = orphans_ok;
      proposals = refl;
      decided = decided;
      reported = made;
    })

pub build_policy :
    (events : List CanonicalEvent) (policy : ReconciliationPolicy) (context : ReconciliationContext)
    → Context.build events policy ≡ ok context
    → context.policy ≡ policy
unfolding Context.build build_from
build_policy [] policy context h = absurd (ground arith)
build_policy (first ∷ rest) policy context h = ground arith

-- What a proposal of the run is: what a turn of the loop over the references made, or a case of what
-- is left over, which is ambiguous.
abbrev pub Origin : Platform → ReconciliationContext → CaseProposal → Type 0
Origin platform context p =
    IsTurn platform context (settlement_references context) (record { bank = []; erp = [] }) p
    ⊎ (p.ambiguous ≡ true)

pub Origin-of_run :
    (platform : Platform) (events : List CanonicalEvent) (policy : ReconciliationPolicy)
    (k : KernelResult) (r : Run platform events policy k) (p : CaseProposal)
    → Memᴰ p k.proposals
    → Origin platform r.context p
Origin-of_run platform events policy k r p m =
    elim (mem_append-cases r.matched.proposals r.orphans (subst (Memᴰ p) r.proposals m)) [
      | inl among ↦ inl (
          match_references-IsTurn platform r.context (settlement_references r.context) _ r.matched p
            r.matched_ok among)
      | inr among ↦ inr (
          orphan_proposals-ambiguous platform r.context r.matched.consumed r.orphans p r.orphans_ok
            among)
    ]
