-- ===== src/Reconciliation/Pipeline/Cases.antt =====
-- Which decisions of a run become cases: reconciliation/pipeline.py and exception_factory.py.
use veri_close.Prelude.{
  String, Bool, true, false, not, ◌≡◌, refl, sym, ap, ◌∙◌, subst, inl, inr, none, some, List, [],
  ◌∷◌, ok, arith, traverse, Result-cases, Option-cases, >>=-eq-ok,
}
use veri_close.Domain.Decisions.{ReconciliationDecision}
use veri_close.Domain.Enums.{is_proved}
use veri_close.Domain.Events.{CanonicalEvent}
use veri_close.Domain.Exceptions.{ExceptionCase, exception_case}
use veri_close.Domain.Money.{money}
use veri_close.Reconciliation.Context
use veri_close.Reconciliation.Context.{ReconciliationContext}
use veri_close.Reconciliation.ExceptionFactory.{create_exception, unresolved, main_reason}
use veri_close.Reconciliation.Pipeline.{KernelResult, exceptions_of, reconcile}
use veri_close.Reconciliation.Pipeline.Parts.{run_of}
use veri_close.Reconciliation.Platform.{Platform}
use veri_close.Reconciliation.Policy.{
  ReconciliationPolicy, ExceptionPolicy, exception, versioned_id,
}
use veri_close.Reconciliation.Proposals.{CaseProposal, stable_id}
use veri_close.Reconciliation.RiskGate.{decide}

abbrev pub is_unproved : ReconciliationDecision → Bool
is_unproved d = not (is_proved d.proof_level)

module _ (platform : Platform) (run_id : String) (policy : ReconciliationPolicy) where
  -- The case of a proposal whose decision is not proved: the proposal's main reason, classified by
  -- the policy, its rules and amount, with the proof level and the evidence of the decision.
  pub record IsCaseOf (p : CaseProposal) (d : ReconciliationDecision) (x : ExceptionCase)
      : Type 0 where
    pub unproved : is_unproved d ≡ true
    pub case_id :
        x.case_id ≡ stable_id platform "case" (run_id ∷ p.case_key ∷ versioned_id policy ∷ [])
    pub reason_code : x.reason_code ≡ main_reason p.reason_codes
    pub classification : ExceptionPolicy
    pub classified : exception policy x.reason_code ≡ ok classification
    pub category : x.category ≡ classification.category
    pub severity : x.severity ≡ classification.severity
    pub recommended_action : x.recommended_action ≡ classification.action
    pub requires_company_input : x.requires_company_input ≡ classification.requires_company_input
    pub amount_at_risk : money p.amount_at_risk_minor policy.currency ≡ ok x.amount_at_risk
    pub rules_attempted : x.rules_attempted ≡ p.rules_attempted
    pub proof_level : x.proof_level ≡ d.proof_level
    pub evidence_links : x.evidence_links ≡ d.evidence_links

  -- Proposals, the gate's decision of each, in their order, and the cases of those that are not
  -- proved, in their order.
  pub data Decides
      : List CaseProposal → List ReconciliationDecision → List ExceptionCase → Type 0 where
    finished : Decides [] [] []
    proved :
        {p : CaseProposal} {d : ReconciliationDecision} {ps : List CaseProposal}
        {ds : List ReconciliationDecision} {xs : List ExceptionCase}
        → decide platform run_id p policy ≡ ok d
        → is_unproved d ≡ false
        → Decides ps ds xs
        → Decides (p ∷ ps) (d ∷ ds) xs
    unproved :
        {p : CaseProposal} {d : ReconciliationDecision} {x : ExceptionCase} {ps : List CaseProposal}
        {ds : List ReconciliationDecision} {xs : List ExceptionCase}
        → decide platform run_id p policy ≡ ok d
        → IsCaseOf p d x
        → Decides ps ds xs
        → Decides (p ∷ ps) (d ∷ ds) (x ∷ xs)

  exception_case_same : (x y : ExceptionCase) → exception_case x ≡ ok y → x ≡ y
  unfolding exception_case
  exception_case_same x y h = ground arith

  unresolved-IsCaseOf :
      (p : CaseProposal) (d : ReconciliationDecision) (x : ExceptionCase)
      → is_unproved d ≡ true
      → unresolved platform run_id p d policy ≡ ok x
      → IsCaseOf p d x
  unfolding unresolved
  unresolved-IsCaseOf p d x u h =
      let (c, found, h1) = >>=-eq-ok _ _ h in
      let (m, valued, h2) = >>=-eq-ok _ _ h1 in
      let same = exception_case_same _ x h2 in
      subst (IsCaseOf p d) same (record {
        unproved = u;
        case_id = refl;
        reason_code = refl;
        classification = c;
        classified = found;
        category = refl;
        severity = refl;
        recommended_action = refl;
        requires_company_input = refl;
        amount_at_risk = valued;
        rules_attempted = refl;
        proof_level = refl;
        evidence_links = refl;
      })

  create_exception-none :
      (p : CaseProposal) (d : ReconciliationDecision)
      → create_exception platform run_id p d policy ≡ ok none
      → is_unproved d ≡ false
  unfolding create_exception
  create_exception-none p d h = elim (Result-cases (unresolved platform run_id p d policy)) [
    | inr (e, failed) ↦ ground (arith, failed)
    | inl (x, made) ↦ ground (arith, made)
  ]

  create_exception-some :
      (p : CaseProposal) (d : ReconciliationDecision) (x : ExceptionCase)
      → create_exception platform run_id p d policy ≡ ok (some x)
      → IsCaseOf p d x
  unfolding create_exception
  create_exception-some p d x h = elim (Result-cases (unresolved platform run_id p d policy)) [
    | inr (e, failed) ↦ absurd (ground (arith, failed))
    | inl (y, made) ↦
        let same : y ≡ x = ground (arith, made) in
        subst (IsCaseOf p d) same (unresolved-IsCaseOf p d y (ground (arith, made)) made)
  ]

  decided_one :
      (p : CaseProposal) (ps : List CaseProposal) (d : ReconciliationDecision)
      (ds : List ReconciliationDecision) (xs : List ExceptionCase)
      → decide platform run_id p policy ≡ ok d
      → exceptions_of platform run_id policy (p ∷ ps) (d ∷ ds) ≡ ok xs
      → ((cases : List ExceptionCase)
          → exceptions_of platform run_id policy ps ds ≡ ok cases
          → Decides ps ds cases)
      → Decides (p ∷ ps) (d ∷ ds) xs
  unfolding exceptions_of
  decided_one p ps d ds xs gate h below =
      elim (Result-cases (create_exception platform run_id p d policy)) [
        | inr (e, failed) ↦ absurd (ground arith)
        | inl (o, case_of) ↦ elim (Result-cases (exceptions_of platform run_id policy ps ds)) [
          | inr (e, failed) ↦ absurd (ground arith)
          | inl (cases, reported) ↦ elim (Option-cases o) [
            | inl nothing ↦
                let same : cases ≡ xs = ground (arith, nothing) in
                subst (Decides (p ∷ ps) (d ∷ ds)) same (
                  proved gate (create_exception-none p d (case_of ∙ ap ok nothing))
                    (below cases reported))
            | inr (x, something) ↦
                let same : x ∷ cases ≡ xs = ground (arith, something) in
                subst (Decides (p ∷ ps) (d ∷ ds)) same (
                  unproved gate (create_exception-some p d x (case_of ∙ ap ok something))
                    (below cases reported))
          ]
        ]
      ]

  decided-Decides :
      (ps : List CaseProposal) (ds : List ReconciliationDecision) (xs : List ExceptionCase)
      → traverse (λ (p : CaseProposal). decide platform run_id p policy) ps ≡ ok ds
      → exceptions_of platform run_id policy ps ds ≡ ok xs
      → Decides ps ds xs
  unfolding exceptions_of traverse
  decided-Decides [] ds xs t h =
      let no_decision : ds ≡ [] = ground arith in
      let no_case : xs ≡ [] = ground (arith, no_decision) in
      subst (λ (e : List ReconciliationDecision). Decides [] e xs) (sym no_decision)
        (subst (Decides [] []) (sym no_case) finished)
  decided-Decides (p ∷ ps) ds xs t h = elim (Result-cases (decide platform run_id p policy)) [
    | inr (e, failed) ↦ absurd (ground arith)
    | inl (d, gate) ↦
        elim (Result-cases (traverse (λ (q : CaseProposal). decide platform run_id q policy) ps)) [
          | inr (e, failed) ↦ absurd (ground arith)
          | inl (rest, others) ↦
              let made : d ∷ rest ≡ ds = ground arith in
              subst (λ (e : List ReconciliationDecision). Decides (p ∷ ps) e xs) made
                (decided_one p ps d rest xs gate (rw (sym made) at h)
                  (λ cases. decided-Decides ps rest cases others))
        ]
  ]

-- The decisions of a run are the gate's decisions of its proposals, one for each, in their order, and
-- its cases are one for each decision that is not proved, in their order: of the main reason of the
-- decision's own proposal, as the policy classifies it, with the proposal's rules and amount and the
-- decision's proof level and evidence.
pub reconcile-cases :
    (platform : Platform) (events : List CanonicalEvent) (policy : ReconciliationPolicy)
    (k : KernelResult)
    → reconcile platform events policy ≡ ok k
    → (context : ReconciliationContext) × (Context.build events policy ≡ ok context)
      × Decides platform context.run_id policy k.proposals k.decisions k.exceptions
reconcile-cases platform events policy k h =
    let r = run_of platform events policy k h in
    (
      r.context,
      r.built,
      decided-Decides platform r.context.run_id policy k.proposals k.decisions k.exceptions
          r.decided r.reported,
    )
