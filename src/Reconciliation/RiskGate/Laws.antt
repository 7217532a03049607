-- ===== src/Reconciliation/RiskGate/Laws.antt =====
-- What the gate of reconciliation/risk_gate.py lets through, and when its decision can be built.
use veri_close.Prelude.{
  String, true, false, not, ◌&&◌, ◌||◌, ◌≡◌, refl, ◌↔◌, none, some, List, [], ◌∷◌, ok, arith,
  contains, contains_elim, first-holds, all, length, nat_eq, dedup, non_empty, non_empty_str,
  filter, is_blank, is_blank-append, Bool-cases, inl, inr, Option-cases, subst,
}
use veri_close.Domain.Enums.{DecisionState, ProofLevel, is_proved}
use veri_close.Domain.Decisions.{
  ReconciliationDecision, reconciliation_decision, require_proof, is_auto_cleared, is_contradicted,
  when,
}
use veri_close.Domain.Events.{require_text, truthy}
use veri_close.Domain.Evidence.{ProofCheck}
use veri_close.Reconciliation.Platform.{Platform}
use veri_close.Reconciliation.Policy.{ReconciliationPolicy, versioned_id}
use veri_close.Reconciliation.Proposals.{CaseProposal, stable_id}
use veri_close.Reconciliation.RiskGate.{
  hard_contradictions, contradiction_of, dispose, decided, decide,
}
use veri_close.Reconciliation.Rules.Checks.{required_passed}

-- What a case has to show to be cleared with no person.
pub record IsClear (proposal : CaseProposal) (policy : ReconciliationPolicy) : Type 0 where
  pub valid : proposal.invalid_input ≡ false
  pub unambiguous : proposal.ambiguous ≡ false
  pub uncontradicted : contradiction_of proposal.reason_codes ≡ none
  pub checked : required_passed policy.auto_clear_required_checks proposal.proof_checks ≡ true
  pub unique : proposal.uniqueness_passed ≡ true
  pub enabled : policy.auto_clear_enabled ≡ true

reconciliation_decision_same :
    (d e : ReconciliationDecision) → reconciliation_decision d ≡ ok e → d ≡ e
unfolding reconciliation_decision
reconciliation_decision_same d e h = ground arith

module _ (platform : Platform) (run_id : String) (proposal : CaseProposal)
    (policy : ReconciliationPolicy) where
  auto_cleared_iff :
      ((decided platform run_id proposal policy).state ≡ DecisionState.auto_cleared)
      ↔ IsClear proposal policy
  unfolding decided dispose
  auto_cleared_iff = (λ h. ground arith, λ c. ground arith)

  allows_iff :
      ((decided platform run_id proposal policy).policy_allows_auto_clear ≡ true)
      ↔ IsClear proposal policy
  unfolding decided dispose
  allows_iff = (λ h. ground arith, λ c. ground arith)

  -- A decision that the gate returns is cleared automatically exactly if the case is valid,
  -- unambiguous and without a hard contradiction, the last check of every code that the policy
  -- requires is there and has passed, the match is unique, and the policy enables it. The flag
  -- that the policy allows it says the same.
  pub decide_clears_iff :
      (d : ReconciliationDecision)
      → decide platform run_id proposal policy ≡ ok d
      → ((d.state ≡ DecisionState.auto_cleared) ↔ IsClear proposal policy)
        × ((d.policy_allows_auto_clear ≡ true) ↔ IsClear proposal policy)
  unfolding decide
  decide_clears_iff d h =
      let same : decided platform run_id proposal policy ≡ d =
        reconciliation_decision_same (decided platform run_id proposal policy) d h in
      subst
        (λ (x : ReconciliationDecision).
          ((x.state ≡ DecisionState.auto_cleared) ↔ IsClear proposal policy)
          × ((x.policy_allows_auto_clear ≡ true) ↔ IsClear proposal policy))
        same (auto_cleared_iff, allows_iff)

-- A hard contradiction is not the empty text.
hard_code_lem :
    (code : String) → contains code hard_contradictions ≡ true → non_empty_str code ≡ true
hard_code_lem code h =
    contains_elim (λ (c : String). non_empty_str c ≡ true) code hard_contradictions h
      (refl, (refl, (refl, (refl, (refl, tt)))))

contradiction_truthy :
    (reasons : List String) (code : String)
    → contradiction_of reasons ≡ some code
    → truthy (some code) ≡ true
unfolding contradiction_of
contradiction_truthy reasons code h =
    hard_code_lem code (first-holds (λ c. contains c hard_contradictions) reasons code h)

decision_id_visible :
    (platform : Platform) (parts : List String)
    → is_blank (stable_id platform "decision" parts) ≡ false
unfolding stable_id
decision_id_visible platform parts = is_blank-append "decision" _ (unfold is_blank in refl)

-- What the constructor of a decision asks for beyond what the gate has settled.
pub record IsCitable (proposal : CaseProposal) (level : ProofLevel) : Type 0 where
  pub some_event : non_empty proposal.event_ids ≡ true
  pub distinct : nat_eq (length (dedup proposal.event_ids)) (length proposal.event_ids) ≡ true
  pub proof :
      is_proved level ≡ true
      → (non_empty (filter (λ (c : ProofCheck). c.required) proposal.proof_checks) ≡ true)
        × (all
              (λ (c : ProofCheck). c.passed)
              (filter (λ (c : ProofCheck). c.required) proposal.proof_checks)
            ≡ true)
        × (non_empty proposal.evidence_links ≡ true)

-- The constructor, where the fields that the gate sets are consistent.
built_iff :
    (d : ReconciliationDecision)
    → require_text d.decision_id "decision_id" ≡ ok tt
    → is_contradicted d.proof_level && not (truthy d.contradiction_reason) ≡ false
    → d.policy_allows_auto_clear && not (is_proved d.proof_level) ≡ false
    → is_auto_cleared d.state && (not (is_proved d.proof_level) || not d.policy_allows_auto_clear)
      ≡ false
    → (reconciliation_decision d ≡ ok d) ↔ (
        (non_empty d.event_ids ≡ true)
        × (nat_eq (length (dedup d.event_ids)) (length d.event_ids) ≡ true)
        × (when (is_proved d.proof_level) (require_proof d) ≡ ok tt))
unfolding reconciliation_decision
built_iff d v c a s = (λ h. ground arith, λ k. ground arith)

module _ (platform : Platform) (run_id : String) (proposal : CaseProposal)
    (policy : ReconciliationPolicy) where
  abbrev d : ReconciliationDecision
  d = decided platform run_id proposal policy

  visible : require_text d.decision_id "decision_id" ≡ ok tt
  unfolding decided require_text
  visible =
      rw (decision_id_visible platform (run_id ∷ proposal.case_key ∷ versioned_id policy ∷ []))

  consistent :
      (is_contradicted d.proof_level && not (truthy d.contradiction_reason) ≡ false)
      × (d.policy_allows_auto_clear && not (is_proved d.proof_level) ≡ false)
      × (is_auto_cleared d.state
            && (not (is_proved d.proof_level) || not d.policy_allows_auto_clear)
          ≡ false)
  unfolding decided dispose
  consistent = elim (Option-cases (contradiction_of proposal.reason_codes)) [
    | inl nothing ↦ ground arith
    | inr (code, e) ↦ ground (arith, contradiction_truthy proposal.reason_codes code)
  ]

  proved_facts :
      is_proved d.proof_level ≡ true
      → (d.uniqueness_passed ≡ true) × (d.contradiction_reason ≡ none)
  unfolding decided dispose
  proved_facts h = ground arith

  proof_iff : (when (is_proved d.proof_level) (require_proof d) ≡ ok tt) ↔ (
      is_proved d.proof_level ≡ true
      → (non_empty (filter (λ (c : ProofCheck). c.required) d.proof_checks) ≡ true)
        × (all
              (λ (c : ProofCheck). c.passed)
              (filter (λ (c : ProofCheck). c.required) d.proof_checks)
            ≡ true)
        × (non_empty d.evidence_links ≡ true))
  unfolding require_proof
  proof_iff = (
    λ h p. ground arith,
    λ k. elim (Bool-cases (is_proved d.proof_level)) [
      | inl p ↦ ground (arith, k p, proved_facts p)
      | inr n ↦ rw n
    ],
  )

  -- The gate returns its decision exactly where the case names some events, none of them twice, and,
  -- where the decision would claim a proof, some check is marked as required, all that are marked
  -- have passed, and evidence is cited. Nothing else in the decision's constructor can refuse it.
  pub decide_iff :
      (decide platform run_id proposal policy ≡ ok d) ↔ IsCitable proposal d.proof_level
  unfolding decide decided
  decide_iff =
      let (contradicted, allowed, cleared) = consistent in
      let built = built_iff d visible contradicted allowed cleared in
      (
        λ h.
            let (some_event, distinct, proof) = built.0 h in
            record { some_event = some_event; distinct = distinct; proof = proof_iff.0 proof },
        λ c. built.1 (c.some_event, c.distinct, proof_iff.1 c.proof),
      )
