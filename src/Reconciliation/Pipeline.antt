-- ===== src/Reconciliation/Pipeline.antt =====
-- core/vericlose/reconciliation/pipeline.py. The timings, which read a clock, are left out of the
-- result. A set of identifiers is a list, read by membership alone.
pub mod Rounds
pub mod Turns
pub mod Parts
pub mod Cleared
pub mod Cases
pub mod Counts
pub mod Consumption
use veri_close.Prelude.{
  ℕ, String, str_eq, true, false, not, ◌&&◌, Option, none, some, List, [], ◌∷◌, ◌++◌, map, pos,
  Result, ok, key_error, ◌>>=◌, or_raise, traverse, filter, length, contains, sort_by, leb,
  if◌then◌else◌, non_empty_str,
}
use veri_close.Domain.Enums.{SourceType, is_bank, is_erp}
use veri_close.Domain.Decisions.{ReconciliationDecision}
use veri_close.Domain.Events.{CanonicalEvent, Scalar}
use veri_close.Domain.Evidence.{proof_check}
use veri_close.Domain.Exceptions.{ExceptionCase}
use veri_close.Reconciliation.Platform.{Platform}
use veri_close.Reconciliation.Context
use veri_close.Reconciliation.Context.{
  ReconciliationContext, settlement_references, group_journals, by_key,
}
use veri_close.Reconciliation.ExceptionFactory.{create_exception}
use veri_close.Reconciliation.Grouping.{amount}
use veri_close.Reconciliation.Policy.{ReconciliationPolicy, versioned_id}
use veri_close.Reconciliation.Proposals.{CaseProposal, stable_id, evidence}
use veri_close.Reconciliation.RiskGate.{decide}
use veri_close.Reconciliation.Rules.Settlement.{analyze_settlement, rules, event_id_of}

pub record KernelResult : Type 0 where
  pub proposals : List CaseProposal
  pub decisions : List ReconciliationDecision
  pub exceptions : List ExceptionCase

-- KernelResult.auto_cleared_count
unfoldable pub auto_cleared_count : KernelResult → ℕ
unfolding filter
auto_cleared_count k =
    length (filter (λ (d : ReconciliationDecision). d.policy_allows_auto_clear) k.decisions)

-- event_by_id.get(id): the last event of an identifier stands
unfoldable pub event_by_id : List CanonicalEvent → String → Option CanonicalEvent
event_by_id [] id = none
event_by_id (event ∷ events) id = elim (event_by_id events id) [
  | some later ↦ some later
  | none ↦ if str_eq event.event_id id then some event else none
]

pub record Consumed : Type 0 where
  pub bank : List String
  pub erp : List String

abbrev pub add_consumed : SourceType → String → Consumed → Consumed
add_consumed SourceType.bank id consumed = record consumed { bank = id ∷ consumed.bank }
add_consumed SourceType.erp id consumed = record consumed { erp = id ∷ consumed.erp }
add_consumed SourceType.gateway id consumed = consumed

-- the loop over proposal.event_ids
unfoldable pub consume : List CanonicalEvent → List String → Consumed → Result Consumed
consume events [] consumed = ok consumed
consume events (id ∷ ids) consumed = do
  event ← or_raise (event_by_id events id) (key_error "event_id")
  consume events ids (add_consumed event.source_type id consumed)

-- what the loop over the references leaves
pub record Matched : Type 0 where
  pub proposals : List CaseProposal
  pub consumed : Consumed

-- the loop over context.settlement_references
unfoldable pub match_references :
    Platform → ReconciliationContext → List String → Consumed → Result Matched
match_references platform context [] consumed = ok (record { proposals = []; consumed = consumed })
match_references platform context (reference ∷ references) consumed = do
  proposal ← analyze_settlement platform context reference consumed.bank
  consumed' ← consume context.events proposal.event_ids consumed
  rest ← match_references platform context references consumed'
  ok (record { proposals = proposal ∷ rest.proposals; consumed = rest.consumed })

-- max(amount for event in events)
unfoldable pub max_amount : List CanonicalEvent → ℕ
max_amount [] = 0
max_amount (event ∷ events) =
    let rest = max_amount events in if leb rest (amount event) then amount event else rest

-- key or first.source_record_id
abbrev pub case_key_of : Option String → CanonicalEvent → String
case_key_of none event = event.source_record_id
case_key_of (some key) event = if non_empty_str key then key else event.source_record_id

-- _orphan, of an event and those that follow it
unfoldable pub orphan :
    Platform
    → ReconciliationContext
    → CanonicalEvent
    → List CanonicalEvent
    → String
    → Option String
    → Result CaseProposal
orphan platform context event more reason key = do
  let events = event ∷ more
  let case_key = case_key_of key event
  links ← traverse (λ (e : CanonicalEvent). evidence e "unconsumed source evidence") events
  matched ← proof_check (record {
    check_code = "SOURCE_EVIDENCE_MATCHED";
    expected = Scalar.bool true;
    observed = Scalar.bool false;
    tolerance_minor = none;
    passed = false;
    required = true;
    evidence_links = links;
  })
  ok (record {
    proposal_id =
        stable_id platform "proposal"
          (context.run_id ∷ case_key ∷ versioned_id context.policy ∷ []);
    case_key = case_key;
    event_ids = map event_id_of events;
    proof_checks = matched ∷ [];
    evidence_links = links;
    reason_codes = reason ∷ [];
    rules_attempted = rules;
    support_features = [];
    support_score_bps = pos 0;
    amount_at_risk_minor = pos (max_amount events);
    uniqueness_passed = false;
    ambiguous = true;
    invalid_input = false;
  })

-- the orphans of one journal; a group is never empty
unfoldable pub orphan_journals :
    Platform
    → ReconciliationContext
    → List (String × List CanonicalEvent)
    → Result (List CaseProposal)
orphan_journals platform context [] = ok []
orphan_journals platform context ((journal, []) ∷ groups) = orphan_journals platform context groups
orphan_journals platform context ((journal, event ∷ more) ∷ groups) = do
  p ← orphan platform context event more "ORPHAN_ERP_POSTING" (some journal)
  rest ← orphan_journals platform context groups
  ok (p ∷ rest)

-- _orphan_proposals
unfoldable pub orphan_proposals :
    Platform → ReconciliationContext → Consumed → Result (List CaseProposal)
orphan_proposals platform context consumed = do
  let orphan_bank =
      filter
        (λ (e : CanonicalEvent). is_bank e.source_type && not (contains e.event_id consumed.bank))
        context.events
  bank ←
      traverse (λ (e : CanonicalEvent). orphan platform context e [] "ORPHAN_BANK_CREDIT" none)
        orphan_bank
  let orphan_erp =
      filter
        (λ (e : CanonicalEvent). is_erp e.source_type && not (contains e.event_id consumed.erp))
        context.events
  erp ← orphan_journals platform context (sort_by by_key (group_journals [] orphan_erp))
  ok (bank ++ erp)

-- the decisions and their exceptions, proposal by proposal
unfoldable pub exceptions_of :
    Platform
    → String
    → ReconciliationPolicy
    → List CaseProposal
    → List ReconciliationDecision
    → Result (List ExceptionCase)
exceptions_of platform run_id policy (p ∷ proposals) (d ∷ decisions) = do
  x ← create_exception platform run_id p d policy
  rest ← exceptions_of platform run_id policy proposals decisions
  ok (elim x [ none ↦ rest | some case ↦ case ∷ rest ])
exceptions_of platform run_id policy _ _ = ok []

-- reconcile
unfoldable pub reconcile :
    Platform → List CanonicalEvent → ReconciliationPolicy → Result KernelResult
reconcile platform events policy = do
  context ← Context.build events policy
  matched ←
      match_references platform context (settlement_references context)
        (record { bank = []; erp = [] })
  orphans ← orphan_proposals platform context matched.consumed
  let proposals = matched.proposals ++ orphans
  decisions ← traverse (λ (p : CaseProposal). decide platform context.run_id p policy) proposals
  exceptions ← exceptions_of platform context.run_id policy proposals decisions
  ok (record { proposals = proposals; decisions = decisions; exceptions = exceptions })
