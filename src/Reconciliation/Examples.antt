-- ===== src/Reconciliation/Examples.antt =====
-- The theorems on reconciliation at one settled case, a receipt and its fees.
use mathlib.Core.List.{Memᴰ, Sublistᴰ}
use veri_close.Prelude.{
  some, length, none, contains, str_eq, true, false, ◌≡◌, refl, ◌≤ℤ◌, ◌↔◌, List, [], ◌∷◌, pos,
  Result, ok, arith, filter, sort_by, contains,
}
use veri_close.Domain.Decisions.{ReconciliationDecision}
use veri_close.Domain.Enums.{DecisionState}
use veri_close.Domain.Events.{CanonicalEvent}
use veri_close.Reconciliation.Clearance.{IsReconciled, RequiresStandard}
use veri_close.Reconciliation.Clearance.Sound.{auto_cleared-IsReconciled}
use veri_close.Reconciliation.Context
use veri_close.Reconciliation.Context.{ReconciliationContext}
use veri_close.Reconciliation.Grouping.{GroupingResult, amount_groups}
use veri_close.Reconciliation.Grouping.Complete.{
  IsGroup, groups_sound, groups_complete, only-IsGroup,
}
use veri_close.Reconciliation.Indexes
use veri_close.Reconciliation.Indexes.{by_id}
use veri_close.Reconciliation.Indexes.Lookup.{refers, reference_lookups}
use veri_close.Reconciliation.Pipeline.{KernelResult, reconcile}
use veri_close.Reconciliation.Pipeline.Cleared.{StandsForReconciled, reconcile-StandsForReconciled}
use veri_close.Reconciliation.Pipeline.{Matched, match_references}
use veri_close.Reconciliation.Pipeline.{auto_cleared_count}
use veri_close.Reconciliation.Pipeline.Counts.{auto_cleared_count-reconcile, clears}
use veri_close.Reconciliation.Pipeline.Cases.{Decides, reconcile-cases}
use veri_close.Reconciliation.Pipeline.Consumption.{TakesNoneOf, match_references-TakesNoneOf}
use veri_close.Reconciliation.Pipeline.Turns.{Before}
use veri_close.Domain.Enums.{Direction, EventType, SourceType}
use veri_close.Reconciliation.Context.{settlement_references}
use veri_close.Reconciliation.Outcomes.{is_ok, result_of, result_of-ok}
use veri_close.Reconciliation.Proposals.{CaseProposal}
use veri_close.Reconciliation.RiskGate.{decide, decided}
use veri_close.Reconciliation.RiskGate.Laws.{IsClear, IsCitable, decide_clears_iff, decide_iff}
use veri_close.Reconciliation.Rules.Settlement.{analyze_settlement}
use veri_close.Reconciliation.Samples.{event, platform, policy, settled, receipt, run_kernel}

run_succeeds : is_ok (reconcile platform settled policy) ≡ true
unfolding run_kernel
run_succeeds = refl

abbrev k : KernelResult
k = result_of (reconcile platform settled policy) run_succeeds

context_builds : is_ok (Context.build settled policy) ≡ true
unfolding run_kernel
context_builds = refl

abbrev context : ReconciliationContext
context = result_of (Context.build settled policy) context_builds

analysis_succeeds : is_ok (analyze_settlement platform context "S1" []) ≡ true
unfolding run_kernel
analysis_succeeds = refl

abbrev p : CaseProposal
p = result_of (analyze_settlement platform context "S1" []) analysis_succeeds

abbrev d : ReconciliationDecision
d = decided platform "run_1" p policy

decision_succeeds : decide platform "run_1" p policy ≡ ok d
unfolding run_kernel
decision_succeeds = refl

d_clears : d.state ≡ DecisionState.auto_cleared
unfolding run_kernel
d_clears = refl

d-k : Memᴰ d k.decisions
unfolding run_kernel
d-k = Memᴰ.head refl

policy-RequiresStandard : RequiresStandard policy
unfolding contains
policy-RequiresStandard = (
  refl,
  (
    refl,
    (
      refl,
      (
        refl,
        (refl, (refl, (refl, (refl, (refl, (refl, (refl, (refl, (refl, (refl, (refl, tt))))))))))),
      ),
    ),
  ),
)

own_policy : context.policy ≡ policy
unfolding run_kernel
own_policy = refl

two_groups : pos 2 ≤ℤ policy.grouping.max_valid_groups
two_groups = omega arith

reconcile-StandsForReconciled_example : StandsForReconciled platform settled policy d
reconcile-StandsForReconciled_example =
    reconcile-StandsForReconciled platform settled policy k d
      (result_of-ok (reconcile platform settled policy) run_succeeds) policy-RequiresStandard
      two_groups d-k d_clears

auto_cleared-IsReconciled_example : IsReconciled context "S1" []
unfolding run_kernel
auto_cleared-IsReconciled_example =
    auto_cleared-IsReconciled platform context "S1" [] p d "run_1"
      (result_of-ok (analyze_settlement platform context "S1" []) analysis_succeeds)
      decision_succeeds d_clears policy-RequiresStandard two_groups

decide_clears_iff_example :
    ((d.state ≡ DecisionState.auto_cleared) ↔ IsClear p policy)
    × ((d.policy_allows_auto_clear ≡ true) ↔ IsClear p policy)
decide_clears_iff_example = decide_clears_iff platform "run_1" p policy d decision_succeeds

decide_iff_example : (decide platform "run_1" p policy ≡ ok d) ↔ IsCitable p d.proof_level
decide_iff_example = decide_iff platform "run_1" p policy

abbrev receipts : List CanonicalEvent
receipts = receipt "b2" 5 "UTR2" ∷ receipt "b1" 976 "UTR1" ∷ []

abbrev one_receipt : List CanonicalEvent
one_receipt = receipt "b1" 976 "UTR1" ∷ []

abbrev search_result : GroupingResult
search_result = amount_groups receipts 976 policy.grouping

search_finds : search_result ≡ record { groups = one_receipt ∷ []; bounded_out = false }
unfolding run_kernel
search_finds = refl

groups_sound_example : IsGroup policy.grouping (sort_by by_id receipts) 976 one_receipt
unfolding run_kernel
groups_sound_example = groups_sound receipts 976 policy.grouping one_receipt (Memᴰ.head refl)

one_receipt-IsGroup : IsGroup policy.grouping (sort_by by_id receipts) 976 one_receipt
unfolding run_kernel
one_receipt-IsGroup = record {
  chosen = Sublistᴰ.cons-cons refl (Sublistᴰ.cons Sublistᴰ.slnil);
  matches = refl;
  some_event = omega arith;
  small = omega arith;
}

groups_complete_example : Memᴰ one_receipt search_result.groups
unfolding run_kernel
groups_complete_example =
    groups_complete receipts 976 policy.grouping one_receipt refl refl one_receipt-IsGroup

only-IsGroup_example :
    IsGroup policy.grouping (sort_by by_id receipts) 976 one_receipt
    × ((other : List CanonicalEvent)
        → IsGroup policy.grouping (sort_by by_id receipts) 976 other
        → other ≡ one_receipt)
only-IsGroup_example = only-IsGroup receipts 976 policy.grouping one_receipt two_groups search_finds

reference_lookups_example :
    (Indexes.get str_eq "S1" (Indexes.build settled).by_settlement_reference
      ≡ filter (λ (e : CanonicalEvent). refers "S1" e.settlement_reference) (sort_by by_id settled))
    × (Indexes.get str_eq "S1" (Indexes.build settled).by_utr
        ≡ filter (λ (e : CanonicalEvent). refers "S1" e.bank_utr) (sort_by by_id settled))
    × (Indexes.get str_eq "S1" (Indexes.build settled).by_external_reference
        ≡ filter (λ (e : CanonicalEvent). refers "S1" e.external_reference) (sort_by by_id settled))
reference_lookups_example = reference_lookups "S1" settled

-- A second settlement, whose receipt has come and whose journal is missing.
abbrev both : List CanonicalEvent
both =
    event "h1" SourceType.gateway EventType.payment Direction.credit 500 739000 none (some "S2")
      none none
    ∷ event "h2" SourceType.gateway EventType.settlement Direction.credit 500 739000 (some "UTR9")
        (some "S2") none none
    ∷ receipt "b9" 500 "UTR9"
    ∷ settled

both_run : is_ok (reconcile platform both policy) ≡ true
unfolding run_kernel
both_run = refl

abbrev both_result : KernelResult
both_result = result_of (reconcile platform both policy) both_run

reconcile-cases_example :
    (c : ReconciliationContext) × (Context.build both policy ≡ ok c)
    × Decides platform c.run_id policy both_result.proposals both_result.decisions
        both_result.exceptions
reconcile-cases_example =
    reconcile-cases platform both policy both_result
      (result_of-ok (reconcile platform both policy) both_run)

one_case : length both_result.exceptions ≡ 1
unfolding run_kernel
one_case = refl

auto_cleared_count-reconcile_example :
    auto_cleared_count both_result ≡ length (filter clears both_result.decisions)
auto_cleared_count-reconcile_example =
    auto_cleared_count-reconcile platform both policy both_result
      (result_of-ok (reconcile platform both policy) both_run)

-- The second settlement with its journal: both are reconciled.
abbrev paired : List CanonicalEvent
paired =
    event "i:1" SourceType.erp EventType.erp_journal_line Direction.debit 500 739001 (some "S2")
      none none (some "110000")
    ∷ event "i:2" SourceType.erp EventType.erp_journal_line Direction.credit 500 739001 (some "S2")
        none none (some "120000")
    ∷ both

paired_builds : is_ok (Context.build paired policy) ≡ true
unfolding run_kernel
paired_builds = refl

abbrev paired_context : ReconciliationContext
paired_context = result_of (Context.build paired policy) paired_builds

abbrev matching : Result Matched
matching =
    match_references platform paired_context (settlement_references paired_context)
      (record { bank = []; erp = [] })

both_match : is_ok matching ≡ true
unfolding run_kernel
both_match = refl

abbrev matched : Matched
matched = result_of matching both_match

abbrev first_analysis : Result CaseProposal
first_analysis = analyze_settlement platform paired_context "S1" []

first_analysed : is_ok first_analysis ≡ true
unfolding run_kernel
first_analysed = refl

abbrev earlier : CaseProposal
earlier = result_of first_analysis first_analysed

abbrev second_analysis : Result CaseProposal
second_analysis = analyze_settlement platform paired_context "S2" ("b1" ∷ [])

second_analysed : is_ok second_analysis ≡ true
unfolding run_kernel
second_analysed = refl

abbrev later : CaseProposal
later = result_of second_analysis second_analysed

earlier-Before : Before earlier later matched.proposals
unfolding run_kernel
earlier-Before = Before.here refl (Memᴰ.head refl)

match_references-TakesNoneOf_example :
    TakesNoneOf platform paired_context
      (settlement_references paired_context)
      (record { bank = []; erp = [] })
      earlier
      later
match_references-TakesNoneOf_example =
    match_references-TakesNoneOf platform paired_context (settlement_references paired_context)
      (record { bank = []; erp = [] }) matched earlier later (result_of-ok matching both_match)
      earlier-Before

later_decided : decide platform "run_1" later policy ≡ ok (decided platform "run_1" later policy)
unfolding run_kernel
later_decided = refl

later_clears : (decided platform "run_1" later policy).state ≡ DecisionState.auto_cleared
unfolding run_kernel
later_clears = refl

-- the later settlement is reconciled, with a receipt that the earlier proposal does not cite
later-IsReconciled : IsReconciled paired_context "S2" ("b1" ∷ [])
unfolding run_kernel
later-IsReconciled =
    auto_cleared-IsReconciled platform paired_context "S2" ("b1" ∷ []) later
      (decided platform "run_1" later policy) "run_1" (result_of-ok second_analysis second_analysed)
      later_decided later_clears policy-RequiresStandard two_groups

earlier_cites : contains "b1" earlier.event_ids ≡ true
unfolding run_kernel
earlier_cites = refl

both_consumed : matched.consumed.bank ≡ "b9" ∷ "b1" ∷ []
unfolding run_kernel
both_consumed = refl
