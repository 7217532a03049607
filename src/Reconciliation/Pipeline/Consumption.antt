-- ===== src/Reconciliation/Pipeline/Consumption.antt =====
-- The receipts that reconciliation/pipeline.py has consumed, and those that an analysis may still
-- take.
use veri_close.Prelude.{
  String, Bool, true, not, ◌≡◌, refl, sym, ap, ◌∙◌, inl, inr, Option, some, List, [], ◌∷◌, ok,
  arith, ◌≢◌, filter, all, All, all-sort_by, contains, sort_by, subst, Result-cases, Bool-cases, ℕ,
  ℤ,
}
use mathlib.Core.List.{Memᴰ, Sublistᴰ}
use mathlib.Core.Bool.{false≢true}
use veri_close.Domain.Enums.{is_bank}
use veri_close.Domain.Events.{CanonicalEvent}
use veri_close.Reconciliation.Clearance.{IsOnly, IsReconciled}
use veri_close.Reconciliation.Context.{
  ReconciliationContext, bank_candidates, is_bank_candidate, add_days, by_date_and_id,
}
use veri_close.Reconciliation.Indexes.{by_id}
use veri_close.Reconciliation.Pipeline.{Consumed, Matched, event_by_id, match_references}
use veri_close.Reconciliation.Pipeline.Turns.{Before, Spent, IsTurn, match_references-Before}
use veri_close.Reconciliation.Platform.{Platform}
use veri_close.Reconciliation.Proposals.{CaseProposal}
use veri_close.Reconciliation.Rules.Bank.{utr_events}

abbrev pub is_fresh : List String → CanonicalEvent → Bool
is_fresh consumed event = not (contains event.event_id consumed)

all-filter :
    {A : Type 0} (p q : A → Bool) (xs : List A)
    → ((x : A) → q x ≡ true → p x ≡ true)
    → all p (filter q xs) ≡ true
unfolding all filter
all-filter p q [] h = refl
all-filter p q (x ∷ xs) h = elim (Bool-cases (q x)) [
  | inl kept ↦ rw kept (rw (h x kept) (all-filter p q xs h))
  | inr dropped ↦ rw dropped (all-filter p q xs h)
]

all-sublist :
    {A : Type 0} (p : A → Bool) {g xs : List A} → Sublistᴰ g xs → all p xs ≡ true → all p g ≡ true
unfolding all
all-sublist p Sublistᴰ.slnil h = refl
all-sublist p (Sublistᴰ.cons s) h = all-sublist p s (ground arith)
all-sublist p (Sublistᴰ.cons-cons e s) h = rw e (ground (arith, all-sublist p s))

module _ (context : ReconciliationContext) (consumed : List String) where
  candidate_fresh :
      (first last : ℤ) (e : CanonicalEvent)
      → is_bank_candidate context consumed first last e ≡ true
      → is_fresh consumed e ≡ true
  unfolding is_bank_candidate
  candidate_fresh first last e h = ground arith

  bank_candidates-fresh :
      (day : ℕ) (candidates : List CanonicalEvent)
      → bank_candidates context day consumed ≡ ok candidates
      → all (is_fresh consumed) candidates ≡ true
  unfolding bank_candidates
  bank_candidates-fresh day candidates h =
      elim (Result-cases (add_days day context.policy.dates.settlement_to_bank_min_days)) [
        | inr (e, failed) ↦ absurd (ground arith)
        | inl (first, first_ok) ↦
            elim (Result-cases (add_days day context.policy.dates.settlement_to_bank_max_days)) [
              | inr (e, failed) ↦ absurd (ground arith)
              | inl (last, last_ok) ↦
                  let chosen =
                    filter (is_bank_candidate context consumed first last) context.events in
                  let same : sort_by by_date_and_id chosen ≡ candidates = ground arith in
                  subst (λ (cs : List CanonicalEvent). all (is_fresh consumed) cs ≡ true) same
                    (all-sort_by by_date_and_id (is_fresh consumed) chosen
                      ∙ all-filter (is_fresh consumed)
                          (is_bank_candidate context consumed first last) context.events
                          (candidate_fresh first last))
            ]
      ]

  utr_events-fresh :
      (utr : Option String) → all (is_fresh consumed) (utr_events context consumed utr) ≡ true
  unfolding utr_events
  utr_events-fresh utr = all-filter _ _ _ (λ x h. ground arith)

  IsOnly-fresh :
      (row : CanonicalEvent) (group : List CanonicalEvent)
      → IsOnly context row consumed group
      → all (is_fresh consumed) group ≡ true
  IsOnly-fresh row group (candidates, found, choice) = elim choice [
    | inl (is_group, others) ↦ all-sublist (is_fresh consumed) is_group.chosen (
        all-sort_by by_id (is_fresh consumed) candidates
        ∙ bank_candidates-fresh row.event_at.date candidates found)
    | inr (none_there, event, one, exact) ↦
        rw (one ∙ sym exact) (utr_events-fresh row.external_reference)
  ]

apart_of :
    (consumed : List String) (k : String) (group : List CanonicalEvent)
    → contains k consumed ≡ true
    → all (is_fresh consumed) group ≡ true
    → All (λ (e : CanonicalEvent). e.event_id ≢ k) group
unfolding all
apart_of consumed k [] c h = tt
apart_of consumed k (e ∷ group) c h = (
  λ same. false≢true (ground (arith, ap (λ (id : String). contains id consumed) same)),
  apart_of consumed k group c (ground arith),
)

-- How the later of two proposals stands to the bank events of the earlier one.
pub record TakesNoneOf (platform : Platform) (context : ReconciliationContext)
    (references : List String) (before : Consumed) (p q : CaseProposal) : Type 0 where
  pub turn : IsTurn platform context references before q
  pub earlier : Memᴰ p turn.so_far.proposals
  pub spent : Spent context p turn.so_far.consumed.bank
  pub apart :
      (r : IsReconciled context turn.reference turn.so_far.consumed.bank) (k : String)
      (event : CanonicalEvent)
      → Memᴰ k p.event_ids
      → event_by_id context.events k ≡ some event
      → is_bank event.source_type ≡ true
      → All (λ (e : CanonicalEvent). e.event_id ≢ k) r.group

-- Of two proposals that the loop over the settlement references makes, the earlier one is among the
-- proposals that the loop had made when it came to the later one's reference, and the later one was
-- analysed with what it had consumed by then, every bank event that the earlier one cites included:
-- where the later settlement is reconciled, none of its receipts has the identifier of such an
-- event.
pub match_references-TakesNoneOf :
    (platform : Platform) (context : ReconciliationContext) (references : List String)
    (before : Consumed) (matched : Matched) (p q : CaseProposal)
    → match_references platform context references before ≡ ok matched
    → Before p q matched.proposals
    → TakesNoneOf platform context references before p q
match_references-TakesNoneOf platform context references before matched p q h b =
    let (turn, earlier) =
      match_references-Before platform context references before matched p q h b in
    let spent = turn.spent p earlier in
    record {
      turn = turn;
      earlier = earlier;
      spent = spent;
      apart = λ r k event cited found bank.
          apart_of turn.so_far.consumed.bank k r.group (spent k event cited found bank)
            (IsOnly-fresh context turn.so_far.consumed.bank r.row r.group r.only);
    }
