-- ===== src/Reconciliation/Clearance/Uniqueness.antt =====
-- The selection of rules/settlement.py against all the groups of the candidates.
use veri_close.Prelude.{
  ℕ, ◌≤ℤ◌, ◌≡◌, refl, ◌⊎◌, inl, inr, String, Bool, true, false, List, [], ◌∷◌, pos, ok, arith,
  Result-cases, non_empty, sort_by, subst,
}
use mathlib.Core.List.{Memᴰ}
use veri_close.Domain.Events.{CanonicalEvent}
use veri_close.Reconciliation.Clearance.{IsOnly}
use veri_close.Reconciliation.Context.{ReconciliationContext, bank_candidates}
use veri_close.Reconciliation.Grouping.{amount, amount_groups}
use veri_close.Reconciliation.Grouping.Complete.{IsGroup, groups_complete, only-IsGroup}
use veri_close.Reconciliation.Indexes.{by_id}
use veri_close.Reconciliation.Policy.{GroupingPolicy}
use veri_close.Reconciliation.Rules.Bank.{
  Selection, select_exact, select_group, select_bank_group, utr_events,
}

-- What is left of the search and of the events with the reference.
abbrev Left : List (List CanonicalEvent) → List CanonicalEvent → List CanonicalEvent → Type 0
Left groups exact group =
    (groups ≡ group ∷ [])
    ⊎ ((groups ≡ []) × (event : CanonicalEvent) × (group ≡ event ∷ []) × (exact ≡ event ∷ []))

select_group-Left :
    (groups : List (List CanonicalEvent)) (bounded : Bool) (exact : List CanonicalEvent)
    → (select_group groups bounded exact).ambiguous ≡ false
    → (select_group groups bounded exact).bounded_out ≡ false
    → non_empty (select_group groups bounded exact).group ≡ true
    → (bounded ≡ false) × Left groups exact (select_group groups bounded exact).group
unfolding select_group select_exact
select_group-Left [] bounded [] a b n = absurd (ground arith)
select_group-Left [] bounded (e ∷ []) a b n = (b, inr (refl, e, refl, refl))
select_group-Left [] bounded (e ∷ f ∷ more) a b n = absurd (ground arith)
select_group-Left (g ∷ []) bounded exact a b n = (b, inl refl)
select_group-Left (g ∷ h ∷ groups) bounded exact a b n = absurd (ground arith)

module _ (candidates : List CanonicalEvent) (target : ℕ) (policy : GroupingPolicy)
    (two : pos 2 ≤ℤ policy.max_valid_groups) where
  no-IsGroup :
      (amount_groups candidates target policy).bounded_out ≡ false
      → (amount_groups candidates target policy).groups ≡ []
      → (other : List CanonicalEvent) → ¬ (IsGroup policy (sort_by by_id candidates) target other)
  no-IsGroup open_search empty other g =
      elim (subst (Memᴰ other) empty (
        groups_complete candidates target policy other open_search (rw empty (ground arith)) g)) [ ]

  one-IsGroup :
      (group : List CanonicalEvent)
      → (amount_groups candidates target policy).bounded_out ≡ false
      → (amount_groups candidates target policy).groups ≡ group ∷ []
      → IsGroup policy (sort_by by_id candidates) target group
        × ((other : List CanonicalEvent)
            → IsGroup policy (sort_by by_id candidates) target other
            → other ≡ group)
  one-IsGroup group open_search e = only-IsGroup candidates target policy group two (ground arith)

module _ (context : ReconciliationContext) (row : CanonicalEvent) (consumed : List String)
    (s : Selection) (two : pos 2 ≤ℤ context.policy.grouping.max_valid_groups) where
  pub selection-IsOnly :
      select_bank_group context row (amount row) consumed ≡ ok s
      → s.ambiguous ≡ false
      → s.bounded_out ≡ false
      → non_empty s.group ≡ true
      → IsOnly context row consumed s.group
  unfolding select_bank_group
  selection-IsOnly h a b n =
      elim (Result-cases (bank_candidates context row.event_at.date consumed)) [
        | inr (x, f) ↦ absurd (ground arith)
        | inl (candidates, e) ↦
            let found = amount_groups candidates (amount row) context.policy.grouping in
            let exact = utr_events context consumed row.external_reference in
            let same : select_group found.groups found.bounded_out exact ≡ s = ground arith in
            let (open_search, left) =
              select_group-Left found.groups found.bounded_out exact (rw same a) (rw same b)
                (rw same n) in
            let left_of_s : Left found.groups exact s.group =
              subst (λ (x : Selection). Left found.groups exact x.group) same left in
            (
              candidates,
              e,
              elim left_of_s [
                | inl one ↦ inl (
                    one-IsGroup candidates (amount row) context.policy.grouping two s.group
                      open_search one)
                | inr (empty, event, only_one, exact_one) ↦ inr (
                  no-IsGroup candidates (amount row) context.policy.grouping two open_search empty,
                  event,
                  only_one,
                  exact_one,
                )
              ],
            )
      ]
