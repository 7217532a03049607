-- ===== src/Reconciliation/Pipeline/Rounds.antt =====
-- The loops of reconciliation/pipeline.py: the rounds over the references, and the orphans.
use veri_close.Prelude.{
  String, true, ◌≡◌, refl, sym, ◌∙◌, ap, inl, inr, Option, none, some, List, [], ◌∷◌, ◌++◌, Result,
  ok, arith, Result-cases, traverse, subst, filter, contains, not, ◌&&◌, sort_by,
}
use mathlib.Core.List.{Memᴰ}
use veri_close.Domain.Enums.{is_bank, is_erp}
use veri_close.Domain.Events.{CanonicalEvent}
use veri_close.Reconciliation.Context.{ReconciliationContext, group_journals, by_key}
use veri_close.Reconciliation.Grouping.Subsets.{mem_append-cases}
use veri_close.Reconciliation.Pipeline.{
  Consumed, Matched, consume, match_references, orphan, orphan_journals, orphan_proposals,
}
use veri_close.Reconciliation.Platform.{Platform}
use veri_close.Reconciliation.Proposals.{CaseProposal}
use veri_close.Reconciliation.Rules.Settlement.{analyze_settlement}

-- Each result of a traversal is the result of one of the elements.
pub traverse-mem {ℓ κ} :
    {A : Type ℓ} {B : Type κ} (f : A → Result B) (xs : List A) (ys : List B) (y : B)
    → traverse f xs ≡ ok ys
    → Memᴰ y ys
    → (x : A) × Memᴰ x xs × (f x ≡ ok y)
unfolding traverse
traverse-mem f [] ys y h m = let empty : ys ≡ [] = ground arith in elim (subst (Memᴰ y) empty m) [ ]
traverse-mem f (x ∷ xs) ys y h m = elim (Result-cases (f x)) [
  | inr (e, failed) ↦ absurd (ground arith)
  | inl (z, first_ok) ↦ elim (Result-cases (traverse f xs)) [
    | inr (e, failed) ↦ absurd (ground arith)
    | inl (zs, rest_ok) ↦
        let made : ys ≡ z ∷ zs = ground arith in
        elim (subst (Memᴰ y) made m) [
          | Memᴰ.head e ↦ (x, Memᴰ.head refl, first_ok ∙ ap ok (sym e))
          | Memᴰ.tail n ↦
              let (w, inside, f_ok) = traverse-mem f xs zs y rest_ok n in
              (w, Memᴰ.tail inside, f_ok)
        ]
  ]
]

module _ (platform : Platform) (context : ReconciliationContext) where
  -- The rounds of the loop over the references, one after another.
  pub data Rounds : List String → Consumed → List CaseProposal → Consumed → Type 0 where
    done : (consumed : Consumed) → Rounds [] consumed [] consumed
    round :
        {reference : String} {references : List String} {before after last : Consumed}
        {p : CaseProposal} {proposals : List CaseProposal}
        → analyze_settlement platform context reference before.bank ≡ ok p
        → consume context.events p.event_ids before ≡ ok after
        → Rounds references after proposals last
        → Rounds (reference ∷ references) before (p ∷ proposals) last

  pub match_references-Rounds :
      (references : List String) (before : Consumed) (matched : Matched)
      → match_references platform context references before ≡ ok matched
      → Rounds references before matched.proposals matched.consumed
  unfolding match_references
  match_references-Rounds [] before matched h =
      let same : record { proposals = []; consumed = before } ≡ matched = ground arith in
      subst (λ (m : Matched). Rounds [] before m.proposals m.consumed) same (done before)
  match_references-Rounds (reference ∷ references) before matched h =
      elim (Result-cases (analyze_settlement platform context reference before.bank)) [
        | inr (e, failed) ↦ absurd (ground arith)
        | inl (p, analysed) ↦ elim (Result-cases (consume context.events p.event_ids before)) [
          | inr (e, failed) ↦ absurd (ground arith)
          | inl (after, consumed) ↦
              elim (Result-cases (match_references platform context references after)) [
                | inr (e, failed) ↦ absurd (ground arith)
                | inl (rest, rest_ok) ↦
                    let same : record { proposals = p ∷ rest.proposals; consumed = rest.consumed }
                        ≡ matched =
                      ground arith in
                    subst
                      (λ (m : Matched).
                        Rounds (reference ∷ references) before m.proposals m.consumed)
                      same
                      (round analysed consumed
                        (match_references-Rounds references after rest rest_ok))
              ]
        ]
      ]

  orphan-ambiguous :
      (event : CanonicalEvent) (more : List CanonicalEvent) (reason : String) (key : Option String)
      (p : CaseProposal)
      → orphan platform context event more reason key ≡ ok p
      → p.ambiguous ≡ true
  unfolding orphan
  orphan-ambiguous event more reason key p h = ground arith

  orphan_journals-ambiguous :
      (groups : List (String × List CanonicalEvent)) (ps : List CaseProposal) (p : CaseProposal)
      → orphan_journals platform context groups ≡ ok ps
      → Memᴰ p ps
      → p.ambiguous ≡ true
  unfolding orphan_journals
  orphan_journals-ambiguous [] ps p h m =
      let empty : ps ≡ [] = ground arith in elim (subst (Memᴰ p) empty m) [ ]
  orphan_journals-ambiguous ((journal, []) ∷ groups) ps p h m =
      orphan_journals-ambiguous groups ps p h m
  orphan_journals-ambiguous ((journal, event ∷ more) ∷ groups) ps p h m =
      elim (Result-cases (orphan platform context event more "ORPHAN_ERP_POSTING" (some journal))) [
        | inr (e, failed) ↦ absurd (ground arith)
        | inl (q, made) ↦ elim (Result-cases (orphan_journals platform context groups)) [
          | inr (e, failed) ↦ absurd (ground arith)
          | inl (qs, rest) ↦
              let both : ps ≡ q ∷ qs = ground arith in
              elim (subst (Memᴰ p) both m) [
                | Memᴰ.head e ↦
                    ap (λ (x : CaseProposal). x.ambiguous) e
                    ∙ orphan-ambiguous event more "ORPHAN_ERP_POSTING" (some journal) q made
                | Memᴰ.tail n ↦ orphan_journals-ambiguous groups qs p rest n
              ]
        ]
      ]

  pub orphan_proposals-ambiguous :
      (consumed : Consumed) (ps : List CaseProposal) (p : CaseProposal)
      → orphan_proposals platform context consumed ≡ ok ps
      → Memᴰ p ps
      → p.ambiguous ≡ true
  unfolding orphan_proposals
  orphan_proposals-ambiguous consumed ps p h m =
      let case_of : CanonicalEvent → Result CaseProposal =
        λ e. orphan platform context e [] "ORPHAN_BANK_CREDIT" none in
      let orphan_bank =
        filter
          (λ (e : CanonicalEvent). is_bank e.source_type && not (contains e.event_id consumed.bank))
          context.events in
      let orphan_erp =
        filter
          (λ (e : CanonicalEvent). is_erp e.source_type && not (contains e.event_id consumed.erp))
          context.events in
      let journals = sort_by by_key (group_journals [] orphan_erp) in
      elim (Result-cases (traverse case_of orphan_bank)) [
        | inr (e, failed) ↦ absurd (ground arith)
        | inl (bank, bank_ok) ↦ elim (Result-cases (orphan_journals platform context journals)) [
          | inr (e, failed) ↦ absurd (ground arith)
          | inl (erp, erp_ok) ↦
              let both : ps ≡ bank ++ erp = ground arith in
              elim (mem_append-cases bank erp (subst (Memᴰ p) both m)) [
                | inl among ↦
                    let (event, inside, made) =
                      traverse-mem case_of orphan_bank bank p bank_ok among in
                    orphan-ambiguous event [] "ORPHAN_BANK_CREDIT" none p made
                | inr among ↦ orphan_journals-ambiguous journals erp p erp_ok among
              ]
        ]
      ]
