-- ===== src/Reconciliation/Clearance/Sound.antt =====
-- From the parts of an analysis that the gate has cleared to the events.
use veri_close.Prelude.{
  String, Bool, true, not, ◌&&◌, ◌≡◌, refl, sym, ◌∙◌, ap, inl, inr, Option, none, some, List, [],
  ◌∷◌, ◌++◌, ℤ, pos, ◌-ℤ◌, ◌≤ℤ◌, abs, leb_ℤ→le, ok, arith, All, all, all-holds, filter, total,
  non_empty, non_empty_str, length, nat_eq, subst, eq_iff, nat_eq→eq, Option-cases,
}
use veri_close.Domain.Decisions.{ReconciliationDecision}
use veri_close.Domain.Enums.{DecisionState}
use veri_close.Domain.Events.{CanonicalEvent, truthy}
use veri_close.Reconciliation.Platform.{Platform}
use veri_close.Reconciliation.Clearance.{
  IsOnly, IsPaid, IsPosted, IsReconciled, IsSettled, RequiresStandard, RolePosted, Within,
}
use veri_close.Reconciliation.Clearance.Passed as Passed
use veri_close.Reconciliation.Clearance.Passed.{IsPassed}
use veri_close.Reconciliation.Clearance.Uniqueness.{selection-IsOnly}
use veri_close.Reconciliation.Context.{ReconciliationContext, erp_journals}
use veri_close.Reconciliation.Grouping.{amount}
use veri_close.Reconciliation.Policy.{ReconciliationPolicy}
use veri_close.Reconciliation.Proposals.{CaseProposal, same_option}
use veri_close.Reconciliation.RiskGate.{decide}
use veri_close.Reconciliation.RiskGate.Laws.{decide_clears_iff}
use veri_close.Reconciliation.Rules.Bank.{
  BankPart, Selection, first_reference, resolve, date_in_range, select_bank_group,
}
use veri_close.Reconciliation.Rules.Bank.Facts as Bank
use veri_close.Reconciliation.Rules.Erp.{
  ErpPart, only_journal, is_posting, is_fee, is_tax, journal_debits, journal_credits,
}
use veri_close.Reconciliation.Rules.Erp.Facts as Erp
use veri_close.Reconciliation.Rules.Gateway.{
  GatewayPart, first_amount, first_event, is_settlement, one_row,
}
use veri_close.Reconciliation.Rules.Gateway.Facts as Gateway
use veri_close.Reconciliation.Rules.Settlement.{analyze_settlement}

single :
    (rows : List CanonicalEvent) → one_row rows ≡ true → (row : CanonicalEvent) × (rows ≡ row ∷ [])
single [] h = absurd (ground arith)
single (row ∷ []) h = (row, refl)
single (row ∷ other ∷ rows) h = absurd (ground arith)

single_journal :
    (journals : List (List CanonicalEvent))
    → nat_eq (length journals) 1 ≡ true
    → journals ≡ only_journal journals ∷ []
single_journal [] h = absurd (ground arith)
single_journal (journal ∷ []) h = refl
single_journal (journal ∷ other ∷ journals) h = absurd (ground arith)

Within-of_test :
    (policy : ReconciliationPolicy) (name : String) (a b : ℤ) (passed : Bool)
    → Gateway.Tested policy name a b passed
    → passed ≡ true
    → Within policy name a b
Within-of_test policy name a b passed (t, e, f) h = (t, e, leb_ℤ→le (abs (a -ℤ b)) t (sym f ∙ h))

RolePosted-of_test :
    (policy : ReconciliationPolicy) (journal : List CanonicalEvent) (name : String) (expected : ℤ)
    (passed : Bool)
    → Erp.Posted policy journal name expected passed
    → passed ≡ true
    → RolePosted policy journal name expected
RolePosted-of_test policy journal name expected passed (r, t, e, f, test) h =
    let observed = total amount (filter (is_posting r) journal) in
    (r, e, (t, f, leb_ℤ→le (abs (pos observed -ℤ expected)) t (ground arith)))

-- All events carry a text that an option holds.
carried_of :
    (utr : String) (group : List CanonicalEvent)
    → all (λ (e : CanonicalEvent). same_option e.bank_utr (some utr)) group ≡ true
    → All (λ (e : CanonicalEvent). e.bank_utr ≡ some utr) group
unfolding all
carried_of utr [] h = tt
carried_of utr (e ∷ group) h = (
  elim (Option-cases e.bank_utr) [
    | inl nothing ↦ absurd (ground (arith, nothing))
    | inr (r, found) ↦ ground (arith, found, eq_iff r utr)
  ],
  carried_of utr group (ground arith),
)

-- A true reference, as the text that it is.
reference_of :
    (r : Option String)
    → truthy r ≡ true
    → (utr : String) × (non_empty_str utr ≡ true) × (r ≡ some utr)
reference_of none h = absurd (ground arith)
reference_of (some utr) h = (utr, h, refl)

-- The parts of a cleared analysis, one settlement row among them.
module _ (context : ReconciliationContext) (reference : String) (consumed : List String)
    (g : GatewayPart) (b : BankPart) (e : ErpPart) (gf : Gateway.Facts context reference g)
    (bf : Bank.Facts context g consumed b) (ef : Erp.Facts context g reference e)
    (passed : IsPassed context reference consumed g b e ef.roles) (row : CanonicalEvent)
    (rows : g.rows ≡ row ∷ []) where
  observed : g.observed_net ≡ amount row
  observed = gf.observed ∙ ap first_amount rows

  anchor : g.anchor ≡ row
  anchor =
      let found : first_event (g.rows ++ g.gateway) ≡ some row = rw rows refl in
      ground (arith, gf.anchor)

  utr : b.expected_utr ≡ row.external_reference
  utr = bf.utr ∙ ap first_reference rows

  settled : IsSettled context reference row
  settled = record {
    one_row = ap (filter is_settlement) (sym gf.gateway) ∙ sym gf.rows ∙ rows;
    net = g.expected_net;
    components = rw (sym gf.gateway) gf.expected;
    adds_up =
        subst (λ n. Within context.policy "settlement_components" g.expected_net (pos n)) observed
          (Within-of_test _ _ _ _ _ gf.component passed.component);
  }

  journal_amounts : journal_debits e.journal ≡ journal_credits e.journal
  journal_amounts = nat_eq→eq _ _ (ground (arith, ef.balanced, passed.balanced))

  posted : IsPosted context reference row
  posted = record {
    journal = e.journal;
    one_journal =
        single_journal (erp_journals context reference) (sym ef.unique ∙ passed.journal)
        ∙ ap (λ j. j ∷ []) (sym ef.journal);
    balanced = journal_amounts;
    bank =
        subst (λ n. RolePosted context.policy e.journal "bank" (pos n)) observed
          (RolePosted-of_test _ _ _ _ _ ef.roles.bank_posted passed.bank);
    cleared = g.clearing_expected;
    clearing_total = rw (sym gf.gateway) gf.clearing;
    clearing = RolePosted-of_test _ _ _ _ _ ef.roles.clearing_posted passed.clearing;
    fee =
        subst
          (λ events.
            RolePosted context.policy e.journal "fee" (pos (total amount (filter is_fee events))))
          gf.gateway (RolePosted-of_test _ _ _ _ _ ef.roles.fee_posted passed.fee);
    tax =
        subst
          (λ events.
            RolePosted context.policy e.journal "tax" (pos (total amount (filter is_tax events))))
          gf.gateway (RolePosted-of_test _ _ _ _ _ ef.roles.tax_posted passed.tax);
  }

  paid_amount : Within context.policy "bank_receipt" (pos (total amount b.group)) (pos (amount row))
  paid_amount =
      let (t, e, f) = bf.receipt in
      (
        t,
        e,
        subst (λ n. abs (pos (total amount b.group) -ℤ pos n) ≤ℤ t) observed
            (leb_ℤ→le (abs (pos (total amount b.group) -ℤ pos g.observed_net)) t
              (ground (arith, f, passed.receipt))),
      )

  true_reference : truthy b.expected_utr ≡ true
  true_reference = ground (arith, bf.reference, passed.referenced)

  same_reference :
      all (λ (e : CanonicalEvent). same_option e.bank_utr b.expected_utr) b.group ≡ true
  same_reference = ground (arith, bf.reference, passed.referenced)

  paid : IsPaid context row b.group
  paid =
      let (reference, visible, same) = reference_of b.expected_utr true_reference in
      record {
        some_receipt = passed.present;
        paid = paid_amount;
        credited = all-holds _ _ (ground (arith, bf.direction, passed.direction));
        utr = reference;
        visible = visible;
        referenced = sym utr ∙ same;
        carried = carried_of reference b.group (
            subst (λ o. all (λ (e : CanonicalEvent). same_option e.bank_utr o) b.group ≡ true) same
              same_reference);
        dated = all-holds _ _ (
            subst
              (λ (a : CanonicalEvent). all (date_in_range context a.event_at.date) b.group ≡ true)
              anchor (ground (arith, bf.date, passed.date)));
      }

  -- No conflict of identifiers: the group of the step is the group selected.
  resolved :
      resolve (Bank.exact_events context g consumed) g.observed_net bf.chosen.selected
      ≡ bf.chosen.selected
  unfolding resolve
  resolved = rw passed.no_conflict refl

  selected_at_row : select_bank_group context row (amount row) consumed ≡ ok bf.chosen.selected
  selected_at_row =
      subst (λ n. select_bank_group context row n consumed ≡ ok bf.chosen.selected) observed
        (subst (λ a. select_bank_group context a g.observed_net consumed ≡ ok bf.chosen.selected)
          anchor bf.chosen.selection)

  only : (pos 2 ≤ℤ context.policy.grouping.max_valid_groups) → IsOnly context row consumed b.group
  only two =
      let s = bf.chosen.selected in
      let same : b.group ≡ s.group = bf.chosen.group ∙ ap (λ (x : Selection). x.group) resolved in
      let unique : b.unique ≡ (non_empty b.group && not s.ambiguous && not s.bounded_out) =
        bf.chosen.unique ∙ rw resolved refl in
      rw same (
        selection-IsOnly context row consumed s two selected_at_row
          (ground (arith, unique, passed.only)) (ground (arith, unique, passed.only))
          (rw same at passed.present))

  reconciled :
      (pos 2 ≤ℤ context.policy.grouping.max_valid_groups) → IsReconciled context reference consumed
  reconciled two = record {
    row = row;
    settled = settled;
    group = b.group;
    paid = paid;
    only = only two;
    posted = posted;
  }

module _ (platform : Platform) (context : ReconciliationContext) (reference : String)
    (consumed : List String) (p : CaseProposal) (d : ReconciliationDecision) where
  -- A settlement that was analysed, and whose case the gate then cleared automatically, is
  -- reconciled, under a policy that requires the fifteen checks of the frozen one and lets the
  -- search find two groups: it has one settlement row, to whose amount its signed components add
  -- up; a group of bank credits in the date window carries the row's reference and has its amount;
  -- no other group of the unconsumed candidates, of a size that the policy allows, has the amount,
  -- or no group of such a size has it and the group is the only unconsumed event with the
  -- reference; one journal refers to it, whose debits equal its credits and which posts the receipt, the clearing total, the fees and the taxes. All amounts
  -- agree within the tolerances of the policy.
  pub auto_cleared-IsReconciled :
      (run_id : String)
      → analyze_settlement platform context reference consumed ≡ ok p
      → decide platform run_id p context.policy ≡ ok d
      → d.state ≡ DecisionState.auto_cleared
      → RequiresStandard context.policy
      → pos 2 ≤ℤ context.policy.grouping.max_valid_groups
      → IsReconciled context reference consumed
  auto_cleared-IsReconciled run_id h k cleared standard two =
      let clear = (decide_clears_iff platform run_id p context.policy d k).0.0 cleared in
      let a = Passed.a platform context reference consumed p h clear standard in
      let passed = Passed.passed platform context reference consumed p h clear standard in
      let (row, rows) = single a.gateway.rows passed.row in
      reconciled context reference consumed a.gateway a.bank a.erp
        (Passed.gateway_facts platform context reference consumed p h clear standard)
        (Passed.bank_facts platform context reference consumed p h clear standard)
        (Passed.erp_facts platform context reference consumed p h clear standard) passed row rows
        two
