-- ===== src/Reconciliation/Rules/Bank/Facts.antt =====
-- What a bank step that returned has established.
use veri_close.Prelude.{
  String, true, not, ◌&&◌, ◌≡◌, List, [], ◌∷◌, map, ℤ, pos, ok, arith, all, total, leb_ℤ, abs, ◌-ℤ◌,
  Result-cases, inl, inr, non_empty, contains,
}
use veri_close.Domain.Enums.{is_credit}
use veri_close.Domain.Events.{CanonicalEvent, truthy}
use veri_close.Domain.Evidence.{proof_check}
use veri_close.Reconciliation.Context.{ReconciliationContext}
use veri_close.Reconciliation.Grouping.{amount}
use veri_close.Reconciliation.Policy.{tolerance}
use veri_close.Reconciliation.Proposals.{same_option}
use veri_close.Reconciliation.Rules.Checks.{check}
use veri_close.Reconciliation.Rules.Flags.{flag}
use veri_close.Reconciliation.Rules.Gateway.{GatewayPart}
use veri_close.Reconciliation.Rules.Bank.{
  BankPart, bank_part, Selection, select_bank_group, utr_events, identifier_conflict, resolve,
  first_reference, date_in_range,
}

-- the unconsumed events that carry the reference of the settlement row
abbrev pub exact_events : ReconciliationContext → GatewayPart → List String → List CanonicalEvent
exact_events context g consumed = utr_events context consumed (first_reference g.rows)

-- How the group of the step comes from the selection.
pub record Chosen (context : ReconciliationContext) (g : GatewayPart) (consumed : List String)
    (b : BankPart) : Type 0 where
  pub selected : Selection
  pub selection : select_bank_group context g.anchor g.observed_net consumed ≡ ok selected
  pub group : b.group ≡ (resolve (exact_events context g consumed) g.observed_net selected).group
  pub unique : b.unique ≡ (
      non_empty b.group
      && not (resolve (exact_events context g consumed) g.observed_net selected).ambiguous
      && not (resolve (exact_events context g consumed) g.observed_net selected).bounded_out)

pub record Facts (context : ReconciliationContext) (g : GatewayPart) (consumed : List String)
    (b : BankPart) : Type 0 where
  pub chosen : Chosen context g consumed b
  pub receipt :
      (t : ℤ) × (tolerance context.policy "bank_receipt" ≡ ok t)
      × (b.amount_passed
          ≡ (non_empty b.group && leb_ℤ (abs (pos (total amount b.group) -ℤ pos g.observed_net)) t))
  pub direction :
      b.direction_passed
      ≡ (non_empty b.group && all (λ (e : CanonicalEvent). is_credit e.direction) b.group)
  pub utr : b.expected_utr ≡ first_reference g.rows
  pub reference : b.reference_passed ≡ (
      non_empty b.group
      && truthy b.expected_utr
      && all (λ (e : CanonicalEvent). same_option e.bank_utr b.expected_utr) b.group)
  pub date :
      b.date_passed
      ≡ (non_empty b.group && all (date_in_range context g.anchor.event_at.date) b.group)
  pub conflict_reason :
      identifier_conflict (exact_events context g consumed) g.observed_net ≡ true
      → contains "DUPLICATE_IDENTIFIER" b.reasons ≡ true
  pub flags :
      map flag b.checks
      ≡ record { code = "BANK_RECEIPT_PRESENT"; passed = non_empty b.group }
        ∷ record { code = "BANK_RECEIPT_AMOUNT"; passed = b.amount_passed }
        ∷ record { code = "BANK_RECEIPT_DIRECTION"; passed = b.direction_passed }
        ∷ record { code = "BANK_RECEIPT_REFERENCE"; passed = b.reference_passed }
        ∷ record { code = "BANK_RECEIPT_DATE"; passed = b.date_passed }
        ∷ record { code = "BANK_RECEIPT_UNIQUE"; passed = b.unique }
        ∷ []

module _ (context : ReconciliationContext) (g : GatewayPart) (consumed : List String) (b : BankPart)
    (h : bank_part context g consumed ≡ ok b) where
  Chosen-of_part : Chosen context g consumed b
  unfolding bank_part
  Chosen-of_part =
      elim (Result-cases (select_bank_group context g.anchor g.observed_net consumed)) [
        | inl (s, e) ↦ record {
          selected = s;
          selection = e;
          group = ground arith;
          unique = ground arith;
        }
        | inr (e, f) ↦ absurd (ground arith)
      ]

  receipt_of :
      (t : ℤ) × (tolerance context.policy "bank_receipt" ≡ ok t)
      × (b.amount_passed
          ≡ (non_empty b.group && leb_ℤ (abs (pos (total amount b.group) -ℤ pos g.observed_net)) t))
  unfolding bank_part
  receipt_of = elim (Result-cases (tolerance context.policy "bank_receipt")) [
    | inl (t, e) ↦ (t, e, ground arith)
    | inr (e, f) ↦ absurd (ground arith)
  ]

  conflict_reason_of :
      identifier_conflict (exact_events context g consumed) g.observed_net ≡ true
      → contains "DUPLICATE_IDENTIFIER" b.reasons ≡ true
  unfolding bank_part contains
  conflict_reason_of c = ground arith

  flags_of :
      map flag b.checks
      ≡ record { code = "BANK_RECEIPT_PRESENT"; passed = non_empty b.group }
        ∷ record { code = "BANK_RECEIPT_AMOUNT"; passed = b.amount_passed }
        ∷ record { code = "BANK_RECEIPT_DIRECTION"; passed = b.direction_passed }
        ∷ record { code = "BANK_RECEIPT_REFERENCE"; passed = b.reference_passed }
        ∷ record { code = "BANK_RECEIPT_DATE"; passed = b.date_passed }
        ∷ record { code = "BANK_RECEIPT_UNIQUE"; passed = b.unique }
        ∷ []
  unfolding bank_part check proof_check
  flags_of = ground arith

  pub bank_part-Facts : Facts context g consumed b
  unfolding bank_part
  bank_part-Facts = record {
    chosen = Chosen-of_part;
    receipt = receipt_of;
    direction = ground arith;
    utr = ground arith;
    reference = ground arith;
    date = ground arith;
    conflict_reason = conflict_reason_of;
    flags = flags_of;
  }
