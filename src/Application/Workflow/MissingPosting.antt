-- ===== src/Application/Workflow/MissingPosting.antt =====
-- core/vericlose/application/actions.py: the whole journal of a missing ERP posting.
use veri_close.Prelude.{
  ℕ, ◌+◌, ◌≡◌, refl, sym, subst, true, List, [], ◌∷◌, ◌++◌, ok, arith, filter, total, Result-cases,
  inl, inr, All,
}
use veri_close.Domain.Actions.{
  JournalLine, JournalProposal, journal_proposal, line_amount, debit_total, credit_total,
}
use veri_close.Domain.Actions.Journal.{IsBalanced, journal_proposal-IsBalanced}
use veri_close.Domain.Enums.{Direction, EventType, is_gateway, is_credit}
use veri_close.Domain.Events.{CanonicalEvent}
use veri_close.Reconciliation.Policy.{ReconciliationPolicy}
use veri_close.Application.Workflow.Journals.{
  line, component, is_bank_receipt, the_receipt, debit_lines, is_clearing, missing_erp_journal,
}
use veri_close.Application.Workflow.Posted.{
  IsConfigured, IsLine, AreDebits, line-IsLine, debit_lines-AreDebits, All-append,
  debit_total-append, credit_total-append,
}

abbrev pub gateway_events : List CanonicalEvent → List CanonicalEvent
gateway_events events = filter (λ (e : CanonicalEvent). is_gateway e.source_type) events

-- what the journal moves: the receipt, the fees and the taxes
abbrev pub posted_amount : CanonicalEvent → List CanonicalEvent → ℕ
posted_amount receipt events =
    receipt.money.amount_minor
    + (component EventType.fee (gateway_events events)
        + component EventType.tax (gateway_events events))

-- The journal of a missing posting, of the events of a case.
pub record IsMissingPosting (policy : ReconciliationPolicy) (events : List CanonicalEvent)
    (lines : List JournalLine) : Type 0 where
  pub receipt : CanonicalEvent
  pub only : filter is_bank_receipt events ≡ receipt ∷ []
  pub debits : debit_total lines ≡ posted_amount receipt events
  pub credits : credit_total lines ≡ posted_amount receipt events
  pub balanced : IsBalanced lines
  pub accounts : All (IsConfigured policy) lines

the_receipt-only :
    (events : List CanonicalEvent) (e : CanonicalEvent)
    → the_receipt events ≡ ok e
    → events ≡ e ∷ []
the_receipt-only [] e h = cc
the_receipt-only (x ∷ []) e h = ground arith
the_receipt-only (x ∷ y ∷ events) e h = cc

clearing-credits :
    (policy : ReconciliationPolicy) (n : ℕ) (l : JournalLine)
    → IsLine policy n Direction.credit l
    → (debit_total (l ∷ []) ≡ 0) × (credit_total (l ∷ []) ≡ n)
unfolding debit_total credit_total total filter
clearing-credits policy n l w =
    let side : is_credit l.direction ≡ true = rw w.side refl in
    let amount : line_amount l ≡ n = w.amount in (ground arith, ground arith)

posting-IsMissingPosting :
    (policy : ReconciliationPolicy) (events : List CanonicalEvent) (receipt : CanonicalEvent)
    (lines : List JournalLine) (clearing : JournalLine) (j : JournalProposal)
    → filter is_bank_receipt events ≡ receipt ∷ []
    → AreDebits policy (posted_amount receipt events) lines
    → IsLine policy (total line_amount lines) Direction.credit clearing
    → journal_proposal (lines ++ clearing ∷ []) ≡ ok j
    → IsMissingPosting policy events j.lines
posting-IsMissingPosting policy events receipt lines clearing j only w c h =
    let (same, balanced) = journal_proposal-IsBalanced (lines ++ clearing ∷ []) j h in
    let (no_debit, credit) = clearing-credits policy (total line_amount lines) clearing c in
    let wd = w.debits in
    let wc = w.credits in
    let wa = w.amount in
    subst (IsMissingPosting policy events) (sym same) (record {
      receipt = receipt;
      only = only;
      debits = omega (arith, debit_total-append lines (clearing ∷ []));
      credits = omega (arith, credit_total-append lines (clearing ∷ []));
      balanced = balanced;
      accounts = All-append (IsConfigured policy) lines (clearing ∷ []) w.accounts (c.account, tt);
    })

-- The journal that is proposed for a case without an ERP posting: the case has exactly one bank
-- credit, each side of the journal moves its amount and the fees and taxes of the gateway, the
-- journal is balanced in one currency, and each line stands in an account of a role of the policy
-- that posts on the line's side.
pub missing_erp_journal-IsMissingPosting :
    (policy : ReconciliationPolicy) (events : List CanonicalEvent) (j : JournalProposal)
    → missing_erp_journal policy events ≡ ok j
    → IsMissingPosting policy events j.lines
unfolding missing_erp_journal
missing_erp_journal-IsMissingPosting policy events j h =
    let gateway = gateway_events events in
    elim (Result-cases (the_receipt (filter is_bank_receipt events))) [
      | inr (e, f) ↦ absurd (ground arith)
      | inl (receipt, r) ↦ elim (Result-cases (debit_lines policy receipt gateway)) [
        | inr (e, f) ↦ absurd (ground arith)
        | inl (lines, d) ↦
            elim (Result-cases (
              line policy "clearing" (total line_amount lines) Direction.credit "Gateway clearing"
                (filter is_clearing gateway))) [
                  | inr (e, f) ↦ absurd (ground arith)
                  | inl (clearing, c) ↦
                      posting-IsMissingPosting policy events receipt lines clearing j
                        (the_receipt-only (filter is_bank_receipt events) receipt r)
                        (debit_lines-AreDebits policy receipt gateway lines d)
                        (line-IsLine policy "clearing" (total line_amount lines) Direction.credit _
                          _ clearing c)
                        (ground arith)
                ]
      ]
    ]
