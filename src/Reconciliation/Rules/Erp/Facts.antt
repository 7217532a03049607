-- ===== src/Reconciliation/Rules/Erp/Facts.antt =====
-- What a ledger step that returned has established.
use veri_close.Prelude.{
  String, Bool, ◌&&◌, ◌≡◌, refl, ◌∙◌, List, [], ◌∷◌, map, ℤ, pos, ◌-ℤ◌, abs, leb_ℤ, nat_eq, ok,
  arith, filter, total, length, non_empty, Result-cases, inl, inr, Result, traverse,
}
use mathlib.Core.List.{flatten}
use veri_close.Domain.Events.{CanonicalEvent}
use veri_close.Domain.Evidence.{EvidenceLink, proof_check}
use veri_close.Reconciliation.Context.{ReconciliationContext, erp_journals}
use veri_close.Reconciliation.Grouping.{amount}
use veri_close.Reconciliation.Policy.{ReconciliationPolicy, AccountRolePolicy, role, tolerance}
use veri_close.Reconciliation.Proposals.{evidence}
use veri_close.Reconciliation.Rules.Bank.{or_links}
use veri_close.Reconciliation.Rules.Checks.{check}
use veri_close.Reconciliation.Rules.Flags.{flag}
use veri_close.Reconciliation.Rules.Gateway.{GatewayPart}
use veri_close.Reconciliation.Rules.Erp.{
  ErpPart, Posting, posting, erp_part, is_posting, is_fee, is_tax, only_journal, journal_debits,
  journal_credits,
}

-- The postings of one role in a journal, tested against the amount that is expected of it.
abbrev pub Posted : ReconciliationPolicy → List CanonicalEvent → String → ℤ → Bool → Type 0
Posted policy journal role_name expected passed =
    (r : AccountRolePolicy) × (t : ℤ) × (role policy role_name ≡ ok r)
    × (tolerance policy "erp_posting" ≡ ok t)
    × (passed ≡ (
        non_empty journal
        && leb_ℤ (abs (pos (total amount (filter (is_posting r) journal)) -ℤ expected)) t))

module _ (policy : ReconciliationPolicy) (journal : List CanonicalEvent) (cited : List EvidenceLink)
    (code role_name : String) (expected : ℤ) (p : Posting)
    (h : posting policy journal cited code role_name expected ≡ ok p) where
  pub posting-Posted : Posted policy journal role_name expected p.passed
  unfolding posting
  posting-Posted = elim (Result-cases (role policy role_name)) [
    | inl (r, e) ↦ elim (Result-cases (tolerance policy "erp_posting")) [
      | inl (t, f) ↦ (r, t, e, f, ground arith)
      | inr (x, f) ↦ absurd (ground arith)
    ]
    | inr (x, f) ↦ absurd (ground arith)
  ]

  pub flag-posting : flag p.proof ≡ record { code = code; passed = p.passed }
  unfolding posting check proof_check
  flag-posting = ground arith

-- The four results of the loop over the roles.
pub record Roles (context : ReconciliationContext) (g : GatewayPart) (reference : String)
    (j : ErpPart) : Type 0 where
  pub bank : Bool
  pub clearing : Bool
  pub fee : Bool
  pub tax : Bool
  pub bank_posted : Posted context.policy j.journal "bank" (pos g.observed_net) bank
  pub clearing_posted : Posted context.policy j.journal "clearing" g.clearing_expected clearing
  pub fee_posted :
      Posted context.policy j.journal "fee" (pos (total amount (filter is_fee g.gateway))) fee
  pub tax_posted :
      Posted context.policy j.journal "tax" (pos (total amount (filter is_tax g.gateway))) tax
  pub flags :
      map flag j.checks
      ≡ record { code = "ERP_JOURNAL_PRESENT"; passed = non_empty (erp_journals context reference) }
        ∷ record { code = "ERP_JOURNAL_UNIQUE"; passed = j.unique }
        ∷ record { code = "ERP_JOURNAL_BALANCED"; passed = j.balanced }
        ∷ record { code = "ERP_BANK_POSTING"; passed = bank }
        ∷ record { code = "ERP_CLEARING_POSTING"; passed = clearing }
        ∷ record { code = "ERP_FEE_POSTING"; passed = fee }
        ∷ record { code = "ERP_TAX_POSTING"; passed = tax }
        ∷ []

pub record Facts (context : ReconciliationContext) (g : GatewayPart) (reference : String)
    (j : ErpPart) : Type 0 where
  pub journal : j.journal ≡ only_journal (erp_journals context reference)
  pub unique : j.unique ≡ nat_eq (length (erp_journals context reference)) 1
  pub balanced :
      j.balanced
      ≡ (non_empty j.journal && nat_eq (journal_debits j.journal) (journal_credits j.journal))
  pub roles : Roles context g reference j

module _ (context : ReconciliationContext) (g : GatewayPart) (reference : String) (j : ErpPart)
    (h : erp_part context g reference ≡ ok j) where
  journals : List (List CanonicalEvent)
  journals = erp_journals context reference

  links_of : Result (List EvidenceLink)
  links_of =
      traverse (λ (e : CanonicalEvent). evidence e "ERP posting candidate")
        (flatten (erp_journals context reference))

  -- the round of the loop for one role
  round : List EvidenceLink → String → String → ℤ → Result Posting
  round links =
      posting context.policy (only_journal (erp_journals context reference))
        (or_links links g.links)

  -- The step has built its links and made the four postings, and its checks are these.
  record Made : Type 0 where
    links : List EvidenceLink
    linked : links_of ≡ ok links
    bank : Posting
    bank_round : round links "ERP_BANK_POSTING" "bank" (pos g.observed_net) ≡ ok bank
    clearing : Posting
    clearing_round : round links "ERP_CLEARING_POSTING" "clearing" g.clearing_expected ≡ ok clearing
    fee : Posting
    fee_round :
        round links "ERP_FEE_POSTING" "fee" (pos (total amount (filter is_fee g.gateway))) ≡ ok fee
    tax : Posting
    tax_round :
        round links "ERP_TAX_POSTING" "tax" (pos (total amount (filter is_tax g.gateway))) ≡ ok tax

  made : Made
  unfolding erp_part links_of round
  made = elim (Result-cases links_of) [
    | inr (x, f) ↦ absurd (ground arith)
    | inl (links, e) ↦
        elim (Result-cases (round links "ERP_BANK_POSTING" "bank" (pos g.observed_net))) [
          | inr (x, f) ↦ absurd (ground arith)
          | inl (bank, eb) ↦
              elim (Result-cases
                (round links "ERP_CLEARING_POSTING" "clearing" g.clearing_expected)) [
                  | inr (x, f) ↦ absurd (ground arith)
                  | inl (clearing, ec) ↦
                      elim (Result-cases (
                        round links "ERP_FEE_POSTING" "fee"
                          (pos (total amount (filter is_fee g.gateway))))) [
                            | inr (x, f) ↦ absurd (ground arith)
                            | inl (fee, ef) ↦
                                elim (Result-cases (
                                  round links "ERP_TAX_POSTING" "tax"
                                    (pos (total amount (filter is_tax g.gateway))))) [
                                      | inr (x, f) ↦ absurd (ground arith)
                                      | inl (tax, et) ↦ record {
                                        links = links;
                                        linked = e;
                                        bank = bank;
                                        bank_round = eb;
                                        clearing = clearing;
                                        clearing_round = ec;
                                        fee = fee;
                                        fee_round = ef;
                                        tax = tax;
                                        tax_round = et;
                                      }
                                    ]
                          ]
                ]
        ]
  ]

  journal_of : j.journal ≡ only_journal (erp_journals context reference)
  unfolding erp_part
  journal_of = ground arith

  rounds_flags :
      map flag j.checks
      ≡ record { code = "ERP_JOURNAL_PRESENT"; passed = non_empty (erp_journals context reference) }
        ∷ record { code = "ERP_JOURNAL_UNIQUE"; passed = j.unique }
        ∷ record { code = "ERP_JOURNAL_BALANCED"; passed = j.balanced }
        ∷ flag made.bank.proof
        ∷ flag made.clearing.proof
        ∷ flag made.fee.proof
        ∷ flag made.tax.proof
        ∷ []
  unfolding erp_part check proof_check links_of round
  rounds_flags =
      ground
        (arith, made.linked, made.bank_round, made.clearing_round, made.fee_round, made.tax_round)

  Posted-of_round :
      (code role_name : String) (expected : ℤ) (p : Posting)
      → round made.links code role_name expected ≡ ok p
      → Posted context.policy j.journal role_name expected p.passed
  unfolding round
  Posted-of_round code role_name expected p r = rw journal_of (
      posting-Posted context.policy (only_journal (erp_journals context reference)) _ code role_name
        expected p r)

  flag-round :
      (code role_name : String) (expected : ℤ) (p : Posting)
      → round made.links code role_name expected ≡ ok p
      → flag p.proof ≡ record { code = code; passed = p.passed }
  unfolding round
  flag-round code role_name expected p r =
      flag-posting context.policy (only_journal (erp_journals context reference)) _ code role_name
        expected p r

  Roles-of_part : Roles context g reference j
  Roles-of_part = record {
    bank = made.bank.passed;
    clearing = made.clearing.passed;
    fee = made.fee.passed;
    tax = made.tax.passed;
    bank_posted = Posted-of_round _ _ _ made.bank made.bank_round;
    clearing_posted = Posted-of_round _ _ _ made.clearing made.clearing_round;
    fee_posted = Posted-of_round _ _ _ made.fee made.fee_round;
    tax_posted = Posted-of_round _ _ _ made.tax made.tax_round;
    flags =
        rounds_flags
        ∙ rw
            (
              flag-round _ _ _ made.bank made.bank_round,
              flag-round _ _ _ made.clearing made.clearing_round,
              flag-round _ _ _ made.fee made.fee_round,
              flag-round _ _ _ made.tax made.tax_round,
            )
            refl;
  }

  pub erp_part-Facts : Facts context g reference j
  unfolding erp_part
  erp_part-Facts = record {
    journal = journal_of;
    unique = ground arith;
    balanced = ground arith;
    roles = Roles-of_part;
  }
