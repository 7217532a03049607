-- ===== src/Application/Workflow/Reversed.antt =====
-- core/vericlose/application/actions.py: the reversal of a duplicate ERP posting.
use veri_close.Prelude.{
  ℕ, ◌+◌, str_append, ◌≡◌, ◌∙◌, refl, sym, ap, subst, String, str_leb, str_eq, Bool, true, false,
  not, ◌&&◌, List, [], ◌∷◌, ◌++◌, ok, if◌then◌else◌, arith, filter, total, Result-cases, Bool-cases,
  inl, inr, map, sort_by, traverse,
}
use mathlib.Core.List.{append_assoc, append-nil}
use veri_close.Domain.Actions.{
  JournalLine, journal_line, JournalProposal, journal_proposal, line_amount, is_debit_line,
  is_credit_line,
}
use veri_close.Domain.Actions.Journal.{IsBalanced, journal_proposal-IsBalanced}
use veri_close.Domain.Enums.{Direction, is_erp, is_credit}
use veri_close.Domain.Events.{CanonicalEvent}
use veri_close.Reconciliation.Context.{group_journals, journal_id}
use veri_close.Reconciliation.Indexes.{Index, get, push}
use veri_close.Reconciliation.Indexes.Lookup.{get-push}
use veri_close.Application.Host.{Host}
use veri_close.Application.Workflow.Journals.{
  event_evidence, opposite, account_or_unmapped, reversal_line, duplicate_name, duplicate_reversal,
}

-- The journals hold the events of their names, in order.
get-group_journals :
    (name : String) (grouped : Index String) (events : List CanonicalEvent)
    → get str_eq name (group_journals grouped events)
      ≡ get str_eq name grouped
        ++ filter (λ (e : CanonicalEvent). str_eq (journal_id e) name) events
unfolding group_journals filter
get-group_journals name grouped [] = sym (append-nil _)
get-group_journals name grouped (e ∷ events) = elim (Bool-cases (str_eq (journal_id e) name)) [
  | inl here ↦
      let w : get str_eq name (push str_eq (journal_id e) e grouped)
          ≡ get str_eq name grouped ++ e ∷ [] =
        rw here at (get-push name (journal_id e) e grouped) in
      get-group_journals name (push str_eq (journal_id e) e grouped) events
      ∙ rw w (rw here (append_assoc (get str_eq name grouped) (e ∷ []) _))
  | inr away ↦
      let w : get str_eq name (push str_eq (journal_id e) e grouped) ≡ get str_eq name grouped =
        rw away at (get-push name (journal_id e) e grouped) in
      get-group_journals name (push str_eq (journal_id e) e grouped) events ∙ rw w (rw away refl)
]

-- what lines and events move on the accounts that a test picks
abbrev pub debited : (String → Bool) → List JournalLine → ℕ
debited q lines = total line_amount (filter (λ l. is_debit_line l && q l.account_code) lines)

abbrev pub credited : (String → Bool) → List JournalLine → ℕ
credited q lines = total line_amount (filter (λ l. is_credit_line l && q l.account_code) lines)

abbrev event_amount : CanonicalEvent → ℕ
event_amount e = e.money.amount_minor

abbrev pub debits_of : (String → Bool) → List CanonicalEvent → ℕ
debits_of q events =
    total event_amount
      (filter (λ e. not (is_credit e.direction) && q (account_or_unmapped e.account_code)) events)

abbrev pub credits_of : (String → Bool) → List CanonicalEvent → ℕ
credits_of q events =
    total event_amount
      (filter (λ e. is_credit e.direction && q (account_or_unmapped e.account_code)) events)

-- the line that `reversal_line` builds
record Reverses (e : CanonicalEvent) (l : JournalLine) : Type 0 where
  amount : line_amount l ≡ e.money.amount_minor
  account : l.account_code ≡ account_or_unmapped e.account_code
  side : is_credit l.direction ≡ not (is_credit e.direction)

opposite-is_credit : (d : Direction) → is_credit (opposite d) ≡ not (is_credit d)
opposite-is_credit Direction.debit = refl
opposite-is_credit Direction.credit = refl

journal_line-same : (l m : JournalLine) → journal_line l ≡ ok m → l ≡ m
unfolding journal_line
journal_line-same l m h = ground arith

reversal_line-Reverses :
    (id : String) (e : CanonicalEvent) (l : JournalLine) → reversal_line id e ≡ ok l → Reverses e l
unfolding reversal_line
reversal_line-Reverses id e l h = elim (Result-cases (event_evidence e)) [
  | inr (er, f) ↦ absurd (ground arith)
  | inl (link, cited) ↦
      let built : JournalLine = record {
        account_code = account_or_unmapped e.account_code;
        money = e.money;
        direction = opposite e.direction;
        narration = str_append "Reverse duplicate posting " id;
        evidence_links = link ∷ [];
      } in
      subst (Reverses e) (journal_line-same built l (ground arith))
        (record { amount = refl; account = refl; side = opposite-is_credit e.direction })
]

total-filter :
    {A : Type 0} (p : A → Bool) (f : A → ℕ) (x : A) (xs : List A)
    → total f (filter p (x ∷ xs)) ≡ (if p x then f x else 0) + total f (filter p xs)
unfolding total filter
total-filter p f x xs = ground arith

not-not : (b : Bool) → not (not b) ≡ b
not-not true = refl
not-not false = refl

step :
    (q : String → Bool) (e : CanonicalEvent) (postings : List CanonicalEvent) (l : JournalLine)
    (lines : List JournalLine)
    → line_amount l ≡ e.money.amount_minor
    → q l.account_code ≡ q (account_or_unmapped e.account_code)
    → is_credit l.direction ≡ not (is_credit e.direction)
    → (debited q lines ≡ credits_of q postings) × (credited q lines ≡ debits_of q postings)
    → (debited q (l ∷ lines) ≡ credits_of q (e ∷ postings))
      × (credited q (l ∷ lines) ≡ debits_of q (e ∷ postings))
step q e postings l lines amount picked side rest =
    let (d, c) = rest in
    let c_l : is_credit_line l ≡ not (is_credit e.direction) = side in
    (
      total-filter (λ x. is_debit_line x && q x.account_code) line_amount l lines
          ∙ rw side (
              rw picked
                (rw amount (rw d (rw not-not (sym (total-filter _ event_amount e postings)))))),
      total-filter (λ x. is_credit_line x && q x.account_code) line_amount l lines
          ∙ rw side (rw picked (rw amount (rw c (sym (total-filter _ event_amount e postings))))),
    )

reversed_sides :
    (id : String) (q : String → Bool) (postings : List CanonicalEvent) (lines : List JournalLine)
    → traverse (reversal_line id) postings ≡ ok lines
    → (debited q lines ≡ credits_of q postings) × (credited q lines ≡ debits_of q postings)
unfolding traverse total filter
reversed_sides id q [] lines h = (ground arith, ground arith)
reversed_sides id q (e ∷ postings) lines h = elim (Result-cases (reversal_line id e)) [
  | inr (er, f) ↦ absurd (ground arith)
  | inl (l, built) ↦ elim (Result-cases (traverse (reversal_line id) postings)) [
    | inr (er, f) ↦ absurd (ground arith)
    | inl (ls, more) ↦
        let w = reversal_line-Reverses id e l built in
        let rest = reversed_sides id q postings ls more in
        let same : l ∷ ls ≡ lines = ground arith in
        let amount = w.amount in
        let picked : q l.account_code ≡ q (account_or_unmapped e.account_code) = ap q w.account in
        let side = w.side in
        subst
          (λ (x : List JournalLine).
            (debited q x ≡ credits_of q (e ∷ postings))
            × (credited q x ≡ debits_of q (e ∷ postings)))
          same (step q e postings l ls amount picked side rest)
  ]
]

-- The reversal of one of the journals of a case.
pub record IsReversal (host : Host) (events : List CanonicalEvent) (lines : List JournalLine)
    : Type 0 where
  pub name : String
  pub debits :
      (q : String → Bool)
      → debited q lines
        ≡ credits_of q (
            filter
              (λ (e : CanonicalEvent). str_eq (journal_id e) name)
              (filter (λ (e : CanonicalEvent). is_erp e.source_type) events))
  pub credits :
      (q : String → Bool)
      → credited q lines
        ≡ debits_of q (
            filter
              (λ (e : CanonicalEvent). str_eq (journal_id e) name)
              (filter (λ (e : CanonicalEvent). is_erp e.source_type) events))
  pub balanced : IsBalanced lines

-- The journal that is proposed for a duplicate ERP posting reverses one of the ERP journals of the
-- case: on the accounts that any test picks, so on each account, it debits what that journal
-- credits and credits what it debits; and it is balanced in one currency.
pub duplicate_reversal-IsReversal :
    (host : Host) (events : List CanonicalEvent) (j : JournalProposal)
    → duplicate_reversal host events ≡ ok j
    → IsReversal host events j.lines
unfolding duplicate_reversal get
duplicate_reversal-IsReversal host events j h =
    let erp = filter (λ (e : CanonicalEvent). is_erp e.source_type) events in
    let journals = group_journals [] erp in
    let name =
      duplicate_name host
        (sort_by str_leb (map (λ (g : String × List CanonicalEvent). g.0) journals)) in
    let postings = get str_eq name journals in
    elim (Result-cases (traverse (reversal_line name) postings)) [
      | inr (e, f) ↦ absurd (ground arith)
      | inl (lines, t) ↦
          let built : journal_proposal lines ≡ ok j = ground arith in
          let (same, balanced) = journal_proposal-IsBalanced lines j built in
          let taken : postings ≡ filter (λ (e : CanonicalEvent). str_eq (journal_id e) name) erp =
            get-group_journals name [] erp in
          subst (IsReversal host events) (sym same) (record {
            name = name;
            debits = λ q. (reversed_sides name q postings lines t).0 ∙ ap (credits_of q) taken;
            credits = λ q. (reversed_sides name q postings lines t).1 ∙ ap (debits_of q) taken;
            balanced = balanced;
          })
    ]
