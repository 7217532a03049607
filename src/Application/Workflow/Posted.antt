-- ===== src/Application/Workflow/Posted.antt =====
-- core/vericlose/application/actions.py: the journal proposed for a missing ERP posting.
use veri_close.Prelude.{
  ℕ, zero, suc, ◌+◌, ◌≡◌, refl, subst, String, str_eq, str_leb, Bool, true, false, not, List, [],
  ◌∷◌, ◌++◌, ok, arith, filter, total, all, contains, sort_by, all-sort_by, Result-cases, inl, inr,
  eq_iff, All, traverse, pos, filter-append, total-append,
}
use veri_close.Domain.Actions.{
  JournalLine, journal_line, line_amount, is_debit_line, is_credit_line, debit_total, credit_total,
}
use veri_close.Domain.Enums.{Direction, EventType, is_credit, same_direction}
use veri_close.Domain.Events.{CanonicalEvent}
use veri_close.Domain.Money.{Money, money}
use veri_close.Reconciliation.Policy.{ReconciliationPolicy, AccountRolePolicy, role}
use veri_close.Application.Workflow.Journals.{
  event_evidence, first_code, line, component, component_line, line_if, debit_lines,
}

contains-all :
    (k : String) (xs : List String) → contains k xs ≡ not (all (λ x. not (str_eq k x)) xs)
unfolding contains all
contains-all k [] = refl
contains-all k (x ∷ xs) = ground (arith, contains-all k xs)

first_code-contains :
    (codes : List String) (c : String) → first_code codes ≡ ok c → contains c codes ≡ true
unfolding first_code all
first_code-contains codes c h =
    let p : String → Bool = λ x. not (str_eq c x) in
    let sorted : all p (sort_by str_leb codes) ≡ all p codes = all-sort_by str_leb p codes in
    ground (arith, contains-all c codes, eq_iff c c)

-- a line in an account of a role that posts on the line's side
pub record IsConfigured (policy : ReconciliationPolicy) (l : JournalLine) : Type 0 where
  pub role_name : String
  pub configured : AccountRolePolicy
  pub found : role policy role_name ≡ ok configured
  pub listed : contains l.account_code configured.account_codes ≡ true
  pub side : same_direction configured.direction l.direction ≡ true

-- What `line` builds.
pub record IsLine (policy : ReconciliationPolicy) (amount_minor : ℕ) (direction : Direction)
    (l : JournalLine) : Type 0 where
  pub amount : line_amount l ≡ amount_minor
  pub side : l.direction ≡ direction
  pub account : IsConfigured policy l

money-amount : (n : ℕ) (c : String) (m : Money) → money (pos n) c ≡ ok m → m.amount_minor ≡ n
unfolding money
money-amount n c m h = ground arith

journal_line-same : (l m : JournalLine) → journal_line l ≡ ok m → l ≡ m
unfolding journal_line
journal_line-same l m h = ground arith

pub line-IsLine :
    (policy : ReconciliationPolicy) (role_name : String) (n : ℕ) (d : Direction)
    (narration : String) (events : List CanonicalEvent) (l : JournalLine)
    → line policy role_name n d narration events ≡ ok l
    → IsLine policy n d l
unfolding line
line-IsLine policy role_name n d narration events l h =
    elim (Result-cases (role policy role_name)) [
      | inr (e, f) ↦ absurd (ground arith)
      | inl (r, found) ↦ elim (Result-cases (first_code r.account_codes)) [
        | inr (e, f) ↦ absurd (ground arith)
        | inl (c, code) ↦ elim (Result-cases (money (pos n) policy.currency)) [
          | inr (e, f) ↦ absurd (ground arith)
          | inl (m, sum) ↦ elim (Result-cases (traverse event_evidence events)) [
            | inr (e, f) ↦ absurd (ground arith)
            | inl (links, cited) ↦
                let built : JournalLine = record {
                  account_code = c;
                  money = m;
                  direction = d;
                  narration = narration;
                  evidence_links = links;
                } in
                let same : built ≡ l = journal_line-same built l (ground arith) in
                let side : same_direction r.direction d ≡ true = ground arith in
                subst (IsLine policy n d) same (record {
                  amount = money-amount n policy.currency m sum;
                  side = refl;
                  account = record {
                    role_name = role_name;
                    configured = r;
                    found = found;
                    listed = first_code-contains r.account_codes c code;
                    side = side;
                  };
                })
          ]
        ]
      ]
    ]

-- lines on the debit side that add up to an amount
pub record AreDebits (policy : ReconciliationPolicy) (n : ℕ) (lines : List JournalLine)
    : Type 0 where
  pub debits : debit_total lines ≡ n
  pub credits : credit_total lines ≡ 0
  pub amount : total line_amount lines ≡ n
  pub accounts : All (IsConfigured policy) lines

AreDebits-one :
    (policy : ReconciliationPolicy) (n : ℕ) (l : JournalLine)
    → IsLine policy n Direction.debit l
    → AreDebits policy n (l ∷ [])
unfolding debit_total credit_total total filter
AreDebits-one policy n l w =
    let side : is_credit l.direction ≡ false = rw w.side refl in
    let amount : line_amount l ≡ n = w.amount in
    record {
      debits = ground arith;
      credits = ground arith;
      amount = ground arith;
      accounts = (w.account, tt);
    }

line_if-AreDebits :
    (policy : ReconciliationPolicy) (role_name : String) (n : ℕ) (narration : String)
    (events : List CanonicalEvent) (lines : List JournalLine)
    → line_if policy role_name n narration events ≡ ok lines
    → AreDebits policy n lines
unfolding line_if debit_total credit_total total filter
line_if-AreDebits policy role_name zero narration events lines h =
    let same : [] ≡ lines = ground arith in
    subst (AreDebits policy zero) same
      (record { debits = refl; credits = refl; amount = refl; accounts = tt })
line_if-AreDebits policy role_name (suc n) narration events lines h =
    elim (Result-cases (line policy role_name (suc n) Direction.debit narration events)) [
      | inr (e, f) ↦ absurd (ground arith)
      | inl (l, built) ↦
          let same : l ∷ [] ≡ lines = ground arith in
          subst (AreDebits policy (suc n)) same (
            AreDebits-one policy (suc n) l
              (line-IsLine policy role_name (suc n) Direction.debit narration events l built))
    ]

pub All-append :
    {A : Type 0} (P : A → Type 0) (xs ys : List A) → All P xs → All P ys → All P (xs ++ ys)
All-append P [] ys hx hy = hy
All-append P (x ∷ xs) ys hx hy = (hx.0, All-append P xs ys hx.1 hy)

pub debit_total-append :
    (xs ys : List JournalLine) → debit_total (xs ++ ys) ≡ debit_total xs + debit_total ys
unfolding debit_total
debit_total-append xs ys = rw (filter-append is_debit_line xs ys) (total-append line_amount _ _)

pub credit_total-append :
    (xs ys : List JournalLine) → credit_total (xs ++ ys) ≡ credit_total xs + credit_total ys
unfolding credit_total
credit_total-append xs ys = rw (filter-append is_credit_line xs ys) (total-append line_amount _ _)

AreDebits-append :
    (policy : ReconciliationPolicy) (m n : ℕ) (xs ys : List JournalLine)
    → AreDebits policy m xs
    → AreDebits policy n ys
    → AreDebits policy (m + n) (xs ++ ys)
AreDebits-append policy m n xs ys v w =
    let vd = v.debits in
    let vc = v.credits in
    let va = v.amount in
    let wd = w.debits in
    let wc = w.credits in
    let wa = w.amount in
    record {
      debits = omega (arith, debit_total-append xs ys);
      credits = omega (arith, credit_total-append xs ys);
      amount = omega (arith, total-append line_amount xs ys);
      accounts = All-append (IsConfigured policy) xs ys v.accounts w.accounts;
    }

pub debit_lines-AreDebits :
    (policy : ReconciliationPolicy) (receipt : CanonicalEvent) (gateway : List CanonicalEvent)
    (lines : List JournalLine)
    → debit_lines policy receipt gateway ≡ ok lines
    → AreDebits policy
        (receipt.money.amount_minor
          + (component EventType.fee gateway + component EventType.tax gateway))
        lines
unfolding debit_lines component_line
debit_lines-AreDebits policy receipt gateway lines h =
    let n = receipt.money.amount_minor in
    let fees = component EventType.fee gateway in
    let taxes = component EventType.tax gateway in
    elim (Result-cases (line policy "bank" n Direction.debit "Bank receipt" (receipt ∷ []))) [
      | inr (e, f) ↦ absurd (ground arith)
      | inl (bank, b) ↦
          elim (Result-cases
            (component_line policy "fee" EventType.fee "Gateway fee expense" gateway)) [
              | inr (e, f) ↦ absurd (ground arith)
              | inl (fee, c) ↦
                  elim (Result-cases (
                    component_line policy "tax" EventType.tax "Input GST on gateway fee" gateway)) [
                      | inr (e, f) ↦ absurd (ground arith)
                      | inl (tax, t) ↦
                          let same : bank ∷ (fee ++ tax) ≡ lines = ground arith in
                          let bank' =
                            AreDebits-one policy n bank
                              (line-IsLine policy "bank" n Direction.debit _ _ bank b) in
                          let fee' = line_if-AreDebits policy "fee" fees _ _ fee c in
                          let tax' = line_if-AreDebits policy "tax" taxes _ _ tax t in
                          subst (AreDebits policy (n + (fees + taxes))) same (
                            AreDebits-append policy n (fees + taxes) (bank ∷ []) (fee ++ tax) bank'
                              (AreDebits-append policy fees taxes fee tax fee' tax'))
                    ]
            ]
    ]
