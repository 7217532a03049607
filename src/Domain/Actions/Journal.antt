-- ===== src/Domain/Actions/Journal.antt =====
-- Double entry: what the constructor of `JournalProposal` in domain/actions.py guarantees.
use veri_close.Prelude.{
  ◌+◌, ◌≤◌, ◌≡◌, refl, List, ok, arith, length, total, map, String, dedup, [], ◌∷◌, All, dedup_from,
  eq_iff,
}
use veri_close.Domain.Actions.{
  JournalLine, JournalProposal, journal_proposal, debit_total, credit_total, line_amount,
  line_currency,
}

-- The totals of the two sides add up to the total of all lines.
sides_total :
    (lines : List JournalLine) → debit_total lines + credit_total lines ≡ total line_amount lines
unfolding debit_total credit_total
sides_total [] = refl
sides_total (l ∷ lines) = ground (arith, sides_total lines)

single_from :
    (c : String) (lines : List JournalLine)
    → length (dedup_from (c ∷ []) (map line_currency lines)) ≡ 0
    → All (λ (l : JournalLine). l.money.currency ≡ c) lines
unfolding dedup_from
single_from c [] h = tt
single_from c (l ∷ lines) h = ground (arith, single_from c lines, eq_iff l.money.currency c)

-- One distinct currency means the same currency on every line.
single_currency :
    (lines : List JournalLine)
    → length (dedup (map line_currency lines)) ≡ 1
    → (c : String) × All (λ (l : JournalLine). l.money.currency ≡ c) lines
unfolding dedup_from
single_currency [] h = absurd (omega arith)
single_currency (l ∷ lines) h =
    (l.money.currency, (refl, single_from l.money.currency lines (omega arith)))

-- A journal that the constructor accepts.
pub record IsBalanced (lines : List JournalLine) : Type 0 where
  pub two_lines : 2 ≤ length lines
  pub currency : String
  pub one_currency : All (λ (l : JournalLine). l.money.currency ≡ currency) lines
  pub balanced : debit_total lines ≡ credit_total lines
  pub half : debit_total lines + debit_total lines ≡ total line_amount lines

accepted :
    (lines : List JournalLine) (j : JournalProposal)
    → journal_proposal lines ≡ ok j
    → (j.lines ≡ lines)
      × (2 ≤ length lines)
      × (length (dedup (map line_currency lines)) ≡ 1)
      × (debit_total lines ≡ credit_total lines)
unfolding journal_proposal
accepted lines j h = ground arith

-- An accepted journal has at least two lines, all in one currency, its debits equal its credits,
-- and each side is half of all that it moves.
pub journal_proposal-IsBalanced :
    (lines : List JournalLine) (j : JournalProposal)
    → journal_proposal lines ≡ ok j
    → (j.lines ≡ lines) × IsBalanced lines
journal_proposal-IsBalanced lines j h =
    let (same, two, one, bal) = accepted lines j h in
    let (c, all_c) = single_currency lines one in
    (
      same,
      record {
        two_lines = two;
        currency = c;
        one_currency = all_c;
        balanced = bal;
        half = omega (arith, sides_total lines);
      },
    )
