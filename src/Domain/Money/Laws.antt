-- ===== src/Domain/Money/Laws.antt =====
-- What the constructor of domain/money.py guarantees, and the arithmetic on its values.
use veri_close.Prelude.{
  ℕ, ◌+◌, String, ◌≡◌, refl, List, [], ◌∷◌, ℤ, pos, ok, arith, true, all, is_alpha, eq_iff,
  of_codes, length, IsCapitals, IsCapitals-of_upper, upper-strip-of_codes, strip, codes, ap, sym,
  ◌∙◌, negsuc, upper, ◌↔◌, ◌≤◌, ◌-◌,
}
use veri_close.Domain.Money.{Money, money, normalized, add, subtract}

-- A value that the constructor returned: its currency passes the constructor unchanged.
pub record IsMoney (m : Money) : Type 0 where
  pub stable :
      (n : ℕ) → money (pos n) m.currency ≡ ok (record { amount_minor = n; currency = m.currency })

three : (cs : List ℕ) → length cs ≡ 3 → (a : ℕ) × (b : ℕ) × (c : ℕ) × (cs ≡ a ∷ b ∷ c ∷ [])
three (a ∷ b ∷ c ∷ []) h = (a, b, c, refl)
three [] h = absurd (omega arith)
three (a ∷ []) h = absurd (omega arith)
three (a ∷ b ∷ []) h = absurd (omega arith)
three (a ∷ b ∷ c ∷ d ∷ cs) h = absurd (omega arith)

-- The tests that the constructor made, of a value that it returned.
tests_passed :
    (n : ℕ) (s : String) (m : Money)
    → money (pos n) s ≡ ok m
    → (m ≡ record { amount_minor = n; currency = of_codes (normalized s) })
      × (length (normalized s) ≡ 3)
      × (all is_alpha (normalized s) ≡ true)
unfolding money
tests_passed n s m h = ground arith

money_of_capitals :
    (a b c n : ℕ)
    → IsCapitals a b c
    → money (pos n) (of_codes (a ∷ b ∷ c ∷ []))
      ≡ ok (record { amount_minor = n; currency = of_codes (a ∷ b ∷ c ∷ []) })
unfolding money
money_of_capitals a b c n h = rw (upper-strip-of_codes a b c h) (ground arith)

-- A normalised currency that passed the tests is three capitals.
IsCapitals-of_tests :
    (cs : List ℕ)
    → length (upper cs) ≡ 3
    → all is_alpha (upper cs) ≡ true
    → (a : ℕ) × (b : ℕ) × (c : ℕ) × (upper cs ≡ a ∷ b ∷ c ∷ []) × IsCapitals a b c
IsCapitals-of_tests cs len alpha =
    let (a, b, c, e) = three (upper cs) len in
    (a, b, c, e, IsCapitals-of_upper cs a b c e (rw e at alpha))

stable_of_tests :
    (cs : List ℕ) (n : ℕ)
    → length (upper cs) ≡ 3
    → all is_alpha (upper cs) ≡ true
    → money (pos n) (of_codes (upper cs))
      ≡ ok (record { amount_minor = n; currency = of_codes (upper cs) })
stable_of_tests cs n len alpha =
    let (a, b, c, e, caps) = IsCapitals-of_tests cs len alpha in
    rw e (money_of_capitals a b c n caps)

stable_of_money :
    (k n : ℕ) (s : String) (m : Money)
    → money (pos k) s ≡ ok m
    → money (pos n) m.currency ≡ ok (record { amount_minor = n; currency = m.currency })
unfolding normalized
stable_of_money k n s m h =
    let (e, len, alpha) = tests_passed k s m h in
    rw (ap (λ (x : Money). x.currency) e) (stable_of_tests (strip (codes s)) n len alpha)

-- What the constructor has to make of its arguments: the amount as it is, and the currency stripped
-- and in capitals, which are three of A to Z.
pub record IsMoneyOf (z : ℤ) (s : String) (m : Money) : Type 0 where
  pub amount : z ≡ pos m.amount_minor
  pub a : ℕ
  pub b : ℕ
  pub c : ℕ
  pub letters : upper (strip (codes s)) ≡ a ∷ b ∷ c ∷ []
  pub capitals : IsCapitals a b c
  pub currency : m.currency ≡ of_codes (a ∷ b ∷ c ∷ [])

IsMoneyOf-of_money :
    (n : ℕ) (s : String) (m : Money) → money (pos n) s ≡ ok m → IsMoneyOf (pos n) s m
unfolding normalized
IsMoneyOf-of_money n s m h =
    let (e, len, alpha) = tests_passed n s m h in
    let (a, b, c, letters, caps) = IsCapitals-of_tests (strip (codes s)) len alpha in
    record {
      amount = ap (λ (x : Money). pos x.amount_minor) (sym e);
      a = a;
      b = b;
      c = c;
      letters = letters;
      capitals = caps;
      currency = ap (λ (x : Money). x.currency) e ∙ ap of_codes letters;
    }

money_of_IsMoneyOf : (z : ℤ) (s : String) (m : Money) → IsMoneyOf z s m → money z s ≡ ok m
unfolding money normalized
money_of_IsMoneyOf z s m w = rw w.amount (rw w.letters (ground arith))

-- `Money(amount, currency)` returns a value exactly where the amount is not negative and the
-- currency, stripped and in capitals, is three letters of A to Z; the value has that amount and those
-- letters, and the constructor is the identity on them: building any amount in them succeeds and
-- keeps them as they are.
pub money-IsMoney :
    (z : ℤ) (s : String) (m : Money) → (money z s ≡ ok m) ↔ (IsMoneyOf z s m × IsMoney m)
money-IsMoney z s m = (built z, λ (w, v). money_of_IsMoneyOf z s m w)
  where
    built : (z : ℤ) → money z s ≡ ok m → IsMoneyOf z s m × IsMoney m
    built (pos k) h =
        (IsMoneyOf-of_money k s m h, record { stable = λ n. stable_of_money k n s m h })
    built (negsuc k) h = absurd (unfold money in cc)

-- Where `a` is a value of the constructor and adding `b` succeeds with `c`: the amounts add up, and
-- subtracting `b` from `c` gives back `a`.
pub subtract-add :
    (a b c : Money)
    → IsMoney a
    → add a b ≡ ok c
    → (c.amount_minor ≡ a.amount_minor + b.amount_minor) × (subtract c b ≡ ok a)
unfolding add subtract
subtract-add a b c va h = ground (
  arith,
  eq_iff a.currency b.currency,
  eq_iff c.currency b.currency,
  va.stable (a.amount_minor + b.amount_minor),
  va.stable (a.amount_minor + b.amount_minor - b.amount_minor),
)

-- Of a value `a` of the constructor, subtracting `b` succeeds exactly where the currencies agree and
-- the result is not negative.
pub subtract_iff :
    (a b : Money)
    → IsMoney a
    → ((m : Money) × (subtract a b ≡ ok m))
      ↔ ((a.currency ≡ b.currency) × (b.amount_minor ≤ a.amount_minor))
unfolding subtract
subtract_iff a b va = (
  λ (m, h). ground (arith, eq_iff a.currency b.currency),
  λ (same, le). (
    record { amount_minor = a.amount_minor - b.amount_minor; currency = a.currency },
    ground (arith, eq_iff a.currency b.currency, va.stable (a.amount_minor - b.amount_minor)),
  ),
)
