-- ===== src/Domain/Money.antt =====
-- core/vericlose/domain/money.py
pub mod Laws
use veri_close.Prelude.{
  ℕ, ◌+◌, ◌-◌, String, not, ◌||◌, List, ℤ, pos, negsuc, Result, ok, err, value_error, ◌>>=◌, ◌>>◌,
  raise_if, ltb, nat_eq, str_eq, codes, of_codes, strip, upper, is_ascii, is_alpha, all, length,
}

-- The magnitude is not negative once the constructor has run.
pub record Money : Type 0 where
  pub amount_minor : ℕ
  pub currency : String

-- the code points of currency.strip().upper()
unfoldable pub normalized : String → List ℕ
unfolding strip upper
normalized currency = upper (strip (codes currency))

-- Money.__post_init__
unfoldable pub money : ℤ → String → Result Money
unfolding normalized of_codes all is_ascii is_alpha
money (negsuc n) currency = err (value_error "amount_minor cannot be negative")
money (pos n) currency = do
  let cs = normalized currency
  raise_if (not (nat_eq (length cs) 3) || not (all is_ascii cs) || not (all is_alpha cs))
      (value_error "currency must be a three-letter ASCII code")
  ok (record { amount_minor = n; currency = of_codes cs })

-- Money._require_same_currency
unfoldable pub require_same_currency : Money → Money → Result (Unit {0})
require_same_currency a b =
    raise_if (not (str_eq a.currency b.currency)) (value_error "currency mismatch")

-- Money.add
unfoldable pub add : Money → Money → Result Money
unfolding require_same_currency
add a b = do require_same_currency a b; money (pos (a.amount_minor + b.amount_minor)) a.currency

-- Money.subtract
unfoldable pub subtract : Money → Money → Result Money
unfolding require_same_currency
subtract a b = do
  require_same_currency a b
  raise_if (ltb a.amount_minor b.amount_minor)
      (value_error "Money subtraction cannot produce a negative magnitude")
  money (pos (a.amount_minor - b.amount_minor)) a.currency
