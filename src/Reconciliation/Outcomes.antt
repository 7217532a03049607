-- ===== src/Reconciliation/Outcomes.antt =====
-- The result of a call that is known to succeed, for the examples.
use mathlib.Core.Bool.{false≢true}
use veri_close.Prelude.{Bool, true, false, ◌≡◌, refl, Result, ok, err}

abbrev pub is_ok : {A : Type 0} → Result A → Bool
is_ok (ok a) = true
is_ok (err e) = false

-- the result of a call that succeeds
abbrev pub result_of : {A : Type 0} → (r : Result A) → is_ok r ≡ true → A
result_of (ok a) h = a
result_of (err e) h = absurd (false≢true h)

pub result_of-ok : {A : Type 0} → (r : Result A) (h : is_ok r ≡ true) → r ≡ ok (result_of r h)
result_of-ok (ok a) h = refl
result_of-ok (err e) h = absurd (false≢true h)
