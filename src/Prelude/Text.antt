-- ===== src/Prelude/Text.antt =====
-- Python's `str` as the native text, and what the program calls of it.
use Prim.Native.Nat.{ℕ, zero, suc, ◌+◌, ◌/◌, ◌%◌}
use Prim.Native.Char.{code}
use Prim.Native.String.{String, compare, ◌++◌ as str_append}
use Prim.Native.String.append
use mathlib.Core.Path.{◌≡◌, refl, sym, subst}
use mathlib.Core.Logic.{inl, inr}
use mathlib.Core.Bool.{Bool, true, false, false≢true, ◌&&◌, ◌||◌, not}
use mathlib.Core.Option.{Option, none, some}
use mathlib.Core.List.{List, [], ◌∷◌}
use native.Mathlib.Omega.{arith}
use text.Mathlib.Text.{is_le, ◌==◌ as str_eq}
use veri_close.Prelude.Tests.{leb, nat_eq, if◌then◌else◌, Bool-cases, str_eq→eq}
use veri_close.Prelude.Int.{ℤ, pos, negsuc}
use veri_close.Prelude.Lists.{all, All}

-- the code points of a text
abbrev pub codes : String → List ℕ
codes String.[] = []
codes (String.◌∷◌ c s) = code c ∷ codes s

-- `str.isspace` of one code point
unfoldable pub is_space : ℕ → Bool
is_space c =
    leb 9 c && leb c 13
    || leb 28 c && leb c 32
    || nat_eq c 133
    || nat_eq c 160
    || nat_eq c 5760
    || leb 8192 c && leb c 8202
    || nat_eq c 8232
    || nat_eq c 8233
    || nat_eq c 8239
    || nat_eq c 8287
    || nat_eq c 12288

-- not value.strip()
unfoldable pub is_blank : String → Bool
unfolding is_space all
is_blank s = all is_space (codes s)

-- bool(value)
abbrev pub non_empty_str : String → Bool
non_empty_str s = not (str_eq s "")

-- s <= t, by code points
abbrev pub str_leb : String → String → Bool
str_leb s t = is_le (compare s t)

-- value in items
unfoldable pub contains : String → List String → Bool
contains k [] = false
contains k (x ∷ xs) = str_eq k x || contains k xs

-- list(dict.fromkeys(items)): the first occurrences, in order
unfoldable pub dedup_from : List String → List String → List String
unfolding contains
dedup_from seen [] = []
dedup_from seen (x ∷ xs) =
    let fresh = dedup_from (x ∷ seen) xs in
    let rest = dedup_from seen xs in if contains x seen then rest else x ∷ fresh

abbrev pub dedup : List String → List String
dedup = dedup_from []

-- sep.join(items)
unfoldable pub join : String → List String → String
join sep [] = ""
join sep (x ∷ []) = x
join sep (x ∷ y ∷ rest) = str_append x (str_append sep (join sep (y ∷ rest)))

-- one decimal digit
abbrev digit : ℕ → String
digit zero = "0"
digit (suc zero) = "1"
digit (suc (suc zero)) = "2"
digit (suc (suc (suc zero))) = "3"
digit (suc (suc (suc (suc zero)))) = "4"
digit (suc (suc (suc (suc (suc zero))))) = "5"
digit (suc (suc (suc (suc (suc (suc zero)))))) = "6"
digit (suc (suc (suc (suc (suc (suc (suc zero))))))) = "7"
digit (suc (suc (suc (suc (suc (suc (suc (suc zero)))))))) = "8"
digit n = "9"

-- The fuel is the number itself, which has fewer digits than that.
decimal : ℕ → ℕ → String
decimal zero n = digit (n % 10)
decimal (suc fuel) n =
    let more = decimal fuel (n / 10) in
    if leb n 9 then digit n else str_append more (digit (n % 10))

-- str(n)
unfoldable pub str_ℕ : ℕ → String
unfolding decimal
str_ℕ n = decimal n n

unfoldable pub str_ℤ : ℤ → String
unfolding str_ℕ
str_ℤ (pos n) = str_ℕ n
str_ℤ (negsuc n) = str_append "-" (str_ℕ (n + 1))

-- The text before the last `:`.
before_last_colon : String → Option String
before_last_colon String.[] = none
before_last_colon (String.◌∷◌ c s) = elim (before_last_colon s) [
  | some t ↦ some (String.◌∷◌ c t)
  | none ↦ if nat_eq (code c) b':' then some "" else none
]

-- value.rsplit(":", 1)[0]
unfoldable pub before_colon : String → String
unfolding before_last_colon
before_colon s = elim (before_last_colon s) [ some t ↦ t | none ↦ s ]

-- value[:n]
unfoldable pub take_str : ℕ → String → String
take_str zero s = ""
take_str (suc n) String.[] = ""
take_str (suc n) (String.◌∷◌ c s) = String.◌∷◌ c (take_str n s)

-- value.lstrip(), value.rstrip(), value.strip()
unfoldable pub lstrip_str : String → String
lstrip_str String.[] = ""
lstrip_str (String.◌∷◌ c s) =
    let rest = lstrip_str s in if is_space (code c) then rest else String.◌∷◌ c s

unfoldable pub rstrip_str : String → String
rstrip_str String.[] = ""
rstrip_str (String.◌∷◌ c s) = elim (rstrip_str s) [
  | String.[] ↦ if is_space (code c) then "" else String.◌∷◌ c ""
  | String.◌∷◌ d t ↦ String.◌∷◌ c (String.◌∷◌ d t)
]

unfoldable pub strip_str : String → String
strip_str s = rstrip_str (lstrip_str s)

str_ℤ_runs : str_ℤ (negsuc 1204) ≡ "-1205"
unfolding str_ℤ
str_ℤ_runs = refl

before_colon_runs : before_colon "J:7:2" ≡ "J:7"
unfolding before_colon
before_colon_runs = refl

-- A text that begins with a visible character is not blank, whatever follows.
pub is_blank-append : (s t : String) → is_blank s ≡ false → is_blank (str_append s t) ≡ false
unfolding is_blank
is_blank-append String.[] t h = cc
is_blank-append (String.◌∷◌ c s) t h = rw append.cons (ground (arith, is_blank-append s t))

-- What holds of every listed text holds of a text that the list contains.
pub contains_elim {ℓ} :
    (P : String → Type ℓ) (k : String) (xs : List String) → contains k xs ≡ true → All P xs → P k
unfolding contains
contains_elim P k [] h a = absurd (false≢true h)
contains_elim P k (x ∷ xs) h a = elim (Bool-cases (str_eq k x)) [
  | inl e ↦ subst P (sym (str_eq→eq k x e)) a.0
  | inr ne ↦ contains_elim P k xs (rw ne at h) a.1
]
