-- ===== src/Prelude/Chars.antt =====
-- ASCII characters from their codes, and `str.upper`, `str.strip` over code points.
use Prim.Native.Nat.{ℕ, compare, Ordering, ◌-◌, ◌<◌}
use Prim.Native.Char.{Char, char, code, IsScalar}
use Prim.Native.String.{String}
use mathlib.Core.Path.{◌≡◌, refl}
use mathlib.Core.Bool.{Bool, true, ◌&&◌, ◌||◌, not}
use mathlib.Core.List.{List, [], ◌∷◌, ◌++◌}
use native.Mathlib.Omega.{arith}
use veri_close.Prelude.Tests.{leb, nat_eq, if◌then◌else◌}
use veri_close.Prelude.Lists.{all}
use veri_close.Prelude.Text.{codes, is_space}

scalar_of_lt : (n : ℕ) → compare n 55296 ≡ Ordering.lt → IsScalar n
scalar_of_lt n p = rw p tt

chr_by : (n : ℕ) (o : Ordering) → compare n 55296 ≡ o → Char
unfolding scalar_of_lt
chr_by n Ordering.lt p = char n (scalar_of_lt n p)
chr_by n Ordering.eq p = char 0 tt
chr_by n Ordering.gt p = char 0 tt

-- chr(n) below the surrogates
unfoldable pub chr : ℕ → Char
unfolding chr_by
chr n = chr_by n (compare n 55296) refl

code-chr_by : (n : ℕ) (o : Ordering) (p : compare n 55296 ≡ o) → n < 55296 → code (chr_by n o p) ≡ n
unfolding chr_by
code-chr_by n Ordering.lt p h = refl
code-chr_by n Ordering.eq p h = absurd (ground arith)
code-chr_by n Ordering.gt p h = absurd (ground arith)

pub code-chr : (n : ℕ) → n < 55296 → code (chr n) ≡ n
unfolding chr
code-chr n h = code-chr_by n (compare n 55296) refl h

-- the text of a list of code points
unfoldable pub of_codes : List ℕ → String
unfolding chr
of_codes [] = ""
of_codes (c ∷ cs) = String.◌∷◌ (chr c) (of_codes cs)

-- value.lstrip(), value.rstrip(), value.strip(), on code points
unfoldable pub lstrip : List ℕ → List ℕ
unfolding is_space
lstrip [] = []
lstrip (c ∷ cs) = let rest = lstrip cs in if is_space c then rest else c ∷ cs

unfoldable pub rstrip : List ℕ → List ℕ
unfolding is_space
rstrip [] = []
rstrip (c ∷ cs) = elim (rstrip cs) [ [] ↦ if is_space c then [] else c ∷ [] | d ∷ ds ↦ c ∷ d ∷ ds ]

unfoldable pub strip : List ℕ → List ℕ
unfolding lstrip rstrip
strip cs = rstrip (lstrip cs)

-- `str.upper` of one code point. Outside ASCII the ones listed are those whose upper case is ASCII;
-- any other keeps its code, which is not ASCII, as its upper case is not.
unfoldable pub upper_code : ℕ → List ℕ
upper_code c =
    if leb 97 c && leb c 122
    then (c - 32) ∷ []
    else if nat_eq c 223
    then b'S' ∷ b'S' ∷ []
    else if nat_eq c 305
    then b'I' ∷ []
    else if nat_eq c 383
    then b'S' ∷ []
    else if nat_eq c 64256
    then b'F' ∷ b'F' ∷ []
    else if nat_eq c 64257
    then b'F' ∷ b'I' ∷ []
    else if nat_eq c 64258
    then b'F' ∷ b'L' ∷ []
    else if nat_eq c 64259
    then b'F' ∷ b'F' ∷ b'I' ∷ []
    else if nat_eq c 64260
    then b'F' ∷ b'F' ∷ b'L' ∷ []
    else if nat_eq c 64261 || nat_eq c 64262
    then b'S' ∷ b'T' ∷ []
    else c ∷ []

unfoldable pub upper : List ℕ → List ℕ
unfolding upper_code
upper [] = []
upper (c ∷ cs) = upper_code c ++ upper cs

-- value.isascii(), value.isalpha() of an ASCII text
unfoldable pub is_ascii : ℕ → Bool
is_ascii c = leb c 127

unfoldable pub is_alpha : ℕ → Bool
is_alpha c = leb 65 c && leb c 90 || leb 97 c && leb c 122

abbrev is_capital : ℕ → Bool
is_capital c = leb 65 c && leb c 90

codes-of_codes_cons :
    (c : ℕ) (cs : List ℕ) → c < 55296 → codes (of_codes (c ∷ cs)) ≡ c ∷ codes (of_codes cs)
unfolding of_codes
codes-of_codes_cons c cs h = rw (code-chr c h)

-- What `upper` returns holds no lower-case letter.
no_lower : ℕ → Bool
no_lower c = not (leb 97 c && leb c 122)

all-append :
    (p : ℕ → Bool) (xs ys : List ℕ) → all p xs ≡ true → all p ys ≡ true → all p (xs ++ ys) ≡ true
unfolding all
all-append p [] ys h k = k
all-append p (x ∷ xs) ys h k = ground (arith, all-append p xs ys)

no_lower-upper_code : (c : ℕ) → all no_lower (upper_code c) ≡ true
unfolding no_lower upper_code all
no_lower-upper_code c = ground arith

no_lower-upper : (cs : List ℕ) → all no_lower (upper cs) ≡ true
unfolding upper all
no_lower-upper [] = refl
no_lower-upper (c ∷ cs) =
    all-append no_lower (upper_code c) (upper cs) (no_lower-upper_code c) (no_lower-upper cs)

-- Three capitals are their own `strip().upper()`, and their text has them as its codes.
abbrev pub IsCapitals : ℕ → ℕ → ℕ → Type 0
IsCapitals a b c = (is_capital a ≡ true) × (is_capital b ≡ true) × (is_capital c ≡ true)

pub IsCapitals-of_upper :
    (cs : List ℕ) (a b c : ℕ)
    → upper cs ≡ a ∷ b ∷ c ∷ []
    → all is_alpha (a ∷ b ∷ c ∷ []) ≡ true
    → IsCapitals a b c
unfolding is_alpha no_lower all
IsCapitals-of_upper cs a b c h k =
    let n : all no_lower (a ∷ b ∷ c ∷ []) ≡ true = rw h at (no_lower-upper cs) in ground arith

codes-of_codes_capitals :
    (a b c : ℕ) → IsCapitals a b c → codes (of_codes (a ∷ b ∷ c ∷ [])) ≡ a ∷ b ∷ c ∷ []
codes-of_codes_capitals a b c h = rw (codes-of_codes_cons a (b ∷ c ∷ []) (ground arith)) (
    rw (codes-of_codes_cons b (c ∷ []) (ground arith))
      (rw (codes-of_codes_cons c [] (ground arith)) (unfold of_codes in refl)))

upper-strip_capitals :
    (a b c : ℕ) → IsCapitals a b c → upper (strip (a ∷ b ∷ c ∷ [])) ≡ a ∷ b ∷ c ∷ []
unfolding strip upper
upper-strip_capitals a b c h = ground arith

pub upper-strip-of_codes :
    (a b c : ℕ)
    → IsCapitals a b c
    → upper (strip (codes (of_codes (a ∷ b ∷ c ∷ [])))) ≡ a ∷ b ∷ c ∷ []
upper-strip-of_codes a b c h = rw (codes-of_codes_capitals a b c h) (upper-strip_capitals a b c h)
