-- ===== src/Reconciliation/Rules/Flags.antt =====
-- Which check codes of rules/settlement.py have passed, read off the list of checks.
use veri_close.Prelude.{
  String, str_eq, Bool, true, false, ◌≡◌, refl, sym, ap, Option, none, some, List, [], ◌∷◌, map, ℤ,
  ok, arith, contains, contains_elim, all-holds, if◌then◌else◌,
}
use veri_close.Domain.Events.{Scalar}
use veri_close.Domain.Evidence.{EvidenceLink, ProofCheck, proof_check}
use veri_close.Reconciliation.Rules.Checks.{check, last_check, has_passed, required_passed}

pub proof_check_same : (a b : ProofCheck) → proof_check a ≡ ok b → a ≡ b
unfolding proof_check
proof_check_same a b h = ground arith

pub record Flag : Type 0 where
  pub code : String
  pub passed : Bool

abbrev pub flag : ProofCheck → Flag
flag c = record { code = c.check_code; passed = c.passed }

-- A check that could be built carries its code and its result.
pub flag-check :
    (code : String) (expected observed : Scalar) (passed : Bool) (links : List EvidenceLink)
    (tolerance : Option ℤ) (c : ProofCheck)
    → check code expected observed passed links tolerance ≡ ok c
    → flag c ≡ record { code = code; passed = passed }
unfolding check
flag-check code expected observed passed links tolerance c h =
    ap flag (sym (proof_check_same _ c h))

-- the flag of the last check of a code
unfoldable pub last_flag : List Flag → String → Option Bool
last_flag [] code = none
last_flag (f ∷ flags) code = elim (last_flag flags code) [
  | some later ↦ some later
  | none ↦ if str_eq f.code code then some f.passed else none
]

abbrev pub or_false : Option Bool → Bool
or_false none = false
or_false (some b) = b

flags_last :
    (checks : List ProofCheck) (code : String)
    → last_flag (map flag checks) code
      ≡ elim (last_check checks code) [ none ↦ none | some c ↦ some c.passed ]
unfolding last_flag last_check
flags_last [] code = refl
flags_last (c ∷ checks) code = ground (arith, flags_last checks code)

-- Where the required checks have passed, the last check of each required code has.
pub required_flag :
    (required : List String) (checks : List ProofCheck) (code : String)
    → required_passed required checks ≡ true
    → contains code required ≡ true
    → or_false (last_flag (map flag checks) code) ≡ true
unfolding required_passed
required_flag required checks code h k =
    let passed : has_passed (last_check checks code) ≡ true =
      contains_elim (λ (c : String). has_passed (last_check checks c) ≡ true) code required k
        (all-holds (λ (c : String). has_passed (last_check checks c)) required (ground arith)) in
    ground (arith, flags_last checks code)
