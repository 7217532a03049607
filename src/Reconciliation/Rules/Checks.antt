-- ===== src/Reconciliation/Rules/Checks.antt =====
-- What the steps of rules/settlement.py share: `_check`, and the dictionary of checks by code.
use veri_close.Prelude.{
  String, str_eq, Bool, true, false, ◌&&◌, Option, none, some, List, [], ◌∷◌, ℤ, Result, all,
  if◌then◌else◌,
}
use veri_close.Domain.Events.{Scalar}
use veri_close.Domain.Evidence.{EvidenceLink, ProofCheck, proof_check}

-- the value before its constructor's checks
abbrev pub required_check :
    String → Scalar → Scalar → Bool → List EvidenceLink → Option ℤ → ProofCheck
required_check code expected observed passed links tolerance_minor = record {
  check_code = code;
  expected = expected;
  observed = observed;
  tolerance_minor = tolerance_minor;
  passed = passed;
  required = true;
  evidence_links = links;
}

-- _check
unfoldable pub check :
    String → Scalar → Scalar → Bool → List EvidenceLink → Option ℤ → Result ProofCheck
check code expected observed passed links tolerance_minor =
    proof_check (required_check code expected observed passed links tolerance_minor)

-- {check.check_code: check for check in checks}.get(code): the last check of a code stands
unfoldable pub last_check : List ProofCheck → String → Option ProofCheck
last_check [] code = none
last_check (c ∷ checks) code = elim (last_check checks code) [
  | some later ↦ some later
  | none ↦ if str_eq c.check_code code then some c else none
]

abbrev pub is_present : Option ProofCheck → Bool
is_present none = false
is_present (some c) = true

abbrev pub has_passed : Option ProofCheck → Bool
has_passed none = false
has_passed (some c) = c.passed

-- required <= checks.keys() and all(checks[code].passed for code in required)
unfoldable pub required_passed : List String → List ProofCheck → Bool
required_passed required checks =
    all (λ (code : String). is_present (last_check checks code)) required
    && all (λ (code : String). has_passed (last_check checks code)) required
