-- ===== src/Reconciliation/Rules/Gateway.antt =====
-- rules/settlement.py, the gateway step: the settlement row and its components.
pub mod Facts
use veri_close.Prelude.{
  ℕ, ◌+◌, String, Bool, true, false, not, Option, none, some, List, [], ◌∷◌, ◌++◌, ℤ, pos, ◌+ℤ◌,
  ◌-ℤ◌, ◌*ℤ◌, abs, leb_ℤ, nat_eq, Result, ok, index_error, ◌>>=◌, ◌>>◌, or_raise, traverse, filter,
  length, non_empty, if◌then◌else◌,
}
use veri_close.Domain.Enums.{EventType}
use veri_close.Domain.Events.{CanonicalEvent, Scalar}
use veri_close.Domain.Evidence.{EvidenceLink, ProofCheck, proof_check}
use veri_close.Reconciliation.Context.{ReconciliationContext, gateway_settlement}
use veri_close.Reconciliation.Grouping.{amount}
use veri_close.Reconciliation.Policy.{ReconciliationPolicy, tolerance, component_sign}
use veri_close.Reconciliation.Proposals.{evidence}
use veri_close.Reconciliation.Rules.Checks.{check}

abbrev pub is_settlement : CanonicalEvent → Bool
is_settlement event = elim event.event_type [ EventType.settlement ↦ true | _ ↦ false ]

-- PAYMENT, REFUND or ADJUSTMENT
abbrev pub is_clearing : CanonicalEvent → Bool
is_clearing event = elim event.event_type [
  | EventType.payment ↦ true
  | EventType.refund ↦ true
  | EventType.adjustment ↦ true
  | _ ↦ false
]

-- sum(amount * component_sign(event_type, direction) for event in events)
unfoldable pub signed_total : ReconciliationPolicy → List CanonicalEvent → Result ℤ
signed_total policy [] = ok (pos 0)
signed_total policy (event ∷ events) = do
  sign ← component_sign policy event.event_type event.direction
  rest ← signed_total policy events
  ok (pos (amount event) *ℤ sign +ℤ rest)

abbrev pub first_event : List CanonicalEvent → Option CanonicalEvent
first_event [] = none
first_event (event ∷ events) = some event

-- settlement_rows[0].money.amount_minor if settlement_rows else 0
abbrev pub first_amount : List CanonicalEvent → ℕ
first_amount [] = 0
first_amount (event ∷ events) = amount event

abbrev pub one_row : List CanonicalEvent → Bool
one_row rows = nat_eq (length rows) 1

pub record GatewayPart : Type 0 where
  pub gateway : List CanonicalEvent
  pub links : List EvidenceLink
  pub rows : List CanonicalEvent
  pub anchor : CanonicalEvent
  pub expected_net : ℤ
  pub clearing_expected : ℤ
  pub observed_net : ℕ
  pub component_passed : Bool
  pub checks : List ProofCheck
  pub reasons : List String

abbrev pub row_reasons : List CanonicalEvent → List String
row_reasons rows =
    if one_row rows
    then []
    else if non_empty rows
    then "DUPLICATE_IDENTIFIER" ∷ []
    else "UNKNOWN_UNRESOLVED" ∷ []

-- `analyze_settlement` up to the component checks
unfoldable pub gateway_part : ReconciliationContext → String → Result GatewayPart
gateway_part context settlement_reference = do
  let gateway = gateway_settlement context settlement_reference
  links ← traverse (λ (e : CanonicalEvent). evidence e "gateway settlement component") gateway
  let rows = filter is_settlement gateway
  unique ←
      check "GATEWAY_SETTLEMENT_UNIQUE" (Scalar.int (pos 1)) (Scalar.int (pos (length rows)))
        (one_row rows) links none
  anchor ← or_raise (first_event (rows ++ gateway)) (index_error "tuple index out of range")
  expected_net ←
      signed_total context.policy (filter (λ (e : CanonicalEvent). not (is_settlement e)) gateway)
  clearing_expected ← signed_total context.policy (filter is_clearing gateway)
  let observed_net = first_amount rows
  component_tolerance ← tolerance context.policy "settlement_components"
  let component_passed = leb_ℤ (abs (expected_net -ℤ pos observed_net)) component_tolerance
  invariant ←
      check "SETTLEMENT_COMPONENT_INVARIANT" (Scalar.int expected_net)
        (Scalar.int (pos observed_net)) component_passed links (some component_tolerance)
  variance ← proof_check (record {
    check_code = "SETTLEMENT_COMPONENT_VARIANCE";
    expected = Scalar.int (pos 0);
    observed = Scalar.int (pos observed_net -ℤ expected_net);
    tolerance_minor = some component_tolerance;
    passed = component_passed;
    required = false;
    evidence_links = links;
  })
  ok (record {
    gateway = gateway;
    links = links;
    rows = rows;
    anchor = anchor;
    expected_net = expected_net;
    clearing_expected = clearing_expected;
    observed_net = observed_net;
    component_passed = component_passed;
    checks = unique ∷ invariant ∷ variance ∷ [];
    reasons =
        row_reasons rows ++ (if component_passed then [] else "SETTLEMENT_COMPONENT_MISMATCH" ∷ []);
  })
