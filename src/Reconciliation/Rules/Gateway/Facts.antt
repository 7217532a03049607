-- ===== src/Reconciliation/Rules/Gateway/Facts.antt =====
-- What a gateway step that returned has established.
use veri_close.Prelude.{
  String, Bool, not, ◌≡◌, [], ◌∷◌, ◌++◌, map, ℤ, pos, ◌-ℤ◌, abs, leb_ℤ, ok, arith, filter,
  Result-cases, inl, inr, some,
}
use veri_close.Domain.Events.{CanonicalEvent}
use veri_close.Domain.Evidence.{proof_check}
use veri_close.Reconciliation.Context.{ReconciliationContext, gateway_settlement}
use veri_close.Reconciliation.Policy.{ReconciliationPolicy, tolerance}
use veri_close.Reconciliation.Rules.Checks.{check}
use veri_close.Reconciliation.Rules.Flags.{flag}
use veri_close.Reconciliation.Rules.Gateway.{
  GatewayPart, gateway_part, signed_total, is_settlement, is_clearing, one_row, first_amount,
  first_event,
}

-- The test of two amounts against a tolerance that the policy has.
abbrev pub Tested : ReconciliationPolicy → String → ℤ → ℤ → Bool → Type 0
Tested policy name a b passed =
    (t : ℤ) × (tolerance policy name ≡ ok t) × (passed ≡ leb_ℤ (abs (a -ℤ b)) t)

pub record Facts (context : ReconciliationContext) (reference : String) (g : GatewayPart)
    : Type 0 where
  pub gateway : g.gateway ≡ gateway_settlement context reference
  pub rows : g.rows ≡ filter is_settlement g.gateway
  pub anchor : first_event (g.rows ++ g.gateway) ≡ some g.anchor
  pub expected :
      signed_total context.policy (filter (λ (e : CanonicalEvent). not (is_settlement e)) g.gateway)
      ≡ ok g.expected_net
  pub clearing : signed_total context.policy (filter is_clearing g.gateway) ≡ ok g.clearing_expected
  pub observed : g.observed_net ≡ first_amount g.rows
  pub component :
      Tested context.policy "settlement_components" g.expected_net
        (pos g.observed_net)
        g.component_passed
  pub flags :
      map flag g.checks
      ≡ record { code = "GATEWAY_SETTLEMENT_UNIQUE"; passed = one_row g.rows }
        ∷ record { code = "SETTLEMENT_COMPONENT_INVARIANT"; passed = g.component_passed }
        ∷ record { code = "SETTLEMENT_COMPONENT_VARIANCE"; passed = g.component_passed }
        ∷ []

module _ (context : ReconciliationContext) (reference : String) (g : GatewayPart)
    (h : gateway_part context reference ≡ ok g) where
  component_tested :
      Tested context.policy "settlement_components" g.expected_net
        (pos g.observed_net)
        g.component_passed
  unfolding gateway_part
  component_tested = elim (Result-cases (tolerance context.policy "settlement_components")) [
    | inl (t, e) ↦ (t, e, ground arith)
    | inr (e, f) ↦ absurd (ground arith)
  ]

  flags_of :
      map flag g.checks
      ≡ record { code = "GATEWAY_SETTLEMENT_UNIQUE"; passed = one_row g.rows }
        ∷ record { code = "SETTLEMENT_COMPONENT_INVARIANT"; passed = g.component_passed }
        ∷ record { code = "SETTLEMENT_COMPONENT_VARIANCE"; passed = g.component_passed }
        ∷ []
  unfolding gateway_part check proof_check
  flags_of = ground arith

  pub gateway_part-Facts : Facts context reference g
  unfolding gateway_part
  gateway_part-Facts = record {
    gateway = ground arith;
    rows = ground arith;
    anchor = ground arith;
    expected = ground arith;
    clearing = ground arith;
    observed = ground arith;
    component = component_tested;
    flags = flags_of;
  }
