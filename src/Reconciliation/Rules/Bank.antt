-- ===== src/Reconciliation/Rules/Bank.antt =====
-- rules/settlement.py, the bank step: `_select_bank_group` and the checks on the receipt.
pub mod Facts
use veri_close.Prelude.{
  ℕ, String, str_append, str_eq, str_leb, Bool, true, false, not, ◌&&◌, ◌||◌, Option, none, some,
  List, [], ◌∷◌, ◌++◌, map, ℤ, pos, ◌-ℤ◌, abs, leb_ℤ, ltb, nat_eq, Result, ok, ◌>>=◌, traverse,
  filter, all, length, non_empty, total, contains, dedup, dedup_from, sort_by, join, str_ℤ,
  if◌then◌else◌,
}
use veri_close.Domain.Enums.{is_bank, is_credit, direction_value}
use veri_close.Domain.Events.{CanonicalEvent, Scalar, truthy}
use veri_close.Domain.Evidence.{EvidenceLink, ProofCheck}
use veri_close.Reconciliation.Context.{ReconciliationContext, bank_candidates}
use veri_close.Reconciliation.Grouping.{amount, amount_groups}
use veri_close.Reconciliation.Indexes.{by_id, get}
use veri_close.Reconciliation.Policy.{tolerance}
use veri_close.Reconciliation.Proposals.{evidence, same_option}
use veri_close.Reconciliation.Rules.Checks.{check}
use veri_close.Reconciliation.Rules.Gateway.{GatewayPart}
use veri_close.Reconciliation.Rules.Support.{or_empty}

-- the group, all that was considered, ambiguous, bounded out
pub record Selection : Type 0 where
  pub group : List CanonicalEvent
  pub candidates : List CanonicalEvent
  pub ambiguous : Bool
  pub bounded_out : Bool

-- the unconsumed bank events of the scope that carry the reference
unfoldable pub utr_events :
    ReconciliationContext → List String → Option String → List CanonicalEvent
utr_events context consumed expected_utr =
    filter
      (λ (e : CanonicalEvent).
        is_bank e.source_type
        && not (contains e.event_id consumed)
        && str_eq e.legal_entity_id context.legal_entity_id
        && str_eq e.money.currency context.policy.currency)
      (get str_eq (or_empty expected_utr) context.indexes.by_utr)

-- {event.event_id: event ...}.values(): the first place of an identifier, its last event
unfoldable pub put_event : CanonicalEvent → List CanonicalEvent → List CanonicalEvent
put_event event [] = event ∷ []
put_event event (e ∷ events) =
    let rest = put_event event events in
    if str_eq e.event_id event.event_id then event ∷ events else e ∷ rest

unfoldable pub put_events : List CanonicalEvent → List CanonicalEvent → List CanonicalEvent
unfolding put_event
put_events events [] = events
put_events events (e ∷ more) = put_events (put_event e events) more

unfoldable pub put_groups : List CanonicalEvent → List (List CanonicalEvent) → List CanonicalEvent
unfolding put_events
put_groups events [] = events
put_groups events (group ∷ groups) = put_groups (put_events events group) groups

-- the last part of _select_bank_group, where no group has the amount
unfoldable pub select_exact : List CanonicalEvent → Bool → Selection
select_exact [] bounded = record {
  group = [];
  candidates = [];
  ambiguous = false;
  bounded_out = bounded;
}
select_exact (e ∷ []) bounded = record {
  group = e ∷ [];
  candidates = e ∷ [];
  ambiguous = false;
  bounded_out = bounded;
}
select_exact (e ∷ f ∷ more) bounded = record {
  group = e ∷ [];
  candidates = e ∷ f ∷ more;
  ambiguous = true;
  bounded_out = bounded;
}

unfoldable pub select_group : List (List CanonicalEvent) → Bool → List CanonicalEvent → Selection
select_group [] bounded exact = select_exact exact bounded
select_group (g ∷ []) bounded exact = record {
  group = g;
  candidates = g;
  ambiguous = false;
  bounded_out = bounded;
}
select_group (g ∷ h ∷ groups) bounded exact = record {
  group = g;
  candidates = sort_by by_id (put_groups [] (g ∷ h ∷ groups));
  ambiguous = true;
  bounded_out = bounded;
}

-- _select_bank_group
unfoldable pub select_bank_group :
    ReconciliationContext → CanonicalEvent → ℕ → List String → Result Selection
select_bank_group context anchor expected_minor consumed = do
  candidates ← bank_candidates context anchor.event_at.date consumed
  let grouping = amount_groups candidates expected_minor context.policy.grouping
  ok (
      select_group grouping.groups grouping.bounded_out
        (utr_events context consumed anchor.external_reference))

-- settlement_rows[0].external_reference if settlement_rows else None
abbrev pub first_reference : List CanonicalEvent → Option String
first_reference [] = none
first_reference (event ∷ events) = event.external_reference

-- several events carry the reference, and together they have another amount
unfoldable pub identifier_conflict : List CanonicalEvent → ℕ → Bool
unfolding total
identifier_conflict exact observed_net =
    ltb 1 (length exact) && not (nat_eq (total amount exact) observed_net)

-- what is used instead of the selection where the identifiers conflict
unfoldable pub resolve : List CanonicalEvent → ℕ → Selection → Selection
resolve exact observed_net selection =
    if identifier_conflict exact observed_net
    then record selection { group = exact; candidates = exact; ambiguous = false }
    else selection

-- (event.value_date - anchor.event_at.date()).days, of an event with a date
unfoldable pub days_after : ℕ → ℕ → ℤ
unfolding ◌-ℤ◌
days_after anchor_date day = pos day -ℤ pos anchor_date

unfoldable pub date_in_range : ReconciliationContext → ℕ → CanonicalEvent → Bool
unfolding days_after
date_in_range context anchor_date event = elim event.value_date [
  | none ↦ false
  | some day ↦
      leb_ℤ context.policy.dates.settlement_to_bank_min_days (days_after anchor_date day)
      && leb_ℤ (days_after anchor_date day) context.policy.dates.settlement_to_bank_max_days
]

unfoldable pub days_text : ℕ → List CanonicalEvent → List String
unfolding days_after str_ℤ
days_text anchor_date [] = []
days_text anchor_date (event ∷ events) =
    let rest = days_text anchor_date events in
    elim event.value_date [ none ↦ rest | some day ↦ str_ℤ (days_after anchor_date day) ∷ rest ]

-- ",".join(sorted(set(items)))
unfoldable pub join_set : List String → String
unfolding join sort_by dedup_from
join_set items = join "," (sort_by str_leb (dedup items))

-- all_bank_links or gateway_links
abbrev pub or_links : List EvidenceLink → List EvidenceLink → List EvidenceLink
or_links [] fallback = fallback
or_links (link ∷ links) fallback = link ∷ links

abbrev pub optional_text : Option String → Scalar
optional_text none = Scalar.null
optional_text (some s) = Scalar.str s

abbrev pub reason_if : Bool → String → List String
reason_if true reason = reason ∷ []
reason_if false reason = []

pub record BankPart : Type 0 where
  pub group : List CanonicalEvent
  pub candidates : List CanonicalEvent
  pub expected_utr : Option String
  pub links : List EvidenceLink
  pub cited : List EvidenceLink
  pub amount_passed : Bool
  pub direction_passed : Bool
  pub reference_passed : Bool
  pub date_passed : Bool
  pub unique : Bool
  pub ambiguous : Bool
  pub checks : List ProofCheck
  pub reasons : List String

-- the bank step of `analyze_settlement`, up to the check that the receipt is unique
unfoldable pub bank_part : ReconciliationContext → GatewayPart → List String → Result BankPart
bank_part context gateway consumed = do
  let observed_net = gateway.observed_net
  let anchor_date = gateway.anchor.event_at.date
  let expected_utr = first_reference gateway.rows
  selected ← select_bank_group context gateway.anchor observed_net consumed
  let exact = utr_events context consumed expected_utr
  let conflict = identifier_conflict exact observed_net
  let selection = resolve exact observed_net selected
  let group = selection.group
  links ←
      traverse (λ (e : CanonicalEvent). evidence e "bank receipt candidate") selection.candidates
  let cited = or_links links gateway.links
  let present = non_empty group
  present_check ←
      check "BANK_RECEIPT_PRESENT" (Scalar.bool true) (Scalar.bool present) present cited none
  receipt_tolerance ← tolerance context.policy "bank_receipt"
  let bank_amount = total amount group
  let amount_passed = present && leb_ℤ (abs (pos bank_amount -ℤ pos observed_net)) receipt_tolerance
  amount_check ←
      check "BANK_RECEIPT_AMOUNT" (Scalar.int (pos observed_net)) (Scalar.int (pos bank_amount))
        amount_passed cited (some receipt_tolerance)
  let direction_passed = present && all (λ (e : CanonicalEvent). is_credit e.direction) group
  direction_check ←
      check "BANK_RECEIPT_DIRECTION" (Scalar.str "CREDIT")
        (Scalar.str (join_set (map (λ (e : CanonicalEvent). direction_value e.direction) group)))
        direction_passed cited none
  let reference_passed =
      present
      && truthy expected_utr
      && all (λ (e : CanonicalEvent). same_option e.bank_utr expected_utr) group
  reference_check ←
      check "BANK_RECEIPT_REFERENCE" (optional_text expected_utr)
        (Scalar.str (join_set (map (λ (e : CanonicalEvent). or_empty e.bank_utr) group)))
        reference_passed cited none
  let date_passed = present && all (date_in_range context anchor_date) group
  date_check ←
      check "BANK_RECEIPT_DATE"
        (Scalar.str (
          str_append (str_ℤ context.policy.dates.settlement_to_bank_min_days)
            (str_append ".." (str_ℤ context.policy.dates.settlement_to_bank_max_days))))
        (Scalar.str (join "," (days_text anchor_date group))) date_passed cited none
  let unique = present && not selection.ambiguous && not selection.bounded_out
  unique_check ←
      check "BANK_RECEIPT_UNIQUE" (Scalar.bool true) (Scalar.bool unique) unique cited none
  let ambiguous = selection.ambiguous || selection.bounded_out
  ok (record {
    group = group;
    candidates = selection.candidates;
    expected_utr = expected_utr;
    links = links;
    cited = cited;
    amount_passed = amount_passed;
    direction_passed = direction_passed;
    reference_passed = reference_passed;
    date_passed = date_passed;
    unique = unique;
    ambiguous = ambiguous;
    checks =
        present_check ∷ amount_check ∷ direction_check ∷ reference_check ∷ date_check ∷ unique_check
        ∷ [];
    reasons =
        reason_if conflict "DUPLICATE_IDENTIFIER"
        ++ reason_if (not present) "MISSING_BANK_RECEIPT"
        ++ reason_if (present && not amount_passed) "BANK_AMOUNT_MISMATCH"
        ++ reason_if (present && amount_passed && not reference_passed) "REFERENCE_MISMATCH"
        ++ reason_if (present && not date_passed) "BANK_DATE_OUT_OF_RANGE"
        ++ reason_if ambiguous "BANK_RECEIPT_AMBIGUOUS";
  })
