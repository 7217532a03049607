-- ===== src/Reconciliation/Rules/Support.antt =====
-- core/vericlose/reconciliation/rules/support.py. The ratio of difflib and its rounding are the
-- platform's.
use veri_close.Prelude.{
  ℕ, String, Bool, true, false, ◌&&◌, Option, none, some, List, [], ◌∷◌, map, ℤ, pos, ◌+ℤ◌, ◌-ℤ◌,
  abs, max_ℤ, min_ℤ, leb_ℤ, nat_eq, Result, ok, key_error, ◌>>=◌, or_raise, filter, all, total,
  non_empty, join, str_ℤ, if◌then◌else◌,
}
use veri_close.Domain.Events.{CanonicalEvent, truthy}
use veri_close.Reconciliation.Platform.{Platform}
use veri_close.Reconciliation.Indexes.{date_of}
use veri_close.Reconciliation.Policy.{ReconciliationPolicy, get}
use veri_close.Reconciliation.Proposals.{SupportFeature, same_option}
use veri_close.Reconciliation.Grouping.{amount}

-- value or ""
abbrev pub or_empty : Option String → String
or_empty none = ""
or_empty (some s) = s

-- weights[name]
unfoldable pub weight : ReconciliationPolicy → String → Result ℤ
unfolding get
weight policy name = or_raise (get policy.support_scoring_bps name) (key_error name)

-- weights[name] if test else 0
unfoldable pub weight_if : Bool → ReconciliationPolicy → String → Result ℤ
unfolding weight
weight_if test policy name = if test then weight policy name else ok (pos 0)

-- the days between an event and the settlement
unfoldable pub distance : ℕ → CanonicalEvent → ℤ
unfolding abs ◌-ℤ◌
distance settlement_date event = abs (pos (date_of event) -ℤ pos settlement_date)

-- max over a group; no distance is negative
unfoldable pub max_distance : ℕ → List CanonicalEvent → ℤ
unfolding distance max_ℤ
max_distance settlement_date [] = pos 0
max_distance settlement_date (event ∷ events) =
    max_ℤ (distance settlement_date event) (max_distance settlement_date events)

-- {event.bank_utr for event in group if event.bank_utr} == {expected_utr}, of a true expected_utr
unfoldable pub reference_equal : Option String → List CanonicalEvent → Bool
unfolding filter all
reference_equal expected_utr group =
    let utrs = filter truthy (map (λ (e : CanonicalEvent). e.bank_utr) group) in
    truthy expected_utr && non_empty utrs && all (same_option expected_utr) utrs

abbrev str_bool : Bool → String
str_bool true = "True"
str_bool false = "False"

unfoldable pub total_score : List SupportFeature → ℤ
unfolding ◌+ℤ◌
total_score [] = pos 0
total_score (f ∷ features) = f.score_bps +ℤ total_score features

-- score_bank_group of a group that is not empty
unfoldable pub score_group :
    Platform
    → List CanonicalEvent
    → ℕ
    → String
    → Option String
    → ℕ
    → ReconciliationPolicy
    → Result (ℤ × List SupportFeature)
score_group platform group expected_minor settlement_reference expected_utr settlement_date policy =
    do
      let amount_equal = nat_eq (total amount group) expected_minor
      let utr_equal = reference_equal expected_utr group
      let furthest = max_distance settlement_date group
      let date_supported = leb_ℤ furthest policy.dates.settlement_to_bank_max_days
      let narration_text =
          platform.lower (join " " (map (λ (e : CanonicalEvent). or_empty e.narration) group))
      let wanted = platform.lower settlement_reference
      narration_weight ← weight policy "narration"
      amount_score ← weight_if amount_equal policy "amount"
      reference_score ← weight_if utr_equal policy "reference"
      date_score ← weight_if date_supported policy "date"
      let narration_score = platform.ratio_score narration_weight wanted narration_text
      let features =
          record { name = "amount"; score_bps = amount_score; observed = str_bool amount_equal }
          ∷ record {
            name = "reference";
            score_bps = reference_score;
            observed = str_bool utr_equal;
          }
          ∷ record { name = "date"; score_bps = date_score; observed = str_ℤ furthest }
          ∷ record {
            name = "narration";
            score_bps = narration_score;
            observed = platform.ratio_text wanted narration_text;
          }
          ∷ []
      ok (min_ℤ (pos 10_000) (total_score features), features)

unfoldable pub score_bank_group :
    Platform
    → List CanonicalEvent
    → ℕ
    → String
    → Option String
    → ℕ
    → ReconciliationPolicy
    → Result (ℤ × List SupportFeature)
score_bank_group platform [] expected_minor reference expected_utr settlement_date policy =
    ok (pos 0, [])
score_bank_group platform (event ∷ events) expected_minor reference expected_utr settlement_date
      policy =
    score_group platform (event ∷ events) expected_minor reference expected_utr settlement_date
      policy
