-- ===== src/Reconciliation/Clearance/Codes.antt =====
-- The last check of each code among the checks of an analysis, and the reasons it carries.
use veri_close.Prelude.{
  String, str_eq, Bool, true, false, ◌||◌, ◌≡◌, refl, sym, ◌∙◌, ap, ◌⊎◌, inl, inr, none, List, [],
  ◌∷◌, ◌++◌, map, ℤ, ok, arith, contains, dedup, dedup_from, first, traverse, eq_iff, str_eq→eq,
  Bool-cases, Result-cases,
}
use veri_close.Domain.Evidence.{EvidenceLink, ProofCheck, proof_check}
use veri_close.Reconciliation.Platform.{Platform}
use veri_close.Reconciliation.Context.{ReconciliationContext}
use veri_close.Reconciliation.Policy.{ReconciliationPolicy}
use veri_close.Reconciliation.Proposals.{SupportFeature}
use veri_close.Reconciliation.RiskGate.{contradiction_of, hard_contradictions}
use veri_close.Reconciliation.Rules.Bank.{BankPart}
use veri_close.Reconciliation.Rules.Flags.{Flag, flag, last_flag}
use veri_close.Reconciliation.Rules.Gateway.{GatewayPart}
use veri_close.Reconciliation.Rules.Settlement.{settlement_score, support_check, support_code}
use veri_close.Reconciliation.Rules.Support.{score_bank_group, score_group}

map-append {ℓ κ} :
    {A : Type ℓ} {B : Type κ} (f : A → B) (xs ys : List A) → map f (xs ++ ys) ≡ map f xs ++ map f ys
map-append f [] ys = refl
map-append f (x ∷ xs) ys = ap (◌∷◌ (f x)) (map-append f xs ys)

pub map-append_three {ℓ κ} :
    {A : Type ℓ} {B : Type κ} (f : A → B) (xs ys zs ws : List A)
    → map f ((xs ++ (ys ++ zs)) ++ ws) ≡ (map f xs ++ (map f ys ++ map f zs)) ++ map f ws
map-append_three f xs ys zs ws =
    map-append f (xs ++ (ys ++ zs)) ws ∙ rw (map-append f xs (ys ++ zs), map-append f ys zs) refl

map-map {ℓ κ μ} :
    {A : Type ℓ} {B : Type κ} {C : Type μ} (g : B → C) (f : A → B) (xs : List A)
    → map (λ x. g (f x)) xs ≡ map g (map f xs)
map-map g f [] = refl
map-map g f (x ∷ xs) = ap (◌∷◌ (g (f x))) (map-map g f xs)

codes-flag :
    (checks : List ProofCheck)
    → map (λ (f : Flag). f.code) (map flag checks) ≡ map (λ (c : ProofCheck). c.check_code) checks
codes-flag [] = refl
codes-flag (c ∷ checks) = ap (◌∷◌ c.check_code) (codes-flag checks)

-- A code that no check has is not found.
last_flag-absent :
    (flags : List Flag) (code : String)
    → contains code (map (λ (f : Flag). f.code) flags) ≡ false
    → last_flag flags code ≡ none
unfolding last_flag contains
last_flag-absent [] code h = refl
last_flag-absent (f ∷ flags) code h =
    ground (arith, last_flag-absent flags code, eq_iff f.code code, eq_iff code f.code)

last_flag-append :
    (xs ys : List Flag) (code : String)
    → last_flag ys code ≡ none
    → last_flag (xs ++ ys) code ≡ last_flag xs code
unfolding last_flag
last_flag-append [] ys code h = h
last_flag-append (x ∷ xs) ys code h = rw (last_flag-append xs ys code h) refl

-- Checks that carry other codes do not change what a code has.
pub last_flag-ignores :
    (xs ys : List Flag) (code : String)
    → contains code (map (λ (f : Flag). f.code) ys) ≡ false
    → last_flag (xs ++ ys) code ≡ last_flag xs code
last_flag-ignores xs ys code h = last_flag-append xs ys code (last_flag-absent ys code h)

abbrev pub support_codes : List String
support_codes = "SUPPORT_AMOUNT" ∷ "SUPPORT_REFERENCE" ∷ "SUPPORT_DATE" ∷ "SUPPORT_NARRATION" ∷ []

abbrev feature_name : SupportFeature → String
feature_name f = f.name

feature_names :
    (platform : Platform) (context : ReconciliationContext) (reference : String) (g : GatewayPart)
    (b : BankPart) (proved : Bool) (score : ℤ) (features : List SupportFeature)
    → settlement_score platform context reference g b proved ≡ ok (score, features)
    → (map feature_name features ≡ [])
      ⊎ (map feature_name features ≡ "amount" ∷ "reference" ∷ "date" ∷ "narration" ∷ [])
unfolding settlement_score score_bank_group score_group
feature_names platform context reference g b proved score features h = ground arith

check_code :
    (policy : ReconciliationPolicy) (links : List EvidenceLink) (f : SupportFeature)
    (c : ProofCheck)
    → support_check policy links f ≡ ok c
    → c.check_code ≡ support_code f.name
unfolding support_check proof_check
check_code policy links f c h = ground arith

support_checks-codes :
    (policy : ReconciliationPolicy) (links : List EvidenceLink) (features : List SupportFeature)
    (checks : List ProofCheck)
    → traverse (support_check policy links) features ≡ ok checks
    → map (λ (c : ProofCheck). c.check_code) checks
      ≡ map (λ (f : SupportFeature). support_code f.name) features
unfolding traverse
support_checks-codes policy links [] checks h = ground arith
support_checks-codes policy links (f ∷ features) checks h =
    elim (Result-cases (support_check policy links f)) [
      | inr (x, e) ↦ absurd (ground arith)
      | inl (c, e) ↦ elim (Result-cases (traverse (support_check policy links) features)) [
        | inr (x, e') ↦ absurd (ground arith)
        | inl (cs, e') ↦
            let made : c ∷ cs ≡ checks = ground arith in
            rw (sym made) (
              rw (check_code policy links f c e)
                (ap (◌∷◌ (support_code f.name)) (support_checks-codes policy links features cs e')))
      ]
    ]

-- A reason is kept where it was first given.
contains-dedup_from :
    (seen : List String) (k : String) (xs : List String)
    → contains k seen ≡ false
    → contains k xs ≡ true
    → contains k (dedup_from seen xs) ≡ true
unfolding dedup_from contains
contains-dedup_from seen k [] n h = h
contains-dedup_from seen k (x ∷ xs) n h = elim (Bool-cases (str_eq k x)) [
  | inl e ↦
      let same : k ≡ x = str_eq→eq k x e in
      let fresh : contains x seen ≡ false = rw (sym same) n in rw fresh (ground arith)
  | inr ne ↦ elim (Bool-cases (contains x seen)) [
    | inl old ↦ rw old (contains-dedup_from seen k xs n (ground arith))
    | inr new ↦ rw new (ground (arith, contains-dedup_from (x ∷ seen) k xs))
  ]
]

contains-append :
    (k : String) (xs ys : List String) → contains k (xs ++ ys) ≡ (contains k xs || contains k ys)
unfolding contains
contains-append k [] ys = refl
contains-append k (x ∷ xs) ys = ground (arith, contains-append k xs ys)

no_hard :
    (reasons : List String) (k : String)
    → contradiction_of reasons ≡ none
    → contains k reasons ≡ true
    → contains k hard_contradictions ≡ false
unfolding contradiction_of first contains
no_hard [] k h m = cc
no_hard (x ∷ xs) k h m = elim (Bool-cases (contains x hard_contradictions)) [
  | inl hard ↦ absurd (ground (arith, hard))
  | inr soft ↦ elim (Bool-cases (str_eq k x)) [
    | inl e ↦ let same : k ≡ x = str_eq→eq k x e in rw same soft
    | inr ne ↦ no_hard xs k (ground (arith, soft)) (ground arith)
  ]
]

-- Where no reason is a hard contradiction, the step in the middle has given none.
pub no_hard-middle :
    (xs ys zs : List String) (k : String)
    → contradiction_of (dedup (xs ++ (ys ++ zs))) ≡ none
    → contains k hard_contradictions ≡ true
    → contains k ys ≡ false
unfolding contains
no_hard-middle xs ys zs k h hard = elim (Bool-cases (contains k ys)) [
  | inr absent ↦ absent
  | inl given_there ↦
      let given : contains k (xs ++ (ys ++ zs)) ≡ true =
        contains-append k xs (ys ++ zs) ∙ ground (arith, contains-append k ys zs) in
      absurd (ground (arith, no_hard _ k h (contains-dedup_from [] k _ refl given)))
]

-- The checks of the support score have none of the codes of the three steps.
pub last_flag-support :
    (platform : Platform) (context : ReconciliationContext) (reference : String) (g : GatewayPart)
    (b : BankPart) (proved : Bool) (score : ℤ) (features : List SupportFeature)
    (support : List ProofCheck) (xs : List Flag) (code : String)
    → settlement_score platform context reference g b proved ≡ ok (score, features)
    → traverse (support_check context.policy b.cited) features ≡ ok support
    → contains code support_codes ≡ false
    → last_flag (xs ++ map flag support) code ≡ last_flag xs code
unfolding contains
last_flag-support platform context reference g b proved score features support xs code hs ht hc =
    last_flag-ignores xs (map flag support) code (
      rw
        (codes-flag support
          ∙ support_checks-codes context.policy b.cited features support ht
          ∙ map-map support_code feature_name features)
        (elim (feature_names platform context reference g b proved score features hs) [
          | inl none_there ↦ rw none_there refl
          | inr four ↦ rw four (unfold support_code in hc)
        ]))
