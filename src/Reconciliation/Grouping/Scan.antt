-- ===== src/Reconciliation/Grouping/Scan.antt =====
-- The loops of rules/grouping.py against the list of all matching combinations.
use veri_close.Prelude.{
  ℕ, ◌≡◌, refl, sym, ◌∙◌, ap, Bool, true, false, List, [], ◌∷◌, ◌++◌, ℤ, pos, leb_ℤ, nat_eq, length,
  total, filter, subst, filter-append, Bool-cases, inl, inr,
}
use mathlib.Core.List.{append-nil, append_assoc}
use veri_close.Domain.Events.{CanonicalEvent}
use veri_close.Reconciliation.Grouping.{amount, combinations, Search, scan, scan_sizes}

abbrev pub hits : ℕ → List CanonicalEvent → Bool
hits target group = nat_eq (total amount group) target

-- all combinations of the given sizes, in the order of the loops
unfoldable pub all_groups : List CanonicalEvent → List ℕ → List (List CanonicalEvent)
all_groups ordered [] = []
all_groups ordered (size ∷ sizes) = combinations size ordered ++ all_groups ordered sizes

-- How the groups found stand to all the groups that match.
pub record Covers (limit : ℤ) (s : Search) (matching : List (List CanonicalEvent)) : Type 0 where
  pub left_out : List (List CanonicalEvent)
  pub is_prefix : s.found ++ left_out ≡ matching
  pub exhaustive : s.returned ≡ false → s.found ≡ matching
  pub stopped : s.returned ≡ true → leb_ℤ limit (pos (length s.found)) ≡ true

module _ (target : ℕ) (limit : ℤ) where
  scan-Covers :
      (found groups : List (List CanonicalEvent))
      → Covers limit (scan target limit found groups) (found ++ filter (hits target) groups)
  unfolding scan filter
  scan-Covers found [] = record {
    left_out = [];
    is_prefix = refl;
    exhaustive = λ _. sym (append-nil found);
    stopped = λ h. cc;
  }
  scan-Covers found (group ∷ groups) = elim (Bool-cases (hits target group)) [
    | inr misses ↦ rw misses (scan-Covers found groups)
    | inl match ↦ elim (Bool-cases (leb_ℤ limit (pos (length (found ++ group ∷ []))))) [
      | inl full ↦
          rw (match, full)
            (record {
              left_out = filter (hits target) groups;
              is_prefix = append_assoc found (group ∷ []) (filter (hits target) groups);
              exhaustive = λ h. cc;
              stopped = λ _. full;
            })
      | inr room ↦ rw (match, room) (rw append_assoc at (scan-Covers (found ++ group ∷ []) groups))
    ]
  ]

  -- the matches of one size, and then those of the sizes that follow
  regroup :
      (found here later : List (List CanonicalEvent))
      → (found ++ filter (hits target) here) ++ filter (hits target) later
        ≡ found ++ filter (hits target) (here ++ later)
  regroup found here later =
      append_assoc found (filter (hits target) here) (filter (hits target) later)
      ∙ ap (◌++◌ found) (sym (filter-append (hits target) here later))

  Covers-stopped :
      (s : Search) (found here later : List (List CanonicalEvent))
      → Covers limit s (found ++ filter (hits target) here)
      → s.returned ≡ true
      → Covers limit s (found ++ filter (hits target) (here ++ later))
  Covers-stopped s found here later c ret = record {
    left_out = c.left_out ++ filter (hits target) later;
    is_prefix =
        sym (append_assoc s.found c.left_out (filter (hits target) later))
        ∙ ap (λ l. l ++ filter (hits target) later) c.is_prefix
        ∙ regroup found here later;
    exhaustive = λ h. cc;
    stopped = c.stopped;
  }

  pub scan_sizes-Covers :
      (ordered : List CanonicalEvent) (found : List (List CanonicalEvent)) (sizes : List ℕ)
      → Covers limit
          (scan_sizes target limit ordered found sizes)
          (found ++ filter (hits target) (all_groups ordered sizes))
  unfolding scan_sizes all_groups
  scan_sizes-Covers ordered found [] =
      unfold filter in
      record {
        left_out = [];
        is_prefix = refl;
        exhaustive = λ _. sym (append-nil found);
        stopped = λ h. cc;
      }
  scan_sizes-Covers ordered found (size ∷ sizes) =
      let here = combinations size ordered in
      let later = all_groups ordered sizes in
      let s = scan target limit found here in
      let c = scan-Covers found here in
      elim (Bool-cases s.returned) [
        | inl ret ↦ rw ret (Covers-stopped s found here later c ret)
        | inr goes_on ↦ rw goes_on (
            subst (Covers limit (scan_sizes target limit ordered s.found sizes))
              (ap (λ l. l ++ filter (hits target) later) (c.exhaustive goes_on)
                ∙ regroup found here later)
              (scan_sizes-Covers ordered s.found sizes))
      ]
