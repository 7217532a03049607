-- ===== src/Reconciliation/Grouping.antt =====
-- core/vericlose/reconciliation/rules/grouping.py
pub mod Subsets
mod Scan
pub mod Complete
use veri_close.Prelude.{
  ℕ, zero, suc, ◌+◌, ◌-◌, Bool, true, false, List, [], ◌∷◌, ◌++◌, map, ℤ, pos, negsuc, leb_ℤ,
  nat_eq, ltb_ℤ, min_ℤ, length, total, if◌then◌else◌, sort_by,
}
use veri_close.Domain.Events.{CanonicalEvent}
use veri_close.Reconciliation.Indexes.{by_id}
use veri_close.Reconciliation.Policy.{GroupingPolicy}

abbrev pub amount : CanonicalEvent → ℕ
amount event = event.money.amount_minor

-- itertools.combinations(items, size), in its order
unfoldable pub combinations {ℓ} : {A : Type ℓ} → ℕ → List A → List (List A)
combinations zero items = [] ∷ []
combinations (suc size) [] = []
combinations (suc size) (x ∷ items) =
    map (◌∷◌ x) (combinations size items) ++ combinations (suc size) items

pub record GroupingResult : Type 0 where
  pub groups : List (List CanonicalEvent)
  pub bounded_out : Bool

-- what a round of the loops leaves: the groups found, and whether the function has returned
pub record Search : Type 0 where
  pub found : List (List CanonicalEvent)
  pub returned : Bool

-- the loop over the combinations of one size
unfoldable pub scan : ℕ → ℤ → List (List CanonicalEvent) → List (List CanonicalEvent) → Search
unfolding total
scan target limit found [] = record { found = found; returned = false }
scan target limit found (group ∷ groups) =
    let more = found ++ group ∷ [] in
    let with_group = scan target limit more groups in
    let without = scan target limit found groups in
    if nat_eq (total amount group) target
    then (if leb_ℤ limit (pos (length more))
        then record { found = more; returned = true }
        else with_group)
    else without

-- the loop over the sizes
unfoldable pub scan_sizes :
    ℕ → ℤ → List CanonicalEvent → List (List CanonicalEvent) → List ℕ → Search
unfolding scan combinations
scan_sizes target limit ordered found [] = record { found = found; returned = false }
scan_sizes target limit ordered found (size ∷ sizes) =
    let s = scan target limit found (combinations size ordered) in
    let rest = scan_sizes target limit ordered s.found sizes in if s.returned then s else rest

-- range(first, first + count)
unfoldable pub range : ℕ → ℕ → List ℕ
range first zero = []
range first (suc count) = first ∷ range (suc first) count

-- max(0, z)
abbrev pub to_ℕ : ℤ → ℕ
to_ℕ (pos n) = n
to_ℕ (negsuc n) = 0

-- range(1, min(max_group_size, len(ordered)) + 1)
unfoldable pub group_sizes : GroupingPolicy → List CanonicalEvent → List ℕ
unfolding range min_ℤ
group_sizes policy ordered = range 1 (to_ℕ (min_ℤ policy.max_group_size (pos (length ordered))))

unfoldable pub amount_groups : List CanonicalEvent → ℕ → GroupingPolicy → GroupingResult
unfolding sort_by scan_sizes group_sizes
amount_groups candidates target_minor policy =
    let ordered = sort_by by_id candidates in
    let s =
      scan_sizes target_minor policy.max_valid_groups ordered [] (group_sizes policy ordered) in
    if ltb_ℤ policy.max_candidates (pos (length ordered))
    then record { groups = []; bounded_out = true }
    else record { groups = s.found; bounded_out = false }
