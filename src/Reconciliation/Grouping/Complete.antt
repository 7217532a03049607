-- ===== src/Reconciliation/Grouping/Complete.antt =====
-- What the bounded search of reconciliation/rules/grouping.py finds, against all the sublists of
-- the candidates.
use veri_close.Prelude.{
  ℕ, zero, suc, ◌+◌, ◌≤◌, ◌<◌, ◌≡◌, refl, sym, ◌∙◌, ap, ◌⊎◌, inl, inr, true, false, List, [], ◌∷◌,
  pos, leb_ℤ, nat_eq, length, total, sort_by, arith, filter, ltb_ℤ, nat_eq→eq, eq→nat_eq,
  Bool-cases, ◌≤ℤ◌, min_ℤ, subst,
}
use mathlib.Core.Bool.{false≢true}
use mathlib.Core.List.{Sublistᴰ, Memᴰ}
use veri_close.Domain.Events.{CanonicalEvent}
use veri_close.Reconciliation.Indexes.{by_id}
use veri_close.Reconciliation.Policy.{GroupingPolicy}
use veri_close.Reconciliation.Grouping.{
  amount, combinations, GroupingResult, Search, scan_sizes, range, to_ℕ, group_sizes, amount_groups,
}
use veri_close.Reconciliation.Grouping.Subsets.{
  mem_append_left, mem_append_right, mem_append-cases, combinations_complete, combinations_sound,
  mem-filter_intro, mem-filter_elim,
}
use veri_close.Reconciliation.Grouping.Scan.{hits, all_groups, Covers, scan_sizes-Covers}

-- A group that the policy lets the search propose for the target.
pub record IsGroup (policy : GroupingPolicy) (ordered : List CanonicalEvent) (target : ℕ)
    (group : List CanonicalEvent) : Type 0 where
  pub chosen : Sublistᴰ group ordered
  pub matches : total amount group ≡ target
  pub some_event : 1 ≤ length group
  pub small : pos (length group) ≤ℤ policy.max_group_size

mem-all_groups :
    (ordered group : List CanonicalEvent) (first count : ℕ)
    → Sublistᴰ group ordered
    → first ≤ length group
    → length group < first + count
    → Memᴰ group (all_groups ordered (range first count))
unfolding all_groups range
mem-all_groups ordered group first zero s lo hi = absurd (omega arith)
mem-all_groups ordered group first (suc count) s lo hi =
    elim (Bool-cases (nat_eq (length group) first)) [
      | inl here ↦
          mem_append_left (combinations first ordered)
            (all_groups ordered (range (suc first) count))
            (combinations_complete s first (nat_eq→eq (length group) first here))
      | inr later ↦
          mem_append_right (combinations first ordered)
            (all_groups ordered (range (suc first) count))
            (mem-all_groups ordered group (suc first) count s (ground arith) (omega arith))
    ]

sizes_of_mem :
    (ordered group : List CanonicalEvent) (first count : ℕ)
    → Memᴰ group (all_groups ordered (range first count))
    → Sublistᴰ group ordered × (first ≤ length group) × (length group < first + count)
unfolding all_groups range
sizes_of_mem ordered group first zero m = elim m [ ]
sizes_of_mem ordered group first (suc count) m =
    elim (mem_append-cases (combinations first ordered)
      (all_groups ordered (range (suc first) count)) m) [
        | inl here ↦
            let (s, l) = combinations_sound first ordered group here in
            (s, omega arith, omega arith)
        | inr later ↦
            let (s, lo, hi) = sizes_of_mem ordered group (suc first) count later in
            (s, omega arith, omega arith)
      ]

length-sublist : {g xs : List CanonicalEvent} → Sublistᴰ g xs → length g ≤ length xs
length-sublist Sublistᴰ.slnil = omega arith
length-sublist (Sublistᴰ.cons s) = omega (arith, length-sublist s)
length-sublist (Sublistᴰ.cons-cons e s) = omega (arith, length-sublist s)

module _ (policy : GroupingPolicy) (ordered : List CanonicalEvent) (target : ℕ) where
  matching : List (List CanonicalEvent)
  matching = filter (hits target) (all_groups ordered (group_sizes policy ordered))

  below_bound :
      (k : ℕ)
      → k ≤ length ordered
      → pos k ≤ℤ policy.max_group_size
      → k < 1 + to_ℕ (min_ℤ policy.max_group_size (pos (length ordered)))
  unfolding min_ℤ
  below_bound k h l = ground arith

  within_policy :
      (k : ℕ)
      → 1 ≤ k
      → k < 1 + to_ℕ (min_ℤ policy.max_group_size (pos (length ordered)))
      → pos k ≤ℤ policy.max_group_size
  unfolding min_ℤ
  within_policy k h l = ground arith

  mem-matching :
      (group : List CanonicalEvent) → IsGroup policy ordered target group → Memᴰ group matching
  unfolding matching group_sizes
  mem-matching group g =
      mem-filter_intro (hits target) _
        (mem-all_groups ordered group 1 _ g.chosen g.some_event
          (below_bound (length group) (length-sublist g.chosen) g.small))
        (eq→nat_eq _ _ g.matches)

  IsGroup-of_matching :
      (group : List CanonicalEvent) → Memᴰ group matching → IsGroup policy ordered target group
  unfolding matching group_sizes
  IsGroup-of_matching group m =
      let (inside, hit) = mem-filter_elim (hits target) _ m in
      let (s, lo, hi) = sizes_of_mem ordered group 1 _ inside in
      record {
        chosen = s;
        matches = nat_eq→eq _ _ hit;
        some_event = lo;
        small = within_policy (length group) lo hi;
      }

module _ (candidates : List CanonicalEvent) (target : ℕ) (policy : GroupingPolicy) where
  abbrev ordered : List CanonicalEvent
  ordered = sort_by by_id candidates

  abbrev result : GroupingResult
  result = amount_groups candidates target policy

  run : Search
  run = scan_sizes target policy.max_valid_groups ordered [] (group_sizes policy ordered)

  run-Covers : Covers policy.max_valid_groups run (matching policy ordered target)
  unfolding run matching
  run-Covers =
      scan_sizes-Covers target policy.max_valid_groups ordered [] (group_sizes policy ordered)

  result-cases :
      ((result.bounded_out ≡ true) × (result.groups ≡ []))
      ⊎ ((result.bounded_out ≡ false) × (result.groups ≡ run.found))
  unfolding amount_groups run
  result-cases = ground arith

  found-complete :
      (group : List CanonicalEvent)
      → ltb_ℤ (pos (length run.found)) policy.max_valid_groups ≡ true
      → Memᴰ group (matching policy ordered target)
      → Memᴰ group run.found
  found-complete group room m = elim (Bool-cases run.returned) [
    | inl ret ↦
        let full : leb_ℤ policy.max_valid_groups (pos (length run.found)) ≡ true =
          run-Covers.stopped ret in
        absurd (ground arith)
    | inr goes_on ↦ rw (run-Covers.exhaustive goes_on) m
  ]

  -- Every group that the search returns is a sublist of the candidates, sorted by identifier, of
  -- an allowed size and with exactly the target amount.
  pub groups_sound :
      (group : List CanonicalEvent) → Memᴰ group result.groups → IsGroup policy ordered target group
  groups_sound group m = elim result-cases [
    | inl (_, empty) ↦ elim (let none_there : Memᴰ group [] = rw empty at m in none_there) [ ]
    | inr (_, e) ↦
        let inside : Memᴰ group run.found = rw e at m in
        IsGroup-of_matching policy ordered target group (
          subst (Memᴰ group) run-Covers.is_prefix
            (mem_append_left run.found run-Covers.left_out inside))
  ]

  -- A search that was not bounded out and returns fewer groups than the limit has returned them
  -- all: every sublist of an allowed size with the target amount is among them.
  pub groups_complete :
      (group : List CanonicalEvent)
      → result.bounded_out ≡ false
      → ltb_ℤ (pos (length result.groups)) policy.max_valid_groups ≡ true
      → IsGroup policy ordered target group
      → Memᴰ group result.groups
  groups_complete group open_search room g = elim result-cases [
    | inl (bounded, _) ↦ absurd (false≢true (sym open_search ∙ bounded))
    | inr (_, e) ↦
        rw e (found-complete group (rw e at room) (mem-matching policy ordered target group g))
  ]

  singleton_of_mem : (g h : List CanonicalEvent) → Memᴰ h (g ∷ []) → h ≡ g
  singleton_of_mem g h (Memᴰ.head e) = e
  singleton_of_mem g h (Memᴰ.tail m) = elim m [ ]

  -- Under a policy that looks for at least two groups, a search that returns exactly one group has
  -- found the only one: the group has the target amount, and no other sublist of the candidates of
  -- an allowed size has it.
  pub only-IsGroup :
      (group : List CanonicalEvent)
      → pos 2 ≤ℤ policy.max_valid_groups
      → result ≡ record { groups = group ∷ []; bounded_out = false }
      → IsGroup policy ordered target group
        × ((other : List CanonicalEvent) → IsGroup policy ordered target other → other ≡ group)
  only-IsGroup group two e =
      let groups_eq : result.groups ≡ group ∷ [] = ap (λ (r : GroupingResult). r.groups) e in
      (
        groups_sound group (rw groups_eq (Memᴰ.head refl)),
        λ other g. singleton_of_mem group other (
            subst (Memᴰ other) groups_eq (
              groups_complete other (ap (λ (r : GroupingResult). r.bounded_out) e)
                (rw groups_eq (ground arith)) g)),
      )
