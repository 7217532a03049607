-- ===== src/Application/Store/Latest.antt =====
-- What a run lists of its actions after a snapshot has been appended.
use veri_close.Prelude.{
  ℕ, ◌+◌, ◌≤◌, ◌≡◌, refl, String, str_eq, str_eq→eq, Bool, true, false, not, none, some, List, [],
  ◌∷◌, map, arith, filter, first, all, sort_by, insert_sorted, all-sort_by, All, Bool-cases, inl,
  inr, eq_iff,
}
use veri_close.Domain.Actions.{ProposedAction}
use veri_close.Application.Store.{Snapshot, Store, last_snapshot, by_text}
use veri_close.Application.Store.Reviews.{of_action, is_latest, latest_actions, list_actions}

-- the row that append_action adds
abbrev pub new_row :
    String → ProposedAction → List (Snapshot ProposedAction) → Snapshot ProposedAction
new_row run_id a rows = record {
  run_id = run_id;
  snapshot_number = last_snapshot (of_action run_id a.action_id) rows + 1;
  item = a;
}

last_snapshot-covers :
    (p : Snapshot ProposedAction → Bool) (r : Snapshot ProposedAction)
    (rows : List (Snapshot ProposedAction)) (n : ℕ)
    → last_snapshot p (r ∷ rows) ≤ n
    → (p r ≡ true → r.snapshot_number ≤ n) × (last_snapshot p rows ≤ n)
unfolding last_snapshot
last_snapshot-covers p r rows n h = ground arith

new_row-of_action :
    (run_id : String) (a : ProposedAction) (rows : List (Snapshot ProposedAction))
    → of_action run_id a.action_id (new_row run_id a rows) ≡ true
unfolding of_action
new_row-of_action run_id a rows =
    ground (arith, eq_iff run_id run_id, eq_iff a.action_id a.action_id)

last_snapshot-new_row :
    (run_id : String) (a : ProposedAction) (rows : List (Snapshot ProposedAction))
    → last_snapshot (of_action run_id a.action_id) (new_row run_id a rows ∷ rows)
      ≡ last_snapshot (of_action run_id a.action_id) rows + 1
unfolding last_snapshot
last_snapshot-new_row run_id a rows = ground (arith, new_row-of_action run_id a rows)

-- A row that is not of the action has its latest snapshot where it had it.
pub last_snapshot-other :
    (p : Snapshot ProposedAction → Bool) (r : Snapshot ProposedAction)
    (rows : List (Snapshot ProposedAction))
    → p r ≡ false
    → last_snapshot p (r ∷ rows) ≡ last_snapshot p rows
unfolding last_snapshot
last_snapshot-other p r rows h = ground arith

new_row-is_latest :
    (run_id : String) (a : ProposedAction) (rows : List (Snapshot ProposedAction))
    → is_latest run_id (new_row run_id a rows ∷ rows) (new_row run_id a rows) ≡ true
unfolding is_latest
new_row-is_latest run_id a rows =
    ground (arith, eq_iff run_id run_id, last_snapshot-new_row run_id a rows)

module _ (run_id : String) (a : ProposedAction) (rows : List (Snapshot ProposedAction)) where
  -- a row whose snapshot is one that the table has
  abbrev IsCovered : Snapshot ProposedAction → Type 0
  IsCovered x =
      of_action run_id a.action_id x ≡ true
      → x.snapshot_number ≤ last_snapshot (of_action run_id a.action_id) rows

  covered-same :
      (x : Snapshot ProposedAction)
      → of_action run_id a.action_id x ≡ true
      → IsCovered x
      → is_latest run_id (new_row run_id a rows ∷ rows) x ≡ false
  unfolding is_latest of_action
  covered-same x same h =
      let r : x.run_id ≡ run_id = str_eq→eq x.run_id run_id (ground arith) in
      let i : x.item.action_id ≡ a.action_id =
        str_eq→eq x.item.action_id a.action_id (ground arith) in
      rw r (rw i (ground (arith, last_snapshot-new_row run_id a rows)))

  covered-other :
      (x : Snapshot ProposedAction)
      → of_action run_id a.action_id x ≡ false
      → is_latest run_id (new_row run_id a rows ∷ rows) x ≡ is_latest run_id rows x
  unfolding is_latest of_action
  covered-other x other = elim (Bool-cases (str_eq x.run_id run_id)) [
    | inl e ↦
        let q = of_action x.run_id x.item.action_id in
        ground (
          arith,
          last_snapshot-other q (new_row run_id a rows) rows,
          eq_iff a.action_id x.item.action_id,
          eq_iff x.item.action_id a.action_id,
        )
    | inr ne ↦ ground arith
  ]

  abbrev item_of : Snapshot ProposedAction → ProposedAction
  item_of r = r.item

  -- the other actions that the run lists once the snapshot is there
  abbrev others : List (Snapshot ProposedAction) → List ProposedAction
  others xs = map item_of (filter (is_latest run_id (new_row run_id a rows ∷ rows)) xs)

  -- None of them is the action, and each was listed before.
  others-holds :
      (q : ProposedAction → Bool) (xs : List (Snapshot ProposedAction))
      → All IsCovered xs
      → all q (map item_of (filter (is_latest run_id rows) xs)) ≡ true
      → all q (others xs) ≡ true
  unfolding filter all
  others-holds q [] c h = refl
  others-holds q (x ∷ xs) c h = elim (Bool-cases (of_action run_id a.action_id x)) [
    | inl same ↦ rw (covered-same x same c.0) (others-holds q xs c.1 (ground arith))
    | inr other ↦ let e = covered-other x other in ground (arith, others-holds q xs c.1)
  ]

  others-not_same :
      (xs : List (Snapshot ProposedAction))
      → All IsCovered xs
      → all (λ (b : ProposedAction). not (str_eq b.action_id a.action_id)) (others xs) ≡ true
  unfolding filter all of_action is_latest
  others-not_same [] c = refl
  others-not_same (x ∷ xs) c = elim (Bool-cases (of_action run_id a.action_id x)) [
    | inl same ↦ rw (covered-same x same c.0) (others-not_same xs c.1)
    | inr other ↦ ground (arith, others-not_same xs c.1)
  ]

first-insert_sorted :
    {A : Type 0} (le : A → A → Bool) (p : A → Bool) (x : A) (xs : List A)
    → p x ≡ true
    → all (λ y. not (p y)) xs ≡ true
    → first p (insert_sorted le x xs) ≡ some x
unfolding first insert_sorted all
first-insert_sorted le p x [] h k = rw h refl
first-insert_sorted le p x (y ∷ ys) h k = ground (arith, first-insert_sorted le p x ys)

-- Where the elements move before a new one, a sorted list that only it satisfies begins so.
pub first-sort_by :
    {A : Type 0} (le : A → A → Bool) (p : A → Bool) (x : A) (xs : List A)
    → p x ≡ true
    → all (λ y. not (p y)) xs ≡ true
    → first p (sort_by le (x ∷ xs)) ≡ some x
unfolding sort_by
first-sort_by le p x xs h k =
    first-insert_sorted le p x (sort_by le xs) h (rw (all-sort_by le (λ y. not (p y)) xs) k)

pub rows-IsCovered :
    (p : Snapshot ProposedAction → Bool) (rows : List (Snapshot ProposedAction)) (n : ℕ)
    → last_snapshot p rows ≤ n
    → All (λ (x : Snapshot ProposedAction). p x ≡ true → x.snapshot_number ≤ n) rows
rows-IsCovered p [] n h = tt
rows-IsCovered p (r ∷ rows) n h =
    let (this, more) = last_snapshot-covers p r rows n h in (this, rows-IsCovered p rows n more)

latest_actions-new_row :
    (run_id : String) (a : ProposedAction) (rows : List (Snapshot ProposedAction))
    → latest_actions run_id (new_row run_id a rows ∷ rows) ≡ a ∷ others run_id a rows rows
unfolding latest_actions filter
latest_actions-new_row run_id a rows = rw (new_row-is_latest run_id a rows) refl

first-none :
    {A : Type 0} (p : A → Bool) (xs : List A) → first p xs ≡ none → all (λ x. not (p x)) xs ≡ true
unfolding first all
first-none p [] h = refl
first-none p (x ∷ xs) h = ground (arith, first-none p xs)

-- A store whose actions are those of another, with a snapshot more.
pub record HasAppended (run_id : String) (a : ProposedAction) (s t : Store) : Type 0 where
  pub runs : t.runs ≡ s.runs
  pub actions : t.actions ≡ new_row run_id a s.actions ∷ s.actions

-- The run lists the new snapshot under its action's identifier.
pub first-list_actions :
    (run_id : String) (a : ProposedAction) (s t : Store)
    → HasAppended run_id a s t
    → first (λ (b : ProposedAction). str_eq b.action_id a.action_id) (list_actions run_id t)
      ≡ some a
unfolding list_actions
first-list_actions run_id a s t k = rw k.actions (
    rw (latest_actions-new_row run_id a s.actions) (
      first-sort_by _ _ a (others run_id a s.actions s.actions)
        ((eq_iff a.action_id a.action_id).1 refl)
        (others-not_same run_id a s.actions s.actions
          (rows-IsCovered _ s.actions _ (omega arith)))))

-- Where the run listed no action of a kind before, it lists the new one.
pub first-list_actions_new :
    (run_id : String) (a : ProposedAction) (s t : Store) (p : ProposedAction → Bool)
    → HasAppended run_id a s t
    → p a ≡ true
    → first p (list_actions run_id s) ≡ none
    → first p (list_actions run_id t) ≡ some a
unfolding list_actions latest_actions
first-list_actions_new run_id a s t p k h none_before =
    let q : ProposedAction → Bool = λ b. not (p b) in
    let before : all q (latest_actions run_id s.actions) ≡ true =
      rw
        (all-sort_by (by_text (λ (b : ProposedAction). b.action_id)) q
          (latest_actions run_id s.actions))
        at (first-none p (list_actions run_id s) none_before) in
    rw k.actions (
      rw (latest_actions-new_row run_id a s.actions) (
        first-sort_by _ p a (others run_id a s.actions s.actions) h (
          others-holds run_id a s.actions q s.actions (rows-IsCovered _ s.actions _ (omega arith))
            before)))

-- The actions of another run are listed as before.
elsewhere :
    (run_id other : String) (a : ProposedAction) (rows xs : List (Snapshot ProposedAction))
    → str_eq run_id other ≡ false
    → filter (is_latest other (new_row run_id a rows ∷ rows)) xs ≡ filter (is_latest other rows) xs
unfolding filter is_latest of_action
elsewhere run_id other a rows [] ne = refl
elsewhere run_id other a rows (x ∷ xs) ne = elim (Bool-cases (str_eq x.run_id other)) [
  | inl e ↦
      let q = of_action x.run_id x.item.action_id in
      let same : x.run_id ≡ other = str_eq→eq x.run_id other e in
      let apart : str_eq run_id x.run_id ≡ false = rw same ne in
      rw (elsewhere run_id other a rows xs ne)
        (rw (last_snapshot-other q (new_row run_id a rows) rows (ground arith)) refl)
  | inr away ↦ rw away (elsewhere run_id other a rows xs ne)
]

pub list_actions_elsewhere :
    (run_id other : String) (a : ProposedAction) (s t : Store)
    → HasAppended run_id a s t
    → str_eq run_id other ≡ false
    → list_actions other t ≡ list_actions other s
unfolding list_actions latest_actions is_latest filter
list_actions_elsewhere run_id other a s t k ne =
    rw k.actions (rw ne (rw (elsewhere run_id other a s.actions s.actions ne) refl))
