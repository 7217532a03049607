-- ===== src/Application/Workflow/Log.antt =====
-- core/vericlose/infrastructure/duckdb/repositories.py: the snapshots of the actions as a log.
use veri_close.Prelude.{
  ℕ, ◌+◌, ◌≤◌, ◌≡◌, ◌≢◌, ◌⊎◌, ◌∙◌, refl, sym, subst, String, str_eq→eq, Bool, true, false, some,
  List, [], ◌∷◌, map, arith, filter, first, sort_by, insert_sorted, All, Bool-cases, inl, inr,
  eq_iff, nat_eq, contains,
}
use veri_close.Domain.Actions.{ProposedAction, StringPairs, action_step_allowed}
use veri_close.Domain.Enums.{ActionState}
use veri_close.Reconciliation.Policy.{get}
use veri_close.Application.Workflow.{dict_of}
use veri_close.Application.Workflow.Review.{editable}
use veri_close.Application.Store.{Snapshot, Store, last_snapshot, by_text}
use veri_close.Application.Store.Latest.{last_snapshot-other}
use veri_close.Application.Store.Reviews.{of_action, is_latest, latest_actions, list_actions}

-- The snapshots of an action, the latest first.
unfoldable pub history : String → String → List (Snapshot ProposedAction) → List ProposedAction
history run_id action_id rows =
    map (λ (r : Snapshot ProposedAction). r.item) (filter (of_action run_id action_id) rows)

-- A field of the payload that no reviewer may edit reads the same in both.
abbrev pub SameProtected : StringPairs → StringPairs → Type 0
SameProtected p q =
    (f : String) → contains f editable ≡ false → get (dict_of p) f ≡ get (dict_of q) f

-- What no review and no export changes.
pub record SameMatter (a b : ProposedAction) : Type 0 where
  pub action_type : a.action_type ≡ b.action_type
  pub case_id : a.case_id ≡ b.case_id
  pub journal : a.journal ≡ b.journal
  pub evidence_links : a.evidence_links ≡ b.evidence_links
  pub created_at : a.created_at ≡ b.created_at
  pub protected : SameProtected a.payload b.payload

-- A snapshot is PROPOSED, or the one before it is of the same matter and moves to its state; where it
-- is EXPORTED, nothing but the state has changed. No snapshot is FAILED.
abbrev pub IsNext : ProposedAction → List ProposedAction → Type 0
IsNext a past =
    (a.state ≡ ActionState.proposed)
    ⊎ ((old : ProposedAction) × (older : List ProposedAction) × (past ≡ old ∷ older)
        × (action_step_allowed old.state a.state ≡ true)
        × SameMatter old a
        × (a.state ≢ ActionState.failed)
        × (a.state ≡ ActionState.exported → record old { state = ActionState.exported } ≡ a))

abbrev pub IsLog : List (Snapshot ProposedAction) → Type 0
IsLog [] = Unit
IsLog (r ∷ rows) =
    (r.snapshot_number ≡ last_snapshot (of_action r.run_id r.item.action_id) rows + 1)
    × IsNext r.item (history r.run_id r.item.action_id rows)
    × IsLog rows

-- Of a row that is the latest of its action: it is the first of the history.
abbrev IsHead : List (Snapshot ProposedAction) → Snapshot ProposedAction → Type 0
IsHead rows x =
    is_latest x.run_id rows x ≡ true
    → (older : List ProposedAction) × (history x.run_id x.item.action_id rows ≡ x.item ∷ older)

abbrev IsCounted : List (Snapshot ProposedAction) → Snapshot ProposedAction → Type 0
IsCounted rows x = x.snapshot_number ≤ last_snapshot (of_action x.run_id x.item.action_id) rows

All-zip :
    {A : Type 0} (P Q R : A → Type 0) (xs : List A)
    → ((x : A) → P x → Q x → R x)
    → All P xs
    → All Q xs
    → All R xs
All-zip P Q R [] f p q = tt
All-zip P Q R (x ∷ xs) f p q = (f x p.0 q.0, All-zip P Q R xs f p.1 q.1)

own : (x : Snapshot ProposedAction) → of_action x.run_id x.item.action_id x ≡ true
unfolding of_action
own x = ground (arith, eq_iff x.run_id x.run_id, eq_iff x.item.action_id x.item.action_id)

counted_step :
    (p : Snapshot ProposedAction → Bool) (r : Snapshot ProposedAction)
    (rows : List (Snapshot ProposedAction)) (n : ℕ)
    → n ≤ last_snapshot p rows
    → n ≤ last_snapshot p (r ∷ rows)
unfolding last_snapshot
counted_step p r rows n h = ground arith

counted_head :
    (p : Snapshot ProposedAction → Bool) (r : Snapshot ProposedAction)
    (rows : List (Snapshot ProposedAction))
    → p r ≡ true
    → r.snapshot_number ≤ last_snapshot p (r ∷ rows)
unfolding last_snapshot
counted_head p r rows h = ground arith

rows-IsCounted : (rows : List (Snapshot ProposedAction)) → All (IsCounted rows) rows
rows-IsCounted [] = tt
rows-IsCounted (r ∷ rows) = (
  counted_head (of_action r.run_id r.item.action_id) r rows (own r),
  All-zip (IsCounted rows) (IsCounted rows) (IsCounted (r ∷ rows)) rows
      (λ x h _. counted_step (of_action x.run_id x.item.action_id) r rows x.snapshot_number h)
      (rows-IsCounted rows) (rows-IsCounted rows),
)

head_own :
    (r : Snapshot ProposedAction) (rows : List (Snapshot ProposedAction))
    → history r.run_id r.item.action_id (r ∷ rows) ≡ r.item ∷ history r.run_id r.item.action_id rows
unfolding history filter
head_own r rows = rw (own r) refl

outdated :
    (p : Snapshot ProposedAction → Bool) (r : Snapshot ProposedAction)
    (rows : List (Snapshot ProposedAction)) (n : ℕ)
    → p r ≡ true
    → r.snapshot_number ≡ last_snapshot p rows + 1
    → n ≤ last_snapshot p rows
    → nat_eq n (last_snapshot p (r ∷ rows)) ≡ false
unfolding last_snapshot
outdated p r rows n h numbered counted = ground arith

-- A row of an action is one of its run and identifier.
of_action-same :
    (run_id action_id : String) (r : Snapshot ProposedAction)
    → of_action run_id action_id r ≡ true
    → (r.run_id ≡ run_id) × (r.item.action_id ≡ action_id)
unfolding of_action
of_action-same run_id action_id r h =
    (str_eq→eq r.run_id run_id (ground arith), str_eq→eq r.item.action_id action_id (ground arith))

IsHead-step :
    (r x : Snapshot ProposedAction) (rows : List (Snapshot ProposedAction))
    → r.snapshot_number ≡ last_snapshot (of_action r.run_id r.item.action_id) rows + 1
    → IsCounted rows x
    → IsHead rows x
    → IsHead (r ∷ rows) x
unfolding history filter is_latest
IsHead-step r x rows numbered counted head latest =
    elim (Bool-cases (of_action x.run_id x.item.action_id r)) [
      | inl same ↦
          let (run, id) = of_action-same x.run_id x.item.action_id r same in
          let p = of_action x.run_id x.item.action_id in
          let numbered' : r.snapshot_number ≡ last_snapshot p rows + 1 =
            numbered ∙ rw run (rw id refl) in
          let old = outdated p r rows x.snapshot_number same numbered' counted in
          absurd (ground arith)
      | inr other ↦
          let p = of_action x.run_id x.item.action_id in
          rw other (head (ground (arith, last_snapshot-other p r rows other)))
    ]

rows-IsHead : (rows : List (Snapshot ProposedAction)) → IsLog rows → All (IsHead rows) rows
rows-IsHead [] l = tt
rows-IsHead (r ∷ rows) (numbered, next, l) = (
  λ latest. (history r.run_id r.item.action_id rows, head_own r rows),
  All-zip (IsCounted rows) (IsHead rows) (IsHead (r ∷ rows)) rows
      (λ x c h. IsHead-step r x rows numbered c h) (rows-IsCounted rows) (rows-IsHead rows l),
)

-- the first snapshot of a history is what the log says of it
pub history-IsNext :
    (run_id action_id : String) (rows : List (Snapshot ProposedAction)) (a : ProposedAction)
    (past : List ProposedAction)
    → IsLog rows
    → history run_id action_id rows ≡ a ∷ past
    → IsNext a past
unfolding history filter
history-IsNext run_id action_id [] a past l h = cc
history-IsNext run_id action_id (r ∷ rows) a past (numbered, next, l) h =
    elim (Bool-cases (of_action run_id action_id r)) [
      | inr other ↦ history-IsNext run_id action_id rows a past l (rw other at h)
      | inl own ↦
          let (run, id) = of_action-same run_id action_id r own in
          let h' : r.item ∷ history run_id action_id rows ≡ a ∷ past = rw own at h in
          let item : r.item ≡ a = ground arith in
          let rest : history r.run_id r.item.action_id rows ≡ past =
            rw run (rw id (ground arith)) in
          subst (λ (x : ProposedAction). IsNext x past) item (subst (IsNext r.item) rest next)
    ]

IsNext-unfailed :
    (a : ProposedAction) (past : List ProposedAction) → IsNext a past → a.state ≢ ActionState.failed
IsNext-unfailed a past (inl proposed) e = cc
IsNext-unfailed a past (inr (old, older, before, legal, matter, unfailed, as_it_is)) e = unfailed e

pub history-unfailed :
    (run_id action_id : String) (rows : List (Snapshot ProposedAction))
    → IsLog rows
    → All (λ (a : ProposedAction). a.state ≢ ActionState.failed) (history run_id action_id rows)
unfolding history filter
history-unfailed run_id action_id [] l = tt
history-unfailed run_id action_id (r ∷ rows) (numbered, next, l) =
    elim (Bool-cases (of_action run_id action_id r)) [
      | inr other ↦ rw other (history-unfailed run_id action_id rows l)
      | inl own ↦ rw own (
        IsNext-unfailed r.item (history r.run_id r.item.action_id rows) next,
        history-unfailed run_id action_id rows l,
      )
    ]

-- Of a listed action: its history begins with it.
abbrev Listed : String → List (Snapshot ProposedAction) → ProposedAction → Type 0
Listed run_id rows a = (older : List ProposedAction) × (history run_id a.action_id rows ≡ a ∷ older)

is_latest-run :
    (run_id : String) (rows : List (Snapshot ProposedAction)) (x : Snapshot ProposedAction)
    → is_latest run_id rows x ≡ true
    → (x.run_id ≡ run_id) × (is_latest x.run_id rows x ≡ true)
unfolding is_latest
is_latest-run run_id rows x h =
    let e : x.run_id ≡ run_id = str_eq→eq x.run_id run_id (ground arith) in
    (e, ground (arith, eq_iff x.run_id x.run_id))

filtered-Listed :
    (run_id : String) (rows xs : List (Snapshot ProposedAction))
    → All (IsHead rows) xs
    → All
        (Listed run_id rows)
        (map (λ (r : Snapshot ProposedAction). r.item) (filter (is_latest run_id rows) xs))
unfolding filter
filtered-Listed run_id rows [] h = tt
filtered-Listed run_id rows (x ∷ xs) h = elim (Bool-cases (is_latest run_id rows x)) [
  | inl latest ↦
      let (run, latest') = is_latest-run run_id rows x latest in
      let (older, e) = h.0 latest' in
      rw latest ((older, rw (sym run) e), filtered-Listed run_id rows xs h.1)
  | inr old ↦ rw old (filtered-Listed run_id rows xs h.1)
]

module _ {A : Type 0} (P : A → Type 0) (le : A → A → Bool) where
  All-insert_sorted : (x : A) (xs : List A) → P x → All P xs → All P (insert_sorted le x xs)
  unfolding insert_sorted
  All-insert_sorted x [] p h = (p, tt)
  All-insert_sorted x (y ∷ ys) p h = elim (Bool-cases (le x y)) [
    | inl first_one ↦ rw first_one (p, h)
    | inr later ↦ rw later (h.0, All-insert_sorted x ys p h.1)
  ]

  All-sort_by : (xs : List A) → All P xs → All P (sort_by le xs)
  unfolding sort_by
  All-sort_by [] h = tt
  All-sort_by (x ∷ xs) h = All-insert_sorted x (sort_by le xs) h.0 (All-sort_by xs h.1)

  All-first : (q : A → Bool) (xs : List A) (x : A) → All P xs → first q xs ≡ some x → P x
  unfolding first
  All-first q [] x h e = cc
  All-first q (y ∷ ys) x h e = elim (Bool-cases (q y)) [
    | inl holds ↦
        let same : some y ≡ some x = rw holds at e in
        let same' : y ≡ x = ground arith in subst P same' h.0
    | inr fails ↦ All-first q ys x h.1 (rw fails at e)
  ]

-- The action that a run lists is the first of its history.
pub list_actions-history :
    (run_id : String) (s : Store) (q : ProposedAction → Bool) (a : ProposedAction)
    → IsLog s.actions
    → first q (list_actions run_id s) ≡ some a
    → (older : List ProposedAction) × (history run_id a.action_id s.actions ≡ a ∷ older)
unfolding list_actions latest_actions
list_actions-history run_id s q a l e =
    let le = by_text (λ (b : ProposedAction). b.action_id) in
    let listed = filtered-Listed run_id s.actions s.actions (rows-IsHead s.actions l) in
    All-first (Listed run_id s.actions) le q (list_actions run_id s) a
      (All-sort_by (Listed run_id s.actions) le (latest_actions run_id s.actions) listed) e
