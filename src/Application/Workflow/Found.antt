-- ===== src/Application/Workflow/Found.antt =====
-- core/vericlose/application/actions.py: what ActionQueryService.get finds after a snapshot.
use veri_close.Prelude.{
  ◌≡◌, ◌∙◌, refl, subst, sym, String, str_eq, str_eq→eq, Bool, false, Option, none, some, List, [],
  ◌∷◌, map, ok, arith, first, Bool-cases, Option-cases, inl, inr, first-holds, eq_iff,
}
use veri_close.Domain.Actions.{ProposedAction, ReviewDecision, ActionReceipt}
use veri_close.Application.Host.{Host}
use veri_close.Application.Store.{Store, list_ids}
use veri_close.Application.Store.Latest.{HasAppended, first-list_actions, list_actions_elsewhere}
use veri_close.Application.Store.Reviews.{list_actions, list_reviews, list_receipts}
use veri_close.Application.Workflow.{
  ActionView, action_view, list_for_run, has_id, search_actions, get_action,
}

abbrev map_option : {A B : Type 0} → (A → B) → Option A → Option B
map_option f none = none
map_option f (some a) = some (f a)

-- The view that a test on the action finds is the view of the action that it finds.
first-views :
    (run_id : String) (reviews : List ReviewDecision) (receipts : List ActionReceipt)
    (p : ProposedAction → Bool) (actions : List ProposedAction)
    → first (λ (v : ActionView). p v.action) (map (action_view run_id reviews receipts) actions)
      ≡ map_option (action_view run_id reviews receipts) (first p actions)
unfolding first action_view
first-views run_id reviews receipts p [] = refl
first-views run_id reviews receipts p (a ∷ actions) = elim (Bool-cases (p a)) [
  | inl h ↦ rw h refl
  | inr h ↦ rw h (first-views run_id reviews receipts p actions)
]

pub first-list_for_run :
    (host : Host) (run_id : String) (s : Store) (p : ProposedAction → Bool)
    → first (λ (v : ActionView). p v.action) (list_for_run host run_id s)
      ≡ map_option
          (action_view run_id (list_reviews host run_id s) (list_receipts host run_id s))
          (first p (list_actions run_id s))
unfolding list_for_run
first-list_for_run host run_id s p =
    first-views run_id (list_reviews host run_id s) (list_receipts host run_id s) p
      (list_actions run_id s)

-- What the search finds shows the action in the run.
pub record Shows (host : Host) (run_id : String) (a : ProposedAction) (v : ActionView)
    : Type 0 where
  pub run : v.run_id ≡ run_id
  pub action : v.action ≡ a

found_elim :
    (host : Host) (run_id : String) (s : Store) (p : ProposedAction → Bool) (v : ActionView)
    → first (λ (w : ActionView). p w.action) (list_for_run host run_id s) ≡ some v
    → (v.run_id ≡ run_id) × (first p (list_actions run_id s) ≡ some v.action)
unfolding action_view
found_elim host run_id s p v h = elim (Option-cases (first p (list_actions run_id s))) [
  | inl n ↦ absurd (ground (arith, first-list_for_run host run_id s p))
  | inr (a, e) ↦
      let k : some (action_view run_id (list_reviews host run_id s) (list_receipts host run_id s) a)
          ≡ some v =
        rw e at (sym (first-list_for_run host run_id s p) ∙ h) in
      (ground arith, ground arith)
]

-- In the run of the snapshot the search finds it, elsewhere it finds what it found.
shown :
    (host : Host) (run_id : String) (a : ProposedAction) (s t : Store)
    → HasAppended run_id a s t
    → (v : ActionView) × (first (has_id a.action_id) (list_for_run host run_id t) ≡ some v)
      × Shows host run_id a v
unfolding action_view
shown host run_id a s t k =
    let v = action_view run_id (list_reviews host run_id t) (list_receipts host run_id t) a in
    let e =
      first-list_for_run host run_id t (λ (b : ProposedAction). str_eq b.action_id a.action_id) in
    let e' : first (has_id a.action_id) (list_for_run host run_id t) ≡ some v =
      rw (first-list_actions run_id a s t k) at e in
    (v, e', record { run = refl; action = refl })

not_shown :
    (host : Host) (run_id other : String) (a : ProposedAction) (s t : Store)
    → HasAppended run_id a s t
    → str_eq run_id other ≡ false
    → first (has_id a.action_id) (list_for_run host other s) ≡ none
    → first (has_id a.action_id) (list_for_run host other t) ≡ none
not_shown host run_id other a s t k ne h =
    let p : ProposedAction → Bool = λ b. str_eq b.action_id a.action_id in
    let e = first-list_for_run host other s p in
    let f = first-list_for_run host other t p in
    elim (Option-cases (first p (list_actions other s))) [
      | inl n ↦ rw f (rw (list_actions_elsewhere run_id other a s t k ne) (rw n refl))
      | inr (b, found) ↦ absurd (ground arith)
    ]

search_hit :
    (host : Host) (id run_id : String) (run_ids : List String) (s : Store) (v : ActionView)
    → first (has_id id) (list_for_run host run_id s) ≡ some v
    → search_actions host id (run_id ∷ run_ids) s ≡ ok v
unfolding search_actions
search_hit host id run_id run_ids s v h = ground arith

search_miss :
    (host : Host) (id run_id : String) (run_ids : List String) (s : Store)
    → first (has_id id) (list_for_run host run_id s) ≡ none
    → search_actions host id (run_id ∷ run_ids) s ≡ search_actions host id run_ids s
unfolding search_actions
search_miss host id run_id run_ids s h = ground arith

search_actions-HasAppended :
    (host : Host) (run_id : String) (a : ProposedAction) (s t : Store) (run_ids : List String)
    (v : ActionView)
    → HasAppended run_id a s t
    → v.run_id ≡ run_id
    → search_actions host a.action_id run_ids s ≡ ok v
    → (w : ActionView) × (search_actions host a.action_id run_ids t ≡ ok w) × Shows host run_id a w
unfolding search_actions
search_actions-HasAppended host run_id a s t [] v k r h = cc
search_actions-HasAppended host run_id a s t (other ∷ run_ids) v k r h =
    elim (Bool-cases (str_eq run_id other)) [
      | inl here ↦
          let (w, e, sh) = shown host run_id a s t k in
          let same : run_id ≡ other = str_eq→eq run_id other here in
          (w, rw (sym same) (search_hit host a.action_id run_id run_ids t w e), sh)
      | inr away ↦ elim (Option-cases (first (has_id a.action_id) (list_for_run host other s))) [
        | inl n ↦
            let (w, e, sh) =
              search_actions-HasAppended host run_id a s t run_ids v k r
                (sym (search_miss host a.action_id other run_ids s n) ∙ h) in
            (
              w,
              search_miss host a.action_id other run_ids t
                    (not_shown host run_id other a s t k away n)
                  ∙ e,
              sh,
            )
        | inr (u, found) ↦
            let (ran, listed) =
              found_elim host other s (λ (b : ProposedAction). str_eq b.action_id a.action_id) u
                found in
            let same : ok u ≡ ok v =
              sym (search_hit host a.action_id other run_ids s u found) ∙ h in
            absurd (ground (arith, eq_iff run_id other))
      ]
    ]

pub list_ids-runs : (s t : Store) → t.runs ≡ s.runs → list_ids t ≡ list_ids s
unfolding list_ids
list_ids-runs s t e = rw e refl

get_action-appended :
    (host : Host) (a : ProposedAction) (s t : Store) (v : ActionView)
    → HasAppended v.run_id a s t
    → get_action host a.action_id s ≡ ok v
    → (w : ActionView) × (get_action host a.action_id t ≡ ok w) × Shows host v.run_id a w
unfolding get_action
get_action-appended host a s t v k h =
    rw (list_ids-runs s t k.runs)
      (search_actions-HasAppended host v.run_id a s t (list_ids s) v k refl h)

-- After a snapshot of a found action, the action is found, and is the snapshot.
pub get_action-HasAppended :
    (host : Host) (id : String) (a : ProposedAction) (s t : Store) (v : ActionView)
    → a.action_id ≡ id
    → HasAppended v.run_id a s t
    → get_action host id s ≡ ok v
    → (w : ActionView) × (get_action host id t ≡ ok w) × Shows host v.run_id a w
get_action-HasAppended host id a s t v named k h =
    let h' = subst (λ (i : String). get_action host i s ≡ ok v) (sym named) h in
    let (w, found, shows) = get_action-appended host a s t v k h' in
    (w, subst (λ (i : String). get_action host i t ≡ ok w) named found, shows)

-- A found action bears the identifier, and its run lists it.
search_actions-found :
    (host : Host) (id : String) (run_ids : List String) (s : Store) (v : ActionView)
    → search_actions host id run_ids s ≡ ok v
    → (v.action.action_id ≡ id)
      × (first (λ (b : ProposedAction). str_eq b.action_id id) (list_actions v.run_id s)
          ≡ some v.action)
unfolding search_actions
search_actions-found host id [] s v h = cc
search_actions-found host id (run_id ∷ run_ids) s v h =
    let p : ProposedAction → Bool = λ b. str_eq b.action_id id in
    elim (Option-cases (first (has_id id) (list_for_run host run_id s))) [
      | inl n ↦
          search_actions-found host id run_ids s v
            (sym (search_miss host id run_id run_ids s n) ∙ h)
      | inr (u, found) ↦
          let (ran, listed) = found_elim host run_id s p u found in
          let same : ok u ≡ ok v = sym (search_hit host id run_id run_ids s u found) ∙ h in
          let same' : u ≡ v = ground arith in
          let listed' : first p (list_actions u.run_id s) ≡ some u.action = rw ran listed in
          (
            str_eq→eq v.action.action_id id
                (first-holds p (list_actions run_id s) v.action (rw same' at listed)),
            rw same' at listed',
          )
    ]

pub get_action-found :
    (host : Host) (id : String) (s : Store) (v : ActionView)
    → get_action host id s ≡ ok v
    → (v.action.action_id ≡ id)
      × (first (λ (b : ProposedAction). str_eq b.action_id id) (list_actions v.run_id s)
          ≡ some v.action)
unfolding get_action
get_action-found host id s v h = search_actions-found host id (list_ids s) s v h
