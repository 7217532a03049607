-- ===== src/Application/Workflow/Judged.antt =====
-- core/vericlose/application/actions.py: what ActionService.review leaves on each of its branches.
use veri_close.Prelude.{
  ◌≡◌, ◌⊎◌, ◌∙◌, refl, sym, ap, subst, String, true, Option, none, some, ok, err, Error, arith,
  non_empty, Result-cases, Bool-cases, inl, inr, ◌||◌,
}
use veri_close.Domain.Actions.{ProposedAction, StringPairs, transition}
use veri_close.Domain.Enums.{ActionState, ReviewState}
use veri_close.Domain.Events.{DateTime}
use veri_close.Application.Host.{Host}
use veri_close.Application.Store.{Store}
use veri_close.Application.Workflow.{ActionView, get_action}
use veri_close.Application.Workflow.Review.{
  only_editable, unchanged, changed, edit_action, move_action, next_state, same_state, is_given,
  save_review, review_store, review,
}
use veri_close.Application.Workflow.Reviewed.{
  IsReviewed, IsSaved, edit_action-IsEdited, move_action-inv, review-IsReviewed,
  save_review-IsSaved,
}

same_state-eq : (a b : ActionState) → same_state a b ≡ true → a ≡ b
same_state-eq ActionState.proposed ActionState.proposed h = refl
same_state-eq ActionState.approved ActionState.approved h = refl
same_state-eq ActionState.rejected ActionState.rejected h = refl
same_state-eq ActionState.exported ActionState.exported h = refl
same_state-eq ActionState.failed ActionState.failed h = refl
same_state-eq ActionState.cancelled ActionState.cancelled h = refl
same_state-eq a b h = cc

-- A judgement asks for no state, or for one.
abbrev pub Reaches : Option ActionState → ActionState → Type 0
Reaches next s = (wanted : ActionState) → next ≡ some wanted → s ≡ wanted

move_action-unchanged :
    (next : Option ActionState) (b : ProposedAction)
    → move_action next b ≡ ok unchanged
    → (is_given next ≡ true) × Reaches next b.state
unfolding move_action
move_action-unchanged none b h = absurd (ground arith)
move_action-unchanged (some next) b h = elim (Bool-cases (same_state b.state next)) [
  | inl same ↦ (refl, λ wanted e. same_state-eq b.state next same ∙ ground arith)
  | inr other ↦ elim (Result-cases (transition b next)) [
    | inl (c, moved) ↦ absurd (ground arith)
    | inr (e, f) ↦ absurd (ground arith)
  ]
]

move_action-Reaches :
    (next : Option ActionState) (b c : ProposedAction)
    → move_action next b ≡ ok (changed c)
    → Reaches next c.state
unfolding move_action
move_action-Reaches none b c h wanted e = absurd (ground arith)
move_action-Reaches (some next) b c h wanted e =
    let (allowed, same) = move_action-inv next b c h in
    sym (ap (λ (a : ProposedAction). a.state) same) ∙ ground arith

-- What a review that does not raise leaves. An action that has the state that is asked for already
-- leaves the store as it is. Otherwise the review is saved, with a snapshot of the action where
-- there are edits or a state is asked for; the snapshot has that state.
pub record IsKept (host : Host) (action_id : String) (state : ReviewState) (edits : StringPairs)
    (s t : Store) : Type 0 where
  pub view : ActionView
  pub found : get_action host action_id s ≡ ok view
  pub known : only_editable edits ≡ true
  pub outcome :
      ((is_given (next_state state) ≡ true)
        × Reaches (next_state state) view.action.state
        × (t ≡ s))
      ⊎ ((a : ProposedAction) × IsSaved view (non_empty edits || is_given (next_state state)) a s t
          × Reaches (next_state state) a.state
          × ((non_empty edits || is_given (next_state state)) ≡ true → IsReviewed view.action a))

pub review_store-IsKept :
    (host : Host) (action_id : String) (state : ReviewState) (reviewer_id : String)
    (comment : Option String) (edits : StringPairs) (timestamp : DateTime) (s t : Store)
    → review_store host action_id state reviewer_id comment edits timestamp s ≡ ok t
    → IsKept host action_id state edits s t
unfolding review_store
review_store-IsKept host action_id state reviewer_id comment edits timestamp s t h =
    elim (Result-cases (get_action host action_id s)) [
      | inr (e, f) ↦ absurd (ground arith)
      | inl (view, found) ↦ elim (Result-cases (edit_action edits view.action)) [
        | inr (e, f) ↦ absurd (ground arith)
        | inl (b, edited) ↦
            let known : only_editable edits ≡ true = ground arith in
            elim (Result-cases (move_action (next_state state) b)) [
              | inr (e, f) ↦ absurd (ground arith)
              | inl (unchanged, moved) ↦
                  let (given, reached) = move_action-unchanged (next_state state) b moved in
                  let w = edit_action-IsEdited edits view.action b known edited in
                  record {
                    view = view;
                    found = found;
                    known = known;
                    outcome = inl (given, λ wanted e. w.state ∙ reached wanted e, ground arith);
                  }
              | inl (changed a, moved) ↦
                  let saved : save_review host view action_id state reviewer_id comment
                        (non_empty edits) timestamp a s
                      ≡ ok t =
                    ground arith in
                  record {
                    view = view;
                    found = found;
                    known = known;
                    outcome = inr (
                      a,
                      save_review-IsSaved host view action_id state reviewer_id comment
                          (non_empty edits) timestamp a s t saved,
                      move_action-Reaches (next_state state) b a moved,
                      review-IsReviewed edits state view.action b a known edited moved,
                    );
                  }
            ]
      ]
    ]

-- A review either raises and leaves the store as it was, or it found the action and its edits name
-- editable fields only. It then leaves the store as it was, where the action has the state that is
-- asked for already, or it adds a review and an audit event, and a snapshot of the action where there
-- are edits or a state is asked for. That snapshot has the state that is asked for, is PROPOSED or a
-- legal successor of the action, and keeps its identifier, type, case, journal, evidence and time, and
-- each field of its payload that is not editable, like the key of its export.
pub review-IsKept :
    (host : Host) (action_id : String) (state : ReviewState) (reviewer_id : String)
    (comment : Option String) (edits : StringPairs) (timestamp : DateTime) (s : Store)
    → (let x = review host action_id state reviewer_id comment edits timestamp s in
        ((e : Error) × (x.result ≡ err e) × (x.store ≡ s))
        ⊎ IsKept host action_id state edits s x.store)
unfolding review
review-IsKept host action_id state reviewer_id comment edits timestamp s =
    let left = (review host action_id state reviewer_id comment edits timestamp s).store in
    elim (Result-cases (review_store host action_id state reviewer_id comment edits timestamp s)) [
      | inr (e, f) ↦ inl (e, ground arith, ground arith)
      | inl (t, done) ↦
          let now : t ≡ left = ground arith in
          let d =
            review_store-IsKept host action_id state reviewer_id comment edits timestamp s t done in
          inr (subst (IsKept host action_id state edits s) now d)
    ]
