-- ===== src/Application/Workflow/Reviewed.antt =====
-- core/vericlose/application/actions.py: what a review does to the action and the store.
use veri_close.Prelude.{
  ◌≡◌, ◌≢◌, ◌⊎◌, ◌∙◌, refl, sym, subst, String, str_append, Bool, true, false, ◌||◌, Option, none,
  some, [], ◌∷◌, ok, arith, non_empty, sort_by, Result-cases, inl, inr,
}
use veri_close.Domain.Actions.{
  ProposedAction, proposed_action, transition, action_step_allowed, StringPairs, ReviewDecision,
  review_decision,
}
use veri_close.Domain.Actions.Lifecycle.{transition_inv}
use veri_close.Domain.Enums.{ActionState, ReviewState}
use veri_close.Domain.Events.{DateTime}
use veri_close.Application.Audit.{AuditEvent, audit_event}
use veri_close.Application.Host.{Host}
use veri_close.Application.Store.{Store}
use veri_close.Application.Store.Appends.{append_audit-inv, append_review-inv}
use veri_close.Application.Store.Reviews.{append_action, append_review, append_audit}
use veri_close.Application.Workflow.{ActionView, dict_of}
use veri_close.Application.Workflow.Log.{SameMatter, SameProtected}
use veri_close.Application.Workflow.Payload.{edit_payload-Keeps}
use veri_close.Application.Workflow.Review.{
  only_editable, changed, edit_action, edit_payload, move_action, next_state, is_proposed, is_given,
  append_if, save_review, by_field, review_identity, review_event,
}

is_proposed-eq : (s : ActionState) → is_proposed s ≡ true → s ≡ ActionState.proposed
is_proposed-eq ActionState.proposed h = refl
is_proposed-eq s h = cc

abbrev pub matter_refl :
    (a : ProposedAction) (p : StringPairs)
    → SameProtected a.payload p
    → SameMatter a (record a { payload = p })
matter_refl a p kept = record {
  protected = kept;
  action_type = refl;
  case_id = refl;
  journal = refl;
  evidence_links = refl;
  created_at = refl;
}

-- An edit changes the payload alone, and only of an action that is PROPOSED.
pub record IsEdited (edits : StringPairs) (a b : ProposedAction) : Type 0 where
  pub action_id : a.action_id ≡ b.action_id
  pub state : a.state ≡ b.state
  pub matter : SameMatter a b
  pub proposed : non_empty edits ≡ true → a.state ≡ ActionState.proposed

proposed_action-same : (a b : ProposedAction) → proposed_action a ≡ ok b → a ≡ b
unfolding proposed_action
proposed_action-same a b h = ground arith

pub edit_action-IsEdited :
    (edits : StringPairs) (a b : ProposedAction)
    → only_editable edits ≡ true
    → edit_action edits a ≡ ok b
    → IsEdited edits a b
unfolding edit_action
edit_action-IsEdited [] a b known h =
    let same : a ≡ b = ground arith in
    subst (IsEdited [] a) same (record {
      action_id = refl;
      state = refl;
      matter = matter_refl a a.payload (λ f fixed. refl);
      proposed = λ e. absurd (ground arith);
    })
edit_action-IsEdited (e ∷ edits) a b known h =
    elim (Result-cases (edit_payload (e ∷ edits) (dict_of a.payload))) [
      | inr (er, f) ↦ absurd (ground arith)
      | inl (payload, edited) ↦
          let k : ProposedAction = record a { payload = sort_by by_field payload } in
          let same : k ≡ b = proposed_action-same k b (ground arith) in
          let was : is_proposed a.state ≡ true = ground arith in
          subst (IsEdited (e ∷ edits) a) same (record {
            action_id = refl;
            state = refl;
            matter =
                matter_refl a k.payload (λ f fixed.
                  edit_payload-Keeps f (e ∷ edits) a.payload payload fixed known edited);
            proposed = λ _. is_proposed-eq a.state was;
          })
    ]

-- What a review makes of an action: the same action of the same matter, left PROPOSED, or moved by a
-- legal transition.
pub record IsReviewed (a b : ProposedAction) : Type 0 where
  pub action_id : a.action_id ≡ b.action_id
  pub matter : SameMatter a b
  pub state : (b.state ≡ ActionState.proposed) ⊎ (action_step_allowed a.state b.state ≡ true)
  pub unexported : b.state ≢ ActionState.exported
  pub unfailed : b.state ≢ ActionState.failed

pub move_action-inv :
    (next : ActionState) (a b : ProposedAction)
    → move_action (some next) a ≡ ok (changed b)
    → (action_step_allowed a.state next ≡ true) × (record a { state = next } ≡ b)
unfolding move_action
move_action-inv next a b h = elim (Result-cases (transition a next)) [
  | inr (er, f) ↦ absurd (ground arith)
  | inl (c, moved) ↦
      let (allowed, same) = transition_inv a c next moved in (allowed, same ∙ ground arith)
]

next_state-unexported :
    (state : ReviewState) (next : ActionState)
    → next_state state ≡ some next
    → next ≢ ActionState.exported
next_state-unexported ReviewState.approved next h e = cc
next_state-unexported ReviewState.rejected next h e = cc
next_state-unexported state next h e = cc

next_state-unfailed :
    (state : ReviewState) (next : ActionState)
    → next_state state ≡ some next
    → next ≢ ActionState.failed
next_state-unfailed ReviewState.approved next h e = cc
next_state-unfailed ReviewState.rejected next h e = cc
next_state-unfailed state next h e = cc

moved-IsReviewed :
    (edits : StringPairs) (a b : ProposedAction) (next : ActionState)
    → IsEdited edits a b
    → action_step_allowed b.state next ≡ true
    → (next ≢ ActionState.exported) × (next ≢ ActionState.failed)
    → IsReviewed a (record b { state = next })
moved-IsReviewed edits a b next w allowed (unexported, unfailed) =
    let m = w.matter in
    record {
      action_id = w.action_id;
      unexported = unexported;
      unfailed = unfailed;
      matter = record {
        action_type = m.action_type;
        case_id = m.case_id;
        journal = m.journal;
        evidence_links = m.evidence_links;
        created_at = m.created_at;
        protected = m.protected;
      };
      state =
          inr
            (subst (λ (s : ActionState). action_step_allowed s next ≡ true) (sym w.state) allowed);
    }

-- an action that is stored is what the review makes of the one before
pub review-IsReviewed :
    (edits : StringPairs) (state : ReviewState) (a b c : ProposedAction)
    → only_editable edits ≡ true
    → edit_action edits a ≡ ok b
    → move_action (next_state state) b ≡ ok (changed c)
    → (non_empty edits || is_given (next_state state)) ≡ true
    → IsReviewed a c
unfolding move_action
review-IsReviewed edits state a b c known edited moved stored =
    go (next_state state) refl moved stored
  where
    w : IsEdited edits a b
    w = edit_action-IsEdited edits a b known edited

    go :
        (next : Option ActionState)
        → next_state state ≡ next
        → move_action next b ≡ ok (changed c)
        → (non_empty edits || is_given next) ≡ true
        → IsReviewed a c
    go none asked moved stored =
        let same : b ≡ c = ground arith in
        let some_edits : non_empty edits ≡ true = ground arith in
        subst (IsReviewed a) same (record {
          action_id = w.action_id;
          matter = w.matter;
          state = inl (sym w.state ∙ w.proposed some_edits);
          unexported = λ e.
              let was : b.state ≡ ActionState.proposed = sym w.state ∙ w.proposed some_edits in cc;
          unfailed = λ e.
              let was : b.state ≡ ActionState.proposed = sym w.state ∙ w.proposed some_edits in cc;
        })
    go (some next) asked moved stored =
        let (allowed, same) = move_action-inv next b c moved in
        subst (IsReviewed a) same (
          moved-IsReviewed edits a b next w allowed
            (next_state-unexported state next asked, next_state-unfailed state next asked))

-- The store of a saved review has the snapshot, if there is one, a review and an audit event more.
pub record IsSaved (view : ActionView) (appended : Bool) (a : ProposedAction) (s t : Store)
    : Type 0 where
  pub review : ReviewDecision
  pub event : AuditEvent
  pub store : t ≡ record (append_if appended view.run_id a s) {
    reviews = record { run_id = view.run_id; item = review } ∷ s.reviews;
    audit = event ∷ s.audit;
  }

append_if-others :
    (b : Bool) (run_id : String) (a : ProposedAction) (s : Store)
    → ((append_if b run_id a s).reviews ≡ s.reviews) × ((append_if b run_id a s).audit ≡ s.audit)
unfolding append_action
append_if-others true run_id a s = (refl, refl)
append_if-others false run_id a s = (refl, refl)

pub save_review-IsSaved :
    (host : Host) (view : ActionView) (action_id : String) (state : ReviewState)
    (reviewer_id : String) (comment : Option String) (edited : Bool) (timestamp : DateTime)
    (a : ProposedAction) (s t : Store)
    → save_review host view action_id state reviewer_id comment edited timestamp a s ≡ ok t
    → IsSaved view (edited || is_given (next_state state)) a s t
unfolding save_review
save_review-IsSaved host view action_id state reviewer_id comment edited timestamp a s t h =
    let flag = edited || is_given (next_state state) in
    let stored = append_if flag view.run_id a s in
    elim (Result-cases (
      review_decision (record {
        review_id =
            str_append "review_" (review_identity host view action_id state reviewer_id timestamp);
        action_id = action_id;
        state = state;
        reviewer_id = reviewer_id;
        reviewed_at = timestamp;
        comment = comment;
      }))) [
        | inr (e, f) ↦ absurd (ground arith)
        | inl (review, built) ↦ elim (Result-cases (append_review view.run_id review stored)) [
          | inr (e, f) ↦ absurd (ground arith)
          | inl (u, reviewed) ↦
              elim (Result-cases (
                audit_event (
                  review_event (review_identity host view action_id state reviewer_id timestamp)
                    view.run_id action_id state reviewer_id edited timestamp))) [
                      | inr (e, f) ↦ absurd (ground arith)
                      | inl (event, logged) ↦
                          let last : append_audit event u ≡ ok t = ground arith in
                          let (same_reviews, same_audit) = append_if-others flag view.run_id a s in
                          let first_step = append_review-inv view.run_id review stored u reviewed in
                          let second_step = append_audit-inv event u t last in
                          record {
                            review = review;
                            event = event;
                            store =
                                second_step ∙ rw first_step (rw same_reviews (rw same_audit refl));
                          }
                    ]
        ]
      ]
