-- ===== src/Application/Workflow/Review.antt =====
-- core/vericlose/application/actions.py: ActionService.review.
use veri_close.Prelude.{
  strip_str, String, str_append, str_eq, str_leb, Bool, true, false, not, ◌||◌, Option, none, some,
  List, [], ◌∷◌, Result, ok, err, value_error, ◌>>=◌, ◌>>◌, raise_if, all, contains, non_empty,
  is_blank, sort_by, if◌then◌else◌,
}
use veri_close.Domain.Actions.{
  ProposedAction, proposed_action, transition, action_state_value, review_decision, StringPairs,
}
use veri_close.Domain.Enums.{ActionState, ReviewState}
use veri_close.Domain.Events.{DateTime}
use veri_close.Application.Audit.{AuditEvent, audit_event}
use veri_close.Application.Cases.{review_state_value}
use veri_close.Application.Host.{Host, digest_20}
use veri_close.Application.Store.{Store}
use veri_close.Application.Store.Reviews.{append_action, append_review, append_audit}
use veri_close.Application.Workflow.{ActionView, get_action, put, dict_of}

-- _EDITABLE_PAYLOAD_FIELDS
abbrev pub editable : List String
editable = "rationale" ∷ "clarification_text" ∷ []

-- set(requested_edits) <= _EDITABLE_PAYLOAD_FIELDS
unfoldable pub only_editable : StringPairs → Bool
only_editable edits = all (λ (e : String × String). contains e.0 editable) edits

-- the loop over the edits; a value is a text by type
unfoldable pub edit_payload : StringPairs → StringPairs → Result StringPairs
edit_payload [] payload = ok payload
edit_payload ((field, value) ∷ edits) payload = do
  raise_if (is_blank value) (value_error "field cannot be blank")
  edit_payload edits (put field (strip_str value) payload)

-- sorted(payload.items()), whose keys differ
abbrev pub by_field : String × String → String × String → Bool
by_field (a, _) (b, _) = str_leb a b

abbrev pub is_proposed : ActionState → Bool
is_proposed ActionState.proposed = true
is_proposed _ = false

-- the branch `if requested_edits:`
unfoldable pub edit_action : StringPairs → ProposedAction → Result ProposedAction
edit_action [] action = ok action
edit_action (e ∷ edits) action = do
  raise_if (not (is_proposed action.state)) (value_error "only a proposed action can be edited")
  payload ← edit_payload (e ∷ edits) (dict_of action.payload)
  proposed_action (record action { payload = sort_by by_field payload })

-- {APPROVED: APPROVED, REJECTED: REJECTED}.get(state)
abbrev pub next_state : ReviewState → Option ActionState
next_state ReviewState.approved = some ActionState.approved
next_state ReviewState.rejected = some ActionState.rejected
next_state _ = none

abbrev pub same_state : ActionState → ActionState → Bool
same_state a b = str_eq (action_state_value a) (action_state_value b)

-- the action that a review stores, or none where the view is returned as it is
pub data Reviewed : Type 0 where
  unchanged : Reviewed
  changed : ProposedAction → Reviewed

unfoldable pub move_action : Option ActionState → ProposedAction → Result Reviewed
move_action none action = ok (changed action)
move_action (some next) action =
    if same_state action.state next
    then ok unchanged
    else (do moved ← transition action next; ok (changed moved))

abbrev pub is_given {ℓ} : {A : Type ℓ} → Option A → Bool
is_given none = false
is_given (some a) = true

-- `if requested_edits or next_state is not None: append_action`
abbrev pub append_if : Bool → String → ProposedAction → Store → Store
append_if true run_id action store = append_action run_id action store
append_if false run_id action store = store

abbrev pub bool_text : Bool → String
bool_text true = "true"
bool_text false = "false"

unfoldable pub review_identity :
    Host → ActionView → String → ReviewState → String → DateTime → String
review_identity host view action_id state reviewer_id timestamp = digest_20 host (
    view.run_id
    ∷ action_id
    ∷ reviewer_id
    ∷ review_state_value state
    ∷ host.isoformat timestamp
    ∷ [])

-- the audit event before its constructor's checks
abbrev pub review_event :
    String → String → String → ReviewState → String → Bool → DateTime → AuditEvent
review_event identity run_id action_id state reviewer_id edited timestamp = record {
  audit_id = str_append "audit_" identity;
  run_id = run_id;
  event_type = "ACTION_REVIEW_RECORDED";
  occurred_at = timestamp;
  details =
      ("action_id", action_id)
      ∷ ("state", review_state_value state)
      ∷ ("reviewer_id", reviewer_id)
      ∷ ("edited", bool_text edited)
      ∷ [];
}

-- the rest of ActionService.review, for an action to store
unfoldable pub save_review :
    Host
    → ActionView
    → String
    → ReviewState
    → String
    → Option String
    → Bool
    → DateTime
    → ProposedAction
    → Store
    → Result Store
save_review host view action_id state reviewer_id comment edited timestamp action store = do
  let identity = review_identity host view action_id state reviewer_id timestamp
  review ← review_decision (record {
    review_id = str_append "review_" identity;
    action_id = action_id;
    state = state;
    reviewer_id = reviewer_id;
    reviewed_at = timestamp;
    comment = comment;
  })
  let stored = append_if (edited || is_given (next_state state)) view.run_id action store
  reviewed ← append_review view.run_id review stored
  event ←
      audit_event (review_event identity view.run_id action_id state reviewer_id edited timestamp)
  append_audit event reviewed

-- the store that ActionService.review leaves where it does not raise; the edits are `dict(edits)`
unfoldable pub review_store :
    Host
    → String
    → ReviewState
    → String
    → Option String
    → StringPairs
    → DateTime
    → Store
    → Result Store
review_store host action_id state reviewer_id comment edits timestamp store = do
  view ← get_action host action_id store
  raise_if (not (only_editable edits)) (value_error "action fields cannot be edited")
  edited ← edit_action edits view.action
  moved ← move_action (next_state state) edited
  elim moved [
    | unchanged ↦ ok store
    | changed action ↦
        save_review host view action_id state reviewer_id comment (non_empty edits) timestamp action
          store
  ]

pub record Outcome (A : Type 0) : Type 0 where
  pub result : Result A
  pub store : Store

-- ActionService.review: the view is read after the commit
unfoldable pub review :
    Host
    → String
    → ReviewState
    → String
    → Option String
    → StringPairs
    → DateTime
    → Store
    → Outcome ActionView
review host action_id state reviewer_id comment edits timestamp store =
    elim (review_store host action_id state reviewer_id comment edits timestamp store) [
      | err e ↦ record { result = err e; store = store }
      | ok left ↦ record { result = get_action host action_id left; store = left }
    ]
