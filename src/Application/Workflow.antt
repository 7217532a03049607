-- ===== src/Application/Workflow.antt =====
-- core/vericlose/application/actions.py: the views of actions, and what the operations of
-- ActionService share. `PersistenceUnitOfWork` is the store.
pub mod Journals
pub mod Posted
pub mod MissingPosting
pub mod Reversed
pub mod Propose
pub mod Review
pub mod Payload
pub mod Export
pub mod Download
pub mod Found
pub mod Proposed
pub mod Repeated
pub mod Log
pub mod Reviewed
pub mod Judged
pub mod Reached
pub mod Approved
pub mod Exported
use veri_close.Prelude.{
  String, str_eq, Bool, none, some, List, [], ◌∷◌, map, Result, ok, err, lookup_error, filter,
  first, if◌then◌else◌,
}
use veri_close.Domain.Actions.{ProposedAction, ReviewDecision, ActionReceipt, StringPairs}
use veri_close.Domain.Enums.{ActionType}
use veri_close.Application.Host.{Host}
use veri_close.Application.Store.{Store, list_ids}
use veri_close.Application.Store.Reviews.{list_actions, list_reviews, list_receipts}

pub record ActionView : Type 0 where
  pub run_id : String
  pub action : ProposedAction
  pub reviews : List ReviewDecision
  pub receipts : List ActionReceipt

unfoldable pub action_view :
    String → List ReviewDecision → List ActionReceipt → ProposedAction → ActionView
action_view run_id reviews receipts action = record {
  run_id = run_id;
  action = action;
  reviews = filter (λ (r : ReviewDecision). str_eq r.action_id action.action_id) reviews;
  receipts = filter (λ (r : ActionReceipt). str_eq r.action_id action.action_id) receipts;
}

-- ActionQueryService.list_for_run
unfoldable pub list_for_run : Host → String → Store → List ActionView
list_for_run host run_id store =
    map (action_view run_id (list_reviews host run_id store) (list_receipts host run_id store))
      (list_actions run_id store)

abbrev pub has_id : String → ActionView → Bool
has_id action_id view = str_eq view.action.action_id action_id

-- the loop of ActionQueryService.get over the runs
unfoldable pub search_actions : Host → String → List String → Store → Result ActionView
search_actions host action_id [] store = err (lookup_error "action not found")
search_actions host action_id (run_id ∷ run_ids) store =
    elim (first (has_id action_id) (list_for_run host run_id store)) [
      | some found ↦ ok found
      | none ↦ search_actions host action_id run_ids store
    ]

-- ActionQueryService.get
unfoldable pub get_action : Host → String → Store → Result ActionView
get_action host action_id store = search_actions host action_id (list_ids store) store

-- payload[key] = value on a dict: the place of a key that is there stands
unfoldable pub put : String → String → StringPairs → StringPairs
put key value [] = (key, value) ∷ []
put key value ((k, v) ∷ pairs) =
    let rest = put key value pairs in if str_eq k key then (k, value) ∷ pairs else (k, v) ∷ rest

-- payload[key] = value for each of the pairs
unfoldable pub put_all : StringPairs → StringPairs → StringPairs
put_all [] payload = payload
put_all ((k, v) ∷ pairs) payload = put_all pairs (put k v payload)

-- dict(pairs)
unfoldable pub dict_of : StringPairs → StringPairs
dict_of pairs = put_all pairs []

-- `ActionType.value`
abbrev pub action_type_value : ActionType → String
action_type_value ActionType.journal_export = "JOURNAL_EXPORT"
action_type_value ActionType.clarification_request = "CLARIFICATION_REQUEST"
action_type_value ActionType.mapping_correction = "MAPPING_CORRECTION"
action_type_value ActionType.corrected_data_import = "CORRECTED_DATA_IMPORT"
action_type_value ActionType.wait = "WAIT"
action_type_value ActionType.accept_difference = "ACCEPT_DIFFERENCE"
action_type_value ActionType.manual_review = "MANUAL_REVIEW"
action_type_value ActionType.no_action = "NO_ACTION"
