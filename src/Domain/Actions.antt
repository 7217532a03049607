-- ===== src/Domain/Actions.antt =====
-- core/vericlose/domain/actions.py. `replace` runs the constructor again.
pub mod Lifecycle
pub mod Journal
use veri_close.Prelude.{
  ℕ, String, Bool, true, false, not, ◌&&◌, Option, none, some, List, [], ◌∷◌, map, Result, ok,
  value_error, ◌>>=◌, ◌>>◌, raise_if, ltb, nat_eq, filter, total, length, non_empty, contains,
  dedup, dedup_from,
}
use veri_close.Domain.Enums.{ActionState, ActionType, Direction, ReviewState, is_credit}
use veri_close.Domain.Events.{DateTime, require_text, require_aware}
use veri_close.Domain.Evidence.{EvidenceLink}
use veri_close.Domain.Money.{Money}

-- StringPairs
abbrev pub StringPairs : Type 0
StringPairs = List (String × String)

-- `ActionState.value`; a StrEnum member equals its value
abbrev pub action_state_value : ActionState → String
action_state_value ActionState.proposed = "PROPOSED"
action_state_value ActionState.approved = "APPROVED"
action_state_value ActionState.rejected = "REJECTED"
action_state_value ActionState.exported = "EXPORTED"
action_state_value ActionState.failed = "FAILED"
action_state_value ActionState.cancelled = "CANCELLED"

-- ACTION_TRANSITIONS
abbrev pub action_transitions : ActionState → List ActionState
action_transitions ActionState.proposed =
    ActionState.approved ∷ ActionState.rejected ∷ ActionState.cancelled ∷ []
action_transitions ActionState.approved =
    ActionState.exported ∷ ActionState.failed ∷ ActionState.cancelled ∷ []
action_transitions ActionState.failed = ActionState.approved ∷ ActionState.cancelled ∷ []
action_transitions ActionState.rejected = []
action_transitions ActionState.exported = []
action_transitions ActionState.cancelled = []

-- next_state in ACTION_TRANSITIONS[state]
unfoldable pub action_step_allowed : ActionState → ActionState → Bool
unfolding contains
action_step_allowed state next_state =
    contains (action_state_value next_state) (map action_state_value (action_transitions state))

pub record JournalLine : Type 0 where
  pub account_code : String
  pub money : Money
  pub direction : Direction
  pub narration : String
  pub evidence_links : List EvidenceLink

unfoldable pub journal_line : JournalLine → Result JournalLine
unfolding require_text
journal_line l = do
  require_text l.account_code "account_code"
  require_text l.narration "narration"
  raise_if (nat_eq l.money.amount_minor 0) (value_error "journal lines cannot have a zero amount")
  raise_if (not (non_empty l.evidence_links))
      (value_error "journal lines must cite source evidence")
  ok l

pub record JournalProposal : Type 0 where
  pub lines : List JournalLine

abbrev pub line_amount : JournalLine → ℕ
line_amount l = l.money.amount_minor

abbrev pub is_credit_line : JournalLine → Bool
is_credit_line l = is_credit l.direction

abbrev pub is_debit_line : JournalLine → Bool
is_debit_line l = not (is_credit l.direction)

abbrev pub line_currency : JournalLine → String
line_currency l = l.money.currency

unfoldable pub debit_total : List JournalLine → ℕ
unfolding total filter
debit_total lines = total line_amount (filter is_debit_line lines)

unfoldable pub credit_total : List JournalLine → ℕ
unfolding total filter
credit_total lines = total line_amount (filter is_credit_line lines)

-- JournalProposal.__post_init__
unfoldable pub journal_proposal : List JournalLine → Result JournalProposal
unfolding dedup_from debit_total credit_total
journal_proposal lines = do
  raise_if (ltb (length lines) 2) (value_error "JournalProposal must contain at least two lines")
  raise_if (not (nat_eq (length (dedup (map line_currency lines))) 1))
      (value_error "all journal lines must use the same currency")
  raise_if (not (nat_eq (debit_total lines) (credit_total lines)))
      (value_error "Journal is unbalanced")
  ok (record { lines = lines })

pub record ProposedAction : Type 0 where
  pub action_id : String
  pub action_type : ActionType
  pub case_id : String
  pub state : ActionState
  pub journal : Option JournalProposal
  pub payload : StringPairs
  pub evidence_links : List EvidenceLink
  pub created_at : DateTime

abbrev pub is_journal_export : ActionType → Bool
is_journal_export ActionType.journal_export = true
is_journal_export _ = false

abbrev pub is_some {ℓ} : {A : Type ℓ} → Option A → Bool
is_some none = false
is_some (some a) = true

-- ProposedAction.__post_init__
unfoldable pub proposed_action : ProposedAction → Result ProposedAction
unfolding require_text require_aware
proposed_action a = do
  require_text a.action_id "action_id"
  require_text a.case_id "case_id"
  require_aware a.created_at "created_at"
  raise_if (not (non_empty a.evidence_links)) (value_error "a proposed action must cite evidence")
  raise_if (is_journal_export a.action_type && not (is_some a.journal))
      (value_error "JOURNAL_EXPORT requires a balanced journal proposal")
  raise_if (not (is_journal_export a.action_type) && is_some a.journal)
      (value_error "only JOURNAL_EXPORT can carry a journal proposal")
  ok a

-- ProposedAction.transition
unfoldable pub transition : ProposedAction → ActionState → Result ProposedAction
unfolding action_step_allowed
transition a next_state = do
  raise_if (not (action_step_allowed a.state next_state)) (value_error "invalid action transition")
  proposed_action (record a { state = next_state })

pub record ReviewDecision : Type 0 where
  pub review_id : String
  pub action_id : String
  pub state : ReviewState
  pub reviewer_id : String
  pub reviewed_at : DateTime
  pub comment : Option String

unfoldable pub review_decision : ReviewDecision → Result ReviewDecision
unfolding require_text require_aware
review_decision r = do
  require_text r.review_id "review_id"
  require_text r.action_id "action_id"
  require_text r.reviewer_id "reviewer_id"
  require_aware r.reviewed_at "reviewed_at"
  ok r

pub record ActionReceipt : Type 0 where
  pub receipt_id : String
  pub action_id : String
  pub idempotency_key : String
  pub executed_at : DateTime
  pub result_payload : StringPairs

unfoldable pub action_receipt : ActionReceipt → Result ActionReceipt
unfolding require_text require_aware
action_receipt r = do
  require_text r.receipt_id "receipt_id"
  require_text r.action_id "action_id"
  require_text r.idempotency_key "idempotency_key"
  require_aware r.executed_at "executed_at"
  ok r
