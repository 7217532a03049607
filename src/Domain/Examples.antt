-- ===== src/Domain/Examples.antt =====
-- The theorems on the domain at concrete values.
use veri_close.Prelude.{
  ◌≡◌, refl, ◌↔◌, ◌+◌, ◌≤◌, true, some, List, [], ◌∷◌, pos, ok, err, value_error,
}
use veri_close.Domain.Actions.{
  ProposedAction, JournalLine, JournalProposal, proposed_action, transition, journal_proposal,
}
use veri_close.Domain.Actions.Journal.{IsBalanced, journal_proposal-IsBalanced}
use veri_close.Domain.Actions.Lifecycle as Action
use veri_close.Domain.Enums.{ActionState, ActionType, Direction, RunState, SourceType}
use veri_close.Domain.Events.{DateTime}
use veri_close.Domain.Evidence.{EvidenceLink}
use veri_close.Domain.Money.{Money, money, add, subtract}
use veri_close.Domain.Money.Laws.{IsMoney, IsMoneyOf, money-IsMoney, subtract-add, subtract_iff}
use veri_close.Domain.Runs as Run
use veri_close.Domain.Runs.Lifecycle as Life

abbrev rupees : Money
rupees = record { amount_minor = 500; currency = "INR" }

abbrev paise : Money
paise = record { amount_minor = 20; currency = "INR" }

money-IsMoney_example :
    (money (pos 500) " inr" ≡ ok rupees) ↔ (IsMoneyOf (pos 500) " inr" rupees × IsMoney rupees)
money-IsMoney_example = money-IsMoney (pos 500) " inr" rupees

rupees_built : money (pos 500) " inr" ≡ ok rupees
unfolding money
rupees_built = refl

rupees-IsMoney : IsMoney rupees
rupees-IsMoney = ((money-IsMoney (pos 500) " inr" rupees).0 rupees_built).1

subtract-add_example :
    (520 ≡ rupees.amount_minor + paise.amount_minor)
    × (subtract (record { amount_minor = 520; currency = "INR" }) paise ≡ ok rupees)
unfolding add money
subtract-add_example =
    subtract-add rupees paise (record { amount_minor = 520; currency = "INR" }) rupees-IsMoney refl

subtract_iff_example :
    ((m : Money) × (subtract rupees paise ≡ ok m))
    ↔ ((rupees.currency ≡ paise.currency) × (paise.amount_minor ≤ rupees.amount_minor))
subtract_iff_example = subtract_iff rupees paise rupees-IsMoney

abbrev now : DateTime
now = record { date = 739000; clock = 0; aware = true }

abbrev link : EvidenceLink
link = record {
  event_id = some "e1";
  source_file_id = "file";
  table_name = "rows";
  row_number = pos 1;
  raw_row_hash = "e3b0c44298fc1c149afbf4c8996fb92427ae41e4649b934ca495991b7852b855";
  purpose = "receipt";
}

abbrev line : Direction → JournalLine
line direction = record {
  account_code = "110000";
  money = rupees;
  direction = direction;
  narration = "settlement";
  evidence_links = link ∷ [];
}

abbrev lines : List JournalLine
lines = line Direction.debit ∷ line Direction.credit ∷ []

abbrev journal : JournalProposal
journal = record { lines = lines }

journal_proposal-IsBalanced_example : (journal.lines ≡ lines) × IsBalanced lines
unfolding journal_proposal
journal_proposal-IsBalanced_example = journal_proposal-IsBalanced lines journal refl

abbrev action : ActionState → ProposedAction
action state = record {
  action_id = "action_1";
  action_type = ActionType.journal_export;
  case_id = "case_1";
  state = state;
  journal = some journal;
  payload = [];
  evidence_links = link ∷ [];
  created_at = now;
}

exported-History :
    Action.History
      (action ActionState.exported)
      (ActionState.exported ∷ ActionState.approved ∷ ActionState.proposed ∷ [])
unfolding transition proposed_action
exported-History =
    Action.History.step
      (Action.History.step (Action.History.fresh (action ActionState.proposed) refl)
        (Action.ActionStep.moved ActionState.approved {b = action ActionState.approved} refl))
      (Action.ActionStep.moved ActionState.exported {b = action ActionState.exported} refl)

History-Approval_example :
    Action.Approval ActionState.exported
      (ActionState.exported ∷ ActionState.approved ∷ ActionState.proposed ∷ [])
History-Approval_example = Action.History-Approval exported-History

final_stays_example :
    transition (action ActionState.exported) ActionState.approved
    ≡ err (value_error "invalid action transition")
final_stays_example = Action.final_stays (action ActionState.exported) ActionState.approved refl

abbrev run : RunState → List Run.SourceFile → Run.RunManifest
run state files = record {
  run_id = "run_1";
  seed = pos 42;
  policy_version = "v1";
  rule_version = "v1";
  mapping_versions = ("bank", "v1") ∷ [];
  build_commit = "abc";
  input_files = files;
  state = state;
  created_at = now;
}

abbrev file : Run.SourceFile
file = record {
  file_id = "file_1";
  source_type = SourceType.bank;
  sha256 = "e3b0c44298fc1c149afbf4c8996fb92427ae41e4649b934ca495991b7852b855";
  original_name = "bank.csv";
  size_bytes = pos 10;
  uploaded_at = now;
}

validated-History :
    Life.History
      (run RunState.validated (file ∷ []))
      (RunState.validated ∷ RunState.files_attached ∷ RunState.created ∷ [])
unfolding Run.transition Run.with_files
validated-History =
    Life.History.step
      (Life.History.step (Life.History.fresh (run RunState.created []) refl)
        (Life.RunStep.attached (file ∷ []) {n = run RunState.files_attached (file ∷ [])} refl))
      (Life.RunStep.moved RunState.validated {n = run RunState.validated (file ∷ [])} refl)

History-Trail_example :
    Life.Trail RunState.validated
      (RunState.validated ∷ RunState.files_attached ∷ RunState.created ∷ [])
History-Trail_example = Life.History-Trail validated-History
