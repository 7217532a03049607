-- ===== src/Application/Examples.antt =====
-- The theorems on the services at one case: its journal is proposed, approved and exported.
use veri_close.Prelude.{
  any, ◌≡◌, ◌⊎◌, Error, err, refl, true, false, none, some, List, [], ◌∷◌, ◌++◌, ok,
}
use veri_close.Domain.Actions.{ProposedAction, JournalProposal, StringPairs}
use veri_close.Domain.Enums.{ActionState, RunState, ReviewState, Direction}
use veri_close.Reconciliation.Outcomes.{is_ok, result_of, result_of-ok}
use veri_close.Reconciliation.Samples.{platform, policy, posting, run_kernel}
use veri_close.Domain.Events.{CanonicalEvent}
use veri_close.Reconciliation.Pipeline.{auto_cleared_count}
use veri_close.Application.Reconcile.{
  run, start_run, audit, complete_run, save_run, append_decisions, append_exceptions, summary_of,
}
use veri_close.Application.Reconcile.Ended.{RunEnd, run-ends}
use veri_close.Application.Reconcile.Inserted.{Keeps}
use veri_close.Application.Reconcile.Kept.{run-Keeps}
use veri_close.Application.Store.{
  Snapshot, Store, get_run, append_decision, append_exception, append_summary, insert_row,
}
use veri_close.Application.Store.Grows.{Grows}
use veri_close.Application.Samples.{
  run_service, host, noon, store, manifest, exporter, posted_events,
}
use veri_close.Application.Workflow.Approved.{
  ServiceReach, here, next, ServiceReach-Grows, ServiceReach-approved,
}
use veri_close.Application.Workflow.Export.{ExportResult, export, payload_value}
use veri_close.Application.Workflow.Exported.{IsExported, export-IsExported, export-again}
use veri_close.Application.Workflow.Journals.{missing_erp_journal, duplicate_reversal}
use veri_close.Application.Workflow.Log.{history}
use veri_close.Application.Workflow.MissingPosting.{
  IsMissingPosting, missing_erp_journal-IsMissingPosting,
}
use veri_close.Application.Workflow.Propose.{Proposed, propose}
use veri_close.Application.Workflow.Proposed.{IsProposal, propose-IsProposal}
use veri_close.Application.Workflow.Reached.{proposed, reviewed, exported}
use veri_close.Application.Workflow.Repeated.{propose-again}
use veri_close.Application.Workflow.Reversed.{IsReversal, duplicate_reversal-IsReversal}
use veri_close.Application.Workflow.Review.{review, Outcome}
use veri_close.Application.Workflow.{ActionView}
use veri_close.Application.Workflow.Judged.{IsKept, review-IsKept}

proposal_succeeds : is_ok (propose host policy "case_1" noon store) ≡ true
unfolding run_service
proposal_succeeds = refl

abbrev p : Proposed
p = result_of (propose host policy "case_1" noon store) proposal_succeeds

p-ok : propose host policy "case_1" noon store ≡ ok p
p-ok = result_of-ok (propose host policy "case_1" noon store) proposal_succeeds

propose-IsProposal_example : IsProposal host policy "case_1" noon store p
propose-IsProposal_example = propose-IsProposal host policy "case_1" noon store p p-ok

propose-again_example : propose host policy "case_1" noon p.store ≡ ok p
propose-again_example = propose-again host policy policy "case_1" noon noon store p p-ok

abbrev first_row :
    List (Snapshot ProposedAction) → Snapshot ProposedAction → Snapshot ProposedAction
first_row [] other = other
first_row (r ∷ rows) other = r

abbrev no_row : Snapshot ProposedAction
no_row = record { run_id = ""; snapshot_number = 0; item = p.action }

-- the reviewer approves the journal
abbrev approved_store : Store
approved_store =
    (review host p.action.action_id ReviewState.approved "controller" none [] noon p.store).store

-- the reviewer approves it with an edit
abbrev edits : StringPairs
edits = ("rationale", "  agreed with the bank ") ∷ []

abbrev edited : Outcome ActionView
edited = review host p.action.action_id ReviewState.approved "controller" none edits noon p.store

abbrev edited_action : ProposedAction
edited_action = (first_row edited.store.actions no_row).item

review-IsKept_example :
    ((e : Error) × (edited.result ≡ err e) × (edited.store ≡ p.store))
    ⊎ IsKept host p.action.action_id ReviewState.approved edits p.store edited.store
review-IsKept_example =
    review-IsKept host p.action.action_id ReviewState.approved "controller" none edits noon p.store

edit_succeeds : is_ok edited.result ≡ true
unfolding run_service
edit_succeeds = refl

edit_approves : edited_action.state ≡ ActionState.approved
unfolding run_service
edit_approves = refl

edit_strips : payload_value edited_action.payload "rationale" ≡ ok "agreed with the bank"
unfolding run_service
edit_strips = refl

-- an approved action takes no edit, and a proposed one none of its export's key
late_edit_fails :
    is_ok
      (review host p.action.action_id ReviewState.edit_requested "controller" none edits noon
        edited.store).result
    ≡ false
unfolding run_service
late_edit_fails = refl

key_edit_fails :
    is_ok
      (review host p.action.action_id ReviewState.approved "controller" none
        (("idempotency_key", "other") ∷ [])
        noon
        p.store).result
    ≡ false
unfolding run_service
key_edit_fails = refl

export_succeeds : is_ok (export host exporter p.action.action_id noon approved_store) ≡ true
unfolding run_service
export_succeeds = refl

abbrev x : ExportResult
x = result_of (export host exporter p.action.action_id noon approved_store) export_succeeds

x-ok : export host exporter p.action.action_id noon approved_store ≡ ok x
x-ok = result_of-ok (export host exporter p.action.action_id noon approved_store) export_succeeds

export-IsExported_example : IsExported host exporter p.action.action_id noon approved_store x
export-IsExported_example =
    export-IsExported host exporter p.action.action_id noon approved_store x x-ok

export-again_example : export host exporter p.action.action_id noon x.store ≡ ok x
export-again_example =
    export-again host exporter exporter p.action.action_id noon noon approved_store x x-ok

exported_reach : ServiceReach host store x.store
exported_reach =
    next
      (next (next here (proposed policy "case_1" noon p-ok))
        (reviewed p.action.action_id ReviewState.approved "controller" none [] noon refl))
      (exported exporter p.action.action_id noon x-ok)

ServiceReach-Grows_example : Grows store x.store
ServiceReach-Grows_example = ServiceReach-Grows host store x.store exported_reach

abbrev other_rows : List (Snapshot ProposedAction) → List (Snapshot ProposedAction)
other_rows [] = []
other_rows (r ∷ rows) = rows

-- the EXPORTED snapshot, and those below it
abbrev last_row : Snapshot ProposedAction
last_row = first_row x.store.actions no_row

abbrev below : List (Snapshot ProposedAction)
below = other_rows x.store.actions

last_row_splits : x.store.actions ≡ [] ++ last_row ∷ below
unfolding run_service
last_row_splits = refl

last_row_exported : last_row.item.state ≡ ActionState.exported
unfolding run_service
last_row_exported = refl

ServiceReach-approved_example :
    (approved : ProposedAction) × (proposal : ProposedAction) × (older : List ProposedAction)
    × (history last_row.run_id last_row.item.action_id below ≡ approved ∷ proposal ∷ older)
    × (proposal.state ≡ ActionState.proposed)
    × (approved.state ≡ ActionState.approved)
    × (record approved { state = ActionState.exported } ≡ last_row.item)
ServiceReach-approved_example =
    ServiceReach-approved host store x.store [] below last_row exported_reach refl last_row_splits
      last_row_exported

journal_succeeds : is_ok (missing_erp_journal policy posted_events) ≡ true
unfolding run_service
journal_succeeds = refl

abbrev journal : JournalProposal
journal = result_of (missing_erp_journal policy posted_events) journal_succeeds

missing_erp_journal-IsMissingPosting_example : IsMissingPosting policy posted_events journal.lines
missing_erp_journal-IsMissingPosting_example =
    missing_erp_journal-IsMissingPosting policy posted_events journal
      (result_of-ok (missing_erp_journal policy posted_events) journal_succeeds)

-- two ERP journals of the same posting
abbrev twice_posted : List CanonicalEvent
twice_posted =
    posting "j1:1" Direction.debit 976 "110000"
    ∷ posting "j1:2" Direction.credit 976 "120000"
    ∷ posting "j1-duplicate:1" Direction.debit 976 "110000"
    ∷ posting "j1-duplicate:2" Direction.credit 976 "120000"
    ∷ []

reversal_succeeds : is_ok (duplicate_reversal host twice_posted) ≡ true
unfolding run_service
reversal_succeeds = refl

abbrev reversal : JournalProposal
reversal = result_of (duplicate_reversal host twice_posted) reversal_succeeds

duplicate_reversal-IsReversal_example : IsReversal host twice_posted reversal.lines
duplicate_reversal-IsReversal_example =
    duplicate_reversal-IsReversal host twice_posted reversal
      (result_of-ok (duplicate_reversal host twice_posted) reversal_succeeds)

-- the run before it is reconciled
abbrev validated_store : Store
validated_store = record store {
  runs = record { run_id = "run_1"; snapshot_number = 3; item = manifest RunState.validated } ∷ [];
  decisions = [];
  exceptions = [];
}

validated_listed : get_run "run_1" validated_store ≡ some (manifest RunState.validated)
unfolding run_service
validated_listed = refl

run-ends_example :
    RunEnd platform policy
      (manifest RunState.validated)
      noon
      validated_store
      (run platform policy "run_1" noon validated_store)
unfolding any
run-ends_example =
    run-ends platform policy (manifest RunState.validated) noon validated_store validated_listed
      refl

run_completes : is_ok (run platform policy "run_1" noon validated_store).result ≡ true
unfolding run_kernel run_service run start_run audit complete_run save_run append_decisions
    append_exceptions summary_of append_decision append_exception append_summary insert_row
    auto_cleared_count
run_completes = refl

run-Keeps_example : Keeps validated_store (run platform policy "run_1" noon validated_store).store
run-Keeps_example = run-Keeps platform policy "run_1" noon validated_store
