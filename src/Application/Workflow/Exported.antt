-- ===== src/Application/Workflow/Exported.antt =====
-- core/vericlose/application/actions.py: what an export does, and that it is done once.
use veri_close.Prelude.{
  ◌≡◌, ◌⊎◌, ◌∙◌, refl, sym, ap, subst, String, str_append, true, none, some, List, [], ◌∷◌, ok,
  arith, first, Result-cases, Option-cases, inl, inr, eq_iff,
}
use veri_close.Domain.Actions.{ProposedAction, ActionReceipt, transition, action_receipt}
use veri_close.Domain.Actions.Lifecycle.{transition_inv}
use veri_close.Domain.Enums.{ActionState}
use veri_close.Domain.Events.{DateTime}
use veri_close.Application.Audit.{AuditEvent, audit_event}
use veri_close.Application.Host.{Host}
use veri_close.Application.Store.{Row, Store, in_run}
use veri_close.Application.Store.Appends.{
  audit_event-same, append_audit-inv, append_receipt-inv, append_action-new_row,
  action_receipt-same,
}
use veri_close.Application.Store.Latest.{HasAppended, new_row}
use veri_close.Application.Store.Reviews.{append_action, append_receipt, append_audit, find_receipt}
use veri_close.Application.Workflow.{ActionView, get_action}
use veri_close.Application.Workflow.Export.{
  ActionExporter, ExportedArtifact, ExportResult, export, export_new, save_export, receipt_of,
  payload_value, is_approved,
}
use veri_close.Application.Workflow.Found.{get_action-HasAppended, get_action-found}

-- the event that an export logs
abbrev pub export_event : String → ActionReceipt → String → AuditEvent
export_event run_id receipt sha256 = record {
  audit_id = str_append "audit_" receipt.receipt_id;
  run_id = run_id;
  event_type = "ACTION_EXPORTED";
  occurred_at = receipt.executed_at;
  details =
      ("action_id", receipt.action_id)
      ∷ ("receipt_id", receipt.receipt_id)
      ∷ ("sha256", sha256)
      ∷ [];
}

-- the store with a snapshot, a receipt and an audit event more
abbrev pub after_export : String → ProposedAction → ActionReceipt → String → Store → Store
after_export run_id exported receipt sha256 s = record s {
  actions = new_row run_id exported s.actions ∷ s.actions;
  receipts = record { run_id = run_id; item = receipt } ∷ s.receipts;
  audit = export_event run_id receipt sha256 ∷ s.audit;
}

save_export-inv :
    (run_id : String) (a : ProposedAction) (r : ActionReceipt) (sha256 : String) (s t : Store)
    → save_export run_id a r sha256 s ≡ ok t
    → t ≡ after_export run_id a r sha256 s
unfolding save_export
save_export-inv run_id a r sha256 s t h =
    let after = append_action run_id a s in
    elim (Result-cases (append_receipt run_id r after)) [
      | inr (e, f) ↦ absurd (ground arith)
      | inl (u, got) ↦ elim (Result-cases (audit_event (export_event run_id r sha256))) [
        | inr (e, f) ↦ absurd (ground arith)
        | inl (event, logged) ↦
            let last : append_audit event u ≡ ok t = ground arith in
            ground (
              arith,
              append_audit-inv event u t last,
              append_receipt-inv run_id r after u got,
              audit_event-same (export_event run_id r sha256) event logged,
              append_action-new_row run_id a s,
            )
      ]
    ]

-- Of a call that wrote a new export: the action was approved, and the store has its EXPORTED
-- snapshot, its receipt and its audit event more.
pub record IsWritten (host : Host) (exporter : ActionExporter) (action_id key : String)
    (view : ActionView) (timestamp : DateTime) (s : Store) (x : ExportResult) : Type 0 where
  pub approved : view.action.state ≡ ActionState.approved
  pub artifact : ExportedArtifact
  pub written : exporter.export view.run_id view.action ≡ ok artifact
  pub receipt : x.receipt ≡ receipt_of host view.run_id action_id key timestamp artifact
  pub store :
      x.store
      ≡ after_export view.run_id
          (record view.action { state = ActionState.exported })
          x.receipt
          artifact.sha256
          s

is_approved-eq : (s : ActionState) → is_approved s ≡ true → s ≡ ActionState.approved
is_approved-eq ActionState.approved h = refl
is_approved-eq s h = cc

export_new-IsWritten :
    (host : Host) (exporter : ActionExporter) (action_id key : String) (view : ActionView)
    (timestamp : DateTime) (s : Store) (x : ExportResult)
    → export_new host exporter action_id view key timestamp s ≡ ok x
    → IsWritten host exporter action_id key view timestamp s x
unfolding export_new
export_new-IsWritten host exporter action_id key view timestamp s x h =
    elim (Result-cases (exporter.export view.run_id view.action)) [
      | inr (e, f) ↦ absurd (ground arith)
      | inl (artifact, written) ↦
          let r = receipt_of host view.run_id action_id key timestamp artifact in
          elim (Result-cases (action_receipt r)) [
            | inr (e, f) ↦ absurd (ground arith)
            | inl (q, built) ↦ elim (Result-cases (transition view.action ActionState.exported)) [
              | inr (e, f) ↦ absurd (ground arith)
              | inl (b, moved) ↦
                  elim (Result-cases (save_export view.run_id b q artifact.sha256 s)) [
                    | inr (e, f) ↦ absurd (ground arith)
                    | inl (t, saved) ↦
                        let same : r ≡ q = action_receipt-same r q built in
                        let moved' = transition_inv view.action b ActionState.exported moved in
                        let saved' = save_export-inv view.run_id b q artifact.sha256 s t saved in
                        let receipt' : q ≡ x.receipt = ground arith in
                        let store' : t ≡ x.store = ground arith in
                        record {
                          approved = is_approved-eq view.action.state (ground arith);
                          artifact = artifact;
                          written = written;
                          receipt = sym receipt' ∙ sym same;
                          store = rw receipt' at (rw store' at (rw (sym moved'.1) at saved'));
                        }
                  ]
            ]
          ]
    ]

-- What an export that returns has done.
pub record IsExported (host : Host) (exporter : ActionExporter) (action_id : String)
    (timestamp : DateTime) (s : Store) (x : ExportResult) : Type 0 where
  pub view : ActionView
  pub key : String
  pub found : get_action host action_id s ≡ ok view
  pub keyed : payload_value view.action.payload "idempotency_key" ≡ ok key
  pub outcome :
      ((find_receipt view.run_id key s ≡ some x.receipt) × (x.store ≡ s))
      ⊎ ((find_receipt view.run_id key s ≡ none)
          × IsWritten host exporter action_id key view timestamp s x)

-- An export that returns either gives the receipt that the run keeps under the action's idempotency
-- key and leaves the store as it was, or finds no such receipt, the last snapshot of the action
-- APPROVED and the artifact written, and leaves the store with exactly its EXPORTED snapshot, the
-- new receipt and one audit event more.
pub export-IsExported :
    (host : Host) (exporter : ActionExporter) (action_id : String) (timestamp : DateTime)
    (s : Store) (x : ExportResult)
    → export host exporter action_id timestamp s ≡ ok x
    → IsExported host exporter action_id timestamp s x
unfolding export
export-IsExported host exporter action_id timestamp s x h =
    elim (Result-cases (get_action host action_id s)) [
      | inr (e, f) ↦ absurd (ground arith)
      | inl (view, found) ↦
          elim (Result-cases (payload_value view.action.payload "idempotency_key")) [
            | inr (e, f) ↦ absurd (ground arith)
            | inl (key, keyed) ↦ elim (Option-cases (find_receipt view.run_id key s)) [
              | inr (r, kept) ↦ record {
                view = view;
                key = key;
                found = found;
                keyed = keyed;
                outcome = inl (kept ∙ ground arith, ground arith);
              }
              | inl none_kept ↦ record {
                view = view;
                key = key;
                found = found;
                keyed = keyed;
                outcome = inr (
                  none_kept,
                  export_new-IsWritten host exporter action_id key view timestamp s x
                      (ground arith),
                );
              }
            ]
          ]
    ]

find_receipt-head :
    (run_id : String) (r : ActionReceipt) (s : Store) (rows : List (Row ActionReceipt))
    → s.receipts ≡ record { run_id = run_id; item = r } ∷ rows
    → find_receipt run_id r.idempotency_key s ≡ some r
unfolding find_receipt first in_run
find_receipt-head run_id r s rows h =
    ground (arith, eq_iff run_id run_id, eq_iff r.idempotency_key r.idempotency_key)

-- the call where the receipt is kept
export-kept :
    (host : Host) (exporter : ActionExporter) (action_id key : String) (timestamp : DateTime)
    (s : Store) (view : ActionView) (r : ActionReceipt)
    → get_action host action_id s ≡ ok view
    → payload_value view.action.payload "idempotency_key" ≡ ok key
    → find_receipt view.run_id key s ≡ some r
    → export host exporter action_id timestamp s ≡ ok (record { receipt = r; store = s })
unfolding export
export-kept host exporter action_id key timestamp s view r found keyed kept = ground arith

-- The store of a written export keeps the receipt under the key.
written-again :
    (host : Host) (exporter again : ActionExporter) (action_id key : String)
    (timestamp later : DateTime) (s : Store) (view : ActionView) (x : ExportResult)
    → get_action host action_id s ≡ ok view
    → payload_value view.action.payload "idempotency_key" ≡ ok key
    → IsWritten host exporter action_id key view timestamp s x
    → export host again action_id later x.store ≡ ok x
unfolding receipt_of
written-again host exporter again action_id key timestamp later s view x found keyed w =
    let a : ProposedAction = record view.action { state = ActionState.exported } in
    let t = after_export view.run_id a x.receipt w.artifact.sha256 s in
    let named : view.action.action_id ≡ action_id =
      (get_action-found host action_id s view found).0 in
    let grown : HasAppended view.run_id a s t = record { runs = refl; actions = refl } in
    let (v, shown, shows) = get_action-HasAppended host action_id a s t view named grown found in
    let key' : x.receipt.idempotency_key ≡ key =
      ap (λ (r : ActionReceipt). r.idempotency_key) w.receipt in
    let kept : find_receipt v.run_id key t ≡ some x.receipt =
      rw shows.run (rw (sym key') (find_receipt-head view.run_id x.receipt t s.receipts refl)) in
    let keyed' : payload_value v.action.payload "idempotency_key" ≡ ok key =
      rw shows.action keyed in
    subst
      (λ (u : Store).
        export host again action_id later u ≡ ok (record { receipt = x.receipt; store = u }))
      (sym w.store) (export-kept host again action_id key later t v x.receipt shown keyed' kept)

-- An export that has returned and is called again, at any time and with any exporter, gives the same
-- receipt and leaves the store as it is.
pub export-again :
    (host : Host) (exporter again : ActionExporter) (action_id : String)
    (timestamp later : DateTime) (s : Store) (x : ExportResult)
    → export host exporter action_id timestamp s ≡ ok x
    → export host again action_id later x.store ≡ ok x
export-again host exporter again action_id timestamp later s x h =
    let d = export-IsExported host exporter action_id timestamp s x h in
    elim d.outcome [
      | inl (kept, same) ↦
          subst
            (λ (u : Store).
              export host again action_id later u ≡ ok (record { receipt = x.receipt; store = u }))
            (sym same)
            (export-kept host again action_id d.key later s d.view x.receipt d.found d.keyed kept)
      | inr (none_kept, w) ↦
          written-again host exporter again action_id d.key timestamp later s d.view x d.found
            d.keyed w
    ]
