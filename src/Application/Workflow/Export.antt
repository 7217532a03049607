-- ===== src/Application/Workflow/Export.antt =====
-- core/vericlose/application/actions.py: ActionService.export and download, over the port of
-- core/vericlose/ports/action_exporter.py. The bytes of an artifact are its code points.
use veri_close.Prelude.{
  ℕ, String, str_append, Bool, true, false, not, none, some, List, [], ◌∷◌, Result, ok, key_error,
  value_error, ◌>>=◌, ◌>>◌, raise_if, or_raise, str_ℕ,
}
use veri_close.Domain.Actions.{
  ProposedAction, ActionReceipt, action_receipt, transition, StringPairs,
}
use veri_close.Domain.Enums.{ActionState}
use veri_close.Domain.Events.{DateTime}
use veri_close.Reconciliation.Policy.{get}
use veri_close.Application.Audit.{audit_event}
use veri_close.Application.Host.{Host, digest_20}
use veri_close.Application.Store.{Store}
use veri_close.Application.Store.Reviews.{append_action, append_receipt, append_audit, find_receipt}
use veri_close.Application.Workflow.{ActionView, get_action, dict_of}

pub record ExportedArtifact : Type 0 where
  pub relative_path : String
  pub media_type : String
  pub sha256 : String
  pub size_bytes : ℕ

-- The port: what it answers. The files that it keeps are not the service's state.
pub record ActionExporter : Type 0 where
  pub export : String → ProposedAction → Result ExportedArtifact
  pub read : ExportedArtifact → Result (List ℕ)

pub record ExportResult : Type 0 where
  pub receipt : ActionReceipt
  pub store : Store

abbrev pub is_approved : ActionState → Bool
is_approved ActionState.approved = true
is_approved _ = false

-- dict(payload)[key]
unfoldable pub payload_value : StringPairs → String → Result String
payload_value payload key = or_raise (get (dict_of payload) key) (key_error "payload")

-- the receipt before its constructor's checks
unfoldable pub receipt_of :
    Host → String → String → String → DateTime → ExportedArtifact → ActionReceipt
receipt_of host run_id action_id key timestamp artifact = record {
  receipt_id = str_append "receipt_" (digest_20 host (run_id ∷ action_id ∷ key ∷ []));
  action_id = action_id;
  idempotency_key = key;
  executed_at = timestamp;
  result_payload =
      ("relative_path", artifact.relative_path)
      ∷ ("media_type", artifact.media_type)
      ∷ ("sha256", artifact.sha256)
      ∷ ("size_bytes", str_ℕ artifact.size_bytes)
      ∷ [];
}

-- the transaction of ActionService.export
unfoldable pub save_export : String → ProposedAction → ActionReceipt → String → Store → Result Store
save_export run_id exported receipt sha256 store = do
  received ← append_receipt run_id receipt (append_action run_id exported store)
  event ← audit_event (record {
    audit_id = str_append "audit_" receipt.receipt_id;
    run_id = run_id;
    event_type = "ACTION_EXPORTED";
    occurred_at = receipt.executed_at;
    details =
        ("action_id", receipt.action_id)
        ∷ ("receipt_id", receipt.receipt_id)
        ∷ ("sha256", sha256)
        ∷ [];
  })
  append_audit event received

-- the rest of ActionService.export, without a receipt of the key
unfoldable pub export_new :
    Host → ActionExporter → String → ActionView → String → DateTime → Store → Result ExportResult
export_new host exporter action_id view key timestamp store = do
  raise_if (not (is_approved view.action.state))
      (value_error "an action must be explicitly approved before export")
  artifact ← exporter.export view.run_id view.action
  receipt ← action_receipt (receipt_of host view.run_id action_id key timestamp artifact)
  exported ← transition view.action ActionState.exported
  stored ← save_export view.run_id exported receipt artifact.sha256 store
  ok (record { receipt = receipt; store = stored })

-- ActionService.export
unfoldable pub export : Host → ActionExporter → String → DateTime → Store → Result ExportResult
export host exporter action_id timestamp store = do
  view ← get_action host action_id store
  key ← payload_value view.action.payload "idempotency_key"
  elim (find_receipt view.run_id key store) [
    | some existing ↦ ok (record { receipt = existing; store = store })
    | none ↦ export_new host exporter action_id view key timestamp store
  ]
