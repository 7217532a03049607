-- ===== src/Application/Workflow/Download.antt =====
-- core/vericlose/application/actions.py: ActionService.download.
use veri_close.Prelude.{
  ℕ, String, String, Bool, nat_eq, Option, none, some, List, [], ◌∷◌, ◌++◌, Result, ok,
  lookup_error, ◌>>=◌, or_raise, first, codes, if◌then◌else◌,
}
use veri_close.Domain.Actions.{ActionReceipt}
use veri_close.Application.Host.{Host}
use veri_close.Application.Store.{Store}
use veri_close.Application.Workflow.{get_action}
use veri_close.Application.Workflow.Journals.{starts_with}
use veri_close.Application.Workflow.Export.{ExportedArtifact, ActionExporter, payload_value}

pub record ActionDownload : Type 0 where
  pub filename : List ℕ
  pub media_type : String
  pub content : List ℕ
  pub receipt : ActionReceipt

-- reversed(items)
unfoldable pub reversed : {A : Type 0} → List A → List A
reversed [] = []
reversed (x ∷ xs) = reversed xs ++ x ∷ []

-- path.rsplit("/", 1)[-1], on code points
unfoldable pub after_slash : List ℕ → Option (List ℕ)
after_slash [] = none
after_slash (c ∷ cs) = elim (after_slash cs) [
  | some later ↦ some later
  | none ↦ if nat_eq c b'/' then some cs else none
]

unfoldable pub base_name : List ℕ → List ℕ
base_name path = elim (after_slash path) [ some name ↦ name | none ↦ path ]

-- receipt.idempotency_key.startswith("export:")
unfoldable pub is_export_receipt : ActionReceipt → Bool
is_export_receipt r = starts_with (codes "export:") (codes r.idempotency_key)

-- the artifact of a receipt
unfoldable pub artifact_of : Host → ActionReceipt → Result ExportedArtifact
artifact_of host receipt = do
  relative_path ← payload_value receipt.result_payload "relative_path"
  media_type ← payload_value receipt.result_payload "media_type"
  sha256 ← payload_value receipt.result_payload "sha256"
  size ← payload_value receipt.result_payload "size_bytes"
  size_bytes ← host.parse_int size
  ok (record {
    relative_path = relative_path;
    media_type = media_type;
    sha256 = sha256;
    size_bytes = size_bytes;
  })

-- ActionService.download
unfoldable pub download : Host → ActionExporter → String → Store → Result ActionDownload
download host exporter action_id store = do
  view ← get_action host action_id store
  receipt ←
      or_raise (first is_export_receipt (reversed view.receipts))
        (lookup_error "no exported artifact")
  artifact ← artifact_of host receipt
  content ← exporter.read artifact
  ok (record {
    filename = base_name (codes artifact.relative_path);
    media_type = artifact.media_type;
    content = content;
    receipt = receipt;
  })
