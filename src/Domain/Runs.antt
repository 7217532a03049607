-- ===== src/Domain/Runs.antt =====
-- core/vericlose/domain/runs.py. `replace` runs the constructor again.
pub mod Lifecycle
use veri_close.Prelude.{
  String, Bool, true, false, not, ◌||◌, List, [], ◌∷◌, map, ℤ, pos, Result, ok, value_error, ◌>>=◌,
  ◌>>◌, raise_if, ltb_ℤ, nat_eq, is_blank, any, length, non_empty, contains, dedup, dedup_from,
}
use veri_close.Domain.Enums.{SourceType, RunState}
use veri_close.Domain.Events.{DateTime, require_text, require_sha256, require_aware}

pub record SourceFile : Type 0 where
  pub file_id : String
  pub source_type : SourceType
  pub sha256 : String
  pub original_name : String
  pub size_bytes : ℤ
  pub uploaded_at : DateTime

unfoldable pub source_file : SourceFile → Result SourceFile
unfolding require_text require_sha256 require_aware
source_file f = do
  require_text f.file_id "file_id"
  require_text f.original_name "original_name"
  require_sha256 f.sha256 "sha256"
  raise_if (ltb_ℤ f.size_bytes (pos 0)) (value_error "size_bytes cannot be negative")
  require_aware f.uploaded_at "uploaded_at"
  ok f

-- `RunState.value`; a StrEnum member equals its value
abbrev pub run_state_value : RunState → String
run_state_value RunState.created = "CREATED"
run_state_value RunState.files_attached = "FILES_ATTACHED"
run_state_value RunState.validated = "VALIDATED"
run_state_value RunState.reconciling = "RECONCILING"
run_state_value RunState.completed = "COMPLETED"
run_state_value RunState.failed_validation = "FAILED_VALIDATION"
run_state_value RunState.failed = "FAILED"
run_state_value RunState.cancelled = "CANCELLED"

-- ALLOWED_TRANSITIONS
abbrev pub allowed_transitions : RunState → List RunState
allowed_transitions RunState.created = RunState.files_attached ∷ RunState.cancelled ∷ []
allowed_transitions RunState.files_attached =
    RunState.validated ∷ RunState.failed_validation ∷ RunState.cancelled ∷ []
allowed_transitions RunState.validated = RunState.reconciling ∷ RunState.cancelled ∷ []
allowed_transitions RunState.reconciling =
    RunState.completed ∷ RunState.failed ∷ RunState.cancelled ∷ []
allowed_transitions RunState.completed = []
allowed_transitions RunState.failed = []
allowed_transitions RunState.failed_validation = []
allowed_transitions RunState.cancelled = []

-- next_state in ALLOWED_TRANSITIONS[state]
unfoldable pub run_step_allowed : RunState → RunState → Bool
unfolding contains
run_step_allowed state next_state =
    contains (run_state_value next_state) (map run_state_value (allowed_transitions state))

pub record RunManifest : Type 0 where
  pub run_id : String
  pub state : RunState
  pub seed : ℤ
  pub policy_version : String
  pub rule_version : String
  pub mapping_versions : List (String × String)
  pub input_files : List SourceFile
  pub build_commit : String
  pub created_at : DateTime

blank_pair : String × String → Bool
unfolding is_blank
blank_pair (source, version) = is_blank source || is_blank version

abbrev source_name : String × String → String
source_name (source, version) = source

-- RunManifest.__post_init__
unfoldable pub run_manifest : RunManifest → Result RunManifest
unfolding require_text require_aware any blank_pair dedup_from
run_manifest m = do
  require_text m.run_id "run_id"
  require_text m.policy_version "policy_version"
  require_text m.rule_version "rule_version"
  require_text m.build_commit "build_commit"
  raise_if (ltb_ℤ m.seed (pos 0)) (value_error "seed cannot be negative")
  require_aware m.created_at "created_at"
  raise_if (any blank_pair m.mapping_versions)
      (value_error "mapping_versions must contain non-blank (source, version) pairs")
  raise_if
      (not
        (nat_eq (length (dedup (map source_name m.mapping_versions))) (length m.mapping_versions)))
      (value_error "mapping_versions source names must be unique")
  ok m

-- RunManifest.transition
unfoldable pub transition : RunManifest → RunState → Result RunManifest
unfolding run_step_allowed
transition m next_state = do
  raise_if (not (run_step_allowed m.state next_state)) (value_error "Invalid transition")
  run_manifest (record m { state = next_state })

abbrev pub is_created : RunState → Bool
is_created RunState.created = true
is_created _ = false

-- RunManifest.with_files
unfoldable pub with_files : RunManifest → List SourceFile → Result RunManifest
unfolding transition run_manifest dedup_from
with_files m files = do
  raise_if (not (is_created m.state)) (value_error "files can only be attached from CREATED")
  raise_if (not (non_empty files)) (value_error "at least one source file is required")
  raise_if
      (not (nat_eq (length (dedup (map (λ (f : SourceFile). f.file_id) files))) (length files)))
      (value_error "source file IDs must be unique")
  attached ← run_manifest (record m { input_files = files })
  transition attached RunState.files_attached
