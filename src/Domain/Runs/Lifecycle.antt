-- ===== src/Domain/Runs/Lifecycle.antt =====
-- The lifecycle of a run: `transition` and `with_files` of domain/runs.py as a step relation.
use veri_close.Prelude.{
  Result-cases, inl, inr, ◌≤◌, ◌≡◌, refl, List, [], ◌∷◌, ok, arith, true, length, subst,
}
use veri_close.Domain.Enums.{RunState}
use veri_close.Domain.Runs.{
  SourceFile, RunManifest, run_manifest, run_step_allowed, transition, with_files,
}

-- One call that changed the manifest.
pub data RunStep (m : RunManifest) : RunManifest → Type 0 where
  moved : (next_state : RunState) {n : RunManifest} → transition m next_state ≡ ok n → RunStep m n
  attached : (files : List SourceFile) {n : RunManifest} → with_files m files ≡ ok n → RunStep m n

-- What no step touches.
pub record SameRun (m n : RunManifest) : Type 0 where
  pub run_id : m.run_id ≡ n.run_id
  pub seed : m.seed ≡ n.seed
  pub policy_version : m.policy_version ≡ n.policy_version
  pub rule_version : m.rule_version ≡ n.rule_version
  pub mapping_versions : m.mapping_versions ≡ n.mapping_versions
  pub build_commit : m.build_commit ≡ n.build_commit

-- What a step establishes: a legal move of the state, of the same run.
pub record Moved (m n : RunManifest) : Type 0 where
  pub legal : run_step_allowed m.state n.state ≡ true
  pub same : SameRun m n

run_manifest_same : (m n : RunManifest) → run_manifest m ≡ ok n → m ≡ n
unfolding run_manifest
run_manifest_same m n h = ground arith

transition_inv :
    (m n : RunManifest) (s : RunState)
    → transition m s ≡ ok n
    → (run_step_allowed m.state s ≡ true) × (record m { state = s } ≡ n)
unfolding transition
transition_inv m n s h = ground (arith, run_manifest_same (record m { state = s }) n)

transition-Moved : (m n : RunManifest) (s : RunState) → transition m s ≡ ok n → Moved m n
transition-Moved m n s h =
    let (legal, e) = transition_inv m n s h in
    subst (Moved m) e (record {
      legal = legal;
      same = record {
        run_id = refl;
        seed = refl;
        policy_version = refl;
        rule_version = refl;
        mapping_versions = refl;
        build_commit = refl;
      };
    })

with_files_inv :
    (m n : RunManifest) (files : List SourceFile)
    → with_files m files ≡ ok n
    → transition (record m { input_files = files }) RunState.files_attached ≡ ok n
unfolding with_files
with_files_inv m n files h =
    let k = record m { input_files = files } in
    elim (Result-cases (run_manifest k)) [
      | inl (k', built) ↦ let same : k ≡ k' = run_manifest_same k k' built in ground arith
      | inr (e, failed) ↦ ground arith
    ]

with_files-Moved :
    (m n : RunManifest) (files : List SourceFile) → with_files m files ≡ ok n → Moved m n
with_files-Moved m n files h =
    let k = record m { input_files = files } in
    let w = transition-Moved k n RunState.files_attached (with_files_inv m n files h) in
    record {
      legal = w.legal;
      same = record {
        run_id = w.same.run_id;
        seed = w.same.seed;
        policy_version = w.same.policy_version;
        rule_version = w.same.rule_version;
        mapping_versions = w.same.mapping_versions;
        build_commit = w.same.build_commit;
      };
    }

pub RunStep-Moved : {m n : RunManifest} → RunStep m n → Moved m n
RunStep-Moved {m = m} {n = n} (moved s h) = transition-Moved m n s h
RunStep-Moved {m = m} {n = n} (attached files h) = with_files-Moved m n files h

-- The states that a run has been in, the latest first.
pub data History : RunManifest → List RunState → Type 0 where
  fresh : (m : RunManifest) → m.state ≡ RunState.created → History m (RunState.created ∷ [])
  step :
      {m n : RunManifest} {past : List RunState}
      → History m past
      → RunStep m n
      → History n (n.state ∷ past)

-- The only way to each state; a cancelled run has stopped at any point before the end.
abbrev pub Trail : RunState → List RunState → Type 0
Trail RunState.created past = past ≡ RunState.created ∷ []
Trail RunState.files_attached past = past ≡ RunState.files_attached ∷ RunState.created ∷ []
Trail RunState.validated past =
    past ≡ RunState.validated ∷ RunState.files_attached ∷ RunState.created ∷ []
Trail RunState.reconciling past =
    past
    ≡ RunState.reconciling ∷ RunState.validated ∷ RunState.files_attached ∷ RunState.created ∷ []
Trail RunState.completed past =
    past
    ≡ RunState.completed ∷ RunState.reconciling ∷ RunState.validated ∷ RunState.files_attached
      ∷ RunState.created ∷ []
Trail RunState.failed past =
    past
    ≡ RunState.failed ∷ RunState.reconciling ∷ RunState.validated ∷ RunState.files_attached
      ∷ RunState.created ∷ []
Trail RunState.failed_validation past =
    past ≡ RunState.failed_validation ∷ RunState.files_attached ∷ RunState.created ∷ []
Trail RunState.cancelled past = length past ≤ 5

Trail-step :
    (s t : RunState) (past : List RunState)
    → run_step_allowed s t ≡ true
    → Trail s past
    → Trail t (t ∷ past)
unfolding run_step_allowed
Trail-step RunState.created RunState.files_attached past h p = ground arith
Trail-step RunState.files_attached RunState.validated past h p = ground arith
Trail-step RunState.validated RunState.reconciling past h p = ground arith
Trail-step RunState.reconciling RunState.completed past h p = ground arith
Trail-step s t past h p = ground arith

-- Whatever successful calls of `transition` and `with_files` a run has gone through since CREATED, it
-- reached its state by the one legal path: a completed run was FILES_ATTACHED, VALIDATED and
-- RECONCILING, in this order. A cancelled run has been in at most five states.
pub History-Trail : {m : RunManifest} {past : List RunState} → History m past → Trail m.state past
History-Trail (fresh m e) = rw e refl
History-Trail (step {m = m} {n = n} {past = past} before s) =
    Trail-step m.state n.state past (RunStep-Moved s).legal (History-Trail before)
