-- ===== src/Application/Reconcile/Finished.antt =====
-- core/vericlose/application/run_reconciliation.py: how a run that has started ends.
use Prim.Native.String.append
use veri_close.Prelude.{
  ◌+◌, ◌≡◌, ◌∙◌, refl, sym, subst, String, str_append, str_eq, str_ℕ, length, Bool, true, false,
  ◌&&◌, some, List, [], ◌∷◌, ok, arith, any, first, Result-cases, inl, inr, eq_iff, is_blank,
  is_blank-append,
}
use veri_close.Domain.Enums.{RunState}
use veri_close.Domain.Events.{DateTime, require_text, require_aware}
use veri_close.Domain.Runs.{RunManifest, run_manifest, transition}
use veri_close.Reconciliation.Policy.{ReconciliationPolicy}
use veri_close.Application.Audit.{AuditEvent, audit_event}
use veri_close.Application.Reconcile.{Started, is_validated, audit, start_run}
use veri_close.Application.Store.{Store, append_run, get_run, last_snapshot, of_run, list_events}
use veri_close.Application.Store.Appends.{append_audit-inv, audit_event-same}
use veri_close.Application.Store.Reviews.{append_audit}

pub append_left_cancel : (r a b : String) → str_append r a ≡ str_append r b → a ≡ b
append_left_cancel String.[] a b h = sym (append.nil a) ∙ h ∙ append.nil b
append_left_cancel (String.◌∷◌ c r) a b h =
    let h' : String.◌∷◌ c (str_append r a) ≡ String.◌∷◌ c (str_append r b) =
      sym (append.cons c r a) ∙ h ∙ append.cons c r b in
    append_left_cancel r a b (ground arith)

last_snapshot-append_run :
    (m : RunManifest) (s : Store)
    → last_snapshot (of_run m.run_id) (append_run m s).runs
      ≡ last_snapshot (of_run m.run_id) s.runs + 1
unfolding append_run last_snapshot of_run
last_snapshot-append_run m s = ground (arith, eq_iff m.run_id m.run_id)

-- The manifest of a run is the one that was appended last.
pub get_run-append_run : (m : RunManifest) (s : Store) → get_run m.run_id (append_run m s) ≡ some m
unfolding get_run append_run of_run first
get_run-append_run m s = ground (arith, eq_iff m.run_id m.run_id, last_snapshot-append_run m s)

pub get_run-same : (id : String) (s t : Store) → t.runs ≡ s.runs → get_run id t ≡ get_run id s
unfolding get_run
get_run-same id s t e = rw e refl

audit_event-facts :
    (e f : AuditEvent)
    → audit_event e ≡ ok f
    → (is_blank e.run_id ≡ false) × (e.occurred_at.aware ≡ true)
unfolding audit_event require_text require_aware
audit_event-facts e f h = (ground arith, ground arith)

abbrev pub run_event : String → String → String → DateTime → List (String × String) → AuditEvent
run_event suffix run_id event_type timestamp details = record {
  audit_id = str_append run_id suffix;
  run_id = run_id;
  event_type = event_type;
  occurred_at = timestamp;
  details = details;
}

-- the test of the key of an audit event
abbrev pub logged_as : String → String → AuditEvent → Bool
logged_as run_id audit_id e = str_eq e.run_id run_id && str_eq e.audit_id audit_id

-- An event can be logged where its texts are not blank, its time is aware and its key is new.
pub audit-logs :
    (suffix run_id event_type : String) (timestamp : DateTime) (details : List (String × String))
    (s : Store)
    → is_blank run_id ≡ false
    → is_blank event_type ≡ false
    → timestamp.aware ≡ true
    → any (logged_as run_id (str_append run_id suffix)) s.audit ≡ false
    → audit suffix run_id event_type timestamp details s
      ≡ ok (record s { audit = run_event suffix run_id event_type timestamp details ∷ s.audit })
unfolding audit audit_event require_text require_aware append_audit
audit-logs suffix run_id event_type timestamp details s b c d e =
    ground (arith, is_blank-append run_id suffix b)

pub run_manifest-state :
    (m n : RunManifest) (a b : RunState)
    → run_manifest (record m { state = a }) ≡ ok n
    → run_manifest (record m { state = b }) ≡ ok (record m { state = b })
unfolding run_manifest
run_manifest-state m n a b h = ground arith

-- What the first transaction establishes.
pub record IsStarted (m : RunManifest) (run_id : String) (timestamp : DateTime) (s : Store)
    (x : Started) : Type 0 where
  pub validated : m.state ≡ RunState.validated
  pub manifest : x.manifest ≡ record m { state = RunState.reconciling }
  pub valid : run_manifest (record m { state = RunState.reconciling }) ≡ ok x.manifest
  pub events : x.events ≡ list_events run_id s
  pub text : is_blank run_id ≡ false
  pub aware : timestamp.aware ≡ true
  pub event : AuditEvent
  pub named : event.audit_id ≡ str_append run_id ":reconciliation-started"
  pub store : x.store ≡ record (append_run x.manifest s) { audit = event ∷ s.audit }

pub audit-inv :
    (suffix run_id event_type : String) (timestamp : DateTime) (details : List (String × String))
    (s t : Store)
    → audit suffix run_id event_type timestamp details s ≡ ok t
    → (is_blank run_id ≡ false)
      × (timestamp.aware ≡ true)
      × (t ≡ record s { audit = run_event suffix run_id event_type timestamp details ∷ s.audit })
unfolding audit
audit-inv suffix run_id event_type timestamp details s t h =
    let e = run_event suffix run_id event_type timestamp details in
    elim (Result-cases (audit_event e)) [
      | inr (er, f) ↦ absurd (ground arith)
      | inl (event, built) ↦
          let last : append_audit event s ≡ ok t = ground arith in
          let (text, aware) = audit_event-facts e event built in
          (
            text,
            aware,
            append_audit-inv event s t last ∙ rw (sym (audit_event-same e event built)) refl,
          )
    ]

pub transition-valid :
    (m n : RunManifest) (next : RunState)
    → transition m next ≡ ok n
    → (n ≡ record m { state = next }) × (run_manifest (record m { state = next }) ≡ ok n)
unfolding transition run_manifest
transition-valid m n next h = (ground arith, ground arith)

is_validated-eq : (s : RunState) → is_validated s ≡ true → s ≡ RunState.validated
is_validated-eq RunState.validated h = refl
is_validated-eq s h = cc

pub start_run-IsStarted :
    (policy : ReconciliationPolicy) (run_id : String) (timestamp : DateTime) (s : Store)
    (x : Started) (m : RunManifest)
    → get_run run_id s ≡ some m
    → start_run policy run_id timestamp s ≡ ok x
    → IsStarted m run_id timestamp s x
unfolding start_run append_run
start_run-IsStarted policy run_id timestamp s x m found h =
    elim (Result-cases (transition m RunState.reconciling)) [
      | inr (er, f) ↦ absurd (ground arith)
      | inl (r, moved) ↦
          let details : List (String × String) =
            ("event_count", str_ℕ (length (list_events run_id s))) ∷ [] in
          elim (Result-cases (
            audit ":reconciliation-started" run_id "RECONCILIATION_STARTED" timestamp details
              (append_run r s))) [
                | inr (er, f) ↦ absurd (ground arith)
                | inl (t, logged) ↦
                    let (text, aware, store) =
                      audit-inv ":reconciliation-started" run_id "RECONCILIATION_STARTED" timestamp
                        details (append_run r s) t logged in
                    let (same, valid) = transition-valid m r RunState.reconciling moved in
                    let built : record { manifest = r; events = list_events run_id s; store = t }
                        ≡ x =
                      ground arith in
                    subst (IsStarted m run_id timestamp s) built (record {
                      validated = is_validated-eq m.state (ground arith);
                      manifest = same;
                      valid = valid;
                      events = refl;
                      text = text;
                      aware = aware;
                      event =
                          run_event ":reconciliation-started" run_id "RECONCILIATION_STARTED"
                            timestamp details;
                      named = refl;
                      store = store;
                    })
              ]
    ]
