-- ===== src/Lib.antt =====
-- VeriClose: a verification library of the reconciliation core.
--
-- The program reads the rows of a payment gateway, a bank and a ledger as canonical events, and for
-- each settlement of the gateway proves, or fails to prove, that the bank received it and that the
-- ledger posted it. What is proved under the policy is cleared with no person; the rest becomes a
-- case for review. The library models the domain and the reconciliation kernel as functions, with
-- the error that a constructor or a lookup raises as a value of `Result`.
--
-- Files, and the code that they model:
--   Prelude: what the components share. Integers of the code are the native ℕ where a constructor
--     keeps them from being negative, and ℤ with its own operations elsewhere; Python's integers
--     have no bound, so nothing wraps. Comprehensions, `all`, `sorted` and `dict.fromkeys` are
--     `filter`, `all`, `sort_by` and `dedup`; texts are read by their code points, and `upper`,
--     `strip` and `isalpha` are written for the characters that can still pass the checks of the
--     currency code.
--   Domain: core/vericlose/domain. A frozen dataclass is a record and `__post_init__` a function.
--     Enums (enums.py), Money (money.py), Events (events.py), Evidence (evidence.py), Decisions
--     (decisions.py), Exceptions (exceptions.py), Runs (runs.py), Actions (actions.py). Lifecycle
--     below Runs and Actions states `transition` and `with_files` as step relations.
--   Reconciliation: core/vericlose/reconciliation. Policy (policy.py: the record and
--     its lookups; Yaml, Entries and Load below it are `load_policy` from the parsed file, and Frozen
--     is that file), Proposals (proposals.py), Indexes (indexes.py), Context (context.py), Grouping
--     (rules/grouping.py), Rules/Support (rules/support.py), Rules/Checks, Rules/Gateway, Rules/Bank,
--     Rules/Erp and Rules/Settlement (rules/settlement.py: the three steps of `analyze_settlement`
--     and its end), RiskGate (risk_gate.py), ExceptionFactory (exception_factory.py), Pipeline
--     (pipeline.py; below it Rounds, Turns and Parts take a run apart). Clearance says what a clearance
--     has to mean without the checks of the code.
--
--   Application: core/vericlose/application and what it stands on. Audit (audit/events.py), Store and
--     Store/Reviews (infrastructure/duckdb/repositories.py: a table is the list of its rows, the
--     latest first, a query a function of it, and an insertion fails where its key is taken), Cases
--     (application/review_cases.py), Workflow (application/actions.py: Propose, Review, Export,
--     Download, and Journals for the journals they build), Reconcile
--     (application/run_reconciliation.py). Below Store: Latest (what a run lists after a snapshot),
--     Appends and Grows. Below Workflow: Found, Proposed, Repeated, Payload (an edit of a payload),
--     Reviewed, Judged (the branches of a review), Exported, Posted, MissingPosting, Reversed and Log
--     (the snapshots as a log), Reached and Approved (every operation as a step of the store). Below
--     Reconcile: Inserted, Kept, Finished, Stored and Ended.
--
--   Ingestion: from the rows of a file to events. Mappings (ingestion/mappings.py: profiles, `bind`
--     and the score), Contracts (ingestion/contracts.py), Validation and
--     Normalization (adapters/base.py: `validate` and `normalize` over the abstract methods of an
--     adapter). Below them Score, Disposed and Complete.
--
-- `reconcile` builds the context, analyses one settlement reference after another, each with the
-- bank events that the earlier ones consumed, makes orphans of what is left, and puts every proposal
-- before `decide`. Analyses read the indexes, the policy and the grouping; only `decide` gives a
-- disposition.
--
-- An operation of a service reads the store, and writes it in one transaction: a function to a
-- `Result`, whose error leaves the store as it was. `review` reads once more after its transaction,
-- and `run` has two transactions and a third after a failure, so these give an `Outcome`, the result
-- with the store that is left.
--
-- No function runs on fuel: the loops are over lists and recurse on them. The search for a group is
-- bounded by the policy.
--
-- Parameters (Reconciliation/Platform): SHA-256, `str.lower` and the ratio of difflib with the
-- rounding of its product; nothing is assumed of them. `load_policy` takes `str` of a value that is
-- not a text as an argument. `Application/Host` has what the services ask of the `datetime` module
-- and `int` of a text; the exporter is the port of core/vericlose/ports/action_exporter.py, and its
-- files are not part of the store. The time of a call is an argument. A datetime is its date, the time in it and whether it has an offset.
--
-- Not modelled: the timings of the pipeline, which read a clock; opening and parsing a policy file;
-- the text of a payload in a table, which is the value that it encodes; the tables of source files,
-- investigations and ingestion; corrections, artifacts, imports and the demo; the wire format, the
-- rows of each source, the transforms and the reading of files; the investigation, the local files,
-- the HTTP API, the web client, the generators of test data and the evaluation.
pub mod Prelude
pub mod Domain
pub mod Reconciliation
pub mod Application
pub mod Ingestion
