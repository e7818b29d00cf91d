-- ===== src/Lib.antt =====
-- The Universal Agent Middleware (UAM) lets agents hand tasks to each other over contracts, read
-- workspaces under a standing authority, and leave evidence of what was done.
--
-- What is modelled:
--   - Prelude: shared names, Boolean tests, texts, dictionaries, the Python values that entry points
--     validate.
--   - TaskControl (src/universal_agent_middleware/task_control.py): a requester delivers a contract to a
--     recipient, who starts fenced attempts under a lease and submits one result; either side's call
--     runs under a file lock. TaskControl.Model, .Wire: the records; .Validate: the checks of the
--     arguments; .Rules, .Changes: what a step does to a record; .Port: the world (the files of
--     deliveries, contract claims, results and the audit log) and the answers from outside; .Authority:
--     `_authorize` down to `_verdict`; .Lookup: what every operation starts with; .Requester: `deliver`,
--     `cancel`; .Recipient: `start_attempt`, `submit_result`, `end_attempt`; .Inbox: `inbox`; .Calls:
--     sequences of calls; .Proofs: the theorems; .Fixtures, .Tests: runs on concrete inputs.
--   - Audit (src/universal_agent_middleware/audit.py): the hash-chained log. Audit.Chain: the check of a
--     whole file; .Log: `_tail`, `append`, `verify`; .Proofs and .Tests.
--   - Scopes (src/universal_agent_middleware/root_scope.py and path_authority.py): the standing authority
--     over directories. Scopes.Root: scopes, `effective_authority`, `nested_scopes`; .Policy: the zones
--     beneath a workspace root and the guards on them; .Order: how a registry sorts its scopes; .Subtrees: the subtrees listed for git and the
--     walks; .Proofs, .Specific, .Excluded and .Tests. A resolved path is the list of
--     its components; what `Path.resolve` and `fold_name` answer is a parameter.
--   - Supervisor (src/universal_agent_middleware/supervisor.py): one recovery cycle. Supervisor.Cycle: the
--     budget of restarts, the classes of failures, `run_cycle`; .Proofs and .Tests. What the release check,
--     the policy file, the credential check, the Doctor, launchctl and the incident files answer in a cycle
--     is a parameter, the publishing of the verdict is its status only.
--   - Confinement (src/universal_agent_middleware/policy.py): which names are denied, and the paths that are
--     let through. Confinement.Names: the spellings of a name; .Paths: `ensure_relative_path`,
--     `resolve_safe_path`; .Proofs and .Tests. Unicode, regular expressions and the file system are
--     parameters.
--   - Consumer (src/universal_agent_middleware/consumer.py): the resident consumer on one delivery.
--     Consumer.Journal: the records and the ledger; .Reader: how the file is read in parts; .Rules: the policy; .Port: the world (journal, calls of
--     the control object, commands run, waiting) and what answers from outside; .Admit: `_admit`; .Stop:
--     `_stop_state`; .Compare: what changed since the baseline; .Settle: `_finalize` and `_submit`; .Handle:
--     `_handle` down to `_run_attempt`; .Guard: `_guarded` and the pool of jobs, whose threads act in any
--     order; .Proofs: Steps (what a method adds), Quiet, Calls, Reports, Admitted, Lives and Asked
--     (the live attempt, and the steps of a handling), Handling, Unproven, Stopping, Reading, Ledgers, Pools; .Fixtures, .Tests. A Refusal and another exception are values.
--   - Continuity (src/universal_agent_middleware/task_continuity.py): the pure rules of version-2 deliveries.
--     Continuity.Model: the records; .Validate: the checks of the arguments; .Evidence: stop evidence,
--     permission and unresolved effects, where `none` is the exception of a record that lacks an end;
--     .Binding: the authority binding and the identity of a delivery; .Views, .Package: what others are
--     shown; .Proofs: Permits, Settled, Identity, Requests, Blind; .Tests.
--
-- How the model stands to the code. A method of TaskControl is a function from a world to a result and a
-- world: an exception leaves what was written before it. The clock, the authority's verifier, the audit
-- sink, the contract store and the result store's checks answer from outside, each question anew, and
-- `Env` holds their answers. The calls of one process run one after the other, since each holds the lock;
-- `others` stands for what other processes write while `deliver` asks the authority without the lock.
-- Attempts, events and the lines of a log are kept newest first. An instant is a number of microseconds.
-- A number of attempts is bounded by the code's own limit; no definition needs fuel, since each loop of
-- the code runs over a list.
--
-- The consumer's methods are in a monad (World -> answer, Refusal or another exception, and World), and each
-- question to the surroundings may get another answer. One run of `_handle` is one thread; its journal has no
-- records of other consumers, and what other threads do is in the answers. The pool of jobs is apart: its
-- events come in any order. The journal's records keep the details that are read back.
--
-- Where the model stops short of the code: the journal of a handling is the list of its records, which
-- Consumer.Reader relates to the bytes of the file, and an append to it raises only in the handler of
-- `_guarded`; the functions of Scopes.Root and .Policy take the scopes in the order of the list that they are
-- given, and Scopes.Order says which one a registry keeps; the supervisor's instants are natural numbers of microseconds,
-- where the code has floats.
--
-- What is not modelled: the text of the stored files and system failures while one is written; `get` of task
-- control; the outcome file that `_persist_outcome` writes (the files of a job answer from outside), the texts of
-- a result and the parsing of a policy in consumer.py; the constant texts of a Context Package; the loading of
-- the configuration of the root scopes; and the other components of the package: discovery and index, the
-- workspace reader and searches, git observation, contracts and results, the gateway and the wire adapters, the
-- harness, the runtime and the release tools.
pub mod Prelude
pub mod Audit
pub mod Confinement
pub mod Consumer
pub mod Continuity
pub mod Scopes
pub mod Supervisor
pub mod TaskControl
