-- ===== src/Lib.antt =====
-- Verification library of the DE-Framework repository: the harness that runs budgeted
-- self-refinement over agent sessions, the proxy that shields its provider credentials, the
-- storage of attempts, and the checks at the edges (launch selection, estimator inputs).
--
-- How the parts interact. A launch (launcher/models.py) gives a problem and a budget. Recovery
-- (harness/self_refine/recovery.py) opens the attempt and calls the loop of
-- harness/self_refine/self_refine.py, which runs phases on an agent session
-- (harness/session/agent_session.py), reads its usage events, freezes a solution at each budget
-- label, and checkpoints between phases. Requests of the session's container pass the proxy
-- (harness/proxy/proxy.py), which picks credentials from a shared pool
-- (harness/proxy/credential_pool.py); the container itself is a worker of harness/sandbox/. The
-- launchers (launcher/launcher/) prepare the attempts of a batch and run them, and the audits of
-- their stored solutions (audit/). Audited runs become the counts of frameworks/.
--
-- Files and code.
--   Exec: methods that mutate an object and may raise; the state comes back beside an error.
--   Text: the string methods that the code calls (strip, splitlines, split) on code points.
--   Refine.State, Refine.Budget, Refine.Phases: harness/self_refine/models.py and self_refine.py,
--     with `Recovery.checkpoint` and `Recovery.restore`. A `Turn` holds what the session, the
--     storage and the provider do in one pass; `World` holds the live state and the saved one.
--   Refine.{Labels, Valid, Capture, Durable, Passes, Progress, Run, Saved}: the proofs about them.
--   Session.Event, Session.Usage, Session.Errors: harness/session/models.py (events),
--     token_usage.py and errors.py.
--   Session.Agent: harness/session/agent_session.py. The generator is an explicit state: where it
--     suspends at a yield, the rest of the turn is kept, and the next input resumes it.
--   Session.Connection: the lifecycle and the buffer of harness/session/connection_manager.py.
--   Session.Options, Session.Tools: its constructor's checks and `_get_options`, and the settings of
--     harness/session/constants.py.
--   Json, Session.State: the checkpoint of harness/session/models.py, as a JSON value.
--   Storage.Continue, Storage.Archive, Storage.Runtime, Storage.Manager: the methods of
--     harness/session/session_manager.py over one seed directory, and `create_runtime` of
--     harness/utils/storage.py. `Io` holds the outcomes of the file operations that may fail.
--   Storage.Manager.{Durable, Cell, Refinement, Operations}: the durable cell that they implement.
--   Storage.Retry: the retry loop of harness/self_refine/recovery.py, harness/utils/retry.py.
--   Proxy.Pool: harness/proxy/credential_pool.py; one round of `acquire` between two waits.
--   Proxy.Requests, Proxy.Gateway: harness/proxy/proxy.py, request_policy.py, and the
--     authentication header of harness/proxy/models.py.
--   Storage.Recovery: `Recovery.run` and `SelfRefine.run` over the stored progress of a seed.
--   Frameworks.Counts: `_cumulative_successes` of frameworks/utils/dataloader.py, and the checks
--     of `Observation` in frameworks/models.py.
--   Frameworks.Loader: the rest of dataloader.py, and `InputSelection` of frameworks/models.py.
--   Frameworks.Base: frameworks/base/base_framework.py. Frameworks.Estimators:
--     frameworks/geometric/simple_geometric.py and
--     frameworks/discovery_execution/discovery_execution.py, over Frameworks.Fractions (exact
--     arithmetic) and Frameworks.Subsets (`math.comb`). Frameworks.Sound: what accepted
--     observations satisfy.
--   Experiments: harness/utils/prompt_loader.py, the prompts of self_refine.py, and experiments/.
--   Launcher.Directory, Launcher.Config: launcher/models.py and experiments/unaided.py.
--   Launcher.Dataset: launcher/dataset.py. Launcher.Provider: launcher/provider.py, and the checks of
--     harness/proxy/models.py. Launcher.Batch: launcher/launcher/base.py, with the tasks
--     of a batch as a step relation. Launcher.Attempts: the preparation of attempts in
--     launcher/launcher/run_launcher.py, audit_launcher.py and continuation_launcher.py.
--   Audit.Models, Audit.Reuse, Audit.Runner: audit/models.py, audit/storage.py and
--     audit/audit_runner.py. A stage's sandbox and its result are an argument.
--   Audit.Judge: audit/base_audit.py, with `fresh_runtime` and `atomic_write` of
--     harness/utils/storage.py as far as it needs them.
--   Sandbox: harness/sandbox/sandbox.py, over a host state on which Docker acts.
--
-- Bounds and fuel. Python integers are unbounded, and so are the numbers here. The loops over
-- phases, attempts and inputs run on lists of what their environment does, one entry for each
-- turn of the loop, so no further fuel is needed. Division by a block of tokens is by floats in the source,
-- which is exact below 2 ^ 53. The estimators compute with floats in the source and with exact
-- fractions here; a difference below zero, which the fractions do not represent, raises, and it is
-- a theorem that none arises.
--
-- Not modelled: HTTP bodies, the text of JSON and its schemas (a value of the wrong type
-- counts as malformed, and a schema is a parameter of the gateway), the SDK and its process, the
-- options of Docker commands, file modes and file operations other than those named, the regularised
-- estimators (numerical optimisation), the output of the framework runner, the prompts of the
-- judges, the compiled exports of audits, the parsing of endpoints and setup scripts.
pub mod Prelude
pub mod Exec
pub mod Text
pub mod Json
pub mod Session
pub mod Refine
pub mod Experiments
pub mod Proxy
pub mod Storage
pub mod Frameworks
pub mod Launcher
pub mod Audit
pub mod Sandbox
