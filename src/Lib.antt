-- ===== src/Lib.antt =====
-- Locutus rolls objects out to a Kubernetes cluster. A trigger asks for a rollout; a renderer makes
-- objects and a rollout of groups of steps; the runner does each step's action to an object and
-- then checks its success; the outcome goes back to the object that triggered the rollout, and a
-- failure or a timeout to a database.
--
-- Which file models which part:
--   Env               what the program calls and does not implement: the API server, discovery,
--                     the accessors of unstructured objects, jsonpath, go-cmp, wait.Poll, time,
--                     pgx. Env/Laws holds the documented behaviour that some theorems assume of it
--   Outcome           how a function ends: a result, a Go error or a panic
--   Maps, Value       maps as association lists; interface{} values and reflect.DeepEqual
--   Client            client/client.go. Client/Defaults: DefaultUpdatePreparations and
--                     DefaultUpdateChecks. Client/Discovery: ClientFor and UpdateWithCurrent
--   Rollout/Types     rollout/types/types.go and render/types.go; Rollout/Durations: the JSON form
--                     of Duration
--   Rollout/Actions   rollout/actions.go
--   Rollout/Checks    rollout/checks/. Checks/Defs: findResult, NewCheckRunner's paths,
--                     currentValues, checkComparisons. Checks/Runner: NewChecks, RunChecks, Execute
--                     with its two polls, checkFailed and the reports. Checks/JobOom: job_oom.go
--   Rollout/Runner    rollout/rollout.go. Runner/Objects: executeAction. Runner/Steps: runStep and
--                     a group. Runner/Execution: Execute. Runner/Goroutines: how the goroutines
--                     of a parallel group interleave
--   Rollout/Config    rollout.Config, and config/file_config.go
--   Feedback          feedback/feedback.go; Feedback/Board: an abstract view of it
--   Trigger           trigger/trigger.go, trigger/oneoff/, trigger/interval/. Trigger/Database:
--                     trigger/database/database.go, its bookkeeping, in Query its query and its
--                     loops, and in Running its goroutines. Trigger/Resource:
--                     trigger/resource/handlers.go, and in Setup, Worker and Running
--                     trigger/resource/resource.go
--   Db                db/config.go and source/crdb/client.go. Db/Opening: FromFile and NewClient.
--                     Db/Rows: the rows of a query
--   Source            source/crdb.go
--   Render            Render/File: render/file/file.go. Render/Jsonnet: render/jsonnet/jsonnet.go.
--                     Render/Texts: the functions of Go's strings that they use
--   Cli               cli/cli.go: how Main wires the components. Cli/Parsing: the flags.
--                     Cli/Running: the run group and the exit code
-- The theorems stand in the modules below a component, those on the runner in Rollout/Runs. Tests
-- has a small cluster in memory on which the program runs.
--
-- Stateful code is a function from a state to an outcome and a new state. `World` is all that lies
-- outside of the process. An action has the object at hand beside it (`World × Obj`), since the
-- update preparations change it in place; a step has the objects of the render result beside it,
-- which its action may change; the feedback has its own fields.
--
-- Bounds: executeAction calls itself on the items of a list object. It is on fuel, one more than
-- the depth of the object, and enough where items are less deep than their list. The interval
-- trigger and the database trigger run for the number of ticks before their context is done. The
-- goroutines of a parallel group take their steps as a list of moves names them: a goroutine has
-- five moves at most, and a move that it cannot make changes nothing. Every other loop is
-- recursion on a list. wait.Poll is a parameter, of which the laws say that it tries its condition
-- some number of times.
--
-- What the model leaves out: logs, observed durations, contexts. In Execute the goroutines of a
-- parallel group run one after the other, each to its end, in an order that the environment
-- chooses; Rollout/Runner/Goroutines has every way in which they interleave, where a choice names
-- the goroutine that moves and what its step returns. A Go map is visited in the order of
-- insertion. An error that the program formats is its format and the names in it. DeepEqual's
-- shortcut for two references to one value is left out. rows.Err is not a part of the rows, since
-- nothing reads it. A timer, a directory walk, a decoder, the jsonnet VM, the database driver, the
-- work queue, an informer, the parsers of flags and the group of actors are parameters. The file
-- config passer changes a configuration that it has a pointer to; only an execution behind it in
-- the same register would see that, and each trigger has one execution. Run of the resource
-- trigger is a sequence of changes that its informers report and of steps of its worker; Run of the
-- database trigger is one of ticks of its triggers and of executions of its runs, and each check
-- and each execution is one step of it. Of the flags the model has what each name and value sets,
-- and its default.
--
-- Not modelled: the flag package, the handlers of the HTTP server and the registry of metrics
-- (cli/cli.go, main.go), which keep no state of the program; and generated code
-- (feedback/deepcopy_generated.go).
pub mod Prelude
pub mod Outcome
pub mod Maps
pub mod Value
pub mod Env
pub mod Db
pub mod Client
pub mod Feedback
pub mod Rollout
pub mod Trigger
pub mod Source
pub mod Render
pub mod Cli
pub mod Tests
