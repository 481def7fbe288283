-- ===== src/Lib.antt =====
-- The task graph of alice-core, the store that it runs on, and the policies around it.
--
-- A task is a plan of sub-tasks with a status, a budget and accumulated text. The walker of
-- engine/graph/runtime.go takes the latest snapshot of a task, hands its state to the node that the
-- snapshot's next step names, and commits the updates that the node returns; the store reduces them
-- onto the state and keeps a new snapshot and a task row. Cancellation, a spent budget and a panic
-- are commits of their own.
--
-- Hermes/Status, Hermes/Usage and Hermes/State model hermes/state.go, Hermes/Snapshot models
-- hermes/snapshot.go, and Hermes/Reducer with Reducer/Merge models hermes/reducer.go:
-- apply_state_updates is ApplyStateUpdates, a loop over the record Pending of its local variables.
-- Hermes/MemoryStore with MemoryStore/Rows models hermes/memory_store.go: each method is a function
-- of the store, of its arguments and of the time that it reads, and MemoryStore/Calls has the
-- methods that change the store as one data type. The mutex makes each method one step, so the calls
-- of several goroutines are one sequence of calls. hermesStateToTaskState of hermes/store.go stands
-- there too. Hermes/SqliteStore models the rest of hermes/store.go: Tables has the rows and the
-- statements on them with the keys of the schema, Mirror the tables for the dashboard, Reads, Listings
-- and Writes the queries and the methods that write a row, Commits CreateTask, CreateSnapshot and
-- CommitRuntimeStep, Resolution the decisions on paused tasks and the sweep at startup, and Retry
-- execWithRetry. A method there is what one attempt does that finds the database unlocked: an action,
-- which returns a result and the tables that it leaves, and a transaction is an action whose changes
-- are dropped on an error. Hermes/Parallel models hermes/parallel.go, Hermes/Accumulated the bounded text and
-- Hermes/Failure the kinds of failures of hermes/accumulated.go, and Hermes/IssueState
-- hermes/issue_state.go.
--
-- Graph/Node, Graph/Registry and Graph/Walker with its children Types, Commits and Loop model
-- engine/graph/runtime.go: round is one iteration of Walker.Run, and run the whole loop. Its store is
-- the record StepStore, which Walker/Memory fills with the memory store. Graph/Executor,
-- Graph/StrictReview, Graph/Reviewer, Graph/Approval, Graph/Replan and Graph/Planner model the nodes
-- of the same directory, Approval with the node of terminal_node.go. What the nodes call (the
-- runner, the reviewers, the planner, the decider) is a function of the number of the dispatch and
-- of its arguments, so a call may answer differently each time.
--
-- Engine has the policies of engine/ that the engine asks between such steps, each a function of
-- values: Engine/Execution models execution_state.go, Engine/ErrorClass errorclass/classifier.go,
-- Engine/Review the results, tags and validations of review.go, Engine/Recovery recovery_policy.go,
-- Engine/TaskRetry task_retry.go, Engine/Resume task_resume.go, Engine/ChatContext chat_context.go and
-- Engine/Session session_policy.go. Recovery asks for the class of an error, TaskRetry for a recovery
-- and Session for the sessions of a ChatContext. IssueOps models issueops/checklist_mapping.go, with
-- Scoring for the scores of two texts and Mapping for both ways to map a plan to a checklist, and
-- in Close the closing of an issue by issueops/service.go, with what hermes/github.go reads of the
-- issue. IssueOps/Body has the checklist in the text of an issue and its update by hermes/github.go,
-- IssueOps/Preview what completed sub-tasks tick in it, and IssueOps/Sync the SyncChecklist of
-- issueops/service.go; Engine/ChecklistDrift has the check for drift after it, of
-- engine/plan_execute.go. Go's Unicode tables and the answers of GitHub are parameters. Examples has
-- concrete tasks.
--
-- Go's int is a 64-bit pattern below 2 ^ 64 with wrapping sums and signed comparisons (Prelude/Word).
-- A string is the list of its bytes, a time the nanoseconds since the zero time, a slice a list and a
-- map an association list; a pointer is an option. A float64 cost is the tree of the additions that
-- the code makes. A string type with constants is a data type with those, the empty string and all
-- other strings. The walk takes fuel, one unit a round; more fuel than MaxSteps is enough where
-- MaxSteps is positive, and a walk with no limit may run out, which is the result `none`.
--
-- Not modelled: the schema migrations and storage/sqlite.go, which are SQL text, and JSON, whose
-- columns hold values here; the rest of engine/plan_execute.go, and engine/graph_bridge.go, which
-- join the parts above to the clients; the prompts, the parsing of model output and the clients of
-- models, git and GitHub, which are input and output; and the comments of issueops/service.go.
-- Logging, the durations of events and the notes that a result carries for a person are left out.
pub mod Prelude
pub mod Hermes
pub mod Graph
pub mod Engine
pub mod IssueOps
pub mod Examples
