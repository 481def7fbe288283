-- ===== src/Graph/Walker/Types.antt =====
-- engine/graph/runtime.go: the data of the walker. The store is the interface that the walker uses;
-- the context and the clock are functions of the number of the iteration, so a cancellation may
-- come before any dispatch. The durations and times of the node events are left out.
use alice_core.Prelude.{ℕ, Bool, Str, List, Option}
use alice_core.Hermes.Status.{Error}
use alice_core.Hermes.Snapshot.{RuntimeStep, Snapshot, RuntimeCommit}
use alice_core.Hermes.MemoryStore.Rows.{Result}
use alice_core.Graph.Node.{NodeError}

-- `walkerStore`, as far as the walker calls it.
pub record StepStore (S : Type 0) : Type 0 where
  pub get_latest_snapshot : Str → S → Result Snapshot
  pub commit_runtime_step : ℕ → RuntimeCommit → S → Result (Snapshot × S)

pub record Env : Type 0 where
  pub ctx_err : ℕ → Option Str
  pub now : ℕ → ℕ

pub data EventStatus : Type 0 where
  started failed done : EventStatus

pub data NodeFault : Type 0 where
  fault : NodeError → NodeFault
  panicked : Str → NodeFault

pub record NodeEvent : Type 0 where
  pub node : RuntimeStep
  pub status : EventStatus
  pub next_step : RuntimeStep
  pub reason : Str
  pub step_index : ℕ
  pub halt : Bool
  pub error : Option NodeFault

pub data RunError : Type 0 where
  cancelled : Str → RunError
  max_steps_exceeded : ℕ → RunError
  load_failed commit_failed : Error → RunError
  interrupted : Str → RunError
  unregistered_step : RuntimeStep → RunError
  node_panic : RuntimeStep → Str → RunError
  node_failed : RuntimeStep → NodeError → RunError
  empty_next_step : RuntimeStep → RunError

-- What `Run` returns, with the store and the events that it leaves; `none` is the zero snapshot.
pub record RunResult (S : Type 0) : Type 0 where
  pub last : Option Snapshot
  pub error : Option RunError
  pub store : S
  pub events : List NodeEvent

-- One iteration of the loop: it returns, or goes on with a new last snapshot.
pub data Round (S : Type 0) : Type 0 where
  stop : RunResult S → Round S
  go_on : Snapshot → S → List NodeEvent → Round S
