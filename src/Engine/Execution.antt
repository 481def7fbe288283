-- ===== src/Engine/Execution.antt =====
-- engine/execution_state.go: the lifecycle of one execution. The mutex makes each method one step;
-- `none` is the nil receiver.
pub mod Streaming
use alice_core.Prelude.{
  ℕ, Bool, true, false, not, ◌&&◌, ◌||◌, Str, codes, str_eq, if◌then◌else◌, List, [], ◌∷◌, Option,
  none, some,
}

pub data ExecutionState : Type 0 where
  unset idle starting streaming retrying cancelling succeeded failed cancelled : ExecutionState
  other : Str → ExecutionState

-- `a == b` on the state strings.
abbrev pub execution_state_eq : ExecutionState → ExecutionState → Bool
execution_state_eq unset unset = true
execution_state_eq idle idle = true
execution_state_eq starting starting = true
execution_state_eq streaming streaming = true
execution_state_eq retrying retrying = true
execution_state_eq cancelling cancelling = true
execution_state_eq succeeded succeeded = true
execution_state_eq failed failed = true
execution_state_eq cancelled cancelled = true
execution_state_eq (other a) (other b) = str_eq a b
execution_state_eq _ _ = false

pub record ExecutionSnapshot : Type 0 where
  pub state : ExecutionState
  pub since : ℕ
  pub terminal : Bool
  pub reason : Str

pub record ExecutionLifecycle : Type 0 where
  pub state : ExecutionState
  pub since : ℕ
  pub reason : Str

-- `NewExecutionLifecycle` at the time `now`.
abbrev pub new_execution_lifecycle : ℕ → ExecutionLifecycle
new_execution_lifecycle now = record { state = idle; since = now; reason = [] }

abbrev pub is_terminal_execution_state : ExecutionState → Bool
is_terminal_execution_state succeeded = true
is_terminal_execution_state failed = true
is_terminal_execution_state cancelled = true
is_terminal_execution_state _ = false

-- The switch of `ValidExecutionStateTransition`.
abbrev pub execution_step_allowed : ExecutionState → ExecutionState → Bool
execution_step_allowed idle to = execution_state_eq to starting
execution_step_allowed starting to =
    execution_state_eq to streaming
    || execution_state_eq to cancelling
    || execution_state_eq to failed
execution_step_allowed streaming to =
    execution_state_eq to retrying
    || execution_state_eq to cancelling
    || execution_state_eq to succeeded
    || execution_state_eq to failed
execution_step_allowed retrying to =
    execution_state_eq to streaming
    || execution_state_eq to cancelling
    || execution_state_eq to failed
execution_step_allowed cancelling to =
    execution_state_eq to cancelled || execution_state_eq to failed
execution_step_allowed succeeded to = execution_state_eq to idle || execution_state_eq to starting
execution_step_allowed failed to = execution_state_eq to idle || execution_state_eq to starting
execution_step_allowed cancelled to = execution_state_eq to idle || execution_state_eq to starting
execution_step_allowed _ to = false

unfoldable pub valid_execution_state_transition : ExecutionState → ExecutionState → Bool
valid_execution_state_transition from to =
    if execution_state_eq to unset
    then false
    else if execution_state_eq from unset || execution_state_eq from to
    then true
    else execution_step_allowed from to

abbrev pub or_idle : ExecutionState → ExecutionState
or_idle unset = idle
or_idle s = s

-- The error of `Transition` names the two states.
pub record InvalidExecutionTransition : Type 0 where
  pub from : ExecutionState
  pub to : ExecutionState

-- `Transition` on a lifecycle that is not nil.
unfoldable pub transition_of :
    ℕ
    → ExecutionState
    → Str
    → ExecutionLifecycle
    → ExecutionLifecycle × Option InvalidExecutionTransition
unfolding valid_execution_state_transition
transition_of now to reason l =
    if not (valid_execution_state_transition (or_idle l.state) to)
    then (l, some (record { from = or_idle l.state; to = to }))
    else if not (execution_state_eq l.state to)
    then (record { state = to; since = now; reason = reason }, none)
    else (record l { reason = reason }, none)

-- `Transition`
unfoldable pub transition :
    ℕ
    → ExecutionState
    → Str
    → Option ExecutionLifecycle
    → Option ExecutionLifecycle × Option InvalidExecutionTransition
unfolding transition_of
transition now to reason none = (none, none)
transition now to reason (some l) = let (l', e) = transition_of now to reason l in (some l', e)

-- `Snapshot`
unfoldable pub snapshot : Option ExecutionLifecycle → ExecutionSnapshot
snapshot none = record { state = idle; since = 0; terminal = true; reason = codes "nil_lifecycle" }
snapshot (some l) = record {
  state = or_idle l.state;
  since = l.since;
  terminal = is_terminal_execution_state (or_idle l.state);
  reason = l.reason;
}

-- `IsProcessing`
unfoldable pub is_processing : Option ExecutionLifecycle → Bool
unfolding snapshot
is_processing none = false
is_processing (some l) =
    not (is_terminal_execution_state (snapshot (some l)).state)
    && not (execution_state_eq (snapshot (some l)).state idle)

-- One call of `Transition`: its time, target and reason.
pub record TransitionCall : Type 0 where
  pub now : ℕ
  pub to : ExecutionState
  pub reason : Str

-- The lifecycle after a sequence of calls whose errors are dropped.
unfoldable pub transitions : List TransitionCall → ExecutionLifecycle → ExecutionLifecycle
unfolding transition_of
transitions [] l = l
transitions (c ∷ cs) l = transitions cs (transition_of c.now c.to c.reason l).0
