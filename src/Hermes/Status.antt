-- ===== src/Hermes/Status.antt =====
-- hermes/state.go: the status strings of tasks and sub-tasks. A Go string type with declared
-- constants is a data type with a constructor for each constant, `unset` for "" and `other`.
use alice_core.Prelude.{Bool, true, false, ◌||◌, Str, str_eq, if◌then◌else◌, Option, some, none}

pub data TaskStatus : Type 0 where
  unset planning executing done failed interrupted : TaskStatus
  other : Str → TaskStatus

pub data SubTaskStatus : Type 0 where
  unset pending in_progress done skipped failed : SubTaskStatus
  other : Str → SubTaskStatus

-- `a == b` on the status strings.
abbrev pub task_status_eq : TaskStatus → TaskStatus → Bool
task_status_eq TaskStatus.unset TaskStatus.unset = true
task_status_eq planning planning = true
task_status_eq executing executing = true
task_status_eq TaskStatus.done TaskStatus.done = true
task_status_eq TaskStatus.failed TaskStatus.failed = true
task_status_eq interrupted interrupted = true
task_status_eq (TaskStatus.other a) (TaskStatus.other b) = str_eq a b
task_status_eq _ _ = false

abbrev pub sub_task_status_eq : SubTaskStatus → SubTaskStatus → Bool
sub_task_status_eq SubTaskStatus.unset SubTaskStatus.unset = true
sub_task_status_eq pending pending = true
sub_task_status_eq in_progress in_progress = true
sub_task_status_eq SubTaskStatus.done SubTaskStatus.done = true
sub_task_status_eq skipped skipped = true
sub_task_status_eq SubTaskStatus.failed SubTaskStatus.failed = true
sub_task_status_eq (SubTaskStatus.other a) (SubTaskStatus.other b) = str_eq a b
sub_task_status_eq _ _ = false

-- `TaskState.IsTerminal`; `isTerminalTaskStatus` of the graph package is the same switch.
abbrev pub is_terminal : TaskStatus → Bool
is_terminal TaskStatus.done = true
is_terminal TaskStatus.failed = true
is_terminal interrupted = true
is_terminal _ = false

-- The four statuses that the cases for `planning` and `executing` allow.
abbrev allowed_from_active : TaskStatus → Bool
allowed_from_active to =
    task_status_eq to executing
    || task_status_eq to TaskStatus.done
    || task_status_eq to TaskStatus.failed
    || task_status_eq to interrupted

-- The switch of `ValidTaskStatusTransition`.
abbrev next_status_allowed : TaskStatus → TaskStatus → Bool
next_status_allowed planning to = allowed_from_active to
next_status_allowed executing to = allowed_from_active to
next_status_allowed _ to = false

unfoldable pub valid_task_status_transition : TaskStatus → TaskStatus → Bool
valid_task_status_transition from to =
    if task_status_eq from TaskStatus.unset || task_status_eq from to
    then true
    else next_status_allowed from to

-- The errors that the store and the reducer return.
pub data Error : Type 0 where
  no_task : Error
  invalid_transition : Str → TaskStatus → TaskStatus → Error
  index_out_of_range : Error
  task_id_required : Error
  snapshot_task_id_required : Error
  duplicate_snapshot : Error

unfoldable pub validate_task_status_transition : Str → TaskStatus → TaskStatus → Option Error
validate_task_status_transition task_id from to =
    if valid_task_status_transition from to then none else some (invalid_transition task_id from to)
