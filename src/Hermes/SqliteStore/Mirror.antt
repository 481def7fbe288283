-- ===== src/Hermes/SqliteStore/Mirror.antt =====
-- hermes/store.go: the tables `tasks`, `sub_tasks` and `artifacts`, which mirror the tasks for the
-- dashboard. The connection of the program has foreign keys on.
use alice_core.Prelude.{
  true, false, ℕ, ◌+◌, Bool, Str, str_eq, decimal, add_int, slt, ◌==◌, is_empty, is_some,
  trim_space, if◌then◌else◌, ◌orelse◌, List, [], ◌∷◌, ◌++◌, Option, none, some, lookup, insert,
}
use alice_core.Hermes.Status.{TaskStatus, SubTaskStatus, is_terminal}
use alice_core.Hermes.Usage.{ModelUsage}
use alice_core.Hermes.State.{SubTask, Artifact, TaskState}
use alice_core.Hermes.SqliteStore.Tables.{
  UnifiedTask, UnifiedSubTask, UnifiedArtifact, Db, Action, ok, err, ◌>>◌, return, change,
  foreign_key_constraint, update_row,
}

-- `totalModelUsage`
unfoldable pub total_from : ℕ × ℕ → List ModelUsage → ℕ × ℕ
total_from sums [] = sums
total_from (i, o) (u ∷ us) =
    total_from (add_int i u.counters.input_tokens, add_int o u.counters.output_tokens) us

unfoldable pub total_model_usage : List ModelUsage → ℕ × ℕ
unfolding total_from
total_model_usage usages = total_from (0, 0) usages

abbrev pub is_terminal_sub_task : SubTaskStatus → Bool
is_terminal_sub_task SubTaskStatus.done = true
is_terminal_sub_task SubTaskStatus.failed = true
is_terminal_sub_task SubTaskStatus.skipped = true
is_terminal_sub_task _ = false

-- `UnifiedSubTaskID`
unfoldable pub unified_sub_task_id : Str → ℕ → Str → Str
unified_sub_task_id task_id idx planner_id =
    if is_empty (trim_space planner_id)
    then task_id ++ b':' ∷ decimal (add_int idx 1)
    else task_id ++ b':' ∷ planner_id

abbrev pub or_at : ℕ → ℕ → ℕ
or_at now t = if t == 0 then now else t

-- `terminalEndedAt`
abbrev pub terminal_ended_at : ℕ → TaskStatus → ℕ → Option ℕ
terminal_ended_at now status t = if is_terminal status then some (or_at now t) else none

-- The row that `upsertUnifiedTask` inserts.
abbrev pub unified_task : ℕ → TaskState → Option ℕ → UnifiedTask
unfolding total_model_usage
unified_task now task ended_at = record {
  chat_id = task.chat_id;
  thread_id = task.thread_id;
  project_dir = task.project_dir;
  github_issue_number = task.github_issue_number;
  goal = task.goal;
  status = task.status;
  started_at = or_at now task.created_at;
  ended_at = ended_at;
  total_input_tokens = (total_model_usage task.model_usages).0;
  total_output_tokens = (total_model_usage task.model_usages).1;
}

-- `ON CONFLICT(id) DO UPDATE`
abbrev pub updated_task : UnifiedTask → UnifiedTask → UnifiedTask
updated_task new old = record new {
  project_dir = if is_empty new.project_dir then old.project_dir else new.project_dir;
  github_issue_number =
      if slt 0 new.github_issue_number then new.github_issue_number else old.github_issue_number;
}

unfoldable pub upsert_unified_task : ℕ → TaskState → Option ℕ → Action (Unit {0})
upsert_unified_task now task ended_at = change (λ (db : Db).
    let new = unified_task now task ended_at in
    record db {
      tasks =
          insert task.id
            (elim (lookup task.id db.tasks) [ none ↦ new | some old ↦ updated_task new old ])
            db.tasks;
    })

abbrev pub unified_sub_task : ℕ → Str → ℕ → SubTask → UnifiedSubTask
unified_sub_task now task_id idx t = record {
  task_id = task_id;
  idx = idx;
  description = t.description;
  status = t.status;
  result_text = t.result;
  input_tokens = t.tokens_used;
  started_at = now;
  ended_at = if is_terminal_sub_task t.status then some now else none;
}

-- `ON CONFLICT(id) DO UPDATE`: the row keeps its task and its start.
abbrev pub updated_sub_task : UnifiedSubTask → UnifiedSubTask → UnifiedSubTask
updated_sub_task new old = record new { task_id = old.task_id; started_at = old.started_at }

unfoldable pub upsert_unified_sub_task : ℕ → Str → ℕ → SubTask → Action (Unit {0})
unfolding unified_sub_task_id
upsert_unified_sub_task now task_id idx t db =
    let id = unified_sub_task_id task_id idx t.id in
    let new = unified_sub_task now task_id idx t in
    elim (lookup id db.sub_tasks) [
      | none ↦
          if is_some (lookup task_id db.tasks)
          then (ok tt, record db { sub_tasks = insert id new db.sub_tasks })
          else (err foreign_key_constraint, db)
      | some old ↦
          (ok tt, record db { sub_tasks = insert id (updated_sub_task new old) db.sub_tasks })
    ]

-- The loop over the plan, from the index of its first element.
unfoldable pub upsert_all : ℕ → Str → ℕ → List SubTask → Action (Unit {0})
unfolding upsert_unified_sub_task
upsert_all now task_id idx [] = return tt
upsert_all now task_id idx (t ∷ ts) =
    upsert_unified_sub_task now task_id idx t >> upsert_all now task_id (idx + 1) ts

-- `DELETE FROM sub_tasks WHERE task_id = ?`
unfoldable pub without_task : Str → List (Str × UnifiedSubTask) → List (Str × UnifiedSubTask)
without_task task_id [] = []
without_task task_id ((id, t) ∷ rest) =
    let others = without_task task_id rest in
    if str_eq t.task_id task_id then others else (id, t) ∷ others

-- `ON DELETE CASCADE` of the artifacts, whose sub-task has gone.
unfoldable pub orphans_removed :
    List (Str × UnifiedSubTask) → List UnifiedArtifact → List UnifiedArtifact
orphans_removed sub_tasks [] = []
orphans_removed sub_tasks (a ∷ rest) =
    let others = orphans_removed sub_tasks rest in
    if is_some (lookup a.sub_task_id sub_tasks) then a ∷ others else others

unfoldable pub delete_sub_tasks : Str → Db → Db
unfolding without_task orphans_removed
delete_sub_tasks task_id db =
    let rest = without_task task_id db.sub_tasks in
    record db { sub_tasks = rest; artifacts = orphans_removed rest db.artifacts }

unfoldable pub replace_unified_sub_tasks : ℕ → Str → List SubTask → Action (Unit {0})
unfolding delete_sub_tasks upsert_all
replace_unified_sub_tasks now task_id plan =
    change (delete_sub_tasks task_id) >> upsert_all now task_id 0 plan

unfoldable pub insert_unified_artifact : Str → Artifact → Action (Unit {0})
unfolding unified_sub_task_id
insert_unified_artifact task_id a db =
    let id = unified_sub_task_id task_id 0 a.sub_task_id in
    if is_empty (trim_space a.sub_task_id)
    then (ok tt, db)
    else if is_some (lookup id db.sub_tasks)
    then (
      ok tt,
      record db {
        artifacts = db.artifacts ++ record { sub_task_id = id; path = a.path; hash = a.hash } ∷ [];
      },
    )
    else (err foreign_key_constraint, db)

abbrev pub with_unified_status : ℕ → TaskStatus → UnifiedTask → UnifiedTask
with_unified_status now status t = record t {
  status = status;
  ended_at = (if is_terminal status then some now else none) orelse t.ended_at;
}

unfoldable pub update_unified_task_status : ℕ → Str → TaskStatus → Action (Unit {0})
update_unified_task_status now id status =
    change
      (λ (db : Db). record db { tasks = update_row id (with_unified_status now status) db.tasks })

abbrev pub with_unified_usage : List ModelUsage → UnifiedTask → UnifiedTask
unfolding total_model_usage
with_unified_usage usages t = record t {
  total_input_tokens = (total_model_usage usages).0;
  total_output_tokens = (total_model_usage usages).1;
}

unfoldable pub update_unified_task_usage : Str → List ModelUsage → Action (Unit {0})
update_unified_task_usage id usages =
    change (λ (db : Db). record db { tasks = update_row id (with_unified_usage usages) db.tasks })
