-- ===== src/Hermes/SqliteStore/Listings.antt =====
-- hermes/store.go: the lists of tasks that the dashboard shows, and the search for stale interrupts.
-- They go by the status column of the row, not by that of the latest snapshot.
use alice_core.Prelude.{
  ℕ, Bool, true, not, ◌||◌, Str, slt, sle, ltb, ◌==◌, if◌then◌else◌, List, [], ◌∷◌, Option, none,
  some, length, map,
}
use alice_core.Hermes.Status.{TaskStatus, is_terminal, task_status_eq}
use alice_core.Hermes.Snapshot.{HermesState, HermesInterrupt, RuntimeStep, Snapshot}
use alice_core.Hermes.SqliteStore.Tables.{TaskRow, Db, latest}
use alice_core.Hermes.SqliteStore.Reads.{sort_by, rows_where, limited, offset_by}

pub record ActiveTaskRef : Type 0 where
  pub task_id : Str
  pub chat_id : ℕ
  pub thread_id : ℕ
  pub goal : Str
  pub project_dir : Str
  pub github_issue_number : ℕ
  pub status : TaskStatus
  pub next_step : RuntimeStep
  pub current_idx : ℕ
  pub plan_length : ℕ
  pub used_tokens : ℕ
  pub max_total_tokens : ℕ
  pub updated_at : ℕ
  pub interrupt : Option HermesInterrupt

-- The reference of a row without its snapshot.
abbrev pub plain_ref : Str → TaskRow → ActiveTaskRef
plain_ref id r = record {
  task_id = id;
  chat_id = r.chat_id;
  thread_id = 0;
  goal = r.goal;
  project_dir = [];
  github_issue_number = r.github_issue_number;
  status = r.status;
  next_step = RuntimeStep.unset;
  current_idx = r.current_idx;
  plan_length = length r.plan;
  used_tokens = r.token_budget.used_tokens;
  max_total_tokens = r.token_budget.max_total_tokens;
  updated_at = r.updated_at;
  interrupt = none;
}

-- `scanActiveTaskRow`
unfoldable pub scan_active_task_row : Option Snapshot → Str → TaskRow → ActiveTaskRef
scan_active_task_row none id r = plain_ref id r
scan_active_task_row (some x) id r = record (plain_ref id r) {
  thread_id = x.state.thread_id;
  project_dir = x.state.project_dir;
  interrupt = x.state.interrupt;
  next_step = x.next_step;
}

-- `ORDER BY t.updated_at DESC`
abbrev pub later_touched : Str × TaskRow → Str × TaskRow → Bool
later_touched a b = ltb b.1.updated_at a.1.updated_at

abbrev pub refs_of : Db → List (Str × TaskRow) → List ActiveTaskRef
unfolding scan_active_task_row latest
refs_of db = map (λ (x : Str × TaskRow). scan_active_task_row (latest x.0 db) x.0 x.1)

unfoldable pub list_active_tasks : Db → List ActiveTaskRef
unfolding sort_by rows_where scan_active_task_row latest
list_active_tasks db = refs_of db (
    sort_by later_touched
      (rows_where (λ (x : Str × TaskRow). not (is_terminal x.1.status)) db.task_states))

-- The filter's status is the text after trimming, `unset` where that is empty.
pub record HermesTaskFilter : Type 0 where
  pub status : TaskStatus
  pub limit : ℕ
  pub offset : ℕ

abbrev pub default_limit : ℕ → ℕ
default_limit n = if sle n 0 || slt 500 n then 100 else n

abbrev pub passes : TaskStatus → Str × TaskRow → Bool
passes TaskStatus.unset x = true
passes status x = task_status_eq x.1.status status

-- The page and the number of rows that pass the filter.
unfoldable pub list_hermes_tasks : HermesTaskFilter → Db → List ActiveTaskRef × ℕ
unfolding sort_by rows_where scan_active_task_row latest
list_hermes_tasks filter db =
    let rows = rows_where (passes filter.status) db.task_states in
    (
      refs_of db (
          limited (default_limit filter.limit)
            (offset_by filter.offset (sort_by later_touched rows))),
      length rows,
    )

pub record StaleInterruptRef : Type 0 where
  pub task_id : Str
  pub chat_id : ℕ
  pub thread_id : ℕ
  pub step : ℕ
  pub state : HermesState
  pub interrupt : HermesInterrupt

abbrev pub stale_ref : Snapshot → HermesInterrupt → StaleInterruptRef
stale_ref x i = record {
  task_id = x.task_id;
  chat_id = x.chat_id;
  thread_id = x.thread_id;
  step = x.step;
  state = x.state;
  interrupt = i;
}

-- `CreatedAt.IsZero() || CreatedAt.After(cutoff)` skips the interrupt.
abbrev pub if_stale : ℕ → Snapshot → Option HermesInterrupt → Option StaleInterruptRef
if_stale cutoff x none = none
if_stale cutoff x (some i) =
    if i.created_at == 0 || ltb cutoff i.created_at then none else some (stale_ref x i)

abbrev pub stale_of : ℕ → Option Snapshot → Option StaleInterruptRef
stale_of cutoff none = none
stale_of cutoff (some x) = if_stale cutoff x x.state.interrupt

abbrev pub prepend {ℓ} : {A : Type ℓ} → Option A → List A → List A
prepend none xs = xs
prepend (some x) xs = x ∷ xs

unfoldable pub stale_in : ℕ → Db → List (Str × TaskRow) → List StaleInterruptRef
unfolding latest
stale_in cutoff db [] = []
stale_in cutoff db ((id, r) ∷ rest) =
    prepend (if is_terminal r.status then none else stale_of cutoff (latest id db))
      (stale_in cutoff db rest)

unfoldable pub list_stale_interrupts : ℕ → Db → List StaleInterruptRef
unfolding stale_in
list_stale_interrupts cutoff db = stale_in cutoff db db.task_states
