-- ===== src/Hermes/Parallel.antt =====
-- hermes/parallel.go: the batch of read-only sub-tasks that may run at the same time.
pub mod Batches
use alice_core.Prelude.{
  ℕ, zero, suc, Bool, true, false, not, ◌&&◌, ◌||◌, Str, codes, str_eq, is_empty, out_of_range,
  if◌then◌else◌, List, [], ◌∷◌, Option, none, some, length, get_elem?, drop,
}
use alice_core.Hermes.State.{SubTask}

-- The keys of `readOnlyTools`.
abbrev pub read_only_tools : List Str
read_only_tools =
    codes "Read"
    ∷ codes "Grep"
    ∷ codes "Glob"
    ∷ codes "WebFetch"
    ∷ codes "WebSearch"
    ∷ codes "NotebookRead"
    ∷ []

abbrev is_member : Str → List Str → Bool
is_member s [] = false
is_member s (x ∷ xs) = str_eq s x || is_member s xs

abbrev all_read_only : List Str → Bool
all_read_only [] = true
all_read_only (hint ∷ hints) = is_member hint read_only_tools && all_read_only hints

-- `IsReadOnlySubTask`
unfoldable pub is_read_only_sub_task : SubTask → Bool
is_read_only_sub_task t = not (is_empty t.tool_hints) && all_read_only t.tool_hints

abbrev pub max_parallel_read_only : ℕ
max_parallel_read_only = 4

-- The loop from the index `i` on, with the number of sub-tasks that the batch still has room for.
unfoldable pub batch_from : ℕ → ℕ → List SubTask → List ℕ
batch_from zero i tasks = []
batch_from (suc room) i [] = []
batch_from (suc room) i (t ∷ tasks) =
    let later = batch_from room (suc i) tasks in
    if not (is_read_only_sub_task t) then [] else i ∷ later

-- The batch at an index of the plan, with the sub-task that stands there.
unfoldable pub batch_at : List SubTask → ℕ → Option SubTask → List ℕ
unfolding batch_from
batch_at tasks start none = []
batch_at tasks start (some t) =
    if not (is_read_only_sub_task t)
    then start ∷ []
    else batch_from max_parallel_read_only start (drop start tasks)

-- `GatherReadOnlyBatch`
unfoldable pub gather_read_only_batch : List SubTask → ℕ → List ℕ
unfolding batch_at
gather_read_only_batch tasks start =
    if out_of_range start (length tasks) then [] else batch_at tasks start (get_elem? tasks start)
