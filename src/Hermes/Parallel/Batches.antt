-- ===== src/Hermes/Parallel/Batches.antt =====
-- What a batch of hermes/parallel.go holds.
use alice_core.Prelude.{
  ℕ, zero, suc, ◌≤◌, ◌≡◌, ◌⊎◌, true, false, take, All, List, [], ◌∷◌, length, drop,
}
use alice_core.Hermes.State.{SubTask}
use alice_core.Hermes.Parallel.{is_read_only_sub_task, max_parallel_read_only}

-- The `n` indices from `i` on.
abbrev pub indices : ℕ → ℕ → List ℕ
indices i zero = []
indices i (suc n) = i ∷ indices (suc i) n

-- The list is empty or starts with a sub-task that may write.
abbrev pub StartsWriting : List SubTask → Type 0
StartsWriting [] = Unit
StartsWriting (t ∷ ts) = is_read_only_sub_task t ≡ false

-- The first `n` sub-tasks are a batch within `room`: every one is read-only, and the batch is full
-- or stands before the end of the list or a sub-task that may write.
pub record Batch (tasks : List SubTask) (room n : ℕ) : Type 0 where
  pub fits : n ≤ room
  pub present : n ≤ length tasks
  pub members : All (λ t. is_read_only_sub_task t ≡ true) (take n tasks)
  pub maximal : (n ≡ room) ⊎ StartsWriting (drop n tasks)

-- What `gather_read_only_batch` may answer at an index of the plan.
abbrev pub Answers : List SubTask → ℕ → List ℕ → Type 0
Answers tasks start is =
    (n : ℕ) × (is ≡ indices start n)
    × (((n ≡ 1) × StartsWriting (drop start tasks))
        ⊎ ((1 ≤ n) × Batch (drop start tasks) max_parallel_read_only n))
