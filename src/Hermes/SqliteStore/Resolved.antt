-- ===== src/Hermes/SqliteStore/Resolved.antt =====
-- What `ApplyInterruptResolution` of hermes/store.go makes of a paused task.
use alice_core.Prelude.{
  ℕ, ◌≡◌, false, Bool, Str, str_eq, codes, add_int, out_of_range, if◌then◌else◌, none, some, length,
  modify,
}
use alice_core.Hermes.Status.{TaskStatus, SubTaskStatus}
use alice_core.Hermes.Snapshot.{HermesInterrupt, Snapshot, RuntimeStep}
use alice_core.Hermes.SqliteStore.Tables.{Db, latest}
use alice_core.Hermes.SqliteStore.Resolution.{
  InterruptResolution, retry, skip, abort, other, interrupt_sub_task_idx, resume_step_of,
}
use alice_core.Hermes.SqliteStore.Updated.{Updated}

abbrev pub of_budget : HermesInterrupt → Bool
of_budget i = str_eq i.reason (codes "budget_exceeded")

-- The snapshot `y` goes on from `x` with the interrupt gone.
pub record Retried (now : ℕ) (i : HermesInterrupt) (x y : Snapshot) : Type 0 where
  pub interrupt : y.state.interrupt ≡ none
  pub status : y.state.status ≡ x.state.status
  pub plan : y.state.plan ≡ x.state.plan
  pub current_idx : y.state.current_idx ≡ x.state.current_idx
  pub accumulated : y.state.accumulated ≡ x.state.accumulated
  pub next_step : y.next_step ≡ (if of_budget i then resume_step_of i else RuntimeStep.executor)
  pub started_at :
      y.state.token_budget.started_at
      ≡ (if of_budget i then now else x.state.token_budget.started_at)

-- The sub-task that the interrupt names is skipped, and the index is one past it.
pub record Skipped (i : HermesInterrupt) (x y : Snapshot) : Type 0 where
  pub idx : ℕ
  pub paused : interrupt_sub_task_idx i ≡ some idx
  pub in_range : out_of_range idx (length x.state.plan) ≡ false
  pub interrupt : y.state.interrupt ≡ none
  pub status : y.state.status ≡ x.state.status
  pub plan :
      y.state.plan ≡ modify x.state.plan idx (λ t. record t { status = SubTaskStatus.skipped })
  pub current_idx : y.state.current_idx ≡ add_int idx 1
  pub accumulated : y.state.accumulated ≡ x.state.accumulated
  pub next_step : y.next_step ≡ RuntimeStep.executor

-- The task has failed; its interrupt is still there.
pub record Aborted (i : HermesInterrupt) (x y : Snapshot) : Type 0 where
  pub interrupt : y.state.interrupt ≡ some i
  pub status : y.state.status ≡ TaskStatus.failed
  pub plan : y.state.plan ≡ x.state.plan
  pub current_idx : y.state.current_idx ≡ x.state.current_idx
  pub accumulated : y.state.accumulated ≡ x.state.accumulated
  pub next_step : y.next_step ≡ RuntimeStep.terminal

abbrev pub ResolvedAs : InterruptResolution → ℕ → HermesInterrupt → Snapshot → Snapshot → Type 0
ResolvedAs retry now i x y = Retried now i x y
ResolvedAs skip now i x y = Skipped i x y
ResolvedAs abort now i x y = Aborted i x y
ResolvedAs (other text) now i x y = ⊥

abbrev Latest : Str → Db → (Snapshot → Type 0) → Type 0
Latest id db P = (y : Snapshot) × (latest id db ≡ some y) × P y
