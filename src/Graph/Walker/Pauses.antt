-- ===== src/Graph/Walker/Pauses.antt =====
-- The pauses of engine/graph/runtime.go: for a cancelled context and for a spent budget.
use alice_core.Prelude.{ℕ, ◌≡◌, ◌<◌, refl, ap, Str, word_mod, [], ◌∷◌, some}
use alice_core.Hermes.Snapshot.{HermesState, HermesInterrupt, RuntimeCommit, Snapshot, no_update}
use alice_core.Hermes.Reducer.{Pending, reduced, apply_state_updates, finish}
use alice_core.Hermes.Reducer.Collapse.{absorb-no_update}
use alice_core.Graph.Walker.Commits.{ctx_interrupt_commit, budget_interrupt_commit}

abbrev interrupted_by : HermesInterrupt → Pending → Pending
interrupted_by i p = record p { next = record p.next { interrupt = some i } }

interrupt_alone :
    (s : HermesState) (i : HermesInterrupt)
    → s.token_budget.used_tokens < word_mod
    → apply_state_updates s (record no_update { interrupt = some i } ∷ [])
      ≡ reduced (record s { interrupt = some i })
unfolding apply_state_updates
interrupt_alone s i h = ap (λ p. finish (interrupted_by i p)) (absorb-no_update s h)

-- What a pause at the snapshot `last` does: only the interrupt of the state is changed, to one that
-- resumes at the step that was due, and that step stays due.
abbrev pub Pauses : RuntimeCommit → Snapshot → Type 0
Pauses c last =
    (i : HermesInterrupt) × (apply_state_updates last.state c.updates
      ≡ reduced (record last.state { interrupt = some i }))
    × (i.resume_step ≡ last.next_step)
    × (c.next_step ≡ last.next_step)

-- The commits for a cancelled context and for a spent budget are always accepted on the state of
-- the snapshot that they are made from. They change nothing in it but the interrupt, which resumes
-- at the step that was due, and leave that step due. The tokens used are a 64-bit pattern.
pub interrupt_commits-Pauses :
    (task_id : Str) (last : Snapshot) (text : Str) (now : ℕ)
    → last.state.token_budget.used_tokens < word_mod
    → Pauses (ctx_interrupt_commit task_id last text now) last
      × Pauses (budget_interrupt_commit task_id last now) last
unfolding ctx_interrupt_commit budget_interrupt_commit
interrupt_commits-Pauses task_id last text now h = (
  (_, interrupt_alone last.state _ h, refl, refl),
  (_, interrupt_alone last.state _ h, refl, refl),
)
