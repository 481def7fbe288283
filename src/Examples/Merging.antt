-- ===== src/Examples/Merging.antt =====
-- A merged plan.
use alice_core.Prelude.{refl, arith, codes, List, [], ◌∷◌}
use alice_core.Hermes.Status.{SubTaskStatus}
use alice_core.Hermes.State.{SubTask}
use alice_core.Engine.TaskRetry.{ids, merge_partial_retry_plan}
use alice_core.Engine.TaskRetry.Merging.{Distinct, merge_partial_retry_plan-Distinct}
use alice_core.Examples.Data.{sub_task}

abbrev kept : List SubTask
kept = sub_task (codes "a") SubTaskStatus.done ∷ []

-- One repeated id, one blank one, and one twice.
abbrev again : List SubTask
again =
    sub_task (codes "a") SubTaskStatus.unset
    ∷ sub_task (codes " ") SubTaskStatus.unset
    ∷ sub_task (codes "b") SubTaskStatus.pending
    ∷ sub_task (codes "b") SubTaskStatus.pending
    ∷ []

merge_partial_retry_plan-Distinct_example : Distinct (ids (merge_partial_retry_plan kept again 1))
merge_partial_retry_plan-Distinct_example =
    merge_partial_retry_plan-Distinct kept again 1 refl (refl, tt) (refl, tt)
      (refl, (refl, (refl, (refl, tt)))) (omega arith)
