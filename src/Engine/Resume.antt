-- ===== src/Engine/Resume.antt =====
-- engine/task_resume.go: from where a task is resumed.
pub mod Splitting
use alice_core.Prelude.{
  ℕ, suc, Bool, true, false, Str, codes, is_empty, if◌then◌else◌, List, [], ◌∷◌, ◌++◌, length,
}
use alice_core.Hermes.Status.{SubTaskStatus, is_terminal}
use alice_core.Hermes.State.{SubTask, TaskState}

pub record TaskResumeDecision : Type 0 where
  pub task_id : Str
  pub can_resume : Bool
  pub terminal : Bool
  pub from_idx : ℕ
  pub preserved : List SubTask
  pub remaining : List SubTask
  pub reason : Str
  pub accumulated : Str

-- The first case of the switch on a sub-task's status.
abbrev pub is_finished : SubTaskStatus → Bool
is_finished SubTaskStatus.done = true
is_finished SubTaskStatus.skipped = true
is_finished _ = false

-- The loop over the plan, at the index `idx`, and what follows it.
unfoldable pub resume_from : ℕ → List SubTask → TaskResumeDecision → TaskResumeDecision
resume_from idx [] d = record d { can_resume = true; reason = codes "plan_complete_mark_done" }
resume_from idx (t ∷ ts) d =
    let rest = resume_from (suc idx) ts (record d { preserved = d.preserved ++ t ∷ [] }) in
    if is_finished t.status then rest else record d {
      from_idx = idx;
      remaining = d.remaining ++ t ∷ ts;
      can_resume = true;
      reason = codes "resume_from_incomplete_subtask";
    }

-- The decision as `DecideTaskResume` starts it.
abbrev pub undecided : TaskState → TaskResumeDecision
undecided s = record {
  task_id = s.id;
  can_resume = false;
  terminal = false;
  from_idx = length s.plan;
  preserved = [];
  remaining = [];
  reason = [];
  accumulated = s.accumulated;
}

-- `DecideTaskResume`
unfoldable pub decide_task_resume : TaskState → TaskResumeDecision
unfolding resume_from
decide_task_resume s =
    if is_empty s.id
    then record (undecided s) { reason = codes "missing_task_id" }
    else if is_terminal s.status
    then record (undecided s) { terminal = true; reason = codes "task_terminal" }
    else if is_empty s.plan
    then record (undecided s) { reason = codes "missing_plan" }
    else resume_from 0 s.plan (undecided s)
