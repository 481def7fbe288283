-- ===== src/Examples/Nodes.antt =====
-- The executor and the strict review on the active task.
use alice_core.Prelude.{refl, arith, true, false, codes, none, some, [], ◌∷◌}
use alice_core.Hermes.Status.{SubTaskStatus}
use alice_core.Hermes.Usage.{bits}
use alice_core.Graph.Node.{Moment}
use alice_core.Graph.Executor.{ExecutorNode, Runner, executor_handle}
use alice_core.Graph.Executor.Progress.{Stepped, executor_handle-Stepped}
use alice_core.Graph.StrictReview.{StrictReviewNode, Reviewer, strict_review_handle}
use alice_core.Graph.StrictReview.Retries.{Reviewed, strict_review_handle-Reviewed}
use alice_core.Graph.Planner.{PlannerNode, PlannerSession, planned, planner_goal, planner_handle}
use alice_core.Graph.Planner.Limits.{Answers, planner_handle-Answers}
use alice_core.Examples.Data.{active_state, sub_task}

abbrev moment : Moment
moment = record { call = 1; now = 50 }

abbrev answering : Runner
answering call s idx = (
  record {
    text = codes "Conclusion: done";
    model = codes "m";
    input_tokens = 12;
    uncached_input_tokens = 12;
    cache_read_input_tokens = 0;
    cache_creation_input_tokens = 0;
    output_tokens = 3;
    cost_usd = bits 0;
    walking_state = none;
  },
  none,
)

abbrev executor : ExecutorNode
executor = record {
  runner = some answering;
  review_mode_is_per_task = true;
  failure_pause_enabled = false;
  strict_review_enabled = false;
}

executor_handle-Stepped_example :
    Stepped executor moment active_state (executor_handle executor moment active_state)
executor_handle-Stepped_example =
    executor_handle-Stepped executor moment active_state (omega arith) (omega arith)

abbrev blocking : Reviewer
blocking call s idx = some (record {
  verdict = codes "block";
  feedback = codes "no tests";
  score = 2;
  block_tags = [];
  model = codes "r";
  input_tokens = 5;
  output_tokens = 1;
  cost_usd = bits 0;
})

abbrev strict : StrictReviewNode
strict = record {
  reviewer = some blocking;
  max_retries_per_sub = 2;
  review_mode_is_per_task = true;
}

strict_review_handle-Reviewed_example :
    Reviewed strict active_state
      (sub_task (codes "a") SubTaskStatus.pending)
      (blocking moment.call active_state active_state.current_idx)
      (strict_review_handle strict moment active_state)
strict_review_handle-Reviewed_example =
    strict_review_handle-Reviewed strict moment active_state blocking
      (sub_task (codes "a") SubTaskStatus.pending) refl refl refl (omega arith) (omega arith)

abbrev session : PlannerSession
session call goal dir = planned (record {
  tasks = sub_task (codes "x") SubTaskStatus.pending ∷ [];
  input = 4;
  output = 2;
  cost = bits 0;
  costs = false;
  session_id = codes "p2";
})

abbrev planner : PlannerNode
planner = record { planner = some session; planner_model = codes "m"; max_sub_tasks = 5 }

planner_handle-Answers_example :
    Answers planner active_state
      (session moment.call (planner_goal active_state) active_state.project_dir)
      (planner_handle planner moment active_state)
planner_handle-Answers_example = planner_handle-Answers planner moment active_state session refl
