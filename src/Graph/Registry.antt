-- ===== src/Graph/Registry.antt =====
-- engine/graph/runtime.go: the registry of nodes, and the registry of the seven nodes of the package.
use alice_core.Prelude.{Str, if◌then◌else◌, Option, none, some}
use alice_core.Hermes.Snapshot.{HermesState, RuntimeStep, step_eq}
use alice_core.Graph.Node.{Handled, Moment}
use alice_core.Graph.Executor.{ExecutorNode, executor_handle}
use alice_core.Graph.StrictReview.{StrictReviewNode, strict_review_handle}
use alice_core.Graph.Reviewer.{ReviewerNode, reviewer_handle}
use alice_core.Graph.Approval.{ApprovalNode, approval_handle, terminal_handle}
use alice_core.Graph.Replan.{ReplanSetupNode, replan_setup_handle}
use alice_core.Graph.Planner.{PlannerNode, planner_handle}

-- A `Node` is its name and its `Handle`, with the recovery of `safeHandle` in its result.
pub record Node : Type 0 where
  pub name : RuntimeStep
  pub handle : Moment → HermesState → Handled

abbrev pub Registry : Type 0
Registry = RuntimeStep → Option Node

unfoldable pub new_registry : Registry
new_registry step = none

unfoldable pub register : Node → Registry → Registry
register node r step = if step_eq node.name step then some node else r step

-- The configured nodes.
pub record Nodes : Type 0 where
  pub planner : PlannerNode
  pub replan_setup : ReplanSetupNode
  pub executor : ExecutorNode
  pub strict_review : StrictReviewNode
  pub reviewer : ReviewerNode
  pub approval : ApprovalNode
  pub terminal_reason : Str

unfoldable pub standard_registry : Nodes → Registry
unfolding register new_registry
standard_registry n =
    register (record { name = RuntimeStep.planner; handle = planner_handle n.planner })
      (register
        (record { name = RuntimeStep.replan_setup; handle = replan_setup_handle n.replan_setup })
        (register (record { name = RuntimeStep.executor; handle = executor_handle n.executor })
          (register
            (record {
              name = RuntimeStep.strict_review;
              handle = strict_review_handle n.strict_review;
            })
            (register (record { name = RuntimeStep.reviewer; handle = reviewer_handle n.reviewer })
              (register
                (record { name = RuntimeStep.approval; handle = λ m. approval_handle n.approval })
                (register
                  (record {
                    name = RuntimeStep.terminal;
                    handle = λ m. terminal_handle n.terminal_reason;
                  })
                  new_registry))))))
