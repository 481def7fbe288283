-- ===== src/Graph/Approval.antt =====
-- engine/graph/approval_node.go and terminal_node.go: the pause for a person, and the end.
use alice_core.Prelude.{
  Bool, true, ◌||◌, Str, codes, is_empty, slt, sle, if◌then◌else◌, [], ◌∷◌, none, some, length,
}
use alice_core.Hermes.Status.{TaskStatus, task_status_eq}
use alice_core.Hermes.Snapshot.{HermesState, RuntimeStep, no_update}
use alice_core.Graph.Node.{Handled, outputs, fails, empty_plan, index_out_of_range, route}

pub record ApprovalNode : Type 0 where
  pub review_mode_is_per_task : Bool

-- `routeAfterResolution`
unfoldable pub route_after_resolution : ApprovalNode → HermesState → Handled
route_after_resolution n s =
    if task_status_eq s.status TaskStatus.failed
    then route [] RuntimeStep.terminal (codes "approval_resolved_abort")
    else if is_empty s.plan
    then fails empty_plan
    else if slt s.current_idx 0 || slt (length s.plan) s.current_idx
    then fails (index_out_of_range s.current_idx (length s.plan))
    else if sle (length s.plan) s.current_idx
    then route [] (if n.review_mode_is_per_task then RuntimeStep.reviewer else RuntimeStep.terminal)
        (codes "approval_resolved_plan_complete")
    else route [] RuntimeStep.executor (codes "approval_resolved_continue")

-- `ApprovalNode.Handle`
unfoldable pub approval_handle : ApprovalNode → HermesState → Handled
unfolding route_after_resolution
approval_handle n s = elim s.interrupt [
  | none ↦ route_after_resolution n s
  | some i ↦ outputs (record {
    updates = [];
    next_step = RuntimeStep.approval;
    reason = codes "approval_pending";
    halt = true;
  })
]

-- `TerminalNode.Handle`
unfoldable pub terminal_handle : Str → HermesState → Handled
terminal_handle reason s =
    route (record no_update { status = some TaskStatus.done } ∷ []) RuntimeStep.terminal
      (if is_empty reason then codes "graph_terminal" else reason)
