-- ===== src/IssueOps/Checklist.antt =====
-- The data of issueops/checklist_mapping.go, with the issue of hermes/github.go. The notes of a
-- result, which are text for a person, are left out.
use alice_core.Prelude.{ℕ, Bool, Str, List, Option}
use alice_core.Hermes.State.{SubTask}
use alice_core.Hermes.IssueState.{IssueState}

-- hermes/github.go
pub record IssueComment : Type 0 where
  pub author : Str
  pub body : Str
  pub created_at : ℕ

-- hermes/github.go
pub record ChecklistItem : Type 0 where
  pub id : Str
  pub text : Str
  pub checked : Bool
  pub line_number : ℕ
  pub section : Str

-- hermes/github.go
pub record IssueContext : Type 0 where
  pub number : ℕ
  pub title : Str
  pub body : Str
  pub state : Str
  pub labels : List Str
  pub checklist : List ChecklistItem
  pub comments : List IssueComment

pub data ChecklistMappingConfidence : Type 0 where
  high low : ChecklistMappingConfidence

pub record ChecklistMapping : Type 0 where
  pub sub_task_index : ℕ
  pub sub_task_id : Str
  pub sub_task_description : Str
  pub checklist_index : ℕ
  pub checklist_text : Str
  pub checklist_line_number : ℕ
  pub score : ℕ
  pub confidence : ChecklistMappingConfidence
  pub reason : Str
  pub requires_human_confirmation : Bool

pub record ChecklistMappingResult : Type 0 where
  pub issue : Option IssueContext
  pub state : IssueState
  pub needs_human_confirmation : Bool
  pub checklist_synced : Bool
  pub total_checklist_items : ℕ
  pub total_sub_tasks : ℕ
  pub mappings : List ChecklistMapping
  pub unmapped_sub_tasks : List SubTask
  pub unmapped_checklist_items : List ChecklistItem
