-- ===== src/IssueOps/Writing.antt =====
-- When issueops/service.go writes the ticked checklist to the issue.
use alice_core.Prelude.{
  ◌≡◌, refl, arith, Bool, true, false, not, ◌&&◌, Str, codes, str_eq, sle, trim_space, to_lower,
  is_empty, is_some, if◌then◌else◌, if_cases, List, Option, none, some,
}
use alice_core.Hermes.IssueState.{IssueState, issue_state_from_git_hub}
use alice_core.Hermes.State.{SubTask}
use alice_core.IssueOps.Checklist.{IssueContext}
use alice_core.IssueOps.Body.{TextFolds}
use alice_core.IssueOps.Close.{Fetched, fetched, unavailable, has_label}
use alice_core.IssueOps.Close.Guard.{fetch_error}
use alice_core.IssueOps.Preview.{
  ChecklistSyncPreview, completed_of, declared_of, build_checklist_sync_preview,
}
use alice_core.IssueOps.Sync.{
  SyncOutcome, SyncChecklistRequest, SyncChecklistResult, Syncing, sync_guard, can_write,
  confirmation_needed, refusal, settled, after_write, loaded_result, unnumbered, unloaded,
  sync_loaded, sync_checklist,
}

-- The body that a synchronisation of the issue would write.
abbrev pub synced_body : TextFolds → IssueContext → SyncChecklistRequest → Str
synced_body f issue req = (build_checklist_sync_preview f issue.body req.sub_tasks).body_after

-- The issue is neither closed nor blocked, a sub-task is completed, the body changes, and no person
-- has to confirm the mapping.
abbrev pub may_write : TextFolds → IssueContext → SyncChecklistRequest → Bool
may_write f issue req =
    not (str_eq (to_lower (trim_space issue.state)) (codes "closed"))
    && not (str_eq (to_lower (trim_space issue.state)) (codes "blocked"))
    && not (has_label f.equal_fold issue (codes "blocked"))
    && not (is_empty (completed_of req.sub_tasks))
    && not (str_eq (synced_body f issue req) issue.body)
    && not (confirmation_needed req req.checklist_mapping)

abbrev pub written : TextFolds → Fetched → SyncChecklistRequest → Option Str
written f (unavailable e) req = none
written f (fetched issue) req =
    if not (sle req.issue_number 0) && (may_write f issue req && not req.dry_run)
    then some (synced_body f issue req)
    else none

-- What every preview holds.
abbrev Previews : Str → List Str → ChecklistSyncPreview → Type 0
Previews body completed p =
    (p.completed_descriptions ≡ completed) × (p.changed ≡ not (str_eq p.body_after body))

build_checklist_sync_preview-Previews :
    (f : TextFolds) (body : Str) (ts : List SubTask)
    → Previews body (completed_of ts) (build_checklist_sync_preview f body ts)
unfolding build_checklist_sync_preview
build_checklist_sync_preview-Previews f body ts =
    if_cases (Previews body (completed_of ts)) (is_empty (completed_of ts)) _ _ (λ h. (refl, refl))
      (λ h.
        if_cases (Previews body (completed_of ts)) (is_empty (declared_of ts)) _ _
          (λ d. (refl, refl)) (λ d. (refl, refl)))

can_write-may_write :
    (f : TextFolds) (issue : IssueContext) (req : SyncChecklistRequest)
    → can_write (sync_guard f issue req (build_checklist_sync_preview f issue.body req.sub_tasks))
      ≡ may_write f issue req
unfolding sync_guard issue_state_from_git_hub
can_write-may_write f issue req =
    let p = build_checklist_sync_preview-Previews f issue.body req.sub_tasks in
    ground (arith, p.0, p.1)

-- What a call of `SyncChecklist` gives, by the body that it may write.
abbrev pub Syncs : Option Str → Option Str → Option Str → Syncing → Type 0
Syncs none answer failure s = (s.asked ≡ none) × (s.result.wrote ≡ false) × (s.error ≡ failure)
Syncs (some body) answer failure s =
    (s.asked ≡ some body) × (s.result.wrote ≡ not (is_some answer)) × (s.error ≡ answer)

after_write-Syncs :
    (r : SyncChecklistResult) (body : Str) (answer : Option Str)
    → r.wrote ≡ false
    → Syncs (some body) answer none (after_write r body answer)
unfolding after_write
after_write-Syncs r body none h = (refl, refl, refl)
after_write-Syncs r body (some e) h = (refl, h, refl)

settled-Syncs :
    (r : SyncChecklistResult) (answer : Option Str) (x : IssueState × SyncOutcome)
    → r.wrote ≡ false
    → Syncs none answer none (settled r x)
settled-Syncs r answer (state, outcome) h = (refl, h, refl)

asks_nothing :
    (b : Bool) (body : Str) (answer failure : Option Str) (s : Syncing)
    → b ≡ false
    → Syncs none answer failure s
    → Syncs (if b then some body else none) answer failure s
asks_nothing true body answer failure s e h = absurd (ground arith)
asks_nothing false body answer failure s e h = h

asks :
    (b : Bool) (body : Str) (answer failure : Option Str) (s : Syncing)
    → b ≡ true
    → Syncs (some body) answer failure s
    → Syncs (if b then some body else none) answer failure s
asks true body answer failure s e h = h
asks false body answer failure s e h = absurd (ground arith)

sync_loaded-Syncs :
    (f : TextFolds) (issue : IssueContext) (answer : Option Str) (req : SyncChecklistRequest)
    → Syncs
        (if may_write f issue req && not req.dry_run then some (synced_body f issue req) else none)
        answer
        none
        (sync_loaded f issue answer req)
unfolding sync_loaded
sync_loaded-Syncs f issue answer req =
    let p = build_checklist_sync_preview f issue.body req.sub_tasks in
    let g = sync_guard f issue req p in
    let w = can_write-may_write f issue req in
    let v = build_checklist_sync_preview-Previews f issue.body req.sub_tasks in
    let r = loaded_result issue req.dry_run g p in
    let may = may_write f issue req && not req.dry_run in
    let P = Syncs (if may then some p.body_after else none) answer none in
    if_cases P (is_empty p.completed_descriptions) _ _
      (λ e.
        asks_nothing may _ answer none _ (ground (arith, v.0))
          (settled-Syncs r answer (g.issue_state, SyncOutcome.no_match) refl))
      (λ e.
        if_cases P (not (can_write g)) _ _
          (λ n.
            asks_nothing may _ answer none _ (ground (arith, w))
              (settled-Syncs r answer (refusal g) refl))
          (λ y.
            if_cases P req.dry_run _ _
              (λ d.
                asks_nothing may _ answer none _ (ground arith)
                  (settled-Syncs r answer (IssueState.checklist_synced, SyncOutcome.dry_run) refl))
              (λ d.
                asks may _ answer none _ (ground (arith, w))
                  (after_write-Syncs r p.body_after answer refl))))

by_number :
    (b may dry : Bool) (body : Str) (answer : Option Str) (s : Syncing)
    → Syncs (if may then some body else none) answer none s
    → Syncs
        (if not b && may then some body else none)
        answer
        (if b then none else none)
        (if b then unnumbered dry else s)
by_number true may dry body answer s h = (refl, refl, refl)
by_number false may dry body answer s h = h

by_number_unloaded :
    (b dry : Bool) (answer : Option Str) (e : Str)
    → Syncs none answer (if b then none else some e) (if b then unnumbered dry else unloaded dry e)
unfolding unloaded
by_number_unloaded true dry answer e = (refl, refl, refl)
by_number_unloaded false dry answer e = (refl, refl, refl)

-- `SyncChecklist` asks GitHub to write a body exactly where the number of the issue is positive, the
-- issue is fetched, and it is no dry run, and where the issue is neither closed nor blocked, by state
-- or by label, some sub-task is done, ticking the checklist changes the body, and no given mapping
-- needs the confirmation of a person, whether by itself or because the request wants it. The body is
-- then the ticked one. The call reports that it wrote exactly where it asked and got no error, and
-- returns the error of that write, or that of the fetch.
pub sync_checklist-Syncs :
    (f : TextFolds) (fetch : Fetched) (answer : Option Str) (req : SyncChecklistRequest)
    → Syncs
        (written f fetch req)
        answer
        (if sle req.issue_number 0 then none else fetch_error fetch)
        (sync_checklist f fetch answer req)
unfolding sync_checklist
sync_checklist-Syncs f (fetched issue) answer req =
    by_number (sle req.issue_number 0) (may_write f issue req && not req.dry_run) req.dry_run
      (synced_body f issue req) answer (sync_loaded f issue answer req)
      (sync_loaded-Syncs f issue answer req)
sync_checklist-Syncs f (unavailable e) answer req =
    by_number_unloaded (sle req.issue_number 0) req.dry_run answer e
