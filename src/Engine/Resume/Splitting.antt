-- ===== src/Engine/Resume/Splitting.antt =====
-- How engine/task_resume.go splits a plan.
use alice_core.Prelude.{
  ℕ, suc, ◌≡◌, refl, sym, ap, subst, ◌∙◌, ◌⊎◌, inl, inr, arith, true, false, not, ◌&&◌, is_empty,
  if_cases, List, [], ◌∷◌, ◌++◌, append-nil, append_assoc, length, length-append, All, All-append,
}
use alice_core.Hermes.Status.{is_terminal}
use alice_core.Hermes.State.{SubTask, TaskState}
use alice_core.Engine.Resume.{
  TaskResumeDecision, is_finished, resume_from, undecided, decide_task_resume,
}

abbrev Finished : SubTask → Type 0
Finished t = is_finished t.status ≡ true

-- The list is empty or starts with a sub-task that is not finished.
abbrev pub StartsOpen : List SubTask → Type 0
StartsOpen [] = Unit
StartsOpen (t ∷ ts) = is_finished t.status ≡ false

-- The decision cuts the plan where its first sub-task that is not finished stands.
pub record Splits (plan : List SubTask) (d : TaskResumeDecision) : Type 0 where
  pub resumes : d.can_resume ≡ true
  pub runs : d.terminal ≡ false
  pub whole : d.preserved ++ d.remaining ≡ plan
  pub index : d.from_idx ≡ length d.preserved
  pub kept : All (λ t. is_finished t.status ≡ true) d.preserved
  pub rest : StartsOpen d.remaining

-- A decision not to resume has nothing to preserve or to do, and stands after the plan.
pub record Refuses (plan : List SubTask) (d : TaskResumeDecision) : Type 0 where
  pub stops : d.can_resume ≡ false
  pub no_preserved : d.preserved ≡ []
  pub no_remaining : d.remaining ≡ []
  pub after : d.from_idx ≡ length plan

resume_from-Splits :
    (ts : List SubTask) (d : TaskResumeDecision) (idx : ℕ) (plan : List SubTask)
    → d.preserved ++ ts ≡ plan
    → idx ≡ length d.preserved
    → d.from_idx ≡ length plan
    → d.remaining ≡ []
    → d.terminal ≡ false
    → All Finished d.preserved
    → Splits plan (resume_from idx ts d)
unfolding resume_from
resume_from-Splits [] d idx plan split at len empty running kept = record {
  resumes = refl;
  runs = running;
  whole = subst (λ r. d.preserved ++ r ≡ plan) (sym empty) split;
  index = len ∙ sym (ap length split) ∙ ap length (append-nil d.preserved);
  kept = kept;
  rest = subst StartsOpen (sym empty) tt;
}
resume_from-Splits (t ∷ ts) d idx plan split at len empty running kept =
    if_cases (Splits plan) (is_finished t.status) _ _
      (λ fin.
        resume_from-Splits ts (record d { preserved = d.preserved ++ t ∷ [] }) (suc idx) plan
          (append_assoc d.preserved (t ∷ []) ts ∙ split)
          (omega (arith, at, length-append d.preserved (t ∷ []))) len empty running
          (All-append Finished d.preserved (t ∷ []) kept (fin, tt)))
      (λ unfinished. record {
        resumes = refl;
        runs = running;
        whole = subst (λ r. d.preserved ++ (r ++ t ∷ ts) ≡ plan) (sym empty) split;
        index = at;
        kept = kept;
        rest = subst (λ r. StartsOpen (r ++ t ∷ ts)) (sym empty) unfinished;
      })

-- `DecideTaskResume` resumes exactly a task with an id, a plan, and a status that is not terminal,
-- and calls exactly a task with an id and a terminal status terminal. To resume it cuts the plan in
-- two, in order: before the index stand only sub-tasks that are done or skipped, and the rest, if
-- there is any, starts with one that is neither. Otherwise it preserves nothing, has nothing left,
-- and its index is the length of the plan.
pub decide_task_resume-Splits :
    (s : TaskState)
    → ((decide_task_resume s).can_resume
        ≡ (not (is_empty s.id) && not (is_terminal s.status) && not (is_empty s.plan)))
      × ((decide_task_resume s).terminal ≡ (not (is_empty s.id) && is_terminal s.status))
      × (Splits s.plan (decide_task_resume s) ⊎ Refuses s.plan (decide_task_resume s))
unfolding decide_task_resume
decide_task_resume-Splits s =
    let Answers = λ (d : TaskResumeDecision).
      (d.can_resume ≡ (not (is_empty s.id) && not (is_terminal s.status) && not (is_empty s.plan)))
      × (d.terminal ≡ (not (is_empty s.id) && is_terminal s.status))
      × (Splits s.plan d ⊎ Refuses s.plan d) in
    if_cases Answers (is_empty s.id) _ _
      (λ h. (
        rw h refl,
        rw h refl,
        inr (record { stops = refl; no_preserved = refl; no_remaining = refl; after = refl }),
      ))
      (λ named.
        if_cases Answers (is_terminal s.status) _ _
          (λ h. (
            rw (named, h) refl,
            rw (named, h) refl,
            inr (record { stops = refl; no_preserved = refl; no_remaining = refl; after = refl }),
          ))
          (λ live.
            if_cases Answers (is_empty s.plan) _ _
              (λ h. (
                rw (named, live, h) refl,
                rw (named, live) refl,
                inr (record {
                  stops = refl;
                  no_preserved = refl;
                  no_remaining = refl;
                  after = refl;
                }),
              ))
              (λ planned.
                let split =
                  resume_from-Splits s.plan (undecided s) 0 s.plan refl refl refl refl refl tt in
                (rw (named, live, planned) split.resumes, rw (named, live) split.runs, inl split))))
