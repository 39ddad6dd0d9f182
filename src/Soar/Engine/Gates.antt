-- ===== src/Soar/Engine/Gates.antt =====
-- The engine reads neither the approvals of actions nor their time limits, retries and branches.
use mathlib.Core.Path.{fun_ext}
use cobalto.Base.{
  ℕ, ◌≡◌, refl, sym, ◌∙◌, ap, String, true, false, Option, none, some, List, [], ◌∷◌, map,
  string_eq, Bool-cases, inl, inr,
}
use cobalto.Base.Dict.{Dict, insert, lookup-insert_self}
use cobalto.Base.Json.{Fields}
use cobalto.Soar.Playbook.{ActionType, PlaybookStep, Playbook}
use cobalto.Soar.Condition.{Texts, Verdict, holds, raises, Evaluator, condition_met}
use cobalto.Soar.Actions.{Handler, State, StepError, and_then}
use cobalto.Soar.Actions.Gates.{ungated, run_actions-ungated}
use cobalto.Soar.Parallel.Gates.{gather-ungated}
use cobalto.Soar.Engine.Answers.{execute-found}
use cobalto.Soar.Engine.{Engine, Answer, step_gated, run_step, run_steps, started, ended, execute}

abbrev pub ungated_step : PlaybookStep → PlaybookStep
ungated_step step = record step { actions = map ungated step.actions; next_step = none }

abbrev pub ungated_playbook : Playbook → Playbook
ungated_playbook p = record p { steps = map ungated_step p.steps }

module _ {W : Type 0} (texts : Texts) (handlers : Dict ActionType (Handler W))
    (evaluators : Dict String Evaluator) where
  step_gated-ungated :
      (turns : List ℕ) (step : PlaybookStep) (v : Verdict) (s : State W)
      → step_gated texts handlers evaluators turns (ungated_step step) v s
        ≡ step_gated texts handlers evaluators turns step v s
  unfolding step_gated
  step_gated-ungated turns step (raises e) s = refl
  step_gated-ungated turns step (holds false) s = refl
  step_gated-ungated turns step (holds true) s = elim (Bool-cases step.parallel) [
    | inl h ↦ rw h (gather-ungated texts handlers evaluators turns step.actions s)
    | inr h ↦ rw h (run_actions-ungated texts handlers evaluators step.actions s)
  ]

  run_step-ungated :
      (turns : List ℕ) (step : PlaybookStep) (s : State W)
      → run_step texts handlers evaluators turns (ungated_step step) s
        ≡ run_step texts handlers evaluators turns step s
  unfolding run_step
  run_step-ungated turns step s =
      step_gated-ungated turns step (condition_met texts evaluators step.condition s.context)
        (record s { execution = record s.execution { current_step = some step.id } })

  run_steps-ungated :
      (turns : String → List ℕ) (steps : List PlaybookStep) (s : State W)
      → run_steps texts handlers evaluators turns (map ungated_step steps) s
        ≡ run_steps texts handlers evaluators turns steps s
  unfolding run_steps
  run_steps-ungated turns [] s = refl
  run_steps-ungated turns (step ∷ steps) s =
      ap
        (λ (r : State W × Option StepError).
          and_then r (run_steps texts handlers evaluators turns (map ungated_step steps)))
        (run_step-ungated (turns step.id) step s)
      ∙ ap (and_then (run_step texts handlers evaluators (turns step.id) step s))
          (fun_ext (run_steps-ungated turns steps))

module _ {File W : Type 0} where
  abbrev pub with_playbook : String → Playbook → Engine File W → Engine File W
  with_playbook playbook_id p engine = record engine {
    playbooks = insert playbook_id p engine.playbooks;
  }

  -- The world and the answer that an execution ends with.
  abbrev pub effect : Engine File W × W × Answer → W × Answer
  effect (engine, world, answer) = (world, answer)

module _ {File W : Type 0} (texts : Texts) where
  execute-run :
      (id : String) (now later : ℕ) (turns : String → List ℕ) (playbook_id : String) (p : Playbook)
      (context : Fields) (triggered_by : String) (world : W) (engine : Engine File W)
      → execute texts id now later turns playbook_id context triggered_by world
          (with_playbook playbook_id p engine)
        ≡ ended later (with_playbook playbook_id p engine) (
            run_steps texts engine.action_handlers engine.condition_evaluators turns p.steps
              (started texts id playbook_id now p context triggered_by world))
  execute-run id now later turns playbook_id p context triggered_by world engine =
      execute-found texts id now later turns playbook_id p context triggered_by world
        (with_playbook playbook_id p engine) (lookup-insert_self playbook_id p engine.playbooks)

  ended_alike :
      (now : ℕ) (e₁ e₂ : Engine File W) (r : State W × Option StepError)
      → effect (ended now e₁ r) ≡ effect (ended now e₂ r)
  unfolding ended
  ended_alike now e₁ e₂ (s, none) = refl
  ended_alike now e₁ e₂ (s, some e) = refl

  -- The world and the answer of an execution are the same when the approvals, the time limits, the
  -- retries and the branches of all actions and the next steps are taken out of the playbook.
  pub execute-ungated_playbook :
      (id : String) (now later : ℕ) (turns : String → List ℕ) (playbook_id : String) (p : Playbook)
      (context : Fields) (triggered_by : String) (world : W) (engine : Engine File W)
      → effect (
          execute texts id now later turns playbook_id context triggered_by world
            (with_playbook playbook_id p engine))
        ≡ effect (
            execute texts id now later turns playbook_id context triggered_by world
              (with_playbook playbook_id (ungated_playbook p) engine))
  execute-ungated_playbook id now later turns playbook_id p context triggered_by world engine =
      let run = λ (q : Playbook).
        run_steps texts engine.action_handlers engine.condition_evaluators turns q.steps
          (started texts id playbook_id now p context triggered_by world) in
      let q = ungated_playbook p in
      ap effect (execute-run id now later turns playbook_id p context triggered_by world engine)
      ∙ ap
          (λ (r : State W × Option StepError).
            effect (ended later (with_playbook playbook_id p engine) r))
          (sym (
            run_steps-ungated texts engine.action_handlers engine.condition_evaluators turns p.steps
              (started texts id playbook_id now p context triggered_by world)))
      ∙ ended_alike later (with_playbook playbook_id p engine) (with_playbook playbook_id q engine)
          (run q)
      ∙ sym (
          ap effect
            (execute-run id now later turns playbook_id q context triggered_by world engine))
