-- ===== src/Soar/Engine/Results.antt =====
-- The results that the steps of a playbook leave in its execution.
use cobalto.Base.{
  ℕ, ◌≡◌, ap, inl, inr, String, true, false, Option, none, some, List, [], ◌∷◌, map, string_eq,
  Bool-cases, All,
}
use cobalto.Base.Dict.{Dict}
use cobalto.Soar.Playbook.{ActionType, PlaybookAction, PlaybookStep}
use cobalto.Soar.Condition.{Texts, Verdict, holds, raises, Evaluator, condition_met}
use cobalto.Soar.Actions.{Execution, Handler, State}
use cobalto.Soar.Actions.Records.{
  Closed, Recorded-Closed, AllRecorded, Pending, Ends, and_then-Ends, Ends-implies, Always,
  and_then-Always, Ends-Always,
}
use cobalto.Soar.Actions.Results.{run_actions-keeps, run_actions-AllRecorded}
use cobalto.Soar.Parallel.{fresh}
use cobalto.Soar.Parallel.Results.{gather-keeps, gather-AllRecorded}
use cobalto.Soar.Engine.{step_gated, run_step, run_steps}

not_true : holds false ≡ holds true → ⊥
not_true h = cc

AllRecorded-Closed : (actions : List PlaybookAction) → Closed (AllRecorded actions)
AllRecorded-Closed [] x id r h = h
AllRecorded-Closed (a ∷ actions) x id r (h, k) =
    (Recorded-Closed a.id x id r h, AllRecorded-Closed actions x id r k)

-- A property that a new step does not end either.
abbrev pub StepClosed : (Execution → Type 0) → Type 0
StepClosed Q = (x : Execution) (step : Option String) → Q x → Q (record x { current_step = step })

-- The actions of the steps without a condition have results.
abbrev pub StepsRecorded : List PlaybookStep → Execution → Type 0
StepsRecorded steps x =
    All (λ (step : PlaybookStep). step.condition ≡ none → AllRecorded step.actions x) steps

module _ {W : Type 0} (texts : Texts) (handlers : Dict ActionType (Handler W))
    (evaluators : Dict String Evaluator) where
  module _ (Q : Execution → Type 0) (closed : Closed Q) (step_closed : StepClosed Q) where
    step_gated-keeps :
        (turns : List ℕ) (step : PlaybookStep) (v : Verdict) (s : State W)
        → Q s.execution
        → Always Q (step_gated texts handlers evaluators turns step v s)
    unfolding step_gated
    step_gated-keeps turns step (raises e) s h = h
    step_gated-keeps turns step (holds false) s h = h
    step_gated-keeps turns step (holds true) s h = elim (Bool-cases step.parallel) [
      | inl p ↦
          rw p (gather-keeps texts handlers evaluators Q closed turns (map fresh step.actions) s h)
      | inr p ↦ rw p (run_actions-keeps texts handlers evaluators Q closed step.actions s h)
    ]

    run_step-keeps :
        (turns : List ℕ) (step : PlaybookStep) (s : State W)
        → Q s.execution
        → Always Q (run_step texts handlers evaluators turns step s)
    unfolding run_step
    run_step-keeps turns step s h =
        step_gated-keeps turns step (condition_met texts evaluators step.condition s.context)
          (record s { execution = record s.execution { current_step = some step.id } })
          (step_closed s.execution (some step.id) h)

    pub run_steps-keeps :
        (turns : String → List ℕ) (steps : List PlaybookStep) (s : State W)
        → Q s.execution
        → Always Q (run_steps texts handlers evaluators turns steps s)
    unfolding run_steps
    run_steps-keeps turns [] s h = h
    run_steps-keeps turns (step ∷ steps) s h =
        and_then-Always Q (run_step texts handlers evaluators (turns step.id) step s)
          (run_steps texts handlers evaluators turns steps)
          (run_step-keeps (turns step.id) step s h) (run_steps-keeps turns steps)

  -- Nothing is pending, and an entered step has the results of its actions.
  abbrev StepDone : Option String → List PlaybookAction → Execution → Type 0
  StepDone condition actions x = Pending (λ j. ⊥) x × (condition ≡ none → AllRecorded actions x)

  entered :
      (turns : List ℕ) (step : PlaybookStep) (s : State W)
      → Pending (λ j. ⊥) s.execution
      → Ends
          (λ x. Pending (λ j. ⊥) x × AllRecorded step.actions x)
          (step_gated texts handlers evaluators turns step (holds true) s)
  unfolding step_gated
  entered turns step s h = elim (Bool-cases step.parallel) [
    | inl p ↦ rw p (gather-AllRecorded texts handlers evaluators (λ j. ⊥) turns step.actions s h)
    | inr p ↦ rw p (run_actions-AllRecorded texts handlers evaluators (λ j. ⊥) step.actions s h)
  ]

  step_gated-StepDone :
      (turns : List ℕ) (step : PlaybookStep) (v : Verdict) (s : State W)
      → (step.condition ≡ none → v ≡ holds true)
      → Pending (λ j. ⊥) s.execution
      → Ends
          (StepDone step.condition step.actions)
          (step_gated texts handlers evaluators turns step v s)
  unfolding step_gated
  step_gated-StepDone turns step (raises e) s open_ h = tt
  step_gated-StepDone turns step (holds false) s entry h = (h, λ e. absurd (not_true (entry e)))
  step_gated-StepDone turns step (holds true) s entry h =
      Ends-implies (λ x. Pending (λ j. ⊥) x × AllRecorded step.actions x)
        (StepDone step.condition step.actions)
        (step_gated texts handlers evaluators turns step (holds true) s) (λ x k. (k.0, λ e. k.1))
        (entered turns step s h)

  run_step-StepDone :
      (turns : List ℕ) (step : PlaybookStep) (s : State W)
      → Pending (λ j. ⊥) s.execution
      → Ends
          (StepDone step.condition step.actions)
          (run_step texts handlers evaluators turns step s)
  unfolding run_step condition_met
  run_step-StepDone turns step s h =
      step_gated-StepDone turns step (condition_met texts evaluators step.condition s.context)
        (record s { execution = record s.execution { current_step = some step.id } })
        (λ e. ap (λ (c : Option String). condition_met texts evaluators c s.context) e) h

  pub run_steps-StepsRecorded :
      (turns : String → List ℕ) (steps : List PlaybookStep) (s : State W)
      → Pending (λ j. ⊥) s.execution
      → Ends
          (λ x. Pending (λ j. ⊥) x × StepsRecorded steps x)
          (run_steps texts handlers evaluators turns steps s)
  unfolding run_steps
  run_steps-StepsRecorded turns [] s h = (h, tt)
  run_steps-StepsRecorded turns (step ∷ steps) s h =
      let Q = λ (x : Execution). step.condition ≡ none → AllRecorded step.actions x in
      let later = run_steps texts handlers evaluators turns steps in
      and_then-Ends (StepDone step.condition step.actions)
        (λ x. Pending (λ j. ⊥) x × StepsRecorded (step ∷ steps) x)
        (run_step texts handlers evaluators (turns step.id) step s) later
        (run_step-StepDone (turns step.id) step s h)
        λ s' (pending, recorded).
          Ends-implies (λ x. (Pending (λ j. ⊥) x × StepsRecorded steps x) × Q x)
            (λ x. Pending (λ j. ⊥) x × StepsRecorded (step ∷ steps) x) (later s')
            (λ x k. (k.0.0, (k.1, k.0.1)))
            (Ends-Always (λ x. Pending (λ j. ⊥) x × StepsRecorded steps x) Q (later s')
              (run_steps-StepsRecorded turns steps s' pending)
              (run_steps-keeps Q (λ x id q k e. AllRecorded-Closed step.actions x id q (k e))
                (λ x c k. k) turns steps s' recorded))
