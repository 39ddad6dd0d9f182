-- ===== src/Soar/Engine/Answers.antt =====
-- What an execution of a playbook leaves: the results of its actions, and its status.
use cobalto.Base.{
  ℕ, ◌≡◌, refl, sym, subst, ◌∙◌, ap, ◌⊎◌, inl, inr, String, true, Option, none, some, List, [],
  string_eq, Bool-cases, All,
}
use cobalto.Base.Dict.{lookup, insert, lookup-insert_self}
use cobalto.Base.Json.{Fields}
use cobalto.Soar.Playbook.{PlaybookStep, Playbook, active}
use cobalto.Soar.Condition.{Texts}
use cobalto.Soar.Actions.{ActionResult, StepError, Execution, State}
use cobalto.Soar.Actions.Records.{AllRecorded, is_settled, Pending, Ends, Always}
use cobalto.Soar.Engine.Results.{StepsRecorded, run_steps-StepsRecorded, run_steps-keeps}
use cobalto.Soar.Engine.{
  Engine, Answer, returned, attribute_error, run_steps, execute_found, started, ended, execute,
  get_execution,
}

returned_inj : {x y : Execution} → returned x ≡ returned y → x ≡ y
returned_inj h = cc

-- The fields of an execution that say how it went.
abbrev Bare : String → Execution → Type 0
Bare id x = (x.id ≡ id) × (x.status ≡ active) × (x.errors ≡ []) × (x.completed_at ≡ none)

-- How `execute` leaves a stored execution.
abbrev pub IsUnreported : Execution → Answer → Type 0
IsUnreported x answer =
    (x.status ≡ active)
    × (x.errors ≡ [])
    × ((answer ≡ returned x) ⊎ ((answer ≡ attribute_error) × (x.completed_at ≡ none)))

-- Every result is settled: its action was skipped or completed.
abbrev pub IsSettled : Execution → Type 0
IsSettled x =
    (id : String) (r : ActionResult) → lookup id x.action_results ≡ some r → is_settled r ≡ true

none-Pending : (x : Execution) → Pending (λ j. ⊥) x → IsSettled x
none-Pending x h id r found = elim (Bool-cases (is_settled r)) [
  | inl yes_ ↦ yes_
  | inr unsettled ↦ absurd (h id r found unsettled)
]

module _ {File W : Type 0} (texts : Texts) where
  pub execute-found :
      (id : String) (now later : ℕ) (turns : String → List ℕ) (playbook_id : String) (p : Playbook)
      (context : Fields) (triggered_by : String) (world : W) (engine : Engine File W)
      → lookup playbook_id engine.playbooks ≡ some p
      → execute texts id now later turns playbook_id context triggered_by world engine
        ≡ ended later engine (
            run_steps texts engine.action_handlers engine.condition_evaluators turns p.steps
              (started texts id playbook_id now p context triggered_by world))
  unfolding execute execute_found
  execute-found id now later turns playbook_id p context triggered_by world engine found =
      ap
        (λ (o : Option Playbook).
          execute_found texts later engine turns o
            (λ (q : Playbook). started texts id playbook_id now q context triggered_by world) world)
        found

  ended-returned :
      (P : Execution → Type 0) (now : ℕ) (engine : Engine File W) (r : State W × Option StepError)
      (x : Execution)
      → ((y : Execution) → P y → P (record y { status = active; completed_at = some now }))
      → Ends P r
      → (ended now engine r).2 ≡ returned x
      → P x
  unfolding ended
  ended-returned P now engine (s, none) x closed h e =
      subst P (returned_inj e) (closed s.execution h)
  ended-returned P now engine (s, some f) x closed h e = cc

  -- When `execute` returns an execution of a registered playbook, every result in it is that of a
  -- skipped or completed action, and each action of each step without a condition has one, be the
  -- step sequential or parallel, and whatever turns the tasks of the parallel steps take.
  pub execute-IsSettled :
      (id : String) (now later : ℕ) (turns : String → List ℕ) (playbook_id : String) (p : Playbook)
      (context : Fields) (triggered_by : String) (world : W) (engine : Engine File W)
      (x : Execution)
      → lookup playbook_id engine.playbooks ≡ some p
      → (execute texts id now later turns playbook_id context triggered_by world engine).2
        ≡ returned x
      → IsSettled x
        × All (λ (step : PlaybookStep). step.condition ≡ none → AllRecorded step.actions x) p.steps
  unfolding lookup
  execute-IsSettled id now later turns playbook_id p context triggered_by world engine x found
        answered =
      let s = started texts id playbook_id now p context triggered_by world in
      let r = run_steps texts engine.action_handlers engine.condition_evaluators turns p.steps s in
      let done_ : Ends (λ y. Pending (λ j. ⊥) y × StepsRecorded p.steps y) r =
        run_steps-StepsRecorded texts engine.action_handlers engine.condition_evaluators turns
          p.steps s (λ j q e u. cc) in
      let (pending, recorded) =
        ended-returned (λ y. Pending (λ j. ⊥) y × StepsRecorded p.steps y) later engine r x
          (λ y k. k) done_
          (sym (
              ap (λ (a : Engine File W × W × Answer). a.2)
                (execute-found id now later turns playbook_id p context triggered_by world engine
                  found))
            ∙ answered) in
      (none-Pending x pending, recorded)

  ended-IsUnreported :
      (id : String) (now : ℕ) (engine : Engine File W) (r : State W × Option StepError)
      → Always (Bare id) r
      → (x : Execution) × (get_execution id (ended now engine r).0 ≡ some x)
        × IsUnreported x (ended now engine r).2
  unfolding ended get_execution
  ended-IsUnreported id now engine (s, none) (same, status, errors, open_) =
      let x : Execution = record s.execution { status = active; completed_at = some now } in
      (
        x,
        subst (λ (i : String). lookup i (insert x.id x engine.executions) ≡ some x) same
            (lookup-insert_self x.id x engine.executions),
        (refl, errors, inl refl),
      )
  ended-IsUnreported id now engine (s, some e) (same, status, errors, open_) =
      let x = s.execution in
      (
        x,
        subst (λ (i : String). lookup i (insert x.id x engine.executions) ≡ some x) same
            (lookup-insert_self x.id x engine.executions),
        (status, errors, inr (refl, open_)),
      )

  -- However an execution of a registered playbook ends, the stored one is active and names no error;
  -- if `execute` does not return it, its caller gets an AttributeError, and the stored one is not
  -- completed.
  pub execute-IsUnreported :
      (id : String) (now later : ℕ) (turns : String → List ℕ) (playbook_id : String) (p : Playbook)
      (context : Fields) (triggered_by : String) (world : W) (engine : Engine File W)
      → lookup playbook_id engine.playbooks ≡ some p
      → let (engine', world', answer) =
          execute texts id now later turns playbook_id context triggered_by world engine in
        (x : Execution) × (get_execution id engine' ≡ some x) × IsUnreported x answer
  execute-IsUnreported id now later turns playbook_id p context triggered_by world engine found =
      let s = started texts id playbook_id now p context triggered_by world in
      let r = run_steps texts engine.action_handlers engine.condition_evaluators turns p.steps s in
      subst
        (λ (a : Engine File W × W × Answer).
          (x : Execution) × (get_execution id a.0 ≡ some x) × IsUnreported x a.2)
        (sym
          (execute-found id now later turns playbook_id p context triggered_by world engine found))
        (ended-IsUnreported id later engine r (
          run_steps-keeps texts engine.action_handlers engine.condition_evaluators (Bare id)
            (λ x j q k. k) (λ x c k. k) turns p.steps s (refl, refl, refl, refl)))
