-- ===== src/Soar/Engine.antt =====
-- PlaybookEngine: the registered playbooks, and their execution.
pub mod Gates
pub mod Results
pub mod Answers
mod Tests
use cobalto.Base.{
  ℕ, String, Bool, true, false, Option, none, some, List, [], ◌∷◌, map, string_eq, if◌then◌else◌,
}
use cobalto.Base.Dict.{Dict, lookup, insert}
use cobalto.Base.Json.{Fields, end, field, set_field}
use cobalto.Soar.Playbook.{ActionType, action_type_eq, PlaybookStep, active, Playbook}
use cobalto.Soar.Condition.{Texts, Verdict, holds, raises, Evaluator, condition_met}
use cobalto.Soar.Versions.{Storage, Manager, PlaybookVersion, save_version}
use cobalto.Soar.Actions.{
  Handler, State, StepError, evaluator_failed, Execution, run_actions, and_then,
}
use cobalto.Soar.Parallel.{fresh, gather}

pub record Engine (File W : Type 0) : Type 0 where
  pub action_handlers : Dict ActionType (Handler W)
  pub condition_evaluators : Dict String Evaluator
  pub playbooks : Dict String Playbook
  pub executions : Dict String Execution
  pub version_manager : Manager File

pub data Answer : Type 0 where
  returned : Execution → Answer
  -- ValueError: the playbook is not found
  value_error : Answer
  attribute_error : Answer

-- {**a, **b}
unfoldable pub merge : Fields → Fields → Fields
merge a end = a
merge a (field k v b) = merge (set_field k v a) b

abbrev pub new_execution : String → String → ℕ → Playbook → Fields → String → Execution
new_execution id playbook_id now playbook context triggered_by = record {
  id = id;
  playbook_id = playbook_id;
  playbook_version = playbook.metadata.version;
  status = active;
  started_at = some now;
  completed_at = none;
  current_step = none;
  action_results = [];
  errors = [];
  context = context;
  triggered_by = triggered_by;
}

module _ {W : Type 0} (texts : Texts) (handlers : Dict ActionType (Handler W))
    (evaluators : Dict String Evaluator) where
  step_gated : List ℕ → PlaybookStep → Verdict → State W → State W × Option StepError
  unfolding gather run_actions
  step_gated turns step (raises e) s = (s, some (evaluator_failed e))
  step_gated turns step (holds false) s = (s, none)
  step_gated turns step (holds true) s =
      if step.parallel
      then gather texts handlers evaluators turns (map fresh step.actions) s
      else run_actions texts handlers evaluators step.actions s

  -- The body of the loop over the steps, with the turns of its tasks.
  unfoldable pub run_step : List ℕ → PlaybookStep → State W → State W × Option StepError
  unfolding step_gated
  run_step turns step s =
      let s' : State W = record s {
        execution = record s.execution { current_step = some step.id };
      } in
      step_gated turns step (condition_met texts evaluators step.condition s'.context) s'

  unfoldable pub run_steps :
      (String → List ℕ) → List PlaybookStep → State W → State W × Option StepError
  unfolding run_step
  run_steps turns [] s = (s, none)
  run_steps turns (step ∷ steps) s =
      and_then (run_step (turns step.id) step s) (run_steps turns steps)

module _ {W : Type 0} where
  -- What `execute` gives its caller. `PlaybookStatus` has no FAILED, so the handler of exceptions
  -- raises an AttributeError before it has changed the execution.
  pub ended :
      {File : Type 0} → ℕ → Engine File W → State W × Option StepError → Engine File W × W × Answer
  ended now engine (s, none) =
      let x : Execution = record s.execution { status = active; completed_at = some now } in
      (record engine { executions = insert x.id x engine.executions }, s.world, returned x)
  ended now engine (s, some e) =
      let x = s.execution in
      (record engine { executions = insert x.id x engine.executions }, s.world, attribute_error)

module _ {W : Type 0} (texts : Texts) where
  -- The state in which the steps of a playbook start.
  abbrev pub started : String → String → ℕ → Playbook → Fields → String → W → State W
  started id playbook_id now playbook context triggered_by world = record {
    execution = new_execution id playbook_id now playbook context triggered_by;
    context = merge playbook.variables context;
    world = world;
  }

  execute_found :
      {File : Type 0}
      → ℕ
      → Engine File W
      → (String → List ℕ)
      → Option Playbook
      → (Playbook → State W)
      → W
      → Engine File W × W × Answer
  unfolding ended run_steps
  execute_found now engine turns none start world = (engine, world, value_error)
  execute_found now engine turns (some playbook) start world = ended now engine (
      run_steps texts engine.action_handlers engine.condition_evaluators turns playbook.steps
        (start playbook))

  -- With the fresh id, the two readings of the clock and the turns of each parallel step.
  unfoldable pub execute :
      {File : Type 0}
      → String
      → ℕ
      → ℕ
      → (String → List ℕ)
      → String
      → Fields
      → String
      → W
      → Engine File W
      → Engine File W × W × Answer
  unfolding execute_found
  execute id now later turns playbook_id context triggered_by world engine =
      execute_found later engine turns (lookup playbook_id engine.playbooks)
        (λ (playbook : Playbook). started id playbook_id now playbook context triggered_by world)
        world

module _ {File W : Type 0} where
  unfoldable pub register_action_handler : ActionType → Handler W → Engine File W → Engine File W
  register_action_handler action_type handler engine = record engine {
    action_handlers = insert action_type handler engine.action_handlers;
  }

  unfoldable pub register_condition_evaluator : String → Evaluator → Engine File W → Engine File W
  register_condition_evaluator condition_name evaluator engine = record engine {
    condition_evaluators = insert condition_name evaluator engine.condition_evaluators;
  }

  unfoldable pub register_playbook :
      Storage File
      → (Playbook → String)
      → ℕ
      → Playbook
      → Engine File W
      → Engine File W × PlaybookVersion
  unfolding save_version
  register_playbook storage calculate_checksum now playbook engine =
      let (manager, entry) =
        save_version storage calculate_checksum now "" "Initial version" playbook
          engine.version_manager in
      (
        record engine {
          playbooks = insert playbook.metadata.id playbook engine.playbooks;
          version_manager = manager;
        },
        entry,
      )

  unfoldable pub get_execution : String → Engine File W → Option Execution
  get_execution execution_id engine = lookup execution_id engine.executions

  unfoldable pub get_playbook : String → Engine File W → Option Playbook
  get_playbook playbook_id engine = lookup playbook_id engine.playbooks
