-- ===== src/Soar/Actions.antt =====
-- PlaybookEngine._execute_action, and the state of an execution. A handler is a function of the
-- rendered parameters, the merged context and the world outside, on which it acts at one instant; it
-- may change the context, which all actions share. The instants in the results are left out.
pub mod Gates
pub mod Records
pub mod Results
use cobalto.Base.{
  ℕ, String, Bool, true, false, Option, none, some, List, [], ◌∷◌, string_eq, ◌==◌, if◌then◌else◌,
}
use cobalto.Base.Dict.{Dict, lookup, insert}
use cobalto.Base.Json.{Value, Fields}
use cobalto.Soar.Playbook.{ActionType, action_type_eq, PlaybookAction, PlaybookStatus}
use cobalto.Soar.Template.{Python, render_dict}
use cobalto.Soar.Condition.{Texts, Verdict, holds, raises, Evaluator, condition_met}

pub data Outcome : Type 0 where
  result : Value → Outcome
  failure : String → Outcome

pub data ActionResult : Type 0 where
  skipped running : ActionResult
  completed : Value → ActionResult
  failed : String → ActionResult

-- The exceptions that leave the steps.
pub data StepError : Type 0 where
  no_handler : ActionType → StepError
  evaluator_failed : String → StepError
  action_failed : String → StepError

pub record Execution : Type 0 where
  pub id : String
  pub playbook_id : String
  pub playbook_version : String
  pub status : PlaybookStatus
  pub started_at : Option ℕ
  pub completed_at : Option ℕ
  pub current_step : Option String
  pub action_results : Dict String ActionResult
  pub errors : List String
  pub context : Fields
  pub triggered_by : String

module _ (W : Type 0) where
  abbrev pub Handler : Type 0
  Handler = Fields → Fields → W → W × Fields × Outcome

  pub record State : Type 0 where
    pub execution : Execution
    pub context : Fields
    pub world : W

  -- How an action goes up to its handler.
  pub data Begun : Type 0 where
    stopped : StepError → Begun
    passed_over : Begun
    ready : Handler → Fields → Begun

-- execution.action_results[id] = r
module _ {W : Type 0} where
  unfoldable pub set_result : String → ActionResult → State W → State W
  set_result id r s = record s {
    execution = record s.execution { action_results = insert id r s.execution.action_results };
  }

  -- What comes next, unless an exception was raised.
  abbrev pub and_then :
      State W × Option StepError
      → (State W → State W × Option StepError)
      → State W × Option StepError
  and_then (s, none) f = f s
  and_then (s, some e) f = (s, some e)

module _ {W : Type 0} (texts : Texts) (handlers : Dict ActionType (Handler W))
    (evaluators : Dict String Evaluator) where
  open texts use {python}

  begin_gated : PlaybookAction → Handler W → Verdict → State W → State W × Begun W
  unfolding set_result
  begin_gated action handler (raises e) s = (s, stopped (evaluator_failed e))
  begin_gated action handler (holds false) s = (set_result action.id skipped s, passed_over)
  begin_gated action handler (holds true) s = (
    set_result action.id running s,
    ready handler (render_dict python action.parameters s.context),
  )

  begin_found : PlaybookAction → Option (Handler W) → State W → State W × Begun W
  unfolding begin_gated
  begin_found action none s = (s, stopped (no_handler action.action_type))
  begin_found action (some handler) s =
      begin_gated action handler (condition_met texts evaluators action.condition s.context) s

  -- _execute_action up to the handler
  unfoldable pub begin_action : PlaybookAction → State W → State W × Begun W
  unfolding begin_found
  begin_action action s = begin_found action (lookup action.action_type handlers) s

  completed_by : String → Outcome → State W → State W × Option StepError
  unfolding set_result
  completed_by id (result v) s = (set_result id (completed v) s, none)
  completed_by id (failure e) s = (set_result id (failed e) s, some (action_failed e))

  -- _execute_action from the call of the handler
  unfoldable pub complete_action :
      String → Handler W → Fields → State W → State W × Option StepError
  unfolding completed_by
  complete_action id handler params s =
      let (world, context, outcome) = handler params s.context s.world in
      completed_by id outcome (record s { world = world; context = context })

  carry_on : String → State W × Begun W → State W × Option StepError
  unfolding complete_action
  carry_on id (s, stopped e) = (s, some e)
  carry_on id (s, passed_over) = (s, none)
  carry_on id (s, ready handler params) = complete_action id handler params s

  unfoldable pub execute_action : PlaybookAction → State W → State W × Option StepError
  unfolding carry_on begin_action
  execute_action action s = carry_on action.id (begin_action action s)

  -- One after the other, up to the first exception.
  unfoldable pub run_actions : List PlaybookAction → State W → State W × Option StepError
  unfolding execute_action
  run_actions [] s = (s, none)
  run_actions (action ∷ actions) s = and_then (execute_action action s) (run_actions actions)
