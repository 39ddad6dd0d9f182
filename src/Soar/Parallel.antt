-- ===== src/Soar/Parallel.antt =====
-- The tasks of a parallel step, under asyncio.gather. They run in turns: a turn takes one of them to
-- its handler, or through it.
pub mod Gates
pub mod Results
pub mod Turns
use cobalto.Base.{ℕ, zero, suc, String, Option, none, some, List, [], ◌∷◌}
use cobalto.Base.Dict.{Dict}
use cobalto.Base.Json.{Fields}
use cobalto.Soar.Playbook.{ActionType, PlaybookAction}
use cobalto.Soar.Condition.{Texts, Evaluator}
use cobalto.Soar.Actions.{
  Handler, State, StepError, Begun, stopped, passed_over, ready, begin_action, complete_action,
}

-- An action to be started, one that waits for its handler, and one that is over.
pub data Task (W : Type 0) : Type 0 where
  fresh : PlaybookAction → Task W
  awaiting : String → Handler W → Fields → Task W
  done : Task W

-- What comes after a turn, unless it raised an exception.
abbrev pub next_turn :
    {W T : Type 0}
    → T × State W × Option StepError
    → (T → State W → State W × Option StepError)
    → State W × Option StepError
next_turn (t, s, none) f = f t s
next_turn (t, s, some e) f = (s, some e)

module _ {W : Type 0} (texts : Texts) (handlers : Dict ActionType (Handler W))
    (evaluators : Dict String Evaluator) where
  begun_task : String → State W × Begun W → Task W × State W × Option StepError
  begun_task id (s, stopped e) = (done, s, some e)
  begun_task id (s, passed_over) = (done, s, none)
  begun_task id (s, ready handler params) = (awaiting id handler params, s, none)

  -- One turn of a task.
  unfoldable pub advance : Task W → State W → Task W × State W × Option StepError
  unfolding begun_task begin_action complete_action
  advance (fresh action) s = begun_task action.id (begin_action texts handlers evaluators action s)
  advance (awaiting id handler params) s =
      let (s', e) = complete_action texts handlers evaluators id handler params s in (done, s', e)
  advance done s = (done, s, none)

  unfoldable pub advance_at :
      ℕ → List (Task W) → State W → List (Task W) × State W × Option StepError
  unfolding advance
  advance_at n [] s = ([], s, none)
  advance_at zero (task ∷ tasks) s = let (task', s', e) = advance task s in (task' ∷ tasks, s', e)
  advance_at (suc n) (task ∷ tasks) s =
      let (tasks', s', e) = advance_at n tasks s in (task ∷ tasks', s', e)

  -- The tasks that the turns have left, each to its end.
  unfoldable pub settle : List (Task W) → State W → State W × Option StepError
  unfolding advance
  settle [] s = (s, none)
  settle (task ∷ tasks) s =
      next_turn (advance task s)
        λ task' s'. next_turn (advance task' s') λ task'' s''. settle tasks s''

  -- asyncio.gather, up to the first exception.
  unfoldable pub gather : List ℕ → List (Task W) → State W → State W × Option StepError
  unfolding settle advance_at
  gather [] tasks s = settle tasks s
  gather (n ∷ turns) tasks s = next_turn (advance_at n tasks s) λ tasks' s'. gather turns tasks' s'
