-- ===== src/Soar/Actions/Gates.antt =====
-- What an action's gates do to its execution.
use mathlib.Core.Path.{fun_ext}
use cobalto.Base.{
  ◌≡◌, refl, ap, true, false, Option, none, some, List, [], ◌∷◌, map, String, string_eq, ◌∙◌,
}
use cobalto.Base.Dict.{Dict, lookup}
use cobalto.Soar.Playbook.{ActionType, action_type_eq, PlaybookAction}
use cobalto.Soar.Condition.{Texts, Verdict, holds, raises, Evaluator, condition_met}
use cobalto.Soar.Actions.{
  Handler, State, StepError, begin_gated, begin_found, begin_action, carry_on, execute_action,
  run_actions, and_then,
}

-- The action without its approval, its time limits, its retries and its branches.
abbrev pub ungated : PlaybookAction → PlaybookAction
ungated a = record a {
  timeout_seconds = 0;
  retry_count = 0;
  retry_delay_seconds = 0;
  requires_approval = false;
  approval_timeout_seconds = 0;
  on_success = none;
  on_failure = none;
}

module _ {W : Type 0} (texts : Texts) (handlers : Dict ActionType (Handler W))
    (evaluators : Dict String Evaluator) where
  begin_gated-ungated :
      (a : PlaybookAction) (handler : Handler W) (v : Verdict) (s : State W)
      → begin_gated texts handlers evaluators (ungated a) handler v s
        ≡ begin_gated texts handlers evaluators a handler v s
  unfolding begin_gated
  begin_gated-ungated a handler (raises e) s = refl
  begin_gated-ungated a handler (holds false) s = refl
  begin_gated-ungated a handler (holds true) s = refl

  begin_found-ungated :
      (a : PlaybookAction) (found : Option (Handler W)) (s : State W)
      → begin_found texts handlers evaluators (ungated a) found s
        ≡ begin_found texts handlers evaluators a found s
  unfolding begin_found
  begin_found-ungated a none s = refl
  begin_found-ungated a (some handler) s =
      begin_gated-ungated a handler (condition_met texts evaluators a.condition s.context) s

  pub begin_action-ungated :
      (a : PlaybookAction) (s : State W)
      → begin_action texts handlers evaluators (ungated a) s
        ≡ begin_action texts handlers evaluators a s
  unfolding begin_action
  begin_action-ungated a s = begin_found-ungated a (lookup a.action_type handlers) s

  pub execute_action-ungated :
      (a : PlaybookAction) (s : State W)
      → execute_action texts handlers evaluators (ungated a) s
        ≡ execute_action texts handlers evaluators a s
  unfolding execute_action
  execute_action-ungated a s =
      ap (carry_on texts handlers evaluators a.id) (begin_action-ungated a s)

  pub run_actions-ungated :
      (actions : List PlaybookAction) (s : State W)
      → run_actions texts handlers evaluators (map ungated actions) s
        ≡ run_actions texts handlers evaluators actions s
  unfolding run_actions
  run_actions-ungated [] s = refl
  run_actions-ungated (a ∷ actions) s =
      ap
        (λ (r : State W × Option StepError).
          and_then r (run_actions texts handlers evaluators (map ungated actions)))
        (execute_action-ungated a s)
      ∙ ap (and_then (execute_action texts handlers evaluators a s))
          (fun_ext (run_actions-ungated actions))
