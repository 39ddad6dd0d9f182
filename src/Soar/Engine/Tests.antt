-- ===== src/Soar/Engine/Tests.antt =====
-- The engine at concrete inputs.
use Prim.Native.Char.{Char, code}
use cobalto.Base.{
  ℕ, ◌≡◌, ◌≢◌, refl, String, Bool, true, false, none, some, List, [], ◌∷◌, ◌++◌, All, string_eq,
  Discrete→DecEq,
}
use cobalto.Base.Dict.{lookup, insert}
use cobalto.Base.Json.{str, end}
use cobalto.Soar.Playbook.{
  ActionType, notify, block_ip, ActionType-discrete, action_type_eq, PlaybookAction, PlaybookStep,
  PlaybookMetadata, Playbook, draft, active,
}
use cobalto.Soar.Template.{render_dict}
use cobalto.Soar.Condition.{Texts, condition_met}
use cobalto.Soar.Versions.{start}
use cobalto.Soar.Actions.{
  Handler, result, failure, completed, Execution, begin_action, complete_action, execute_action,
  run_actions, set_result,
}
use cobalto.Soar.Actions.Records.{AllRecorded}
use cobalto.Soar.Parallel.{advance, advance_at, settle, gather}
use cobalto.Soar.Engine.{
  Engine, Answer, returned, attribute_error, run_step, run_steps, execute, get_execution, merge,
}
use cobalto.Soar.Engine.Gates.{effect, with_playbook, ungated_playbook, execute-ungated_playbook}
use cobalto.Soar.Engine.Answers.{IsSettled, IsUnreported, execute-IsSettled, execute-IsUnreported}

no_words : (c : Char) → false ≡ true → (code c ≢ b'.') × (code c ≢ b'{') × (code c ≢ b'}')
no_words c h = cc

abbrev texts : Texts
texts = record {
  python = record {
    is_word = λ c. false;
    marks_no_words = no_words;
    text_of = λ v. "";
    attribute = λ name v. none;
    split_dots = λ text. text ∷ [];
  };
  split = λ text. text ∷ [];
  strip_quotes = λ text. text;
  includes = λ a b. false;
  float_test = λ t v text. none;
}

-- The world is the log of the calls.
abbrev tell : Handler (List String)
tell params context calls = (calls ++ "notify" ∷ [], context, result (str "sent"))

abbrev refuse : Handler (List String)
refuse params context calls = (calls ++ "block" ∷ [], context, failure "timeout")

abbrev action : String → ActionType → PlaybookAction
action id kind = record {
  id = id;
  name = id;
  action_type = kind;
  parameters = end;
  timeout_seconds = 300;
  retry_count = 3;
  retry_delay_seconds = 1000;
  requires_approval = true;
  approval_timeout_seconds = 600;
  on_success = none;
  on_failure = some "s9";
  condition = none;
  metadata = end;
}

abbrev step : String → Bool → List PlaybookAction → PlaybookStep
step id parallel actions = record {
  id = id;
  name = id;
  description = "";
  actions = actions;
  parallel = parallel;
  condition = none;
  next_step = none;
}

abbrev metadata : PlaybookMetadata
metadata = record {
  id = "p1";
  name = "contain";
  description = "";
  version = "1.0.0";
  author = "";
  tags = [];
  triggers = [];
  enabled = true;
  status = draft;
  created_at = 0;
  updated_at = 0;
  created_by = "";
  updated_by = "";
  checksum = "";
  min_cobalto_version = "0.1.0";
  references = [];
}

abbrev playbook : List PlaybookStep → Playbook
playbook steps = record { metadata = metadata; steps = steps; variables = end; secrets = [] }

abbrev telling : Playbook
telling = playbook (
    step "s1" false (action "a1" notify ∷ [])
    ∷ step "s2" true (action "a2" notify ∷ action "a3" notify ∷ [])
    ∷ [])

abbrev blocking : Playbook
blocking = playbook (step "s1" false (action "a1" block_ip ∷ action "a2" notify ∷ []) ∷ [])

abbrev engine : Playbook → Engine String (List String)
engine p = record {
  action_handlers = (notify, tell) ∷ (block_ip, refuse) ∷ [];
  condition_evaluators = [];
  playbooks = ("p1", p) ∷ [];
  executions = [];
  version_manager = start [];
}

-- The second task of the parallel step starts and ends before the first.
abbrev turns : String → List ℕ
turns id = 1 ∷ 1 ∷ []

abbrev told : Execution
told = record {
  id = "e1";
  playbook_id = "p1";
  playbook_version = "1.0.0";
  status = active;
  started_at = some 10;
  completed_at = some 20;
  current_step = some "s2";
  action_results =
      ("a1", completed (str "sent"))
      ∷ ("a3", completed (str "sent"))
      ∷ ("a2", completed (str "sent"))
      ∷ [];
  errors = [];
  context = end;
  triggered_by = "ana";
}

abbrev run : Playbook → Engine String (List String) × List String × Answer
run p = execute texts "e1" 10 20 turns "p1" end "ana" [] (engine p)

run_tells : (run telling).2 ≡ returned told
unfolding execute run_steps run_step run_actions execute_action begin_action complete_action
    set_result gather settle advance_at advance condition_met lookup insert merge render_dict
    ActionType-discrete Discrete→DecEq
run_tells = refl

found : (p : Playbook) → lookup "p1" (engine p).playbooks ≡ some p
unfolding lookup
found p = refl

execute-IsSettled_example :
    IsSettled told
    × All (λ (s : PlaybookStep). s.condition ≡ none → AllRecorded s.actions told) telling.steps
execute-IsSettled_example =
    execute-IsSettled texts "e1" 10 20 turns "p1" telling end "ana" [] (engine telling) told
      (found telling) run_tells

-- The failed action ends the execution, and the next one is never called.
run_blocks : ((run blocking).1 ≡ "block" ∷ []) × ((run blocking).2 ≡ attribute_error)
unfolding execute run_steps run_step run_actions execute_action begin_action complete_action
    set_result condition_met lookup insert merge render_dict ActionType-discrete Discrete→DecEq
run_blocks = (refl, refl)

execute-IsUnreported_example :
    (x : Execution) × (get_execution "e1" (run blocking).0 ≡ some x)
    × IsUnreported x (run blocking).2
execute-IsUnreported_example =
    execute-IsUnreported texts "e1" 10 20 turns "p1" blocking end "ana" [] (engine blocking)
      (found blocking)

execute-ungated_playbook_example :
    effect (
      execute texts "e1" 10 20 turns "p1" end "ana" []
        (with_playbook "p1" blocking (engine telling)))
    ≡ effect (
        execute texts "e1" 10 20 turns "p1" end "ana" []
          (with_playbook "p1" (ungated_playbook blocking) (engine telling)))
execute-ungated_playbook_example =
    execute-ungated_playbook texts "e1" 10 20 turns "p1" blocking end "ana" [] (engine telling)
