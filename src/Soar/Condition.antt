-- ===== src/Soar/Condition.antt =====
-- PlaybookEngine._evaluate_condition: the conditions of steps and actions.
use cobalto.Base.{
  String, Bool, true, false, not, Option, none, some, List, [], ◌∷◌, string_eq, ◌==◌, if◌then◌else◌,
}
use cobalto.Base.Dict.{Dict, lookup}
use cobalto.Base.Json.{Value, null, Fields}
use cobalto.Soar.Template.{Python, render, resolve_variable}

-- float(value) compared with float(text).
pub data FloatTest : Type 0 where
  above below at_least at_most : FloatTest

-- What the evaluation of conditions uses of Python.
pub record Texts : Type 0 where
  pub python : Python
  pub split : String → List String
  pub strip_quotes : String → String
  -- text in text
  pub includes : String → String → Bool
  -- `none` where float raises
  pub float_test : FloatTest → Value → String → Option Bool

-- A condition that is evaluated, or an evaluator that raises.
pub data Verdict : Type 0 where
  holds : Bool → Verdict
  raises : String → Verdict

abbrev pub Evaluator : Type 0
Evaluator = Fields → Verdict

module _ (texts : Texts) where
  open texts use {python, split, strip_quotes, includes, float_test}

  or_false : Option Bool → Bool
  or_false none = false
  or_false (some b) = b

  compare_by : String → Value → String → Bool
  unfolding or_false
  compare_by op v value =
      let shown = python.text_of v in
      if op == "=="
      then shown == value
      else if op == "!="
      then not (shown == value)
      else if op == ">"
      then or_false (float_test above v value)
      else if op == "<"
      then or_false (float_test below v value)
      else if op == ">="
      then or_false (float_test at_least v value)
      else if op == "<="
      then or_false (float_test at_most v value)
      else if op == "contains"
      then includes value shown
      else if op == "not_contains"
      then not (includes value shown)
      else false

  test_value : Value → String → String → Bool
  unfolding compare_by
  test_value null op value = false
  test_value v op value = compare_by op v (strip_quotes value)

  simple_condition : List String → Fields → Bool
  unfolding test_value
  simple_condition (name ∷ op ∷ value ∷ []) context =
      test_value (resolve_variable python name context) op value
  simple_condition _ context = false

  unfoldable pub evaluate_condition : Dict String Evaluator → String → Fields → Verdict
  unfolding simple_condition
  evaluate_condition evaluators condition context = elim (lookup condition evaluators) [
    | none ↦ holds (simple_condition (split condition) context)
    | some evaluator ↦ evaluator context
  ]

  -- A condition of a step or an action, which may be missing or empty.
  unfoldable pub condition_met : Dict String Evaluator → Option String → Fields → Verdict
  unfolding evaluate_condition
  condition_met evaluators none context = holds true
  condition_met evaluators (some condition) context =
      if condition == ""
      then holds true
      else evaluate_condition evaluators (render python condition context) context
