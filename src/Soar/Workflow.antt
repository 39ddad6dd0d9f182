-- ===== src/Soar/Workflow.antt =====
-- WorkflowBuilder of frameworks/soar-sdk/src/cobalto/soar/workflow_builder.py.
pub mod Nodes
pub mod Wiring
mod Tests
use cobalto.Base.{
  ℕ, zero, suc, ◌+◌, ◌-◌, ltb, String, Bool, true, false, Option, none, some, List, [], ◌∷◌, ◌++◌,
  length, leb, string_eq, ◌==◌, if◌then◌else◌,
}
use cobalto.Base.Dict.{Dict, lookup, insert}
use cobalto.Base.Int.{ℤ, pos, negsuc}
use cobalto.Base.Json.{Value, bool, str, list, obj, Items, Fields, end, field, set_field}

pub data NodeType : Type 0 where
  webhook http_request code if_node switch set_node function slack : NodeType
  email wazuh thehive cortex langgraph qdrant elasticsearch : NodeType

pub record NodePosition : Type 0 where
  pub x : ℕ
  pub y : ℕ

-- But for type_version and disabled, which keep their defaults.
pub record WorkflowNode : Type 0 where
  pub id : String
  pub name : String
  pub kind : NodeType
  pub position : NodePosition
  pub parameters : Fields
  pub credentials : Dict String String

pub record Connection : Type 0 where
  pub source_node : String
  pub target_node : String
  pub source_output : ℤ
  pub target_input : ℤ

pub record WorkflowBuilder : Type 0 where
  pub name : String
  pub description : String
  pub nodes : List WorkflowNode
  pub connections : List Connection
  pub variables : Fields
  pub settings : Fields

unfoldable pub new_builder : String → String → WorkflowBuilder
new_builder name description = record {
  name = name;
  description = description;
  nodes = [];
  connections = [];
  variables = end;
  settings = field "executionOrder" (str "v1") (
      field "saveManualExecutions" (bool true)
        (field "callerPolicy" (str "workflowsFromSameOwner") end));
}

abbrev pub connect : String → String → ℤ → ℤ → WorkflowBuilder → WorkflowBuilder
connect source target source_output target_input b = record b {
  connections =
      b.connections
      ++ record {
        source_node = source;
        target_node = target;
        source_output = source_output;
        target_input = target_input;
      }
        ∷ [];
}

abbrev pub set_variable : String → Value → WorkflowBuilder → WorkflowBuilder
set_variable name value b = record b { variables = set_field name value b.variables }

-- `{"node": …, "type": "main", "index": …}`
pub record Target : Type 0 where
  pub node : String
  pub index : ℤ

-- The targets of each output of a node.
abbrev pub Outputs : Type 0
Outputs = List (List Target)

-- `while len(outputs) <= k: outputs.append([])`. There is no answer where the fuel runs out.
unfoldable pub pad : ℕ → ℕ → Outputs → Option Outputs
pad zero k outputs = none
pad (suc fuel) k outputs =
    let rest = pad fuel k (outputs ++ [] ∷ []) in
    if leb (length outputs) k then rest else some outputs

-- Below zero, the test of the loop is false at once.
unfoldable pub pad_to : ℤ → Outputs → Option Outputs
unfolding pad
pad_to (pos k) outputs = pad (k + 2) k outputs
pad_to (negsuc n) outputs = some outputs

-- The position that an index means in a list of the length, from its end if it is negative.
unfoldable pub position : ℤ → ℕ → Option ℕ
position (pos k) n = if ltb k n then some k else none
position (negsuc i) n = if ltb i n then some (n - suc i) else none

-- What `build` gives: a value, an IndexError, or nothing as the fuel ran out.
pub data Built (A : Type 0) : Type 0 where
  finished : A → Built A
  index_error out_of_fuel : Built A

unfoldable pub append_at : ℕ → Target → Outputs → Outputs
append_at k t [] = []
append_at zero t (o ∷ os) = (o ++ t ∷ []) ∷ os
append_at (suc k) t (o ∷ os) = o ∷ append_at k t os

-- A source that is new has one output with no target.
unfoldable pub outputs_or_new : Option Outputs → Outputs
outputs_or_new none = [] ∷ []
outputs_or_new (some outputs) = outputs

-- `outputs[k].append(target)`
append_to : Option ℕ → Outputs → Connection → Dict String Outputs → Built (Dict String Outputs)
unfolding append_at
append_to none outputs c d = index_error
append_to (some k) outputs c d =
    let target : Target = record { node = c.target_node; index = c.target_input } in
    finished (insert c.source_node (append_at k target outputs) d)

write_outputs : Option Outputs → Connection → Dict String Outputs → Built (Dict String Outputs)
unfolding append_to position
write_outputs none c d = out_of_fuel
write_outputs (some outputs) c d = append_to (position c.source_output (length outputs)) outputs c d

-- The fuel is enough for outputs that are none yet.
unfoldable pub add_connection : Connection → Dict String Outputs → Built (Dict String Outputs)
unfolding pad_to write_outputs outputs_or_new
add_connection c d =
    write_outputs (pad_to c.source_output (outputs_or_new (lookup c.source_node d))) c d

unfoldable pub add_connections :
    List Connection → Built (Dict String Outputs) → Built (Dict String Outputs)
unfolding add_connection
add_connections [] o = o
add_connections (c ∷ cs) out_of_fuel = out_of_fuel
add_connections (c ∷ cs) index_error = index_error
add_connections (c ∷ cs) (finished d) = add_connections cs (add_connection c d)

-- But for the constants and the fresh id of the version.
pub record Workflow : Type 0 where
  pub name : String
  pub nodes : List WorkflowNode
  pub connections : Dict String Outputs
  pub settings : Fields

built : WorkflowBuilder → Built (Dict String Outputs) → Built Workflow
built b out_of_fuel = out_of_fuel
built b index_error = index_error
built b (finished connections) =
    finished
      (record { name = b.name; nodes = b.nodes; connections = connections; settings = b.settings })

unfoldable pub build : WorkflowBuilder → Built Workflow
unfolding built add_connections
build b = built b (add_connections b.connections (finished []))
