-- ===== src/Mcp/Tools.antt =====
-- ToolRegistry of frameworks/mcp-bridge/src/cobalto/mcp/registry/tools.py. A Python function is its
-- name, doc string and parameters, and what a call of it does to the world outside.

use Prim.Native.String.{◌++◌}
use cobalto.Base.{
  ℕ, String, Bool, true, false, not, ◌||◌, Option, none, some, List, [], ◌∷◌, filter, contains,
  string_eq, ◌==◌, if◌then◌else◌,
}
use cobalto.Base.Dict.{Dict, lookup, insert, erase, keys, values, has_key}
use cobalto.Base.Json.{Value, str, list, obj, Fields, end, field, Items, cons, nil, set_field}
use cobalto.Mcp.Protocol.{
  Outcome, returned, on_returned, or_raise, text_content, ToolInputSchema, Tool, ToolCallResult,
  Runtime,
}

-- What a tool's function gives: a finished result, another value, or an exception.
pub data ToolAnswer : Type 0 where
  finished : ToolCallResult → ToolAnswer
  answer : Value → ToolAnswer
  failed : String → ToolAnswer

pub data PythonType : Type 0 where
  str_type int_type float_type bool_type list_type dict_type other_type : PythonType

pub record Parameter : Type 0 where
  pub name : String
  pub annotation : Option PythonType
  pub default : Option Value

unfoldable pub python_type_to_json_type : PythonType → String
python_type_to_json_type str_type = "string"
python_type_to_json_type int_type = "integer"
python_type_to_json_type float_type = "number"
python_type_to_json_type bool_type = "boolean"
python_type_to_json_type list_type = "array"
python_type_to_json_type dict_type = "object"
python_type_to_json_type other_type = "string"

-- `a or b`, where a may be None
unfoldable pub text_or : Option String → String → String
text_or none b = b
text_or (some a) b = if a == "" then b else a

typed : Option PythonType → Fields → Fields
unfolding python_type_to_json_type
typed none fs = fs
typed (some t) fs = set_field "type" (str (python_type_to_json_type t)) fs

with_default : Option Value → Fields → Fields
with_default none fs = fs
with_default (some v) fs = set_field "default" v fs

property_of : Parameter → Value
unfolding typed with_default
property_of p = obj (with_default p.default (typed p.annotation end))

is_bound : Parameter → Bool
is_bound p = p.name == "self" || p.name == "cls"

abbrev no_default : Parameter → Bool
no_default p = elim p.default [ none ↦ true | some v ↦ false ]

properties_of : List Parameter → Fields → Fields
unfolding property_of
properties_of [] fs = fs
properties_of (p ∷ l) fs = properties_of l (set_field p.name (property_of p) fs)

names_in : List Parameter → Items
names_in [] = nil
names_in (p ∷ l) = cons (str p.name) (names_in l)

unfoldable pub build_schema_from_function : List Parameter → Fields
unfolding is_bound properties_of names_in
build_schema_from_function parameters =
    let l = filter (λ (p : Parameter). not (is_bound p)) parameters in
    field "type" (str "object") (
      field "properties" (obj (properties_of l end))
        (field "required" (list (names_in (filter no_default l))) end))

schema_or_built : Option Fields → List Parameter → Fields
unfolding build_schema_from_function
schema_or_built none parameters = build_schema_from_function parameters
schema_or_built (some schema) parameters = schema

module _ (W : Type 0) where
  pub record Function : Type 0 where
    pub func_name : String
    pub doc : Option String
    pub parameters : List Parameter
    pub call : Fields → W → W × ToolAnswer

  pub record ToolDefinition : Type 0 where
    pub name : String
    pub description : String
    pub func : Function
    pub input_schema : Fields
    pub output_schema : Option Fields
    pub tags : List String
    pub requires_approval : Bool
    pub timeout_seconds : ℕ

  -- The arguments of the decorator `register`.
  pub record Registration : Type 0 where
    pub name : Option String
    pub description : Option String
    pub input_schema : Option Fields
    pub output_schema : Option Fields
    pub tags : List String
    pub requires_approval : Bool
    pub timeout_seconds : ℕ

  abbrev pub Registry : Type 0
  Registry = Dict String ToolDefinition

module _ {W : Type 0} where
  abbrev pub tool_name_of : Registration W → Function W → String
  tool_name_of a f = text_or a.name f.func_name

  unfoldable pub definition_of : Registration W → Function W → ToolDefinition W
  unfolding text_or schema_or_built
  definition_of a f = record {
    name = tool_name_of a f;
    description = text_or a.description (text_or f.doc ("Tool: " ++ tool_name_of a f));
    func = f;
    input_schema = schema_or_built a.input_schema f.parameters;
    output_schema = a.output_schema;
    tags = a.tags;
    requires_approval = a.requires_approval;
    timeout_seconds = a.timeout_seconds;
  }

  unfoldable pub register : Registration W → Function W → Registry W → Registry W
  unfolding definition_of
  register a f r = insert (definition_of a f).name (definition_of a f) r

  unfoldable pub unregister : String → Registry W → Registry W × Bool
  unregister name r = if has_key name r then (erase name r, true) else (r, false)

  abbrev pub clear : Registry W → Registry W
  clear r = []

  abbrev pub list_tool_names : Registry W → List String
  list_tool_names r = keys r

unfoldable pub tool_result : String → Bool → ToolCallResult
tool_result s is_error = record {
  content = text_content s ∷ [];
  is_error = is_error;
  metadata = none;
}

unfoldable pub fields_or_empty : Option Fields → Fields
fields_or_empty none = end
fields_or_empty (some fs) = fs

module _ (R : Runtime) where
  unfoldable pub text_of : Value → String
  text_of (str s) = s
  text_of (obj fs) = R.dumps (obj fs)
  text_of (list l) = R.dumps (list l)
  text_of v = R.to_text v

  unfoldable pub result_of : ToolAnswer → ToolCallResult
  unfolding text_of tool_result
  result_of (finished r) = r
  result_of (answer v) = tool_result (text_of v) false
  result_of (failed e) = tool_result ("Error: " ++ e) true

module _ (R : Runtime) {W : Type 0} where
  -- MCPTool(…), which raises where the schema is not one
  to_tool : ToolDefinition W → Outcome Tool
  unfolding on_returned or_raise
  to_tool d =
      on_returned (or_raise (R.complaint (obj d.input_schema)) (R.as_input_schema d.input_schema))
        λ (s : ToolInputSchema).
          returned (record { name = d.name; description = some d.description; input_schema = s })

  all_tools : List (ToolDefinition W) → Outcome (List Tool)
  unfolding on_returned to_tool
  all_tools [] = returned []
  all_tools (d ∷ l) =
      on_returned (to_tool d)
        λ (t : Tool). on_returned (all_tools l) λ (rest : List Tool). returned (t ∷ rest)

  unfoldable pub list_tools : Registry W → Outcome (List Tool)
  unfolding all_tools
  list_tools r = all_tools (values r)

  unfoldable pub get_tools_by_tag : String → Registry W → Outcome (List Tool)
  unfolding all_tools
  get_tools_by_tag tag r =
      all_tools (filter (λ (d : ToolDefinition W). contains tag d.tags) (values r))

  optional_tool : Option (ToolDefinition W) → Outcome (Option Tool)
  unfolding on_returned to_tool
  optional_tool none = returned none
  optional_tool (some d) = on_returned (to_tool d) λ (t : Tool). returned (some t)

  unfoldable pub get_mcp_tool : String → Registry W → Outcome (Option Tool)
  unfolding optional_tool
  get_mcp_tool name r = optional_tool (lookup name r)

  unfoldable pub call_found :
      Option (ToolDefinition W) → String → Option Fields → W → W × ToolCallResult
  unfolding tool_result fields_or_empty result_of
  call_found none name arguments w = (w, tool_result ("Tool not found: " ++ name) true)
  call_found (some d) name arguments w =
      let (w', a) = d.func.call (fields_or_empty arguments) w in (w', result_of R a)

  unfoldable pub call_tool : String → Option Fields → W → Registry W → W × ToolCallResult
  unfolding call_found
  call_tool name arguments w r = call_found (lookup name r) name arguments w
