-- ===== src/Mcp/Adapter.antt =====
-- UnifiedMCPAdapter of frameworks/mcp-bridge/src/cobalto/mcp/registry/unified_adapter.py, over the
-- agents' registry. A tool's result is a JSON value.
pub mod Agreement
use Prim.Native.String.{◌++◌}
use cobalto.Base.{
  ℕ, ◌≡◌, ◌≢◌, refl, ap, String, Bool, true, false, Option, none, some, List, [], ◌∷◌, map,
  string_eq, ◌==◌, if◌then◌else◌,
}
use cobalto.Base.Dict.{Dict, lookup, keys, values, has_key}
use cobalto.Base.Json.{
  Value, null, bool, num, str, decimal, list, nil, obj, Fields, end, get_field_or, set_field, field,
}
use cobalto.Agent.Tools as Agents
use cobalto.Agent.Tools.{
  ToolOutcome, result, call_result, error, raised_key_error, ToolReply, answered, key_error,
  execute, execute_with, called, Executor, find_tools_by_tag,
}
use cobalto.Mcp.Protocol.{
  Outcome, on_returned, or_raise, returned, ToolInputSchema, Tool, ToolCallResult, Runtime,
  text_content,
}
use cobalto.Mcp.Tools.{
  tool_result, result_of, answer, failed, fields_or_empty, call_tool, Function, Registry,
  ToolDefinition, call_found, list_tools, list_tool_names,
}
use cobalto.Mcp.Source.{ToolSource}

-- The three keys of `parameters`, with their defaults.
schema_of : Fields → Fields
schema_of fs = field "type" (get_field_or "type" (str "object") fs) (
    field "properties" (get_field_or "properties" (obj end) fs)
      (field "required" (get_field_or "required" (list nil) fs) end))

module _ (R : Runtime) where
  unfoldable pub to_mcp_tool : Agents.ToolDefinition → Outcome Tool
  unfolding on_returned or_raise schema_of
  to_mcp_tool d =
      on_returned
        (or_raise (R.complaint (obj d.parameters)) (R.as_input_schema (schema_of d.parameters)))
        λ (s : ToolInputSchema).
          returned (record { name = d.name; description = some d.description; input_schema = s })

  all_mcp_tools : List Agents.ToolDefinition → Outcome (List Tool)
  unfolding on_returned to_mcp_tool
  all_mcp_tools [] = returned []
  all_mcp_tools (d ∷ l) =
      on_returned (to_mcp_tool d)
        λ (t : Tool). on_returned (all_mcp_tools l) λ (rest : List Tool). returned (t ∷ rest)

  optional_mcp_tool : Option Agents.ToolDefinition → Outcome (Option Tool)
  unfolding on_returned to_mcp_tool
  optional_mcp_tool none = returned none
  optional_mcp_tool (some d) = on_returned (to_mcp_tool d) λ (t : Tool). returned (some t)

  -- The text of a result of another class than MCPToolCallResult.
  unfoldable pub mcp_text : Value → String
  mcp_text (str s) = s
  mcp_text (obj fs) = R.dumps (obj fs)
  mcp_text (list l) = R.dumps (list l)
  mcp_text v = R.to_text v

  unfoldable pub to_mcp_result : Value → ToolCallResult
  unfolding mcp_text
  to_mcp_result v = record {
    content = text_content (mcp_text v) ∷ [];
    is_error = false;
    metadata = none;
  }

  abbrev pub mcp_error : String → ToolCallResult
  mcp_error s = record { content = text_content s ∷ []; is_error = true; metadata = none }

  -- What `call_tool` makes of the result or the exception of `execute`.
  unfoldable pub reply_result : String → ToolReply → ToolCallResult
  unfolding to_mcp_result
  reply_result name (answered (call_result r)) = r
  reply_result name (answered (result v)) = to_mcp_result v
  reply_result name (answered (error e)) = mcp_error ("Error: " ++ e)
  reply_result name (answered (raised_key_error e)) = mcp_error ("Tool not found: " ++ name)
  reply_result name key_error = mcp_error ("Tool not found: " ++ name)

module _ (R : Runtime) {W : Type 0} where
  unfoldable pub adapter_list_tools : Agents.Registry W → Outcome (List Tool)
  unfolding all_mcp_tools
  adapter_list_tools r = all_mcp_tools R (values r.definitions)

  unfoldable pub adapter_get_tools_by_tag : String → Agents.Registry W → Outcome (List Tool)
  unfolding all_mcp_tools
  adapter_get_tools_by_tag tag r = all_mcp_tools R (find_tools_by_tag tag r)

  unfoldable pub adapter_get_mcp_tool : String → Agents.Registry W → Outcome (Option Tool)
  unfolding optional_mcp_tool
  adapter_get_mcp_tool name r = optional_mcp_tool R (lookup name r.definitions)

  unfoldable pub adapter_call_tool :
      ℕ → String → Option Fields → W → Agents.Registry W → Agents.Registry W × W × ToolCallResult
  unfolding reply_result fields_or_empty
  adapter_call_tool duration name arguments w r =
      let (r', w', reply) = execute name (fields_or_empty arguments) true duration w r in
      (r', w', reply_result R name reply)

  -- `unregister` changes nothing and returns False, whether the tool is there or not.
  abbrev pub adapter_unregister : String → Agents.Registry W → Agents.Registry W × Bool
  adapter_unregister name r = (r, false)

  -- A call of `execute` keeps the definitions.
  definitions-execute_with :
      (f : Option (Executor W)) (name : String) (a : Fields) (t : ℕ) (w : W) (r : Agents.Registry W)
      → (execute_with f name a true t w r).0.definitions ≡ r.definitions
  unfolding execute_with called
  definitions-execute_with none name a t w r = refl
  definitions-execute_with (some f) name a t w r = refl

  definitions-adapter_call_tool :
      (t : ℕ) (name : String) (a : Option Fields) (w : W) (r : Agents.Registry W)
      → (adapter_call_tool t name a w r).0.definitions ≡ r.definitions
  unfolding adapter_call_tool execute
  definitions-adapter_call_tool t name a w r =
      definitions-execute_with (lookup name r.executors) name (fields_or_empty a) t w r

  pub list_tools-adapter :
      (t : ℕ) (name : String) (a : Option Fields) (w : W) (r : Agents.Registry W)
      → adapter_list_tools (adapter_call_tool t name a w r).0 ≡ adapter_list_tools r
  unfolding adapter_list_tools
  list_tools-adapter t name a w r =
      ap (λ (d : Dict String Agents.ToolDefinition). all_mcp_tools R (values d))
        (definitions-adapter_call_tool t name a w r)

  pub names-adapter :
      (t : ℕ) (name : String) (a : Option Fields) (w : W) (r : Agents.Registry W)
      → keys (adapter_call_tool t name a w r).0.definitions ≡ keys r.definitions
  names-adapter t name a w r =
      ap (λ (d : Dict String Agents.ToolDefinition). keys d)
        (definitions-adapter_call_tool t name a w r)

  -- The two registries that the server can take.
  abbrev pub adapter_source : ToolSource W
  adapter_source = record {
    State = Agents.Registry W;
    list_tools = adapter_list_tools;
    list_tool_names = λ r. keys r.definitions;
    call_tool = adapter_call_tool;
    list_tools-call_tool = list_tools-adapter;
    list_tool_names-call_tool = names-adapter;
  }

  abbrev pub registry_source : ToolSource W
  registry_source = record {
    State = Registry W;
    list_tools = list_tools R;
    list_tool_names = list_tool_names;
    call_tool = λ t name a w r. let (w', x) = call_tool R name a w r in (r, w', x);
    list_tools-call_tool = λ t name a w r. refl;
    list_tool_names-call_tool = λ t name a w r. refl;
  }
