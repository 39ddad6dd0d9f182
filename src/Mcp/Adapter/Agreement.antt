-- ===== src/Mcp/Adapter/Agreement.antt =====
-- The adapter of frameworks/mcp-bridge/src/cobalto/mcp/registry/unified_adapter.py against the registry
-- of tools.py that it stands in for.
use Prim.Native.String.{◌++◌}
use mathlib.Core.List as Lists
use cobalto.Base.{
  ℕ, ◌≡◌, ◌≢◌, refl, String, true, false, Option, none, some, [], ◌∷◌, string_eq, arith,
}
use cobalto.Base.Dict.{Dict, lookup}
use cobalto.Base.Json.{Value, null, bool, num, str, decimal, list, obj, Fields, end}
use cobalto.Agent.Tools as Agents
use cobalto.Agent.Tools.{
  ToolOutcome, result, call_result, error, raised_key_error, ToolReply, answered, execute,
  execute_with, called, Executor,
}
use cobalto.Mcp.Protocol.{Runtime}
use cobalto.Mcp.Tools.{
  ToolAnswer, finished, answer, failed, Registry, ToolDefinition, tool_result, result_of,
  fields_or_empty, call_found, call_tool,
}
use cobalto.Mcp.Adapter.{adapter_call_tool, reply_result, to_mcp_result, mcp_text}

answer_of : ToolOutcome → ToolAnswer
answer_of (result v) = answer v
answer_of (call_result r) = finished r
answer_of (error e) = failed e
answer_of (raised_key_error e) = failed e

-- The two conversions of a result, which the source writes twice, agree.
result_of-to_mcp_result : (R : Runtime) (v : Value) → to_mcp_result R v ≡ result_of R (answer v)
unfolding to_mcp_result mcp_text result_of tool_result
result_of-to_mcp_result R null = refl
result_of-to_mcp_result R (bool b) = refl
result_of-to_mcp_result R (num n) = refl
result_of-to_mcp_result R (str s) = refl
result_of-to_mcp_result R (decimal m k) = refl
result_of-to_mcp_result R (list l) = refl
result_of-to_mcp_result R (obj fs) = refl

result_of-reply :
    (R : Runtime) (name : String) (o : ToolOutcome)
    → ((e : String) → o ≢ raised_key_error e)
    → reply_result R name (answered o) ≡ result_of R (answer_of o)
unfolding reply_result answer_of result_of tool_result
result_of-reply R name (result v) h = result_of-to_mcp_result R v
result_of-reply R name (call_result r) h = refl
result_of-reply R name (error e) h = refl
result_of-reply R name (raised_key_error e) h = absurd (h e refl)

module _ {W : Type 0} where
  -- An executor as the function of a tool of tools.py.
  unfoldable pub as_tool : String → Executor W → ToolDefinition W
  unfolding answer_of
  as_tool name f = record {
    name = name;
    description = "";
    func = record {
      func_name = name;
      doc = none;
      parameters = [];
      call = λ a w. let (w', o) = f a w in (w', answer_of o);
    };
    input_schema = end;
    output_schema = none;
    tags = [];
    requires_approval = false;
    timeout_seconds = 30;
  }

  unfoldable pub as_tools : Dict String (Executor W) → Registry W
  unfolding as_tool
  as_tools [] = []
  as_tools ((name, f) ∷ l) = (name, as_tool name f) ∷ as_tools l

  tool_or_none : String → Option (Executor W) → Option (ToolDefinition W)
  tool_or_none name none = none
  tool_or_none name (some f) = some (as_tool name f)

  lookup-as_tools :
      (name : String) (l : Dict String (Executor W))
      → lookup name (as_tools l) ≡ tool_or_none name (lookup name l)
  unfolding lookup as_tools tool_or_none
  lookup-as_tools name [] = refl
  lookup-as_tools name ((k, f) ∷ l) =
      ground (arith, string_eq.same_iff k name, lookup-as_tools name l)

  module _ (R : Runtime) where
    Agrees : Option (Executor W) → ℕ → String → Option Fields → W → Agents.Registry W → Type 0
    Agrees o t name a w r =
        let x = execute_with o name (fields_or_empty a) true t w r in
        let y = call_found R (tool_or_none name o) name a w in
        (x.1 ≡ y.0) × (reply_result R name x.2 ≡ y.1)

    found-Agrees :
        (o : Option (Executor W)) (t : ℕ) (name : String) (a : Option Fields) (w : W)
        (r : Agents.Registry W)
        → ((f : Executor W) (e : String)
            → o ≡ some f
            → (f (fields_or_empty a) w).1 ≢ raised_key_error e)
        → Agrees o t name a w r
    unfolding Agrees execute_with call_found tool_or_none as_tool called reply_result tool_result
    found-Agrees none t name a w r h = (refl, refl)
    found-Agrees (some f) t name a w r h =
        (refl, result_of-reply R name (f (fields_or_empty a) w).1 (λ e. h f e refl))

    -- Where the executor of the name, if there is one, raises no KeyError, the adapter over a registry
    -- does to the world, and answers, what a ToolRegistry of the same functions does.
    pub adapter_call_tool-call_tool :
        (t : ℕ) (name : String) (a : Option Fields) (w : W) (r : Agents.Registry W)
        → ((f : Executor W) (e : String)
            → lookup name r.executors ≡ some f
            → (f (fields_or_empty a) w).1 ≢ raised_key_error e)
        → let (r', w', x) = adapter_call_tool R t name a w r in
          (w', x) ≡ call_tool R name a w (as_tools r.executors)
    unfolding adapter_call_tool execute call_tool Agrees
    adapter_call_tool-call_tool t name a w r h =
        let found = found-Agrees (lookup name r.executors) t name a w r h in
        rw (lookup-as_tools name r.executors) (λ i. (found.0 i, found.1 i))

    -- An executor that raises a KeyError has been run, and the trail of the registry has the call; the
    -- adapter answers that there is no such tool, where a ToolRegistry of the same functions answers
    -- with the error.
    pub key_error_hidden :
        (t : ℕ) (name e : String) (a : Option Fields) (w : W) (r : Agents.Registry W)
        (f : Executor W)
        → lookup name r.executors ≡ some f
        → (f (fields_or_empty a) w).1 ≡ raised_key_error e
        → let (r', w', x) = adapter_call_tool R t name a w r in
          (w' ≡ (f (fields_or_empty a) w).0)
          × (r'.call_history
              ≡ Lists.◌++◌ r.call_history (
                  record {
                    tool_name = name;
                    arguments = fields_or_empty a;
                    outcome = raised_key_error e;
                    duration_seconds = t;
                  }
                  ∷ []))
          × (x ≡ tool_result ("Tool not found: " ++ name) true)
          × ((call_tool R name a w (as_tools r.executors)).1 ≡ tool_result ("Error: " ++ e) true)
    unfolding adapter_call_tool execute call_tool execute_with called call_found as_tool
        tool_or_none answer_of reply_result result_of tool_result
    key_error_hidden t name e a w r f has raises =
        rw (lookup-as_tools name r.executors, has, raises) (refl, refl, refl, refl)
