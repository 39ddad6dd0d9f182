-- ===== src/Mcp/Tests.antt =====
-- The MCP server and its registries at concrete inputs.
use cobalto.Base.{
  ℕ, suc, ◌≡◌, ◌≢◌, refl, ap, ◌∙◌, ◌↔◌, ◌⊎◌, String, true, false, Option, none, some, List, [], ◌∷◌,
  string_eq, nat_eq, arith,
}
use cobalto.Base.Dict.{lookup, insert}
use cobalto.Base.Json.{Value, null, num, str, obj, Fields, end, field, get_field}
use cobalto.Agent.Tools as Agents
use cobalto.Agent.Tools.{result, raised_key_error, execute, Executor}
use cobalto.Mcp.Protocol.{
  decode_error, raised, returned, RequestId, text_id, number_id, Request, Response, Runtime,
  ToolCallResult,
}
use cobalto.Mcp.Dump.{read_request, read_tool_call, dump_tool_result}
use cobalto.Mcp.Tools.{
  Registration, Function, failed, definition_of, register, result_of, text_or, fields_or_empty,
  call_tool, tool_result,
}
use cobalto.Mcp.Resources.{empty_resources}
use cobalto.Mcp.Adapter.{registry_source, adapter_call_tool}
use cobalto.Mcp.Adapter.Agreement.{as_tools, adapter_call_tool-call_tool, key_error_hidden}
use cobalto.Mcp.Handlers.{
  Server, SamplingHandler, set_sampling_handler, tools_list, dispatch, capabilities,
  method_handlers,
}
use cobalto.Mcp.Server.{
  Message, parsed, unparsed, create_success_response, internal_failure, handle_message,
}
use cobalto.Mcp.Server.Replies.{IsAnswered, handle_message-IsAnswered}
use cobalto.Mcp.Server.Ids.{printed_refusal, handle_message-echo, unsupported_sampling_succeeds}
use cobalto.Mcp.Server.Calls.{tools_call-register}
use cobalto.Mcp.Server.Runs.{IsListing, handle_all, handle_all-listing, handle_all-bare}

abbrev text_in : Value → Option String
text_in (str s) = some s
text_in v = none

abbrev id_in : Value → Option RequestId
id_in (str s) = some (text_id s)
id_in (num n) = some (number_id n)
id_in v = none

abbrev dict_in : Value → Option Fields
dict_in (obj fs) = some fs
dict_in v = none

abbrev runtime : Runtime
runtime = record {
  as_text = text_in;
  as_id = id_in;
  as_dict = dict_in;
  as_input_schema = λ fs. some (record { kind = "object"; properties = fs; required = [] });
  as_initialize = λ fs. some (record { capabilities = obj end; client_info = obj fs });
  Sampling = Fields;
  as_sampling = λ fs. some fs;
  complaint = λ v. "invalid";
  loads = λ t. raised (decode_error "Expecting value");
  dumps = λ v. "{}";
  to_text = λ v. "None";
  dumps_response = λ r. "{}";
  re_sub = λ a b c. c;
  re_match = λ a b. returned false;
  as_text-str = λ s. refl;
  as_id-str = λ s. refl;
  as_id-num = λ n. refl;
  as_dict-obj = λ fs. refl;
}

-- The world counts the calls.
abbrev block : Function ℕ
block = record {
  func_name = "block";
  doc = none;
  parameters = [];
  call = λ a n. (suc n, failed "timeout");
}

abbrev approved : Registration ℕ
approved = record {
  name = none;
  description = none;
  input_schema = none;
  output_schema = none;
  tags = [];
  requires_approval = true;
  timeout_seconds = 30;
}

abbrev server : Server runtime ℕ (registry_source runtime)
server = record {
  name = "cobalto";
  version = "0.1.0";
  tools = register approved block [];
  resources = empty_resources;
  prompts = [];
  initialized = false;
  client_info = null;
  client_capabilities = null;
  sampling_handler = none;
  notification_handlers = [];
}

abbrev request : String → Fields → Fields
request method params =
    field "id" (num 7) (field "method" (str method) (field "params" (obj params) end))

abbrev query : String → Fields → Request
query method params = record { id = number_id 7; method = method; params = some params }

abbrev named : Fields
named = field "name" (str "block") end

abbrev answer : Message → ℕ → Server runtime ℕ (registry_source runtime) × ℕ × Option Response
answer m n = handle_message runtime ℕ (registry_source runtime) m 2 server n

handle_message-IsAnswered_example :
    IsAnswered runtime ℕ
      (registry_source runtime)
      (returned (obj (request "ping" end)))
      2
      server
      0
      (answer (parsed (request "ping" end)) 0).2
handle_message-IsAnswered_example =
    handle_message-IsAnswered runtime ℕ (registry_source runtime) (parsed (request "ping" end)) 2
      server 0

ping_test :
    (answer (parsed (request "ping" end)) 0).2
    ≡ some (create_success_response (number_id 7) (obj end))
unfolding handle_message get_field read_request method_handlers lookup dispatch
ping_test = refl

-- A tool call with no name.
nameless_test : (answer (parsed (request "tools/call" end)) 0).2 ≡ some (internal_failure "invalid")
unfolding handle_message get_field read_request method_handlers lookup dispatch read_tool_call
nameless_test = refl

unnamed_id : number_id 7 ≢ text_id ""
unnamed_id h = cc

nonzero_id : number_id 7 ≢ number_id 0
nonzero_id h = let same : ◌≡◌ {A = ℕ} 7 0 = cc in omega arith

request_id :
    (method : String) (params : Fields) → get_field "id" (request method params) ≡ some (num 7)
unfolding get_field
request_id method params = refl

request_read :
    (method : String) (params : Fields)
    → read_request runtime (num 7) (request method params) ≡ returned (query method params)
unfolding get_field read_request
request_read method params = refl

handle_message-echo_example : ((internal_failure "invalid").id ≡ number_id 7) ↔ (
    (lookup "tools/call" method_handlers ≡ none)
    ⊎ ((x : Value) × ((internal_failure "invalid").result ≡ some x)))
handle_message-echo_example =
    handle_message-echo runtime ℕ (registry_source runtime) (request "tools/call" end) (num 7)
      (query "tools/call" end) 2 server 0 (internal_failure "invalid") (request_id "tools/call" end)
      (request_read "tools/call" end) unnamed_id nonzero_id nameless_test

abbrev sample : SamplingHandler runtime ℕ (registry_source runtime)
sample = λ fs w. (w, returned (str "sampled"))

unsupported_sampling_succeeds_example :
    ((capabilities runtime ℕ (registry_source runtime) server).sampling ≡ obj end)
    × ((capabilities runtime ℕ
          (registry_source runtime)
          (set_sampling_handler runtime ℕ (registry_source runtime) sample server)).sampling
        ≡ obj end)
    × (answer (parsed (request "sampling/createMessage" end)) 0 ≡ (
      server,
      0,
      some (create_success_response (number_id 7) (printed_refusal runtime (number_id 7))),
    ))
unsupported_sampling_succeeds_example =
    unsupported_sampling_succeeds runtime ℕ (registry_source runtime) sample
      (request "sampling/createMessage" end) (num 7) (query "sampling/createMessage" end) 2 server 0
      (request_id "sampling/createMessage" end) (request_read "sampling/createMessage" end) refl
      refl

call_read_test : read_tool_call runtime named ≡ returned ("block", none)
unfolding get_field read_tool_call
call_read_test = refl

tools_call-register_example : answer (parsed (request "tools/call" named)) 0 ≡ (
  server,
  1,
  some (
      create_success_response
        (number_id 7)
        (dump_tool_result (result_of runtime (failed "timeout")))),
)
unfolding fields_or_empty text_or
tools_call-register_example =
    tools_call-register runtime (request "tools/call" named) (num 7) (query "tools/call" named) 2
      server 0 approved block [] none (request_id "tools/call" named)
      (request_read "tools/call" named) refl call_read_test refl

abbrev messages : List (ℕ × Message)
messages =
    (1, parsed (request "initialize" end))
    ∷ (2, parsed (request "tools/call" named))
    ∷ (0, unparsed "{")
    ∷ []

handle_all-listing_example :
    let u = (handle_all runtime ℕ (registry_source runtime) messages server 0).0 in
    ((dispatch runtime ℕ (registry_source runtime) tools_list 0 (query "tools/list" end) u 0).2
      ≡ (dispatch runtime ℕ
          (registry_source runtime)
          tools_list
          0
          (query "tools/list" end)
          server
          0).2)
    × (capabilities runtime ℕ (registry_source runtime) u
        ≡ capabilities runtime ℕ (registry_source runtime) server)
handle_all-listing_example =
    handle_all-listing runtime ℕ (registry_source runtime) messages server 0 0 0
      (query "tools/list" end) IsListing.tools

-- It is initialized, and the tool was called once.
run_test :
    ((handle_all runtime ℕ (registry_source runtime) messages server 0).0.initialized ≡ true)
    × ((handle_all runtime ℕ (registry_source runtime) messages server 0).1 ≡ 1)
unfolding handle_all handle_message get_field read_request read_tool_call method_handlers lookup
    dispatch call_tool register definition_of insert
run_test = (refl, refl)

abbrev after_run : List (ℕ × Message) → ℕ × List (Option Response)
after_run ms =
    let (s, w, rs) = handle_all runtime ℕ (registry_source runtime) ms server 0 in (w, rs)

handle_all-bare_example :
    let s : Server runtime ℕ (registry_source runtime) = record server { initialized = true } in
    let x = handle_all runtime ℕ (registry_source runtime) messages s 0 in
    let y = handle_all runtime ℕ (registry_source runtime) messages server 0 in
    (x.1 ≡ y.1) × (x.2 ≡ y.2)
handle_all-bare_example =
    handle_all-bare runtime ℕ (registry_source runtime) messages
      (record server { initialized = true }) 0

abbrev scans : Executor ℕ
scans a n = (suc n, result (str "clean"))

scan_found : (f g : Executor ℕ) → lookup {K = String} "scan" (("scan", f) ∷ []) ≡ some g → f ≡ g
unfolding lookup
scan_found f g h = cc

other_outcome : {v : Value} {e : String} → result v ≢ raised_key_error e
other_outcome h = cc

no_key_error : {f : Executor ℕ} {e : String} → scans ≡ f → (f end 0).1 ≢ raised_key_error e
no_key_error {f} {e} h k = other_outcome (ap (λ (g : Executor ℕ). (g end 0).1) h ∙ k)

abbrev breaks : Executor ℕ
breaks a n = (suc n, raised_key_error "'host'")

abbrev agents : Executor ℕ → Agents.Registry ℕ
agents f = record Agents.new_registry { executors = ("scan", f) ∷ [] }

adapter_call_tool-call_tool_example :
    let (r', w', x) = adapter_call_tool runtime 2 "scan" none 0 (agents scans) in
    ◌≡◌ {A = ℕ × ToolCallResult}
      (w', x)
      (call_tool runtime "scan" none 0 (as_tools (("scan", scans) ∷ [])))
unfolding fields_or_empty
adapter_call_tool-call_tool_example =
    adapter_call_tool-call_tool runtime 2 "scan" none 0 (agents scans)
      (λ f e h. no_key_error (scan_found scans f h))

key_error_hidden_example :
    let (r', w', x) = adapter_call_tool runtime 2 "scan" none 0 (agents breaks) in
    (w' ≡ 1)
    × (r'.call_history
        ≡ record {
          tool_name = "scan";
          arguments = end;
          outcome = raised_key_error "'host'";
          duration_seconds = 2;
        }
          ∷ [])
    × (x ≡ tool_result "Tool not found: scan" true)
    × ((call_tool runtime "scan" none 0 (as_tools (("scan", breaks) ∷ []))).1
        ≡ tool_result "Error: 'host'" true)
unfolding fields_or_empty lookup
key_error_hidden_example =
    key_error_hidden runtime 2 "scan" "'host'" none 0 (agents breaks) breaks refl refl
