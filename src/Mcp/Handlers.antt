-- ===== src/Mcp/Handlers.antt =====
-- The state of MCPServer of frameworks/mcp-bridge/src/cobalto/mcp/server.py, over any registry of tools,
-- and its handlers of requests. The world is what the functions behind tools, resources, prompts and
-- handlers act on.
use cobalto.Base.{
  ℕ, String, Bool, true, false, Option, none, some, List, [], ◌∷◌, string_eq, nat_eq, ◌==◌,
  if◌then◌else◌,
}
use cobalto.Base.Dict.{Dict, insert}
use cobalto.Base.Json.{Value, null, bool, str, list, obj, Fields, end, field, get_field_or, truthy}
use cobalto.Mcp.Protocol.{
  other_error, Outcome, raised, returned, on_returned, or_raise, RequestId, text_id, number_id,
  Request, Response, protocol_version, ErrorCode, sampling_rejected, code_of, ServerCapabilities,
  default_capabilities, dump_capabilities, Tool, ToolCallResult, ResourceContents, InitializeParams,
  Runtime,
}
use cobalto.Mcp.Dump.{
  dump_list, dump_tool, dump_tool_result, dump_resource, dump_template, dump_read_result,
  dump_prompt, dump_prompt_result, read_tool_call,
}
use cobalto.Mcp.Tools.{fields_or_empty}
use cobalto.Mcp.Resources.{
  ResourceRegistry, list_uris, list_resources, list_templates, read_resource,
}
use cobalto.Mcp.Prompts.{PromptRegistry, list_prompt_names, list_prompts, get_prompt}
use cobalto.Mcp.Source.{ToolSource}

pub data Method : Type 0 where
  initialize ping tools_list tools_call resources_list resources_read : Method
  resources_templates_list prompts_list prompts_get create_message set_level : Method

-- `_method_handlers`
unfoldable pub method_handlers : Dict String Method
method_handlers =
    ("initialize", initialize)
    ∷ ("ping", ping)
    ∷ ("tools/list", tools_list)
    ∷ ("tools/call", tools_call)
    ∷ ("resources/list", resources_list)
    ∷ ("resources/read", resources_read)
    ∷ ("resources/templates/list", resources_templates_list)
    ∷ ("prompts/list", prompts_list)
    ∷ ("prompts/get", prompts_get)
    ∷ ("sampling/createMessage", create_message)
    ∷ ("logging/setLevel", set_level)
    ∷ []

-- `request_id or ""`
unfoldable pub id_or_empty : Option RequestId → RequestId
id_or_empty none = text_id ""
id_or_empty (some (text_id s)) = text_id s
id_or_empty (some (number_id n)) = if n == 0 then text_id "" else number_id n

unfoldable pub create_error_response : Option RequestId → ErrorCode → String → Response
unfolding id_or_empty
create_error_response id code message = record {
  id = id_or_empty id;
  result = none;
  error = some (record { code = code_of code; message = message; detail = null });
}

is_some : {A : Type 0} → Option A → Bool
is_some none = false
is_some (some a) = true

is_nonempty : List String → Bool
is_nonempty [] = false
is_nonempty (x ∷ l) = true

-- Bound to `**(arguments or {})`: a mapping, or nothing that has a truth value.
unfoldable pub as_arguments : Value → Option Fields
as_arguments (obj fs) = some fs
as_arguments v = if truthy v then none else some end

-- Whether a dict can be asked for the value.
unfoldable pub is_hashable : Value → Bool
is_hashable (list l) = false
is_hashable (obj fs) = false
is_hashable v = true

module _ (R : Runtime) (W : Type 0) (T : ToolSource W) where
  abbrev pub SamplingHandler : Type 0
  SamplingHandler = R.Sampling → W → W × Outcome Value

  abbrev pub NotificationHandler : Type 0
  NotificationHandler = Option Fields → W → W × Outcome Value

  pub record Server : Type 0 where
    pub name : String
    pub version : String
    pub tools : T.State
    pub resources : ResourceRegistry W
    pub prompts : PromptRegistry W
    pub initialized : Bool
    pub client_info : Value
    pub client_capabilities : Value
    pub sampling_handler : Option SamplingHandler
    pub notification_handlers : Dict String NotificationHandler

  abbrev pub set_sampling_handler : SamplingHandler → Server → Server
  set_sampling_handler h s = record s { sampling_handler = some h }

  abbrev pub on_notification : String → NotificationHandler → Server → Server
  on_notification method h s = record s {
    notification_handlers = insert method h s.notification_handlers;
  }

  -- What a handler leaves: the server, the world, and a value or an exception.
  abbrev pub Handled : Type 0
  Handled = Server × W × Outcome Value

  abbrev list_changed : Value
  list_changed = obj (field "listChanged" (bool true) end)

  unfoldable pub capabilities : Server → ServerCapabilities
  unfolding is_nonempty is_some
  capabilities s = record {
    tools = if is_nonempty (T.list_tool_names s.tools) then obj end else default_capabilities.tools;
    resources =
        if is_nonempty (list_uris s.resources)
        then list_changed
        else default_capabilities.resources;
    prompts =
        if is_nonempty (list_prompt_names s.prompts)
        then list_changed
        else default_capabilities.prompts;
    sampling = if is_some s.sampling_handler then obj end else default_capabilities.sampling;
    logging = obj end;
    roots = default_capabilities.roots;
  }

  unfoldable pub initialized_with : Outcome InitializeParams → Server → W → Handled
  unfolding capabilities dump_capabilities
  initialized_with (raised e) s w = (s, w, raised e)
  initialized_with (returned p) s w = (
    record s {
      client_capabilities = p.capabilities;
      client_info = p.client_info;
      initialized = true;
    },
    w,
    returned (
        obj (
          field "protocolVersion" (str protocol_version) (
            field "capabilities" (dump_capabilities (capabilities s)) (
              field "serverInfo"
                (obj (field "name" (str s.name) (field "version" (str s.version) end))) end)))),
  )

  unfoldable pub handle_initialize : Fields → Server → W → Handled
  unfolding initialized_with or_raise
  handle_initialize params s w =
      initialized_with (or_raise (R.complaint (obj params)) (R.as_initialize params)) s w

  unfoldable pub dump_tools : Outcome (List Tool) → Outcome Value
  unfolding on_returned dump_list dump_tool
  dump_tools o =
      on_returned o
        λ (l : List Tool). returned (obj (field "tools" (list (dump_list dump_tool l)) end))

  unfoldable pub after_tool : T.State × W × ToolCallResult → Server → Handled
  unfolding dump_tool_result
  after_tool (tools, w, r) s = (record s { tools = tools }, w, returned (dump_tool_result r))

  -- The duration is what the clock shows of the call.
  unfoldable pub call_read : Outcome (String × Option Fields) → ℕ → Server → W → Handled
  unfolding after_tool
  call_read (raised e) duration s w = (s, w, raised e)
  call_read (returned (name, arguments)) duration s w =
      after_tool (T.call_tool duration name arguments w s.tools) s

  unfoldable pub handle_tools_call : ℕ → Fields → Server → W → Handled
  unfolding call_read
  handle_tools_call duration params s w = call_read (read_tool_call R params) duration s w

  unfoldable pub after_read : W × Outcome (List ResourceContents) → Server → Handled
  unfolding on_returned dump_read_result
  after_read (w, o) s =
      (s, w, on_returned o λ (l : List ResourceContents). returned (dump_read_result l))

  -- A URI that is no text is refused on each path: by the dict, by the match or by the result.
  unfoldable pub handle_resources_read : Value → Server → W → Handled
  unfolding after_read
  handle_resources_read (str uri) s w = after_read (read_resource R uri w s.resources) s
  handle_resources_read v s w = (s, w, raised (other_error (R.complaint v)))

  unfoldable pub prompt_named : String → Value → Server → W → Handled
  unfolding as_arguments
  prompt_named name arguments s w =
      let (w', r) = get_prompt R name arguments (as_arguments arguments) w s.prompts in
      (s, w', returned (dump_prompt_result r))

  -- A name that is no text is found in no registry, but may raise a TypeError.
  unfoldable pub handle_prompts_get : Value → Value → Server → W → Handled
  unfolding prompt_named is_hashable
  handle_prompts_get (str name) arguments s w = prompt_named name arguments s w
  handle_prompts_get v arguments s w =
      if is_hashable v
      then (let (w', r) = get_prompt R (R.to_text v) arguments (as_arguments arguments) w [] in
          (s, w', returned (dump_prompt_result r)))
      else (s, w, raised (other_error (R.complaint v)))

  unfoldable pub sampled : Outcome R.Sampling → SamplingHandler → Server → W → Handled
  sampled (raised e) handler s w = (s, w, raised e)
  sampled (returned p) handler s w = let (w', o) = handler p w in (s, w', o)

  -- With no handler the printed error response is the handler's result.
  unfoldable pub sampled_by : Option SamplingHandler → RequestId → Fields → Server → W → Handled
  unfolding sampled or_raise create_error_response
  sampled_by none id params s w = (
    s,
    w,
    returned (
        str (
          R.dumps_response (
            create_error_response (some id) sampling_rejected
              "Sampling not supported by this server"))),
  )
  sampled_by (some handler) id params s w =
      sampled (or_raise (R.complaint (obj params)) (R.as_sampling params)) handler s w

  unfoldable pub handle_sampling : RequestId → Fields → Server → W → Handled
  unfolding sampled_by
  handle_sampling id params s w = sampled_by s.sampling_handler id params s w

  unfoldable pub dispatch : Method → ℕ → Request → Server → W → Handled
  unfolding handle_initialize handle_tools_call handle_resources_read handle_prompts_get
      handle_sampling dump_tools fields_or_empty dump_list
  dispatch initialize duration q s w = handle_initialize (fields_or_empty q.params) s w
  dispatch ping duration q s w = (s, w, returned (obj end))
  dispatch tools_list duration q s w = (s, w, dump_tools (T.list_tools s.tools))
  dispatch tools_call duration q s w = handle_tools_call duration (fields_or_empty q.params) s w
  dispatch resources_list duration q s w = (
    s,
    w,
    returned
        (obj (field "resources" (list (dump_list dump_resource (list_resources s.resources))) end)),
  )
  dispatch resources_read duration q s w =
      handle_resources_read (get_field_or "uri" (str "") (fields_or_empty q.params)) s w
  dispatch resources_templates_list duration q s w = (
    s,
    w,
    returned (
        obj (
          field "resourceTemplates" (list (dump_list dump_template (list_templates s.resources)))
            end)),
  )
  dispatch prompts_list duration q s w = (
    s,
    w,
    returned (obj (field "prompts" (list (dump_list dump_prompt (list_prompts s.prompts))) end)),
  )
  dispatch prompts_get duration q s w =
      handle_prompts_get (get_field_or "name" (str "") (fields_or_empty q.params))
        (get_field_or "arguments" null (fields_or_empty q.params)) s w
  dispatch create_message duration q s w = handle_sampling q.id (fields_or_empty q.params) s w
  dispatch set_level duration q s w = (s, w, returned (obj end))
