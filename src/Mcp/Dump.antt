-- ===== src/Mcp/Dump.antt =====
-- `model_dump` of frameworks/mcp-bridge/src/cobalto/mcp/protocol.py, and the reading of requests and
-- notifications.
use cobalto.Base.{String, Option, none, some, List, [], ◌∷◌}
use cobalto.Base.Json.{
  Value, null, bool, str, list, obj, Fields, end, field, Items, cons, nil, get_field,
}
use cobalto.Mcp.Protocol.{
  other_error, Outcome, raised, returned, on_returned, or_raise, RequestId, Request, Notification,
  ResourceContents, Content, text_content, image_content, resource_content, ToolInputSchema, Tool,
  ToolCallResult, Resource, PromptArgument, Prompt, PromptMessage, PromptResult, Runtime,
}

unfoldable pub dump_list : {A : Type 0} → (A → Value) → List A → Items
dump_list f [] = nil
dump_list f (a ∷ l) = cons (f a) (dump_list f l)

unfoldable pub dump_text : Option String → Value
dump_text none = null
dump_text (some s) = str s

unfoldable pub dump_dict : Option Fields → Value
dump_dict none = null
dump_dict (some fs) = obj fs

unfoldable pub dump_contents : ResourceContents → Value
unfolding dump_text
dump_contents c = obj (
    field "uri" (str c.uri) (
      field "mimeType" (dump_text c.mime_type)
        (field "text" (dump_text c.content) (field "blob" (dump_text c.blob) end))))

unfoldable pub dump_content : Content → Value
unfolding dump_contents
dump_content (text_content s) = obj (field "type" (str "text") (field "text" (str s) end))
dump_content (image_content raw mime_type) =
    obj (field "type" (str "image") (field "data" (str raw) (field "mimeType" (str mime_type) end)))
dump_content (resource_content c) =
    obj (field "type" (str "resource") (field "resource" (dump_contents c) end))

unfoldable pub dump_schema : ToolInputSchema → Value
unfolding dump_list
dump_schema s = obj (
    field "type" (str s.kind) (
      field "properties" (obj s.properties)
        (field "required" (list (dump_list (λ (n : String). str n) s.required)) end)))

unfoldable pub dump_tool : Tool → Value
unfolding dump_schema dump_text
dump_tool t = obj (
    field "name" (str t.name) (
      field "description" (dump_text t.description)
        (field "inputSchema" (dump_schema t.input_schema) end)))

unfoldable pub dump_tool_result : ToolCallResult → Value
unfolding dump_list dump_content dump_dict
dump_tool_result r = obj (
    field "content" (list (dump_list dump_content r.content))
      (field "isError" (bool r.is_error) (field "metadata" (dump_dict r.metadata) end)))

unfoldable pub dump_resource : Resource → Value
unfolding dump_text
dump_resource r = obj (
    field "uri" (str r.uri) (
      field "name" (str r.name) (
        field "description" (dump_text r.description)
          (field "mimeType" (dump_text r.mime_type) end))))

-- MCPResourceTemplate has the fields of MCPResource, under another name for the first.
unfoldable pub dump_template : Resource → Value
unfolding dump_text
dump_template r = obj (
    field "uriTemplate" (str r.uri) (
      field "name" (str r.name) (
        field "description" (dump_text r.description)
          (field "mimeType" (dump_text r.mime_type) end))))

unfoldable pub dump_read_result : List ResourceContents → Value
unfolding dump_list dump_contents
dump_read_result contents = obj (field "contents" (list (dump_list dump_contents contents)) end)

unfoldable pub dump_argument : PromptArgument → Value
unfolding dump_text
dump_argument a = obj (
    field "name" (str a.name)
      (field "description" (dump_text a.description) (field "required" (bool a.required) end)))

unfoldable pub dump_arguments : Option (List PromptArgument) → Value
unfolding dump_list dump_argument
dump_arguments none = null
dump_arguments (some l) = list (dump_list dump_argument l)

unfoldable pub dump_prompt : Prompt → Value
unfolding dump_arguments dump_text
dump_prompt p = obj (
    field "name" (str p.name) (
      field "description" (dump_text p.description)
        (field "arguments" (dump_arguments p.arguments) end)))

unfoldable pub dump_message : PromptMessage → Value
unfolding dump_content
dump_message m = obj (field "role" (str m.role) (field "content" (dump_content m.content) end))

unfoldable pub dump_prompt_result : PromptResult → Value
unfolding dump_list dump_message dump_text
dump_prompt_result r = obj (
    field "description" (dump_text r.description)
      (field "messages" (list (dump_list dump_message r.messages)) end))

module _ (R : Runtime) where
  -- A field with a default, and one without.
  read_or : {A : Type 0} → (Value → Option A) → A → Option Value → Outcome A
  unfolding or_raise
  read_or read default none = returned default
  read_or read default (some v) = or_raise (R.complaint v) (read v)

  read_required : {A : Type 0} → (Value → Option A) → Option Value → Outcome A
  unfolding or_raise
  read_required read none = raised (other_error (R.complaint null))
  read_required read (some v) = or_raise (R.complaint v) (read v)

  -- Optional[Dict[str, Any]]
  optional_dict : Value → Option (Option Fields)
  optional_dict null = some none
  optional_dict v = elim (R.as_dict v) [ none ↦ none | some fs ↦ some (some fs) ]

  -- JSONRPCNotification(**data)
  unfoldable pub read_notification : Fields → Outcome Notification
  unfolding on_returned read_or read_required optional_dict
  read_notification fs =
      on_returned (read_or R.as_text "2.0" (get_field "jsonrpc" fs)) λ (version : String).
        on_returned (read_required R.as_text (get_field "method" fs)) λ (method : String).
          on_returned (read_or optional_dict none (get_field "params" fs))
            λ (params : Option Fields). returned (record { method = method; params = params })

  -- JSONRPCRequest(**data), where the id is present
  unfoldable pub read_request : Value → Fields → Outcome Request
  unfolding on_returned or_raise read_notification
  read_request v fs = on_returned (or_raise (R.complaint v) (R.as_id v)) λ (id : RequestId).
      on_returned (read_notification fs)
        λ (n : Notification). returned (record { id = id; method = n.method; params = n.params })

  -- MCPToolCall(**params)
  unfoldable pub read_tool_call : Fields → Outcome (String × Option Fields)
  unfolding on_returned read_or read_required optional_dict
  read_tool_call fs = on_returned (read_required R.as_text (get_field "name" fs)) λ (name : String).
      on_returned (read_or optional_dict none (get_field "arguments" fs))
        λ (a : Option Fields). returned (name, a)
