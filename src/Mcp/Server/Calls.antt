-- ===== src/Mcp/Server/Calls.antt =====
-- Requests for `tools/call` to MCPServer of frameworks/mcp-bridge/src/cobalto/mcp/server.py over the
-- registry of registry/tools.py.
use cobalto.Base.{ℕ, ◌≡◌, refl, ◌∙◌, ap, String, Option, some, string_eq}
use cobalto.Base.Dict.{lookup, lookup-insert_self}
use cobalto.Base.Json.{Value, Fields, get_field}
use cobalto.Mcp.Protocol.{returned, Request, Runtime}
use cobalto.Mcp.Dump.{read_request, read_tool_call, dump_tool_result}
use cobalto.Mcp.Tools.{
  Registration, Function, Registry, tool_name_of, definition_of, register, result_of,
  fields_or_empty, call_found, call_tool,
}
use cobalto.Mcp.Adapter.{registry_source}
use cobalto.Mcp.Handlers.{
  tools_call, method_handlers, Server, dispatch, handle_tools_call, call_read, after_tool,
}
use cobalto.Mcp.Server.{parsed, create_success_response, reply, route, handle_message}
use cobalto.Mcp.Server.Ids.{handle_message-route}

module _ (R : Runtime) {W : Type 0} where
  call_tool-register :
      (a : Registration W) (f : Function W) (r : Registry W) (args : Option Fields) (w : W)
      → let (w', o) = f.call (fields_or_empty args) w in
        call_tool R (tool_name_of a f) args w (register a f r) ≡ (w', result_of R o)
  unfolding call_tool register definition_of call_found
  call_tool-register a f r args w =
      rw (lookup-insert_self (tool_name_of a f) (definition_of a f) r) refl

  route-tools_call :
      (t : ℕ) (q : Request) (s : Server R W (registry_source R)) (w : W) (name : String)
      (args : Option Fields)
      → read_tool_call R (fields_or_empty q.params) ≡ returned (name, args)
      → let (w', x) = call_tool R name args w s.tools in
        route R W (registry_source R) (some tools_call) t q s w
        ≡ (s, w', some (create_success_response q.id (dump_tool_result x)))
  unfolding route dispatch handle_tools_call call_read after_tool reply
  route-tools_call t q s w name args reads = rw reads refl

  -- A request for `tools/call` with the name under which a function was last registered is answered
  -- with its id and what is made of the function's result on the arguments, an exception included,
  -- whatever the registration says of an approval or a timeout; of the server nothing changes.
  pub tools_call-register :
      (fs : Fields) (v : Value) (q : Request) (t : ℕ) (s : Server R W (registry_source R)) (w : W)
      (a : Registration W) (f : Function W) (r : Registry W) (args : Option Fields)
      → get_field "id" fs ≡ some v
      → read_request R v fs ≡ returned q
      → q.method ≡ "tools/call"
      → read_tool_call R (fields_or_empty q.params) ≡ returned (tool_name_of a f, args)
      → s.tools ≡ register a f r
      → let (w', o) = f.call (fields_or_empty args) w in
        handle_message R W (registry_source R) (parsed fs) t s w
        ≡ (s, w', some (create_success_response q.id (dump_tool_result (result_of R o))))
  unfolding lookup method_handlers
  tools_call-register fs v q t s w a f r args has reads named calls holds =
      let called : call_tool R (tool_name_of a f) args w s.tools ≡ _ =
        ap (λ (x : Registry W). call_tool R (tool_name_of a f) args w x) holds
        ∙ call_tool-register a f r args w in
      handle_message-route R W (registry_source R) fs v q t s w has reads
      ∙ ap (λ (m : String). route R W (registry_source R) (lookup m method_handlers) t q s w) named
      ∙ route-tools_call t q s w (tool_name_of a f) args calls
      ∙ ap (λ (x : W × _). (s, x.0, some (create_success_response q.id (dump_tool_result x.1))))
          called
