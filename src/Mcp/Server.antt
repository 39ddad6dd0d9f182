-- ===== src/Mcp/Server.antt =====
-- `handle_message` of frameworks/mcp-bridge/src/cobalto/mcp/server.py. A response stands for the JSON text
-- that the server prints of it.
pub mod Calls
pub mod Ids
pub mod Replies
pub mod Runs
pub mod Steady
use Prim.Native.String.{◌++◌}
use cobalto.Base.{ℕ, String, Option, none, some, string_eq}
use cobalto.Base.Dict.{lookup}
use cobalto.Base.Json.{Value, obj, Fields, get_field}
use cobalto.Mcp.Protocol.{
  Exception, decode_error, other_error, Outcome, raised, returned, RequestId, Request, Notification,
  Response, parse_error, method_not_found, internal_error, Runtime,
}
use cobalto.Mcp.Dump.{read_notification, read_request}
use cobalto.Mcp.Source.{ToolSource}
use cobalto.Mcp.Handlers.{
  Method, method_handlers, create_error_response, NotificationHandler, Server, dispatch,
}

-- A text to parse, or a dict.
pub data Message : Type 0 where
  unparsed : String → Message
  parsed : Fields → Message

unfoldable pub create_success_response : RequestId → Value → Response
create_success_response id result = record { id = id; result = some result; error = none }

-- `except Exception` in `handle_message`
unfoldable pub internal_failure : String → Response
unfolding create_error_response
internal_failure e = create_error_response none internal_error ("Internal error: " ++ e)

-- The two `except` clauses, around the parsing and the handlers alike.
failure_of : Exception → Response
unfolding create_error_response internal_failure
failure_of (decode_error e) = create_error_response none parse_error ("Parse error: " ++ e)
failure_of (other_error e) = internal_failure e

reply : RequestId → Outcome Value → Response
unfolding create_success_response failure_of
reply id (returned v) = create_success_response id v
reply id (raised e) = failure_of e

-- An exception in a notification's handler is answered like that of a request.
acknowledge : Outcome Value → Option Response
unfolding failure_of
acknowledge (raised e) = some (failure_of e)
acknowledge (returned v) = none

module _ (R : Runtime) (W : Type 0) (T : ToolSource W) where
  unfoldable pub route :
      Option Method → ℕ → Request → Server R W T → W → Server R W T × W × Option Response
  unfolding reply
  route none duration q s w = (
    s,
    w,
    some (create_error_response (some q.id) method_not_found ("Method not found: " ++ q.method)),
  )
  route (some m) duration q s w =
      let (s', w', o) = dispatch R W T m duration q s w in (s', w', some (reply q.id o))

  routed : Outcome Request → ℕ → Server R W T → W → Server R W T × W × Option Response
  unfolding route failure_of
  routed (raised e) duration s w = (s, w, some (failure_of e))
  routed (returned q) duration s w = route (lookup q.method method_handlers) duration q s w

  unfoldable pub handle_request :
      Value → Fields → ℕ → Server R W T → W → Server R W T × W × Option Response
  unfolding routed
  handle_request v fs duration s w = routed (read_request R v fs) duration s w

  notify :
      Option (NotificationHandler R W T)
      → Notification
      → Server R W T
      → W
      → Server R W T × W × Option Response
  unfolding acknowledge
  notify none n s w = (s, w, none)
  notify (some handler) n s w = let (w', o) = handler n.params w in (s, w', acknowledge o)

  notified : Outcome Notification → Server R W T → W → Server R W T × W × Option Response
  unfolding notify failure_of
  notified (raised e) s w = (s, w, some (failure_of e))
  notified (returned n) s w = notify (lookup n.method s.notification_handlers) n s w

  unfoldable pub handle_notification :
      Fields → Server R W T → W → Server R W T × W × Option Response
  unfolding notified
  handle_notification fs s w = notified (read_notification R fs) s w

  by_id : Option Value → Fields → ℕ → Server R W T → W → Server R W T × W × Option Response
  unfolding handle_notification handle_request
  by_id none fs duration s w = handle_notification fs s w
  by_id (some v) fs duration s w = handle_request v fs duration s w

  -- JSON that is no object raises a TypeError.
  handle_value : Outcome Value → ℕ → Server R W T → W → Server R W T × W × Option Response
  unfolding by_id failure_of internal_failure
  handle_value (raised e) duration s w = (s, w, some (failure_of e))
  handle_value (returned (obj fs)) duration s w = by_id (get_field "id" fs) fs duration s w
  handle_value (returned v) duration s w = (s, w, some (internal_failure (R.complaint v)))

  unfoldable pub handle_message :
      Message → ℕ → Server R W T → W → Server R W T × W × Option Response
  unfolding handle_value
  handle_message (unparsed t) duration s w = handle_value (R.loads t) duration s w
  handle_message (parsed fs) duration s w = handle_value (returned (obj fs)) duration s w
