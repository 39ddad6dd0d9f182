-- ===== src/Mcp/Server/Replies.antt =====
-- What each message is answered with by `handle_message` of frameworks/mcp-bridge/src/cobalto/mcp/server.py.
use cobalto.Base.{
  ℕ, zero, suc, arith, ◌≡◌, refl, ◌⊎◌, inl, inr, String, Option, none, some, string_eq,
}
use cobalto.Base.Int.{ℤ, negsuc}
use cobalto.Base.Dict.{lookup}
use cobalto.Base.Json.{Value, str, obj, Fields, get_field, null, bool, num, decimal, list}
use cobalto.Mcp.Protocol.{
  Exception, decode_error, other_error, Outcome, raised, returned, RequestId, text_id, number_id,
  Request, RpcError, Response, Runtime, Notification, code_of,
}
use cobalto.Mcp.Dump.{read_request, read_notification}
use cobalto.Mcp.Source.{ToolSource}
use cobalto.Mcp.Handlers.{
  Method, id_or_empty, create_error_response, Server, NotificationHandler, method_handlers,
  dispatch,
}
use cobalto.Mcp.Server.{
  Message, unparsed, parsed, create_success_response, failure_of, internal_failure, reply, route,
  routed, handle_request, acknowledge, notify, notified, handle_notification, by_id, handle_value,
  handle_message,
}

-- There is a response, and it is as stated.
abbrev pub IsSent : (Response → Type 0) → Option Response → Type 0
IsSent P none = ⊥
IsSent P (some r) = P r

-- An error of the code and no result.
abbrev pub IsError : ℤ → Response → Type 0
IsError code r = (r.result ≡ none) × (e : RpcError) × (r.error ≡ some e) × (e.code ≡ code)

-- An exception: -32700 for JSON that cannot be decoded, -32603 for any other, and the id "".
abbrev pub IsFailure : Exception → Response → Type 0
IsFailure (decode_error e) r = (r.id ≡ text_id "") × IsError (negsuc 32699) r
IsFailure (other_error e) r = (r.id ≡ text_id "") × IsError (negsuc 32602) r

-- What a handler returned is a result under the id of the request, and no error.
abbrev pub IsReply : RequestId → Outcome Value → Response → Type 0
IsReply i (returned v) r = (r.id ≡ i) × (r.result ≡ some v) × (r.error ≡ none)
IsReply i (raised e) r = IsFailure e r

-- A notification is not answered unless its handler raises.
abbrev pub IsAcknowledged : Outcome Value → Option Response → Type 0
IsAcknowledged (returned v) o = o ≡ none
IsAcknowledged (raised e) o = IsSent (IsFailure e) o

internal_failure-IsFailure : (e : String) → IsFailure (other_error e) (internal_failure e)
unfolding internal_failure create_error_response id_or_empty code_of
internal_failure-IsFailure e = (refl, (refl, _, refl, refl))

failure_of-IsFailure : (e : Exception) → IsFailure e (failure_of e)
unfolding failure_of create_error_response id_or_empty code_of
failure_of-IsFailure (decode_error e) = (refl, (refl, _, refl, refl))
failure_of-IsFailure (other_error e) = internal_failure-IsFailure e

reply-IsReply : (id : RequestId) (o : Outcome Value) → IsReply id o (reply id o)
unfolding reply create_success_response
reply-IsReply id (raised e) = failure_of-IsFailure e
reply-IsReply id (returned v) = (refl, refl, refl)

id_or_empty-cases : (i : RequestId) → (id_or_empty (some i) ≡ i) ⊎ (i ≡ number_id 0)
unfolding id_or_empty
id_or_empty-cases (text_id s) = inl refl
id_or_empty-cases (number_id zero) = inr refl
id_or_empty-cases (number_id (suc n)) = inl (ground arith)

acknowledge-IsAcknowledged : (o : Outcome Value) → IsAcknowledged o (acknowledge o)
unfolding acknowledge
acknowledge-IsAcknowledged (raised e) = failure_of-IsFailure e
acknowledge-IsAcknowledged (returned v) = refl

module _ (R : Runtime) (W : Type 0) (T : ToolSource W) where
  -- A request of no known method is answered with -32601 and its id, unless that is 0, and any other
  -- with what its handler does.
  abbrev pub IsRouted : Option Method → ℕ → Request → Server R W T → W → Option Response → Type 0
  IsRouted none t q s w o =
      IsSent (λ r. ((r.id ≡ q.id) ⊎ (q.id ≡ number_id 0)) × IsError (negsuc 32600) r) o
  IsRouted (some m) t q s w o = IsSent (IsReply q.id (dispatch R W T m t q s w).2) o

  abbrev pub IsRequested : Outcome Request → ℕ → Server R W T → W → Option Response → Type 0
  IsRequested (raised e) t s w o = IsSent (IsFailure e) o
  IsRequested (returned q) t s w o = IsRouted (lookup q.method method_handlers) t q s w o

  abbrev pub IsHandled :
      Option (NotificationHandler R W T) → Notification → W → Option Response → Type 0
  IsHandled none n w o = o ≡ none
  IsHandled (some h) n w o = IsAcknowledged (h n.params w).1 o

  abbrev pub IsNotified : Outcome Notification → Server R W T → W → Option Response → Type 0
  IsNotified (raised e) s w o = IsSent (IsFailure e) o
  IsNotified (returned n) s w o = IsHandled (lookup n.method s.notification_handlers) n w o

  -- A dict without an id is a notification.
  abbrev pub IsDictAnswered :
      Option Value → Fields → ℕ → Server R W T → W → Option Response → Type 0
  IsDictAnswered none fs t s w o = IsNotified (read_notification R fs) s w o
  IsDictAnswered (some v) fs t s w o = IsRequested (read_request R v fs) t s w o

  -- JSON that is no dict is an error.
  abbrev pub IsAnswered : Outcome Value → ℕ → Server R W T → W → Option Response → Type 0
  IsAnswered (raised e) t s w o = IsSent (IsFailure e) o
  IsAnswered (returned (obj fs)) t s w o = IsDictAnswered (get_field "id" fs) fs t s w o
  IsAnswered (returned v) t s w o = IsSent (IsFailure (other_error (R.complaint v))) o

  -- The JSON of a message.
  abbrev pub value_of : Message → Outcome Value
  value_of (unparsed u) = R.loads u
  value_of (parsed fs) = returned (obj fs)

  route-IsRouted :
      (m : Option Method) (t : ℕ) (q : Request) (s : Server R W T) (w : W)
      → IsRouted m t q s w (route R W T m t q s w).2
  unfolding route create_error_response code_of
  route-IsRouted none t q s w = (id_or_empty-cases q.id, (refl, _, refl, refl))
  route-IsRouted (some m) t q s w = reply-IsReply q.id _

  routed-IsRequested :
      (o : Outcome Request) (t : ℕ) (s : Server R W T) (w : W)
      → IsRequested o t s w (routed R W T o t s w).2
  unfolding routed
  routed-IsRequested (raised e) t s w = failure_of-IsFailure e
  routed-IsRequested (returned q) t s w = route-IsRouted _ t q s w

  notify-IsHandled :
      (h : Option (NotificationHandler R W T)) (n : Notification) (s : Server R W T) (w : W)
      → IsHandled h n w (notify R W T h n s w).2
  unfolding notify
  notify-IsHandled none n s w = refl
  notify-IsHandled (some h) n s w = acknowledge-IsAcknowledged _

  notified-IsNotified :
      (o : Outcome Notification) (s : Server R W T) (w : W)
      → IsNotified o s w (notified R W T o s w).2
  unfolding notified
  notified-IsNotified (raised e) s w = failure_of-IsFailure e
  notified-IsNotified (returned n) s w =
      notify-IsHandled (lookup n.method s.notification_handlers) n s w

  by_id-IsDictAnswered :
      (v : Option Value) (fs : Fields) (t : ℕ) (s : Server R W T) (w : W)
      → IsDictAnswered v fs t s w (by_id R W T v fs t s w).2
  unfolding by_id handle_request handle_notification
  by_id-IsDictAnswered none fs t s w = notified-IsNotified (read_notification R fs) s w
  by_id-IsDictAnswered (some v) fs t s w = routed-IsRequested (read_request R v fs) t s w

  handle_value-IsAnswered :
      (o : Outcome Value) (t : ℕ) (s : Server R W T) (w : W)
      → IsAnswered o t s w (handle_value R W T o t s w).2
  unfolding handle_value
  handle_value-IsAnswered (raised e) t s w = failure_of-IsFailure e
  handle_value-IsAnswered (returned (obj fs)) t s w =
      by_id-IsDictAnswered (get_field "id" fs) fs t s w
  handle_value-IsAnswered (returned null) t s w = internal_failure-IsFailure _
  handle_value-IsAnswered (returned (bool b)) t s w = internal_failure-IsFailure _
  handle_value-IsAnswered (returned (num n)) t s w = internal_failure-IsFailure _
  handle_value-IsAnswered (returned (str u)) t s w = internal_failure-IsFailure _
  handle_value-IsAnswered (returned (decimal m k)) t s w = internal_failure-IsFailure _
  handle_value-IsAnswered (returned (list l)) t s w = internal_failure-IsFailure _

  -- The answer to any message. A request whose handler returns a value gets that value as the result
  -- under its id. An exception, be it of json.loads, of reading the message or of a handler, gets an
  -- error with the id "": -32700 if it is a json.JSONDecodeError and -32603 if not, as does JSON that
  -- is no dict. An unknown method gets the error -32601 under the request's id, unless that is 0. A
  -- notification gets no answer unless reading it or its handler raises.
  pub handle_message-IsAnswered :
      (m : Message) (t : ℕ) (s : Server R W T) (w : W)
      → IsAnswered (value_of m) t s w (handle_message R W T m t s w).2
  unfolding handle_message
  handle_message-IsAnswered (unparsed u) t s w = handle_value-IsAnswered (R.loads u) t s w
  handle_message-IsAnswered (parsed fs) t s w = handle_value-IsAnswered (returned (obj fs)) t s w
