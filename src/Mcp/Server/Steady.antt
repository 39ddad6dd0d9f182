-- ===== src/Mcp/Server/Steady.antt =====
-- What a message to MCPServer of frameworks/mcp-bridge/src/cobalto/mcp/server.py leaves of the server, and
-- that its treatment does not depend on the server being initialized.
use cobalto.Base.{ℕ, ◌≡◌, refl, ◌∙◌, ap, true, false, String, Option, none, some, string_eq}
use cobalto.Base.Dict.{lookup}
use cobalto.Base.Json.{
  Value, str, obj, null, bool, num, decimal, list, Fields, get_field, get_field_or,
}
use cobalto.Mcp.Protocol.{
  Outcome, raised, returned, RequestId, Request, Notification, Runtime, InitializeParams, or_raise,
}
use cobalto.Mcp.Dump.{read_request, read_notification, read_tool_call}
use cobalto.Mcp.Tools.{fields_or_empty}
use cobalto.Mcp.Source.{ToolSource}
use cobalto.Mcp.Handlers.{
  Method, initialize, ping, tools_list, tools_call, resources_list, resources_read,
  resources_templates_list, prompts_list, prompts_get, create_message, set_level, method_handlers,
  Server, dispatch, SamplingHandler, NotificationHandler, initialized_with, handle_initialize,
  call_read, handle_tools_call, handle_resources_read, prompt_named, handle_prompts_get, sampled,
  sampled_by, handle_sampling, is_hashable, after_read,
}
use cobalto.Mcp.Server.{
  Message, unparsed, parsed, reply, route, routed, handle_request, notify, notified,
  handle_notification, by_id, handle_value, handle_message,
}

module _ (R : Runtime) (W : Type 0) (T : ToolSource W) where
  -- What messages leave of the server. It is once initialized for ever.
  pub record Kept (s u : Server R W T) : Type 0 where
    pub tools : T.list_tools u.tools ≡ T.list_tools s.tools
    pub names : T.list_tool_names u.tools ≡ T.list_tool_names s.tools
    pub resources : u.resources ≡ s.resources
    pub prompts : u.prompts ≡ s.prompts
    pub sampling : u.sampling_handler ≡ s.sampling_handler
    pub initialized : s.initialized ≡ true → u.initialized ≡ true

  -- The server without what `initialize` sets.
  abbrev pub bare : Server R W T → Server R W T
  bare s = record s { initialized = false; client_info = null; client_capabilities = null }

  pub same-Kept : (s : Server R W T) → Kept s s
  same-Kept s = record {
    tools = refl;
    names = refl;
    resources = refl;
    prompts = refl;
    sampling = refl;
    initialized = λ h. h;
  }

  pub Kept_trans : (s u v : Server R W T) → Kept s u → Kept u v → Kept s v
  Kept_trans s u v a b = record {
    tools = b.tools ∙ a.tools;
    names = b.names ∙ a.names;
    resources = b.resources ∙ a.resources;
    prompts = b.prompts ∙ a.prompts;
    sampling = b.sampling ∙ a.sampling;
    initialized = λ h. b.initialized (a.initialized h);
  }

  -- A step keeps the server, and does the same where the server is not initialized.
  abbrev pub Steady : {A : Type 0} → (Server R W T → Server R W T × W × A) → Server R W T → Type 0
  Steady f s =
      Kept s (f s).0
      × (bare (f s).0 ≡ bare (f (bare s)).0)
      × ((f s).1 ≡ (f (bare s)).1)
      × ((f s).2 ≡ (f (bare s)).2)

  initialized_with-Steady :
      (o : Outcome InitializeParams) (s : Server R W T) (w : W)
      → Steady (λ (u : Server R W T). initialized_with R W T o u w) s
  unfolding initialized_with
  initialized_with-Steady (raised e) s w = (same-Kept s, refl, refl, refl)
  initialized_with-Steady (returned p) s w =
      let kept : Kept s _ = record {
        tools = refl;
        names = refl;
        resources = refl;
        prompts = refl;
        sampling = refl;
        initialized = λ h. refl;
      } in
      (kept, refl, refl, refl)

  call_read-Steady :
      (o : Outcome (String × Option Fields)) (t : ℕ) (s : Server R W T) (w : W)
      → Steady (λ (u : Server R W T). call_read R W T o t u w) s
  unfolding call_read
  call_read-Steady (raised e) t s w = (same-Kept s, refl, refl, refl)
  call_read-Steady (returned (name, a)) t s w =
      let kept : Kept s _ = record {
        tools = T.list_tools-call_tool t name a w s.tools;
        names = T.list_tool_names-call_tool t name a w s.tools;
        resources = refl;
        prompts = refl;
        sampling = refl;
        initialized = λ h. h;
      } in
      (kept, refl, refl, refl)

  handle_resources_read-Steady :
      (v : Value) (s : Server R W T) (w : W)
      → Steady (λ (u : Server R W T). handle_resources_read R W T v u w) s
  unfolding handle_resources_read after_read
  handle_resources_read-Steady (str uri) s w = (same-Kept s, refl, refl, refl)
  handle_resources_read-Steady null s w = (same-Kept s, refl, refl, refl)
  handle_resources_read-Steady (bool b) s w = (same-Kept s, refl, refl, refl)
  handle_resources_read-Steady (num n) s w = (same-Kept s, refl, refl, refl)
  handle_resources_read-Steady (decimal m k) s w = (same-Kept s, refl, refl, refl)
  handle_resources_read-Steady (list l) s w = (same-Kept s, refl, refl, refl)
  handle_resources_read-Steady (obj fs) s w = (same-Kept s, refl, refl, refl)

  handle_prompts_get-Steady :
      (v a : Value) (s : Server R W T) (w : W)
      → Steady (λ (u : Server R W T). handle_prompts_get R W T v a u w) s
  unfolding handle_prompts_get prompt_named is_hashable
  handle_prompts_get-Steady (str name) a s w = (same-Kept s, refl, refl, refl)
  handle_prompts_get-Steady null a s w = (same-Kept s, refl, refl, refl)
  handle_prompts_get-Steady (bool b) a s w = (same-Kept s, refl, refl, refl)
  handle_prompts_get-Steady (num n) a s w = (same-Kept s, refl, refl, refl)
  handle_prompts_get-Steady (decimal m k) a s w = (same-Kept s, refl, refl, refl)
  handle_prompts_get-Steady (list l) a s w = (same-Kept s, refl, refl, refl)
  handle_prompts_get-Steady (obj fs) a s w = (same-Kept s, refl, refl, refl)

  sampled-Steady :
      (o : Outcome R.Sampling) (f : SamplingHandler R W T) (s : Server R W T) (w : W)
      → Steady (λ (u : Server R W T). sampled R W T o f u w) s
  unfolding sampled
  sampled-Steady (raised e) f s w = (same-Kept s, refl, refl, refl)
  sampled-Steady (returned p) f s w = (same-Kept s, refl, refl, refl)

  sampled_by-Steady :
      (f : Option (SamplingHandler R W T)) (i : RequestId) (fs : Fields) (s : Server R W T) (w : W)
      → Steady (λ (u : Server R W T). sampled_by R W T f i fs u w) s
  unfolding sampled_by
  sampled_by-Steady none i fs s w = (same-Kept s, refl, refl, refl)
  sampled_by-Steady (some f) i fs s w =
      sampled-Steady (or_raise (R.complaint (obj fs)) (R.as_sampling fs)) f s w

  dispatch-Steady :
      (m : Method) (t : ℕ) (q : Request) (s : Server R W T) (w : W)
      → Steady (λ (u : Server R W T). dispatch R W T m t q u w) s
  unfolding dispatch handle_initialize handle_tools_call handle_sampling
  dispatch-Steady initialize t q s w =
      initialized_with-Steady
        (or_raise (R.complaint (obj (fields_or_empty q.params)))
          (R.as_initialize (fields_or_empty q.params)))
        s w
  dispatch-Steady ping t q s w = (same-Kept s, refl, refl, refl)
  dispatch-Steady tools_list t q s w = (same-Kept s, refl, refl, refl)
  dispatch-Steady tools_call t q s w =
      call_read-Steady (read_tool_call R (fields_or_empty q.params)) t s w
  dispatch-Steady resources_list t q s w = (same-Kept s, refl, refl, refl)
  dispatch-Steady resources_read t q s w =
      handle_resources_read-Steady (get_field_or "uri" (str "") (fields_or_empty q.params)) s w
  dispatch-Steady resources_templates_list t q s w = (same-Kept s, refl, refl, refl)
  dispatch-Steady prompts_list t q s w = (same-Kept s, refl, refl, refl)
  dispatch-Steady prompts_get t q s w =
      handle_prompts_get-Steady (get_field_or "name" (str "") (fields_or_empty q.params))
        (get_field_or "arguments" null (fields_or_empty q.params)) s w
  dispatch-Steady create_message t q s w =
      sampled_by-Steady s.sampling_handler q.id (fields_or_empty q.params) s w
  dispatch-Steady set_level t q s w = (same-Kept s, refl, refl, refl)

  route-Steady :
      (m : Option Method) (t : ℕ) (q : Request) (s : Server R W T) (w : W)
      → Steady (λ (u : Server R W T). route R W T m t q u w) s
  unfolding route
  route-Steady none t q s w = (same-Kept s, refl, refl, refl)
  route-Steady (some m) t q s w =
      let (kept, server, world, result) = dispatch-Steady m t q s w in
      (kept, server, world, ap (λ (o : Outcome Value). some (reply q.id o)) result)

  routed-Steady :
      (o : Outcome Request) (t : ℕ) (s : Server R W T) (w : W)
      → Steady (λ (u : Server R W T). routed R W T o t u w) s
  unfolding routed
  routed-Steady (raised e) t s w = (same-Kept s, refl, refl, refl)
  routed-Steady (returned q) t s w = route-Steady (lookup q.method method_handlers) t q s w

  notify-Steady :
      (h : Option (NotificationHandler R W T)) (n : Notification) (s : Server R W T) (w : W)
      → Steady (λ (u : Server R W T). notify R W T h n u w) s
  unfolding notify
  notify-Steady none n s w = (same-Kept s, refl, refl, refl)
  notify-Steady (some h) n s w = (same-Kept s, refl, refl, refl)

  notified-Steady :
      (o : Outcome Notification) (s : Server R W T) (w : W)
      → Steady (λ (u : Server R W T). notified R W T o u w) s
  unfolding notified
  notified-Steady (raised e) s w = (same-Kept s, refl, refl, refl)
  notified-Steady (returned n) s w = notify-Steady (lookup n.method s.notification_handlers) n s w

  by_id-Steady :
      (v : Option Value) (fs : Fields) (t : ℕ) (s : Server R W T) (w : W)
      → Steady (λ (u : Server R W T). by_id R W T v fs t u w) s
  unfolding by_id handle_request handle_notification
  by_id-Steady none fs t s w = notified-Steady (read_notification R fs) s w
  by_id-Steady (some v) fs t s w = routed-Steady (read_request R v fs) t s w

  handle_value-Steady :
      (o : Outcome Value) (t : ℕ) (s : Server R W T) (w : W)
      → Steady (λ (u : Server R W T). handle_value R W T o t u w) s
  unfolding handle_value
  handle_value-Steady (raised e) t s w = (same-Kept s, refl, refl, refl)
  handle_value-Steady (returned (obj fs)) t s w = by_id-Steady (get_field "id" fs) fs t s w
  handle_value-Steady (returned null) t s w = (same-Kept s, refl, refl, refl)
  handle_value-Steady (returned (bool b)) t s w = (same-Kept s, refl, refl, refl)
  handle_value-Steady (returned (num n)) t s w = (same-Kept s, refl, refl, refl)
  handle_value-Steady (returned (str u)) t s w = (same-Kept s, refl, refl, refl)
  handle_value-Steady (returned (decimal m k)) t s w = (same-Kept s, refl, refl, refl)
  handle_value-Steady (returned (list l)) t s w = (same-Kept s, refl, refl, refl)

  pub handle_message-Steady :
      (m : Message) (t : ℕ) (s : Server R W T) (w : W)
      → Steady (λ (u : Server R W T). handle_message R W T m t u w) s
  unfolding handle_message
  handle_message-Steady (unparsed u) t s w = handle_value-Steady (R.loads u) t s w
  handle_message-Steady (parsed fs) t s w = handle_value-Steady (returned (obj fs)) t s w
