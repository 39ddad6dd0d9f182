-- ===== src/Mcp/Server/Ids.antt =====
-- The ids of the responses of `handle_message` of frameworks/mcp-bridge/src/cobalto/mcp/server.py, and
-- requests for sampling.
use cobalto.Base.{
  ℕ, zero, suc, ◌≡◌, ◌≢◌, refl, sym, subst, ◌∙◌, ap, ◌↔◌, ◌⊎◌, inl, inr, String, Option, none, some,
  string_eq, arith,
}
use cobalto.Base.Dict.{lookup}
use cobalto.Base.Json.{Value, str, obj, end, Fields, get_field}
use cobalto.Mcp.Protocol.{
  decode_error, other_error, Outcome, raised, returned, RequestId, text_id, number_id, Request,
  Response, Runtime, sampling_rejected,
}
use cobalto.Mcp.Dump.{read_request}
use cobalto.Mcp.Tools.{fields_or_empty}
use cobalto.Mcp.Source.{ToolSource}
use cobalto.Mcp.Handlers.{
  Method, create_message, method_handlers, id_or_empty, create_error_response, Server, dispatch,
  handle_sampling, sampled_by, capabilities, SamplingHandler, set_sampling_handler,
}
use cobalto.Mcp.Server.{
  parsed, create_success_response, failure_of, internal_failure, reply, route, routed,
  handle_request, by_id, handle_value, handle_message,
}

id_or_empty-some : (i : RequestId) → i ≢ text_id "" → i ≢ number_id 0 → id_or_empty (some i) ≡ i
unfolding id_or_empty
id_or_empty-some (text_id s) h k = refl
id_or_empty-some (number_id zero) h k = absurd (k refl)
id_or_empty-some (number_id (suc n)) h k = ground arith

abbrev HasResult : Response → Type 0
HasResult r = (x : Value) × (r.result ≡ some x)

some_value : {x : Value} → none ≡ some x → ⊥
some_value h = cc

reply-echo :
    (i : RequestId) (o : Outcome Value)
    → i ≢ text_id ""
    → ((reply i o).id ≡ i) ↔ HasResult (reply i o)
unfolding reply create_success_response failure_of internal_failure create_error_response
    id_or_empty
reply-echo i (returned v) h = ((λ e. (v, refl)), λ e. refl)
reply-echo i (raised (decode_error e)) h =
    ((λ p. absurd (h (sym p))), λ p. let (x, q) = p in absurd (some_value q))
reply-echo i (raised (other_error e)) h =
    ((λ p. absurd (h (sym p))), λ p. let (x, q) = p in absurd (some_value q))

distinct_none : {A : Type 0} {m : A} → some m ≡ none → ⊥
distinct_none h = cc

some_response : {a b : Response} → some a ≡ some b → a ≡ b
some_response h = cc

-- The result that a request for sampling gets from a server that has no handler.
unfoldable pub printed_refusal : Runtime → RequestId → Value
printed_refusal R i = str (
    R.dumps_response
      (create_error_response (some i) sampling_rejected "Sampling not supported by this server"))

module _ (R : Runtime) (W : Type 0) (T : ToolSource W) where
  pub handle_message-route :
      (fs : Fields) (v : Value) (q : Request) (t : ℕ) (s : Server R W T) (w : W)
      → get_field "id" fs ≡ some v
      → read_request R v fs ≡ returned q
      → handle_message R W T (parsed fs) t s w
        ≡ route R W T (lookup q.method method_handlers) t q s w
  unfolding handle_message handle_value by_id handle_request routed
  handle_message-route fs v q t s w has reads = rw (has, reads) refl

  route-echo :
      (m : Option Method) (t : ℕ) (q : Request) (s : Server R W T) (w : W)
      → q.id ≢ text_id ""
      → q.id ≢ number_id 0
      → (r : Response) → (route R W T m t q s w).2 ≡ some r
      → (r.id ≡ q.id) ↔ ((m ≡ none) ⊎ HasResult r)
  unfolding route create_error_response
  route-echo none t q s w h k r e = (
    (λ p. inl refl),
    λ p. sym (ap (λ (x : Response). x.id) (some_response e)) ∙ id_or_empty-some q.id h k,
  )
  route-echo (some m) t q s w h k r e =
      subst (λ (x : Response). (x.id ≡ q.id) ↔ ((some m ≡ none) ⊎ HasResult x)) (some_response e)
        (
          (λ p. inr ((reply-echo q.id _ h).0 p)),
          λ p. elim p [ inl c ↦ absurd (distinct_none c) | inr c ↦ (reply-echo q.id _ h).1 c ],
        )

  -- The response to a request whose id is neither "" nor 0 carries that id exactly when the method is
  -- unknown or the response has a result: where a handler raises, the response does not say which
  -- request failed.
  pub handle_message-echo :
      (fs : Fields) (v : Value) (q : Request) (t : ℕ) (s : Server R W T) (w : W) (r : Response)
      → get_field "id" fs ≡ some v
      → read_request R v fs ≡ returned q
      → q.id ≢ text_id ""
      → q.id ≢ number_id 0
      → (handle_message R W T (parsed fs) t s w).2 ≡ some r
      → (r.id ≡ q.id)
        ↔ ((lookup q.method method_handlers ≡ none) ⊎ ((x : Value) × (r.result ≡ some x)))
  handle_message-echo fs v q t s w r has reads h k e =
      route-echo (lookup q.method method_handlers) t q s w h k r
        (sym (ap (λ x. x.2) (handle_message-route fs v q t s w has reads)) ∙ e)

  sampled_by-none :
      (o : Option (SamplingHandler R W T)) (i : RequestId) (fs : Fields) (s : Server R W T) (w : W)
      → o ≡ none
      → sampled_by R W T o i fs s w ≡ (s, w, returned (printed_refusal R i))
  unfolding sampled_by printed_refusal
  sampled_by-none none i fs s w h = refl
  sampled_by-none (some f) i fs s w h = absurd (distinct_none h)

  create_message-unsupported :
      (t : ℕ) (q : Request) (s : Server R W T) (w : W)
      → s.sampling_handler ≡ none
      → route R W T (some create_message) t q s w
        ≡ (s, w, some (create_success_response q.id (printed_refusal R q.id)))
  unfolding route dispatch handle_sampling
  create_message-unsupported t q s w h =
      rw (sampled_by-none s.sampling_handler q.id (fields_or_empty q.params) s w h, reply) refl

  -- A server with no sampling handler still advertises sampling as an empty dict, as it does once any
  -- handler is set, and it answers a request for `sampling/createMessage` with a success: the result is
  -- the printed error response.
  pub unsupported_sampling_succeeds :
      (f : SamplingHandler R W T) (fs : Fields) (v : Value) (q : Request) (t : ℕ) (s : Server R W T)
      (w : W)
      → get_field "id" fs ≡ some v
      → read_request R v fs ≡ returned q
      → q.method ≡ "sampling/createMessage"
      → s.sampling_handler ≡ none
      → ((capabilities R W T s).sampling ≡ obj end)
        × ((capabilities R W T (set_sampling_handler R W T f s)).sampling ≡ obj end)
        × (handle_message R W T (parsed fs) t s w
            ≡ (s, w, some (create_success_response q.id (printed_refusal R q.id))))
  unfolding lookup method_handlers capabilities
  unsupported_sampling_succeeds f fs v q t s w has reads named h = (
    ground arith,
    refl,
    handle_message-route fs v q t s w has reads
        ∙ ap (λ (m : String). route R W T (lookup m method_handlers) t q s w) named
        ∙ create_message-unsupported t q s w h,
  )
