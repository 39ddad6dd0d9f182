-- ===== src/Mcp/Pool/Frame.antt =====
-- One endpoint's operations leave the others alone, and an endpoint keeps its client.
use cobalto.Base.{ℕ, ◌≡◌, refl, ◌≢◌, ◌∙◌, String, Option, none, some, string_eq}
use cobalto.Base.Dict.{lookup, lookup-insert_ne, lookup-erase_ne}
use cobalto.Mcp.Pool.{
  Pool, PoolEntry, Client, ClientArgs, Result, ok, raised, Outcome, get_client, pool_success,
  pool_failure, reset_breaker, evict, execute_request, update_entry, finish, responded, failed,
  failed_otherwise, send,
}

-- The pool's view of one endpoint.
abbrev pub entry : String → Pool → Option PoolEntry
entry j p = lookup j p.entries

module _ (name j : String) (other : name ≢ j) (p : Pool) where
  update-other :
      (o : Option PoolEntry) (f : PoolEntry → PoolEntry)
      → entry j (update_entry name o f p) ≡ entry j p
  unfolding update_entry
  update-other none f = refl
  update-other (some e) f = lookup-insert_ne name j (f e) p.entries other

  pub success-other : entry j (pool_success name p) ≡ entry j p
  unfolding pool_success
  success-other = update-other (lookup name p.entries) _

  pub failure-other : (now : ℕ) → entry j (pool_failure now name p) ≡ entry j p
  unfolding pool_failure
  failure-other now = update-other (lookup name p.entries) _

  pub reset-other : entry j (reset_breaker name p) ≡ entry j p
  unfolding reset_breaker
  reset-other = update-other (lookup name p.entries) _

  pub evict-other : entry j (evict name p).0 ≡ entry j p
  unfolding evict
  evict-other = lookup-erase_ne name j p.entries other

  pub client-other : (now : ℕ) (a : ClientArgs) → entry j (get_client now name a p).0 ≡ entry j p
  unfolding get_client
  client-other now a = lookup-insert_ne name j _ p.entries other

finish-other :
    {A : Type 0} (later : ℕ) (name j : String) (r : Outcome A) (p : Pool)
    → name ≢ j
    → entry j (finish later name r p).0 ≡ entry j p
unfolding finish
finish-other later name j (responded body) p other = success-other name j other p
finish-other later name j (failed m) p other = failure-other name j other p later
finish-other later name j (failed_otherwise m) p other = refl

send-other :
    {A : Type 0} (later : ℕ) (name j : String) (request : Client → Outcome A) (p : Pool)
    (r : Result Client)
    → name ≢ j
    → entry j (send later name request (λ q. q) (p, r)).0 ≡ entry j p
unfolding send
send-other later name j request p (ok c) other = finish-other later name j (request c) p other
send-other later name j request p (raised x) other = refl

-- A request to one endpoint, refused, failed or answered, leaves the clients, the breakers and the
-- counters of every other endpoint as they were, if no other task writes to the pool meanwhile.
pub execute_request-other :
    {A : Type 0} (now later : ℕ) (name j : String) (a : ClientArgs) (request : Client → Outcome A)
    (p : Pool)
    → name ≢ j
    → entry j (execute_request now later name a request (λ q. q) p).0 ≡ entry j p
unfolding execute_request
execute_request-other now later name j a request p other =
    let (q, r) = get_client now name a p in
    send-other later name j request q r other ∙ client-other name j other p now a
