-- ===== src/Mcp/Pool/Clients.antt =====
-- Which client a request uses, and what an open circuit blocks.
use cobalto.Base.{ℕ, ◌+◌, ◌<◌, ◌≡◌, refl, String, some, List, [], All, arith, false, string_eq}
use cobalto.Base.Dict.{insert, lookup-insert_self, lookup-insert_same}
use cobalto.Mcp.Breaker.{CircuitBreaker, opened, allow_request, record_success, record_failure}
use cobalto.Mcp.Pool.{
  Pool, PoolEntry, Client, ClientArgs, Result, ok, raised, circuit_open, Outcome, responded, failed,
  failed_otherwise, get_client, pool_success, pool_failure, execute_request, admit, update_entry,
  entry_or_new, finish, send,
}
use cobalto.Mcp.Pool.Frame.{entry}

-- The endpoint has an entry with this client.
abbrev pub HasClient : String → Client → Pool → Type 0
HasClient name c p = (e : PoolEntry) × (entry name p ≡ some e) × (e.client ≡ c)

HasClient-insert :
    (name : String) (c : Client) (p : Pool) (e : PoolEntry)
    → e.client ≡ c
    → HasClient name c (record p { entries = insert name e p.entries })
HasClient-insert name c p e same = (e, lookup-insert_self name e p.entries, same)

module _ (name : String) (c : Client) (p : Pool) (has : HasClient name c p) where
  success-HasClient : HasClient name c (pool_success name p)
  unfolding pool_success update_entry
  success-HasClient =
      let (e, found, same) = has in
      rw found (
        HasClient-insert name c p
          (record e { breaker = record_success e.breaker; requests_count = e.requests_count + 1 })
          same)

  failure-HasClient : (later : ℕ) → HasClient name c (pool_failure later name p)
  unfolding pool_failure update_entry
  failure-HasClient later =
      let (e, found, same) = has in
      rw found (
        HasClient-insert name c p
          (record e {
            breaker = record_failure later e.breaker;
            failures_count = e.failures_count + 1;
          })
          same)

  finish-HasClient :
      {A : Type 0} (later : ℕ) (r : Outcome A) → HasClient name c (finish later name r p).0
  unfolding finish
  finish-HasClient later (responded body) = success-HasClient
  finish-HasClient later (failed m) = failure-HasClient later
  finish-HasClient later (failed_otherwise m) = has

  get_client-HasClient : (now : ℕ) (a : ClientArgs) → HasClient name c (get_client now name a p).0
  unfolding get_client admit
  get_client-HasClient now a =
      let (e, found, same) = has in
      rw found
        (HasClient-insert name c p (record e { breaker = (allow_request now e.breaker).0 }) same)

abbrev pub UsesClient : {A : Type 0} → String → Client → Pool × List Client × Result A → Type 0
UsesClient name c (p, sent, _) = HasClient name c p × All (λ d. d ≡ c) sent

send-UsesClient :
    {A : Type 0} (later : ℕ) (name : String) (c : Client) (request : Client → Outcome A) (p : Pool)
    (r : Result Client)
    → HasClient name c p
    → ((d : Client) → r ≡ ok d → d ≡ c)
    → UsesClient name c (send later name request (λ q. q) (p, r))
unfolding send
send-UsesClient later name c request p (ok d) has same =
    (finish-HasClient name c p has later (request d), (same d refl, tt))
send-UsesClient later name c request p (raised x) has same = (has, tt)

handed_client :
    (now : ℕ) (name : String) (a : ClientArgs) (p : Pool) (c d : Client)
    → HasClient name c p
    → (get_client now name a p).1 ≡ ok d
    → d ≡ c
unfolding get_client admit entry_or_new
handed_client now name a p c d (e, found, same) h = ground (arith, found)

-- Once an endpoint has a client, a request to it goes out on that client and keeps it, whatever
-- base URL, timeout, credentials and headers the caller passes, if no other task writes to the pool
-- meanwhile.
pub client_kept :
    {A : Type 0} (now later : ℕ) (name : String) (a : ClientArgs) (request : Client → Outcome A)
    (p : Pool) (c : Client)
    → HasClient name c p
    → UsesClient name c (execute_request now later name a request (λ q. q) p)
unfolding execute_request
client_kept now later name a request p c has =
    let (q, r) = get_client now name a p in
    send-UsesClient later name c request q r (get_client-HasClient name c p has now a)
      (λ d. handed_client now name a p c d has)

refused :
    (now : ℕ) (b : CircuitBreaker)
    → b.state ≡ opened
    → now < b.last_failure_time + b.cooldown_seconds
    → allow_request now b ≡ (b, false)
unfolding allow_request
refused now b o early = ground arith

client_refused :
    (now : ℕ) (name : String) (a : ClientArgs) (p : Pool) (e : PoolEntry)
    → entry name p ≡ some e
    → allow_request now e.breaker ≡ (e.breaker, false)
    → get_client now name a p ≡ (
      record p { entries = insert name e p.entries },
      raised (circuit_open name e.breaker.cooldown_seconds),
    )
unfolding get_client entry_or_new admit
client_refused now name a p e found no_entry = rw (found, no_entry)

-- While the cooldown of an endpoint's open circuit lasts, a request to it is not sent, the caller
-- gets the circuit's error, and no endpoint's entry changes; other tasks do not matter, since
-- nothing is awaited.
pub open_circuit_blocks :
    {A : Type 0} (now later : ℕ) (name : String) (a : ClientArgs) (request : Client → Outcome A)
    (others : Pool → Pool) (p : Pool) (e : PoolEntry)
    → entry name p ≡ some e
    → e.breaker.state ≡ opened
    → now < e.breaker.last_failure_time + e.breaker.cooldown_seconds
    → let (p', sent, r) = execute_request now later name a request others p in
      (sent ≡ [])
      × (r ≡ raised (circuit_open name e.breaker.cooldown_seconds))
      × ((j : String) → entry j p' ≡ entry j p)
unfolding execute_request send
open_circuit_blocks now later name a request others p e found o early =
    rw (client_refused now name a p e found (refused now e.breaker o early))
      (refl, refl, λ j. lookup-insert_same name j e p.entries found)
