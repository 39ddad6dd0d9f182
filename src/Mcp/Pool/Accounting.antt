-- ===== src/Mcp/Pool/Accounting.antt =====
-- What a request through the pool does to its own endpoint.
use cobalto.Base.{
  ℕ, ◌+◌, ◌≡◌, inl, inr, String, Option, none, some, List, [], ◌∷◌, All, length, length-append, ap,
  ◌∙◌, ◌++◌, arith, Option-cases, string_eq,
}
use cobalto.Base.Dict.{lookup, lookup-insert_self}
use cobalto.Mcp.Breaker.{allow_request}
use cobalto.Mcp.Pool.{
  Pool, PoolEntry, Client, ClientArgs, Result, ok, raised, Outcome, responded, failed,
  failed_otherwise, get_client, pool_success, pool_failure, execute_request, admit, update_entry,
  entry_or_new, finish, send, new_entry,
}
use cobalto.Mcp.Pool.Frame.{entry}

-- The requests that an endpoint's counters show.
abbrev pub counted : Option PoolEntry → ℕ
counted none = 0
counted (some e) = e.requests_count + e.failures_count

-- The call does not end in an exception other than httpx.HTTPError.
abbrev pub IsHttp : {A : Type 0} → Outcome A → Type 0
IsHttp (failed_otherwise m) = ⊥
IsHttp _ = Unit

module _ (now : ℕ) (name : String) (a : ClientArgs) (p : Pool) where
  counted-admit : (e : PoolEntry) → counted (entry name (admit now name e p).0) ≡ counted (some e)
  unfolding admit
  counted-admit e = rw lookup-insert_self

  counted-client : counted (entry name (get_client now name a p).0) ≡ counted (entry name p)
  unfolding get_client
  counted-client = elim (Option-cases (lookup name p.entries)) [
    | inl missing ↦ rw missing (counted-admit (new_entry now name a p))
    | inr (e, found) ↦ rw found (counted-admit e)
  ]

-- After `get_client` the endpoint has an entry: the old one, or a new one, with its breaker asked.
module _ (now : ℕ) (name : String) (a : ClientArgs) (p : Pool) where
  abbrev asked_entry : PoolEntry
  asked_entry = entry_or_new (lookup name p.entries) (new_entry now name a p)

  entry-get_client :
      entry name (get_client now name a p).0
      ≡ some (record asked_entry { breaker = (allow_request now asked_entry.breaker).0 })
  unfolding get_client
  entry-get_client = lookup-insert_self name _ p.entries

module _ (name : String) (p : Pool) where
  counted-success :
      {e : PoolEntry}
      → entry name p ≡ some e
      → counted (entry name (pool_success name p)) ≡ counted (entry name p) + 1
  unfolding pool_success update_entry
  counted-success found = rw (found, lookup-insert_self) (omega arith)

  counted-failure :
      (later : ℕ) {e : PoolEntry}
      → entry name p ≡ some e
      → counted (entry name (pool_failure later name p)) ≡ counted (entry name p) + 1
  unfolding pool_failure update_entry
  counted-failure later found = rw (found, lookup-insert_self) (omega arith)

module _ {A : Type 0} (later : ℕ) (name : String) where
  counted-finish :
      (r : Outcome A) (p : Pool) {e : PoolEntry}
      → entry name p ≡ some e
      → IsHttp r
      → counted (entry name (finish later name r p).0) ≡ counted (entry name p) + 1
  unfolding finish
  counted-finish (responded body) p found h = counted-success name p found
  counted-finish (failed m) p found h = counted-failure name p later found
  counted-finish (failed_otherwise m) p found h = absurd h

  counted-send :
      (request : Client → Outcome A) (p : Pool) (r : Result Client) {e : PoolEntry}
      → entry name p ≡ some e
      → ((c : Client) → IsHttp (request c))
      → let (p', sent, _) = send later name request (λ q. q) (p, r) in
        counted (entry name p') ≡ counted (entry name p) + length sent
  unfolding send
  counted-send request p (ok c) found h = counted-finish (request c) p found (h c)
  counted-send request p (raised x) found h = omega arith

-- A call of `execute_request`, with the readings of the clock before and after the request.
pub record Call (A : Type 0) : Type 0 where
  pub now : ℕ
  pub later : ℕ
  pub args : ClientArgs
  pub request : Client → Outcome A

-- Calls to one endpoint, one after the other; the requests that they send.
unfoldable pub execute_all : {A : Type 0} → String → List (Call A) → Pool → Pool × List Client
execute_all name [] p = (p, [])
execute_all name (c ∷ cs) p =
    let (p', sent, _) = execute_request c.now c.later name c.args c.request (λ q. q) p in
    let (p'', more) = execute_all name cs p' in (p'', sent ++ more)

module _ {A : Type 0} (name : String) where
  abbrev pub AllHttp : Call A → Type 0
  AllHttp c = (client : Client) → IsHttp (c.request client)

  counted-execute :
      (c : Call A) (p : Pool)
      → AllHttp c
      → let (p', sent, _) = execute_request c.now c.later name c.args c.request (λ q. q) p in
        counted (entry name p') ≡ counted (entry name p) + length sent
  unfolding execute_request
  counted-execute c p h =
      let (q, r) = get_client c.now name c.args p in
      counted-send c.later name c.request q r (entry-get_client c.now name c.args p) h
      ∙ ap (λ (n : ℕ). n + length (send c.later name c.request (λ q. q) (q, r)).1)
          (counted-client c.now name c.args p)

-- Over any calls to an endpoint, one after the other, its counters together grow by exactly the
-- number of requests that were sent: a call that the open circuit refuses sends and counts none,
-- if no request ends in an exception other than httpx.HTTPError.
pub requests_counted :
    {A : Type 0} (name : String) (cs : List (Call A)) (p : Pool)
    → All (AllHttp name) cs
    → let (p', sent) = execute_all name cs p in
      counted (entry name p') ≡ counted (entry name p) + length sent
unfolding execute_all
requests_counted name [] p h = omega arith
requests_counted name (c ∷ cs) p h =
    let (p', sent, _) = execute_request c.now c.later name c.args c.request (λ q. q) p in
    let (p'', more) = execute_all name cs p' in
    omega (
      arith,
      counted-execute name c p h.0,
      requests_counted name cs p' h.1,
      length-append sent more,
    )
