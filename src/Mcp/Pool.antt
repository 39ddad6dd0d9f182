-- ===== src/Mcp/Pool.antt =====
-- class MCPConnectionPool of frameworks/mcp-bridge/src/cobalto/mcp/transport/pool.py, and
-- `execute_request`. Every method holds the pool's lock: one atomic step each. An `httpx` client
-- is what it was built with; closing one is reported in the result. Times are in clock ticks.
pub mod Frame
pub mod Accounting
pub mod Clients
mod Tests
use cobalto.Base.{
  ℕ, zero, suc, ◌+◌, ◌-◌, String, Bool, true, false, Option, none, some, List, [], ◌∷◌, length,
  string_eq, if◌then◌else◌,
}
use cobalto.Base.Dict.{Dict, lookup, insert, erase}
use cobalto.Mcp.Breaker.{
  CircuitBreaker, BreakerState, new_breaker, record_success, record_failure, allow_request, reset,
}

-- httpx.Limits
pub record Limits : Type 0 where
  pub max_connections : ℕ
  pub max_keepalive : ℕ

-- The arguments of httpx.AsyncClient.
pub record Client : Type 0 where
  pub base_url : String
  pub timeout : ℕ
  pub verify : Bool
  pub auth : Option (String × String)
  pub headers : Option (Dict String String)
  pub limits : Limits

pub record PoolEntry : Type 0 where
  pub client : Client
  pub breaker : CircuitBreaker
  pub base_url : String
  pub name : String
  pub created_at : ℕ
  pub requests_count : ℕ
  pub failures_count : ℕ

pub record Pool : Type 0 where
  pub default_limits : Limits
  pub default_timeout : ℕ
  pub default_failure_threshold : ℕ
  pub default_cooldown_seconds : ℕ
  pub entries : Dict String PoolEntry

-- The arguments of `get_client` but for the name.
pub record ClientArgs : Type 0 where
  pub base_url : String
  pub timeout : Option ℕ
  pub verify : Bool
  pub auth : Option (String × String)
  pub headers : Option (Dict String String)
  pub limits : Option Limits

-- The exceptions that the callers of the pool see.
pub data PoolError : Type 0 where
  circuit_open : String → ℕ → PoolError
  http_error : String → PoolError
  other_error : String → PoolError

pub data Result (A : Type 0) : Type 0 where
  ok : A → Result A
  raised : PoolError → Result A

-- `timeout or default`: zero counts as missing.
or_default : Option ℕ → ℕ → ℕ
or_default none d = d
or_default (some zero) d = d
or_default (some (suc n)) d = suc n

-- `client_headers or None`: an empty dict counts as missing.
headers_or_none : Option (Dict String String) → Option (Dict String String)
headers_or_none none = none
headers_or_none (some []) = none
headers_or_none (some (h ∷ hs)) = some (h ∷ hs)

limits_or_default : Option Limits → Limits → Limits
limits_or_default none d = d
limits_or_default (some l) d = l

unfoldable pub build_client : Pool → ClientArgs → Client
unfolding or_default headers_or_none limits_or_default
build_client p a = record {
  base_url = a.base_url;
  timeout = or_default a.timeout p.default_timeout;
  verify = a.verify;
  auth = a.auth;
  headers = headers_or_none a.headers;
  limits = limits_or_default a.limits p.default_limits;
}

unfoldable pub new_entry : ℕ → String → ClientArgs → Pool → PoolEntry
unfolding build_client
new_entry now name a p = record {
  client = build_client p a;
  breaker = new_breaker p.default_failure_threshold p.default_cooldown_seconds;
  base_url = a.base_url;
  name = name;
  created_at = now;
  requests_count = 0;
  failures_count = 0;
}

-- `entry = self._entries.get(name)`, created if there is none.
entry_or_new : Option PoolEntry → PoolEntry → PoolEntry
entry_or_new (some e) fresh = e
entry_or_new none fresh = fresh

-- The breaker belongs to the entry, so what `allow_request` writes is stored with it.
admit : ℕ → String → PoolEntry → Pool → Pool × Result Client
unfolding allow_request
admit now name e p =
    let (b, allowed) = allow_request now e.breaker in
    (
      record p { entries = insert name (record e { breaker = b }) p.entries },
      (if allowed then ok e.client else raised (circuit_open name e.breaker.cooldown_seconds)),
    )

unfoldable pub get_client : ℕ → String → ClientArgs → Pool → Pool × Result Client
unfolding entry_or_new admit new_entry
get_client now name a p =
    admit now name (entry_or_new (lookup name p.entries) (new_entry now name a p)) p

-- `entry = self._entries.get(name)`, `if entry:` write to it
update_entry : String → Option PoolEntry → (PoolEntry → PoolEntry) → Pool → Pool
update_entry name none f p = p
update_entry name (some e) f p = record p { entries = insert name (f e) p.entries }

unfoldable pub pool_success : String → Pool → Pool
unfolding update_entry
pool_success name p =
    update_entry name (lookup name p.entries)
      (λ e. record e { breaker = record_success e.breaker; requests_count = e.requests_count + 1 })
      p

unfoldable pub pool_failure : ℕ → String → Pool → Pool
unfolding update_entry
pool_failure now name p =
    update_entry name (lookup name p.entries)
      (λ e. record e {
        breaker = record_failure now e.breaker;
        failures_count = e.failures_count + 1;
      })
      p

unfoldable pub reset_breaker : String → Pool → Pool
unfolding update_entry
reset_breaker name p =
    update_entry name (lookup name p.entries) (λ e. record e { breaker = reset e.breaker }) p

closed_client : Option PoolEntry → Option Client
closed_client none = none
closed_client (some e) = some e.client

-- The second part is the client that `aclose` is called on.
unfoldable pub evict : String → Pool → Pool × Option Client
unfolding closed_client
evict name p = (record p { entries = erase name p.entries }, closed_client (lookup name p.entries))

clients : Dict String PoolEntry → List Client
clients [] = []
clients ((name, e) ∷ rest) = e.client ∷ clients rest

-- The second part lists the clients that `aclose` is called on.
unfoldable pub close_all : Pool → Pool × List Client
unfolding clients
close_all p = (record p { entries = [] }, clients p.entries)

pub record PoolInfo : Type 0 where
  pub base_url : String
  pub state : BreakerState
  pub failures : ℕ
  pub requests_count : ℕ
  pub failures_count : ℕ
  pub age_seconds : ℕ

info_of : ℕ → PoolEntry → PoolInfo
info_of now e = record {
  base_url = e.base_url;
  state = e.breaker.state;
  failures = e.breaker.failures;
  requests_count = e.requests_count;
  failures_count = e.failures_count;
  age_seconds = now - e.created_at;
}

infos : ℕ → Dict String PoolEntry → Dict String PoolInfo
unfolding info_of
infos now [] = []
infos now ((name, e) ∷ rest) = (name, info_of now e) ∷ infos now rest

-- The second part is `total_pools`.
unfoldable pub get_pool_info : ℕ → Pool → Dict String PoolInfo × ℕ
unfolding infos
get_pool_info now p = (infos now p.entries, length p.entries)

-- What the request on the client ends in: a response with a good status, whose body parses as JSON
-- or not; an httpx.HTTPError, which also a bad status raises; any other exception.
pub data Outcome (A : Type 0) : Type 0 where
  responded : Option A → Outcome A
  failed failed_otherwise : String → Outcome A

module _ {A : Type 0} where
  finish_body : Option A → Result A
  finish_body (some json) = ok json
  finish_body none = raised (other_error "response body is not JSON")

  finish : ℕ → String → Outcome A → Pool → Pool × Result A
  unfolding finish_body pool_success pool_failure
  finish later name (responded body) p = (pool_success name p, finish_body body)
  finish later name (failed message) p = (pool_failure later name p, raised (http_error message))
  finish later name (failed_otherwise message) p = (p, raised (other_error message))

  send :
      ℕ
      → String
      → (Client → Outcome A)
      → (Pool → Pool)
      → Pool × Result Client
      → Pool × List Client × Result A
  unfolding finish
  send later name request others (p, raised e) = (p, [], raised e)
  send later name request others (p, ok client) =
      let (p', r) = finish later name (request client) (others p) in (p', client ∷ [], r)

  -- `request` is what `client.request` does, and `others` what other tasks do to the pool while it
  -- is awaited. The second part of the result lists the requests that are sent.
  unfoldable pub execute_request :
      ℕ
      → ℕ
      → String
      → ClientArgs
      → (Client → Outcome A)
      → (Pool → Pool)
      → Pool
      → Pool × List Client × Result A
  unfolding get_client send
  execute_request now later name a request others p =
      send later name request others (get_client now name a p)
