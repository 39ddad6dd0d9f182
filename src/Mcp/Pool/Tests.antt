-- ===== src/Mcp/Pool/Tests.antt =====
-- Runs of the pool, and its theorems at concrete inputs.
use cobalto.Base.{
  ℕ, ◌+◌, ◌≡◌, refl, ◌≢◌, String, true, none, some, List, [], ◌∷◌, length, arith, string_eq,
}
use cobalto.Base.Dict.{lookup, insert}
use cobalto.Mcp.Breaker.{opened, new_breaker, record_failure, allow_request}
use cobalto.Mcp.Pool.{
  Pool, PoolEntry, Client, ClientArgs, Outcome, responded, failed, get_client, execute_request,
}
use cobalto.Mcp.Pool.Frame.{entry}
use cobalto.Mcp.Pool.Accounting.{Call, counted, execute_all, requests_counted}
use text.Mathlib.TextEquality.{eq_iff}

abbrev pool : Pool
pool = record {
  default_limits = record { max_connections = 10; max_keepalive = 5 };
  default_timeout = 30;
  default_failure_threshold = 1;
  default_cooldown_seconds = 30;
  entries = [];
}

abbrev args : ClientArgs
args = record {
  base_url = "https://wazuh";
  timeout = none;
  verify = true;
  auth = none;
  headers = none;
  limits = none;
}

abbrev client : Client
client = record {
  base_url = "https://wazuh";
  timeout = 30;
  verify = true;
  auth = none;
  headers = none;
  limits = record { max_connections = 10; max_keepalive = 5 };
}

abbrev timeouts : Client → Outcome ℕ
timeouts c = failed "timeout"

abbrev answers_seven : Client → Outcome ℕ
answers_seven c = responded (some 7)

-- The failure of the first call opens the circuit, which blocks the second.
abbrev calls : List (Call ℕ)
calls =
    record { now = 1; later = 2; args = args; request = timeouts }
    ∷ record { now = 3; later = 4; args = args; request = answers_seven }
    ∷ []

one_request_sent : (execute_all "wazuh" calls pool).1 ≡ client ∷ []
unfolding execute_all execute_request get_client allow_request record_failure lookup insert
one_request_sent = refl

requests_counted_example :
    let (p', sent) = execute_all "wazuh" calls pool in
    counted (entry "wazuh" p') ≡ counted (entry "wazuh" pool) + length sent
requests_counted_example = requests_counted "wazuh" calls pool ((λ c. tt), ((λ c. tt), tt))

wazuh_not_opencti : ◌≢◌ {A = String} "wazuh" "opencti"
wazuh_not_opencti = ground (arith, eq_iff "wazuh" "opencti")

abbrev tripped : PoolEntry
tripped = record {
  client = client;
  breaker = record (new_breaker 1 30) { failures = 1; state = opened; last_failure_time = 2 };
  base_url = "https://wazuh";
  name = "wazuh";
  created_at = 1;
  requests_count = 0;
  failures_count = 1;
}

abbrev tripped_pool : Pool
tripped_pool = record pool { entries = ("wazuh", tripped) ∷ [] }

found_tripped : entry "wazuh" tripped_pool ≡ some tripped
unfolding lookup
found_tripped = refl
