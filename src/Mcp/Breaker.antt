-- ===== src/Mcp/Breaker.antt =====
-- class CircuitBreaker of frameworks/mcp-bridge/src/cobalto/mcp/transport/pool.py.
-- Every method holds the breaker's lock, so it is one atomic step. `now` is the reading of
-- `time.monotonic()` that the method takes; times and the cooldown are in ticks of that clock.
pub mod Streaks
pub mod Cooldown
pub mod History
mod Tests
use cobalto.Base.{ℕ, ◌+◌, Bool, true, false, leb, if◌then◌else◌}

pub data BreakerState : Type 0 where
  closed opened half_open : BreakerState

pub record CircuitBreaker : Type 0 where
  pub failure_threshold : ℕ
  pub cooldown_seconds : ℕ
  pub failures : ℕ
  pub state : BreakerState
  pub last_failure_time : ℕ

-- `__init__`
abbrev pub new_breaker : ℕ → ℕ → CircuitBreaker
new_breaker failure_threshold cooldown_seconds = record {
  failure_threshold = failure_threshold;
  cooldown_seconds = cooldown_seconds;
  failures = 0;
  state = closed;
  last_failure_time = 0;
}

close_half_open : BreakerState → BreakerState
close_half_open half_open = closed
close_half_open closed = closed
close_half_open opened = opened

unfoldable pub record_success : CircuitBreaker → CircuitBreaker
unfolding close_half_open
record_success b = record b { failures = 0; state = close_half_open b.state }

unfoldable pub record_failure : ℕ → CircuitBreaker → CircuitBreaker
record_failure now b =
    let failures' = b.failures + 1 in
    record b {
      failures = failures';
      last_failure_time = now;
      state = if leb b.failure_threshold failures' then opened else b.state;
    }

-- `elapsed >= cooldown` is written without the subtraction.
allow_in : BreakerState → ℕ → CircuitBreaker → CircuitBreaker × Bool
allow_in closed now b = (b, true)
allow_in opened now b =
    if leb (b.last_failure_time + b.cooldown_seconds) now
    then (record b { state = half_open }, true)
    else (b, false)
allow_in half_open now b = (b, true)

unfoldable pub allow_request : ℕ → CircuitBreaker → CircuitBreaker × Bool
unfolding allow_in
allow_request now b = allow_in b.state now b

-- `MCPConnectionPool.reset_breaker` writes these two fields.
unfoldable pub reset : CircuitBreaker → CircuitBreaker
reset b = record b { failures = 0; state = closed }
