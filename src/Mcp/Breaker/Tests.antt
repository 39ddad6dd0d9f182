-- ===== src/Mcp/Breaker/Tests.antt =====
-- Runs of the breaker, and its theorems at concrete inputs.
use cobalto.Base.{◌≡◌, refl, true, List, [], ◌∷◌, All, arith, if◌then◌else◌}
use cobalto.Mcp.Breaker.{CircuitBreaker, closed, opened, half_open, new_breaker}
use cobalto.Mcp.Breaker.Streaks.{Report, succeeded, failed, report_all, has_streak, opens_on_streak}
use cobalto.Mcp.Breaker.History.{Event, IsSound, run, answers, run-IsSound}
use cobalto.Mcp.Breaker.Cooldown.{IsRefused, cooldown_refuses}

-- A success between the failures starts the count again.
abbrev reports : List Report
reports = failed 1 ∷ failed 2 ∷ succeeded ∷ failed 3 ∷ failed 4 ∷ failed 5 ∷ []

streak_found : has_streak 3 0 reports ≡ true
unfolding has_streak
streak_found = refl

opens_on_streak_example :
    (report_all reports (new_breaker 3 30)).state
    ≡ (if has_streak 3 0 reports then opened else closed)
opens_on_streak_example = opens_on_streak 3 30 reports

abbrev tripped : CircuitBreaker
tripped = record {
  failure_threshold = 3;
  cooldown_seconds = 30;
  failures = 3;
  state = opened;
  last_failure_time = 5;
}

abbrev events : List Event
events = Event.asked 6 ∷ Event.failed 7 ∷ Event.succeeded ∷ Event.asked 34 ∷ Event.failed 35 ∷ []

run-IsSound_example :
    let b = run events (new_breaker 3 30) in (b.failure_threshold ≡ 3) × (IsSound b)
run-IsSound_example = run-IsSound 3 30 events (omega arith)

cooldown_refuses_example : All IsRefused (answers events tripped)
cooldown_refuses_example = cooldown_refuses events tripped refl (omega arith)

abbrev probing_breaker : CircuitBreaker
probing_breaker = record tripped { state = half_open }
