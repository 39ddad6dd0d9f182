-- ===== src/Mcp/Breaker/Streaks.antt =====
-- When a breaker opens: streaks of failures.
use cobalto.Base.{ℕ, ◌+◌, ◌≡◌, refl, Bool, false, ◌||◌, List, [], ◌∷◌, arith, leb, if◌then◌else◌}
use cobalto.Mcp.Breaker.{
  CircuitBreaker, closed, opened, record_success, record_failure, new_breaker,
}

-- What a request reports back, a failure with the clock's reading.
pub data Report : Type 0 where
  succeeded : Report
  failed : ℕ → Report

unfoldable pub report : Report → CircuitBreaker → CircuitBreaker
unfolding record_success record_failure
report succeeded b = record_success b
report (failed now) b = record_failure now b

unfoldable pub report_all : List Report → CircuitBreaker → CircuitBreaker
unfolding report
report_all [] b = b
report_all (r ∷ rs) b = report_all rs (report r b)

-- Some streak of failures without a success reaches `threshold`; `run` is the length of the streak
-- that the reports continue.
unfoldable pub has_streak : ℕ → ℕ → List Report → Bool
has_streak threshold run [] = false
has_streak threshold run (succeeded ∷ rs) = has_streak threshold 0 rs
has_streak threshold run (failed now ∷ rs) =
    leb threshold (run + 1) || has_streak threshold (run + 1) rs

opened_stays :
    (rs : List Report) (b : CircuitBreaker) → b.state ≡ opened → (report_all rs b).state ≡ opened
unfolding report_all
opened_stays [] b h = h
opened_stays (succeeded ∷ rs) b h = opened_stays rs (record_success b) (ground arith)
opened_stays (failed now ∷ rs) b h = opened_stays rs (record_failure now b) (ground arith)

-- The state after the reports, as a function of the streaks alone.
state-report_all :
    (rs : List Report) (b : CircuitBreaker)
    → b.state ≡ closed
    → (report_all rs b).state
      ≡ (if has_streak b.failure_threshold b.failures rs then opened else closed)
unfolding report_all has_streak
state-report_all [] b h = h
state-report_all (succeeded ∷ rs) b h = ground (arith, state-report_all rs (record_success b))
state-report_all (failed now ∷ rs) b h =
    ground
      (arith, state-report_all rs (record_failure now b), opened_stays rs (record_failure now b))

-- A new breaker that has only been told how requests ended is open exactly if, at some point, its
-- threshold of failures had come in a row; otherwise it is closed.
pub opens_on_streak :
    (threshold cooldown : ℕ) (rs : List Report)
    → (report_all rs (new_breaker threshold cooldown)).state
      ≡ (if has_streak threshold 0 rs then opened else closed)
opens_on_streak threshold cooldown rs = state-report_all rs (new_breaker threshold cooldown) refl
