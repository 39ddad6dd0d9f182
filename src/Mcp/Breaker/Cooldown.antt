-- ===== src/Mcp/Breaker/Cooldown.antt =====
-- What an open breaker refuses, and what a half-open one lets through.
use cobalto.Base.{ℕ, ◌+◌, ◌≤◌, ◌<◌, ◌≡◌, refl, Bool, true, false, List, [], ◌∷◌, All, arith}
use cobalto.Mcp.Breaker.{
  CircuitBreaker, closed, opened, half_open, record_success, record_failure, allow_request,
}
use cobalto.Mcp.Breaker.History.{Event, succeeded, failed, asked, resets, answers}

-- Between the last failure and the end of its cooldown: nobody resets, and the clock runs on.
abbrev pub During : ℕ → ℕ → Event → Type 0
During start end succeeded = Unit
During start end resets = ⊥
During start end (failed now) = start ≤ now
During start end (asked now) = now < end

abbrev pub IsRefused : Bool → Type 0
IsRefused a = a ≡ false

IsRefused-from :
    (start end : ℕ) (es : List Event) (b : CircuitBreaker)
    → b.state ≡ opened
    → start + b.cooldown_seconds ≡ end
    → start ≤ b.last_failure_time
    → All (During start end) es
    → All IsRefused (answers es b)
unfolding answers
IsRefused-from start end [] b o c l h = tt
IsRefused-from start end (succeeded ∷ es) b o c l h =
    IsRefused-from start end es (record_success b) (ground arith) c l h.1
IsRefused-from start end (resets ∷ es) b o c l h = absurd h.0
IsRefused-from start end (failed now ∷ es) b o c l h =
    IsRefused-from start end es (record_failure now b) (ground arith) c h.0 h.1
IsRefused-from start end (asked now ∷ es) b o c l h =
    ground (arith, IsRefused-from start end es b o c l h.1)

-- An open breaker refuses every request until its cooldown has passed since the last failure,
-- whatever successes and failures of earlier requests are reported meanwhile, as long as nobody
-- resets it and the clock does not run back.
pub cooldown_refuses :
    (es : List Event) (b : CircuitBreaker)
    → b.state ≡ opened
    → All (During b.last_failure_time (b.last_failure_time + b.cooldown_seconds)) es
    → All IsRefused (answers es b)
cooldown_refuses es b o h =
    IsRefused-from b.last_failure_time (b.last_failure_time + b.cooldown_seconds) es b o refl
      (omega arith) h

-- Once the cooldown has passed a request is let through, and its success closes the breaker with
-- no failures counted; so the breaker does recover.
pub cooldown_recovers :
    (now : ℕ) (b : CircuitBreaker)
    → b.state ≡ opened
    → b.last_failure_time + b.cooldown_seconds ≤ now
    → let (probing, allowed) = allow_request now b in
      (allowed ≡ true)
      × (record_success probing).state ≡ closed
      × (record_success probing).failures ≡ 0
unfolding allow_request record_success
cooldown_recovers now b o h = ground arith

abbrev pub IsAllowed : Bool → Type 0
IsAllowed a = a ≡ true

abbrev pub requests : List ℕ → List Event
requests [] = []
requests (now ∷ times) = asked now ∷ requests times

-- A half-open breaker lets every request through until one of them reports back, not one probe.
pub half_open_unlimited :
    (times : List ℕ) (b : CircuitBreaker)
    → b.state ≡ half_open
    → All IsAllowed (answers (requests times) b)
unfolding answers
half_open_unlimited [] b h = tt
half_open_unlimited (now ∷ times) b h = ground (arith, half_open_unlimited times b h)

-- If the threshold is above one and the success of an earlier request is reported while the breaker
-- is open, the probe that the cooldown lets through does not open the breaker again by failing: it
-- stays half-open and lets the next request through at any time.
pub late_success_defeats_probe :
    (now later next : ℕ) (b : CircuitBreaker)
    → b.state ≡ opened
    → 1 < b.failure_threshold
    → b.last_failure_time + b.cooldown_seconds ≤ now
    → let (probing, allowed) = allow_request now (record_success b) in
      (allowed ≡ true)
      × (record_failure later probing).state ≡ half_open
      × (allow_request next (record_failure later probing)).1 ≡ true
unfolding allow_request record_success record_failure
late_success_defeats_probe now later next b o t h = ground arith
