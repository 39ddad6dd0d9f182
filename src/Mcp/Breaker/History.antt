-- ===== src/Mcp/Breaker/History.antt =====
-- Histories of a breaker: any sequence of its operations, as the tasks that share it happen to run
-- them, and what holds after each.
use cobalto.Base.{ℕ, ◌<◌, ◌≡◌, refl, ◌∙◌, Bool, List, [], ◌∷◌, arith}
use cobalto.Mcp.Breaker.{
  CircuitBreaker, closed, new_breaker, record_success, record_failure, allow_request, reset,
}

-- One call of a method, with the clock's reading where the method takes one.
pub data Event : Type 0 where
  succeeded resets : Event
  failed asked : ℕ → Event

unfoldable pub step : Event → CircuitBreaker → CircuitBreaker
unfolding record_success record_failure allow_request reset
step succeeded b = record_success b
step resets b = reset b
step (failed now) b = record_failure now b
step (asked now) b = (allow_request now b).0

-- The answers that `allow_request` gave.
unfoldable pub answers : List Event → CircuitBreaker → List Bool
unfolding step
answers [] b = []
answers (asked now ∷ es) b = (allow_request now b).1 ∷ answers es (step (asked now) b)
answers (succeeded ∷ es) b = answers es (step succeeded b)
answers (resets ∷ es) b = answers es (step resets b)
answers (failed now ∷ es) b = answers es (step (failed now) b)

unfoldable pub run : List Event → CircuitBreaker → CircuitBreaker
unfolding step
run [] b = b
run (e ∷ es) b = run es (step e b)

-- A closed breaker has counted fewer failures than its threshold.
abbrev pub IsSound : CircuitBreaker → Type 0
IsSound b = b.state ≡ closed → b.failures < b.failure_threshold

threshold-step :
    (e : Event) (b : CircuitBreaker) → (step e b).failure_threshold ≡ b.failure_threshold
unfolding step
threshold-step succeeded b = ground arith
threshold-step resets b = ground arith
threshold-step (failed now) b = ground arith
threshold-step (asked now) b = ground arith

step-IsSound :
    (e : Event) (b : CircuitBreaker) → 0 < b.failure_threshold → IsSound b → IsSound (step e b)
unfolding step
step-IsSound succeeded b p h = ground arith
step-IsSound resets b p h = ground arith
step-IsSound (failed now) b p h = ground (arith, h)
step-IsSound (asked now) b p h = ground (arith, h)

run_from-IsSound :
    (es : List Event) (b : CircuitBreaker)
    → 0 < b.failure_threshold
    → IsSound b
    → (IsSound (run es b)) × ((run es b).failure_threshold ≡ b.failure_threshold)
unfolding run
run_from-IsSound [] b p h = (h, refl)
run_from-IsSound (e ∷ es) b p h =
    let (sound, kept) =
      run_from-IsSound es (step e b) (omega (arith, threshold-step e b)) (step-IsSound e b p h) in
    (sound, kept ∙ threshold-step e b)

-- Whatever operations run in whatever order on a new breaker with a positive threshold, if it is
-- closed afterwards it has counted fewer failures than that threshold.
pub run-IsSound :
    (threshold cooldown : ℕ) (es : List Event)
    → 0 < threshold
    → let b = run es (new_breaker threshold cooldown) in
      (b.failure_threshold ≡ threshold) × (IsSound b)
run-IsSound threshold cooldown es positive =
    let (sound, kept) =
      run_from-IsSound es (new_breaker threshold cooldown) positive (λ e. positive) in
    (kept, sound)
