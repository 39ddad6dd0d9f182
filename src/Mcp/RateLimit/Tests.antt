-- ===== src/Mcp/RateLimit/Tests.antt =====
-- The theorems on rate limits at concrete inputs.
use cobalto.Base.{ℕ, ◌+◌, ◌*◌, ◌≤◌, ◌≡◌, refl, List, [], ◌∷◌, arith}
use cobalto.Base.Int.{◌+ℤ◌, ◌-ℤ◌}
use cobalto.Mcp.RateLimit.{
  new_bucket, refill, consume, minute, new_limit, RateLimit, check_rate_limit,
}
use cobalto.Mcp.RateLimit.Bounds.{last_of, serve, admitted_bounded}
use cobalto.Base.{some}
use cobalto.Mcp.RateLimit.{reset}
use cobalto.Mcp.RateLimit.Pairs.{made, cleared, IsAnswer, Reachable-IsAnswer}

-- Two tokens, and six more in a minute: at ten seconds one token has come back.
abbrev times : List ℕ
times = 0 ∷ 0 ∷ 0 ∷ 10000000 ∷ 10000000 ∷ []

three_of_five : (serve times (new_bucket 0 2 6 minute)).1 ≡ 3
unfolding consume refill ◌+ℤ◌ ◌-ℤ◌
three_of_five = refl

admitted_bounded_example :
    let (b, n) = serve times (new_bucket 0 2 6 minute) in
    n * minute + 0 * 6 ≤ 2 * minute + last_of 0 times * 6
admitted_bounded_example =
    admitted_bounded 0 2 6 minute times
      (omega arith, (omega arith, (omega arith, (omega arith, (omega arith, tt)))))

abbrev limits : RateLimit
limits = new_limit 0 1 100 1000 20

Reachable-IsAnswer_example :
    IsAnswer (check_rate_limit (λ i. 5 + i) "ana" (reset (some "bo") limits)).1
Reachable-IsAnswer_example = Reachable-IsAnswer (λ i. 5 + i) "ana" (cleared (some "bo") made)
