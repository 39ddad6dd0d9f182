-- ===== src/Console/Limiter/Tests.antt =====
-- The limiter at concrete inputs.
use cobalto.Base.{◌≡◌, refl, true, false, string_eq}
use cobalto.Base.Dict.{lookup, insert}
use cobalto.Console.Limiter.{new_limiter, is_allowed, record_attempt, remaining}

-- The third attempt is refused while the first two are recent.
third_refused :
    (is_allowed 15 "a" (record_attempt 10 "a" (record_attempt 5 "a" (new_limiter 2 60)))).1 ≡ false
unfolding is_allowed record_attempt insert lookup
third_refused = refl

later_allowed :
    (is_allowed 65 "a" (record_attempt 10 "a" (record_attempt 5 "a" (new_limiter 2 60)))).1 ≡ true
unfolding is_allowed record_attempt insert lookup
later_allowed = refl

one_left :
    (remaining 65 "a" (record_attempt 10 "a" (record_attempt 5 "a" (new_limiter 2 60)))).1 ≡ 1
unfolding remaining record_attempt insert lookup
one_left = refl
