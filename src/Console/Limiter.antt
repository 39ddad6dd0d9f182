-- ===== src/Console/Limiter.antt =====
-- class LoginRateLimiter of services/console-auth/main.py. The readings of `time.monotonic` are
-- arguments, in its ticks.
pub mod Window
mod Tests
use cobalto.Base.{
  ℕ, ◌+◌, ◌-◌, String, Bool, Option, none, some, List, [], ◌∷◌, ◌++◌, ltb, string_eq, filter,
  length,
}
use cobalto.Base.Dict.{Dict, lookup, insert}

pub record Limiter : Type 0 where
  pub max_attempts : ℕ
  pub window : ℕ
  pub attempts : Dict String (List ℕ)

abbrev pub new_limiter : ℕ → ℕ → Limiter
new_limiter max_attempts window = record {
  max_attempts = max_attempts;
  window = window;
  attempts = [];
}

-- `t > now - window`
abbrev pub recent : ℕ → ℕ → ℕ → Bool
recent window now t = ltb now (t + window)

or_empty : Option (List ℕ) → List ℕ
or_empty none = []
or_empty (some ts) = ts

-- `self._attempts.get(key, [])`
unfoldable pub attempts_of : String → Limiter → List ℕ
unfolding or_empty
attempts_of key l = or_empty (lookup key l.attempts)

purge_found : Option (List ℕ) → ℕ → String → Limiter → Limiter
purge_found none now key l = l
purge_found (some ts) now key l = record l {
  attempts = insert key (filter (recent l.window now) ts) l.attempts;
}

-- The purge of the old entries of a key.
unfoldable pub purge : ℕ → String → Limiter → Limiter
unfolding purge_found
purge now key l = purge_found (lookup key l.attempts) now key l

unfoldable pub is_allowed : ℕ → String → Limiter → Limiter × Bool
unfolding purge attempts_of
is_allowed now key l =
    let l' = purge now key l in (l', ltb (length (attempts_of key l')) l'.max_attempts)

unfoldable pub record_attempt : ℕ → String → Limiter → Limiter
unfolding attempts_of
record_attempt now key l = record l {
  attempts = insert key (attempts_of key l ++ now ∷ []) l.attempts;
}

remaining_of : Option (List ℕ) → ℕ → ℕ
remaining_of none most = most
remaining_of (some ts) most = most - length ts

unfoldable pub remaining : ℕ → String → Limiter → Limiter × ℕ
unfolding purge remaining_of
remaining now key l =
    let l' = purge now key l in (l', remaining_of (lookup key l'.attempts) l'.max_attempts)
