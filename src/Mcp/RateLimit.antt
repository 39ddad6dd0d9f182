-- ===== src/Mcp/RateLimit.antt =====
-- frameworks/mcp-bridge/src/cobalto/mcp/middleware/rate_limit.py. The clock is read in microseconds.
-- A bucket that refills at `rate` tokens in a `period` counts its tokens in parts of a token, `period`
-- of them to one, so that the fractions of the source are whole numbers and exact; they are integers
-- since the clock of the source may be set back.
pub mod Bounds
pub mod Clients
pub mod Pairs
mod Tests
use cobalto.Base.{
  ℕ, zero, suc, ◌+◌, ◌-◌, ◌*◌, ◌/◌, max, String, Bool, true, false, Option, none, some, List, [],
  ◌∷◌, string_eq, ◌==◌, if◌then◌else◌,
}
use cobalto.Base.Int.{ℤ, pos, negsuc, ◌+ℤ◌, ◌-ℤ◌, leb_ℤ, min_ℤ}
use cobalto.Base.Dict.{Dict, lookup, insert, erase}

pub record TokenBucket : Type 0 where
  pub capacity : ℕ
  pub rate : ℕ
  pub period : ℕ
  pub tokens : ℤ
  pub last_refill : ℕ

abbrev pub new_bucket : ℕ → ℕ → ℕ → ℕ → TokenBucket
new_bucket now capacity rate period = record {
  capacity = capacity;
  rate = rate;
  period = period;
  tokens = pos (capacity * period);
  last_refill = now;
}

-- `elapsed * refill_rate`, in parts of a token
abbrev pub refill_amount : ℕ → TokenBucket → ℤ
refill_amount now b = pos (now * b.rate) -ℤ pos (b.last_refill * b.rate)

unfoldable pub refill : ℕ → TokenBucket → TokenBucket
refill now b = record b {
  tokens = min_ℤ (pos (b.capacity * b.period)) (b.tokens +ℤ refill_amount now b);
  last_refill = now;
}

unfoldable pub consume : ℕ → ℕ → TokenBucket → TokenBucket × Bool
unfolding refill
consume wanted now b =
    let b' = refill now b in
    if leb_ℤ (pos (wanted * b.period)) b'.tokens
    then (record b' { tokens = b'.tokens -ℤ pos (wanted * b.period) }, true)
    else (b', false)

-- `int(tokens)` rounds towards 0.
whole_tokens : ℕ → ℤ → ℤ
whole_tokens period (pos n) = pos (n / period)
whole_tokens period (negsuc n) = pos 0 -ℤ pos (suc n / period)

unfoldable pub available_tokens : ℕ → TokenBucket → TokenBucket × ℤ
unfolding refill whole_tokens
available_tokens now b = let b' = refill now b in (b', whole_tokens b.period b'.tokens)

pub record RateLimit : Type 0 where
  pub requests_per_minute : ℕ
  pub requests_per_hour : ℕ
  pub burst_size : ℕ
  pub minute_buckets : Dict String TokenBucket
  pub hour_buckets : Dict String TokenBucket
  pub global_minute : TokenBucket
  pub global_hour : TokenBucket

abbrev pub second : ℕ
second = 1000000

abbrev pub minute : ℕ
minute = 60 * second

abbrev pub hour : ℕ
hour = 3600 * second

abbrev pub new_limit : ℕ → ℕ → ℕ → ℕ → ℕ → RateLimit
new_limit now later per_minute per_hour burst = record {
  requests_per_minute = per_minute;
  requests_per_hour = per_hour;
  burst_size = burst;
  minute_buckets = [];
  hour_buckets = [];
  global_minute = new_bucket now per_minute per_minute minute;
  global_hour = new_bucket later per_hour per_hour hour;
}

-- The buckets of a client that has none are made at the readings `0` and `1` of the clock.
unfoldable pub ensure_buckets : (ℕ → ℕ) → String → Option TokenBucket → RateLimit → RateLimit
ensure_buckets clock client (some b) l = l
ensure_buckets clock client none l = record l {
  minute_buckets =
      insert client (new_bucket (clock 0) l.burst_size l.requests_per_minute minute)
        l.minute_buckets;
  hour_buckets =
      insert client (new_bucket (clock 1) l.requests_per_hour l.requests_per_hour hour)
        l.hour_buckets;
}

-- The answer, or the KeyError of a client with one bucket only.
pub data Verdict : Type 0 where
  allowed key_error : Verdict
  retry_after : ℕ → Verdict

-- `max(1, int(whole - (time.time() - last_refill)))`, in seconds
abbrev pub retry_seconds : ℕ → ℕ → ℕ → ℕ
retry_seconds whole now last_refill = max 1 ((whole * second + last_refill - now) / second)

unfoldable pub check_globals : (ℕ → ℕ) → RateLimit → RateLimit × Verdict
unfolding consume
check_globals clock l =
    let (minute', in_minute) = consume 1 (clock 6) l.global_minute in
    let (hour', in_hour) = consume 1 (clock 7) l.global_hour in
    if in_minute
    then (
      record l { global_minute = minute'; global_hour = hour' },
      (if in_hour then allowed else retry_after 3600),
    )
    else (record l { global_minute = minute' }, retry_after 60)

unfoldable pub check_hour : (ℕ → ℕ) → String → Option TokenBucket → RateLimit → RateLimit × Verdict
unfolding check_globals
check_hour clock client none l = (l, key_error)
check_hour clock client (some b) l =
    let (b', in_hour) = consume 1 (clock 4) b in
    let l' = record l { hour_buckets = insert client b' l.hour_buckets } in
    if in_hour
    then check_globals clock l'
    else (l', retry_after (retry_seconds 3600 (clock 5) b'.last_refill))

unfoldable pub check_minute :
    (ℕ → ℕ) → String → Option TokenBucket → Option TokenBucket → RateLimit → RateLimit × Verdict
unfolding check_hour
check_minute clock client none hour_bucket l = (l, key_error)
check_minute clock client (some b) hour_bucket l =
    let (b', in_minute) = consume 1 (clock 2) b in
    let l' = record l { minute_buckets = insert client b' l.minute_buckets } in
    elim hour_bucket [
      | none ↦ (l, key_error)
      | some h ↦
          if in_minute
          then check_hour clock client (some h) l'
          else (l', retry_after (retry_seconds 60 (clock 3) b'.last_refill))
    ]

-- `clock` gives the readings by their places in the text: two for new buckets, and then one for each
-- test and each delay.
unfoldable pub check_rate_limit : (ℕ → ℕ) → String → RateLimit → RateLimit × Verdict
unfolding ensure_buckets check_minute
check_rate_limit clock client l =
    let l' = ensure_buckets clock client (lookup client l.minute_buckets) l in
    check_minute clock client (lookup client l'.minute_buckets) (lookup client l'.hour_buckets) l'

-- Without a client every bucket goes; the global buckets stay.
unfoldable pub reset : Option String → RateLimit → RateLimit
reset none l = record l { minute_buckets = []; hour_buckets = [] }
reset (some client) l =
    if client == "" then record l { minute_buckets = []; hour_buckets = [] } else record l {
      minute_buckets = erase client l.minute_buckets;
      hour_buckets = erase client l.hour_buckets;
    }
