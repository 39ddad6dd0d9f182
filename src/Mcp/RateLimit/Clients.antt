-- ===== src/Mcp/RateLimit/Clients.antt =====
-- Clients and their buckets.
use cobalto.Base.{
  ℕ, ◌≡◌, refl, ◌≢◌, ◌∙◌, ap, String, Option, none, some, string_eq, Bool-cases, inl, inr,
}
use cobalto.Base.Dict.{lookup, insert, lookup-insert_ne}
use cobalto.Mcp.RateLimit.{
  TokenBucket, consume, RateLimit, ensure_buckets, check_globals, check_hour, check_minute,
  check_rate_limit,
}

pub globals_keep :
    (clock : ℕ → ℕ) (l : RateLimit)
    → ((check_globals clock l).0.minute_buckets ≡ l.minute_buckets)
      × ((check_globals clock l).0.hour_buckets ≡ l.hour_buckets)
unfolding check_globals
globals_keep clock l = elim (Bool-cases (consume 1 (clock 6) l.global_minute).1) [
  | inl passed ↦ rw passed (refl, refl)
  | inr refused ↦ rw refused (refl, refl)
]

-- The buckets of the other clients.
abbrev pub SameOthers : String → RateLimit → RateLimit → Type 0
SameOthers client l l' =
    (j : String)
    → client ≢ j
    → (lookup j l'.minute_buckets ≡ lookup j l.minute_buckets)
      × (lookup j l'.hour_buckets ≡ lookup j l.hour_buckets)

hour-SameOthers :
    (clock : ℕ → ℕ) (client : String) (o : Option TokenBucket) (l : RateLimit)
    → SameOthers client l (check_hour clock client o l).0
unfolding check_hour
hour-SameOthers clock client none l j other = (refl, refl)
hour-SameOthers clock client (some b) l j other =
    let b' = (consume 1 (clock 4) b).0 in
    let l' : RateLimit = record l { hour_buckets = insert client b' l.hour_buckets } in
    let (minutes, hours) = globals_keep clock l' in
    let kept = lookup-insert_ne client j b' l.hour_buckets other in
    elim (Bool-cases (consume 1 (clock 4) b).1) [
      | inl passed ↦ rw passed (ap (lookup j) minutes, ap (lookup j) hours ∙ kept)
      | inr refused ↦ rw refused (refl, kept)
    ]

minute-SameOthers :
    (clock : ℕ → ℕ) (client : String) (o h : Option TokenBucket) (l : RateLimit)
    → SameOthers client l (check_minute clock client o h l).0
unfolding check_minute
minute-SameOthers clock client none h l j other = (refl, refl)
minute-SameOthers clock client (some b) none l j other = (refl, refl)
minute-SameOthers clock client (some b) (some h) l j other =
    let b' = (consume 1 (clock 2) b).0 in
    let l' : RateLimit = record l { minute_buckets = insert client b' l.minute_buckets } in
    let (minutes, hours) = hour-SameOthers clock client (some h) l' j other in
    let kept = lookup-insert_ne client j b' l.minute_buckets other in
    elim (Bool-cases (consume 1 (clock 2) b).1) [
      | inl passed ↦ rw passed (minutes ∙ kept, hours)
      | inr refused ↦ rw refused (kept, refl)
    ]

ensure-SameOthers :
    (clock : ℕ → ℕ) (client : String) (o : Option TokenBucket) (l : RateLimit)
    → SameOthers client l (ensure_buckets clock client o l)
unfolding ensure_buckets
ensure-SameOthers clock client none l j other = (
  lookup-insert_ne client j _ l.minute_buckets other,
  lookup-insert_ne client j _ l.hour_buckets other,
)
ensure-SameOthers clock client (some b) l j other = (refl, refl)

-- A request changes the buckets of its own client only, whatever it is answered; what clients share
-- are the two global buckets.
pub check_rate_limit-SameOthers :
    (clock : ℕ → ℕ) (client : String) (l : RateLimit)
    → SameOthers client l (check_rate_limit clock client l).0
unfolding check_rate_limit
check_rate_limit-SameOthers clock client l j other =
    let l' = ensure_buckets clock client (lookup client l.minute_buckets) l in
    let (minutes, hours) =
      minute-SameOthers clock client (lookup client l'.minute_buckets)
        (lookup client l'.hour_buckets) l' j other in
    let (minutes', hours') =
      ensure-SameOthers clock client (lookup client l.minute_buckets) l j other in
    (minutes ∙ minutes', hours ∙ hours')
