-- ===== src/Mcp/RateLimit/Pairs.antt =====
-- A client's two buckets come and go together.
use cobalto.Base.{
  ℕ, ◌≡◌, refl, sym, ◌∙◌, ap, String, Bool, true, false, Option, none, some, string_eq,
  if◌then◌else◌, ◌==◌, Bool-cases, inl, inr, arith,
}
use cobalto.Base.Dict.{Dict, lookup, insert, erase, lookup-insert, lookup-erase, lookup-insert_self}
use cobalto.Base.{==_sound}
use cobalto.Mcp.RateLimit.{
  TokenBucket, consume, RateLimit, Verdict, allowed, key_error, retry_after, new_limit,
  ensure_buckets, check_globals, check_hour, check_minute, check_rate_limit, reset,
}
use cobalto.Mcp.RateLimit.Clients.{globals_keep}

abbrev is_some : Option TokenBucket → Bool
is_some none = false
is_some (some b) = true

-- Every client has both buckets or none.
abbrev pub IsPaired : RateLimit → Type 0
IsPaired l = (c : String) → is_some (lookup c l.minute_buckets) ≡ is_some (lookup c l.hour_buckets)

-- Not the KeyError.
abbrev pub IsAnswer : Verdict → Type 0
IsAnswer allowed = Unit
IsAnswer (retry_after n) = Unit
IsAnswer key_error = ⊥

is_some-insert :
    (client c : String) (b : TokenBucket) (d : Dict String TokenBucket)
    → is_some (lookup c (insert client b d)) ≡ (if client == c then true else is_some (lookup c d))
is_some-insert client c b d = ap is_some (lookup-insert client c b d) ∙ ground arith

is_some-erase :
    (client c : String) (d : Dict String TokenBucket)
    → is_some (lookup c (erase client d)) ≡ (if client == c then false else is_some (lookup c d))
is_some-erase client c d = ap is_some (lookup-erase client c d) ∙ ground arith

is_some-insert_old :
    (client c : String) (b b' : TokenBucket) (d : Dict String TokenBucket)
    → lookup client d ≡ some b
    → is_some (lookup c (insert client b' d)) ≡ is_some (lookup c d)
is_some-insert_old client c b b' d found = elim (Bool-cases (client == c)) [
  | inl same ↦
      is_some-insert client c b' d
      ∙ (rw same refl
          ∙ sym (ap is_some (ap (λ (x : String). lookup x d) (sym (==_sound same)) ∙ found)))
  | inr other ↦ is_some-insert client c b' d ∙ rw other refl
]

-- The same clients have buckets, and the answer is no KeyError.
abbrev Answers : RateLimit → RateLimit × Verdict → Type 0
Answers l (l', v) =
    IsAnswer v
    × ((c : String)
        → (is_some (lookup c l'.minute_buckets) ≡ is_some (lookup c l.minute_buckets))
          × (is_some (lookup c l'.hour_buckets) ≡ is_some (lookup c l.hour_buckets)))

globals-IsAnswer : (clock : ℕ → ℕ) (l : RateLimit) → IsAnswer (check_globals clock l).1
unfolding check_globals
globals-IsAnswer clock l = elim (Bool-cases (consume 1 (clock 6) l.global_minute).1) [
  | inl passed ↦ elim (Bool-cases (consume 1 (clock 7) l.global_hour).1) [
    | inl in_hour ↦ rw (passed, in_hour) tt
    | inr late ↦ rw (passed, late) tt
  ]
  | inr refused ↦ rw refused tt
]

check_globals-Answers : (clock : ℕ → ℕ) (l : RateLimit) → Answers l (check_globals clock l)
check_globals-Answers clock l =
    let (minutes, hours) = globals_keep clock l in
    (
      globals-IsAnswer clock l,
      λ c. (
        ap (λ (d : Dict String TokenBucket). is_some (lookup c d)) minutes,
        ap (λ (d : Dict String TokenBucket). is_some (lookup c d)) hours,
      ),
    )

check_hour-Answers :
    (clock : ℕ → ℕ) (client : String) (h : TokenBucket) (l : RateLimit)
    → lookup client l.hour_buckets ≡ some h
    → Answers l (check_hour clock client (some h) l)
unfolding check_hour
check_hour-Answers clock client h l found =
    let h' = (consume 1 (clock 4) h).0 in
    let l' : RateLimit = record l { hour_buckets = insert client h' l.hour_buckets } in
    let old = λ (c : String). is_some-insert_old client c h h' l.hour_buckets found in
    elim (Bool-cases (consume 1 (clock 4) h).1) [
      | inl passed ↦
          let (answer, kept) = check_globals-Answers clock l' in
          rw passed (answer, λ c. ((kept c).0, (kept c).1 ∙ old c))
      | inr refused ↦ rw refused (tt, λ c. (refl, old c))
    ]

check_minute-Answers :
    (clock : ℕ → ℕ) (client : String) (b h : TokenBucket) (l : RateLimit)
    → lookup client l.minute_buckets ≡ some b
    → lookup client l.hour_buckets ≡ some h
    → Answers l (check_minute clock client (some b) (some h) l)
unfolding check_minute
check_minute-Answers clock client b h l found found' =
    let b' = (consume 1 (clock 2) b).0 in
    let l' : RateLimit = record l { minute_buckets = insert client b' l.minute_buckets } in
    let old = λ (c : String). is_some-insert_old client c b b' l.minute_buckets found in
    elim (Bool-cases (consume 1 (clock 2) b).1) [
      | inl passed ↦
          let (answer, kept) = check_hour-Answers clock client h l' found' in
          rw passed (answer, λ c. ((kept c).0 ∙ old c, (kept c).1))
      | inr refused ↦ rw refused (tt, λ c. (old c, refl))
    ]

ensure-IsPaired :
    (clock : ℕ → ℕ) (client : String) (o : Option TokenBucket) (l : RateLimit)
    → lookup client l.minute_buckets ≡ o
    → IsPaired l
    → let l' = ensure_buckets clock client o l in
      IsPaired l' × (is_some (lookup client l'.minute_buckets) ≡ true)
unfolding ensure_buckets
ensure-IsPaired clock client none l found paired = (
  λ c.
      is_some-insert client c _ l.minute_buckets
      ∙ (ap (λ (b : Bool). if client == c then true else b) (paired c)
          ∙ sym (is_some-insert client c _ l.hour_buckets)),
  ap is_some (lookup-insert_self client _ l.minute_buckets),
)
ensure-IsPaired clock client (some b) l found paired = (paired, ap is_some found)

present : (o : Option TokenBucket) → is_some o ≡ true → (b : TokenBucket) × (o ≡ some b)
present none h = cc
present (some b) h = (b, refl)

-- While every client has both of its buckets or none, a request is answered, never ended by the
-- KeyError of a missing bucket, and every client still has both or none after it.
pub check_rate_limit-IsPaired :
    (clock : ℕ → ℕ) (client : String) (l : RateLimit)
    → IsPaired l
    → let (l', v) = check_rate_limit clock client l in IsPaired l' × IsAnswer v
unfolding check_rate_limit
check_rate_limit-IsPaired clock client l paired =
    let l' = ensure_buckets clock client (lookup client l.minute_buckets) l in
    let (paired', has_minute) =
      ensure-IsPaired clock client (lookup client l.minute_buckets) l refl paired in
    let (b, found) = present (lookup client l'.minute_buckets) has_minute in
    let (h, found') = present (lookup client l'.hour_buckets) (sym (paired' client) ∙ has_minute) in
    let (answer, kept) = check_minute-Answers clock client b h l' found found' in
    rw (found, found') (λ c. (kept c).0 ∙ (paired' c ∙ sym (kept c).1), answer)

-- Resetting one client or all of them leaves every client with both buckets or none.
reset-IsPaired : (client : Option String) (l : RateLimit) → IsPaired l → IsPaired (reset client l)
unfolding reset lookup
reset-IsPaired none l paired c = refl
reset-IsPaired (some client) l paired c = elim (Bool-cases (client == "")) [
  | inl empty ↦ rw empty refl
  | inr named ↦ rw named (
      is_some-erase client c l.minute_buckets
      ∙ (ap (λ (b : Bool). if client == c then false else b) (paired c)
          ∙ sym (is_some-erase client c l.hour_buckets)))
]

-- What the middleware's methods make of a new limiter.
pub data Reachable : RateLimit → Type 0 where
  made :
      {now later per_minute per_hour burst : ℕ}
      → Reachable (new_limit now later per_minute per_hour burst)
  checked :
      {l : RateLimit} (clock : ℕ → ℕ) (client : String)
      → Reachable l
      → Reachable (check_rate_limit clock client l).0
  cleared : {l : RateLimit} (client : Option String) → Reachable l → Reachable (reset client l)

Reachable-IsPaired : {l : RateLimit} → Reachable l → IsPaired l
unfolding lookup
Reachable-IsPaired made c = refl
Reachable-IsPaired (checked {l = l} clock client r) c =
    (check_rate_limit-IsPaired clock client l (Reachable-IsPaired r)).0 c
Reachable-IsPaired (cleared {l = l} client r) c = reset-IsPaired client l (Reachable-IsPaired r) c

-- After any requests and resets, in any order and at any readings of the clock, the next request is
-- answered, with a permission or a delay, and never ends in the KeyError of a missing bucket.
pub Reachable-IsAnswer :
    {l : RateLimit} (clock : ℕ → ℕ) (client : String)
    → Reachable l
    → IsAnswer (check_rate_limit clock client l).1
Reachable-IsAnswer {l} clock client r =
    (check_rate_limit-IsPaired clock client l (Reachable-IsPaired r)).1
