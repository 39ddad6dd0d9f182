-- ===== src/Mcp/RateLimit/Bounds.antt =====
-- How many requests a bucket lets through in a stretch of time.
use native.Mathlib.Nat.{mul-le-mul_right}
use cobalto.Base.{
  ℕ, ◌+◌, ◌*◌, ◌≤◌, ◌≡◌, refl, sym, subst, ◌⊎◌, ◌∙◌, ap, Bool, true, false, List, [], ◌∷◌,
  if◌then◌else◌, arith, Bool-cases, inl, inr,
}
use cobalto.Base.Int.{ℤ, pos, pos_part, neg_part, ◌+ℤ◌, ◌-ℤ◌, leb_ℤ, min_ℤ, +ℤ_parts, -ℤ_parts}
use cobalto.Mcp.RateLimit.{TokenBucket, new_bucket, refill, consume}

abbrev pub granted : Bool → ℕ → ℕ
granted ok period = if ok then period else 0

-- The level of a bucket: the tokens less what the clock has refilled. It never rises.
abbrev Drops : ℕ → TokenBucket → TokenBucket → Type 0
Drops paid b b' =
    paid + pos_part b'.tokens + neg_part b.tokens + b.last_refill * b.rate
    ≤ pos_part b.tokens + neg_part b'.tokens + b'.last_refill * b.rate

refill_level :
    (cap t : ℤ) (n l : ℕ)
    → let t' = min_ℤ cap (t +ℤ (pos n -ℤ pos l)) in
      pos_part t' + neg_part t + l ≤ pos_part t + neg_part t' + n
refill_level cap t n l = ground (arith, +ℤ_parts t (pos n -ℤ pos l), -ℤ_parts (pos n) (pos l))

spend_level :
    (t : ℤ) (p : ℕ) → p + pos_part (t -ℤ pos p) + neg_part t ≡ pos_part t + neg_part (t -ℤ pos p)
spend_level t p = omega (arith, -ℤ_parts t (pos p))

refill-Drops : (now : ℕ) (b : TokenBucket) → Drops 0 b (refill now b)
unfolding refill
refill-Drops now b = omega (
  arith,
  refill_level (pos (b.capacity * b.period)) b.tokens (now * b.rate) (b.last_refill * b.rate),
)

paid_once :
    (b c : TokenBucket) (p : ℕ) → Drops 0 b c → Drops p b (record c { tokens = c.tokens -ℤ pos p })
paid_once b c p drop = omega (arith, drop, spend_level c.tokens p)

-- The bucket that a granted request leaves.
abbrev spent : ℕ → TokenBucket → TokenBucket
spent now b = record (refill now b) { tokens = (refill now b).tokens -ℤ pos (1 * b.period) }

consume-cases :
    (now : ℕ) (b : TokenBucket)
    → ((leb_ℤ (pos (1 * b.period)) (refill now b).tokens ≡ true)
        × (consume 1 now b ≡ (spent now b, true)))
      ⊎ (consume 1 now b ≡ (refill now b, false))
unfolding consume
consume-cases now b = elim (Bool-cases (leb_ℤ (pos (1 * b.period)) (refill now b).tokens)) [
  | inl enough ↦ inl (enough, rw enough refl)
  | inr short ↦ inr (rw short refl)
]

-- No debt, given that the clock has not gone back.
abbrev Solvent : TokenBucket → Type 0
Solvent b = neg_part b.tokens ≡ 0

refill_solvent :
    (cap n l : ℕ) (t : ℤ)
    → neg_part t ≡ 0
    → l ≤ n
    → neg_part (min_ℤ (pos cap) (t +ℤ (pos n -ℤ pos l))) ≡ 0
unfolding ◌+ℤ◌ ◌-ℤ◌
refill_solvent cap n l t h k = ground (arith, h, k)

spend_solvent :
    (t : ℤ) (p : ℕ) → leb_ℤ (pos p) t ≡ true → neg_part t ≡ 0 → neg_part (t -ℤ pos p) ≡ 0
unfolding ◌-ℤ◌
spend_solvent t p h k = ground (arith, h, k)

refill-Solvent :
    (now : ℕ) (b : TokenBucket) → b.last_refill ≤ now → Solvent b → Solvent (refill now b)
unfolding refill
refill-Solvent now b h k =
    refill_solvent (b.capacity * b.period) (now * b.rate) (b.last_refill * b.rate) b.tokens k
      (mul-le-mul_right b.rate h)

-- What one request does to a bucket.
abbrev Step : ℕ → TokenBucket → TokenBucket × Bool → Type 0
Step now b (b', ok) =
    (b'.rate ≡ b.rate)
    × (b'.period ≡ b.period)
    × (b'.last_refill ≡ now)
    × Drops (granted ok b.period) b b'
    × (b.last_refill ≤ now → Solvent b → Solvent b')

consume-Step : (now : ℕ) (b : TokenBucket) → Step now b (consume 1 now b)
unfolding refill
consume-Step now b = elim (consume-cases now b) [
  | inl (enough, e) ↦ subst (Step now b) (sym e) (
    refl,
    refl,
    refl,
    omega (arith, refill-Drops now b, spend_level (refill now b).tokens (1 * b.period)),
    λ h k. spend_solvent (refill now b).tokens (1 * b.period) enough (refill-Solvent now b h k),
  )
  | inr e ↦ subst (Step now b) (sym e) (refl, refl, refl, refill-Drops now b, refill-Solvent now b)
]

-- The requests at the readings of the clock, in turn: the bucket after them, and how many passed.
abbrev pub serve : List ℕ → TokenBucket → TokenBucket × ℕ
serve [] b = (b, 0)
serve (now ∷ times) b =
    let (b', ok) = consume 1 now b in let (b'', n) = serve times b' in (b'', granted ok 1 + n)

-- The readings do not go back.
abbrev pub Ascends : ℕ → List ℕ → Type 0
Ascends before [] = Unit
Ascends before (now ∷ times) = (before ≤ now) × Ascends now times

abbrev pub last_of : ℕ → List ℕ → ℕ
last_of before [] = before
last_of before (now ∷ times) = last_of now times

-- The totals of a run of requests.
abbrev Served : ℕ → TokenBucket → TokenBucket × ℕ → Type 0
Served last b (b', n) =
    (b'.rate ≡ b.rate)
    × (b'.period ≡ b.period)
    × (b'.last_refill ≡ last)
    × Drops (n * b.period) b b'
    × Solvent b'

granted_mul : (ok : Bool) (n p : ℕ) → (granted ok 1 + n) * p ≡ granted ok p + n * p
granted_mul true n p = omega arith
granted_mul false n p = omega arith

Drops-trans :
    (p q : ℕ) (b c d : TokenBucket)
    → c.rate ≡ b.rate
    → Drops p b c
    → Drops q c d
    → Drops (p + q) b d
Drops-trans p q b c d same h k =
    omega
      (arith, h, k, ap (λ (r : ℕ). c.last_refill * r) same, ap (λ (r : ℕ). d.last_refill * r) same)

serve-Served :
    (times : List ℕ) (b : TokenBucket)
    → Ascends b.last_refill times
    → Solvent b
    → Served (last_of b.last_refill times) b (serve times b)
serve-Served [] b up good = (refl, refl, refl, omega arith, good)
serve-Served (now ∷ times) b (here, up) good =
    let (b', ok) = consume 1 now b in
    let (same_rate, same_period, at_now, drop, keeps) = consume-Step now b in
    let (rate', period', last', drop', good') =
      serve-Served times b' (subst (λ (t : ℕ). Ascends t times) (sym at_now) up)
        (keeps here good) in
    (
      rate' ∙ same_rate,
      period' ∙ same_period,
      last' ∙ ap (λ (t : ℕ). last_of t times) at_now,
      subst (λ (paid : ℕ). Drops paid b (serve times b').0)
          (ap (λ (p : ℕ). granted ok b.period + (serve times b').1 * p) same_period
            ∙ sym (granted_mul ok (serve times b').1 b.period))
          (Drops-trans (granted ok b.period) ((serve times b').1 * b'.period) b b'
            (serve times b').0 same_rate drop drop'),
      good',
    )

-- From its creation to the last of a run of requests a bucket lets through at most its capacity and
-- what it has refilled in that time, whenever the requests come, while the clock does not go back.
pub admitted_bounded :
    (start capacity rate period : ℕ) (times : List ℕ)
    → Ascends start times
    → let (b, n) = serve times (new_bucket start capacity rate period) in
      n * period + start * rate ≤ capacity * period + last_of start times * rate
admitted_bounded start capacity rate period times up =
    let b = new_bucket start capacity rate period in
    let (rate', period', last', drop, good) = serve-Served times b up refl in
    omega (
      arith,
      drop,
      good,
      ap (λ (r : ℕ). (serve times b).0.last_refill * r) rate',
      ap (λ (t : ℕ). t * rate) last',
    )
