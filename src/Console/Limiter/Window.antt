-- ===== src/Console/Limiter/Window.antt =====
-- What the limiter remembers of a key, and how many recorded attempts it lets into a window.
use cobalto.Base.{
  ℕ, ◌≡◌, ◌≤◌, ◌<◌, refl, ◌∙◌, ap, String, Bool, List, [], ◌∷◌, ◌++◌, ltb, string_eq, filter,
  length, if◌then◌else◌, ◌==◌, Option-cases, inl, inr, arith, subst, ==_sound, Bool-cases, ==_true,
  suc,
}
use cobalto.Base.Dict.{lookup, lookup-insert}
use cobalto.Console.Limiter.{
  Limiter, new_limiter, recent, attempts_of, or_empty, purge, purge_found, is_allowed,
  record_attempt, remaining,
}

-- What is recent later is recent now.
filter-filter :
    (w now t : ℕ) (xs : List ℕ)
    → now ≤ t
    → filter (recent w t) (filter (recent w now) xs) ≡ filter (recent w t) xs
filter-filter w now t [] h = refl
filter-filter w now t (x ∷ xs) h = ground (arith, h, filter-filter w now t xs h)

fewer_later :
    (w now t : ℕ) (xs : List ℕ)
    → now ≤ t
    → length (filter (recent w t) xs) ≤ length (filter (recent w now) xs)
fewer_later w now t [] h = omega arith
fewer_later w now t (x ∷ xs) h = ground (arith, h, fewer_later w now t xs h)

filter-append : (p : ℕ → Bool) (xs ys : List ℕ) → filter p (xs ++ ys) ≡ filter p xs ++ filter p ys
filter-append p [] ys = refl
filter-append p (x ∷ xs) ys = ground (arith, filter-append p xs ys)

one_more :
    (p : ℕ → Bool) (xs : List ℕ) (x : ℕ)
    → length (filter p (xs ++ x ∷ [])) ≤ suc (length (filter p xs))
one_more p [] x = ground arith
one_more p (y ∷ xs) x = ground (arith, one_more p xs x)

attempts_of-purge :
    (now : ℕ) (other key : String) (l : Limiter)
    → attempts_of key (purge now other l) ≡ (
        if other == key
        then filter (recent l.window now) (attempts_of key l)
        else attempts_of key l)
unfolding attempts_of purge purge_found or_empty
attempts_of-purge now other key l = elim (Option-cases (lookup other l.attempts)) [
  | inl h ↦ rw h (ground (arith, h, string_eq.same_iff other key))
  | inr (ts, h) ↦ ground (
    arith,
    h,
    string_eq.same_iff other key,
    lookup-insert other key (filter (recent l.window now) ts) l.attempts,
  )
]

record_attempt-attempts_of :
    (now : ℕ) (other key : String) (l : Limiter)
    → attempts_of key (record_attempt now other l)
      ≡ (if other == key then attempts_of key l ++ now ∷ [] else attempts_of key l)
unfolding attempts_of record_attempt or_empty
record_attempt-attempts_of now other key l = ground (
  arith,
  string_eq.same_iff other key,
  lookup-insert other key (or_empty (lookup other l.attempts) ++ now ∷ []) l.attempts,
)

purge-window :
    (now : ℕ) (key : String) (l : Limiter)
    → ((purge now key l).window ≡ l.window) × ((purge now key l).max_attempts ≡ l.max_attempts)
unfolding purge purge_found
purge-window now key l = elim (Option-cases (lookup key l.attempts)) [
  | inl h ↦ rw h (refl, refl)
  | inr (ts, h) ↦ rw h (refl, refl)
]

record_attempt-window :
    (now : ℕ) (key : String) (l : Limiter)
    → ((record_attempt now key l).window ≡ l.window)
      × ((record_attempt now key l).max_attempts ≡ l.max_attempts)
unfolding record_attempt
record_attempt-window now key l = (refl, refl)

purge-recent :
    (now t : ℕ) (other key : String) (l : Limiter)
    → now ≤ t
    → filter (recent l.window t) (attempts_of key (purge now other l))
      ≡ filter (recent l.window t) (attempts_of key l)
purge-recent now t other key l h = elim (Bool-cases (other == key)) [
  | inl same ↦ rw (attempts_of-purge, same) (filter-filter l.window now t (attempts_of key l) h)
  | inr different ↦ rw (attempts_of-purge, different) refl
]

-- From `clock` on, the recent attempts of the key that are stored are those of the log, and they
-- are no more than the limit.
pub Tracks : ℕ → ℕ → String → ℕ → List ℕ → Limiter → Type 0
Tracks most w key clock log l =
    (l.max_attempts ≡ most)
    × (l.window ≡ w)
    × ((t : ℕ)
        → clock ≤ t
        → (filter (recent w t) (attempts_of key l) ≡ filter (recent w t) log)
          × (length (filter (recent w t) log) ≤ most))

pub new-Tracks : (most w : ℕ) (key : String) → Tracks most w key 0 [] (new_limiter most w)
unfolding Tracks attempts_of or_empty lookup
new-Tracks most w key = (refl, refl, λ t h. (refl, omega arith))

module _ (most w : ℕ) (key : String) where
  pub later-Tracks :
      (clock now : ℕ) (log : List ℕ) (l : Limiter)
      → clock ≤ now
      → Tracks most w key clock log l
      → Tracks most w key now log l
  unfolding Tracks
  later-Tracks clock now log l after (m, v, h) = (m, v, λ t k. h t (omega (arith, after, k)))

  pub purge-Tracks :
      (clock now : ℕ) (other : String) (log : List ℕ) (l : Limiter)
      → clock ≤ now
      → Tracks most w key clock log l
      → Tracks most w key now log (purge now other l)
  unfolding Tracks
  purge-Tracks clock now other log l after (m, v, h) = (
    (purge-window now other l).1 ∙ m,
    (purge-window now other l).0 ∙ v,
    λ t k.
        let (same, few) = h t (omega (arith, after, k)) in
        (
          subst
                (λ (x : ℕ).
                  filter (recent x t) (attempts_of key (purge now other l))
                  ≡ filter (recent x t) (attempts_of key l))
                v (purge-recent now t other key l k)
              ∙ same,
          few,
        ),
  )

  pub is_allowed-Tracks :
      (clock now : ℕ) (other : String) (log : List ℕ) (l : Limiter)
      → clock ≤ now
      → Tracks most w key clock log l
      → Tracks most w key now log (is_allowed now other l).0
  unfolding is_allowed
  is_allowed-Tracks = purge-Tracks

  pub remaining-Tracks :
      (clock now : ℕ) (other : String) (log : List ℕ) (l : Limiter)
      → clock ≤ now
      → Tracks most w key clock log l
      → Tracks most w key now log (remaining now other l).0
  unfolding remaining
  remaining-Tracks = purge-Tracks

  -- An attempt is allowed exactly when the window has room.
  pub is_allowed-room :
      (clock now : ℕ) (log : List ℕ) (l : Limiter)
      → clock ≤ now
      → Tracks most w key clock log l
      → (is_allowed now key l).1 ≡ ltb (length (filter (recent w now) log)) most
  unfolding is_allowed Tracks
  is_allowed-room clock now log l after (m, v, h) =
      let kept : attempts_of key (purge now key l)
          ≡ filter (recent l.window now) (attempts_of key l) =
        attempts_of-purge now key key l ∙ rw (==_true key) refl in
      let e : filter (recent l.window now) (attempts_of key l) ≡ filter (recent w now) log =
        ap (λ (x : ℕ). filter (recent x now) (attempts_of key l)) v ∙ (h now after).0 in
      ap (λ (n : ℕ). ltb n (purge now key l).max_attempts) (ap length (kept ∙ e))
      ∙ ap (λ (n : ℕ). ltb (length (filter (recent w now) log)) n) ((purge-window now key l).1 ∙ m)

  pub record_attempt-Tracks :
      (clock now : ℕ) (other : String) (log : List ℕ) (l : Limiter)
      → clock ≤ now
      → Tracks most w key clock log l
      → (other ≡ key → length (filter (recent w clock) log) < most)
      → Tracks most w key now
          (if other == key then log ++ now ∷ [] else log)
          (record_attempt now other l)
  unfolding Tracks
  record_attempt-Tracks clock now other log l after (m, v, h) room = (
    (record_attempt-window now other l).1 ∙ m,
    (record_attempt-window now other l).0 ∙ v,
    λ t k.
        let (same, few) = h t (omega (arith, after, k)) in
        elim (Bool-cases (other == key)) [
          | inl e ↦
              rw (record_attempt-attempts_of, e)
                (
                  rw (filter-append, filter-append, same) refl,
                  omega (
                    arith,
                    one_more (recent w t) log now,
                    fewer_later w clock t log (omega (arith, after, k)),
                    room (==_sound e),
                  ),
                )
          | inr e ↦ rw (record_attempt-attempts_of, e) (same, few)
        ],
  )

  pub within_most :
      (clock t : ℕ) (log : List ℕ) (l : Limiter)
      → clock ≤ t
      → Tracks most w key clock log l
      → length (filter (recent w t) log) ≤ most
  unfolding Tracks
  within_most clock t log l h (m, v, tracked) = (tracked t h).1
