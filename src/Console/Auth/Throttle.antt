-- ===== src/Console/Auth/Throttle.antt =====
-- The limit on failed logins of one client address and username.
use cobalto.Base.{
  ℕ, ◌≡◌, ◌≤◌, ◌↔◌, ◌≢◌, ◌⊎◌, refl, sym, ◌∙◌, ap, subst, inl, inr, String, Bool, true, false,
  Option, none, some, List, [], ◌∷◌, ◌++◌, ltb, ltb→lt, string_eq, filter, length, if◌then◌else◌,
  ◌==◌, Bool-cases, arith,
}
use cobalto.Base.Dict.{lookup}
use cobalto.Console.Limiter.{Limiter, new_limiter, recent, is_allowed, remaining, record_attempt}
use cobalto.Console.Limiter.Window.{
  Tracks, new-Tracks, later-Tracks, is_allowed-Tracks, remaining-Tracks, is_allowed-room,
  record_attempt-Tracks, within_most,
}
use cobalto.Console.Auth.{
  Payload, Crypto, UserEntry, Service, invalid_token, invalid_credentials, internal_error,
  rate_limit_exceeded, Reply, issued, refused, World, LoginRequest, issue, fail,
  create_refresh_token, login_checked, login_user, login, refresh_user, refresh_payload_of, refresh,
  revoke_refresh_token, logout, rate_key_of, verify_refresh_token, text_or_empty,
}
use cobalto.Console.Auth.Requests.{Request, log_in, renew, log_out, serve, serve_all}

-- A reply to an attempt whose credentials failed.
abbrev pub credentials_failed : Reply → Bool
credentials_failed (issued r) = false
credentials_failed (refused rate_limit_exceeded) = false
credentials_failed (refused invalid_credentials) = true
credentials_failed (refused internal_error) = true
credentials_failed (refused invalid_token) = false

-- The readings of the clock go up, from `clock` on, through the logins.
abbrev pub Ascends : ℕ → List Request → Type 0
Ascends clock [] = Unit
Ascends clock (log_in w body ∷ rs) =
    (clock ≤ w.allowed_at)
    × (w.allowed_at ≤ w.remaining_at)
    × (w.remaining_at ≤ w.recorded_at)
    × Ascends w.recorded_at rs
Ascends clock (renew w t ∷ rs) = Ascends clock rs
Ascends clock (log_out t ∷ rs) = Ascends clock rs

abbrev pub last_reading : ℕ → List Request → ℕ
last_reading clock [] = clock
last_reading clock (log_in w body ∷ rs) = last_reading w.recorded_at rs
last_reading clock (renew w t ∷ rs) = last_reading clock rs
last_reading clock (log_out t ∷ rs) = last_reading clock rs

module _ (crypto : Crypto) where
  -- The log of the failures of a key with one more request.
  abbrev pub log_failure : String → Request → Service → List ℕ → List ℕ
  log_failure key (log_in w body) s log =
      if credentials_failed (login crypto w body s).1
      then (if rate_key_of crypto body == key then log ++ w.recorded_at ∷ [] else log)
      else log
  log_failure key (renew w t) s log = log
  log_failure key (log_out t) s log = log

  abbrev pub failures : String → List Request → Service → List ℕ → List ℕ
  failures key [] s log = log
  failures key (r ∷ rs) s log = failures key rs (serve crypto r s) (log_failure key r s log)

  -- What checking the credentials does to the limiter.
  abbrev Checked : World → String → Service → Service × Reply → Type 0
  Checked w key s (s', reply) =
      ((credentials_failed reply ≡ true)
        × (s'.rate_limiter ≡ record_attempt w.recorded_at key s.rate_limiter)
        × (reply ≢ refused rate_limit_exceeded))
      ⊎ ((credentials_failed reply ≡ false)
          × (s'.rate_limiter ≡ s.rate_limiter)
          × (reply ≢ refused rate_limit_exceeded))

  login_checked-Checked :
      (w : World) (key : String) (u : UserEntry) (o : Option Bool) (s : Service)
      → Checked w key s (login_checked crypto w key u o s)
  unfolding login_checked fail issue create_refresh_token
  login_checked-Checked w key u none s = inl (refl, refl, λ e. cc)
  login_checked-Checked w key u (some false) s = inl (refl, refl, λ e. cc)
  login_checked-Checked w key u (some true) s = inr (refl, refl, λ e. cc)

  login_user-Checked :
      (w : World) (key password : String) (o : Option UserEntry) (s : Service)
      → Checked w key s (login_user crypto w key password o s)
  unfolding login_user fail
  login_user-Checked w key password none s = inl (refl, refl, λ e. cc)
  login_user-Checked w key password (some u) s =
      login_checked-Checked w key u (crypto.checkpw password u.password_hash) s

  -- The two outcomes of a login at the limiter.
  abbrev Passes : World → LoginRequest → Service → Type 0
  Passes w body s =
      let key = rate_key_of crypto body in
      let (l, allowed) = is_allowed w.allowed_at key s.rate_limiter in
      (allowed ≡ true) × Checked w key (record s { rate_limiter = l }) (login crypto w body s)

  abbrev IsLimited : World → LoginRequest → Service → Type 0
  IsLimited w body s =
      let key = rate_key_of crypto body in
      let (l, allowed) = is_allowed w.allowed_at key s.rate_limiter in
      (allowed ≡ false)
      × (login crypto w body s ≡ (
        record s { rate_limiter = (remaining w.remaining_at key l).0 },
        refused rate_limit_exceeded,
      ))

  Passes-or_IsLimited :
      (w : World) (body : LoginRequest) (s : Service) → Passes w body s ⊎ IsLimited w body s
  unfolding login
  Passes-or_IsLimited w body s =
      let key = rate_key_of crypto body in
      elim (Bool-cases (is_allowed w.allowed_at key s.rate_limiter).1) [
        | inl allowed ↦ inl (
          allowed,
          rw (allowed, login)
              (login_user-Checked w key body.password (lookup body.username s.users)
                (record s { rate_limiter = (is_allowed w.allowed_at key s.rate_limiter).0 })),
        )
        | inr limited ↦ inr (limited, rw (limited, login) refl)
      ]

  module _ (most win : ℕ) (key : String) where
    -- The state of the limiter with its log.
    abbrev Logged : ℕ → List ℕ → Service → Type 0
    Logged clock log s = Tracks most win key clock log s.rate_limiter

    login-Logged :
        (clock : ℕ) (w : World) (body : LoginRequest) (s : Service) (log : List ℕ)
        → clock ≤ w.allowed_at
        → w.allowed_at ≤ w.remaining_at
        → w.remaining_at ≤ w.recorded_at
        → Logged clock log s
        → Logged w.recorded_at (log_failure key (log_in w body) s log) (login crypto w body s).0
    login-Logged clock w body s log a b c h =
        let k = rate_key_of crypto body in
        let l = (is_allowed w.allowed_at k s.rate_limiter).0 in
        let asked : Tracks most win key w.allowed_at log l =
          is_allowed-Tracks most win key clock w.allowed_at k log s.rate_limiter a h in
        elim (Passes-or_IsLimited w body s) [
          | inl (allowed, inl (failed, limiter, other)) ↦
              rw (failed, limiter)
                (record_attempt-Tracks most win key w.allowed_at w.recorded_at k log l
                  (omega (arith, b, c)) asked
                  (λ same. ltb→lt (length (filter (recent win w.allowed_at) log)) most (
                    sym (is_allowed-room most win key clock w.allowed_at log s.rate_limiter a h)
                    ∙ subst (λ (x : String). (is_allowed w.allowed_at x s.rate_limiter).1 ≡ true)
                        same allowed)))
          | inl (allowed, inr (passed, limiter, other)) ↦
              rw (passed, limiter)
                (later-Tracks most win key w.allowed_at w.recorded_at log l (omega (arith, b, c))
                  asked)
          | inr (limited, e) ↦ rw e (
              later-Tracks most win key w.remaining_at w.recorded_at log
                (remaining w.remaining_at k l).0 c
                (remaining-Tracks most win key w.allowed_at w.remaining_at k log l b asked))
        ]

    renewed-limiter :
        (w : World) (token : String) (o : Option UserEntry) (s : Service)
        → (refresh_user crypto w token o s).0.rate_limiter ≡ s.rate_limiter
    unfolding refresh_user issue create_refresh_token revoke_refresh_token
    renewed-limiter w token none s = refl
    renewed-limiter w token (some u) s = ground arith

    refresh-limiter :
        (w : World) (token : String) (o : Option Payload) (s : Service)
        → (refresh_payload_of crypto w token o s).0.rate_limiter ≡ s.rate_limiter
    unfolding refresh_payload_of
    refresh-limiter w token none s = refl
    refresh-limiter w token (some p) s =
        renewed-limiter w token (lookup (text_or_empty p.sub) s.users) s

    logout-limiter :
        (token : String) (s : Service) → (logout crypto token s).rate_limiter ≡ s.rate_limiter
    unfolding logout revoke_refresh_token
    logout-limiter token s = ground arith

    failures-Logged :
        (clock : ℕ) (rs : List Request) (s : Service) (log : List ℕ)
        → Ascends clock rs
        → Logged clock log s
        → Logged (last_reading clock rs) (failures key rs s log) (serve_all crypto rs s)
    unfolding serve refresh
    failures-Logged clock [] s log up h = h
    failures-Logged clock (log_in w body ∷ rs) s log (a, b, c, up) h =
        failures-Logged w.recorded_at rs (login crypto w body s).0
          (log_failure key (log_in w body) s log) up (login-Logged clock w body s log a b c h)
    failures-Logged clock (renew w t ∷ rs) s log up h =
        failures-Logged clock rs (refresh crypto w t s).0 log up (
          subst (λ (l : Limiter). Tracks most win key clock log l)
            (sym (refresh-limiter w t (verify_refresh_token crypto w.checked_at t s) s)) h)
    failures-Logged clock (log_out t ∷ rs) s log up h =
        failures-Logged clock rs (logout crypto t s) log up
          (subst (λ (l : Limiter). Tracks most win key clock log l) (sym (logout-limiter t s)) h)

  -- After any logins, refreshes and logouts of a service that starts with an empty limiter, the
  -- readings of the clock not going back, at most `most` failed logins of a client address and
  -- username lie in the window that ends at a later login of that address and username, and this
  -- login is refused as rate limited exactly when there are `most` of them.
  pub failures_bounded :
      (most win : ℕ) (rs : List Request) (w : World) (body : LoginRequest) (s : Service)
      → s.rate_limiter ≡ new_limiter most win
      → Ascends 0 rs
      → last_reading 0 rs ≤ w.allowed_at
      → let failed =
          filter (recent win w.allowed_at) (failures (rate_key_of crypto body) rs s []) in
        (length failed ≤ most)
        × (((login crypto w body (serve_all crypto rs s)).1 ≡ refused rate_limit_exceeded)
            ↔ (length failed ≡ most))
  failures_bounded most win rs w body s fresh up later =
      let key = rate_key_of crypto body in
      let failed = filter (recent win w.allowed_at) (failures key rs s []) in
      let s' = serve_all crypto rs s in
      let start : Tracks most win key 0 [] s.rate_limiter =
        subst (λ (l : Limiter). Tracks most win key 0 [] l) (sym fresh) (new-Tracks most win key) in
      let tracked : Tracks most win key (last_reading 0 rs) (failures key rs s []) s'.rate_limiter =
        failures-Logged most win key 0 rs s [] up start in
      let few : length failed ≤ most =
        within_most most win key (last_reading 0 rs) w.allowed_at (failures key rs s [])
          s'.rate_limiter later tracked in
      let room : (is_allowed w.allowed_at key s'.rate_limiter).1 ≡ ltb (length failed) most =
        is_allowed-room most win key (last_reading 0 rs) w.allowed_at (failures key rs s [])
          s'.rate_limiter later tracked in
      (
        few,
        elim (Passes-or_IsLimited w body s') [
          | inl (allowed, inl (f, l, other)) ↦
              ((λ e. absurd (other e)), λ full. ground (arith, room, allowed, full))
          | inl (allowed, inr (f, l, other)) ↦
              ((λ e. absurd (other e)), λ full. ground (arith, room, allowed, full))
          | inr (limited, e) ↦ (
            (λ h. ground (arith, few, room, limited)),
            λ full. ap (λ (a : Service × Reply). a.1) e,
          )
        ],
      )
