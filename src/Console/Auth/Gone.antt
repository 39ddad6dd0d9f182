-- ===== src/Console/Auth/Gone.antt =====
-- A refresh token whose hash is not stored: no request brings it back.
use cobalto.Base.{
  ◌≡◌, refl, ◌≢◌, sym, ◌∙◌, ap, String, Bool, true, false, Option, none, some, List, [], ◌∷◌,
  contains, string_eq, All, Bool-cases, inl, inr, arith, ==_false,
}
use cobalto.Base.Dict.{lookup}
use cobalto.Base.Sets.{contains-add, contains-discard}
use cobalto.Console.Limiter.{is_allowed}
use cobalto.Console.Auth.Requests.{Request, log_in, renew, log_out, serve, serve_all}
use cobalto.Console.Auth.{
  Payload, Crypto, UserEntry, AuthSettings, Service, World, LoginRequest, refresh_payload,
  create_refresh_token, verify_refresh_token, revoke_refresh_token, issue, fail, login_checked,
  login_user, login, refresh_user, refresh_payload_of, refresh, logout, rate_key_of, text_or_empty,
}

module _ (crypto : Crypto) where
  open crypto use {encode, sha256, checkpw, decode}

  -- What a request would issue to anyone has another hash.
  abbrev pub IsOther : AuthSettings → String → World → Type 0
  IsOther settings token w =
      (username : String)
      → sha256 (encode (refresh_payload crypto settings w.refresh_at w.refresh_id username))
        ≢ sha256 token

  abbrev pub IssuesOther : AuthSettings → String → Request → Type 0
  IssuesOther settings token (log_in w body) = IsOther settings token w
  IssuesOther settings token (renew w t) = IsOther settings token w
  IssuesOther settings token (log_out t) = Unit {0}

  -- The hash is not stored, under the settings.
  abbrev pub IsGone : AuthSettings → String → Service → Type 0
  IsGone settings token s =
      (s.settings ≡ settings) × (contains (sha256 token) s.refresh_token_hashes ≡ false)

  pub issue-IsGone :
      (settings : AuthSettings) (token : String) (w : World) (u : UserEntry) (s : Service)
      → IsOther settings token w
      → IsGone settings token s
      → IsGone settings token (issue crypto w u s).0
  unfolding issue create_refresh_token
  issue-IsGone settings token w u s other (same, gone) = (
    same,
    contains-add
          (sha256 (encode (refresh_payload crypto s.settings w.refresh_at w.refresh_id u.username)))
          (sha256 token) s.refresh_token_hashes
        ∙ rw
            (
              gone,
              ==_false (λ e. other u.username (
                  ap
                    (λ (st : AuthSettings).
                      sha256
                        (encode (refresh_payload crypto st w.refresh_at w.refresh_id u.username)))
                    (sym same)
                  ∙ sym e)),
            )
            refl,
  )

  pub revoke-IsGone :
      (settings : AuthSettings) (token t : String) (s : Service)
      → IsGone settings token s
      → IsGone settings token (revoke_refresh_token crypto t s).0
  unfolding revoke_refresh_token
  revoke-IsGone settings token t s (same, gone) =
      elim (Bool-cases (contains (sha256 t) s.refresh_token_hashes)) [
        | inl known ↦
            rw (known, revoke_refresh_token)
              (
                same,
                contains-discard (sha256 t) (sha256 token) s.refresh_token_hashes
                    ∙ ground (arith, gone),
              )
        | inr unknown ↦ rw (unknown, revoke_refresh_token) (same, gone)
      ]

  checked-IsGone :
      (settings : AuthSettings) (token : String) (w : World) (key : String) (u : UserEntry)
      (o : Option Bool) (s : Service)
      → IsOther settings token w
      → IsGone settings token s
      → IsGone settings token (login_checked crypto w key u o s).0
  unfolding login_checked fail
  checked-IsGone settings token w key u none s other h = h
  checked-IsGone settings token w key u (some false) s other h = h
  checked-IsGone settings token w key u (some true) s other h =
      issue-IsGone settings token w u s other h

  user-IsGone :
      (settings : AuthSettings) (token : String) (w : World) (key password : String)
      (o : Option UserEntry) (s : Service)
      → IsOther settings token w
      → IsGone settings token s
      → IsGone settings token (login_user crypto w key password o s).0
  unfolding login_user fail
  user-IsGone settings token w key password none s other h = h
  user-IsGone settings token w key password (some u) s other h =
      checked-IsGone settings token w key u (checkpw password u.password_hash) s other h

  login-IsGone :
      (settings : AuthSettings) (token : String) (w : World) (body : LoginRequest) (s : Service)
      → IsOther settings token w
      → IsGone settings token s
      → IsGone settings token (login crypto w body s).0
  unfolding login
  login-IsGone settings token w body s other h =
      elim (Bool-cases (is_allowed w.allowed_at (rate_key_of crypto body) s.rate_limiter).1) [
        | inl allowed ↦
            rw (allowed, login)
              (user-IsGone settings token w (rate_key_of crypto body) body.password
                (lookup body.username s.users) _ other h)
        | inr limited ↦ rw (limited, login) h
      ]

  renew_user-IsGone :
      (settings : AuthSettings) (token t : String) (w : World) (o : Option UserEntry) (s : Service)
      → IsOther settings token w
      → IsGone settings token s
      → IsGone settings token (refresh_user crypto w t o s).0
  unfolding refresh_user
  renew_user-IsGone settings token t w none s other h = h
  renew_user-IsGone settings token t w (some u) s other h =
      issue-IsGone settings token w u (revoke_refresh_token crypto t s).0 other
        (revoke-IsGone settings token t s h)

  renew_payload-IsGone :
      (settings : AuthSettings) (token t : String) (w : World) (o : Option Payload) (s : Service)
      → IsOther settings token w
      → IsGone settings token s
      → IsGone settings token (refresh_payload_of crypto w t o s).0
  unfolding refresh_payload_of
  renew_payload-IsGone settings token t w none s other h = h
  renew_payload-IsGone settings token t w (some p) s other h =
      renew_user-IsGone settings token t w (lookup (text_or_empty p.sub) s.users) s other h

  serve-IsGone :
      (settings : AuthSettings) (token : String) (r : Request) (s : Service)
      → IssuesOther settings token r
      → IsGone settings token s
      → IsGone settings token (serve crypto r s)
  unfolding serve refresh logout
  serve-IsGone settings token (log_in w body) s other h =
      login-IsGone settings token w body s other h
  serve-IsGone settings token (renew w t) s other h =
      renew_payload-IsGone settings token t w (verify_refresh_token crypto w.checked_at t s) s other
        h
  serve-IsGone settings token (log_out t) s other h = revoke-IsGone settings token t s h

  pub serve_all-IsGone :
      (settings : AuthSettings) (token : String) (rs : List Request) (s : Service)
      → All (IssuesOther settings token) rs
      → IsGone settings token s
      → IsGone settings token (serve_all crypto rs s)
  serve_all-IsGone settings token [] s others h = h
  serve_all-IsGone settings token (r ∷ rs) s (other, others) h =
      serve_all-IsGone settings token rs (serve crypto r s) others
        (serve-IsGone settings token r s other h)
