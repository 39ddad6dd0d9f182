-- ===== src/Console/Auth.antt =====
-- services/console-auth/main.py: tokens, and the endpoints that issue, check and revoke them. JWT,
-- SHA-256 and bcrypt are parameters, and so are the clock and the ids that uuid4 draws.
pub mod Gone
pub mod Requests
pub mod Revocation
pub mod Sessions
pub mod Throttle
pub mod Users
mod Tests
use Prim.Native.String.{◌++◌}
use cobalto.Base.{
  ℕ, ◌+◌, ◌*◌, ◌≡◌, ◌≤◌, ◌<◌, String, Bool, true, false, Option, none, some, List, [], ◌∷◌,
  contains, string_eq, if◌then◌else◌, ◌==◌,
}
use cobalto.Base.Dict.{Dict, lookup}
use cobalto.Base.Sets.{add, discard}
use cobalto.Console.Limiter.{Limiter, is_allowed, record_attempt, remaining}

-- The claims; the optional ones may be missing in a token that was signed elsewhere.
pub record Payload : Type 0 where
  pub sub : Option String
  pub role : Option String
  pub iat : ℕ
  pub exp : ℕ
  pub jti : Option String
  pub kind : Option String

-- PyJWT with the secret and the algorithm, SHA-256 as hexadecimal text, and bcrypt.
pub record Crypto : Type 0 where
  pub encode : Payload → String
  -- At a time; `none` is the error of an expired or invalid token.
  pub decode : ℕ → String → Option Payload
  pub sha256 : String → String
  -- `none` is the ValueError of a malformed hash.
  pub checkpw : String → String → Option Bool
  pub decode-encode :
      (now : ℕ) (p : Payload) → p.iat ≤ now → now < p.exp → decode now (encode p) ≡ some p

pub record UserEntry : Type 0 where
  pub username : String
  pub password_hash : String
  pub role : String
  pub display_name : String

pub record AuthSettings : Type 0 where
  pub access_token_expire_minutes : ℕ
  pub refresh_token_expire_days : ℕ

-- The globals of the module.
pub record Service : Type 0 where
  pub settings : AuthSettings
  pub users : Dict String UserEntry
  pub refresh_token_hashes : List String
  pub rate_limiter : Limiter

pub record UserInfo : Type 0 where
  pub username : String
  pub role : String
  pub display_name : String

pub record TokenResponse : Type 0 where
  pub access_token : String
  pub refresh_token : String
  pub expires_in : ℕ
  pub user : UserInfo

-- The HTTP errors, by their status and code.
pub data AuthError : Type 0 where
  rate_limit_exceeded invalid_credentials internal_error invalid_token : AuthError

pub data Reply : Type 0 where
  issued : TokenResponse → Reply
  refused : AuthError → Reply

-- What a request finds in the world: the readings of the clocks, in seconds for the tokens, and the
-- fresh ids.
pub record World : Type 0 where
  pub allowed_at : ℕ
  pub remaining_at : ℕ
  pub recorded_at : ℕ
  pub checked_at : ℕ
  pub access_at : ℕ
  pub refresh_at : ℕ
  pub access_id : String
  pub refresh_id : String

text_is : String → Option String → Bool
text_is s none = false
text_is s (some t) = t == s

text_or_empty : Option String → String
text_or_empty none = ""
text_or_empty (some s) = s

pub record LoginRequest : Type 0 where
  pub client_ip : String
  pub username : String
  pub password : String

pub record VerifyResponse : Type 0 where
  pub username : String
  pub role : String
  pub display_name : String

-- Each user stands under its name.
abbrev pub IsKeyed : Dict String UserEntry → Type 0
IsKeyed users = (name : String) (u : UserEntry) → lookup name users ≡ some u → u.username ≡ name

unfoldable pub info_of : UserEntry → UserInfo
info_of u = record { username = u.username; role = u.role; display_name = u.display_name }

module _ (crypto : Crypto) where
  open crypto use {encode, decode, sha256, checkpw}

  abbrev pub access_payload : AuthSettings → ℕ → String → String → String → Payload
  access_payload settings now id username role = record {
    sub = some username;
    role = some role;
    iat = now;
    exp = now + settings.access_token_expire_minutes * 60;
    jti = some id;
    kind = some "access";
  }

  unfoldable pub create_access_token : AuthSettings → ℕ → String → String → String → String
  create_access_token settings now id username role =
      encode (access_payload settings now id username role)

  abbrev pub refresh_payload : AuthSettings → ℕ → String → String → Payload
  refresh_payload settings now id username = record {
    sub = some username;
    role = none;
    iat = now;
    exp = now + settings.refresh_token_expire_days * 86400;
    jti = some id;
    kind = some "refresh";
  }

  unfoldable pub create_refresh_token : ℕ → String → String → Service → Service × String
  create_refresh_token now id username s =
      let token = encode (refresh_payload s.settings now id username) in
      (record s { refresh_token_hashes = add (sha256 token) s.refresh_token_hashes }, token)

  access_of : Option Payload → Option Payload
  unfolding text_is
  access_of none = none
  access_of (some p) = if text_is "access" p.kind then some p else none

  unfoldable pub verify_access_token : ℕ → String → Option Payload
  unfolding access_of
  verify_access_token now token = access_of (decode now token)

  refresh_of : Option Payload → Bool → Option Payload
  unfolding text_is
  refresh_of none known = none
  refresh_of (some p) known =
      if text_is "refresh" p.kind then (if known then some p else none) else none

  unfoldable pub verify_refresh_token : ℕ → String → Service → Option Payload
  unfolding refresh_of
  verify_refresh_token now token s =
      refresh_of (decode now token) (contains (sha256 token) s.refresh_token_hashes)

  unfoldable pub revoke_refresh_token : String → Service → Service × Bool
  revoke_refresh_token token s =
      if contains (sha256 token) s.refresh_token_hashes
      then (record s { refresh_token_hashes = discard (sha256 token) s.refresh_token_hashes }, true)
      else (s, false)

  -- The tokens of a login and of a refresh.
  unfoldable pub issue : World → UserEntry → Service → Service × Reply
  unfolding create_access_token create_refresh_token info_of
  issue w u s =
      let (s', refresh_token) = create_refresh_token w.refresh_at w.refresh_id u.username s in
      (
        s',
        issued (record {
          access_token = create_access_token s.settings w.access_at w.access_id u.username u.role;
          refresh_token = refresh_token;
          expires_in = s.settings.access_token_expire_minutes * 60;
          user = info_of u;
        }),
      )

  -- A failed attempt.
  unfoldable pub fail : World → String → AuthError → Service → Service × Reply
  fail w rate_key e s =
      (record s { rate_limiter = record_attempt w.recorded_at rate_key s.rate_limiter }, refused e)

  login_checked : World → String → UserEntry → Option Bool → Service → Service × Reply
  unfolding fail issue
  login_checked w rate_key u none s = fail w rate_key internal_error s
  login_checked w rate_key u (some false) s = fail w rate_key invalid_credentials s
  login_checked w rate_key u (some true) s = issue w u s

  login_user : World → String → String → Option UserEntry → Service → Service × Reply
  unfolding login_checked fail
  login_user w rate_key password none s = fail w rate_key invalid_credentials s
  login_user w rate_key password (some u) s =
      login_checked w rate_key u (checkpw password u.password_hash) s

  -- `f"{client_ip}:{body.username}"`
  abbrev pub rate_key_of : LoginRequest → String
  rate_key_of body = body.client_ip ++ ":" ++ body.username

  unfoldable pub login : World → LoginRequest → Service → Service × Reply
  unfolding login_user is_allowed remaining
  login w body s =
      let key = rate_key_of body in
      let (limiter, allowed) = is_allowed w.allowed_at key s.rate_limiter in
      if allowed
      then login_user w key body.password (lookup body.username s.users)
          (record s { rate_limiter = limiter })
      else (
        record s { rate_limiter = (remaining w.remaining_at key limiter).0 },
        refused rate_limit_exceeded,
      )

  refresh_user : World → String → Option UserEntry → Service → Service × Reply
  unfolding revoke_refresh_token issue
  refresh_user w token none s = (s, refused invalid_token)
  refresh_user w token (some u) s = issue w u (revoke_refresh_token token s).0

  refresh_payload_of : World → String → Option Payload → Service → Service × Reply
  unfolding refresh_user text_or_empty
  refresh_payload_of w token none s = (s, refused invalid_token)
  refresh_payload_of w token (some p) s =
      refresh_user w token (lookup (text_or_empty p.sub) s.users) s

  unfoldable pub refresh : World → String → Service → Service × Reply
  unfolding refresh_payload_of verify_refresh_token
  refresh w token s = refresh_payload_of w token (verify_refresh_token w.checked_at token s) s

  unfoldable pub logout : String → Service → Service
  unfolding revoke_refresh_token
  logout token s = (revoke_refresh_token token s).0

  display_of : String → Option UserEntry → String
  display_of username none = username
  display_of username (some u) = u.display_name

  verified : Dict String UserEntry → Option Payload → Option VerifyResponse
  unfolding display_of text_or_empty
  verified users none = none
  verified users (some p) =
      let username = text_or_empty p.sub in
      some (record {
        username = username;
        role = text_or_empty p.role;
        display_name = display_of username (lookup username users);
      })

  -- On the token of the header; `none` is the error of a missing or refused token.
  unfoldable pub verify : ℕ → Option String → Service → Option VerifyResponse
  unfolding verified verify_access_token
  verify now none s = none
  verify now (some token) s = verified s.users (verify_access_token now token)
