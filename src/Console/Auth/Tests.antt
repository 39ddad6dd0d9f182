-- ===== src/Console/Auth/Tests.antt =====
-- Tokens in plain text, and the theorems on sessions, limits and revocation at concrete inputs.
use Prim.Native.Char.{Char, code}
use cobalto.Base.{
  ℕ, zero, suc, ◌≡◌, ◌≤◌, ◌<◌, ◌↔◌, refl, sym, subst, ap, ◌∙◌, String, Bool, true, Option, none,
  some, List, [], ◌∷◌, ltb, leb, le→leb, lt→ltb, nat_beq, if◌then◌else◌, ◌&&◌, arith, string_eq,
  ◌==◌, length, filter, contains, ==_true,
}
use cobalto.Base.Dict.{Dict, lookup, insert}
use cobalto.Console.Limiter.{new_limiter, is_allowed, record_attempt, recent}
use cobalto.Console.Auth.Users.{load_users, load_users-IsKeyed}
use cobalto.Console.Auth.Sessions.{IsServed, login-IsServed}
use cobalto.Console.Auth.Throttle.{failures, failures_bounded}
use cobalto.Console.Auth.Requests.{Request, log_in, log_out, serve, serve_all}
use cobalto.Console.Auth.Gone.{IsOther}
use cobalto.Console.Auth.Revocation.{spent-IsRefused, IsRefused}
use cobalto.Console.Auth.{
  access_payload, refresh_payload, info_of, login, Payload, Crypto, UserEntry, IsKeyed,
  AuthSettings, Service, issued, refused, rate_limit_exceeded, TokenResponse, World, LoginRequest,
}

put_text : String → String → String
put_text String.[] rest = String.◌∷◌ "0" rest
put_text (String.◌∷◌ c s) rest = String.◌∷◌ "1" (String.◌∷◌ c (put_text s rest))

ends : Char → Bool
ends m = nat_beq (code m) 48

longer : Char → Option (String × String) → Option (String × String)
longer c none = none
longer c (some (s, rest)) = some (String.◌∷◌ c s, rest)

get_text : String → Option (String × String)
unfolding ends longer
get_text String.[] = none
get_text (String.◌∷◌ m String.[]) = if ends m then some (String.[], String.[]) else none
get_text (String.◌∷◌ m (String.◌∷◌ c s)) =
    let rest = longer c (get_text s) in if ends m then some (String.[], String.◌∷◌ c s) else rest

get_text-put_text : (s rest : String) → get_text (put_text s rest) ≡ some (s, rest)
unfolding get_text put_text
get_text-put_text String.[] String.[] = refl
get_text-put_text String.[] (String.◌∷◌ c s) = refl
get_text-put_text (String.◌∷◌ c s) rest = ap (longer c) (get_text-put_text s rest)

put_number : ℕ → String → String
put_number zero rest = String.◌∷◌ "0" rest
put_number (suc n) rest = String.◌∷◌ "1" (put_number n rest)

one_more : Option (ℕ × String) → Option (ℕ × String)
one_more none = none
one_more (some (n, rest)) = some (suc n, rest)

get_number : String → Option (ℕ × String)
unfolding ends one_more
get_number String.[] = none
get_number (String.◌∷◌ m s) =
    let rest = one_more (get_number s) in if ends m then some (0, s) else rest

get_number-put_number : (n : ℕ) (rest : String) → get_number (put_number n rest) ≡ some (n, rest)
unfolding get_number put_number
get_number-put_number zero rest = refl
get_number-put_number (suc n) rest = ap one_more (get_number-put_number n rest)

put_claim : Option String → String → String
unfolding put_text
put_claim none rest = String.◌∷◌ "0" rest
put_claim (some s) rest = String.◌∷◌ "1" (put_text s rest)

as_claim : Option (String × String) → Option (Option String × String)
as_claim none = none
as_claim (some (s, rest)) = some (some s, rest)

get_claim : String → Option (Option String × String)
unfolding ends as_claim get_text
get_claim String.[] = none
get_claim (String.◌∷◌ m s) = if ends m then some (none, s) else as_claim (get_text s)

get_claim-put_claim :
    (o : Option String) (rest : String) → get_claim (put_claim o rest) ≡ some (o, rest)
unfolding get_claim put_claim
get_claim-put_claim none rest = refl
get_claim-put_claim (some s) rest = ap as_claim (get_text-put_text s rest)

write : Payload → String
unfolding put_claim put_number
write p =
    put_claim p.sub (
      put_claim p.role
        (put_number p.iat (put_number p.exp (put_claim p.jti (put_claim p.kind "")))))

then_with : {A B : Type 0} → Option A → (A → Option B) → Option B
then_with none f = none
then_with (some a) f = f a

-- Refused unless the time lies in the token's life.
in_time : ℕ → Payload → Option Payload
in_time now p = if leb p.iat now && ltb now p.exp then some p else none

read : ℕ → String → Option Payload
unfolding then_with in_time get_claim get_number
read now text = then_with (get_claim text) λ (sub, text₁).
    then_with (get_claim text₁) λ (role, text₂). then_with (get_number text₂) λ (iat, text₃).
      then_with (get_number text₃) λ (exp, text₄). then_with (get_claim text₄) λ (jti, text₅).
        then_with (get_claim text₅) λ (kind, rest).
          in_time now
            (record { sub = sub; role = role; iat = iat; exp = exp; jti = jti; kind = kind })

read-write : (now : ℕ) (p : Payload) → p.iat ≤ now → now < p.exp → read now (write p) ≡ some p
unfolding read write then_with in_time
read-write now p a b =
    rw
      (
        get_claim-put_claim p.sub,
        get_claim-put_claim p.role,
        get_number-put_number p.iat,
        get_number-put_number p.exp,
        get_claim-put_claim p.jti,
        get_claim-put_claim p.kind,
      )
      (rw (le→leb p.iat now a, lt→ltb now p.exp b) refl)

unfoldable plain : Crypto
unfolding read write
plain = record {
  encode = write;
  decode = read;
  sha256 = λ text. text;
  checkpw = λ password hash. some (password == hash);
  decode-encode = read-write;
}

abbrev ana : UserEntry
ana = record { username = "ana"; password_hash = "secret"; role = "lead"; display_name = "Ana" }

abbrev settings : AuthSettings
settings = record { access_token_expire_minutes = 15; refresh_token_expire_days = 7 }

abbrev service : Service
service = record {
  settings = settings;
  users = ("ana", ana) ∷ [];
  refresh_token_hashes = [];
  rate_limiter = new_limiter 2 60;
}

abbrev at : ℕ → World
at n = record {
  allowed_at = n;
  remaining_at = n;
  recorded_at = n;
  checked_at = n;
  access_at = n;
  refresh_at = n;
  access_id = "a";
  refresh_id = "r";
}

abbrev by_ana : String → LoginRequest
by_ana password = record { client_ip = "10.0.0.1"; username = "ana"; password = password }

abbrev tokens : TokenResponse
tokens = record {
  access_token = plain.encode (access_payload plain settings 100 "a" "ana" "lead");
  refresh_token = plain.encode (refresh_payload plain settings 100 "r" "ana");
  expires_in = 900;
  user = info_of ana;
}

abbrev split_test : String → List String
split_test text = "ana" ∷ "secret" ∷ "lead" ∷ "Ana" ∷ []

users_loaded :
    load_users (λ text. text) (λ text. text ∷ []) split_test "ana:secret:lead:Ana" ≡ service.users
unfolding load_users insert
users_loaded = refl

users-IsKeyed : IsKeyed service.users
users-IsKeyed =
    subst (λ (users : Dict String UserEntry). IsKeyed users) users_loaded
      (load_users-IsKeyed (λ text. text) (λ text. text ∷ []) split_test "ana:secret:lead:Ana")

ana_logs_in : (login plain (at 100) (by_ana "secret") service).1 ≡ issued tokens
unfolding login is_allowed lookup plain
ana_logs_in = refl

abbrev after_login : Service
after_login = (login plain (at 100) (by_ana "secret") service).0

-- Later, when somebody else has a session too and the limiter has forgotten the attempts.
abbrev later_state : Service
later_state = record service {
  refresh_token_hashes = plain.sha256 tokens.refresh_token ∷ "another" ∷ [];
}

later_known : contains (plain.sha256 tokens.refresh_token) later_state.refresh_token_hashes ≡ true
later_known = rw (==_true (plain.sha256 tokens.refresh_token)) refl

login-IsServed_example :
    (u : UserEntry) × (lookup "ana" service.users ≡ some u)
    × (plain.checkpw "secret" u.password_hash ≡ some true)
    × (tokens.user ≡ info_of u)
    × (after_login.users ≡ service.users)
    × (contains (plain.sha256 tokens.refresh_token) after_login.refresh_token_hashes ≡ true)
    × IsServed plain 500 (at 86500) tokens later_state
login-IsServed_example =
    login-IsServed plain (at 100) (at 86500) 500 (by_ana "secret") service later_state tokens
      users-IsKeyed ana_logs_in refl later_known (omega arith) (omega arith) (omega arith)
      (omega arith)

-- A token of another instant is another text.
issued_at : Option Payload → ℕ
issued_at none = 0
issued_at (some p) = p.iat

others : (n : ℕ) → n ≤ 99 → IsOther plain settings tokens.refresh_token (at n)
unfolding plain issued_at
others n h username e =
    let p = refresh_payload plain settings n "r" username in
    let q = refresh_payload plain settings 100 "r" "ana" in
    let same : n ≡ 100 = ap issued_at (
      sym (read-write 200 p (omega (arith, h)) (omega (arith, h)))
      ∙ ap (read 200) e
      ∙ read-write 200 q (omega arith) (omega arith)) in
    omega (arith, same, h)

-- Two failures.
abbrev guesses : List Request
guesses = log_in (at 10) (by_ana "x") ∷ log_in (at 20) (by_ana "y") ∷ []

failures_bounded_example :
    let failed = filter (recent 60 50) (failures plain "10.0.0.1:ana" guesses service []) in
    (length failed ≤ 2)
    × (((login plain (at 50) (by_ana "secret") (serve_all plain guesses service)).1
          ≡ refused rate_limit_exceeded)
        ↔ (length failed ≡ 2))
failures_bounded_example =
    failures_bounded plain 2 60 guesses (at 50) (by_ana "secret") service refl (omega arith)
      (omega arith)

limit_reached :
    length (filter (recent 60 50) (failures plain "10.0.0.1:ana" guesses service [])) ≡ 2
unfolding login is_allowed lookup plain serve insert record_attempt
limit_reached = refl

spent-IsRefused_example :
    IsRefused plain tokens.refresh_token
      (serve_all plain guesses (serve plain (log_out tokens.refresh_token) service))
spent-IsRefused_example =
    spent-IsRefused plain tokens.refresh_token (log_out tokens.refresh_token) guesses service refl
      tt (others 10 (omega arith), (others 20 (omega arith), tt))
