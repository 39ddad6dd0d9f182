-- ===== src/Console/Auth/Sessions.antt =====
-- A session: a login, its tokens in use, and their renewal before they expire.
use cobalto.Base.{
  ℕ, ◌+◌, ◌*◌, ◌≡◌, ◌≤◌, ◌<◌, refl, sym, subst, ◌⊎◌, inl, inr, ap, ◌∙◌, String, Bool, true, false,
  Option, none, some, contains, string_eq, Bool-cases, ==_true, arith,
}
use cobalto.Base.Dict.{Dict, lookup}
use cobalto.Base.Sets.{contains-add}
use cobalto.Console.Limiter.{Limiter, is_allowed}
use cobalto.Console.Auth.{
  Payload, Crypto, UserEntry, IsKeyed, Service, rate_limit_exceeded, Reply, issued, refused,
  TokenResponse, World, LoginRequest, access_payload, refresh_payload, create_access_token,
  create_refresh_token, verify_access_token, access_of, verify_refresh_token, refresh_of,
  revoke_refresh_token, issue, fail, info_of, login_checked, login_user, login, refresh_user,
  refresh_payload_of, refresh, rate_key_of, text_or_empty, text_is, verify, verified, display_of,
}

issued_inj : {r r' : TokenResponse} → issued r ≡ issued r' → r ≡ r'
issued_inj h = cc

module _ (crypto : Crypto) where
  open crypto use {encode, decode, sha256, checkpw, decode-encode}

  -- The answer of `issue`.
  abbrev tokens_of : World → UserEntry → Service → TokenResponse
  tokens_of w u s = record {
    access_token =
        encode (access_payload crypto s.settings w.access_at w.access_id u.username u.role);
    refresh_token = encode (refresh_payload crypto s.settings w.refresh_at w.refresh_id u.username);
    expires_in = s.settings.access_token_expire_minutes * 60;
    user = info_of u;
  }

  issue-tokens_of :
      (w : World) (u : UserEntry) (s : Service) → (issue crypto w u s).1 ≡ issued (tokens_of w u s)
  unfolding issue create_refresh_token create_access_token
  issue-tokens_of w u s = refl

  issue-stored :
      (w : World) (u : UserEntry) (s : Service)
      → contains
          (sha256 (tokens_of w u s).refresh_token)
          (issue crypto w u s).0.refresh_token_hashes
        ≡ true
  unfolding issue create_refresh_token
  issue-stored w u s =
      let h = sha256 (tokens_of w u s).refresh_token in
      contains-add h h s.refresh_token_hashes ∙ rw (==_true h) refl

  issue-users : (w : World) (u : UserEntry) (s : Service) → (issue crypto w u s).0.users ≡ s.users
  unfolding issue create_refresh_token
  issue-users w u s = refl

  -- What a login that answers with tokens went through.
  abbrev Accepted : World → LoginRequest → Service → TokenResponse → Type 0
  Accepted w body s r =
      (u : UserEntry) × (l : Limiter) × (lookup body.username s.users ≡ some u)
      × (checkpw body.password u.password_hash ≡ some true)
      × (login crypto w body s ≡ issue crypto w u (record s { rate_limiter = l }))

  login_checked-issued :
      (w : World) (key : String) (u : UserEntry) (o : Option Bool) (s : Service) (r : TokenResponse)
      → (login_checked crypto w key u o s).1 ≡ issued r
      → (o ≡ some true) × (login_checked crypto w key u o s ≡ issue crypto w u s)
  unfolding login_checked fail
  login_checked-issued w key u none s r h = cc
  login_checked-issued w key u (some false) s r h = cc
  login_checked-issued w key u (some true) s r h = (refl, refl)

  login_user-issued :
      (w : World) (key password : String) (o : Option UserEntry) (s : Service) (r : TokenResponse)
      → (login_user crypto w key password o s).1 ≡ issued r
      → (u : UserEntry) × (o ≡ some u)
        × (checkpw password u.password_hash ≡ some true)
        × (login_user crypto w key password o s ≡ issue crypto w u s)
  unfolding login_user fail
  login_user-issued w key password none s r h = cc
  login_user-issued w key password (some u) s r h =
      let (ok, e) = login_checked-issued w key u (checkpw password u.password_hash) s r h in
      (u, refl, ok, e)

  login-cases :
      (w : World) (body : LoginRequest) (s : Service)
      → (login crypto w body s
          ≡ login_user crypto w
              (rate_key_of crypto body)
              body.password
              (lookup body.username s.users)
              (record s {
                rate_limiter = (is_allowed w.allowed_at (rate_key_of crypto body) s.rate_limiter).0;
              }))
        ⊎ ((login crypto w body s).1 ≡ refused rate_limit_exceeded)
  unfolding login
  login-cases w body s =
      elim (Bool-cases (is_allowed w.allowed_at (rate_key_of crypto body) s.rate_limiter).1) [
        | inl allowed ↦ inl (rw (allowed, login) refl)
        | inr limited ↦ inr (rw (limited, login) refl)
      ]

  login-Accepted :
      (w : World) (body : LoginRequest) (s : Service) (r : TokenResponse)
      → (login crypto w body s).1 ≡ issued r
      → Accepted w body s r
  login-Accepted w body s r h = elim (login-cases w body s) [
    | inl e ↦
        let l = (is_allowed w.allowed_at (rate_key_of crypto body) s.rate_limiter).0 in
        let (u, found, ok, e') =
          login_user-issued w (rate_key_of crypto body) body.password (lookup body.username s.users)
            (record s { rate_limiter = l }) r (sym (ap (λ (a : Service × Reply). a.1) e) ∙ h) in
        (u, l, found, ok, e ∙ e')
    | inr e ↦ cc
  ]

  verify-known :
      (now : ℕ) (token : String) (p : Payload) (s : Service)
      → decode now token ≡ some p
      → text_is "refresh" p.kind ≡ true
      → contains (sha256 token) s.refresh_token_hashes ≡ true
      → verify_refresh_token crypto now token s ≡ some p
  unfolding verify_refresh_token refresh_of
  verify-known now token p s decoded kind known = rw (decoded, known) (rw kind refl)

  refresh-issues :
      (w : World) (token : String) (p : Payload) (u : UserEntry) (s : Service)
      → verify_refresh_token crypto w.checked_at token s ≡ some p
      → lookup (text_or_empty p.sub) s.users ≡ some u
      → refresh crypto w token s ≡ issue crypto w u (revoke_refresh_token crypto token s).0
  unfolding refresh refresh_payload_of refresh_user
  refresh-issues w token p u s known found =
      ap (λ (o : Option Payload). refresh_payload_of crypto w token o s) known
      ∙ ap (λ (o : Option UserEntry). refresh_user crypto w token o s) found

  verify-access :
      (now : ℕ) (token : String) (p : Payload) (s : Service)
      → decode now token ≡ some p
      → text_is "access" p.kind ≡ true
      → verify crypto now (some token) s ≡ verified crypto s.users (some p)
  unfolding verify verify_access_token access_of
  verify-access now token p s decoded kind = rw decoded (rw kind refl)

  revoke-users :
      (token : String) (s : Service) → (revoke_refresh_token crypto token s).0.users ≡ s.users
  unfolding revoke_refresh_token
  revoke-users token s = ground arith

  display_name_of :
      (name : String) (o : Option UserEntry) (u : UserEntry)
      → o ≡ some u
      → display_of crypto name o ≡ u.display_name
  unfolding display_of
  display_name_of name o u e = rw e refl

  -- What the holder of the answer `r` of a login gets from `s`.
  abbrev pub IsServed : ℕ → World → TokenResponse → Service → Type 0
  IsServed now w r s =
      (verify crypto now (some r.access_token) s
        ≡ some (record {
          username = r.user.username;
          role = r.user.role;
          display_name = r.user.display_name;
        }))
      × (r' : TokenResponse) × ((refresh crypto w r.refresh_token s).1 ≡ issued r')
      × (r'.user ≡ r.user)

  issue-IsServed :
      (w w' : World) (now : ℕ) (u : UserEntry) (s s' : Service)
      → lookup u.username s'.users ≡ some u
      → contains (sha256 (tokens_of w u s).refresh_token) s'.refresh_token_hashes ≡ true
      → w.access_at ≤ now
      → now < w.access_at + s.settings.access_token_expire_minutes * 60
      → w.refresh_at ≤ w'.checked_at
      → w'.checked_at < w.refresh_at + s.settings.refresh_token_expire_days * 86400
      → IsServed now w' (tokens_of w u s) s'
  unfolding verified text_or_empty info_of text_is
  issue-IsServed w w' now u s s' found stored after before after' before' =
      let r = tokens_of w u s in
      let access = access_payload crypto s.settings w.access_at w.access_id u.username u.role in
      let renewal = refresh_payload crypto s.settings w.refresh_at w.refresh_id u.username in
      let known =
        verify-known w'.checked_at r.refresh_token renewal s'
          (decode-encode w'.checked_at renewal after' before') refl stored in
      (
        verify-access now r.access_token access s' (decode-encode now access after before) refl
            ∙ ap
                (λ (name : String).
                  some (record { username = u.username; role = u.role; display_name = name }))
                (display_name_of u.username (lookup u.username s'.users) u found),
        tokens_of w' u (revoke_refresh_token crypto r.refresh_token s').0,
        ap (λ (a : Service × Reply). a.1)
              (refresh-issues w' r.refresh_token renewal u s' known found)
            ∙ issue-tokens_of w' u (revoke_refresh_token crypto r.refresh_token s').0,
        refl,
      )

  -- Where the users are keyed by their names, a login that answers with tokens was for a stored user
  -- whose password hash accepts the password, keeps the users and stores the hash of its refresh
  -- token. In any state that has those users and still that hash, as the one right after the login
  -- does, and while the tokens have not expired, the access token verifies as that user, and the
  -- refresh token is exchanged for new tokens of the same user.
  pub login-IsServed :
      (w w' : World) (now : ℕ) (body : LoginRequest) (s s' : Service) (r : TokenResponse)
      → IsKeyed s.users
      → (login crypto w body s).1 ≡ issued r
      → s'.users ≡ s.users
      → contains (sha256 r.refresh_token) s'.refresh_token_hashes ≡ true
      → w.access_at ≤ now
      → now < w.access_at + s.settings.access_token_expire_minutes * 60
      → w.refresh_at ≤ w'.checked_at
      → w'.checked_at < w.refresh_at + s.settings.refresh_token_expire_days * 86400
      → (u : UserEntry) × (lookup body.username s.users ≡ some u)
        × (checkpw body.password u.password_hash ≡ some true)
        × (r.user ≡ info_of u)
        × ((login crypto w body s).0.users ≡ s.users)
        × (contains (sha256 r.refresh_token) (login crypto w body s).0.refresh_token_hashes ≡ true)
        × IsServed now w' r s'
  login-IsServed w w' now body s s' r keyed answered users known after before after' before' =
      let (u, l, found, ok, e) = login-Accepted w body s r answered in
      let s₁ : Service = record s { rate_limiter = l } in
      let tokens : r ≡ tokens_of w u s₁ =
        issued_inj (sym answered ∙ ap (λ (a : Service × Reply). a.1) e ∙ issue-tokens_of w u s₁) in
      let served =
        issue-IsServed w w' now u s₁ s'
          (ap (λ (d : Dict String UserEntry). lookup u.username d) users
            ∙ subst (λ (name : String). lookup name s.users ≡ some u)
                (sym (keyed body.username u found)) found)
          (ap (λ (x : TokenResponse). contains (sha256 x.refresh_token) s'.refresh_token_hashes)
              (sym tokens)
            ∙ known)
          after before after' before' in
      (
        u,
        found,
        ok,
        ap (λ (x : TokenResponse). x.user) tokens,
        ap (λ (a : Service × Reply). a.0.users) e ∙ issue-users w u s₁,
        ap (λ (a : Service × Reply). contains (sha256 r.refresh_token) a.0.refresh_token_hashes) e
            ∙ ap
                (λ (x : TokenResponse).
                  contains (sha256 x.refresh_token) (issue crypto w u s₁).0.refresh_token_hashes)
                tokens
            ∙ issue-stored w u s₁,
        subst (λ (x : TokenResponse). IsServed now w' x s') (sym tokens) served,
      )
