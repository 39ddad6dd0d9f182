-- ===== src/Console/Auth/Revocation.antt =====
-- A refresh token that has been used or revoked is refused from then on.
use cobalto.Base.{
  ℕ, ◌≡◌, refl, sym, subst, ◌∙◌, String, Bool, false, Option, none, some, List, contains, string_eq,
  ◌==◌, All, Bool-cases, inl, inr, ==_true, not, ◌&&◌,
}
use cobalto.Base.Dict.{lookup}
use cobalto.Base.Sets.{contains-discard}
use cobalto.Console.Auth.Gone.{IsOther, IssuesOther, IsGone, issue-IsGone, serve_all-IsGone}
use cobalto.Console.Auth.Requests.{Request, log_in, renew, log_out, serve, serve_all}
use cobalto.Console.Auth.{
  Payload, Crypto, UserEntry, AuthSettings, Service, invalid_token, issued, refused, TokenResponse,
  World, verify_refresh_token, refresh_of, revoke_refresh_token, refresh_user, refresh_payload_of,
  refresh, logout, text_or_empty, text_is,
}

module _ (crypto : Crypto) where
  open crypto use {encode, sha256, decode}

  refused_unknown : (o : Option Payload) → refresh_of crypto o false ≡ none
  unfolding refresh_of
  refused_unknown none = refl
  refused_unknown (some p) = elim (Bool-cases (text_is "refresh" p.kind)) [
    | inl h ↦ rw h refl
    | inr h ↦ rw h refl
  ]

  gone-refused :
      (settings : AuthSettings) (token : String) (now : ℕ) (s : Service)
      → IsGone crypto settings token s
      → verify_refresh_token crypto now token s ≡ none
  unfolding verify_refresh_token
  gone-refused settings token now s (same, gone) = rw gone (refused_unknown (decode now token))

  -- At any time, the token is refused and changes nothing.
  abbrev pub IsRefused : String → Service → Type 0
  IsRefused token s =
      (now : ℕ) (w : World)
      → (verify_refresh_token crypto now token s ≡ none)
        × (refresh crypto w token s ≡ (s, refused invalid_token))

  gone-IsRefused :
      (settings : AuthSettings) (token : String) (s : Service)
      → IsGone crypto settings token s
      → IsRefused token s
  unfolding refresh refresh_payload_of
  gone-IsRefused settings token s h now w =
      (gone-refused settings token now s h, rw (gone-refused settings token w.checked_at s h) refl)

  not_itself : (b : Bool) (t : String) → (not (t == t) && b) ≡ false
  not_itself b t = rw (==_true t) refl

  revoked-IsGone :
      (token : String) (s : Service)
      → IsGone crypto s.settings token (revoke_refresh_token crypto token s).0
  unfolding revoke_refresh_token
  revoked-IsGone token s = elim (Bool-cases (contains (sha256 token) s.refresh_token_hashes)) [
    | inl known ↦
        rw (known, revoke_refresh_token)
          (
            refl,
            contains-discard (sha256 token) (sha256 token) s.refresh_token_hashes
                ∙ not_itself (contains (sha256 token) s.refresh_token_hashes) (sha256 token),
          )
    | inr unknown ↦ rw (unknown, revoke_refresh_token) (refl, unknown)
  ]

  -- The request that uses up a token: its logout, or its exchange for new tokens.
  abbrev pub Spends : String → Request → Service → Type 0
  Spends token (log_in w body) s = ⊥
  Spends token (renew w t) s =
      (t ≡ token) × (r : TokenResponse) × ((refresh crypto w t s).1 ≡ issued r)
  Spends token (log_out t) s = t ≡ token

  renewed_user-IsGone :
      (token : String) (w : World) (o : Option UserEntry) (s : Service) (r : TokenResponse)
      → (refresh_user crypto w token o s).1 ≡ issued r
      → IsOther crypto s.settings token w
      → IsGone crypto s.settings token (refresh_user crypto w token o s).0
  unfolding refresh_user
  renewed_user-IsGone token w none s r h other = cc
  renewed_user-IsGone token w (some u) s r h other =
      issue-IsGone crypto s.settings token w u (revoke_refresh_token crypto token s).0 other
        (revoked-IsGone token s)

  renewed-IsGone :
      (token : String) (w : World) (o : Option Payload) (s : Service) (r : TokenResponse)
      → (refresh_payload_of crypto w token o s).1 ≡ issued r
      → IsOther crypto s.settings token w
      → IsGone crypto s.settings token (refresh_payload_of crypto w token o s).0
  unfolding refresh_payload_of
  renewed-IsGone token w none s r h other = cc
  renewed-IsGone token w (some p) s r h other =
      renewed_user-IsGone token w (lookup (text_or_empty p.sub) s.users) s r h other

  spent-IsGone :
      (token : String) (r : Request) (s : Service)
      → Spends token r s
      → IssuesOther crypto s.settings token r
      → IsGone crypto s.settings token (serve crypto r s)
  unfolding serve refresh logout
  spent-IsGone token (log_in w body) s spent other = absurd spent
  spent-IsGone token (renew w t) s (same, r, h) other =
      subst (λ (x : String). IsGone crypto s.settings token (refresh crypto w x s).0) (sym same)
        (renewed-IsGone token w (verify_refresh_token crypto w.checked_at token s) s r
          (subst (λ (x : String). (refresh crypto w x s).1 ≡ issued r) same h) other)
  spent-IsGone token (log_out t) s same other =
      subst (λ (x : String). IsGone crypto s.settings token (revoke_refresh_token crypto x s).0)
        (sym same) (revoked-IsGone token s)

  -- A refresh token that was logged out or exchanged for new tokens is refused at any later time,
  -- and the attempt changes nothing, whatever logins, refreshes and logouts come in between, as
  -- long as none of these requests issues a token with its hash.
  pub spent-IsRefused :
      (token : String) (r : Request) (rs : List Request) (s : Service)
      → Spends token r s
      → IssuesOther crypto s.settings token r
      → All (IssuesOther crypto s.settings token) rs
      → IsRefused token (serve_all crypto rs (serve crypto r s))
  spent-IsRefused token r rs s spent other others =
      gone-IsRefused s.settings token (serve_all crypto rs (serve crypto r s)) (
        serve_all-IsGone crypto s.settings token rs (serve crypto r s) others
          (spent-IsGone token r s spent other))
