-- ===== src/Console/Auth/Requests.antt =====
-- The requests that change the service, in turn.
use cobalto.Base.{String, List, [], ◌∷◌}
use cobalto.Console.Auth.{Crypto, Service, World, LoginRequest, login, refresh, logout}

pub data Request : Type 0 where
  log_in : World → LoginRequest → Request
  renew : World → String → Request
  log_out : String → Request

module _ (crypto : Crypto) where
  unfoldable pub serve : Request → Service → Service
  unfolding login refresh logout
  serve (log_in w body) s = (login crypto w body s).0
  serve (renew w token) s = (refresh crypto w token s).0
  serve (log_out token) s = logout crypto token s

  abbrev pub serve_all : List Request → Service → Service
  serve_all [] s = s
  serve_all (r ∷ rs) s = serve_all rs (serve r s)
