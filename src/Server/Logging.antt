-- ===== src/Server/Logging.antt =====
-- LoggerMiddleware of controlplane/middlewares.go around the other middlewares, which
-- controlplane/router.go puts there if the requests are to be logged. The times and the client's
-- address are left out.
use opvic.Prelude.{
  ℕ, Bool, true, false, not, ◌&&◌, Option, none, ◌≡◌, refl, List, [], ◌∷◌, map, String,
  if◌then◌else◌, Outcome, ok, ◌||◌, some,
}
use opvic.External.{GoCache, Exporter}
use opvic.Cache.{Value}
use opvic.Http.{Codec}
use opvic.Server.{Web, Incoming, Response, Route, find_route, setup_router}
use opvic.Server.Middlewares.{Server, serve, PanicValue, connection_error}

pub data Entry : Type 0 where
  -- The method, the path and the status of a request.
  request_entry : String → String → ℕ → Entry
  -- An error of the context, the path and the URL.
  error_entry : String → String → String → Entry

-- The errors that RecoveryWithLogger adds to the context: that of a dead connection.
unfoldable pub recovery_errors : Web → PanicValue → List String
recovery_errors W (connection_error (some e)) =
    if W.mentions e "broken pipe" || W.mentions e "connection reset by peer" then e ∷ [] else []
recovery_errors W _ = []

-- What is logged after the chain has returned; a panic that RecoveryWithLogger lets through goes
-- through here too.
pub logger_middleware : Incoming → List String → Outcome Response → List Entry
logger_middleware r [] (ok response) = request_entry r.method r.path response.status ∷ []
logger_middleware r (e ∷ errors) (ok response) = map (λ e. error_entry e r.path r.url) (e ∷ errors)
logger_middleware r errors _ = []

module _ (W : Web) (P : Exporter) (C : GoCache Value) (D : Codec) (token : String) where
  -- What gin redirects does not reach the middlewares.
  abbrev pub is_redirected : Option (Route × (String → String)) → Incoming → Bool
  is_redirected (some found) r = false
  is_redirected none r = elim (W.redirect r.method r.path) [ some status ↦ true | none ↦ false ]

  -- The chain of SetupRouter. No handler adds an error to the context.
  unfoldable pub serve_logged :
      Bool → Incoming → Server C → (Outcome Response × Server C) × List Entry
  unfolding logger_middleware
  serve_logged log_https_requests r server =
      let out = serve W P C D token r server in
      (
        out,
        if log_https_requests && not (is_redirected (find_route W r setup_router) r)
            then logger_middleware r [] out.0
            else [],
      )

  -- A request that is answered and not redirected is logged once, with the status of its answer.
  serve_logged-once :
      (r : Incoming) (server : Server C) (response : Response)
      → (serve W P C D token r server).0 ≡ ok response
      → is_redirected (find_route W r setup_router) r ≡ false
      → (serve_logged true r server).1 ≡ request_entry r.method r.path response.status ∷ []
  unfolding serve_logged logger_middleware
  serve_logged-once r server response e n = rw (n, e) refl
