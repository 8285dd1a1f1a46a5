-- ===== src/Api/Guarded.antt =====
-- The middleware in front of the trip routes: a request without a valid token or without the role.
use share_trip.Base.{String, false, ◌≡◌, some, arith}
use share_trip.GoError.{GoError, fiber_error, as_fiber_error}
use share_trip.Result.{ok, err}
use share_trip.Context.{Context}
use share_trip.World.{World}
use share_trip.Env.{Env}
use share_trip.Middleware.Keycloak.{
  Keycloak, KeycloakConfig, KeycloakClaims, has_client_role, authenticate, require_client_role,
}
use share_trip.Api.Handlers.{Server}
use share_trip.Api.Routes.{
  Request, get_ready, get_metrics, unmatched, unmatched_trip, post_create, post_publish, post_start,
  get_by_id, serve, final_status,
}

-- The requests that come to the group `/trip`, and those of them that ask for the role `client`.
abbrev pub IsTripRoute : Request → Type 0
IsTripRoute get_ready = ⊥
IsTripRoute get_metrics = ⊥
IsTripRoute (unmatched code text) = ⊥
IsTripRoute _ = Unit

abbrev pub NeedsRole : Request → Type 0
NeedsRole (post_create body) = Unit
NeedsRole (get_by_id param) = Unit
NeedsRole _ = ⊥

module _ (k : Keycloak) (cfg : KeycloakConfig) (token : String) (w : World) where
  authenticate_401 :
      {e : GoError} → (authenticate k cfg token w).0 ≡ err e → as_fiber_error e ≡ some 401
  unfolding authenticate
  authenticate_401 h = ground arith

  pub authenticate-tables : (authenticate k cfg token w).1.tables ≡ w.tables
  unfolding authenticate
  authenticate-tables = ground arith

  authenticate-topic : (authenticate k cfg token w).1.topic ≡ w.topic
  unfolding authenticate
  authenticate-topic = ground arith

module _ (env : Env) (k : Keycloak) (cfg : KeycloakConfig) (s : Server) (ctx : Context)
    (token : String) where
  -- A request whose token is refused stops there.
  serve-eq-err :
      (r : Request) (w : World) {e : GoError}
      → IsTripRoute r
      → (authenticate k cfg token w).0 ≡ err e
      → serve env k cfg s ctx token r w ≡ (err e, (authenticate k cfg token w).1)
  unfolding serve
  serve-eq-err get_ready w t h = absurd t
  serve-eq-err get_metrics w t h = absurd t
  serve-eq-err (unmatched code text) w t h = absurd t
  serve-eq-err (unmatched_trip code text) w t h = ground arith
  serve-eq-err (post_create body) w t h = ground arith
  serve-eq-err (post_publish body) w t h = ground arith
  serve-eq-err (post_start body) w t h = ground arith
  serve-eq-err (get_by_id param) w t h = ground arith

  -- On every trip route a token that is not accepted gets status 401 and changes nothing.
  pub serve_unauthenticated :
      (r : Request) (w : World) (e : GoError)
      → IsTripRoute r
      → (authenticate k cfg token w).0 ≡ err e
      → let (answer, w') = serve env k cfg s ctx token r w in
        (final_status answer ≡ 401) × (w'.tables ≡ w.tables) × (w'.topic ≡ w.topic)
  unfolding final_status
  serve_unauthenticated r w e t h =
      let stop = serve-eq-err r w {e = e} t h in
      let code = authenticate_401 k cfg token w {e = e} h in
      let tables = authenticate-tables k cfg token w in
      let topic = authenticate-topic k cfg token w in (ground arith, ground arith, ground arith)

  serve_forbidden-eq-err :
      (r : Request) (w : World) {claims : KeycloakClaims}
      → NeedsRole r
      → (authenticate k cfg token w).0 ≡ ok claims
      → has_client_role claims cfg.client_id "client" ≡ false
      → serve env k cfg s ctx token r w
        ≡ (err (fiber_error 403 "access denied"), (authenticate k cfg token w).1)
  unfolding serve require_client_role
  serve_forbidden-eq-err get_ready w t h f = absurd t
  serve_forbidden-eq-err get_metrics w t h f = absurd t
  serve_forbidden-eq-err (unmatched code text) w t h f = absurd t
  serve_forbidden-eq-err (unmatched_trip code text) w t h f = absurd t
  serve_forbidden-eq-err (post_create body) w t h f = ground arith
  serve_forbidden-eq-err (post_publish body) w t h f = absurd t
  serve_forbidden-eq-err (post_start body) w t h f = absurd t
  serve_forbidden-eq-err (get_by_id param) w t h f = ground arith

  -- Creating and reading a trip without the role `client` gets status 403 and changes nothing.
  pub serve_forbidden :
      (r : Request) (w : World) (claims : KeycloakClaims)
      → NeedsRole r
      → (authenticate k cfg token w).0 ≡ ok claims
      → has_client_role claims cfg.client_id "client" ≡ false
      → let (answer, w') = serve env k cfg s ctx token r w in
        (final_status answer ≡ 403) × (w'.tables ≡ w.tables) × (w'.topic ≡ w.topic)
  unfolding final_status
  serve_forbidden r w claims t h f =
      let stop = serve_forbidden-eq-err r w {claims = claims} t h f in
      let tables = authenticate-tables k cfg token w in
      let topic = authenticate-topic k cfg token w in (ground arith, ground arith, ground arith)
