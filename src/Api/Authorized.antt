-- ===== src/Api/Authorized.antt =====
-- The routes with their middleware: who may change what.
use share_trip.Base.{
  ℕ, String, true, ◌≡◌, ◌∙◌, ◌⊎◌, inl, inr, Option, some, arith, Bool-cases, refl,
}
use share_trip.GoError.{GoError}
use share_trip.Result.{Result, ok, err, Result-cases}
use share_trip.Context.{Context, causes}
use share_trip.Domain.{Uuid}
use share_trip.World.{World, Tables}
use share_trip.Env.{Env}
use share_trip.Middleware.Keycloak.{
  Keycloak, KeycloakConfig, KeycloakClaims, authenticate, has_client_role, require_client_role,
}
use share_trip.Api.Handlers
use share_trip.Api.Handlers.{CreateTripBody, client_id_from_claims}
use share_trip.Api.Response.{Response}
use share_trip.Api.Guarded.{
  IsTripRoute, authenticate-tables, serve_unauthenticated, serve_forbidden,
}
use share_trip.Api.Routes.{
  Request, get_ready, get_metrics, unmatched, unmatched_trip, post_create, post_publish, post_start,
  get_by_id, serve,
}
use share_trip.Wiring.{server}
use share_trip.Api.Changing.{
  Changes, ByClient, create_handler-ByClient, publish_handler-ByClient, start_handler-ByClient,
  get_handler-tables, ready-tables,
}

-- The role that a route asks for.
abbrev pub HasRole : KeycloakConfig → KeycloakClaims → Request → Type 0
HasRole cfg claims (post_create body) = has_client_role claims cfg.client_id "client" ≡ true
HasRole cfg claims _ = Unit

module _ (env : Env) (ping : ℕ → Option GoError) (k : Keycloak) (cfg : KeycloakConfig)
    (ctx : Context) (token : String) where
  -- Who has changed the tables, and how.
  abbrev pub IsAuthorized : Request → World → Tables → Type 0
  IsAuthorized r w u =
      (claims : KeycloakClaims) × (client : Uuid) × ((authenticate k cfg token w).0 ≡ ok claims)
      × (client_id_from_claims env (some claims) ≡ ok client)
      × HasRole cfg claims r
      × Changes env (causes ctx) r client w.tables u

  abbrev served : Request → World → Result Response × World
  served = serve env k cfg (server env ping) ctx token

  -- The handler's part of a route whose token is accepted.
  authorized :
      (r : Request) (w : World) {claims : KeycloakClaims}
      → (authenticate k cfg token w).0 ≡ ok claims
      → HasRole cfg claims r
      → ByClient env ping
          (some claims)
          ctx
          r
          (authenticate k cfg token w).1.tables
          (served r w).1.tables
      → ((served r w).1.tables ≡ w.tables) ⊎ IsAuthorized r w (served r w).1.tables
  authorized r w {claims} accepted role (inl kept) = inl (kept ∙ authenticate-tables k cfg token w)
  authorized r w {claims} accepted role (inr (client, known, changes)) =
      inr (claims, client, accepted, known, role, rw (authenticate-tables k cfg token w) at changes)

  -- Where the token is refused the tables are untouched.
  refused :
      (r : Request) (w : World) {e : GoError}
      → IsTripRoute r
      → (authenticate k cfg token w).0 ≡ err e
      → (served r w).1.tables ≡ w.tables
  refused r w {e} trip_route h =
      (serve_unauthenticated env k cfg (server env ping) ctx token r w e trip_route h).1

  -- After any request, the tables are untouched, or the token was accepted, its claims name a client
  -- and have the role that the route asks for, and the route has made its change for that client.
  pub serve-IsAuthorized :
      (r : Request) (w : World)
      → ((served r w).1.tables ≡ w.tables) ⊎ IsAuthorized r w (served r w).1.tables
  unfolding serve Handlers.metrics_handler
  serve-IsAuthorized get_ready w = inl (ready-tables env ping w)
  serve-IsAuthorized get_metrics w = inl refl
  serve-IsAuthorized (unmatched code text) w = inl refl
  serve-IsAuthorized (unmatched_trip code text) w =
      let a = authenticate-tables k cfg token w in
      elim (Result-cases (authenticate k cfg token w).0) [
        | inr (x, e) ↦ inl (ground arith)
        | inl (claims, e) ↦ inl (ground arith)
      ]
  serve-IsAuthorized (post_create body) w = elim (Result-cases (authenticate k cfg token w).0) [
    | inr (x, e) ↦ inl (refused (post_create body) w {e = x} tt e)
    | inl (claims, e) ↦ elim (Bool-cases (has_client_role claims cfg.client_id "client")) [
      | inr roleless ↦ inl (
          (serve_forbidden env k cfg (server env ping) ctx token (post_create body) w claims tt e
            roleless).1)
      | inl role ↦
          let by_client =
            create_handler-ByClient env ping (some claims) ctx body
              (authenticate k cfg token w).1 in
          let same : (served (post_create body) w).1.tables
              ≡ (Handlers.create_trip env (server env ping) (some claims) body
                  (authenticate k cfg token w).1).1.tables =
            unfold require_client_role in ground arith in
          authorized (post_create body) w {claims = claims} e role (rw same by_client)
    ]
  ]
  serve-IsAuthorized (post_publish body) w = elim (Result-cases (authenticate k cfg token w).0) [
    | inr (x, e) ↦ inl (refused (post_publish body) w {e = x} tt e)
    | inl (claims, e) ↦
        let by_client =
          publish_handler-ByClient env ping (some claims) ctx body (authenticate k cfg token w).1 in
        let same : (served (post_publish body) w).1.tables
            ≡ (Handlers.move_trip_draft_to_published env (server env ping) (some claims) ctx body
                (authenticate k cfg token w).1).1.tables =
          ground arith in
        authorized (post_publish body) w {claims = claims} e tt (rw same by_client)
  ]
  serve-IsAuthorized (post_start body) w = elim (Result-cases (authenticate k cfg token w).0) [
    | inr (x, e) ↦ inl (refused (post_start body) w {e = x} tt e)
    | inl (claims, e) ↦
        let by_client =
          start_handler-ByClient env ping (some claims) ctx body (authenticate k cfg token w).1 in
        let same : (served (post_start body) w).1.tables
            ≡ (Handlers.start_trip env (server env ping) (some claims) ctx body
                (authenticate k cfg token w).1).1.tables =
          ground arith in
        authorized (post_start body) w {claims = claims} e tt (rw same by_client)
  ]
  serve-IsAuthorized (get_by_id param) w = elim (Result-cases (authenticate k cfg token w).0) [
    | inr (x, e) ↦ inl (refused (get_by_id param) w {e = x} tt e)
    | inl (claims, e) ↦ elim (Bool-cases (has_client_role claims cfg.client_id "client")) [
      | inr roleless ↦ inl (
          (serve_forbidden env k cfg (server env ping) ctx token (get_by_id param) w claims tt e
            roleless).1)
      | inl role ↦
          let w₁ = (authenticate k cfg token w).1 in
          let read = get_handler-tables env ping param w₁ in
          let same : (served (get_by_id param) w).1.tables
              ≡ (Handlers.get_trip_by_id env (server env ping) param w₁).1.tables =
            unfold require_client_role in ground arith in
          inl (same ∙ read ∙ authenticate-tables k cfg token w)
    ]
  ]
