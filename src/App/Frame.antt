-- ===== src/App/Frame.antt =====
-- What the routes leave of the HTTP metrics.
use share_trip.Base.{ℕ, String, ◌≡◌, inl, inr, Option, some, arith, Option-cases, refl}
use share_trip.GoError.{GoError}
use share_trip.Result.{Result, Result-cases}
use share_trip.Context.{Context}
use share_trip.Domain.{Uuid}
use share_trip.World.{World}
use share_trip.Env.{Env}
use share_trip.Service.Trips.{}
use share_trip.Service.Validate.{CreateTripCommand}
use share_trip.Service.Frame.{}
use share_trip.Service.Publishing.Outcome.{request}
use share_trip.Middleware.Keycloak.{
  Keycloak, KeycloakConfig, KeycloakClaims, authenticate, require_client_role,
}
use share_trip.Api.Handlers
use share_trip.Api.Handlers.{CreateTripBody, client_id_from_claims}
use share_trip.Api.Response.{Response}
use share_trip.Api.Routes.{
  Request, get_ready, get_metrics, unmatched, unmatched_trip, post_create, post_publish, post_start,
  get_by_id, serve,
}
use share_trip.Wiring.{server}
use share_trip.App.Operations.{
  http, create_trip-http, get_trip_by_id-http, publish_trip-http, start_trip-http,
}

authenticate-http :
    (k : Keycloak) (cfg : KeycloakConfig) (token : String) (w : World)
    → http (authenticate k cfg token w).1 ≡ http w
unfolding authenticate
authenticate-http k cfg token w = ground arith

module _ (env : Env) (ping : ℕ → Option GoError) (locals : Option KeycloakClaims) where
  create_handler-http :
      (body : Result CreateTripBody) (w : World)
      → http (Handlers.create_trip env (server env ping) locals body w).1 ≡ http w
  unfolding Handlers.create_trip
  create_handler-http body w = elim (Result-cases (client_id_from_claims env locals)) [
    | inr (x, e) ↦ ground arith
    | inl (driver, e) ↦ elim (Result-cases body) [
      | inr (x, f) ↦ ground arith
      | inl (request, f) ↦
          let command : CreateTripCommand = record {
            driver_id = driver;
            from_point = request.from_point;
            to_point = request.to_point;
            departure_time = request.departure_time;
            seats = request.available_seats;
          } in
          let a = create_trip-http env command w in ground arith
    ]
  ]

  publish_handler-http :
      (ctx : Context) (body : Result String) (w : World)
      → http (Handlers.move_trip_draft_to_published env (server env ping) locals ctx body w).1
        ≡ http w
  unfolding Handlers.move_trip_draft_to_published
  publish_handler-http ctx body w = elim (Result-cases (client_id_from_claims env locals)) [
    | inr (x, e) ↦ ground arith
    | inl (client, e) ↦ elim (Result-cases body) [
      | inr (x, f) ↦ ground arith
      | inl (text, f) ↦ elim (Option-cases (env.uuid_parse text)) [
        | inl g ↦ ground arith
        | inr (id, g) ↦
            let a = publish_trip-http env ctx (record { trip_id = id; client_id = client }) w in
            ground arith
      ]
    ]
  ]

  start_handler-http :
      (ctx : Context) (body : Result Uuid) (w : World)
      → http (Handlers.start_trip env (server env ping) locals ctx body w).1 ≡ http w
  unfolding Handlers.start_trip
  start_handler-http ctx body w = elim (Result-cases (client_id_from_claims env locals)) [
    | inr (x, e) ↦ ground arith
    | inl (client, e) ↦ elim (Result-cases body) [
      | inr (x, f) ↦ ground arith
      | inl (id, f) ↦
          let a = start_trip-http env ctx (record { trip_id = id; client_id = client }) w in
          ground arith
    ]
  ]

module _ (env : Env) (ping : ℕ → Option GoError) where
  get_handler-http :
      (param : String) (w : World)
      → http (Handlers.get_trip_by_id env (server env ping) param w).1 ≡ http w
  unfolding Handlers.get_trip_by_id
  get_handler-http param w = elim (Option-cases (env.uuid_parse param)) [
    | inl g ↦ ground arith
    | inr (id, g) ↦ let a = get_trip_by_id-http env id w in ground arith
  ]

  ready-http : (w : World) → http (Handlers.ready (server env ping) w).1 ≡ http w
  unfolding Handlers.ready
  ready-http w = ground arith

module _ (env : Env) (ping : ℕ → Option GoError) (k : Keycloak) (cfg : KeycloakConfig)
    (ctx : Context) (token : String) where
  abbrev pub served : Request → World → Result Response × World
  served = serve env k cfg (server env ping) ctx token

  pub serve-http : (r : Request) (w : World) → http (served r w).1 ≡ http w
  unfolding serve Handlers.metrics_handler
  serve-http get_ready w = ready-http env ping w
  serve-http get_metrics w = refl
  serve-http (unmatched code text) w = refl
  serve-http (unmatched_trip code text) w =
      let a = authenticate-http k cfg token w in
      elim (Result-cases (authenticate k cfg token w).0) [
        | inr (x, e) ↦ ground arith
        | inl (claims, e) ↦ ground arith
      ]
  serve-http (post_create body) w =
      let a = authenticate-http k cfg token w in
      let (r, w₁) = authenticate k cfg token w in
      elim (Result-cases r) [
        | inr (x, e) ↦ ground arith
        | inl (claims, e) ↦
            let b = create_handler-http env ping (some claims) body w₁ in
            elim (Result-cases (require_client_role cfg.client_id "client" (some claims))) [
              | inr (x, f) ↦ ground arith
              | inl (x, f) ↦ ground arith
            ]
      ]
  serve-http (post_publish body) w =
      let a = authenticate-http k cfg token w in
      let (r, w₁) = authenticate k cfg token w in
      elim (Result-cases r) [
        | inr (x, e) ↦ ground arith
        | inl (claims, e) ↦
            let b = publish_handler-http env ping (some claims) ctx body w₁ in ground arith
      ]
  serve-http (post_start body) w =
      let a = authenticate-http k cfg token w in
      let (r, w₁) = authenticate k cfg token w in
      elim (Result-cases r) [
        | inr (x, e) ↦ ground arith
        | inl (claims, e) ↦
            let b = start_handler-http env ping (some claims) ctx body w₁ in ground arith
      ]
  serve-http (get_by_id param) w =
      let a = authenticate-http k cfg token w in
      let (r, w₁) = authenticate k cfg token w in
      elim (Result-cases r) [
        | inr (x, e) ↦ ground arith
        | inl (claims, e) ↦
            let b = get_handler-http env ping param w₁ in
            elim (Result-cases (require_client_role cfg.client_id "client" (some claims))) [
              | inr (x, f) ↦ ground arith
              | inl (x, f) ↦ ground arith
            ]
      ]
