-- ===== src/Api/Changing.antt =====
-- What a handler may change, and for whom: the client whose claims the request carries.
use share_trip.Base.{ℕ, String, ◌≡◌, ◌∙◌, ◌⊎◌, inl, inr, Option, arith, Option-cases, Bool-cases}
use share_trip.GoError.{GoError}
use share_trip.Result.{Result, ok, Result-cases}
use share_trip.Context.{Context, causes}
use share_trip.Domain.{Uuid, Trip}
use share_trip.World.{World, Tables}
use share_trip.Env.{Env}
use share_trip.Lifecycle.Changes.{IsCreated, IsPublished, IsStarted}
use share_trip.Service.Validate.{CreateTripCommand, is_blank}
use share_trip.Service.Trips.{TripCommand, create_trip, publish_trip, start_trip}
use share_trip.Service.Creating.{create_trip_atomic}
use share_trip.Service.Publishing.Outcome.{publish_trip_atomic}
use share_trip.Service.Starting.{start_trip_atomic}
use share_trip.System.Reachable.{get_trip_by_id-tables}
use share_trip.Middleware.Keycloak.{KeycloakClaims}
use share_trip.Api.Handlers
use share_trip.Api.Handlers.{CreateTripBody, client_id_from_claims}
use share_trip.Api.Guarded.{}
use share_trip.Api.Routes.{Request, post_create, post_publish, post_start}
use share_trip.Wiring.{server, trip_service}

-- What a route may change for a client, in a request with the ids `from`.
abbrev pub Changes : Env → String × String → Request → Uuid → Tables → Tables → Type 0
Changes env from (post_create body) client t u =
    (trip : Trip) × IsCreated trip t u × (trip.driver_id ≡ client)
Changes env from (post_publish body) client t u =
    (trip_id : Uuid) × IsPublished env from trip_id client t u
Changes env from (post_start body) client t u = (trip_id : Uuid) × IsStarted trip_id client t u
Changes env from _ client t u = ⊥

module _ (env : Env) (ping : ℕ → Option GoError) (locals : Option KeycloakClaims) where
  -- The tables are as they were, or the client of the claims has changed them.
  abbrev pub ByClient : Context → Request → Tables → Tables → Type 0
  ByClient ctx r t u =
      (u ≡ t)
      ⊎ ((client : Uuid) × (client_id_from_claims env locals ≡ ok client)
          × Changes env (causes ctx) r client t u)

  pub create_handler-ByClient :
      (ctx : Context) (body : Result CreateTripBody) (w : World)
      → ByClient ctx
          (post_create body)
          w.tables
          (Handlers.create_trip env (server env ping) locals body w).1.tables
  unfolding Handlers.create_trip
  create_handler-ByClient ctx body w = elim (Result-cases (client_id_from_claims env locals)) [
    | inr (x, e) ↦ inl (ground arith)
    | inl (driver, e) ↦ elim (Result-cases body) [
      | inr (x, f) ↦ inl (ground arith)
      | inl (request, f) ↦
          let command : CreateTripCommand = record {
            driver_id = driver;
            from_point = request.from_point;
            to_point = request.to_point;
            departure_time = request.departure_time;
            seats = request.available_seats;
          } in
          let same : (Handlers.create_trip env (server env ping) locals body w).1.tables
              ≡ (create_trip env (trip_service env) command w).1.tables =
            ground arith in
          elim (create_trip_atomic env command w) [
            | inl kept ↦ inl (same ∙ kept)
            | inr (trip, created, by_driver) ↦ inr (driver, e, (trip, rw same created, by_driver))
          ]
    ]
  ]

  pub publish_handler-ByClient :
      (ctx : Context) (body : Result String) (w : World)
      → ByClient ctx
          (post_publish body)
          w.tables
          (Handlers.move_trip_draft_to_published env (server env ping) locals ctx body w).1.tables
  unfolding Handlers.move_trip_draft_to_published
  publish_handler-ByClient ctx body w = elim (Result-cases (client_id_from_claims env locals)) [
    | inr (x, e) ↦ inl (ground arith)
    | inl (client, e) ↦ elim (Result-cases body) [
      | inr (x, f) ↦ inl (ground arith)
      | inl (text, f) ↦ elim (Bool-cases (is_blank text)) [
        | inl blank ↦ inl (ground arith)
        | inr filled ↦ elim (Option-cases (env.uuid_parse text)) [
          | inl g ↦ inl (ground arith)
          | inr (id, g) ↦
              let command : TripCommand = record { trip_id = id; client_id = client } in
              let handled =
                Handlers.move_trip_draft_to_published env (server env ping) locals ctx body w in
              let same : handled.1.tables
                  ≡ (publish_trip env (trip_service env) ctx command w).1.tables =
                ground arith in
              elim (publish_trip_atomic env ctx command w) [
                | inl kept ↦ inl (same ∙ kept)
                | inr done ↦ inr (client, e, (id, rw same done))
              ]
        ]
      ]
    ]
  ]

  pub start_handler-ByClient :
      (ctx : Context) (body : Result Uuid) (w : World)
      → ByClient ctx
          (post_start body)
          w.tables
          (Handlers.start_trip env (server env ping) locals ctx body w).1.tables
  unfolding Handlers.start_trip
  start_handler-ByClient ctx body w = elim (Result-cases (client_id_from_claims env locals)) [
    | inr (x, e) ↦ inl (ground arith)
    | inl (client, e) ↦ elim (Result-cases body) [
      | inr (x, f) ↦ inl (ground arith)
      | inl (id, f) ↦
          let command : TripCommand = record { trip_id = id; client_id = client } in
          let same : (Handlers.start_trip env (server env ping) locals ctx body w).1.tables
              ≡ (start_trip env (trip_service env) ctx command w).1.tables =
            ground arith in
          elim (start_trip_atomic env ctx command w) [
            | inl kept ↦ inl (same ∙ kept)
            | inr done ↦ inr (client, e, (id, rw same done))
          ]
    ]
  ]

module _ (env : Env) (ping : ℕ → Option GoError) where
  pub get_handler-tables :
      (param : String) (w : World)
      → (Handlers.get_trip_by_id env (server env ping) param w).1.tables ≡ w.tables
  unfolding Handlers.get_trip_by_id
  get_handler-tables param w = elim (Option-cases (env.uuid_parse param)) [
    | inl g ↦ ground arith
    | inr (id, g) ↦ let a = get_trip_by_id-tables env id w in ground arith
  ]

  pub ready-tables : (w : World) → (Handlers.ready (server env ping) w).1.tables ≡ w.tables
  unfolding Handlers.ready
  ready-tables w = ground arith
