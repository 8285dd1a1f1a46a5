-- ===== src/Process.antt =====
-- cmd/sharetrip/main.go, with observability/logger.go and tracing/tracing.go: how the process starts,
-- what it holds, and how it ends.
pub mod Shutdown
pub mod Settings
use share_trip.Base.{ℕ, String, ◌<>◌, Option, none, some, List, [], ◌∷◌, ◌++◌}
use share_trip.Base.Text.{split}
use share_trip.GoError.{GoError, message, annotated, error_text}
use share_trip.Result.{Result, ok, err}
use share_trip.Config.{Environment, Config, load}
use share_trip.Contract.{ClientSettings, new_client}
use share_trip.Db.{Driver, PoolConfig, dsn, new_pool}
use share_trip.Middleware.Keycloak.{KeycloakConfig}

-- What `main` closes when it ends, in the order of opening.
pub data Resource : Type 0 where
  log_file tracer pool producer publisher : Resource

-- What the process does to the outside. `set_default` is the default logger, `set_tracing` the
-- global tracer and propagator.
pub data Effect : Type 0 where
  opened closed : Resource → Effect
  set_default set_tracing : Effect
  call_listen : String → Effect

-- `main` has returned, or `log.Fatal` or `os.Exit(1)` has ended the process.
pub data Ending : Type 0 where
  returned : Ending
  fatal : String → Ending
  exited : Ending

-- The answers of the operating system and of the libraries: an error, or none. `listen` is what
-- `app.Listen` comes to when it ends.
pub record Host : Type 0 where
  pub make_logs : Option String
  pub open_log : Option String
  pub exporter : String → Option String
  pub resource : Option String
  pub driver : Driver
  pub listen : String → Option String

abbrev pub Run : Type 0
Run = Ending × List Effect

-- A deferred function runs when `main` returns, and not when the process is ended before.
abbrev pub with_deferred : Resource → Run → Run
with_deferred r (returned, effects) = (returned, effects ++ (closed r ∷ []))
with_deferred r (fatal text, effects) = (fatal text, effects)
with_deferred r (exited, effects) = (exited, effects)

abbrev pub after : List Effect → Run → Run
after before (ending, effects) = (ending, before ++ effects)

-- A resource is opened, its closing is deferred, and `main` goes on.
abbrev pub holding : Resource → Run → Run
holding r rest = after (opened r ∷ []) (with_deferred r rest)

-- `NewLogger`
unfoldable pub new_logger : Host → Result (Unit {0})
new_logger host = elim host.make_logs [
  | some e ↦ err (message e)
  | none ↦ elim host.open_log [ some e ↦ err (message e) | none ↦ ok tt ]
]

-- `tracing.NewProvider`
unfoldable pub new_provider : Host → String → Result (Unit {0})
new_provider host endpoint = elim (host.exporter endpoint) [
  | some e ↦ err (annotated "create otlp exporter" (message e))
  | none ↦ elim host.resource [
    | some e ↦ err (annotated "create resource" (message e))
    | none ↦ ok tt
  ]
]

-- The brokers of `NewProducer`.
unfoldable pub brokers : Config → List String
brokers cfg = split b',' cfg.kafka_brokers

-- The client of the contract service.
abbrev pub contracts : Config → ClientSettings
contracts cfg = new_client cfg.contract_service_url cfg.request_timeout cfg.retry_attempts

-- The configuration of the Keycloak middleware.
abbrev pub keycloak_config : Config → KeycloakConfig
keycloak_config cfg = record {
  issuer = cfg.keycloak_issuer;
  client_id = cfg.keycloak_client_id;
  client_secret = cfg.keycloak_client_secret;
}

-- `main` once the pool is there: the producer, the publisher, and `app.Listen`.
unfoldable pub serve_until : Host → Config → Run
serve_until host cfg = holding producer (
    holding publisher (
      after (call_listen cfg.http_addr ∷ [])
        (elim (host.listen cfg.http_addr) [ some e ↦ (fatal e, []) | none ↦ (returned, []) ])))

unfoldable pub main : Host → Environment → Run
unfolding new_logger new_provider serve_until
main host getenv = elim (load getenv) [
  | err e ↦ (fatal (error_text e), [])
  | ok cfg ↦ elim (new_logger host) [
    | err e ↦ (fatal (error_text e), [])
    | ok _ ↦ holding log_file (
        after (set_default ∷ []) (elim (new_provider host "localhost:4319") [
          | err e ↦ (exited, [])
          | ok _ ↦ holding tracer (
              after (set_tracing ∷ []) (elim (new_pool host.driver (dsn cfg.database)) [
                | err e ↦ (fatal (error_text e), [])
                | ok _ ↦ holding pool (serve_until host cfg)
              ]))
        ]))
  ]
]
