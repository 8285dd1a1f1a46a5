-- ===== src/Lib.antt =====
-- A model of the service ShareTrip: drivers create trips, publish them and start them; every
-- publication puts an event into an outbox table, from which a publisher sends it to Kafka.
--
-- Paths are those of the repository.
--
-- The state (World.antt) is the tables of PostgreSQL, Kafka's topic, the metrics, the start of the
-- current transaction and a count of round trips. An operation is an `Action`, a function from the
-- world to a Go result and a world. Env.antt has what the program calls and does not implement, as
-- functions of the number of the round trip: the clock, the database's faults and random ids, the
-- ends of transactions, Kafka, the contract service, UUID and JSON texts. The theorems hold for all
-- their behaviours unless a hypothesis says otherwise.
--
-- Domain.antt, Domain/Usecase.antt: internal/domain. Trips and their status, `Trip.Start`, the use
--   cases `CreateTrip` and `PublishTrip`, over records of repository methods.
-- GoError.antt, Result.antt: error values with `errors.Is` and `errors.As`; internal/domain/errors.go.
-- Context.antt, Metrics.antt: internal/observability/logctx and metrics.
-- Repository.antt: internal/repository. Each SQL statement is a function on the tables
--   (Repository/Trips.antt, Repository/Outbox.antt), each method that function with its error
--   handling and metrics (Repository/Statement.antt). Effects, Lookup, Reliable and Selection are
--   lemmas on them.
-- Service.antt: internal/service. Service/Transaction.antt has `tx` and pgx's `BeginFunc`,
--   Service/Validate.antt `validateCreateTripCommand`, Service/Trips.antt the operations of
--   `TripService`. Atomic, Creating, Publishing, Starting and Counting are theorems on them.
-- Lifecycle.antt: the specification. Lifecycle/Changes.antt says what a creation, a publication and
--   a start change, Lifecycle/Rows.antt which rows they leave, Lifecycle/Consistency.antt the
--   invariant of the tables.
-- Contract.antt: internal/contractclient, `CheckService`, and the settings of `New`.
-- Events.antt: internal/events, `publishBatch`, `Run` and the producer. Events/Publishers.antt: several
--   publishers at the same time, turn by turn, where `SKIP LOCKED` passes over held rows.
-- Middleware.antt: internal/middleware. Api.antt: internal/api, the handlers (Api/Handlers.antt) and
--   the routes with their middleware (Api/Routes.antt). Api/RoundTrip.antt and
--   Api/Journey.antt have sequences of requests, Api/Authorized.antt who may change what.
-- Config.antt: internal/config, `Load` and `Env`. Db.antt: internal/db and the `DSN` of the
--   configuration, byte by byte (Db/Url.antt has the escapes of net/url).
-- Wiring.antt: cmd/sharetrip/main.go, which implementation stands behind which interface.
-- App.antt: a request through all of the middleware that main.go puts before the routes;
--   App/Serving.antt has runs of requests and batches.
-- Process.antt: cmd/sharetrip/main.go, internal/observability's `NewLogger` and
--   tracing's `NewProvider`: the order of starts, and what is closed at the end.
-- System.antt: runs of the whole, as sequences of calls and batches. Lifecycle/Transition.antt is
--   what one of them may do to the tables.
-- Concurrent.antt: requests that run at the same time, as steps of sessions on the same tables.
-- Cluster.antt: all of it at the same time, any number of processes with their requests and their
--   publishers on one database and one topic. Lifecycle/View.antt is the abstract service, in which a
--   trip is nothing but its status. Cluster/Eventually.antt lets such a run go on where nothing fails.
-- Tests.antt: runs on concrete values, and the theorems at concrete inputs.
--
-- Numbers. Trips' seats and the numbers of the configuration are signed; `strconv.Atoi` and the
-- product that makes the timeout have 64 bits, an `INT` of PostgreSQL has 32. A UUID is the number
-- that it spells, an instant a number of nanoseconds. The one function on fuel writes a number in
-- digits: it starts with the number plus one, and a number has no more digits than that.
--
-- Transactions. A `COMMIT` is done, refused, or done with its answer lost. pgx's `BeginFunc` rolls
-- back if its block returns an error and commits otherwise, as it documents. Concurrent.antt cuts the
-- transactions that change a trip at the row lock of `FOR UPDATE`: a session reads the row when
-- nobody holds it, and ends by a commit or a rollback; any number of sessions take turns.
--
-- Not modelled: log lines, spans and the trace-id header; measured durations, and the names, buckets
-- and registration of the metrics; timeouts and cancellation within a call; the text that JSONB makes
-- of a payload; resty's loop of retries; Fiber's routing and parsing; the set-up of the exporter and
-- of the log handler.
--
-- Simplified: what TIMESTAMPTZ makes of a departure time is the parameter `timestamptz`, while the
-- database's own clock gives times that a column holds. Texts come from JSON, so they are valid
-- UTF-8. Pending events of the same `created_at` are taken as they were inserted, an order that
-- PostgreSQL leaves open. A message that the broker has written but whose acknowledgement is lost
-- does not join the modelled topic, which is the list of acknowledged messages. The error of
-- `http.NewRequest` is part of the exchange with Keycloak. The texts of strconv's errors are the
-- model's own. An event's `attempts` is a number without the bound of its `INT` column.
pub mod Base
pub mod GoError
pub mod Result
pub mod Domain
pub mod Context
pub mod Metrics
pub mod World
pub mod Env
pub mod Repository
pub mod Service
pub mod Contract
pub mod Events
pub mod Wiring
pub mod Lifecycle
pub mod System
pub mod Concurrent
pub mod Cluster
pub mod Middleware
pub mod Api
pub mod App
pub mod Config
pub mod Db
pub mod Process
pub mod Tests
