-- ===== src/Repository/Statement.antt =====
-- How a statement runs, and `observeQuery`.
use share_trip.Base.{String, none, some, ◌∷◌, [], true, false}
use share_trip.GoError.{sentinel, message, annotated, is_error, no_rows, trip_not_found}
use share_trip.Result.{Result, ok, err}
use share_trip.Domain.{Uuid, Time}
use share_trip.Metrics.{result_success, result_not_found, result_internal_error}
use share_trip.World.{World, Tables, Action, set_metrics, set_tables, next}
use share_trip.Env.{Env}

-- A statement reads `NOW()` and one random id, and gives its rows and the tables after it.
abbrev pub Statement : Type 0 → Type 0
Statement A = Time → Uuid → Tables → Result A × Tables

unfoldable pub execute : Env → {A : Type 0} → Statement A → Action A
execute env s w = elim (env.fault w.tick) [
  | some e ↦ (err (message e), next w)
  | none ↦
      let (r, t) = s w.tx_time (env.gen_random_uuid w.tick) w.tables in (r, set_tables (next w) t)
]

-- `observeQuery`: one increment and one observation.
unfoldable pub observe_query : String → String → World → World
observe_query operation result w =
    let labels = operation ∷ result ∷ [] in
    set_metrics w (record w.metrics {
      repository_query_total = labels ∷ w.metrics.repository_query_total;
      repository_query_duration = labels ∷ w.metrics.repository_query_duration;
    })

-- The deferred `observeQuery` of the methods that report every error as internal.
unfoldable pub observed : {A : Type 0} → String → Action A → Action A
unfolding observe_query
observed operation m w =
    let (r, w') = m w in
    elim r [
      | ok a ↦ (ok a, observe_query operation result_success w')
      | err e ↦ (err e, observe_query operation result_internal_error w')
    ]

-- The methods that read one row: `ErrNoRows` becomes `ErrTripNotFound`.
unfoldable pub observed_row : {A : Type 0} → String → String → Action A → Action A
unfolding observe_query
observed_row operation what m w =
    let (r, w') = m w in
    elim r [
      | ok a ↦ (ok a, observe_query operation result_success w')
      | err e ↦ elim (is_error e no_rows) [
        | true ↦ (err (sentinel trip_not_found), observe_query operation result_not_found w')
        | false ↦ (err (annotated what e), observe_query operation result_internal_error w')
      ]
    ]
