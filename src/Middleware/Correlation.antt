-- ===== src/Middleware/Correlation.antt =====
-- correlation.go and http_metrics.go.
use share_trip.Base.{ℕ, String, Bool, ◌||◌, Option, none, some, [], ◌∷◌, ◌++◌, if◌then◌else◌}
use share_trip.Base.Text.{is_empty, itoa}
use share_trip.GoError.{GoError, as_fiber_error}
use share_trip.Context.{Logger, Context, with_request_id, with_correlation_id, with_logger}
use share_trip.World.{World, set_metrics}

-- The two headers of the response.
pub record Ids : Type 0 where
  pub request_id : String
  pub correlation_id : String

-- The ids from the request's headers, and `uuid.NewString()` for a request without one.
unfoldable pub choose_ids : String → String → String → Ids
choose_ids fresh request_header correlation_header =
    let request = if is_empty request_header then fresh else request_header in
    record {
      request_id = request;
      correlation_id = if is_empty correlation_header then request else correlation_header;
    }

-- The trace id, if the context has a valid span.
abbrev pub trace_attributes : Option String → Logger
trace_attributes none = []
trace_attributes (some id) = ("trace_id", id) ∷ []

-- The logger of a request: the base logger with the request's ids, method, path and trace.
unfoldable pub request_logger : Logger → Ids → (method path : String) → Option String → Logger
request_logger base ids method path trace_id =
    (base
      ++ (("request_id", ids.request_id)
          ∷ ("correlation_id", ids.correlation_id)
          ∷ ("method", method)
          ∷ ("path", path)
          ∷ []))
    ++ trace_attributes trace_id

-- The strings that `Correlation` reads of a request: `fresh` is what `uuid.NewString()` would give.
pub record Received : Type 0 where
  pub method : String
  pub path : String
  pub fresh : String
  pub request_id_header : String
  pub correlation_id_header : String

-- `Correlation`: the response's headers and the context of the next handler.
unfoldable pub correlation : Logger → Received → Context → Ids × Context
unfolding choose_ids request_logger
correlation base r ctx =
    let ids = choose_ids r.fresh r.request_id_header r.correlation_id_header in
    (
      ids,
      with_logger (with_correlation_id (with_request_id ctx ids.request_id) ids.correlation_id)
          (request_logger base ids r.method r.path ctx.span_trace_id),
    )

-- The code that the metrics report: the response's, unless the handlers return an error.
unfoldable pub metric_status : ℕ → Option GoError → ℕ
metric_status response none = response
metric_status response (some e) = elim (as_fiber_error e) [ some code ↦ code | none ↦ 500 ]

-- `unmatched` where no route but the middleware's own has been reached.
unfoldable pub metric_path : String → Bool → String
metric_path path own_route = if is_empty path || own_route then "unmatched" else path

unfoldable pub observe_http : String → String → ℕ → World → World
observe_http method path status w =
    let labels = method ∷ path ∷ itoa status ∷ [] in
    set_metrics w (record w.metrics {
      http_request_total = labels ∷ w.metrics.http_request_total;
      http_request_duration = labels ∷ w.metrics.http_request_duration;
    })
