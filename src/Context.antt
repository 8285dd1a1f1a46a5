-- ===== src/Context.antt =====
-- internal/observability/logctx/logctx.go: the values that a request's context carries. What the
-- tracing library keeps there is two more of them: the text that it injects as `traceparent`, and the
-- trace id of a valid span. A logger is the list of the attributes that it adds to each of its lines.
use share_trip.Base.{String, Option, none, some, List}

abbrev pub Logger : Type 0
Logger = List (String × String)

pub record Context : Type 0 where
  pub request_id_value : Option String
  pub correlation_id_value : Option String
  pub trip_id_value : Option String
  pub trace_parent : String
  pub span_trace_id : Option String
  pub logger_value : Option Logger

abbrev pub with_logger : Context → Logger → Context
with_logger ctx l = record ctx { logger_value = some l }

abbrev logger_or : Logger → Option Logger → Logger
logger_or default none = default
logger_or default (some l) = l

-- `slog.Default()` where the context has no logger.
abbrev pub logger : (default : Logger) → Context → Logger
logger default ctx = logger_or default ctx.logger_value

abbrev value_or_empty : Option String → String
value_or_empty none = ""
value_or_empty (some v) = v

abbrev pub with_request_id : Context → String → Context
with_request_id ctx v = record ctx { request_id_value = some v }

abbrev pub request_id : Context → String
request_id ctx = value_or_empty ctx.request_id_value

abbrev pub with_correlation_id : Context → String → Context
with_correlation_id ctx v = record ctx { correlation_id_value = some v }

abbrev pub correlation_id : Context → String
correlation_id ctx = value_or_empty ctx.correlation_id_value

abbrev pub with_trip_id : Context → String → Context
with_trip_id ctx v = record ctx { trip_id_value = some v }

abbrev pub trip_id : Context → String
trip_id ctx = value_or_empty ctx.trip_id_value

-- What a message tells of the request that caused it: its id and its correlation id.
abbrev pub causes : Context → String × String
causes ctx = (request_id ctx, correlation_id ctx)
