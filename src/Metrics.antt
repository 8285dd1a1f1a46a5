-- ===== src/Metrics.antt =====
-- internal/observability/metrics/metrics.go: the labels and the collectors. A counter or histogram
-- with labels is the list of its increments or observations, latest first; measured durations are
-- left out, so a histogram says how often it observed under which labels.
use share_trip.Base.{ℕ, String, List, []}

abbrev pub Labels : Type 0
Labels = List String

abbrev pub Vec : Type 0
Vec = List Labels

abbrev pub result_success : String
result_success = "success"

abbrev pub result_error : String
result_error = "error"

abbrev pub result_validation_error : String
result_validation_error = "validation_error"

abbrev pub result_not_found : String
result_not_found = "not_found"

abbrev pub result_forbidden : String
result_forbidden = "forbidden"

abbrev pub result_conflict : String
result_conflict = "conflict"

abbrev pub result_already_published : String
result_already_published = "already_published"

abbrev pub result_internal_error : String
result_internal_error = "internal_error"

abbrev pub operation_trip_create : String
operation_trip_create = "trip_create"

abbrev pub operation_trip_get_for_update_by_id : String
operation_trip_get_for_update_by_id = "trip_get_for_update_by_id"

abbrev pub operation_trip_update : String
operation_trip_update = "trip_update"

abbrev pub operation_outbox_event_create : String
operation_outbox_event_create = "outbox_event_create"

abbrev pub operation_trip_get_by_id : String
operation_trip_get_by_id = "trip_get_by_id"

pub record Metrics : Type 0 where
  pub http_request_total : Vec
  pub http_request_duration : Vec
  pub trip_create_total : Vec
  pub trip_create_duration : Vec
  pub trip_publish_total : Vec
  pub trip_publish_duration : Vec
  pub repository_query_total : Vec
  pub repository_query_duration : Vec
  pub contract_request_total : Vec
  pub contract_request_duration : Vec
  pub outbox_pending : ℕ
  pub outbox_publish_total : Vec
  pub outbox_publish_failed : ℕ

-- `New`
abbrev pub new_metrics : Metrics
new_metrics = record {
  http_request_total = [];
  http_request_duration = [];
  trip_create_total = [];
  trip_create_duration = [];
  trip_publish_total = [];
  trip_publish_duration = [];
  repository_query_total = [];
  repository_query_duration = [];
  contract_request_total = [];
  contract_request_duration = [];
  outbox_pending = 0;
  outbox_publish_total = [];
  outbox_publish_failed = 0;
}
