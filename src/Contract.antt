-- ===== src/Contract.antt =====
-- internal/contractclient: the check of a service code, and the condition on which a request is
-- made again.
pub mod Answers
use share_trip.Base.{
  ℕ, ◌*◌, String, ◌<>◌, Bool, true, false, not, ◌||◌, Option, none, some, [], ◌∷◌, ◌==◌, leb,
  if◌then◌else◌,
}
use share_trip.Base.Text.{itoa}
use share_trip.Base.Int.{ℤ}
use share_trip.Config.{to_ℕ, millisecond}
use share_trip.GoError.{
  GoError, sentinel, message, detailed, chained, unavailable, invalid_response,
}
use share_trip.Result.{Result, ok, err}
use share_trip.Context.{Context, request_id, correlation_id, trip_id}
use share_trip.Metrics.{result_success, result_error}
use share_trip.World.{World, Action, set_metrics, next}
use share_trip.Env.{Env, CheckRequest, CheckResponse, Posted, answered, transport_failed}
use share_trip.Service.Trips.{CheckResult, ContractChecker}

-- The request that `CheckService` builds.
unfoldable pub check_request : Context → String → String → CheckRequest
check_request ctx company_id service_code = record {
  client_id = company_id;
  service_code = service_code;
  request_id = request_id ctx;
  correlation_id = correlation_id ctx;
  trip_id = trip_id ctx;
  trace_parent = ctx.trace_parent;
}

abbrev read_body : Option (Option Bool × Option String) → Result CheckResult
read_body none = err (sentinel invalid_response)
read_body (some (none, reason)) = err (sentinel invalid_response)
read_body (some (some allowed, none)) = err (sentinel invalid_response)
read_body (some (some allowed, some reason)) = ok (record { allowed = allowed; reason = reason })

-- The tests on a response, in their order.
unfoldable pub read_response : CheckResponse → Result CheckResult
read_response resp =
    if resp.status_code == 429 || leb 500 resp.status_code
    then err (detailed (sentinel unavailable) ("HTTP " <> itoa resp.status_code))
    else if not (resp.status_code == 200)
    then err (detailed (sentinel invalid_response) ("HTTP " <> itoa resp.status_code))
    else read_body resp.body

abbrev pub outcome : Posted → Result CheckResult
outcome (transport_failed text) = err (chained (sentinel unavailable) (message text))
outcome (answered resp) = read_response resp

abbrev result_label : Result CheckResult → String
result_label (ok _) = result_success
result_label (err _) = result_error

unfoldable pub observe_contract : String → World → World
observe_contract result w = set_metrics w (record w.metrics {
  contract_request_total = (result ∷ []) ∷ w.metrics.contract_request_total;
  contract_request_duration = (result ∷ []) ∷ w.metrics.contract_request_duration;
})

unfoldable pub check_service : Env → Context → String → String → Action CheckResult
unfolding check_request read_response observe_contract
check_service env ctx company_id service_code w =
    let r = outcome (env.post w.tick (check_request ctx company_id service_code)) in
    (r, observe_contract (result_label r) (next w))

-- `Client` as the service's `ContractChecker`.
abbrev pub client : Env → ContractChecker
client env = record { check_service = check_service env }

-- What the retry condition tells apart of an error.
pub data TransportError : Type 0 where
  net_error eof unexpected_eof other : TransportError

-- The condition that `New` adds: on an error, or on the status of a response.
unfoldable pub should_retry : Option TransportError → ℕ → Bool
should_retry (some net_error) code = true
should_retry (some eof) code = true
should_retry (some unexpected_eof) code = true
should_retry (some other) code = false
should_retry none code = code == 429 || (code == 502 || (code == 503 || code == 504))

-- What `New` tells resty, in nanoseconds. Redirects are answered as they come.
pub record ClientSettings : Type 0 where
  pub base_url : String
  pub timeout : ℤ
  pub retry_count : ℕ
  pub retry_wait_time : ℕ
  pub retry_max_wait_time : ℕ
  pub retry_condition : Option TransportError → ℕ → Bool

-- `New`
unfoldable pub new_client : String → ℤ → ℤ → ClientSettings
new_client base_url timeout retry_count = record {
  base_url = base_url;
  timeout = timeout;
  retry_count = to_ℕ retry_count;
  retry_wait_time = 200 * millisecond;
  retry_max_wait_time = 1000 * millisecond;
  retry_condition = should_retry;
}
