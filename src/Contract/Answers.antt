-- ===== src/Contract/Answers.antt =====
-- What the service learns from an answer of the contract service.
use share_trip.Base.{
  ℕ, ◌≤◌, Bool, true, false, ◌≡◌, ◌⊎◌, inl, inr, none, arith, ◌==◌, leb, ◌||◌, if◌then◌else◌,
}
use share_trip.GoError.{GoError, Sentinel-discrete, is_error, unavailable, trip_already_published}
use share_trip.Result.{Result, ok, err}
use share_trip.Env.{CheckResponse, Posted, answered, transport_failed}
use share_trip.Service.Trips.{CheckResult}
use share_trip.Contract.{read_response, outcome, should_retry}
use share_trip.Api.Response.{write_fiber_service_error}

-- The status that a client gets for an answer that gives no result: 503 when no answer came or the
-- service was overloaded or failing, 502 when its answer made no sense.
abbrev pub failure_status : Posted → ℕ
failure_status (transport_failed text) = 503
failure_status (answered resp) =
    if resp.status_code == 429 || leb 500 resp.status_code then 503 else 502

pub outcome-failure_status :
    (posted : Posted) {e : GoError}
    → outcome posted ≡ err e
    → ((write_fiber_service_error e).status_code ≡ failure_status posted)
      × (is_error e trip_already_published ≡ false)
unfolding read_response write_fiber_service_error Sentinel-discrete
outcome-failure_status (transport_failed text) h = ground arith
outcome-failure_status (answered resp) h = ground arith

abbrev pub is_unavailable : Result CheckResult → Bool
is_unavailable (ok result) = false
is_unavailable (err e) = is_error e unavailable

-- A status on which the client tries again is reported as unavailable if it stays, and so is every
-- status from 500.
pub should_retry-unavailable :
    (resp : CheckResponse)
    → (should_retry none resp.status_code ≡ true) ⊎ (500 ≤ resp.status_code)
    → is_unavailable (read_response resp) ≡ true
unfolding should_retry read_response Sentinel-discrete
should_retry-unavailable resp (inl h) = ground arith
should_retry-unavailable resp (inr h) = ground arith
