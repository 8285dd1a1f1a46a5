-- ===== src/Api/Response.antt =====
-- write_fiber_service_error.go, new_create_trip_response.go and new_get_trip_by_id_response.go.
use share_trip.Base.{ℕ, String, if◌then◌else◌}
use share_trip.Base.Int.{ℤ}
use share_trip.GoError.{
  GoError, is_error, error_text, unavailable, invalid_response, validation, trip_not_found,
  forbidden, conflict,
}
use share_trip.Domain.{Uuid, Time, TripStatus, Trip}

pub record CreateTripResponse : Type 0 where
  pub id : Uuid
  pub driver_id : Uuid
  pub from_point : String
  pub to_point : String
  pub departure_time : Time
  pub available_seats : ℤ
  pub status : TripStatus
  pub created_at : Time
  pub updated_at : Time

pub record GetTripByIdResponse : Type 0 where
  pub id : Uuid
  pub driver_id : Uuid
  pub from_point : String
  pub to_point : String
  pub departure_time : Time
  pub available_seats : ℤ
  pub status : TripStatus
  pub created_at : Time
  pub updated_at : Time

-- Of `POST /trip/publish`; `POST /trip/start` answers a map of the same shape.
pub record TripIdResponse : Type 0 where
  pub trip_id : Uuid

pub data Body : Type 0 where
  no_body : Body
  error_response : (code message : String) → Body
  created_trip : CreateTripResponse → Body
  found_trip : GetTripByIdResponse → Body
  trip_id_response : TripIdResponse → Body
  metrics_text : String → Body

pub record Response : Type 0 where
  pub status_code : ℕ
  pub body : Body

abbrev pub respond : ℕ → Body → Response
respond status body = record { status_code = status; body = body }

abbrev pub respond_error : ℕ → String → String → Response
respond_error status code text = respond status (error_response code text)

unfoldable pub new_create_trip_response : Trip → CreateTripResponse
new_create_trip_response trip = record {
  id = trip.id;
  driver_id = trip.driver_id;
  from_point = trip.from_point;
  to_point = trip.to_point;
  departure_time = trip.departure_time;
  available_seats = trip.seats;
  status = trip.status;
  created_at = trip.created_at;
  updated_at = trip.updated_at;
}

unfoldable pub new_get_trip_by_id_response : Trip → GetTripByIdResponse
new_get_trip_by_id_response trip = record {
  id = trip.id;
  driver_id = trip.driver_id;
  from_point = trip.from_point;
  to_point = trip.to_point;
  departure_time = trip.departure_time;
  available_seats = trip.seats;
  status = trip.status;
  created_at = trip.created_at;
  updated_at = trip.updated_at;
}

unfoldable pub write_fiber_service_error : GoError → Response
write_fiber_service_error e =
    if is_error e unavailable
    then respond_error 503 "CONTRACT_SERVICE_UNAVAILABLE" "cannot verify company permissions"
    else if is_error e invalid_response
    then respond_error 502 "CONTRACT_SERVICE_INVALID_RESPONSE" "invalid contract service response"
    else if is_error e validation
    then respond_error 400 "VALIDATION_ERROR" (error_text e)
    else if is_error e trip_not_found
    then respond_error 404 "NOT_FOUND" "trip not found"
    else if is_error e forbidden
    then respond_error 403 "FORBIDDEN" "forbidden"
    else if is_error e conflict
    then respond_error 409 "CONFLICT" "invalid trip status"
    else respond_error 500 "INTERNAL_ERROR" "internal server error"
