-- ===== src/Tests/Setup.antt =====
-- Services that answer, a driver's draft, and a queue of events.
use share_trip.Base.{ℕ, ◌+◌, String, ◌<>◌, true, false, none, some, List, [], ◌∷◌}
use share_trip.Base.Int.{pos}
use share_trip.Base.Text.{itoa, split}
use share_trip.GoError.{message}
use share_trip.Result.{Result, ok, err}
use share_trip.Context.{Context}
use share_trip.Metrics.{new_metrics}
use share_trip.Domain.{Trip, TripStatus, draft, OutboxEvent, TripPublished}
use share_trip.World.{World, Tables}
use share_trip.Env.{Env, CheckResponse, answered, committed}
use share_trip.Config.{number}
use share_trip.Service.Trips.{TripCommand}
use share_trip.Middleware.Keycloak.{KeycloakClaims}

abbrev pub decoded : List String → Result TripPublished
decoded (event_id ∷ trip_id ∷ []) = ok (record {
  event_id = event_id;
  event_type = "TripPublished";
  correlation_id = "";
  causation_id = "";
  trace_parent = "";
  trip_id = trip_id;
  driver_id = "7";
  company_id = "7";
  occurred_at = pos 0;
})
decoded _ = err (message "unexpected end of JSON input")

-- Texts stand for numbers by their digits, and a message is written as its two ids.
abbrev pub answering : CheckResponse → Env
answering response = record {
  uuid_text = itoa;
  uuid_parse = number;
  uuid_new_sha1 = λ id name. 1000 + id;
  marshal_event = λ d. ok (d.event_id <> ("," <> d.trip_id));
  unmarshal_event = λ s. decoded (split b',' s);
  now = λ n. pos n;
  gen_random_uuid = λ n. 500 + n;
  fault = λ n. none;
  while_reading = λ n. false;
  commit = λ n. committed;
  timestamptz = λ t. t;
  write_messages = λ n m. none;
  post = λ n request. answered response;
  expose = λ m. record { status_code = 200; text = itoa m.outbox_pending };
}

abbrev pub allowing : CheckResponse
allowing = record { status_code = 200; body = some (some true, some "") }

abbrev pub env : Env
env = answering allowing

-- A contract service that is overloaded.
abbrev pub overloaded : CheckResponse
overloaded = record { status_code = 503; body = none }

abbrev pub context : Context
context = record {
  request_id_value = some "r";
  correlation_id_value = some "c";
  trip_id_value = none;
  trace_parent = "";
  span_trace_id = none;
  logger_value = none;
}

abbrev pub trip_in : TripStatus → Trip
trip_in status = record {
  id = 1;
  driver_id = 7;
  from_point = "A";
  to_point = "B";
  departure_time = pos 900;
  seats = pos 3;
  status = status;
  created_at = pos 0;
  updated_at = pos 0;
}

abbrev pub tables_with : TripStatus → Tables
tables_with status = record {
  trips = trip_in status ∷ [];
  history = record { trip_id = 1; from_status = none; to_status = draft } ∷ [];
  outbox = [];
}

abbrev pub world : Tables → World
world tables = record {
  tables = tables;
  tick = 0;
  tx_time = pos 0;
  metrics = new_metrics;
  topic = [];
}

abbrev pub drafted : World
drafted = world (tables_with draft)

-- Driver 7 and trip 1.
abbrev pub command : TripCommand
command = record { trip_id = 1; client_id = 7 }

abbrev pub claims : KeycloakClaims
claims = record {
  subject = "7";
  preferred_username = "driver";
  email = "";
  authorized_party = "";
  resource_access = ("sharetrip-api", "client" ∷ []) ∷ [];
}

-- Two events, the younger one first, of which the older does not decode.
abbrev pub event : ℕ → String → ℕ → OutboxEvent
event id payload created = record {
  id = id;
  aggregate_type = "trip";
  aggregate_id = 1;
  event_type = "TripPublished";
  payload = payload;
  status = "pending";
  attempts = 0;
  last_error = none;
  created_at = pos created;
  sent_at = none;
}

abbrev pub queue : List OutboxEvent
queue = event 1002 "1002,2" 5 ∷ event 1001 "{" 3 ∷ []

abbrev pub queued : List OutboxEvent → World
queued outbox = world (record { trips = []; history = []; outbox = outbox })
