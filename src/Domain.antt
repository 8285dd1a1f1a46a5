-- ===== src/Domain.antt =====
-- The data of internal/domain: trips, their status and its change by `Start`, the outbox event and
-- the message that it carries.
pub mod Usecase
use share_trip.Base.{ℕ, String, Bool, true, false, Option, ite}
use share_trip.Base.Int.{ℤ}
use share_trip.Result.{Result, ok, err}
use share_trip.GoError.{sentinel, conflict}

-- A UUID is the 128-bit number that it spells; `uuid.Nil` is zero.
abbrev pub Uuid : Type 0
Uuid = ℕ

abbrev pub nil_uuid : Uuid
nil_uuid = 0

-- An instant is a signed number of nanoseconds from Go's zero time.
abbrev pub Time : Type 0
Time = ℤ

-- The values of the column type `trip_status`. The program names the first three.
pub data TripStatus : Type 0 where
  draft published started : TripStatus
  partially_filled full cancelled completed : TripStatus

unfoldable pub TripStatus-discrete : Discrete TripStatus
TripStatus-discrete = hlevel

infix 50 ◌is◌
abbrev pub ◌is◌ : TripStatus → TripStatus → Bool
s is t = ite (TripStatus-discrete s t) true false

unfoldable pub status_text : TripStatus → String
status_text draft = "draft"
status_text published = "published"
status_text started = "started"
status_text partially_filled = "partially_filled"
status_text full = "full"
status_text cancelled = "cancelled"
status_text completed = "completed"

pub record Trip : Type 0 where
  pub id : Uuid
  pub driver_id : Uuid
  pub from_point : String
  pub to_point : String
  pub departure_time : Time
  pub seats : ℤ
  pub status : TripStatus
  pub created_at : Time
  pub updated_at : Time

-- `Trip.Start`: the trip that the method leaves, or its error.
unfoldable pub start : Trip → Result Trip
start t = elim (t.status is published) [
  | false ↦ err (sentinel conflict)
  | true ↦ ok (record t { status = started })
]

pub record OutboxEvent : Type 0 where
  pub id : Uuid
  pub aggregate_type : String
  pub aggregate_id : Uuid
  pub event_type : String
  pub payload : String
  pub status : String
  pub attempts : ℕ
  pub last_error : Option String
  pub created_at : Time
  pub sent_at : Option Time

abbrev pub event_type_trip_published : String
event_type_trip_published = "TripPublished"

pub record TripPublished : Type 0 where
  pub event_id : String
  pub event_type : String
  pub correlation_id : String
  pub causation_id : String
  pub trace_parent : String
  pub trip_id : String
  pub driver_id : String
  pub company_id : String
  pub occurred_at : Time

pub record CreateTripRequest : Type 0 where
  pub driver_id : Uuid
  pub from_point : String
  pub to_point : String
  pub departure_time : Time
  pub seats : ℤ

pub record PublishTripRequest : Type 0 where
  pub trip_id : Uuid
  pub client_id : Uuid
