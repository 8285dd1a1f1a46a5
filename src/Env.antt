-- ===== src/Env.antt =====
-- What the program calls and does not implement. The n-th round trip of a run asks for the n-th
-- answer of a service, so a value of `Env` fixes how every outside party behaves, failures included.
use share_trip.Base.{ℕ, Bool, String, Option}
use share_trip.Result.{Result, ok}
use share_trip.Domain.{Uuid, Time, TripPublished}
use share_trip.Metrics.{Metrics}
use share_trip.World.{Message, Action, next}

-- How a `COMMIT` ends: done, refused with nothing done, or done with the answer lost on the way.
pub data Commit : Type 0 where
  committed : Commit
  refused : String → Commit
  answer_lost : String → Commit

-- The body and the headers of a contract check.
pub record CheckRequest : Type 0 where
  pub client_id : String
  pub service_code : String
  pub request_id : String
  pub correlation_id : String
  pub trip_id : String
  pub trace_parent : String

-- The answer's status and the two fields of its body, or `none` for a body that does not decode.
pub record CheckResponse : Type 0 where
  pub status_code : ℕ
  pub body : Option (Option Bool × Option String)

-- What a request to the contract service comes to.
pub data Posted : Type 0 where
  answered : CheckResponse → Posted
  transport_failed : String → Posted

-- What the Prometheus library answers from its registry: a status, and the text of the metrics.
pub record Exposition : Type 0 where
  pub status_code : ℕ
  pub text : String

pub record Env : Type 0 where
  -- google/uuid: `String`, `Parse` and `NewSHA1`
  pub uuid_text : Uuid → String
  pub uuid_parse : String → Option Uuid
  pub uuid_new_sha1 : Uuid → String → Uuid
  -- encoding/json on `TripPublished`
  pub marshal_event : TripPublished → Result String
  pub unmarshal_event : String → Result TripPublished
  -- `time.Now` and `gen_random_uuid`
  pub now : ℕ → Time
  pub gen_random_uuid : ℕ → Uuid
  -- pgx: the driver's error for a statement that did not run, and the end of a transaction
  pub fault : ℕ → Option String
  -- Whether a query that fails does so while its rows are read.
  pub while_reading : ℕ → Bool
  pub commit : ℕ → Commit
  -- what a TIMESTAMPTZ column holds of an instant, which has microseconds
  pub timestamptz : Time → Time
  -- kafka-go's `WriteMessages`, and resty's `Post` with its retries
  pub write_messages : ℕ → Message → Option String
  pub post : ℕ → CheckRequest → Posted
  -- promhttp's handler over the registry
  pub expose : Metrics → Exposition

-- `time.Now()`
unfoldable pub current_time : Env → Action Time
current_time env w = (ok (env.now w.tick), next w)
