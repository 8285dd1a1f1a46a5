-- ===== src/World.antt =====
-- The state that the program acts on, and the actions on it. `tables` is what a statement sees:
-- inside a transaction the transaction's own view, outside it what is committed. `tick` counts the
-- round trips to services outside the process, and so tells apart their answers. `tx_time` is the
-- start of the transaction, SQL's `NOW()`. `topic` is what Kafka has acknowledged, oldest first.
use share_trip.Base.{ℕ, suc, String, Option, List}
use share_trip.GoError.{GoError, annotated}
use share_trip.Result.{Result, ok, err}
use share_trip.Metrics.{Metrics}
use share_trip.Domain.{Uuid, Time, Trip, TripStatus, OutboxEvent}

-- The columns of `trip_history` that the program writes.
pub record History : Type 0 where
  pub trip_id : Uuid
  pub from_status : Option TripStatus
  pub to_status : TripStatus

-- migrations/: rows in the order of insertion, except `history`, which has the latest first.
pub record Tables : Type 0 where
  pub trips : List Trip
  pub history : List History
  pub outbox : List OutboxEvent

-- A `kafka.Message`.
pub record Message : Type 0 where
  pub key : String
  pub value : String
  pub headers : List (String × String)

pub record World : Type 0 where
  pub tables : Tables
  pub tick : ℕ
  pub tx_time : Time
  pub metrics : Metrics
  pub topic : List Message

abbrev pub Action : Type 0 → Type 0
Action A = World → Result A × World

infixl 5 ◌>>=◌ ◌>>◌
abbrev pub ◌>>=◌ : {A B : Type 0} → Action A → (A → Action B) → Action B
◌>>=◌ m f w = let (r, w') = m w in elim r [ ok a ↦ f a w' | err e ↦ (err e, w') ]

abbrev pub ◌>>◌ : {A B : Type 0} → Action A → Action B → Action B
m >> k = m >>= λ _. k

abbrev pub pure : {A : Type 0} → A → Action A
pure a w = (ok a, w)

abbrev pub raise : {A : Type 0} → GoError → Action A
raise e w = (err e, w)

abbrev pub set_metrics : World → Metrics → World
set_metrics w m = record w { metrics = m }

abbrev pub set_tables : World → Tables → World
set_tables w t = record w { tables = t }

-- One more round trip.
abbrev pub next : World → World
next w = record w { tick = suc w.tick }

abbrev pub lift : {A : Type 0} → Result A → Action A
lift r w = (r, w)

-- `fmt.Errorf("what: %w", err)` around what a call returns.
abbrev pub annotate : {A : Type 0} → String → Action A → Action A
annotate what m w =
    let (r, w') = m w in elim r [ ok a ↦ (ok a, w') | err e ↦ (err (annotated what e), w') ]
