-- ===== src/Repository/Effects.antt =====
-- What a repository method has done to the tables when it returns without an error.
use share_trip.Base.{String, ◌≡◌, inl, inr, none, some, List, [], ◌∷◌, ◌++◌, arith, Option-cases}
use share_trip.Result.{ok, Result-cases}
use share_trip.Domain.{Uuid, Time, Trip, OutboxEvent}
use share_trip.World.{World, Action, ◌>>=◌, annotate}
use share_trip.Env.{Env}
use share_trip.Repository.Statement.{Statement, execute, observed, observed_row}
use share_trip.Repository.Trips.{
  find_trip, replace_trip, record_change, create, get_for_update_by_id, update,
}
use share_trip.Repository.Outbox.{put_event, pending_row, create_outbox_event}

-- The row that a key finds has the key.
pub find_trip-id : (id : Uuid) (ts : List Trip) {t : Trip} → find_trip id ts ≡ some t → t.id ≡ id
unfolding find_trip
find_trip-id id [] h = cc
find_trip-id id (u ∷ us) {t} h =
    ground (arith, λ (p : find_trip id us ≡ some t). find_trip-id id us p)

-- Inversion of a bind that succeeds.
pub >>=-eq-ok :
    {A B : Type 0} (m : Action A) (f : A → Action B) (w w' : World) {b : B}
    → (m >>= f) w ≡ (ok b, w')
    → (a : A) × (w₁ : World) × (m w ≡ (ok a, w₁)) × (f a w₁ ≡ (ok b, w'))
>>=-eq-ok m f w w' h = elim (Result-cases (m w).0) [
  | inl (a, e) ↦ (a, (m w).1, ground arith, ground arith)
  | inr (x, e) ↦ absurd (ground arith)
]

module _ {A : Type 0} where
  pub annotate-eq-ok :
      (what : String) (m : Action A) (w w' : World) {a : A}
      → annotate what m w ≡ (ok a, w')
      → m w ≡ (ok a, w')
  annotate-eq-ok what m w w' h = ground arith

  pub execute-eq-ok :
      (env : Env) (s : Statement A) (w w' : World) {a : A}
      → execute env s w ≡ (ok a, w')
      → (now : Time) × (id : Uuid) × (s now id w.tables ≡ (ok a, w'.tables))
  unfolding execute
  execute-eq-ok env s w w' h = (w.tx_time, env.gen_random_uuid w.tick, ground arith)

  pub observed-eq-ok :
      (op : String) (m : Action A) (w w' : World) {a : A}
      → observed op m w ≡ (ok a, w')
      → (w₁ : World) × (m w ≡ (ok a, w₁)) × (w'.tables ≡ w₁.tables)
  unfolding observed
  observed-eq-ok op m w w' h = ((m w).1, ground arith, ground arith)

  pub observed_row-eq-ok :
      (op what : String) (m : Action A) (w w' : World) {a : A}
      → observed_row op what m w ≡ (ok a, w')
      → (w₁ : World) × (m w ≡ (ok a, w₁)) × (w'.tables ≡ w₁.tables)
  unfolding observed_row
  observed_row-eq-ok op what m w w' h = ((m w).1, ground arith, ground arith)

module _ (env : Env) (w w' : World) where
  -- A read finds the row and leaves the tables alone.
  pub get_for_update_by_id-eq-ok :
      (id : Uuid) {t : Trip}
      → get_for_update_by_id env id w ≡ (ok t, w')
      → (find_trip id w.tables.trips ≡ some t) × (w'.tables ≡ w.tables)
  unfolding get_for_update_by_id
  get_for_update_by_id-eq-ok id h = ground arith

  -- An update has found the row that it replaces.
  pub update-eq-ok :
      (trip : Trip) {u : Trip}
      → update env trip w ≡ (ok u, w')
      → (old : Trip) × (find_trip trip.id w.tables.trips ≡ some old)
        × (u ≡ record trip { created_at = old.created_at; updated_at = w.tx_time })
        × (w'.tables ≡ record w.tables {
          trips = replace_trip u w.tables.trips;
          history = record_change old u w.tables.history;
        })
  unfolding update
  update-eq-ok trip h = elim (Option-cases (find_trip trip.id w.tables.trips)) [
    | inl e ↦ absurd (ground arith)
    | inr (old, e) ↦ (old, e, ground arith, ground arith)
  ]

  -- An insertion appends a row under a new id, and its history.
  pub create-eq-ok :
      (trip : Trip) {u : Trip}
      → create env trip w ≡ (ok u, w')
      → (u ≡ record trip {
        id = env.gen_random_uuid w.tick;
        departure_time = env.timestamptz trip.departure_time;
        created_at = w.tx_time;
        updated_at = w.tx_time;
      })
        × (find_trip u.id w.tables.trips ≡ none)
        × (w'.tables ≡ record w.tables {
          trips = w.tables.trips ++ (u ∷ []);
          history =
              record { trip_id = u.id; from_status = none; to_status = u.status }
              ∷ w.tables.history;
        })
  unfolding create
  create-eq-ok trip h = (ground arith, ground arith, ground arith)

  -- An outbox row is added under its id, unless the id is there.
  pub create_outbox_event-eq-ok :
      (event : OutboxEvent) {x : Unit {0}}
      → create_outbox_event env event w ≡ (ok x, w')
      → w'.tables
        ≡ record w.tables { outbox = put_event (pending_row event w.tx_time) w.tables.outbox }
  unfolding create_outbox_event
  create_outbox_event-eq-ok event h = ground arith
