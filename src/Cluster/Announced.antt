-- ===== src/Cluster/Announced.antt =====
-- What consumers of the topic learn: publications against messages, from end to end.
use share_trip.Base.{
  subst, ◌≡◌, sym, ap, ◌∙◌, ◌⊎◌, inl, inr, true, some, String, arith, Bool-cases, Option-cases,
}
use mathlib.Core.List.{Memᴰ}
use share_trip.Domain.{Uuid, Trip, TripPublished, OutboxEvent, event_type_trip_published}
use share_trip.World.{Message}
use share_trip.Env.{Env}
use share_trip.Domain.Usecase.{new_event_id}
use share_trip.Repository.Trips.{find_trip}
use share_trip.Repository.Outbox.{is_pending, has_event}
use share_trip.Repository.Members.{has_event-Mem, has_event-origin}
use share_trip.Lifecycle.Consistency.{IsInjective, is_announced}
use share_trip.Events.{kafka_message}
use share_trip.Events.Correlated.{JsonRoundTrip}
use share_trip.Events.Delivery.{Carries}
use share_trip.Cluster.{Cluster, Run, fresh}
use share_trip.Cluster.Stores.{Addressed}
use share_trip.Cluster.Invariant.{Run-IsSound}

-- The message of the trip's publication, under the trip's id.
pub record Announces (env : Env) (id : Uuid) (m : Message) : Type 0 where
  pub content : TripPublished
  pub text : String
  pub written : m ≡ kafka_message content text
  pub keyed : m.key ≡ env.uuid_text id
  pub about_trip : content.trip_id ≡ env.uuid_text id
  pub same_id : content.event_id ≡ env.uuid_text (new_event_id env id event_type_trip_published)

module _ (env : Env) (round_trip : JsonRoundTrip env) where
  pub Carries-Announces :
      {e : OutboxEvent} {m : Message} (a : Addressed env e)
      → Carries env e m
      → Announces env a.trip_id m
  unfolding kafka_message
  Carries-Announces {e} {m} a c =
      let back = round_trip a.message e.payload a.encoded in
      let decodes = c.decodes in
      let same : c.decoded ≡ a.message = ground arith in
      let about = ap (λ (d : TripPublished). d.trip_id) same ∙ a.about_trip in
      record {
        content = c.decoded;
        text = c.value;
        written = c.sent_as;
        keyed = ap (λ (x : Message). x.key) c.sent_as ∙ about;
        about_trip = about;
        same_id =
            ap (λ (d : TripPublished). d.event_id) same ∙ a.same_id ∙ ap env.uuid_text a.event_id;
      }

  module _ (injective : IsInjective env) {c : Cluster} (r : Run env fresh c) where
    -- If event ids tell trips apart and JSON decodes what it has encoded, then at every moment, however
    -- requests and publishers interleave and whatever fails: a trip that is published or started has
    -- its event in the outbox, and the event is pending still, or the topic has the message that
    -- announces the trip.
    pub published-Announces :
        (id : Uuid) (trip : Trip)
        → find_trip id c.tables.trips ≡ some trip
        → is_announced (some trip.status) ≡ true
        → (e : OutboxEvent) × Memᴰ e c.tables.outbox
          × (e.id ≡ new_event_id env id event_type_trip_published)
          × ((is_pending e ≡ true) ⊎ ((m : Message) × Memᴰ m c.topic × Announces env id m))
    published-Announces id trip found past =
        let k = Run-IsSound env injective r in
        let announced = (k.consistent.at id).announced in
        let key = new_event_id env id event_type_trip_published in
        let (e, there, is_key) = has_event-origin key c.tables.outbox (ground arith) in
        let a = k.delivering.addressed e there in
        let same : a.trip_id ≡ id = injective a.trip_id id (sym a.event_id ∙ is_key) in
        (
          e,
          there,
          is_key,
          elim (Bool-cases (is_pending e)) [
            | inl waits ↦ inl waits
            | inr over ↦
                let (m, sent, carried) = k.delivering.acknowledged e there over in
                inr (m, sent, subst (λ i. Announces env i m) same (Carries-Announces a carried))
          ],
        )

    -- If event ids tell trips apart and JSON decodes what it has encoded, then at every moment, however
    -- requests and publishers interleave and whatever fails, every message of the topic announces a
    -- trip, and this trip is published or started.
    pub message-Announces :
        (m : Message)
        → Memᴰ m c.topic
        → (id : Uuid) × (trip : Trip) × (find_trip id c.tables.trips ≡ some trip)
          × (is_announced (some trip.status) ≡ true)
          × Announces env id m
    message-Announces m sent =
        let k = Run-IsSound env injective r in
        let (e, there, carried) = k.delivering.sourced m sent in
        let a = k.delivering.addressed e there in
        let has : has_event (new_event_id env a.trip_id event_type_trip_published) c.tables.outbox
            ≡ true =
          subst (λ i. has_event i c.tables.outbox ≡ true) a.event_id
            (has_event-Mem c.tables.outbox there) in
        let announced = (k.consistent.at a.trip_id).announced in
        elim (Option-cases (find_trip a.trip_id c.tables.trips)) [
          | inl missing ↦ absurd (ground arith)
          | inr (trip, found) ↦ (a.trip_id, trip, found, ground arith, Carries-Announces a carried)
        ]
