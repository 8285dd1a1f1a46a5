-- ===== src/Events/Correlated.antt =====
-- The ids of a request, from its headers to the message in Kafka and the contract check.
use share_trip.Base.{String, true, false, ◌≡◌, refl, sym, ap, ◌∙◌, subst, arith}
use mathlib.Core.List.{Memᴰ}
use share_trip.Result.{ok}
use share_trip.Context.{Logger, Context, causes, with_trip_id}
use share_trip.Domain.{Uuid, OutboxEvent, TripPublished}
use share_trip.World.{World, Tables}
use share_trip.Env.{Env, CheckRequest}
use share_trip.Repository.Outbox.{put_event, has_event, status_pending}
use share_trip.Repository.Members.{put_event-Mem_self}
use share_trip.Lifecycle.Consistency.{IsConsistent}
use share_trip.Service.Trips.{TripCommand, CheckResult, publish_trip}
use share_trip.Service.Publishing.Outcome.{checked, publish_trip_success}
use share_trip.Contract.{check_request, check_service, outcome}
use share_trip.Middleware.Correlation.{Ids, Received, correlation}
use share_trip.Events.{kafka_message}
use share_trip.Events.Delivery.{Carries}
use share_trip.Wiring.{trip_service}

-- JSON gives back what it has encoded.
abbrev pub JsonRoundTrip : Env → Type 0
JsonRoundTrip env =
    (d : TripPublished) (text : String)
    → env.marshal_event d ≡ ok text
    → env.unmarshal_event text ≡ ok d

module _ (env : Env) (base : Logger) (request : Received) (ctx : Context) (command : TripCommand)
    (w : World) where
  -- What the response's headers report, and the context of the handler.
  abbrev pub ids : Ids
  ids = (correlation base request ctx).0

  abbrev pub inner : Context
  inner = (correlation base request ctx).1

  abbrev pub after : World
  after = (publish_trip env (trip_service env) inner command w).1

  -- The request that the publication posts to the contract service.
  abbrev pub asked : CheckRequest
  asked =
      check_request (with_trip_id inner (env.uuid_text command.trip_id))
        (env.uuid_text command.client_id) "trip_creation"

  checked-eq-outcome : (checked env inner command w).0 ≡ outcome (env.post w.tick asked)
  unfolding check_service
  checked-eq-outcome = refl

  inner-causes : causes inner ≡ (ids.request_id, ids.correlation_id)
  unfolding correlation
  inner-causes = refl

  -- If JSON decodes what it has encoded, the tables are consistent, as
  -- they are in every world that the program reaches: a publication that succeeds had its permission
  -- as the outcome of a request that carries the request id and the correlation id of the response's
  -- headers; and its event, which the outbox did not have before, is in the outbox then and pending,
  -- with a message about the trip and the client that carries the same two ids.
  pub publish_correlated :
      JsonRoundTrip env
      → IsConsistent env w.tables
      → {id : Uuid} → (publish_trip env (trip_service env) inner command w).0 ≡ ok id
      → (event : OutboxEvent) × (d : TripPublished) × (text : String) × (permission : CheckResult)
        × (outcome (env.post w.tick asked) ≡ ok permission)
        × (permission.allowed ≡ true)
        × (asked.request_id ≡ ids.request_id)
        × (asked.correlation_id ≡ ids.correlation_id)
        × (has_event event.id w.tables.outbox ≡ false)
        × Memᴰ event after.tables.outbox
        × (event.status ≡ status_pending)
        × Carries env event (kafka_message d text)
        × (d.trip_id ≡ env.uuid_text command.trip_id)
        × (d.driver_id ≡ env.uuid_text command.client_id)
        × (d.correlation_id ≡ ids.correlation_id)
        × (d.causation_id ≡ ids.request_id)
  unfolding check_request correlation
  publish_correlated json consistent {id} h =
      let (permission, answered, allowed, same, p) = publish_trip_success env inner command w h in
      let absent : has_event p.event.id w.tables.outbox ≡ false =
        let here = (consistent.at command.trip_id).announced in
        ground (arith, p.found, p.is_draft, p.event_id) in
      let rows : after.tables.outbox ≡ put_event p.event w.tables.outbox =
        ap (λ (t : Tables). t.outbox) p.after in
      (
        p.event,
        p.message,
        p.event.payload,
        permission,
        sym checked-eq-outcome ∙ answered,
        allowed,
        refl,
        refl,
        absent,
        subst (λ l. Memᴰ p.event l) (sym rows) (put_event-Mem_self p.event w.tables.outbox absent),
        p.is_pending,
        record {
          decoded = p.message;
          value = p.event.payload;
          decodes = json p.message p.event.payload p.encoded;
          encodes = p.encoded;
          sent_as = refl;
        },
        p.about_trip,
        p.about_driver,
        p.correlated,
        p.caused,
      )
