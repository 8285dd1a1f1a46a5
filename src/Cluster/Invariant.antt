-- ===== src/Cluster/Invariant.antt =====
-- What holds of the service at every moment, requests and publishers together.
use share_trip.Base.{◌≡◌, refl, sym, ap, ◌∙◌, subst, inl, inr, true, List}
use mathlib.Core.List.{Memᴰ}
use mathlib.Core.List.Memᴰ
use share_trip.Result.{ok}
use share_trip.Domain.{Uuid, OutboxEvent}
use share_trip.Env.{Env}
use share_trip.Repository.Outbox.{is_pending, put_event, has_event}
use share_trip.Repository.Members.{put_event-Mem, put_event-origin}
use share_trip.Lifecycle.Consistency.{IsConsistent, IsInjective}
use share_trip.Lifecycle.Transition.{Transition, delivered as outbox_only, Transition-IsConsistent}
use share_trip.System.Reachable.{empty-IsConsistent}
use share_trip.System.{empty_tables}
use share_trip.Concurrent.Locking.{quiet-IsLocked, IsLocked, Step-IsLocked, Step-Transition}
use share_trip.Events.Publishers.{Queue, lock, turn, give_up, commit, roll_back, insert}
use share_trip.Events.Publishers as Publishers
use share_trip.Events.Publishers.Exclusion.{IsExclusive}
use share_trip.Events.Publishers.Once.{Step-IsExclusive, put_event-IsExclusive}
use share_trip.Events.Publishers.Receipts.{IsAcknowledged, IsReceipted, put_event-IsAcknowledged}
use share_trip.Events.Publishers.Acknowledged.{Step-IsReceipted, Step-IsAcknowledged}
use share_trip.Events.Publishers.Turns.{apply_marks-has_event}
use share_trip.Events.Publishers.Twins.{Twins, apply_marks-SameEvents}
use share_trip.Events.Publishers.Sources.{IsSourced, Step-IsSourced}
use share_trip.Cluster.{
  Cluster, requests, queue, IsDelivery, Step, request, delivery, Run, here, later, fresh,
}
use share_trip.Cluster.Stores.{Addressed, Step-IsStored}

-- The publishers' side: the locks on events, and the rows against the topic in both directions.
pub record IsDelivering (env : Env) (q : Queue) : Type 0 where
  pub exclusive : IsExclusive q
  pub receipted : IsReceipted env q
  pub acknowledged : IsAcknowledged env q.outbox q.topic
  pub sourced : IsSourced env q.outbox q.topic
  pub addressed : (e : OutboxEvent) → Memᴰ e q.outbox → Addressed env e

pub record IsSound (env : Env) (c : Cluster) : Type 0 where
  pub locks : IsLocked (requests c)
  pub consistent : IsConsistent env c.tables
  pub delivering : IsDelivering env (queue c)

Addressed-Twins : (env : Env) {e f : OutboxEvent} → Twins e f → Addressed env e → Addressed env f
Addressed-Twins env t a = record {
  trip_id = a.trip_id;
  message = a.message;
  event_id = t.same_id ∙ a.event_id;
  encoded = a.encoded ∙ ap ok (sym t.same_payload);
  about_trip = a.about_trip;
  same_id = a.same_id ∙ ap env.uuid_text (sym t.same_id);
}

module _ (env : Env) where
  put_event-IsDelivering :
      (q : Queue) (row : OutboxEvent) (o : List OutboxEvent)
      → o ≡ put_event row q.outbox
      → is_pending row ≡ true
      → Addressed env row
      → IsDelivering env q
      → IsDelivering env (record q { outbox = o })
  put_event-IsDelivering q row o e waits a k = record {
    exclusive = put_event-IsExclusive env q row o e k.exclusive;
    receipted = k.receipted;
    acknowledged =
        subst (λ l. IsAcknowledged env l q.topic) (sym e)
          (put_event-IsAcknowledged env row q.outbox q.topic waits k.acknowledged);
    sourced = λ m n.
        let (f, there, c) = k.sourced m n in
        (f, subst (λ l. Memᴰ f l) (sym e) (put_event-Mem row q.outbox there), c);
    addressed = λ f n. elim (put_event-origin row q.outbox (subst (λ l. Memᴰ f l) e n)) [
      | inl old ↦ k.addressed f old
      | inr new ↦ subst (Addressed env) (sym new) a
    ];
  }

  Step-Addressed :
      {q r : Queue} (st : Publishers.Step env q r)
      → IsDelivery env st
      → IsDelivering env q
      → (e : OutboxEvent) → Memᴰ e r.outbox
      → Addressed env e
  Step-Addressed (lock i free es w w' at_i skips seen got) d k = k.addressed
  Step-Addressed (turn i e es todo marks w w' at_i rows topic done) d k = k.addressed
  Step-Addressed (give_up i e es todo marks x w w' at_i rows topic done) d k = k.addressed
  Step-Addressed {q} (commit i es marks at_i) d k = λ e m.
      let (f, there, t) = (apply_marks-SameEvents marks q.outbox).back e m in
      Addressed-Twins env t (k.addressed f there)
  Step-Addressed (roll_back i) d k = k.addressed
  Step-Addressed (insert event w w' same done) d k = absurd d

  Step-has_event :
      {q r : Queue} (st : Publishers.Step env q r)
      → IsDelivery env st
      → (id : Uuid) → has_event id r.outbox ≡ has_event id q.outbox
  Step-has_event (lock i free es w w' at_i skips seen got) d id = refl
  Step-has_event (turn i e es todo marks w w' at_i rows topic done) d id = refl
  Step-has_event (give_up i e es todo marks x w w' at_i rows topic done) d id = refl
  Step-has_event {q} (commit i es marks at_i) d id = apply_marks-has_event marks q.outbox id
  Step-has_event (roll_back i) d id = refl
  Step-has_event (insert event w w' same done) d id = absurd d

  module _ (injective : IsInjective env) where
    Step-IsSound : {c d : Cluster} → Step env c d → IsSound env c → IsSound env d
    Step-IsSound {c} (request s st r) k = record {
      locks = Step-IsLocked env st k.locks;
      consistent = Transition-IsConsistent injective (Step-Transition env k.locks st) k.consistent;
      delivering = elim (Step-IsStored env st r k.locks) [
        | inl same ↦
            subst (λ o. IsDelivering env (record (queue c) { outbox = o })) (sym same) k.delivering
        | inr (e, waits, a, grown) ↦
            put_event-IsDelivering (queue c) e s.tables.outbox grown waits a k.delivering
      ];
    }
    Step-IsSound {c} (delivery q st d) k =
        let x = k.delivering.exclusive in
        let moves : Transition env c.tables (record c.tables { outbox = q.outbox }) =
          outbox_only (record { others = refl; same_events = Step-has_event st d }) in
        record {
          locks = record { exclusive = k.locks.exclusive; current = k.locks.current };
          consistent = Transition-IsConsistent injective moves k.consistent;
          delivering = record {
            exclusive = Step-IsExclusive env st x;
            receipted = Step-IsReceipted env st x k.delivering.receipted;
            acknowledged =
                Step-IsAcknowledged env st x k.delivering.receipted k.delivering.acknowledged;
            sourced = Step-IsSourced env st x k.delivering.sourced;
            addressed = Step-Addressed st d k.delivering;
          };
        }

    fresh-IsSound : IsSound env fresh
    fresh-IsSound = record {
      locks = quiet-IsLocked empty_tables;
      consistent = empty-IsConsistent env;
      delivering = record {
        exclusive = record {
          keyed = λ e f m n q. absurd (Memᴰ.not-nil m);
          exclusive = λ i j e f m n q. absurd (Memᴰ.not-nil m);
          current = λ i e m. absurd (Memᴰ.not-nil m);
          ahead = λ i e m. absurd (Memᴰ.not-nil m);
          within = λ i mk m. absurd (Memᴰ.not-nil m);
        };
        receipted = λ i id now m. absurd (Memᴰ.not-nil m);
        acknowledged = λ e m over. absurd (Memᴰ.not-nil m);
        sourced = λ m n. absurd (Memᴰ.not-nil n);
        addressed = λ e m. absurd (Memᴰ.not-nil m);
      };
    }

    -- If event ids tell trips apart, then at every moment of the service, however requests and
    -- publishers interleave: the locks on trips and on events exclude each other, the history tells
    -- every trip's status and the outbox has its event exactly when it is published or started, every
    -- event that is no longer pending has its message in the topic, every message of the topic
    -- carries an event of the outbox, and every event is about a trip, with the message encoded in it.
    pub Run-IsSound : {c : Cluster} → Run env fresh c → IsSound env c
    Run-IsSound here = fresh-IsSound
    Run-IsSound (later r st) = Step-IsSound st (Run-IsSound r)
