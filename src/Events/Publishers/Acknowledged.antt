-- ===== src/Events/Publishers/Acknowledged.antt =====
-- Runs of publishers: the rows and marks of events that are sent, against the topic, step by step.
use share_trip.Base.{ℕ, ◌≡◌, refl, sym, ap, ◌∙◌, subst, inl, inr, List, [], ◌∷◌, ◌++◌, at}
use mathlib.Core.List.{Memᴰ}
use mathlib.Core.List.Memᴰ
use mathlib.Core.List.Memᴰ.{head}
use share_trip.Result.{Result, ok}
use share_trip.Domain.{OutboxEvent}
use share_trip.World.{World, Message}
use share_trip.Env.{Env}
use share_trip.Repository.Outbox.{pending_row}
use share_trip.Events.Topic.{Grows, publish_event-Grows}
use share_trip.Events.{producer, publish_event}
use share_trip.Wiring.{outbox_queue}
use share_trip.Events.Publishers.{
  Publisher, sending, held, todo_of, marks_of, Mark, sent_at, failed_with, apply_marks, mark_of,
  Queue, Step, lock, turn, give_up, commit, roll_back, insert, Run, here, later,
}
use share_trip.Events.Publishers.Turns.{publish_event-Carries}
use share_trip.Events.Publishers.Exclusion.{IsExclusive, at-cases}
use share_trip.Events.Publishers.Once.{Run-IsExclusive, inserted}
use share_trip.Events.Publishers.Receipts.{
  IsAcknowledged, IsReceipted, Carries-payload, Has, apply_marks-IsAcknowledged,
  resting-IsReceipted, put_event-IsAcknowledged,
}

module _ (env : Env) where
  pub topic-Grows :
      (s : Queue) (e : OutboxEvent) (w w' : World) {r : Result (Unit {0})}
      → w.topic ≡ s.topic
      → publish_event env (outbox_queue env) (producer env) e w ≡ (r, w')
      → Grows env e s.topic w'.topic
  topic-Grows s e w w' topic done =
      subst (λ p. Grows env e p w'.topic) topic
        (subst (λ (y : Result (Unit {0}) × World). Grows env e w.topic y.1.topic) done
          (publish_event-Grows env e w))

  module _ (s : Queue) (i : ℕ) (e : OutboxEvent) (es todo : List OutboxEvent) (marks : List Mark)
      (w w' : World) (x : IsExclusive s) (k : IsReceipted env s)
      (at_i : s.publisher i ≡ sending es (e ∷ todo) marks) (topic : w.topic ≡ s.topic)
      (done : publish_event env (outbox_queue env) (producer env) e w ≡ (ok tt, w')) where
    abbrev turned : Publisher
    turned = sending es todo (marks ++ (mark_of env e w ∷ []))

    holds : (m : Message) → Memᴰ m s.topic → Memᴰ m w'.topic
    holds = (topic-Grows s e w w' topic done).holds

    turn-IsReceipted :
        IsReceipted env (record s { topic = w'.topic; publisher = at s.publisher i turned })
    turn-IsReceipted a id now m = elim (at-cases s.publisher i a turned) [
      | inr (ne, q) ↦
          let (f, n, is_id, msg, there, c) =
            k a id now (subst (λ r. Memᴰ (sent_at id now) (marks_of r)) q m) in
          (f, subst (λ r. Memᴰ f (held r)) (sym q) n, is_id, msg, holds msg there, c)
      | inl (same, q) ↦
          elim (Memᴰ.append_cases marks (subst (λ r. Memᴰ (sent_at id now) (marks_of r)) q m)) [
            | inl old ↦
                let was = subst (λ r. Memᴰ (sent_at id now) (marks_of r)) (sym at_i) old in
                let (f, n, is_id, msg, there, c) = k i id now was in
                (
                  f,
                  subst (λ r. Memᴰ f (held r)) (sym q) (subst (λ r. Memᴰ f (held r)) at_i n),
                  is_id,
                  msg,
                  holds msg there,
                  c,
                )
            | inr new ↦
                let (is_id, msg, there, c) =
                  publish_event-Carries env e w w' done id now (sym (Memᴰ.eq_of_singleton new)) in
                let was = x.ahead i e (subst (λ r. Memᴰ e (todo_of r)) (sym at_i) (head refl)) in
                (
                  e,
                  subst (λ r. Memᴰ e (held r)) (sym q) (subst (λ r. Memᴰ e (held r)) at_i was),
                  is_id,
                  msg,
                  there,
                  c,
                )
          ]
    ]

  commit-Has :
      (s : Queue) (i : ℕ) (es : List OutboxEvent) (marks : List Mark)
      → IsExclusive s
      → IsReceipted env s
      → s.publisher i ≡ sending es [] marks
      → (mk : Mark) → Memᴰ mk marks
      → Has env s.outbox s.topic mk
  commit-Has s i es marks x k at_i (failed_with id reason) m = tt
  commit-Has s i es marks x k at_i (sent_at id now) m = λ r n q.
      let (e, held_e, is_id, msg, there, c) =
        k i id now (subst (λ p. Memᴰ (sent_at id now) (marks_of p)) (sym at_i) m) in
      let same = x.keyed r e n (x.current i e held_e).0 (q ∙ is_id) in
      (msg, there, Carries-payload env (ap (λ (y : OutboxEvent). y.payload) same) c)

  pub Step-IsReceipted :
      {s t : Queue} → Step env s t → IsExclusive s → IsReceipted env s → IsReceipted env t
  Step-IsReceipted {s} (lock i free es w w' at_i skips seen got) x k = λ a id now m.
      elim (at-cases s.publisher i a (sending es es [])) [
        | inl (same, q) ↦
            absurd (Memᴰ.not-nil (subst (λ r. Memᴰ (sent_at id now) (marks_of r)) q m))
        | inr (ne, q) ↦
            let (e, n, is_id, msg, there, c) =
              k a id now (subst (λ r. Memᴰ (sent_at id now) (marks_of r)) q m) in
            (e, subst (λ r. Memᴰ e (held r)) (sym q) n, is_id, msg, there, c)
      ]
  Step-IsReceipted {s} (turn i e es todo marks w w' at_i rows topic done) x k =
      turn-IsReceipted s i e es todo marks w w' x k at_i topic done
  Step-IsReceipted {s} (give_up i e es todo marks y w w' at_i rows topic done) x k =
      resting-IsReceipted env s i s.outbox w'.topic (topic-Grows s e w w' topic done).holds k
  Step-IsReceipted {s} (commit i es marks at_i) x k =
      resting-IsReceipted env s i (apply_marks marks s.outbox) s.topic (λ m n. n) k
  Step-IsReceipted {s} (roll_back i) x k = resting-IsReceipted env s i s.outbox s.topic (λ m n. n) k
  Step-IsReceipted (insert event w w' same done) x k = k

  pub Step-IsAcknowledged :
      {s t : Queue}
      → Step env s t
      → IsExclusive s
      → IsReceipted env s
      → IsAcknowledged env s.outbox s.topic
      → IsAcknowledged env t.outbox t.topic
  unfolding pending_row
  Step-IsAcknowledged (lock i free es w w' at_i skips seen got) x h k = k
  Step-IsAcknowledged {s} (turn i e es todo marks w w' at_i rows topic done) x h k = λ f n over.
      let (m, there, c) = k f n over in (m, (topic-Grows s e w w' topic done).holds m there, c)
  Step-IsAcknowledged {s} (give_up i e es todo marks y w w' at_i rows topic done) x h k =
      λ f n over.
        let (m, there, c) = k f n over in (m, (topic-Grows s e w w' topic done).holds m there, c)
  Step-IsAcknowledged {s} (commit i es marks at_i) x h k =
      apply_marks-IsAcknowledged env marks s.outbox s.topic (commit-Has s i es marks x h at_i) k
  Step-IsAcknowledged (roll_back i) x h k = k
  Step-IsAcknowledged {s} (insert event w w' same done) x h k =
      subst (λ o. IsAcknowledged env o s.topic) (sym (inserted env s event w w' same done))
        (put_event-IsAcknowledged env (pending_row event w.tx_time) s.outbox s.topic refl k)

  Run-IsReceipted :
      {s t : Queue} → IsExclusive s → IsReceipted env s → Run env s t → IsReceipted env t
  Run-IsReceipted x h here = h
  Run-IsReceipted x h (later r st) =
      Step-IsReceipted st (Run-IsExclusive env x r) (Run-IsReceipted x h r)

  -- From a state in order in which Kafka has acknowledged the message of every event that is no longer
  -- pending or marked as sent, it has so after every run, however the turns of publishers and
  -- publications interleave and whichever transactions are rolled back.
  pub Run-IsAcknowledged :
      {s t : Queue}
      → IsExclusive s
      → IsReceipted env s
      → IsAcknowledged env s.outbox s.topic
      → Run env s t
      → IsAcknowledged env t.outbox t.topic
  Run-IsAcknowledged x h k here = k
  Run-IsAcknowledged x h k (later r st) =
      Step-IsAcknowledged st (Run-IsExclusive env x r) (Run-IsReceipted x h r)
        (Run-IsAcknowledged x h k r)
