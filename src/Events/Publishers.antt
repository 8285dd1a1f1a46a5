-- ===== src/Events/Publishers.antt =====
-- Outbox publishers that run at the same time, as several processes of the service do: transactions
-- of events/outbox_publisher.go, cut after the statement of repository/lock_pending.go and after each
-- turn of the loop. `FOR UPDATE SKIP LOCKED` passes over the rows that another publisher holds, and a
-- publisher holds its rows until its transaction ends. What it writes is seen by nobody else until
-- then; what it sends is in the topic at once.
pub mod Turns
pub mod Exclusion
pub mod Locking
pub mod Once
pub mod Twins
pub mod Receipts
pub mod Acknowledged
pub mod Sources
use share_trip.Base.{ℕ, ◌≡◌, ◌≢◌, ◌↔◌, Bool, true, List, [], ◌∷◌, ◌++◌, String, at, select}
use mathlib.Core.List.{Memᴰ}
use share_trip.GoError.{GoError, error_text}
use share_trip.Result.{ok, err}
use share_trip.Domain.{Uuid, Time, OutboxEvent}
use share_trip.World.{World, Message}
use share_trip.Env.{Env}
use share_trip.Repository.Outbox
use share_trip.Repository.Outbox.{update_event}
use share_trip.Events.{producer, send, publish_event}
use share_trip.Events.Delivery.{as_sent, as_failed}
use share_trip.Wiring.{outbox_queue}

-- What a turn writes to the row of its event, in the transaction.
pub data Mark : Type 0 where
  sent_at : Uuid → Time → Mark
  failed_with : Uuid → String → Mark

abbrev pub mark_id : Mark → Uuid
mark_id (sent_at id now) = id
mark_id (failed_with id reason) = id

abbrev pub mark_row : Mark → OutboxEvent → OutboxEvent
mark_row (sent_at id now) = as_sent now
mark_row (failed_with id reason) = as_failed reason

unfoldable pub apply_marks : List Mark → List OutboxEvent → List OutboxEvent
apply_marks [] o = o
apply_marks (m ∷ ms) o = apply_marks ms (update_event (mark_id m) (mark_row m) o)

-- Where a publisher stands: between two batches, or with the events that it has locked, those whose
-- turn is still to come, and what it has written.
pub data Publisher : Type 0 where
  resting : Publisher
  sending : (held todo : List OutboxEvent) (marks : List Mark) → Publisher

abbrev pub held : Publisher → List OutboxEvent
held resting = []
held (sending es todo marks) = es

abbrev pub todo_of : Publisher → List OutboxEvent
todo_of resting = []
todo_of (sending es todo marks) = todo

abbrev pub marks_of : Publisher → List Mark
marks_of resting = []
marks_of (sending es todo marks) = marks

-- The committed outbox, what Kafka has acknowledged, and the publishers by their numbers.
pub record Queue : Type 0 where
  pub outbox : List OutboxEvent
  pub topic : List Message
  pub publisher : ℕ → Publisher

-- No publisher holds the row.
abbrev pub IsUnheld : Uuid → Queue → Type 0
IsUnheld id s = (j : ℕ) (e : OutboxEvent) → Memᴰ e (held (s.publisher j)) → e.id ≢ id

module _ (env : Env) where
  -- The mark of a turn, by what sending comes to.
  unfoldable pub mark_of : OutboxEvent → World → Mark
  mark_of e w =
      let (r, w') = send env (outbox_queue env) (producer env) e w in
      elim r [ ok x ↦ sent_at e.id w'.tx_time | err x ↦ failed_with e.id (error_text x) ]

  pub data Step (s : Queue) : Queue → Type 0 where
    lock :
        (i : ℕ) (free : Uuid → Bool) (es : List OutboxEvent) (w w' : World)
        → s.publisher i ≡ resting
        → ((id : Uuid) → (free id ≡ true) ↔ IsUnheld id s)
        → w.tables.outbox ≡ select (λ e. free e.id) s.outbox
        → Outbox.lock_pending env w ≡ (ok es, w')
        → Step s (record s { publisher = at s.publisher i (sending es es []) })
    turn :
        (i : ℕ) (e : OutboxEvent) (es todo : List OutboxEvent) (marks : List Mark) (w w' : World)
        → s.publisher i ≡ sending es (e ∷ todo) marks
        → w.tables.outbox ≡ apply_marks marks s.outbox
        → w.topic ≡ s.topic
        → publish_event env (outbox_queue env) (producer env) e w ≡ (ok tt, w')
        → Step s (record s {
          topic = w'.topic;
          publisher = at s.publisher i (sending es todo (marks ++ (mark_of e w ∷ [])));
        })
    -- A turn whose statement fails ends the transaction; what it has sent stays sent.
    give_up :
        (i : ℕ) (e : OutboxEvent) (es todo : List OutboxEvent) (marks : List Mark) (x : GoError)
        (w w' : World)
        → s.publisher i ≡ sending es (e ∷ todo) marks
        → w.tables.outbox ≡ apply_marks marks s.outbox
        → w.topic ≡ s.topic
        → publish_event env (outbox_queue env) (producer env) e w ≡ (err x, w')
        → Step s (record s { topic = w'.topic; publisher = at s.publisher i resting })
    commit :
        (i : ℕ) (es : List OutboxEvent) (marks : List Mark)
        → s.publisher i ≡ sending es [] marks
        → Step s
            (record s { outbox = apply_marks marks s.outbox; publisher = at s.publisher i resting })
    -- A commit that is refused, or a connection that is lost.
    roll_back : (i : ℕ) → Step s (record s { publisher = at s.publisher i resting })
    -- A publication of a trip adds its event.
    insert :
        (event : OutboxEvent) (w w' : World)
        → w.tables.outbox ≡ s.outbox
        → Outbox.create_outbox_event env event w ≡ (ok tt, w')
        → Step s (record s { outbox = w'.tables.outbox })

  pub data Run (s : Queue) : Queue → Type 0 where
    here : Run s s
    later : {t u : Queue} → Run s t → Step t u → Run s u
