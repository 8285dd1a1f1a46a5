-- ===== src/Events/Publishers/Receipts.antt =====
-- The rows and marks of events that are sent, against the topic.
use share_trip.Base.{
  ℕ, ◌≡◌, refl, sym, ap, ◌∙◌, subst, true, false, inl, inr, List, [], ◌∷◌, at, arith, Bool-cases,
  ◌==◌, if◌then◌else◌,
}
use mathlib.Core.List.{Memᴰ}
use mathlib.Core.List.Memᴰ
use mathlib.Core.List.Memᴰ.{head, tail}
use share_trip.Domain.{Uuid, Time, OutboxEvent}
use share_trip.World.{Message}
use share_trip.Env.{Env}
use share_trip.Repository.Outbox.{is_pending, put_event, update_event}
use share_trip.Repository.Members.{update_event-origin, put_event-origin}
use share_trip.Events.Delivery.{Carries, as_sent, as_failed}
use share_trip.Events.Publishers.{
  resting, held, marks_of, Mark, sent_at, failed_with, mark_id, mark_row, apply_marks, Queue,
}
use share_trip.Events.Publishers.Exclusion.{at-cases}
use share_trip.Events.Publishers.Twins.{updated-Twins}

-- Kafka has acknowledged the message of every event that is no longer pending.
abbrev pub IsAcknowledged : Env → List OutboxEvent → List Message → Type 0
IsAcknowledged env o p =
    (e : OutboxEvent) → Memᴰ e o → is_pending e ≡ false → (m : Message) × Memᴰ m p × Carries env e m

-- So it has for every event that a transaction has marked as sent, committed or not.
abbrev pub IsReceipted : Env → Queue → Type 0
IsReceipted env s =
    (i : ℕ) (id : Uuid) (now : Time)
    → Memᴰ (sent_at id now) (marks_of (s.publisher i))
    → (e : OutboxEvent) × Memᴰ e (held (s.publisher i))
      × (id ≡ e.id)
      × (m : Message) × Memᴰ m s.topic
      × Carries env e m

pub Carries-payload :
    (env : Env) {e f : OutboxEvent} {m : Message}
    → f.payload ≡ e.payload
    → Carries env e m
    → Carries env f m
Carries-payload env h c = record {
  decoded = c.decoded;
  value = c.value;
  decodes = ap env.unmarshal_event h ∙ c.decodes;
  encodes = c.encodes;
  sent_as = c.sent_as;
}

-- The rows under a mark have their message.
abbrev pub Has : Env → List OutboxEvent → List Message → Mark → Type 0
Has env o p (sent_at id now) =
    (r : OutboxEvent) → Memᴰ r o → r.id ≡ id → (m : Message) × Memᴰ m p × Carries env r m
Has env o p (failed_with id reason) = Unit

module _ (env : Env) where
  Has-update_event :
      (mk nk : Mark) (o : List OutboxEvent) (p : List Message)
      → Has env o p nk
      → Has env (update_event (mark_id mk) (mark_row mk) o) p nk
  Has-update_event mk (failed_with id reason) o p h = tt
  Has-update_event mk (sent_at id now) o p h = λ r n q.
      let (r₀, n₀, same) = update_event-origin (mark_id mk) (mark_row mk) o n in
      let t = updated-Twins mk r₀ r same in
      let (m, there, c) = h r₀ n₀ (sym t.same_id ∙ q) in
      (m, there, Carries-payload env t.same_payload c)

  update_event-IsAcknowledged :
      (mk : Mark) (o : List OutboxEvent) (p : List Message)
      → Has env o p mk
      → IsAcknowledged env o p
      → IsAcknowledged env (update_event (mark_id mk) (mark_row mk) o) p
  update_event-IsAcknowledged (sent_at id now) o p h k = λ r n over.
      let (r₀, n₀, same) = update_event-origin id (as_sent now) o n in
      let t = updated-Twins (sent_at id now) r₀ r same in
      elim (Bool-cases (r₀.id == id)) [
        | inl hit ↦
            let (m, there, c) = h r₀ n₀ (ground arith) in
            (m, there, Carries-payload env t.same_payload c)
        | inr miss ↦
            let (m, there, c) = k r₀ n₀ (ap is_pending (sym (rw miss at same)) ∙ over) in
            (m, there, Carries-payload env t.same_payload c)
      ]
  update_event-IsAcknowledged (failed_with id reason) o p h k = λ r n over.
      let (r₀, n₀, same) = update_event-origin id (as_failed reason) o n in
      let t = updated-Twins (failed_with id reason) r₀ r same in
      let status : (if r₀.id == id then as_failed reason r₀ else r₀).status ≡ r₀.status =
        ground arith in
      let s : r.status ≡ r₀.status = ap (λ (y : OutboxEvent). y.status) same ∙ status in
      let (m, there, c) = k r₀ n₀ (ground arith) in (m, there, Carries-payload env t.same_payload c)

  pub apply_marks-IsAcknowledged :
      (ms : List Mark) (o : List OutboxEvent) (p : List Message)
      → ((mk : Mark) → Memᴰ mk ms → Has env o p mk)
      → IsAcknowledged env o p
      → IsAcknowledged env (apply_marks ms o) p
  unfolding apply_marks
  apply_marks-IsAcknowledged [] o p h k = k
  apply_marks-IsAcknowledged (mk ∷ ms) o p h k =
      apply_marks-IsAcknowledged ms (update_event (mark_id mk) (mark_row mk) o) p
        (λ nk n. Has-update_event mk nk o p (h nk (tail n)))
        (update_event-IsAcknowledged mk o p (h mk (head refl)) k)

  -- Where the topic only grows, and no marks are made.
  pub resting-IsReceipted :
      (s : Queue) (i : ℕ) (o : List OutboxEvent) (p : List Message)
      → ((m : Message) → Memᴰ m s.topic → Memᴰ m p)
      → IsReceipted env s
      → IsReceipted env (record { outbox = o; topic = p; publisher = at s.publisher i resting })
  resting-IsReceipted s i o p holds k = λ a id now m. elim (at-cases s.publisher i a resting) [
    | inl (same, q) ↦ absurd (Memᴰ.not-nil (subst (λ r. Memᴰ (sent_at id now) (marks_of r)) q m))
    | inr (ne, q) ↦
        let (e, n, is_id, msg, there, c) =
          k a id now (subst (λ r. Memᴰ (sent_at id now) (marks_of r)) q m) in
        (e, subst (λ r. Memᴰ e (held r)) (sym q) n, is_id, msg, holds msg there, c)
  ]

  -- A new row that is pending needs no message.
  pub put_event-IsAcknowledged :
      (row : OutboxEvent) (o : List OutboxEvent) (p : List Message)
      → is_pending row ≡ true
      → IsAcknowledged env o p
      → IsAcknowledged env (put_event row o) p
  put_event-IsAcknowledged row o p waits k = λ e n over. elim (put_event-origin row o n) [
    | inl n' ↦ k e n' over
    | inr q ↦ absurd (let new = ap is_pending q in ground arith)
  ]
