-- ===== src/Events/Publishers/Sources.antt =====
-- Runs of publishers: the messages of the topic, against the rows of the outbox.
use share_trip.Base.{ℕ, refl, ◌≡◌, sym, subst, inl, inr, List, ◌∷◌}
use mathlib.Core.List.{Memᴰ}
use mathlib.Core.List.Memᴰ.{head}
use share_trip.Domain.{OutboxEvent}
use share_trip.World.{Message}
use share_trip.Env.{Env}
use share_trip.Repository.Outbox.{pending_row}
use share_trip.Repository.Members.{put_event-Mem}
use share_trip.Events.Topic.{Grows}
use share_trip.Events.Delivery.{Carries}
use share_trip.Events.Publishers.{
  todo_of, sending, Mark, Queue, Step, lock, turn, give_up, commit, roll_back, insert,
}
use share_trip.Events.Publishers.Twins.{apply_marks-SameEvents}
use share_trip.Events.Publishers.Exclusion.{IsExclusive}
use share_trip.Events.Publishers.Once.{inserted}
use share_trip.Events.Publishers.Receipts.{Carries-payload}
use share_trip.Events.Publishers.Acknowledged.{topic-Grows}

-- Every message carries an event of the outbox.
abbrev pub IsSourced : Env → List OutboxEvent → List Message → Type 0
IsSourced env o p = (m : Message) → Memᴰ m p → (e : OutboxEvent) × Memᴰ e o × Carries env e m

module _ (env : Env) where
  turn-IsSourced :
      (s : Queue) (i : ℕ) (e : OutboxEvent) (es todo : List OutboxEvent) (marks : List Mark)
      (p : List Message)
      → IsExclusive s
      → s.publisher i ≡ sending es (e ∷ todo) marks
      → Grows env e s.topic p
      → IsSourced env s.outbox s.topic
      → IsSourced env s.outbox p
  turn-IsSourced s i e es todo marks p x at_i g k = λ m n. elim (g.sources m n) [
    | inl old ↦ k m old
    | inr c ↦
        let was = x.ahead i e (subst (λ r. Memᴰ e (todo_of r)) (sym at_i) (head refl)) in
        (e, (x.current i e was).0, c)
  ]

  pub Step-IsSourced :
      {s t : Queue}
      → Step env s t
      → IsExclusive s
      → IsSourced env s.outbox s.topic
      → IsSourced env t.outbox t.topic
  Step-IsSourced (lock i free es w w' at_i skips seen got) x k = k
  Step-IsSourced {s} (turn i e es todo marks w w' at_i rows topic done) x k =
      turn-IsSourced s i e es todo marks w'.topic x at_i (topic-Grows env s e w w' topic done) k
  Step-IsSourced {s} (give_up i e es todo marks y w w' at_i rows topic done) x k =
      turn-IsSourced s i e es todo marks w'.topic x at_i (topic-Grows env s e w w' topic done) k
  Step-IsSourced {s} (commit i es marks at_i) x k = λ m n.
      let (e, there, c) = k m n in
      let (f, there', t) = (apply_marks-SameEvents marks s.outbox).forth e there in
      (f, there', Carries-payload env t.same_payload c)
  Step-IsSourced (roll_back i) x k = k
  Step-IsSourced {s} (insert event w w' same done) x k = λ m n.
      let (e, there, c) = k m n in
      (
        e,
        subst (λ l. Memᴰ e l) (sym (inserted env s event w w' same done))
            (put_event-Mem (pending_row event w.tx_time) s.outbox there),
        c,
      )
