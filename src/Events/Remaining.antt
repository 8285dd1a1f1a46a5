-- ===== src/Events/Remaining.antt =====
-- What waits in the outbox once a batch of it is marked as sent.
use share_trip.Base.{
  ◌≡◌, refl, sym, ap, ◌∙◌, subst, true, false, not, ◌&&◌, inl, inr, List, [], ◌∷◌, arith, select,
  tally, Bool-cases, ◌==◌,
}
use mathlib.Core.List.{Memᴰ}
use share_trip.Domain.{Uuid, Time, OutboxEvent}
use share_trip.Repository.Outbox.{is_pending, update_event, has_event}
use share_trip.Repository.Members.{
  IsKeyed, update_event-Mem, update_event-origin, update_event-IsKeyed,
}
use share_trip.Repository.Backlog.{backlog, is_left}
use share_trip.Events.Delivery.{as_sent}
use share_trip.Events.Progress.{all_sent}

-- The rows that wait after the batch `es` are those that have waited before, outside of it.
tally-update_event :
    (now : Time) (id : Uuid) (es o : List OutboxEvent)
    → tally (λ e. is_pending e && is_left es e) (update_event id (as_sent now) o)
      ≡ tally (λ e. is_pending e && (not (id == e.id) && is_left es e)) o
unfolding update_event
tally-update_event now id es [] = refl
tally-update_event now id es (e ∷ o) = elim (Bool-cases (e.id == id)) [
  | inl hit ↦
      let same : (id == e.id) ≡ true = ground arith in
      rw (hit, same) (ground (arith, tally-update_event now id es o))
  | inr miss ↦
      let other : (id == e.id) ≡ false = ground arith in
      rw (miss, other) (ground (arith, tally-update_event now id es o))
]

left-cons :
    (e : OutboxEvent) (es o : List OutboxEvent)
    → tally (λ x. is_pending x && (not (e.id == x.id) && is_left es x)) o
      ≡ tally (λ x. is_pending x && is_left (e ∷ es) x) o
unfolding has_event
left-cons e es [] = refl
left-cons e es (x ∷ o) = ground (arith, left-cons e es o)

tally-nil : (o : List OutboxEvent) → tally (λ e. is_pending e && is_left [] e) o ≡ backlog o
unfolding has_event
tally-nil [] = refl
tally-nil (e ∷ o) = ground (arith, tally-nil o)

pub backlog-all_sent :
    (now : Time) (es o : List OutboxEvent)
    → backlog (all_sent now es o) ≡ tally (λ e. is_pending e && is_left es e) o
unfolding all_sent
backlog-all_sent now [] o = sym (tally-nil o)
backlog-all_sent now (e ∷ es) o =
    backlog-all_sent now es (update_event e.id (as_sent now) o)
    ∙ tally-update_event now e.id es o
    ∙ left-cons e es o

pub tally-select :
    (es o : List OutboxEvent)
    → tally (λ e. is_pending e && is_left es e) o ≡ tally (is_left es) (select is_pending o)
tally-select es [] = refl
tally-select es (e ∷ o) = ground (arith, tally-select es o)

-- A row that waits after the batch has waited before, as it is.
pub waiting-all_sent :
    (now : Time) (es o : List OutboxEvent) {x : OutboxEvent}
    → is_pending x ≡ true
    → Memᴰ x (all_sent now es o)
    → Memᴰ x o
unfolding all_sent
waiting-all_sent now [] o waits m = m
waiting-all_sent now (e ∷ es) o {x} waits m =
    let n = waiting-all_sent now es (update_event e.id (as_sent now) o) waits m in
    let (r, there, q) = update_event-origin e.id (as_sent now) o n in
    elim (Bool-cases (r.id == e.id)) [
      | inl hit ↦ let over = ap is_pending (rw hit at q) in absurd (ground arith)
      | inr miss ↦ subst (λ y. Memᴰ y o) (sym (rw miss at q)) there
    ]

-- A row outside the batch is kept.
pub left-all_sent :
    (now : Time) (es o : List OutboxEvent) {x : OutboxEvent}
    → has_event x.id es ≡ false
    → Memᴰ x o
    → Memᴰ x (all_sent now es o)
unfolding all_sent has_event
left-all_sent now [] o out m = m
left-all_sent now (e ∷ es) o {x} out m =
    left-all_sent now es (update_event e.id (as_sent now) o) (ground arith)
      (update_event-Mem e.id (as_sent now) o (ground arith) m)

pub all_sent-IsKeyed :
    (now : Time) (es o : List OutboxEvent) → IsKeyed o → IsKeyed (all_sent now es o)
unfolding all_sent
all_sent-IsKeyed now [] o k = k
all_sent-IsKeyed now (e ∷ es) o k =
    all_sent-IsKeyed now es (update_event e.id (as_sent now) o)
      (update_event-IsKeyed e.id (as_sent now) (λ r. refl) o k)
