-- ===== src/Repository/Backlog.antt =====
-- How many events wait, and how many are left when a batch of them is marked.
use share_trip.Base.{
  ℕ, zero, suc, ◌+◌, ◌-◌, ◌≤◌, ◌≡◌, refl, ap, ◌∙◌, Bool, true, false, not, inl, inr, List, [], ◌∷◌,
  arith, take, length, select, tally, if◌then◌else◌,
}
use mathlib.Core.List.{Memᴰ}
use mathlib.Core.List.Memᴰ
use mathlib.Core.List.Memᴰ.{head, tail}
use share_trip.Domain.{OutboxEvent}
use share_trip.Repository.Outbox.{
  is_pending, batch_limit, insert_by_age, order_by_age, oldest_pending, has_event,
}
use share_trip.Repository.Selection.{drop_first}
use share_trip.Repository.Members.{has_event-Mem}

abbrev pub backlog : List OutboxEvent → ℕ
backlog es = length (select is_pending es)

module _ (q : OutboxEvent → Bool) where
  tally-le-length : (es : List OutboxEvent) → tally q es ≤ length es
  tally-le-length [] = omega arith
  tally-le-length (e ∷ es) = ground (arith, tally-le-length es)

  tally-insert_by_age :
      (e : OutboxEvent) (es : List OutboxEvent) → tally q (insert_by_age e es) ≡ tally q (e ∷ es)
  unfolding insert_by_age
  tally-insert_by_age e [] = refl
  tally-insert_by_age e (f ∷ fs) = ground (arith, tally-insert_by_age e fs)

  tally-order_by_age : (es : List OutboxEvent) → tally q (order_by_age es) ≡ tally q es
  unfolding order_by_age
  tally-order_by_age [] = refl
  tally-order_by_age (e ∷ es) =
      tally-insert_by_age e (order_by_age es)
      ∙ ap (λ n. if q e then suc n else n) (tally-order_by_age es)

  tally-take :
      (n : ℕ) (es : List OutboxEvent) → tally q (take n es) + tally q (drop_first n es) ≡ tally q es
  unfolding drop_first
  tally-take zero es = omega arith
  tally-take (suc n) [] = omega arith
  tally-take (suc n) (e ∷ es) = ground (arith, tally-take n es)

  tally_none :
      (es : List OutboxEvent) → ((e : OutboxEvent) → Memᴰ e es → q e ≡ false) → tally q es ≡ 0
  tally_none [] h = refl
  tally_none (e ∷ es) h = ground (arith, h e (head refl), tally_none es (λ f m. h f (tail m)))

length-insert_by_age :
    (e : OutboxEvent) (es : List OutboxEvent) → length (insert_by_age e es) ≡ suc (length es)
unfolding insert_by_age
length-insert_by_age e [] = refl
length-insert_by_age e (f ∷ fs) = ground (arith, length-insert_by_age e fs)

length-order_by_age : (es : List OutboxEvent) → length (order_by_age es) ≡ length es
unfolding order_by_age
length-order_by_age [] = refl
length-order_by_age (e ∷ es) =
    length-insert_by_age e (order_by_age es) ∙ ap suc (length-order_by_age es)

length-drop_first : (n : ℕ) (es : List OutboxEvent) → length (drop_first n es) ≡ length es - n
unfolding drop_first
length-drop_first zero es = omega arith
length-drop_first (suc n) [] = omega arith
length-drop_first (suc n) (e ∷ es) = omega (arith, length-drop_first n es)

-- Neither in the batch.
abbrev pub is_left : List OutboxEvent → OutboxEvent → Bool
is_left es e = not (has_event e.id es)

-- Of the events that wait, those outside the batch are at most the ones behind it.
pub tally-is_left :
    (es : List OutboxEvent)
    → tally (is_left (oldest_pending es)) (select is_pending es) ≤ backlog es - batch_limit
unfolding oldest_pending
tally-is_left es =
    let queue = order_by_age (select is_pending es) in
    let batch = take batch_limit queue in
    let q = is_left batch in
    omega (
      arith,
      tally-order_by_age q (select is_pending es),
      tally-take q batch_limit queue,
      tally_none q batch (λ e m. ap not (has_event-Mem batch m)),
      tally-le-length q (drop_first batch_limit queue),
      length-drop_first batch_limit queue,
      length-order_by_age (select is_pending es),
    )

pub backlog-pos :
    (es : List OutboxEvent) {x : OutboxEvent} → Memᴰ x es → is_pending x ≡ true → 1 ≤ backlog es
backlog-pos [] m waits = absurd (Memᴰ.not-nil m)
backlog-pos (e ∷ es) m waits = elim (Memᴰ.cases_cons m) [
  | inl q ↦ let here = ap is_pending q in ground arith
  | inr r ↦ ground (arith, backlog-pos es r waits)
]
