-- ===== src/Repository/Selection.antt =====
-- The batch that `LockPending` selects, against what its statement asks for.
use share_trip.Base.{
  ℕ, zero, suc, ◌≡◌, refl, ap, ◌∙◌, ◌⊎◌, inl, inr, List, [], ◌∷◌, ◌++◌, arith, length, take, select,
  All, if◌then◌else◌, Bool-cases, ◌==◌,
}
use share_trip.Base.Int.{◌≤ℤ◌, leb_ℤ}
use mathlib.Core.List.{Perm}
use mathlib.Core.List.Perm
use share_trip.Domain.{Uuid, OutboxEvent}
use share_trip.Repository.Outbox.{
  is_pending, batch_limit, insert_by_age, order_by_age, oldest_pending, update_event,
}

-- Oldest first.
abbrev pub IsOrdered : List OutboxEvent → Type 0
IsOrdered [] = Unit
IsOrdered (e ∷ es) = All (λ (f : OutboxEvent). e.created_at ≤ℤ f.created_at) es × IsOrdered es

insert_by_age-perm : (e : OutboxEvent) (es : List OutboxEvent) → Perm (insert_by_age e es) (e ∷ es)
unfolding insert_by_age
insert_by_age-perm e [] = Perm.refl _
insert_by_age-perm e (f ∷ fs) = elim (Bool-cases (leb_ℤ e.created_at f.created_at)) [
  | inl older ↦ rw older (Perm.refl _)
  | inr younger ↦ rw younger (Perm.trans (Perm.cons f (insert_by_age-perm e fs)) (Perm.swap _ _ _))
]

order_by_age-perm : (es : List OutboxEvent) → Perm (order_by_age es) es
unfolding order_by_age
order_by_age-perm [] = Perm.refl _
order_by_age-perm (e ∷ es) =
    Perm.trans (insert_by_age-perm e (order_by_age es)) (Perm.cons e (order_by_age-perm es))

abbrev After : OutboxEvent → List OutboxEvent → Type 0
After e = All (λ (f : OutboxEvent). e.created_at ≤ℤ f.created_at)

After-trans :
    (e f : OutboxEvent) (es : List OutboxEvent)
    → e.created_at ≤ℤ f.created_at
    → After f es
    → After e es
After-trans e f [] h a = tt
After-trans e f (g ∷ gs) h a = (omega arith, After-trans e f gs h a.1)

After-insert_by_age :
    (e f : OutboxEvent) (es : List OutboxEvent)
    → f.created_at ≤ℤ e.created_at
    → After f es
    → After f (insert_by_age e es)
unfolding insert_by_age
After-insert_by_age e f [] h a = (h, tt)
After-insert_by_age e f (g ∷ gs) h a = ground (arith, After-insert_by_age e f gs h a.1)

insert_by_age-IsOrdered :
    (e : OutboxEvent) (es : List OutboxEvent) → IsOrdered es → IsOrdered (insert_by_age e es)
unfolding insert_by_age
insert_by_age-IsOrdered e [] o = (tt, tt)
insert_by_age-IsOrdered e (f ∷ fs) (a, o) = elim (Bool-cases (leb_ℤ e.created_at f.created_at)) [
  | inl older ↦
      let h : e.created_at ≤ℤ f.created_at = ground arith in
      rw older ((h, After-trans e f fs h a), (a, o))
  | inr younger ↦
      rw younger (After-insert_by_age e f fs (ground arith) a, insert_by_age-IsOrdered e fs o)
]

order_by_age-IsOrdered : (es : List OutboxEvent) → IsOrdered (order_by_age es)
unfolding order_by_age
order_by_age-IsOrdered [] = tt
order_by_age-IsOrdered (e ∷ es) = insert_by_age-IsOrdered e _ (order_by_age-IsOrdered es)

unfoldable pub drop_first : ℕ → List OutboxEvent → List OutboxEvent
drop_first zero es = es
drop_first (suc n) [] = []
drop_first (suc n) (e ∷ es) = drop_first n es

take-append-drop_first : (n : ℕ) (es : List OutboxEvent) → take n es ++ drop_first n es ≡ es
unfolding drop_first
take-append-drop_first zero es = refl
take-append-drop_first (suc n) [] = refl
take-append-drop_first (suc n) (e ∷ es) = ap (λ r. e ∷ r) (take-append-drop_first n es)

take_full : (n : ℕ) (es : List OutboxEvent) → (length (take n es) ≡ n) ⊎ (drop_first n es ≡ [])
unfolding drop_first
take_full zero es = inl refl
take_full (suc n) [] = inr refl
take_full (suc n) (e ∷ es) = elim (take_full n es) [ inl h ↦ inl (ap suc h) | inr h ↦ inr h ]

-- A batch and the events left out are the pending events, oldest first and the batch in front; it
-- holds 100 events unless it holds them all.
pub oldest_pending_lem :
    (es : List OutboxEvent)
    → (rest : List OutboxEvent) × Perm (oldest_pending es ++ rest) (select is_pending es)
      × IsOrdered (oldest_pending es ++ rest)
      × ((length (oldest_pending es) ≡ batch_limit) ⊎ (rest ≡ []))
unfolding oldest_pending
oldest_pending_lem es =
    let queue = order_by_age (select is_pending es) in
    let whole = take-append-drop_first batch_limit queue in
    (
      drop_first batch_limit queue,
      rw whole (order_by_age-perm (select is_pending es)),
      rw whole (order_by_age-IsOrdered (select is_pending es)),
      take_full batch_limit queue,
    )

-- A change that leaves a row's place in the queue alone.
pub record KeepsPlace (f : OutboxEvent → OutboxEvent) : Type 0 where
  pub status_kept : (e : OutboxEvent) → (f e).status ≡ e.status
  pub created_kept : (e : OutboxEvent) → (f e).created_at ≡ e.created_at

module _ (id : Uuid) (f : OutboxEvent → OutboxEvent) (k : KeepsPlace f) where
  abbrev changed : OutboxEvent → OutboxEvent
  changed e = if e.id == id then f e else e

  changed-status : (e : OutboxEvent) → (changed e).status ≡ e.status
  changed-status e = ground (arith, k.status_kept e)

  changed-created_at : (e : OutboxEvent) → (changed e).created_at ≡ e.created_at
  changed-created_at e = ground (arith, k.created_kept e)

  select-update_event :
      (es : List OutboxEvent)
      → select is_pending (update_event id f es) ≡ update_event id f (select is_pending es)
  unfolding update_event
  select-update_event [] = refl
  select-update_event (e ∷ es) = rw (changed-status e) (elim (Bool-cases (is_pending e)) [
    | inl h ↦ rw (h, select-update_event es)
    | inr h ↦ rw (h, select-update_event es)
  ])

  insert_by_age-update_event :
      (e : OutboxEvent) (es : List OutboxEvent)
      → insert_by_age (changed e) (update_event id f es) ≡ update_event id f (insert_by_age e es)
  unfolding insert_by_age update_event
  insert_by_age-update_event e [] = refl
  insert_by_age-update_event e (g ∷ gs) =
      rw (changed-created_at e, changed-created_at g)
        (elim (Bool-cases (leb_ℤ e.created_at g.created_at)) [
          | inl h ↦ rw h
          | inr h ↦ rw (h, insert_by_age-update_event e gs)
        ])

  order_by_age-update_event :
      (es : List OutboxEvent)
      → order_by_age (update_event id f es) ≡ update_event id f (order_by_age es)
  unfolding order_by_age update_event
  order_by_age-update_event [] = refl
  order_by_age-update_event (e ∷ es) =
      rw (order_by_age-update_event es) (insert_by_age-update_event e (order_by_age es))

  take-update_event :
      (n : ℕ) (es : List OutboxEvent)
      → take n (update_event id f es) ≡ update_event id f (take n es)
  unfolding update_event
  take-update_event zero es = refl
  take-update_event (suc n) [] = refl
  take-update_event (suc n) (e ∷ es) = ap (λ r. changed e ∷ r) (take-update_event n es)

  -- The selection follows such a change.
  pub oldest_pending-update_event :
      (es : List OutboxEvent)
      → oldest_pending (update_event id f es) ≡ update_event id f (oldest_pending es)
  unfolding oldest_pending
  oldest_pending-update_event es =
      ap (λ r. take batch_limit (order_by_age r)) (select-update_event es)
      ∙ ap (take batch_limit) (order_by_age-update_event (select is_pending es))
      ∙ take-update_event batch_limit (order_by_age (select is_pending es))
