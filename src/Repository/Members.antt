-- ===== src/Repository/Members.antt =====
-- Which rows the statements on the outbox select, keep and change.
use share_trip.Base.{
  ◌⊎◌, ℕ, zero, suc, ◌≡◌, ◌≢◌, refl, sym, ap, ◌∙◌, inl, inr, Bool, true, List, [], ◌∷◌, arith, take,
  select, if◌then◌else◌, Bool-cases, ◌==◌, false,
}
use share_trip.Base.Int.{leb_ℤ}
use mathlib.Core.List.{Memᴰ}
use mathlib.Core.List.Memᴰ
use mathlib.Core.List.Memᴰ.{head, tail}
use share_trip.Domain.{Uuid, OutboxEvent}
use share_trip.Repository.Outbox.{
  is_pending, batch_limit, insert_by_age, order_by_age, oldest_pending, update_event, put_event,
  has_event,
}

take-Mem : (n : ℕ) (es : List OutboxEvent) {x : OutboxEvent} → Memᴰ x (take n es) → Memᴰ x es
take-Mem zero es m = absurd (Memᴰ.not-nil m)
take-Mem (suc n) [] m = m
take-Mem (suc n) (e ∷ es) m = elim (Memᴰ.cases_cons m) [
  | inl p ↦ head p
  | inr r ↦ tail (take-Mem n es r)
]

pub select-Mem :
    (p : OutboxEvent → Bool) (es : List OutboxEvent) {x : OutboxEvent}
    → Memᴰ x (select p es)
    → Memᴰ x es × (p x ≡ true)
select-Mem p [] m = absurd (Memᴰ.not-nil m)
select-Mem p (e ∷ es) {x} m = elim (Bool-cases (p e)) [
  | inl h ↦ elim (Memᴰ.cases_cons (rw h at m)) [
    | inl q ↦ (head q, ap p q ∙ h)
    | inr r ↦ let (m', t) = select-Mem p es r in (tail m', t)
  ]
  | inr h ↦ let (m', t) = select-Mem p es (rw h at m) in (tail m', t)
]

insert_by_age-Mem :
    (e : OutboxEvent) (es : List OutboxEvent) {x : OutboxEvent}
    → Memᴰ x (insert_by_age e es)
    → Memᴰ x (e ∷ es)
unfolding insert_by_age
insert_by_age-Mem e [] m = m
insert_by_age-Mem e (f ∷ fs) m = elim (Bool-cases (leb_ℤ e.created_at f.created_at)) [
  | inl h ↦ rw h at m
  | inr h ↦ elim (Memᴰ.cases_cons (rw h at m)) [
    | inl q ↦ tail (head q)
    | inr r ↦ elim (Memᴰ.cases_cons (insert_by_age-Mem e fs r)) [
      | inl q ↦ head q
      | inr r' ↦ tail (tail r')
    ]
  ]
]

order_by_age-Mem : (es : List OutboxEvent) {x : OutboxEvent} → Memᴰ x (order_by_age es) → Memᴰ x es
unfolding order_by_age
order_by_age-Mem [] m = m
order_by_age-Mem (e ∷ es) m = elim (Memᴰ.cases_cons (insert_by_age-Mem e (order_by_age es) m)) [
  | inl q ↦ head q
  | inr r ↦ tail (order_by_age-Mem es r)
]

-- A selected row is a pending row of the table.
pub oldest_pending-Mem :
    (es : List OutboxEvent) {x : OutboxEvent}
    → Memᴰ x (oldest_pending es)
    → Memᴰ x es × (is_pending x ≡ true)
unfolding oldest_pending
oldest_pending-Mem es m =
    select-Mem is_pending es (order_by_age-Mem (select is_pending es) (take-Mem batch_limit _ m))

-- The primary key: rows with one id are one row.
abbrev pub IsKeyed : List OutboxEvent → Type 0
IsKeyed es = (e f : OutboxEvent) → Memᴰ e es → Memᴰ f es → e.id ≡ f.id → e ≡ f

pub has_event-Mem : (es : List OutboxEvent) {x : OutboxEvent} → Memᴰ x es → has_event x.id es ≡ true
unfolding has_event
has_event-Mem [] m = absurd (Memᴰ.not-nil m)
has_event-Mem (e ∷ es) {x} m = elim (Memᴰ.cases_cons m) [
  | inl q ↦ let same : e.id ≡ x.id = ap (λ (r : OutboxEvent). r.id) (sym q) in ground arith
  | inr r ↦ ground (arith, has_event-Mem es r)
]

pub has_event-origin :
    (id : Uuid) (es : List OutboxEvent)
    → has_event id es ≡ true
    → (e : OutboxEvent) × Memᴰ e es × (e.id ≡ id)
unfolding has_event
has_event-origin id [] h = absurd (ground arith)
has_event-origin id (e ∷ es) h = elim (Bool-cases (e.id == id)) [
  | inl hit ↦ (e, head refl, ground arith)
  | inr miss ↦ let (f, m, q) = has_event-origin id es (ground arith) in (f, tail m, q)
]

-- An insertion keeps every row, and the key.
pub put_event-Mem :
    (row : OutboxEvent) (es : List OutboxEvent) {x : OutboxEvent}
    → Memᴰ x es
    → Memᴰ x (put_event row es)
unfolding put_event
put_event-Mem row es m = elim (Bool-cases (has_event row.id es)) [
  | inl h ↦ rw (put_event, h) m
  | inr h ↦ rw (put_event, h) (Memᴰ.append_left (row ∷ []) m)
]

-- A row under a new id is there afterwards.
pub put_event-Mem_self :
    (row : OutboxEvent) (es : List OutboxEvent)
    → has_event row.id es ≡ false
    → Memᴰ row (put_event row es)
unfolding put_event
put_event-Mem_self row es h = rw (put_event, h) (Memᴰ.append_right es (Memᴰ.head refl))

pub put_event-origin :
    (row : OutboxEvent) (es : List OutboxEvent) {x : OutboxEvent}
    → Memᴰ x (put_event row es)
    → Memᴰ x es ⊎ (x ≡ row)
unfolding put_event
put_event-origin row es m = elim (Bool-cases (has_event row.id es)) [
  | inl h ↦ inl (rw (put_event, h) at m)
  | inr h ↦ elim (Memᴰ.append_cases es (rw (put_event, h) at m)) [
    | inl n ↦ inl n
    | inr n ↦ inr (Memᴰ.eq_of_singleton n)
  ]
]

pub put_event-IsKeyed :
    (row : OutboxEvent) (es : List OutboxEvent) → IsKeyed es → IsKeyed (put_event row es)
unfolding put_event
put_event-IsKeyed row es k e f a b same = elim (Bool-cases (has_event row.id es)) [
  | inl h ↦ k e f (rw (put_event, h) at a) (rw (put_event, h) at b) same
  | inr h ↦
      let fresh : (x : OutboxEvent) → Memᴰ x es → x.id ≢ row.id =
        λ x m q. absurd (let here = has_event-Mem es m in ground arith) in
      elim (Memᴰ.append_cases es (rw (put_event, h) at a)) [
        | inl m ↦ elim (Memᴰ.append_cases es (rw (put_event, h) at b)) [
          | inl n ↦ k e f m n same
          | inr n ↦
              absurd (fresh e m (same ∙ ap (λ (r : OutboxEvent). r.id) (Memᴰ.eq_of_singleton n)))
        ]
        | inr m ↦ elim (Memᴰ.append_cases es (rw (put_event, h) at b)) [
          | inl n ↦
              absurd
                (fresh f n (sym same ∙ ap (λ (r : OutboxEvent). r.id) (Memᴰ.eq_of_singleton m)))
          | inr n ↦ Memᴰ.eq_of_singleton m ∙ sym (Memᴰ.eq_of_singleton n)
        ]
      ]
]

module _ (id : Uuid) (f : OutboxEvent → OutboxEvent) where
  abbrev pub updated : OutboxEvent → OutboxEvent
  updated e = if e.id == id then f e else e

  -- A row with another id is kept.
  pub update_event-Mem :
      (es : List OutboxEvent) {x : OutboxEvent}
      → x.id ≢ id
      → Memᴰ x es
      → Memᴰ x (update_event id f es)
  unfolding update_event
  update_event-Mem [] ne m = m
  update_event-Mem (e ∷ es) {x} ne m = elim (Memᴰ.cases_cons m) [
    | inl q ↦
        let other : e.id ≢ id = λ r. ne (ap (λ (y : OutboxEvent). y.id) q ∙ r) in
        let same : updated e ≡ e = ground arith in head (q ∙ sym same)
    | inr r ↦ tail (update_event-Mem es ne r)
  ]

  pub Mem-update_event :
      (es : List OutboxEvent) {x : OutboxEvent}
      → Memᴰ x es
      → Memᴰ (updated x) (update_event id f es)
  unfolding update_event
  Mem-update_event [] m = absurd (Memᴰ.not-nil m)
  Mem-update_event (e ∷ es) m = elim (Memᴰ.cases_cons m) [
    | inl q ↦ head (ap updated q)
    | inr r ↦ tail (Mem-update_event es r)
  ]

  pub update_event-origin :
      (es : List OutboxEvent) {x : OutboxEvent}
      → Memᴰ x (update_event id f es)
      → (e : OutboxEvent) × Memᴰ e es × (x ≡ updated e)
  unfolding update_event
  update_event-origin [] m = absurd (Memᴰ.not-nil m)
  update_event-origin (e ∷ es) m = elim (Memᴰ.cases_cons m) [
    | inl q ↦ (e, head refl, q)
    | inr r ↦ let (e', m', q) = update_event-origin es r in (e', tail m', q)
  ]

  pub update_event-IsKeyed :
      ((e : OutboxEvent) → (f e).id ≡ e.id)
      → (es : List OutboxEvent) → IsKeyed es
      → IsKeyed (update_event id f es)
  update_event-IsKeyed keeps es k a b m n same =
      let (e, at_e, p) = update_event-origin es m in
      let (e', at_e', q) = update_event-origin es n in
      let id_of : (y : OutboxEvent) → (updated y).id ≡ y.id = λ y. ground (arith, keeps y) in
      let ids : e.id ≡ e'.id =
        sym (id_of e)
        ∙ ap (λ (y : OutboxEvent). y.id) (sym p)
        ∙ same
        ∙ ap (λ (y : OutboxEvent). y.id) q
        ∙ id_of e' in
      p ∙ ap updated (k e e' at_e at_e' ids) ∙ sym q
