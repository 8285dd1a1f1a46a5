-- ===== src/Events/Publishers/Exclusion.antt =====
-- What publishers at the same time hold, and what becomes of a row.
use share_trip.Base.{
  ℕ, ◌≡◌, ◌≢◌, ◌⊎◌, refl, sym, ap, ◌∙◌, subst, true, false, inl, inr, List, [], ◌∷◌, ◌++◌, at,
  arith, Bool-cases, ◌==◌,
}
use mathlib.Core.List.{Memᴰ}
use mathlib.Core.List.Memᴰ
use mathlib.Core.List.Memᴰ.{head, tail}
use share_trip.Domain.{OutboxEvent}
use share_trip.World.{Message}
use share_trip.Repository.Outbox.{is_pending}
use share_trip.Repository.Members.{IsKeyed}
use share_trip.Events.Publishers.{
  Publisher, resting, sending, held, todo_of, marks_of, Mark, mark_id, apply_marks, Queue,
}
use share_trip.Events.Publishers.Turns.{apply_marks-Mem, apply_marks-IsKeyed}

pub record IsExclusive (s : Queue) : Type 0 where
  pub keyed : IsKeyed s.outbox
  -- Publishers that hold one row are one.
  pub exclusive :
      (i j : ℕ) (e f : OutboxEvent)
      → Memᴰ e (held (s.publisher i))
      → Memᴰ f (held (s.publisher j))
      → e.id ≡ f.id
      → i ≡ j
  -- A held row is pending, and as it was read.
  pub current :
      (i : ℕ) (e : OutboxEvent)
      → Memᴰ e (held (s.publisher i))
      → Memᴰ e s.outbox × (is_pending e ≡ true)
  -- A publisher sends and marks what it holds.
  pub ahead :
      (i : ℕ) (e : OutboxEvent) → Memᴰ e (todo_of (s.publisher i)) → Memᴰ e (held (s.publisher i))
  pub within :
      (i : ℕ) (mk : Mark)
      → Memᴰ mk (marks_of (s.publisher i))
      → (e : OutboxEvent) × Memᴰ e (held (s.publisher i)) × (mark_id mk ≡ e.id)

pub at-cases :
    (f : ℕ → Publisher) (i a : ℕ) (p : Publisher)
    → ((i ≡ a) × (at f i p a ≡ p)) ⊎ ((i ≢ a) × (at f i p a ≡ f a))
at-cases f i a p = elim (Bool-cases (i == a)) [
  | inl h ↦ inl (ground arith, rw h refl)
  | inr h ↦ inr (ground arith, rw h refl)
]

module _ (s : Queue) (i : ℕ) (x : IsExclusive s) where
  -- A publisher that ends holds nothing, and the others hold what they held.
  held-resting :
      (a : ℕ) {e : OutboxEvent}
      → Memᴰ e (held (at s.publisher i resting a))
      → (i ≢ a) × Memᴰ e (held (s.publisher a))
  held-resting a {e} m = elim (at-cases s.publisher i a resting) [
    | inl (p, q) ↦ absurd (Memᴰ.not-nil (subst (λ r. Memᴰ e (held r)) q m))
    | inr (ne, q) ↦ (ne, subst (λ r. Memᴰ e (held r)) q m)
  ]

  -- An ending, where the rows that the others hold are kept.
  pub ending :
      (o : List OutboxEvent) (p : List Message)
      → IsKeyed o
      → ((j : ℕ) (e : OutboxEvent) → i ≢ j → Memᴰ e (held (s.publisher j)) → Memᴰ e o)
      → IsExclusive (record { outbox = o; topic = p; publisher = at s.publisher i resting })
  ending o p k kept = record {
    keyed = k;
    exclusive = λ a b e f m n q. x.exclusive a b e f (held-resting a m).1 (held-resting b n).1 q;
    current = λ a e m. let (ne, m') = held-resting a m in (kept a e ne m', (x.current a e m').1);
    ahead = λ a e m. elim (at-cases s.publisher i a resting) [
      | inl (p, q) ↦ absurd (Memᴰ.not-nil (subst (λ r. Memᴰ e (todo_of r)) q m))
      | inr (ne, q) ↦
          subst (λ r. Memᴰ e (held r)) (sym q) (x.ahead a e (subst (λ r. Memᴰ e (todo_of r)) q m))
    ];
    within = λ a mk m. elim (at-cases s.publisher i a resting) [
      | inl (p, q) ↦ absurd (Memᴰ.not-nil (subst (λ r. Memᴰ mk (marks_of r)) q m))
      | inr (ne, q) ↦
          let (e, n, same) = x.within a mk (subst (λ r. Memᴰ mk (marks_of r)) q m) in
          (e, subst (λ r. Memᴰ e (held r)) (sym q) n, same)
    ];
  }

  module _ (es todo : List OutboxEvent) (marks : List Mark)
      (at_i : s.publisher i ≡ sending es todo marks) where
    pub held-sending : {e : OutboxEvent} → Memᴰ e es → Memᴰ e (held (s.publisher i))
    held-sending {e} m = subst (λ p. Memᴰ e (held p)) (sym at_i) m

    -- Each mark is on a held row.
    marked-held :
        {mk : Mark}
        → Memᴰ mk marks
        → (e : OutboxEvent) × Memᴰ e (held (s.publisher i)) × (mark_id mk ≡ e.id)
    marked-held {mk} m = x.within i mk (subst (λ p. Memᴰ mk (marks_of p)) (sym at_i) m)

    pub commit-IsExclusive :
        IsExclusive
          (record s { outbox = apply_marks marks s.outbox; publisher = at s.publisher i resting })
    commit-IsExclusive =
        ending (apply_marks marks s.outbox) s.topic (apply_marks-IsKeyed marks s.outbox x.keyed)
          (λ j e ne m.
            apply_marks-Mem marks s.outbox
              (λ mk n q.
                let (f, held_f, same) = marked-held n in
                ne (x.exclusive i j f e held_f m (sym (q ∙ same))))
              (x.current j e m).0)

    -- A row that is not pending is not touched.
    pub commit-Mem :
        {e : OutboxEvent}
        → is_pending e ≡ false
        → Memᴰ e s.outbox
        → Memᴰ e (apply_marks marks s.outbox)
    commit-Mem {e} over m =
        apply_marks-Mem marks s.outbox
          (λ mk n q.
            let (f, held_f, id_of) = marked-held n in
            let (m', pending) = x.current i f held_f in
            let same = ap is_pending (x.keyed e f m m' (q ∙ id_of)) in absurd (ground arith))
          m

  -- A turn: the rows that are held stay the same.
  module _ (e : OutboxEvent) (es todo : List OutboxEvent) (marks : List Mark) (mk : Mark)
      (p : List Message) (at_i : s.publisher i ≡ sending es (e ∷ todo) marks)
      (id_of : mark_id mk ≡ e.id) where
    abbrev turned : Publisher
    turned = sending es todo (marks ++ (mk ∷ []))

    held-turned :
        (a : ℕ) {f : OutboxEvent}
        → Memᴰ f (held (at s.publisher i turned a))
        → Memᴰ f (held (s.publisher a))
    held-turned a {f} m = elim (at-cases s.publisher i a turned) [
      | inl (same, q) ↦
          subst (λ j. Memᴰ f (held (s.publisher j))) same
            (held-sending es (e ∷ todo) marks at_i (subst (λ r. Memᴰ f (held r)) q m))
      | inr (ne, q) ↦ subst (λ r. Memᴰ f (held r)) q m
    ]

    pub turn-IsExclusive : IsExclusive (record s { topic = p; publisher = at s.publisher i turned })
    turn-IsExclusive = record {
      keyed = x.keyed;
      exclusive = λ a b f g m n q. x.exclusive a b f g (held-turned a m) (held-turned b n) q;
      current = λ a f m. x.current a f (held-turned a m);
      ahead = λ a f m. elim (at-cases s.publisher i a turned) [
        | inl (same, q) ↦
            let n = subst (λ r. Memᴰ f (todo_of r)) q m in
            let was = x.ahead i f (subst (λ r. Memᴰ f (todo_of r)) (sym at_i) (tail n)) in
            subst (λ r. Memᴰ f (held r)) (sym q) (subst (λ r. Memᴰ f (held r)) at_i was)
        | inr (ne, q) ↦
            subst (λ r. Memᴰ f (held r)) (sym q) (x.ahead a f (subst (λ r. Memᴰ f (todo_of r)) q m))
      ];
      within = λ a nk m. elim (at-cases s.publisher i a turned) [
        | inl (same, q) ↦ elim (Memᴰ.append_cases marks (subst (λ r. Memᴰ nk (marks_of r)) q m)) [
          | inl old ↦
              let (f, n, id) = marked-held es (e ∷ todo) marks at_i old in
              (f, subst (λ r. Memᴰ f (held r)) (sym q) (subst (λ r. Memᴰ f (held r)) at_i n), id)
          | inr new ↦
              let was = x.ahead i e (subst (λ r. Memᴰ e (todo_of r)) (sym at_i) (head refl)) in
              (
                e,
                subst (λ r. Memᴰ e (held r)) (sym q) (subst (λ r. Memᴰ e (held r)) at_i was),
                ap mark_id (Memᴰ.eq_of_singleton new) ∙ id_of,
              )
        ]
        | inr (ne, q) ↦
            let (f, n, id) = x.within a nk (subst (λ r. Memᴰ nk (marks_of r)) q m) in
            (f, subst (λ r. Memᴰ f (held r)) (sym q) n, id)
      ];
    }
