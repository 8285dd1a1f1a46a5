-- ===== src/Events/Publishers/Locking.antt =====
-- What a publisher holds after `LockPending`.
use share_trip.Base.{
  ℕ, ◌≡◌, ◌≢◌, ◌⊎◌, sym, ap, ◌∙◌, subst, Bool, true, inl, inr, List, [], at, select,
}
use mathlib.Core.List.{Memᴰ}
use mathlib.Core.List.Memᴰ
use share_trip.Result.{ok}
use share_trip.Domain.{Uuid, OutboxEvent}
use share_trip.World.{World}
use share_trip.Env.{Env}
use share_trip.Repository.Outbox
use share_trip.Repository.Outbox.{is_pending, oldest_pending}
use share_trip.Repository.Members.{select-Mem, oldest_pending-Mem}
use share_trip.Events.Batch.{lock_pending-eq-ok}
use share_trip.Events.Publishers.{sending, held, todo_of, marks_of, Queue, IsUnheld}
use share_trip.Events.Publishers.Exclusion.{IsExclusive, at-cases}

module _ (env : Env) where
  -- What a publisher locks is pending and was free.
  locked-IsFree :
      (s : Queue) (free : Uuid → Bool) (es : List OutboxEvent) (w w' : World) {e : OutboxEvent}
      → w.tables.outbox ≡ select (λ r. free r.id) s.outbox
      → Outbox.lock_pending env w ≡ (ok es, w')
      → Memᴰ e es
      → Memᴰ e s.outbox × (free e.id ≡ true) × (is_pending e ≡ true)
  locked-IsFree s free es w w' {e} seen got m =
      let (is_oldest, t, p) = lock_pending-eq-ok env w w' got in
      let m' = subst (λ l. Memᴰ e l) (is_oldest ∙ ap oldest_pending seen) m in
      let (n, pending) = oldest_pending-Mem (select (λ r. free r.id) s.outbox) m' in
      let (n', is_free) = select-Mem (λ r. free r.id) s.outbox n in (n', is_free, pending)

  module _ (s : Queue) (i : ℕ) (free : Uuid → Bool) (es : List OutboxEvent) (w w' : World)
      (x : IsExclusive s) (skips : (id : Uuid) → free id ≡ true → IsUnheld id s)
      (seen : w.tables.outbox ≡ select (λ r. free r.id) s.outbox)
      (got : Outbox.lock_pending env w ≡ (ok es, w')) where
    -- What a publisher holds after `i` has locked `es`.
    held-locking :
        (a : ℕ) {e : OutboxEvent}
        → Memᴰ e (held (at s.publisher i (sending es es []) a))
        → ((i ≡ a) × Memᴰ e es) ⊎ Memᴰ e (held (s.publisher a))
    held-locking a {e} m = elim (at-cases s.publisher i a (sending es es [])) [
      | inl (p, q) ↦ inl (p, subst (λ r. Memᴰ e (held r)) q m)
      | inr (ne, q) ↦ inr (subst (λ r. Memᴰ e (held r)) q m)
    ]

    unheld : (a : ℕ) {e f : OutboxEvent} → Memᴰ e es → Memᴰ f (held (s.publisher a)) → e.id ≢ f.id
    unheld a {e} {f} m n q =
        let (m', is_free, pending) = locked-IsFree s free es w w' seen got m in
        skips e.id is_free a f n (sym q)

    pub lock-IsExclusive :
        IsExclusive (record s { publisher = at s.publisher i (sending es es []) })
    lock-IsExclusive = record {
      keyed = x.keyed;
      exclusive = λ a b e f m n q. elim (held-locking a m) [
        | inl (p, m') ↦ elim (held-locking b n) [
          | inl (r, n') ↦ sym p ∙ r
          | inr n' ↦ absurd (unheld b m' n' q)
        ]
        | inr m' ↦ elim (held-locking b n) [
          | inl (r, n') ↦ absurd (unheld a n' m' (sym q))
          | inr n' ↦ x.exclusive a b e f m' n' q
        ]
      ];
      current = λ a e m. elim (held-locking a m) [
        | inl (p, m') ↦
            let (n, is_free, pending) = locked-IsFree s free es w w' seen got m' in (n, pending)
        | inr m' ↦ x.current a e m'
      ];
      ahead = λ a e m. elim (at-cases s.publisher i a (sending es es [])) [
        | inl (p, q) ↦ subst (λ r. Memᴰ e (held r)) (sym q) (subst (λ r. Memᴰ e (todo_of r)) q m)
        | inr (ne, q) ↦
            subst (λ r. Memᴰ e (held r)) (sym q) (x.ahead a e (subst (λ r. Memᴰ e (todo_of r)) q m))
      ];
      within = λ a mk m. elim (at-cases s.publisher i a (sending es es [])) [
        | inl (p, q) ↦ absurd (Memᴰ.not-nil (subst (λ r. Memᴰ mk (marks_of r)) q m))
        | inr (ne, q) ↦
            let (e, n, same) = x.within a mk (subst (λ r. Memᴰ mk (marks_of r)) q m) in
            (e, subst (λ r. Memᴰ e (held r)) (sym q) n, same)
      ];
    }
