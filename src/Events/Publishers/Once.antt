-- ===== src/Events/Publishers/Once.antt =====
-- Runs of publishers: the steps taken together, and what becomes of a row that is no longer pending.
use share_trip.Base.{ℕ, [], List, ◌≢◌, arith, ◌≡◌, sym, ap, ◌∙◌, subst, false}
use mathlib.Core.List.{Memᴰ}
use share_trip.Result.{ok}
use share_trip.Domain.{OutboxEvent}
use share_trip.World.{World, Tables}
use share_trip.Env.{Env}
use share_trip.Repository.Outbox
use share_trip.Repository.Outbox.{is_pending, pending_row, put_event}
use share_trip.Repository.Effects.{create_outbox_event-eq-ok}
use share_trip.Repository.Members.{put_event-Mem, put_event-IsKeyed}
use share_trip.Events.Publishers.{
  held, Queue, mark_of, Step, lock, turn, give_up, commit, roll_back, insert, Run, here, later,
}
use share_trip.Events.Publishers.Turns.{publish_event-mark_of}
use share_trip.Events.Publishers.Exclusion.{
  IsExclusive, ending, turn-IsExclusive, commit-IsExclusive, commit-Mem,
}
use share_trip.Events.Publishers.Locking.{lock-IsExclusive}

module _ (env : Env) where
  pub inserted :
      (s : Queue) (event : OutboxEvent) (w w' : World)
      → w.tables.outbox ≡ s.outbox
      → Outbox.create_outbox_event env event w ≡ (ok tt, w')
      → w'.tables.outbox ≡ put_event (pending_row event w.tx_time) s.outbox
  inserted s event w w' same done =
      ap (λ (t : Tables). t.outbox) (create_outbox_event-eq-ok env w w' event done)
      ∙ ap (put_event (pending_row event w.tx_time)) same

  -- A new row leaves the publishers alone.
  pub put_event-IsExclusive :
      (s : Queue) (row : OutboxEvent) (o : List OutboxEvent)
      → o ≡ put_event row s.outbox
      → IsExclusive s
      → IsExclusive (record s { outbox = o })
  put_event-IsExclusive s row o e x = record {
    keyed = rw e (put_event-IsKeyed row s.outbox x.keyed);
    exclusive = x.exclusive;
    current = λ i f m.
        let (n, pending) = x.current i f m in
        (subst (λ l. Memᴰ f l) (sym e) (put_event-Mem row s.outbox n), pending);
    ahead = x.ahead;
    within = x.within;
  }

  pub Step-IsExclusive : {s t : Queue} → Step env s t → IsExclusive s → IsExclusive t
  Step-IsExclusive {s} (lock i free es w w' at_i skips seen got) x =
      lock-IsExclusive env s i free es w w' x (λ id. (skips id).0) seen got
  Step-IsExclusive {s} (turn i e es todo marks w w' at_i rows topic done) x =
      turn-IsExclusive s i x e es todo marks (mark_of env e w) w'.topic at_i
        (publish_event-mark_of env e w w' done).0
  Step-IsExclusive {s} (give_up i e es todo marks y w w' at_i rows topic done) x =
      ending s i x s.outbox w'.topic x.keyed (λ j f ne m. (x.current j f m).0)
  Step-IsExclusive {s} (commit i es marks at_i) x = commit-IsExclusive s i x es [] marks at_i
  Step-IsExclusive {s} (roll_back i) x =
      ending s i x s.outbox s.topic x.keyed (λ j f ne m. (x.current j f m).0)
  Step-IsExclusive {s} (insert event w w' same done) x =
      put_event-IsExclusive s (pending_row event w.tx_time) w'.tables.outbox
        (inserted s event w w' same done) x

  -- However publishers and publications interleave from a state in order, the state stays in order:
  -- rows with one id are one row, no event is held by two publishers, and an event that a publisher
  -- holds is pending and has the row that it read.
  pub Run-IsExclusive : {s t : Queue} → IsExclusive s → Run env s t → IsExclusive t
  Run-IsExclusive x here = x
  Run-IsExclusive x (later r st) = Step-IsExclusive st (Run-IsExclusive x r)

  Step-sent :
      {s t : Queue} (e : OutboxEvent)
      → Step env s t
      → IsExclusive s
      → is_pending e ≡ false
      → Memᴰ e s.outbox
      → Memᴰ e t.outbox
  Step-sent e (lock i free es w w' at_i skips seen got) x over m = m
  Step-sent e (turn i f es todo marks w w' at_i rows topic done) x over m = m
  Step-sent e (give_up i f es todo marks y w w' at_i rows topic done) x over m = m
  Step-sent {s} e (commit i es marks at_i) x over m = commit-Mem s i x es [] marks at_i over m
  Step-sent e (roll_back i) x over m = m
  Step-sent {s} e (insert event w w' same done) x over m =
      subst (λ l. Memᴰ e l) (sym (inserted s event w w' same done))
        (put_event-Mem (pending_row event w.tx_time) s.outbox m)

  -- From a state in order, however publishers and publications interleave: an event that is no longer
  -- pending keeps its row, and no publisher holds it again.
  pub sent_once :
      {s t : Queue} (e : OutboxEvent)
      → IsExclusive s
      → Run env s t
      → is_pending e ≡ false
      → Memᴰ e s.outbox
      → Memᴰ e t.outbox × ((i : ℕ) (f : OutboxEvent) → Memᴰ f (held (t.publisher i)) → f.id ≢ e.id)
  sent_once {s} {t} e x r over m =
      let n = kept r in
      let y = Run-IsExclusive x r in
      (
        n,
        λ i f held_f q.
            let (m', pending) = y.current i f held_f in
            let same = ap is_pending (y.keyed f e m' n q) in absurd (ground arith),
      )
    where
      kept : {u : Queue} → Run env s u → Memᴰ e u.outbox
      kept here = m
      kept (later r' st) = Step-sent e st (Run-IsExclusive x r') over (kept r')
