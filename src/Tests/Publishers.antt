-- ===== src/Tests/Publishers.antt =====
-- Two publishers, of which the second passes over what the first holds.
use share_trip.Base.{
  ℕ, ◌≡◌, ◌≢◌, refl, sym, ap, ◌∙◌, arith, not, Bool, true, false, some, inl, inr, List, [], ◌∷◌, at,
  select, Bool-cases, ◌==◌,
}
use share_trip.Base.Int.{pos}
use mathlib.Core.List.{Memᴰ}
use mathlib.Core.List.Memᴰ
use mathlib.Core.List.Memᴰ.{head}
use share_trip.Result.{ok}
use share_trip.Domain.{Uuid, OutboxEvent}
use share_trip.World.{World}
use share_trip.Repository.Outbox
use share_trip.Repository.Outbox.{is_pending, pending_row}
use share_trip.Events.{producer, publish_event}
use share_trip.Events.Publishers.{
  Mark, mark_of, apply_marks, Queue, resting, sending, held, Step, lock, turn, commit, roll_back,
  insert, Run, here, later,
}
use share_trip.Events.Publishers.Exclusion.{IsExclusive}
use share_trip.Events.Publishers.Once.{Run-IsExclusive, sent_once}
use share_trip.Wiring.{outbox_queue}
use share_trip.Tests.Setup.{env, event, queued}

abbrev first : OutboxEvent
first = event 1002 "1002,2" 5

abbrev second : OutboxEvent
second = pending_row (event 1003 "1003,3" 6) (pos 0)

abbrev calm : Queue
calm = record { outbox = first ∷ []; topic = []; publisher = λ i. resting }

calm-IsExclusive : IsExclusive calm
calm-IsExclusive = record {
  keyed = λ e f m n q. Memᴰ.eq_of_singleton m ∙ sym (Memᴰ.eq_of_singleton n);
  exclusive = λ i j e f m n q. absurd (Memᴰ.not-nil m);
  current = λ i e m. absurd (Memᴰ.not-nil m);
  ahead = λ i e m. absurd (Memᴰ.not-nil m);
  within = λ i mk m. absurd (Memᴰ.not-nil m);
}

abbrev before_lock : World
before_lock = queued (first ∷ [])

abbrev one_locks : Queue
one_locks = record calm { publisher = at (λ i. resting) 0 (sending (first ∷ []) (first ∷ []) []) }

first_batch :
    Outbox.lock_pending env before_lock ≡ (ok (first ∷ []), (Outbox.lock_pending env before_lock).1)
unfolding Outbox.lock_pending
first_batch = refl

abbrev both : World
both = (Outbox.create_outbox_event env (event 1003 "1003,3" 6) before_lock).1

inserts : Outbox.create_outbox_event env (event 1003 "1003,3" 6) before_lock ≡ (ok tt, both)
unfolding Outbox.create_outbox_event
inserts = refl

abbrev grown : Queue
grown = record one_locks { outbox = both.tables.outbox }

abbrev free : Uuid → Bool
free id = not (id == 1002)

abbrev unlocked : World
unlocked = queued (second ∷ [])

second_batch :
    Outbox.lock_pending env unlocked ≡ (ok (second ∷ []), (Outbox.lock_pending env unlocked).1)
unfolding Outbox.lock_pending pending_row
second_batch = refl

only_first : (j : ℕ) (e : OutboxEvent) → Memᴰ e (held (grown.publisher j)) → e.id ≡ 1002
only_first j e m = elim (Bool-cases (0 == j)) [
  | inl h ↦ ap (λ (r : OutboxEvent). r.id) (Memᴰ.eq_of_singleton (rw h at m))
  | inr h ↦ absurd (Memᴰ.not-nil (rw h at m))
]

abbrev two_lock : Queue
two_lock = record grown {
  publisher = at grown.publisher 1 (sending (second ∷ []) (second ∷ []) []);
}

grown_rows : (queued (second ∷ [])).tables.outbox ≡ select (λ r. free r.id) grown.outbox
unfolding Outbox.create_outbox_event Outbox.put_event pending_row
grown_rows = refl

to_two_lock : Run env calm two_lock
to_two_lock =
    later
      (later
        (later here (
          lock 0 (λ id. true) (first ∷ []) before_lock (Outbox.lock_pending env before_lock).1 refl
            (λ id. (λ h j e m. absurd (Memᴰ.not-nil m), λ h. refl)) refl first_batch))
        (insert (event 1003 "1003,3" 6) before_lock both refl inserts))
      (lock 1 free (second ∷ []) unlocked (Outbox.lock_pending env unlocked).1 refl
        (λ id. (
          λ h j e m. let key = only_first j e m in ground arith,
          λ h. let ne = h 0 first (head refl) in ground arith,
        ))
        grown_rows second_batch)

abbrev sent_world : World
sent_world = (publish_event env (outbox_queue env) (producer env) first both).1

sends : publish_event env (outbox_queue env) (producer env) first both ≡ (ok tt, sent_world)
unfolding Outbox.create_outbox_event publish_event share_trip.Base.Text.split
    share_trip.Events.produce Outbox.mark_sent
sends = refl

abbrev mark : Mark
mark = mark_of env first both

abbrev one_turn : Queue
one_turn = record two_lock {
  topic = sent_world.topic;
  publisher = at two_lock.publisher 0 (sending (first ∷ []) [] (mark ∷ []));
}

unmarked : both.tables.outbox ≡ apply_marks [] two_lock.outbox
unfolding apply_marks
unmarked = refl

no_messages : both.topic ≡ []
unfolding Outbox.create_outbox_event
no_messages = refl

sends_first : Step env two_lock one_turn
sends_first = turn 0 first (first ∷ []) [] [] both sent_world refl unmarked no_messages sends

-- The other publisher sends before the first commits.
abbrev meanwhile : World
meanwhile = record both { topic = sent_world.topic }

abbrev second_sent : World
second_sent = (publish_event env (outbox_queue env) (producer env) second meanwhile).1

sends_too :
    publish_event env (outbox_queue env) (producer env) second meanwhile ≡ (ok tt, second_sent)
unfolding Outbox.create_outbox_event publish_event share_trip.Base.Text.split pending_row
    share_trip.Events.produce Outbox.mark_sent
sends_too = refl

abbrev two_turns : Queue
two_turns = record one_turn {
  topic = second_sent.topic;
  publisher =
      at one_turn.publisher 1 (sending (second ∷ []) [] (mark_of env second meanwhile ∷ []));
}

sends_second : Step env one_turn two_turns
unfolding apply_marks
sends_second = turn 1 second (second ∷ []) [] [] meanwhile second_sent refl refl refl sends_too

abbrev one_commits : Queue
one_commits = record two_turns {
  outbox = apply_marks (mark ∷ []) two_turns.outbox;
  publisher = at two_turns.publisher 0 resting;
}

to_commit : Run env calm one_commits
to_commit =
    later (later (later to_two_lock sends_first) sends_second)
      (commit 0 (first ∷ []) (mark ∷ []) refl)

abbrev sent_row : OutboxEvent
sent_row = record first { status = "sent"; sent_at = some (pos 0) }

has_sent_row : Memᴰ sent_row one_commits.outbox
unfolding apply_marks mark_of Outbox.create_outbox_event share_trip.Base.Text.split
    share_trip.Events.produce Outbox.put_event pending_row Outbox.update_event
    share_trip.Events.send
has_sent_row = head refl

one_commits-IsExclusive : IsExclusive one_commits
one_commits-IsExclusive = Run-IsExclusive env calm-IsExclusive to_commit

-- The other's commit is refused.
abbrev both_rest : Queue
both_rest = record one_commits { publisher = at one_commits.publisher 1 resting }

to_both_rest : Run env one_commits both_rest
to_both_rest = later here (roll_back 1)

sent_once_example :
    Memᴰ sent_row both_rest.outbox
    × ((i : ℕ) (f : OutboxEvent) → Memᴰ f (held (both_rest.publisher i)) → f.id ≢ sent_row.id)
sent_once_example = sent_once env sent_row one_commits-IsExclusive to_both_rest refl has_sent_row
