-- ===== src/Repository/Outbox.antt =====
-- create_outbox_event.go, lock_pending.go, outbox_status.go and count_pending.go, with the columns
-- and defaults of migrations/00003 and 00005. The column `payload` keeps its text: the spacing and
-- the order of keys that `JSONB` may change are left out.
use share_trip.Base.{
  ℕ, suc, String, Bool, true, false, none, some, List, [], ◌∷◌, ◌++◌, ◌==◌, str_eq, if◌then◌else◌,
  take, select, length,
}
use share_trip.Base.Int.{leb_ℤ}
use share_trip.GoError.{GoError, error_text}
use share_trip.Result.{ok}
use share_trip.Domain.{Uuid, Time, OutboxEvent}
use share_trip.Metrics.{operation_outbox_event_create}
use share_trip.World.{Action, annotate}
use share_trip.Env.{Env}
use share_trip.Repository.Statement.{Statement, execute, observed}

abbrev pub status_pending : String
status_pending = "pending"

abbrev pub status_sent : String
status_sent = "sent"

unfoldable pub has_event : Uuid → List OutboxEvent → Bool
has_event id [] = false
has_event id (e ∷ es) = if e.id == id then true else has_event id es

-- The columns that the insertion leaves to their defaults.
unfoldable pub pending_row : OutboxEvent → Time → OutboxEvent
pending_row event now = record event {
  status = status_pending;
  attempts = 0;
  last_error = none;
  created_at = now;
  sent_at = none;
}

-- `ON CONFLICT (id) DO NOTHING`
unfoldable pub put_event : OutboxEvent → List OutboxEvent → List OutboxEvent
unfolding has_event
put_event row es = elim (has_event row.id es) [ true ↦ es | false ↦ es ++ (row ∷ []) ]

-- `INSERT INTO outbox_events … ON CONFLICT (id) DO NOTHING`
unfoldable pub insert_event : OutboxEvent → Statement (Unit {0})
insert_event event now _ t =
    (ok tt, record t { outbox = put_event (pending_row event now) t.outbox })

abbrev pub is_pending : OutboxEvent → Bool
is_pending e = str_eq e.status status_pending

-- `ORDER BY created_at`: rows of one instant stay in the order of insertion.
unfoldable pub insert_by_age : OutboxEvent → List OutboxEvent → List OutboxEvent
insert_by_age e [] = e ∷ []
insert_by_age e (f ∷ fs) =
    if leb_ℤ e.created_at f.created_at then e ∷ f ∷ fs else f ∷ insert_by_age e fs

unfoldable pub order_by_age : List OutboxEvent → List OutboxEvent
unfolding insert_by_age
order_by_age [] = []
order_by_age (e ∷ es) = insert_by_age e (order_by_age es)

abbrev pub batch_limit : ℕ
batch_limit = 100

-- The rows that `LockPending` selects, where no other transaction holds a lock.
unfoldable pub oldest_pending : List OutboxEvent → List OutboxEvent
unfolding order_by_age
oldest_pending es = take batch_limit (order_by_age (select is_pending es))

unfoldable pub select_pending : Statement (List OutboxEvent)
unfolding oldest_pending
select_pending now _ t = (ok (oldest_pending t.outbox), t)

-- `UPDATE outbox_events SET … WHERE id = $1`
unfoldable pub update_event :
    Uuid → (OutboxEvent → OutboxEvent) → List OutboxEvent → List OutboxEvent
update_event id f [] = []
update_event id f (e ∷ es) = (if e.id == id then f e else e) ∷ update_event id f es

unfoldable pub set_sent : Uuid → Statement (Unit {0})
unfolding update_event
set_sent id now _ t = (
  ok tt,
  record t {
    outbox = update_event id (λ e. record e { status = status_sent; sent_at = some now }) t.outbox;
  },
)

unfoldable pub set_failed : Uuid → String → Statement (Unit {0})
unfolding update_event
set_failed id reason now _ t = (
  ok tt,
  record t {
    outbox =
        update_event id (λ e. record e { attempts = suc e.attempts; last_error = some reason })
          t.outbox;
  },
)

unfoldable pub select_count : Statement ℕ
select_count now _ t = (ok (length (select is_pending t.outbox)), t)

-- The query fails, or reading its rows.
abbrev lock_error : Bool → String
lock_error false = "select pending outbox events"
lock_error true = "read pending outbox events"

-- `PostgresOutboxRepository`
module _ (env : Env) where
  unfoldable pub create_outbox_event : OutboxEvent → Action (Unit {0})
  unfolding execute insert_event observed
  create_outbox_event event =
      observed operation_outbox_event_create
        (annotate "insert outbox event" (execute env (insert_event event)))

  unfoldable pub lock_pending : Action (List OutboxEvent)
  unfolding execute select_pending
  lock_pending w = annotate (lock_error (env.while_reading w.tick)) (execute env select_pending) w

  unfoldable pub mark_sent : Uuid → Action (Unit {0})
  unfolding execute set_sent
  mark_sent id = annotate "mark outbox event sent" (execute env (set_sent id))

  unfoldable pub mark_failed : Uuid → GoError → Action (Unit {0})
  unfolding execute set_failed
  mark_failed id publish_err =
      annotate "record outbox event failure" (execute env (set_failed id (error_text publish_err)))

  unfoldable pub count_pending : Action ℕ
  unfolding execute select_count
  count_pending = annotate "count pending outbox events" (execute env select_count)
