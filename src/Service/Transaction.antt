-- ===== src/Service/Transaction.antt =====
-- transaction.go: `tx`, and `pgx.BeginFunc`, which differs from it only in its error texts.
use share_trip.Base.{none, some}
use share_trip.GoError.{GoError, message, annotated}
use share_trip.Result.{Result, ok, err}
use share_trip.World.{World, Tables, Action, set_tables, next}
use share_trip.Env.{Env, committed, refused, answer_lost}

-- The world as the block finds it.
abbrev pub begun : Env → World → World
begun env w = record (next w) { tx_time = env.now w.tick }

module _ (env : Env) {A : Type 0} where
  -- After the block. The deferred `Rollback` undoes what has not been committed; its own error is
  -- only logged.
  unfoldable pub finish :
      (failed ended : GoError → GoError) → Tables → Result A × World → Result A × World
  finish failed ended before (err e, w) = (err (failed e), set_tables (next w) before)
  finish failed ended before (ok a, w) = elim (env.commit w.tick) [
    | committed ↦ (ok a, next w)
    | refused m ↦ (err (ended (message m)), set_tables (next w) before)
    | answer_lost m ↦ (err (ended (message m)), next w)
  ]

  unfoldable pub transact : (began failed ended : GoError → GoError) → Action A → Action A
  unfolding finish
  transact began failed ended block w = elim (env.fault w.tick) [
    | some m ↦ (err (began (message m)), next w)
    | none ↦ finish failed ended w.tables (block (begun env w))
  ]

  unfoldable pub tx : Action A → Action A
  unfolding transact
  tx =
      transact (annotated "begin transaction") (annotated "transaction block")
        (annotated "commit transaction")

  unfoldable pub begin_func : Action A → Action A
  unfolding transact
  begin_func = transact (λ e. e) (λ e. e) (λ e. e)
