-- ===== src/Cluster/Refinement.antt =====
-- The deployed service against the abstract one of Lifecycle/View.antt.
use share_trip.Base.{◌≡◌, refl, ◌⊎◌, inl}
use share_trip.Domain.{Uuid}
use share_trip.Env.{Env}
use share_trip.System.{empty_tables}
use share_trip.Lifecycle.View.{view, Moves, Transition-Moves}
use share_trip.Concurrent.Locking.{IsLocked, quiet-IsLocked, Step-IsLocked, Step-Transition}
use share_trip.Cluster.{Cluster, requests, Step, request, delivery, Run, here, later, fresh}

module _ (env : Env) where
  Step-locks : {c d : Cluster} → Step env c d → IsLocked (requests c) → IsLocked (requests d)
  Step-locks (request s st r) l = Step-IsLocked env st l
  Step-locks (delivery q st d) l = record { exclusive = l.exclusive; current = l.current }

  Run-locks : {c : Cluster} → Run env fresh c → IsLocked (requests c)
  Run-locks here = quiet-IsLocked empty_tables
  Run-locks (later r st) = Step-locks st (Run-locks r)

  -- In every state that requests and publishers reach, however they interleave and whatever fails
  -- around them, each further step leaves every trip's status as it is, or is one step of the abstract
  -- service: one trip appears as a draft, or goes from draft to published, or from published to
  -- started, and all others stand still.
  pub Step-Moves :
      {c d : Cluster}
      → Run env fresh c
      → Step env c d
      → ((id : Uuid) → view d.tables id ≡ view c.tables id) ⊎ Moves (view c.tables) (view d.tables)
  Step-Moves run (request s st r) = Transition-Moves (Step-Transition env (Run-locks run) st)
  Step-Moves run (delivery q st d) = inl (λ id. refl)
