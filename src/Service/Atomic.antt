-- ===== src/Service/Atomic.antt =====
-- The tables after a transaction.
use share_trip.Base.{ℕ, String, ◌≢◌, ◌≡◌, refl, ◌⊎◌, inl, inr, arith, Option-cases}
use share_trip.GoError.{GoError, annotated}
use share_trip.Result.{Result, ok, err, Result-cases}
use share_trip.World.{World, Tables, Action}
use share_trip.Env.{Env, Commit, committed, refused, answer_lost}
use share_trip.Service.Transaction.{begun, finish, transact, tx, begin_func}

Commit-cases :
    (c : Commit)
    → (c ≡ committed) ⊎ (((m : String) × (c ≡ refused m)) ⊎ ((m : String) × (c ≡ answer_lost m)))
Commit-cases committed = inl refl
Commit-cases (refused m) = inr (inl (m, refl))
Commit-cases (answer_lost m) = inr (inr (m, refl))

module _ (env : Env) {A : Type 0} (began failed ended : GoError → GoError) (block : Action A) where
  pub transact-eq-ok :
      (w w' : World) {a : A}
      → transact env began failed ended block w ≡ (ok a, w')
      → (w₁ : World) × (block (begun env w) ≡ (ok a, w₁)) × (w'.tables ≡ w₁.tables)
  unfolding transact
  transact-eq-ok w w' h = ((block (begun env w)).1, ground arith, ground arith)

  finish-ok_tables :
      (before : Tables) (a : A) (w : World)
      → let w' = (finish env failed ended before (ok a, w)).1 in
        (w'.tables ≡ before) ⊎ ((w'.tables ≡ w.tables) × (w'.topic ≡ w.topic))
  unfolding finish
  finish-ok_tables before a w = ground arith

  finish-err_tables :
      (before : Tables) (x : GoError) (w : World)
      → (finish env {A = A} failed ended before (err x, w)).1.tables ≡ before
  unfolding finish
  finish-err_tables before x w = refl

  finish_atomic :
      (before : Tables) (r : Result A) (w : World)
      → let w' = (finish env failed ended before (r, w)).1 in
        (w'.tables ≡ before)
        ⊎ ((a : A) × (r ≡ ok a) × (w'.tables ≡ w.tables) × (w'.topic ≡ w.topic))
  finish_atomic before (err x) w = inl (finish-err_tables before x w)
  finish_atomic before (ok a) w = elim (finish-ok_tables before a w) [
    | inl e ↦ inl e
    | inr (e, p) ↦ inr (a, refl, e, p)
  ]

  -- Whatever the transaction returns, the tables are those before it, or those that the block left
  -- when it returned without an error; what Kafka has acknowledged stays in both cases.
  pub transact_atomic :
      (w : World)
      → let w' = (transact env began failed ended block w).1 in
        (w'.tables ≡ w.tables)
        ⊎ ((a : A) × (w₁ : World) × (block (begun env w) ≡ (ok a, w₁))
            × (w'.tables ≡ w₁.tables)
            × (w'.topic ≡ w₁.topic))
  unfolding transact
  transact_atomic w = elim (Option-cases (env.fault w.tick)) [
    | inr (m, e) ↦ inl (ground arith)
    | inl e ↦
        let (r, w₁) = block (begun env w) in
        elim (finish_atomic w.tables r w₁) [
          | inl same ↦ inl (ground arith)
          | inr (a, h, t, p) ↦ inr (a, w₁, ground arith, ground arith, ground arith)
        ]
  ]

  transact-eq-err :
      ((n : ℕ) (m : String) → env.commit n ≢ answer_lost m)
      → (w : World) {x : GoError} → (transact env began failed ended block w).0 ≡ err x
      → (transact env began failed ended block w).1.tables ≡ w.tables
  unfolding transact finish
  transact-eq-err known w h = elim (Option-cases (env.fault w.tick)) [
    | inr (m, e) ↦ ground arith
    | inl e ↦
        let (r, w₁) = block (begun env w) in
        elim (Result-cases r) [
          | inr (y, f) ↦ ground arith
          | inl (a, f) ↦ elim (Commit-cases (env.commit w₁.tick)) [
            | inl c ↦ absurd (ground arith)
            | inr (inl (m, c)) ↦ ground arith
            | inr (inr (m, c)) ↦ absurd (known w₁.tick m c)
          ]
        ]
  ]

module _ (env : Env) {A : Type 0} (block : Action A) (w : World) where
  pub tx-eq-ok :
      (w' : World) {a : A}
      → tx env block w ≡ (ok a, w')
      → (w₁ : World) × (block (begun env w) ≡ (ok a, w₁)) × (w'.tables ≡ w₁.tables)
  unfolding tx
  tx-eq-ok w' h =
      transact-eq-ok env (annotated "begin transaction") (annotated "transaction block")
        (annotated "commit transaction") block w w' h

  pub tx_atomic :
      let w' = (tx env block w).1 in
      (w'.tables ≡ w.tables)
      ⊎ ((a : A) × (w₁ : World) × (block (begun env w) ≡ (ok a, w₁))
          × (w'.tables ≡ w₁.tables)
          × (w'.topic ≡ w₁.topic))
  unfolding tx
  tx_atomic =
      transact_atomic env (annotated "begin transaction") (annotated "transaction block")
        (annotated "commit transaction") block w

  pub tx-eq-err :
      ((n : ℕ) (m : String) → env.commit n ≢ answer_lost m)
      → {x : GoError} → (tx env block w).0 ≡ err x
      → (tx env block w).1.tables ≡ w.tables
  unfolding tx
  tx-eq-err known h =
      transact-eq-err env (annotated "begin transaction") (annotated "transaction block")
        (annotated "commit transaction") block known w h

  pub begin_func_atomic :
      let w' = (begin_func env block w).1 in
      (w'.tables ≡ w.tables)
      ⊎ ((a : A) × (w₁ : World) × (block (begun env w) ≡ (ok a, w₁))
          × (w'.tables ≡ w₁.tables)
          × (w'.topic ≡ w₁.topic))
  unfolding begin_func
  begin_func_atomic = transact_atomic env (λ e. e) (λ e. e) (λ e. e) block w

  -- Kafka keeps what the block has sent, whether the transaction commits or not.
  pub begin_func-topic :
      let w' = (begin_func env block w).1 in
      (w'.topic ≡ w.topic) ⊎ (w'.topic ≡ (block (begun env w)).1.topic)
  unfolding begin_func transact finish
  begin_func-topic = elim (Option-cases (env.fault w.tick)) [
    | inr (m, e) ↦ inl (ground arith)
    | inl e ↦
        let (r, w₁) = block (begun env w) in
        elim (Result-cases r) [ inr (x, h) ↦ inr (ground arith) | inl (a, h) ↦ inr (ground arith) ]
  ]
