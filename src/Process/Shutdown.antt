-- ===== src/Process/Shutdown.antt =====
-- The end of the process: which resources are closed, and when none is.
use share_trip.Base.{
  String, ◌≡◌, refl, none, some, List, [], ◌∷◌, ◌++◌, arith, inl, inr, Option-cases,
}
use share_trip.Result.{ok, err, Result-cases}
use share_trip.Config.{Environment, Config, load}
use share_trip.Db.{PoolConfig, new_pool, dsn}
use share_trip.GoError.{GoError, error_text}
use share_trip.Process.{
  log_file, tracer, pool, producer, publisher, Effect, opened, closed, set_default, set_tracing,
  call_listen, Ending, returned, fatal, exited, Host, Run, new_logger, new_provider, serve_until,
  main,
}

-- The effects of a start that comes to `app.Listen`.
abbrev pub opening : String → List Effect
opening address =
    opened log_file
    ∷ set_default
    ∷ opened tracer
    ∷ set_tracing
    ∷ opened pool
    ∷ opened producer
    ∷ opened publisher
    ∷ call_listen address
    ∷ []

-- The reverse of the openings.
abbrev pub closing : List Effect
closing = closed publisher ∷ closed producer ∷ closed pool ∷ closed tracer ∷ closed log_file ∷ []

-- How a run of `main` can end: either all that was opened is closed, or the run stops on the way.
abbrev pub IsEnding : Ending → List Effect → Type 0
IsEnding returned effects = (address : String) × (effects ≡ opening address ++ closing)
IsEnding (fatal text) effects =
    (address : String) × (rest : List Effect) × (effects ++ rest ≡ opening address)
IsEnding exited effects =
    (address : String) × (rest : List Effect) × (effects ++ rest ≡ opening address)

module _ (host : Host) (getenv : Environment) where
  abbrev run : Run
  run = main host getenv

  main-load_failed : {x : GoError} → load getenv ≡ err x → run ≡ (fatal (error_text x), [])
  unfolding main
  main-load_failed e = ground arith

  module _ (cfg : Config) (e : load getenv ≡ ok cfg) where
    main-logger_failed : {x : GoError} → new_logger host ≡ err x → run ≡ (fatal (error_text x), [])
    unfolding main
    main-logger_failed f = ground arith

    module _ (f : new_logger host ≡ ok tt) where
      main-tracing_failed :
          {x : GoError}
          → new_provider host "localhost:4319" ≡ err x
          → run ≡ (exited, opened log_file ∷ set_default ∷ [])
      unfolding main
      main-tracing_failed g = ground arith

      module _ (g : new_provider host "localhost:4319" ≡ ok tt) where
        main-pool_failed :
            {x : GoError}
            → new_pool host.driver (dsn cfg.database) ≡ err x
            → run ≡ (
              fatal (error_text x),
              opened log_file ∷ set_default ∷ opened tracer ∷ set_tracing ∷ [],
            )
        unfolding main
        main-pool_failed h = ground arith

        module _ (pool_config : PoolConfig)
            (h : new_pool host.driver (dsn cfg.database) ≡ ok pool_config) where
          main-stopped :
              host.listen cfg.http_addr ≡ none → run ≡ (returned, opening cfg.http_addr ++ closing)
          unfolding main serve_until
          main-stopped l = ground arith

          -- When every start succeeds but `app.Listen` fails, the process ends with all of its five
          -- resources open: the outbox publisher is not stopped, and its batch not awaited.
          pub main_abandons :
              (text : String)
              → host.listen cfg.http_addr ≡ some text
              → run ≡ (fatal text, opening cfg.http_addr)
          unfolding main serve_until
          main_abandons text l = ground arith

  -- If `main` returns, all that it has opened has been closed in reverse order, the publisher before
  -- the producer and both before the pool. If the process is ended by `log.Fatal` or `os.Exit`, what
  -- it has done is a beginning of the same openings, and nothing has been closed.
  pub main_ends : IsEnding run.0 run.1
  main_ends = elim (Result-cases (load getenv)) [
    | inr (x, e) ↦ rw (main-load_failed e) ("", opening "", refl)
    | inl (cfg, e) ↦ elim (Result-cases (new_logger host)) [
      | inr (x, f) ↦ rw (main-logger_failed cfg e f) ("", opening "", refl)
      | inl (x, f) ↦ elim (Result-cases (new_provider host "localhost:4319")) [
        | inr (y, g) ↦ rw (main-tracing_failed cfg e f g) ("", _, refl)
        | inl (y, g) ↦ elim (Result-cases (new_pool host.driver (dsn cfg.database))) [
          | inr (z, h) ↦ rw (main-pool_failed cfg e f g h) ("", _, refl)
          | inl (z, h) ↦ elim (Option-cases (host.listen cfg.http_addr)) [
            | inl l ↦ rw (main-stopped cfg e f g z h l) (cfg.http_addr, refl)
            | inr (text, l) ↦ rw (main_abandons cfg e f g z h text l) (cfg.http_addr, [], refl)
          ]
        ]
      ]
    ]
  ]
