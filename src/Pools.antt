-- ===== src/Pools.antt =====
-- The objects that a process makes once: the settings of app/core/config.py, the engine and the session
-- factory of app/infrastructure/db/session.py, and the pool of
-- app/infrastructure/cache/redis_client.py, with `lifespan` of app/main.py, which makes and disposes of
-- them. What makes an engine, a pool or a client is a parameter. Coroutines that run at the same time
-- are not part of this model.
pub mod Bound
use cognaris_chatbot.Prelude.{
  String, ℕ, Option, none, some, Outcome, ok, err, Exec, pure, raise, gets, modify, continue, ◌>>=◌,
  ◌>>◌,
}
use cognaris_chatbot.Python.{Json, Fields, str, field, end}
use cognaris_chatbot.Errors.{Error, domain, dependency_unavailable}
use cognaris_chatbot.Settings.{Settings}

-- the arguments of `create_async_engine` and of `ConnectionPool.from_url` that vary
pub record EngineOptions : Type 0 where
  pub url : String
  pub pool_size : ℕ
  pub max_overflow : ℕ
  pub pool_timeout : ℕ

pub record PoolOptions : Type 0 where
  pub url : String
  pub max_connections : ℕ

-- The calls of other libraries. `G` is the outside world, `E` an engine, `F` a session factory, `P` a
-- connection pool and `C` a Redis client.
pub record Drivers (G E F P C : Type 0) : Type 0 where
  pub load_settings : Exec Error G Settings  -- `Settings()`
  pub create_async_engine : EngineOptions → Exec Error G E
  pub async_sessionmaker : E → F
  pub dispose : E → Exec Error G (Unit {0})
  pub from_url : PoolOptions → Exec Error G P
  pub aclose : P → Exec Error G (Unit {0})
  pub redis : P → C
  pub ping : C → Exec Error G (Unit {0})

-- The globals of the three modules; `settings` is the cache of `get_settings`.
pub record Process (G E F P : Type 0) : Type 0 where
  pub outside : G
  pub settings : Option Settings
  pub engine : Option E
  pub session_factory : Option F
  pub pool : Option P

module _ {G E F P C : Type 0} (drivers : Drivers G E F P C) where
  abbrev pub Call : Type 0 → Type 0
  Call A = Exec Error (Process G E F P) A

  abbrev pub outside : {A : Type 0} → Exec Error G A → Call A
  outside m p = let (r, g) = m p.outside in (r, record p { outside = g })

  -- an object that is made at its first use
  abbrev pub once :
      {A : Type 0} → Option A → Call A → (A → Process G E F P → Process G E F P) → Call A
  once (some a) make keep = pure a
  once none make keep = do a ← make; modify (keep a); pure a

  unfoldable pub get_settings : Call Settings
  get_settings = do
    cached ← gets (λ p. p.settings)
    once cached (outside drivers.load_settings) (λ s p. record p { settings = some s })

  unfoldable pub build_engine : Call E
  unfolding get_settings
  build_engine = do
    settings ← get_settings
    outside (
        drivers.create_async_engine (record {
          url = settings.database_url;
          pool_size = settings.db_pool_size;
          max_overflow = settings.db_max_overflow;
          pool_timeout = settings.db_pool_timeout;
        }))

  unfoldable pub get_engine : Call E
  unfolding build_engine
  get_engine = do
    engine ← gets (λ p. p.engine)
    once engine build_engine (λ e p. record p { engine = some e })

  unfoldable pub make_factory : Call F
  unfolding get_engine
  make_factory = do engine ← get_engine; pure (drivers.async_sessionmaker engine)

  unfoldable pub get_session_factory : Call F
  unfolding make_factory
  get_session_factory = do
    factory ← gets (λ p. p.session_factory)
    once factory make_factory (λ f p. record p { session_factory = some f })

  unfoldable pub drop_engine : Option E → Call (Unit {0})
  drop_engine none = pure tt
  drop_engine (some engine) = do
    outside (drivers.dispose engine)
    modify (λ p. record p { engine = none; session_factory = none })

  unfoldable pub dispose_engine : Call (Unit {0})
  unfolding drop_engine
  dispose_engine = do engine ← gets (λ p. p.engine); drop_engine engine

  unfoldable pub build_pool : Call P
  unfolding get_settings
  build_pool = do
    settings ← get_settings
    outside (
        drivers.from_url
          (record { url = settings.redis_url; max_connections = settings.redis_max_connections }))

  unfoldable pub get_redis_pool : Call P
  unfolding build_pool
  get_redis_pool = do
    pool ← gets (λ p. p.pool)
    once pool build_pool (λ q p. record p { pool = some q })

  unfoldable pub get_redis_client : Call C
  unfolding get_redis_pool
  get_redis_client = do pool ← get_redis_pool; pure (drivers.redis pool)

  -- the `try` of `check_redis_health`
  unfoldable pub ping_result : Outcome Error (Unit {0}) → Call Fields
  ping_result (ok done) = pure (field "status" (str "up") end)
  ping_result (err e) = raise (
      domain
        (record { kind = dependency_unavailable; message = "Redis unreachable"; details = end }))

  unfoldable pub check_redis_health : Call Fields
  unfolding get_redis_client ping_result
  check_redis_health = do
    client ← get_redis_client
    r ← (λ p. let (r, p') = outside (drivers.ping client) p in (ok r, p'))
    ping_result r

  unfoldable pub drop_pool : Option P → Call (Unit {0})
  drop_pool none = pure tt
  drop_pool (some pool) = do outside (drivers.aclose pool); modify (λ p. record p { pool = none })

  unfoldable pub dispose_redis : Call (Unit {0})
  unfolding drop_pool
  dispose_redis = do pool ← gets (λ p. p.pool); drop_pool pool

  -- `lifespan` before its `yield`, without the logging
  unfoldable pub start_up : Call (Unit {0})
  unfolding get_settings get_engine get_redis_pool
  start_up = do get_settings; get_engine; get_redis_pool; pure tt

  -- and after it
  unfoldable pub shut_down : Call (Unit {0})
  unfolding dispose_engine dispose_redis
  shut_down = do dispose_engine; dispose_redis
