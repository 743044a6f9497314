-- ===== src/Tests/Processes.antt =====
-- The theorems on the objects of a process and on its health.
use cognaris_chatbot.Prelude.{ℕ, suc, ◌≡◌, refl, inl, ok, err, none, some, [], ◌∷◌, Exec}
use cognaris_chatbot.Python.{str, obj, field, end, get, Fields}
use cognaris_chatbot.Errors.{Error, database_error}
use cognaris_chatbot.Settings.{defaults}
use cognaris_chatbot.Pools.{
  Drivers, Process, check_redis_health, get_redis_client, get_redis_pool, build_pool, get_settings,
  ping_result,
}
use cognaris_chatbot.Pools.Bound.{
  engine, session_factory, dispose, health, calls, IsBound, calls-IsBound,
}
use cognaris_chatbot.Health.{readiness, readiness_lem}

-- the engine made at the n-th call is n; a factory is one more than its engine
abbrev drivers : Drivers ℕ ℕ ℕ ℕ ℕ
drivers = record {
  load_settings = λ g. (ok defaults, g);
  create_async_engine = λ options g. (ok g, suc g);
  async_sessionmaker = suc;
  dispose = λ e g. (ok tt, g);
  from_url = λ options g. (ok g, suc g);
  aclose = λ p g. (ok tt, g);
  redis = λ p. p;
  ping = λ c g. (ok tt, g);
}

abbrev idle : Process ℕ ℕ ℕ ℕ
idle = record { outside = 0; settings = none; engine = none; session_factory = none; pool = none }

calls-IsBound_example :
    IsBound drivers (calls drivers (session_factory ∷ dispose ∷ engine ∷ health ∷ []) idle)
calls-IsBound_example =
    calls-IsBound drivers (session_factory ∷ dispose ∷ engine ∷ health ∷ []) idle (inl refl)

-- a database that is down
abbrev no_database : Exec Error (Unit {0}) (Unit {0})
no_database d = (err database_error, d)

readiness_lem_example :
    (body : Fields) × ((readiness drivers no_database (tt, idle)).0 ≡ ok body)
    × (get "status" body ≡ some (str "degraded"))
    × (get "dependencies" body
        ≡ some (obj (field "database" (str "down") (field "redis" (str "up") end))))
unfolding check_redis_health ping_result get_redis_client get_redis_pool build_pool get_settings
readiness_lem_example = readiness_lem drivers no_database tt idle
