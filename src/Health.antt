-- ===== src/Health.antt =====
-- app/api/v1/endpoints/health.py. The `SELECT 1` is a call of the database session, which is a
-- parameter; the state is the database beside the process.
use cognaris_chatbot.Prelude.{
  Outcome-cases, inl, inr, pure, ◌>>=◌, str_eq, String, Bool, true, false, ◌&&◌, Outcome, ok, err,
  Exec, ◌≡◌, refl, some, if◌then◌else◌,
}
use cognaris_chatbot.Python.{Fields, str, obj, field, end, get}
use cognaris_chatbot.Errors.{Error}
use cognaris_chatbot.Settings.{Settings, env_value}
use cognaris_chatbot.Pools.{Drivers, Process, check_redis_health, get_redis_client, ping_result}

-- `try: …; status = "up"; except Exception: status = "down"`
abbrev pub status_of : {A : Type 0} → Outcome Error A → String
status_of (ok a) = "up"
status_of (err e) = "down"

abbrev pub is_ok : {A : Type 0} → Outcome Error A → Bool
is_ok (ok a) = true
is_ok (err e) = false

unfoldable pub liveness : Settings → Fields
liveness settings = field "status" (str "up") (
    field "service" (str settings.app_name) (
      field "version" (str settings.app_version)
        (field "env" (str (env_value settings.app_env)) end)))

unfoldable pub overall : String → String → String
overall db_status redis_status =
    if str_eq db_status "up" && str_eq redis_status "up" then "up" else "degraded"

unfoldable pub ready_body : String → String → Fields
unfolding overall
ready_body db_status redis_status = field "status" (str (overall db_status redis_status)) (
    field "dependencies"
      (obj (field "database" (str db_status) (field "redis" (str redis_status) end))) end)

overall-status_of :
    {A B : Type 0} (r : Outcome Error A) (r' : Outcome Error B)
    → overall (status_of r) (status_of r') ≡ (if is_ok r && is_ok r' then "up" else "degraded")
unfolding overall
overall-status_of (ok a) (ok b) = refl
overall-status_of (ok a) (err e) = refl
overall-status_of (err e) (ok b) = refl
overall-status_of (err e) (err e') = refl

status_of-is_ok :
    {A : Type 0} (r : Outcome Error A) → status_of r ≡ (if is_ok r then "up" else "down")
status_of-is_ok (ok a) = refl
status_of-is_ok (err e) = refl

-- `try: await …; status = "up"; except Exception: status = "down"`
abbrev attempt : {S A : Type 0} → Exec Error S A → Exec Error S String
attempt m s = let (r, s') = m s in (ok (status_of r), s')

module _ {D G E F P C : Type 0} (drivers : Drivers G E F P C)
    (select_one : Exec Error D (Unit {0})) where
  abbrev on_session : {A : Type 0} → Exec Error D A → Exec Error (D × Process G E F P) A
  on_session m (d, p) = let (r, d') = m d in (r, (d', p))

  abbrev on_process :
      {A : Type 0} → Exec Error (Process G E F P) A → Exec Error (D × Process G E F P) A
  on_process m (d, p) = let (r, p') = m p in (r, (d, p'))

  unfoldable pub readiness : Exec Error (D × Process G E F P) Fields
  unfolding ready_body
  readiness = do
    db_status ← attempt (on_session select_one)
    redis_status ← attempt (on_process (check_redis_health drivers))
    pure (ready_body db_status redis_status)

  -- does the PING return, on the client that there is?
  abbrev pub ping_returns : Outcome Error C → G → Bool
  ping_returns (ok client) g = is_ok (drivers.ping client g).0
  ping_returns (err e) g = false

  check_redis_health-is_ok :
      (p : Process G E F P)
      → is_ok (check_redis_health drivers p).0
        ≡ ping_returns (get_redis_client drivers p).0 (get_redis_client drivers p).1.outside
  unfolding check_redis_health ping_result
  check_redis_health-is_ok p = elim (Outcome-cases (get_redis_client drivers p).0) [
    | inr (e, none_made) ↦ rw none_made refl
    | inl (client, made) ↦
        elim (Outcome-cases (drivers.ping client (get_redis_client drivers p).1.outside).0) [
          | inl (_, pong) ↦ rw (made, pong) refl
          | inr (e, down) ↦ rw (made, down) refl
        ]
  ]

  -- Whatever the query, the making of a Redis client and the PING return or raise, the endpoint answers:
  -- up when the query returns, and a client is had whose PING returns, and degraded otherwise, with the
  -- state of each.
  pub readiness_lem :
      (d : D) (p : Process G E F P)
      → let up = is_ok (select_one d).0 in
        let (client, p') = get_redis_client drivers p in
        let redis_up = ping_returns client p'.outside in
        (body : Fields) × ((readiness (d, p)).0 ≡ ok body)
        × (get "status" body ≡ some (str (if up && redis_up then "up" else "degraded")))
        × (get "dependencies" body
            ≡ some (
                obj (
                  field "database"
                    (str (if up then "up" else "down"))
                    (field "redis" (str (if redis_up then "up" else "down")) end))))
  unfolding readiness ready_body get
  readiness_lem d p =
      let r = (select_one d).0 in
      let r' = (check_redis_health drivers p).0 in
      (
        ready_body (status_of r) (status_of r'),
        refl,
        rw (← check_redis_health-is_ok p, overall-status_of r r') refl,
        rw (← check_redis_health-is_ok p, ← status_of-is_ok r, ← status_of-is_ok r') refl,
      )
