-- ===== src/Cache.antt =====
-- app/infrastructure/cache/session_cache.py. The Redis client is not the repository's code: its
-- three calls are parameters, and so are json's `dumps` and `loads`.
pub mod Json
pub mod RoundTrip
pub mod Laws
pub mod Answers
use cognaris_chatbot.Prelude.{
  [], if◌then◌else◌, ◌∷◌, ℕ, String, Bool, true, false, Option, none, some, Outcome, ok, err, Exec,
  pure, raise, lift, continue, ◌>>=◌, ◌>>◌,
}
use cognaris_chatbot.Python.{Env, format}
use cognaris_chatbot.Python
use cognaris_chatbot.Errors.{Error, key_error, value_error, json_decode_error}
use cognaris_chatbot.Entities.{OnboardingSession}
use cognaris_chatbot.Cache.Json.{serialize, deserialize}

-- `R` is the state of the Redis server as its client sees it, `Raw` the texts that it stores.
pub record Client (R Raw : Type 0) : Type 0 where
  pub client_get : String → Exec Error R (Option Raw)
  pub client_set : String → Raw → ℕ → Exec Error R (Unit {0})
  pub client_delete : String → Exec Error R (Unit {0})
  pub dumps : Python.Json → Raw
  pub loads : Raw → Option Python.Json  -- `none` for a JSONDecodeError
  pub session_ttl_seconds : ℕ

-- `_key`
unfoldable pub key : Env → ℕ → String
key env session_id = format ("session:" ∷ env.str_uuid session_id ∷ [])

-- `except (json.JSONDecodeError, KeyError, ValueError)`
unfoldable pub is_corruption : Error → Bool
is_corruption json_decode_error = true
is_corruption key_error = true
is_corruption value_error = true
is_corruption _ = false

-- `except Exception: logger.warning(…)`
abbrev pub swallow : {R : Type 0} → Exec Error R (Unit {0}) → Exec Error R (Unit {0})
swallow m r = (ok tt, (m r).1)

module _ {R Raw : Type 0} (env : Env) (c : Client R Raw) where
  unfoldable pub invalidate : ℕ → Exec Error R (Unit {0})
  invalidate session_id = swallow (c.client_delete (key env session_id))

  unfoldable pub set : OnboardingSession → Exec Error R (Unit {0})
  set session =
      swallow
        (c.client_set (key env session.id) (c.dumps (serialize env session)) c.session_ttl_seconds)

  -- the body of the `try`
  unfoldable pub parse : Raw → Outcome Error OnboardingSession
  parse raw = elim (c.loads raw) [ none ↦ err json_decode_error | some j ↦ deserialize env j ]

  -- the `except` of `get`
  unfoldable pub recover :
      ℕ → Outcome Error OnboardingSession → Exec Error R (Option OnboardingSession)
  recover session_id (ok session) = pure (some session)
  recover session_id (err e) =
      if is_corruption e then invalidate session_id >> pure none else raise e

  unfoldable pub read : ℕ → Option Raw → Exec Error R (Option OnboardingSession)
  unfolding recover parse
  read session_id none = pure none
  read session_id (some raw) = recover session_id (parse raw)

  unfoldable pub get : ℕ → Exec Error R (Option OnboardingSession)
  unfolding read
  get session_id = do raw ← c.client_get (key env session_id); read session_id raw
