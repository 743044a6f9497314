-- ===== src/Api/Detail.antt =====
-- What GET /sessions/{id} of app/api/v1/endpoints/sessions.py tells of a session.
use cognaris_chatbot.Prelude.{ℕ, ◌≡◌, refl, sym, some, length, length-map, map, leb, ok}
use cognaris_chatbot.Python
use cognaris_chatbot.Python.{Env}
use cognaris_chatbot.Entities.{OnboardingSession, is_expired, utcnow}
use cognaris_chatbot.Repository.{SessionRepository}
use cognaris_chatbot.Service
use cognaris_chatbot.Service.{System, found}
use cognaris_chatbot.Api
use cognaris_chatbot.Api.{SessionDetailOut, to_summary, to_detail, to_message_out}

-- The detail is that of the session at the given instant.
pub record IsDetail (s : OnboardingSession) (now : ℕ) (detail : SessionDetailOut) : Type 0 where
  pub same_id : detail.summary.id ≡ s.id
  pub state : detail.summary.state ≡ s.state
  pub revision : detail.summary.revision ≡ s.revision
  pub expired : detail.summary.is_expired ≡ leb s.expires_at now
  pub counted : detail.summary.message_count ≡ length detail.messages
  pub messages : detail.messages ≡ map to_message_out s.messages

-- what is told of a session, which is only read
pub to_detail_lem :
    {X : Type 0} (env : Env) (repo : SessionRepository X) (s : OnboardingSession) (sys : System X)
    → let (r, sys') = to_detail env repo s sys in
      (detail : SessionDetailOut) × (r ≡ ok detail)
      × IsDetail s (env.now_at sys.world.readings) detail
      × (sys'.store ≡ sys.store)
unfolding to_detail to_summary is_expired utcnow Python.utcnow
to_detail_lem env repo s sys = (
  _,
  refl,
  record {
    same_id = refl;
    state = refl;
    revision = refl;
    expired = refl;
    counted = sym (length-map to_message_out s.messages);
    messages = refl;
  },
  refl,
)

-- When the repository has the session, the endpoint returns its detail, with as many messages as it
-- counts and the expiry as of the first reading of the clock; the store is as `get` leaves it.
get_session_answers :
    {X : Type 0} (env : Env) (repo : SessionRepository X) (sys : System X) (id : ℕ)
    (s : OnboardingSession)
    → (repo.get id sys.store).0 ≡ ok (some s)
    → let (r, sys') = Api.get_session env repo id sys in
      (detail : SessionDetailOut) × (r ≡ ok detail)
      × IsDetail s (env.now_at sys.world.readings) detail
      × (sys'.store ≡ (repo.get id sys.store).1)
unfolding Api.get_session Service.get_session found
get_session_answers env repo sys id s h =
    rw h (to_detail_lem env repo s (record sys { store = (repo.get id sys.store).1 }))
