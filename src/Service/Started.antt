-- ===== src/Service/Started.antt =====
-- `start_session` of app/domain/onboarding/service.py over the repository of
-- app/infrastructure/db/repositories/session_repository.py: what it leaves in the tables.
use cognaris_chatbot.Prelude.{
  ℕ, ◌≡◌, refl, String, none, some, [], ◌∷◌, ◌++◌, List, arith, ok, Fails, map, Outcome,
}
use cognaris_chatbot.Python
use cognaris_chatbot.Python.{Env, World, field, str, end}
use cognaris_chatbot.Enums.{new, assistant, ClientPlatform, in_terminal_states, same_state, is_user}
use cognaris_chatbot.Errors.{Error}
use cognaris_chatbot.Entities.{ConversationMessage, OnboardingSession, Live, create, default_ttl}
use cognaris_chatbot.Entities.Commands.{append_message_succeeds, new_message, with_message}
use cognaris_chatbot.Events.{DomainEvent, for_session}
use cognaris_chatbot.Events
use cognaris_chatbot.Cache.{Client}
use cognaris_chatbot.Repository.{
  Database, Backend, Pending, SessionRepository, pg_session_repository,
}
use cognaris_chatbot.Repository.Rows.{event_to_model}
use cognaris_chatbot.Repository.Tables.{Tables, DatabaseLaws}
use cognaris_chatbot.Repository.Load.{IsStored}
use cognaris_chatbot.Repository.Add.{add_stores}
use cognaris_chatbot.Service.{greeting, start_session}
use cognaris_chatbot.Service.Calls.{IsBrisk}

module _ (env : Env) (user_id : ℕ) (locale : String) (client_platform : ClientPlatform)
    (w : World) where
  abbrev pub created : Live
  created = create env user_id locale client_platform default_ttl w

  abbrev pub greeting_turn : ConversationMessage
  greeting_turn = new_message env assistant greeting none none created

  -- the session that is stored, and the runtime
  abbrev pub greeted : Live
  greeted = with_message env assistant greeting_turn created

  abbrev pub started_event : DomainEvent
  started_event =
      (for_session env greeted.session.id Events.started
        (some (field "user_id" (str (env.str_uuid user_id)) (field "locale" (str locale) end)))
        greeted.world).0

  pub start_session_run :
      {X : Type 0} (repo : SessionRepository X) (x : X)
      → IsBrisk env default_ttl
      → let saved = repo.add greeted.session (started_event ∷ []) x in
        saved.0 ≡ ok tt
        → let (r, sys') =
            start_session env repo user_id locale client_platform
              (record { store = x; world = w }) in
          (r ≡ ok greeted.session) × (sys'.store ≡ saved.1)
  unfolding start_session create Python.utcnow Python.new_id in_terminal_states
  start_session_run repo x brisk h = ground (
    arith,
    append_message_succeeds env assistant greeting none none created refl (brisk w.readings) refl,
    h,
  )

-- The new session is returned and stored, greeted and with its event.
pub record IsStarted {D : Type 0} (t : Tables D) (user_id : ℕ) (locale : String)
    (client_platform : ClientPlatform) (d d' : D) (r : Outcome Error OnboardingSession)
    : Type 0 where
  pub session : OnboardingSession
  pub event : DomainEvent
  pub returned : r ≡ ok session
  pub state : session.state ≡ new
  pub revision : session.revision ≡ 1
  pub owner : session.user_id ≡ user_id
  pub in_locale : session.locale ≡ locale
  pub on_platform : session.client_platform ≡ client_platform
  pub greets : map (λ (m : ConversationMessage). m.content) session.messages ≡ greeting ∷ []
  pub stored : IsStored t d' session
  pub outbox : t.outbox d' ≡ t.outbox d ++ event_to_model event ∷ []
  pub type : event.event_type ≡ Events.started
  pub aggregate : event.aggregate_id ≡ session.id

-- Over Postgres, with a clock that does not skip a day between two readings, an idle database session,
-- no messages under the identifier that is drawn, and a flush that does not raise: `start_session`
-- returns a new session of the given user, locale and platform that holds the greeting alone; the
-- tables hold it, and the outbox has grown by its session.started event.
pub start_session_stores :
    {D R Raw : Type 0} (env : Env) (db : Database D) (c : Client R Raw) (t : Tables D)
    (laws : DatabaseLaws db t) (user_id : ℕ) (locale : String) (client_platform : ClientPlatform)
    (w : World) (b : Backend D R)
    → IsBrisk env default_ttl
    → b.pending ≡ []
    → t.log b.db (env.id_at w.draws) ≡ []
    → ((ps : List Pending) (d : D) → ¬ (Fails (db.flush ps d).0))
    → let (r, sys') =
        start_session env
          (pg_session_repository env db c)
          user_id
          locale
          client_platform
          (record { store = b; world = w }) in
      IsStarted t user_id locale client_platform b.db sys'.store.db r
unfolding create Python.utcnow Python.new_id same_state is_user for_session
start_session_stores env db c t laws user_id locale client_platform w b brisk idle unused up =
    let s = (greeted env user_id locale client_platform w).session in
    let e = started_event env user_id locale client_platform w in
    let saved =
      add_stores env db c t laws b s (e ∷ []) idle unused (refl, refl, refl, tt) (up _ _) in
    let (done, store) =
      start_session_run env user_id locale client_platform w (pg_session_repository env db c) b
        brisk saved.0 in
    rw store (record {
      session = s;
      event = e;
      returned = done;
      state = refl;
      revision = refl;
      owner = refl;
      in_locale = refl;
      on_platform = refl;
      greets = refl;
      stored = saved.1;
      outbox = saved.2;
      type = refl;
      aggregate = refl;
    })
