-- ===== src/Service.antt =====
-- app/domain/onboarding/service.py, over any repository that fills the protocol. The session object
-- of a call is its own: it is lost when the call raises. Logging is left out.
pub mod Calls
pub mod Stored
pub mod Started
pub mod Moved
pub mod Conflict
use Prim.Native.String.{◌++◌}
use cognaris_chatbot.Prelude.{
  ℕ, String, Option, none, some, List, [], ◌∷◌, pos, leb, Outcome, ok, err, Exec, pure, raise, lift,
  when, continue, ◌>>=◌, ◌>>◌, gets,
}
use cognaris_chatbot.Python.{Env, World, Fields, str, int, end, field, format}
use cognaris_chatbot.Enums.{SessionState, ClientPlatform, user, assistant, state_value}
use cognaris_chatbot.Errors.{Error, domain, DomainError, session_not_found, session_expired}
use cognaris_chatbot.Entities.{
  ConversationMessage, OnboardingSession, Live, Method, create, is_expired, append_message,
  transition_to, default_ttl,
}
use cognaris_chatbot.Events.{DomainEvent, for_session, started, message_appended, state_changed}
use cognaris_chatbot.Repository.{SessionRepository}

abbrev pub greeting : String
greeting =
    "Oi! Eu sou o assistente que vai montar seu plano de estudos personalizado. Por enquanto sou apenas um eco; em breve farei perguntas reais sobre você."

abbrev pub echo_prefix : String
echo_prefix = "Recebi sua mensagem: "

-- The state behind the repository, and the runtime.
pub record System (X : Type 0) : Type 0 where
  pub store : X
  pub world : World

-- the value of a method beside the session object that it leaves
abbrev pub with_session :
    {A : Type 0} → Outcome Error A → OnboardingSession → Outcome Error (A × OnboardingSession)
with_session (ok a) s = ok (a, s)
with_session (err e) s = err e

module _ {X : Type 0} (env : Env) (repo : SessionRepository X) where
  abbrev pub Action : Type 0 → Type 0
  Action A = Exec Error (System X) A

  -- a call of a method of a session object
  abbrev pub on_session :
      {A : Type 0} → OnboardingSession → Method A → Action (A × OnboardingSession)
  on_session s m sys =
      let (r, l) = m (record { session = s; world = sys.world }) in
      (with_session r l.session, record sys { world = l.world })

  abbrev pub on_repo : {A : Type 0} → Exec Error X A → Action A
  on_repo m sys = let (r, x) = m sys.store in (r, record sys { store = x })

  -- `OnboardingSession.create`, with the default TTL
  abbrev pub new_session : ℕ → String → ClientPlatform → Action OnboardingSession
  new_session user_id locale client_platform sys =
      let l = create env user_id locale client_platform default_ttl sys.world in
      (ok l.session, record sys { world = l.world })

  abbrev pub new_event : ℕ → String → Fields → Action DomainEvent
  new_event session_id event_type payload sys =
      let (e, w) = for_session env session_id event_type (some payload) sys.world in
      (ok e, record sys { world = w })

  unfoldable pub start_session : ℕ → String → ClientPlatform → Action OnboardingSession
  start_session user_id locale client_platform = do
    session ← new_session user_id locale client_platform
    (message, session') ← on_session session (append_message env assistant greeting none none)
    event ←
        new_event session'.id started
          (field "user_id" (str (env.str_uuid user_id)) (field "locale" (str locale) end))
    on_repo (repo.add session' (event ∷ []))
    pure session'

  not_found : ℕ → Error
  not_found session_id = domain (record {
    kind = session_not_found;
    message = format ("Session " ∷ env.str_uuid session_id ∷ " not found" ∷ []);
    details = field "session_id" (str (env.str_uuid session_id)) end;
  })

  unfoldable pub found : ℕ → Option OnboardingSession → Action OnboardingSession
  unfolding not_found
  found session_id none = raise (not_found session_id)
  found session_id (some session) = pure session

  unfoldable pub get_session : ℕ → Action OnboardingSession
  unfolding found
  get_session session_id = do session ← on_repo (repo.get session_id); found session_id session

  -- the `if session.is_expired: raise`
  unfoldable pub refuse_expired : OnboardingSession → Action (Unit {0})
  refuse_expired session = do
    (expired, _) ← on_session session (is_expired env)
    when expired (
        raise (
          domain (record {
            kind = session_expired;
            message = "Session has expired";
            details = field "expires_at" (str (env.isoformat session.expires_at)) end;
          })))

  -- the end of `handle_user_message`: the events and the `save`
  unfoldable pub record_turn :
      OnboardingSession
      → ℕ
      → ConversationMessage
      → ConversationMessage
      → Action (OnboardingSession × ConversationMessage × ConversationMessage)
  record_turn session expected_revision user_msg assistant_msg = do
    event ←
        new_event session.id message_appended
          (field "role" (str "user") (field "sequence" (int (pos user_msg.sequence)) end))
    event' ←
        new_event session.id message_appended
          (field "role" (str "assistant") (field "sequence" (int (pos assistant_msg.sequence)) end))
    on_repo (repo.save session expected_revision (event ∷ event' ∷ []))
    pure (session, user_msg, assistant_msg)

  -- `handle_user_message`, from the session that it has loaded
  unfoldable pub converse :
      OnboardingSession
      → String
      → Option Fields
      → Action (OnboardingSession × ConversationMessage × ConversationMessage)
  unfolding refuse_expired
  converse session content rich_payload = do
    let expected_revision = session.revision
    refuse_expired session
    (user_msg, session') ← on_session session (append_message env user content rich_payload none)
    let assistant_text = echo_prefix ++ content
    (assistant_msg, session'') ←
        on_session session' (append_message env assistant assistant_text none none)
    record_turn session'' expected_revision user_msg assistant_msg

  unfoldable pub handle_user_message :
      ℕ
      → String
      → Option Fields
      → Action (OnboardingSession × ConversationMessage × ConversationMessage)
  handle_user_message session_id content rich_payload = do
    session ← get_session session_id
    converse session content rich_payload

  -- `transition`, from the session that it has loaded
  unfoldable pub move : OnboardingSession → SessionState → Action OnboardingSession
  move session target = do
    let expected_revision = session.revision
    let previous = session.state
    (done, session') ← on_session session (transition_to env target)
    event ←
        new_event session'.id state_changed
          (field "from" (str (state_value previous)) (field "to" (str (state_value target)) end))
    on_repo (repo.save session' expected_revision (event ∷ []))
    pure session'

  unfoldable pub transition : ℕ → SessionState → Action OnboardingSession
  transition session_id target = do session ← get_session session_id; move session target
