-- ===== src/Transaction/Calls.antt =====
-- No call of app/domain/onboarding/service.py or of app/api/v1/endpoints/sessions.py, over the repository
-- of app/infrastructure/db/repositories/session_repository.py, commits anything.
use cognaris_chatbot.Prelude.{
  ℕ, [], ◌∷◌, Option, none, some, String, Exec, pure, arith, ◌>>=◌, ◌>>◌, ◌≡◌,
}
use cognaris_chatbot.Python.{Env, Fields}
use cognaris_chatbot.Errors.{Error}
use cognaris_chatbot.Entities.{OnboardingSession}
use cognaris_chatbot.Events.{DomainEvent}
use cognaris_chatbot.Cache.{Client}
use cognaris_chatbot.Repository.{Database, Backend}
use cognaris_chatbot.Repository.Tables.{Tables, SameTables-refl}
use cognaris_chatbot.Enums.{ClientPlatform}
use cognaris_chatbot.Service
use Prim.Native.String.{◌++◌ as append_text}
use cognaris_chatbot.Python.{str, field, end}
use cognaris_chatbot.Enums.{user, assistant}
use cognaris_chatbot.Events
use cognaris_chatbot.Entities.{ConversationMessage, append_message}
use cognaris_chatbot.Service.{on_session, new_event, greeting, echo_prefix}
use cognaris_chatbot.Service.{
  converse, record_turn, refuse_expired, handle_user_message, System, on_repo, found,
}
use cognaris_chatbot.Repository.{SessionRepository, pg_session_repository}
use cognaris_chatbot.Transaction.{Connection}
use cognaris_chatbot.Transaction.Laws.{TransactionLaws}
use cognaris_chatbot.Transaction.Atomic.{Keeps, bind-Keeps}
use cognaris_chatbot.Transaction.Hidden.{add-Hides, get-Hides, save-Hides}
use cognaris_chatbot.Api
use cognaris_chatbot.Api.{
  StartSessionRequest, SendMessageRequest, SendMessageResponse, send_message, detailed, delivered,
  to_summary, to_detail, to_message_out, serve, Request, post_session, show_session, post_message,
}

module _ {D R Raw : Type 0} (env : Env) {db : Database D} (c : Client R Raw) {conn : Connection D}
    {t : Tables D} (kept : Tables D) (laws : TransactionLaws db conn t kept) where
  -- The service's calls, over this repository.
  abbrev repo : SessionRepository (Backend D R)
  repo = pg_session_repository env db c

  abbrev system_db : System (Backend D R) → D
  system_db sys = sys.store.db

  abbrev IsHidden : {A : Type 0} → Exec Error (System (Backend D R)) A → Type 0
  IsHidden m = Keeps kept system_db m

  -- what does not touch the repository
  still :
      {A : Type 0} (m : Exec Error (System (Backend D R)) A)
      → ((sys : System (Backend D R)) → (m sys).1.store ≡ sys.store)
      → IsHidden m
  still m h sys = rw h (SameTables-refl kept sys.store.db)

  on_repo-IsHidden :
      {A : Type 0} (m : Exec Error (Backend D R) A)
      → Keeps kept (λ (b : Backend D R). b.db) m
      → IsHidden (on_repo env repo m)
  on_repo-IsHidden m h sys = h sys.store

  found-IsHidden : (id : ℕ) (o : Option OnboardingSession) → IsHidden (found env repo id o)
  unfolding found
  found-IsHidden id none sys = SameTables-refl kept sys.store.db
  found-IsHidden id (some s) sys = SameTables-refl kept sys.store.db

  get_session-IsHidden : (id : ℕ) → IsHidden (Service.get_session env repo id)
  unfolding Service.get_session
  get_session-IsHidden id =
      bind-Keeps kept system_db (on_repo env repo (repo.get id)) (found env repo id)
        (on_repo-IsHidden (repo.get id) (get-Hides env c kept laws id)) (found-IsHidden id)

  pub start_session-IsHidden :
      (user_id : ℕ) (locale : String) (client_platform : ClientPlatform)
      → IsHidden (Service.start_session env repo user_id locale client_platform)
  unfolding Service.start_session
  start_session-IsHidden user_id locale client_platform sys =
      bind-Keeps kept system_db
        (on_session env repo _ (append_message env assistant greeting none none))
        (λ p. announce p.1) (λ sys'. SameTables-refl kept sys'.store.db)
        (λ p. announce-IsHidden p.1) (record sys { world = _ })
    where
      event_of : OnboardingSession → Exec Error (System (Backend D R)) DomainEvent
      event_of s =
          new_event env repo s.id Events.started
            (field "user_id" (str (env.str_uuid user_id)) (field "locale" (str locale) end))

      announce : OnboardingSession → Exec Error (System (Backend D R)) OnboardingSession
      announce s = event_of s >>= λ e. on_repo env repo (repo.add s (e ∷ [])) >> pure s

      announce-IsHidden : (s : OnboardingSession) → IsHidden (announce s)
      announce-IsHidden s =
          bind-Keeps kept system_db (event_of s)
            (λ e. on_repo env repo (repo.add s (e ∷ [])) >> pure s)
            (λ sys. SameTables-refl kept sys.store.db)
            (λ e.
              bind-Keeps kept system_db (on_repo env repo (repo.add s (e ∷ []))) (λ _. pure s)
                (on_repo-IsHidden (repo.add s (e ∷ [])) (add-Hides env c kept laws s (e ∷ [])))
                (λ _ sys. SameTables-refl kept sys.store.db))

  refuse_expired-IsHidden : (s : OnboardingSession) → IsHidden (refuse_expired env repo s)
  unfolding refuse_expired
  refuse_expired-IsHidden s = still (refuse_expired env repo s) (λ sys. ground arith)

  record_turn-IsHidden :
      (s : OnboardingSession) (revision : ℕ) (m m' : ConversationMessage)
      → IsHidden (record_turn env repo s revision m m')
  unfolding record_turn
  record_turn-IsHidden s revision m m' sys =
      bind-Keeps kept system_db (on_repo env repo (repo.save s revision _)) (λ _. pure (s, m, m'))
        (on_repo-IsHidden (repo.save s revision _) (save-Hides env c kept laws s revision _))
        (λ _ sys. SameTables-refl kept sys.store.db) (record sys { world = _ })

  converse-IsHidden :
      (s : OnboardingSession) (content : String) (rich_payload : Option Fields)
      → IsHidden (converse env repo s content rich_payload)
  unfolding converse
  converse-IsHidden s content rich_payload =
      bind-Keeps kept system_db (refuse_expired env repo s) (λ _. ask >>= λ p. answer p.0 p.1)
        (refuse_expired-IsHidden s)
        (λ _.
          bind-Keeps kept system_db ask (λ p. answer p.0 p.1)
            (λ sys'. SameTables-refl kept sys'.store.db)
            (λ p.
              bind-Keeps kept system_db (echo p.1)
                (λ q. record_turn env repo q.1 s.revision p.0 q.0)
                (λ sys'. SameTables-refl kept sys'.store.db)
                (λ q. record_turn-IsHidden q.1 s.revision p.0 q.0)))
    where
      ask : Exec Error (System (Backend D R)) (ConversationMessage × OnboardingSession)
      ask = on_session env repo s (append_message env user content rich_payload none)

      echo :
          OnboardingSession
          → Exec Error (System (Backend D R)) (ConversationMessage × OnboardingSession)
      echo s' =
          on_session env repo s'
            (append_message env assistant (append_text echo_prefix content) none none)

      answer :
          ConversationMessage
          → OnboardingSession
          → Exec Error
              (System (Backend D R))
              (OnboardingSession × ConversationMessage × ConversationMessage)
      answer m s' = echo s' >>= λ q. record_turn env repo q.1 s.revision m q.0

  pub handle_user_message-IsHidden :
      (id : ℕ) (content : String) (rich_payload : Option Fields)
      → IsHidden (handle_user_message env repo id content rich_payload)
  unfolding handle_user_message
  handle_user_message-IsHidden id content rich_payload =
      bind-Keeps kept system_db (Service.get_session env repo id)
        (λ s. converse env repo s content rich_payload) (get_session-IsHidden id)
        (λ s. converse-IsHidden s content rich_payload)

  to_summary-IsHidden : (s : OnboardingSession) → IsHidden (to_summary env repo s)
  unfolding to_summary
  to_summary-IsHidden s = still (to_summary env repo s) (λ sys. ground arith)

  to_detail-IsHidden : (s : OnboardingSession) → IsHidden (to_detail env repo s)
  unfolding to_detail
  to_detail-IsHidden s = still (to_detail env repo s) (λ sys. ground arith)

  start-IsHidden : (body : StartSessionRequest) → IsHidden (Api.start_session env repo body)
  unfolding Api.start_session
  start-IsHidden body =
      bind-Keeps kept system_db
        (Service.start_session env repo body.user_id body.locale body.client_platform)
        (to_detail env repo) (start_session-IsHidden body.user_id body.locale body.client_platform)
        to_detail-IsHidden

  show-IsHidden : (id : ℕ) → IsHidden (Api.get_session env repo id)
  unfolding Api.get_session
  show-IsHidden id =
      bind-Keeps kept system_db (Service.get_session env repo id) (to_detail env repo)
        (get_session-IsHidden id) to_detail-IsHidden

  send_message-IsHidden :
      (id : ℕ) (body : SendMessageRequest) → IsHidden (send_message env repo id body)
  unfolding send_message
  send_message-IsHidden id body =
      bind-Keeps kept system_db (handle_user_message env repo id body.content body.rich_payload)
        reply (handle_user_message-IsHidden id body.content body.rich_payload)
        (λ p.
          bind-Keeps kept system_db (to_summary env repo p.0) _ (to_summary-IsHidden p.0)
            (λ summary sys. SameTables-refl kept sys.store.db))
    where
      reply :
          OnboardingSession × ConversationMessage × ConversationMessage
          → Exec Error (System (Backend D R)) SendMessageResponse
      reply p = to_summary env repo p.0 >>= λ summary. pure (record {
        session = summary;
        user_message = to_message_out p.1;
        assistant_message = to_message_out p.2;
      })

  pub serve-IsHidden : (request : Request) → IsHidden (serve env repo request)
  unfolding serve
  serve-IsHidden (post_session body) =
      bind-Keeps kept system_db (Api.start_session env repo body) (λ d. pure (detailed d))
        (start-IsHidden body) (λ d sys. SameTables-refl kept sys.store.db)
  serve-IsHidden (show_session id) =
      bind-Keeps kept system_db (Api.get_session env repo id) (λ d. pure (detailed d))
        (show-IsHidden id) (λ d sys. SameTables-refl kept sys.store.db)
  serve-IsHidden (post_message id body) =
      bind-Keeps kept system_db (send_message env repo id body) (λ m. pure (delivered m))
        (send_message-IsHidden id body) (λ m sys. SameTables-refl kept sys.store.db)
