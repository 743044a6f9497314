-- ===== src/Coherent/Requests.antt =====
-- The endpoints of app/api/v1/endpoints/sessions.py, over tables and a cache that agree, whatever raises.
use cognaris_chatbot.Prelude.{String, ◌≡◌, refl, [], Option, none, Exec, pure, ◌>>=◌}
use cognaris_chatbot.Python.{Env, World, TextLaws}
use cognaris_chatbot.Errors.{Error}
use cognaris_chatbot.Entities
use cognaris_chatbot.Python
use cognaris_chatbot.Entities.{OnboardingSession, ConversationMessage}
use cognaris_chatbot.Cache.{Client, key}
use cognaris_chatbot.Cache.Laws.{ClientLaws, IsDict}
use cognaris_chatbot.Repository.{Database, Backend, SessionRepository, pg_session_repository}
use cognaris_chatbot.Repository.Tables.{Tables, DatabaseLaws}
use cognaris_chatbot.Service.{System}
use cognaris_chatbot.Api
use cognaris_chatbot.Api.{
  StartSessionRequest, SendMessageRequest, SendMessageResponse, send_message, detailed, delivered,
  to_summary, to_detail, to_message_out, serve, Request, post_session, show_session, post_message,
}
use cognaris_chatbot.Coherent.{AllAgree, AllHeld, Ends}
use cognaris_chatbot.Coherent.Converse.{continue-Ends}
use cognaris_chatbot.Coherent.Calls.{get_session-Ends, handle_user_message-Ends, start_session-Ends}

-- What a request may bring: the identifier of a new session is one that neither the tables nor the
-- cache know, and a payload is a dict.
abbrev pub IsFair :
    {D R Raw : Type 0}
    → Env
    → Tables D
    → (R → String → Option Raw)
    → Request
    → System (Backend D R)
    → Type 0
IsFair env t stored (post_session body) sys =
    (t.row sys.store.db (env.id_at sys.world.draws) ≡ none)
    × (t.log sys.store.db (env.id_at sys.world.draws) ≡ [])
    × (stored sys.store.cache (key env (env.id_at sys.world.draws)) ≡ none)
IsFair env t stored (show_session id) sys = Unit
IsFair env t stored (post_message id body) sys = IsDict body.rich_payload

module _ {D R Raw : Type 0} (env : Env) (texts : TextLaws env) (db : Database D) (c : Client R Raw)
    (t : Tables D) (laws : DatabaseLaws db t) (stored : R → String → Option Raw)
    (cache_laws : ClientLaws c stored) where
  abbrev repo : SessionRepository (Backend D R)
  repo = pg_session_repository env db c

  to_summary_still :
      (s : OnboardingSession) (sys : System (Backend D R))
      → (to_summary env repo s sys).1.store ≡ sys.store
  unfolding to_summary Entities.is_expired Entities.utcnow Python.utcnow
  to_summary_still s sys = refl

  to_detail_still :
      (s : OnboardingSession) (sys : System (Backend D R))
      → (to_detail env repo s sys).1.store ≡ sys.store
  unfolding to_detail to_summary Entities.is_expired Entities.utcnow Python.utcnow
  to_detail_still s sys = refl

  -- Whatever raises: an endpoint over well-formed tables and a cache that agrees with them leaves a cache
  -- that agrees with the tables as they were; and unless it raises, well-formed tables with which the
  -- cache agrees, in which every log begins with what it was.
  pub serve-Ends :
      (request : Request) (sys : System (Backend D R))
      → sys.store.pending ≡ []
      → AllHeld t sys.store.db
      → AllAgree env c stored t sys.store.db sys.store.cache
      → IsFair env t stored request sys
      → let (r, sys') = serve env repo request sys in Ends env c stored t sys.store.db r sys'.store
  unfolding serve Api.start_session Api.get_session send_message Entities.is_expired
  serve-Ends (post_session body) sys idle held agree fair =
      continue-Ends env texts db c t laws stored cache_laws sys.store.db _ (λ d. pure (detailed d))
        _ (λ d sys'. refl)
        (continue-Ends env texts db c t laws stored cache_laws sys.store.db _ (to_detail env repo) _
          to_detail_still
          (start_session-Ends env texts db c t laws stored cache_laws sys held agree body.user_id
            body.locale body.client_platform idle fair))
  serve-Ends (show_session id) sys idle held agree fair =
      continue-Ends env texts db c t laws stored cache_laws sys.store.db _ (λ d. pure (detailed d))
        _ (λ d sys'. refl)
        (continue-Ends env texts db c t laws stored cache_laws sys.store.db _ (to_detail env repo) _
          to_detail_still
          (get_session-Ends env texts db c t laws stored cache_laws sys held agree id))
  serve-Ends (post_message id body) sys idle held agree fair =
      continue-Ends env texts db c t laws stored cache_laws sys.store.db _ (λ m. pure (delivered m))
        _ (λ d sys'. refl)
        (continue-Ends env texts db c t laws stored cache_laws sys.store.db _ answer _
          (λ p. to_summary_still p.0)
          (handle_user_message-Ends env texts db c t laws stored cache_laws sys held agree id
            body.content body.rich_payload idle fair))
    where
      answer :
          OnboardingSession × ConversationMessage × ConversationMessage
          → Exec Error (System (Backend D R)) SendMessageResponse
      answer p = to_summary env repo p.0 >>= λ summary. pure (record {
        session = summary;
        user_message = to_message_out p.1;
        assistant_message = to_message_out p.2;
      })
