-- ===== src/Api.antt =====
-- app/api/v1/endpoints/sessions.py with the requests and responses of
-- app/domain/onboarding/schemas.py, and the handlers of app/api/errors.py. The framework that parses a
-- request, checks it against its schema and picks a handler by the class of the exception is not
-- part of the repository: the limits of a schema are a test here, and `respond` is that choice. The
-- texts that the `str` methods `lower` and `title` make are parameters.
pub mod Overflow
pub mod Detail
pub mod Problems
use Prim.Native.String.{◌++◌}
use cognaris_chatbot.Prelude.{
  ℕ, String, count, Bool, Option, none, some, List, leb, ◌&&◌, pos, length, map, Outcome, ok, err,
  Exec, pure, ◌>>=◌, ◌>>◌,
}
use cognaris_chatbot.Python.{Env, Fields, Json, str, int, obj, end, field}
use cognaris_chatbot.Enums.{SessionState, MessageRole, ClientPlatform}
use cognaris_chatbot.Errors.{Error, domain, DomainError, code, http_status}
use cognaris_chatbot.Entities.{ConversationMessage, OnboardingSession, is_expired}
use cognaris_chatbot.Repository.{SessionRepository}
use cognaris_chatbot.Service
use cognaris_chatbot.Service.{System, Action, on_session, handle_user_message}

pub record StartSessionRequest : Type 0 where
  pub user_id : ℕ
  pub locale : String
  pub client_platform : ClientPlatform

pub record SendMessageRequest : Type 0 where
  pub content : String
  pub rich_payload : Option Fields

-- `max_length=10`
unfoldable pub fits_start : StartSessionRequest → Bool
fits_start body = leb (count body.locale) 10

-- `min_length=1, max_length=8_000`
unfoldable pub fits_message : SendMessageRequest → Bool
fits_message body = leb 1 (count body.content) && leb (count body.content) 8000

pub record ConversationMessageOut : Type 0 where
  pub id : ℕ
  pub role : MessageRole
  pub content : String
  pub sequence : ℕ
  pub created_at : ℕ
  pub rich_payload : Option Fields

pub record SessionSummaryOut : Type 0 where
  pub id : ℕ
  pub user_id : ℕ
  pub state : SessionState
  pub revision : ℕ
  pub locale : String
  pub client_platform : ClientPlatform
  pub current_step : Option String
  pub started_at : ℕ
  pub last_active_at : ℕ
  pub expires_at : ℕ
  pub is_expired : Bool
  pub message_count : ℕ

-- SessionDetailOut extends the summary
pub record SessionDetailOut : Type 0 where
  pub summary : SessionSummaryOut
  pub messages : List ConversationMessageOut

pub record SendMessageResponse : Type 0 where
  pub session : SessionSummaryOut
  pub user_message : ConversationMessageOut
  pub assistant_message : ConversationMessageOut

unfoldable pub to_message_out : ConversationMessage → ConversationMessageOut
to_message_out msg = record {
  id = msg.id;
  role = msg.role;
  content = msg.content;
  sequence = msg.sequence;
  created_at = msg.created_at;
  rich_payload = msg.rich_payload;
}

module _ {X : Type 0} (env : Env) (repo : SessionRepository X) where
  -- the clock is read for `is_expired`
  unfoldable pub to_summary : OnboardingSession → Action env repo SessionSummaryOut
  to_summary session = do
    (expired, _) ← on_session env repo session (is_expired env)
    pure (record {
      id = session.id;
      user_id = session.user_id;
      state = session.state;
      revision = session.revision;
      locale = session.locale;
      client_platform = session.client_platform;
      current_step = session.current_step;
      started_at = session.started_at;
      last_active_at = session.last_active_at;
      expires_at = session.expires_at;
      is_expired = expired;
      message_count = length session.messages;
    })

  unfoldable pub to_detail : OnboardingSession → Action env repo SessionDetailOut
  unfolding to_summary
  to_detail session = do
    summary ← to_summary session
    pure (record { summary = summary; messages = map to_message_out session.messages })

  unfoldable pub start_session : StartSessionRequest → Action env repo SessionDetailOut
  start_session body = do
    session ← Service.start_session env repo body.user_id body.locale body.client_platform
    to_detail session

  unfoldable pub get_session : ℕ → Action env repo SessionDetailOut
  get_session session_id = do session ← Service.get_session env repo session_id; to_detail session

  unfoldable pub send_message : ℕ → SendMessageRequest → Action env repo SendMessageResponse
  unfolding to_summary
  send_message session_id body = do
    (session, user_msg, assistant_msg) ←
        handle_user_message env repo session_id body.content body.rich_payload
    summary ← to_summary session
    pure (record {
      session = summary;
      user_message = to_message_out user_msg;
      assistant_message = to_message_out assistant_msg;
    })

-- The routes of the session endpoints, and what they answer.
pub data Request : Type 0 where
  post_session : StartSessionRequest → Request
  show_session : ℕ → Request
  post_message : ℕ → SendMessageRequest → Request

pub data Reply : Type 0 where
  detailed : SessionDetailOut → Reply
  delivered : SendMessageResponse → Reply

unfoldable pub serve :
    {X : Type 0} (env : Env) (repo : SessionRepository X) → Request → Action env repo Reply
serve env repo (post_session body) = do d ← start_session env repo body; pure (detailed d)
serve env repo (show_session id) = do d ← get_session env repo id; pure (detailed d)
serve env repo (post_message id body) = do m ← send_message env repo id body; pure (delivered m)

pub record Problem : Type 0 where
  pub status : ℕ
  pub body : Json

module _ (lower titled : String → String) where
  -- `extra` is the end of the body: its keys are none of the others
  unfoldable pub problem_response : ℕ → String → String → String → Fields → Problem
  problem_response status code title detail extra = record {
    status = status;
    body = obj (
        field "type" (str ("about:blank/" ++ lower code)) (
          field "title" (str title) (
            field "status" (int (pos status))
              (field "code" (str code) (field "detail" (str detail) extra)))));
  }

  -- `{"details": exc.details} if exc.details else None`
  abbrev pub details_of : Fields → Fields
  details_of end = end
  details_of fs = field "details" (obj fs) end

  unfoldable pub handle_domain_error : DomainError → Problem
  unfolding problem_response
  handle_domain_error exc =
      problem_response (http_status exc.kind) (code exc.kind) (titled (code exc.kind)) exc.message
        (details_of exc.details)

  -- `errors` is what the framework says of the request
  unfoldable pub handle_validation_error : Json → Problem
  unfolding problem_response
  handle_validation_error errors =
      problem_response 422 "REQUEST_VALIDATION_ERROR" "Request Validation Error"
        "One or more fields are invalid." (field "errors" errors end)

  unfoldable pub handle_unexpected : Problem
  unfolding problem_response
  handle_unexpected =
      problem_response 500 "INTERNAL_ERROR" "Internal Server Error" "An unexpected error occurred."
        end

  -- the response to what an endpoint returns or raises
  unfoldable pub respond : {A : Type 0} → ℕ → Outcome Error A → Outcome Problem (ℕ × A)
  unfolding handle_domain_error handle_unexpected
  respond status (ok a) = ok (status, a)
  respond status (err (domain exc)) = err (handle_domain_error exc)
  respond status (err e) = err handle_unexpected
