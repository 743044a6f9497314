-- ===== src/Repository/Rows.antt =====
-- The ORM models of app/infrastructure/db/models/ as rows, and the mapping helpers of
-- app/infrastructure/db/repositories/session_repository.py. The columns created_at and updated_at
-- of a session, which the database fills and the code never reads, are left out.
use cognaris_chatbot.Prelude.{ℕ, String, Option, none, List, [], ◌∷◌, Outcome, ok}
use cognaris_chatbot.Prelude.Raising.{◌>>=◌}
use cognaris_chatbot.Python.{Fields}
use cognaris_chatbot.Enums.{SessionState, MessageRole, ClientPlatform}
use cognaris_chatbot.Errors.{Error}
use cognaris_chatbot.Entities.{ConversationMessage, OnboardingSession, checked, default_ttl}
use cognaris_chatbot.Events.{DomainEvent}

-- OnboardingSessionModel, without its relationship
pub record SessionRow : Type 0 where
  pub id : ℕ
  pub user_id : ℕ
  pub state : SessionState
  pub revision : ℕ
  pub locale : String
  pub client_platform : ClientPlatform
  pub current_step : Option String
  pub started_at : ℕ
  pub last_active_at : ℕ
  pub expires_at : ℕ
  pub confirmed_at : Option ℕ
  pub submitted_at : Option ℕ
  pub completed_at : Option ℕ

-- ConversationMessageModel
pub record MessageRow : Type 0 where
  pub id : ℕ
  pub session_id : ℕ
  pub role : MessageRole
  pub content : String
  pub sequence : ℕ
  pub rich_payload : Option Fields
  pub extra_metadata : Option Fields
  pub created_at : ℕ

-- DomainEventModel
pub record EventRow : Type 0 where
  pub id : ℕ
  pub aggregate_id : ℕ
  pub aggregate_type : String
  pub event_type : String
  pub payload : Fields
  pub occurred_at : ℕ
  pub published_at : Option ℕ

unfoldable pub entity_to_model : OnboardingSession → SessionRow
entity_to_model s = record {
  id = s.id;
  user_id = s.user_id;
  state = s.state;
  revision = s.revision;
  locale = s.locale;
  client_platform = s.client_platform;
  current_step = s.current_step;
  started_at = s.started_at;
  last_active_at = s.last_active_at;
  expires_at = s.expires_at;
  confirmed_at = s.confirmed_at;
  submitted_at = s.submitted_at;
  completed_at = s.completed_at;
}

unfoldable pub apply_entity_to_model : OnboardingSession → SessionRow → SessionRow
apply_entity_to_model s m = record m {
  state = s.state;
  revision = s.revision;
  current_step = s.current_step;
  last_active_at = s.last_active_at;
  expires_at = s.expires_at;
  confirmed_at = s.confirmed_at;
  submitted_at = s.submitted_at;
  completed_at = s.completed_at;
}

unfoldable pub message_entity_to_model : ConversationMessage → MessageRow
message_entity_to_model msg = record {
  id = msg.id;
  session_id = msg.session_id;
  role = msg.role;
  content = msg.content;
  sequence = msg.sequence;
  rich_payload = msg.rich_payload;
  extra_metadata = msg.metadata;
  created_at = msg.created_at;
}

unfoldable pub event_to_model : DomainEvent → EventRow
event_to_model evt = record {
  id = evt.id;
  aggregate_id = evt.aggregate_id;
  aggregate_type = evt.aggregate_type;
  event_type = evt.event_type;
  payload = evt.payload;
  occurred_at = evt.occurred_at;
  published_at = none;
}

-- one item of the comprehension in `_model_to_entity`
unfoldable pub message_model_to_entity : MessageRow → Outcome Error ConversationMessage
message_model_to_entity msg = checked (record {
  id = msg.id;
  session_id = msg.session_id;
  role = msg.role;
  content = msg.content;
  sequence = msg.sequence;
  created_at = msg.created_at;
  rich_payload = msg.rich_payload;
  metadata = msg.extra_metadata;
})

unfoldable pub message_models_to_entities :
    List MessageRow → Outcome Error (List ConversationMessage)
unfolding message_model_to_entity
message_models_to_entities [] = ok []
message_models_to_entities (row ∷ rows) = do
  m ← message_model_to_entity row
  ms ← message_models_to_entities rows
  ok (m ∷ ms)

-- `_model_to_entity`, on a row and its loaded messages: the TTL is the dataclass's default
unfoldable pub model_to_entity : SessionRow → List MessageRow → Outcome Error OnboardingSession
unfolding message_models_to_entities
model_to_entity m rows = do
  messages ← message_models_to_entities rows
  ok (record {
    id = m.id;
    user_id = m.user_id;
    state = m.state;
    revision = m.revision;
    locale = m.locale;
    client_platform = m.client_platform;
    started_at = m.started_at;
    last_active_at = m.last_active_at;
    expires_at = m.expires_at;
    current_step = m.current_step;
    confirmed_at = m.confirmed_at;
    submitted_at = m.submitted_at;
    completed_at = m.completed_at;
    messages = messages;
    ttl = default_ttl;
  })
