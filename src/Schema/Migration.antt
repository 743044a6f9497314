-- ===== src/Schema/Migration.antt =====
-- `upgrade` and `downgrade` of alembic/versions/20260530_1200_0001_create_session_tables.py, as the
-- operations that they run in their order. `checkfirst` is left out: the types are new.
use cognaris_chatbot.Prelude.{String, some, List, [], ◌∷◌}
use cognaris_chatbot.Schema.{
  uuid, integer, timestamptz, jsonb, varchar, enumeration, Table, Ddl, create_type, create_table,
  create_index, drop_type, drop_table, drop_index, required, optional, primary, defaulting,
}

abbrev pub session_state_values : List String
session_state_values =
    "new" ∷ "in_progress" ∷ "awaiting_confirmation" ∷ "submitted" ∷ "completed" ∷ "paused"
    ∷ "abandoned" ∷ "archived" ∷ "failed" ∷ []

abbrev pub client_platform_values : List String
client_platform_values = "web" ∷ "mobile_ios" ∷ "mobile_android" ∷ "whatsapp" ∷ "unknown" ∷ []

abbrev pub message_role_values : List String
message_role_values = "user" ∷ "assistant" ∷ "system" ∷ []

unfoldable pub onboarding_sessions : Table
onboarding_sessions = record {
  name = "onboarding_sessions";
  columns =
      primary "id"
      ∷ required "user_id" uuid
      ∷ required "state" (enumeration "session_state")
      ∷ defaulting "0" (required "revision" integer)
      ∷ defaulting "pt-BR" (required "locale" (varchar 10))
      ∷ defaulting "web" (required "client_platform" (enumeration "client_platform"))
      ∷ optional "current_step" (varchar 64)
      ∷ required "started_at" timestamptz
      ∷ required "last_active_at" timestamptz
      ∷ required "expires_at" timestamptz
      ∷ optional "confirmed_at" timestamptz
      ∷ optional "submitted_at" timestamptz
      ∷ optional "completed_at" timestamptz
      ∷ defaulting "now()" (required "created_at" timestamptz)
      ∷ defaulting "now()" (required "updated_at" timestamptz)
      ∷ [];
  unique = [];
}

unfoldable pub conversation_messages : Table
conversation_messages = record {
  name = "conversation_messages";
  columns =
      primary "id"
      ∷ record (required "session_id" uuid) {
        foreign_key = some ("onboarding_sessions.id", "CASCADE");
      }
      ∷ required "role" (enumeration "message_role")
      ∷ required "content" (varchar 8000)
      ∷ required "sequence" integer
      ∷ optional "rich_payload" jsonb
      ∷ optional "extra_metadata" jsonb
      ∷ required "created_at" timestamptz
      ∷ [];
  unique = ("uq_conversation_messages_session_sequence", "session_id" ∷ "sequence" ∷ []) ∷ [];
}

unfoldable pub domain_events : Table
domain_events = record {
  name = "domain_events";
  columns =
      primary "id"
      ∷ required "aggregate_id" uuid
      ∷ required "aggregate_type" (varchar 64)
      ∷ required "event_type" (varchar 128)
      ∷ defaulting "'{}'::jsonb" (required "payload" jsonb)
      ∷ required "occurred_at" timestamptz
      ∷ optional "published_at" timestamptz
      ∷ [];
  unique = [];
}

unfoldable pub upgrade : List Ddl
unfolding onboarding_sessions conversation_messages domain_events
upgrade =
    create_type "session_state" session_state_values
    ∷ create_type "client_platform" client_platform_values
    ∷ create_type "message_role" message_role_values
    ∷ create_table onboarding_sessions
    ∷ create_index "ix_onboarding_sessions_user_id" "onboarding_sessions" ("user_id" ∷ [])
    ∷ create_index "ix_onboarding_sessions_state" "onboarding_sessions" ("state" ∷ [])
    ∷ create_index "ix_onboarding_sessions_last_active_at" "onboarding_sessions"
        ("last_active_at" ∷ [])
    ∷ create_index "ix_onboarding_sessions_expires_at" "onboarding_sessions" ("expires_at" ∷ [])
    ∷ create_table conversation_messages
    ∷ create_index "ix_conversation_messages_session_id" "conversation_messages" ("session_id" ∷ [])
    ∷ create_table domain_events
    ∷ create_index "ix_domain_events_aggregate_id" "domain_events" ("aggregate_id" ∷ [])
    ∷ create_index "ix_domain_events_event_type" "domain_events" ("event_type" ∷ [])
    ∷ create_index "ix_domain_events_occurred_at" "domain_events" ("occurred_at" ∷ [])
    ∷ create_index "ix_domain_events_published_at" "domain_events" ("published_at" ∷ [])
    ∷ []

unfoldable pub downgrade : List Ddl
downgrade =
    drop_index "ix_domain_events_published_at" "domain_events"
    ∷ drop_index "ix_domain_events_occurred_at" "domain_events"
    ∷ drop_index "ix_domain_events_event_type" "domain_events"
    ∷ drop_index "ix_domain_events_aggregate_id" "domain_events"
    ∷ drop_table "domain_events"
    ∷ drop_index "ix_conversation_messages_session_id" "conversation_messages"
    ∷ drop_table "conversation_messages"
    ∷ drop_index "ix_onboarding_sessions_expires_at" "onboarding_sessions"
    ∷ drop_index "ix_onboarding_sessions_last_active_at" "onboarding_sessions"
    ∷ drop_index "ix_onboarding_sessions_state" "onboarding_sessions"
    ∷ drop_index "ix_onboarding_sessions_user_id" "onboarding_sessions"
    ∷ drop_table "onboarding_sessions"
    ∷ drop_type "message_role"
    ∷ drop_type "client_platform"
    ∷ drop_type "session_state"
    ∷ []
