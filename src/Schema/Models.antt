-- ===== src/Schema/Models.antt =====
-- The ORM models of app/infrastructure/db/models/ and the mixins of app/infrastructure/db/base.py. What
-- `default=` and `onupdate=` name stands here by its text; the relationships are left out. The name of an
-- index is SQLAlchemy's, by table and column.
use cognaris_chatbot.Prelude.{Option, String, Bool, true, false, none, some, List, [], ◌∷◌, map}
use cognaris_chatbot.Enums.{
  new, in_progress, awaiting_confirmation, submitted, completed, paused, abandoned, archived,
  failed, user, assistant, system, web, mobile_ios, mobile_android, whatsapp, unknown, state_value,
  role_value, platform_value,
}
use cognaris_chatbot.Schema.{
  uuid, integer, timestamptz, jsonb, varchar, enumeration, Column, required, optional, primary,
  defaulting,
}

-- `mapped_column(…)`, with its `index=`, `default=` and `onupdate=`
pub record MappedColumn : Type 0 where
  pub column : Column
  pub index : Bool
  pub default : Option String
  pub onupdate : Option String

abbrev plain : Column → MappedColumn
plain c = record { column = c; index = false; default = none; onupdate = none }

abbrev indexed : Column → MappedColumn
indexed c = record (plain c) { index = true }

abbrev with_default : String → MappedColumn → MappedColumn
with_default text c = record c { default = some text }

-- `mixins` are the columns of the mixins that the class extends, `columns` its own
pub record Model : Type 0 where
  pub tablename : String
  pub mixins : List (List MappedColumn)
  pub columns : List MappedColumn
  pub unique : List (String × List String)

-- UUIDPrimaryKeyMixin and TimestampMixin
abbrev pub uuid_primary_key_mixin : List MappedColumn
uuid_primary_key_mixin = with_default "uuid4" (plain (primary "id")) ∷ []

abbrev pub timestamp_mixin : List MappedColumn
timestamp_mixin =
    plain (defaulting "now()" (required "created_at" timestamptz))
    ∷ record (plain (defaulting "now()" (required "updated_at" timestamptz))) {
      onupdate = some "now()";
    }
    ∷ []

-- A `PG_ENUM`. With create_type=False, SQLAlchemy never makes the type: that is left to the migration.
pub record PgEnum : Type 0 where
  pub name : String
  pub values : List String
  pub create_type : Bool

-- `PG_ENUM(…, values_callable=lambda x: [e.value for e in x])`
unfoldable pub session_state_enum : PgEnum
unfolding state_value
session_state_enum = record {
  name = "session_state";
  values = map state_value (
      new ∷ in_progress ∷ awaiting_confirmation ∷ submitted ∷ completed ∷ paused ∷ abandoned
      ∷ archived ∷ failed ∷ []);
  create_type = false;
}

unfoldable pub client_platform_enum : PgEnum
unfolding platform_value
client_platform_enum = record {
  name = "client_platform";
  values = map platform_value (web ∷ mobile_ios ∷ mobile_android ∷ whatsapp ∷ unknown ∷ []);
  create_type = false;
}

unfoldable pub message_role_enum : PgEnum
unfolding role_value
message_role_enum = record {
  name = "message_role";
  values = map role_value (user ∷ assistant ∷ system ∷ []);
  create_type = false;
}

unfoldable pub onboarding_session_model : Model
onboarding_session_model = record {
  tablename = "onboarding_sessions";
  mixins = uuid_primary_key_mixin ∷ timestamp_mixin ∷ [];
  columns =
      (indexed (required "user_id" uuid)
        ∷ indexed (required "state" (enumeration "session_state"))
        ∷ with_default "0" (plain (required "revision" integer))
        ∷ with_default "pt-BR" (plain (required "locale" (varchar 10)))
        ∷ with_default "ClientPlatform.WEB"
            (plain (required "client_platform" (enumeration "client_platform")))
        ∷ plain (optional "current_step" (varchar 64))
        ∷ plain (required "started_at" timestamptz)
        ∷ indexed (required "last_active_at" timestamptz)
        ∷ indexed (required "expires_at" timestamptz)
        ∷ plain (optional "confirmed_at" timestamptz)
        ∷ plain (optional "submitted_at" timestamptz)
        ∷ plain (optional "completed_at" timestamptz)
        ∷ []);
  unique = [];
}

unfoldable pub conversation_message_model : Model
conversation_message_model = record {
  tablename = "conversation_messages";
  mixins = uuid_primary_key_mixin ∷ [];
  columns =
      (indexed (record (required "session_id" uuid) {
        foreign_key = some ("onboarding_sessions.id", "CASCADE");
      })
        ∷ plain (required "role" (enumeration "message_role"))
        ∷ plain (required "content" (varchar 8000))
        ∷ plain (required "sequence" integer)
        ∷ plain (optional "rich_payload" jsonb)
        ∷ plain (optional "extra_metadata" jsonb)
        ∷ plain (required "created_at" timestamptz)
        ∷ []);
  unique = ("uq_conversation_messages_session_sequence", "session_id" ∷ "sequence" ∷ []) ∷ [];
}

unfoldable pub domain_event_model : Model
domain_event_model = record {
  tablename = "domain_events";
  mixins = uuid_primary_key_mixin ∷ [];
  columns =
      (indexed (required "aggregate_id" uuid)
        ∷ plain (required "aggregate_type" (varchar 64))
        ∷ indexed (required "event_type" (varchar 128))
        ∷ with_default "dict" (plain (required "payload" jsonb))
        ∷ indexed (required "occurred_at" timestamptz)
        ∷ indexed (optional "published_at" timestamptz)
        ∷ []);
  unique = [];
}
