-- ===== src/Events.antt =====
-- app/domain/events.py: the domain events that are stored beside the changes they tell of.
use cognaris_chatbot.Prelude.{ℕ, String, Option, none, some}
use cognaris_chatbot.Python.{Env, World, Fields, end, utcnow, new_id}

pub record DomainEvent : Type 0 where
  pub id : ℕ
  pub aggregate_id : ℕ
  pub aggregate_type : String
  pub event_type : String
  pub payload : Fields
  pub occurred_at : ℕ

-- `payload or {}`
abbrev pub or_empty : Option Fields → Fields
or_empty none = end
or_empty (some fs) = fs

-- `DomainEvent.for_session`
unfoldable pub for_session : Env → ℕ → String → Option Fields → World → DomainEvent × World
unfolding utcnow new_id
for_session env session_id event_type payload w =
    let (id, w') = new_id env w in
    let (now, w'') = utcnow env w' in
    (
      record {
        id = id;
        aggregate_id = session_id;
        aggregate_type = "onboarding_session";
        event_type = event_type;
        payload = or_empty payload;
        occurred_at = now;
      },
      w'',
    )

-- the members of `SessionEventType` that the code uses
abbrev pub started : String
started = "session.started"

abbrev pub message_appended : String
message_appended = "session.message_appended"

abbrev pub state_changed : String
state_changed = "session.state_changed"
