-- ===== src/Entities.antt =====
-- app/domain/onboarding/entities.py: the transition table, the messages, and the session aggregate
-- with its queries and commands. A command is an action on the session object and the runtime; a
-- raise leaves behind what the command had already assigned. `_ttl` is the field `ttl`.
pub mod Graph
pub mod Message
pub mod Steps
pub mod Runs
pub mod Invariant
pub mod Clock
pub mod Commands
use cognaris_chatbot.Prelude.{
  ℕ, suc, ◌+◌, ◌*◌, String, count, Bool, true, false, Option, none, some, List, [], ◌∷◌, ◌++◌, ℤ,
  pos, ltb, leb, not, ◌&&◌, if◌then◌else◌, length, map, str_eq, Outcome, ok, err, Exec, pure, raise,
  lift, gets, modify, when, ◌>>=◌, ◌>>◌,
}
use cognaris_chatbot.Python
use cognaris_chatbot.Python.{
  Env, World, Json, Items, Fields, str, int, arr, nil, cons, end, field, is_empty, format,
}
use cognaris_chatbot.Enums.{
  SessionState, new, in_progress, awaiting_confirmation, submitted, completed, paused, abandoned,
  archived, failed, MessageRole, ClientPlatform, state_value, role_value, in_terminal_states,
  in_interactive_states, same_state, is_user,
}
use cognaris_chatbot.Errors.{
  Error, domain, DomainError, ErrorClass, invalid_session_state, session_expired, invalid_message,
}

-- `_ALLOWED_TRANSITIONS`: each frozenset is a list, in the order written
unfoldable pub allowed_transitions : SessionState → List SessionState
allowed_transitions new = in_progress ∷ abandoned ∷ []
allowed_transitions in_progress =
    in_progress ∷ awaiting_confirmation ∷ paused ∷ abandoned ∷ failed ∷ []
allowed_transitions awaiting_confirmation =
    in_progress ∷ submitted ∷ paused ∷ abandoned ∷ failed ∷ []
allowed_transitions submitted = completed ∷ failed ∷ []
allowed_transitions paused = in_progress ∷ abandoned ∷ []
allowed_transitions abandoned = archived ∷ []
allowed_transitions completed = []
allowed_transitions archived = []
allowed_transitions failed = []

-- `target in allowed`
unfoldable pub contains : List SessionState → SessionState → Bool
contains [] target = false
contains (s ∷ rest) target = if same_state s target then true else contains rest target

pub record ConversationMessage : Type 0 where
  pub id : ℕ
  pub session_id : ℕ
  pub role : MessageRole
  pub content : String
  pub sequence : ℕ
  pub created_at : ℕ
  pub rich_payload : Option Fields
  pub metadata : Option Fields

pub record OnboardingSession : Type 0 where
  pub id : ℕ
  pub user_id : ℕ
  pub state : SessionState
  pub revision : ℕ
  pub locale : String
  pub client_platform : ClientPlatform
  pub started_at : ℕ
  pub last_active_at : ℕ
  pub expires_at : ℕ
  pub current_step : Option String
  pub confirmed_at : Option ℕ
  pub submitted_at : Option ℕ
  pub completed_at : Option ℕ
  pub messages : List ConversationMessage
  pub ttl : ℕ

-- timedelta(hours=24), in microseconds
abbrev pub default_ttl : ℕ
default_ttl = 24 * 3600 * 1000000

abbrev pub max_content : ℕ
max_content = 8000

abbrev pub no_content : ConversationMessage → DomainError
no_content m = record {
  kind = invalid_message;
  message = "Message must have content or rich_payload";
  details = field "role" (str (role_value m.role)) end;
}

abbrev pub too_long : ConversationMessage → DomainError
too_long m = record {
  kind = invalid_message;
  message = "Message content exceeds 8000 chars";
  details = field "length" (int (pos (count m.content))) end;
}

-- `ConversationMessage(…)`: `__post_init__` looks at the new object and may raise
unfoldable pub checked : ConversationMessage → Outcome Error ConversationMessage
checked m =
    if str_eq m.content "" && is_empty m.rich_payload
    then err (domain (no_content m))
    else if ltb max_content (count m.content)
    then err (domain (too_long m))
    else ok m

-- The session object, and the runtime that its methods call.
pub record Live : Type 0 where
  pub session : OnboardingSession
  pub world : World

abbrev pub Method : Type 0 → Type 0
Method A = Exec Error Live A

abbrev pub is_terminal : OnboardingSession → Bool
is_terminal s = in_terminal_states s.state

unfoldable pub is_interactive : OnboardingSession → Bool
is_interactive s = in_interactive_states s.state

abbrev pub next_message_sequence : OnboardingSession → ℕ
next_message_sequence s = length s.messages

pub state_values : List SessionState → Items
state_values [] = nil
state_values (s ∷ rest) = cons (str (state_value s)) (state_values rest)

invalid_state : String → Fields → Error
invalid_state text details =
    domain (record { kind = invalid_session_state; message = text; details = details })

-- the `if`/`elif` of `transition_to` that stamps the moment of some transitions
abbrev pub stamp : SessionState → ℕ → OnboardingSession → OnboardingSession
stamp awaiting_confirmation now s = record s { confirmed_at = some now }
stamp submitted now s = record s { submitted_at = some now }
stamp completed now s = record s { completed_at = some now }
stamp _ now s = s

module _ (env : Env) where
  unfoldable pub utcnow : Method ℕ
  unfolding Python.utcnow
  utcnow l = let (t, w) = Python.utcnow env l.world in (ok t, record l { world = w })

  unfoldable pub new_id : Method ℕ
  unfolding Python.new_id
  new_id l = let (i, w) = Python.new_id env l.world in (ok i, record l { world = w })

  abbrev pub self : Method OnboardingSession
  self l = (ok l.session, l)

  abbrev pub assign : (OnboardingSession → OnboardingSession) → Method (Unit {0})
  assign f l = (ok tt, record l { session = f l.session })

  -- `OnboardingSession.create`, where no object stands yet
  unfoldable pub create : ℕ → String → ClientPlatform → ℕ → World → Live
  unfolding Python.utcnow Python.new_id
  create user_id locale client_platform ttl w =
      let (now, w') = Python.utcnow env w in
      let (id, w'') = Python.new_id env w' in
      record {
        session = record {
          id = id;
          user_id = user_id;
          state = new;
          revision = 0;
          locale = locale;
          client_platform = client_platform;
          started_at = now;
          last_active_at = now;
          expires_at = now + ttl;
          current_step = none;
          confirmed_at = none;
          submitted_at = none;
          completed_at = none;
          messages = [];
          ttl = ttl;
        };
        world = w'';
      }

  unfoldable pub is_expired : Method Bool
  unfolding utcnow
  is_expired = do now ← utcnow; gets (λ l. leb l.session.expires_at now)

  unfoldable pub bump_activity : Method (Unit {0})
  unfolding utcnow
  bump_activity = do
    now ← utcnow
    assign (λ s. record s { last_active_at = now })
    assign (λ s. record s { revision = s.revision + 1 })
    s ← self
    when (not (is_terminal s)) (assign (λ s. record s { expires_at = s.last_active_at + s.ttl }))

  unfoldable pub transition_to : SessionState → Method (Unit {0})
  unfolding bump_activity invalid_state
  transition_to target = do
    s ← self
    when (is_terminal s) (
        raise (
          invalid_state (format ("Session is in terminal state " ∷ state_value s.state ∷ []))
            (field "current_state" (str (state_value s.state)) end)))
    let allowed = allowed_transitions s.state
    when (not (contains allowed target)) (
        raise (
          invalid_state
            (format
              ("Cannot transition from " ∷ state_value s.state ∷ " to " ∷ state_value target ∷ []))
            (field "current_state" (str (state_value s.state)) (
              field "target_state" (str (state_value target))
                (field "allowed" (arr (state_values allowed)) end)))))
    now ← utcnow
    assign (stamp target now)
    assign (λ s. record s { state = target })
    bump_activity

  unfoldable pub append_message :
      MessageRole → String → Option Fields → Option Fields → Method ConversationMessage
  unfolding is_expired invalid_state new_id
  append_message role content rich_payload metadata = do
    s ← self
    when (is_terminal s) (
        raise (
          invalid_state (format ("Cannot append message: session is " ∷ state_value s.state ∷ []))
            (field "current_state" (str (state_value s.state)) end)))
    expired ← is_expired
    when expired (
        raise (
          domain (record {
            kind = session_expired;
            message = "Session has expired";
            details = field "expires_at" (str (env.isoformat s.expires_at)) end;
          })))
    when (same_state s.state new && is_user role) (transition_to in_progress)
    id ← new_id
    s' ← self
    now ← utcnow
    message ← lift (
        checked (record {
          id = id;
          session_id = s'.id;
          role = role;
          content = content;
          sequence = next_message_sequence s';
          created_at = now;
          rich_payload = rich_payload;
          metadata = metadata;
        }))
    assign (λ s. record s { messages = s.messages ++ message ∷ [] })
    bump_activity
    pure message

  unfoldable pub update_current_step : Option String → Method (Unit {0})
  unfolding bump_activity invalid_state
  update_current_step step = do
    s ← self
    when (is_terminal s) (
        raise (
          invalid_state (format ("Cannot update step: session is " ∷ state_value s.state ∷ []))
            end))
    assign (λ s. record s { current_step = step })
    bump_activity

  unfoldable pub extend_ttl : Method (Unit {0})
  unfolding bump_activity
  extend_ttl = do
    s ← self
    if is_terminal s
        then pure tt
        else do now ← utcnow; assign (λ s. record s { expires_at = now + s.ttl }); bump_activity
