-- ===== src/Entities/Commands.antt =====
-- What each command of app/domain/onboarding/entities.py does on each of its branches.
use cognaris_chatbot.Prelude.{
  refl, ℕ, suc, ◌+◌, ◌<◌, ◌≤◌, String, ◌≡◌, Bool, true, false, Option, [], ◌∷◌, ◌++◌, arith, length,
  ◌&&◌, if◌then◌else◌, inl, inr, Bool-cases, Outcome, ok, err,
}
use cognaris_chatbot.Python
use cognaris_chatbot.Python.{Env, World, Fields, is_empty}
use cognaris_chatbot.Enums.{
  SessionState, new, in_progress, MessageRole, in_terminal_states, same_state, is_user,
}
use cognaris_chatbot.Errors.{
  DomainError, key_error, value_error, type_error, json_decode_error, redis_error, integrity_error,
  database_error, untyped, Error, domain, ErrorClass, invalid_session_state, session_expired,
  invalid_message,
}
use cognaris_chatbot.Entities.{
  ConversationMessage, OnboardingSession, Live, allowed_transitions, contains, checked, utcnow,
  new_id, is_expired, bump_activity, transition_to, append_message, update_current_step, extend_ttl,
}
use cognaris_chatbot.Entities.Message.{is_refused, checked_refuses}
use cognaris_chatbot.Entities.Graph.{◌⟶◌, contains-of-⟶, ⟶-of-contains, no_exit}

-- The domain error of the given class was raised.
abbrev pub Raises : {A : Type 0} → ErrorClass → Outcome Error A → Type 0
Raises c (ok a) = ⊥
Raises c (err (domain e)) = e.kind ≡ c
Raises c (err _) = ⊥

module _ (env : Env) (target : SessionState) (l : Live) where
  -- Along an edge of the diagram, `transition_to` returns; the session is then in the target state,
  -- its revision one higher, its log as before, and its last activity at the second reading of the
  -- clock.
  pub transition_to_accepts :
      l.session.state ⟶ target
      → let (r, l') = transition_to env target l in
        (r ≡ ok tt)
        × (l'.session.state ≡ target)
        × (l'.session.revision ≡ l.session.revision + 1)
        × (l'.session.messages ≡ l.session.messages)
        × (l'.session.last_active_at ≡ env.now_at (l.world.readings + 1))
  unfolding transition_to bump_activity utcnow Python.utcnow
  transition_to_accepts e = ground (arith, contains-of-⟶ e, no_exit e)

  -- To a state to which the diagram has no edge, `transition_to` raises InvalidSessionStateError and
  -- changes nothing.
  pub transition_to_rejects :
      ¬ (l.session.state ⟶ target)
      → let (r, l') = transition_to env target l in Raises invalid_session_state r × (l' ≡ l)
  unfolding transition_to
  transition_to_rejects h =
      elim (Bool-cases (contains (allowed_transitions l.session.state) target)) [
        | inl e ↦ absurd (h (⟶-of-contains _ _ e))
        | inr e ↦ ground arith
      ]

-- Does this message open the conversation?
abbrev pub is_first : OnboardingSession → MessageRole → Bool
is_first s role = same_state s.state new && is_user role

-- how many instants are read before the message is made
abbrev pub readings_before : Bool → ℕ → ℕ
readings_before true k = suc (suc (suc k))
readings_before false k = suc k

-- The message that a successful call returns.
abbrev pub new_message :
    Env → MessageRole → String → Option Fields → Option Fields → Live → ConversationMessage
new_message env role content rich_payload metadata l = record {
  id = env.id_at l.world.draws;
  session_id = l.session.id;
  role = role;
  content = content;
  sequence = length l.session.messages;
  created_at = env.now_at (readings_before (is_first l.session role) l.world.readings);
  rich_payload = rich_payload;
  metadata = metadata;
}

-- The session and the runtime after a successful call.
abbrev pub with_message : Env → MessageRole → ConversationMessage → Live → Live
with_message env role m l =
    let first = is_first l.session role in
    let k = suc (readings_before first l.world.readings) in
    record {
      session = record l.session {
        state = if first then in_progress else l.session.state;
        revision = if first then l.session.revision + 1 + 1 else l.session.revision + 1;
        last_active_at = env.now_at k;
        expires_at = env.now_at k + l.session.ttl;
        messages = l.session.messages ++ m ∷ [];
      };
      world = record { readings = suc k; draws = suc l.world.draws };
    }

-- What the auto-advance leaves behind: the state of a new session in which the user has spoken.
abbrev pub opened : Env → ℕ → OnboardingSession → OnboardingSession
opened env k s = record s {
  state = in_progress;
  revision = s.revision + 1;
  last_active_at = env.now_at k;
  expires_at = env.now_at k + s.ttl;
}

-- The session and the runtime after a call whose message is refused: an auto-advance stays.
abbrev pub without_message : Env → MessageRole → Live → Live
without_message env role l =
    let first = is_first l.session role in
    record {
      session = if first then opened env (suc (suc l.world.readings)) l.session else l.session;
      world = record {
        readings = suc (readings_before first l.world.readings);
        draws = suc l.world.draws;
      };
    }

-- the auto-advance, in a session that is new
pub first_transition :
    (env : Env) (l : Live)
    → same_state l.session.state new ≡ true
    → transition_to env in_progress l ≡ (
      ok tt,
      record {
        session = opened env (suc l.world.readings) l.session;
        world = record l.world { readings = suc (suc l.world.readings) };
      },
    )
unfolding transition_to bump_activity utcnow Python.utcnow same_state allowed_transitions contains
    in_terminal_states
first_transition env l e = ground arith

module _ (env : Env) (role : MessageRole) (content : String) (rich_payload metadata : Option Fields)
    (l : Live) where
  pub append_message_terminal :
      in_terminal_states l.session.state ≡ true
      → let (r, l') = append_message env role content rich_payload metadata l in
        Raises invalid_session_state r × (l' ≡ l)
  unfolding append_message
  append_message_terminal h = ground arith

  -- In an open session whose deadline has come, `append_message` raises SessionExpiredError, and has
  -- only read the clock.
  pub append_message_expired :
      in_terminal_states l.session.state ≡ false
      → l.session.expires_at ≤ env.now_at l.world.readings
      → let (r, l') = append_message env role content rich_payload metadata l in
        Raises session_expired r
        × (l' ≡ record l { world = record l.world { readings = suc l.world.readings } })
  unfolding append_message is_expired utcnow Python.utcnow
  append_message_expired h late = ground arith

  -- In an open session before its deadline, an acceptable message is appended and returned: its number
  -- is the length of the log; the first message of the user in a new session first takes the session
  -- to in_progress; the revision grows by two then, by one else; and the deadline moves on.
  pub append_message_succeeds :
      in_terminal_states l.session.state ≡ false
      → env.now_at l.world.readings < l.session.expires_at
      → is_refused content rich_payload ≡ false
      → let m = new_message env role content rich_payload metadata l in
        append_message env role content rich_payload metadata l ≡ (ok m, with_message env role m l)
  unfolding append_message is_expired utcnow new_id Python.utcnow Python.new_id checked
      bump_activity in_terminal_states
  append_message_succeeds h live w = elim (Bool-cases (is_first l.session role)) [
    | inl e ↦ ground (
      arith,
      first_transition env
          (record l { world = record l.world { readings = suc l.world.readings } }),
    )
    | inr e ↦ ground arith
  ]

  -- In an open session before its deadline, a message without content and payload, or of more than
  -- 8000 characters, makes `append_message` raise InvalidMessageError; nothing is appended, but a
  -- session that was new stays in in_progress, with a higher revision, if the author is the user.
  pub append_message_refused :
      in_terminal_states l.session.state ≡ false
      → env.now_at l.world.readings < l.session.expires_at
      → is_refused content rich_payload ≡ true
      → let (r, l') = append_message env role content rich_payload metadata l in
        Raises invalid_message r × (l' ≡ without_message env role l)
  unfolding append_message is_expired utcnow new_id Python.utcnow Python.new_id in_terminal_states
  append_message_refused h live w =
      let m = new_message env role content rich_payload metadata l in
      let (e, refuses, is_invalid) = checked_refuses m w in
      elim (Bool-cases (is_first l.session role)) [
        | inl first ↦ ground (
          arith,
          refuses,
          first_transition env
              (record l { world = record l.world { readings = suc l.world.readings } }),
        )
        | inr later ↦ ground (arith, refuses)
      ]

module _ (env : Env) (l : Live) where
  pub update_current_step_lem :
      (step : Option String)
      → in_terminal_states l.session.state ≡ false
      → update_current_step env step l ≡ (
        ok tt,
        record {
          session = record l.session {
            current_step = step;
            revision = l.session.revision + 1;
            last_active_at = env.now_at l.world.readings;
            expires_at = env.now_at l.world.readings + l.session.ttl;
          };
          world = record l.world { readings = suc l.world.readings };
        },
      )
  unfolding update_current_step bump_activity utcnow Python.utcnow
  update_current_step_lem step h = ground arith

  pub update_current_step_terminal :
      (step : Option String)
      → in_terminal_states l.session.state ≡ true
      → Raises invalid_session_state (update_current_step env step l).0
        × ((update_current_step env step l).1 ≡ l)
  unfolding update_current_step
  update_current_step_terminal step h = ground arith

  -- the deadline set first is overwritten by the later reading of `_bump_activity`
  pub extend_ttl_lem :
      in_terminal_states l.session.state ≡ false
      → extend_ttl env l ≡ (
        ok tt,
        record {
          session = record l.session {
            revision = l.session.revision + 1;
            last_active_at = env.now_at (suc l.world.readings);
            expires_at = env.now_at (suc l.world.readings) + l.session.ttl;
          };
          world = record l.world { readings = suc (suc l.world.readings) };
        },
      )
  unfolding extend_ttl bump_activity utcnow Python.utcnow
  extend_ttl_lem h = ground arith

  pub extend_ttl_terminal :
      in_terminal_states l.session.state ≡ true → extend_ttl env l ≡ (ok tt, l)
  unfolding extend_ttl
  extend_ttl_terminal h = ground arith

-- the exception itself
pub Raises-cases :
    {A : Type 0} (c : ErrorClass) (r : Outcome Error A)
    → Raises c r
    → (e : DomainError) × (r ≡ err (domain e)) × (e.kind ≡ c)
Raises-cases c (ok a) h = absurd h
Raises-cases c (err (domain e)) h = (e, refl, h)
Raises-cases c (err key_error) h = absurd h
Raises-cases c (err value_error) h = absurd h
Raises-cases c (err type_error) h = absurd h
Raises-cases c (err json_decode_error) h = absurd h
Raises-cases c (err redis_error) h = absurd h
Raises-cases c (err integrity_error) h = absurd h
Raises-cases c (err database_error) h = absurd h
Raises-cases c (err untyped) h = absurd h
