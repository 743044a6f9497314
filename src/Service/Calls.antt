-- ===== src/Service/Calls.antt =====
-- What a call of app/domain/onboarding/service.py does with the session that it has loaded.
use Prim.Native.String.{◌++◌ as append_text}
use text.Mathlib.TextLemmas.{length-append as count-append}
use mathlib.Core.List.{append_assoc}
use cognaris_chatbot.Prelude.{
  ℕ, suc, ◌+◌, ◌<◌, ◌≤◌, ◌≡◌, refl, ap, true, false, String, count, Option, none, [], ◌∷◌, ◌++◌,
  arith, length, ok, err, Bool-cases, inl, inr, if◌then◌else◌, str_eq, eq_iff, length-append,
}
use cognaris_chatbot.Python
use cognaris_chatbot.Python.{Env, World, Fields, is_empty}
use cognaris_chatbot.Enums.{
  new, in_progress, user, assistant, in_terminal_states, same_state, is_user,
}
use cognaris_chatbot.Errors.{Error, domain, invalid_message}
use cognaris_chatbot.Entities.{
  ConversationMessage, OnboardingSession, Live, append_message, is_expired, utcnow, max_content,
}
use cognaris_chatbot.Entities.Message.{is_refused}
use cognaris_chatbot.Entities.Commands.{
  Raises, Raises-cases, append_message_succeeds, append_message_refused, new_message, with_message,
}
use cognaris_chatbot.Repository.{SessionRepository}
use cognaris_chatbot.Service.{System, echo_prefix, refuse_expired, converse, record_turn}

-- The clock never advances by a whole TTL between two readings.
abbrev pub IsBrisk : Env → ℕ → Type 0
IsBrisk env ttl = (k : ℕ) → env.now_at (suc k) < env.now_at k + ttl

module _ {X : Type 0} (env : Env) (repo : SessionRepository X) (sys : System X) where
  abbrev pub later : World
  later = record sys.world { readings = suc sys.world.readings }

  refuse_expired_lem :
      (s : OnboardingSession)
      → env.now_at sys.world.readings < s.expires_at
      → refuse_expired env repo s sys ≡ (ok tt, record sys { world = later })
  unfolding refuse_expired is_expired utcnow Python.utcnow
  refuse_expired_lem s live = ground arith

  pub converse_run :
      (s : OnboardingSession) (content : String) (rich_payload : Option Fields)
      (m1 m2 : ConversationMessage) (l1 l2 : Live)
      → env.now_at sys.world.readings < s.expires_at
      → append_message env user content rich_payload none (record { session = s; world = later })
        ≡ (ok m1, l1)
      → append_message env assistant (append_text echo_prefix content) none none l1 ≡ (ok m2, l2)
      → converse env repo s content rich_payload sys
        ≡ record_turn env repo l2.session s.revision m1 m2
            (record { store = sys.store; world = l2.world })
  unfolding converse
  converse_run s content rich_payload m1 m2 l1 l2 live e1 e2 =
      ground (arith, refuse_expired_lem s live, e1, e2)

  -- the message that the user sends, the answer, and the session after each
  abbrev pub user_turn : OnboardingSession → String → Option Fields → ConversationMessage
  user_turn s content rich_payload =
      new_message env user content rich_payload none (record { session = s; world = later })

  abbrev pub after_user : OnboardingSession → String → Option Fields → Live
  after_user s content rich_payload =
      with_message env user (user_turn s content rich_payload)
        (record { session = s; world = later })

  abbrev pub assistant_turn : OnboardingSession → String → Option Fields → ConversationMessage
  assistant_turn s content rich_payload =
      new_message env assistant (append_text echo_prefix content) none none
        (after_user s content rich_payload)

  abbrev pub after_assistant : OnboardingSession → String → Option Fields → Live
  after_assistant s content rich_payload =
      with_message env assistant (assistant_turn s content rich_payload)
        (after_user s content rich_payload)

  pub stays_open :
      (s : OnboardingSession) (content : String) (rich_payload : Option Fields)
      → in_terminal_states s.state ≡ false
      → in_terminal_states (after_user s content rich_payload).session.state ≡ false
  unfolding in_terminal_states is_user
  stays_open s content rich_payload alive = ground arith

count-echo : (content : String) → count (append_text echo_prefix content) ≡ 21 + count content
count-echo content = count-append echo_prefix content

pub echo_fits :
    (content : String)
    → 21 + count content ≤ max_content
    → is_refused (append_text echo_prefix content) none ≡ false
echo_fits content le = elim (Bool-cases (str_eq (append_text echo_prefix content) "")) [
  | inl e ↦ absurd (
      omega
        (arith, count-echo content, ap count ((eq_iff (append_text echo_prefix content) "").0 e)))
  | inr e ↦ ground (arith, count-echo content, e)
]

echo_too_long :
    (content : String)
    → max_content < 21 + count content
    → is_refused (append_text echo_prefix content) none ≡ true
echo_too_long content lt = ground (arith, count-echo content)

-- the result of a turn that is answered
pub record Turn (s : OnboardingSession) (content : String) (s' : OnboardingSession)
    (user_msg assistant_msg : ConversationMessage) : Type 0 where
  pub log : s'.messages ≡ s.messages ++ user_msg ∷ assistant_msg ∷ []
  pub asked : user_msg.content ≡ content
  pub answered : assistant_msg.content ≡ append_text echo_prefix content
  pub numbered : user_msg.sequence ≡ length s.messages
  pub numbered' : assistant_msg.sequence ≡ length s.messages + 1
  pub state : s'.state ≡ (if same_state s.state new then in_progress else s.state)
  pub revision : s'.revision ≡ (if same_state s.state new then s.revision + 3 else s.revision + 2)

module _ {X : Type 0} (env : Env) (repo : SessionRepository X) (sys : System X)
    (s : OnboardingSession) (content : String) (rich_payload : Option Fields) where
  abbrev l2 : Live
  l2 = after_assistant env repo sys s content rich_payload

  pub two_turns :
      Turn s content l2.session
        (user_turn env repo sys s content rich_payload)
        (assistant_turn env repo sys s content rich_payload)
  unfolding is_user same_state
  two_turns = record {
    log = append_assoc s.messages _ _;
    asked = refl;
    answered = refl;
    numbered = refl;
    numbered' = length-append s.messages _;
    state = ground arith;
    revision = ground arith;
  }

  -- In an open session whose deadline has not passed, with a message that is acceptable and at most
  -- 7979 characters long, and a clock that does not skip a whole TTL between two readings: the user's
  -- message and the echo are appended under the next two numbers, a new session goes on to
  -- in_progress, the revision grows by three in a new session and by two in another, and the session
  -- is handed to `save` with the revision that it was loaded with.
  converse_replies :
      in_terminal_states s.state ≡ false
      → env.now_at sys.world.readings < s.expires_at
      → env.now_at (suc sys.world.readings) < s.expires_at
      → IsBrisk env s.ttl
      → is_refused content rich_payload ≡ false
      → count content ≤ 7979
      → (s' : OnboardingSession) × (m : ConversationMessage) × (m' : ConversationMessage)
        × (w : World) × Turn s content s' m m'
        × (converse env repo s content rich_payload sys
            ≡ record_turn env repo s' s.revision m m' (record { store = sys.store; world = w }))
  converse_replies alive live live' brisk fits short = (
    l2.session,
    user_turn env repo sys s content rich_payload,
    assistant_turn env repo sys s content rich_payload,
    l2.world,
    two_turns,
    converse_run env repo sys s content rich_payload _ _ _ _ live
        (append_message_succeeds env user content rich_payload none
          (record { session = s; world = later env repo sys }) alive live' fits)
        (append_message_succeeds env assistant (append_text echo_prefix content) none none
          (after_user env repo sys s content rich_payload)
          (stays_open env repo sys s content rich_payload alive) (brisk _)
          (echo_fits content (omega arith))),
  )

  converse_fails :
      (m1 : ConversationMessage) (l1 : Live) (e : Error)
      → env.now_at sys.world.readings < s.expires_at
      → append_message env user content rich_payload none
          (record { session = s; world = later env repo sys })
        ≡ (ok m1, l1)
      → (append_message env assistant (append_text echo_prefix content) none none l1).0 ≡ err e
      → ((converse env repo s content rich_payload sys).0 ≡ err e)
        × ((converse env repo s content rich_payload sys).1.store ≡ sys.store)
  unfolding converse
  converse_fails m1 l1 e live e1 e2 = ground (arith, refuse_expired_lem env repo sys s live, e1, e2)

  -- In an open session whose deadline has not passed, with a clock that does not skip a whole TTL
  -- between two readings, and an acceptable message of more than 7979 characters: the echo is too
  -- long, so the call raises InvalidMessageError and nothing of the turn is saved.
  pub converse_overflows :
      in_terminal_states s.state ≡ false
      → env.now_at sys.world.readings < s.expires_at
      → env.now_at (suc sys.world.readings) < s.expires_at
      → IsBrisk env s.ttl
      → is_refused content rich_payload ≡ false
      → 7979 < count content
      → let (r, sys') = converse env repo s content rich_payload sys in
        Raises invalid_message r × (sys'.store ≡ sys.store)
  converse_overflows alive live live' brisk fits long =
      let l1 = after_user env repo sys s content rich_payload in
      let refused =
        append_message_refused env assistant (append_text echo_prefix content) none none l1
          (stays_open env repo sys s content rich_payload alive) (brisk _)
          (echo_too_long content (omega arith)) in
      let (e, raised, is_invalid) = Raises-cases invalid_message _ refused.0 in
      let (failed, kept) =
        converse_fails (user_turn env repo sys s content rich_payload) l1 (domain e) live
          (append_message_succeeds env user content rich_payload none
            (record { session = s; world = later env repo sys }) alive live' fits)
          raised in
      (rw failed is_invalid, kept)
