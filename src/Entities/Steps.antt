-- ===== src/Entities/Steps.antt =====
-- The commands of app/domain/onboarding/entities.py refine a step relation: what a session may do,
-- with no guards to evaluate and no exceptions. Steps are indexed by how many instants the clock has
-- been read.
use cognaris_chatbot.Prelude.{
  ℕ, suc, ◌+◌, ◌≤◌, String, ◌≡◌, refl, true, false, Option, [], ◌∷◌, ◌++◌, arith, leb, length,
  if◌then◌else◌, inl, inr, Bool-cases, ok, leb→le, and_left, not_leb→lt,
}
use cognaris_chatbot.Python
use cognaris_chatbot.Python.{Env, World, Fields}
use cognaris_chatbot.Enums.{
  SessionState, new, in_progress, MessageRole, in_terminal_states, same_state_eq,
}
use cognaris_chatbot.Entities.{
  ConversationMessage, OnboardingSession, Live, allowed_transitions, contains, stamp, utcnow,
  bump_activity, transition_to, append_message, update_current_step, extend_ttl,
}
use cognaris_chatbot.Entities.Graph.{◌⟶◌, begin, ⟶-of-contains, contains-of-⟶, no_exit}
use cognaris_chatbot.Entities.Message.{is_refused}
use cognaris_chatbot.Entities.Commands.{
  transition_to_rejects, append_message_terminal, append_message_expired, append_message_succeeds,
  append_message_refused, new_message, with_message, without_message, opened, is_first,
  update_current_step_lem, update_current_step_terminal, extend_ttl_lem, extend_ttl_terminal,
}

-- a mutation at the k-th reading of the clock
abbrev pub touch : Env → ℕ → OnboardingSession → OnboardingSession
touch env k s = record s {
  revision = s.revision + 1;
  last_active_at = env.now_at k;
  expires_at = if in_terminal_states s.state then s.expires_at else env.now_at k + s.ttl;
}

-- A message that continues the log of the session.
pub record Continues (s : OnboardingSession) (m : ConversationMessage) : Type 0 where
  pub own : m.session_id ≡ s.id
  pub next : m.sequence ≡ length s.messages
  pub accepted : is_refused m.content m.rich_payload ≡ false

abbrev pub IsOpen : OnboardingSession → Type 0
IsOpen s = in_terminal_states s.state ≡ false

pub data Step (env : Env) (w : ℕ) (s : OnboardingSession) : ℕ → OnboardingSession → Type 0 where
  move :
      (target : SessionState) (j k : ℕ)
      → w ≤ j
      → j ≤ k
      → s.state ⟶ target
      → Step env w s
          (suc k)
          (touch env k (record (stamp target (env.now_at j) s) { state = target }))
  say :
      (m : ConversationMessage) (k : ℕ)
      → w ≤ k
      → IsOpen s
      → Continues s m
      → Step env w s (suc k) (touch env k (record s { messages = s.messages ++ m ∷ [] }))
  walk :
      (step : Option String) (k : ℕ)
      → w ≤ k
      → IsOpen s
      → Step env w s (suc k) (touch env k (record s { current_step = step }))
  -- the clock was read, and nothing was assigned
  wait : (k : ℕ) → w ≤ k → Step env w s k s
  slide : (k : ℕ) → w ≤ k → IsOpen s → Step env w s (suc k) (touch env k s)

pub data Steps (env : Env) (w : ℕ) (s : OnboardingSession) : ℕ → OnboardingSession → Type 0 where
  stay : Steps env w s w s
  next :
      {w' k : ℕ} {s' t : OnboardingSession}
      → Steps env w s w' s'
      → Step env w' s' k t
      → Steps env w s k t

-- one step is a run
pub once :
    {env : Env} {w w' : ℕ} {s s' : OnboardingSession} → Step env w s w' s' → Steps env w s w' s'
once {w = w} st = next stay st

idle : {env : Env} {w k : ℕ} {s : OnboardingSession} → w ≤ k → Steps env w s k s
idle le = once (wait _ le)

abbrev pub Refines : Env → Live → Live → Type 0
Refines env l l' = Steps env l.world.readings l.session l'.world.readings l'.session

module _ (env : Env) (l : Live) where
  pub transition_to_moves :
      (target : SessionState)
      → l.session.state ⟶ target
      → transition_to env target l ≡ (
        ok tt,
        record {
          session =
              touch env
                (suc l.world.readings)
                (record (stamp target (env.now_at l.world.readings) l.session) { state = target });
          world = record l.world { readings = suc (suc l.world.readings) };
        },
      )
  unfolding transition_to bump_activity utcnow Python.utcnow
  transition_to_moves target e = ground (arith, contains-of-⟶ e, no_exit e)

  pub transition_to-Refines : (target : SessionState) → Refines env l (transition_to env target l).1
  transition_to-Refines target =
      elim (Bool-cases (contains (allowed_transitions l.session.state) target)) [
        | inl e ↦
            rw (transition_to_moves target (⟶-of-contains _ _ e))
              (once (move target _ _ (omega arith) (omega arith) (⟶-of-contains _ _ e)))
        | inr e ↦
            rw ((transition_to_rejects env target l (λ edge. cc (contains-of-⟶ edge, e))).1)
              (idle (omega arith))
      ]

  pub update_current_step-Refines :
      (step : Option String) → Refines env l (update_current_step env step l).1
  update_current_step-Refines step = elim (Bool-cases (in_terminal_states l.session.state)) [
    | inl e ↦ rw ((update_current_step_terminal env l step e).1) (idle (omega arith))
    | inr e ↦ rw (update_current_step_lem env l step e) (
        rw e at (
          once {env = env} {w = l.world.readings} {s = l.session}
            (walk step l.world.readings (omega arith) e)))
  ]

  pub extend_ttl-Refines : Refines env l (extend_ttl env l).1
  extend_ttl-Refines = elim (Bool-cases (in_terminal_states l.session.state)) [
    | inl e ↦ rw (extend_ttl_terminal env l e) (idle (omega arith))
    | inr e ↦ rw (extend_ttl_lem env l e) (
        rw e at (
          once {env = env} {w = l.world.readings} {s = l.session}
            (slide (suc l.world.readings) (omega arith) e)))
  ]

module _ (env : Env) (role : MessageRole) (content : String) (rich_payload metadata : Option Fields)
    (l : Live) where
  abbrev w : ℕ
  w = l.world.readings

  -- the auto-advance is a move along an edge of the diagram
  opens :
      is_first l.session role ≡ true
      → Steps env w l.session (suc (suc (suc w))) (opened env (suc (suc w)) l.session)
  unfolding in_terminal_states
  opens e =
      let fresh = same_state_eq l.session.state new (and_left _ _ e) in
      once (move in_progress (suc w) (suc (suc w)) (omega arith) (omega arith) (rw fresh begin))

  says_first :
      is_first l.session role ≡ true
      → is_refused content rich_payload ≡ false
      → let m = new_message env role content rich_payload metadata l in
        Refines env l (with_message env role m l)
  unfolding in_terminal_states
  says_first e fits = rw e (
      next (opens e)
        (say _ _ (omega arith) refl (record { own = refl; next = refl; accepted = fits })))

  says_later :
      is_first l.session role ≡ false
      → IsOpen l.session
      → is_refused content rich_payload ≡ false
      → let m = new_message env role content rich_payload metadata l in
        Refines env l (with_message env role m l)
  says_later e alive fits = rw e (
      rw alive at (
        once {env = env} {w = w} {s = l.session} (
          say
            (record (new_message env role content rich_payload metadata l) {
              created_at = env.now_at (suc w);
            })
            (suc (suc w)) (omega arith) alive
            (record { own = refl; next = refl; accepted = fits }))))

  keeps_open : Refines env l (without_message env role l)
  keeps_open = elim (Bool-cases (is_first l.session role)) [
    | inl e ↦ rw e (next (opens e) (wait _ (omega arith)))
    | inr e ↦ rw e (idle (omega arith))
  ]

  pub append_message-Refines :
      Refines env l (append_message env role content rich_payload metadata l).1
  append_message-Refines = elim (Bool-cases (in_terminal_states l.session.state)) [
    | inl e ↦
        rw ((append_message_terminal env role content rich_payload metadata l e).1)
          (idle (omega arith))
    | inr e ↦ elim (Bool-cases (leb l.session.expires_at (env.now_at w))) [
      | inl late ↦
          rw
            ((append_message_expired env role content rich_payload metadata l e
              (leb→le _ _ late)).1)
            (idle (omega arith))
      | inr early ↦ elim (Bool-cases (is_refused content rich_payload)) [
        | inl bad ↦
            rw
              ((append_message_refused env role content rich_payload metadata l e
                (not_leb→lt _ _ early) bad).1)
              keeps_open
        | inr good ↦
            rw
              (append_message_succeeds env role content rich_payload metadata l e
                (not_leb→lt _ _ early) good)
              (elim (Bool-cases (is_first l.session role)) [
                | inl e1 ↦ says_first e1 good
                | inr e1 ↦ says_later e1 e good
              ])
      ]
    ]
  ]
