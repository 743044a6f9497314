-- ===== src/Entities/Invariant.antt =====
-- What holds of every session that app/domain/onboarding/entities.py lets come about.
use native.Mathlib.Nat.{add-zero}
use cognaris_chatbot.Prelude.{
  ℕ, suc, ◌+◌, ◌≤◌, String, ◌≡◌, Bool, true, false, Option, none, some, List, [], ◌∷◌, ◌++◌, arith,
  length, length-append, ◌⊎◌, inr, refl,
}
use cognaris_chatbot.Python.{Env, World}
use cognaris_chatbot.Enums.{
  SessionState, awaiting_confirmation, submitted, completed, ClientPlatform, in_terminal_states,
  same_state,
}
use cognaris_chatbot.Entities.{
  contains, allowed_transitions, ConversationMessage, OnboardingSession, stamp, create,
}
use cognaris_chatbot.Entities.Graph.{contains-of-⟶, ◌⟶◌}
use cognaris_chatbot.Entities.Message.{is_refused}
use cognaris_chatbot.Entities.Steps.{touch, Step, move, say, walk, slide, wait}
use cognaris_chatbot.Entities.Runs.{Command, run, run_keeps}

abbrev pub is_set : Option ℕ → Bool
is_set none = false
is_set (some t) = true

-- the states that lie behind the review, and behind the hand-in
abbrev pub was_reviewed : SessionState → Bool
was_reviewed awaiting_confirmation = true
was_reviewed submitted = true
was_reviewed completed = true
was_reviewed _ = false

abbrev pub was_submitted : SessionState → Bool
was_submitted submitted = true
was_submitted completed = true
was_submitted _ = false

abbrev pub is_completed : SessionState → Bool
is_completed completed = true
is_completed _ = false

-- The log: each message belongs to the session, is acceptable, and is numbered from n on.
abbrev pub IsLog : ℕ → ℕ → List ConversationMessage → Type 0
IsLog id n [] = Unit
IsLog id n (m ∷ ms) =
    (m.session_id ≡ id)
    × (m.sequence ≡ n)
    × (is_refused m.content m.rich_payload ≡ false)
    × IsLog id (suc n) ms

pub record IsValid (s : OnboardingSession) : Type 0 where
  pub log : IsLog s.id 0 s.messages
  pub counted : length s.messages ≤ s.revision
  pub reviewed : (was_reviewed s.state ≡ false) ⊎ (is_set s.confirmed_at ≡ true)
  pub handed_in : (was_submitted s.state ≡ false) ⊎ (is_set s.submitted_at ≡ true)
  pub done : is_completed s.state ≡ is_set s.completed_at
  pub deadline : (in_terminal_states s.state ≡ true) ⊎ (s.expires_at ≡ s.last_active_at + s.ttl)

pub IsLog-append :
    (id n : ℕ) (ms : List ConversationMessage) (m : ConversationMessage)
    → IsLog id n ms
    → m.session_id ≡ id
    → m.sequence ≡ n + length ms
    → is_refused m.content m.rich_payload ≡ false
    → IsLog id n (ms ++ m ∷ [])
IsLog-append id n [] m h own next fits = (own, omega arith, fits, tt)
IsLog-append id n (x ∷ ms) m h own next fits =
    (h.0, h.1, h.2, IsLog-append id (suc n) ms m h.3 own (omega arith) fits)

-- the review comes before the hand-in, and the hand-in before completion
edge_order :
    (a b : SessionState)
    → contains (allowed_transitions a) b ≡ true
    → (was_reviewed b ≡ true → (b ≡ awaiting_confirmation) ⊎ (was_reviewed a ≡ true))
      × (was_submitted b ≡ true → (b ≡ submitted) ⊎ (was_submitted a ≡ true))
      × (is_completed a ≡ false)
unfolding contains allowed_transitions same_state
edge_order a b h = ground arith

move-IsValid :
    (env : Env) (j k : ℕ) (s : OnboardingSession) (target : SessionState)
    → s.state ⟶ target
    → IsValid s
    → IsValid (touch env k (record (stamp target (env.now_at j) s) { state = target }))
unfolding in_terminal_states
move-IsValid env j k s target edge v =
    ground (arith, edge_order s.state target (contains-of-⟶ edge))

pub Step-IsValid :
    (env : Env) (w k : ℕ) (s t : OnboardingSession) → Step env w s k t → IsValid s → IsValid t
Step-IsValid env w _ s _ (move target j k _ _ edge) v = move-IsValid env j k s target edge v
Step-IsValid env w _ s _ (say m k _ alive c) v = record {
  log = IsLog-append s.id 0 s.messages m v.log c.own (omega (arith, c.next)) c.accepted;
  counted = omega (arith, v.counted, length-append s.messages (m ∷ []));
  reviewed = v.reviewed;
  handed_in = v.handed_in;
  done = v.done;
  deadline = inr (rw alive refl);
}
Step-IsValid env w _ s _ (walk step k _ alive) v = ground arith
Step-IsValid env w _ s _ (slide k _ alive) v = ground arith
Step-IsValid env w _ s _ (wait k _) v = v

pub create-IsValid :
    (env : Env) (user_id : ℕ) (locale : String) (client_platform : ClientPlatform) (ttl : ℕ)
    (w : World)
    → IsValid (create env user_id locale client_platform ttl w).session
unfolding create
create-IsValid env user_id locale client_platform ttl w = ground arith

-- Whatever commands are given to a new session, accepted or refused, its log is numbered 0, 1, 2, …
-- by its own acceptable messages; its revision is at least their number; a state behind the review
-- or the hand-in has the moment of it; completed_at is set in the state completed and in no other;
-- and outside the terminal states the deadline is `ttl` after the last activity.
pub run-IsValid :
    (env : Env) (user_id : ℕ) (locale : String) (client_platform : ClientPlatform) (ttl : ℕ)
    (w : World) (cs : List Command)
    → IsValid (run env cs (create env user_id locale client_platform ttl w)).session
run-IsValid env user_id locale client_platform ttl w cs =
    run_keeps env (λ _. IsValid) (Step-IsValid env) cs _
      (create-IsValid env user_id locale client_platform ttl w)

pub IsLog-front :
    (id n : ℕ) (old more : List ConversationMessage) → IsLog id n (old ++ more) → IsLog id n old
IsLog-front id n [] more h = tt
IsLog-front id n (m ∷ old) more h = (h.0, h.1, h.2, IsLog-front id (suc n) old more h.3)

pub IsLog-back :
    (id n : ℕ) (old more : List ConversationMessage)
    → IsLog id n (old ++ more)
    → IsLog id (n + length old) more
IsLog-back id n [] more h = rw add-zero h
IsLog-back id n (m ∷ old) more h = rw (← suc_move) (IsLog-back id (suc n) old more h.3)
  where
    suc_move : suc n + length old ≡ n + length (m ∷ old)
    suc_move = omega arith
