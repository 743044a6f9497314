-- ===== src/Entities/Runs.antt =====
-- Any commands of app/domain/onboarding/entities.py, one after the other, on one session object
-- whose holder catches what they raise.
use cognaris_chatbot.Prelude.{refl, ◌≡◌, ℕ, String, Option, List, [], ◌∷◌}
use cognaris_chatbot.Python.{Env, Fields}
use cognaris_chatbot.Enums.{SessionState, MessageRole}
use cognaris_chatbot.Entities.{
  true, in_terminal_states, OnboardingSession, Live, transition_to, append_message,
  update_current_step, extend_ttl,
}
use cognaris_chatbot.Entities.Graph.{no_exit}
use cognaris_chatbot.Entities.Steps.{
  wait, slide, walk, say, move, Step, Steps, stay, next, Refines, transition_to-Refines,
  append_message-Refines, update_current_step-Refines, extend_ttl-Refines,
}

pub data Command : Type 0 where
  transition : SessionState → Command
  append : MessageRole → String → Option Fields → Option Fields → Command
  walk_to : Option String → Command
  extend : Command

module _ (env : Env) where
  unfoldable pub perform : Command → Live → Live
  perform (transition target) l = (transition_to env target l).1
  perform (append role content rich_payload metadata) l =
      (append_message env role content rich_payload metadata l).1
  perform (walk_to step) l = (update_current_step env step l).1
  perform extend l = (extend_ttl env l).1

  unfoldable pub run : List Command → Live → Live
  run [] l = l
  run (c ∷ cs) l = run cs (perform c l)

  -- A command, whether it returns or raises, takes the session along steps of the relation: moves along
  -- edges of the diagram, messages that continue the log, and touches of an open session, each at
  -- readings of the clock that follow those before.
  pub perform-Refines : (c : Command) (l : Live) → Refines env l (perform c l)
  unfolding perform
  perform-Refines (transition target) l = transition_to-Refines env l target
  perform-Refines (append role content rich_payload metadata) l =
      append_message-Refines env role content rich_payload metadata l
  perform-Refines (walk_to step) l = update_current_step-Refines env l step
  perform-Refines extend l = extend_ttl-Refines env l

-- A property of the session and the clock that every step keeps is kept by every run.
module _ (env : Env) (P : ℕ → OnboardingSession → Type 0)
    (keeps : (w k : ℕ) (s t : OnboardingSession) → Step env w s k t → P w s → P k t) where
  pub Steps_keep :
      {w : ℕ} {s : OnboardingSession} {k : ℕ} {t : OnboardingSession}
      → Steps env w s k t
      → P w s
      → P k t
  Steps_keep stay h = h
  Steps_keep (next r st) h = keeps _ _ _ _ st (Steps_keep r h)

  pub run_keeps :
      (cs : List Command) (l : Live)
      → P l.world.readings l.session
      → P (run env cs l).world.readings (run env cs l).session
  unfolding run
  run_keeps [] l h = h
  run_keeps (c ∷ cs) l h = run_keeps cs (perform env c l) (Steps_keep (perform-Refines env c l) h)

-- A step from a terminal state changes nothing of the session.
terminal_step :
    (env : Env) (s : OnboardingSession)
    → in_terminal_states s.state ≡ true
    → (w k : ℕ) (t u : OnboardingSession) → Step env w t k u
    → t ≡ s
    → u ≡ s
terminal_step env s h w _ t _ (move target j k _ _ edge) e = cc (no_exit edge, h, e)
terminal_step env s h w _ t _ (say m k _ alive _) e = cc (alive, h, e)
terminal_step env s h w _ t _ (walk step k _ alive) e = cc (alive, h, e)
terminal_step env s h w _ t _ (slide k _ alive) e = cc (alive, h, e)
terminal_step env s h w _ t _ (wait k _) e = e

-- In a terminal state no commands change anything of the session.
pub run_terminal :
    (env : Env) (cs : List Command) (l : Live)
    → in_terminal_states l.session.state ≡ true
    → (run env cs l).session ≡ l.session
run_terminal env cs l h =
    run_keeps env (λ _ t. t ≡ l.session) (terminal_step env l.session h) cs l refl
