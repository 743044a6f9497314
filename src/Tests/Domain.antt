-- ===== src/Tests/Domain.antt =====
-- Runs of app/domain/onboarding/entities.py, and its theorems at sessions that meet their conditions.
use cognaris_chatbot.Prelude.{◌+◌, ◌≡◌, refl, none, some, List, [], ◌∷◌, arith, length, ok}
use cognaris_chatbot.Python
use cognaris_chatbot.Python.{World}
use cognaris_chatbot.Enums.{
  new, in_progress, awaiting_confirmation, submitted, completed, user, assistant, web,
  in_terminal_states, same_state, is_user,
}
use cognaris_chatbot.Errors.{invalid_session_state, invalid_message}
use cognaris_chatbot.Entities.{
  Live, OnboardingSession, create, transition_to, append_message, default_ttl, utcnow, new_id,
  bump_activity, is_expired, checked, allowed_transitions, contains, update_current_step,
  extend_ttl,
}
use cognaris_chatbot.Entities.Graph.{◌⟶◌, begin}
use cognaris_chatbot.Entities.Commands.{
  Raises, transition_to_accepts, transition_to_rejects, append_message_succeeds,
  append_message_refused, new_message, with_message, without_message,
}
use cognaris_chatbot.Entities.Steps.{Refines}
use cognaris_chatbot.Entities.Runs.{
  Command, transition, append, walk_to, extend, perform, run, perform-Refines, run_terminal,
}
use cognaris_chatbot.Entities.Invariant.{IsValid, run-IsValid}
use cognaris_chatbot.Entities.Clock.{Since, run-Since}
use cognaris_chatbot.Tests.Fixtures.{env, monotone, world}

-- a session of user 7, new at the instant 0
abbrev pub fresh : OnboardingSession
fresh = record {
  id = 0;
  user_id = 7;
  state = new;
  revision = 0;
  locale = "pt-BR";
  client_platform = web;
  started_at = 0;
  last_active_at = 0;
  expires_at = default_ttl;
  current_step = none;
  confirmed_at = none;
  submitted_at = none;
  completed_at = none;
  messages = [];
  ttl = default_ttl;
}

abbrev pub at_start : Live
at_start = record { session = fresh; world = record { readings = 1; draws = 1 } }

-- the same session, at the end of its life, and late
abbrev finished : Live
finished = record { session = record fresh { state = completed }; world = world }

abbrev late : Live
late = record { session = record fresh { expires_at = 0 }; world = world }

abbrev conversation : List Command
conversation =
    append user "oi" none none
    ∷ append assistant "olá" none none
    ∷ walk_to (some "goals")
    ∷ append user "" none none
    ∷ transition awaiting_confirmation
    ∷ extend
    ∷ transition submitted
    ∷ transition in_progress
    ∷ transition completed
    ∷ []

create_test : create env 7 "pt-BR" web default_ttl world ≡ at_start
unfolding create Python.utcnow Python.new_id
create_test = refl

conversation_test :
    let s = (run env conversation at_start).session in
    (s.state ≡ completed) × (s.revision ≡ 8) × (length s.messages ≡ 2)
unfolding run perform transition_to append_message update_current_step extend_ttl is_expired utcnow
    new_id bump_activity checked in_terminal_states allowed_transitions contains same_state
    Python.utcnow Python.new_id is_user
conversation_test = (refl, refl, refl)

run-IsValid_example :
    IsValid (run env conversation (create env 7 "pt-BR" web default_ttl world)).session
run-IsValid_example = run-IsValid env 7 "pt-BR" web default_ttl world conversation

perform-Refines_example : Refines env at_start (perform env (append user "oi" none none) at_start)
perform-Refines_example = perform-Refines env (append user "oi" none none) at_start

run-Since_example :
    Since env fresh
      (run env conversation at_start).world.readings
      (run env conversation at_start).session
run-Since_example = run-Since env conversation at_start monotone (omega arith)

run_terminal_example : (run env conversation finished).session ≡ finished.session
unfolding in_terminal_states
run_terminal_example = run_terminal env conversation finished refl

transition_to_accepts_example :
    let (r, l') = transition_to env in_progress at_start in
    (r ≡ ok tt)
    × (l'.session.state ≡ in_progress)
    × (l'.session.revision ≡ 0 + 1)
    × (l'.session.messages ≡ [])
    × (l'.session.last_active_at ≡ 1 + 1)
transition_to_accepts_example = transition_to_accepts env in_progress at_start begin

new-submitted : ¬ (new ⟶ submitted)
new-submitted e = elim e [ ]

transition_to_rejects_example :
    let (r, l') = transition_to env submitted at_start in
    Raises invalid_session_state r × (l' ≡ at_start)
transition_to_rejects_example = transition_to_rejects env submitted at_start new-submitted

append_message_succeeds_example :
    let m = new_message env user "oi" none none at_start in
    append_message env user "oi" none none at_start ≡ (ok m, with_message env user m at_start)
unfolding in_terminal_states
append_message_succeeds_example =
    append_message_succeeds env user "oi" none none at_start refl (omega arith) refl

append_message_refused_example :
    let (r, l') = append_message env user "" none none at_start in
    Raises invalid_message r × (l' ≡ without_message env user at_start)
unfolding in_terminal_states
append_message_refused_example =
    append_message_refused env user "" none none at_start refl (omega arith) refl
