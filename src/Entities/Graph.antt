-- ===== src/Entities/Graph.antt =====
-- The transition diagram of app/domain/onboarding/entities.py as a relation, apart from the dict
-- that the code looks up.
use cognaris_chatbot.Prelude.{◌≡◌, refl, true, false, [], arith}
use cognaris_chatbot.Enums.{
  SessionState, new, in_progress, awaiting_confirmation, submitted, completed, paused, abandoned,
  archived, failed, in_terminal_states, same_state,
}
use cognaris_chatbot.Entities.{allowed_transitions, contains}

-- Where the conversation is open: it can be dropped, put aside or fail from there.
pub data IsActive : SessionState → Type 0 where
  talking : IsActive in_progress
  reviewing : IsActive awaiting_confirmation

infix 40 ◌⟶◌ ◌⟶*◌
pub data ◌⟶◌ : SessionState → SessionState → Type 0 where
  begin : new ⟶ in_progress
  decline : new ⟶ abandoned
  proceed : {s : SessionState} → IsActive s → s ⟶ in_progress
  review : in_progress ⟶ awaiting_confirmation
  submit : awaiting_confirmation ⟶ submitted
  finish : submitted ⟶ completed
  reject : submitted ⟶ failed
  pause : {s : SessionState} → IsActive s → s ⟶ paused
  resume : paused ⟶ in_progress
  leave : {s : SessionState} → IsActive s → s ⟶ abandoned
  forget : paused ⟶ abandoned
  break : {s : SessionState} → IsActive s → s ⟶ failed
  archive : abandoned ⟶ archived

pub data ◌⟶*◌ : SessionState → SessionState → Type 0 where
  here : {s : SessionState} → s ⟶* s
  then : {s t u : SessionState} → s ⟶ t → t ⟶* u → s ⟶* u

pub ruleset edges = (
  begin, decline, proceed, review, submit, finish, reject, pause, resume, leave, forget, break,
  archive, talking, reviewing,
)

-- The dict has an entry for each edge of the diagram.
pub contains-of-⟶ : {s t : SessionState} → s ⟶ t → contains (allowed_transitions s) t ≡ true
unfolding contains allowed_transitions same_state
contains-of-⟶ begin = refl
contains-of-⟶ decline = refl
contains-of-⟶ (proceed talking) = refl
contains-of-⟶ (proceed reviewing) = refl
contains-of-⟶ review = refl
contains-of-⟶ submit = refl
contains-of-⟶ finish = refl
contains-of-⟶ reject = refl
contains-of-⟶ (pause talking) = refl
contains-of-⟶ (pause reviewing) = refl
contains-of-⟶ resume = refl
contains-of-⟶ (leave talking) = refl
contains-of-⟶ (leave reviewing) = refl
contains-of-⟶ forget = refl
contains-of-⟶ (break talking) = refl
contains-of-⟶ (break reviewing) = refl
contains-of-⟶ archive = refl

-- It has no other entry.
pub ⟶-of-contains : (s t : SessionState) → contains (allowed_transitions s) t ≡ true → s ⟶ t
unfolding contains allowed_transitions same_state
⟶-of-contains s t h = grind (arith, edges)

-- TERMINAL_STATES are the states with no way out.
pub terminal-iff-no_exit :
    (s : SessionState)
    → ((in_terminal_states s ≡ true) → allowed_transitions s ≡ [])
      × ((allowed_transitions s ≡ []) → in_terminal_states s ≡ true)
unfolding in_terminal_states allowed_transitions
terminal-iff-no_exit s = ground arith

pub no_exit : {s t : SessionState} → s ⟶ t → in_terminal_states s ≡ false
unfolding in_terminal_states contains allowed_transitions
no_exit {s} {t} e = ground (arith, contains-of-⟶ e)

-- Every state can be reached from `new`.
pub new-⟶* : (s : SessionState) → new ⟶* s
new-⟶* new = here
new-⟶* _ = search (here, then, edges) depth 9
