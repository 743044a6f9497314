-- ===== src/Enums.antt =====
-- app/domain/onboarding/enums.py: the three StrEnums, their values, and the two sets of states.
use cognaris_chatbot.Prelude.{
  String, ◌≡◌, refl, Bool, true, false, Option, none, some, arith, str_eq, if◌then◌else◌,
}

pub data SessionState : Type 0 where
  new in_progress awaiting_confirmation submitted completed paused abandoned archived failed :
      SessionState

pub data MessageRole : Type 0 where
  user assistant system : MessageRole

pub data ClientPlatform : Type 0 where
  web mobile_ios mobile_android whatsapp unknown : ClientPlatform

-- `state.value`
unfoldable pub state_value : SessionState → String
state_value new = "new"
state_value in_progress = "in_progress"
state_value awaiting_confirmation = "awaiting_confirmation"
state_value submitted = "submitted"
state_value completed = "completed"
state_value paused = "paused"
state_value abandoned = "abandoned"
state_value archived = "archived"
state_value failed = "failed"

unfoldable pub role_value : MessageRole → String
role_value user = "user"
role_value assistant = "assistant"
role_value system = "system"

unfoldable pub platform_value : ClientPlatform → String
platform_value web = "web"
platform_value mobile_ios = "mobile_ios"
platform_value mobile_android = "mobile_android"
platform_value whatsapp = "whatsapp"
platform_value unknown = "unknown"

-- `SessionState(text)`: the member with that value, `none` for a ValueError
unfoldable pub state_of : String → Option SessionState
state_of t =
    if str_eq t "new"
    then some new
    else if str_eq t "in_progress"
    then some in_progress
    else if str_eq t "awaiting_confirmation"
    then some awaiting_confirmation
    else if str_eq t "submitted"
    then some submitted
    else if str_eq t "completed"
    then some completed
    else if str_eq t "paused"
    then some paused
    else if str_eq t "abandoned"
    then some abandoned
    else if str_eq t "archived"
    then some archived
    else if str_eq t "failed"
    then some failed
    else none

unfoldable pub role_of : String → Option MessageRole
role_of t =
    if str_eq t "user"
    then some user
    else if str_eq t "assistant"
    then some assistant
    else if str_eq t "system"
    then some system
    else none

unfoldable pub platform_of : String → Option ClientPlatform
platform_of t =
    if str_eq t "web"
    then some web
    else if str_eq t "mobile_ios"
    then some mobile_ios
    else if str_eq t "mobile_android"
    then some mobile_android
    else if str_eq t "whatsapp"
    then some whatsapp
    else if str_eq t "unknown"
    then some unknown
    else none

-- membership in TERMINAL_STATES
unfoldable pub in_terminal_states : SessionState → Bool
in_terminal_states completed = true
in_terminal_states archived = true
in_terminal_states failed = true
in_terminal_states _ = false

-- membership in INTERACTIVE_STATES
unfoldable pub in_interactive_states : SessionState → Bool
in_interactive_states new = true
in_interactive_states in_progress = true
in_interactive_states awaiting_confirmation = true
in_interactive_states _ = false

-- `==` on members
unfoldable pub same_state : SessionState → SessionState → Bool
same_state new new = true
same_state in_progress in_progress = true
same_state awaiting_confirmation awaiting_confirmation = true
same_state submitted submitted = true
same_state completed completed = true
same_state paused paused = true
same_state abandoned abandoned = true
same_state archived archived = true
same_state failed failed = true
same_state _ _ = false

unfoldable pub is_user : MessageRole → Bool
is_user user = true
is_user _ = false

pub state_of-state_value : (s : SessionState) → state_of (state_value s) ≡ some s
unfolding state_of state_value
state_of-state_value new = refl
state_of-state_value _ = refl

pub role_of-role_value : (r : MessageRole) → role_of (role_value r) ≡ some r
unfolding role_of role_value
role_of-role_value user = refl
role_of-role_value _ = refl

pub platform_of-platform_value : (p : ClientPlatform) → platform_of (platform_value p) ≡ some p
unfolding platform_of platform_value
platform_of-platform_value web = refl
platform_of-platform_value _ = refl

pub same_state_eq : (a b : SessionState) → same_state a b ≡ true → a ≡ b
unfolding same_state
same_state_eq a b h = ground arith

pub same_state_refl : (a : SessionState) → same_state a a ≡ true
unfolding same_state
same_state_refl new = refl
same_state_refl _ = refl
