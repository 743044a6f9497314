-- ===== src/Settings/Log.antt =====
-- app/core/logging.py: what `configure_logging` sets up, as data. Its processors and handlers are those
-- of structlog and logging.
use cognaris_chatbot.Prelude.{
  String, ◌≡◌, none, List, [], ◌∷◌, ◌++◌, arith, str_eq, eq_iff, if◌then◌else◌,
}
use cognaris_chatbot.Python.{Fields, end, field, get, UniqueFields}
use cognaris_chatbot.Settings.{Settings, LogLevel, LogFormat, json, warning}

-- `d.pop(key, None)`
unfoldable pub pop : String → Fields → Fields
pop key end = end
pop key (field k v rest) = if str_eq k key then rest else field k v (pop key rest)

unfoldable pub drop_color_message_key : Fields → Fields
unfolding pop
drop_color_message_key event_dict = pop "color_message" event_dict

pub data Processor : Type 0 where
  merge_contextvars add_log_level add_logger_name time_stamper stack_info_renderer : Processor
  drop_color wrap_for_formatter remove_processors_meta : Processor
  json_renderer console_renderer : Processor

abbrev pub shared_processors : List Processor
shared_processors =
    merge_contextvars ∷ add_log_level ∷ add_logger_name ∷ time_stamper ∷ stack_info_renderer
    ∷ drop_color ∷ []

-- the logging of the process after `configure_logging`
pub record Logging : Type 0 where
  pub processors : List Processor
  pub foreign_pre_chain : List Processor
  pub formatter : List Processor
  pub root_level : LogLevel
  pub levels : List (String × LogLevel)

abbrev pub renderer : LogFormat → Processor
renderer json = json_renderer
renderer _ = console_renderer

unfoldable pub configure_logging : Settings → Logging
configure_logging settings = record {
  processors = shared_processors ++ wrap_for_formatter ∷ [];
  foreign_pre_chain = shared_processors;
  formatter = remove_processors_meta ∷ renderer settings.log_format ∷ [];
  root_level = settings.log_level;
  levels = ("uvicorn.access", warning) ∷ ("sqlalchemy.engine.Engine", warning) ∷ [];
}

-- The key is gone, and the others keep their values.
pub get-pop :
    (key k : String) (fs : Fields)
    → UniqueFields fs
    → get k (pop key fs) ≡ (if str_eq key k then none else get k fs)
unfolding pop get UniqueFields
get-pop key k end h = ground arith
get-pop key k (field j v rest) h =
    ground (arith, h.0, get-pop key k rest h.2, eq_iff j key, eq_iff j k, eq_iff key k)
