-- ===== src/Schema/Environment.antt =====
-- alembic/env.py, which Alembic runs for every command. Alembic's `context` and `config`, and the engine of
-- SQLAlchemy that it makes itself, are parameters; the settings come from `get_settings` of
-- app/core/config.py. A `with` block passes on the exception of its body; `run_sync` calls its function.
use cognaris_chatbot.Prelude.{
  String, Bool, true, false, Option, none, some, List, [], ◌∷◌, Outcome, Exec, pure, gets, ◌>>=◌,
  ◌>>◌, if◌then◌else◌,
}
use cognaris_chatbot.Errors.{Error}
use cognaris_chatbot.Pools.{Drivers, Call, outside, get_settings}
use cognaris_chatbot.Schema.Models.{
  Model, onboarding_session_model, conversation_message_model, domain_event_model,
}
use cognaris_chatbot.Transaction.{unless_raised}

-- what `context.configure` is told
pub record Configuration (N : Type 0) : Type 0 where
  pub url : Option String
  pub connection : Option N
  pub target_metadata : List Model
  pub literal_binds : Bool
  pub paramstyle : Option String
  pub compare_type : Bool

-- `G` is the outside world, `E` an engine and `N` a connection.
pub record Alembic (G E N : Type 0) : Type 0 where
  pub config_file_name : G → Option String
  pub is_offline_mode : G → Bool
  pub get_main_option : String → G → Option String
  pub file_config : String → Exec Error G (Unit {0})  -- `fileConfig`
  pub set_main_option : String → String → Exec Error G (Unit {0})
  pub configure : Configuration N → Exec Error G (Unit {0})
  pub begin_transaction : Exec Error G (Unit {0})  -- its `__enter__`
  pub end_transaction : Outcome Error (Unit {0}) → Exec Error G (Unit {0})  -- its `__exit__`
  pub run_migrations : Exec Error G (Unit {0})
  pub engine_from_config : Exec Error G E  -- from the section of the ini file
  pub connect : E → Exec Error G N
  pub close : N → Exec Error G (Unit {0})
  pub dispose : E → Exec Error G (Unit {0})

-- the end of a `with` block whose body has ended so
abbrev pub exit_with :
    {G A : Type 0} → (Outcome Error A → Exec Error G (Unit {0})) → Outcome Error A → Exec Error G A
exit_with exit r g = let (x, g') = exit r g in (unless_raised r x, g')

abbrev pub with_block :
    {G A : Type 0}
    → Exec Error G (Unit {0})
    → (Outcome Error A → Exec Error G (Unit {0}))
    → Exec Error G A
    → Exec Error G A
with_block enter exit body = do enter; λ g. let (r, g') = body g in exit_with exit r g'

-- `Base.metadata`, with all models imported
abbrev pub target_metadata : List Model
target_metadata = onboarding_session_model ∷ conversation_message_model ∷ domain_event_model ∷ []

module _ {G E N : Type 0} (alembic : Alembic G E N) where
  abbrev in_transaction : Exec Error G (Unit {0})
  in_transaction =
      with_block alembic.begin_transaction alembic.end_transaction alembic.run_migrations

  unfoldable pub run_migrations_offline : Exec Error G (Unit {0})
  run_migrations_offline = do
    url ← gets (alembic.get_main_option "sqlalchemy.url")
    alembic.configure (record {
      url = url;
      connection = none;
      target_metadata = target_metadata;
      literal_binds = true;
      paramstyle = some "named";
      compare_type = true;
    })
    in_transaction

  unfoldable pub do_run_migrations : N → Exec Error G (Unit {0})
  do_run_migrations connection = do
    alembic.configure (record {
      url = none;
      connection = some connection;
      target_metadata = target_metadata;
      literal_binds = false;
      paramstyle = none;
      compare_type = true;
    })
    in_transaction

  unfoldable pub run_migrations_online : Exec Error G (Unit {0})
  unfolding do_run_migrations
  run_migrations_online = do
    connectable ← alembic.engine_from_config
    connection ← alembic.connect connectable
    λ g.
        let (r, g') = do_run_migrations connection g in
        exit_with (λ _. alembic.close connection) r g'
    alembic.dispose connectable

module _ {G E F P C E' N : Type 0} (drivers : Drivers G E F P C) (alembic : Alembic G E' N) where
  -- `if config.config_file_name is not None`
  unfoldable pub set_up_logging : Option String → Call drivers (Unit {0})
  set_up_logging none = pure tt
  set_up_logging (some name) = outside drivers (alembic.file_config name)

  -- the part of the module before the functions
  unfoldable pub set_up : Call drivers (Unit {0})
  unfolding set_up_logging
  set_up = do
    config_file_name ← gets (λ p. alembic.config_file_name p.outside)
    set_up_logging config_file_name
    settings ← get_settings drivers
    outside drivers (alembic.set_main_option "sqlalchemy.url" settings.database_url)

  -- the module
  unfoldable pub env_module : Call drivers (Unit {0})
  unfolding set_up run_migrations_offline run_migrations_online
  env_module = do
    set_up
    offline ← gets (λ p. alembic.is_offline_mode p.outside)
    if offline
        then outside drivers (run_migrations_offline alembic)
        else outside drivers (run_migrations_online alembic)
