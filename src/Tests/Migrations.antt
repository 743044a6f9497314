-- ===== src/Tests/Migrations.antt =====
-- Alembic on a server with one table, and the theorem on its first migration.
use cognaris_chatbot.Prelude.{
  true, ℕ, String, ◌≡◌, refl, inr, ◌⊎◌, Outcome, ok, err, none, some, List, [], ◌∷◌, false, Exec,
  Fails,
}
use cognaris_chatbot.Errors.{Error}
use cognaris_chatbot.Settings.{defaults}
use cognaris_chatbot.Pools.{Drivers, Process}
use cognaris_chatbot.Schema.Migration.{upgrade}
use cognaris_chatbot.Schema.Reverse.{run as run_all}
use cognaris_chatbot.Schema.Environment.{Alembic, env_module}
use cognaris_chatbot.Schema.Applied.{
  AlembicLaws, Server, migrated, upgrade_head, env_module-IsMigrated,
}
use cognaris_chatbot.Tests.Tables.{execute}

-- the names that are in use, for everybody and for the transaction
record Site : Type 0 where
  committed : Server (List String)
  own : Server (List String)

-- a server with one table, at the base
abbrev base : Server (List String)
base = record { is_revised = false; schema = "users" ∷ [] }

abbrev nothing : Exec Error Site (Unit {0})
nothing g = (ok tt, g)

abbrev end_transaction : Outcome Error (Unit {0}) → Exec Error Site (Unit {0})
end_transaction (ok done) g = (ok tt, record g { committed = g.own })
end_transaction (err e) g = (ok tt, record g { own = g.committed })

abbrev alembic : Alembic Site ℕ ℕ
alembic = record {
  config_file_name = λ g. some "alembic.ini";
  is_offline_mode = λ g. false;
  get_main_option = λ name g. none;
  file_config = λ name. nothing;
  set_main_option = λ name value. nothing;
  configure = λ c. nothing;
  begin_transaction = λ g. (ok tt, record g { own = g.committed });
  end_transaction = end_transaction;
  run_migrations = λ g. (ok tt, record g { own = migrated execute upgrade_head g.own });
  engine_from_config = λ g. (ok 0, g);
  connect = λ e g. (ok 0, g);
  close = λ n. nothing;
  dispose = λ e. nothing;
}

alembic_laws : AlembicLaws alembic (λ g. g.committed) (λ g. g.own) execute upgrade_head
alembic_laws = record {
  quiet_file = λ name g. refl;
  quiet_option = λ name value g. refl;
  quiet_engine = λ g. refl;
  quiet_connect = λ e g. refl;
  quiet_configure = λ c g. refl;
  quiet_begin = λ g. refl;
  quiet_run = λ g. refl;
  quiet_close = λ n g. refl;
  quiet_dispose = λ e g. refl;
  begins = λ g h. refl;
  runs = λ g h. refl;
  commits = λ g h. refl;
  commits_whole = λ g. inr refl;
  rolls_back = λ e g. refl;
}

abbrev drivers : Drivers Site ℕ ℕ ℕ ℕ
drivers = record {
  load_settings = λ g. (ok defaults, g);
  create_async_engine = λ options g. (ok 0, g);
  async_sessionmaker = λ e. e;
  dispose = λ e. nothing;
  from_url = λ options g. (ok 0, g);
  aclose = λ p. nothing;
  redis = λ p. p;
  ping = λ c. nothing;
}

abbrev at_base : Process Site ℕ ℕ ℕ
at_base = record {
  outside = record { committed = base; own = base };
  settings = none;
  engine = none;
  session_factory = none;
  pool = none;
}

env_module-IsMigrated_example :
    let (r, p') = env_module drivers alembic at_base in
    ((p'.outside.committed ≡ base) × Fails r)
    ⊎ (p'.outside.committed
        ≡ record { is_revised = true; schema = run_all execute upgrade ("users" ∷ []) })
env_module-IsMigrated_example =
    env_module-IsMigrated drivers alembic (λ g. g.committed) (λ g. g.own) execute upgrade_head
      alembic_laws (λ g. refl) (λ g. refl) at_base
