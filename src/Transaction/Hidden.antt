-- ===== src/Transaction/Hidden.antt =====
-- No call of app/infrastructure/db/repositories/session_repository.py commits anything.
use cognaris_chatbot.Prelude.{
  ℕ, List, Option, none, some, Outcome, Exec, lift, pure, ◌==◌, arith, ◌>>=◌, ◌>>◌, inl, inr,
  Bool-cases,
}
use cognaris_chatbot.Python.{Env}
use cognaris_chatbot.Errors.{Error}
use cognaris_chatbot.Entities.{OnboardingSession}
use cognaris_chatbot.Events.{DomainEvent}
use cognaris_chatbot.Cache
use cognaris_chatbot.Cache.{Client}
use cognaris_chatbot.Repository
use cognaris_chatbot.Repository.{
  Database, Backend, on_db, on_cache, db_add, db_flush, flush_new, map_integrity, load, or_load,
  save_over, stale, unsaved, event_inserts,
}
use cognaris_chatbot.Repository.Rows.{SessionRow, model_to_entity}
use cognaris_chatbot.Repository.Tables.{Tables, SameTables-refl, SameTables-trans}
use cognaris_chatbot.Repository.{SessionRepository, pg_session_repository}
use cognaris_chatbot.Transaction.{Connection}
use cognaris_chatbot.Transaction.Laws.{TransactionLaws}
use cognaris_chatbot.Transaction.Atomic.{Keeps, bind-Keeps}

module _ {D R Raw : Type 0} (env : Env) {db : Database D} (c : Client R Raw) {conn : Connection D}
    {t : Tables D} (kept : Tables D) (laws : TransactionLaws db conn t kept) where
  abbrev backend_db : Backend D R → D
  backend_db b = b.db

  abbrev Hides : {A : Type 0} → Exec Error (Backend D R) A → Type 0
  Hides m = Keeps kept backend_db m

  map_integrity-Hides :
      (id : ℕ) (r : Outcome Error (Unit {0})) → Hides (map_integrity env db c id r)
  unfolding map_integrity
  map_integrity-Hides id r b = ground arith

  flush_new-Hides : (id : ℕ) → Hides (flush_new env db c id)
  unfolding flush_new
  flush_new-Hides id b =
      SameTables-trans kept (laws.hidden_flush b.pending b.db)
        (map_integrity-Hides id (db.flush b.pending b.db).0 _)

  pub add-Hides :
      (s : OnboardingSession) (events : List DomainEvent) → Hides (Repository.add env db c s events)
  unfolding Repository.add Cache.set
  add-Hides s events b =
      bind-Keeps kept backend_db (flush_new env db c s.id)
        (λ _. on_cache env db c (Cache.set env c s)) (flush_new-Hides s.id)
        (λ _ b'. SameTables-refl kept b'.db) _

  load-Hides : (o : Option SessionRow) → Hides (load env db c o)
  unfolding load Cache.set
  load-Hides none b = SameTables-refl kept b.db
  load-Hides (some row) b =
      bind-Keeps kept backend_db (on_db env db c (db.select_messages row.id))
        (λ rows. lift (model_to_entity row rows) >>= λ entity.
          on_cache env db c (Cache.set env c entity) >> pure (some entity))
        (λ b'. laws.hidden_messages row.id b'.db)
        (λ rows.
          bind-Keeps kept backend_db (lift (model_to_entity row rows))
            (λ entity. on_cache env db c (Cache.set env c entity) >> pure (some entity))
            (λ b'. SameTables-refl kept b'.db) (λ entity b'. SameTables-refl kept b'.db))
        b

  or_load-Hides : (id : ℕ) (o : Option OnboardingSession) → Hides (or_load env db c id o)
  unfolding or_load
  or_load-Hides id (some s) b = SameTables-refl kept b.db
  or_load-Hides id none b =
      bind-Keeps kept backend_db (on_db env db c (db.select_session id)) (load env db c)
        (λ b'. laws.hidden_session id b'.db) load-Hides b

  pub get-Hides : (id : ℕ) → Hides (Repository.get env db c id)
  unfolding Repository.get
  get-Hides id =
      bind-Keeps kept backend_db (on_cache env db c (Cache.get env c id)) (or_load env db c id)
        (λ b. SameTables-refl kept b.db) (or_load-Hides id)

  -- the end of `save`
  flush-Hides :
      (s : OnboardingSession) → Hides (db_flush env db c >> on_cache env db c (Cache.set env c s))
  flush-Hides s =
      bind-Keeps kept backend_db (db_flush env db c) (λ _. on_cache env db c (Cache.set env c s))
        (λ b. laws.hidden_flush b.pending b.db) (λ _ b. SameTables-refl kept b.db)

  save_over-Hides :
      (s : OnboardingSession) (expected : ℕ) (events : List DomainEvent) (o : Option SessionRow)
      → Hides (save_over env db c s expected events o)
  unfolding save_over Cache.invalidate Cache.set
  save_over-Hides s expected events none b = SameTables-refl kept b.db
  save_over-Hides s expected events (some row) b = elim (Bool-cases (row.revision == expected)) [
    | inl e ↦ rw e (
        bind-Keeps kept backend_db (on_db env db c (db.select_max_sequence s.id))
          (λ max_seq.
            db_add env db c (unsaved max_seq s.messages)
            >> (db_add env db c (event_inserts events)
                >> (db_flush env db c >> on_cache env db c (Cache.set env c s))))
          (λ b'. laws.hidden_max s.id b'.db) (λ max_seq b'. flush-Hides s _) _)
    | inr e ↦ rw e (SameTables-refl kept b.db)
  ]

  pub save-Hides :
      (s : OnboardingSession) (expected : ℕ) (events : List DomainEvent)
      → Hides (Repository.save env db c s expected events)
  unfolding Repository.save
  save-Hides s expected events =
      bind-Keeps kept backend_db (on_db env db c (db.select_session s.id))
        (save_over env db c s expected events) (λ b. laws.hidden_session s.id b.db)
        (save_over-Hides s expected events)
