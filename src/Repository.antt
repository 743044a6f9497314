-- ===== src/Repository.antt =====
-- app/infrastructure/db/repositories/session_repository.py, the repository over Postgres and Redis,
-- and the interface of app/domain/onboarding/repository.py that it fills. The database session of
-- SQLAlchemy is not the repository's code: its queries and its flush are parameters. One request has
-- one database session; what another request commits meanwhile is the subject of Repository/Overlap
-- and Repository/Interleaving.
pub mod Rows
pub mod Tables
pub mod Writes
pub mod Load
pub mod Save
pub mod Add
pub mod Overlap
pub mod Coherence
pub mod Interleaving
use cognaris_chatbot.Prelude.{
  ℕ, String, Bool, true, false, not, Option, none, some, List, [], ◌∷◌, ◌++◌, map, ℤ, pos, negsuc,
  ltb, ◌==◌, if◌then◌else◌, Outcome, ok, err, Exec, pure, raise, lift, modify, when, continue,
  ◌>>=◌, ◌>>◌, gets,
}
use cognaris_chatbot.Python.{Env, Fields, str, int, end, field, format}
use cognaris_chatbot.Errors.{
  Error, domain, integrity_error, DomainError, session_already_exists, stale_revision,
}
use cognaris_chatbot.Entities.{ConversationMessage, OnboardingSession}
use cognaris_chatbot.Events.{DomainEvent}
use cognaris_chatbot.Cache
use cognaris_chatbot.Cache.{Client}
use cognaris_chatbot.Repository.Rows.{
  SessionRow, MessageRow, EventRow, entity_to_model, apply_entity_to_model, message_entity_to_model,
  event_to_model, model_to_entity,
}

-- SessionRepository, the protocol. `X` is the state behind it; `events=None` is the empty list.
pub record SessionRepository (X : Type 0) : Type 0 where
  pub add : OnboardingSession → List DomainEvent → Exec Error X (Unit {0})
  pub get : ℕ → Exec Error X (Option OnboardingSession)
  pub save : OnboardingSession → ℕ → List DomainEvent → Exec Error X (Unit {0})

-- What a flush sends: the objects added, and the loaded objects that were changed.
pub data Pending : Type 0 where
  insert_session : SessionRow → Pending
  insert_message : MessageRow → Pending
  insert_event : EventRow → Pending
  update_session : SessionRow → Pending

-- The database session's calls. `D` is the database as the transaction sees it.
pub record Database (D : Type 0) : Type 0 where
  pub select_session : ℕ → Exec Error D (Option SessionRow)
  pub select_messages : ℕ → Exec Error D (List MessageRow)  -- the relationship, by sequence
  pub select_max_sequence : ℕ → Exec Error D ℤ  -- `coalesce(max(sequence), -1)`
  pub flush : List Pending → Exec Error D (Unit {0})

pub record Backend (D R : Type 0) : Type 0 where
  pub db : D
  pub pending : List Pending
  pub cache : R

-- `msg.sequence > max_seq`
abbrev pub is_after : ConversationMessage → ℤ → Bool
is_after msg (pos n) = ltb n msg.sequence
is_after msg (negsuc n) = true

-- the messages that `save` adds
unfoldable pub unsaved : ℤ → List ConversationMessage → List Pending
unsaved max_seq [] = []
unsaved max_seq (msg ∷ rest) =
    let later = unsaved max_seq rest in
    if is_after msg max_seq then insert_message (message_entity_to_model msg) ∷ later else later

unfoldable pub message_inserts : List ConversationMessage → List Pending
message_inserts [] = []
message_inserts (msg ∷ rest) = insert_message (message_entity_to_model msg) ∷ message_inserts rest

unfoldable pub event_inserts : List DomainEvent → List Pending
event_inserts [] = []
event_inserts (evt ∷ rest) = insert_event (event_to_model evt) ∷ event_inserts rest

-- `StaleRevisionError(expected=…, actual=…)`
unfoldable pub stale : Env → ℕ → ℤ → Error
stale env expected actual = domain (record {
  kind = stale_revision;
  message = format (
      "Stale revision: expected "
      ∷ env.str_int (pos expected)
      ∷ ", got "
      ∷ env.str_int actual
      ∷ []);
  details = field "expected" (int (pos expected)) (field "actual" (int actual) end);
})

unfoldable pub already_exists : Env → ℕ → Error
already_exists env id = domain (record {
  kind = session_already_exists;
  message = format ("Session " ∷ env.str_uuid id ∷ " already exists" ∷ []);
  details = field "session_id" (str (env.str_uuid id)) end;
})

module _ {D R Raw : Type 0} (env : Env) (db : Database D) (c : Client R Raw) where
  abbrev pub Action : Type 0 → Type 0
  Action A = Exec Error (Backend D R) A

  abbrev pub on_db : {A : Type 0} → Exec Error D A → Action A
  on_db m b = let (r, d) = m b.db in (r, record b { db = d })

  abbrev pub on_cache : {A : Type 0} → Exec Error R A → Action A
  on_cache m b = let (r, k) = m b.cache in (r, record b { cache = k })

  -- `self._db.add(…)`, for several objects
  abbrev pub db_add : List Pending → Action (Unit {0})
  db_add ps = modify (λ b. record b { pending = b.pending ++ ps })

  abbrev pub db_flush : Action (Unit {0})
  db_flush b = let (r, d) = db.flush b.pending b.db in (r, record b { db = d; pending = [] })

  -- the `except` of `add`
  unfoldable pub map_integrity : ℕ → Outcome Error (Unit {0}) → Action (Unit {0})
  unfolding already_exists
  map_integrity id (ok done) = pure tt
  map_integrity id (err integrity_error) = raise (already_exists env id)
  map_integrity id (err e) = raise e

  unfoldable pub flush_new : ℕ → Action (Unit {0})
  unfolding map_integrity
  flush_new id b = let (r, b') = db_flush b in map_integrity id r b'

  unfoldable pub add : OnboardingSession → List DomainEvent → Action (Unit {0})
  unfolding flush_new
  add session events = do
    db_add (insert_session (entity_to_model session) ∷ [])
    db_add (message_inserts session.messages)
    db_add (event_inserts events)
    flush_new session.id
    on_cache (Cache.set env c session)

  -- the part of `get` after a cache miss
  unfoldable pub load : Option SessionRow → Action (Option OnboardingSession)
  load none = pure none
  load (some model) = do
    rows ← on_db (db.select_messages model.id)
    entity ← lift (model_to_entity model rows)
    on_cache (Cache.set env c entity)
    pure (some entity)

  unfoldable pub or_load : ℕ → Option OnboardingSession → Action (Option OnboardingSession)
  or_load session_id (some cached) = pure (some cached)
  or_load session_id none = do model ← on_db (db.select_session session_id); load model

  unfoldable pub get : ℕ → Action (Option OnboardingSession)
  get session_id = do cached ← on_cache (Cache.get env c session_id); or_load session_id cached

  -- the part of `save` with the row that it found
  unfoldable pub save_over :
      OnboardingSession → ℕ → List DomainEvent → Option SessionRow → Action (Unit {0})
  save_over session expected_revision events none = raise (stale env expected_revision (negsuc 0))
  save_over session expected_revision events (some existing) =
      if not (existing.revision == expected_revision)
      then (do
        on_cache (Cache.invalidate env c session.id)
        raise (stale env expected_revision (pos existing.revision)))
      else (do
        db_add (update_session (apply_entity_to_model session existing) ∷ [])
        max_seq ← on_db (db.select_max_sequence session.id)
        db_add (unsaved max_seq session.messages)
        db_add (event_inserts events)
        db_flush
        on_cache (Cache.set env c session))

  unfoldable pub save : OnboardingSession → ℕ → List DomainEvent → Action (Unit {0})
  unfolding save_over
  save session expected_revision events = do
    existing ← on_db (db.select_session session.id)
    save_over session expected_revision events existing

  -- PgSessionRepository
  abbrev pub pg_session_repository : SessionRepository (Backend D R)
  pg_session_repository = record { add = add; get = get; save = save }
