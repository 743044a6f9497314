-- ===== src/Repository/Load.antt =====
-- Reading back what app/infrastructure/db/repositories/session_repository.py has stored.
use cognaris_chatbot.Prelude.{
  ap, ◌∙◌, ℕ, suc, ◌≡◌, refl, false, none, some, List, [], ◌∷◌, map, ok, Fails, arith,
}
use cognaris_chatbot.Python.{Env}
use cognaris_chatbot.Entities.{ConversationMessage, OnboardingSession}
use cognaris_chatbot.Entities.Message.{checked_accepts, is_refused}
use cognaris_chatbot.Entities.Invariant.{IsLog}
use cognaris_chatbot.Cache
use cognaris_chatbot.Cache.{Client}
use cognaris_chatbot.Cache.Laws.{reset_ttl}
use cognaris_chatbot.Repository
use cognaris_chatbot.Repository.{Database, Backend, load, or_load}
use cognaris_chatbot.Repository.Rows.{
  SessionRow, MessageRow, entity_to_model, message_entity_to_model, message_model_to_entity,
  message_models_to_entities, model_to_entity,
}
use cognaris_chatbot.Repository.Tables.{
  Tables, SameTables, DatabaseLaws, answered, SameTables-trans,
}

message_model-entity :
    (m : ConversationMessage)
    → is_refused m.content m.rich_payload ≡ false
    → message_model_to_entity (message_entity_to_model m) ≡ ok m
unfolding message_model_to_entity message_entity_to_model
message_model-entity m fits = checked_accepts m fits

message_models-map :
    (id n : ℕ) (ms : List ConversationMessage)
    → IsLog id n ms
    → message_models_to_entities (map message_entity_to_model ms) ≡ ok ms
unfolding message_models_to_entities
message_models-map id n [] h = refl
message_models-map id n (m ∷ ms) h =
    simp (message_model-entity m h.2, message_models-map id (suc n) ms h.3)

-- A session with a log survives the mapping to rows in every field but the TTL, which has no column
-- and comes back as its default.
pub model_to_entity-entity_to_model :
    (s : OnboardingSession)
    → IsLog s.id 0 s.messages
    → model_to_entity (entity_to_model s) (map message_entity_to_model s.messages)
      ≡ ok (reset_ttl s)
unfolding model_to_entity entity_to_model
model_to_entity-entity_to_model s h = rw (message_models-map s.id 0 s.messages h)

-- The tables hold the session: its row, and the rows of its messages by sequence.
pub record IsStored {D : Type 0} (t : Tables D) (d : D) (s : OnboardingSession) : Type 0 where
  pub row : t.row d s.id ≡ some (entity_to_model s)
  pub log : t.log d s.id ≡ map message_entity_to_model s.messages

module _ {D R Raw : Type 0} (env : Env) (db : Database D) (c : Client R Raw) (t : Tables D)
    (laws : DatabaseLaws db t) where
  -- `get` on a cache miss, when no query raises
  run :
      (b : Backend D R) (id : ℕ) (row : SessionRow) (rows : List MessageRow) (s : OnboardingSession)
      → (Cache.get env c id b.cache).0 ≡ ok none
      → (db.select_session id b.db).0 ≡ ok (some row)
      → (db.select_messages row.id (db.select_session id b.db).1).0 ≡ ok rows
      → model_to_entity row rows ≡ ok s
      → Repository.get env db c id b ≡ (
        ok (some s),
        record {
          db = (db.select_messages row.id (db.select_session id b.db).1).1;
          pending = b.pending;
          cache = (Cache.set env c s (Cache.get env c id b.cache).1).1;
        },
      )
  unfolding Repository.get or_load load Cache.set
  run b id row rows s miss found read made = ground (arith, miss, found, read, made)

  -- A stored session with a valid log that is not cached is loaded from the tables, when no query
  -- raises: it comes back with the default TTL, and the tables are unchanged.
  pub get_from_database :
      (s : OnboardingSession) (b : Backend D R)
      → IsLog s.id 0 s.messages
      → IsStored t b.db s
      → (Cache.get env c s.id b.cache).0 ≡ ok none
      → ((d : D) → ¬ (Fails (db.select_session s.id d).0))
      → ((d : D) → ¬ (Fails (db.select_messages s.id d).0))
      → let (r, b') = Repository.get env db c s.id b in
        (r ≡ ok (some (reset_ttl s))) × SameTables t b.db b'.db × (b'.pending ≡ b.pending)
  unfolding entity_to_model
  get_from_database s b log h miss up up' =
      let d = (db.select_session s.id b.db).1 in
      let seen = (laws.reads_session s.id b.db).1 in
      let seen' = (laws.reads_messages s.id d).1 in
      let row : (db.select_session s.id b.db).0 ≡ ok (some (entity_to_model s)) =
        answered _ _ b.db (laws.reads_session s.id) (up b.db) ∙ ap ok h.row in
      let rows : (db.select_messages s.id d).0 ≡ ok (map message_entity_to_model s.messages) =
        answered _ _ d (laws.reads_messages s.id) (up' d) ∙ ap ok (seen.same_log s.id ∙ h.log) in
      let entity = model_to_entity-entity_to_model s log in
      rw
        (run b s.id (entity_to_model s) (map message_entity_to_model s.messages) (reset_ttl s) miss
          row rows entity)
        (refl, SameTables-trans t seen seen', refl)
