-- ===== src/Coherent.antt =====
-- What holds between two requests of the two stores of
-- app/infrastructure/db/repositories/session_repository.py: the tables and the cache.
pub mod Entries
pub mod Reads
pub mod Writes
pub mod Saves
pub mod Refused
pub mod Adds
pub mod Turns
pub mod Converse
pub mod Calls
pub mod Requests
pub mod Runs
use cognaris_chatbot.Prelude.{
  ℕ, String, ◌≡◌, ◌⊎◌, Option, none, some, List, [], map, Outcome, Fails,
}
use cognaris_chatbot.Python.{Env}
use cognaris_chatbot.Errors.{Error}
use cognaris_chatbot.Entities.{OnboardingSession, default_ttl}
use cognaris_chatbot.Entities.Invariant.{IsValid}
use cognaris_chatbot.Cache.{Client, key}
use cognaris_chatbot.Cache.Json.{serialize}
use cognaris_chatbot.Cache.Laws.{HasDicts}
use cognaris_chatbot.Repository.{Backend}
use cognaris_chatbot.Repository.Rows.{
  SessionRow, MessageRow, entity_to_model, message_entity_to_model,
}
use cognaris_chatbot.Repository.Tables.{Tables}
use cognaris_chatbot.Repository.Interleaving.Statement.{HasGrown}

-- a well-formed session as the API makes it
pub record IsGood (s : OnboardingSession) : Type 0 where
  pub valid : IsValid s
  pub dicts : HasDicts s.messages
  pub ttl : s.ttl ≡ default_ttl

-- a row and a log that hold a session
abbrev pub Holds : OnboardingSession → Option SessionRow → List MessageRow → Type 0
Holds s row log = (row ≡ some (entity_to_model s)) × (log ≡ map message_entity_to_model s.messages)

-- The tables have nothing under the identifier, or a well-formed session.
abbrev pub IsHeld : ℕ → Option SessionRow → List MessageRow → Type 0
IsHeld id row log =
    ((row ≡ none) × (log ≡ []))
    ⊎ ((s : OnboardingSession) × (s.id ≡ id) × IsGood s × Holds s row log)

-- If the tables have the revision of s, they hold s.
abbrev pub IsCurrent : OnboardingSession → Option SessionRow → List MessageRow → Type 0
IsCurrent s row log =
    (found : SessionRow) → row ≡ some found → found.revision ≡ s.revision → Holds s row log

-- The cache has no entry under the identifier, or that of a well-formed session which is the stored
-- one if it has its revision.
abbrev pub Agrees :
    {R Raw : Type 0}
    → Env
    → Client R Raw
    → ℕ
    → Option SessionRow
    → List MessageRow
    → Option Raw
    → Type 0
Agrees env c id row log entry =
    (entry ≡ none)
    ⊎ ((s : OnboardingSession) × (s.id ≡ id)
        × IsGood s
        × (entry ≡ some (c.dumps (serialize env s)))
        × IsCurrent s row log)

abbrev pub AllHeld : {D : Type 0} → Tables D → D → Type 0
AllHeld t d = (id : ℕ) → IsHeld id (t.row d id) (t.log d id)

module _ {D R Raw : Type 0} (env : Env) (c : Client R Raw) (stored : R → String → Option Raw)
    (t : Tables D) where
  abbrev pub AllAgree : D → R → Type 0
  AllAgree d r = (id : ℕ) → Agrees env c id (t.row d id) (t.log d id) (stored r (key env id))

  -- What a part of a request that began at d leaves: a cache that agrees with the tables at d; and unless
  -- it has raised, tables that are well-formed, agree with the cache, and have lost no message.
  pub record Ends {A : Type 0} (d : D) (r : Outcome Error A) (b : Backend D R) : Type 0 where
    pub before : AllAgree d b.cache
    pub after : Fails r ⊎ (AllHeld t b.db × AllAgree b.db b.cache × HasGrown t d b.db)
