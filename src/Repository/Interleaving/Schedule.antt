-- ===== src/Repository/Interleaving/Schedule.antt =====
-- Requests that save at the same time, of app/infrastructure/db/repositories/session_repository.py, in any
-- order of their statements, and the unique constraint of app/infrastructure/db/models/message.py.
use cognaris_chatbot.Prelude.{ℕ, ◌≡◌, List, [], ◌∷◌, ok, Fails, ◌==◌, if◌then◌else◌}
use cognaris_chatbot.Python.{Env}
use cognaris_chatbot.Repository.{Database, Pending, insert_message}
use cognaris_chatbot.Repository.Tables.{Tables, SameTables}
use cognaris_chatbot.Repository.Interleaving.{Saver, advance}
use cognaris_chatbot.Repository.Interleaving.Dense.{IsTaken}

-- the inserts of messages are under numbers that their sessions do not have yet
abbrev pub HasNoClash : {D : Type 0} → Tables D → D → List Pending → Type 0
HasNoClash t d [] = Unit
HasNoClash t d (insert_message row ∷ ps) =
    (¬ IsTaken row.sequence (t.log d row.session_id)) × HasNoClash t d ps
HasNoClash t d (op ∷ ps) = HasNoClash t d ps

-- What the unique constraint on session and sequence refuses, and what a refused flush leaves when its
-- transaction has been rolled back.
pub record ConstraintLaws {D : Type 0} (db : Database D) (t : Tables D) : Type 0 where
  pub unique : (ps : List Pending) (d : D) → (db.flush ps d).0 ≡ ok tt → HasNoClash t d ps
  pub undone :
      (ps : List Pending) (d : D) → Fails (db.flush ps d).0 → SameTables t d (db.flush ps d).1

-- the database and the requests, by their numbers
pub record Shared (D : Type 0) : Type 0 where
  pub db : D
  pub savers : ℕ → Saver

module _ {D : Type 0} (env : Env) (db : Database D) where
  unfoldable pub step : ℕ → Shared D → Shared D
  step i x =
      let (p, d) = advance env db (x.savers i) x.db in
      record { db = d; savers = λ j. if i == j then p else x.savers j }

  unfoldable pub run : List ℕ → Shared D → Shared D
  unfolding step
  run [] x = x
  run (i ∷ is) x = run is (step i x)
