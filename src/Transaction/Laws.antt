-- ===== src/Transaction/Laws.antt =====
-- What app/infrastructure/db/session.py relies on: nobody else sees what a transaction has written
-- until it commits, a commit shows all of it, and a rollback none of it. `t` are the tables as the
-- transaction sees them, `kept` the tables as everybody else does.
use cognaris_chatbot.Prelude.{ℕ, List, ◌≡◌, ◌∙◌, ok, ◌⊎◌}
use cognaris_chatbot.Repository.{Database, Pending}
use cognaris_chatbot.Repository.Tables.{Tables, SameTables}
use cognaris_chatbot.Transaction.{Connection}

-- `u` shows in d' what `t` shows in d.
pub record Shows {D : Type 0} (t u : Tables D) (d d' : D) : Type 0 where
  pub shows_row : (id : ℕ) → u.row d' id ≡ t.row d id
  pub shows_log : (id : ℕ) → u.log d' id ≡ t.log d id
  pub shows_outbox : u.outbox d' ≡ t.outbox d

pub record TransactionLaws {D : Type 0} (db : Database D) (conn : Connection D) (t kept : Tables D)
    : Type 0 where
  pub hidden_session : (id : ℕ) (d : D) → SameTables kept d (db.select_session id d).1
  pub hidden_messages : (id : ℕ) (d : D) → SameTables kept d (db.select_messages id d).1
  pub hidden_max : (id : ℕ) (d : D) → SameTables kept d (db.select_max_sequence id d).1
  pub hidden_flush : (ps : List Pending) (d : D) → SameTables kept d (db.flush ps d).1
  pub commit_shows : (d : D) → (conn.commit d).0 ≡ ok tt → Shows t kept d (conn.commit d).1
  -- a commit that raises may have reached the server
  pub commit_whole :
      (d : D) → SameTables kept d (conn.commit d).1 ⊎ Shows t kept d (conn.commit d).1
  pub rollback_keeps : (d : D) → SameTables kept d (conn.rollback d).1
  pub close_keeps : (d : D) → SameTables kept d (conn.close d).1

module _ {D : Type 0} (t u : Tables D) where
  pub Shows-SameTables : {d d' d'' : D} → Shows t u d d' → SameTables u d' d'' → Shows t u d d''
  Shows-SameTables h k = record {
    shows_row = λ id. k.same_row id ∙ h.shows_row id;
    shows_log = λ id. k.same_log id ∙ h.shows_log id;
    shows_outbox = k.same_outbox ∙ h.shows_outbox;
  }
