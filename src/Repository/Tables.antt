-- ===== src/Repository/Tables.antt =====
-- What app/infrastructure/db/repositories/session_repository.py relies on in Postgres and SQLAlchemy:
-- the tables as a transaction sees them, what the queries read from them, and what a flush that
-- returns has written.
use cognaris_chatbot.Prelude.{
  refl, ◌∙◌, inr, inl, ◌∙◌, Fails, ℕ, ◌≡◌, ◌⊎◌, Option, some, List, [], ◌∷◌, ◌++◌, ℤ, pos, negsuc,
  ltb, ◌==◌, if◌then◌else◌, ok, err, Exec,
}
use cognaris_chatbot.Errors.{Error}
use cognaris_chatbot.Repository.{
  Database, Pending, insert_session, insert_message, insert_event, update_session,
}
use cognaris_chatbot.Repository.Rows.{SessionRow, MessageRow, EventRow}

-- the maximum of the sequences, -1 without rows
abbrev pub larger : ℕ → ℤ → ℤ
larger n (pos m) = if ltb m n then pos n else pos m
larger n (negsuc m) = pos n

abbrev pub max_sequence : List MessageRow → ℤ
max_sequence [] = negsuc 0
max_sequence (row ∷ rows) = larger row.sequence (max_sequence rows)

-- a new row among those of its session, which are kept by sequence
abbrev pub insert_by_sequence : MessageRow → List MessageRow → List MessageRow
insert_by_sequence new [] = new ∷ []
insert_by_sequence new (row ∷ rows) =
    if ltb new.sequence row.sequence then new ∷ row ∷ rows else row ∷ insert_by_sequence new rows

-- The tables after the writes.
abbrev pub row_after : List Pending → ℕ → Option SessionRow → Option SessionRow
row_after [] id old = old
row_after (insert_session row ∷ ps) id old =
    row_after ps id (if row.id == id then some row else old)
row_after (update_session row ∷ ps) id old =
    row_after ps id (if row.id == id then some row else old)
row_after (insert_message row ∷ ps) id old = row_after ps id old
row_after (insert_event row ∷ ps) id old = row_after ps id old

abbrev pub log_after : List Pending → ℕ → List MessageRow → List MessageRow
log_after [] id old = old
log_after (insert_message row ∷ ps) id old =
    log_after ps id (if row.session_id == id then insert_by_sequence row old else old)
log_after (insert_session row ∷ ps) id old = log_after ps id old
log_after (update_session row ∷ ps) id old = log_after ps id old
log_after (insert_event row ∷ ps) id old = log_after ps id old

abbrev pub events_of : List Pending → List EventRow
events_of [] = []
events_of (insert_event row ∷ ps) = row ∷ events_of ps
events_of (insert_session row ∷ ps) = events_of ps
events_of (update_session row ∷ ps) = events_of ps
events_of (insert_message row ∷ ps) = events_of ps

-- The three tables, as functions of the transaction's state.
pub record Tables (D : Type 0) : Type 0 where
  pub row : D → ℕ → Option SessionRow
  pub log : D → ℕ → List MessageRow
  pub outbox : D → List EventRow

pub record SameTables {D : Type 0} (t : Tables D) (d d' : D) : Type 0 where
  pub same_row : (id : ℕ) → t.row d' id ≡ t.row d id
  pub same_log : (id : ℕ) → t.log d' id ≡ t.log d id
  pub same_outbox : t.outbox d' ≡ t.outbox d

-- A query returns what is there, or raises; it changes no table.
abbrev pub Reads : {D A : Type 0} → Tables D → Exec Error D A → (D → A) → Type 0
Reads {D} t query answer =
    (d : D)
    → (((query d).0 ≡ ok (answer d)) ⊎ ((e : Error) × ((query d).0 ≡ err e)))
      × SameTables t d (query d).1

pub record DatabaseLaws {D : Type 0} (db : Database D) (t : Tables D) : Type 0 where
  pub reads_session : (id : ℕ) → Reads t (db.select_session id) (λ d. t.row d id)
  pub reads_messages : (id : ℕ) → Reads t (db.select_messages id) (λ d. t.log d id)
  pub reads_max : (id : ℕ) → Reads t (db.select_max_sequence id) (λ d. max_sequence (t.log d id))
  pub flush_writes_row :
      (ps : List Pending) (d : D) (id : ℕ)
      → (db.flush ps d).0 ≡ ok tt
      → t.row (db.flush ps d).1 id ≡ row_after ps id (t.row d id)
  pub flush_writes_log :
      (ps : List Pending) (d : D) (id : ℕ)
      → (db.flush ps d).0 ≡ ok tt
      → t.log (db.flush ps d).1 id ≡ log_after ps id (t.log d id)
  pub flush_writes_outbox :
      (ps : List Pending) (d : D)
      → (db.flush ps d).0 ≡ ok tt
      → t.outbox (db.flush ps d).1 ≡ t.outbox d ++ events_of ps

module _ {D : Type 0} (t : Tables D) where
  pub SameTables-refl : (d : D) → SameTables t d d
  SameTables-refl d = record { same_row = λ id. refl; same_log = λ id. refl; same_outbox = refl }

  pub SameTables-trans :
      {d d' d'' : D} → SameTables t d d' → SameTables t d' d'' → SameTables t d d''
  SameTables-trans h k = record {
    same_row = λ id. k.same_row id ∙ h.same_row id;
    same_log = λ id. k.same_log id ∙ h.same_log id;
    same_outbox = k.same_outbox ∙ h.same_outbox;
  }

-- a query that does not raise
pub answered :
    {D A : Type 0} {t : Tables D} (query : Exec Error D A) (answer : D → A) (d : D)
    → Reads t query answer
    → ¬ (Fails (query d).0)
    → (query d).0 ≡ ok (answer d)
answered query answer d reads up = elim (reads d).0 [
  | inl e ↦ e
  | inr (x, e) ↦ absurd (up (rw e tt))
]
