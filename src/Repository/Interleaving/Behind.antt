-- ===== src/Repository/Interleaving/Behind.antt =====
-- What becomes of a `save` of app/infrastructure/db/repositories/session_repository.py when another request
-- has written messages since it read the largest sequence.
use cognaris_chatbot.Prelude.{
  ℕ, ap, ◌<◌, ◌≡◌, refl, inl, inr, List, [], ◌∷◌, length, ok, err, arith, Outcome, Fails,
}
use cognaris_chatbot.Python.{Env}
use cognaris_chatbot.Errors.{Error}
use cognaris_chatbot.Entities.{ConversationMessage}
use cognaris_chatbot.Entities.Invariant.{IsLog}
use cognaris_chatbot.Repository.{Database}
use cognaris_chatbot.Repository.Rows.{SessionRow, MessageRow}
use cognaris_chatbot.Repository.Tables.{Tables, SameTables}
use cognaris_chatbot.Repository.Writes.{last_of}
use cognaris_chatbot.Repository.Interleaving.{Saver, flushing, finished, advance_from}
use cognaris_chatbot.Repository.Interleaving.Dense.{IsTaken, IsFree, IsDense-IsTaken, unsaved_tail}
use cognaris_chatbot.Repository.Interleaving.Schedule.{ConstraintLaws}
use cognaris_chatbot.Repository.Interleaving.Statement.{AllDense, returned-IsFree, settled, writes}

raised : (r : Outcome Error (Unit {0})) → Fails r → (e : Error) × (r ≡ err e)
raised (ok done) h = absurd h
raised (err e) h = (e, refl)

taken-IsFree :
    (k : ℕ) (ms : List ConversationMessage) (rows : List MessageRow)
    → 0 < length ms
    → IsTaken k rows
    → ¬ IsFree k ms rows
taken-IsFree k [] rows some_left taken free = omega arith
taken-IsFree k (m ∷ ms) rows some_left taken free = free taken

-- Under the unique constraint on session and sequence, a save of a session with a valid log and
-- more than k messages, which has found k messages stored, at a database whose logs are numbered
-- without a gap and where the session has more than k messages by now: its flush raises, and no
-- table changes.
pub late_flush_raises :
    {D : Type 0} (env : Env) (db : Database D) (t : Tables D) (laws : ConstraintLaws db t)
    (p : Saver) (existing : SessionRow) (k : ℕ) (d : D)
    → IsLog p.session.id 0 p.session.messages
    → AllDense t d
    → k < length p.session.messages
    → k < length (t.log d p.session.id)
    → let (phase, d') = advance_from env db p (flushing existing (last_of k)) d in
      (e : Error) × (phase ≡ finished (err e)) × SameTables t d d'
unfolding advance_from
late_flush_raises env db t laws p existing k d log dense new behind =
    let ps = writes p existing (last_of k) in
    let (tail, e, rest, long) =
      unsaved_tail p.session.id 0 k p.session.messages (omega arith) log in
    elim (settled (db.flush ps d).0) [
      | inl done ↦ absurd (
          taken-IsFree k tail (t.log d p.session.id) (omega (arith, new, long))
            (IsDense-IsTaken 0 k (t.log d p.session.id) (dense p.session.id) (omega arith)
              (omega (arith, behind)))
            (returned-IsFree db t laws p existing k d tail e rest done))
      | inr fails ↦
          let (x, raises) = raised (db.flush ps d).0 fails in
          (x, ap finished raises, laws.undone ps d fails)
    ]
