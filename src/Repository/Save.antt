-- ===== src/Repository/Save.antt =====
-- What `save` of app/infrastructure/db/repositories/session_repository.py leaves in the tables, on
-- each of its branches.
use mathlib.Core.Path.{ap₂}
use cognaris_chatbot.Prelude.{
  refl, sym, Fails, length, subst, ap, ◌∙◌, map, returned, ℕ, ◌≡◌, ◌≢◌, none, some, List, [], ◌∷◌,
  ◌++◌, ℤ, pos, negsuc, arith, ok, err,
}
use cognaris_chatbot.Python.{Env}
use cognaris_chatbot.Entities.{ConversationMessage, OnboardingSession}
use cognaris_chatbot.Events.{DomainEvent}
use cognaris_chatbot.Cache
use cognaris_chatbot.Cache.{Client}
use cognaris_chatbot.Repository
use cognaris_chatbot.Repository.{
  Database, Backend, Pending, update_session, save_over, stale, unsaved, message_inserts,
  event_inserts,
}
use cognaris_chatbot.Repository.Load.{IsStored}
use cognaris_chatbot.Entities.Invariant.{IsLog, IsLog-front}
use cognaris_chatbot.Repository.Tables.{
  Tables, DatabaseLaws, answered, row_after, log_after, events_of, max_sequence,
}
use cognaris_chatbot.Repository.Writes.{
  last_of, max_sequence-log, unsaved-log, log_after-message_inserts, row_after-append,
  log_after-append, row_after-message_inserts, row_after-event_inserts, log_after-event_inserts,
  events_of-append, events_of-message_inserts, events_of-event_inserts,
}
use cognaris_chatbot.Repository.Rows.{
  EventRow, event_to_model, message_entity_to_model, SessionRow, entity_to_model,
  apply_entity_to_model,
}

-- A later version of a session: the fields that `save` does not write are the same, and the log has
-- only grown.
pub record Extends (old s : OnboardingSession) (more : List ConversationMessage) : Type 0 where
  pub same_id : s.id ≡ old.id
  pub same_user : s.user_id ≡ old.user_id
  pub same_locale : s.locale ≡ old.locale
  pub same_platform : s.client_platform ≡ old.client_platform
  pub same_start : s.started_at ≡ old.started_at
  pub grown : s.messages ≡ old.messages ++ more

pub apply-entity_to_model :
    (old s : OnboardingSession) (more : List ConversationMessage)
    → Extends old s more
    → apply_entity_to_model s (entity_to_model old) ≡ entity_to_model s
unfolding apply_entity_to_model entity_to_model
apply-entity_to_model old s more h =
    ground (arith, h.same_id, h.same_user, h.same_locale, h.same_platform, h.same_start)

-- what `save` sends to the database
abbrev pub writes : OnboardingSession → List ConversationMessage → List DomainEvent → List Pending
writes s more events =
    update_session (entity_to_model s) ∷ message_inserts more ++ event_inserts events

-- what is sent for a later version of the session that is stored
pub queued_writes :
    (old s : OnboardingSession) (more : List ConversationMessage) (events : List DomainEvent)
    → Extends old s more
    → IsLog s.id 0 (old.messages ++ more)
    → (update_session (apply_entity_to_model s (entity_to_model old))
          ∷ unsaved (last_of (length old.messages)) s.messages)
        ++ event_inserts events
      ≡ writes s more events
queued_writes old s more events cont log =
    ap₂ (λ (r : SessionRow) (ps : List Pending). (update_session r ∷ ps) ++ event_inserts events)
      (apply-entity_to_model old s more cont)
      (ap (unsaved (last_of (length old.messages))) cont.grown
        ∙ unsaved-log s.id 0 (length old.messages) old.messages more (omega arith) log)

module _ {D R Raw : Type 0} (env : Env) (db : Database D) (c : Client R Raw) where
  -- `save`, when the row has the expected revision and nothing raises
  pub save_run :
      (b : Backend D R) (s : OnboardingSession) (events : List DomainEvent) (row : SessionRow)
      (z : ℤ)
      → b.pending ≡ []
      → (db.select_session s.id b.db).0 ≡ ok (some row)
      → let d = (db.select_session s.id b.db).1 in
        (db.select_max_sequence s.id d).0 ≡ ok z
        → let d' = (db.select_max_sequence s.id d).1 in
          let ps =
            (update_session (apply_entity_to_model s row) ∷ unsaved z s.messages)
            ++ event_inserts events in
          (db.flush ps d').0 ≡ ok tt
          → Repository.save env db c s row.revision events b ≡ (
            ok tt,
            record { db = (db.flush ps d').1; pending = []; cache = (Cache.set env c s b.cache).1 },
          )
  unfolding Repository.save save_over Cache.set
  save_run b s events row z idle found last flushed = ground (arith, idle, found, last, flushed)

  -- A row of another revision: the entry of the session is dropped from the cache, StaleRevisionError
  -- is raised, and nothing is written or queued.
  pub save_stale :
      (b : Backend D R) (s : OnboardingSession) (expected : ℕ) (events : List DomainEvent)
      (row : SessionRow)
      → (db.select_session s.id b.db).0 ≡ ok (some row)
      → row.revision ≢ expected
      → Repository.save env db c s expected events b ≡ (
        err (stale env expected (pos row.revision)),
        record b {
          db = (db.select_session s.id b.db).1;
          cache = (Cache.invalidate env c s.id b.cache).1;
        },
      )
  unfolding Repository.save save_over Cache.invalidate
  save_stale b s expected events row found other = ground (arith, found)

  -- Without a row, StaleRevisionError is raised with the revision -1, nothing is written or queued, and
  -- the cache keeps what it has.
  pub save_missing :
      (b : Backend D R) (s : OnboardingSession) (expected : ℕ) (events : List DomainEvent)
      → (db.select_session s.id b.db).0 ≡ ok none
      → Repository.save env db c s expected events b
        ≡ (err (stale env expected (negsuc 0)), record b { db = (db.select_session s.id b.db).1 })
  unfolding Repository.save save_over
  save_missing b s expected events found = ground (arith, found)

-- The tables after the writes of a `save`, from those before.
module _ {D : Type 0} {db : Database D} (t : Tables D) (laws : DatabaseLaws db t)
    (s : OnboardingSession) (old_log more : List ConversationMessage) (events : List DomainEvent)
    (d : D) (flushed : (db.flush (writes s more events) d).0 ≡ ok tt) where
  pub row_written : t.row (db.flush (writes s more events) d).1 s.id ≡ some (entity_to_model s)
  unfolding entity_to_model
  row_written =
      laws.flush_writes_row (writes s more events) d s.id flushed
      ∙ row_after-append s.id (message_inserts more) (event_inserts events) _
      ∙ row_after-event_inserts s.id events _
      ∙ row_after-message_inserts s.id more _
      ∙ own
    where
      own :
          row_after (update_session (entity_to_model s) ∷ []) s.id (t.row d s.id)
          ≡ some (entity_to_model s)
      own = ground arith

  pub log_written :
      t.log d s.id ≡ map message_entity_to_model old_log
      → IsLog s.id 0 (old_log ++ more)
      → t.log (db.flush (writes s more events) d).1 s.id
        ≡ map message_entity_to_model (old_log ++ more)
  log_written before log =
      laws.flush_writes_log (writes s more events) d s.id flushed
      ∙ log_after-append s.id (message_inserts more) (event_inserts events) _
      ∙ log_after-event_inserts s.id events _
      ∙ ap (log_after (message_inserts more) s.id) before
      ∙ log_after-message_inserts s.id old_log more log

  pub outbox_written :
      t.outbox (db.flush (writes s more events) d).1 ≡ t.outbox d ++ map event_to_model events
  outbox_written =
      laws.flush_writes_outbox (writes s more events) d flushed
      ∙ ap (λ (es : List EventRow). t.outbox d ++ es)
          (events_of-append (message_inserts more) (event_inserts events)
            ∙ ap (λ (es : List EventRow). es ++ events_of (event_inserts events))
                (events_of-message_inserts more)
            ∙ events_of-event_inserts events)

module _ {D R Raw : Type 0} (env : Env) (db : Database D) (c : Client R Raw) (t : Tables D)
    (laws : DatabaseLaws db t) where
  -- the database when `save` has read what it needs
  abbrev pub read_by_save : OnboardingSession → D → D
  read_by_save s d = (db.select_max_sequence s.id (db.select_session s.id d).1).1

  -- `save` of a later version, when nothing raises
  pub save_writes :
      (b : Backend D R) (old s : OnboardingSession) (more : List ConversationMessage)
      (events : List DomainEvent)
      → b.pending ≡ []
      → IsStored t b.db old
      → Extends old s more
      → IsLog s.id 0 s.messages
      → ((d : D) → ¬ (Fails (db.select_session s.id d).0))
      → ((d : D) → ¬ (Fails (db.select_max_sequence s.id d).0))
      → ((d : D) → ¬ (Fails (db.flush (writes s more events) d).0))
      → let d = read_by_save s b.db in
        ((db.flush (writes s more events) d).0 ≡ ok tt)
        × (t.log d s.id ≡ map message_entity_to_model old.messages)
        × (t.outbox d ≡ t.outbox b.db)
        × (Repository.save env db c s old.revision events b ≡ (
          ok tt,
          record {
            db = (db.flush (writes s more events) d).1;
            pending = [];
            cache = (Cache.set env c s b.cache).1;
          },
        ))
  unfolding entity_to_model
  save_writes b old s more events idle stored cont log up up_max up_flush =
      let d = (db.select_session s.id b.db).1 in
      let seen = (laws.reads_session s.id b.db).1 in
      let d' = (db.select_max_sequence s.id d).1 in
      let seen' = (laws.reads_max s.id d).1 in
      let log' : IsLog s.id 0 (old.messages ++ more) = subst (IsLog s.id 0) cont.grown log in
      let row : (db.select_session s.id b.db).0 ≡ ok (some (entity_to_model old)) =
        answered _ _ b.db (laws.reads_session s.id) (up b.db)
        ∙ ap ok (ap (t.row b.db) cont.same_id ∙ stored.row) in
      let logged : t.log d s.id ≡ map message_entity_to_model old.messages =
        seen.same_log s.id ∙ ap (t.log b.db) cont.same_id ∙ stored.log in
      let last : (db.select_max_sequence s.id d).0 ≡ ok (last_of (length old.messages)) =
        answered _ _ d (laws.reads_max s.id) (up_max d)
        ∙ ap ok (
            ap max_sequence logged
            ∙ max_sequence-log s.id old.messages (IsLog-front s.id 0 old.messages more log')) in
      let queued = queued_writes old s more events cont log' in
      let flushed : (db.flush (writes s more events) d').0 ≡ ok tt = returned _ (up_flush d') in
      let ran =
        save_run env db c b s events (entity_to_model old) (last_of (length old.messages)) idle row
          last (rw queued flushed) in
      (
        flushed,
        seen'.same_log s.id ∙ logged,
        seen'.same_outbox ∙ seen.same_outbox,
        rw queued at ran,
      )

  -- Over tables that hold the old version of a session, with an idle database session and queries
  -- and a flush that do not raise, `save` of a later version with a valid log and the revision of
  -- the old one as the expected revision returns; the tables then hold the new version, row and log,
  -- and the outbox has grown by the given events.
  pub save_stores :
      (b : Backend D R) (old s : OnboardingSession) (more : List ConversationMessage)
      (events : List DomainEvent)
      → b.pending ≡ []
      → IsStored t b.db old
      → Extends old s more
      → IsLog s.id 0 s.messages
      → ((d : D) → ¬ (Fails (db.select_session s.id d).0))
      → ((d : D) → ¬ (Fails (db.select_max_sequence s.id d).0))
      → ((d : D) → ¬ (Fails (db.flush (writes s more events) d).0))
      → let (r, b') = Repository.save env db c s old.revision events b in
        (r ≡ ok tt)
        × IsStored t b'.db s
        × (t.outbox b'.db ≡ t.outbox b.db ++ map event_to_model events)
        × (b'.pending ≡ [])
  unfolding entity_to_model
  save_stores b old s more events idle stored cont log up up_max up_flush =
      let d = read_by_save s b.db in
      let log' : IsLog s.id 0 (old.messages ++ more) = subst (IsLog s.id 0) cont.grown log in
      let (flushed, logged, told, ran) =
        save_writes b old s more events idle stored cont log up up_max up_flush in
      rw ran (
        refl,
        record {
          row = row_written t laws s old.messages more events d flushed;
          log =
              log_written t laws s old.messages more events d flushed logged log'
              ∙ ap (map message_entity_to_model) (sym cont.grown);
        },
        outbox_written t laws s old.messages more events d flushed
            ∙ ap (λ (es : List EventRow). es ++ map event_to_model events) told,
        refl,
      )
