-- ===== src/Repository/Add.antt =====
-- What `add` of app/infrastructure/db/repositories/session_repository.py leaves in the tables, and
-- what it raises.
use cognaris_chatbot.Prelude.{
  refl, Fails, ap, ◌∙◌, map, returned, ◌≡◌, some, List, [], ◌∷◌, ◌++◌, arith, ok, err,
}
use cognaris_chatbot.Python.{Env}
use cognaris_chatbot.Errors.{integrity_error}
use cognaris_chatbot.Entities.{OnboardingSession}
use cognaris_chatbot.Entities.Invariant.{IsLog}
use cognaris_chatbot.Events.{DomainEvent}
use cognaris_chatbot.Cache
use cognaris_chatbot.Cache.{Client}
use cognaris_chatbot.Repository
use cognaris_chatbot.Repository.{
  Database, Backend, Pending, insert_session, message_inserts, event_inserts, flush_new,
  map_integrity, already_exists,
}
use cognaris_chatbot.Repository.Load.{IsStored}
use cognaris_chatbot.Repository.Rows.{EventRow, entity_to_model, event_to_model}
use cognaris_chatbot.Repository.Tables.{Tables, DatabaseLaws, row_after, log_after, events_of}
use cognaris_chatbot.Repository.Writes.{
  log_after-message_inserts, row_after-append, log_after-append, row_after-message_inserts,
  row_after-event_inserts, log_after-event_inserts, events_of-append, events_of-message_inserts,
  events_of-event_inserts,
}

-- what `add` sends to the database
abbrev pub inserts : OnboardingSession → List DomainEvent → List Pending
inserts s events =
    (insert_session (entity_to_model s) ∷ message_inserts s.messages) ++ event_inserts events

module _ {D R Raw : Type 0} (env : Env) (db : Database D) (c : Client R Raw) (b : Backend D R)
    (s : OnboardingSession) (events : List DomainEvent) (idle : b.pending ≡ []) where
  pub add_run :
      (db.flush (inserts s events) b.db).0 ≡ ok tt
      → Repository.add env db c s events b ≡ (
        ok tt,
        record {
          db = (db.flush (inserts s events) b.db).1;
          pending = [];
          cache = (Cache.set env c s b.cache).1;
        },
      )
  unfolding Repository.add flush_new map_integrity Cache.set
  add_run flushed = ground (arith, idle, flushed)

  -- On an idle database session, when the flush of the new rows violates a constraint, `add` raises
  -- SessionAlreadyExistsError, and does not touch the cache.
  add_exists :
      (db.flush (inserts s events) b.db).0 ≡ err integrity_error
      → Repository.add env db c s events b ≡ (
        err (already_exists env s.id),
        record { db = (db.flush (inserts s events) b.db).1; pending = []; cache = b.cache },
      )
  unfolding Repository.add flush_new map_integrity
  add_exists failed = ground (arith, idle, failed)

-- Over tables without messages of the session, an idle database session and a flush that does not
-- raise, `add` of a session with a valid log returns; the tables then hold the session, row and log,
-- and the outbox has grown by the given events.
pub add_stores :
    {D R Raw : Type 0} (env : Env) (db : Database D) (c : Client R Raw) (t : Tables D)
    (laws : DatabaseLaws db t) (b : Backend D R) (s : OnboardingSession) (events : List DomainEvent)
    → b.pending ≡ []
    → t.log b.db s.id ≡ []
    → IsLog s.id 0 s.messages
    → ¬ (Fails (db.flush (inserts s events) b.db).0)
    → let (r, b') = Repository.add env db c s events b in
      (r ≡ ok tt)
      × IsStored t b'.db s
      × (t.outbox b'.db ≡ t.outbox b.db ++ map event_to_model events)
      × (b'.pending ≡ [])
unfolding entity_to_model
add_stores env db c t laws b s events idle unused log up =
    let flushed : (db.flush (inserts s events) b.db).0 ≡ ok tt = returned _ up in
    let first = insert_session (entity_to_model s) ∷ message_inserts s.messages in
    let own : row_after (insert_session (entity_to_model s) ∷ []) s.id (t.row b.db s.id)
        ≡ some (entity_to_model s) =
      ground arith in
    rw (add_run env db c b s events idle flushed) (
      refl,
      record {
        row =
            laws.flush_writes_row (inserts s events) b.db s.id flushed
            ∙ row_after-append s.id first (event_inserts events) _
            ∙ row_after-event_inserts s.id events _
            ∙ row_after-message_inserts s.id s.messages _
            ∙ own;
        log =
            laws.flush_writes_log (inserts s events) b.db s.id flushed
            ∙ log_after-append s.id first (event_inserts events) _
            ∙ log_after-event_inserts s.id events _
            ∙ ap (log_after (message_inserts s.messages) s.id) unused
            ∙ log_after-message_inserts s.id [] s.messages log;
      },
      laws.flush_writes_outbox (inserts s events) b.db flushed
          ∙ ap (λ (es : List EventRow). t.outbox b.db ++ es)
              (events_of-append first (event_inserts events)
                ∙ ap (λ (es : List EventRow). es ++ events_of (event_inserts events))
                    (events_of-message_inserts s.messages)
                ∙ events_of-event_inserts events),
      refl,
    )
