-- ===== src/Repository/Overlap.antt =====
-- Two requests that `save` the same session, of
-- app/infrastructure/db/repositories/session_repository.py: the database is what committed transactions
-- have written, which each statement sees anew, as Postgres does at its default isolation level.
use mathlib.Core.List.{append-nil}
use mathlib.Core.Path.{ap₂}
use cognaris_chatbot.Prelude.{
  ℕ, ◌≤◌, ◌≡◌, ◌≢◌, refl, sym, ◌∙◌, ap, Outcome, ok, err, Fails, continue, returned, List, [], ◌∷◌,
  ◌++◌, map, some, arith, length, ℤ, pos,
}
use cognaris_chatbot.Python.{Env}
use cognaris_chatbot.Errors.{Error}
use cognaris_chatbot.Entities.{ConversationMessage, OnboardingSession}
use cognaris_chatbot.Entities.Invariant.{IsLog}
use cognaris_chatbot.Events.{DomainEvent}
use cognaris_chatbot.Cache
use cognaris_chatbot.Cache.{Client}
use cognaris_chatbot.Repository
use cognaris_chatbot.Repository.{
  Database, Backend, Pending, update_session, unsaved, event_inserts, save_over, on_db, stale,
}
use cognaris_chatbot.Repository.Load.{IsStored}
use cognaris_chatbot.Repository.Rows.{
  SessionRow, EventRow, entity_to_model, apply_entity_to_model, message_entity_to_model,
  event_to_model,
}
use cognaris_chatbot.Repository.Save.{
  Extends, writes, save_stores, save_stale, row_written, log_written, outbox_written,
  apply-entity_to_model,
}
use cognaris_chatbot.Repository.Tables.{Tables, DatabaseLaws, SameTables, answered, max_sequence}
use cognaris_chatbot.Repository.Writes.{last_of, max_sequence-log, unsaved_none}

module _ {D R Raw : Type 0} (env : Env) (db : Database D) (c : Client R Raw) where
  -- The second request selects the row; the first one saves and commits; the second one goes on.
  abbrev pub overlap :
      OnboardingSession
      → OnboardingSession
      → ℕ
      → List DomainEvent
      → List DomainEvent
      → Backend D R
      → Outcome Error (Unit {0}) × Outcome Error (Unit {0}) × Backend D R
  overlap s s' expected events events' b =
      let (found, b₁) = on_db env db c (db.select_session s'.id) b in
      let (r, b₂) = Repository.save env db c s expected events b₁ in
      let (r', b₃) = continue found (save_over env db c s' expected events') b₂ in (r, r', b₃)

  -- the rest of `save` when the row that it has found is of the expected revision
  save_over_run :
      (b : Backend D R) (s : OnboardingSession) (events : List DomainEvent) (row : SessionRow)
      (z : ℤ) (ps : List Pending)
      → b.pending ≡ []
      → (db.select_max_sequence s.id b.db).0 ≡ ok z
      → (update_session (apply_entity_to_model s row) ∷ unsaved z s.messages)
          ++ event_inserts events
        ≡ ps
      → let d = (db.select_max_sequence s.id b.db).1 in
        (db.flush ps d).0 ≡ ok tt
        → save_over env db c s row.revision events (some row) b ≡ (
          ok tt,
          record { db = (db.flush ps d).1; pending = []; cache = (Cache.set env c s b.cache).1 },
        )
  unfolding save_over Cache.set
  save_over_run b s events row z ps idle last queued flushed =
      ground (arith, idle, last, queued, flushed)

module _ {D R Raw : Type 0} (env : Env) (db : Database D) (c : Client R Raw) (t : Tables D)
    (laws : DatabaseLaws db t) where
  -- A save of a session whose row was found before another request saved its own, longer log.
  late_save :
      (b : Backend D R) (old s s' : OnboardingSession) (more' : List ConversationMessage)
      (events' : List DomainEvent)
      → b.pending ≡ []
      → IsStored t b.db s
      → s.id ≡ old.id
      → Extends old s' more'
      → IsLog s.id 0 s.messages
      → IsLog s'.id 0 s'.messages
      → length s'.messages ≤ length s.messages
      → ((d : D) → ¬ (Fails (db.select_max_sequence s'.id d).0))
      → ((ps : List Pending) (d : D) → ¬ (Fails (db.flush ps d).0))
      → let (r', b') = save_over env db c s' old.revision events' (some (entity_to_model old)) b in
        (r' ≡ ok tt)
        × (t.row b'.db s'.id ≡ some (entity_to_model s'))
        × (t.log b'.db s'.id ≡ map message_entity_to_model s.messages)
        × (t.outbox b'.db ≡ t.outbox b.db ++ map event_to_model events')
  unfolding entity_to_model Repository.message_inserts event_inserts
  late_save b old s s' more' events' idle stored own ext' log log' short up_max up_flush =
      let same_id : s'.id ≡ s.id = ext'.same_id ∙ sym own in
      let d = (db.select_max_sequence s'.id b.db).1 in
      let seen = (laws.reads_max s'.id b.db).1 in
      let logged : t.log b.db s'.id ≡ map message_entity_to_model s.messages =
        ap (t.log b.db) same_id ∙ stored.log in
      let last : (db.select_max_sequence s'.id b.db).0 ≡ ok (last_of (length s.messages)) =
        answered _ _ b.db (laws.reads_max s'.id) (up_max b.db)
        ∙ ap ok (ap max_sequence logged ∙ max_sequence-log s.id s.messages log) in
      let queued : (update_session (apply_entity_to_model s' (entity_to_model old))
              ∷ unsaved (last_of (length s.messages)) s'.messages)
            ++ event_inserts events'
          ≡ writes s' [] events' =
        ap₂
          (λ (r : SessionRow) (ps : List Pending). (update_session r ∷ ps) ++ event_inserts events')
          (apply-entity_to_model old s' more' ext')
          (unsaved_none s'.id 0 (length s.messages) s'.messages (omega arith) log') in
      let flushed : (db.flush (writes s' [] events') d).0 ≡ ok tt = returned _ (up_flush _ d) in
      let ran =
        save_over_run env db c b s' events' (entity_to_model old) (last_of (length s.messages))
          (writes s' [] events') idle last queued flushed in
      let kept : IsLog s'.id 0 (s.messages ++ []) = rw (append-nil s.messages, same_id) log in
      rw ran (
        refl,
        row_written t laws s' s.messages [] events' d flushed,
        log_written t laws s' s.messages [] events' d flushed (seen.same_log s'.id ∙ logged) kept
            ∙ ap (map message_entity_to_model) (append-nil s.messages),
        outbox_written t laws s' s.messages [] events' d flushed
            ∙ ap (λ (es : List EventRow). es ++ map event_to_model events') seen.same_outbox,
      )

  -- Two requests have loaded the same stored version of a session and made later versions of it with
  -- valid logs, the second no longer than the first. The second request selects the row, then the first
  -- one saves and commits, and then the second one goes on, each with an idle session object and
  -- queries and flushes that do not raise. Both saves return; the log is then that of the first version
  -- alone, and the outbox has the events of both.
  pub overlapping_saves :
      (b : Backend D R) (old s s' : OnboardingSession) (more more' : List ConversationMessage)
      (events events' : List DomainEvent)
      → b.pending ≡ []
      → IsStored t b.db old
      → Extends old s more
      → Extends old s' more'
      → IsLog s.id 0 s.messages
      → IsLog s'.id 0 s'.messages
      → length s'.messages ≤ length s.messages
      → ((id : ℕ) (d : D) → ¬ (Fails (db.select_session id d).0))
      → ((id : ℕ) (d : D) → ¬ (Fails (db.select_max_sequence id d).0))
      → ((ps : List Pending) (d : D) → ¬ (Fails (db.flush ps d).0))
      → let (r, r', b') = overlap env db c s s' old.revision events events' b in
        (r ≡ ok tt)
        × (r' ≡ ok tt)
        × (t.log b'.db old.id ≡ map message_entity_to_model s.messages)
        × (t.outbox b'.db
            ≡ (t.outbox b.db ++ map event_to_model events) ++ map event_to_model events')
  overlapping_saves b old s s' more more' events events' idle stored ext ext' log log' short up
        up_max up_flush =
      let seen = (laws.reads_session s'.id b.db).1 in
      let found : (db.select_session s'.id b.db).0 ≡ ok (some (entity_to_model old)) =
        answered _ _ b.db (laws.reads_session s'.id) (up s'.id b.db)
        ∙ ap ok (ap (t.row b.db) ext'.same_id ∙ stored.row) in
      let b₁ = record b { db = (db.select_session s'.id b.db).1 } in
      let (saved, holds, told, rest) =
        save_stores env db c t laws b₁ old s more events idle
          (record {
            row = seen.same_row old.id ∙ stored.row;
            log = seen.same_log old.id ∙ stored.log;
          })
          ext log (up s.id) (up_max s.id) (up_flush _) in
      let b₂ = (Repository.save env db c s old.revision events b₁).1 in
      let (done, row, logged, told') =
        late_save b₂ old s s' more' events' rest holds ext.same_id ext' log log' short
          (up_max s'.id) up_flush in
      let b₃ = (save_over env db c s' old.revision events' (some (entity_to_model old)) b₂).1 in
      rw found (
        saved,
        done,
        ap (t.log b₃.db) (sym ext'.same_id) ∙ logged,
        told'
            ∙ ap (λ (es : List EventRow). es ++ map event_to_model events')
                (told
                  ∙ ap (λ (es : List EventRow). es ++ map event_to_model events) seen.same_outbox),
      )

  -- Two requests in a row have loaded the same stored version of a session and made later versions
  -- of it, the first with a valid log and another revision than the stored one, with an idle session
  -- object and queries and flushes that do not raise: the second save raises StaleRevisionError with
  -- both revisions, and the tables stay as the first left them.
  pub second_save_refused :
      (b : Backend D R) (old s s' : OnboardingSession) (more more' : List ConversationMessage)
      (events events' : List DomainEvent)
      → b.pending ≡ []
      → IsStored t b.db old
      → Extends old s more
      → Extends old s' more'
      → IsLog s.id 0 s.messages
      → s.revision ≢ old.revision
      → ((id : ℕ) (d : D) → ¬ (Fails (db.select_session id d).0))
      → ((id : ℕ) (d : D) → ¬ (Fails (db.select_max_sequence id d).0))
      → ((ps : List Pending) (d : D) → ¬ (Fails (db.flush ps d).0))
      → let (r, b') = Repository.save env db c s old.revision events b in
        let (r', b'') = Repository.save env db c s' old.revision events' b' in
        (r ≡ ok tt)
        × (r' ≡ err (stale env old.revision (pos s.revision)))
        × SameTables t b'.db b''.db
  unfolding entity_to_model
  second_save_refused b old s s' more more' events events' idle stored ext ext' log moved up up_max
        up_flush =
      let (saved, holds, told, rest) =
        save_stores env db c t laws b old s more events idle stored ext log (up s.id) (up_max s.id)
          (up_flush _) in
      let b' = (Repository.save env db c s old.revision events b).1 in
      let found : (db.select_session s'.id b'.db).0 ≡ ok (some (entity_to_model s)) =
        answered _ _ b'.db (laws.reads_session s'.id) (up s'.id b'.db)
        ∙ ap ok (ap (t.row b'.db) (ext'.same_id ∙ sym ext.same_id) ∙ holds.row) in
      rw (save_stale env db c b' s' old.revision events' (entity_to_model s) found moved)
        (saved, refl, (laws.reads_session s'.id b'.db).1)
