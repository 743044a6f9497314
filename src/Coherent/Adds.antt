-- ===== src/Coherent/Adds.antt =====
-- `add` of app/infrastructure/db/repositories/session_repository.py, over tables and a cache that agree,
-- whatever raises.
use cognaris_chatbot.Prelude.{
  String, ◌≡◌, refl, sym, ◌∙◌, ap, subst, inl, inr, Option, none, ok, arith, List, [], ◌++◌, Fails,
  map,
}
use cognaris_chatbot.Python.{Env, TextLaws}
use cognaris_chatbot.Entities.{OnboardingSession}
use cognaris_chatbot.Events.{DomainEvent}
use cognaris_chatbot.Cache.{Client, key}
use cognaris_chatbot.Cache.Laws.{ClientLaws}
use cognaris_chatbot.Repository
use cognaris_chatbot.Repository.{
  insert_session, Database, Backend, Pending, update_session, unsaved, event_inserts,
}
use cognaris_chatbot.Repository.Add.{inserts, add_run, add_stores}
use cognaris_chatbot.Repository.Load.{IsStored}
use cognaris_chatbot.Repository.Rows.{MessageRow, entity_to_model, message_entity_to_model}
use cognaris_chatbot.Repository.Tables.{Tables, DatabaseLaws}
use cognaris_chatbot.Coherent.{IsGood, AllAgree, AllHeld, Ends}
use cognaris_chatbot.Coherent.Writes.{add_cases, WritesOne, written-Ends, row_other, log_other}

module _ {D R Raw : Type 0} (env : Env) (texts : TextLaws env) (db : Database D) (c : Client R Raw)
    (t : Tables D) (laws : DatabaseLaws db t) (stored : R → String → Option Raw)
    (cache_laws : ClientLaws c stored) where
  -- Whatever raises: an `add` of a session under an unused identifier leaves a cache that agrees with the
  -- tables as they were; and unless it raises, well-formed tables that agree with the cache.
  pub add-Ends :
      (b : Backend D R) (s : OnboardingSession) (events : List DomainEvent)
      → b.pending ≡ []
      → AllHeld t b.db
      → AllAgree env c stored t b.db b.cache
      → t.row b.db s.id ≡ none
      → t.log b.db s.id ≡ []
      → stored b.cache (key env s.id) ≡ none
      → IsGood s
      → let (r, b') = Repository.add env db c s events b in Ends env c stored t b.db r b'
  unfolding entity_to_model
  add-Ends b s events idle held agree empty no_log gone good =
      elim (add_cases env db c b s events idle) [
        | inl (raised, kept) ↦ record {
          before = subst (AllAgree env c stored t b.db) (sym kept) agree;
          after = inl raised;
        }
        | inr flushed ↦ rw (add_run env db c b s events idle flushed) (
            written-Ends env texts c stored cache_laws t b.db (db.flush (inserts s events) b.db).1 s
              b.cache good (one flushed) agree tt held (inl gone))
      ]
    where
      one :
          (db.flush (inserts s events) b.db).0 ≡ ok tt
          → WritesOne t b.db (db.flush (inserts s events) b.db).1 s
      one flushed =
          let stored_now =
            subst (λ p. IsStored t p.1.db s) (add_run env db c b s events idle flushed)
              ((add_stores env db c t laws b s events idle no_log good.valid.log
                (λ f. subst Fails flushed f)).1) in
          record {
            rows_stay = λ id other.
                row_other t laws (insert_session (entity_to_model s)) s.id s.messages events 0 id
                  good.valid.log other b.db flushed (ground arith);
            logs_stay = λ id other.
                log_other t laws (insert_session (entity_to_model s)) s.id s.messages events 0 id
                  good.valid.log other b.db flushed refl;
            holds = (stored_now.row, stored_now.log);
            grows = (
              map message_entity_to_model s.messages,
              stored_now.log
                  ∙ ap (λ (rows : List MessageRow). rows ++ map message_entity_to_model s.messages)
                      (sym no_log),
            );
            newer = λ found e. cc (e, empty);
          }
