-- ===== src/Coherent/Saves.antt =====
-- `save` of app/infrastructure/db/repositories/session_repository.py, over tables and a cache that
-- agree, whatever raises.
use mathlib.Core.List.{map-append}
use cognaris_chatbot.Prelude.{
  ◌+◌, ℤ, String, ◌≡◌, refl, sym, ◌∙◌, ap, subst, ◌⊎◌, inl, inr, Option, some, Outcome, ok, err,
  arith, List, [], ◌∷◌, ◌++◌, map, ◌<◌, length,
}
use cognaris_chatbot.Python.{Env, TextLaws}
use cognaris_chatbot.Errors.{Error}
use cognaris_chatbot.Entities.{OnboardingSession, ConversationMessage}
use cognaris_chatbot.Entities.Invariant.{IsLog, IsLog-front, IsLog-back}
use cognaris_chatbot.Events.{DomainEvent}
use cognaris_chatbot.Cache
use cognaris_chatbot.Cache.{Client, key}
use cognaris_chatbot.Cache.Laws.{ClientLaws}
use cognaris_chatbot.Repository
use cognaris_chatbot.Repository.{
  insert_session, Database, Backend, Pending, update_session, unsaved, event_inserts,
}
use cognaris_chatbot.Repository.Rows.{
  SessionRow, MessageRow, entity_to_model, apply_entity_to_model, message_entity_to_model,
}
use cognaris_chatbot.Repository.Save.{
  Extends, writes, save_run, row_written, log_written, queued_writes,
}
use cognaris_chatbot.Repository.Tables.{
  Tables, SameTables, SameTables-trans, DatabaseLaws, max_sequence,
}
use cognaris_chatbot.Repository.Writes.{last_of, max_sequence-log}
use cognaris_chatbot.Coherent.{IsGood, Holds, IsCurrent, AllAgree, AllHeld, Ends}
use cognaris_chatbot.Coherent.Entries.{shrinks-AllAgree, invalidate_entries}
use cognaris_chatbot.Coherent.Reads.{some-inj, ok-inj}
use cognaris_chatbot.Coherent.Writes.{
  save_cases, WritesOne, IsOlder, revision_held, written-Ends, row_other, log_other,
}

-- what a query that has returned has read
has_read :
    {E A : Type 0} {r : Outcome E A} {a b : A}
    → (r ≡ ok a) ⊎ ((e : E) × (r ≡ err e))
    → r ≡ ok b
    → a ≡ b
has_read (inl e) e' = ok-inj (sym e ∙ e')
has_read (inr (x, e)) e' = cc (e, e')

module _ {D : Type 0} {db : Database D} (t : Tables D) (laws : DatabaseLaws db t)
    (old s : OnboardingSession) (more : List ConversationMessage) (events : List DomainEvent)
    (ext : Extends old s more) (good : IsGood s) (later : old.revision < s.revision) where
  extended-IsLog : IsLog s.id 0 (old.messages ++ more)
  extended-IsLog = subst (IsLog s.id 0) ext.grown good.valid.log

  -- the writes of a `save` over the version before it
  writes-WritesOne :
      (d₀ d : D)
      → SameTables t d₀ d
      → Holds old (t.row d₀ s.id) (t.log d₀ s.id)
      → (db.flush (writes s more events) d).0 ≡ ok tt
      → WritesOne t d₀ (db.flush (writes s more events) d).1 s
  unfolding entity_to_model
  writes-WritesOne d₀ d same holds flushed = record {
    rows_stay = λ id other.
        row_other t laws (update_session (entity_to_model s)) s.id more events _ id back other d
          flushed (ground arith)
        ∙ same.same_row id;
    logs_stay = λ id other.
        log_other t laws (update_session (entity_to_model s)) s.id more events _ id back other d
          flushed refl
        ∙ same.same_log id;
    holds = (
      row_written t laws s old.messages more events d flushed,
      logged ∙ ap (map message_entity_to_model) (sym ext.grown),
    );
    grows = (
      map message_entity_to_model more,
      logged
          ∙ map-append message_entity_to_model old.messages more
          ∙ ap (λ (rows : List MessageRow). rows ++ map message_entity_to_model more) (sym holds.1),
    );
    newer = λ found e. omega (arith, revision_held old found e holds, later);
  }
    where
      back : IsLog s.id (0 + length old.messages) more
      back = IsLog-back s.id 0 old.messages more extended-IsLog

      logged :
          t.log (db.flush (writes s more events) d).1 s.id
          ≡ map message_entity_to_model (old.messages ++ more)
      logged =
          log_written t laws s old.messages more events d flushed (same.same_log s.id ∙ holds.1)
            extended-IsLog

module _ {D R Raw : Type 0} (env : Env) (texts : TextLaws env) (db : Database D) (c : Client R Raw)
    (t : Tables D) (laws : DatabaseLaws db t) (stored : R → String → Option Raw)
    (cache_laws : ClientLaws c stored) where
  -- Whatever raises: a `save` of a later version of a session that is current leaves a cache that agrees with
  -- the tables as they were; and unless it raises, well-formed tables that agree with the cache.
  pub save-Ends :
      (d₀ : D) (b : Backend D R) (old s : OnboardingSession) (more : List ConversationMessage)
      (events : List DomainEvent)
      → SameTables t d₀ b.db
      → b.pending ≡ []
      → AllHeld t d₀
      → AllAgree env c stored t d₀ b.cache
      → IsCurrent old (t.row d₀ s.id) (t.log d₀ s.id)
      → IsOlder env texts c stored cache_laws t s b.cache
      → Extends old s more
      → IsGood s
      → old.revision < s.revision
      → let (r, b') = Repository.save env db c s old.revision events b in
        Ends env c stored t d₀ r b'
  unfolding entity_to_model
  save-Ends d₀ b old s more events same idle held agree current older ext good later =
      elim (save_cases env db c b s old.revision events idle) [
        | inl stops ↦ record {
          before = elim stops.dropped [
            | inl e ↦ subst (AllAgree env c stored t d₀) (sym e) agree
            | inr e ↦ subst (AllAgree env c stored t d₀) (sym e) (
                shrinks-AllAgree env texts c stored cache_laws t d₀ b.cache _
                  (invalidate_entries env texts c stored cache_laws s.id b.cache) agree)
          ];
          after = inl stops.raised;
        }
        | inr (row, z, found, revision, last, flushed) ↦ returns row z found revision last flushed
      ]
    where
      d₁ : D
      d₁ = (db.select_session s.id b.db).1

      d₂ : D
      d₂ = (db.select_max_sequence s.id d₁).1

      seen : SameTables t d₀ d₂
      seen =
          SameTables-trans t same
            (SameTables-trans t (laws.reads_session s.id b.db).1 (laws.reads_max s.id d₁).1)

      ended : List Pending → Outcome Error (Unit {0}) × Backend D R
      ended ps = (
        ok tt,
        record { db = (db.flush ps d₂).1; pending = []; cache = (Cache.set env c s b.cache).1 },
      )

      returns :
          (row : SessionRow) (z : ℤ)
          → (db.select_session s.id b.db).0 ≡ ok (some row)
          → row.revision ≡ old.revision
          → (db.select_max_sequence s.id d₁).0 ≡ ok z
          → (db.flush
              ((update_session (apply_entity_to_model s row) ∷ unsaved z s.messages)
                ++ event_inserts events)
              d₂).0
            ≡ ok tt
          → let (r, b') = Repository.save env db c s old.revision events b in
            Ends env c stored t d₀ r b'
      returns row z found revision last flushed =
          let there : t.row d₀ s.id ≡ some row =
            sym (same.same_row s.id) ∙ has_read ((laws.reads_session s.id b.db).0) found in
          let holds = current row there revision in
          let is_row : row ≡ entity_to_model old = some-inj (sym there ∙ holds.0) in
          let log = extended-IsLog t laws old s more events ext good later in
          let logged : t.log d₁ s.id ≡ map message_entity_to_model old.messages =
            (laws.reads_session s.id b.db).1.same_log s.id ∙ same.same_log s.id ∙ holds.1 in
          let is_last : z ≡ last_of (length old.messages) =
            sym (has_read ((laws.reads_max s.id d₁).0) last)
            ∙ ap max_sequence logged
            ∙ max_sequence-log s.id old.messages (IsLog-front s.id 0 old.messages more log) in
          let sent : (update_session (apply_entity_to_model s row) ∷ unsaved z s.messages)
                ++ event_inserts events
              ≡ writes s more events =
            rw (is_row, is_last) (queued_writes old s more events ext log) in
          let flushed' : (db.flush (writes s more events) d₂).0 ≡ ok tt =
            subst (λ ps. (db.flush ps d₂).0 ≡ ok tt) sent flushed in
          let ran =
            subst
              (λ n.
                Repository.save env db c s n events b
                ≡ ended (
                    (update_session (apply_entity_to_model s row) ∷ unsaved z s.messages)
                    ++ event_inserts events))
              revision (save_run env db c b s events row z idle found last flushed) in
          let ran' =
            subst (λ ps. Repository.save env db c s old.revision events b ≡ ended ps) sent ran in
          rw ran' (
            written-Ends env texts c stored cache_laws t d₀ (db.flush (writes s more events) d₂).1 s
              b.cache good
              (writes-WritesOne t laws old s more events ext good later d₀ d₂ seen holds flushed')
              agree tt held older)
