-- ===== src/Coherent/Writes.antt =====
-- What `save` and `add` of app/infrastructure/db/repositories/session_repository.py leave in tables and a
-- cache that agree, whatever raises.
use cognaris_chatbot.Prelude.{
  Outcome-cases, ℕ, ℤ, String, ◌≡◌, refl, sym, ◌∙◌, ap, subst, ◌⊎◌, inl, inr, Option, none, some,
  Outcome, ok, arith, List, [], ◌∷◌, ◌++◌, Fails, Bool-cases, ◌==◌, ◌<◌, false,
}
use cognaris_chatbot.Python.{Env, TextLaws}
use cognaris_chatbot.Errors.{Error}
use cognaris_chatbot.Entities.{OnboardingSession, ConversationMessage}
use cognaris_chatbot.Entities.Invariant.{IsLog}
use cognaris_chatbot.Events.{DomainEvent}
use cognaris_chatbot.Cache
use cognaris_chatbot.Coherent.{IsGood, Holds, Agrees, AllAgree, AllHeld, Ends}
use cognaris_chatbot.Repository.Interleaving.Statement.{HasGrown}
use mathlib.Core.List.{append-nil}
use cognaris_chatbot.Coherent.Entries.{set-AllAgree}
use cognaris_chatbot.Coherent.Reads.{some-inj}
use cognaris_chatbot.Repository.{message_inserts}
use cognaris_chatbot.Repository.Tables.{row_after, log_after}
use cognaris_chatbot.Repository.Writes.{
  row_after-append, row_after-event_inserts, row_after-message_inserts, log_after-append,
  log_after-event_inserts, log_after-other,
}
use cognaris_chatbot.Cache.{Client, key}
use cognaris_chatbot.Cache.Json.{serialize}
use cognaris_chatbot.Cache.Laws.{ClientLaws}
use cognaris_chatbot.Repository
use cognaris_chatbot.Repository.{
  Database, Backend, Pending, save_over, update_session, unsaved, event_inserts, flush_new,
  map_integrity,
}
use cognaris_chatbot.Repository.Add.{inserts}
use cognaris_chatbot.Repository.Rows.{
  SessionRow, MessageRow, entity_to_model, apply_entity_to_model,
}
use cognaris_chatbot.Repository.Tables.{Tables, DatabaseLaws}

module _ {D R Raw : Type 0} (env : Env) (db : Database D) (c : Client R Raw) where
  pub record Stops (id : ℕ) (b : Backend D R) (r : Outcome Error (Unit {0})) (b' : Backend D R)
      : Type 0 where
    pub raised : Fails r
    pub dropped : (b'.cache ≡ b.cache) ⊎ (b'.cache ≡ (Cache.invalidate env c id b.cache).1)

  -- How `save` ends: it raises and at most drops the entry, or everything has returned.
  pub save_cases :
      (b : Backend D R) (s : OnboardingSession) (expected : ℕ) (events : List DomainEvent)
      → b.pending ≡ []
      → let (r, b') = Repository.save env db c s expected events b in
        let d = (db.select_session s.id b.db).1 in
        let d' = (db.select_max_sequence s.id d).1 in
        Stops s.id b r b'
        ⊎ ((row : SessionRow) × (z : ℤ) × ((db.select_session s.id b.db).0 ≡ ok (some row))
            × (row.revision ≡ expected)
            × ((db.select_max_sequence s.id d).0 ≡ ok z)
            × ((db.flush
                  ((update_session (apply_entity_to_model s row) ∷ unsaved z s.messages)
                    ++ event_inserts events)
                  d').0
                ≡ ok tt))
  unfolding Repository.save save_over Cache.set Cache.invalidate
  save_cases b s expected events idle =
      let d = (db.select_session s.id b.db).1 in
      let d' = (db.select_max_sequence s.id d).1 in
      elim (Outcome-cases (db.select_session s.id b.db).0) [
        | inr (e, down) ↦ inl (rw down (record { raised = tt; dropped = inl refl }))
        | inl (none, found) ↦ inl (rw found (record { raised = tt; dropped = inl refl }))
        | inl (some row, found) ↦ elim (Bool-cases (row.revision == expected)) [
          | inr other ↦ inl (rw (found, other) (record { raised = tt; dropped = inr refl }))
          | inl current ↦ elim (Outcome-cases (db.select_max_sequence s.id d).0) [
            | inr (e, down) ↦
                inl (rw (found, current, down) (record { raised = tt; dropped = inl refl }))
            | inl (z, last) ↦
                let ps =
                  (update_session (apply_entity_to_model s row) ∷ unsaved z s.messages)
                  ++ event_inserts events in
                elim (Outcome-cases (db.flush ps d').0) [
                  | inr (e, down) ↦ inl (
                      rw (found, current, last, idle, down)
                        (record { raised = tt; dropped = inl refl }))
                  | inl (_, flushed) ↦ inr (row, z, found, ground arith, last, flushed)
                ]
          ]
        ]
      ]

  pub add_cases :
      (b : Backend D R) (s : OnboardingSession) (events : List DomainEvent)
      → b.pending ≡ []
      → let (r, b') = Repository.add env db c s events b in
        (Fails r × (b'.cache ≡ b.cache)) ⊎ ((db.flush (inserts s events) b.db).0 ≡ ok tt)
  unfolding Repository.add flush_new map_integrity Cache.set
  add_cases b s events idle = elim (Outcome-cases (db.flush (inserts s events) b.db).0) [
    | inr (e, down) ↦ inl (ground (arith, idle, down), ground (arith, idle, down))
    | inl (_, flushed) ↦ inr flushed
  ]

pub revision_held :
    (s : OnboardingSession) (found : SessionRow) {row : Option SessionRow} {log : List MessageRow}
    → row ≡ some found
    → Holds s row log
    → found.revision ≡ s.revision
unfolding entity_to_model
revision_held s found e holds = ap (λ (x : SessionRow). x.revision) (some-inj (sym e ∙ holds.0))

-- One session is written: the others stay, and its log grows.
pub record WritesOne {D : Type 0} (t : Tables D) (d d' : D) (s : OnboardingSession) : Type 0 where
  pub rows_stay : (id : ℕ) → (s.id == id) ≡ false → t.row d' id ≡ t.row d id
  pub logs_stay : (id : ℕ) → (s.id == id) ≡ false → t.log d' id ≡ t.log d id
  pub holds : Holds s (t.row d' s.id) (t.log d' s.id)
  pub grows : (more : List MessageRow) × (t.log d' s.id ≡ t.log d s.id ++ more)
  pub newer : (found : SessionRow) → t.row d s.id ≡ some found → found.revision < s.revision

module _ {D R Raw : Type 0} (env : Env) (texts : TextLaws env) (c : Client R Raw)
    (stored : R → String → Option Raw) (cache_laws : ClientLaws c stored) (t : Tables D) where
  -- the entry of the session is gone, or that of an older version
  abbrev pub IsOlder : OnboardingSession → R → Type 0
  IsOlder s r =
      (stored r (key env s.id) ≡ none)
      ⊎ ((old : OnboardingSession) × (old.id ≡ s.id)
          × IsGood old
          × (stored r (key env s.id) ≡ some (c.dumps (serialize env old)))
          × (old.revision < s.revision))

  module _ (d d' : D) (s : OnboardingSession) (r : R) (good : IsGood s) (one : WritesOne t d d' s)
      (agree : AllAgree env c stored t d r) where
    written-AllHeld : AllHeld t d → AllHeld t d'
    written-AllHeld held id = elim (Bool-cases (s.id == id)) [
      | inl same ↦ inr (
        s,
        ground arith,
        good,
        subst (λ i. Holds s (t.row d' i) (t.log d' i)) (ground arith) one.holds,
      )
      | inr other ↦ rw (one.rows_stay id other, one.logs_stay id other) (held id)
    ]

    written-HasGrown : HasGrown t d d'
    written-HasGrown id = elim (Bool-cases (s.id == id)) [
      | inl same ↦
          subst (λ i. (more : List MessageRow) × (t.log d' i ≡ t.log d i ++ more)) (ground arith)
            one.grows
      | inr other ↦ ([], one.logs_stay id other ∙ sym (append-nil (t.log d id)))
    ]

    -- the cache before the `set`, beside the tables after the write
    older-AllAgree : IsOlder s r → AllAgree env c stored t d' r
    older-AllAgree older id = elim (Bool-cases (s.id == id)) [
      | inl same ↦
          subst (λ i. Agrees env c i (t.row d' i) (t.log d' i) (stored r (key env i)))
            (ground arith) own
      | inr other ↦ rw (one.rows_stay id other, one.logs_stay id other) (agree id)
    ]
      where
        own : Agrees env c s.id (t.row d' s.id) (t.log d' s.id) (stored r (key env s.id))
        own = elim older [
          | inl gone ↦ inl gone
          | inr (old, same, good', entry, lt) ↦ inr (
            old,
            same,
            good',
            entry,
            λ found e rev. absurd (omega (arith, revision_held s found e one.holds, rev, lt)),
          )
        ]

    -- the end of a `save` or an `add` that returns
    pub written-Ends :
        {A : Type 0} (a : A)
        → AllHeld t d
        → IsOlder s r
        → Ends env c stored t d
            (ok a)
            (record { db = d'; pending = []; cache = (Cache.set env c s r).1 })
    written-Ends a held older = record {
      before =
          set-AllAgree env texts c stored cache_laws t d s r good
            (λ found e rev. absurd (omega (arith, one.newer found e, rev))) agree;
      after = inr (
        written-AllHeld held,
        set-AllAgree env texts c stored cache_laws t d' s r good (λ _ _ _. one.holds)
            (older-AllAgree older),
        written-HasGrown,
      );
    }

-- the rows of other sessions, after the first write `op` for a session, its messages and the events
module _ {D : Type 0} {db : Database D} (t : Tables D) (laws : DatabaseLaws db t) (op : Pending)
    (own : ℕ) (more : List ConversationMessage) (events : List DomainEvent) (k id : ℕ)
    (log : IsLog own k more) (other : (own == id) ≡ false) (d : D)
    (flushed : (db.flush ((op ∷ message_inserts more) ++ event_inserts events) d).0 ≡ ok tt) where
  abbrev pub flushed_db : D
  flushed_db = (db.flush ((op ∷ message_inserts more) ++ event_inserts events) d).1

  pub row_other :
      row_after (op ∷ []) id (t.row d id) ≡ t.row d id → t.row flushed_db id ≡ t.row d id
  row_other apart =
      laws.flush_writes_row ((op ∷ message_inserts more) ++ event_inserts events) d id flushed
      ∙ row_after-append id (op ∷ message_inserts more) (event_inserts events) _
      ∙ row_after-event_inserts id events _
      ∙ row_after-append id (op ∷ []) (message_inserts more) _
      ∙ row_after-message_inserts id more _
      ∙ apart

  pub log_other :
      log_after (op ∷ []) id (t.log d id) ≡ t.log d id → t.log flushed_db id ≡ t.log d id
  log_other silent =
      laws.flush_writes_log ((op ∷ message_inserts more) ++ event_inserts events) d id flushed
      ∙ log_after-append id (op ∷ message_inserts more) (event_inserts events) _
      ∙ log_after-event_inserts id events _
      ∙ log_after-append id (op ∷ []) (message_inserts more) _
      ∙ ap (log_after (message_inserts more) id) silent
      ∙ log_after-other own id k more (t.log d id) log other
