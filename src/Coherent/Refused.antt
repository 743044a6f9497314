-- ===== src/Coherent/Refused.antt =====
-- A `save` of app/infrastructure/db/repositories/session_repository.py that does not find the revision that
-- it expects.
use cognaris_chatbot.Prelude.{
  ℕ, ℤ, String, ◌≡◌, ◌≢◌, refl, sym, ◌⊎◌, inl, inr, Option, none, some, pos, negsuc, Outcome, ok,
  err, List,
}
use cognaris_chatbot.Python.{Env, TextLaws}
use cognaris_chatbot.Errors.{Error}
use cognaris_chatbot.Entities.{OnboardingSession}
use cognaris_chatbot.Events.{DomainEvent}
use cognaris_chatbot.Cache
use cognaris_chatbot.Cache.{Client, key}
use cognaris_chatbot.Cache.Laws.{ClientLaws, key-ne}
use cognaris_chatbot.Repository
use cognaris_chatbot.Repository.{Database, Backend, stale}
use cognaris_chatbot.Repository.Rows.{SessionRow}
use cognaris_chatbot.Repository.Save.{save_stale, save_missing}
use cognaris_chatbot.Repository.Tables.{Tables, SameTables, DatabaseLaws}
use cognaris_chatbot.Coherent.Entries.{invalidate_entries}

-- the revision that a StaleRevisionError names, -1 without a row
abbrev pub revision_of : Option SessionRow → ℤ
revision_of none = negsuc 0
revision_of (some row) = pos row.revision

module _ {D R Raw : Type 0} (env : Env) (texts : TextLaws env) (db : Database D) (c : Client R Raw)
    (t : Tables D) (laws : DatabaseLaws db t) (stored : R → String → Option Raw)
    (cache_laws : ClientLaws c stored) (b : Backend D R) (s : OnboardingSession) (expected : ℕ)
    (events : List DomainEvent) where
  -- what is left as it was: the tables, the queue, and the cache but for the entry of the session
  pub record IsUntouched (b' : Backend D R) : Type 0 where
    pub tables : SameTables t b.db b'.db
    pub queue : b'.pending ≡ b.pending
    pub others : (id : ℕ) → id ≢ s.id → stored b'.cache (key env id) ≡ stored b.cache (key env id)
    pub own :
        (stored b'.cache (key env s.id) ≡ stored b.cache (key env s.id))
        ⊎ (stored b'.cache (key env s.id) ≡ none)

  -- StaleRevisionError with the revision in the tables, or the exception of the query
  abbrev pub IsRefused : Option SessionRow → Outcome Error (Unit {0}) → Type 0
  IsRefused row r =
      (r ≡ err (stale env expected (revision_of row)))
      ⊎ ((e : Error) × (r ≡ err e) × ((db.select_session s.id b.db).0 ≡ err e))

  read_only : (d : D) → SameTables t b.db d → IsUntouched (record b { db = d })
  read_only d same = record { tables = same; queue = refl; others = λ id ne. refl; own = inl refl }

  invalidated_others :
      (id : ℕ)
      → id ≢ s.id
      → stored (Cache.invalidate env c s.id b.cache).1 (key env id) ≡ stored b.cache (key env id)
  unfolding Cache.invalidate
  invalidated_others id ne =
      cache_laws.delete_elsewhere _ _ b.cache (key-ne env texts s.id id (λ e. ne (sym e)))

  save-IsRefused :
      (row : Option SessionRow)
      → (db.select_session s.id b.db).0 ≡ ok row
      → ((found : SessionRow) → row ≡ some found → found.revision ≢ expected)
      → let (r, b') = Repository.save env db c s expected events b in
        IsRefused row r × IsUntouched b'
  save-IsRefused none missing other =
      rw (save_missing env db c b s expected events missing)
        (inl refl, read_only _ (laws.reads_session s.id b.db).1)
  save-IsRefused (some found) there other =
      rw (save_stale env db c b s expected events found there (other found refl)) (
        inl refl,
        record {
          tables = (laws.reads_session s.id b.db).1;
          queue = refl;
          others = invalidated_others;
          own = elim (invalidate_entries env texts c stored cache_laws s.id b.cache s.id) [
            | inl gone ↦ inr gone
            | inr same ↦ inl same
          ];
        },
      )

  save_raises :
      (e : Error)
      → (db.select_session s.id b.db).0 ≡ err e
      → let (r, b') = Repository.save env db c s expected events b in (r ≡ err e) × IsUntouched b'
  unfolding Repository.save
  save_raises e down = rw down (refl, read_only _ (laws.reads_session s.id b.db).1)

  -- Unless the tables hold a row of the session with the expected revision, `save` raises
  -- StaleRevisionError, with the revision that they hold or -1, or what the query raises; the tables and
  -- the queue of writes are as they were, and so is the cache, but for the entry of the session, which may
  -- be gone.
  pub save_refuses :
      ((row : SessionRow) → t.row b.db s.id ≡ some row → row.revision ≢ expected)
      → let (r, b') = Repository.save env db c s expected events b in
        IsRefused (t.row b.db s.id) r × IsUntouched b'
  save_refuses other = elim ((laws.reads_session s.id b.db).0) [
    | inl found ↦ save-IsRefused (t.row b.db s.id) found other
    | inr (e, down) ↦ let (raised, kept) = save_raises e down in (inr (e, raised, down), kept)
  ]
