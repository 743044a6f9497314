-- ===== src/Repository/Coherence.antt =====
-- How the two stores of app/infrastructure/db/repositories/session_repository.py agree: what `get` answers
-- after a `save`, and after one that was refused.
use cognaris_chatbot.Prelude.{
  ℕ, String, ◌≡◌, ◌≢◌, refl, sym, ◌∙◌, ap, inl, inr, ok, err, Fails, some, none, Option, List, [],
  arith, pos,
}
use cognaris_chatbot.Python.{Env, TextLaws}
use cognaris_chatbot.Entities.{OnboardingSession, ConversationMessage}
use cognaris_chatbot.Entities.Invariant.{IsLog}
use cognaris_chatbot.Events.{DomainEvent}
use cognaris_chatbot.Cache
use cognaris_chatbot.Cache.{Client, key}
use cognaris_chatbot.Cache.Json.{serialize}
use cognaris_chatbot.Cache.Laws.{ClientLaws, IsStorable, reset_ttl, get_hit, get_miss}
use cognaris_chatbot.Repository
use cognaris_chatbot.Repository.{Database, Backend, Pending, or_load, stale}
use cognaris_chatbot.Repository.Load.{IsStored, get_from_database}
use cognaris_chatbot.Repository.Rows.{entity_to_model}
use cognaris_chatbot.Repository.Save.{Extends, writes, save_writes, save_stale}
use cognaris_chatbot.Repository.Tables.{Tables, DatabaseLaws, answered}

-- a session that the cache has
pub get_cached :
    {D R Raw : Type 0} (env : Env) (db : Database D) (c : Client R Raw) (b : Backend D R) (id : ℕ)
    (s : OnboardingSession)
    → (Cache.get env c id b.cache).0 ≡ ok (some s)
    → Repository.get env db c id b
      ≡ (ok (some s), record b { cache = (Cache.get env c id b.cache).1 })
unfolding Repository.get or_load
get_cached env db c b id s h = ground (arith, h)

-- a SET that does not raise
pub set_stores :
    {R Raw : Type 0} (env : Env) (c : Client R Raw) (stored : R → String → Option Raw)
    → ClientLaws c stored
    → (s : OnboardingSession) (r : R)
    → ¬ (Fails (c.client_set (key env s.id) (c.dumps (serialize env s)) c.session_ttl_seconds r).0)
    → stored (Cache.set env c s r).1 (key env s.id) ≡ some (c.dumps (serialize env s))
unfolding Cache.set
set_stores env c stored laws s r up = elim (laws.set_writes _ _ _ r) [
  | inl e ↦ e
  | inr (_, failed) ↦ absurd (up failed)
]

module _ {D R Raw : Type 0} (env : Env) (texts : TextLaws env) (db : Database D) (c : Client R Raw)
    (t : Tables D) (laws : DatabaseLaws db t) (stored : R → String → Option Raw)
    (cache_laws : ClientLaws c stored)
    (gets : (k : String) (r : R) → ¬ (Fails (c.client_get k r).0)) where
  -- A session that is saved is the one that the next `get` answers with, but for the TTL: over
  -- tables that hold its old version, with a storable new version, an idle database session, and
  -- queries, a flush, a GET and a SET that do not raise.
  pub get_after_save :
      (b : Backend D R) (old s : OnboardingSession) (more : List ConversationMessage)
      (events : List DomainEvent)
      → b.pending ≡ []
      → IsStored t b.db old
      → Extends old s more
      → IsStorable s
      → ((d : D) → ¬ (Fails (db.select_session s.id d).0))
      → ((d : D) → ¬ (Fails (db.select_max_sequence s.id d).0))
      → ((d : D) → ¬ (Fails (db.flush (writes s more events) d).0))
      → ((k : String) (v : Raw) (ttl : ℕ) (r : R) → ¬ (Fails (c.client_set k v ttl r).0))
      → let (r, b') = Repository.save env db c s old.revision events b in
        (r ≡ ok tt) × ((Repository.get env db c s.id b').0 ≡ ok (some (reset_ttl s)))
  get_after_save b old s more events idle holds ext fit up up_max up_flush sets =
      let (_, _, _, ran) =
        save_writes env db c t laws b old s more events idle holds ext fit.log up up_max up_flush in
      let b' = (Repository.save env db c s old.revision events b).1 in
      let entry : stored b'.cache (key env s.id) ≡ some (c.dumps (serialize env s)) =
        ap (λ p. stored (p.1.cache) (key env s.id)) ran
        ∙ set_stores env c stored cache_laws s b.cache (sets _ _ _ _) in
      let hit = get_hit env c stored texts cache_laws s b'.cache fit entry (gets _ _) in
      (
        ap (λ p. p.0) ran,
        ap (λ p. p.0) (get_cached env db c b' s.id (reset_ttl s) (ap (λ p. p.0) hit)),
      )

  -- The entry of a session is dropped when a save of it is refused, so the next look misses it.
  pub get-invalidate :
      (s : OnboardingSession) (id : ℕ) (r : R)
      → id ≡ s.id
      → ((k : String) (r : R) → ¬ (Fails (c.client_delete k r).0))
      → (Cache.get env c s.id (Cache.invalidate env c id r).1).0 ≡ ok none
  unfolding Cache.invalidate
  get-invalidate s id r same deletes =
      let gone : stored (Cache.invalidate env c id r).1 (key env s.id) ≡ none =
        ap (λ i. stored (Cache.invalidate env c id r).1 (key env i)) (sym same)
        ∙ deleted id r (deletes _ _) in
      ap (λ p. p.0) (get_miss env c stored texts cache_laws s.id _ gone (gets _ _))
    where
      deleted :
          (i : ℕ) (r' : R)
          → ¬ (Fails (c.client_delete (key env i) r').0)
          → stored (c.client_delete (key env i) r').1 (key env i) ≡ none
      deleted i r' up = elim (cache_laws.delete_removes (key env i) r') [
        | inl e ↦ e
        | inr (_, failed) ↦ absurd (up failed)
      ]

  -- After a save that was refused for its revision, the next `get` of the session answers with the stored
  -- version, whatever the cache held before: when no query and no cache call raises.
  get_after_stale :
      (b : Backend D R) (s s' : OnboardingSession) (expected : ℕ) (events : List DomainEvent)
      → IsStored t b.db s
      → IsLog s.id 0 s.messages
      → s'.id ≡ s.id
      → s.revision ≢ expected
      → ((id : ℕ) (d : D) → ¬ (Fails (db.select_session id d).0))
      → ((id : ℕ) (d : D) → ¬ (Fails (db.select_messages id d).0))
      → ((k : String) (r : R) → ¬ (Fails (c.client_delete k r).0))
      → let (r, b') = Repository.save env db c s' expected events b in
        (r ≡ err (stale env expected (pos s.revision)))
        × ((Repository.get env db c s.id b').0 ≡ ok (some (reset_ttl s)))
  unfolding entity_to_model Cache.invalidate
  get_after_stale b s s' expected events holds log same moved up up_messages deletes =
      let found : (db.select_session s'.id b.db).0 ≡ ok (some (entity_to_model s)) =
        answered _ _ b.db (laws.reads_session s'.id) (up s'.id b.db)
        ∙ ap ok (ap (t.row b.db) same ∙ holds.row) in
      let seen = (laws.reads_session s'.id b.db).1 in
      let b' = record b {
        db = (db.select_session s'.id b.db).1;
        cache = (Cache.invalidate env c s'.id b.cache).1;
      } in
      let (got, _, _) =
        get_from_database env db c t laws s b' log
          (record { row = seen.same_row s.id ∙ holds.row; log = seen.same_log s.id ∙ holds.log })
          (get-invalidate s s'.id b.cache same deletes) (up s.id) (up_messages s.id) in
      rw (save_stale env db c b s' expected events (entity_to_model s) found moved) (refl, got)
