-- ===== src/Service/Conflict.antt =====
-- A turn of app/domain/onboarding/service.py in a session of which the cache holds another version than the
-- tables, over app/infrastructure/db/repositories/session_repository.py.
use Prim.Native.String.{◌++◌ as append_text}
use cognaris_chatbot.Prelude.{
  ℕ, suc, ◌<◌, ◌≤◌, ◌≡◌, ◌≢◌, sym, ◌∙◌, ap, false, String, count, Option, none, some, arith, ok,
  err, Fails, pos,
}
use cognaris_chatbot.Python.{Env, Fields, TextLaws}
use cognaris_chatbot.Enums.{user, assistant, in_terminal_states}
use cognaris_chatbot.Errors.{Error}
use cognaris_chatbot.Entities.{ConversationMessage, OnboardingSession}
use cognaris_chatbot.Entities.Message.{is_refused}
use cognaris_chatbot.Entities.Commands.{append_message_succeeds}
use cognaris_chatbot.Entities.Invariant.{IsLog}
use cognaris_chatbot.Cache
use cognaris_chatbot.Cache.{Client}
use cognaris_chatbot.Cache.Laws.{ClientLaws, reset_ttl}
use cognaris_chatbot.Repository
use cognaris_chatbot.Repository.{Database, Backend, SessionRepository, pg_session_repository, stale}
use cognaris_chatbot.Repository.Coherence.{get_cached, get-invalidate}
use cognaris_chatbot.Repository.Load.{IsStored, get_from_database}
use cognaris_chatbot.Repository.Rows.{entity_to_model}
use cognaris_chatbot.Repository.Save.{save_stale}
use cognaris_chatbot.Repository.Tables.{Tables, SameTables, DatabaseLaws, answered}
use cognaris_chatbot.Service.{System, echo_prefix, record_turn, handle_user_message}
use cognaris_chatbot.Service.Calls.{
  IsBrisk, later, user_turn, after_user, assistant_turn, after_assistant, converse_run, stays_open,
  echo_fits,
}
use cognaris_chatbot.Service.Stored.{turn_events, handle_user_message_run}

record_turn_fails :
    {X : Type 0} (env : Env) (repo : SessionRepository X) (s : OnboardingSession) (revision : ℕ)
    (m m' : ConversationMessage) (sys : System X) (e : Error)
    → let saved = repo.save s revision (turn_events env s m m' sys.world) sys.store in
      saved.0 ≡ err e
      → ((record_turn env repo s revision m m' sys).0 ≡ err e)
        × ((record_turn env repo s revision m m' sys).1.store ≡ saved.1)
unfolding record_turn
record_turn_fails env repo s revision m m' sys e h = ground (arith, h)

module _ {D R Raw : Type 0} (env : Env) (texts : TextLaws env) (db : Database D) (c : Client R Raw)
    (t : Tables D) (laws : DatabaseLaws db t) (stored : R → String → Option Raw)
    (cache_laws : ClientLaws c stored)
    (gets : (k : String) (r : R) → ¬ (Fails (c.client_get k r).0))
    (deletes : (k : String) (r : R) → ¬ (Fails (c.client_delete k r).0))
    (up : (id : ℕ) (d : D) → ¬ (Fails (db.select_session id d).0))
    (up_messages : (id : ℕ) (d : D) → ¬ (Fails (db.select_messages id d).0)) where
  abbrev repo : SessionRepository (Backend D R)
  repo = pg_session_repository env db c

  -- what the refused turn leaves: the entry is dropped, and nothing else happens
  abbrev pub refused_store : OnboardingSession → Backend D R → Backend D R
  refused_store s b = record b {
    db = (db.select_session s.id b.db).1;
    cache = (Cache.invalidate env c s.id (Cache.get env c s.id b.cache).1).1;
  }

  pub stale_turn_run :
      (sys : System (Backend D R)) (s s' : OnboardingSession) (content : String)
      (rich_payload : Option Fields)
      → (Cache.get env c s.id sys.store.cache).0 ≡ ok (some s)
      → IsStored t sys.store.db s'
      → s'.id ≡ s.id
      → s'.revision ≢ s.revision
      → in_terminal_states s.state ≡ false
      → env.now_at sys.world.readings < s.expires_at
      → env.now_at (suc sys.world.readings) < s.expires_at
      → IsBrisk env s.ttl
      → is_refused content rich_payload ≡ false
      → count content ≤ 7979
      → let (r, sys') = handle_user_message env repo s.id content rich_payload sys in
        (r ≡ err (stale env s.revision (pos s'.revision)))
        × (sys'.store ≡ refused_store s sys.store)
  unfolding entity_to_model
  stale_turn_run sys s s' content rich_payload cached holds same moved alive live live' brisk fits
        short =
      let got = get_cached env db c sys.store s.id s cached in
      let b = record sys.store { cache = (Cache.get env c s.id sys.store.cache).1 } in
      let sys₁ = record sys { store = b } in
      let m = user_turn env repo sys₁ s content rich_payload in
      let m' = assistant_turn env repo sys₁ s content rich_payload in
      let l2 = after_assistant env repo sys₁ s content rich_payload in
      let es = turn_events env l2.session m m' l2.world in
      let ran =
        converse_run env repo sys₁ s content rich_payload _ _ _ _ live
          (append_message_succeeds env user content rich_payload none
            (record { session = s; world = later env repo sys₁ }) alive live' fits)
          (append_message_succeeds env assistant (append_text echo_prefix content) none none
            (after_user env repo sys₁ s content rich_payload)
            (stays_open env repo sys₁ s content rich_payload alive) (brisk _)
            (echo_fits content (omega arith))) in
      let found : (db.select_session s.id b.db).0 ≡ ok (some (entity_to_model s')) =
        answered _ _ b.db (laws.reads_session s.id) (up s.id b.db)
        ∙ ap ok (ap (t.row b.db) (sym same) ∙ holds.row) in
      let saved = save_stale env db c b l2.session s.revision es (entity_to_model s') found moved in
      let (raises, store) =
        record_turn_fails env repo l2.session s.revision m m'
          (record { store = b; world = l2.world }) _ (ap (λ p. p.0) saved) in
      let loaded =
        handle_user_message_run env db c t laws sys s.id s content rich_payload
          (ap (λ p. p.0) got) in
      rw (loaded, got, ran, store) (raises, ap (λ p. p.1) saved)

  -- The cache answers with s, an open session before its deadline; the tables hold s', another revision of
  -- it with a valid log. With an acceptable message of at most 7979 characters, a brisk clock, and queries
  -- and cache calls that do not raise: the call raises StaleRevisionError with both revisions, the
  -- tables stay, and the next `get` answers with s'.
  stale_turn :
      (sys : System (Backend D R)) (s s' : OnboardingSession) (content : String)
      (rich_payload : Option Fields)
      → (Cache.get env c s.id sys.store.cache).0 ≡ ok (some s)
      → IsStored t sys.store.db s'
      → IsLog s'.id 0 s'.messages
      → s'.id ≡ s.id
      → s'.revision ≢ s.revision
      → in_terminal_states s.state ≡ false
      → env.now_at sys.world.readings < s.expires_at
      → env.now_at (suc sys.world.readings) < s.expires_at
      → IsBrisk env s.ttl
      → is_refused content rich_payload ≡ false
      → count content ≤ 7979
      → let (r, sys') = handle_user_message env repo s.id content rich_payload sys in
        (r ≡ err (stale env s.revision (pos s'.revision)))
        × SameTables t sys.store.db sys'.store.db
        × ((Repository.get env db c s'.id sys'.store).0 ≡ ok (some (reset_ttl s')))
  stale_turn sys s s' content rich_payload cached holds log same moved alive live live' brisk fits
        short =
      let (raises, left) =
        stale_turn_run sys s s' content rich_payload cached holds same moved alive live live' brisk
          fits short in
      let seen = (laws.reads_session s.id sys.store.db).1 in
      let (got, _, _) =
        get_from_database env db c t laws s' (refused_store s sys.store) log
          (record { row = seen.same_row s'.id ∙ holds.row; log = seen.same_log s'.id ∙ holds.log })
          (get-invalidate env texts db c t laws stored cache_laws gets s' s.id
            (Cache.get env c s.id sys.store.cache).1 (sym same) deletes)
          (up s'.id) (up_messages s'.id) in
      rw left (raises, seen, got)
