-- ===== src/Transaction/Phantom.antt =====
-- The repository writes to the cache before app/infrastructure/db/session.py commits: what a commit that
-- fails leaves in the cache.
use cognaris_chatbot.Prelude.{
  map, ℕ, String, ◌≡◌, refl, ◌∙◌, ap, ok, err, Fails, Option, some, [], ◌∷◌, List, returned,
}
use cognaris_chatbot.Python
use cognaris_chatbot.Python.{Env, TextLaws}
use cognaris_chatbot.Enums.{ClientPlatform, same_state, is_user}
use cognaris_chatbot.Errors.{Error}
use cognaris_chatbot.Entities.{OnboardingSession, ConversationMessage, default_ttl, create}
use cognaris_chatbot.Cache.{Client, key}
use cognaris_chatbot.Cache.Json.{serialize}
use cognaris_chatbot.Cache.Laws.{ClientLaws, get_hit}
use cognaris_chatbot.Repository
use cognaris_chatbot.Repository.{
  Database, Backend, Pending, SessionRepository, pg_session_repository, or_load,
}
use cognaris_chatbot.Repository.Add.{add_run}
use cognaris_chatbot.Repository.Tables.{Tables, SameTables}
use cognaris_chatbot.Service
use cognaris_chatbot.Service.{System, greeting}
use cognaris_chatbot.Service.Calls.{IsBrisk}
use cognaris_chatbot.Service.Started.{greeted, started_event, start_session_run}
use cognaris_chatbot.Repository.Coherence.{get_cached, set_stores}
use cognaris_chatbot.Transaction.{Connection, in_request}
use cognaris_chatbot.Transaction.Laws.{TransactionLaws}
use cognaris_chatbot.Transaction.Atomic.{begun, request_fails}
use cognaris_chatbot.Transaction.Calls.{start_session-IsHidden}

module _ {D R Raw : Type 0} (env : Env) (texts : TextLaws env) (db : Database D) (c : Client R Raw)
    (stored : R → String → Option Raw) (cache_laws : ClientLaws c stored) (conn : Connection D)
    (t kept : Tables D) (laws : TransactionLaws db conn t kept) where
  abbrev repo : SessionRepository (Backend D R)
  repo = pg_session_repository env db c

  -- A request starts a session, and its commit raises and has no effect: the request raises, others
  -- see no change in the tables, and yet a later `get` answers with that session, of the user and
  -- with the greeting, under the identifier drawn, out of the cache. The clock is brisk, and no
  -- other call raises.
  pub phantom_session :
      (user_id : ℕ) (locale : String) (client_platform : ClientPlatform)
      (sys : System (Backend D R)) (e : Error)
      → IsBrisk env default_ttl
      → ((ps : List Pending) (d : D) → ¬ (Fails (db.flush ps d).0))
      → ((d : D) → ((conn.commit d).0 ≡ err e) × SameTables kept d (conn.commit d).1)
      → ((d : D) → (conn.rollback d).0 ≡ ok tt)
      → ((d : D) → (conn.close d).0 ≡ ok tt)
      → ((k : String) (v : Raw) (ttl : ℕ) (r : R) → ¬ (Fails (c.client_set k v ttl r).0))
      → ((k : String) (r : R) → ¬ (Fails (c.client_get k r).0))
      → let (r, sys') =
          in_request conn (Service.start_session env repo user_id locale client_platform) sys in
        (r ≡ err e)
        × SameTables kept sys.store.db sys'.store.db
        × (s : OnboardingSession) × (s.id ≡ env.id_at sys.world.draws)
        × (s.user_id ≡ user_id)
        × (map (λ (m : ConversationMessage). m.content) s.messages ≡ greeting ∷ [])
        × ((Repository.get env db c s.id sys'.store).0 ≡ ok (some s))
  unfolding in_request create Python.utcnow Python.new_id same_state is_user serialize
  phantom_session user_id locale client_platform sys e brisk up fails undone shut sets gets =
      let s = (greeted env user_id locale client_platform sys.world).session in
      let events = started_event env user_id locale client_platform sys.world ∷ [] in
      let b = record sys.store { pending = [] } in
      let added = add_run env db c b s events refl (returned _ (up _ _)) in
      let (done, store) =
        start_session_run env user_id locale client_platform sys.world repo b brisk
          (ap (λ p. p.0) added) in
      let m = Service.start_session env repo user_id locale client_platform in
      let (raised, same, cache) =
        request_fails conn t kept laws m sys s e done
          (start_session-IsHidden env c kept laws user_id locale client_platform (begun sys)) fails
          undone shut in
      let held = cache ∙ ap (λ (x : Backend D R). x.cache) store ∙ ap (λ p. p.1.cache) added in
      let entry : stored (in_request conn m sys).1.store.cache (key env s.id)
          ≡ some (c.dumps (serialize env s)) =
        ap (λ (r : R). stored r (key env s.id)) held
        ∙ set_stores env c stored cache_laws s sys.store.cache (sets _ _ _ _) in
      let hit =
        get_hit env c stored texts cache_laws s (in_request conn m sys).1.store.cache
          (record { log = (refl, refl, refl, tt); dicts = (tt, tt, tt) }) entry (gets _ _) in
      (
        raised,
        same,
        s,
        refl,
        refl,
        refl,
        ap (λ p. p.0)
            (get_cached env db c (in_request conn m sys).1.store s.id s (ap (λ p. p.0) hit)),
      )
