-- ===== src/Transaction/Retried.antt =====
-- A request of app/api/v1/endpoints/sessions.py that meets a stale cache, and the same request sent again.
use cognaris_chatbot.Prelude.{
  ℕ, suc, ◌<◌, ◌≤◌, ◌≡◌, ◌≢◌, refl, sym, ◌∙◌, subst, List, false, String, count, Option, none, some,
  Outcome, ok, err, Fails, pos,
}
use cognaris_chatbot.Python.{Env, TextLaws}
use cognaris_chatbot.Enums.{in_terminal_states}
use cognaris_chatbot.Errors.{Error, http_status, stale_revision}
use cognaris_chatbot.Api.Overflow.{respond_domain}
use cognaris_chatbot.Entities.{OnboardingSession, default_ttl}
use cognaris_chatbot.Entities.Message.{is_refused}
use cognaris_chatbot.Entities.Invariant.{IsLog}
use cognaris_chatbot.Cache
use cognaris_chatbot.Cache.{Client}
use cognaris_chatbot.Cache.Laws.{ClientLaws, reset_ttl}
use cognaris_chatbot.Repository.{
  Database, Backend, Pending, SessionRepository, pg_session_repository, stale,
}
use cognaris_chatbot.Repository.Coherence.{get-invalidate}
use cognaris_chatbot.Repository.Load.{IsStored}
use cognaris_chatbot.Repository.Tables.{Tables, SameTables, SameTables-trans, DatabaseLaws}
use cognaris_chatbot.Service.{System, handle_user_message}
use cognaris_chatbot.Service.Calls.{IsBrisk}
use cognaris_chatbot.Service.Conflict.{stale_turn_run}
use cognaris_chatbot.Api.{Problem, SendMessageRequest, post_message, serve, send_message, respond}
use cognaris_chatbot.Transaction.{
  Connection, in_request, db_session_dep, get_db_session, leave, undo, finish,
}
use cognaris_chatbot.Transaction.Laws.{Shows, TransactionLaws}
use cognaris_chatbot.Transaction.Atomic.{begun}
use cognaris_chatbot.Transaction.Calls.{handle_user_message-IsHidden}
use cognaris_chatbot.Transaction.Committed.{IsTurnCommitted, post_message_commits}

-- the response to a StaleRevisionError
respond-stale :
    {A : Type 0} (lower titled : String → String) (status : ℕ) (env : Env) (expected actual : ℕ)
    (r : Outcome Error A)
    → r ≡ err (stale env expected (pos actual))
    → (p : Problem) × (respond lower titled status r ≡ err p) × (p.status ≡ 409)
unfolding stale http_status
respond-stale lower titled status env expected actual r h =
    respond_domain lower titled status stale_revision r (rw h refl)

module _ {D R Raw : Type 0} (env : Env) (texts : TextLaws env) (db : Database D) (c : Client R Raw)
    (conn : Connection D) (t kept : Tables D) (laws : DatabaseLaws db t)
    (shared : TransactionLaws db conn t kept)
    (begins : (d : D) → Shows kept t (conn.close d).1 (conn.close d).1)
    (stored : R → String → Option Raw) (cache_laws : ClientLaws c stored)
    (gets : (k : String) (r : R) → ¬ (Fails (c.client_get k r).0))
    (deletes : (k : String) (r : R) → ¬ (Fails (c.client_delete k r).0))
    (up : (id : ℕ) (d : D) → ¬ (Fails (db.select_session id d).0))
    (up_messages : (id : ℕ) (d : D) → ¬ (Fails (db.select_messages id d).0))
    (up_max : (id : ℕ) (d : D) → ¬ (Fails (db.select_max_sequence id d).0))
    (up_flush : (ps : List Pending) (d : D) → ¬ (Fails (db.flush ps d).0))
    (up_commit : (d : D) → (conn.commit d).0 ≡ ok tt)
    (up_close : (d : D) → (conn.close d).0 ≡ ok tt) where
  abbrev repo : SessionRepository (Backend D R)
  repo = pg_session_repository env db c

  -- a message that the service refuses, in its transaction
  refused_request :
      (sys : System (Backend D R)) (id : ℕ) (body : SendMessageRequest) (e : Error)
      (b : Backend D R)
      → let (r, ended) =
          handle_user_message env repo id body.content body.rich_payload (begun sys) in
        let (r', sys') = in_request conn (serve env repo (post_message id body)) sys in
        r ≡ err e
        → ended.store ≡ b
        → (r' ≡ err e)
          × SameTables kept sys.store.db sys'.store.db
          × (sys'.store.cache ≡ b.cache)
          × (sys'.store.db ≡ (conn.close b.db).1)
  unfolding in_request serve send_message db_session_dep get_db_session leave undo finish
  refused_request sys id body e b raised left =
      let hidden : SameTables kept sys.store.db b.db =
        subst (λ (x : Backend D R). SameTables kept sys.store.db x.db) left
          (handle_user_message-IsHidden env c kept shared id body.content body.rich_payload
            (begun sys)) in
      rw (raised, left) (refl, SameTables-trans kept hidden (shared.close_keeps b.db), refl, refl)

  -- Tables that a transaction sees as others do; the cache answers with s, an open session before its
  -- deadline, and the tables hold s', another revision of it, open and with a valid log. With an acceptable
  -- message of at most 7979 characters, a clock that is brisk for both TTLs, nothing but SET that raises,
  -- and the deadline of s' still ahead after the first request: that is answered with 409 and
  -- changes nothing that others see; and the same request sent again is answered with the turn in s',
  -- which is committed with its two events.
  pub retry_commits :
      (lower titled : String → String) (sys : System (Backend D R)) (s s' : OnboardingSession)
      (body : SendMessageRequest)
      → let send = serve env repo (post_message s.id body) in
        let (r, sys₁) = in_request conn send sys in
        let (r', sys₂) = in_request conn send sys₁ in
        Shows kept t sys.store.db sys.store.db
        → (Cache.get env c s.id sys.store.cache).0 ≡ ok (some s)
        → IsStored t sys.store.db s'
        → IsLog s'.id 0 s'.messages
        → s'.id ≡ s.id
        → s'.revision ≢ s.revision
        → in_terminal_states s.state ≡ false
        → in_terminal_states s'.state ≡ false
        → env.now_at sys.world.readings < s.expires_at
        → env.now_at (suc sys.world.readings) < s.expires_at
        → env.now_at sys₁.world.readings < s'.expires_at
        → env.now_at (suc sys₁.world.readings) < s'.expires_at
        → IsBrisk env s.ttl
        → IsBrisk env default_ttl
        → is_refused body.content body.rich_payload ≡ false
        → count body.content ≤ 7979
        → ((p : Problem) × (respond lower titled 200 r ≡ err p) × (p.status ≡ 409))
          × SameTables kept sys.store.db sys₁.store.db
          × IsTurnCommitted kept
              (reset_ttl s')
              body.content
              (kept.outbox sys.store.db)
              sys₂.store.db
              r'
  retry_commits lower titled sys s s' body view cached holds log same moved alive alive' live live'
        next next' brisk brisk' fits short =
      let send = serve env repo (post_message s.id body) in
      let sys₁ = (in_request conn send sys).1 in
      let (raises, left) =
        stale_turn_run env texts db c t laws stored cache_laws gets deletes up up_messages
          (begun sys) s s' body.content body.rich_payload cached holds same moved alive live live'
          brisk fits short in
      let (refused, hidden, cache, shut) = refused_request sys s.id body _ _ raises left in
      let seen : Shows kept t sys₁.store.db sys₁.store.db =
        subst (λ d. Shows kept t d d) (sym shut) (begins _) in
      let holds₁ : IsStored t sys₁.store.db s' = record {
        row = seen.shows_row s'.id ∙ hidden.same_row s'.id ∙ sym (view.shows_row s'.id) ∙ holds.row;
        log = seen.shows_log s'.id ∙ hidden.same_log s'.id ∙ sym (view.shows_log s'.id) ∙ holds.log;
      } in
      let missed : (Cache.get env c s'.id sys₁.store.cache).0 ≡ ok none =
        subst (λ (x : R). (Cache.get env c s'.id x).0 ≡ ok none) (sym cache)
          (get-invalidate env texts db c t laws stored cache_laws gets s' s.id
            (Cache.get env c s.id sys.store.cache).1 (sym same) deletes) in
      let turn =
        post_message_commits env db c conn t kept laws shared up_flush up_commit up_close s' body
          sys₁ alive' next next' brisk' fits short holds₁ log missed (up s'.id) (up_messages s'.id)
          (up_max s'.id) in
      (
        respond-stale lower titled 200 env s.revision s'.revision _ refused,
        hidden,
        subst
            (λ o.
              let (r', sys₂) = in_request conn send sys₁ in
              IsTurnCommitted kept (reset_ttl s') body.content o sys₂.store.db r')
            (seen.shows_outbox ∙ hidden.same_outbox)
            (subst
              (λ i.
                let (r', sys₂) = in_request conn (serve env repo (post_message i body)) sys₁ in
                IsTurnCommitted kept (reset_ttl s') body.content (t.outbox sys₁.store.db)
                  sys₂.store.db r')
              same turn),
      )
