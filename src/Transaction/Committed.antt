-- ===== src/Transaction/Committed.antt =====
-- The two requests of app/api/v1/endpoints/sessions.py that write, from the body to what others see in the
-- tables when app/infrastructure/db/session.py has committed.
use cognaris_chatbot.Errors.{Error}
use cognaris_chatbot.Prelude.{
  String, Outcome, ℕ, subst, suc, ◌<◌, ◌≤◌, ◌≡◌, refl, ◌∙◌, ok, none, count, List, [], ◌∷◌, ◌++◌,
  map, length, Fails, false,
}
use cognaris_chatbot.Python.{Env}
use cognaris_chatbot.Enums.{in_terminal_states, new}
use cognaris_chatbot.Entities.{ConversationMessage, OnboardingSession, default_ttl, is_expired}
use cognaris_chatbot.Entities.Message.{is_refused}
use cognaris_chatbot.Entities.Invariant.{IsLog}
use cognaris_chatbot.Events.{DomainEvent, message_appended}
use cognaris_chatbot.Events
use cognaris_chatbot.Cache
use cognaris_chatbot.Cache.{Client}
use cognaris_chatbot.Cache.Laws.{reset_ttl}
use cognaris_chatbot.Repository.{
  Database, Backend, Pending, SessionRepository, pg_session_repository,
}
use cognaris_chatbot.Repository.Load.{IsStored}
use cognaris_chatbot.Repository.Rows.{EventRow, event_to_model}
use cognaris_chatbot.Repository.Tables.{Tables, DatabaseLaws}
use cognaris_chatbot.Service
use cognaris_chatbot.Service.{System, handle_user_message, greeting}
use cognaris_chatbot.Service.Calls.{IsBrisk, Turn}
use cognaris_chatbot.Service.Started.{start_session_stores}
use cognaris_chatbot.Service.Stored.{handle_user_message_stores}
use cognaris_chatbot.Api
use cognaris_chatbot.Api.{
  Request, Reply, StartSessionRequest, SendMessageRequest, SessionDetailOut, SendMessageResponse,
  post_session, post_message, detailed, delivered, serve, to_summary, to_detail, to_message_out,
  send_message,
}
use cognaris_chatbot.Api.Detail.{IsDetail, to_detail_lem}
use cognaris_chatbot.Transaction.{Connection, in_request}
use cognaris_chatbot.Transaction.Laws.{Shows, TransactionLaws}
use cognaris_chatbot.Transaction.Atomic.{begun}
use cognaris_chatbot.Transaction.Whole.{serve_commits}

-- a session that others see
Shows-IsStored :
    {D : Type 0} (t kept : Tables D) {d d' : D} (s : OnboardingSession)
    → Shows t kept d d'
    → IsStored t d s
    → IsStored kept d' s
Shows-IsStored t kept s shows stored = record {
  row = shows.shows_row s.id ∙ stored.row;
  log = shows.shows_log s.id ∙ stored.log;
}

-- The answer tells the turn and the number of messages after it; others see the session of the turn, and
-- the outbox with the two events of the turn at its end.
abbrev pub IsTurnCommitted :
    {D : Type 0}
    → Tables D
    → OnboardingSession
    → String
    → List EventRow
    → D
    → Outcome Error Reply
    → Type 0
IsTurnCommitted kept s content outbox d r =
    (s' : OnboardingSession) × (m m' : ConversationMessage) × (reply : SendMessageResponse) × (e
      e' : DomainEvent)
    × (r ≡ ok (delivered reply))
    × (reply.session.message_count ≡ length s'.messages)
    × (reply.user_message ≡ to_message_out m)
    × (reply.assistant_message ≡ to_message_out m')
    × Turn s content s' m m'
    × IsStored kept d s'
    × (e.event_type ≡ message_appended)
    × (e'.event_type ≡ message_appended)
    × (kept.outbox d ≡ outbox ++ map event_to_model (e ∷ e' ∷ []))

module _ {X : Type 0} (env : Env) (repo : SessionRepository X) where
  start_run :
      (sys : System X) (body : StartSessionRequest) (s : OnboardingSession)
      → let m = Service.start_session env repo body.user_id body.locale body.client_platform in
        (m sys).0 ≡ ok s
        → (detail : SessionDetailOut) × ((serve env repo (post_session body) sys).0
            ≡ ok (detailed detail))
          × IsDetail s (env.now_at (m sys).1.world.readings) detail
          × ((serve env repo (post_session body) sys).1.store ≡ (m sys).1.store)
  unfolding serve Api.start_session
  start_run sys body s h =
      let sys' =
        (Service.start_session env repo body.user_id body.locale body.client_platform sys).1 in
      let (detail, told, right, kept) = to_detail_lem env repo s sys' in
      rw (h, told) (detail, refl, right, kept)

  send_run :
      (sys : System X) (id : ℕ) (body : SendMessageRequest) (s : OnboardingSession)
      (m m' : ConversationMessage)
      → let call = handle_user_message env repo id body.content body.rich_payload in
        (call sys).0 ≡ ok (s, m, m')
        → (reply : SendMessageResponse) × ((serve env repo (post_message id body) sys).0
            ≡ ok (delivered reply))
          × (reply.session.id ≡ s.id)
          × (reply.session.message_count ≡ length s.messages)
          × (reply.user_message ≡ to_message_out m)
          × (reply.assistant_message ≡ to_message_out m')
          × ((serve env repo (post_message id body) sys).1.store ≡ (call sys).1.store)
  unfolding serve send_message to_summary is_expired
  send_run sys id body s m m' h = rw h (_, refl, refl, refl, refl, refl, refl)

module _ {D R Raw : Type 0} (env : Env) (db : Database D) (c : Client R Raw) (conn : Connection D)
    (t kept : Tables D) (laws : DatabaseLaws db t) (shared : TransactionLaws db conn t kept)
    (up_flush : (ps : List Pending) (d : D) → ¬ (Fails (db.flush ps d).0))
    (up_commit : (d : D) → (conn.commit d).0 ≡ ok tt)
    (up_close : (d : D) → (conn.close d).0 ≡ ok tt) where
  abbrev repo : SessionRepository (Backend D R)
  repo = pg_session_repository env db c

  -- With a brisk clock, no messages under the identifier that is drawn, and a flush, a commit and a close
  -- that do not raise: the request for a new session is answered with the detail of a session that
  -- belongs to the user, is new and holds the greeting alone; others see that session in the tables, and
  -- the outbox as the request found it and a session.started event of it.
  pub post_session_commits :
      (body : StartSessionRequest) (sys : System (Backend D R))
      → IsBrisk env default_ttl
      → t.log sys.store.db (env.id_at sys.world.draws) ≡ []
      → let (r, sys') = in_request conn (serve env repo (post_session body)) sys in
        (s : OnboardingSession) × (detail : SessionDetailOut) × (now : ℕ) × (e : DomainEvent) × (r
          ≡ ok (detailed detail))
        × IsDetail s now detail
        × (s.user_id ≡ body.user_id)
        × (s.state ≡ new)
        × (map (λ (m : ConversationMessage). m.content) s.messages ≡ greeting ∷ [])
        × IsStored kept sys'.store.db s
        × (e.event_type ≡ Events.started)
        × (e.aggregate_id ≡ s.id)
        × (kept.outbox sys'.store.db ≡ t.outbox sys.store.db ++ event_to_model e ∷ [])
  post_session_commits body sys brisk unused =
      let started =
        start_session_stores env db c t laws body.user_id body.locale body.client_platform sys.world
          (begun sys).store brisk refl unused up_flush in
      let (detail, told, right, same) =
        start_run env repo (begun sys) body started.session started.returned in
      let (done, shows) =
        serve_commits env c conn t kept shared (post_session body) sys (detailed detail) told
          (up_commit _) (up_close _) in
      let after = (in_request conn (serve env repo (post_session body)) sys).1.store.db in
      let seen = subst (λ (x : Backend D R). Shows t kept x.db after) same shows in
      (
        started.session,
        detail,
        _,
        started.event,
        done,
        right,
        started.owner,
        started.state,
        started.greets,
        Shows-IsStored t kept started.session seen started.stored,
        started.type,
        started.aggregate,
        seen.shows_outbox ∙ started.outbox,
      )

  -- For an open session that the request finds stored but not cached, with a valid log and before
  -- its deadline, an acceptable message of at most 7979 characters, a clock that is brisk for the
  -- default TTL, and queries, a flush, a commit and a close that do not raise: the request is
  -- answered with the two messages of the turn and the number of messages after it; others see the
  -- session of the turn in the tables, and the outbox as the request found it and two
  -- message_appended events.
  pub post_message_commits :
      (s : OnboardingSession) (body : SendMessageRequest) (sys : System (Backend D R))
      → in_terminal_states s.state ≡ false
      → env.now_at sys.world.readings < s.expires_at
      → env.now_at (suc sys.world.readings) < s.expires_at
      → IsBrisk env default_ttl
      → is_refused body.content body.rich_payload ≡ false
      → count body.content ≤ 7979
      → IsStored t sys.store.db s
      → IsLog s.id 0 s.messages
      → (Cache.get env c s.id sys.store.cache).0 ≡ ok none
      → ((d : D) → ¬ (Fails (db.select_session s.id d).0))
      → ((d : D) → ¬ (Fails (db.select_messages s.id d).0))
      → ((d : D) → ¬ (Fails (db.select_max_sequence s.id d).0))
      → let (r, sys') = in_request conn (serve env repo (post_message s.id body)) sys in
        IsTurnCommitted kept (reset_ttl s) body.content (t.outbox sys.store.db) sys'.store.db r
  post_message_commits s body sys alive live live' brisk fits short stored log miss up up_messages
        up_max =
      let turn =
        handle_user_message_stores env db c t laws (begun sys) s body.content body.rich_payload
          alive live live' brisk fits short refl stored log miss up up_messages up_max up_flush in
      let (reply, told, _, counted, asked, answered, same) =
        send_run env repo (begun sys) s.id body turn.session turn.user_msg turn.assistant_msg
          turn.returned in
      let (done, shows) =
        serve_commits env c conn t kept shared (post_message s.id body) sys (delivered reply) told
          (up_commit _) (up_close _) in
      let after = (in_request conn (serve env repo (post_message s.id body)) sys).1.store.db in
      let seen = subst (λ (x : Backend D R). Shows t kept x.db after) same shows in
      (
        turn.session,
        turn.user_msg,
        turn.assistant_msg,
        reply,
        turn.event,
        turn.event',
        done,
        counted,
        asked,
        answered,
        turn.turn,
        Shows-IsStored t kept turn.session seen turn.stored,
        turn.types.0,
        turn.types.1,
        seen.shows_outbox ∙ turn.outbox,
      )
