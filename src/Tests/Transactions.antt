-- ===== src/Tests/Transactions.antt =====
-- A database with transactions, and the theorems on requests that share it.
use cognaris_chatbot.Prelude.{
  ◌≡◌, refl, inl, inr, ok, err, none, some, [], ◌∷◌, ◌++◌, arith, ℕ, map,
}
use cognaris_chatbot.Prelude.{length}
use cognaris_chatbot.Events
use cognaris_chatbot.Events.{DomainEvent, message_appended}
use cognaris_chatbot.Enums.{in_terminal_states}
use cognaris_chatbot.Api.{
  delivered, SessionDetailOut, SendMessageRequest, SendMessageResponse, StartSessionRequest,
  post_message, to_message_out,
}
use cognaris_chatbot.Api.Detail.{IsDetail}
use cognaris_chatbot.Repository.Load.{IsStored}
use cognaris_chatbot.Repository.Tables.{DatabaseLaws}
use cognaris_chatbot.Service.{greeting}
use cognaris_chatbot.Service.Calls.{Turn}
use cognaris_chatbot.Transaction.Committed.{post_session_commits, post_message_commits}
use cognaris_chatbot.Errors.{Error, database_error}
use cognaris_chatbot.Enums.{web, new}
use cognaris_chatbot.Api.{detailed}
use cognaris_chatbot.Prelude.{sym}
use cognaris_chatbot.Entities.{ConversationMessage, OnboardingSession}
use cognaris_chatbot.Cache
use cognaris_chatbot.Cache.Laws.{reset_ttl}
use cognaris_chatbot.Repository
use cognaris_chatbot.Repository.{
  Database, Backend, stale, or_load, load, pg_session_repository, SessionRepository,
}
use cognaris_chatbot.Repository.Rows.{event_to_model}
use cognaris_chatbot.Repository.Tables.{Tables, SameTables, SameTables-refl}
use cognaris_chatbot.Service
use cognaris_chatbot.Service.{System, found}
use cognaris_chatbot.Api.{Request, post_session, serve}
use cognaris_chatbot.Transaction.{Connection, in_request}
use cognaris_chatbot.Transaction.Laws.{TransactionLaws}
use cognaris_chatbot.Transaction.Atomic.{begun}
use cognaris_chatbot.Transaction.Whole.{IsWhole, serve-IsWhole}
use cognaris_chatbot.Transaction.Phantom.{phantom_session}
use cognaris_chatbot.Tests.Domain.{fresh}
use cognaris_chatbot.Tests.Storage.{old_store, empty_store}
use cognaris_chatbot.Tests.Conversation.{brisk}
use cognaris_chatbot.Tests.Fixtures.{
  env, texts, Server, client, stored, client_laws, Store, database, world,
}

-- what the transaction sees, and what everybody else does
pub record Shared : Type 0 where
  pub own : Store
  pub committed : Store

abbrev pub shared : Database Shared
shared = record {
  select_session = λ id d. (ok (d.own.rows id), d);
  select_messages = λ id d. (ok (d.own.logs id), d);
  select_max_sequence = λ id d. ((database.select_max_sequence id d.own).0, d);
  flush = λ ps d. (ok tt, record d { own = (database.flush ps d.own).1 });
}

abbrev pub connection : Connection Shared
connection = record {
  commit = λ d. (ok tt, record d { committed = d.own });
  rollback = λ d. (ok tt, record d { own = d.committed });
  close = λ d. (ok tt, record d { own = d.committed });
}

-- a connection that is lost before each commit
abbrev lost : Connection Shared
lost = record connection { commit = λ d. (err database_error, d) }

abbrev pub inside : Tables Shared
inside = record { row = λ d. d.own.rows; log = λ d. d.own.logs; outbox = λ d. d.own.events }

abbrev pub outside : Tables Shared
outside = record {
  row = λ d. d.committed.rows;
  log = λ d. d.committed.logs;
  outbox = λ d. d.committed.events;
}

pub shared-DatabaseLaws : DatabaseLaws shared inside
shared-DatabaseLaws = record {
  reads_session = λ id d. (inl refl, SameTables-refl inside d);
  reads_messages = λ id d. (inl refl, SameTables-refl inside d);
  reads_max = λ id d. (inl refl, SameTables-refl inside d);
  flush_writes_row = λ ps d id e. refl;
  flush_writes_log = λ ps d id e. refl;
  flush_writes_outbox = λ ps d e. refl;
}

pub shared_laws : TransactionLaws shared connection inside outside
shared_laws = record {
  hidden_session = λ id d. SameTables-refl outside d;
  hidden_messages = λ id d. SameTables-refl outside d;
  hidden_max = λ id d. SameTables-refl outside d;
  hidden_flush =
      λ ps d. record { same_row = λ id. refl; same_log = λ id. refl; same_outbox = refl };
  commit_shows =
      λ d e. record { shows_row = λ id. refl; shows_log = λ id. refl; shows_outbox = refl };
  commit_whole =
      λ d. inr (record { shows_row = λ id. refl; shows_log = λ id. refl; shows_outbox = refl });
  rollback_keeps = λ d. record { same_row = λ id. refl; same_log = λ id. refl; same_outbox = refl };
  close_keeps = λ d. record { same_row = λ id. refl; same_log = λ id. refl; same_outbox = refl };
}

ok≢err : {A : Type 0} {x : A} {e : Error} → ¬ ok x ≡ err e
ok≢err e = cc e

lost_laws : TransactionLaws shared lost inside outside
lost_laws = record {
  hidden_session = shared_laws.hidden_session;
  hidden_messages = shared_laws.hidden_messages;
  hidden_max = shared_laws.hidden_max;
  hidden_flush = shared_laws.hidden_flush;
  rollback_keeps = shared_laws.rollback_keeps;
  close_keeps = shared_laws.close_keeps;
  commit_shows = λ d e. absurd (ok≢err (sym e));
  commit_whole = λ d. inl (SameTables-refl outside d);
}

abbrev pub holding : Store → System (Backend Shared Server)
holding d = record {
  store = record { db = record { own = d; committed = d }; pending = []; cache = λ k. none };
  world = world;
}

abbrev pub shared_repo : SessionRepository (Backend Shared Server)
shared_repo = pg_session_repository env shared client

abbrev pub body : StartSessionRequest
body = record { user_id = 7; locale = "pt-BR"; client_platform = web }

abbrev pub start : Request
start = post_session body

serve-IsWhole_example :
    let m = serve env shared_repo start in
    let (answer, ended) = m (begun (holding empty_store)) in
    IsWhole inside outside
      (holding empty_store)
      answer
      ended
      (in_request connection m (holding empty_store)).1
serve-IsWhole_example =
    serve-IsWhole env client connection inside outside shared_laws start (holding empty_store)

post_session_commits_example :
    let (r, sys') =
      in_request connection (serve env shared_repo (post_session body)) (holding empty_store) in
    (s : OnboardingSession) × (detail : SessionDetailOut) × (now : ℕ) × (e : DomainEvent) × (r
      ≡ ok (detailed detail))
    × IsDetail s now detail
    × (s.user_id ≡ 7)
    × (s.state ≡ new)
    × (map (λ (m : ConversationMessage). m.content) s.messages ≡ greeting ∷ [])
    × IsStored outside sys'.store.db s
    × (e.event_type ≡ Events.started)
    × (e.aggregate_id ≡ s.id)
    × (outside.outbox sys'.store.db ≡ [] ++ event_to_model e ∷ [])
post_session_commits_example =
    post_session_commits env shared client connection inside outside shared-DatabaseLaws shared_laws
      (λ ps d h. h) (λ d. refl) (λ d. refl) body (holding empty_store) brisk refl

abbrev pub said : SendMessageRequest
said = record { content = "oi"; rich_payload = none }

post_message_commits_example :
    let (r, sys') =
      in_request connection (serve env shared_repo (post_message 0 said)) (holding old_store) in
    (s' : OnboardingSession) × (m m' : ConversationMessage) × (reply : SendMessageResponse) × (e
      e' : DomainEvent)
    × (r ≡ ok (delivered reply))
    × (reply.session.message_count ≡ length s'.messages)
    × (reply.user_message ≡ to_message_out m)
    × (reply.assistant_message ≡ to_message_out m')
    × Turn (reset_ttl fresh) "oi" s' m m'
    × IsStored outside sys'.store.db s'
    × (e.event_type ≡ message_appended)
    × (e'.event_type ≡ message_appended)
    × (outside.outbox sys'.store.db ≡ [] ++ map event_to_model (e ∷ e' ∷ []))
unfolding in_terminal_states Cache.get
post_message_commits_example =
    post_message_commits env shared client connection inside outside shared-DatabaseLaws shared_laws
      (λ ps d h. h) (λ d. refl) (λ d. refl) fresh said (holding old_store) refl (omega arith)
      (omega arith) brisk refl (omega arith) (record { row = refl; log = refl }) tt refl (λ d h. h)
      (λ d h. h) (λ d h. h)

phantom_session_example :
    let (r, sys') =
      in_request lost (Service.start_session env shared_repo 7 "pt-BR" web) (holding empty_store) in
    (r ≡ err database_error)
    × SameTables outside (holding empty_store).store.db sys'.store.db
    × (s : OnboardingSession) × (s.id ≡ 0)
    × (s.user_id ≡ 7)
    × (map (λ (m : ConversationMessage). m.content) s.messages ≡ greeting ∷ [])
    × ((Repository.get env shared client s.id sys'.store).0 ≡ ok (some s))
phantom_session_example =
    phantom_session env texts shared client stored client_laws lost inside outside lost_laws 7
      "pt-BR" web (holding empty_store) database_error brisk (λ ps d h. h)
      (λ d. (refl, SameTables-refl outside d)) (λ d. refl) (λ d. refl) (λ k v ttl r h. h)
      (λ k r h. h)
