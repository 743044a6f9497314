-- ===== src/Tests/Requests.antt =====
-- Requests one after the other, on a Redis server that refuses every entry.
use cognaris_chatbot.Transaction.Retried.{retry_commits}
use cognaris_chatbot.Transaction.Committed.{IsTurnCommitted}
use cognaris_chatbot.Tests.Domain.{fresh}
use cognaris_chatbot.Tests.Storage.{talked, talked_store}
use cognaris_chatbot.Tests.Fixtures.{world}
use cognaris_chatbot.Tests.Conversation.{brisk}
use cognaris_chatbot.Tests.Transactions.{shared_repo}
use cognaris_chatbot.Cache.Json.{serialize}
use cognaris_chatbot.Cache.Laws.{get_hit, reset_ttl}
use cognaris_chatbot.Repository.Coherence.{get_cached}
use cognaris_chatbot.Repository.Tables.{SameTables}
use cognaris_chatbot.Repository.{save_over, stale}
use cognaris_chatbot.Service.{converse, refuse_expired, record_turn}
use cognaris_chatbot.Service.{handle_user_message}
use cognaris_chatbot.Service.Stored.{handle_user_message_run}
use cognaris_chatbot.Api.{Reply, Problem, respond, send_message}
use cognaris_chatbot.Entities.{allowed_transitions, contains}
use cognaris_chatbot.Prelude.{arith, ap, Exec, ◌≡◌, refl, inl, inr, ok, err, none, some, [], ◌∷◌}
use cognaris_chatbot.Errors.{Error, redis_error}
use cognaris_chatbot.Entities.{OnboardingSession}
use cognaris_chatbot.Entities.Invariant.{IsValid}
use cognaris_chatbot.Python.{Json}
use cognaris_chatbot.Cache.{Client}
use cognaris_chatbot.Cache.Laws.{ClientLaws}
use cognaris_chatbot.Repository
use cognaris_chatbot.Python
use cognaris_chatbot.Entities
use cognaris_chatbot.Cache
use cognaris_chatbot.Api
use cognaris_chatbot.Service
use cognaris_chatbot.Cache.{read}
use cognaris_chatbot.Events.{for_session}
use cognaris_chatbot.Api.{to_detail, to_summary}
use cognaris_chatbot.Enums.{in_terminal_states, same_state, is_user}
use cognaris_chatbot.Entities.{
  append_message, create, checked, bump_activity, is_expired, transition_to,
}
use cognaris_chatbot.Repository.{
  event_inserts, flush_new, map_integrity, message_inserts, or_load, load,
}
use cognaris_chatbot.Repository.Rows.{
  event_to_model, message_entity_to_model, model_to_entity, message_model_to_entity,
  message_models_to_entities,
}
use cognaris_chatbot.Transaction.{undo, finish, leave, get_db_session, db_session_dep}
use cognaris_chatbot.Repository.{Backend, pg_session_repository}
use cognaris_chatbot.Repository.Rows.{entity_to_model}
use cognaris_chatbot.Repository.Load.{IsStored}
use cognaris_chatbot.Repository.Interleaving.Statement.{HasGrown}
use cognaris_chatbot.Service.{System, greeting}
use cognaris_chatbot.Enums.{new, web, assistant}
use cognaris_chatbot.Api.{Request, post_message, serve}
use cognaris_chatbot.Transaction.{in_request}
use cognaris_chatbot.Transaction.Laws.{Shows}
use cognaris_chatbot.Coherent.Runs.{
  IsCoherent, Requests, nothing, then, served-IsCoherent, served_get,
}
use cognaris_chatbot.Tests.Storage.{empty_store}
use cognaris_chatbot.Tests.Fixtures.{env, texts, Server, client, stored, client_laws}
use cognaris_chatbot.Tests.Transactions.{
  Shared, shared, connection, inside, outside, shared-DatabaseLaws, shared_laws, holding, start,
  said,
}

abbrev full : Client Server Json
full = record client { client_set = λ k v ttl r. (err redis_error, r) }

full_laws : ClientLaws full stored
full_laws = record {
  loads_back = client_laws.loads_back;
  get_reads = client_laws.get_reads;
  get_keeps = client_laws.get_keeps;
  set_writes = λ k v ttl r. inr (refl, tt);
  set_elsewhere = λ k j v ttl r ne. refl;
  delete_removes = client_laws.delete_removes;
  delete_elsewhere = client_laws.delete_elsewhere;
}

begins : (d : Shared) → Shows outside inside (connection.close d).1 (connection.close d).1
begins d = record { shows_row = λ id. refl; shows_log = λ id. refl; shows_outbox = refl }

abbrev before : System (Backend Shared Server)
before = holding empty_store

before-IsCoherent : IsCoherent env shared full connection inside outside stored before
before-IsCoherent = record {
  fresh = record { shows_row = λ id. refl; shows_log = λ id. refl; shows_outbox = refl };
  held = λ id. inl (refl, refl);
  agree = λ id. inl refl;
}

abbrev request : Request → System (Backend Shared Server) → System (Backend Shared Server)
request r sys = (in_request connection (serve env (pg_session_repository env shared full) r) sys).1

turn :
    Requests env shared full connection inside outside stored before
      (request (post_message 0 said) (request start before))
turn = then (post_message 0 said) (then start nothing (refl, refl, refl)) tt

served-IsCoherent_example :
    IsCoherent env shared full connection inside outside stored
      (request (post_message 0 said) (request start before))
    × HasGrown outside before.store.db
        (request (post_message 0 said) (request start before)).store.db
served-IsCoherent_example =
    served-IsCoherent env texts shared full connection inside outside shared-DatabaseLaws
      shared_laws begins stored full_laws turn before-IsCoherent

-- the session that the first request has stored
abbrev opened : OnboardingSession
opened = record {
  id = 0;
  user_id = 7;
  state = new;
  revision = 1;
  locale = "pt-BR";
  client_platform = web;
  started_at = 0;
  last_active_at = 3;
  expires_at = 86400000003;
  current_step = none;
  confirmed_at = none;
  submitted_at = none;
  completed_at = none;
  messages =
      record {
        id = 1;
        session_id = 0;
        role = assistant;
        content = greeting;
        sequence = 0;
        created_at = 2;
        rich_payload = none;
        metadata = none;
      }
      ∷ [];
  ttl = 86400000000;
}

row_stored : (request start before).store.db.committed.rows 0 ≡ some (entity_to_model opened)
unfolding in_request serve Api.start_session Service.start_session append_message in_terminal_states
    create same_state is_user checked bump_activity Repository.add Cache.set event_inserts to_detail
    to_summary is_expired Entities.new_id Entities.utcnow Python.new_id Python.utcnow for_session
    entity_to_model event_to_model message_entity_to_model flush_new map_integrity message_inserts
    undo finish leave get_db_session db_session_dep
row_stored = refl

opened_answers :
    (Repository.get env shared full 0 (request start before).store).0 ≡ ok (some opened)
unfolding in_request serve Api.start_session Service.start_session append_message in_terminal_states
    create same_state is_user checked bump_activity Repository.add Cache.set event_inserts to_detail
    to_summary is_expired Entities.new_id Entities.utcnow Python.new_id Python.utcnow for_session
    entity_to_model event_to_model message_entity_to_model flush_new map_integrity message_inserts
    undo finish leave get_db_session db_session_dep Repository.get Cache.get or_load load read
    model_to_entity message_model_to_entity message_models_to_entities Cache.key transition_to
opened_answers = refl

served_get_example :
    (opened.id ≡ 0) × IsValid opened × IsStored outside (request start before).store.db opened
unfolding entity_to_model
served_get_example =
    served_get env texts shared full connection inside outside shared-DatabaseLaws shared_laws
      begins stored full_laws (then start nothing (refl, refl, refl)) before-IsCoherent 0 opened
      (entity_to_model opened) opened_answers row_stored refl

-- the tables hold `talked`, and the cache the version before it
abbrev behind : System (Backend Shared Server)
behind = record {
  store = record {
    db = record { own = talked_store; committed = talked_store };
    pending = [];
    cache = λ k. some (serialize env fresh);
  };
  world = world;
}

cached_behind : (Cache.get env client 0 behind.store.cache).0 ≡ ok (some fresh)
cached_behind =
    ap (λ p. p.0)
      (get_hit env client stored texts client_laws fresh behind.store.cache
        (record { log = tt; dicts = tt }) refl (λ h. h))

got_behind : Repository.get env shared client 0 behind.store ≡ (
  ok (some fresh),
  record behind.store { cache = (Cache.get env client 0 behind.store.cache).1 },
)
got_behind = get_cached env shared client behind.store 0 fresh cached_behind

abbrev send : Exec Error (System (Backend Shared Server)) Reply
send = serve env shared_repo (post_message 0 said)

-- how often the clock has been read after the first try
behind_reads : (in_request connection send behind).1.world.readings ≡ 11
unfolding in_request serve send_message converse refuse_expired is_expired Entities.utcnow
    Python.utcnow append_message in_terminal_states transition_to allowed_transitions contains
    same_state is_user checked bump_activity Entities.new_id Python.new_id record_turn for_session
    Repository.save save_over Cache.invalidate stale entity_to_model
behind_reads =
    rw
      (
        handle_user_message_run env shared client inside shared-DatabaseLaws behind 0 fresh "oi"
            none (ap (λ p. p.0) got_behind),
        got_behind,
      )
      refl

retry_commits_example :
    let (r, sys₁) = in_request connection send behind in
    let (r', sys₂) = in_request connection send sys₁ in
    ((p : Problem) × (respond (λ t. t) (λ t. t) 200 r ≡ err p) × (p.status ≡ 409))
    × SameTables outside behind.store.db sys₁.store.db
    × IsTurnCommitted outside (reset_ttl talked) "oi" [] sys₂.store.db r'
unfolding in_terminal_states
retry_commits_example =
    retry_commits env texts shared client connection inside outside shared-DatabaseLaws shared_laws
      begins stored client_laws (λ k r h. h) (λ k r h. h) (λ id d h. h) (λ id d h. h) (λ id d h. h)
      (λ ps d h. h) (λ d. refl) (λ d. refl) (λ t. t) (λ t. t) behind fresh talked said
      (record { shows_row = λ id. refl; shows_log = λ id. refl; shows_outbox = refl }) cached_behind
      (record { row = refl; log = refl }) (refl, refl, refl, tt) refl (λ e. omega (arith, e)) refl
      refl (omega arith) (omega arith) (omega (arith, behind_reads)) (omega (arith, behind_reads))
      brisk brisk refl (omega arith)
