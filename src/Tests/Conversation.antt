-- ===== src/Tests/Conversation.antt =====
-- The theorems on app/domain/onboarding/service.py, at a message that is answered and at one whose
-- echo is too long.
use cognaris_chatbot.Python.{get}
use Prim.Native.String.{[]}
use cognaris_chatbot.Prelude.{true, err}
use cognaris_chatbot.Repository.Tables.{SameTables}
use cognaris_chatbot.Api.{SendMessageRequest, Problem, fits_message, send_message, respond}
use cognaris_chatbot.Api.Overflow.{send_message_overflows}
use cognaris_chatbot.Prelude.{some}
use cognaris_chatbot.Cache
use cognaris_chatbot.Service
use cognaris_chatbot.Enums.{new, in_progress, completed}
use cognaris_chatbot.Entities.Graph.{◌⟶◌, begin}
use cognaris_chatbot.Repository.Rows.{entity_to_model}
use cognaris_chatbot.Service.{start_session, handle_user_message}
use cognaris_chatbot.Service.Moved.{IsMoved, transition_stores}
use cognaris_chatbot.Tests.Fixtures.{tables, database_laws}
use cognaris_chatbot.Prelude.{false, ◌≡◌, refl, none, arith, String, []}
use cognaris_chatbot.Enums.{in_terminal_states}
use cognaris_chatbot.Entities.{default_ttl}
use cognaris_chatbot.Entities.Message.{is_refused}
use cognaris_chatbot.Repository.{Backend, pg_session_repository, SessionRepository}
use cognaris_chatbot.Service.{System, converse, record_turn}
use cognaris_chatbot.Service.Calls.{IsBrisk}
use cognaris_chatbot.Tests.Domain.{fresh}
use cognaris_chatbot.Tests.Fixtures.{
  env, Server, client, Store, database, world, unary, count-unary, unary-not_empty,
}

abbrev repo : SessionRepository (Backend Store Server)
repo = pg_session_repository env database client

abbrev sys : System (Backend Store Server)
sys = record {
  store = record {
    db = record { rows = λ id. none; logs = λ id. []; events = [] };
    pending = [];
    cache = λ k. none;
  };
  world = world;
}

pub brisk : IsBrisk env default_ttl
brisk k = omega arith

-- a text of 8000 characters
abbrev long : String
long = unary 8000

long_fits : is_refused long none ≡ false
long_fits = ground (arith, count-unary 8000, unary-not_empty 7999)

abbrev in_tables : Backend Store Server
in_tables = record {
  db = record { rows = λ id. some (entity_to_model fresh); logs = λ id. []; events = [] };
  pending = [];
  cache = λ k. none;
}

transition_stores_example :
    let (r, sys') =
      Service.transition env repo 0 in_progress (record { store = in_tables; world = world }) in
    IsMoved tables fresh in_progress in_tables.db sys'.store.db r
unfolding Cache.get
transition_stores_example =
    transition_stores env database client tables database_laws fresh in_progress
      (record { store = in_tables; world = world }) begin refl (record { row = refl; log = refl })
      tt refl (λ id d h. h) (λ id d h. h) (λ id d h. h) (λ ps d h. h)

new-completed : ¬ (new ⟶ completed)
new-completed e = elim e [ ]

abbrev long_body : SendMessageRequest
long_body = record { content = long; rich_payload = none }

long_body_fits : fits_message long_body ≡ true
unfolding fits_message
long_body_fits = ground (arith, count-unary 8000)

send_message_overflows_example :
    let (r, sys') =
      send_message env repo 0 long_body (record { store = in_tables; world = world }) in
    (p : Problem) × (respond (λ t. t) (λ t. t) 200 r ≡ err p)
    × (p.status ≡ 422)
    × SameTables tables in_tables.db sys'.store.db
unfolding in_terminal_states Cache.get
send_message_overflows_example =
    send_message_overflows env database client tables database_laws (λ t. t) (λ t. t)
      (record { store = in_tables; world = world }) fresh long_body refl (omega arith) (omega arith)
      brisk long_body_fits (omega (arith, count-unary 8000)) (record { row = refl; log = refl }) tt
      refl (λ d h. h) (λ d h. h)
