-- ===== src/Tests/Storage.antt =====
-- The theorems on app/infrastructure/cache/session_cache.py and on
-- app/infrastructure/db/repositories/session_repository.py, at stores that meet their conditions.
use cognaris_chatbot.Cache.Answers.{IsAnswer, IsCorrupt, get_lem}
use cognaris_chatbot.Coherent.Refused.{IsRefused, IsUntouched, save_refuses}
use cognaris_chatbot.Coherent.Reads.{some-inj}
use cognaris_chatbot.Errors.{untyped}
use cognaris_chatbot.Repository.Rows.{SessionRow}
use cognaris_chatbot.Python.{Json}
use cognaris_chatbot.Prelude.{
  ℕ, ap, ap, ℕ, ◌≢◌, subst, sym, ◌≡◌, ◌⊎◌, refl, none, some, [], ◌∷◌, ◌++◌, arith, ok, err,
}
use cognaris_chatbot.Python.{Json, obj, UniqueFields, get, str, field, end}
use cognaris_chatbot.Errors.{redis_error}
use cognaris_chatbot.Enums.{user, in_progress}
use cognaris_chatbot.Entities.{OnboardingSession, ConversationMessage, default_ttl}
use cognaris_chatbot.Events.{DomainEvent, message_appended}
use cognaris_chatbot.Cache
use cognaris_chatbot.Cache.{Client, key, parse, is_corruption}
use cognaris_chatbot.Cache.Json.{serialize, deserialize, index}
use cognaris_chatbot.Cache.RoundTrip.{deserialize-serialize}
use cognaris_chatbot.Cache.Laws.{IsStorable, set_lem}
use cognaris_chatbot.Repository
use cognaris_chatbot.Repository.{Backend, stale}
use cognaris_chatbot.Repository.Rows.{entity_to_model, message_entity_to_model, event_to_model}
use cognaris_chatbot.Repository.Load.{IsStored}
use cognaris_chatbot.Repository.Save.{save_stores}
use cognaris_chatbot.Tests.Domain.{fresh}
use cognaris_chatbot.Repository.Add.{add_stores}
use cognaris_chatbot.Repository.{Database, already_exists}
use cognaris_chatbot.Tests.Fixtures.{
  env, texts, Server, client, stored, client_laws, Store, database, tables, database_laws,
}

abbrev pub message : ConversationMessage
message = record {
  id = 1;
  session_id = 0;
  role = user;
  content = "oi";
  sequence = 0;
  created_at = 2;
  rich_payload = none;
  metadata = some (field "lang" (str "pt") end);
}

abbrev pub talked : OnboardingSession
talked = record fresh { state = in_progress; revision = 2; messages = message ∷ [] }

-- a server with the same entry under every key
abbrev pub holding : Json → Server
holding j k = some j

-- tables with the new session and nothing else, and one with the talk
abbrev pub old_store : Store
old_store = record { rows = λ id. some (entity_to_model fresh); logs = λ id. []; events = [] }

abbrev pub talked_store : Store
talked_store = record {
  rows = λ id. some (entity_to_model talked);
  logs = λ id. message_entity_to_model message ∷ [];
  events = [];
}

abbrev pub empty_store : Store
empty_store = record { rows = λ id. none; logs = λ id. []; events = [] }

abbrev pub backend : Store → Backend Store Server
backend d = record { db = d; pending = []; cache = λ k. none }

abbrev pub appended : DomainEvent
appended = record {
  id = 2;
  aggregate_id = 0;
  aggregate_type = "onboarding_session";
  event_type = message_appended;
  payload = end;
  occurred_at = 3;
}

pub storable : IsStorable talked
unfolding UniqueFields get
storable = record { log = (refl, refl, refl, tt); dicts = (tt, (refl, tt, tt), tt) }

deserialize-serialize_example :
    deserialize env (serialize env talked) ≡ ok (record talked { ttl = default_ttl })
deserialize-serialize_example = deserialize-serialize env texts talked (refl, refl, refl, tt)

set_lem_example :
    let (done, r') = Cache.set env client talked (holding (obj end)) in
    (done ≡ ok tt)
    × ((stored r' (key env 0) ≡ some (serialize env talked))
        ⊎ (stored r' (key env 0) ≡ some (obj end)))
    × (stored r' (key env 1) ≡ some (obj end))
set_lem_example =
    set_lem env client stored texts client_laws talked (holding (obj end)) 1 (λ e. omega (arith, e))

-- a server that cannot be reached
abbrev unreachable : Client Server Json
unreachable = record client { client_get = λ k r. (err redis_error, r) }

save_stores_example :
    let (r, b') =
      Repository.save env database client talked 0 (appended ∷ []) (backend old_store) in
    (r ≡ ok tt)
    × IsStored tables b'.db talked
    × (tables.outbox b'.db ≡ [] ++ event_to_model appended ∷ [])
    × (b'.pending ≡ [])
save_stores_example =
    save_stores env database client tables database_laws (backend old_store) fresh talked
      (message ∷ []) (appended ∷ []) refl (record { row = refl; log = refl })
      (record {
        same_id = refl;
        same_user = refl;
        same_locale = refl;
        same_platform = refl;
        same_start = refl;
        grown = refl;
      })
      (refl, refl, refl, tt) (λ d h. h) (λ d h. h) (λ d h. h)

add_stores_example :
    let (r, b') = Repository.add env database client talked (appended ∷ []) (backend empty_store) in
    (r ≡ ok tt)
    × IsStored tables b'.db talked
    × (tables.outbox b'.db ≡ [] ++ event_to_model appended ∷ [])
    × (b'.pending ≡ [])
add_stores_example =
    add_stores env database client tables database_laws (backend empty_store) talked (appended ∷ [])
      refl refl (refl, refl, refl, tt) (λ h. h)

key_error-typed : (j : Json) → obj end ≡ j → parse env client j ≢ err untyped
unfolding parse deserialize index get
key_error-typed j e same = cc (subst (λ x. parse env client x ≡ err untyped) (sym e) same)

-- an entry that is JSON, but no session
get_lem_example :
    let (o, r') = Cache.get env client 0 (holding (obj end)) in
    IsAnswer env client stored texts client_laws (ok (some (obj end))) (some (obj end)) o
    × ((other : ℕ) → other ≢ 0 → stored r' (key env other) ≡ some (obj end))
    × ((stored r' (key env 0) ≡ some (obj end))
        ⊎ ((stored r' (key env 0) ≡ none)
            × IsCorrupt env client stored texts client_laws (some (obj end))))
get_lem_example =
    get_lem env client stored texts client_laws 0 (holding (obj end))
      (λ raw e. key_error-typed raw (some-inj e))

-- the tables hold revision 0, and 5 is expected
save_refuses_example :
    let (r, b') = Repository.save env database client talked 5 [] (backend old_store) in
    IsRefused env texts database client tables database_laws stored client_laws
      (backend old_store)
      talked
      5
      []
      (tables.row old_store 0)
      r
    × IsUntouched env texts database client tables database_laws stored client_laws
        (backend old_store)
        talked
        5
        []
        b'
unfolding entity_to_model
save_refuses_example =
    save_refuses env texts database client tables database_laws stored client_laws
      (backend old_store) talked 5 []
      (λ row e same. omega (arith, same, ap (λ (x : SessionRow). x.revision) (some-inj e)))
