-- ===== src/Tests/Races.antt =====
-- Two requests on one session, and what `get` answers after a save.
use cognaris_chatbot.Cache.Laws.{reset_ttl}
use cognaris_chatbot.Repository.{save_over}
use cognaris_chatbot.Repository.{Backend, pg_session_repository}
use cognaris_chatbot.Prelude.{◌≡◌, refl, ok, err, some, [], ◌∷◌, ◌++◌, arith, map, pos}
use cognaris_chatbot.Entities.{ConversationMessage, OnboardingSession}
use cognaris_chatbot.Cache.Laws.{reset_ttl}
use cognaris_chatbot.Repository
use cognaris_chatbot.Repository.{
  Database, Backend, stale, or_load, load, pg_session_repository, SessionRepository,
}
use cognaris_chatbot.Repository.Rows.{message_entity_to_model, event_to_model}
use cognaris_chatbot.Repository.Tables.{SameTables}
use cognaris_chatbot.Repository.Overlap.{overlap, overlapping_saves, second_save_refused}
use cognaris_chatbot.Repository.Coherence.{get_after_save}
use cognaris_chatbot.Tests.Domain.{fresh}
use cognaris_chatbot.Tests.Storage.{storable, talked, message, appended, backend, old_store}
use cognaris_chatbot.Tests.Fixtures.{
  env, texts, client, stored, client_laws, database, tables, database_laws,
}

-- another message under the number of `message`
abbrev other_message : ConversationMessage
other_message = record message { id = 5; content = "olá" }

abbrev other : OnboardingSession
other = record talked { messages = other_message ∷ [] }

overlapping_saves_example :
    let (r, r', b') =
      overlap env database client talked other 0
        (appended ∷ [])
        (appended ∷ [])
        (backend old_store) in
    (r ≡ ok tt)
    × (r' ≡ ok tt)
    × (tables.log b'.db 0 ≡ map message_entity_to_model (message ∷ []))
    × (tables.outbox b'.db ≡ ([] ++ event_to_model appended ∷ []) ++ event_to_model appended ∷ [])
overlapping_saves_example =
    overlapping_saves env database client tables database_laws (backend old_store) fresh talked
      other (message ∷ []) (other_message ∷ []) (appended ∷ []) (appended ∷ []) refl
      (record { row = refl; log = refl })
      (record {
        same_id = refl;
        same_user = refl;
        same_locale = refl;
        same_platform = refl;
        same_start = refl;
        grown = refl;
      })
      (record {
        same_id = refl;
        same_user = refl;
        same_locale = refl;
        same_platform = refl;
        same_start = refl;
        grown = refl;
      })
      (refl, refl, refl, tt) (refl, refl, refl, tt) (omega arith) (λ id d h. h) (λ id d h. h)
      (λ ps d h. h)

second_save_refused_example :
    let (r, b') = Repository.save env database client talked 0 [] (backend old_store) in
    let (r', b'') = Repository.save env database client other 0 [] b' in
    (r ≡ ok tt) × (r' ≡ err (stale env 0 (pos 2))) × SameTables tables b'.db b''.db
second_save_refused_example =
    second_save_refused env database client tables database_laws (backend old_store) fresh talked
      other (message ∷ []) (other_message ∷ []) [] [] refl (record { row = refl; log = refl })
      (record {
        same_id = refl;
        same_user = refl;
        same_locale = refl;
        same_platform = refl;
        same_start = refl;
        grown = refl;
      })
      (record {
        same_id = refl;
        same_user = refl;
        same_locale = refl;
        same_platform = refl;
        same_start = refl;
        grown = refl;
      })
      (refl, refl, refl, tt) (λ e. omega (arith, e)) (λ id d h. h) (λ id d h. h) (λ ps d h. h)

get_after_save_example :
    let (r, b') = Repository.save env database client talked 0 [] (backend old_store) in
    (r ≡ ok tt) × ((Repository.get env database client 0 b').0 ≡ ok (some (reset_ttl talked)))
get_after_save_example =
    get_after_save env texts database client tables database_laws stored client_laws (λ k r h. h)
      (backend old_store) fresh talked (message ∷ []) [] refl (record { row = refl; log = refl })
      (record {
        same_id = refl;
        same_user = refl;
        same_locale = refl;
        same_platform = refl;
        same_start = refl;
        grown = refl;
      })
      storable (λ d h. h) (λ d h. h) (λ d h. h) (λ k v ttl r h. h)
