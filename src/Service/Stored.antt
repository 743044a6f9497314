-- ===== src/Service/Stored.antt =====
-- A turn of app/domain/onboarding/service.py over the repository of
-- app/infrastructure/db/repositories/session_repository.py: what it leaves in the tables.
use Prim.Native.String.{◌++◌ as append_text}
use mathlib.Core.List.{append_assoc}
use cognaris_chatbot.Cache
use cognaris_chatbot.Cache.Laws.{reset_ttl}
use cognaris_chatbot.Errors.{Error}
use cognaris_chatbot.Repository
use cognaris_chatbot.Repository.Load.{get_from_database}
use cognaris_chatbot.Repository.Rows.{entity_to_model}
use cognaris_chatbot.Entities.{default_ttl}
use cognaris_chatbot.Prelude.{Outcome, some, Fails}
use cognaris_chatbot.Service.{handle_user_message, get_session, found}
use cognaris_chatbot.Prelude.{
  some, ℕ, suc, ◌<◌, ◌≤◌, ◌≡◌, refl, ◌∙◌, false, String, count, Option, none, [], ◌∷◌, ◌++◌, List,
  arith, ok, Fails, map, pos,
}
use cognaris_chatbot.Python.{Env, World, Fields, field, str, int, end}
use cognaris_chatbot.Enums.{user, assistant, in_terminal_states}
use cognaris_chatbot.Entities.{ConversationMessage, OnboardingSession}
use cognaris_chatbot.Entities.Message.{is_refused}
use cognaris_chatbot.Entities.Commands.{append_message_succeeds}
use cognaris_chatbot.Entities.Invariant.{IsLog, IsLog-append}
use cognaris_chatbot.Events.{DomainEvent, for_session, message_appended}
use cognaris_chatbot.Cache.{Client}
use cognaris_chatbot.Repository.{
  Database, Backend, Pending, SessionRepository, pg_session_repository,
}
use cognaris_chatbot.Repository.Rows.{event_to_model}
use cognaris_chatbot.Repository.Tables.{Tables, DatabaseLaws}
use cognaris_chatbot.Repository.Load.{IsStored}
use cognaris_chatbot.Repository.Save.{Extends, save_stores}
use cognaris_chatbot.Service.{System, echo_prefix, converse, record_turn}
use cognaris_chatbot.Service.Calls.{
  IsBrisk, Turn, later, user_turn, after_user, assistant_turn, after_assistant, converse_run,
  stays_open, echo_fits, two_turns,
}

-- The call has returned the session of the turn with its two messages; the tables hold that session,
-- and the outbox has grown by the two events of the turn.
pub record IsTurnStored {D : Type 0} (t : Tables D) (s : OnboardingSession) (content : String)
    (d d' : D) (r : Outcome Error (OnboardingSession × ConversationMessage × ConversationMessage))
    : Type 0 where
  pub session : OnboardingSession
  pub user_msg : ConversationMessage
  pub assistant_msg : ConversationMessage
  pub event : DomainEvent
  pub event' : DomainEvent
  pub returned : r ≡ ok (session, user_msg, assistant_msg)
  pub turn : Turn s content session user_msg assistant_msg
  pub stored : IsStored t d' session
  pub outbox : t.outbox d' ≡ t.outbox d ++ map event_to_model (event ∷ event' ∷ [])
  pub types : (event.event_type ≡ message_appended) × (event'.event_type ≡ message_appended)
  pub aggregates : (event.aggregate_id ≡ s.id) × (event'.aggregate_id ≡ s.id)

-- an earlier database with the same outbox
same_outbox-IsTurnStored :
    {D : Type 0} (t : Tables D) {s : OnboardingSession} {content : String} {d d' d'' : D}
    {r : Outcome Error (OnboardingSession × ConversationMessage × ConversationMessage)}
    → t.outbox d' ≡ t.outbox d
    → IsTurnStored t s content d' d'' r
    → IsTurnStored t s content d d'' r
same_outbox-IsTurnStored t same h = record {
  session = h.session;
  user_msg = h.user_msg;
  assistant_msg = h.assistant_msg;
  event = h.event;
  event' = h.event';
  returned = h.returned;
  turn = h.turn;
  stored = h.stored;
  outbox = rw (← same) h.outbox;
  types = h.types;
  aggregates = h.aggregates;
}

-- the events of a turn
abbrev turn_event :
    Env → OnboardingSession → String → ConversationMessage → World → DomainEvent × World
turn_event env s role m w =
    for_session env s.id message_appended
      (some (field "role" (str role) (field "sequence" (int (pos m.sequence)) end))) w

abbrev pub turn_events :
    Env → OnboardingSession → ConversationMessage → ConversationMessage → World → List DomainEvent
turn_events env s m m' w =
    let (e, w') = turn_event env s "user" m w in
    let (e', w'') = turn_event env s "assistant" m' w' in e ∷ e' ∷ []

record_turn_run :
    {X : Type 0} (env : Env) (repo : SessionRepository X) (s : OnboardingSession) (revision : ℕ)
    (m m' : ConversationMessage) (sys : System X)
    → let saved = repo.save s revision (turn_events env s m m' sys.world) sys.store in
      saved.0 ≡ ok tt
      → ((record_turn env repo s revision m m' sys).0 ≡ ok (s, m, m'))
        × ((record_turn env repo s revision m m' sys).1.store ≡ saved.1)
unfolding record_turn
record_turn_run env repo s revision m m' sys h = ground (arith, h)

module _ {X : Type 0} (env : Env) (repo : SessionRepository X) (sys : System X)
    (s : OnboardingSession) (content : String) (rich_payload : Option Fields) where
  -- the two messages of a turn continue the log
  turn-Extends : Extends s (after_assistant env repo sys s content rich_payload).session (
      user_turn env repo sys s content rich_payload
      ∷ assistant_turn env repo sys s content rich_payload
      ∷ [])
  turn-Extends = record {
    same_id = refl;
    same_user = refl;
    same_locale = refl;
    same_platform = refl;
    same_start = refl;
    grown = append_assoc s.messages _ _;
  }

  turn-IsLog :
      is_refused content rich_payload ≡ false
      → count content ≤ 7979
      → IsLog s.id 0 s.messages
      → IsLog s.id 0 (after_assistant env repo sys s content rich_payload).session.messages
  turn-IsLog fits short log =
      let m = user_turn env repo sys s content rich_payload in
      IsLog-append s.id 0 (s.messages ++ m ∷ [])
        (assistant_turn env repo sys s content rich_payload)
        (IsLog-append s.id 0 s.messages m log refl (omega arith) fits) refl (omega arith)
        (echo_fits content (omega arith))

module _ {D R Raw : Type 0} (env : Env) (db : Database D) (c : Client R Raw) (t : Tables D)
    (laws : DatabaseLaws db t) where
  abbrev repo : SessionRepository (Backend D R)
  repo = pg_session_repository env db c

  -- Over Postgres, in an open session that is stored, has a valid log and is before its deadline, with
  -- an acceptable message of at most 7979 characters, a brisk clock, an idle database session and
  -- queries that do not raise: the call returns the session of the turn with its two messages, the
  -- tables hold that session, and the outbox has grown by two message_appended events of the session.
  converse_stores :
      (sys : System (Backend D R)) (s : OnboardingSession) (content : String)
      (rich_payload : Option Fields)
      → in_terminal_states s.state ≡ false
      → env.now_at sys.world.readings < s.expires_at
      → env.now_at (suc sys.world.readings) < s.expires_at
      → IsBrisk env s.ttl
      → is_refused content rich_payload ≡ false
      → count content ≤ 7979
      → sys.store.pending ≡ []
      → IsStored t sys.store.db s
      → IsLog s.id 0 s.messages
      → ((d : D) → ¬ (Fails (db.select_session s.id d).0))
      → ((d : D) → ¬ (Fails (db.select_max_sequence s.id d).0))
      → ((ps : List Pending) (d : D) → ¬ (Fails (db.flush ps d).0))
      → let (r, sys') = converse env repo s content rich_payload sys in
        IsTurnStored t s content sys.store.db sys'.store.db r
  unfolding for_session
  converse_stores sys s content rich_payload alive live live' brisk fits short idle stored log up
        up_max up_flush =
      let m = user_turn env repo sys s content rich_payload in
      let m' = assistant_turn env repo sys s content rich_payload in
      let l2 = after_assistant env repo sys s content rich_payload in
      let es = turn_events env l2.session m m' l2.world in
      let ran =
        converse_run env repo sys s content rich_payload _ _ _ _ live
          (append_message_succeeds env user content rich_payload none
            (record { session = s; world = later env repo sys }) alive live' fits)
          (append_message_succeeds env assistant (append_text echo_prefix content) none none
            (after_user env repo sys s content rich_payload)
            (stays_open env repo sys s content rich_payload alive) (brisk _)
            (echo_fits content (omega arith))) in
      let saved =
        save_stores env db c t laws sys.store s l2.session (m ∷ m' ∷ []) es idle stored
          (turn-Extends env repo sys s content rich_payload)
          (turn-IsLog env repo sys s content rich_payload fits short log) up up_max (up_flush _) in
      let (done, store) =
        record_turn_run env repo l2.session s.revision m m'
          (record { store = sys.store; world = l2.world }) saved.0 in
      rw (ran, store)
        (record {
          session = l2.session;
          user_msg = m;
          assistant_msg = m';
          event = _;
          event' = _;
          returned = done;
          turn = two_turns env repo sys s content rich_payload;
          stored = saved.1;
          outbox = saved.2;
          types = (refl, refl);
          aggregates = (refl, refl);
        })

  -- a session that the repository returns
  pub handle_user_message_run :
      (sys : System (Backend D R)) (id : ℕ) (s : OnboardingSession) (content : String)
      (rich_payload : Option Fields)
      → (Repository.get env db c id sys.store).0 ≡ ok (some s)
      → handle_user_message env repo id content rich_payload sys
        ≡ converse env repo s content rich_payload
            (record sys { store = (Repository.get env db c id sys.store).1 })
  unfolding handle_user_message get_session found
  handle_user_message_run sys id s content rich_payload h = ground (arith, h)

  -- Over Postgres, for an open session that is stored but not cached, has a valid log and is before
  -- its deadline, with an acceptable message of at most 7979 characters, a clock that is brisk for the
  -- default TTL, an idle database session and queries that do not raise: the session is loaded with the
  -- default TTL, the call returns the session of its turn with the two messages, the tables hold that
  -- session, and the outbox has grown by two message_appended events of the session.
  pub handle_user_message_stores :
      (sys : System (Backend D R)) (s : OnboardingSession) (content : String)
      (rich_payload : Option Fields)
      → in_terminal_states s.state ≡ false
      → env.now_at sys.world.readings < s.expires_at
      → env.now_at (suc sys.world.readings) < s.expires_at
      → IsBrisk env default_ttl
      → is_refused content rich_payload ≡ false
      → count content ≤ 7979
      → sys.store.pending ≡ []
      → IsStored t sys.store.db s
      → IsLog s.id 0 s.messages
      → (Cache.get env c s.id sys.store.cache).0 ≡ ok none
      → ((d : D) → ¬ (Fails (db.select_session s.id d).0))
      → ((d : D) → ¬ (Fails (db.select_messages s.id d).0))
      → ((d : D) → ¬ (Fails (db.select_max_sequence s.id d).0))
      → ((ps : List Pending) (d : D) → ¬ (Fails (db.flush ps d).0))
      → let (r, sys') = handle_user_message env repo s.id content rich_payload sys in
        IsTurnStored t (reset_ttl s) content sys.store.db sys'.store.db r
  unfolding entity_to_model
  handle_user_message_stores sys s content rich_payload alive live live' brisk fits short idle
        stored log miss up up_messages up_max up_flush =
      let (got, same, kept) =
        get_from_database env db c t laws s sys.store log stored miss up up_messages in
      let store = (Repository.get env db c s.id sys.store).1 in
      let turn =
        converse_stores (record sys { store = store }) (reset_ttl s) content rich_payload alive live
          live' brisk fits short (kept ∙ idle)
          (record { row = same.same_row s.id ∙ stored.row; log = same.same_log s.id ∙ stored.log })
          log up up_max up_flush in
      rw (handle_user_message_run sys s.id (reset_ttl s) content rich_payload got)
        (same_outbox-IsTurnStored t same.same_outbox turn)
