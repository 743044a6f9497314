-- ===== src/Service/Moved.antt =====
-- `transition` of app/domain/onboarding/service.py over the
-- repository of app/infrastructure/db/repositories/session_repository.py.
use mathlib.Core.List.{append-nil}
use cognaris_chatbot.Prelude.{
  none, ◌∙◌, ℕ, suc, ◌+◌, ◌≡◌, refl, some, [], ◌∷◌, ◌++◌, List, arith, ok, Fails, Outcome,
}
use cognaris_chatbot.Python.{Env, World, field, str, end}
use cognaris_chatbot.Enums.{SessionState, state_value}
use cognaris_chatbot.Errors.{Error, invalid_session_state}
use cognaris_chatbot.Entities.{OnboardingSession, stamp}
use cognaris_chatbot.Entities.Graph.{◌⟶◌}
use cognaris_chatbot.Entities.Commands.{Raises, Raises-cases, transition_to_rejects}
use cognaris_chatbot.Entities.Steps.{touch, transition_to_moves}
use cognaris_chatbot.Entities.Invariant.{IsLog}
use cognaris_chatbot.Events.{DomainEvent, for_session, state_changed}
use cognaris_chatbot.Cache.{Client}
use cognaris_chatbot.Repository.{
  Database, Backend, Pending, SessionRepository, pg_session_repository,
}
use cognaris_chatbot.Repository.Rows.{event_to_model, entity_to_model}
use cognaris_chatbot.Repository.Tables.{Tables, DatabaseLaws}
use cognaris_chatbot.Repository.Load.{IsStored}
use cognaris_chatbot.Repository.Save.{Extends, save_stores}
use cognaris_chatbot.Service
use cognaris_chatbot.Service.{found}
use cognaris_chatbot.Cache
use cognaris_chatbot.Cache.Laws.{reset_ttl}
use cognaris_chatbot.Repository
use cognaris_chatbot.Repository.Load.{get_from_database}
use cognaris_chatbot.Service.{System}

module _ (env : Env) (s : OnboardingSession) (target : SessionState) (w : World) where
  -- the session after the move, and its event
  abbrev moved : OnboardingSession
  moved =
      touch env (suc w.readings)
        (record (stamp target (env.now_at w.readings) s) { state = target })

  abbrev moved_event : DomainEvent
  moved_event =
      (for_session env moved.id state_changed
        (some
          (field "from" (str (state_value s.state)) (field "to" (str (state_value target)) end)))
        (record w { readings = suc (suc w.readings) })).0

  moved-Extends : Extends s moved []
  moved-Extends = ground (arith, append-nil s.messages)

  moved_keeps : (moved.messages ≡ s.messages) × (moved.revision ≡ s.revision + 1)
  moved_keeps = ground arith

  move_run :
      {X : Type 0} (repo : SessionRepository X) (x : X)
      → s.state ⟶ target
      → let saved = repo.save moved s.revision (moved_event ∷ []) x in
        saved.0 ≡ ok tt
        → let (r, sys') = Service.move env repo s target (record { store = x; world = w }) in
          (r ≡ ok moved) × (sys'.store ≡ saved.1)
  unfolding Service.move
  move_run repo x edge h =
      ground (arith, transition_to_moves env (record { session = s; world = w }) target edge, h)

  -- To a state to which the diagram has no edge, the call raises InvalidSessionStateError, and leaves
  -- the store as it was.
  move_refused :
      {X : Type 0} (repo : SessionRepository X) (x : X)
      → ¬ (s.state ⟶ target)
      → let (r, sys') = Service.move env repo s target (record { store = x; world = w }) in
        Raises invalid_session_state r × (sys'.store ≡ x)
  unfolding Service.move
  move_refused repo x no_edge =
      let (refused, kept) =
        transition_to_rejects env target (record { session = s; world = w }) no_edge in
      let (e, raised, is_invalid) = Raises-cases invalid_session_state _ refused in
      ground (arith, raised, is_invalid, kept)

-- The session in its new state is returned and stored, with its event.
pub record IsMoved {D : Type 0} (t : Tables D) (s : OnboardingSession) (target : SessionState)
    (d d' : D) (r : Outcome Error OnboardingSession) : Type 0 where
  pub session : OnboardingSession
  pub event : DomainEvent
  pub returned : r ≡ ok session
  pub state : session.state ≡ target
  pub revision : session.revision ≡ s.revision + 1
  pub messages : session.messages ≡ s.messages
  pub stored : IsStored t d' session
  pub outbox : t.outbox d' ≡ t.outbox d ++ event_to_model event ∷ []
  pub type : event.event_type ≡ state_changed
  pub payload :
      event.payload
      ≡ field "from" (str (state_value s.state)) (field "to" (str (state_value target)) end)

-- Over Postgres, along an edge of the diagram, of a session that is stored and has a valid log, with an
-- idle database session and queries that do not raise: the call returns the session in the target
-- state, the tables hold it, and the outbox has grown by a session.state_changed event that names both
-- states.
move_stores :
    {D R Raw : Type 0} (env : Env) (db : Database D) (c : Client R Raw) (t : Tables D)
    (laws : DatabaseLaws db t) (s : OnboardingSession) (target : SessionState) (w : World)
    (b : Backend D R)
    → s.state ⟶ target
    → b.pending ≡ []
    → IsStored t b.db s
    → IsLog s.id 0 s.messages
    → ((id : ℕ) (d : D) → ¬ (Fails (db.select_session id d).0))
    → ((id : ℕ) (d : D) → ¬ (Fails (db.select_max_sequence id d).0))
    → ((ps : List Pending) (d : D) → ¬ (Fails (db.flush ps d).0))
    → let (r, sys') =
        Service.move env
          (pg_session_repository env db c)
          s
          target
          (record { store = b; world = w }) in
      IsMoved t s target b.db sys'.store.db r
unfolding for_session
move_stores env db c t laws s target w b edge idle stored log up up_max up_flush =
    let s' = moved env s target w in
    let e = moved_event env s target w in
    let (same, bumped) = moved_keeps env s target w in
    let extends = moved-Extends env s target w in
    let log' : IsLog s'.id 0 s'.messages = rw (same, extends.same_id) log in
    let saved =
      save_stores env db c t laws b s s' [] (e ∷ []) idle stored extends log' (up _) (up_max _)
        (up_flush _) in
    let (done, store) = move_run env s target w (pg_session_repository env db c) b edge saved.0 in
    rw store (record {
      session = s';
      event = e;
      returned = done;
      state = refl;
      revision = bumped;
      messages = same;
      stored = saved.1;
      outbox = saved.2;
      type = refl;
      payload = refl;
    })

-- an earlier database with the same outbox, and the session before its TTL was reset
same_outbox-IsMoved :
    {D : Type 0} (t : Tables D) {s : OnboardingSession} {target : SessionState} {d d' d'' : D}
    {r : Outcome Error OnboardingSession}
    → t.outbox d' ≡ t.outbox d
    → IsMoved t (reset_ttl s) target d' d'' r
    → IsMoved t s target d d'' r
same_outbox-IsMoved t same h = record {
  session = h.session;
  event = h.event;
  returned = h.returned;
  state = h.state;
  revision = h.revision;
  messages = h.messages;
  stored = h.stored;
  outbox = rw (← same) h.outbox;
  type = h.type;
  payload = h.payload;
}

-- Over Postgres, along an edge of the diagram, of a session that is stored but not cached and has a
-- valid log, with an idle database session and no query and no flush that raises: `transition` returns
-- the session in the target state with the next revision and the same messages, the tables hold it, and the
-- outbox has grown by a session.state_changed event that names both states.
pub transition_stores :
    {D R Raw : Type 0} (env : Env) (db : Database D) (c : Client R Raw) (t : Tables D)
    (laws : DatabaseLaws db t) (s : OnboardingSession) (target : SessionState)
    (sys : System (Backend D R))
    → s.state ⟶ target
    → sys.store.pending ≡ []
    → IsStored t sys.store.db s
    → IsLog s.id 0 s.messages
    → (Cache.get env c s.id sys.store.cache).0 ≡ ok none
    → ((id : ℕ) (d : D) → ¬ (Fails (db.select_session id d).0))
    → ((id : ℕ) (d : D) → ¬ (Fails (db.select_messages id d).0))
    → ((id : ℕ) (d : D) → ¬ (Fails (db.select_max_sequence id d).0))
    → ((ps : List Pending) (d : D) → ¬ (Fails (db.flush ps d).0))
    → let (r, sys') = Service.transition env (pg_session_repository env db c) s.id target sys in
      IsMoved t s target sys.store.db sys'.store.db r
unfolding Service.transition Service.get_session found entity_to_model
transition_stores env db c t laws s target sys edge idle stored log miss up up_messages up_max
      up_flush =
    let (got, same, kept) =
      get_from_database env db c t laws s sys.store log stored miss (up s.id) (up_messages s.id) in
    let b = (Repository.get env db c s.id sys.store).1 in
    let moves =
      move_stores env db c t laws (reset_ttl s) target sys.world b edge (kept ∙ idle)
        (record { row = same.same_row s.id ∙ stored.row; log = same.same_log s.id ∙ stored.log })
        log up up_max up_flush in
    rw got (same_outbox-IsMoved t same.same_outbox moves)
