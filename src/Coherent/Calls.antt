-- ===== src/Coherent/Calls.antt =====
-- The calls of app/domain/onboarding/service.py that the API makes, over tables and a cache that agree,
-- whatever raises.
use mathlib.Core.List.{append-nil}
use cognaris_chatbot.Prelude.{
  Outcome-cases, ℕ, String, ◌≡◌, refl, sym, ◌∙◌, subst, inl, inr, Option, none, some, Outcome, ok,
  [], pure,
}
use cognaris_chatbot.Python.{Env, World, TextLaws, Fields, str, field, end}
use cognaris_chatbot.Errors.{Error}
use cognaris_chatbot.Enums.{assistant, ClientPlatform}
use cognaris_chatbot.Python
use cognaris_chatbot.Entities.{OnboardingSession, create, default_ttl}
use cognaris_chatbot.Entities.Commands.{new_message, with_message}
use cognaris_chatbot.Entities.Invariant.{create-IsValid}
use cognaris_chatbot.Cache.{Client, key}
use cognaris_chatbot.Cache.Laws.{ClientLaws, IsDict}
use cognaris_chatbot.Repository
use cognaris_chatbot.Repository.{Database, Backend, SessionRepository, pg_session_repository}
use cognaris_chatbot.Repository.Tables.{Tables, SameTables, DatabaseLaws}
use cognaris_chatbot.Service
use cognaris_chatbot.Service.{
  System, refuse_expired, record_turn, converse, handle_user_message, found, greeting, echo_prefix,
  on_session, on_repo, new_event,
}
use cognaris_chatbot.Coherent.{IsGood, AllAgree, AllHeld, Ends}
use cognaris_chatbot.Coherent.Reads.{IsLoaded, get-Loads}
use cognaris_chatbot.Coherent.Adds.{add-Ends}
use cognaris_chatbot.Coherent.Turns.{append_cases, with_message-IsGood}
use cognaris_chatbot.Coherent.Converse.{fails-Ends, continue-Ends, converse-Ends}

module _ {D R Raw : Type 0} (env : Env) (texts : TextLaws env) (db : Database D) (c : Client R Raw)
    (t : Tables D) (laws : DatabaseLaws db t) (stored : R → String → Option Raw)
    (cache_laws : ClientLaws c stored) where
  abbrev repo : SessionRepository (Backend D R)
  repo = pg_session_repository env db c

  abbrev EndsWith : {A : Type 0} → D → Outcome Error A → Backend D R → Type 0
  EndsWith d r b = Ends env c stored t d r b

  -- what has been read, and nothing written
  read-Ends :
      {A : Type 0} (r : Outcome Error A) (d : D) (b : Backend D R)
      → SameTables t d b.db
      → AllHeld t d
      → AllAgree env c stored t d b.cache
      → EndsWith d r b
  read-Ends r d b same held agree = record {
    before = agree;
    after = inr (
      λ id. rw (same.same_row id, same.same_log id) (held id),
      λ id. rw (same.same_row id, same.same_log id) (agree id),
      λ id. ([], same.same_log id ∙ sym (append-nil (t.log d id))),
    );
  }

  own-IsLoaded :
      (id : ℕ) (s : OnboardingSession) (d : D) (r : R)
      → IsLoaded env texts db c t laws stored cache_laws id d r (ok (some s))
      → IsLoaded env texts db c t laws stored cache_laws s.id d r (ok (some s))
  own-IsLoaded id s d r h =
      subst (λ i. IsLoaded env texts db c t laws stored cache_laws i d r (ok (some s))) (sym h.0) h

  created-IsGood :
      (user_id : ℕ) (locale : String) (client_platform : ClientPlatform) (w : World)
      → IsGood (create env user_id locale client_platform default_ttl w).session
  unfolding create
  created-IsGood user_id locale client_platform w = record {
    valid = create-IsValid env user_id locale client_platform default_ttl w;
    dicts = tt;
    ttl = refl;
  }

  created_id :
      (user_id : ℕ) (locale : String) (client_platform : ClientPlatform) (w : World)
      → (create env user_id locale client_platform default_ttl w).session.id ≡ env.id_at w.draws
  unfolding create Python.utcnow Python.new_id
  created_id user_id locale client_platform w = refl

  -- an identifier that neither the tables nor the cache know
  abbrev pub IsUnused : ℕ → Backend D R → Type 0
  IsUnused id b =
      (t.row b.db id ≡ none) × (t.log b.db id ≡ []) × (stored b.cache (key env id) ≡ none)

  module _ (sys : System (Backend D R)) (held : AllHeld t sys.store.db)
      (agree : AllAgree env c stored t sys.store.db sys.store.cache) where
    pub get_session-Ends :
        (id : ℕ)
        → let (r, sys') = Service.get_session env repo id sys in EndsWith sys.store.db r sys'.store
    unfolding Service.get_session found
    get_session-Ends id =
        let loads = get-Loads env texts db c t laws stored cache_laws id sys.store held agree in
        let b = (Repository.get env db c id sys.store).1 in
        elim (Outcome-cases (Repository.get env db c id sys.store).0) [
          | inr (e, raised) ↦ rw raised (read-Ends _ sys.store.db b loads.same held loads.agrees)
          | inl (none, missing) ↦
              rw missing (read-Ends _ sys.store.db b loads.same held loads.agrees)
          | inl (some s, answered) ↦
              rw answered (read-Ends _ sys.store.db b loads.same held loads.agrees)
        ]

    pub handle_user_message-Ends :
        (id : ℕ) (content : String) (rich_payload : Option Fields)
        → sys.store.pending ≡ []
        → IsDict rich_payload
        → let (r, sys') = handle_user_message env repo id content rich_payload sys in
          EndsWith sys.store.db r sys'.store
    unfolding handle_user_message Service.get_session found
    handle_user_message-Ends id content rich_payload idle dict =
        let loads = get-Loads env texts db c t laws stored cache_laws id sys.store held agree in
        let b = (Repository.get env db c id sys.store).1 in
        elim (Outcome-cases (Repository.get env db c id sys.store).0) [
          | inr (e, raised) ↦
              rw raised
                (fails-Ends env texts db c t laws stored cache_laws sys.store.db e b loads.agrees)
          | inl (none, missing) ↦
              rw missing
                (fails-Ends env texts db c t laws stored cache_laws sys.store.db _ b loads.agrees)
          | inl (some s, answered) ↦ rw answered (
              converse-Ends env texts db c t laws stored cache_laws sys.store.db b s loads.same
                (loads.idle ∙ idle) held loads.agrees
                (own-IsLoaded id s sys.store.db b.cache (
                  subst (IsLoaded env texts db c t laws stored cache_laws id sys.store.db b.cache)
                    answered loads.loaded))
                sys.world content rich_payload dict)
        ]

    pub start_session-Ends :
        (user_id : ℕ) (locale : String) (client_platform : ClientPlatform)
        → sys.store.pending ≡ []
        → IsUnused (env.id_at sys.world.draws) sys.store
        → let (r, sys') = Service.start_session env repo user_id locale client_platform sys in
          EndsWith sys.store.db r sys'.store
    unfolding Service.start_session
    start_session-Ends user_id locale client_platform idle (no_row, no_log, gone) =
        let l = create env user_id locale client_platform default_ttl sys.world in
        let created : l.session.id ≡ env.id_at sys.world.draws =
          created_id user_id locale client_platform sys.world in
        elim (append_cases env assistant greeting none none l) [
          | inl (e, raised) ↦
              rw raised
                (fails-Ends env texts db c t laws stored cache_laws sys.store.db e sys.store agree)
          | inr greeted ↦ rw greeted (
              continue-Ends env texts db c t laws stored cache_laws sys.store.db _ (λ _. pure _) _
                (λ _ sys'. refl)
                (add-Ends env texts db c t laws stored cache_laws sys.store
                  (with_message env assistant (new_message env assistant greeting none none l)
                    l).session
                  _ idle held agree (rw created no_row) (rw created no_log) (rw created gone)
                  (with_message-IsGood env assistant greeting none none l greeted
                    (created-IsGood user_id locale client_platform sys.world) tt tt)))
        ]
