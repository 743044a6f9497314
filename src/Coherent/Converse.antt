-- ===== src/Coherent/Converse.antt =====
-- The turn of `handle_user_message` of app/domain/onboarding/service.py, over tables and a cache that agree,
-- whatever raises.
use Prim.Native.String.{◌++◌ as append_text}
use mathlib.Core.List.{append_assoc}
use cognaris_chatbot.Prelude.{
  Outcome-cases, suc, String, ◌≡◌, refl, sym, ◌∙◌, ap, subst, ◌⊎◌, inl, inr, Option, none, some,
  Outcome, ok, err, arith, List, [], ◌∷◌, ◌++◌, ◌<◌, Exec, continue, ◌>>=◌, pure,
}
use cognaris_chatbot.Python.{Env, World, TextLaws, Fields, str, field, end}
use cognaris_chatbot.Errors.{Error}
use cognaris_chatbot.Enums.{MessageRole, user, assistant}
use cognaris_chatbot.Entities
use cognaris_chatbot.Python
use cognaris_chatbot.Entities.{
  OnboardingSession, ConversationMessage, append_message, Live, create, default_ttl,
}
use cognaris_chatbot.Entities.Commands.{new_message, with_message}
use cognaris_chatbot.Cache.{Client, key}
use cognaris_chatbot.Cache.Json.{serialize}
use cognaris_chatbot.Cache.Laws.{ClientLaws, IsDict}
use cognaris_chatbot.Repository.{Database, Backend, SessionRepository, pg_session_repository}
use cognaris_chatbot.Repository.Save.{Extends}
use cognaris_chatbot.Repository.Tables.{Tables, SameTables, DatabaseLaws}
use cognaris_chatbot.Service.{
  System, refuse_expired, record_turn, converse, echo_prefix, on_session,
}
use cognaris_chatbot.Coherent.{IsGood, IsCurrent, AllAgree, AllHeld, Ends}
use cognaris_chatbot.Coherent.Reads.{IsLoaded}
use cognaris_chatbot.Coherent.Writes.{IsOlder}
use cognaris_chatbot.Coherent.Saves.{save-Ends}
use cognaris_chatbot.Coherent.Turns.{append_cases, with_message-IsGood}

module _ {D R Raw : Type 0} (env : Env) (texts : TextLaws env) (db : Database D) (c : Client R Raw)
    (t : Tables D) (laws : DatabaseLaws db t) (stored : R → String → Option Raw)
    (cache_laws : ClientLaws c stored) where
  abbrev repo : SessionRepository (Backend D R)
  repo = pg_session_repository env db c

  abbrev pub EndsWith : {A : Type 0} → D → Outcome Error A → Backend D R → Type 0
  EndsWith d r b = Ends env c stored t d r b

  -- what raises and has changed nothing
  pub fails-Ends :
      {A : Type 0} (d : D) (e : Error) (b : Backend D R)
      → AllAgree env c stored t d b.cache
      → EndsWith {A = A} d (err e) b
  fails-Ends d e b agree = record { before = agree; after = inl tt }

  -- what follows the last call of the repository
  pub continue-Ends :
      {A B : Type 0} (d : D) (r : Outcome Error A) (f : A → Exec Error (System (Backend D R)) B)
      (sys : System (Backend D R))
      → ((a : A) (sys' : System (Backend D R)) → (f a sys').1.store ≡ sys'.store)
      → EndsWith d r sys.store
      → let (r', sys') = continue r f sys in EndsWith d r' sys'.store
  continue-Ends d (err e) f sys same h = record { before = h.before; after = inl tt }
  continue-Ends d (ok a) f sys same h = subst (EndsWith d (f a sys).0) (sym (same a sys)) (record {
    before = h.before;
    after = elim h.after [ inl none_of ↦ absurd none_of | inr progress ↦ inr progress ];
  })

  -- The end of a turn.
  record_turn-Ends :
      (d₀ : D) (sys : System (Backend D R)) (old s : OnboardingSession)
      (more : List ConversationMessage) (m m' : ConversationMessage)
      → SameTables t d₀ sys.store.db
      → sys.store.pending ≡ []
      → AllHeld t d₀
      → AllAgree env c stored t d₀ sys.store.cache
      → IsCurrent old (t.row d₀ s.id) (t.log d₀ s.id)
      → IsOlder env texts c stored cache_laws t s sys.store.cache
      → Extends old s more
      → IsGood s
      → old.revision < s.revision
      → let (r, sys') = record_turn env repo s old.revision m m' sys in EndsWith d₀ r sys'.store
  unfolding record_turn
  record_turn-Ends d₀ sys old s more m m' same idle held agree current older ext good later =
      continue-Ends d₀ _ (λ _. pure (s, m, m')) _ (λ _ sys'. refl)
        (save-Ends env texts db c t laws stored cache_laws d₀ sys.store old s more _ same idle held
          agree current older ext good later)

  refuse_expired_state :
      (s : OnboardingSession) (sys : System (Backend D R))
      → (refuse_expired env repo s sys).1
        ≡ record sys { world = record sys.world { readings = suc sys.world.readings } }
  unfolding refuse_expired Entities.is_expired Entities.utcnow Python.utcnow
  refuse_expired_state s sys = ground arith

  -- the revision of a session with one more message
  later_revision :
      (role : MessageRole) (m : ConversationMessage) (l : Live)
      → l.session.revision < (with_message env role m l).session.revision
  later_revision role m l = ground arith

  module _ (d₀ : D) (b : Backend D R) (s : OnboardingSession) (same : SameTables t d₀ b.db)
      (idle : b.pending ≡ []) (held : AllHeld t d₀) (agree : AllAgree env c stored t d₀ b.cache)
      (loaded : IsLoaded env texts db c t laws stored cache_laws s.id d₀ b.cache
        (ok (some s))) where
    -- the entry of a session that was loaded is older than any later version
    loaded-IsOlder :
        (s' : OnboardingSession)
        → s.id ≡ s'.id
        → s.revision < s'.revision
        → IsOlder env texts c stored cache_laws t s' b.cache
    loaded-IsOlder s' e lt =
        subst
          (λ i.
            (stored b.cache (key env i) ≡ none)
            ⊎ ((old : OnboardingSession) × (old.id ≡ i)
                × IsGood old
                × (stored b.cache (key env i) ≡ some (c.dumps (serialize env old)))
                × (old.revision < s'.revision)))
          e (elim loaded.2 [ inl gone ↦ inl gone | inr entry ↦ inr (s, refl, loaded.1, entry, lt) ])

    -- from the echo on
    echo-Ends :
        (text : String) (m : ConversationMessage) (l : Live)
        → Extends s l.session (m ∷ [])
        → IsGood l.session
        → s.revision < l.session.revision
        → let (r, sys') =
            (on_session env repo l.session (append_message env assistant text none none) >>= λ p.
            record_turn env repo p.1 s.revision m p.0)
              (record { store = b; world = l.world }) in
          EndsWith d₀ r sys'.store
    echo-Ends text m l ext good later = elim (append_cases env assistant text none none l) [
      | inl (e, raised) ↦ rw raised (fails-Ends d₀ e b agree)
      | inr told ↦
          let m' = new_message env assistant text none none l in
          rw told (
            record_turn-Ends d₀
              (record { store = b; world = (with_message env assistant m' l).world }) s
              (with_message env assistant m' l).session (m ∷ m' ∷ []) m m' same idle held agree
              (subst (λ i. IsCurrent s (t.row d₀ i) (t.log d₀ i)) (sym ext.same_id) loaded.3)
              (loaded-IsOlder (with_message env assistant m' l).session (sym ext.same_id)
                (omega (arith, later, later_revision assistant m' l)))
              (record {
                same_id = ext.same_id;
                same_user = ext.same_user;
                same_locale = ext.same_locale;
                same_platform = ext.same_platform;
                same_start = ext.same_start;
                grown =
                    ap (λ ms. ms ++ m' ∷ []) ext.grown ∙ append_assoc s.messages (m ∷ []) (m' ∷ []);
              })
              (with_message-IsGood env assistant text none none l told good tt tt)
              (omega (arith, later, later_revision assistant m' l)))
    ]

    pub converse-Ends :
        (w : World) (content : String) (rich_payload : Option Fields)
        → IsDict rich_payload
        → let (r, sys') =
            converse env repo s content rich_payload (record { store = b; world = w }) in
          EndsWith d₀ r sys'.store
    unfolding converse
    converse-Ends w content rich_payload dict =
        let sys : System (Backend D R) = record { store = b; world = w } in
        let l : Live = record { session = s; world = record w { readings = suc w.readings } } in
        let m = new_message env user content rich_payload none l in
        elim (Outcome-cases (refuse_expired env repo s sys).0) [
          | inr (e, late) ↦ rw (late, refuse_expired_state s sys) (fails-Ends d₀ e b agree)
          | inl (_, live) ↦ elim (append_cases env user content rich_payload none l) [
            | inl (e, raised) ↦
                rw (live, refuse_expired_state s sys, raised) (fails-Ends d₀ e b agree)
            | inr asked ↦
                rw (live, refuse_expired_state s sys, asked)
                  (echo-Ends (append_text echo_prefix content) m (with_message env user m l)
                    (record {
                      same_id = refl;
                      same_user = refl;
                      same_locale = refl;
                      same_platform = refl;
                      same_start = refl;
                      grown = refl;
                    })
                    (with_message-IsGood env user content rich_payload none l asked loaded.1 dict
                      tt)
                    (later_revision user m l))
          ]
        ]
