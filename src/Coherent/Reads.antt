-- ===== src/Coherent/Reads.antt =====
-- What `get` of app/infrastructure/db/repositories/session_repository.py answers over tables and a cache that
-- agree, whatever raises.
use cognaris_chatbot.Prelude.{
  ℕ, String, ◌≡◌, refl, sym, ◌∙◌, ap, subst, ◌⊎◌, inl, inr, Option, none, some, Outcome, ok, err,
  continue, map,
}
use cognaris_chatbot.Python.{Env, TextLaws}
use cognaris_chatbot.Errors.{Error}
use cognaris_chatbot.Entities.{OnboardingSession}
use cognaris_chatbot.Cache
use cognaris_chatbot.Cache.{Client, key}
use cognaris_chatbot.Cache.Json.{serialize}
use cognaris_chatbot.Cache.Laws.{ClientLaws}
use cognaris_chatbot.Repository
use cognaris_chatbot.Repository.{Database, Backend, load, or_load}
use cognaris_chatbot.Repository.Load.{model_to_entity-entity_to_model}
use cognaris_chatbot.Repository.Rows.{entity_to_model, message_entity_to_model}
use cognaris_chatbot.Repository.Tables.{
  Tables, SameTables, SameTables-refl, SameTables-trans, DatabaseLaws,
}
use cognaris_chatbot.Coherent.{IsGood, Holds, IsHeld, IsCurrent, AllAgree, AllHeld}
use cognaris_chatbot.Coherent.Entries.{
  IsRead, get-HasAnswer, set-AllAgree, set_entries, same_ttl, shrinks-AllAgree,
}

pub ok-inj : {E A : Type 0} {a b : A} → Path (Outcome E A) (ok a) (ok b) → a ≡ b
ok-inj e = cc e

pub some-inj : {A : Type 0} {a b : A} → some a ≡ some b → a ≡ b
some-inj e = cc e

module _ {D R Raw : Type 0} (env : Env) (texts : TextLaws env) (db : Database D) (c : Client R Raw)
    (t : Tables D) (laws : DatabaseLaws db t) (stored : R → String → Option Raw)
    (cache_laws : ClientLaws c stored) where
  -- the entry of a session that was loaded: gone, or its own
  abbrev pub IsLoaded : ℕ → D → R → Outcome Error (Option OnboardingSession) → Type 0
  IsLoaded id d r (err e) = Unit
  IsLoaded id d r (ok none) = Unit
  IsLoaded id d r (ok (some s)) =
      (s.id ≡ id)
      × IsGood s
      × ((stored r (key env id) ≡ none)
          ⊎ (stored r (key env id) ≡ some (c.dumps (serialize env s))))
      × IsCurrent s (t.row d id) (t.log d id)

  pub record Loads (id : ℕ) (b : Backend D R) (o : Outcome Error (Option OnboardingSession))
      (b' : Backend D R) : Type 0 where
    pub same : SameTables t b.db b'.db
    pub agrees : AllAgree env c stored t b.db b'.cache
    pub loaded : IsLoaded id b.db b'.cache o
    pub idle : b'.pending ≡ b.pending

  -- a row that is found is that of a well-formed session
  load-Loads :
      (b₀ b : Backend D R) (s : OnboardingSession)
      → IsGood s
      → Holds s (t.row b₀.db s.id) (t.log b₀.db s.id)
      → SameTables t b₀.db b.db
      → AllAgree env c stored t b₀.db b.cache
      → stored b.cache (key env s.id) ≡ none
      → b.pending ≡ b₀.pending
      → let (o, b') = load env db c (some (entity_to_model s)) b in Loads s.id b₀ o b'
  unfolding load entity_to_model Cache.set
  load-Loads b₀ b s good holds same agree gone idle =
      let d' = (db.select_messages s.id b.db).1 in
      let (answer, same') = laws.reads_messages s.id b.db in
      elim answer [
        | inr (e, down) ↦ rw down (record {
          same = SameTables-trans t same same';
          agrees = agree;
          loaded = tt;
          idle = idle;
        })
        | inl read ↦
            let rows : (db.select_messages s.id b.db).0
                ≡ ok (map message_entity_to_model s.messages) =
              read ∙ ap ok (same.same_log s.id ∙ holds.1) in
            rw (rows, model_to_entity-entity_to_model s good.valid.log, same_ttl s good)
              (record {
                same = SameTables-trans t same same';
                agrees =
                    set-AllAgree env texts c stored cache_laws t b₀.db s b.cache good
                      (λ _ _ _. holds) agree;
                loaded = (
                  refl,
                  good,
                  elim ((set_entries env texts c stored cache_laws s b.cache).0) [
                    | inl new ↦ inr new
                    | inr old ↦ inl (old ∙ gone)
                  ],
                  λ _ _ _. holds,
                );
                idle = idle;
              })
      ]

  -- the row, if it is there, is that of a session
  select-Loads :
      (id : ℕ) (b₀ b : Backend D R)
      → IsHeld id (t.row b₀.db id) (t.log b₀.db id)
      → SameTables t b₀.db b.db
      → AllAgree env c stored t b₀.db b.cache
      → stored b.cache (key env id) ≡ none
      → b.pending ≡ b₀.pending
      → let (o, b') = load env db c (t.row b₀.db id) b in Loads id b₀ o b'
  unfolding load
  select-Loads id b₀ b (inl (empty, _)) same agree gone idle =
      rw empty (record { same = same; agrees = agree; loaded = tt; idle = idle })
  select-Loads id b₀ b (inr (s, own, good, holds)) same agree gone idle =
      let row : t.row b₀.db id ≡ some (entity_to_model s) = holds.0 in
      rw row (
        subst (λ i. let (o, b') = load env db c (some (entity_to_model s)) b in Loads i b₀ o b') own
          (load-Loads b₀ b s good
            (subst (λ i. Holds s (t.row b₀.db i) (t.log b₀.db i)) (sym own) holds) same agree
            (subst (λ i. stored b.cache (key env i) ≡ none) (sym own) gone) idle))

  -- after the answer of the cache, which has changed no entry
  read-Loads :
      (id : ℕ) (b : Backend D R) (r : R) (o : Outcome Error (Option OnboardingSession))
      → AllHeld t b.db
      → AllAgree env c stored t b.db b.cache
      → ((k : String) → stored r k ≡ stored b.cache k)
      → IsRead env texts c stored cache_laws id (t.row b.db id) (t.log b.db id) b.cache o
      → let (o', b') = continue o (or_load env db c id) (record b { cache = r }) in Loads id b o' b'
  unfolding or_load
  read-Loads id b r (err e) held agree same read = record {
    same = SameTables-refl t b.db;
    agrees =
        shrinks-AllAgree env texts c stored cache_laws t b.db b.cache r (λ i. inr (same _)) agree;
    loaded = tt;
    idle = refl;
  }
  read-Loads id b r (ok (some s)) held agree same (own, good, entry, current) = record {
    same = SameTables-refl t b.db;
    agrees =
        shrinks-AllAgree env texts c stored cache_laws t b.db b.cache r (λ i. inr (same _)) agree;
    loaded = (own, good, inr (same (key env id) ∙ entry), current);
    idle = refl;
  }
  read-Loads id b r (ok none) held agree same gone =
      let agree' : AllAgree env c stored t b.db r =
        shrinks-AllAgree env texts c stored cache_laws t b.db b.cache r (λ i. inr (same _)) agree in
      let (answer, kept) = laws.reads_session id b.db in
      elim answer [
        | inr (e, down) ↦
            rw down (record { same = kept; agrees = agree'; loaded = tt; idle = refl })
        | inl found ↦ rw found (
            select-Loads id b (record b { db = (db.select_session id b.db).1; cache = r }) (held id)
              kept agree' (same (key env id) ∙ gone) refl)
      ]

  -- Over well-formed tables and a cache that agrees with them, whatever raises: `get` changes no table and
  -- keeps the agreement, and a session that it returns is well-formed, and the stored one if it has its
  -- revision.
  pub get-Loads :
      (id : ℕ) (b : Backend D R)
      → AllHeld t b.db
      → AllAgree env c stored t b.db b.cache
      → let (o, b') = Repository.get env db c id b in Loads id b o b'
  unfolding Repository.get
  get-Loads id b held agree =
      let (same, read) =
        get-HasAnswer env texts c stored cache_laws id (t.row b.db id) (t.log b.db id) b.cache
          (agree id) in
      read-Loads id b (Cache.get env c id b.cache).1 (Cache.get env c id b.cache).0 held agree same
        read
