-- ===== src/Cache/Laws.antt =====
-- The cache of app/infrastructure/cache/session_cache.py over what Redis and json document.
use cognaris_chatbot.Prelude.{
  ℕ, String, ◌≡◌, refl, ◌≢◌, ◌⊎◌, inl, inr, false, Option, none, some, List, [], ◌∷◌, ok, err,
  arith, str_eq, eq_iff, Bool-cases, Fails,
}
use Prim.Native.String.{◌++◌}
use text.Mathlib.TextLemmas.{append_cancel_left, append_cancel_right}
use cognaris_chatbot.Python.{
  Env, TextLaws, Json, Fields, get, UniqueKeys, UniqueItems, UniqueFields,
}
use cognaris_chatbot.Errors.{Error}
use cognaris_chatbot.Entities.{ConversationMessage, OnboardingSession, default_ttl}
use cognaris_chatbot.Entities.Invariant.{IsLog}
use cognaris_chatbot.Cache
use cognaris_chatbot.Cache.{Client, key, is_corruption, parse, recover, read, invalidate}
use cognaris_chatbot.Cache.Json.{
  serialize, serialize_message, serialize_messages, session_fields, dict_or_null, text_or_null,
  iso_or_null,
}
use cognaris_chatbot.Cache.RoundTrip.{deserialize-serialize}

-- What is documented of the client and of json. `stored r k` is what a GET of `k` would find in
-- the state `r`. A call that raises may or may not have reached the server.
pub record ClientLaws {R Raw : Type 0} (c : Client R Raw) (stored : R → String → Option Raw)
    : Type 0 where
  pub loads_back : (j : Json) → UniqueKeys j → c.loads (c.dumps j) ≡ some j
  pub get_reads :
      (k : String) (r : R)
      → ((c.client_get k r).0 ≡ ok (stored r k)) ⊎ ((e : Error) × ((c.client_get k r).0 ≡ err e))
  pub get_keeps : (k j : String) (r : R) → stored (c.client_get k r).1 j ≡ stored r j
  pub set_writes :
      (k : String) (v : Raw) (ttl : ℕ) (r : R)
      → let (done, r') = c.client_set k v ttl r in
        (stored r' k ≡ some v) ⊎ ((stored r' k ≡ stored r k) × Fails done)
  pub set_elsewhere :
      (k j : String) (v : Raw) (ttl : ℕ) (r : R)
      → str_eq k j ≡ false
      → stored (c.client_set k v ttl r).1 j ≡ stored r j
  pub delete_removes :
      (k : String) (r : R)
      → let (done, r') = c.client_delete k r in
        (stored r' k ≡ none) ⊎ ((stored r' k ≡ stored r k) × Fails done)
  pub delete_elsewhere :
      (k j : String) (r : R) → str_eq k j ≡ false → stored (c.client_delete k r).1 j ≡ stored r j

-- Two sessions have two keys.
pub key-inj : (env : Env) → TextLaws env → (a b : ℕ) → key env a ≡ key env b → a ≡ b
unfolding key
key-inj env laws a b e =
    let texts =
      append_cancel_right (env.str_uuid a) (env.str_uuid b) ""
        (append_cancel_left "session:" (env.str_uuid a ++ "") (env.str_uuid b ++ "") e) in
    cc (texts, laws.uuid_back a, laws.uuid_back b)

pub key-ne : (env : Env) → TextLaws env → (a b : ℕ) → a ≢ b → str_eq (key env a) (key env b) ≡ false
key-ne env laws a b ne = elim (Bool-cases (str_eq (key env a) (key env b))) [
  | inl same ↦ absurd (ne (key-inj env laws a b ((eq_iff (key env a) (key env b)).0 same)))
  | inr other ↦ other
]

-- The payloads of a log are dicts.
abbrev pub IsDict : Option Fields → Type 0
IsDict none = Unit
IsDict (some fs) = UniqueFields fs

abbrev pub HasDicts : List ConversationMessage → Type 0
HasDicts [] = Unit
HasDicts (m ∷ ms) = IsDict m.rich_payload × IsDict m.metadata × HasDicts ms

dict_or_null-UniqueKeys : (d : Option Fields) → IsDict d → UniqueKeys (dict_or_null d)
unfolding UniqueKeys
dict_or_null-UniqueKeys none h = tt
dict_or_null-UniqueKeys (some fs) h = h

module _ (env : Env) where
  serialize_message-UniqueKeys :
      (m : ConversationMessage)
      → IsDict m.rich_payload
      → IsDict m.metadata
      → UniqueKeys (serialize_message env m)
  unfolding UniqueKeys serialize_message get
  serialize_message-UniqueKeys m p q = (
    refl,
    tt,
    (
      refl,
      tt,
      (
        refl,
        tt,
        (
          refl,
          tt,
          (
            refl,
            tt,
            (
              refl,
              tt,
              (
                refl,
                dict_or_null-UniqueKeys m.rich_payload p,
                (refl, dict_or_null-UniqueKeys m.metadata q, tt),
              ),
            ),
          ),
        ),
      ),
    ),
  )

  serialize_messages-UniqueItems :
      (ms : List ConversationMessage) → HasDicts ms → UniqueItems (serialize_messages env ms)
  unfolding UniqueItems serialize_messages
  serialize_messages-UniqueItems [] h = tt
  serialize_messages-UniqueItems (m ∷ ms) h =
      (serialize_message-UniqueKeys m h.0 h.1, serialize_messages-UniqueItems ms h.2)

  opt_text-UniqueKeys : (t : Option String) → UniqueKeys (text_or_null t)
  unfolding UniqueKeys
  opt_text-UniqueKeys none = tt
  opt_text-UniqueKeys (some t) = tt

  opt_iso-UniqueKeys : (t : Option ℕ) → UniqueKeys (iso_or_null env t)
  unfolding UniqueKeys
  opt_iso-UniqueKeys none = tt
  opt_iso-UniqueKeys (some t) = tt

  pub serialize-UniqueKeys :
      (s : OnboardingSession) → HasDicts s.messages → UniqueKeys (serialize env s)
  unfolding UniqueKeys serialize session_fields get
  serialize-UniqueKeys s h = (
    refl,
    tt,
    (
      refl,
      tt,
      (
        refl,
        tt,
        (
          refl,
          tt,
          (
            refl,
            tt,
            (
              refl,
              tt,
              (
                refl,
                opt_text-UniqueKeys s.current_step,
                (
                  refl,
                  tt,
                  (
                    refl,
                    tt,
                    (
                      refl,
                      tt,
                      (
                        refl,
                        opt_iso-UniqueKeys s.confirmed_at,
                        (
                          refl,
                          opt_iso-UniqueKeys s.submitted_at,
                          (
                            refl,
                            opt_iso-UniqueKeys s.completed_at,
                            (refl, serialize_messages-UniqueItems s.messages h, tt),
                          ),
                        ),
                      ),
                    ),
                  ),
                ),
              ),
            ),
          ),
        ),
      ),
    ),
  )

-- A session that may be written to the cache: its log is a log, and its payloads are dicts.
pub record IsStorable (s : OnboardingSession) : Type 0 where
  pub log : IsLog s.id 0 s.messages
  pub dicts : HasDicts s.messages

-- the session that comes back from JSON
abbrev pub reset_ttl : OnboardingSession → OnboardingSession
reset_ttl s = record s { ttl = default_ttl }

module _ {R Raw : Type 0} (env : Env) (c : Client R Raw) (stored : R → String → Option Raw)
    (texts : TextLaws env) (laws : ClientLaws c stored) where
  abbrev entry : R → ℕ → Option Raw
  entry r id = stored r (key env id)

  pub parse-dumps :
      (s : OnboardingSession)
      → IsStorable s
      → parse env c (c.dumps (serialize env s)) ≡ ok (reset_ttl s)
  unfolding parse
  parse-dumps s h =
      rw (laws.loads_back (serialize env s) (serialize-UniqueKeys env s h.dicts), parse)
        (deserialize-serialize env texts s h.log)

  -- what a call that does not raise has read
  get_reads_stored :
      (k : String) (r : R) → ¬ (Fails (c.client_get k r).0) → (c.client_get k r).0 ≡ ok (stored r k)
  get_reads_stored k r answers = elim (laws.get_reads k r) [
    | inl e ↦ e
    | inr (x, e) ↦ absurd (answers (rw e tt))
  ]

  -- When the entry of a storable session is its serialization and the GET is answered, `get` returns
  -- the session with the default TTL and nothing else changed.
  pub get_hit :
      (s : OnboardingSession) (r : R)
      → IsStorable s
      → stored r (key env s.id) ≡ some (c.dumps (serialize env s))
      → ¬ (Fails (c.client_get (key env s.id) r).0)
      → Cache.get env c s.id r ≡ (ok (some (reset_ttl s)), (c.client_get (key env s.id) r).1)
  unfolding Cache.get
  get_hit s r h held answers =
      ground (arith, get_reads_stored (key env s.id) r answers, held, parse-dumps s h)

  -- a GET that is answered, of a session that is not cached
  pub get_miss :
      (id : ℕ) (r : R)
      → stored r (key env id) ≡ none
      → ¬ (Fails (c.client_get (key env id) r).0)
      → Cache.get env c id r ≡ (ok none, (c.client_get (key env id) r).1)
  unfolding Cache.get
  get_miss id r held answers = ground (arith, get_reads_stored (key env id) r answers, held)

  -- After a `set`, the entry of the session is the new one or the old one; the entry of another
  -- session is as it was; and nothing is raised.
  pub set_lem :
      (s : OnboardingSession) (r : R) (id : ℕ)
      → s.id ≢ id
      → let (done, r') = Cache.set env c s r in
        (done ≡ ok tt)
        × ((stored r' (key env s.id) ≡ some (c.dumps (serialize env s)))
            ⊎ (stored r' (key env s.id) ≡ stored r (key env s.id)))
        × (stored r' (key env id) ≡ stored r (key env id))
  unfolding Cache.set
  set_lem s r id ne = (refl, written, laws.set_elsewhere _ _ _ _ r (key-ne env texts s.id id ne))
    where
      written :
          (stored (Cache.set env c s r).1 (key env s.id) ≡ some (c.dumps (serialize env s)))
          ⊎ (stored (Cache.set env c s r).1 (key env s.id) ≡ stored r (key env s.id))
      written =
          elim (laws.set_writes (key env s.id) (c.dumps (serialize env s)) c.session_ttl_seconds
            r) [ inl new ↦ inl new | inr (old, _) ↦ inr old ]

-- When the client raises in `get`, its exception reaches the caller.
pub get_down :
    {R Raw : Type 0} (env : Env) (c : Client R Raw) (id : ℕ) (r : R) (e : Error)
    → (c.client_get (key env id) r).0 ≡ err e
    → Cache.get env c id r ≡ (err e, (c.client_get (key env id) r).1)
unfolding Cache.get
get_down env c id r e down = ground (arith, down)
