-- ===== src/Cache/Answers.antt =====
-- Every answer of `SessionCache.get` of app/infrastructure/cache/session_cache.py, by what Redis holds.
use cognaris_chatbot.Prelude.{
  Outcome-cases, ℕ, String, ◌≡◌, ◌≢◌, refl, sym, ap, ◌∙◌, ◌⊎◌, inl, inr, Option, none, some,
  Outcome, ok, err, true, false, Bool-cases,
}
use cognaris_chatbot.Python.{Env, TextLaws}
use cognaris_chatbot.Errors.{
  Error, untyped, json_decode_error, key_error, value_error, domain, type_error, redis_error,
  integrity_error, database_error,
}
use cognaris_chatbot.Entities.{OnboardingSession}
use cognaris_chatbot.Cache
use cognaris_chatbot.Cache.{Client, key, is_corruption, parse, recover, read, invalidate}
use cognaris_chatbot.Cache.Laws.{ClientLaws, key-ne}

-- `except (json.JSONDecodeError, KeyError, ValueError)`
abbrev pub IsCaught : Error → Type 0
IsCaught e = (e ≡ json_decode_error) ⊎ (e ≡ key_error) ⊎ (e ≡ value_error)

is_corruption-IsCaught : (e : Error) → is_corruption e ≡ true → IsCaught e
unfolding is_corruption
is_corruption-IsCaught json_decode_error h = inl refl
is_corruption-IsCaught key_error h = inr (inl refl)
is_corruption-IsCaught value_error h = inr (inr refl)
is_corruption-IsCaught (domain e) h = cc h
is_corruption-IsCaught type_error h = cc h
is_corruption-IsCaught redis_error h = cc h
is_corruption-IsCaught integrity_error h = cc h
is_corruption-IsCaught database_error h = cc h
is_corruption-IsCaught untyped h = cc h

is_corruption-not_IsCaught : (e : Error) → is_corruption e ≡ false → ¬ (IsCaught e)
unfolding is_corruption
is_corruption-not_IsCaught e h c = elim c [
  | inl k ↦ cc (sym h ∙ ap is_corruption k)
  | inr (inl k) ↦ cc (sym h ∙ ap is_corruption k)
  | inr (inr k) ↦ cc (sym h ∙ ap is_corruption k)
]

module _ {R Raw : Type 0} (env : Env) (c : Client R Raw) (stored : R → String → Option Raw)
    (texts : TextLaws env) (laws : ClientLaws c stored) where
  -- an entry that raises one of these
  abbrev pub IsCorrupt : Option Raw → Type 0
  IsCorrupt entry =
      (raw : Raw) × (e : Error) × (entry ≡ some raw) × (parse env c raw ≡ err e) × IsCaught e

  -- What `get` may answer, by what the GET has answered and what the entry is.
  abbrev pub IsAnswer :
      Outcome Error (Option Raw) → Option Raw → Outcome Error (Option OnboardingSession) → Type 0
  IsAnswer got entry (ok (some s)) =
      (raw : Raw) × (got ≡ ok entry) × (entry ≡ some raw) × (parse env c raw ≡ ok s)
  IsAnswer got entry (ok none) = (got ≡ ok entry) × ((entry ≡ none) ⊎ IsCorrupt entry)
  IsAnswer got entry (err e) =
      (got ≡ err e)
      ⊎ ((raw : Raw) × (got ≡ ok entry)
          × (entry ≡ some raw)
          × (parse env c raw ≡ err e)
          × (¬ (IsCaught e)))

  -- what becomes of the entries
  abbrev Leaves : ℕ → R → R → Type 0
  Leaves id r r' =
      ((other : ℕ) → other ≢ id → stored r' (key env other) ≡ stored r (key env other))
      × ((stored r' (key env id) ≡ stored r (key env id))
          ⊎ ((stored r' (key env id) ≡ none) × IsCorrupt (stored r (key env id))))

  Answers : ℕ → R → Type 0
  Answers id r =
      let (o, r') = Cache.get env c id r in
      IsAnswer (c.client_get (key env id) r).0 (stored r (key env id)) o × Leaves id r r'

  -- a GET changes no entry
  quiet : (id : ℕ) (r : R) → Leaves id r (c.client_get (key env id) r).1
  quiet id r = (
    λ other ne. laws.get_keeps (key env id) (key env other) r,
    inl (laws.get_keeps (key env id) (key env id) r),
  )

  -- the DELETE of a corrupt entry
  invalidated :
      (id : ℕ) (r₀ r : R)
      → Leaves id r₀ r
      → IsCorrupt (stored r₀ (key env id))
      → Leaves id r₀ (Cache.invalidate env c id r).1
  unfolding invalidate
  invalidated id r₀ r (others, own) corrupt = (
    λ other ne.
        laws.delete_elsewhere _ _ r (key-ne env texts id other (λ e. ne (sym e))) ∙ others other ne,
    elim (laws.delete_removes (key env id) r) [
      | inl gone ↦ inr (gone, corrupt)
      | inr (same, _) ↦ elim own [
        | inl kept ↦ inl (same ∙ kept)
        | inr (gone, _) ↦ inr (same ∙ gone, corrupt)
      ]
    ],
  )

  -- an answered GET
  get_found :
      (id : ℕ) (r : R) (entry : Option Raw)
      → stored r (key env id) ≡ entry
      → (c.client_get (key env id) r).0 ≡ ok entry
      → Answers id r
  unfolding Cache.get Answers invalidate
  get_found id r none held got = rw got ((ap ok (sym held), inl held), quiet id r)
  get_found id r (some raw) held got = elim (Outcome-cases (parse env c raw)) [
    | inl (s, parsed) ↦ rw (got, parsed) ((raw, ap ok (sym held), held, parsed), quiet id r)
    | inr (e, broken) ↦
        let got' = ap ok (sym held) in
        elim (Bool-cases (is_corruption e)) [
          | inl caught ↦
              let corrupt : IsCorrupt (stored r (key env id)) =
                (raw, e, held, broken, is_corruption-IsCaught e caught) in
              rw (got, broken, caught)
                ((got', inr corrupt), invalidated id r _ (quiet id r) corrupt)
          | inr other ↦
              rw (got, broken, other)
                (inr (raw, got', held, broken, is_corruption-not_IsCaught e other), quiet id r)
        ]
  ]

  -- Of an entry, if there is one, that does not stop the model with a value of another type than its
  -- field's: whatever the GET and the DELETE raise, `get` answers with the session that the entry is
  -- read as; or None, if there is no entry or one that raises an exception that `get` catches; or it
  -- raises, what the GET has raised or another exception of the entry. The entry is as it was, or
  -- corrupt and gone; those of other sessions are as they were.
  pub get_lem :
      (id : ℕ) (r : R)
      → ((raw : Raw) → stored r (key env id) ≡ some raw → parse env c raw ≢ err untyped)
      → let (o, r') = Cache.get env c id r in
        IsAnswer (c.client_get (key env id) r).0 (stored r (key env id)) o
        × ((other : ℕ) → other ≢ id → stored r' (key env other) ≡ stored r (key env other))
        × ((stored r' (key env id) ≡ stored r (key env id))
            ⊎ ((stored r' (key env id) ≡ none) × IsCorrupt (stored r (key env id))))
  unfolding Answers Cache.get
  get_lem id r typed = let (answer, (others, own)) = answers in (answer, others, own)
    where
      answers : Answers id r
      answers = elim (laws.get_reads (key env id) r) [
        | inl got ↦ get_found id r (stored r (key env id)) refl got
        | inr (e, down) ↦ rw down (inl refl, quiet id r)
      ]
