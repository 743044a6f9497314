-- ===== src/Coherent/Entries.antt =====
-- What the calls of app/infrastructure/cache/session_cache.py make of a cache that agrees with the tables.
use cognaris_chatbot.Prelude.{
  ℕ, String, ◌≡◌, refl, sym, ap, subst, ◌⊎◌, inl, inr, Option, none, some, Outcome, ok, err, arith,
  Bool-cases, ◌==◌, List, Fails, false,
}
use cognaris_chatbot.Python.{Env, TextLaws}
use cognaris_chatbot.Errors.{Error}
use cognaris_chatbot.Entities.{OnboardingSession}
use cognaris_chatbot.Cache
use cognaris_chatbot.Cache.{Client, key}
use cognaris_chatbot.Cache.Json.{serialize}
use cognaris_chatbot.Cache.Laws.{
  ClientLaws, IsStorable, reset_ttl, get_hit, get_miss, get_down, key-ne,
}
use cognaris_chatbot.Repository.Rows.{SessionRow, MessageRow}
use cognaris_chatbot.Repository.Tables.{Tables}
use cognaris_chatbot.Coherent.{IsGood, IsCurrent, Agrees, AllAgree}

pub same_ttl : (s : OnboardingSession) → IsGood s → reset_ttl s ≡ s
same_ttl s h = ap (λ n. record s { ttl = n }) (sym h.ttl)

storable : (s : OnboardingSession) → IsGood s → IsStorable s
storable s h = record { log = h.valid.log; dicts = h.dicts }

-- An entry that is gone or as it was still agrees.
pub Agrees-shrinks :
    {R Raw : Type 0} (env : Env) (c : Client R Raw) (id : ℕ) (row : Option SessionRow)
    (log : List MessageRow) (entry entry' : Option Raw)
    → (entry' ≡ none) ⊎ (entry' ≡ entry)
    → Agrees env c id row log entry
    → Agrees env c id row log entry'
Agrees-shrinks env c id row log entry entry' (inl gone) h = inl gone
Agrees-shrinks env c id row log entry entry' (inr same) h =
    subst (Agrees env c id row log) (sym same) h

module _ {R Raw : Type 0} (env : Env) (texts : TextLaws env) (c : Client R Raw)
    (stored : R → String → Option Raw) (laws : ClientLaws c stored) where
  -- what `get` answers
  abbrev pub IsRead :
      ℕ
      → Option SessionRow
      → List MessageRow
      → R
      → Outcome Error (Option OnboardingSession)
      → Type 0
  IsRead id row log r (err e) = Unit
  IsRead id row log r (ok none) = stored r (key env id) ≡ none
  IsRead id row log r (ok (some s)) =
      (s.id ≡ id)
      × IsGood s
      × (stored r (key env id) ≡ some (c.dumps (serialize env s)))
      × IsCurrent s row log

  abbrev HasAnswer : ℕ → Option SessionRow → List MessageRow → R → Type 0
  HasAnswer id row log r =
      let (o, r') = Cache.get env c id r in
      ((k : String) → stored r' k ≡ stored r k) × IsRead id row log r o

  hit-HasAnswer :
      (s : OnboardingSession) (row : Option SessionRow) (log : List MessageRow) (r : R)
      → IsGood s
      → IsCurrent s row log
      → stored r (key env s.id) ≡ some (c.dumps (serialize env s))
      → ¬ (Fails (c.client_get (key env s.id) r).0)
      → HasAnswer s.id row log r
  hit-HasAnswer s row log r good current held up =
      rw (get_hit env c stored texts laws s r (storable s good) held up, same_ttl s good)
        (λ k. laws.get_keeps (key env s.id) k r, (refl, good, held, current))

  pub get-HasAnswer :
      (id : ℕ) (row : Option SessionRow) (log : List MessageRow) (r : R)
      → Agrees env c id row log (stored r (key env id))
      → HasAnswer id row log r
  get-HasAnswer id row log r h = elim (laws.get_reads (key env id) r) [
    | inr (e, down) ↦ rw (get_down env c id r e down) (λ k. laws.get_keeps (key env id) k r, tt)
    | inl answered ↦
        let up : ¬ (Fails (c.client_get (key env id) r).0) = λ f. subst Fails answered f in
        elim h [
          | inl gone ↦
              rw (get_miss env c stored texts laws id r gone up)
                (λ k. laws.get_keeps (key env id) k r, gone)
          | inr (s, same, good, held, current) ↦
              subst (λ i. HasAnswer i row log r) same
                (hit-HasAnswer s row log r good current
                  (subst (λ i. stored r (key env i) ≡ some (c.dumps (serialize env s))) (sym same)
                    held)
                  (subst (λ i. ¬ (Fails (c.client_get (key env i) r).0)) (sym same) up))
        ]
  ]

  -- one entry is new, or as it was; the others are as they were
  pub set_entries :
      (s : OnboardingSession) (r : R)
      → let r' = (Cache.set env c s r).1 in
        ((stored r' (key env s.id) ≡ some (c.dumps (serialize env s)))
          ⊎ (stored r' (key env s.id) ≡ stored r (key env s.id)))
        × ((id : ℕ) → (s.id == id) ≡ false → stored r' (key env id) ≡ stored r (key env id))
  unfolding Cache.set
  set_entries s r = (
    written,
    λ id ne. laws.set_elsewhere _ _ _ _ r (key-ne env texts s.id id (λ e. ground (arith, e, ne))),
  )
    where
      written :
          (stored (Cache.set env c s r).1 (key env s.id) ≡ some (c.dumps (serialize env s)))
          ⊎ (stored (Cache.set env c s r).1 (key env s.id) ≡ stored r (key env s.id))
      written =
          elim (laws.set_writes (key env s.id) (c.dumps (serialize env s)) c.session_ttl_seconds
            r) [ inl new ↦ inl new | inr (old, _) ↦ inr old ]

  pub invalidate_entries :
      (n : ℕ) (r : R) (id : ℕ)
      → let r' = (Cache.invalidate env c n r).1 in
        (stored r' (key env id) ≡ none) ⊎ (stored r' (key env id) ≡ stored r (key env id))
  unfolding Cache.invalidate
  invalidate_entries n r id = elim (Bool-cases (n == id)) [
    | inl same ↦
        let e : n ≡ id = ground arith in
        subst
          (λ i.
            (stored (c.client_delete (key env n) r).1 (key env i) ≡ none)
            ⊎ (stored (c.client_delete (key env n) r).1 (key env i) ≡ stored r (key env i)))
          e (own n)
    | inr other ↦
        inr (laws.delete_elsewhere _ _ r (key-ne env texts n id (λ e. ground (arith, e, other))))
  ]
    where
      own :
          (i : ℕ)
          → (stored (c.client_delete (key env i) r).1 (key env i) ≡ none)
            ⊎ (stored (c.client_delete (key env i) r).1 (key env i) ≡ stored r (key env i))
      own i = elim (laws.delete_removes (key env i) r) [ inl e ↦ inl e | inr (e, _) ↦ inr e ]

  module _ {D : Type 0} (t : Tables D) (d : D) where
    -- a cache of which every entry is gone or as it was
    pub shrinks-AllAgree :
        (r r' : R)
        → ((id : ℕ)
            → (stored r' (key env id) ≡ none) ⊎ (stored r' (key env id) ≡ stored r (key env id)))
        → AllAgree env c stored t d r
        → AllAgree env c stored t d r'
    shrinks-AllAgree r r' h agree id = Agrees-shrinks env c id _ _ _ _ (h id) (agree id)

    -- a cache after the `set` of a session that is current
    pub set-AllAgree :
        (s : OnboardingSession) (r : R)
        → IsGood s
        → IsCurrent s (t.row d s.id) (t.log d s.id)
        → AllAgree env c stored t d r
        → AllAgree env c stored t d (Cache.set env c s r).1
    set-AllAgree s r good current agree id = elim (Bool-cases (s.id == id)) [
      | inl same ↦
          subst (λ i. Agrees env c i (t.row d i) (t.log d i) (stored r' (key env i))) (ground arith)
            own
      | inr other ↦ Agrees-shrinks env c id _ _ _ _ (inr ((set_entries s r).1 id other)) (agree id)
    ]
      where
        r' : R
        r' = (Cache.set env c s r).1

        own : Agrees env c s.id (t.row d s.id) (t.log d s.id) (stored r' (key env s.id))
        own = elim ((set_entries s r).0) [
          | inl new ↦ inr (s, refl, good, new, current)
          | inr old ↦ Agrees-shrinks env c s.id _ _ _ _ (inr old) (agree s.id)
        ]
