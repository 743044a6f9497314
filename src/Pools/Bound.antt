-- ===== src/Pools/Bound.antt =====
-- What holds of the globals of app/infrastructure/db/session.py and
-- app/infrastructure/cache/redis_client.py, whatever is called in whatever order.
use cognaris_chatbot.Prelude.{
  subst, ◌∙◌, ◌>>◌, pure, none, some, List, [], ◌∷◌, Outcome, ok, err, Exec, ◌≡◌, refl, ◌⊎◌, arith,
}
use cognaris_chatbot.Errors.{Error}
use cognaris_chatbot.Pools.{
  continue, Drivers, Process, get_settings, build_engine, get_engine, make_factory,
  get_session_factory, drop_engine, dispose_engine, build_pool, get_redis_pool, get_redis_client,
  ping_result, check_redis_health, drop_pool, dispose_redis, start_up, shut_down,
}

-- the calls that other modules make
pub data PoolCall : Type 0 where
  engine session_factory dispose redis_client health close_redis : PoolCall

continue_returned :
    {E S A B : Type 0} (r : Outcome E A) (f : A → Exec E S B) (s : S) {b : B}
    → (continue r f s).0 ≡ ok b
    → (a : A) × (r ≡ ok a)
continue_returned (ok a) f s h = (a, refl)
continue_returned (err e) f s h = ground (arith, h)

module _ {G E F P C : Type 0} (drivers : Drivers G E F P C) where
  unfoldable pub call : PoolCall → Process G E F P → Process G E F P
  call engine p = (get_engine drivers p).1
  call session_factory p = (get_session_factory drivers p).1
  call dispose p = (dispose_engine drivers p).1
  call redis_client p = (get_redis_client drivers p).1
  call health p = (check_redis_health drivers p).1
  call close_redis p = (dispose_redis drivers p).1

  unfoldable pub calls : List PoolCall → Process G E F P → Process G E F P
  calls [] p = p
  calls (c ∷ cs) p = calls cs (call c p)

  -- The session factory makes sessions of the engine that is in use.
  abbrev pub IsBound : Process G E F P → Type 0
  IsBound p =
      (p.session_factory ≡ none)
      ⊎ ((e : E) × (p.engine ≡ some e) × (p.session_factory ≡ some (drivers.async_sessionmaker e)))

  get_engine-IsBound : (p : Process G E F P) → IsBound p → IsBound (get_engine drivers p).1
  unfolding get_engine build_engine get_settings
  get_engine-IsBound p h = grind arith

  get_session_factory-IsBound :
      (p : Process G E F P) → IsBound p → IsBound (get_session_factory drivers p).1
  unfolding get_session_factory make_factory get_engine build_engine get_settings
  get_session_factory-IsBound p h = grind arith

  dispose_engine-IsBound : (p : Process G E F P) → IsBound p → IsBound (dispose_engine drivers p).1
  unfolding dispose_engine drop_engine
  dispose_engine-IsBound p h = grind arith

  get_redis_client-IsBound :
      (p : Process G E F P) → IsBound p → IsBound (get_redis_client drivers p).1
  unfolding get_redis_client get_redis_pool build_pool get_settings
  get_redis_client-IsBound p h = grind arith

  check_redis_health-IsBound :
      (p : Process G E F P) → IsBound p → IsBound (check_redis_health drivers p).1
  unfolding check_redis_health ping_result get_redis_client get_redis_pool build_pool get_settings
  check_redis_health-IsBound p h = grind arith

  dispose_redis-IsBound : (p : Process G E F P) → IsBound p → IsBound (dispose_redis drivers p).1
  unfolding dispose_redis drop_pool
  dispose_redis-IsBound p h = grind arith

  call-IsBound : (c : PoolCall) (p : Process G E F P) → IsBound p → IsBound (call c p)
  unfolding call
  call-IsBound engine = get_engine-IsBound
  call-IsBound session_factory = get_session_factory-IsBound
  call-IsBound dispose = dispose_engine-IsBound
  call-IsBound redis_client = get_redis_client-IsBound
  call-IsBound health = check_redis_health-IsBound
  call-IsBound close_redis = dispose_redis-IsBound

  -- From a process in which the session factory, if there is one, makes sessions of the engine that
  -- is in use, such as one that has just started: whatever is called, in whatever order, whether it
  -- returns or raises, this stays so.
  pub calls-IsBound : (cs : List PoolCall) (p : Process G E F P) → IsBound p → IsBound (calls cs p)
  unfolding calls
  calls-IsBound [] p h = h
  calls-IsBound (c ∷ cs) p h = calls-IsBound cs (call c p) (call-IsBound c p h)

  -- From such a state, a shut-down in which nothing raises leaves no engine, no session factory and no
  -- pool.
  shut_down_empties :
      (p : Process G E F P)
      → IsBound p
      → (shut_down drivers p).0 ≡ ok tt
      → let p' = (shut_down drivers p).1 in
        (p'.engine ≡ none) × (p'.session_factory ≡ none) × (p'.pool ≡ none)
  unfolding shut_down dispose_engine drop_engine dispose_redis drop_pool
  shut_down_empties p h done = grind arith

  get_engine_made :
      (p : Process G E F P) (e : E)
      → (get_engine drivers p).0 ≡ ok e
      → (get_engine drivers p).1.engine ≡ some e
  unfolding get_engine build_engine get_settings
  get_engine_made p e done = grind arith

  get_redis_pool_made :
      (p : Process G E F P) (q : P)
      → (get_redis_pool drivers p).0 ≡ ok q
      → ((get_redis_pool drivers p).1.pool ≡ some q)
        × ((get_redis_pool drivers p).1.engine ≡ p.engine)
  unfolding get_redis_pool build_pool get_settings
  get_redis_pool_made p q done = grind arith

  -- the two makers, when what they make is there
  reused :
      (p : Process G E F P) (e : E) (q : P)
      → IsBound p
      → p.engine ≡ some e
      → p.pool ≡ some q
      → ((get_session_factory drivers p).0 ≡ ok (drivers.async_sessionmaker e))
        × ((get_redis_client drivers p).0 ≡ ok (drivers.redis q))
        × ((get_session_factory drivers p).1.outside ≡ p.outside)
        × ((get_redis_client drivers p).1.outside ≡ p.outside)
  unfolding get_session_factory make_factory get_engine get_redis_client get_redis_pool
  reused p e q h made made' = grind arith

  get_redis_pool-IsBound : (p : Process G E F P) → IsBound p → IsBound (get_redis_pool drivers p).1
  unfolding get_redis_pool build_pool get_settings
  get_redis_pool-IsBound p h = grind arith

  get_settings-IsBound : (p : Process G E F P) → IsBound p → IsBound (get_settings drivers p).1
  unfolding get_settings
  get_settings-IsBound p h = grind arith

  -- a start-up that returns, in its three steps
  start_up_steps :
      (p : Process G E F P)
      → (start_up drivers p).0 ≡ ok tt
      → let p₁ = (get_settings drivers p).1 in
        let p₂ = (get_engine drivers p₁).1 in
        (e : E) × (q : P) × ((get_engine drivers p₁).0 ≡ ok e)
        × ((get_redis_pool drivers p₂).0 ≡ ok q)
        × ((start_up drivers p).1 ≡ (get_redis_pool drivers p₂).1)
  unfolding start_up
  start_up_steps p done =
      let p₁ = (get_settings drivers p).1 in
      let p₂ = (get_engine drivers p₁).1 in
      let last : Exec Error (Process G E F P) (Unit {0}) = get_redis_pool drivers >> pure tt in
      let (s, e₁) = continue_returned (get_settings drivers p).0 _ _ done in
      let done₁ : ((get_engine drivers >> last) p₁).0 ≡ ok tt =
        subst (λ r. (continue r (λ _. get_engine drivers >> last) p₁).0 ≡ ok tt) e₁ done in
      let (e, e₂) = continue_returned (get_engine drivers p₁).0 _ _ done₁ in
      let done₂ : (last p₂).0 ≡ ok tt =
        subst (λ r. (continue r (λ _. last) p₂).0 ≡ ok tt) e₂ done₁ in
      let (q, e₃) = continue_returned (get_redis_pool drivers p₂).0 _ _ done₂ in
      (e, q, e₂, e₃, rw (e₁, e₂, e₃) refl)

  -- A start-up that returns leaves an engine and a pool; a session factory that is made next is bound to
  -- that engine, and a Redis client that is made next uses that pool, neither of which is made again.
  start_up_makes :
      (p : Process G E F P)
      → IsBound p
      → (start_up drivers p).0 ≡ ok tt
      → let p' = (start_up drivers p).1 in
        (e : E) × (q : P) × (p'.engine ≡ some e)
        × (p'.pool ≡ some q)
        × ((get_session_factory drivers p').0 ≡ ok (drivers.async_sessionmaker e))
        × ((get_redis_client drivers p').0 ≡ ok (drivers.redis q))
        × ((get_session_factory drivers p').1.outside ≡ p'.outside)
        × ((get_redis_client drivers p').1.outside ≡ p'.outside)
  start_up_makes p h done =
      let p₁ = (get_settings drivers p).1 in
      let p₂ = (get_engine drivers p₁).1 in
      let p₃ = (get_redis_pool drivers p₂).1 in
      let (e, q, e₂, e₃, ended) = start_up_steps p done in
      let made = get_engine_made p₁ e e₂ in
      let (made', kept) = get_redis_pool_made p₂ q e₃ in
      let bound : IsBound p₃ =
        get_redis_pool-IsBound p₂ (get_engine-IsBound p₁ (get_settings-IsBound p h)) in
      let (makes, asks, once, once') = reused p₃ e q bound (kept ∙ made) made' in
      rw ended (e, q, kept ∙ made, made', makes, asks, once, once')
