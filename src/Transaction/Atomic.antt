-- ===== src/Transaction/Atomic.antt =====
-- A request of app/infrastructure/db/session.py is all or nothing: what others see afterwards is what
-- they saw before, or what the endpoint saw at its end.
use cognaris_chatbot.Prelude.{[], ◌≡◌, refl, inl, inr, ◌⊎◌, Outcome, ok, err, Exec, continue, ◌>>=◌}
use cognaris_chatbot.Errors.{Error}
use cognaris_chatbot.Repository.{Database, Backend}
use cognaris_chatbot.Repository.Tables.{Tables, SameTables, SameTables-refl, SameTables-trans}
use cognaris_chatbot.Service.{System}
use cognaris_chatbot.Transaction.{
  Connection, resumed, thrown, undo, finish, leave, get_db_session, db_session_dep, in_request,
}
use cognaris_chatbot.Transaction.Laws.{Shows, TransactionLaws, Shows-SameTables}

-- the state in which the endpoint of a request begins
abbrev pub begun : {D R : Type 0} → System (Backend D R) → System (Backend D R)
begun sys = record sys { store = record sys.store { pending = [] } }

-- Whatever comes out, the tables that others see stay. `view` finds the database in the state.
abbrev pub Keeps : {D S A : Type 0} → Tables D → (S → D) → Exec Error S A → Type 0
Keeps {S = S} kept view m = (s : S) → SameTables kept (view s) (view (m s).1)

module _ {D S A B : Type 0} (kept : Tables D) (view : S → D) where
  continue-Keeps :
      (r : Outcome Error A) (f : A → Exec Error S B) (s : S)
      → ((a : A) → Keeps kept view (f a))
      → SameTables kept (view s) (view (continue r f s).1)
  continue-Keeps (ok a) f s h = h a s
  continue-Keeps (err e) f s h = SameTables-refl kept (view s)

  pub bind-Keeps :
      (m : Exec Error S A) (f : A → Exec Error S B)
      → Keeps kept view m
      → ((a : A) → Keeps kept view (f a))
      → Keeps kept view (m >>= f)
  bind-Keeps m f h k s = SameTables-trans kept (h s) (continue-Keeps (m s).0 f (m s).1 k)

module _ {D : Type 0} {db : Database D} (conn : Connection D) (t kept : Tables D)
    (laws : TransactionLaws db conn t kept) where
  undo-SameTables : (r : Outcome Error (Unit {0})) (d : D) → SameTables kept d (undo conn r d).1
  unfolding undo
  undo-SameTables (ok done) d = SameTables-refl kept d
  undo-SameTables (err e) d = laws.rollback_keeps d

  -- from the end of the `try` on, nothing is committed
  pub undone :
      (r : Outcome Error (Unit {0})) (d : D)
      → SameTables kept d (leave conn (undo conn r d).0 (undo conn r d).1).1
  unfolding leave
  undone r d = SameTables-trans kept (undo-SameTables r d) (laws.close_keeps (undo conn r d).1)

  pub resumed_whole :
      (d : D)
      → let d' = (db_session_dep conn resumed d).1 in SameTables kept d d' ⊎ Shows t kept d d'
  unfolding db_session_dep get_db_session finish undo leave
  resumed_whole d =
      let after = undone (conn.commit d).0 (conn.commit d).1 in
      elim (laws.commit_whole d) [
        | inl same ↦ inl (SameTables-trans kept same after)
        | inr shows ↦ inr (Shows-SameTables t kept shows after)
      ]

  pub thrown_keeps : (e : Error) (d : D) → SameTables kept d (db_session_dep conn (thrown e) d).1
  unfolding db_session_dep get_db_session finish undo leave
  thrown_keeps e d = laws.close_keeps d

  -- a commit that raises, and leaves the tables as they were
  pub resumed_fails :
      (d : D) (e : Error)
      → (conn.commit d).0 ≡ err e
      → SameTables kept d (conn.commit d).1
      → ((d' : D) → (conn.rollback d').0 ≡ ok tt)
      → ((d' : D) → (conn.close d').0 ≡ ok tt)
      → ((db_session_dep conn resumed d).0 ≡ err e)
        × SameTables kept d (db_session_dep conn resumed d).1
  unfolding db_session_dep get_db_session finish undo leave
  resumed_fails d e failed same undo_ok close_ok = (
    rw (failed, undo_ok, close_ok) refl,
    SameTables-trans kept same (undone (conn.commit d).0 (conn.commit d).1),
  )

  -- a request whose endpoint returns and whose commit raises
  pub request_fails :
      {R A : Type 0} (m : Exec Error (System (Backend D R)) A) (sys : System (Backend D R)) (a : A)
      (e : Error)
      → let ended = (m (begun sys)).1 in
        (m (begun sys)).0 ≡ ok a
        → SameTables kept sys.store.db ended.store.db
        → ((d : D) → ((conn.commit d).0 ≡ err e) × SameTables kept d (conn.commit d).1)
        → ((d : D) → (conn.rollback d).0 ≡ ok tt)
        → ((d : D) → (conn.close d).0 ≡ ok tt)
        → ((in_request conn m sys).0 ≡ err e)
          × SameTables kept sys.store.db (in_request conn m sys).1.store.db
          × ((in_request conn m sys).1.store.cache ≡ ended.store.cache)
  unfolding in_request
  request_fails m sys a e answered hidden fails undo_ok close_ok =
      let d = (m (begun sys)).1.store.db in
      let (raised, same) = resumed_fails d e (fails d).0 (fails d).1 undo_ok close_ok in
      rw (answered, raised) (refl, SameTables-trans kept hidden same, refl)
