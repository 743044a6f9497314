-- ===== src/Transaction/Whole.antt =====
-- A request of app/api/v1/endpoints/sessions.py in its transaction of app/infrastructure/db/session.py.
use cognaris_chatbot.Prelude.{◌≡◌, refl, ◌⊎◌, inl, inr, ok, err, Outcome}
use cognaris_chatbot.Python.{Env}
use cognaris_chatbot.Errors.{Error}
use cognaris_chatbot.Cache.{Client}
use cognaris_chatbot.Repository.{Database, Backend, pg_session_repository}
use cognaris_chatbot.Repository.Tables.{Tables, SameTables, SameTables-trans}
use cognaris_chatbot.Service.{System}
use cognaris_chatbot.Api.{Request, Reply, serve}
use cognaris_chatbot.Transaction.{
  Connection, in_request, db_session_dep, exit_of, get_db_session, finish, undo, leave,
}
use cognaris_chatbot.Transaction.Laws.{Shows, TransactionLaws, Shows-SameTables}
use cognaris_chatbot.Transaction.Atomic.{begun, resumed_whole, thrown_keeps}
use cognaris_chatbot.Transaction.Calls.{serve-IsHidden}

-- What others see after a request: what they saw before, or, if the endpoint returned, all that it saw.
abbrev pub IsWhole :
    {D R : Type 0}
    → Tables D
    → Tables D
    → System (Backend D R)
    → Outcome Error Reply
    → System (Backend D R)
    → System (Backend D R)
    → Type 0
IsWhole t kept before answer ended after =
    SameTables kept before.store.db after.store.db
    ⊎ ((reply : Reply) × (answer ≡ ok reply) × Shows t kept ended.store.db after.store.db)

module _ {D R Raw : Type 0} (env : Env) {db : Database D} (c : Client R Raw) (conn : Connection D)
    (t kept : Tables D) (laws : TransactionLaws db conn t kept) where
  ended_whole :
      (answer : Outcome Error Reply) (before ended : System (Backend D R))
      → SameTables kept before.store.db ended.store.db
      → SameTables kept before.store.db (db_session_dep conn (exit_of answer) ended.store.db).1
        ⊎ ((reply : Reply) × (answer ≡ ok reply)
            × Shows t kept ended.store.db (db_session_dep conn (exit_of answer) ended.store.db).1)
  ended_whole (err e) before ended hidden =
      inl (SameTables-trans kept hidden (thrown_keeps conn t kept laws e ended.store.db))
  ended_whole (ok reply) before ended hidden =
      elim (resumed_whole conn t kept laws ended.store.db) [
        | inl same ↦ inl (SameTables-trans kept hidden same)
        | inr shows ↦ inr (reply, refl, shows)
      ]

  -- Whatever a request does and raises, others see afterwards what they saw before; or the endpoint has
  -- returned, and they see everything that it saw at its end.
  pub serve-IsWhole :
      (request : Request) (sys : System (Backend D R))
      → let m = serve env (pg_session_repository env db c) request in
        let (answer, ended) = m (begun sys) in
        IsWhole t kept sys answer ended (in_request conn m sys).1
  unfolding in_request
  serve-IsWhole request sys =
      let m = serve env (pg_session_repository env db c) request in
      let (answer, ended) = m (begun sys) in
      ended_whole answer sys ended (serve-IsHidden env c kept laws request (begun sys))

  -- An endpoint that returns, a commit and a close that do not raise: the request returns what the
  -- endpoint returned, and others see everything that it saw at its end.
  pub serve_commits :
      (request : Request) (sys : System (Backend D R)) (reply : Reply)
      → let m = serve env (pg_session_repository env db c) request in
        let ended = (m (begun sys)).1 in
        (m (begun sys)).0 ≡ ok reply
        → (conn.commit ended.store.db).0 ≡ ok tt
        → (conn.close (conn.commit ended.store.db).1).0 ≡ ok tt
        → ((in_request conn m sys).0 ≡ ok reply)
          × Shows t kept ended.store.db (in_request conn m sys).1.store.db
  unfolding in_request db_session_dep get_db_session finish undo leave
  serve_commits request sys reply answered done shut =
      let ended = (serve env (pg_session_repository env db c) request (begun sys)).1 in
      rw (answered, done, shut)
        (refl, Shows-SameTables t kept (laws.commit_shows ended.store.db done) (laws.close_keeps _))
