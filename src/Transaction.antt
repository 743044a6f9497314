-- ===== src/Transaction.antt =====
-- The transaction of a request: `get_db_session` of app/infrastructure/db/session.py, a generator that
-- yields the database session, and `db_session_dep` of app/api/deps.py, which hands it on. The calls of
-- the session that end a transaction are parameters. A generator is run up to its `yield`, and then left in
-- one of three ways; what it does from there is a function of that way.
pub mod Laws
pub mod Atomic
pub mod Hidden
pub mod Calls
pub mod Whole
pub mod Committed
pub mod Phantom
pub mod Retried
use cognaris_chatbot.Prelude.{[], Outcome, ok, err, Exec, raise, pure}
use cognaris_chatbot.Errors.{Error}
use cognaris_chatbot.Repository.{Backend}
use cognaris_chatbot.Service.{System}

pub record Connection (D : Type 0) : Type 0 where
  pub commit : Exec Error D (Unit {0})
  pub rollback : Exec Error D (Unit {0})
  pub close : Exec Error D (Unit {0})

-- How a suspended generator goes on: it is resumed, an exception is thrown into it, or it is closed
-- with a GeneratorExit, which is not an `Exception`.
pub data Exit : Type 0 where
  resumed : Exit
  thrown : Error → Exit
  closed : Exit

-- the exception of the second, if there is one, and else the result of the first
abbrev pub unless_raised :
    {A : Type 0} → Outcome Error A → Outcome Error (Unit {0}) → Outcome Error A
unless_raised r (ok done) = r
unless_raised r (err e) = err e

module _ {D : Type 0} (conn : Connection D) where
  -- `except Exception: await session.rollback(); raise`
  unfoldable pub undo : Outcome Error (Unit {0}) → Exec Error D (Unit {0})
  undo (ok done) d = (ok tt, d)
  undo (err e) d = let (r, d') = conn.rollback d in (unless_raised (err e) r, d')

  -- the body of the `try`, from the `yield` on
  unfoldable pub finish : Exit → Exec Error D (Unit {0})
  finish resumed = conn.commit
  finish (thrown e) = raise e
  finish closed = pure tt

  -- the end of `async with factory() as session`
  unfoldable pub leave : Outcome Error (Unit {0}) → Exec Error D (Unit {0})
  leave r d = let (c, d') = conn.close d in (unless_raised r c, d')

  unfoldable pub get_db_session : Exit → Exec Error D (Unit {0})
  unfolding undo finish leave
  get_db_session exit d = let (r, d') = finish exit d in let (r', d'') = undo r d' in leave r' d''

  -- `async for session in get_db_session(): yield session`. An exception that is thrown in here leaves
  -- the loop, and is not thrown on into `get_db_session`, which the runtime closes when it collects it:
  -- here at once, in the program some time later.
  unfoldable pub db_session_dep : Exit → Exec Error D (Unit {0})
  db_session_dep resumed d = get_db_session resumed d
  db_session_dep (thrown e) d = (err e, (get_db_session closed d).1)
  db_session_dep closed d = get_db_session closed d

-- how the framework leaves the dependency after the endpoint
abbrev pub exit_of : {A : Type 0} → Outcome Error A → Exit
exit_of (ok a) = resumed
exit_of (err e) = thrown e

-- An endpoint with its dependency. A new session object has nothing pending.
unfoldable pub in_request :
    {D R A : Type 0}
    → Connection D
    → Exec Error (System (Backend D R)) A
    → Exec Error (System (Backend D R)) A
unfolding db_session_dep
in_request conn endpoint sys =
    let (r, sys') = endpoint (record sys { store = record sys.store { pending = [] } }) in
    let (done, d) = db_session_dep conn (exit_of r) sys'.store.db in
    (
      unless_raised r done,
      record sys' { store = record { db = d; pending = []; cache = sys'.store.cache } },
    )
