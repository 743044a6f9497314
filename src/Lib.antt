-- ===== src/Lib.antt =====
-- The onboarding chatbot of app/: a user opens a session, talks to an assistant in it, and the session
-- moves through the states of an onboarding, from new to completed. An HTTP API calls the service
-- (app/domain/onboarding/service.py); the service works on the session aggregate
-- (app/domain/onboarding/entities.py) and stores it through a repository, whose implementation
-- (app/infrastructure/db/repositories/session_repository.py) keeps the session in Postgres, the
-- events in an outbox table, and a copy in Redis (app/infrastructure/cache/session_cache.py).
--
-- The files, and the code that each models:
--   Prelude     shared names, Boolean tests on numbers, lists, and the effect `Exec`: a state, and a
--               result or an exception. A raise keeps the state, as in Python.
--   Python      the runtime: the clock and the identifiers (app/core/time.py, app/core/ids.py), texts
--               of UUIDs and instants, JSON values. An instant is a number of microseconds, a UUID a
--               number. `now_at k` is the k-th reading of the clock and `id_at k` the k-th new_id.
--   Errors      app/core/exceptions.py and app/domain/onboarding/exceptions.py
--   Enums       app/domain/onboarding/enums.py
--   Entities    app/domain/onboarding/entities.py: `transition_to`, `append_message`,
--               `update_current_step`, `extend_ttl`, `create` and the queries, under their names.
--               Entities/Graph is the transition diagram as a relation, Entities/Message what the
--               check of a message accepts, Entities/Commands the branches of each command,
--               Entities/Steps an abstract step relation, Entities/Runs any commands in a row,
--               Entities/Invariant and Entities/Clock what holds along them.
--   Events      app/domain/events.py
--   Cache       SessionCache over a client of Redis and a json module that are parameters; Cache/Json
--               is _serialize and _deserialize, Cache/RoundTrip their round trip, Cache/Laws the
--               documented laws of the parameters and of `get` and `set`, Cache/Answers every answer of `get`.
--   Repository  PgSessionRepository over a database session that is a parameter, and the protocol of
--               app/domain/onboarding/repository.py; Repository/Rows is the mapping of
--               app/infrastructure/db/models/, Repository/Tables the laws of the database session,
--               Repository/Writes, Repository/Add, Repository/Save and Repository/Load what is written
--               and read, Repository/Coherence what `get` answers after a `save`, and
--               Repository/Overlap two requests that save the same session. Repository/Interleaving
--               is `save` one statement at a time (`advance`), Repository/Interleaving/Schedule any
--               number of requests that do so in any order and the unique constraint,
--               Repository/Interleaving/Dense the numbering of a log, and the rest of that folder
--               what holds along such a schedule.
--   Service     OnboardingService over any repository; Service/Calls is a turn of the conversation
--               over any repository; Service/Stored, Service/Started and Service/Moved are a turn, a
--               start and a transition over Postgres, Service/Conflict a turn on a stale cache.
--   Api         app/api/v1/endpoints/sessions.py, app/domain/onboarding/schemas.py and
--               app/api/errors.py; Api/Detail is what a GET tells, Api/Problems what an error response
--               is, and Api/Overflow a message whose answer is too long.
--   Transaction the transaction of a request: get_db_session of app/infrastructure/db/session.py, a
--               generator that is resumed, thrown into or closed, and db_session_dep of app/api/deps.py;
--               `in_request` is an endpoint in it. Transaction/Laws is what the connection promises,
--               Transaction/Atomic the transaction, Transaction/Hidden and Transaction/Calls that no
--               call commits by itself, Transaction/Whole any request, Transaction/Committed the two
--               requests that write, Transaction/Phantom a commit that fails, and Transaction/Retried a request
--               that meets a stale cache and is sent again.
--   Coherent    requests one after the other over both stores, the tables and the cache: Coherent/Entries,
--               Coherent/Reads, Coherent/Writes, Coherent/Saves and Coherent/Adds are the calls of the cache
--               and of the repository, Coherent/Turns, Coherent/Converse and Coherent/Calls those of the service,
--               Coherent/Requests the endpoints, Coherent/Runs any requests in their transactions.
--               Coherent/Refused is a save that does not find the revision that it expects.
--   Settings    app/core/config.py; Settings/Log is app/core/logging.py, Settings/App the application
--               and its routes (app/main.py, app/api/v1/router.py).
--   Pools       the engine, the session factory and the Redis pool of a process
--               (app/infrastructure/db/session.py, app/infrastructure/cache/redis_client.py) and their
--               start-up and shut-down in app/main.py; Pools/Bound is what holds of them.
--   Health      app/api/v1/endpoints/health.py
--   Schema      the tables, from alembic/versions/20260530_1200_0001_create_session_tables.py
--               (Schema/Migration) and from app/infrastructure/db/models/ (Schema/Models), the way back
--               (Schema/Reverse), and what fits the columns (Schema/Fits); alembic/env.py is
--               Schema/Environment, and Schema/Applied what it makes of a server, run for an upgrade, for
--               a downgrade or for a command that runs no migration.
--   Tests       a runtime, a server and a database that meet the laws, concrete runs, and each theorem
--               at an input that meets its conditions.
--
-- A session object is a record beside the runtime (`Live`); an object that only a failed call has
-- held is lost with it. A request runs to its end before the next, except in Repository/Overlap and
-- Repository/Interleaving, where requests take turns. No code loops but over a list. Only the lookup
-- of `http_status` takes a depth, three, which is enough since a class extends at most two others.
-- Numbers are unbounded, as Python's are; a database that refuses a value too wide for its column is
-- one whose flush raises.
--
-- What SQLAlchemy, Redis and json do is stated as laws (`DatabaseLaws`, `ConstraintLaws`,
-- `TransactionLaws`, `DdlLaws`, `AlembicLaws`, `ClientLaws`, `TextLaws`): a call may raise at any time, a flush
-- that returns has written its rows, a query that returns has read what the transaction sees, and
-- nobody else sees it before the commit; after a close, the next transaction sees what is committed.
--
-- Not modelled: the framework below the endpoints, how pydantic reads the settings, what structlog
-- does with a log line and the log calls themselves, and the program's own tests. A value of another type than its annotation, which Python would keep
-- as it is read from JSON, ends the model's call with an error of its own (`untyped`).
pub mod Prelude
pub mod Python
pub mod Errors
pub mod Enums
pub mod Entities
pub mod Cache
pub mod Events
pub mod Repository
pub mod Service
pub mod Api
pub mod Transaction
pub mod Coherent
pub mod Settings
pub mod Pools
pub mod Health
pub mod Schema
pub mod Tests
