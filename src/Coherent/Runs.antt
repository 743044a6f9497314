-- ===== src/Coherent/Runs.antt =====
-- Requests of app/api/v1/endpoints/sessions.py one after the other, each in its transaction of
-- app/infrastructure/db/session.py: what holds of the two stores between them.
use mathlib.Core.List.{append-nil}
use cognaris_chatbot.Prelude.{
  ℕ, String, ◌≡◌, refl, sym, ◌∙◌, ap, subst, inl, inr, Option, some, List, [], ◌++◌, Outcome, ok,
  Fails,
}
use cognaris_chatbot.Python.{Env, TextLaws}
use cognaris_chatbot.Errors.{Error}
use cognaris_chatbot.Cache.{Client}
use cognaris_chatbot.Cache.Laws.{ClientLaws}
use cognaris_chatbot.Repository.{Database, Backend, SessionRepository, pg_session_repository}
use cognaris_chatbot.Repository.Rows.{MessageRow}
use cognaris_chatbot.Repository.Tables.{Tables, DatabaseLaws}
use cognaris_chatbot.Repository.Interleaving.Statement.{HasGrown, HasGrown-refl, HasGrown-trans}
use cognaris_chatbot.Service.{System}
use cognaris_chatbot.Api.{Request, Reply, serve, post_session, show_session, post_message}
use cognaris_chatbot.Transaction.{
  Connection, Exit, resumed, thrown, closed, in_request, exit_of, db_session_dep, get_db_session,
  leave,
}
use cognaris_chatbot.Transaction.Laws.{Shows, TransactionLaws}
use cognaris_chatbot.Transaction.Atomic.{begun}
use cognaris_chatbot.Transaction.Whole.{IsWhole, serve-IsWhole}
use cognaris_chatbot.Coherent.{AllAgree, AllHeld, Ends}
use cognaris_chatbot.Coherent.Reads.{IsLoaded, get-Loads}
use cognaris_chatbot.Entities.{OnboardingSession}
use cognaris_chatbot.Entities.Invariant.{IsValid}
use cognaris_chatbot.Repository
use cognaris_chatbot.Repository.Rows.{SessionRow}
use cognaris_chatbot.Repository.Load.{IsStored}
use cognaris_chatbot.Coherent.Requests.{IsFair, serve-Ends}

-- tables that show the same rows and logs
module _ {D : Type 0} (t u : Tables D) (d d' : D) (shows : Shows t u d d') where
  shown-AllHeld : AllHeld t d → AllHeld u d'
  shown-AllHeld held id = rw (shows.shows_row id, shows.shows_log id) (held id)

  shown-AllAgree :
      {R Raw : Type 0} (env : Env) (c : Client R Raw) (stored : R → String → Option Raw) (r : R)
      → AllAgree env c stored t d r
      → AllAgree env c stored u d' r
  shown-AllAgree env c stored r agree id = rw (shows.shows_row id, shows.shows_log id) (agree id)

module _ {D : Type 0} (conn : Connection D) where
  -- whatever it is left by, `db_session_dep` ends with the close
  dep_closes : (exit : Exit) (d : D) → (x : D) × ((db_session_dep conn exit d).1 ≡ (conn.close x).1)
  unfolding db_session_dep get_db_session leave
  dep_closes resumed d = (_, refl)
  dep_closes (thrown e) d = (_, refl)
  dep_closes closed d = (_, refl)

module _ {D R Raw : Type 0} (env : Env) (db : Database D) (c : Client R Raw) (conn : Connection D)
    (t kept : Tables D) (stored : R → String → Option Raw) where
  -- Between two requests, a transaction would see what is committed; the committed tables hold
  -- well-formed sessions; and the cache agrees with them.
  pub record IsCoherent (sys : System (Backend D R)) : Type 0 where
    pub fresh : Shows kept t sys.store.db sys.store.db
    pub held : AllHeld kept sys.store.db
    pub agree : AllAgree env c stored kept sys.store.db sys.store.cache

  -- the requests that lead from one state to another
  pub data Requests (sys : System (Backend D R)) : System (Backend D R) → Type 0 where
    nothing : Requests sys sys
    then :
        {sys' : System (Backend D R)} (request : Request)
        → Requests sys sys'
        → IsFair env kept stored request sys'
        → Requests sys (in_request conn (serve env (pg_session_repository env db c) request) sys').1

module _ {D R Raw : Type 0} (env : Env) (texts : TextLaws env) (db : Database D) (c : Client R Raw)
    (conn : Connection D) (t kept : Tables D) (laws : DatabaseLaws db t)
    (transactions : TransactionLaws db conn t kept)
    (begins : (d : D) → Shows kept t (conn.close d).1 (conn.close d).1)
    (stored : R → String → Option Raw) (cache_laws : ClientLaws c stored) where
  abbrev repo : SessionRepository (Backend D R)
  repo = pg_session_repository env db c

  seen-IsFair :
      (request : Request) (sys : System (Backend D R))
      → Shows kept t sys.store.db sys.store.db
      → IsFair env kept stored request sys
      → IsFair env t stored request (begun sys)
  seen-IsFair (post_session body) sys fresh (no_row, no_log, gone) =
      (fresh.shows_row _ ∙ no_row, fresh.shows_log _ ∙ no_log, gone)
  seen-IsFair (show_session id) sys fresh fair = tt
  seen-IsFair (post_message id body) sys fresh fair = fair

  -- what the tables that others see become, by what the endpoint has left
  after_request :
      (answer : Outcome Error Reply) (before ended after : System (Backend D R))
      → IsCoherent env db c conn t kept stored before
      → Ends env c stored t before.store.db answer ended.store
      → IsWhole t kept before answer ended after
      → after.store.cache ≡ ended.store.cache
      → Shows kept t after.store.db after.store.db
      → IsCoherent env db c conn t kept stored after × HasGrown kept before.store.db after.store.db
  after_request answer before ended after h ends (inl same) cached fresh =
      let back : Shows t kept before.store.db after.store.db = record {
        shows_row = λ id. same.same_row id ∙ sym (h.fresh.shows_row id);
        shows_log = λ id. same.same_log id ∙ sym (h.fresh.shows_log id);
        shows_outbox = same.same_outbox ∙ sym h.fresh.shows_outbox;
      } in
      (
        record {
          fresh = fresh;
          held = λ id. rw (same.same_row id, same.same_log id) (h.held id);
          agree =
              subst (AllAgree env c stored kept after.store.db) (sym cached)
                (shown-AllAgree t kept _ _ back env c stored ended.store.cache ends.before);
        },
        λ id. ([], same.same_log id ∙ sym (append-nil (kept.log before.store.db id))),
      )
  after_request answer before ended after h ends (inr (reply, answered, shows)) cached fresh =
      elim ends.after [
        | inl raised ↦ absurd (subst Fails answered raised)
        | inr (held, agree, grown) ↦ (
          record {
            fresh = fresh;
            held = shown-AllHeld t kept _ _ shows held;
            agree =
                subst (AllAgree env c stored kept after.store.db) (sym cached)
                  (shown-AllAgree t kept _ _ shows env c stored ended.store.cache agree);
          },
          λ id.
              let (more, e) = grown id in
              (
                more,
                shows.shows_log id
                    ∙ e
                    ∙ ap (λ (rows : List MessageRow). rows ++ more) (h.fresh.shows_log id),
              ),
        )
      ]

  request-IsCoherent :
      (request : Request) (sys : System (Backend D R))
      → IsCoherent env db c conn t kept stored sys
      → IsFair env kept stored request sys
      → let sys' = (in_request conn (serve env repo request) sys).1 in
        IsCoherent env db c conn t kept stored sys' × HasGrown kept sys.store.db sys'.store.db
  unfolding in_request
  request-IsCoherent request sys h fair =
      let m = serve env repo request in
      let (answer, ended) = m (begun sys) in
      let (x, e) = dep_closes conn (exit_of answer) ended.store.db in
      after_request answer sys ended (in_request conn m sys).1 h
        (serve-Ends env texts db c t laws stored cache_laws request (begun sys) refl
          (shown-AllHeld kept t _ _ h.fresh h.held)
          (shown-AllAgree kept t _ _ h.fresh env c stored sys.store.cache h.agree)
          (seen-IsFair request sys h.fresh fair))
        (serve-IsWhole env c conn t kept transactions request sys) refl
        (subst (λ d. Shows kept t d d) (sym e) (begins x))

  -- From a state in which a transaction sees what is committed, the committed tables hold well-formed
  -- sessions with the default TTL and payloads that are dicts, and the cache agrees with them: whatever
  -- requests are served one after the other, each new identifier an unused one and each payload a dict,
  -- and whatever raises in them, the state is again such, an entry of the cache with the revision of its
  -- row being the stored session, and every log has kept what it had, at its end new messages at most.
  pub served-IsCoherent :
      {sys sys' : System (Backend D R)}
      → Requests env db c conn t kept stored sys sys'
      → IsCoherent env db c conn t kept stored sys
      → IsCoherent env db c conn t kept stored sys' × HasGrown kept sys.store.db sys'.store.db
  served-IsCoherent {sys} nothing h = (h, HasGrown-refl kept sys.store.db)
  served-IsCoherent {sys} (then request run fair) h =
      let (h', grown) = served-IsCoherent run h in
      let (h'', grown') = request-IsCoherent request _ h' fair in
      (h'', HasGrown-trans kept _ _ _ grown grown')

  -- From a state in which a transaction sees what is committed, the committed tables hold well-
  -- formed sessions with the default TTL and payloads that are dicts, and the cache agrees with
  -- them, whatever requests are served, each new identifier an unused one and each payload a dict,
  -- and whatever raises in them: a session that `get` then answers, of the revision of the committed
  -- row, is well-formed, the one asked for, and the one that the committed tables hold, its messages
  -- included.
  pub served_get :
      {sys sys' : System (Backend D R)}
      → Requests env db c conn t kept stored sys sys'
      → IsCoherent env db c conn t kept stored sys
      → (id : ℕ) (s : OnboardingSession) (row : SessionRow)
      → (Repository.get env db c id sys'.store).0 ≡ ok (some s)
      → kept.row sys'.store.db id ≡ some row
      → row.revision ≡ s.revision
      → (s.id ≡ id) × IsValid s × IsStored kept sys'.store.db s
  served_get {sys' = sys'} run h id s row answered there same =
      let now = (served-IsCoherent run h).0 in
      let loads =
        get-Loads env texts db c t laws stored cache_laws id sys'.store
          (shown-AllHeld kept t _ _ now.fresh now.held)
          (shown-AllAgree kept t _ _ now.fresh env c stored sys'.store.cache now.agree) in
      let (own, good, entry, current) =
        subst (IsLoaded env texts db c t laws stored cache_laws id sys'.store.db _) answered
          loads.loaded in
      let (row_now, log_now) = current row (now.fresh.shows_row id ∙ there) same in
      (
        own,
        good.valid,
        record {
          row = ap (kept.row sys'.store.db) own ∙ sym (now.fresh.shows_row id) ∙ row_now;
          log = ap (kept.log sys'.store.db) own ∙ sym (now.fresh.shows_log id) ∙ log_now;
        },
      )
