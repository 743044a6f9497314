-- ===== src/Api/Overflow.antt =====
-- A message that app/api/v1/endpoints/sessions.py accepts, and whose answer is refused.
use cognaris_chatbot.Prelude.{
  ℕ, suc, ◌<◌, ◌≡◌, refl, ap, false, true, String, count, none, arith, Bool-cases, inl, inr, ok,
  err, Fails, str_eq, eq_iff, Outcome,
}
use cognaris_chatbot.Python.{Env}
use cognaris_chatbot.Enums.{in_terminal_states}
use cognaris_chatbot.Errors.{ErrorClass, Error, domain, invalid_message, http_status}
use cognaris_chatbot.Entities.{OnboardingSession, default_ttl}
use cognaris_chatbot.Entities.Message.{is_refused}
use cognaris_chatbot.Entities.Commands.{Raises, Raises-cases}
use cognaris_chatbot.Entities.Invariant.{IsLog}
use cognaris_chatbot.Cache
use cognaris_chatbot.Cache.{Client}
use cognaris_chatbot.Cache.Laws.{reset_ttl}
use cognaris_chatbot.Repository
use cognaris_chatbot.Repository.{Database, Backend, SessionRepository, pg_session_repository}
use cognaris_chatbot.Repository.Tables.{Tables, DatabaseLaws, SameTables}
use cognaris_chatbot.Repository.Load.{IsStored, get_from_database}
use cognaris_chatbot.Service.{System, handle_user_message}
use cognaris_chatbot.Service.Calls.{IsBrisk, converse_overflows}
use cognaris_chatbot.Service.Stored.{handle_user_message_run}
use cognaris_chatbot.Api.{
  SendMessageRequest, SendMessageResponse, Problem, fits_message, send_message, respond,
  handle_domain_error, problem_response,
}

-- a content that the schema accepts is acceptable
fits-accepted :
    (body : SendMessageRequest)
    → fits_message body ≡ true
    → is_refused body.content body.rich_payload ≡ false
unfolding fits_message
fits-accepted body h = elim (Bool-cases (str_eq body.content "")) [
  | inl e ↦ absurd (ground (arith, h, ap count ((eq_iff body.content "").0 e)))
  | inr e ↦ ground (arith, h, e)
]

-- an endpoint fails as the service does
send_message_fails :
    {X : Type 0} (env : Env) (repo : SessionRepository X) (sys : System X) (id : ℕ)
    (body : SendMessageRequest) (e : Error)
    → (handle_user_message env repo id body.content body.rich_payload sys).0 ≡ err e
    → ((send_message env repo id body sys).0 ≡ err e)
      × ((send_message env repo id body sys).1.store
          ≡ (handle_user_message env repo id body.content body.rich_payload sys).1.store)
unfolding send_message
send_message_fails env repo sys id body e h = ground (arith, h)

-- the response to a domain error
pub respond_domain :
    {A : Type 0} (lower titled : String → String) (status : ℕ) (kind : ErrorClass)
    (r : Outcome Error A)
    → Raises kind r
    → (p : Problem) × (respond lower titled status r ≡ err p) × (p.status ≡ http_status kind)
unfolding respond handle_domain_error problem_response
respond_domain lower titled status kind r h =
    let (e, raised, is_kind) = Raises-cases kind r h in
    (handle_domain_error lower titled e, rw raised refl, ap http_status is_kind)

-- Over Postgres, to an open session that is stored, not cached, has a valid log and is before its
-- deadline, with a brisk clock and queries that do not raise: a request that the schema accepts, with
-- a content of more than 7979 characters, is answered with the status 422, and the tables stay.
pub send_message_overflows :
    {D R Raw : Type 0} (env : Env) (db : Database D) (c : Client R Raw) (t : Tables D)
    (laws : DatabaseLaws db t) (lower titled : String → String) (sys : System (Backend D R))
    (s : OnboardingSession) (body : SendMessageRequest)
    → in_terminal_states s.state ≡ false
    → env.now_at sys.world.readings < s.expires_at
    → env.now_at (suc sys.world.readings) < s.expires_at
    → IsBrisk env default_ttl
    → fits_message body ≡ true
    → 7979 < count body.content
    → IsStored t sys.store.db s
    → IsLog s.id 0 s.messages
    → (Cache.get env c s.id sys.store.cache).0 ≡ ok none
    → ((d : D) → ¬ (Fails (db.select_session s.id d).0))
    → ((d : D) → ¬ (Fails (db.select_messages s.id d).0))
    → let (r, sys') = send_message env (pg_session_repository env db c) s.id body sys in
      (p : Problem) × (respond lower titled 200 r ≡ err p)
      × (p.status ≡ 422)
      × SameTables t sys.store.db sys'.store.db
unfolding http_status
send_message_overflows env db c t laws lower titled sys s body alive live live' brisk fits long
      stored log miss up up_messages =
    let repo = pg_session_repository env db c in
    let (got, same, kept) =
      get_from_database env db c t laws s sys.store log stored miss up up_messages in
    let run =
      handle_user_message_run env db c t laws sys s.id (reset_ttl s) body.content body.rich_payload
        got in
    let (refused, unchanged) =
      converse_overflows env repo
        (record sys { store = (Repository.get env db c s.id sys.store).1 }) (reset_ttl s)
        body.content body.rich_payload alive live live' brisk (fits-accepted body fits) long in
    let (e, raised, is_invalid) = Raises-cases invalid_message _ refused in
    let (failed, store) = send_message_fails env repo sys s.id body (domain e) (rw run raised) in
    let (p, answer, status) =
      respond_domain {A = SendMessageResponse} lower titled 200 invalid_message (err (domain e))
        is_invalid in
    (p, rw failed answer, status, rw (store, run, unchanged) same)
