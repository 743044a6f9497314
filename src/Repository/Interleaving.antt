-- ===== src/Repository/Interleaving.antt =====
-- `save` of app/infrastructure/db/repositories/session_repository.py one statement at a time, for requests
-- that run at the same time. The database is what committed transactions have written, and a flush is
-- committed at once: another transaction that inserts the same message waits for that commit anyway.
-- The cache is left out.
pub mod Dense
pub mod Alone
pub mod Schedule
pub mod Statement
pub mod Logs
pub mod Behind
use cognaris_chatbot.Prelude.{
  ℕ, ℤ, pos, negsuc, List, [], ◌∷◌, ◌++◌, Option, none, some, Outcome, ok, err, ◌==◌, if◌then◌else◌,
  not,
}
use cognaris_chatbot.Python.{Env}
use cognaris_chatbot.Errors.{Error}
use cognaris_chatbot.Entities.{OnboardingSession}
use cognaris_chatbot.Events.{DomainEvent}
use cognaris_chatbot.Repository.{Database, update_session, unsaved, event_inserts, stale}
use cognaris_chatbot.Repository.Rows.{SessionRow, apply_entity_to_model}

-- before the first query, after it, after the second one, and at the end
pub data Phase : Type 0 where
  selecting : Phase
  measuring : SessionRow → Phase
  flushing : SessionRow → ℤ → Phase
  finished : Outcome Error (Unit {0}) → Phase

-- a call of `save`, and how far it has come
pub record Saver : Type 0 where
  pub session : OnboardingSession
  pub expected_revision : ℕ
  pub events : List DomainEvent
  pub phase : Phase

module _ {D : Type 0} (env : Env) (db : Database D) where
  abbrev pub selected : Saver → Outcome Error (Option SessionRow) → Phase
  selected p (err e) = finished (err e)
  selected p (ok none) = finished (err (stale env p.expected_revision (negsuc 0)))
  selected p (ok (some existing)) =
      if not (existing.revision == p.expected_revision)
      then finished (err (stale env p.expected_revision (pos existing.revision)))
      else measuring existing

  abbrev pub measured : SessionRow → Outcome Error ℤ → Phase
  measured existing (err e) = finished (err e)
  measured existing (ok max_seq) = flushing existing max_seq

  -- the next statement
  unfoldable pub advance_from : Saver → Phase → D → Phase × D
  advance_from p selecting d = let (r, d') = db.select_session p.session.id d in (selected p r, d')
  advance_from p (measuring existing) d =
      let (r, d') = db.select_max_sequence p.session.id d in (measured existing r, d')
  advance_from p (flushing existing max_seq) d =
      let (r, d') =
        db.flush
          ((update_session (apply_entity_to_model p.session existing)
              ∷ unsaved max_seq p.session.messages)
            ++ event_inserts p.events)
          d in
      (finished r, d')
  advance_from p (finished r) d = (finished r, d)

  unfoldable pub advance : Saver → D → Saver × D
  unfolding advance_from
  advance p d = let (phase, d') = advance_from p p.phase d in (record p { phase = phase }, d')
