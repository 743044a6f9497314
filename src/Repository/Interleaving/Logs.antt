-- ===== src/Repository/Interleaving/Logs.antt =====
-- The logs of the sessions when requests of app/infrastructure/db/repositories/session_repository.py save at
-- the same time.
use cognaris_chatbot.Prelude.{ℕ, ◌≡◌, inl, inr, List, [], ◌∷◌, ◌++◌, ◌==◌, Bool-cases}
use cognaris_chatbot.Python.{Env}
use cognaris_chatbot.Entities.Invariant.{IsLog}
use cognaris_chatbot.Repository.{Database}
use cognaris_chatbot.Repository.Rows.{MessageRow}
use cognaris_chatbot.Repository.Tables.{Tables, DatabaseLaws}
use cognaris_chatbot.Repository.Interleaving.{selecting, advance}
use cognaris_chatbot.Repository.Interleaving.Dense.{IsDense}
use cognaris_chatbot.Repository.Interleaving.Schedule.{ConstraintLaws, Shared, step, run}
use cognaris_chatbot.Repository.Interleaving.Statement.{
  HasGrown-refl, HasGrown-trans, HasSeen, HasGrown, AllDense, grown-HasSeen, advance_from-Kept,
}

module _ {D : Type 0} (env : Env) (db : Database D) (t : Tables D) (laws : DatabaseLaws db t)
    (constraints : ConstraintLaws db t) where
  record IsInOrder (x : Shared D) : Type 0 where
    dense : AllDense t x.db
    logs : (i : ℕ) → IsLog (x.savers i).session.id 0 (x.savers i).session.messages
    seen : (i : ℕ) → HasSeen t x.db (x.savers i).session.id (x.savers i).phase

  step-IsInOrder :
      (i : ℕ) (x : Shared D)
      → IsInOrder x
      → IsInOrder (step env db i x) × HasGrown t x.db (step env db i x).db
  unfolding step advance
  step-IsInOrder i x h =
      let p = x.savers i in
      let kept =
        advance_from-Kept env db t laws constraints p p.phase x.db (h.logs i) h.dense (h.seen i) in
      (
        record {
          dense = kept.dense;
          logs =
              λ j. elim (Bool-cases (i == j)) [ inl e ↦ rw e (h.logs i) | inr e ↦ rw e (h.logs j) ];
          seen = λ j. elim (Bool-cases (i == j)) [
            | inl e ↦ rw e kept.seen
            | inr e ↦ rw e (grown-HasSeen t x.db _ _ _ kept.grown (h.seen j))
          ];
        },
        kept.grown,
      )

  run-IsInOrder :
      (is : List ℕ) (x : Shared D)
      → IsInOrder x
      → IsInOrder (run env db is x) × HasGrown t x.db (run env db is x).db
  unfolding run
  run-IsInOrder [] x h = (h, HasGrown-refl t x.db)
  run-IsInOrder (i ∷ is) x h =
      let (h', grown) = step-IsInOrder i x h in
      let (h'', grown') = run-IsInOrder is (step env db i x) h' in
      (h'', HasGrown-trans t _ _ _ grown grown')

  -- Under the unique constraint on session and sequence, whatever saves are made at the same time,
  -- of sessions with valid logs, and in whatever order their statements run, returning or raising:
  -- from tables whose logs are numbered 0, 1, 2, … without a gap, every log stays so numbered, and
  -- keeps what it has, at its end new messages at most.
  pub saves_keep_order :
      (is : List ℕ) (x : Shared D)
      → ((id : ℕ) → IsDense 0 (t.log x.db id))
      → ((i : ℕ) → (x.savers i).phase ≡ selecting)
      → ((i : ℕ) → IsLog (x.savers i).session.id 0 (x.savers i).session.messages)
      → (id : ℕ)
      → (more : List MessageRow) × (t.log (run env db is x).db id ≡ t.log x.db id ++ more)
        × IsDense 0 (t.log (run env db is x).db id)
  saves_keep_order is x dense fresh logs id =
      let (h, grown) =
        run-IsInOrder is x (record { dense = dense; logs = logs; seen = λ i. rw (fresh i) tt }) in
      ((grown id).0, (grown id).1, h.dense id)
