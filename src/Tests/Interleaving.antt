-- ===== src/Tests/Interleaving.antt =====
-- A database with the unique constraint on messages, and the theorems on saves that run at the same time.
use cognaris_chatbot.Prelude.{
  negsuc, subst, ℕ, ◌≡◌, refl, inl, inr, ok, err, [], ◌∷◌, ◌++◌, List, Bool, true, false, ◌==◌,
  if◌then◌else◌, arith, Fails, Bool-cases,
}
use cognaris_chatbot.Errors.{Error, integrity_error}
use cognaris_chatbot.Repository.{
  Database, Pending, insert_message, insert_session, insert_event, update_session,
}
use cognaris_chatbot.Repository.Rows.{MessageRow, entity_to_model, message_entity_to_model}
use cognaris_chatbot.Repository.Tables.{DatabaseLaws, SameTables, SameTables-refl}
use cognaris_chatbot.Repository.Interleaving.{Saver, flushing, advance_from, selecting, finished}
use cognaris_chatbot.Repository.Interleaving.Dense.{IsDense, IsTaken}
use cognaris_chatbot.Repository.Interleaving.Schedule.{HasNoClash, ConstraintLaws, Shared, run}
use cognaris_chatbot.Repository.Interleaving.Logs.{saves_keep_order}
use cognaris_chatbot.Repository.Interleaving.Behind.{late_flush_raises}
use cognaris_chatbot.Tests.Storage.{talked, talked_store, old_store, appended}
use cognaris_chatbot.Tests.Fixtures.{env, Store, database, tables}

abbrev taken : ℕ → List MessageRow → Bool
taken n [] = false
taken n (row ∷ rows) = let rest = taken n rows in if row.sequence == n then true else rest

abbrev clash : Store → List Pending → Bool
clash d [] = false
clash d (insert_message row ∷ ps) =
    let rest = clash d ps in if taken row.sequence (d.logs row.session_id) then true else rest
clash d (op ∷ ps) = clash d ps

abbrev constrained : Database Store
constrained = record database {
  flush = λ ps d. if clash d ps then (err integrity_error, d) else database.flush ps d;
}

no_clash : (ps : List Pending) (d : Store) → (constrained.flush ps d).0 ≡ ok tt → clash d ps ≡ false
no_clash ps d e = elim (Bool-cases (clash d ps)) [ inl c ↦ ground (arith, e, c) | inr c ↦ c ]

constrained-DatabaseLaws : DatabaseLaws constrained tables
constrained-DatabaseLaws = record {
  reads_session = λ id d. (inl refl, SameTables-refl tables d);
  reads_messages = λ id d. (inl refl, SameTables-refl tables d);
  reads_max = λ id d. (inl refl, SameTables-refl tables d);
  flush_writes_row = λ ps d id e. rw (no_clash ps d e) refl;
  flush_writes_log = λ ps d id e. rw (no_clash ps d e) refl;
  flush_writes_outbox = λ ps d e. rw (no_clash ps d e) refl;
}

untaken : (n : ℕ) (rows : List MessageRow) → taken n rows ≡ false → ¬ IsTaken n rows
untaken n [] h t = t
untaken n (row ∷ rows) h (inl e) = ground (arith, h, e)
untaken n (row ∷ rows) h (inr t) = untaken n rows (ground arith) t

clash-HasNoClash : (ps : List Pending) (d : Store) → clash d ps ≡ false → HasNoClash tables d ps
clash-HasNoClash [] d h = tt
clash-HasNoClash (insert_message row ∷ ps) d h = (
  untaken row.sequence (d.logs row.session_id) (ground arith),
  clash-HasNoClash ps d (ground arith),
)
clash-HasNoClash (insert_session row ∷ ps) d h = clash-HasNoClash ps d h
clash-HasNoClash (update_session row ∷ ps) d h = clash-HasNoClash ps d h
clash-HasNoClash (insert_event row ∷ ps) d h = clash-HasNoClash ps d h

constrained-ConstraintLaws : ConstraintLaws constrained tables
constrained-ConstraintLaws = record {
  unique = λ ps d e. clash-HasNoClash ps d (no_clash ps d e);
  undone = λ ps d f. elim (Bool-cases (clash d ps)) [
    | inl c ↦ rw c (SameTables-refl tables d)
    | inr c ↦ absurd (
        subst (λ (b : Bool). Fails (if b then (err integrity_error, d) else database.flush ps d).0)
          c f)
  ];
}

abbrev saver : Saver
saver = record {
  session = talked;
  expected_revision = 0;
  events = appended ∷ [];
  phase = selecting;
}

abbrev racing : Shared Store
racing = record { db = old_store; savers = λ i. saver }

-- both have measured the log before the second one writes
abbrev turn_by_turn : List ℕ
turn_by_turn = 0 ∷ 1 ∷ 0 ∷ 1 ∷ 1 ∷ 0 ∷ []

saves_keep_order_example :
    let d = (run env constrained turn_by_turn racing).db in
    (more : List MessageRow) × (d.logs 0 ≡ [] ++ more) × IsDense 0 (d.logs 0)
saves_keep_order_example =
    saves_keep_order env constrained tables constrained-DatabaseLaws constrained-ConstraintLaws
      turn_by_turn racing (λ id. tt) (λ i. refl) (λ i. (refl, refl, refl, tt)) 0

late_flush_raises_example :
    let (phase, d') =
      advance_from env constrained saver
        (flushing (entity_to_model talked) (negsuc 0))
        talked_store in
    (e : Error) × (phase ≡ finished (err e)) × SameTables tables talked_store d'
unfolding message_entity_to_model
late_flush_raises_example =
    late_flush_raises env constrained tables constrained-ConstraintLaws saver
      (entity_to_model talked) 0 talked_store (refl, refl, refl, tt) (λ id. (refl, tt))
      (omega arith) (omega arith)
