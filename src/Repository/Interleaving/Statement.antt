-- ===== src/Repository/Interleaving/Statement.antt =====
-- What one statement of a `save` of app/infrastructure/db/repositories/session_repository.py makes of the
-- logs of all sessions.
use mathlib.Core.List.{append-nil, append_assoc}
use cognaris_chatbot.Prelude.{
  ℕ, ◌≡◌, refl, sym, ◌∙◌, ap, subst, ◌⊎◌, inl, inr, List, [], ◌∷◌, ◌++◌, length, length-append, ◌≤◌,
  Option, none, some, Outcome, ok, err, Fails, ◌==◌, arith, Bool-cases, false, ℤ,
}
use cognaris_chatbot.Python.{Env}
use cognaris_chatbot.Errors.{Error}
use cognaris_chatbot.Entities.{ConversationMessage}
use cognaris_chatbot.Entities.Invariant.{IsLog}
use cognaris_chatbot.Repository.{
  Database, Pending, update_session, unsaved, message_inserts, event_inserts,
}
use cognaris_chatbot.Repository.Rows.{
  SessionRow, MessageRow, message_entity_to_model, apply_entity_to_model,
}
use cognaris_chatbot.Repository.Tables.{
  Tables, SameTables, SameTables-refl, DatabaseLaws, log_after,
}
use cognaris_chatbot.Repository.Writes.{
  last_of, log_after-append, log_after-event_inserts, log_after-other,
}
use cognaris_chatbot.Repository.Interleaving.{
  Saver, Phase, selecting, measuring, flushing, finished, advance_from, selected,
}
use cognaris_chatbot.Repository.Interleaving.Dense.{
  IsDense, IsFree, log_after-free, max_sequence-last_of, unsaved_tail,
}
use cognaris_chatbot.Repository.Interleaving.Schedule.{HasNoClash, ConstraintLaws}

abbrev pub HasSeen : {D : Type 0} → Tables D → D → ℕ → Phase → Type 0
HasSeen t d id (flushing existing max_seq) =
    (k : ℕ) × (max_seq ≡ last_of k) × (k ≤ length (t.log d id))
HasSeen t d id phase = Unit

-- every log of d is the beginning of its log in d'
abbrev pub HasGrown : {D : Type 0} → Tables D → D → D → Type 0
HasGrown t d d' = (id : ℕ) → (more : List MessageRow) × (t.log d' id ≡ t.log d id ++ more)

abbrev pub AllDense : {D : Type 0} → Tables D → D → Type 0
AllDense t d = (id : ℕ) → IsDense 0 (t.log d id)

module _ {D : Type 0} (t : Tables D) where
  same-HasGrown : {d d' : D} → SameTables t d d' → HasGrown t d d'
  same-HasGrown {d} same id = ([], same.same_log id ∙ sym (append-nil (t.log d id)))

  pub HasGrown-refl : (d : D) → HasGrown t d d
  HasGrown-refl d id = ([], sym (append-nil (t.log d id)))

  pub HasGrown-trans : (d d' d'' : D) → HasGrown t d d' → HasGrown t d' d'' → HasGrown t d d''
  HasGrown-trans d d' d'' h k id =
      let (more, e) = h id in
      let (more', e') = k id in
      (
        more ++ more',
        e'
            ∙ ap (λ (rows : List MessageRow). rows ++ more') e
            ∙ append_assoc (t.log d id) more more',
      )

  same-AllDense : {d d' : D} → SameTables t d d' → AllDense t d → AllDense t d'
  same-AllDense same h id = subst (IsDense 0) (sym (same.same_log id)) (h id)

  pub grown-HasSeen :
      (d d' : D) (id : ℕ) (phase : Phase)
      → HasGrown t d d'
      → HasSeen t d id phase
      → HasSeen t d' id phase
  grown-HasSeen d d' id (flushing existing max_seq) grown (k, e, le) =
      let (more, e') = grown id in
      (k, e, omega (arith, ap length e', length-append (t.log d id) more, le))
  grown-HasSeen d d' id selecting grown h = tt
  grown-HasSeen d d' id (measuring existing) grown h = tt
  grown-HasSeen d d' id (finished r) grown h = tt

pub settled : (r : Outcome Error (Unit {0})) → (r ≡ ok tt) ⊎ Fails r
settled (ok done) = inl refl
settled (err e) = inr tt

-- the writes of a save
abbrev pub writes : Saver → SessionRow → ℤ → List Pending
writes p existing max_seq =
    (update_session (apply_entity_to_model p.session existing) ∷ unsaved max_seq p.session.messages)
    ++ event_inserts p.events

module _ {D : Type 0} (db : Database D) (t : Tables D) (constraints : ConstraintLaws db t) where
  first-IsFree :
      (id k : ℕ) (tail : List ConversationMessage) (qs : List Pending) (d : D)
      → IsLog id k tail
      → HasNoClash t d (message_inserts tail ++ qs)
      → IsFree k tail (t.log d id)
  unfolding message_inserts message_entity_to_model
  first-IsFree id k [] qs d log free = tt
  first-IsFree id k (m ∷ ms) qs d log free = λ taken. free.0 (rw (log.0, log.1) taken)

  -- a flush that returns has found the first of its messages missing
  pub returned-IsFree :
      (p : Saver) (existing : SessionRow) (k : ℕ) (d : D) (tail : List ConversationMessage)
      → unsaved (last_of k) p.session.messages ≡ message_inserts tail
      → IsLog p.session.id k tail
      → (db.flush (writes p existing (last_of k)) d).0 ≡ ok tt
      → IsFree k tail (t.log d p.session.id)
  returned-IsFree p existing k d tail e log flushed =
      first-IsFree p.session.id k tail (event_inserts p.events) d log (
        subst (λ qs. HasNoClash t d (qs ++ event_inserts p.events)) e
          (constraints.unique (writes p existing (last_of k)) d flushed))

module _ {D : Type 0} (env : Env) (db : Database D) (t : Tables D) (laws : DatabaseLaws db t)
    (constraints : ConstraintLaws db t) where
  -- what one statement keeps
  pub record Kept (d d' : D) (id : ℕ) (phase : Phase) : Type 0 where
    pub grown : HasGrown t d d'
    pub dense : AllDense t d'
    pub seen : HasSeen t d' id phase

  selected-HasSeen :
      (p : Saver) (r : Outcome Error (Option SessionRow)) (d : D)
      → HasSeen t d p.session.id (selected env db p r)
  selected-HasSeen p (err e) d = tt
  selected-HasSeen p (ok none) d = tt
  selected-HasSeen p (ok (some existing)) d =
      elim (Bool-cases (existing.revision == p.expected_revision)) [
        | inl e ↦ rw e tt
        | inr e ↦ rw e tt
      ]

  -- what the writes of a save make of a log
  written :
      (p : Saver) (existing : SessionRow) (k : ℕ) (tail : List ConversationMessage) (id : ℕ)
      (rows : List MessageRow)
      → unsaved (last_of k) p.session.messages ≡ message_inserts tail
      → log_after (writes p existing (last_of k)) id rows ≡ log_after (message_inserts tail) id rows
  written p existing k tail id rows e =
      log_after-append id (unsaved (last_of k) p.session.messages) (event_inserts p.events) rows
      ∙ log_after-event_inserts id p.events _
      ∙ ap (λ ps. log_after ps id rows) e

  -- how one log has grown
  abbrev Goes : D → D → ℕ → Type 0
  Goes d d' id =
      (more : List MessageRow) × (t.log d' id ≡ t.log d id ++ more) × IsDense 0 (t.log d' id)

  flush-Goes :
      (p : Saver) (existing : SessionRow) (k : ℕ) (d : D)
      → IsLog p.session.id 0 p.session.messages
      → AllDense t d
      → k ≤ length (t.log d p.session.id)
      → (db.flush (writes p existing (last_of k)) d).0 ≡ ok tt
      → (id : ℕ) → Goes d (db.flush (writes p existing (last_of k)) d).1 id
  flush-Goes p existing k d log dense le flushed id = elim (Bool-cases (p.session.id == id)) [
    | inl same ↦ subst (Goes d after) (ground arith) own
    | inr other ↦ untouched other
  ]
    where
      after : D
      after = (db.flush (writes p existing (last_of k)) d).1

      added :
          (tail : List ConversationMessage) × (unsaved (last_of k) p.session.messages
            ≡ message_inserts tail)
          × IsLog p.session.id k tail
      added =
          (let (tail, e, rest, long) =
              unsaved_tail p.session.id 0 k p.session.messages (omega arith) log in
            (tail, e, rest))

      logged : (i : ℕ) → t.log after i ≡ log_after (message_inserts added.0) i (t.log d i)
      logged i =
          laws.flush_writes_log (writes p existing (last_of k)) d i flushed
          ∙ written p existing k added.0 i (t.log d i) added.1

      free : IsFree k added.0 (t.log d p.session.id)
      free = returned-IsFree db t constraints p existing k d added.0 added.1 added.2 flushed

      own : Goes d after p.session.id
      own =
          let (grown, kept) =
            log_after-free p.session.id k (t.log d p.session.id) added.0 (dense p.session.id) le
              added.2 free in
          (
            _,
            logged p.session.id ∙ grown,
            subst (IsDense 0) (sym (logged p.session.id ∙ grown)) kept,
          )

      untouched : (p.session.id == id) ≡ false → Goes d after id
      untouched other =
          let same =
            logged id ∙ log_after-other p.session.id id k added.0 (t.log d id) added.2 other in
          ([], same ∙ sym (append-nil (t.log d id)), subst (IsDense 0) (sym same) (dense id))

  same-Kept :
      (d d' : D) (id : ℕ) (phase : Phase)
      → SameTables t d d'
      → AllDense t d
      → HasSeen t d' id phase
      → Kept d d' id phase
  same-Kept d d' id phase same dense seen = record {
    grown = same-HasGrown t same;
    dense = same-AllDense t same dense;
    seen = seen;
  }

  flush-Kept :
      (p : Saver) (existing : SessionRow) (k : ℕ) (d : D)
      → IsLog p.session.id 0 p.session.messages
      → AllDense t d
      → k ≤ length (t.log d p.session.id)
      → let (r, d') = db.flush (writes p existing (last_of k)) d in
        Kept d d' p.session.id (finished r)
  flush-Kept p existing k d log dense le =
      let (r, d') = db.flush (writes p existing (last_of k)) d in
      elim (settled r) [
        | inl e ↦
            let goes = flush-Goes p existing k d log dense le e in
            record {
              grown = λ id. ((goes id).0, (goes id).1);
              dense = λ id. (goes id).2;
              seen = tt;
            }
        | inr fails ↦
            same-Kept d d' _ _ (constraints.undone (writes p existing (last_of k)) d fails) dense tt
      ]

  -- one statement of one request
  pub advance_from-Kept :
      (p : Saver) (phase : Phase) (d : D)
      → IsLog p.session.id 0 p.session.messages
      → AllDense t d
      → HasSeen t d p.session.id phase
      → let (phase', d') = advance_from env db p phase d in Kept d d' p.session.id phase'
  unfolding advance_from
  advance_from-Kept p selecting d log dense seen =
      same-Kept d _ _ _ (laws.reads_session p.session.id d).1 dense
        (selected-HasSeen p (db.select_session p.session.id d).0 _)
  advance_from-Kept p (measuring existing) d log dense seen =
      let (answer, same) = laws.reads_max p.session.id d in
      let d' = (db.select_max_sequence p.session.id d).1 in
      elim answer [
        | inl e ↦ rw e (
            same-Kept d d' _ _ same dense (
              length (t.log d p.session.id),
              max_sequence-last_of _ (dense p.session.id),
              omega (arith, ap length (same.same_log p.session.id)),
            ))
        | inr (x, e) ↦ rw e (same-Kept d d' _ _ same dense tt)
      ]
  advance_from-Kept p (flushing existing max_seq) d log dense (k, e, le) =
      subst
        (λ z. let (r, d') = db.flush (writes p existing z) d in Kept d d' p.session.id (finished r))
        (sym e) (flush-Kept p existing k d log dense le)
  advance_from-Kept p (finished r) d log dense seen =
      same-Kept d d _ _ (SameTables-refl t d) dense tt
