-- ===== src/Repository/Interleaving/Dense.antt =====
-- Logs of app/infrastructure/db/models/message.py that are numbered 0, 1, 2, … without a gap, and what the
-- inserts of app/infrastructure/db/repositories/session_repository.py make of them.
use mathlib.Core.List.{append-nil, append_assoc}
use cognaris_chatbot.Prelude.{
  subst, ℕ, zero, suc, ◌+◌, ◌≤◌, ◌<◌, ◌≡◌, refl, sym, ◌∙◌, ap, ◌⊎◌, inl, inr, List, [], ◌∷◌, ◌++◌,
  map, length, length-append, arith, pos, ◌==◌, Bool-cases,
}
use cognaris_chatbot.Entities.{ConversationMessage}
use cognaris_chatbot.Entities.Invariant.{IsLog}
use cognaris_chatbot.Repository.{unsaved, message_inserts}
use cognaris_chatbot.Repository.Rows.{MessageRow, message_entity_to_model}
use cognaris_chatbot.Repository.Tables.{log_after, max_sequence, insert_by_sequence}
use cognaris_chatbot.Repository.Writes.{last_of, unsaved-new}

abbrev pub IsDense : ℕ → List MessageRow → Type 0
IsDense n [] = Unit
IsDense n (row ∷ rows) = (row.sequence ≡ n) × IsDense (suc n) rows

abbrev pub IsTaken : ℕ → List MessageRow → Type 0
IsTaken n [] = ⊥
IsTaken n (row ∷ rows) = (row.sequence ≡ n) ⊎ IsTaken n rows

pub IsDense-IsTaken :
    (n k : ℕ) (rows : List MessageRow)
    → IsDense n rows
    → n ≤ k
    → k < n + length rows
    → IsTaken k rows
IsDense-IsTaken n k [] h le lt = omega arith
IsDense-IsTaken n k (row ∷ rows) h le lt = elim (Bool-cases (n == k)) [
  | inl e ↦ inl (ground arith)
  | inr e ↦ inr (IsDense-IsTaken (suc n) k rows h.1 (ground arith) (omega arith))
]

max_sequence-IsDense :
    (n : ℕ) (row : MessageRow) (rows : List MessageRow)
    → IsDense n (row ∷ rows)
    → max_sequence (row ∷ rows) ≡ pos (n + length rows)
max_sequence-IsDense n row [] h = ground arith
max_sequence-IsDense n row (next ∷ rows) h =
    ground (arith, max_sequence-IsDense (suc n) next rows h.1)

pub max_sequence-last_of :
    (rows : List MessageRow) → IsDense 0 rows → max_sequence rows ≡ last_of (length rows)
max_sequence-last_of [] h = refl
max_sequence-last_of (row ∷ rows) h = max_sequence-IsDense 0 row rows h ∙ ap pos (omega arith)

-- What is added beyond the first k messages is a log from k on.
pub unsaved_tail :
    (id n k : ℕ) (ms : List ConversationMessage)
    → n ≤ k
    → IsLog id n ms
    → (tail : List ConversationMessage) × (unsaved (last_of k) ms ≡ message_inserts tail)
      × IsLog id k tail
      × (n + length ms ≤ k + length tail)
unfolding unsaved message_inserts
unsaved_tail id n k [] le h = ([], refl, tt, omega arith)
unsaved_tail id n zero (m ∷ ms) le h = (
  m ∷ ms,
  unsaved-new id zero n (m ∷ ms) (omega arith) h,
  subst (λ x. IsLog id x (m ∷ ms)) (omega (arith, le)) h,
  omega arith,
)
unsaved_tail id n (suc k) (m ∷ ms) le h = elim (Bool-cases (n == suc k)) [
  | inl e ↦ (
    m ∷ ms,
    unsaved-new id (suc k) n (m ∷ ms) (ground arith) h,
    subst (λ x. IsLog id x (m ∷ ms)) (ground arith) h,
    omega arith,
  )
  | inr e ↦
      let (tail, kept, log, long) = unsaved_tail id (suc n) (suc k) ms (ground arith) h.3 in
      (tail, skipped tail kept (ground arith), log, omega (arith, long))
]
  where
    skipped :
        (tail : List ConversationMessage)
        → unsaved (pos k) ms ≡ message_inserts tail
        → n ≤ k
        → unsaved (pos k) (m ∷ ms) ≡ message_inserts tail
    skipped tail kept small = ground (arith, h.1, kept)

insert_by_sequence-end :
    (n : ℕ) (rows : List MessageRow) (row : MessageRow)
    → IsDense n rows
    → row.sequence ≡ n + length rows
    → insert_by_sequence row rows ≡ rows ++ row ∷ []
insert_by_sequence-end n [] row h e = refl
insert_by_sequence-end n (first ∷ rows) row h e =
    ground (arith, insert_by_sequence-end (suc n) rows row h.1 (omega arith))

IsDense-append :
    (n : ℕ) (rows : List MessageRow) (row : MessageRow)
    → IsDense n rows
    → row.sequence ≡ n + length rows
    → IsDense n (rows ++ row ∷ [])
IsDense-append n [] row h e = (omega arith, tt)
IsDense-append n (first ∷ rows) row h e = (h.0, IsDense-append (suc n) rows row h.1 (omega arith))

-- a log that goes on where the rows end
pub log_after-IsDense :
    (id : ℕ) (rows : List MessageRow) (ms : List ConversationMessage)
    → IsDense 0 rows
    → IsLog id (length rows) ms
    → (log_after (message_inserts ms) id rows ≡ rows ++ map message_entity_to_model ms)
      × IsDense 0 (rows ++ map message_entity_to_model ms)
unfolding message_inserts message_entity_to_model
log_after-IsDense id rows [] h log = (sym (append-nil rows), rw (append-nil rows) h)
log_after-IsDense id rows (m ∷ ms) h log =
    let row = message_entity_to_model m in
    let grown : suc (length rows) ≡ length (rows ++ row ∷ []) =
      omega (arith, length-append rows (row ∷ [])) in
    let (rest, dense) =
      log_after-IsDense id (rows ++ row ∷ []) ms
        (IsDense-append 0 rows row h (omega (arith, log.1)))
        (subst (λ n. IsLog id n ms) grown log.3) in
    let first : log_after (message_inserts (m ∷ ms)) id rows
        ≡ log_after (message_inserts ms) id (rows ++ row ∷ []) =
      ground (arith, log.0, insert_by_sequence-end 0 rows row h (omega (arith, log.1))) in
    let joined = append_assoc rows (row ∷ []) (map message_entity_to_model ms) in
    (first ∙ rest ∙ joined, subst (IsDense 0) joined dense)

-- A log from k on, of which the first message is not there yet, goes on where the rows end.
abbrev pub IsFree : ℕ → List ConversationMessage → List MessageRow → Type 0
IsFree k [] rows = Unit
IsFree k (m ∷ ms) rows = ¬ IsTaken k rows

pub log_after-free :
    (id k : ℕ) (rows : List MessageRow) (ms : List ConversationMessage)
    → IsDense 0 rows
    → k ≤ length rows
    → IsLog id k ms
    → IsFree k ms rows
    → (log_after (message_inserts ms) id rows ≡ rows ++ map message_entity_to_model ms)
      × IsDense 0 (rows ++ map message_entity_to_model ms)
unfolding message_inserts
log_after-free id k rows [] h le log free =
    (sym (append-nil rows), subst (IsDense 0) (sym (append-nil rows)) h)
log_after-free id k rows (m ∷ ms) h le log free = elim (Bool-cases (k == length rows)) [
  | inl e ↦
      log_after-IsDense id rows (m ∷ ms) h (subst (λ n. IsLog id n (m ∷ ms)) (ground arith) log)
  | inr e ↦ absurd (free (IsDense-IsTaken 0 k rows h (omega arith) (ground arith)))
]
