-- ===== src/Repository/Writes.antt =====
-- Which rows `save` of app/infrastructure/db/repositories/session_repository.py writes, and what
-- they make of the tables: the messages after the last stored one, at the end of the stored log.
use mathlib.Core.List.{append-nil, append_assoc}
use cognaris_chatbot.Prelude.{
  false, ◌==◌, sym, ◌∙◌, Option, ℕ, zero, suc, ◌+◌, ◌≤◌, ◌≡◌, refl, List, [], ◌∷◌, ◌++◌, map, ℤ,
  pos, negsuc, arith, length, ap, ◌∙◌,
}
use cognaris_chatbot.Entities.{ConversationMessage}
use cognaris_chatbot.Entities.Invariant.{IsLog, IsLog-front, IsLog-back}
use cognaris_chatbot.Repository.{
  insert_event, insert_message, EventRow, update_session, event_to_model, insert_session,
  DomainEvent, SessionRow, event_inserts, Pending, unsaved, message_inserts,
}
use cognaris_chatbot.Repository.Rows.{MessageRow, message_entity_to_model}
use cognaris_chatbot.Repository.Tables.{
  row_after, events_of, log_after, max_sequence, insert_by_sequence,
}

-- the number of the last of n messages
abbrev pub last_of : ℕ → ℤ
last_of zero = negsuc 0
last_of (suc n) = pos n

abbrev rows_of : List ConversationMessage → List MessageRow
rows_of = map message_entity_to_model

max_sequence-nonempty :
    (id n : ℕ) (m : ConversationMessage) (ms : List ConversationMessage)
    → IsLog id n (m ∷ ms)
    → max_sequence (rows_of (m ∷ ms)) ≡ pos (n + length ms)
unfolding message_entity_to_model
max_sequence-nonempty id n m [] h = ground arith
max_sequence-nonempty id n m (m' ∷ ms) h =
    ground (arith, max_sequence-nonempty id (suc n) m' ms h.3)

pub max_sequence-log :
    (id : ℕ) (ms : List ConversationMessage)
    → IsLog id 0 ms
    → max_sequence (rows_of ms) ≡ last_of (length ms)
max_sequence-log id [] h = refl
max_sequence-log id (m ∷ ms) h = max_sequence-nonempty id 0 m ms h ∙ ap pos (omega arith)

pub unsaved-new :
    (id k n : ℕ) (ms : List ConversationMessage)
    → k ≤ n
    → IsLog id n ms
    → unsaved (last_of k) ms ≡ message_inserts ms
unfolding unsaved message_inserts
unsaved-new id k n [] le h = refl
unsaved-new id zero n (m ∷ ms) le h =
    ground (arith, unsaved-new id zero (suc n) ms (omega arith) h.3)
unsaved-new id (suc k) n (m ∷ ms) le h =
    ground (arith, unsaved-new id (suc k) (suc n) ms (omega arith) h.3)

-- Of a log whose first messages are stored, `save` adds the others.
pub unsaved-log :
    (id n k : ℕ) (old more : List ConversationMessage)
    → k ≡ n + length old
    → IsLog id n (old ++ more)
    → unsaved (last_of k) (old ++ more) ≡ message_inserts more
unfolding unsaved
unsaved-log id n k [] more e h = unsaved-new id k n more (omega arith) h
unsaved-log id n (suc k) (m ∷ old) more e h =
    ground (arith, unsaved-log id (suc n) (suc k) old more (omega arith) h.3)
unsaved-log id n zero (m ∷ old) more e h = absurd (omega arith)

-- Of a log that is no longer than the stored one, it adds nothing.
pub unsaved_none :
    (id n k : ℕ) (ms : List ConversationMessage)
    → n + length ms ≤ k
    → IsLog id n ms
    → unsaved (last_of k) ms ≡ []
unfolding unsaved
unsaved_none id n k [] le h = refl
unsaved_none id n zero (m ∷ ms) le h = absurd (omega arith)
unsaved_none id n (suc k) (m ∷ ms) le h =
    ground (arith, unsaved_none id (suc n) (suc k) ms (omega arith) h.3)

insert_by_sequence-last :
    (id n : ℕ) (ms : List ConversationMessage) (m : ConversationMessage)
    → IsLog id n ms
    → m.sequence ≡ n + length ms
    → insert_by_sequence (message_entity_to_model m) (rows_of ms) ≡ rows_of (ms ++ m ∷ [])
unfolding message_entity_to_model
insert_by_sequence-last id n [] m h e = refl
insert_by_sequence-last id n (x ∷ ms) m h e =
    ground (arith, insert_by_sequence-last id (suc n) ms m h.3 (omega arith))

log_after-first :
    (id : ℕ) (old more : List ConversationMessage) (m : ConversationMessage)
    → IsLog id 0 old
    → m.session_id ≡ id
    → m.sequence ≡ length old
    → log_after (message_inserts (m ∷ more)) id (rows_of old)
      ≡ log_after (message_inserts more) id (rows_of (old ++ m ∷ []))
unfolding message_inserts message_entity_to_model
log_after-first id old more m h own seq =
    ground (arith, insert_by_sequence-last id 0 old m h (omega arith))

-- appended one by one, the new messages end the stored log
pub log_after-message_inserts :
    (id : ℕ) (old more : List ConversationMessage)
    → IsLog id 0 (old ++ more)
    → log_after (message_inserts more) id (rows_of old) ≡ rows_of (old ++ more)
unfolding message_inserts
log_after-message_inserts id old [] h = ap rows_of (sym (append-nil old))
log_after-message_inserts id old (m ∷ more) h =
    let back = IsLog-back id 0 old (m ∷ more) h in
    log_after-first id old more m (IsLog-front id 0 old (m ∷ more) h) back.0 (omega arith)
    ∙ log_after-message_inserts id (old ++ m ∷ []) more (rw append_assoc h)
    ∙ ap rows_of (append_assoc old (m ∷ []) more)

module _ (id : ℕ) where
  pub row_after-append :
      (ps qs : List Pending) (o : Option SessionRow)
      → row_after (ps ++ qs) id o ≡ row_after qs id (row_after ps id o)
  row_after-append [] qs o = refl
  row_after-append (insert_session row ∷ ps) qs o = row_after-append ps qs _
  row_after-append (update_session row ∷ ps) qs o = row_after-append ps qs _
  row_after-append (insert_message row ∷ ps) qs o = row_after-append ps qs o
  row_after-append (insert_event row ∷ ps) qs o = row_after-append ps qs o

  pub log_after-append :
      (ps qs : List Pending) (rows : List MessageRow)
      → log_after (ps ++ qs) id rows ≡ log_after qs id (log_after ps id rows)
  log_after-append [] qs rows = refl
  log_after-append (insert_session row ∷ ps) qs rows = log_after-append ps qs rows
  log_after-append (update_session row ∷ ps) qs rows = log_after-append ps qs rows
  log_after-append (insert_message row ∷ ps) qs rows = log_after-append ps qs _
  log_after-append (insert_event row ∷ ps) qs rows = log_after-append ps qs rows

  pub row_after-message_inserts :
      (ms : List ConversationMessage) (o : Option SessionRow)
      → row_after (message_inserts ms) id o ≡ o
  unfolding message_inserts
  row_after-message_inserts [] o = refl
  row_after-message_inserts (m ∷ ms) o = row_after-message_inserts ms o

  pub row_after-event_inserts :
      (evts : List DomainEvent) (o : Option SessionRow) → row_after (event_inserts evts) id o ≡ o
  unfolding event_inserts
  row_after-event_inserts [] o = refl
  row_after-event_inserts (e ∷ evts) o = row_after-event_inserts evts o

  pub log_after-event_inserts :
      (evts : List DomainEvent) (rows : List MessageRow)
      → log_after (event_inserts evts) id rows ≡ rows
  unfolding event_inserts
  log_after-event_inserts [] rows = refl
  log_after-event_inserts (e ∷ evts) rows = log_after-event_inserts evts rows

pub events_of-append : (ps qs : List Pending) → events_of (ps ++ qs) ≡ events_of ps ++ events_of qs
events_of-append [] qs = refl
events_of-append (insert_session row ∷ ps) qs = events_of-append ps qs
events_of-append (update_session row ∷ ps) qs = events_of-append ps qs
events_of-append (insert_message row ∷ ps) qs = events_of-append ps qs
events_of-append (insert_event row ∷ ps) qs =
    ap (λ (es : List EventRow). row ∷ es) (events_of-append ps qs)

pub events_of-message_inserts :
    (ms : List ConversationMessage) → events_of (message_inserts ms) ≡ []
unfolding message_inserts
events_of-message_inserts [] = refl
events_of-message_inserts (m ∷ ms) = events_of-message_inserts ms

pub events_of-event_inserts :
    (evts : List DomainEvent) → events_of (event_inserts evts) ≡ map event_to_model evts
unfolding event_inserts
events_of-event_inserts [] = refl
events_of-event_inserts (e ∷ evts) =
    ap (λ (es : List EventRow). event_to_model e ∷ es) (events_of-event_inserts evts)

-- messages of one session leave the logs of the others alone
pub log_after-other :
    (id other n : ℕ) (ms : List ConversationMessage) (rows : List MessageRow)
    → IsLog id n ms
    → (id == other) ≡ false
    → log_after (message_inserts ms) other rows ≡ rows
unfolding message_inserts message_entity_to_model
log_after-other id other n [] rows h ne = refl
log_after-other id other n (m ∷ ms) rows h ne =
    ground (arith, log_after-other id other (suc n) ms rows h.3 ne)
