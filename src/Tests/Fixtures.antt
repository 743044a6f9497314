-- ===== src/Tests/Fixtures.antt =====
-- A runtime, a Redis server and a database that meet what the code relies on: texts in unary
-- notation, a clock that advances by one microsecond, a key-value function, three tables as
-- functions. They stand in for code that is not part of the repository.
use Prim.Native.String.{◌∷◌ as cons_char}
use text.Mathlib.TextLemmas.{length-cons}
use text.Mathlib.TextPositions.{eq_refl}
use cognaris_chatbot.Prelude.{
  ◌∙◌, ℕ, zero, suc, ◌-◌, String, count, ◌≡◌, refl, ap, false, Option, none, some, List, ◌++◌,
  arith, str_eq, eq_iff, Bool-cases, inl, inr, ok, if◌then◌else◌,
}
use cognaris_chatbot.Python.{Env, World, TextLaws, Monotone, Json}
use cognaris_chatbot.Cache.{Client}
use cognaris_chatbot.Cache.Laws.{ClientLaws}
use cognaris_chatbot.Repository.{Database}
use cognaris_chatbot.Repository.Rows.{SessionRow, MessageRow, EventRow}
use cognaris_chatbot.Repository.Tables.{
  Tables, DatabaseLaws, row_after, log_after, events_of, max_sequence, SameTables-refl,
}

pub unary : ℕ → String
unary zero = ""
unary (suc n) = cons_char "x" (unary n)

pub count-unary : (n : ℕ) → count (unary n) ≡ n
unfolding unary
count-unary zero = refl
count-unary (suc n) = length-cons "x" (unary n) ∙ ap suc (count-unary n)

pub unary-not_empty : (t : ℕ) → str_eq (unary (suc t)) "" ≡ false
unary-not_empty t = elim (Bool-cases (str_eq (unary (suc t)) "")) [
  | inl e ↦ absurd (omega (arith, count-unary (suc t), ap count ((eq_iff (unary (suc t)) "").0 e)))
  | inr e ↦ e
]

abbrev pub env : Env
env = record {
  now_at = λ k. k;
  id_at = λ k. k;
  str_uuid = unary;
  parse_uuid = λ t. some (count t);
  isoformat = λ t. unary (suc t);
  fromisoformat = λ t. some (count t - 1);
  str_int = λ z. "0";
}

pub texts : TextLaws env
texts = record {
  uuid_back = λ i. ap some (count-unary i);
  iso_back = λ t. ap some (ap (λ (n : ℕ). n - 1) (count-unary (suc t)) ∙ omega arith);
  iso_not_empty = unary-not_empty;
}

pub monotone : Monotone env
monotone k = omega arith

-- a Redis server that never fails, and stores JSON values as they are
abbrev pub Server : Type 0
Server = String → Option Json

abbrev pub client : Client Server Json
client = record {
  client_get = λ k r. (ok (r k), r);
  client_set = λ k v ttl r. (ok tt, λ j. if str_eq k j then some v else r j);
  client_delete = λ k r. (ok tt, λ j. if str_eq k j then none else r j);
  dumps = λ j. j;
  loads = λ j. some j;
  session_ttl_seconds = 86400;
}

abbrev pub stored : Server → String → Option Json
stored r k = r k

pub client_laws : ClientLaws client stored
client_laws = record {
  loads_back = λ j h. refl;
  get_reads = λ k r. inl refl;
  get_keeps = λ k j r. refl;
  set_writes = λ k v ttl r. inl (rw (eq_refl k));
  set_elsewhere = λ k j v ttl r ne. rw ne;
  delete_removes = λ k r. inl (rw (eq_refl k));
  delete_elsewhere = λ k j r ne. rw ne;
}

-- three tables, and a database session that never fails
pub record Store : Type 0 where
  pub rows : ℕ → Option SessionRow
  pub logs : ℕ → List MessageRow
  pub events : List EventRow

abbrev pub database : Database Store
database = record {
  select_session = λ id d. (ok (d.rows id), d);
  select_messages = λ id d. (ok (d.logs id), d);
  select_max_sequence = λ id d. (ok (max_sequence (d.logs id)), d);
  flush = λ ps d. (
    ok tt,
    record {
      rows = λ id. row_after ps id (d.rows id);
      logs = λ id. log_after ps id (d.logs id);
      events = d.events ++ events_of ps;
    },
  );
}

abbrev pub tables : Tables Store
tables = record { row = λ d. d.rows; log = λ d. d.logs; outbox = λ d. d.events }

pub database_laws : DatabaseLaws database tables
database_laws = record {
  reads_session = λ id d. (inl refl, SameTables-refl tables d);
  reads_messages = λ id d. (inl refl, SameTables-refl tables d);
  reads_max = λ id d. (inl refl, SameTables-refl tables d);
  flush_writes_row = λ ps d id e. refl;
  flush_writes_log = λ ps d id e. refl;
  flush_writes_outbox = λ ps d e. refl;
}

abbrev pub world : World
world = record { readings = 0; draws = 0 }
