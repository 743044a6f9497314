-- ===== src/Schema/Fits.antt =====
-- The texts that the domain stores fit the columns of
-- alembic/versions/20260530_1200_0001_create_session_tables.py.
use cognaris_chatbot.Prelude.{
  ℕ, suc, ◌≤◌, String, count, List, [], ◌∷◌, arith, ◌≡◌, Option, none, some, str_eq, if◌then◌else◌,
  refl,
}
use cognaris_chatbot.Python.{Env, World}
use cognaris_chatbot.Enums.{ClientPlatform}
use cognaris_chatbot.Entities.{ConversationMessage, create}
use cognaris_chatbot.Entities.Invariant.{IsLog, run-IsValid}
use cognaris_chatbot.Entities.Runs.{Command, run}
use cognaris_chatbot.Schema.{Column, varchar}
use cognaris_chatbot.Schema.Migration.{conversation_messages}

-- the width of a column, if it is a text
abbrev pub width_of : String → List Column → Option ℕ
width_of name [] = none
width_of name (c ∷ cs) =
    let rest = width_of name cs in
    if str_eq c.name name then elim c.type [ varchar n ↦ some n | _ ↦ none ] else rest

abbrev pub AllFit : ℕ → List ConversationMessage → Type 0
AllFit n [] = Unit
AllFit n (m ∷ ms) = (count m.content ≤ n) × AllFit n ms

IsLog-AllFit : (id k : ℕ) (ms : List ConversationMessage) → IsLog id k ms → AllFit 8000 ms
IsLog-AllFit id k [] h = tt
IsLog-AllFit id k (m ∷ ms) h = (ground (arith, h.2), IsLog-AllFit id (suc k) ms h.3)

-- Whatever commands are given to a new session, each of its messages fits the width of the column
-- `content` of the migration.
pub run_fits :
    (env : Env) (user_id : ℕ) (locale : String) (client_platform : ClientPlatform) (ttl : ℕ)
    (w : World) (cs : List Command)
    → (n : ℕ) × (width_of "content" conversation_messages.columns ≡ some n)
      × AllFit n (run env cs (create env user_id locale client_platform ttl w)).session.messages
unfolding conversation_messages
run_fits env user_id locale client_platform ttl w cs =
    (8000, refl, IsLog-AllFit _ 0 _ (run-IsValid env user_id locale client_platform ttl w cs).log)
