-- ===== src/Tests/Tables.antt =====
-- A server that runs the operations of a migration, and the theorems on the schema.
use cognaris_chatbot.Prelude.{
  ℕ, String, Bool, true, false, ◌≡◌, refl, none, some, List, [], ◌∷◌, str_eq, if◌then◌else◌, arith,
  eq_iff,
}
use cognaris_chatbot.Enums.{user, web}
use cognaris_chatbot.Entities.{create, default_ttl}
use cognaris_chatbot.Entities.Runs.{run, append, Command}
use cognaris_chatbot.Schema.{
  Ddl, create_type, create_table, create_index, drop_type, drop_table, drop_index,
}
use cognaris_chatbot.Schema.Migration.{
  upgrade, downgrade, conversation_messages, onboarding_sessions, domain_events,
}
use cognaris_chatbot.Schema.Reverse.{
  is_making, made, undo, DdlLaws, run as run_all, downgrade-upgrade,
}
use cognaris_chatbot.Schema.Fits.{width_of, AllFit, run_fits}
use cognaris_chatbot.Tests.Fixtures.{env, world}

-- the names in use, the latest first
abbrev has : List String → String → Bool
has [] name = false
has (n ∷ ns) name = let rest = has ns name in if str_eq n name then true else rest

abbrev without : String → List String → List String
without name [] = []
without name (n ∷ ns) = if str_eq n name then ns else n ∷ without name ns

abbrev pub execute : Ddl → List String → List String
execute (create_type name values) g = name ∷ g
execute (create_table t) g = t.name ∷ g
execute (create_index name table columns) g = name ∷ g
execute (drop_type name) g = without name g
execute (drop_table name) g = without name g
execute (drop_index name table) g = without name g

has-without :
    (name name' : String) (ns : List String)
    → str_eq name name' ≡ false
    → has (name ∷ ns) name' ≡ has ns name'
has-without name name' ns e = rw e refl

without_first : (name : String) (ns : List String) → without name (name ∷ ns) ≡ ns
without_first name ns = rw ((eq_iff name name).1 refl) refl

ddl_laws : DdlLaws execute has
ddl_laws = record { drop_back = drop_back; makes_one = makes_one }
  where
    drop_back :
        (op : Ddl) (g : List String)
        → is_making op ≡ true
        → has g (made op) ≡ false
        → execute (undo op) (execute op g) ≡ g
    drop_back (create_type name values) g m h = without_first name g
    drop_back (create_table t) g m h = without_first t.name g
    drop_back (create_index name table columns) g m h = without_first name g
    drop_back (drop_type name) g m h = ground (arith, m)
    drop_back (drop_table name) g m h = ground (arith, m)
    drop_back (drop_index name table) g m h = ground (arith, m)

    makes_one :
        (op : Ddl) (g : List String) (name : String)
        → is_making op ≡ true
        → str_eq (made op) name ≡ false
        → has (execute op g) name ≡ has g name
    makes_one (create_type name values) g name' m e = has-without name name' g e
    makes_one (create_table t) g name' m e = has-without t.name name' g e
    makes_one (create_index name table columns) g name' m e = has-without name name' g e
    makes_one (drop_type name) g name' m e = ground (arith, m)
    makes_one (drop_table name) g name' m e = ground (arith, m)
    makes_one (drop_index name table) g name' m e = ground (arith, m)

downgrade-upgrade_example :
    run_all execute downgrade (run_all execute upgrade ("users" ∷ [])) ≡ "users" ∷ []
unfolding upgrade downgrade onboarding_sessions conversation_messages domain_events
downgrade-upgrade_example = downgrade-upgrade execute has ddl_laws ("users" ∷ []) (ground arith)

abbrev commands : List Command
commands = append user "oi" none none ∷ []

run_fits_example :
    (n : ℕ) × (width_of "content" conversation_messages.columns ≡ some n)
    × AllFit n (run env commands (create env 7 "pt-BR" web default_ttl world)).session.messages
unfolding conversation_messages
run_fits_example = run_fits env 7 "pt-BR" web default_ttl world commands
