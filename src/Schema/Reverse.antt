-- ===== src/Schema/Reverse.antt =====
-- `downgrade` of alembic/versions/20260530_1200_0001_create_session_tables.py takes `upgrade` back. The
-- server that runs the operations is a parameter.
use cognaris_chatbot.Prelude.{
  String, Bool, true, false, List, [], ◌∷◌, ◌++◌, ◌≡◌, refl, ap, ◌∙◌, arith, str_eq, if◌then◌else◌,
  ◌&&◌,
}
use cognaris_chatbot.Schema.{
  Ddl, create_type, create_table, create_index, drop_type, drop_table, drop_index,
}
use cognaris_chatbot.Schema.Migration.{
  upgrade, downgrade, onboarding_sessions, conversation_messages, domain_events,
}

-- what takes an operation back
abbrev pub undo : Ddl → Ddl
undo (create_type name values) = drop_type name
undo (create_table t) = drop_table t.name
undo (create_index name table columns) = drop_index name table
undo op = op

-- the name of what an operation makes; types, tables and indexes have different names
abbrev pub made : Ddl → String
made (create_type name values) = name
made (create_table t) = t.name
made (create_index name table columns) = name
made _ = ""

abbrev pub is_making : Ddl → Bool
is_making (create_type name values) = true
is_making (create_table t) = true
is_making (create_index name table columns) = true
is_making _ = false

-- `has g name`: there is something of that name in the state g.
pub record DdlLaws {G : Type 0} (execute : Ddl → G → G) (has : G → String → Bool) : Type 0 where
  pub drop_back :
      (op : Ddl) (g : G)
      → is_making op ≡ true
      → has g (made op) ≡ false
      → execute (undo op) (execute op g) ≡ g
  pub makes_one :
      (op : Ddl) (g : G) (name : String)
      → is_making op ≡ true
      → str_eq (made op) name ≡ false
      → has (execute op g) name ≡ has g name

module _ {G : Type 0} (execute : Ddl → G → G) where
  abbrev pub run : List Ddl → G → G
  run [] g = g
  run (op ∷ ops) g = run ops (execute op g)

  run-append : (ops ops' : List Ddl) (g : G) → run (ops ++ ops') g ≡ run ops' (run ops g)
  run-append [] ops' g = refl
  run-append (op ∷ ops) ops' g = run-append ops ops' (execute op g)

-- every operation makes something, and no name occurs twice
abbrev fresh_among : String → List Ddl → Bool
fresh_among name [] = true
fresh_among name (op ∷ ops) =
    let rest = fresh_among name ops in if str_eq name (made op) then false else rest

abbrev all_fresh : List Ddl → Bool
all_fresh [] = true
all_fresh (op ∷ ops) =
    let rest = all_fresh ops in is_making op && (fresh_among (made op) ops && rest)

-- nothing of these names is there
abbrev pub IsFree : {G : Type 0} → (G → String → Bool) → G → List Ddl → Type 0
IsFree has g [] = Unit
IsFree has g (op ∷ ops) = (has g (made op) ≡ false) × IsFree has g ops

abbrev undone : List Ddl → List Ddl
undone [] = []
undone (op ∷ ops) = undone ops ++ undo op ∷ []

module _ {G : Type 0} (execute : Ddl → G → G) (has : G → String → Bool)
    (laws : DdlLaws execute has) where
  still-IsFree :
      (op : Ddl) (ops : List Ddl) (g : G)
      → is_making op ≡ true
      → fresh_among (made op) ops ≡ true
      → IsFree has g ops
      → IsFree has (execute op g) ops
  still-IsFree op [] g making fresh free = tt
  still-IsFree op (op' ∷ ops) g making fresh free = (
    laws.makes_one op g (made op') making (ground arith) ∙ free.0,
    still-IsFree op ops g making (ground arith) free.1,
  )

  run-undone :
      (ops : List Ddl) (g : G)
      → all_fresh ops ≡ true
      → IsFree has g ops
      → run execute (undone ops) (run execute ops g) ≡ g
  run-undone [] g fresh free = refl
  run-undone (op ∷ ops) g fresh free =
      run-append execute (undone ops) (undo op ∷ []) _
      ∙ ap (execute (undo op)) (
          run-undone ops (execute op g) (ground arith)
            (still-IsFree op ops g (ground arith) (ground arith) free.1))
      ∙ laws.drop_back op g (ground arith) free.0

  -- Where an operation makes something of its own name only, and dropping it takes that away again:
  -- on a server where nothing has a name of the migration, a downgrade after an upgrade gives back
  -- the schema that was there before.
  pub downgrade-upgrade :
      (g : G) → IsFree has g upgrade → run execute downgrade (run execute upgrade g) ≡ g
  unfolding upgrade downgrade onboarding_sessions conversation_messages domain_events
  downgrade-upgrade g free = run-undone upgrade g refl free
