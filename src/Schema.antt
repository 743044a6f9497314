-- ===== src/Schema.antt =====
-- The database schema, twice: the operations of
-- alembic/versions/20260530_1200_0001_create_session_tables.py (Schema/Migration), and the ORM models of
-- app/infrastructure/db/models/ with the mixins of app/infrastructure/db/base.py (Schema/Models).
pub mod Migration
pub mod Models
pub mod Reverse
pub mod Fits
pub mod Environment
pub mod Applied
use cognaris_chatbot.Prelude.{ℕ, String, Bool, true, false, Option, none, some, List, [], ◌∷◌, map}

pub data ColumnType : Type 0 where
  uuid integer timestamptz jsonb : ColumnType
  varchar : ℕ → ColumnType
  enumeration : String → ColumnType  -- by the name of the type

pub record Column : Type 0 where
  pub name : String
  pub type : ColumnType
  pub nullable : Bool
  pub primary_key : Bool
  pub foreign_key : Option (String × String)  -- the column referred to, and `ondelete`
  pub server_default : Option String

-- `unique` are the unique constraints, with their names and columns.
pub record Table : Type 0 where
  pub name : String
  pub columns : List Column
  pub unique : List (String × List String)

pub data Ddl : Type 0 where
  create_type : String → List String → Ddl
  create_table : Table → Ddl
  create_index : String → String → List String → Ddl  -- name, table, columns
  drop_type : String → Ddl
  drop_table : String → Ddl
  drop_index : String → String → Ddl

-- a column that is neither nullable nor a key
abbrev pub required : String → ColumnType → Column
required name type = record {
  name = name;
  type = type;
  nullable = false;
  primary_key = false;
  foreign_key = none;
  server_default = none;
}

abbrev pub optional : String → ColumnType → Column
optional name type = record (required name type) { nullable = true }

abbrev pub primary : String → Column
primary name = record (required name uuid) { primary_key = true }

abbrev pub defaulting : String → Column → Column
defaulting text c = record c { server_default = some text }
