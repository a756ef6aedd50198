-- ===== src/Schema.antt =====
-- The database's schema: what alembic/versions/ and infrastructure/db/models.py are written in. An
-- operation of Alembic is data here; what it does to the tables, and when PostgreSQL accepts it, is
-- what both document.
pub mod Effect
pub mod Versions
pub mod Models
pub mod Head
pub mod Stages
pub mod History
use rag_document_processor.Prelude.{
  ℕ, Bool, true, false, not, ◌&&◌, ◌||◌, Option, none, some, List, [], ◌∷◌, ◌++◌, if◌then◌else◌,
}
use rag_document_processor.Prelude.Text.{Text, text_eq}

-- The types of SQLAlchemy that the columns have
pub data SqlType : Type 0 where
  uuid text boolean integer timestamptz : SqlType
  string : ℕ → SqlType

pub data OnDelete : Type 0 where
  cascade : OnDelete

pub record ForeignKey : Type 0 where
  pub table : Text
  pub column : Text
  pub ondelete : OnDelete

-- `sa.Column`, and `mapped_column`
pub record Column : Type 0 where
  pub name : Text
  pub type : SqlType
  pub primary_key : Bool
  pub nullable : Bool
  pub unique : Bool
  pub index : Bool
  pub server_default : Option Text
  pub foreign_key : Option ForeignKey

abbrev pub plain_column : Text → SqlType → Bool → Column
plain_column name type nullable = record {
  name = name;
  type = type;
  primary_key = false;
  nullable = nullable;
  unique = false;
  index = false;
  server_default = none;
  foreign_key = none;
}

abbrev pub required : Text → SqlType → Column
required name type = plain_column name type false

abbrev pub optional : Text → SqlType → Column
optional name type = plain_column name type true

abbrev pub keyed : Text → SqlType → Column
keyed name type = record (required name type) { primary_key = true }

abbrev pub defaulted : Text → SqlType → Text → Column
defaulted name type value = record (required name type) { server_default = some value }

-- The calls of `alembic.op`
pub data Op : Type 0 where
  create_table : Text → List Column → Op
  drop_table : Text → Op
  add_column : Text → Column → Op
  drop_column : Text → Text → Op
  create_index : Text → Text → Op
  create_foreign_key : Text → Text → ForeignKey → Op

-- A file of alembic/versions/
pub record Migration : Type 0 where
  pub revision : Text
  pub down_revision : Option Text
  pub upgrade : List Op
  pub downgrade : List Op

-- The tables, in the order of their creation
abbrev pub Db : Type 0
Db = List (Text × List Column)

unfoldable pub table : Text → Db → Option (List Column)
table name [] = none
table name ((t, cs) ∷ db) = if text_eq t name then some cs else table name db

unfoldable pub column : Text → List Column → Option Column
column name [] = none
column name (c ∷ cs) = if text_eq c.name name then some c else column name cs

unfoldable pub without_table : Text → Db → Db
without_table name [] = []
without_table name ((t, cs) ∷ db) = if text_eq t name then db else (t, cs) ∷ without_table name db

unfoldable pub without_column : Text → List Column → List Column
without_column name [] = []
without_column name (c ∷ cs) = if text_eq c.name name then cs else c ∷ without_column name cs

unfoldable pub with_columns : Text → List Column → Db → Db
with_columns name new [] = []
with_columns name new ((t, cs) ∷ db) =
    if text_eq t name then (t, new) ∷ db else (t, cs) ∷ with_columns name new db

unfoldable pub indexed : Text → List Column → List Column
indexed name [] = []
indexed name (c ∷ cs) =
    (if text_eq c.name name then record c { index = true } else c) ∷ indexed name cs

unfoldable pub referring : Text → ForeignKey → List Column → List Column
referring name key [] = []
referring name key (c ∷ cs) =
    (if text_eq c.name name then record c { foreign_key = some key } else c) ∷ referring name key cs

abbrev pub has_table : Text → Db → Bool
unfolding table
has_table name db = elim (table name db) [ none ↦ false | some cs ↦ true ]

abbrev pub refers_to : Text → Option ForeignKey → Bool
refers_to name none = false
refers_to name (some key) = text_eq key.table name

-- A column of the table `name` refers to the table `to`.
unfoldable pub any_refers : Text → List Column → Bool
any_refers to [] = false
any_refers to (c ∷ cs) = refers_to to c.foreign_key || any_refers to cs

unfoldable pub is_referenced : Text → Db → Bool
unfolding any_refers
is_referenced name [] = false
is_referenced name ((t, cs) ∷ db) =
    (not (text_eq t name) && any_refers name cs) || is_referenced name db

-- The table and the column that a foreign key names are there.
abbrev pub key_holds : Db → Option ForeignKey → Bool
key_holds db none = true
key_holds db (some key) = elim (table key.table db) [
  | none ↦ false
  | some cs ↦ elim (column key.column cs) [ none ↦ false | some c ↦ true ]
]

unfoldable pub keys_hold : Db → List Column → Bool
unfolding table column
keys_hold db [] = true
keys_hold db (c ∷ cs) = key_holds db c.foreign_key && keys_hold db cs
