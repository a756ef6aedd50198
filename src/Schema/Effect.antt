-- ===== src/Schema/Effect.antt =====
-- What the operations of Alembic are documented to do to the tables of PostgreSQL; `none` is a refusal.
-- No column that another one refers to is dropped here. A database is a parameter, of which the effects
-- are assumed.
use rag_document_processor.Prelude.{
  ◌≡◌, Bool, true, false, not, ◌&&◌, Option, none, some, List, [], ◌∷◌, ◌++◌, is_some,
}
use rag_document_processor.Prelude.Text.{Text}
use rag_document_processor.Domain.Exceptions.{Result, ok}
use rag_document_processor.Schema.{
  Column, Op, create_table, drop_table, add_column, drop_column, create_index, create_foreign_key,
  Db, table, column, without_table, without_column, with_columns, indexed, referring, has_table,
  is_referenced, key_holds, keys_hold,
}

-- A change of the columns of a table, where it is there
abbrev pub change :
    Text → Db → Option (List Column) → (List Column → Option (List Column)) → Option Db
change name db none step = none
change name db (some cs) step = elim (step cs) [
  | none ↦ none
  | some new ↦ some (with_columns name new db)
]

abbrev pub only_if {ℓ} : {A : Type ℓ} → Bool → A → Option A
only_if false a = none
only_if true a = some a

abbrev pub not_indexed : Option Column → Bool
not_indexed none = false
not_indexed (some c) = not c.index

-- A new column is refused where the rows that are there would have no value for it.
unfoldable pub effect : Op → Db → Option Db
unfolding table column without_table without_column with_columns indexed referring is_referenced
    keys_hold
effect (create_table name cs) db =
    only_if (not (has_table name db) && keys_hold db cs) (db ++ (name, cs) ∷ [])
effect (drop_table name) db =
    only_if (has_table name db && not (is_referenced name db)) (without_table name db)
effect (add_column name c) db = change name db (table name db) (λ cs.
    only_if (not (is_some (column c.name cs)) && c.nullable && key_holds db c.foreign_key)
      (cs ++ c ∷ []))
effect (drop_column name c) db =
    change name db (table name db) (λ cs. only_if (is_some (column c cs)) (without_column c cs))
effect (create_index name c) db =
    change name db (table name db) (λ cs. only_if (not_indexed (column c cs)) (indexed c cs))
effect (create_foreign_key name c key) db =
    change name db (table name db)
      (λ cs. only_if (is_some (column c cs) && key_holds db (some key)) (referring c key cs))

unfoldable pub effects : List Op → Db → Option Db
unfolding effect
effects [] db = some db
effects (op ∷ ops) db = elim (effect op db) [ none ↦ none | some db' ↦ effects ops db' ]

-- A database that migrations run on: its tables, and an operation of Alembic on it
pub record Ddl : Type 1 where
  pub State : Type 0
  pub tables : State → Db
  pub run : Op → State → Result State

-- It takes each operation that has an effect, and has that effect.
pub record IsDdl (D : Ddl) : Type 0 where
  pub runs :
      (op : Op) (s : D.State) (db : Db)
      → effect op (D.tables s) ≡ some db
      → (t : D.State) × (D.run op s ≡ ok t) × (D.tables t ≡ db)
