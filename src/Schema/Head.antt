-- ===== src/Schema/Head.antt =====
-- `alembic upgrade head`, as Alembic documents it: the migration that follows the revision that the
-- database is marked with is run in a transaction, until none follows.
use rag_document_processor.Prelude.{
  ℕ, zero, suc, Bool, true, false, Option, none, some, List, [], ◌∷◌, if◌then◌else◌,
}
use rag_document_processor.Prelude.Text.{Text, codes, text_eq}
use rag_document_processor.Domain.Exceptions.{Result, ok, err, ◌>>=◌, other_error}
use rag_document_processor.Schema.{Op, Migration}
use rag_document_processor.Schema.Effect.{Ddl}
use rag_document_processor.Schema.Versions.{versions}

abbrev pub same_revision : Option Text → Option Text → Bool
unfolding text_eq
same_revision none none = true
same_revision none (some r) = false
same_revision (some q) none = false
same_revision (some q) (some r) = text_eq q r

-- The migration after a revision
unfoldable pub next_of : Option Text → List Migration → Option Migration
unfolding text_eq
next_of r [] = none
next_of r (m ∷ ms) = if same_revision m.down_revision r then some m else next_of r ms

-- The migration that has led to a revision
unfoldable pub current_of : Option Text → List Migration → Option Migration
unfolding text_eq
current_of r [] = none
current_of r (m ∷ ms) = if same_revision (some m.revision) r then some m else current_of r ms

module _ (D : Ddl) where
  unfoldable pub run_all : List Op → D.State → Result D.State
  run_all [] s = ok s
  run_all (op ∷ ops) s = D.run op s >>= run_all ops

  -- On fuel: there is one round for each migration, and one that finds none.
  unfoldable pub upgrade_head : ℕ → Option Text → D.State → Result (Option Text × D.State)
  unfolding next_of run_all
  upgrade_head zero r s = err (other_error (codes "fuel"))
  upgrade_head (suc fuel) r s = elim (next_of r versions) [
    | none ↦ ok (r, s)
    | some m ↦ run_all m.upgrade s >>= upgrade_head fuel (some m.revision)
  ]
