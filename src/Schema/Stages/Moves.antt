-- ===== src/Schema/Stages/Moves.antt =====
-- Each stage's next upgrade and its downgrade succeed, and lead to a stage.
use rag_document_processor.Prelude.{suc, ◌≡◌, refl, none, some, ◌⊎◌, inl, inr}
use rag_document_processor.Prelude.Text.{text_eq}
use rag_document_processor.Schema.{Migration, table, column}
use rag_document_processor.Schema.Effect.{effects}
use rag_document_processor.Schema.Versions.{
  initial, job_llama_parse_tier, job_embedding_dimensions, job_embed_controls, api_keys_drop_users,
  job_late_chunk_tokens, versions,
}
use rag_document_processor.Schema.Models.{MatchesModels}
use rag_document_processor.Schema.Head.{next_of, current_of}
use rag_document_processor.Schema.Stages.{
  Stage, blank, owned1, owned2, owned3, owned4, restored11, restored21, restored22, restored31,
  restored32, restored33, restored41, restored42, restored43, restored44, global5, global6, form,
  revision_of, ahead,
}

pub record Advance (x : Stage) : Type 0 where
  pub by : Migration
  pub to : Stage
  pub found : next_of (revision_of x) versions ≡ some by
  pub made : effects by.upgrade (form x) ≡ some (form to)
  pub marked : revision_of to ≡ some by.revision
  pub nearer : ahead x ≡ suc (ahead to)

pub record Retreat (x : Stage) : Type 0 where
  pub by : Migration
  pub to : Stage
  pub found : current_of (revision_of x) versions ≡ some by
  pub made : effects by.downgrade (form x) ≡ some (form to)
  pub marked : revision_of to ≡ by.down_revision

-- Nothing follows, and the tables are those of the models.
abbrev pub IsHead : Stage → Type 0
IsHead x =
    (next_of (revision_of x) versions ≡ none)
    × (revision_of x ≡ some job_late_chunk_tokens.revision)
    × MatchesModels (form x)

module _ {x : Stage} (by : Migration) (to : Stage) where
  up_by :
      next_of (revision_of x) versions ≡ some by
      → effects by.upgrade (form x) ≡ some (form to)
      → revision_of to ≡ some by.revision
      → ahead x ≡ suc (ahead to)
      → Advance x ⊎ IsHead x
  up_by found made marked nearer =
      inl
        (record { by = by; to = to; found = found; made = made; marked = marked; nearer = nearer })

  down_by :
      current_of (revision_of x) versions ≡ some by
      → effects by.downgrade (form x) ≡ some (form to)
      → revision_of to ≡ by.down_revision
      → Retreat x ⊎ (current_of (revision_of x) versions ≡ none)
  down_by found made marked =
      inl (record { by = by; to = to; found = found; made = made; marked = marked })

pub forward : (x : Stage) → Advance x ⊎ IsHead x
unfolding next_of effects table column text_eq
forward blank =
    inl (record {
      by = initial;
      to = owned1;
      found = refl;
      made = refl;
      marked = refl;
      nearer = refl;
    })
forward owned1 = up_by job_llama_parse_tier owned2 refl refl refl refl
forward owned2 = up_by job_embedding_dimensions owned3 refl refl refl refl
forward owned3 = up_by job_embed_controls owned4 refl refl refl refl
forward owned4 = up_by api_keys_drop_users global5 refl refl refl refl
forward restored11 = up_by job_llama_parse_tier restored21 refl refl refl refl
forward restored21 = up_by job_embedding_dimensions restored31 refl refl refl refl
forward restored22 = up_by job_embedding_dimensions restored32 refl refl refl refl
forward restored31 = up_by job_embed_controls restored41 refl refl refl refl
forward restored32 = up_by job_embed_controls restored42 refl refl refl refl
forward restored33 = up_by job_embed_controls restored43 refl refl refl refl
forward restored41 = up_by api_keys_drop_users global5 refl refl refl refl
forward restored42 = up_by api_keys_drop_users global5 refl refl refl refl
forward restored43 = up_by api_keys_drop_users global5 refl refl refl refl
forward restored44 = up_by api_keys_drop_users global5 refl refl refl refl
forward global5 = up_by job_late_chunk_tokens global6 refl refl refl refl
forward global6 = inr (refl, refl, ((refl, refl), (refl, refl), refl))

pub backward : (x : Stage) → Retreat x ⊎ (current_of (revision_of x) versions ≡ none)
unfolding current_of effects text_eq
backward blank = inr refl
backward owned1 =
    inl (record { by = initial; to = blank; found = refl; made = refl; marked = refl })
backward owned2 =
    inl
      (record { by = job_llama_parse_tier; to = owned1; found = refl; made = refl; marked = refl })
backward owned3 = down_by job_embedding_dimensions owned2 refl refl refl
backward owned4 =
    inl (record { by = job_embed_controls; to = owned3; found = refl; made = refl; marked = refl })
backward restored11 =
    inl (record { by = initial; to = blank; found = refl; made = refl; marked = refl })
backward restored21 = down_by job_llama_parse_tier restored11 refl refl refl
backward restored22 = down_by job_llama_parse_tier restored11 refl refl refl
backward restored31 = down_by job_embedding_dimensions restored21 refl refl refl
backward restored32 = down_by job_embedding_dimensions restored22 refl refl refl
backward restored33 = down_by job_embedding_dimensions restored22 refl refl refl
backward restored41 =
    inl (record {
      by = job_embed_controls;
      to = restored31;
      found = refl;
      made = refl;
      marked = refl;
    })
backward restored42 =
    inl (record {
      by = job_embed_controls;
      to = restored32;
      found = refl;
      made = refl;
      marked = refl;
    })
backward restored43 =
    inl (record {
      by = job_embed_controls;
      to = restored33;
      found = refl;
      made = refl;
      marked = refl;
    })
backward restored44 =
    inl (record {
      by = job_embed_controls;
      to = restored33;
      found = refl;
      made = refl;
      marked = refl;
    })
backward global5 =
    inl (record {
      by = api_keys_drop_users;
      to = restored44;
      found = refl;
      made = refl;
      marked = refl;
    })
backward global6 =
    inl (record {
      by = job_late_chunk_tokens;
      to = global5;
      found = refl;
      made = refl;
      marked = refl;
    })
