-- ===== src/Startup/Laws.antt =====
-- What a service that has started can rely on.
use rag_document_processor.Prelude.{
  ◌≡◌, refl, sym, ap, ◌∙◌, true, false, not, Bool, if◌then◌else◌, Bool-cases, Option, some, [], ◌∷◌,
  inl, inr, arith,
}
use rag_document_processor.Prelude.Text.{Text, strip, nonempty}
use mathlib.Core.Path.{subst}
use rag_document_processor.Domain.Exceptions.{ok, ◌>>=◌}
use rag_document_processor.Bootstrap.{Url, sync_database_url}
use rag_document_processor.Bootstrap.Laws.{ensure_postgres_database_exists-Ensured}
use rag_document_processor.Schema.Versions.{job_late_chunk_tokens}
use rag_document_processor.Schema.Models.{MatchesModels}
use rag_document_processor.Schema.Head.{upgrade_head}
use rag_document_processor.Schema.History.{Reach, Staged, Reach-Staged, upgrade_head-Staged}
use rag_document_processor.Startup.{
  Host, server_of, ddl_of, IsHost, Environ, checked_url, sync_url_of, migrate_if_set, get_url,
  database_url_sync_env, StartSettings, ensure, run_migrations_online, unusable,
  run_alembic_upgrade_head, lifespan,
}

if_true : {A : Type 0} {b : Bool} {x : A} (y : A) → b ≡ true → (if b then x else y) ≡ x
if_true y h = rw h refl

if_false : {A : Type 0} {b : Bool} (x : A) {y : A} → b ≡ false → (if b then x else y) ≡ y
if_false x h = rw h refl

module _ (H : Host) (sound : IsHost H) (make_url : Text → Option Url)
    (settings : StartSettings) where
  -- The creation of a database changes none that is there.
  ensure_keeps :
      (url : Text) (s t : H.State)
      → ensure H make_url settings s ≡ ok t
      → Staged (ddl_of H url) (sound.migrates url) (H.revision url s) s
      → Staged (ddl_of H url) (sound.migrates url) (H.revision url t) t
  unfolding ensure
  ensure_keeps url s t h (x, at_r, at_x) =
      elim (ensure_postgres_database_exists-Ensured (server_of H) s t make_url
        settings.database_auto_create settings.database_url_sync settings.database_url h) [
          | inl same ↦
              subst (λ u. Staged (ddl_of H url) (sound.migrates url) (H.revision url u) u)
                (sym same) (x, at_r, at_x)
          | inr (name, _, _, made) ↦
              let (tables, revision) = sound.creates name url made in
              (x, revision ∙ at_r, tables ∙ at_x)
        ]

  unusable-nonempty : (url : Text) → unusable H make_url settings url ≡ false → nonempty url ≡ true
  unusable-nonempty url h = ground arith

  run_migrations_online-eq :
      (env : Environ) (s ready : H.State) (url : Text)
      → ensure H make_url settings s ≡ ok ready
      → get_url env ≡ ok url
      → run_migrations_online H make_url settings env s
        ≡ upgrade_head (ddl_of H url) 7 (H.revision url ready) ready
  unfolding run_migrations_online
  run_migrations_online-eq env s ready url ran got = rw (ran, got) refl

  abbrev sync_url : Text
  sync_url = sync_database_url settings.database_url_sync settings.database_url

  -- What the start needs of its settings and of the server
  pub record CanStart : Type 0 where
    pub migrate : settings.database_auto_migrate ≡ true
    pub ini : settings.ini_found ≡ true
    pub usable : unusable H make_url settings sync_url ≡ false
    pub not_blank : nonempty (strip sync_url) ≡ true
    pub ensured : (s : H.State) → (t : H.State) × (ensure H make_url settings s ≡ ok t)

  module _ (can : CanStart) (env : Environ) where
    abbrev set_env : Environ
    set_env = record env { database_url_sync = some sync_url }

    sync_url_of-set :
        (url : Text)
        → nonempty url ≡ true
        → sync_url_of (record env { database_url_sync = some url }) ≡ strip url
    unfolding sync_url_of
    sync_url_of-set [] h = cc
    sync_url_of-set (c ∷ url) h = refl

    get_url-set : get_url set_env ≡ ok (strip sync_url)
    unfolding get_url
    get_url-set =
        ap checked_url (sync_url_of-set sync_url (unusable-nonempty sync_url can.usable))
        ∙ if_true _ can.not_blank

    online :
        (s : H.State)
        → Staged
            (ddl_of H (strip sync_url))
            (sound.migrates (strip sync_url))
            (H.revision (strip sync_url) s)
            s
        → (r : Option Text) × (t : H.State) × (run_migrations_online H make_url settings set_env s
            ≡ ok (r, t))
          × MatchesModels (H.tables (strip sync_url) t)
    online s staged =
        let (ready, ran) = can.ensured s in
        let (t, up, matches) =
          upgrade_head-Staged (ddl_of H (strip sync_url)) (sound.migrates (strip sync_url)) 7
            (H.revision (strip sync_url) ready) ready (omega arith)
            (ensure_keeps (strip sync_url) s ready ran staged) in
        (
          some job_late_chunk_tokens.revision,
          t,
          run_migrations_online-eq set_env s ready (strip sync_url) ran get_url-set ∙ up,
          matches,
        )

    migrated :
        (s : H.State)
        → Staged
            (ddl_of H (strip sync_url))
            (sound.migrates (strip sync_url))
            (H.revision (strip sync_url) s)
            s
        → (t : H.State) × (run_alembic_upgrade_head H make_url settings env s ≡ (env, ok t))
          × MatchesModels (H.tables (strip sync_url) t)
    unfolding run_alembic_upgrade_head database_url_sync_env
    migrated s staged =
        let (r, t, ran, matches) = online s staged in
        (
          t,
          if_false _ (ap not can.ini)
              ∙ (if_false _ can.usable ∙ ap (λ m. (env, m >>= λ (r, u). ok u)) ran),
          matches,
        )

    -- A service that migrates at its start, with alembic.ini there, a URL that is not blank and a
    -- server that lets the database be created, starts from an empty or a missing database and from
    -- any that upgrades and downgrades have led to; then the database has exactly the tables and
    -- columns that the code maps, and the environment is as it was.
    pub lifespan-MatchesModels :
        (s : H.State)
        → Reach (ddl_of H (strip sync_url)) (H.revision (strip sync_url) s) s
        → (t : H.State) × (lifespan H make_url settings env s ≡ (env, ok t))
          × MatchesModels (H.tables (strip sync_url) t)
    unfolding lifespan
    lifespan-MatchesModels s reach =
        let staged =
          Reach-Staged (ddl_of H (strip sync_url)) (sound.migrates (strip sync_url)) reach in
        elim (Bool-cases settings.database_auto_create) [
          | inl on ↦
              let (ready, ran) = can.ensured s in
              let (t, started, matches) =
                migrated ready (ensure_keeps (strip sync_url) s ready ran staged) in
              (
                t,
                ap (migrate_if_set H make_url settings env) (if_true _ on ∙ ran)
                    ∙ (if_true _ can.migrate ∙ started),
                matches,
              )
          | inr off ↦
              let (t, started, matches) = migrated s staged in
              (
                t,
                ap (migrate_if_set H make_url settings env) (if_false _ off)
                    ∙ (if_true _ can.migrate ∙ started),
                matches,
              )
        ]
