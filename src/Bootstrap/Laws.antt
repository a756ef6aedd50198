-- ===== src/Bootstrap/Laws.antt =====
-- Which statement the start-up may send to the server.
use rag_document_processor.Prelude.{
  ◌≡◌, refl, ap, ◌∙◌, Bool, true, false, not, ◌&&◌, Option, none, some, [], ◌∷◌, inl, inr, ◌⊎◌,
  Bool-cases,
}
use rag_document_processor.Prelude.Text.{Text, codes, text_eq, one_of, truthy, or_text, nonempty}
use rag_document_processor.Domain.Exceptions.{ok, >>=-eq-ok}
use rag_document_processor.Bootstrap.{
  Server, Url, is_db_name, create_statement, create_unless, create_missing, ensure_named, ensure_in,
  sync_database_url, ensure_postgres_database_exists,
}

module _ (S : Server) (s t : S.State) where
  -- Nothing was changed; or a database of a simple name was missing, and its creation was all that
  -- was run.
  abbrev pub Ensured : Type 0
  Ensured =
      (t ≡ s)
      ⊎ ((name : Text) × (is_db_name name ≡ true)
          × (S.exists name s ≡ ok false)
          × (S.execute (create_statement name) s ≡ ok t))

  same_state : ok s ≡ ok t → t ≡ s
  same_state h = cc

  create_unless-cases :
      (there : Bool) (name : Text)
      → create_unless S there name s ≡ ok t
      → (t ≡ s) ⊎ ((there ≡ false) × (S.execute (create_statement name) s ≡ ok t))
  create_unless-cases true name h = inl (same_state h)
  create_unless-cases false name h = inr (refl, h)

  ensure_named-Ensured : (name : Text) → ensure_named S name s ≡ ok t → Ensured
  unfolding create_missing
  ensure_named-Ensured name h =
      elim (Bool-cases
        (one_of name (codes "postgres" ∷ codes "template0" ∷ codes "template1" ∷ []))) [
          | inl system ↦ inl (same_state (rw system at h))
          | inr own ↦ elim (Bool-cases (is_db_name name)) [
            | inr odd ↦ cc (rw (own, odd) at h)
            | inl simple ↦
                let (there, asked, made) =
                  >>=-eq-ok (S.exists name s) (λ there. create_unless S there name s)
                    (rw (own, simple) at h) in
                elim (create_unless-cases there name made) [
                  | inl same ↦ inl same
                  | inr (missing, run) ↦ inr (name, simple, asked ∙ ap ok missing, run)
                ]
          ]
        ]

  ensure_in-Ensured : (url : Option Url) → ensure_in S url s ≡ ok t → Ensured
  ensure_in-Ensured none h = inl (same_state h)
  ensure_in-Ensured (some url) h =
      elim (Bool-cases (text_eq url.backend_name (codes "postgresql") && truthy url.database)) [
        | inl named ↦ ensure_named-Ensured (or_text url.database []) (rw named at h)
        | inr other ↦ inl (same_state (rw other at h))
      ]

  -- Where the start-up succeeds, it has run nothing on the server, or the creation of one database
  -- that was missing and whose name is letters, digits and underscores only, so that it cannot leave
  -- its quotes.
  pub ensure_postgres_database_exists-Ensured :
      (make_url : Text → Option Url) (auto_create : Bool) (sync url : Option Text)
      → ensure_postgres_database_exists S make_url auto_create sync url s ≡ ok t
      → Ensured
  unfolding ensure_postgres_database_exists
  ensure_postgres_database_exists-Ensured make_url auto_create sync url h =
      let wanted =
        auto_create
        && nonempty (sync_database_url sync url)
        && not (text_eq (sync_database_url sync url) (codes "+psycopg2")) in
      elim (Bool-cases wanted) [
        | inl on ↦ ensure_in-Ensured (make_url (sync_database_url sync url)) (rw on at h)
        | inr off ↦ inl (same_state (rw off at h))
      ]
