-- ===== src/Schema/History.antt =====
-- Deployments whose database has been migrated forth and back: the states that they reach, and what
-- `alembic upgrade head` makes of each.
use rag_document_processor.Prelude.{
  ℕ, zero, suc, ◌≡◌, ◌<◌, ◌≤◌, refl, sym, ap, ◌∙◌, Option, none, some, List, [], ◌∷◌, ◌⊎◌, inl, inr,
  arith,
}
use rag_document_processor.Prelude.Text.{Text}
use mathlib.Core.Path.{subst}
use rag_document_processor.Domain.Exceptions.{ok}
use rag_document_processor.Schema.{Op, Migration, Db}
use rag_document_processor.Schema.Effect.{effect, effects, Ddl, IsDdl}
use rag_document_processor.Schema.Versions.{versions, job_late_chunk_tokens}
use rag_document_processor.Schema.Models.{MatchesModels}
use rag_document_processor.Schema.Head.{next_of, current_of, run_all, upgrade_head}
use rag_document_processor.Schema.Stages.{Stage, blank, form, revision_of, ahead}
use rag_document_processor.Schema.Stages.Moves.{forward, backward}

-- Databases by the revision that they are marked with: an empty one, and what the upgrade or the
-- downgrade of a migration, run as a whole, makes of one.
pub data Reach (D : Ddl) : Option Text → D.State → Type 0 where
  created : {r : Option Text} {s : D.State} → r ≡ none → D.tables s ≡ [] → Reach D r s
  upgraded :
      {r q : Option Text} {s t : D.State} (m : Migration)
      → Reach D r s
      → next_of r versions ≡ some m
      → run_all D m.upgrade s ≡ ok t
      → q ≡ some m.revision
      → Reach D q t
  downgraded :
      {r q : Option Text} {s t : D.State} (m : Migration)
      → Reach D r s
      → current_of r versions ≡ some m
      → run_all D m.downgrade s ≡ ok t
      → q ≡ m.down_revision
      → Reach D q t

Option-cases {ℓ} : {A : Type ℓ} (o : Option A) → (o ≡ none) ⊎ ((a : A) × (o ≡ some a))
Option-cases none = inl refl
Option-cases (some a) = inr (a, refl)

one_found : {m k : Migration} {o : Option Migration} → o ≡ some m → o ≡ some k → m ≡ k
one_found found also = cc

ahead-le : (x : Stage) → ahead x ≤ 6
ahead-le blank = omega arith
ahead-le _ = omega arith

module _ (D : Ddl) (sound : IsDdl D) where
  run_all-effects :
      (ops : List Op) (s : D.State) (db : Db)
      → effects ops (D.tables s) ≡ some db
      → (t : D.State) × (run_all D ops s ≡ ok t) × (D.tables t ≡ db)
  unfolding effects run_all
  run_all-effects [] s db h = (s, refl, cc h)
  run_all-effects (op ∷ ops) s db h = elim (Option-cases (effect op (D.tables s))) [
    | inl refused ↦ absurd (cc (rw (refused, effects) at h))
    | inr (mid, made) ↦
        let (t1, ran, became) = sound.runs op s mid made in
        let (t, rest, eq) = run_all-effects ops t1 db (rw became (rw (made, effects) at h)) in
        (t, rw ran rest, eq)
  ]

  -- At one of the stages, under its revision
  abbrev pub Staged : Option Text → D.State → Type 0
  Staged r s = (x : Stage) × (r ≡ revision_of x) × (D.tables s ≡ form x)

  run_staged :
      (ops : List Op) (s t : D.State) (x y : Stage)
      → D.tables s ≡ form x
      → effects ops (form x) ≡ some (form y)
      → run_all D ops s ≡ ok t
      → D.tables t ≡ form y
  run_staged ops s t x y at_x made ran =
      let (t', ran', at_y) = run_all-effects ops s (form y) (rw at_x made) in
      let same : t' ≡ t = cc (ran, ran') in rw (← same) at_y

  -- Every database that upgrades and downgrades lead to is at a stage.
  pub Reach-Staged : {r : Option Text} {s : D.State} → Reach D r s → Staged r s
  Reach-Staged (created e h) = (blank, e, h)
  Reach-Staged (upgraded {r} {q} {s} {t} m before found ran e) =
      let (x, at_r, at_x) = Reach-Staged before in
      elim (forward x) [
        | inr (last, _, _) ↦ absurd (cc (found, last, at_r))
        | inl move ↦
            let same = one_found move.found (ap (λ o. next_of o versions) (sym at_r) ∙ found) in
            (
              move.to,
              e ∙ (ap (λ k. some k.revision) (sym same) ∙ sym move.marked),
              run_staged move.by.upgrade s t x move.to at_x move.made
                  (subst (λ k. run_all D k.upgrade s ≡ ok t) (sym same) ran),
            )
      ]
  Reach-Staged (downgraded {r} {q} {s} {t} m before found ran e) =
      let (x, at_r, at_x) = Reach-Staged before in
      elim (backward x) [
        | inr first ↦ absurd (cc (found, first, at_r))
        | inl move ↦
            let same = one_found move.found (ap (λ o. current_of o versions) (sym at_r) ∙ found) in
            (
              move.to,
              e ∙ (ap (λ k. k.down_revision) (sym same) ∙ sym move.marked),
              run_staged move.by.downgrade s t x move.to at_x move.made
                  (subst (λ k. run_all D k.downgrade s ≡ ok t) (sym same) ran),
            )
      ]

  upgrade_last :
      (fuel : ℕ) (r : Option Text) (s : D.State)
      → next_of r versions ≡ none
      → upgrade_head D (suc fuel) r s ≡ ok (r, s)
  unfolding upgrade_head
  upgrade_last fuel r s last = rw (last, upgrade_head) refl

  upgrade_next :
      (fuel : ℕ) (r : Option Text) (s t : D.State) (m : Migration)
      → next_of r versions ≡ some m
      → run_all D m.upgrade s ≡ ok t
      → upgrade_head D (suc fuel) r s ≡ upgrade_head D fuel (some m.revision) t
  unfolding upgrade_head
  upgrade_next fuel r s t m found ran = rw (found, upgrade_head) (rw ran refl)

  upgrade_stage :
      (fuel : ℕ) (x : Stage) (s : D.State)
      → D.tables s ≡ form x
      → ahead x < fuel
      → (t : D.State) × (upgrade_head D fuel (revision_of x) s
          ≡ ok (some job_late_chunk_tokens.revision, t))
        × MatchesModels (D.tables t)
  upgrade_stage zero x s at_form less = absurd (omega arith)
  upgrade_stage (suc fuel) x s at_form less = elim (forward x) [
    | inr (last, marked, matches) ↦ (
      s,
      upgrade_last fuel (revision_of x) s last ∙ ap (λ r. ok (r, s)) marked,
      subst MatchesModels (sym at_form) matches,
    )
    | inl move ↦
        let (t1, ran, at_y) =
          run_all-effects move.by.upgrade s (form move.to) (rw at_form move.made) in
        let (t, rest, matches) = upgrade_stage fuel move.to t1 at_y (omega (arith, move.nearer)) in
        (
          t,
          upgrade_next fuel (revision_of x) s t1 move.by move.found ran
              ∙ (ap (λ r. upgrade_head D fuel r t1) (sym move.marked) ∙ rest),
          matches,
        )
  ]

  pub upgrade_head-Staged :
      (fuel : ℕ) (r : Option Text) (s : D.State)
      → 6 < fuel
      → Staged r s
      → (t : D.State) × (upgrade_head D fuel r s ≡ ok (some job_late_chunk_tokens.revision, t))
        × MatchesModels (D.tables t)
  upgrade_head-Staged fuel r s enough (x, at_r, at_x) =
      let (t, ran, matches) = upgrade_stage fuel x s at_x (omega (arith, ahead-le x)) in
      (t, ap (λ q. upgrade_head D fuel q s) at_r ∙ ran, matches)

  -- Whatever upgrades and downgrades of single migrations a database has seen since it was empty,
  -- `alembic upgrade head` succeeds on it within seven rounds, and then it has exactly the tables and
  -- columns that the code maps, as they are declared there, under the last revision.
  pub upgrade_head-MatchesModels :
      (fuel : ℕ) (r : Option Text) (s : D.State)
      → 6 < fuel
      → Reach D r s
      → (t : D.State) × (upgrade_head D fuel r s ≡ ok (some job_late_chunk_tokens.revision, t))
        × MatchesModels (D.tables t)
  upgrade_head-MatchesModels fuel r s enough reach =
      upgrade_head-Staged fuel r s enough (Reach-Staged reach)

  -- From any such database the downgrade of the migration that it is marked with succeeds too.
  pub Reach-downgrade :
      (r : Option Text) (s : D.State) (m : Migration)
      → Reach D r s
      → current_of r versions ≡ some m
      → (t : D.State) × (run_all D m.downgrade s ≡ ok t) × Reach D m.down_revision t
  Reach-downgrade r s m reach found =
      let (x, at_r, at_x) = Reach-Staged reach in
      elim (backward x) [
        | inr first ↦ absurd (cc (found, first, at_r))
        | inl move ↦
            let same = one_found move.found (ap (λ o. current_of o versions) (sym at_r) ∙ found) in
            let (t, ran, _) =
              run_all-effects move.by.downgrade s (form move.to) (rw at_x move.made) in
            let ran' = subst (λ k. run_all D k.downgrade s ≡ ok t) same ran in
            (t, ran', downgraded m reach found ran' refl)
      ]
