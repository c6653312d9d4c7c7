-- ===== src/Build/Pipeline/Checkpoint.antt =====
-- build/build.go: a checkpoint in the middle of a pipeline. Commit moves the object into the cache
-- and removes its staging directory, and with it the directory that `tree.Meta()` still names.
use image_assembler.Base.{
  ℕ, suc, String, Bool, true, false, Option, none, some, List, [], ◌∷◌, ◌++◌, ◌||◌, not, ◌≡◌, refl,
  sym, ap, subst, ◌∙◌, lookup, get_elem?, if◌then◌else◌,
}
use image_assembler.Base.Result.{Result, ok, err, panic, map_err, map_err-eq-ok}
use image_assembler.Manifest.Model.{Stage, Runner}
use image_assembler.Manifest.Ident.{stage_id}
use image_assembler.Store.Model.{in_stage, Object, Store, Error}
use image_assembler.Store.Cache.{commit, tree_at, is_some}
use image_assembler.Store.Cache.Unstaged.{commit-Unstaged, Unstaged}
use image_assembler.Build.Action.{
  continue, calling, BuildTree, BuildResult, Failure, opening_metadata_writer,
  committing_checkpoint, staged, World, State, Action, pure,
}
use image_assembler.Build.Pipeline.{run_one, run_stages, open_metadata, commit_checkpoint}

module _ (world : World) where
  open world use {lib}

  abbrev Failed : {A : Type 0} → State × Result {0, 0} Failure A → Type 0
  Failed r = r.1 ≡ err opening_metadata_writer

  continue-Failed :
      {A B : Type 0} (r : State × Result {0, 0} Failure A) (f : A → Action B)
      → Failed r
      → Failed (continue r f)
  continue-Failed (s, ok a) f h = cc
  continue-Failed {A = A} {B = B} (s, err e) f h = ap rewrap h
    where
      rewrap : Result {0, 0} Failure A → Result {0, 0} Failure B
      rewrap (ok a) = panic
      rewrap (err e) = err e
      rewrap panic = panic
  continue-Failed (s, panic) f h = cc

  open_metadata-fails :
      (o : Object) (s : State)
      → tree_at o.meta_path s.store ≡ none
      → Failed (open_metadata world o s)
  open_metadata-fails o s gone =
      subst (λ x. Failed (tested ((world.faults s.tick).metadata || not (is_some x)))) (sym gone)
        (by_fault (world.faults s.tick).metadata)
    where
      tested : Bool → State × Result {0, 0} Failure (Unit {0})
      tested b = (record s { tick = suc s.tick }, if b then err opening_metadata_writer else ok tt)

      by_fault : (b : Bool) → Failed (tested (b || true))
      by_fault true = refl
      by_fault false = refl

  -- A stage does not run on an object whose directory for metadata is gone.
  run_one-fails :
      (p : ℕ) (runner : Runner) (tree : BuildTree) (st : Stage) (s : State) (o : Object)
      → get_elem? s.store.heap p ≡ some o
      → tree_at o.meta_path s.store ≡ none
      → world.is_cancelled s.tick ≡ false
      → Failed (run_one world p runner tree st s)
  unfolding run_one
  run_one-fails p runner tree st s o held gone on = rw on (
      found (get_elem? s.store.heap p) held _ (
        continue-Failed (open_metadata world o announced) _ (open_metadata-fails o announced gone)))
    where
      announced : State
      announced = record s { tick = suc s.tick; events = s.events ++ staged st ∷ [] }

      found :
          (x : Option Object)
          → x ≡ some o
          → (f : Object → Action BuildResult) → Failed (f o announced)
          → Failed (
              continue
                (elim x as (λ x'. State × Result {0, 0} Failure Object) [
                  | none ↦ (announced, panic)
                  | some o' ↦ (announced, ok o')
                ])
                f)
      found x same f h =
          subst
            (λ y. Failed (
              continue
                (elim y as (λ x'. State × Result {0, 0} Failure Object) [
                  | none ↦ (announced, panic)
                  | some o' ↦ (announced, ok o')
                ])
                f))
            (sym same) h

  -- If a checkpoint is committed for the first time, then the next stage of the pipeline never runs:
  -- unless the build was cancelled, the loop fails as it opens the stage's metadata.
  pub run_stages-after_checkpoint :
      (p : ℕ) (runner : Runner) (tree : BuildTree) (st next : Stage) (todo : List Stage)
      (results : List BuildResult) (s t : State) (o : Object) (u : String)
      → st.checkpoint ≡ true
      → lookup (stage_id lib st) s.store.objects ≡ none
      → get_elem? s.store.heap p ≡ some o
      → o.stage_path ≡ some u
      → o.meta_path ≡ in_stage u
      → commit_checkpoint world p st s ≡ (t, ok tt)
      → world.is_cancelled t.tick ≡ false
      → (run_stages world p runner tree (next ∷ todo) results t).1 ≡ err opening_metadata_writer
  unfolding run_stages commit_checkpoint
  run_stages-after_checkpoint p runner tree st next todo results s t o u mark absent held stage meta
        done on =
      continue-Failed (run_one world p runner tree next t) _
        (run_one-fails p runner tree next t _ unstaged.0 gone on)
    where
      committing : Store × Result {0, 0} Error (Unit {0})
      committing =
          commit world.sort_by_use (world.faults s.tick) (world.now s.tick) p (stage_id lib st)
            s.store

      Goal : State × Result {0, 0} Failure (Unit {0}) → Type 0
      Goal r = r ≡ (t, ok tt)

      called :
          (b : Bool)
          → b ≡ true
          → Goal (
              (if b
                  then calling committing_checkpoint (λ k.
                    commit world.sort_by_use (world.faults k) (world.now k) p (stage_id lib st))
                  else pure tt)
                s)
          → Goal (
            record s { store = committing.0; tick = suc s.tick },
            map_err committing_checkpoint committing.1,
          )
      called true same e = e
      called false same e = cc

      result : Goal (
        record s { store = committing.0; tick = suc s.tick },
        map_err committing_checkpoint committing.1,
      )
      result = called st.checkpoint mark done

      pair :
          committing.0 ≡ t.store
          → ◌≡◌ {A = Result {0, 0} Error (Unit {0})} committing.1 (ok tt)
          → ◌≡◌ {A = Store × Result {0, 0} Error (Unit {0})} committing (t.store, ok tt)
      pair e f = ap (λ x. (x, committing.1)) e ∙ ap (λ y. (t.store, y)) f

      committed : ◌≡◌ {A = Store × Result {0, 0} Error (Unit {0})} committing (t.store, ok tt)
      committed =
          pair (ap (λ r. r.0.store) result)
            (map_err-eq-ok committing_checkpoint committing.1 (ap (λ r. r.1) result))

      unstaged : Unstaged p o u (stage_id lib st) t.store
      unstaged =
          commit-Unstaged world.sort_by_use (world.faults s.tick) (world.now s.tick) p o u
            (stage_id lib st) s.store t.store held stage absent committed

      gone : tree_at o.meta_path t.store ≡ none
      gone = ap (λ x. tree_at x t.store) meta ∙ unstaged.1
