-- ===== src/Build/Pipeline.antt =====
-- build/build.go: BuildPipeline. RunStage is a parameter of the world, with the files that it and
-- metaWriter.Close leave in the data directory of the tree.
use mathlib.Core.List.{reverse}
use image_assembler.Base.{
  ℕ, suc, String, Bool, true, false, not, ◌||◌, Option, none, some, List, [], ◌∷◌, ◌++◌,
  if◌then◌else◌, get_elem?, set, lookup, ◌==◌,
}
use image_assembler.Base.Int.{ℤ, pos}
use image_assembler.Base.Result.{Result, ok, err, panic}
use image_assembler.Manifest.Model.{Stage, Runner, Pipeline}
use image_assembler.Manifest.Ident.{stage_id, pipeline_id}
use image_assembler.Store.Model.{Place, in_stage, in_cache, Object, Store, Error}
use image_assembler.Store.Evict.{equal_ℤ}
use image_assembler.Store.Cache.{is_some, contains, get, new, commit, tree_at, get_host_tree}
use image_assembler.Store.Objects.{init, finalize, write_tree, is_write}
use image_assembler.Build.Action.{
  BuildTree, host_root, object_root, StageRun, not_run, ran, BuildResult, PipelineResult, Event,
  staged, resulted, Failure, getting_host_tree, getting_build_tree, build_tree_not_found,
  creating_object, checking_checkpoint, init_from_checkpoint, opening_metadata_writer,
  running_stage, committing_checkpoint, finalizing_tree, World, State, Action, pure, raise, ◌>>=◌,
  ◌>>◌, calling, emit, check, close_tree, closing,
}
pub mod Order
pub mod Todo
pub mod Whole
pub mod Checkpoint

-- r.Success()
abbrev pub succeeded : BuildResult → Bool
succeeded r = equal_ℤ r.return_code (pos 0)

-- A pointer that Get or New returned is never dangling.
abbrev pub deref : ℕ → Action Object
deref p s = elim (get_elem? s.store.heap p) [ none ↦ (s, panic) | some o ↦ (s, ok o) ]

module _ (world : World) where
  open world use {
    lib, sort_by_use, faults, now, is_cancelled, uuid, fresh, host_fails, clamp_fails, run_stage,
  }

  abbrev pub get_object : (String → Error → Failure) → String → Action (Option ℕ)
  get_object wrap id = calling (wrap id) (λ t. get (faults t) (now t) id)

  abbrev pub object_tree : String → Option ℕ → Action BuildTree
  object_tree id none = raise (build_tree_not_found id)
  object_tree id (some q) = do o ← deref q; pure (object_root o.path)

  -- var buildTree BuildTree
  unfoldable pub choose_build_tree : Option String → Action BuildTree
  unfolding get get_host_tree
  choose_build_tree none = do
    calling getting_host_tree (λ t. get_host_tree (host_fails t))
    pure host_root
  choose_build_tree (some id) = do found ← get_object getting_build_tree id; object_tree id found

  -- Reading: the object that Get found is in read mode.
  abbrev pub is_readable : Option Object → Bool
  is_readable none = false
  is_readable (some o) = not (is_write o.mode)

  abbrev pub readable_at : ℕ → State → Bool
  readable_at q s = is_readable (get_elem? s.store.heap q)

  -- The walk over the stages in reverse, and the stages to run, in the order of the pipeline. The
  -- source collects them in reverse and runs them from the end.
  unfoldable pub find_todo : ℕ → List Stage → List Stage → Action (List Stage)
  unfolding get init
  find_todo p [] todo = pure todo
  find_todo p (st ∷ before) todo = get_object checking_checkpoint (stage_id lib st) >>= λ found.
      elim found [
        | none ↦ find_todo p before (st ∷ todo)
        | some q ↦ λ s. elim (readable_at q s) [
          | true ↦ (calling init_from_checkpoint (λ t. init (faults t) p q) >> pure todo) s
          | false ↦ find_todo p before (st ∷ todo) s
        ]
      ]

  -- tree.Meta().Write(stage.ID()), which makes a file in the directory that Meta knows.
  abbrev pub open_metadata : Object → Action (Unit {0})
  open_metadata o s = (
    record s { tick = suc s.tick },
    if (faults s.tick).metadata || not (is_some (tree_at o.meta_path s.store))
        then err opening_metadata_writer
        else ok tt,
  )

  abbrev pub left_by : Stage → Place → StageRun → Action BuildResult
  left_by st place not_run s = (s, err (running_stage (stage_id lib st)))
  left_by st place (ran code output error t) s = (
    record s { store = write_tree place t s.store },
    ok (record { stage = st; return_code = code; output = output; error = error }),
  )

  -- RunStage(ctx, stage, tree.Tree(), ...)
  abbrev pub run_in : Runner → BuildTree → Stage → Object → Action BuildResult
  run_in runner tree st o s =
      left_by st o.path (run_stage s.tick s.store runner tree st o.path)
        (record s { tick = suc s.tick })

  -- One round of the loop, up to mon.Result.
  unfoldable pub run_one : ℕ → Runner → BuildTree → Stage → Action BuildResult
  unfolding write_tree tree_at
  run_one p runner tree st = do
    check is_cancelled
    emit (staged st)
    o ← deref p
    open_metadata o
    r ← run_in runner tree st o
    emit (resulted r)
    pure r

  -- if stage.Checkpoint { st.Commit(ctx, tree, stage.ID()) }
  unfoldable pub commit_checkpoint : ℕ → Stage → Action (Unit {0})
  unfolding commit
  commit_checkpoint p st =
      if st.checkpoint
      then calling committing_checkpoint
          (λ t. commit sort_by_use (faults t) (now t) p (stage_id lib st))
      else pure tt

  abbrev pub close_failed : {A : Type 0} → ℕ → A → Action A
  close_failed p a s = (close_tree p s, ok a)

  -- The loop over todo: whether all stages succeeded, and the results.
  unfoldable pub run_stages :
      ℕ → Runner → BuildTree → List Stage → List BuildResult → Action (Bool × List BuildResult)
  unfolding run_one commit_checkpoint close_tree
  run_stages p runner tree [] results = pure (true, results)
  run_stages p runner tree (st ∷ todo) results = run_one p runner tree st >>= λ r.
      elim (succeeded r) [
        | true ↦ commit_checkpoint p st >> run_stages p runner tree todo (results ++ r ∷ [])
        | false ↦ close_failed p (false, results ++ r ∷ [])
      ]

  abbrev pub finish : ℕ → String → Bool × List BuildResult → Action PipelineResult
  finish p name (false, results) =
      pure (record { success = false; name = name; stages = some results })
  finish p name (true, results) = do
    calling finalizing_tree (λ t. finalize (clamp_fails t) p)
    pure (record { success = true; name = name; stages = some results })

  abbrev pub set_epoch : ℕ → Option ℤ → Action (Unit {0})
  set_epoch p epoch s = elim (get_elem? s.store.heap p) [
    | none ↦ (s, panic)
    | some o ↦ (
      record s {
        store = record s.store { heap = set s.store.heap p (record o { source_epoch = epoch }) };
      },
      ok tt,
    )
  ]

  -- From the walk on, when the object is there.
  unfoldable pub fill : ℕ → BuildTree → Pipeline → Action PipelineResult
  unfolding find_todo run_stages finalize
  fill p tree pl = do
    todo ← find_todo p (reverse pl.stages) []
    r ← run_stages p pl.runner tree todo []
    finish p pl.name r

  -- The pipeline is built.
  unfoldable pub build_new : Pipeline → Action PipelineResult
  unfolding choose_build_tree fill new close_tree
  build_new pl = do
    tree ← choose_build_tree pl.build
    p ← calling creating_object (λ t. new (faults t) (uuid t) fresh (pipeline_id lib pl))
    set_epoch p pl.source_epoch
    closing p (fill p tree pl)

  abbrev pub skipped_result : Pipeline → PipelineResult
  skipped_result pl = record { success = true; name = pl.name; stages = none }

  abbrev pub is_empty : List Stage → Bool
  is_empty [] = true
  is_empty (st ∷ sts) = false

  -- BuildPipeline
  unfoldable pub build_pipeline : Pipeline → Action PipelineResult
  unfolding build_new contains
  build_pipeline pl s =
      if is_empty pl.stages || contains (pipeline_id lib pl) s.store
      then (s, ok (skipped_result pl))
      else build_new pl s
