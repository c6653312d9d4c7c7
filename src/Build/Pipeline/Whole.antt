-- ===== src/Build/Pipeline/Whole.antt =====
-- build/build.go: a call of BuildPipeline runs an end of the pipeline's stages, in order.
use mathlib.Core.List.{reverse, reverse-reverse, append-nil}
use image_assembler.Base.{
  ℕ, String, Bool, true, false, ◌||◌, Option, none, some, List, [], ◌++◌, ◌≡◌, refl, ap, sym, ◌∙◌,
  if◌then◌else◌, inl, inr, ◌⊎◌, get_elem?, set,
}
use image_assembler.Base.Int.{ℤ}
use image_assembler.Base.Result.{Result, ok, panic}
use image_assembler.Manifest.Model.{Stage, Pipeline}
use image_assembler.Manifest.Ident.{pipeline_id}
use image_assembler.Store.Model.{Object}
use image_assembler.Store.Cache.{contains, get, get_host_tree, new}
use image_assembler.Build.Action.{
  continue, calling, BuildTree, PipelineResult, BuildResult, Event, Failure, World, State, Action,
  pure, finalizing_tree, object_root, getting_host_tree, getting_build_tree, creating_object,
}
use image_assembler.Build.Action.Leads.{
  Leads, Leads-continue, Leads-weaken, Leads-calling, calling-quiet, Leads-closing,
  close_tree-events,
}
use image_assembler.Build.Pipeline.{
  find_todo, get_object, choose_build_tree, object_tree, set_epoch, run_stages, skipped_result,
  is_empty, finish, fill, build_new, build_pipeline,
}
use image_assembler.Store.Objects.{finalize}
use image_assembler.Build.Pipeline.Todo.{IsEnd, Found, find_todo-Leads}
use image_assembler.Build.Pipeline.Order.{
  Ran, all_done, went_on, Broke, quiet, after, shown, run_stages-Leads, EndsWith, BreaksOff,
}

module _ (world : World) where
  open world use {lib}

  -- The result of a pipeline of which the stages `todo` were to run.
  abbrev pub RanEnd : Pipeline → State → PipelineResult → State → Type 0
  RanEnd pl s res t =
      (todo : List Stage) × (rs : List BuildResult) × IsEnd todo pl.stages
      × (res.name ≡ pl.name)
      × (res.stages ≡ some rs)
      × Ran todo rs res.success
      × (t.events ≡ s.events ++ shown world rs)

  -- The stages that ran before an error.
  abbrev pub BrokeEnd : Pipeline → State → State → Type 0
  BrokeEnd pl s t =
      (todo : List Stage) × (rs : List BuildResult) × (tail : List Event) × IsEnd todo pl.stages
      × Broke world todo rs tail
      × (t.events ≡ s.events ++ (shown world rs ++ tail))

  -- Nothing ran.
  nothing_ran : (pl : Pipeline) (s t : State) → t.events ≡ s.events → BrokeEnd pl s t
  nothing_ran pl s t e =
      ([], [], [], (pl.stages, sym (append-nil pl.stages)), quiet [], e ∙ sym (append-nil s.events))

  -- An error after the last stage leaves what ran.
  Ran-Broke :
      {todo : List Stage} {rs : List BuildResult} → Ran todo rs true → Broke world todo rs []
  Ran-Broke all_done = quiet []
  Ran-Broke (went_on st todo r rs b same good h) = after st todo r rs [] same good (Ran-Broke h)

  finish-Leads :
      (p : ℕ) (pl : Pipeline) (todo : List Stage) (s t : State) (out : Bool × List BuildResult)
      → IsEnd todo pl.stages
      → EndsWith world todo [] s out t
      → Leads (RanEnd pl s) (BrokeEnd pl s) (finish world p pl.name out t)
  finish-Leads p pl todo s t (true, results) end h =
      Leads-continue (λ _ u. u.events ≡ t.events) (RanEnd pl s) (BrokeEnd pl s)
        (calling finalizing_tree (λ k. finalize (world.clamp_fails k) p) t) _
        (Leads-calling (λ _ u. u.events ≡ t.events) (BrokeEnd pl s) finalizing_tree
          (λ k. finalize (world.clamp_fails k) p) t (λ a u e. refl)
          (λ u. (
            todo,
            h.0,
            [],
            end,
            Ran-Broke h.2,
            h.3 ∙ ap (λ x. s.events ++ x) (sym (append-nil (shown world h.0))),
          )))
        (λ _ u e. (todo, h.0, end, refl, ap some h.1, h.2, e ∙ h.3))
  finish-Leads p pl todo s t (false, results) end h = (todo, h.0, end, refl, ap some h.1, h.2, h.3)

  fill-Leads :
      (p : ℕ) (tree : BuildTree) (pl : Pipeline) (s t : State)
      → t.events ≡ s.events
      → Leads (RanEnd pl s) (BrokeEnd pl s) (fill world p tree pl t)
  unfolding fill
  fill-Leads p tree pl s t e =
      Leads-continue (Found world (reverse (reverse pl.stages) ++ []) t) (RanEnd pl s)
        (BrokeEnd pl s) (find_todo world p (reverse pl.stages) [] t) _
        (Leads-weaken (Found world (reverse (reverse pl.stages) ++ []) t)
          (Found world (reverse (reverse pl.stages) ++ []) t) (λ u. u.events ≡ t.events)
          (BrokeEnd pl s) (find_todo world p (reverse pl.stages) [] t)
          (find_todo-Leads world p (reverse pl.stages) [] t) (λ l u h. h)
          (λ u h. nothing_ran pl s u (h ∙ e)))
        (λ todo u h. running todo u (h.0.0, stages_back ∙ h.0.1) (h.1 ∙ e))
    where
      stages_back : pl.stages ≡ reverse (reverse pl.stages) ++ []
      stages_back = sym (append-nil (reverse (reverse pl.stages)) ∙ reverse-reverse pl.stages)

      running :
          (todo : List Stage) (u : State)
          → IsEnd todo pl.stages
          → u.events ≡ s.events
          → Leads (RanEnd pl s) (BrokeEnd pl s) (
              continue
                (run_stages world p pl.runner tree todo [] u)
                (λ r. finish world p pl.name r))
      running todo u end f =
          Leads-continue (EndsWith world todo [] s) (RanEnd pl s) (BrokeEnd pl s)
            (run_stages world p pl.runner tree todo [] u) _
            (Leads-weaken (EndsWith world todo [] u) (EndsWith world todo [] s)
              (BreaksOff world todo u) (BrokeEnd pl s) (run_stages world p pl.runner tree todo [] u)
              (run_stages-Leads world p pl.runner tree todo [] u)
              (λ out v h. (h.0, h.1, h.2, h.3 ∙ ap (λ x. x ++ shown world h.0) f))
              (λ v h. (todo, h.0, h.1, end, h.2, h.3 ∙ ap (λ x. x ++ (shown world h.0 ++ h.1)) f)))
            (λ out v h. finish-Leads p pl todo s v out end h)

  set_epoch-Leads :
      (p : ℕ) (epoch : Option ℤ) (s t : State)
      → t.events ≡ s.events
      → Leads (λ _ u. u.events ≡ s.events) (λ u. u.events ≡ s.events) (set_epoch world p epoch t)
  set_epoch-Leads p epoch s t e = by_heap (get_elem? t.store.heap p)
    where
      by_heap :
          (o : Option Object)
          → Leads
              (λ _ u. u.events ≡ s.events)
              (λ u. u.events ≡ s.events)
              (elim o as (λ o'. State × Result {0, 0} Failure (Unit {0})) [
                | none ↦ (t, panic)
                | some o' ↦ (
                  record t {
                    store = record t.store {
                      heap = set t.store.heap p (record o' { source_epoch = epoch });
                    };
                  },
                  ok tt,
                )
              ])
      by_heap none = e
      by_heap (some o) = e

  choose_build_tree-Leads :
      (build : Option String) (s : State)
      → Leads
          (λ _ t. t.events ≡ s.events)
          (λ t. t.events ≡ s.events)
          (choose_build_tree world build s)
  unfolding choose_build_tree
  choose_build_tree-Leads none s =
      Leads-continue (λ _ t. t.events ≡ s.events) (λ _ t. t.events ≡ s.events)
        (λ t. t.events ≡ s.events)
        (calling getting_host_tree (λ k. get_host_tree (world.host_fails k)) s) _
        (calling-quiet getting_host_tree (λ k. get_host_tree (world.host_fails k)) s s refl)
        (λ _ t e. e)
  choose_build_tree-Leads (some id) s =
      Leads-continue (λ _ t. t.events ≡ s.events) (λ _ t. t.events ≡ s.events)
        (λ t. t.events ≡ s.events) (get_object world getting_build_tree id s) _
        (calling-quiet (getting_build_tree id) (λ k. get (world.faults k) (world.now k) id) s s
          refl)
        by_found
    where
      by_found :
          (found : Option ℕ) (t : State)
          → t.events ≡ s.events
          → Leads
              (λ _ u. u.events ≡ s.events)
              (λ u. u.events ≡ s.events)
              (object_tree world id found t)
      by_found none t e = e
      by_found (some q) t e = by_heap (get_elem? t.store.heap q)
        where
          by_heap :
              (o : Option Object)
              → Leads
                  (λ _ u. u.events ≡ s.events)
                  (λ u. u.events ≡ s.events)
                  (continue
                    (elim o as (λ o'. State × Result {0, 0} Failure Object) [
                      | none ↦ (t, panic)
                      | some o' ↦ (t, ok o')
                    ])
                    (λ o'. pure (object_root o'.path)))
          by_heap none = e
          by_heap (some o) = e

  build_new-Leads :
      (pl : Pipeline) (s : State) → Leads (RanEnd pl s) (BrokeEnd pl s) (build_new world pl s)
  unfolding build_new
  build_new-Leads pl s =
      quietly (choose_build_tree world pl.build s) _ (choose_build_tree-Leads pl.build s)
        (λ tree t e.
          quietly
            (calling creating_object
              (λ k. new (world.faults k) (world.uuid k) world.fresh (pipeline_id lib pl)) t)
            _
            (calling-quiet creating_object
              (λ k. new (world.faults k) (world.uuid k) world.fresh (pipeline_id lib pl)) s t e)
            (λ p u f.
              quietly (set_epoch world p pl.source_epoch u) _
                (set_epoch-Leads p pl.source_epoch s u f)
                (λ _ v g.
                  Leads-closing (RanEnd pl s) (BrokeEnd pl s) p (fill world p tree pl v)
                    (fill-Leads p tree pl s v g)
                    (λ w h. (h.0, h.1, h.2, h.3, h.4, close_tree-events p w ∙ h.5)))))
    where
      quietly :
          {A : Type 0} (r : State × Result {0, 0} Failure A) (f : A → Action PipelineResult)
          → Leads (λ _ t. t.events ≡ s.events) (λ t. t.events ≡ s.events) r
          → ((a : A) (t : State)
              → t.events ≡ s.events
              → Leads (RanEnd pl s) (BrokeEnd pl s) (f a t))
          → Leads (RanEnd pl s) (BrokeEnd pl s) (continue r f)
      quietly r f h k =
          Leads-continue (λ _ t. t.events ≡ s.events) (RanEnd pl s) (BrokeEnd pl s) r f
            (Leads-weaken (λ _ t. t.events ≡ s.events) (λ _ t. t.events ≡ s.events)
              (λ t. t.events ≡ s.events) (BrokeEnd pl s) r h (λ a t e. e)
              (λ t e. nothing_ran pl s t e))
            k

  -- A call of BuildPipeline either skips the pipeline, and then changes nothing, or runs an end of
  -- its stages in their order: it stops after the first that fails, the results are those of the
  -- stages that ran, the pipeline succeeds exactly when all of them did, and the monitor hears of
  -- each stage and of its result in that order. A call that fails has run some of those stages in
  -- order, each with success, and has announced at most one more.
  pub build_pipeline-runs :
      (pl : Pipeline) (s : State)
      → Leads
          (λ res t. ((res ≡ skipped_result world pl) × (t ≡ s)) ⊎ RanEnd pl s res t)
          (BrokeEnd pl s)
          (build_pipeline world pl s)
  unfolding build_pipeline
  build_pipeline-runs pl s =
      by_test (is_empty world pl.stages || contains (pipeline_id lib pl) s.store)
    where
      Goal : State × Result {0, 0} Failure PipelineResult → Type 0
      Goal =
          Leads (λ res t. ((res ≡ skipped_result world pl) × (t ≡ s)) ⊎ RanEnd pl s res t)
            (BrokeEnd pl s)

      by_test :
          (b : Bool) → Goal (if b then (s, ok (skipped_result world pl)) else build_new world pl s)
      by_test true = inl (refl, refl)
      by_test false =
          Leads-weaken (RanEnd pl s)
            (λ res t. ((res ≡ skipped_result world pl) × (t ≡ s)) ⊎ RanEnd pl s res t)
            (BrokeEnd pl s) (BrokeEnd pl s) (build_new world pl s) (build_new-Leads pl s)
            (λ res t h. inr h) (λ t h. h)
