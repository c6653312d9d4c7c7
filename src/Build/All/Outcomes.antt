-- ===== src/Build/All/Outcomes.antt =====
-- build/build.go: Build stops at the first pipeline that fails, and reports each one that it built.
use mathlib.Core.List.{append-nil, append_assoc}
use image_assembler.Base.{
  suc, String, Bool, true, false, Option, none, some, List, [], ◌∷◌, ◌++◌, ◌≡◌, refl, ap, sym, ◌∙◌,
  Map, insert, inl, inr, ◌⊎◌,
}
use image_assembler.Manifest.Model.{Stage, Pipeline, Manifest, or_nil}
use image_assembler.Manifest.Ident.{pipeline_id}
use image_assembler.Build.Action.{
  continue, Event, begun, finished, PipelineResult, BuildResult, World, State, Action, pure, ◌>>=◌,
  ◌>>◌, emit, check,
}
use image_assembler.Build.Action.Leads.{Leads, Leads-continue, Leads-weaken, Leads-check}
use image_assembler.Build.Pipeline.{build_pipeline, skipped_result}
use image_assembler.Build.Pipeline.Order.{Ran, shown}
use image_assembler.Build.Pipeline.Todo.{IsEnd}
use image_assembler.Build.Pipeline.Whole.{build_pipeline-runs, RanEnd, BrokeEnd}
use image_assembler.Build.All.{Results, find_pipeline, found_or_fail, build_one, build_names, build}

module _ (world : World) where
  open world use {lib}

  -- The result of a pipeline: it was skipped, or an end of its stages ran.
  abbrev pub Outcome : Pipeline → PipelineResult → Type 0
  Outcome pl res =
      (res ≡ skipped_result world pl)
      ⊎ ((todo : List Stage) × (rs : List BuildResult) × IsEnd todo pl.stages
          × (res.name ≡ pl.name)
          × (res.stages ≡ some rs)
          × Ran todo rs res.success)

  -- The names that were built in their order, with the pipeline and the result of each, and whether
  -- all succeeded: the loop went on after a success, and stopped after a failure.
  pub data Built (m : Manifest)
      : List String → List (Pipeline × PipelineResult) → Bool → Type 0 where
    all_built : Built m [] [] true
    one_built :
        (name : String) (names : List String) (pl : Pipeline) (res : PipelineResult)
        (rest : List (Pipeline × PipelineResult)) (b : Bool)
        → find_pipeline world m name ≡ some pl
        → Outcome pl res
        → res.success ≡ true
        → Built m names rest b
        → Built m (name ∷ names) ((pl, res) ∷ rest) b
    one_failed :
        (name : String) (names : List String) (pl : Pipeline) (res : PipelineResult)
        → find_pipeline world m name ≡ some pl
        → Outcome pl res
        → res.success ≡ false
        → Built m (name ∷ names) ((pl, res) ∷ []) false

  -- What the monitor hears of the pipelines.
  abbrev pub heard : List (Pipeline × PipelineResult) → List Event
  heard [] = []
  heard ((pl, res) ∷ rest) =
      begun pl ∷ (shown world (or_nil res.stages) ++ (finished res ∷ heard rest))

  -- The results, filed under the pipelines' IDs.
  abbrev pub filed : List (Pipeline × PipelineResult) → Map PipelineResult → Map PipelineResult
  filed [] results = results
  filed ((pl, res) ∷ rest) results = filed rest (insert (pipeline_id lib pl) res results)

  -- Some of the names were built with success before an error.
  abbrev pub BuiltSome : Manifest → List String → State → State → Type 0
  BuiltSome m names s t =
      (done left : List String) × (built : List (Pipeline × PipelineResult)) × (tail : List Event)
      × (names ≡ done ++ left)
      × Built m done built true
      × (t.events ≡ s.events ++ (heard built ++ tail))

  abbrev pub BuiltAs :
      Manifest → List String → Map PipelineResult → State → Results → State → Type 0
  BuiltAs m names results s out t =
      (built : List (Pipeline × PipelineResult)) × Built m names built out.success
      × (out.results ≡ filed built results)
      × (t.events ≡ s.events ++ heard built)

  -- The pipeline was built, and its events came between the calls of Begin and Finish.
  abbrev OneDone : Pipeline → State → PipelineResult → State → Type 0
  OneDone pl s res t = Outcome pl res × (t.events ≡ s.events ++ heard ((pl, res) ∷ []))

  abbrev OneBroke : State → State → Type 0
  OneBroke s t = (tail : List Event) × (t.events ≡ s.events ++ tail)

  build_one-Leads :
      (pl : Pipeline) (s : State) → Leads (OneDone pl s) (OneBroke s) (build_one world pl s)
  unfolding build_one
  build_one-Leads pl s =
      Leads-continue RunsHere (OneDone pl s) (OneBroke s) (build_pipeline world pl begun_state)
        (λ res. emit (finished res) >> pure res)
        (Leads-weaken
          (λ res t.
            ((res ≡ skipped_result world pl) × (t ≡ begun_state))
            ⊎ RanEnd world pl begun_state res t)
          RunsHere (BrokeEnd world pl begun_state) (OneBroke s)
          (build_pipeline world pl begun_state) (build_pipeline-runs world pl begun_state) here
          (λ t h. (
            begun pl ∷ (shown world h.1 ++ h.2),
            h.5 ∙ append_assoc s.events (begun pl ∷ []) (shown world h.1 ++ h.2),
          )))
        (λ res t h. (h.0, done res t h.1))
    where
      begun_state : State
      begun_state = record s { events = s.events ++ begun pl ∷ [] }

      RunsHere : PipelineResult → State → Type 0
      RunsHere res t =
          Outcome pl res
          × (t.events ≡ (s.events ++ begun pl ∷ []) ++ shown world (or_nil res.stages))

      here :
          (res : PipelineResult) (t : State)
          → ((res ≡ skipped_result world pl) × (t ≡ begun_state))
            ⊎ RanEnd world pl begun_state res t
          → RunsHere res t
      here res t (inl h) = (
        inl h.0,
        ap (λ x. x.events) h.1
            ∙ sym (append-nil (s.events ++ begun pl ∷ []))
            ∙ ap (λ x. (s.events ++ begun pl ∷ []) ++ shown world (or_nil x.stages)) (sym h.0),
      )
      here res t (inr h) = (
        inr (h.0, h.1, h.2, h.3, h.4, h.5),
        h.6 ∙ ap (λ x. (s.events ++ begun pl ∷ []) ++ shown world (or_nil x)) (sym h.4),
      )

      done :
          (res : PipelineResult) (t : State)
          → t.events ≡ (s.events ++ begun pl ∷ []) ++ shown world (or_nil res.stages)
          → t.events ++ finished res ∷ []
            ≡ s.events ++ (begun pl ∷ (shown world (or_nil res.stages) ++ (finished res ∷ [])))
      done res t e =
          ap (λ x. x ++ finished res ∷ []) e
          ∙ append_assoc (s.events ++ begun pl ∷ []) (shown world (or_nil res.stages))
              (finished res ∷ [])
          ∙ append_assoc s.events (begun pl ∷ [])
              (shown world (or_nil res.stages) ++ finished res ∷ [])

  joined :
      (pl : Pipeline) (res : PipelineResult) (s u v : State) (es : List Event)
      → u.events ≡ s.events ++ heard ((pl, res) ∷ [])
      → v.events ≡ u.events ++ es
      → v.events ≡ s.events ++ (begun pl ∷ (shown world (or_nil res.stages) ++ (finished res ∷ es)))
  joined pl res s u v es e f =
      f
      ∙ ap (λ x. x ++ es) e
      ∙ append_assoc s.events (heard ((pl, res) ∷ [])) es
      ∙ ap (λ x. s.events ++ (begun pl ∷ x))
          (append_assoc (shown world (or_nil res.stages)) (finished res ∷ []) es)

  -- What the loop does with the other names.
  abbrev Rest : Manifest → List String → Type 0
  Rest m names =
      (results : Map PipelineResult) (t : State)
      → Leads (BuiltAs m names results t) (BuiltSome m names t)
          (build_names world m names results t)

  after_one :
      (m : Manifest) (name : String) (names : List String) (results : Map PipelineResult)
      (s : State) (pl : Pipeline) (res : PipelineResult) (u : State)
      → find_pipeline world m name ≡ some pl
      → OneDone pl s res u
      → (b : Bool) → res.success ≡ b
      → Rest m names
      → Leads (BuiltAs m (name ∷ names) results s) (BuiltSome m (name ∷ names) s) (
          (elim b as (λ b'. Action Results) [
            | true ↦ build_names world m names (insert (pipeline_id lib pl) res results)
            | false ↦
                pure (record { success = false; results = insert (pipeline_id lib pl) res results })
          ])
            u)
  after_one m name names results s pl res u found h true good ih =
      Leads-weaken (BuiltAs m names (insert (pipeline_id lib pl) res results) u)
        (BuiltAs m (name ∷ names) results s) (BuiltSome m names u) (BuiltSome m (name ∷ names) s)
        (build_names world m names (insert (pipeline_id lib pl) res results) u)
        (ih (insert (pipeline_id lib pl) res results) u)
        (λ out v k. (
          (pl, res) ∷ k.0,
          one_built name names pl res k.0 out.success found h.0 good k.1,
          k.2,
          joined pl res s u v (heard k.0) h.1 k.3,
        ))
        (λ v k. (
          name ∷ k.0,
          k.1,
          (pl, res) ∷ k.2,
          k.3,
          ap (λ x. name ∷ x) k.4,
          one_built name k.0 pl res k.2 true found h.0 good k.5,
          joined pl res s u v (heard k.2 ++ k.3) h.1 k.6
              ∙ sym (
                  ap (λ x. s.events ++ (begun pl ∷ x))
                    (append_assoc (shown world (or_nil res.stages)) (finished res ∷ heard k.2)
                      k.3)),
        ))
  after_one m name names results s pl res u found h false bad ih =
      ((pl, res) ∷ [], one_failed name names pl res found h.0 bad, refl, h.1)

  build_names-Leads :
      (m : Manifest) (names : List String) (results : Map PipelineResult) (s : State)
      → Leads
          (BuiltAs m names results s)
          (BuiltSome m names s)
          (build_names world m names results s)
  unfolding build_names
  build_names-Leads m [] results s = ([], all_built, refl, sym (append-nil s.events))
  build_names-Leads m (name ∷ names) results s =
      Leads-continue (λ _ t. t.events ≡ s.events) Done Broken (check world.is_cancelled s) _
        (Leads-check (λ _ t. t.events ≡ s.events) Broken world.is_cancelled s refl
          (none_built (record s { tick = suc s.tick }) [] (sym (append-nil s.events))))
        (λ _ t e.
          by_found t e (find_pipeline world m name) refl
            (λ results' t'. build_names-Leads m names results' t'))
    where
      Done : Results → State → Type 0
      Done = BuiltAs m (name ∷ names) results s

      Broken : State → Type 0
      Broken = BuiltSome m (name ∷ names) s

      none_built : (t : State) (tail : List Event) → t.events ≡ s.events ++ tail → Broken t
      none_built t tail e = ([], name ∷ names, [], tail, refl, all_built, e)

      by_found :
          (t : State)
          → t.events ≡ s.events
          → (found : Option Pipeline) → find_pipeline world m name ≡ found
          → Rest m names
          → Leads Done Broken (
              continue (found_or_fail world name found t) (λ p. build_one world p >>= λ res.
              elim res.success [
                | true ↦ build_names world m names (insert (pipeline_id lib p) res results)
                | false ↦
                    pure
                      (record { success = false; results = insert (pipeline_id lib p) res results })
              ]))
      by_found t e none h ih = none_built t [] (e ∙ sym (append-nil s.events))
      by_found t e (some pl) h ih =
          Leads-continue (OneDone pl s) Done Broken (build_one world pl t) _
            (Leads-weaken (OneDone pl t) (OneDone pl s) (OneBroke t) Broken (build_one world pl t)
              (build_one-Leads pl t)
              (λ res u k. (k.0, k.1 ∙ ap (λ x. x ++ heard ((pl, res) ∷ [])) e))
              (λ u k. none_built u k.0 (k.1 ∙ ap (λ x. x ++ k.0) e)))
            (λ res u k. after_one m name names results s pl res u h k res.success refl ih)

  -- Build takes the names in order, each as a pipeline's name or else as an ID, and stops after the
  -- first pipeline that does not succeed. When it returns results, they are those of the pipelines
  -- that it built, filed under their IDs, the success is that of all of them, each was skipped or
  -- ran an end of its stages, and the monitor heard of each one from Begin to Finish in that order.
  -- When it fails, a beginning of the names was built in this way, each with success.
  pub build-outcomes :
      (m : Manifest) (names : List String) (s : State)
      → Leads (BuiltAs m names [] s) (BuiltSome m names s) (build world m names s)
  unfolding build
  build-outcomes m names s = build_names-Leads m names [] s
