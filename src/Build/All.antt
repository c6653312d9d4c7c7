-- ===== src/Build/All.antt =====
-- build/build.go: Build, the loop over the pipelines that were asked for.
use image_assembler.Base.{
  String, Bool, true, false, Option, none, some, List, [], ◌∷◌, Map, insert, if◌then◌else◌,
}
use image_assembler.Base.Result.{Result, ok, err, panic}
use image_assembler.Manifest.Model.{Pipeline, Manifest, pipeline}
use image_assembler.Manifest.Ident.{pipeline_id, pipeline_by_id}
use image_assembler.Build.Action.{
  Event, begun, finished, Failure, pipeline_not_found, PipelineResult, World, State, Action, pure,
  raise, ◌>>=◌, ◌>>◌, emit, check,
}
use image_assembler.Build.Pipeline.{build_pipeline}
pub mod Outcomes

-- The results by the pipelines' IDs. The source keeps `success` under a key of its own in the same
-- map, which is no ID.
pub record Results : Type 0 where
  pub success : Bool
  pub results : Map PipelineResult

abbrev pub or_pipeline : Option Pipeline → Option Pipeline → Option Pipeline
or_pipeline (some p) q = some p
or_pipeline none q = q

module _ (world : World) where
  open world use {lib, is_cancelled}

  -- p := m.Pipeline(name); if p == nil { p = m.PipelineByID(name) }
  unfoldable pub find_pipeline : Manifest → String → Option Pipeline
  unfolding pipeline pipeline_by_id
  find_pipeline m name = or_pipeline (pipeline m name) (pipeline_by_id lib m name)

  abbrev pub found_or_fail : String → Option Pipeline → Action Pipeline
  found_or_fail name none = raise (pipeline_not_found name)
  found_or_fail name (some p) = pure p

  -- mon.Begin, BuildPipeline, mon.Finish
  unfoldable pub build_one : Pipeline → Action PipelineResult
  unfolding build_pipeline
  build_one p = do emit (begun p); res ← build_pipeline world p; emit (finished res); pure res

  -- The loop, with the results so far.
  unfoldable pub build_names : Manifest → List String → Map PipelineResult → Action Results
  unfolding find_pipeline build_one
  build_names m [] results = pure (record { success = true; results = results })
  build_names m (name ∷ names) results =
      check is_cancelled
      >> (found_or_fail name (find_pipeline m name) >>= λ p. build_one p >>= λ res.
          elim res.success [
            | true ↦ build_names m names (insert (pipeline_id lib p) res results)
            | false ↦
                pure (record { success = false; results = insert (pipeline_id lib p) res results })
          ])

  -- Build
  unfoldable pub build : Manifest → List String → Action Results
  unfolding build_names
  build m names = build_names m names []
