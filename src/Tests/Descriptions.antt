-- ===== src/Tests/Descriptions.antt =====
-- Marks and descriptions, at concrete inputs.
use image_assembler.Base.{
  String, Bool, false, some, none, List, [], ◌∷◌, ◌≡◌, ◌≢◌, refl, str_eq, str_eq_iff, arith,
}
use image_assembler.Value.{at}
use image_assembler.Json
use image_assembler.Manifest.Model.{Manifest, Pipeline, pipelines}
use image_assembler.Manifest.Ident
use image_assembler.Manifest.Ident.{pipeline_id}
use image_assembler.Manifest.OrderedMap
use image_assembler.Manifest.Describe.{describe_pipeline, described_runners}
use image_assembler.Manifest.Describe.Runners.{describe_pipeline-runner, own_runner}
use image_assembler.Tests.Toy
use image_assembler.Tests.Toy.{toy_library}
use image_assembler.Tests.Builds.{image, only, named, good_then_bad}

-- A pattern without wildcards.
abbrev literal : String → String → Bool
literal pattern name = str_eq pattern name

abbrev by_type : List String
by_type = "bad" ∷ []

-- The build root of another pipeline, which names a runner.
abbrev root : Pipeline
root = record (image (named "good" false ∷ [])) { name = "build" }

abbrev over_root : Pipeline
over_root = record (image good_then_bad) { build = some (pipeline_id toy_library root) }

abbrev both : Manifest
both = record (only []) { arrays = (root ∷ over_root ∷ []) ∷ [] }

other_id : pipeline_id toy_library over_root ≢ pipeline_id toy_library root
unfolding pipeline_id Ident.stage_id Toy.toy_hash Json.marshal Json.marshal_string Json.map_text
    OrderedMap.new str_eq
other_id =
    ground (arith, str_eq_iff (pipeline_id toy_library over_root) (pipeline_id toy_library root))

describe_pipeline-runner_example :
    at "runner" (
      describe_pipeline toy_library both
        (described_runners toy_library (pipelines both) [])
        false
        root)
    ≡ own_runner none root.runner
describe_pipeline-runner_example =
    describe_pipeline-runner toy_library both false [] (over_root ∷ []) root refl tt (other_id, tt)
