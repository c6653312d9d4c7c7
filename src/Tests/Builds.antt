-- ===== src/Tests/Builds.antt =====
-- Builds of one pipeline of two stages, at concrete inputs.
use image_assembler.Base.{
  ℕ, String, Bool, true, false, none, some, List, [], ◌∷◌, ◌≡◌, refl, ◌⊎◌, lookup, str_eq, insert,
  length, if◌then◌else◌,
}
use mathlib.Core.List.{Perm}
use image_assembler.Base.Int.{pos}
use image_assembler.Base.Result.{Result, ok, err}
use image_assembler.Value.{end}
use image_assembler.Manifest.OrderedMap
use image_assembler.Json
use image_assembler.Tests.Toy
use image_assembler.Manifest.Model
use image_assembler.Manifest.Model.{Stage, Runner, Pipeline, Manifest, pipeline}
use image_assembler.Manifest.Ident.{stage_id, pipeline_id}
use image_assembler.Store.Size.{Trees, leaf, dir, and, done}
use image_assembler.Store.Model.{Store, Entry}
use image_assembler.Store.Cache
use image_assembler.Build.Action.{
  World, State, BuildResult, PipelineResult, ran, opening_metadata_writer, Failure, host_root,
}
use image_assembler.Build.Action.Leads.{Leads}
use image_assembler.Build.Pipeline.{build_pipeline, run_stages, commit_checkpoint, skipped_result}
use image_assembler.Build.Pipeline.Whole.{build_pipeline-runs, RanEnd, BrokeEnd}
use image_assembler.Build.Pipeline.Checkpoint.{run_stages-after_checkpoint}
use image_assembler.Build.All
use image_assembler.Build.All.{build}
use image_assembler.Build.All.Outcomes.{build-outcomes, BuiltAs, BuiltSome}
use image_assembler.Build.Output.{format_failure, failure_of, last_stage}
use image_assembler.Build.Output.Failed.{format_failure-any}
use image_assembler.Build.Export.{export, entry_named}
use image_assembler.Build.Export.Cached.{export-cached}
use image_assembler.Tests.Toy.{toy_library}
use image_assembler.Tests.Stores.{no_faults, in_listed_order, being_built, built}

-- Every stage writes a file of its name, and the stage "bad" fails.
abbrev toy_world : World
toy_world = record {
  lib = toy_library;
  sort_by_use = in_listed_order;
  faults = λ t. no_faults;
  now = λ t. pos t;
  is_cancelled = λ t. false;
  uuid = λ t. "u";
  fresh = built;
  host_fails = λ t. false;
  clamp_fails = λ t. false;
  run_stage = λ t s runner tree st place.
      ran (if str_eq st.type_name "bad" then pos 1 else pos 0) "out" none
        (dir 1 (and st.type_name (leaf 1 "x") done));
}

abbrev pub named : String → Bool → Stage
named name checkpoint = record {
  type_name = name;
  exec_path = name;
  caps = [];
  build = none;
  base = none;
  options = end;
  source_epoch = none;
  checkpoint = checkpoint;
  inputs = OrderedMap.new;
  devices = OrderedMap.new;
  mounts = OrderedMap.new;
}

abbrev pub image : List Stage → Pipeline
image stages = record {
  name = "image";
  build = none;
  runner = record { name = "r"; path = "runners/r" };
  stages = stages;
  source_epoch = none;
}

abbrev pub only : List Stage → Manifest
only stages = record {
  metadata = end;
  arrays = (image stages ∷ []) ∷ [];
  current = 0;
  capacity = 1;
  by_name = ("image", (0, 0)) ∷ [];
  sources = [];
}

abbrev empty_store : Store
empty_store = record {
  objs = [];
  heap = [];
  read_only = false;
  lock_held = true;
  host_tree = false;
  maximum_size = pos 0;
  objects = [];
  staged = [];
  size_file = pos 0;
  info_file = none;
}

abbrev start : State
start = record { store = empty_store; tick = 0; events = [] }

abbrev pub good_then_bad : List Stage
good_then_bad = named "good" false ∷ named "bad" false ∷ named "never" false ∷ []

abbrev count_of : {A : Type 0} → State × Result {0, 0} Failure A → ℕ
count_of r = length r.0.events

-- Begin, two stages with their results, and Finish.
events_of_a_failure : count_of (build toy_world (only good_then_bad) ("image" ∷ []) start) ≡ 6
unfolding build lookup str_eq Model.deref stage_id Toy.toy_hash Json.marshal Json.marshal_string
    Json.map_text OrderedMap.new insert
events_of_a_failure = refl

build_pipeline-runs_example :
    Leads
      (λ res t.
        ((res ≡ skipped_result toy_world (image good_then_bad)) × (t ≡ start))
        ⊎ RanEnd toy_world (image good_then_bad) start res t)
      (BrokeEnd toy_world (image good_then_bad) start)
      (build_pipeline toy_world (image good_then_bad) start)
build_pipeline-runs_example = build_pipeline-runs toy_world (image good_then_bad) start

build-outcomes_example :
    Leads
      (BuiltAs toy_world (only good_then_bad) ("image" ∷ []) [] start)
      (BuiltSome toy_world (only good_then_bad) ("image" ∷ []) start)
      (build toy_world (only good_then_bad) ("image" ∷ []) start)
build-outcomes_example = build-outcomes toy_world (only good_then_bad) ("image" ∷ []) start

-- The object of a pipeline, as New made it.
abbrev in_progress : State
in_progress = record {
  store = record empty_store {
    heap = being_built ∷ [];
    objs = ("pipeline", 0) ∷ [];
    staged = ("u", built) ∷ [];
  };
  tick = 0;
  events = [];
}

abbrev marked : Stage
marked = named "good" true

after_commit : State
after_commit = (commit_checkpoint toy_world 0 marked in_progress).0

run_stages-after_checkpoint_example :
    (run_stages toy_world 0 (image []).runner host_root (named "next" false ∷ []) [] after_commit).1
    ≡ err opening_metadata_writer
unfolding lookup commit_checkpoint after_commit Cache.commit_object Cache.commit_tree Cache.tree_at
    str_eq
run_stages-after_checkpoint_example =
    run_stages-after_checkpoint toy_world 0 (image []).runner host_root marked (named "next" false)
      [] [] in_progress after_commit being_built "u" refl refl refl refl refl refl refl

abbrev good_stage : BuildResult
good_stage = record { stage = marked; return_code = pos 0; output = "fine"; error = none }

abbrev good_result : PipelineResult
good_result = record { success = true; name = "first"; stages = some (good_stage ∷ []) }

abbrev bad_result : PipelineResult
bad_result = record {
  success = false;
  name = "second";
  stages = some ((record good_stage { return_code = pos 1; output = "broken" }) ∷ []);
}

-- The report of a failure names a stage of the pipeline that succeeded.
format_failure-any_example :
    Perm {A = String × PipelineResult}
      (("a", good_result) ∷ ("b", bad_result) ∷ [])
      (("b", bad_result) ∷ ("a", good_result) ∷ [])
    × (format_failure toy_world (("b", bad_result) ∷ ("a", good_result) ∷ [])
        ≡ failure_of toy_world (some good_stage))
unfolding last_stage
format_failure-any_example =
    format_failure-any toy_world [] (("b", bad_result) ∷ []) "a" good_result

-- What is below the data directory of an object: its metadata and its tree.
abbrev below_data : Trees
below_data = and "meta" (dir 1 done) (and "tree" built done)

abbrev cached_entry : Entry
cached_entry = record { lock = some (pos 1); data_tree = some (dir 1 below_data); recorded = none }

abbrev cached_image : Store
cached_image = record empty_store {
  objects = (pipeline_id toy_library (image (marked ∷ [])), cached_entry) ∷ [];
}

export-cached_example :
    (export toy_world false false 0 (only (marked ∷ [])) "image" cached_image).1 ≡ ok built
unfolding lookup All.find_pipeline str_eq Model.deref stage_id Toy.toy_hash Json.marshal
    Json.marshal_string Json.map_text OrderedMap.new entry_named
export-cached_example =
    export-cached toy_world 0 (only (marked ∷ [])) "image" (image (marked ∷ [])) cached_entry 1 1
      below_data (and "f" (leaf 1 "x") done) cached_image refl refl refl refl refl refl
