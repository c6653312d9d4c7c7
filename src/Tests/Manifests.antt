-- ===== src/Tests/Manifests.antt =====
-- The manifest package at work.
use image_assembler.Base.{
  String, false, Option, none, some, List, [], ◌∷◌, ◌≡◌, refl, arith, str_eq, contains, lookup,
  insert, get_elem?, All,
}
use image_assembler.Base.Result.{Result, ok, err, panic}
use image_assembler.Value.{Value, text, arr, obj, nil, cons, Fields, end, field, at}
use image_assembler.Json.{marshal, marshal_string, map_text}
use image_assembler.Manifest.Model.{
  Manifest, Pipeline, Runner, pipelines, pipeline, deref, register,
}
use image_assembler.Manifest.Ident
use image_assembler.Manifest.Parse.Defs
use image_assembler.Manifest.Parse.Devices
use image_assembler.Manifest.Parse.Loaders
use image_assembler.Manifest.Parse.Runners
use image_assembler.Manifest.Parse.Top
use image_assembler.Manifest.Ident.{new_stage}
use image_assembler.Manifest.Parse.Devices.{sort_devices, field_keys}
use image_assembler.Manifest.Parse.Devices.Complete.{sort_devices_complete}
use image_assembler.Manifest.Parse.Runners.{fix_manifest}
use image_assembler.Manifest.Parse.Runners.Fixed.{right_runner, fix_manifest-runner}
use image_assembler.Manifest.Parse.Runners.Stale.{stale_runner}
use image_assembler.Manifest.Parse.Top.{devices_of, load_devices}
use image_assembler.Manifest.Parse.Top.Chain.{IsChained, parse-AllChained}
use image_assembler.Tests.Toy.{toy_hash, toy_library, toy_grow, toy_env}

abbrev stage : String → Value
stage name = obj (field "type" (text name) end)

abbrev pipeline_desc : String → Fields → Value
pipeline_desc name rest =
    obj (field "name" (text name) (field "stages" (arr (cons (stage name) nil)) rest))

abbrev three : Fields
three = field "version" (text "2") (
    field "pipelines"
      (arr (
        cons (pipeline_desc "build" (field "runner" (text "org.osbuild.fedora40") end)) (
          cons (pipeline_desc "os" (field "build" (text "name:build") end))
            (cons (pipeline_desc "image" (field "build" (text "name:build") end)) nil))))
      end)

abbrev first : Pipeline
first = record {
  name = "build";
  build = none;
  runner = record { name = "r"; path = "runners/r" };
  stages = [];
  source_epoch = none;
}

abbrev second : Pipeline
second = record {
  name = "os";
  build = some "x";
  runner = record { name = ""; path = "runners/host" };
  stages = [];
  source_epoch = none;
}

-- One pipeline, in an array that is full.
single : Manifest
single = record {
  metadata = end;
  arrays = (first ∷ []) ∷ [];
  current = 0;
  capacity = 1;
  by_name = ("build", (0, 0)) ∷ [];
  sources = [];
}

unfoldable pub run_parse : Fields → Result Defs.ParseError Manifest
unfolding Top.parse Top.parse_sources Top.parse_pipelines Top.parse_pipeline Top.parse_stages
    Top.parse_stage Top.build_of Top.runner_of Top.epoch_of Top.devices_of Top.inputs_of
    Top.mounts_of Top.load_devices Top.load_inputs Top.load_mounts Top.write_pipeline
    Loaders.load_module Loaders.load_device Loaders.load_input Loaders.load_mount Loaders.input_refs
    Defs.resolve_ref Defs.is_name_ref Devices.sort_devices Runners.fixup_runners register deref
    pipeline str_eq lookup insert at Ident.add_stage Ident.pipeline_id Ident.stage_id toy_hash
    marshal map_text marshal_string
run_parse desc = Top.parse toy_env (λ n. false) desc

abbrev path_of : Option Pipeline → String
path_of none = ""
path_of (some p) = p.runner.path

abbrev paths : Result Defs.ParseError Manifest → List String
paths (ok m) =
    path_of (get_elem? (pipelines m) 0)
    ∷ path_of (get_elem? (pipelines m) 1)
    ∷ path_of (get_elem? (pipelines m) 2)
    ∷ path_of (pipeline m "build")
    ∷ path_of (pipeline m "os")
    ∷ path_of (pipeline m "image")
    ∷ []
paths _ = []

-- The pipelines "os" and "image" have the build root "build", so both get its runner in m.Pipelines; but
-- Pipeline("os") still shows the host's runner.
runners_run :
    paths (run_parse three)
    ≡ "runners/host" ∷ "runners/org.osbuild.fedora40" ∷ "runners/org.osbuild.fedora40"
      ∷ "runners/org.osbuild.fedora40" ∷ "runners/host" ∷ "runners/org.osbuild.fedora40" ∷ []
unfolding run_parse
runners_run = refl

abbrev manifest_of : Result Defs.ParseError Manifest → Manifest
manifest_of (ok m) = m
manifest_of _ = record {
  metadata = end;
  arrays = [];
  current = 0;
  capacity = 0;
  by_name = [];
  sources = [];
}

parsed : Manifest
unfolding run_parse
parsed = manifest_of (run_parse three)

parse-AllChained_example : All (IsChained toy_library) (pipelines parsed)
unfolding parsed
parse-AllChained_example = parse-AllChained toy_env (λ n. false) three parsed refl

abbrev a_device : String → Value
a_device parent = obj (field "type" (text "loop") (field "parent" (text parent) end))

abbrev a_root : Value
a_root = obj (field "type" (text "loop") end)

-- A partition on a disk on an image.
abbrev chain_of_three : Fields
chain_of_three =
    field "partition" (a_device "disk") (field "disk" (a_device "image") (field "image" a_root end))

cycle_run :
    sort_devices (field "a" (a_device "b") (field "b" (a_device "a") end))
    ≡ err (Defs.device_cycle ("a" ∷ "b" ∷ []))
unfolding sort_devices at lookup str_eq contains
cycle_run = refl

sort_devices_complete_example :
    (names : List String) × (sort_devices
        (field "disk" (a_device "image") (field "image" a_root end))
      ≡ ok names)
unfolding at lookup str_eq contains Devices.ready
sort_devices_complete_example =
    sort_devices_complete (field "disk" (a_device "image") (field "image" a_root end))
      ("image" ∷ "disk" ∷ []) (refl, (refl, tt)) swapped
  where
    swapped :
        (a : String)
        → contains ("image" ∷ "disk" ∷ []) a
          ≡ contains (field_keys (field "disk" (a_device "image") (field "image" a_root end))) a
    swapped a = unfold field_keys in ground arith

-- A device whose description is no object is put into the order, and then the type assertion panics.
panic_run :
    devices_of toy_env
      (field "devices" (obj (field "disk" (text "x") end)) end)
      (new_stage toy_library "s" "" [] none none first)
    ≡ panic
unfolding devices_of load_devices sort_devices at lookup str_eq contains
panic_run = refl

host : Runner
host = record { name = ""; path = "runners/host" }

fix_manifest-runner_example :
    get_elem? (pipelines (fix_manifest toy_library host single)) 0
    ≡ some (record first { runner = right_runner toy_library host (pipelines single) first })
unfolding single
fix_manifest-runner_example = fix_manifest-runner toy_library host single 0 first (omega arith) refl

stale_runner_example :
    pipeline (fix_manifest toy_library host (register toy_grow "os" second single)) "build"
    ≡ pipeline single "build"
unfolding single lookup str_eq
stale_runner_example =
    stale_runner toy_library toy_grow host "build" "os" second single 0 0 refl (omega arith)
      (omega arith) refl
