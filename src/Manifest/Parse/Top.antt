-- ===== src/Manifest/Parse/Top.antt =====
-- parseStage, parsePipeline and Parse.
pub mod Frame
pub mod Everywhere
pub mod Chain
use image_assembler.Base.{
  ℕ, zero, suc, ◌+◌, String, Bool, true, false, Option, none, some, List, [], ◌∷◌, ◌++◌,
  if◌then◌else◌, str_eq, Map, lookup, get_elem?, set,
}
use image_assembler.Base.Int.{ℤ}
use image_assembler.Base.Result.{Result, ok, err, panic, ◌>>=◌, map_err}
use image_assembler.Value.{
  Value, obj, Fields, end, field, at, as_text, text_or_empty, as_obj, obj_or_empty, as_arr,
}
use image_assembler.Manifest.Model.{
  Runner, Stage, Pipeline, Source, Manifest, array, deref, register,
}
use image_assembler.Manifest.Ident.{Library, add_stage}
use image_assembler.Manifest.Parse.Defs.{
  ParseError, bad_version, missing_pipeline_name, missing_stage_type, from_registry, context_done,
  within, is_name_ref, resolve_ref, to_int,
}
use image_assembler.Manifest.Parse.Devices.{sort_devices}
use image_assembler.Manifest.Parse.Loaders.{Env, load_module, load_device, load_input, load_mount}
use image_assembler.Manifest.Parse.Runners.{fixup_runners}

-- A write through a pointer.
unfoldable pub write_pipeline : ℕ × ℕ → Pipeline → Manifest → Manifest
write_pipeline (a, i) p m = record m { arrays = set m.arrays a (set (array m a) i p) }

module _ (env : Env) where
  -- for _, devName := range sorted: the type assertion panics on a description that is no object
  unfoldable pub load_devices : Fields → List String → Stage → Result ParseError Stage
  load_devices devs [] stage = ok stage
  load_devices devs (name ∷ names) stage = elim (as_obj (at name devs)) [
    | none ↦ panic
    | some dd ↦ (do stage' ← load_device env name dd stage; load_devices devs names stage')
  ]

  unfoldable pub devices_of : Fields → Stage → Result ParseError Stage
  devices_of desc stage = elim (as_obj (at "devices" desc)) [
    | none ↦ ok stage
    | some devs ↦ (do sorted ← sort_devices devs; load_devices devs sorted stage)
  ]

  -- An input that refers to its own pipeline sees the stage as it is so far: `see` puts the stage into
  -- the manifest.
  unfoldable pub load_inputs : (Stage → Manifest) → Fields → Stage → Result ParseError Stage
  load_inputs see end stage = ok stage
  load_inputs see (field name (obj desc) fs) stage = do
    stage' ← load_input env name desc (see stage) stage
    load_inputs see fs stage'
  load_inputs see (field name _ fs) stage = load_inputs see fs stage

  unfoldable pub inputs_of : (Stage → Manifest) → Fields → Stage → Result ParseError Stage
  inputs_of see desc stage = elim (as_obj (at "inputs" desc)) [
    | none ↦ ok stage
    | some inputs ↦ load_inputs see inputs stage
  ]

  unfoldable pub load_mounts : List Value → Stage → Result ParseError Stage
  load_mounts [] stage = ok stage
  load_mounts (obj desc ∷ vs) stage = do stage' ← load_mount env desc stage; load_mounts vs stage'
  load_mounts (_ ∷ vs) stage = load_mounts vs stage

  unfoldable pub mounts_of : Fields → Stage → Result ParseError Stage
  mounts_of desc stage = elim (as_arr (at "mounts" desc)) [
    | none ↦ ok stage
    | some mounts ↦ load_mounts mounts stage
  ]

  -- parseStage, for the pipeline `p` that `ptr` points to.
  unfoldable pub parse_stage : Fields → ℕ × ℕ → Pipeline → Manifest → Result ParseError Manifest
  parse_stage desc ptr p m = do
    let stage_type = text_or_empty (at "type" desc)
    if str_eq stage_type ""
        then err missing_stage_type
        else map_err (within "stage" stage_type) (do
          mod' ← load_module env "Stage" stage_type
          let new =
              (add_stage env.lib stage_type mod'.path mod'.caps (as_obj (at "options" desc))
                p.source_epoch p).1
          let see = λ (s : Stage). write_pipeline ptr (record p { stages = p.stages ++ s ∷ [] }) m
          with_devices ← devices_of desc new
          with_inputs ← inputs_of see desc with_devices
          with_mounts ← mounts_of desc with_inputs
          ok (see with_mounts))

  -- m.byName[name]: a nil pointer would panic.
  abbrev parse_stage_at : Fields → Option (ℕ × ℕ) → Manifest → Result ParseError Manifest
  parse_stage_at desc none m = panic
  parse_stage_at desc (some ptr) m = elim (deref m ptr) [
    | none ↦ panic
    | some p ↦ parse_stage desc ptr p m
  ]

  unfoldable pub parse_stages : List Value → String → Manifest → Result ParseError Manifest
  parse_stages [] name m = ok m
  parse_stages (obj desc ∷ vs) name m = do
    m' ← parse_stage_at desc (lookup name m.by_name) m
    parse_stages vs name m'
  parse_stages (_ ∷ vs) name m = parse_stages vs name m

  unfoldable pub build_of : Fields → Manifest → Result ParseError (Option String)
  build_of desc m = elim (as_text (at "build" desc)) [
    | none ↦ ok none
    | some ref ↦
        if is_name_ref ref then (do id ← resolve_ref env.lib ref m; ok (some id)) else ok (some ref)
  ]

  -- The runner that is named, or the host's.
  unfoldable pub runner_of : Fields → Result ParseError Runner
  runner_of desc =
      let name = text_or_empty (at "runner" desc) in
      if str_eq name ""
      then (do
        path ← map_err from_registry env.registry.detect_host_runner
        ok (record { name = ""; path = path }))
      else (do
        path ← map_err from_registry (env.registry.detect_runner name)
        ok (record { name = name; path = path }))

  unfoldable pub epoch_of : Fields → Result ParseError (Option ℤ)
  epoch_of desc = elim (at "source-epoch" desc) [
    | none ↦ ok none
    | some v ↦ (do n ← to_int env.wide_float v; ok (some n))
  ]

  abbrev stages_desc : Fields → List Value
  stages_desc desc = elim (as_arr (at "stages" desc)) [ none ↦ [] | some vs ↦ vs ]

  unfoldable pub parse_pipeline : Fields → Manifest → Result ParseError Manifest
  parse_pipeline desc m = do
    let name = text_or_empty (at "name" desc)
    if str_eq name ""
        then err missing_pipeline_name
        else map_err (within "pipeline" name) (do
          build ← build_of desc m
          runner ← runner_of desc
          epoch ← epoch_of desc
          let p : Pipeline = record {
            name = name;
            build = build;
            runner = runner;
            stages = [];
            source_epoch = epoch;
          }
          parse_stages (stages_desc desc) name (register env.grow name p m))

  -- The pipelines in order; `cancelled n` is whether the context is done at the n-th poll.
  unfoldable pub parse_pipelines :
      (ℕ → Bool) → ℕ → List Value → Manifest → Result ParseError Manifest
  parse_pipelines cancelled polls [] m = ok m
  parse_pipelines cancelled polls (v ∷ vs) m =
      let rest = (do
        m' ← (elim (as_obj (some v)) [ none ↦ ok m | some desc ↦ parse_pipeline desc m ])
        parse_pipelines cancelled (polls + 1) vs m') in
      if cancelled polls then err context_done else rest

  unfoldable pub parse_sources : Fields → List Source → Result ParseError (List Source)
  parse_sources end sources = ok sources
  parse_sources (field name (obj sd) fs) sources = do
    mod' ← map_err (within "source" name) (load_module env "Source" name)
    let src : Source = record {
      type_name = name;
      exec_path = mod'.path;
      items = obj_or_empty (at "items" sd);
      options = obj_or_empty (at "options" sd);
    }
    parse_sources fs (sources ++ src ∷ [])
  parse_sources (field name _ fs) sources = parse_sources fs sources

  unfoldable pub parse : (ℕ → Bool) → Fields → Result ParseError Manifest
  parse cancelled desc = do
    let version = text_or_empty (at "version" desc)
    if str_eq version "2"
        then (do
          sources ← parse_sources (obj_or_empty (at "sources" desc)) []
          let m : Manifest = record {
            metadata = obj_or_empty (at "metadata" desc);
            arrays = [] ∷ [];
            current = 0;
            capacity = 0;
            by_name = [];
            sources = sources;
          }
          m' ←
              parse_pipelines cancelled 0
                (elim (as_arr (at "pipelines" desc)) [ none ↦ [] | some vs ↦ vs ]) m
          fixup_runners env.lib env.registry m')
        else err (bad_version version)
