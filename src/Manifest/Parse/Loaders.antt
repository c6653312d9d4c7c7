-- ===== src/Manifest/Parse/Loaders.antt =====
-- loadDevice, loadInput, loadMount, parseStage, parsePipeline and Parse.
use image_assembler.Base.{ℕ, String, ◌&&◌, Option, none, some, if◌then◌else◌, str_eq}
use image_assembler.Base.Int.{ℤ}
use image_assembler.Base.Result.{Result, ok, err, ◌>>=◌, map_err}
use image_assembler.Value.{
  Value, text, arr, obj, Items, nil, cons, Fields, end, field, at, as_text, text_or_empty,
  obj_or_empty,
}
use image_assembler.Manifest.OrderedMap
use image_assembler.Manifest.Model.{
  Input, Device, device, Parent, no_parent, parent, Mount, Stage, Manifest,
}
use image_assembler.Manifest.Ident.{Library}
use image_assembler.Manifest.Parse.Defs.{
  ParseError, missing_mount_type, missing_mount_name, missing_device_type, missing_input_type,
  from_registry, parent_not_found, source_not_found, within, Module, RegistryApi, is_name_ref,
  resolve_ref, put, to_int,
}

abbrev or_nil_map : Option Fields → Fields
or_nil_map none = end
or_nil_map (some fs) = fs

-- The stage's device of that name, or the error.
abbrev device_or {ℓ} : {E : Type ℓ} → E → Option Device → Result E Device
device_or e none = err e
device_or e (some d) = ok d

-- What the parser uses: the Go library, the registry, the capacity of a grown slice and Go's answer for
-- a float64 that no int64 holds.
pub record Env : Type 0 where
  pub lib : Library
  pub registry : RegistryApi
  pub grow : ℕ → ℕ
  pub wide_float : ℕ → ℤ

module _ (env : Env) where
  -- reg.Module(kind, type)
  unfoldable pub load_module : String → String → Result ParseError Module
  load_module kind name = map_err from_registry (env.registry.module_of kind name)

  unfoldable pub parent_of : String → Fields → Stage → Result ParseError Parent
  parent_of name desc stage = elim (as_text (at "parent" desc)) [
    | none ↦ ok no_parent
    | some parent_name ↦ (do
      d ← device_or (parent_not_found name parent_name) (OrderedMap.get parent_name stage.devices)
      ok (parent d))
  ]

  unfoldable pub load_device : String → Fields → Stage → Result ParseError Stage
  unfolding load_module parent_of OrderedMap.get OrderedMap.set
  load_device name desc stage = do
    let dev_type = text_or_empty (at "type" desc)
    if str_eq dev_type "" then err (missing_device_type name) else do
      mod' ← map_err (within "device" name) (load_module "Device" dev_type)
      above ← parent_of name desc stage
      let dev = device name dev_type mod'.path above (obj_or_empty (at "options" desc))
      ok (record stage { devices = OrderedMap.set name dev stage.devices })

  -- ref, or the ID that "name:..." stands for where the origin is a pipeline.
  unfoldable pub resolve_input_ref : String → String → String → Manifest → Result ParseError String
  resolve_input_ref name origin ref m =
      if str_eq origin "org.osbuild.pipeline" && is_name_ref ref
      then map_err (within "input" name) (resolve_ref env.lib ref m)
      else ok ref

  -- references as an object: ip.Refs[resolved] = opts
  unfoldable pub object_refs :
      String → String → Manifest → Fields → Fields → Result ParseError Fields
  unfolding resolve_input_ref put
  object_refs name origin m end refs = ok refs
  object_refs name origin m (field ref opts fs) refs = do
    resolved ← resolve_input_ref name origin ref m
    object_refs name origin m fs (put resolved opts refs)

  -- references as an array of texts and of objects with an "id"; other items are skipped
  unfoldable pub array_refs : String → String → Manifest → Items → Fields → Result ParseError Fields
  unfolding resolve_input_ref put
  array_refs name origin m nil refs = ok refs
  array_refs name origin m (cons (text ref) vs) refs = do
    resolved ← resolve_input_ref name origin ref m
    array_refs name origin m vs (put resolved (obj end) refs)
  array_refs name origin m (cons (obj fs) vs) refs = do
    resolved ← resolve_input_ref name origin (text_or_empty (at "id" fs)) m
    array_refs name origin m vs (put resolved (obj (obj_or_empty (at "options" fs))) refs)
  array_refs name origin m (cons _ vs) refs = array_refs name origin m vs refs

  unfoldable pub input_refs : String → String → Manifest → Option Value → Result ParseError Fields
  unfolding object_refs array_refs
  input_refs name origin m (some (obj fs)) = object_refs name origin m fs end
  input_refs name origin m (some (arr vs)) = array_refs name origin m vs end
  input_refs name origin m _ = ok end

  unfoldable pub load_input : String → Fields → Manifest → Stage → Result ParseError Stage
  unfolding load_module input_refs OrderedMap.set
  load_input name desc m stage = do
    let input_type = text_or_empty (at "type" desc)
    let origin = text_or_empty (at "origin" desc)
    if str_eq input_type "" then err (missing_input_type name) else do
      mod' ← map_err (within "input" name) (load_module "Input" input_type)
      refs ← input_refs name origin m (at "references" desc)
      let ip : Input = record {
        name = name;
        type_name = input_type;
        exec_path = mod'.path;
        origin = origin;
        refs = refs;
        options = obj_or_empty (at "options" desc);
      }
      ok (record stage { inputs = OrderedMap.set name ip stage.inputs })

  unfoldable pub mount_partition : String → Fields → Result ParseError (Option ℤ)
  unfolding to_int
  mount_partition name desc = elim (at "partition" desc) [
    | none ↦ ok none
    | some v ↦ (do n ← map_err (within "mount" name) (to_int env.wide_float v); ok (some n))
  ]

  unfoldable pub mount_source : String → Fields → Stage → Result ParseError (Option Device)
  mount_source name desc stage = elim (as_text (at "source" desc)) [
    | none ↦ ok none
    | some source_name ↦ (do
      d ← device_or (source_not_found name source_name) (OrderedMap.get source_name stage.devices)
      ok (some d))
  ]

  unfoldable pub load_mount : Fields → Stage → Result ParseError Stage
  load_mount desc stage = do
    let mount_type = text_or_empty (at "type" desc)
    let name = text_or_empty (at "name" desc)
    if str_eq mount_type ""
        then err missing_mount_type
        else if str_eq name ""
        then err missing_mount_name
        else do
          mod' ← map_err (within "mount" name) (load_module "Mount" mount_type)
          partition ← mount_partition name desc
          source ← mount_source name desc stage
          let mnt : Mount = record {
            name = name;
            type_name = mount_type;
            exec_path = mod'.path;
            source = source;
            partition = partition;
            target = text_or_empty (at "target" desc);
            options = obj_or_empty (at "options" desc);
          }
          ok (record stage { mounts = OrderedMap.set name mnt stage.mounts })
