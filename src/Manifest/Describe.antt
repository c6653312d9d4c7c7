-- ===== src/Manifest/Describe.antt =====
-- manifest/describe.go: a manifest back as the JSON of its format.
use Prim.Native.String.{◌++◌ as ◌<>◌}
use image_assembler.Base.{
  ℕ, String, Bool, true, false, not, ◌&&◌, Option, none, some, List, [], ◌∷◌, Map, lookup, insert,
  if◌then◌else◌, str_eq, ltb,
}
use image_assembler.Base.Int.{ℤ}
use image_assembler.Value.{
  Value, text, int, arr, obj, Items, nil, cons, Fields, end, field, fields_of,
}
use image_assembler.Manifest.OrderedMap
use image_assembler.Manifest.OrderedMap.{OrderedMap}
use image_assembler.Manifest.Model.{
  Runner, Input, Device, Parent, no_parent, parent, device_name, device_type, device_options,
  device_parent, Mount, Stage, Pipeline, Source, Manifest, pipelines,
}
use image_assembler.Manifest.Ident.{
  Library, stage_id, pipeline_id, pipeline_by_id, no_input, no_mount,
}
pub mod Runners

-- if len(m) > 0 { desc[key] = m }
abbrev pub with_fields : String → Fields → Fields → Fields
with_fields key end rest = rest
with_fields key (field k v fs) rest = field key (obj (field k v fs)) rest

abbrev pub with_parent : Parent → Fields → Fields
with_parent no_parent rest = rest
with_parent (parent d) rest = field "parent" (text (device_name d)) rest

-- describeDevice
unfoldable pub describe_device : Device → Fields
describe_device d =
    field "type" (text (device_type d))
      (with_fields "options" (device_options d) (with_parent (device_parent d) end))

abbrev pub with_text : String → String → Fields → Fields
with_text key s rest = if str_eq s "" then rest else field key (text s) rest

abbrev pub with_device : Option Device → Fields → Fields
with_device none rest = rest
with_device (some d) rest = field "source" (text (device_name d)) rest

abbrev pub with_int : String → Option ℤ → Fields → Fields
with_int key none rest = rest
with_int key (some n) rest = field key (int n) rest

-- describeMount
unfoldable pub describe_mount : Mount → Fields
describe_mount m = field "name" (text m.name) (
    field "type" (text m.type_name) (
      with_text "target" m.target (
        with_device m.source
          (with_fields "options" m.options (with_int "partition" m.partition end)))))

-- devs[name] = describeDevice(d), in a map that is listed the other way round.
unfoldable pub add_device : String → Device → Fields → Fields × Bool
unfolding describe_device
add_device name d fs = (field name (obj (describe_device d)) fs, true)

-- mounts = append(mounts, describeMount(mnt))
unfoldable pub add_mount : String → Mount → Items → Items × Bool
unfolding describe_mount
add_mount name m ms = (append_item ms (obj (describe_mount m)), true)
  where
    append_item : Items → Value → Items
    append_item nil v = cons v nil
    append_item (cons w ws) v = cons w (append_item ws v)

-- The value that a map pointer has for a missing key, never met on a valid map.
abbrev pub no_device : Device
no_device = Device.device "" "" "" no_parent end

module _ (lib : Library) where
  abbrev pub name_or_id : Option Pipeline → String → String
  name_or_id none id = id
  name_or_id (some p) id = "name:" <> p.name

  -- refs[key] = opts
  unfoldable pub describe_refs : Manifest → Bool → Fields → Map Value → Map Value
  unfolding pipeline_by_id
  describe_refs m named end refs = refs
  describe_refs m named (field id options fs) refs =
      let key = if named then name_or_id (pipeline_by_id lib m id) id else id in
      describe_refs m named fs (insert key options refs)

  abbrev pub with_refs : Manifest → Bool → Fields → Fields → Fields
  with_refs m named end rest = rest
  with_refs m named (field k v fs) rest =
      field "references" (obj (fields_of (describe_refs m named (field k v fs) []))) rest

  -- describeInput
  unfoldable pub describe_input : Manifest → Bool → Input → Fields
  unfolding describe_refs
  describe_input m with_id ip = field "type" (text ip.type_name) (
      field "origin" (text ip.origin) (
        with_fields "options" ip.options
          (with_refs m (str_eq ip.origin "org.osbuild.pipeline" && not with_id) ip.refs end)))

  unfoldable pub add_input : Manifest → Bool → String → Input → Fields → Fields × Bool
  unfolding describe_input
  add_input m with_id name ip fs = (field name (obj (describe_input m with_id ip)) fs, true)

  abbrev pub when : Bool → String → Value → Fields → Fields
  when b key v rest = if b then field key v rest else rest

  -- describeStage
  unfoldable pub describe_stage : Manifest → Bool → Stage → Fields
  unfolding add_device add_input add_mount OrderedMap.range OrderedMap.len
  describe_stage m with_id s = field "type" (text s.type_name) (
      when with_id "id" (text (stage_id lib s)) (
        with_fields "options" s.options (
          when (ltb 0 (OrderedMap.len s.devices)) "devices"
            (obj (OrderedMap.range no_device add_device s.devices end))
            (when (ltb 0 (OrderedMap.len s.inputs)) "inputs"
              (obj (OrderedMap.range no_input (add_input m with_id) s.inputs end))
              (when (ltb 0 (OrderedMap.len s.mounts)) "mounts"
                (arr (OrderedMap.range no_mount add_mount s.mounts nil)) end)))))

  unfoldable pub describe_stages : Manifest → Bool → List Stage → Items
  unfolding describe_stage
  describe_stages m with_id [] = nil
  describe_stages m with_id (s ∷ ss) =
      cons (obj (describe_stage m with_id s)) (describe_stages m with_id ss)

  abbrev pub with_build : Manifest → Bool → Option String → Fields → Fields
  with_build m with_id none rest = rest
  with_build m with_id (some id) rest =
      field "build" (text (if with_id then id else name_or_id (pipeline_by_id lib m id) id)) rest

  -- r, ok := runners[p.ID()]; ok && r.Name != ""
  abbrev pub with_runner : Option Runner → Fields → Fields
  with_runner none rest = rest
  with_runner (some r) rest = with_text "runner" r.name rest

  -- runners[m.Pipelines[i].ID()] = m.Pipelines[i].Runner
  unfoldable pub described_runners : List Pipeline → Map Runner → Map Runner
  unfolding pipeline_id
  described_runners [] runners = runners
  described_runners (p ∷ ps) runners = elim p.build [
    | none ↦ described_runners ps runners
    | some id ↦ described_runners ps (insert (pipeline_id lib p) p.runner runners)
  ]

  -- describePipeline
  unfoldable pub describe_pipeline : Manifest → Map Runner → Bool → Pipeline → Fields
  unfolding describe_stages
  describe_pipeline m runners with_id p = field "name" (text p.name) (
      with_build m with_id p.build (
        with_runner (lookup (pipeline_id lib p) runners) (
          with_int "source-epoch" p.source_epoch
            (field "stages" (arr (describe_stages m with_id p.stages)) end))))

  unfoldable pub describe_pipelines : Manifest → Map Runner → Bool → List Pipeline → Items
  unfolding describe_pipeline
  describe_pipelines m runners with_id [] = nil
  describe_pipelines m runners with_id (p ∷ ps) =
      cons (obj (describe_pipeline m runners with_id p)) (describe_pipelines m runners with_id ps)

  -- sources[s.Type] = sd
  unfoldable pub describe_sources : List Source → Map Value → Map Value
  describe_sources [] sources = sources
  describe_sources (s ∷ ss) sources = describe_sources ss (
      insert s.type_name (obj (with_fields "items" s.items (with_fields "options" s.options end)))
        sources)

  abbrev pub with_sources : List Source → Fields
  with_sources [] = end
  with_sources (s ∷ ss) = field "sources" (obj (fields_of (describe_sources (s ∷ ss) []))) end

  -- Describe
  unfoldable pub describe : Manifest → Bool → Fields
  unfolding describe_pipelines describe_sources described_runners
  describe m with_id = field "version" (text "2") (
      field "pipelines"
        (arr (describe_pipelines m (described_runners (pipelines m) []) with_id (pipelines m)))
        (with_fields "metadata" m.metadata (with_sources m.sources)))
