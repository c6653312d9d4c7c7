-- ===== src/Manifest/Ident.antt =====
-- manifest/id.go, and the parts of manifest/manifest.go that compute with IDs. `sha256_hex` is
-- crypto/sha256 with encoding/hex, of everything that was written to the hash.
use image_assembler.Base.{
  ℕ, String, Bool, true, false, Option, none, some, List, [], ◌∷◌, ◌++◌, if◌then◌else◌, str_eq, ltb,
}
use image_assembler.Base.Int.{ℤ}
use image_assembler.Value.{Value, null, text, int, arr, obj, Items, nil, cons, Fields, end, field}
use image_assembler.Json.{marshal}
use image_assembler.Manifest.OrderedMap
use image_assembler.Manifest.OrderedMap.{OrderedMap}
use image_assembler.Manifest.Model.{
  Input, Device, Parent, device, no_parent, parent, Mount, Stage, Pipeline, Source, Manifest,
  pipelines,
}

-- What the program uses of the Go library to make an ID.
pub record Library : Type 0 where
  pub sha256_hex : List ℕ → String
  pub format_float : ℕ → List ℕ

-- A nil *string marshals to null.
abbrev pub text_pointer : Option String → Value
text_pointer none = null
text_pointer (some s) = text s

abbrev pub int_pointer : Option ℤ → Value
int_pointer none = null
int_pointer (some n) = int n

-- The value that a map pointer has for a missing key, never met on a valid map.
abbrev pub no_input : Input
no_input = record {
  name = "";
  type_name = "";
  exec_path = "";
  origin = "";
  refs = end;
  options = end;
}

abbrev pub no_mount : Mount
no_mount = record {
  name = "";
  type_name = "";
  exec_path = "";
  source = none;
  partition = none;
  target = "";
  options = end;
}

-- s.Inputs.Range(... deps = append(deps, ref) ...)
unfoldable pub ref_keys : Fields → List String
ref_keys end = []
ref_keys (field k _ fs) = k ∷ ref_keys fs

unfoldable pub add_dependencies : String → Input → List String → List String × Bool
unfolding ref_keys
add_dependencies _ ip deps =
    (if str_eq ip.origin "org.osbuild.pipeline" then deps ++ ref_keys ip.refs else deps, true)

unfoldable pub dependencies : Stage → List String
unfolding add_dependencies OrderedMap.range
dependencies s = OrderedMap.range no_input add_dependencies s.inputs []

module _ (lib : Library) where
  -- b, _ := jsonutil.Marshal(v); h.Write(b): an error leaves b empty.
  unfoldable pub write : Value → List ℕ
  write v = elim (marshal lib.format_float v) [ none ↦ [] | some bytes ↦ bytes ]

  unfoldable pub input_id : Input → String
  unfolding write
  input_id ip = lib.sha256_hex (
      write (text ip.type_name)
      ++ (write (text ip.origin) ++ (write (obj ip.refs) ++ write (obj ip.options))))

  unfoldable mutual
    pub device_id : Device → String
    device_id (device name type_name exec above options) =
        lib.sha256_hex (write (text type_name) ++ (parent_text above ++ write (obj options)))

    pub parent_text : Parent → List ℕ
    parent_text no_parent = []
    parent_text (parent d) = write (text (device_id d))

  unfoldable pub mount_id : Mount → String
  unfolding device_id write
  mount_id m = lib.sha256_hex (
      write (text m.type_name)
      ++ (elim m.source [ none ↦ [] | some d ↦ write (text (device_id d)) ]
          ++ (elim m.partition [ none ↦ [] | some n ↦ write (int n) ]
              ++ (if str_eq m.target "" then [] else write (text m.target))
              ++ write (obj m.options))))

  unfoldable pub source_id : Source → String
  unfolding write
  source_id s = lib.sha256_hex (write (text s.type_name) ++ write (obj s.items))

  -- inputIDs[name] = ip.ID()
  unfoldable pub add_input_id : String → Input → Fields → Fields × Bool
  unfolding input_id
  add_input_id name ip ids = (field name (text (input_id ip)) ids, true)

  -- mountIDs = append(mountIDs, m.ID()), kept reversed while the loop runs
  unfoldable pub add_mount_id : String → Mount → List String → List String × Bool
  unfolding mount_id
  add_mount_id _ m ids = (ids ++ mount_id m ∷ [], true)

  abbrev texts : List String → Items
  texts [] = nil
  texts (s ∷ ss) = cons (text s) (texts ss)

  unfoldable pub input_ids : OrderedMap Input → Fields
  unfolding OrderedMap.range add_input_id
  input_ids inputs = OrderedMap.range no_input add_input_id inputs end

  unfoldable pub mount_ids : OrderedMap Mount → Items
  unfolding OrderedMap.range add_mount_id
  mount_ids mounts = texts (OrderedMap.range no_mount add_mount_id mounts [])

  unfoldable pub stage_text : Stage → List ℕ
  unfolding write OrderedMap.len input_ids mount_ids
  stage_text s =
      write (text s.type_name)
      ++ (write (text_pointer s.build)
          ++ (write (text_pointer s.base)
              ++ (write (obj s.options)
                  ++ (elim s.source_epoch [ none ↦ [] | some n ↦ write (int n) ]
                      ++ ((if ltb 0 (OrderedMap.len s.inputs)
                            then write (obj (input_ids s.inputs))
                            else [])
                          ++ (if ltb 0 (OrderedMap.len s.mounts)
                              then write (arr (mount_ids s.mounts))
                              else []))))))

  unfoldable pub stage_id : Stage → String
  unfolding stage_text
  stage_id s = lib.sha256_hex (stage_text s)

  -- The ID of the last stage, nil if there is none.
  unfoldable pub id_pointer : List Stage → Option String
  id_pointer [] = none
  id_pointer (s ∷ []) = some (stage_id s)
  id_pointer (s ∷ t ∷ ss) = id_pointer (t ∷ ss)

  abbrev pub or_blank : Option String → String
  or_blank none = ""
  or_blank (some s) = s

  unfoldable pub pipeline_id : Pipeline → String
  unfolding id_pointer
  pipeline_id p = or_blank (id_pointer p.stages)

  -- The loop of PipelineByID: the first pipeline with the ID.
  unfoldable pub find_id : String → List Pipeline → Option Pipeline
  unfolding pipeline_id
  find_id id [] = none
  find_id id (p ∷ ps) = if str_eq (pipeline_id p) id then some p else find_id id ps

  unfoldable pub pipeline_by_id : Manifest → String → Option Pipeline
  unfolding find_id
  pipeline_by_id m id = find_id id (pipelines m)

  -- The stage that AddStage makes.
  unfoldable pub new_stage :
      String → String → List String → Option Fields → Option ℤ → Pipeline → Stage
  unfolding id_pointer OrderedMap.new
  new_stage type_name exec_path caps options epoch p = record {
    type_name = type_name;
    exec_path = exec_path;
    caps = caps;
    build = p.build;
    base = id_pointer p.stages;
    options = elim options [ none ↦ end | some fs ↦ fs ];
    source_epoch = epoch;
    checkpoint = false;
    inputs = OrderedMap.new;
    devices = OrderedMap.new;
    mounts = OrderedMap.new;
  }

  -- AddStage: the stage goes to the end of the pipeline, and the caller gets a pointer to it there.
  unfoldable pub add_stage :
      String → String → List String → Option Fields → Option ℤ → Pipeline → Pipeline × Stage
  unfolding new_stage
  add_stage type_name exec_path caps options epoch p =
      let s = new_stage type_name exec_path caps options epoch p in
      (record p { stages = p.stages ++ s ∷ [] }, s)
