-- ===== src/Build/Managers.antt =====
-- build/device.go, build/mount.go, build/input.go: the managers of a stage's devices, mounts and
-- inputs. The services are an interface, path/filepath and strconv are parameters.
use Prim.Native.String.{[], ◌∷◌, ◌++◌ as ◌<>◌}
use Prim.Native.Char.{code}
use image_assembler.Base.{
  ℕ, String, Bool, true, false, not, ◌&&◌, Option, none, some, Map, lookup, insert, if◌then◌else◌,
  str_eq, ◌==◌,
}
use image_assembler.Base.Int.{ℤ}
use image_assembler.Base.Result.{Result, ok, err, panic}
use image_assembler.Value.{
  Value, null, bool, number, int, int64, float, text, arr, obj, Fields, end, field, at, as_text,
  text_or_empty, entries_of, fields_of,
}
use image_assembler.Manifest.Model.{
  Device, device, Parent, no_parent, parent, device_name, device_parent, device_options, Mount,
  Input,
}
pub mod Recorded

-- Start of a service, with whether it worked, and a call of its method.
pub record Services : Type 0 where
  pub start : String → String → Bool
  pub call : String → String → Fields → Option Value

pub record Paths : Type 0 where
  pub join : String → String → String
  pub relative : String → String → Option String
  pub decimal : ℤ → String
  pub exists_on_host : String → Bool

-- strings.HasPrefix
unfoldable pub has_prefix : String → String → Bool
has_prefix s [] = true
has_prefix [] (d ∷ t) = false
has_prefix (c ∷ s) (d ∷ t) = let rest = has_prefix s t in if code c == code d then rest else false

pub data CallFailure : Type 0 where
  starting : CallFailure
  calling : CallFailure
  unexpected_reply : CallFailure
  wrong_prefix : CallFailure
  relativizing : CallFailure

-- services.Start and client.Call
abbrev pub serve : Services → String → String → String → Fields → Result CallFailure Value
serve services uid exec method args =
    if services.start uid exec
    then elim (services.call uid method args) as (λ r. Result CallFailure Value) [
      | none ↦ err calling
      | some v ↦ ok v
    ]
    else err starting

pub record DeviceManager : Type 0 where
  pub dev_path : String
  pub tree_path : String
  pub devices : Map Fields

abbrev pub path_of : Option Fields → String
path_of none = ""
path_of (some res) = text_or_empty (lookup "path" (entries_of res))

-- RelPath of a device that is not nil.
unfoldable pub rel_path : Device → DeviceManager → String
rel_path dev m = path_of (lookup (device_name dev) m.devices)

unfoldable pub rel_path_or_empty : Parent → DeviceManager → String
unfolding rel_path
rel_path_or_empty no_parent m = ""
rel_path_or_empty (parent dev) m = rel_path dev m

-- AbsPath
unfoldable pub abs_path : Paths → Option Device → DeviceManager → String
unfolding rel_path
abs_path paths none m = ""
abs_path paths (some dev) m =
    let rel = rel_path dev m in if str_eq rel "" then "" else paths.join m.dev_path rel

abbrev pub record_device :
    String → DeviceManager → Result CallFailure Value → DeviceManager × Result CallFailure Fields
record_device name m (ok (obj res)) = (record m { devices = insert name res m.devices }, ok res)
record_device name m (ok v) = (m, err unexpected_reply)
record_device name m (err e) = (m, err e)
record_device name m panic = (m, panic)

module _ (services : Services) where
  abbrev pub device_args : Device → DeviceManager → Fields
  device_args dev m = field "dev" (text m.dev_path) (
      field "tree" (text m.tree_path) (
        field "parent" (text (rel_path_or_empty (device_parent dev) m))
          (field "options" (obj (device_options dev)) end)))

  abbrev pub device_exec : Device → String
  device_exec (device name type_name exec above options) = exec

  -- DeviceManager.Open
  unfoldable pub open_device : Device → DeviceManager → DeviceManager × Result CallFailure Fields
  unfolding rel_path_or_empty
  open_device dev m =
      record_device (device_name dev) m
        (serve services ("device/" <> device_name dev) (device_exec dev) "open" (device_args dev m))

  module _ (paths : Paths) where
    -- mnt.Device may be nil.
    abbrev pub mount_rel : Option Device → DeviceManager → String
    mount_rel none devices = ""
    mount_rel (some dev) devices = rel_path dev devices

    -- source, with the path below /dev where the host has it, and the partition.
    unfoldable pub mount_source : Mount → DeviceManager → String
    unfolding abs_path
    mount_source mnt devices =
        let rel = mount_rel mnt.source devices in
        let base =
          if not (str_eq rel "") && paths.exists_on_host (paths.join "/dev" rel)
          then paths.join "/dev" rel
          else abs_path paths mnt.source devices in
        with_partition base mnt.partition
      where
        with_partition : String → Option ℤ → String
        with_partition base none = base
        with_partition base (some n) =
            if str_eq base "" then base else base <> ("p" <> paths.decimal n)

    abbrev pub mount_args : String → Mount → DeviceManager → Fields
    mount_args root mnt devices = field "source" (text (mount_source mnt devices)) (
        field "target" (text mnt.target) (
          field "root" (text root)
            (field "tree" (text devices.tree_path) (field "options" (obj mnt.options) end))))

    abbrev pub Mounts : Type 0
    Mounts = Map Value

    abbrev pub record_rel : String → Option String → Mounts → Mounts × Result CallFailure Fields
    record_rel name none mounts = (mounts, err relativizing)
    record_rel name (some rel) mounts =
        (insert name (text rel) mounts, ok (field "path" (text rel) end))

    abbrev pub record_path : String → String → String → Mounts → Mounts × Result CallFailure Fields
    record_path root name path mounts =
        if str_eq path ""
        then (insert name (obj end) mounts, ok end)
        else if has_prefix path root
        then record_rel name (paths.relative root path) mounts
        else (mounts, err wrong_prefix)

    abbrev pub record_mount :
        String → String → Mounts → Result CallFailure Value → Mounts × Result CallFailure Fields
    record_mount root name mounts (ok (text path)) = record_path root name path mounts
    record_mount root name mounts (ok (obj reply)) = (insert name (obj reply) mounts, ok reply)
    record_mount root name mounts (ok v) = (insert name (obj end) mounts, ok end)
    record_mount root name mounts (err e) = (mounts, err e)
    record_mount root name mounts panic = (mounts, panic)

    -- MountManager.Mount
    unfoldable pub mount :
        String → Mount → DeviceManager → Mounts → Mounts × Result CallFailure Fields
    unfolding mount_source has_prefix
    mount root mnt devices mounts =
        record_mount root mnt.name mounts (
          serve services ("mount/" <> mnt.name) mnt.exec_path "mount" (mount_args root mnt devices))

    abbrev pub input_args : String → String → Input → Fields
    input_args root store ip = field "origin" (text ip.origin) (
        field "refs" (obj ip.refs) (
          field "target" (text (paths.join root ip.name)) (
            field "options" (obj ip.options)
              (field "api" (obj (field "store" (text store) end)) end))))

    abbrev pub record_input_rel :
        String → Fields → Option String → Map Fields → Map Fields × Result CallFailure Fields
    record_input_rel name reply none inputs = (inputs, err relativizing)
    record_input_rel name reply (some rel) inputs =
        let replaced = fields_of (insert "path" (text rel) (entries_of reply)) in
        (insert name replaced inputs, ok replaced)

    abbrev pub record_input_path :
        String
        → String
        → Fields
        → Option String
        → Map Fields
        → Map Fields × Result CallFailure Fields
    record_input_path root name reply none inputs = (insert name reply inputs, ok reply)
    record_input_path root name reply (some path) inputs =
        if has_prefix path root
        then record_input_rel name reply (paths.relative root path) inputs
        else (inputs, err wrong_prefix)

    abbrev pub record_input :
        String
        → String
        → Map Fields
        → Result CallFailure Value
        → Map Fields × Result CallFailure Fields
    record_input root name inputs (ok (obj reply)) =
        record_input_path root name reply (as_text (lookup "path" (entries_of reply))) inputs
    record_input root name inputs (ok v) = (inputs, err unexpected_reply)
    record_input root name inputs (err e) = (inputs, err e)
    record_input root name inputs panic = (inputs, panic)

    -- InputManager.Map, with the address of the store's API.
    unfoldable pub map_input :
        String → String → Input → Map Fields → Map Fields × Result CallFailure Fields
    unfolding has_prefix insert lookup entries_of fields_of
    map_input root store ip inputs =
        record_input root ip.name inputs
          (serve services ("input/" <> ip.name) ip.exec_path "map" (input_args root store ip))
