-- ===== src/Tests/Managers.antt =====
-- Devices, mounts and inputs of a stage, at concrete inputs.
use Prim.Native.String.{◌++◌ as ◌<>◌}
use image_assembler.Base.{
  String, ◌||◌, contains, Option, true, false, some, none, [], ◌∷◌, ◌≡◌, ◌≢◌, refl, lookup, insert,
  str_eq, str_eq_iff, arith, if◌then◌else◌,
}
use image_assembler.Value.{text, obj, Fields, end, field, text_or_empty, entries_of}
use image_assembler.Manifest.OrderedMap
use image_assembler.Sandbox.Caps.{build_cap_args}
use image_assembler.Sandbox.Caps.Granted.{granted}
use image_assembler.Sandbox.Command
use image_assembler.Sandbox.Command.{all_mounts}
use image_assembler.Sandbox.Command.Writable.{writable, api_sockets}
use image_assembler.Build.Stage.{Dirs, stage_options, stage_caps, default_caps}
use image_assembler.Build.Stage.Confined.{stage_options-writable, stage_caps-granted}
use image_assembler.Tests.Toy.{toy_library}
use image_assembler.Tests.Sandboxes.{plain_paths, one_api, seen}
use image_assembler.Manifest.Model.{
  Stage, Device, device, no_parent, parent, Mount, Input, device_name,
}
use image_assembler.Build.Managers.{
  Services, Paths, DeviceManager, open_device, mount, map_input, rel_path, has_prefix,
}
use image_assembler.Build.Managers.Recorded.{OkOrSame, managers-OkOrSame, open_device-rel_path}

-- A device service answers with a path, a mount service with a directory next to the root.
abbrev answering : Services
answering = record {
  start = λ uid exec. true;
  call = λ uid method args.
      if str_eq method "open"
      then some (obj (field "path" (text "loop0") end))
      else some (text "/root2");
}

abbrev plain : Paths
plain = record {
  join = λ a b. a <> ("/" <> b);
  relative = λ root path. some ("../" <> path);
  decimal = λ n. "1";
  exists_on_host = λ p. false;
}

abbrev disk : Device
disk = device "disk" "loopback" "devices/loopback" no_parent end

abbrev part : Device
part = device "part" "partition" "devices/partition" (parent disk) end

abbrev on_disk : Mount
on_disk = record {
  name = "root";
  type_name = "ext4";
  exec_path = "mounts/ext4";
  source = some disk;
  partition = none;
  target = "/";
  options = end;
}

abbrev tree_input : Input
tree_input = record {
  name = "tree";
  type_name = "tree";
  exec_path = "inputs/tree";
  origin = "org.osbuild.pipeline";
  refs = end;
  options = end;
}

abbrev no_devices : DeviceManager
no_devices = record { dev_path = "/dev"; tree_path = "/tree"; devices = [] }

managers-OkOrSame_example :
    OkOrSame no_devices (open_device answering disk no_devices)
    × OkOrSame [] (mount answering plain "/root" on_disk no_devices [])
    × OkOrSame [] (map_input answering plain "/root" "store" tree_input [])
managers-OkOrSame_example =
    managers-OkOrSame answering plain disk no_devices "/root" "store" on_disk [] tree_input []

abbrev found : Fields
found = field "path" (text "loop0") end

abbrev with_disk : DeviceManager
with_disk = record no_devices { devices = ("disk", found) ∷ [] }

part_ne_disk : device_name part ≢ device_name disk
unfolding str_eq
part_ne_disk = ground (arith, str_eq_iff "part" "disk")

open_device-rel_path_example :
    (rel_path disk with_disk ≡ text_or_empty (lookup "path" (entries_of found)))
    × (rel_path part with_disk ≡ rel_path part no_devices)
unfolding open_device insert str_eq
open_device-rel_path_example =
    open_device-rel_path answering plain disk part no_devices with_disk found refl part_ne_disk

-- A directory whose name only begins like the root's passes for one below it.
sibling_passes : has_prefix "/root2" "/root" ≡ true
unfolding has_prefix
sibling_passes = refl

abbrev some_stage : Stage
some_stage = record {
  type_name = "org.osbuild.copy";
  exec_path = "stages/org.osbuild.copy";
  caps = "CAP_NET_ADMIN" ∷ [];
  build = none;
  base = none;
  options = end;
  source_epoch = none;
  checkpoint = false;
  inputs = OrderedMap.new;
  devices = OrderedMap.new;
  mounts = OrderedMap.new;
}

abbrev stage_dirs : Dirs toy_library answering plain
stage_dirs = record {
  inputs_dir = "t/inputs";
  mounts_dir = "t/mounts";
  args_path = "t/api/arguments";
}

-- What the split of the three binds comes to.
abbrev cut : String → Option (String × String)
cut b =
    if str_eq b "tree:/run/osbuild/tree"
    then some ("tree", "/run/osbuild/tree")
    else if str_eq b "meta:/run/osbuild/meta"
    then some ("meta", "/run/osbuild/meta")
    else some ("t/mounts", "/run/osbuild/mounts")

abbrev cutting : Command.Paths
cutting = record plain_paths { split_bind = cut }

stage_options-writable_example :
    writable (
      all_mounts cutting one_api seen
        (stage_options toy_library answering plain some_stage "tree" "meta" stage_dirs))
    ≡ ("d", "/dev")
      ∷ ("t/var", "/var")
      ∷ ("tree", "/run/osbuild/tree")
      ∷ ("meta", "/run/osbuild/meta")
      ∷ ("t/mounts", "/run/osbuild/mounts")
      ∷ api_sockets cutting one_api seen one_api.apis
unfolding str_eq
stage_options-writable_example =
    stage_options-writable toy_library answering plain cutting one_api seen some_stage "tree" "meta"
      stage_dirs refl refl refl

stage_caps-granted_example :
    granted "CAP_NET_ADMIN" true (build_cap_args (some (stage_caps some_stage))) ≡ (
      (contains default_caps "CAP_NET_ADMIN" || contains some_stage.caps "CAP_NET_ADMIN")
      || (contains default_caps "ALL" || contains some_stage.caps "ALL"))
stage_caps-granted_example = stage_caps-granted "CAP_NET_ADMIN" true some_stage
