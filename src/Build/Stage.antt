-- ===== src/Build/Stage.antt =====
-- build/stage.go: RunStage, over the managers of the stage's devices, inputs and mounts and over the
-- sandbox. What the sandbox's run comes to, the errors of the file system, and the text of a number
-- are arguments; the deferred calls that take down what was made are left out.
use Prim.Native.String.{◌++◌ as ◌<>◌}
use image_assembler.Base.{
  ℕ, String, Bool, true, false, not, ◌||◌, Option, none, some, List, [], ◌∷◌, ◌++◌, Map, lookup,
  insert, if◌then◌else◌, str_eq, contains,
}
use image_assembler.Base.Int.{ℤ}
use image_assembler.Base.Result.{Result, ok, err, panic}
use image_assembler.Value.{
  Value, text, int, obj, as_text, as_obj, Fields, end, field, fields_of, entries_of,
}
use image_assembler.Manifest.OrderedMap
use image_assembler.Manifest.Model.{Stage, Device, Input, Mount}
use image_assembler.Manifest.Ident.{Library, stage_id, no_input, no_mount}
use image_assembler.Manifest.Describe.{no_device}
use image_assembler.Sandbox.Command.{RunOptions, RunResult}
use image_assembler.Build.Action.{BuildResult}
use image_assembler.Build.Managers.{
  Services, Paths, CallFailure, DeviceManager, open_device, mount, map_input,
}
pub mod Confined

-- sandbox.DefaultCaps
abbrev pub default_caps : List String
default_caps =
    "CAP_AUDIT_WRITE" ∷ "CAP_CHOWN" ∷ "CAP_DAC_OVERRIDE" ∷ "CAP_DAC_READ_SEARCH" ∷ "CAP_FOWNER"
    ∷ "CAP_FSETID" ∷ "CAP_IPC_LOCK" ∷ "CAP_LINUX_IMMUTABLE" ∷ "CAP_MAC_ADMIN" ∷ "CAP_MAC_OVERRIDE"
    ∷ "CAP_MKNOD" ∷ "CAP_NET_RAW" ∷ "CAP_SETFCAP" ∷ "CAP_SETGID" ∷ "CAP_SETPCAP" ∷ "CAP_SETUID"
    ∷ "CAP_SYS_ADMIN" ∷ "CAP_SYS_CHROOT" ∷ "CAP_SYS_NICE" ∷ []

-- caps[k] = struct{}{}, for the default ones and the stage's own.
unfoldable pub add_caps : List String → List String → List String
add_caps [] caps = caps
add_caps (c ∷ cs) caps = add_caps cs (if contains caps c then caps else caps ++ c ∷ [])

unfoldable pub stage_caps : Stage → List String
unfolding add_caps
stage_caps stage = add_caps stage.caps default_caps

pub data StageError : Type 0 where
  creating_tmpdir : StageError
  opening_sandbox : StageError
  service_failed : CallFailure → StageError
  writing_arguments : StageError
  running : StageError

-- A group of replies under their names, the state of a manager, and the first error.
pub record Gathered (S : Type 0) : Type 0 where
  pub manager : S
  pub replies : Map Value
  pub first_error : Option CallFailure

abbrev pub gathered_nothing : {S : Type 0} → S → Gathered S
gathered_nothing s = record { manager = s; replies = []; first_error = none }

-- if err != nil { firstErr = err; return false }; replies[key] = reply; return true
abbrev pub gather_reply :
    {S : Type 0} → String → Gathered S → S × Result {0, 0} CallFailure Fields → Gathered S × Bool
gather_reply name g (s, ok reply) =
    (record g { manager = s; replies = insert name (obj reply) g.replies }, true)
gather_reply name g (s, err e) = (record g { manager = s; first_error = some e }, false)
gather_reply name g (s, panic) =
    (record g { manager = s; first_error = some CallFailure.calling }, false)

-- The replacement of the path of one item of a group, if it has one.
abbrev pub rerooted_path : (String → String → String) → String → Fields → Option String → Fields
rerooted_path join root item none = item
rerooted_path join root item (some path) =
    if str_eq path ""
    then item
    else fields_of (insert "path" (text (join root path)) (entries_of item))

abbrev pub rerooted_item : (String → String → String) → String → Value → Value
rerooted_item join root (obj item) =
    obj (rerooted_path join root item (as_text (lookup "path" (entries_of item))))
rerooted_item join root v = v

-- The loop of reroot over the items of a group.
unfoldable pub reroot : (String → String → String) → String → Map Value → Map Value
unfolding insert lookup entries_of fields_of
reroot join root [] = []
reroot join root ((name, item) ∷ group) =
    (name, rerooted_item join root item) ∷ reroot join root group

module _ (lib : Library) (services : Services) (paths : Paths) where
  -- stage.Inputs.Range(...)
  unfoldable pub gather_inputs : String → String → Stage → Gathered (Map Fields)
  unfolding OrderedMap.range map_input
  gather_inputs root store stage =
      OrderedMap.range no_input
        (λ name ip g. gather_reply name g (map_input services paths root store ip g.manager))
        stage.inputs (gathered_nothing [])

  -- stage.Devices.Range(...)
  unfoldable pub gather_devices : DeviceManager → Stage → Gathered DeviceManager
  unfolding OrderedMap.range open_device
  gather_devices m stage =
      OrderedMap.range no_device
        (λ name dev g. gather_reply name g (open_device services dev g.manager)) stage.devices
        (gathered_nothing m)

  -- stage.Mounts.Range(...)
  unfoldable pub gather_mounts : String → DeviceManager → Stage → Gathered (Map Value)
  unfolding OrderedMap.range mount
  gather_mounts root devices stage =
      OrderedMap.range no_mount
        (λ name mnt g. gather_reply name g (mount services paths root mnt devices g.manager))
        stage.mounts (gathered_nothing [])

  abbrev pub epoch_field : Option ℤ → Fields
  epoch_field none = end
  epoch_field (some n) = field "source-epoch" (int n) end

  -- args, after reroot. A mount's path goes below the directory of mounts, and so on.
  unfoldable pub stage_args : Stage → Map Value → Map Value → Map Value → Fields
  unfolding reroot
  stage_args stage devices inputs mounts = field "tree" (text "/run/osbuild/tree") (
      field "paths"
        (obj (
          field "devices" (text "/dev") (
            field "inputs" (text "/run/osbuild/inputs")
              (field "mounts" (text "/run/osbuild/mounts") end))))
        (field "devices" (obj (fields_of (reroot paths.join "/dev" devices))) (
          field "inputs" (obj (fields_of (reroot paths.join "/run/osbuild/inputs" inputs))) (
            field "mounts" (obj (fields_of (reroot paths.join "/run/osbuild/mounts" mounts))) (
              field "options" (obj stage.options) (
                field "meta"
                  (obj (field "id" (text (stage_id lib stage)) (epoch_field stage.source_epoch)))
                  end))))))

  abbrev pub epoch_env : Option ℤ → Map String
  epoch_env none = []
  epoch_env (some n) = ("SOURCE_DATE_EPOCH", paths.decimal n) ∷ []

  -- The directories that RunStage makes in its temporary directory.
  pub record Dirs : Type 0 where
    pub inputs_dir : String
    pub mounts_dir : String
    pub args_path : String

  abbrev pub dirs_in : String → Dirs
  dirs_in tmp_dir = record {
    inputs_dir = paths.join tmp_dir "inputs";
    mounts_dir = paths.join tmp_dir "mounts";
    args_path = paths.join (paths.join tmp_dir "api") "arguments";
  }

  -- runOpts
  unfoldable pub stage_options : Stage → String → String → Dirs → RunOptions
  stage_options stage tree_path meta_name dirs = record {
    binds =
        (tree_path <> (":" <> "/run/osbuild/tree"))
        ∷ (meta_name <> (":" <> "/run/osbuild/meta"))
        ∷ (dirs.mounts_dir <> (":" <> "/run/osbuild/mounts"))
        ∷ [];
    readonly_binds =
        (stage.exec_path <> (":" <> ("/run/osbuild/bin/" <> stage.type_name)))
        ∷ (dirs.inputs_dir <> (":" <> "/run/osbuild/inputs"))
        ∷ (dirs.args_path <> (":" <> "/run/osbuild/api/arguments"))
        ∷ [];
    extra_env = epoch_env stage.source_epoch;
  }

  module _ (sandbox_run : List String → RunOptions → RunResult × Bool)
      (reported : Option Fields) where
    -- From sb.Run on, with the arguments that were written.
    abbrev pub result_of : Stage → RunResult × Bool → Result StageError BuildResult
    result_of stage (r, failed) =
        if failed
        then err running
        else ok (record {
          stage = stage;
          return_code = r.return_code;
          output = r.output;
          error = reported;
        })

    abbrev pub run_with :
        Bool → Stage → String → String → Dirs → Fields → Fields × Result StageError BuildResult
    run_with write_fails stage tree_path meta_name dirs args =
        if write_fails then (end, err writing_arguments) else (
          args,
          result_of stage (
              sandbox_run (("/run/osbuild/bin/" <> stage.type_name) ∷ [])
                (stage_options stage tree_path meta_name dirs)),
        )

    abbrev pub unless_failed :
        Option CallFailure
        → Fields × Result StageError BuildResult
        → Fields × Result StageError BuildResult
    unless_failed none rest = rest
    unless_failed (some e) rest = (end, err (service_failed e))

    -- RunStage: the arguments that were written for the stage, and the result.
    unfoldable pub run_stage :
        Bool
        → Bool
        → Bool
        → Stage
        → String
        → String
        → String
        → String
        → String
        → Fields × Result StageError BuildResult
    unfolding gather_inputs gather_devices gather_mounts stage_args stage_options
    run_stage tmp_fails open_fails write_fails stage tree_path meta_name tmp_dir dev_path store =
        let dirs = dirs_in tmp_dir in
        let inputs = gather_inputs dirs.inputs_dir store stage in
        let devices =
          gather_devices (record { dev_path = dev_path; tree_path = tree_path; devices = [] })
            stage in
        let mounts = gather_mounts dirs.mounts_dir devices.manager stage in
        if tmp_fails
        then (end, err creating_tmpdir)
        else if open_fails
        then (end, err opening_sandbox)
        else unless_failed inputs.first_error (
            unless_failed devices.first_error (
              unless_failed mounts.first_error (
                run_with write_fails stage tree_path meta_name dirs
                  (stage_args stage devices.replies inputs.replies mounts.replies))))
