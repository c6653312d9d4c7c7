-- ===== src/Sandbox/Command.antt =====
-- sandbox/sandbox.go: the command line and the environment that Run makes, and its result. Joining and
-- taking paths apart, and splitting at a colon, are the Go library's and are parameters; what the file
-- system and the environment say is in `Looks`.
use Prim.Native.String.{◌++◌ as ◌<>◌}
use image_assembler.Base.{
  ℕ, String, Bool, true, false, ◌&&◌, not, Option, none, some, List, [], ◌∷◌, ◌++◌, Map,
  if◌then◌else◌, str_eq,
}
use image_assembler.Base.Int.{ℤ, pos}
use image_assembler.Base.Result.{Result, ok, err}
use image_assembler.Store.Evict.{equal_ℤ}
use image_assembler.Sandbox.Caps.{build_cap_args}
pub mod Writable

-- path/filepath and strings.
pub record Paths : Type 0 where
  pub join : String → String → String
  pub base_name : String → String
  pub split_bind : String → Option (String × String)

pub record Api : Type 0 where
  pub endpoint : String
  pub socket_address : String

-- The fields that Run reads.
pub record Settings : Type 0 where
  pub root_dir : String
  pub runner : String
  pub libdir : String
  pub dev : String
  pub var_path : String
  pub proc_dir : String
  pub apis : List Api
  pub mount_boot : Bool
  pub caps : Option (List String)

pub record RunOptions : Type 0 where
  pub binds : List String
  pub readonly_binds : List String
  pub extra_env : Map String

-- What Run sees: whether <root>/boot and <root>/usr are directories, whether the library has its own
-- copy of the module, where Python has it, and $TERM.
pub record Looks : Type 0 where
  pub boot_is_dir : Bool
  pub usr_is_dir : Bool
  pub has_module : Bool
  pub module_path : String
  pub term : String

-- The options of bubblewrap for the file system.
pub data MountOption : Type 0 where
  bind : String → String → MountOption
  ro_bind : String → String → MountOption
  ro_bind_try : String → String → MountOption
  dev_bind : String → String → MountOption
  symlink : String → String → MountOption
  tmpfs : String → MountOption
  make_dir : String → MountOption
  proc : String → MountOption

abbrev pub option_args : MountOption → List String
option_args (bind a b) = "--bind" ∷ a ∷ b ∷ []
option_args (ro_bind a b) = "--ro-bind" ∷ a ∷ b ∷ []
option_args (ro_bind_try a b) = "--ro-bind-try" ∷ a ∷ b ∷ []
option_args (dev_bind a b) = "--dev-bind" ∷ a ∷ b ∷ []
option_args (symlink a b) = "--symlink" ∷ a ∷ b ∷ []
option_args (tmpfs a) = "--tmpfs" ∷ a ∷ []
option_args (make_dir a) = "--dir" ∷ a ∷ []
option_args (proc a) = "--proc" ∷ a ∷ []

unfoldable pub mount_args : List MountOption → List String
mount_args [] = []
mount_args (o ∷ os) = option_args o ++ mount_args os

module _ (paths : Paths) (s : Settings) (looks : Looks) where
  open paths use {join, base_name, split_bind}

  abbrev pub when : Bool → MountOption → List MountOption
  when b o = if b then o ∷ [] else []

  -- Up to the binds that the caller asks for.
  unfoldable pub base_mounts : List MountOption
  base_mounts =
      when (s.mount_boot && looks.boot_is_dir) (ro_bind (join s.root_dir "boot") "/boot")
      ++ (when looks.usr_is_dir (ro_bind (join s.root_dir "usr") "/usr")
          ++ (symlink "usr/lib" "/lib"
              ∷ symlink "usr/lib64" "/lib64"
              ∷ symlink "usr/bin" "/bin"
              ∷ symlink "usr/sbin" "/sbin"
              ∷ dev_bind s.dev "/dev"
              ∷ tmpfs "/dev/shm"
              ∷ make_dir "/etc"
              ∷ tmpfs "/run"
              ∷ tmpfs "/tmp"
              ∷ bind s.var_path "/var"
              ∷ proc "/proc"
              ∷ ro_bind "/sys" "/sys"
              ∷ ro_bind_try "/sys/fs/selinux" "/sys/fs/selinux"
              ∷ ro_bind_try (join s.root_dir "etc/mke2fs.conf") "/etc/mke2fs.conf"
              ∷ ro_bind_try (join s.root_dir "etc/containers") "/etc/containers"
              ∷ ro_bind_try (join s.root_dir "ostree") "/ostree"
              ∷ ro_bind_try (join s.root_dir "etc/selinux") "/etc/selinux"
              ∷ ro_bind s.libdir "/run/osbuild/lib"
              ∷ (when (not looks.has_module && not (str_eq looks.module_path ""))
                    (ro_bind looks.module_path "/run/osbuild/lib/osbuild")
                  ++ (ro_bind (join s.proc_dir "cmdline") "/proc/cmdline" ∷ []))))

  -- parts := strings.SplitN(b, ":", 2); if len(parts) == 2 { ... }
  unfoldable pub bind_options : (String → String → MountOption) → List String → List MountOption
  bind_options kind [] = []
  bind_options kind (b ∷ bs) = elim (split_bind b) [
    | none ↦ bind_options kind bs
    | some (from, to) ↦ kind from to ∷ bind_options kind bs
  ]

  -- for _, a := range s.apis
  unfoldable pub api_binds : List Api → List MountOption
  api_binds [] = []
  api_binds (a ∷ later) =
      bind a.socket_address ("/run/osbuild/api/" <> a.endpoint) ∷ api_binds later

  abbrev pub runner_target : String
  runner_target = "/run/osbuild/runner/" <> base_name s.runner

  unfoldable pub all_mounts : RunOptions → List MountOption
  unfolding base_mounts bind_options api_binds
  all_mounts opts =
      base_mounts
      ++ (bind_options bind opts.binds
          ++ (bind_options ro_bind opts.readonly_binds
              ++ (make_dir "/run/osbuild/api"
                  ∷ (api_binds s.apis ++ (ro_bind s.runner runner_target ∷ [])))))

  -- The command of Run.
  unfoldable pub run_command : List String → RunOptions → List String
  unfolding build_cap_args all_mounts mount_args
  run_command argv opts =
      "bwrap"
      ∷ "--chdir"
      ∷ "/"
      ∷ "--die-with-parent"
      ∷ "--new-session"
      ∷ "--unshare-ipc"
      ∷ "--unshare-pid"
      ∷ "--unshare-net"
      ∷ (build_cap_args s.caps ++ (mount_args (all_mounts opts) ++ ("--" ∷ runner_target ∷ argv)))

  unfoldable pub env_entries : Map String → List String
  env_entries [] = []
  env_entries ((k, v) ∷ m) = (k <> ("=" <> v)) ∷ env_entries m

  -- proc.Env
  unfoldable pub run_env : RunOptions → List String
  unfolding env_entries
  run_env opts =
      "container=bwrap-osbuild"
      ∷ "LC_CTYPE=C.UTF-8"
      ∷ "PATH=/usr/sbin:/usr/bin"
      ∷ "PYTHONPATH=/run/osbuild/lib"
      ∷ "PYTHONUNBUFFERED=1"
      ∷ ("TERM=" <> (if str_eq looks.term "" then "dumb" else looks.term))
      ∷ env_entries opts.extra_env

pub record RunResult : Type 0 where
  pub return_code : ℤ
  pub output : String

abbrev pub exit_code_of : Option ℤ → ℤ
exit_code_of none = pos 0
exit_code_of (some n) = n

-- The end of Run, with what proc.Run returned: whether there was an error, and the exit code, if the
-- process got as far as to have a state. An error comes with the result.
unfoldable pub run_result : Bool → Option ℤ → String → RunResult × Bool
run_result failed code output =
    let exit_code = exit_code_of code in
    (record { return_code = exit_code; output = output }, failed && equal_ℤ exit_code (pos 0))
