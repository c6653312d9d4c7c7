-- ===== src/Tests/Sandboxes.antt =====
-- Sandboxes at concrete inputs.
use Prim.Native.String.{◌++◌ as ◌<>◌}
use image_assembler.Base.{String, true, false, some, List, [], ◌∷◌, ◌++◌, ◌≡◌, refl, str_eq}
use image_assembler.Sandbox.Caps.{build_cap_args}
use image_assembler.Sandbox.Caps.Granted.{granted, listed, build_cap_args-granted}
use image_assembler.Sandbox.Life.{
  CloseFaults, OpenFaults, open_sandbox, bind_devices, close, close_dev, close_tmp, remove_dir,
  unmount, stop_apis, mounted_at, remove_all,
}
use image_assembler.Sandbox.Life.Closed.{bare_host}
use image_assembler.Sandbox.Command.{Paths, Settings, Looks, RunOptions, all_mounts}
use image_assembler.Sandbox.Command.Writable.{
  writable, asked_binds, api_sockets, all_mounts-writable,
}

abbrev two_caps : List String
two_caps = "CAP_MKNOD" ∷ "CAP_CHOWN" ∷ []

build_cap_args-granted_example :
    granted "CAP_NET_RAW" true (build_cap_args (some two_caps)) ≡ listed "CAP_NET_RAW" two_caps
build_cap_args-granted_example = build_cap_args-granted "CAP_NET_RAW" true two_caps

-- The tmpfs stays mounted, and all else can be taken away.
abbrev stuck : CloseFaults
stuck = record { still_mounted = λ name. str_eq name ""; not_removed = λ d. false }

-- The fourth device cannot be bound.
abbrev failing : OpenFaults
failing = record {
  dev_dir = false;
  mount = false;
  bind = λ name. str_eq name "urandom";
  tmp_dir = false;
  api = λ a. false;
  closing = stuck;
}

-- The tmpfs is left with its directory.
open_sandbox_leaves :
    (open_sandbox failing "d" "t"
      (record { dev = ""; tmp_path = ""; apis = "osbuild" ∷ [] })
      bare_host).1
    ≡ record { dirs = "d" ∷ []; mounts = ("d", "") ∷ []; running = [] }
unfolding open_sandbox bind_devices close close_dev close_tmp remove_dir unmount stop_apis str_eq
    mounted_at remove_all
open_sandbox_leaves = refl

abbrev pub plain_paths : Paths
plain_paths = record {
  join = λ a b. a <> ("/" <> b);
  base_name = λ a. a;
  split_bind = λ b. some (b, "/run/osbuild/tree");
}

abbrev pub one_api : Settings
one_api = record {
  root_dir = "/";
  runner = "r";
  libdir = "lib";
  dev = "d";
  var_path = "t/var";
  proc_dir = "t/proc";
  apis = (record { endpoint = "osbuild"; socket_address = "sock" }) ∷ [];
  mount_boot = true;
  caps = some two_caps;
}

abbrev pub seen : Looks
seen = record {
  boot_is_dir = true;
  usr_is_dir = true;
  has_module = false;
  module_path = "m";
  term = "";
}

abbrev one_bind : RunOptions
one_bind = record { binds = "tree" ∷ []; readonly_binds = "in" ∷ []; extra_env = [] }

all_mounts-writable_example :
    writable (all_mounts plain_paths one_api seen one_bind)
    ≡ ("d", "/dev")
      ∷ ("t/var", "/var")
      ∷ (asked_binds plain_paths one_api seen ("tree" ∷ [])
          ++ api_sockets plain_paths one_api seen one_api.apis)
all_mounts-writable_example = all_mounts-writable plain_paths one_api seen one_bind
