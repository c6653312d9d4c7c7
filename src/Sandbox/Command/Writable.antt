-- ===== src/Sandbox/Command/Writable.antt =====
-- sandbox/sandbox.go: what a stage can write to outside of its own memory.
use mathlib.Core.Path.{ap₂}
use mathlib.Core.List.{append-nil}
use Prim.Native.String.{◌++◌ as ◌<>◌}
use image_assembler.Base.{
  String, Bool, true, false, ◌&&◌, not, Option, none, some, List, [], ◌∷◌, ◌++◌, ◌≡◌, refl, ap, ◌∙◌,
  str_eq,
}
use image_assembler.Sandbox.Command.{
  Paths, Api, Settings, RunOptions, Looks, MountOption, bind, ro_bind, ro_bind_try, dev_bind,
  symlink, tmpfs, make_dir, proc, base_mounts, bind_options, api_binds, all_mounts, runner_target,
  when,
}

-- The directories and files of the host that the options make writable, and where.
unfoldable pub writable : List MountOption → List (String × String)
writable [] = []
writable (bind a b ∷ os) = (a, b) ∷ writable os
writable (ro_bind a b ∷ os) = writable os
writable (ro_bind_try a b ∷ os) = writable os
writable (dev_bind a b ∷ os) = (a, b) ∷ writable os
writable (symlink a b ∷ os) = writable os
writable (tmpfs a ∷ os) = writable os
writable (make_dir a ∷ os) = writable os
writable (proc a ∷ os) = writable os

writable-append : (os ps : List MountOption) → writable (os ++ ps) ≡ writable os ++ writable ps
unfolding writable
writable-append [] ps = refl
writable-append (bind a b ∷ os) ps = ap (λ x. (a, b) ∷ x) (writable-append os ps)
writable-append (ro_bind a b ∷ os) ps = writable-append os ps
writable-append (ro_bind_try a b ∷ os) ps = writable-append os ps
writable-append (dev_bind a b ∷ os) ps = ap (λ x. (a, b) ∷ x) (writable-append os ps)
writable-append (symlink a b ∷ os) ps = writable-append os ps
writable-append (tmpfs a ∷ os) ps = writable-append os ps
writable-append (make_dir a ∷ os) ps = writable-append os ps
writable-append (proc a ∷ os) ps = writable-append os ps

module _ (paths : Paths) (s : Settings) (looks : Looks) where
  -- The binds that the caller asks for.
  abbrev pub asked_binds : List String → List (String × String)
  asked_binds [] = []
  asked_binds (b ∷ bs) = elim (paths.split_bind b) [
    | none ↦ asked_binds bs
    | some p ↦ p ∷ asked_binds bs
  ]

  abbrev pub api_sockets : List Api → List (String × String)
  api_sockets [] = []
  api_sockets (a ∷ later) =
      (a.socket_address, "/run/osbuild/api/" <> a.endpoint) ∷ api_sockets later

  writable-base : writable (base_mounts paths s looks) ≡ (s.dev, "/dev") ∷ (s.var_path, "/var") ∷ []
  unfolding writable base_mounts
  writable-base =
      by_looks (s.mount_boot && looks.boot_is_dir) looks.usr_is_dir
        (not looks.has_module && not (str_eq looks.module_path ""))
    where
      fixed : List MountOption → List MountOption
      fixed rest =
          symlink "usr/lib" "/lib"
          ∷ symlink "usr/lib64" "/lib64"
          ∷ symlink "usr/bin" "/bin"
          ∷ symlink "usr/sbin" "/sbin"
          ∷ dev_bind s.dev "/dev"
          ∷ tmpfs "/dev/shm"
          ∷ make_dir "/etc"
          ∷ tmpfs "/run"
          ∷ tmpfs "/tmp"
          ∷ bind s.var_path "/var"
          ∷ proc "/proc"
          ∷ ro_bind "/sys" "/sys"
          ∷ ro_bind_try "/sys/fs/selinux" "/sys/fs/selinux"
          ∷ ro_bind_try (paths.join s.root_dir "etc/mke2fs.conf") "/etc/mke2fs.conf"
          ∷ ro_bind_try (paths.join s.root_dir "etc/containers") "/etc/containers"
          ∷ ro_bind_try (paths.join s.root_dir "ostree") "/ostree"
          ∷ ro_bind_try (paths.join s.root_dir "etc/selinux") "/etc/selinux"
          ∷ ro_bind s.libdir "/run/osbuild/lib"
          ∷ rest

      cmdline : List MountOption
      cmdline = ro_bind (paths.join s.proc_dir "cmdline") "/proc/cmdline" ∷ []

      boot : Bool → List MountOption
      boot a = when paths s looks a (ro_bind (paths.join s.root_dir "boot") "/boot")

      usr : Bool → List MountOption
      usr b = when paths s looks b (ro_bind (paths.join s.root_dir "usr") "/usr")

      own_module : Bool → List MountOption
      own_module c = when paths s looks c (ro_bind looks.module_path "/run/osbuild/lib/osbuild")

      by_looks :
          (a b c : Bool)
          → writable (boot a ++ (usr b ++ fixed (own_module c ++ cmdline)))
            ≡ (s.dev, "/dev") ∷ (s.var_path, "/var") ∷ []
      by_looks true true true = refl
      by_looks true true false = refl
      by_looks true false true = refl
      by_looks true false false = refl
      by_looks false true true = refl
      by_looks false true false = refl
      by_looks false false true = refl
      by_looks false false false = refl

  writable-binds :
      (bs : List String) → writable (bind_options paths s looks bind bs) ≡ asked_binds bs
  unfolding writable bind_options
  writable-binds [] = refl
  writable-binds (b ∷ bs) = by_split (paths.split_bind b) (writable-binds bs)
    where
      by_split :
          (x : Option (String × String))
          → writable (bind_options paths s looks bind bs) ≡ asked_binds bs
          → writable (elim x as (λ y. List MountOption) [
            | none ↦ bind_options paths s looks bind bs
            | some (from, to) ↦ bind from to ∷ bind_options paths s looks bind bs
          ])
            ≡ (elim x as (λ y. List (String × String)) [
              | none ↦ asked_binds bs
              | some p ↦ p ∷ asked_binds bs
            ])
      by_split none ih = ih
      by_split (some (from, to)) ih = ap (λ l. (from, to) ∷ l) ih

  writable-readonly : (bs : List String) → writable (bind_options paths s looks ro_bind bs) ≡ []
  unfolding writable bind_options
  writable-readonly [] = refl
  writable-readonly (b ∷ bs) = by_split (paths.split_bind b) (writable-readonly bs)
    where
      by_split :
          (x : Option (String × String))
          → writable (bind_options paths s looks ro_bind bs) ≡ []
          → writable (elim x as (λ y. List MountOption) [
            | none ↦ bind_options paths s looks ro_bind bs
            | some (from, to) ↦ ro_bind from to ∷ bind_options paths s looks ro_bind bs
          ])
            ≡ []
      by_split none ih = ih
      by_split (some (from, to)) ih = ih

  writable-apis : (apis : List Api) → writable (api_binds paths s looks apis) ≡ api_sockets apis
  unfolding writable api_binds
  writable-apis [] = refl
  writable-apis (a ∷ later) =
      ap (λ l. (a.socket_address, "/run/osbuild/api/" <> a.endpoint) ∷ l) (writable-apis later)

  -- Whatever is there on the host, a stage can write to nothing of it but the sandbox's own devices
  -- and /var, the binds that the caller asks for, and the sockets of the registered APIs, each in its
  -- place: all else that is mounted is read-only or in memory.
  pub all_mounts-writable :
      (opts : RunOptions)
      → writable (all_mounts paths s looks opts)
        ≡ (s.dev, "/dev") ∷ (s.var_path, "/var") ∷ (asked_binds opts.binds ++ api_sockets s.apis)
  unfolding all_mounts writable
  all_mounts-writable opts =
      writable-append (base_mounts paths s looks) _
      ∙ ap₂ ◌++◌ writable-base (
          writable-append (bind_options paths s looks bind opts.binds) _
          ∙ ap₂ ◌++◌ (writable-binds opts.binds) (
              writable-append (bind_options paths s looks ro_bind opts.readonly_binds) _
              ∙ ap₂ ◌++◌ (writable-readonly opts.readonly_binds) (
                  writable-append (api_binds paths s looks s.apis)
                    (ro_bind s.runner (runner_target paths s looks) ∷ [])
                  ∙ ap₂ ◌++◌ (writable-apis s.apis) refl
                  ∙ append-nil (api_sockets s.apis))))
