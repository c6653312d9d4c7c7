-- ===== src/Build/Stage/Confined.antt =====
-- build/stage.go: what RunStage lets a stage write to, and what capabilities it gives it.
use Prim.Native.String.{◌++◌ as ◌<>◌}
use mathlib.Core.Path.{ap₂}
use image_assembler.Base.{
  String, Bool, true, false, ◌||◌, some, List, [], ◌∷◌, ◌++◌, ◌≡◌, refl, subst, ◌∙◌, if◌then◌else◌,
  str_eq, contains, contains-append, str_eq_iff, arith,
}
use image_assembler.Manifest.Model.{Stage}
use image_assembler.Manifest.Ident.{Library}
use image_assembler.Sandbox.Caps.{build_cap_args}
use image_assembler.Sandbox.Caps.Granted.{granted, build_cap_args-granted}
use image_assembler.Sandbox.Command
use image_assembler.Sandbox.Command.{Settings, Looks, all_mounts}
use image_assembler.Sandbox.Command.Writable.{writable, api_sockets, all_mounts-writable}
use image_assembler.Build.Managers.{Services, Paths}
use image_assembler.Build.Stage.{Dirs, stage_options, stage_caps, add_caps, default_caps}

-- A stage that RunStage runs can write to nothing of the host but the sandbox's own devices and /var,
-- the tree of its pipeline, its file of metadata, the directory of its mounts, and the sockets of the
-- APIs, if none of these paths is cut elsewhere than at the colon that RunStage puts behind it.
pub stage_options-writable :
    (lib : Library) (services : Services) (paths : Paths) (sandbox_paths : Command.Paths)
    (settings : Settings) (looks : Looks) (stage : Stage) (tree_path meta_name : String)
    (dirs : Dirs lib services paths)
    → sandbox_paths.split_bind (tree_path <> (":" <> "/run/osbuild/tree"))
      ≡ some (tree_path, "/run/osbuild/tree")
    → sandbox_paths.split_bind (meta_name <> (":" <> "/run/osbuild/meta"))
      ≡ some (meta_name, "/run/osbuild/meta")
    → sandbox_paths.split_bind (dirs.mounts_dir <> (":" <> "/run/osbuild/mounts"))
      ≡ some (dirs.mounts_dir, "/run/osbuild/mounts")
    → writable (
        all_mounts sandbox_paths settings looks
          (stage_options lib services paths stage tree_path meta_name dirs))
      ≡ (settings.dev, "/dev")
        ∷ (settings.var_path, "/var")
        ∷ (tree_path, "/run/osbuild/tree")
        ∷ (meta_name, "/run/osbuild/meta")
        ∷ (dirs.mounts_dir, "/run/osbuild/mounts")
        ∷ api_sockets sandbox_paths settings looks settings.apis
unfolding stage_options
stage_options-writable lib services paths sandbox_paths settings looks stage tree_path meta_name
      dirs cut_tree cut_meta cut_mounts =
    all_mounts-writable sandbox_paths settings looks
      (stage_options lib services paths stage tree_path meta_name dirs)
    ∙ rw cut_tree (rw cut_meta (rw cut_mounts refl))

contains-add_caps :
    (cap : String) (cs caps : List String)
    → contains (add_caps cs caps) cap ≡ (contains caps cap || contains cs cap)
unfolding contains add_caps
contains-add_caps cap [] caps = ground arith
contains-add_caps cap (c ∷ cs) caps =
    contains-add_caps cap cs (if contains caps c then caps else caps ++ c ∷ [])
    ∙ by_test (contains caps c) refl
  where
    same_cap : str_eq c cap ≡ true → contains caps c ≡ true → contains caps cap ≡ true
    same_cap same there = subst (λ x. contains caps x ≡ true) ((str_eq_iff c cap).0 same) there

    by_test :
        (b : Bool)
        → contains caps c ≡ b
        → (contains (if b then caps else caps ++ c ∷ []) cap || contains cs cap)
          ≡ (contains caps cap || (str_eq c cap || contains cs cap))
    by_test true there = ground (arith, same_cap, there)
    by_test false gone = ground (arith, contains-append caps (c ∷ []) cap)

-- A stage is granted exactly the default capabilities and its own, whatever is held before, where ALL
-- among them stands for every one.
pub stage_caps-granted :
    (cap : String) (held : Bool) (stage : Stage)
    → granted cap held (build_cap_args (some (stage_caps stage))) ≡ (
        (contains default_caps cap || contains stage.caps cap)
        || (contains default_caps "ALL" || contains stage.caps "ALL"))
unfolding stage_caps
stage_caps-granted cap held stage =
    build_cap_args-granted cap held (add_caps stage.caps default_caps)
    ∙ ap₂ ◌||◌ (contains-add_caps cap stage.caps default_caps)
        (contains-add_caps "ALL" stage.caps default_caps)
