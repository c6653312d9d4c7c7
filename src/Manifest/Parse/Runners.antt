-- ===== src/Manifest/Parse/Runners.antt =====
-- fixupRunners: each pipeline runs with the runner of its build root.
pub mod Fixed
pub mod Stale
use image_assembler.Base.{
  String, Bool, true, false, Option, none, some, List, [], ◌∷◌, if◌then◌else◌, str_eq, set, Map,
  lookup, insert,
}
use image_assembler.Base.Result.{Result, ok, err, panic, ◌>>=◌, map_err}
use image_assembler.Manifest.Model.{Runner, Pipeline, Manifest, pipelines}
use image_assembler.Manifest.Ident.{Library, pipeline_id}
use image_assembler.Manifest.Parse.Defs.{ParseError, from_registry, RegistryApi}

module _ (lib : Library) where
  -- runners[id] = m.Pipelines[i].Runner, for the pipelines that have an ID
  unfoldable pub collect_runners : List Pipeline → Map Runner → Map Runner
  collect_runners [] runners = runners
  collect_runners (p ∷ ps) runners = collect_runners ps (
      if str_eq (pipeline_id lib p) ""
      then runners
      else insert (pipeline_id lib p) p.runner runners)

  abbrev or_own : Runner → Option Runner → Runner
  or_own own none = own
  or_own own (some r) = r

  unfoldable pub fixed_runner : Runner → Map Runner → Pipeline → Runner
  fixed_runner host runners p = elim p.build [
    | none ↦ host
    | some b ↦ or_own p.runner (lookup b runners)
  ]

  unfoldable pub fix_all : Runner → Map Runner → List Pipeline → List Pipeline
  unfolding fixed_runner
  fix_all host runners [] = []
  fix_all host runners (p ∷ ps) =
      record p { runner = fixed_runner host runners p } ∷ fix_all host runners ps

  -- The loops write to `m.Pipelines`, the current array.
  unfoldable pub fix_manifest : Runner → Manifest → Manifest
  unfolding collect_runners fix_all
  fix_manifest host m = record m {
    arrays = set m.arrays m.current (fix_all host (collect_runners (pipelines m) []) (pipelines m));
  }

  unfoldable pub fixup_runners : RegistryApi → Manifest → Result ParseError Manifest
  unfolding fix_manifest
  fixup_runners reg m = do
    path ← map_err from_registry reg.detect_host_runner
    ok (fix_manifest (record { name = ""; path = path }) m)
