-- ===== src/Build/Output/Failed.antt =====
-- build/output.go: which stage the report of a failed build names. formatFailure ranges over a map
-- and keeps the result that comes last, so that it is Go's order of the iteration that decides.
use mathlib.Core.List.Perm
use mathlib.Core.List.{Perm, perm_append_singleton, perm_comm, perm_middle}
use image_assembler.Base.{String, some, [], ◌∷◌, ◌++◌, ◌≡◌, refl, ap, Map}
use image_assembler.Manifest.Model.{or_nil}
use image_assembler.Build.Action.{World, PipelineResult}
use image_assembler.Build.Output.{last_result, last_stage, failure_of, format_failure, failure_in}

last_result-append_last :
    (m : Map PipelineResult) (id : String) (res : PipelineResult)
    → last_result (m ++ (id, res) ∷ []) ≡ some res
unfolding last_result
last_result-append_last [] id res = refl
last_result-append_last (e ∷ []) id res = refl
last_result-append_last (e ∷ e' ∷ m) id res = last_result-append_last (e' ∷ m) id res

-- Every result of a build can be the one that is reported as the failure: whatever entry the results
-- have, there is an order of the iteration over them, with that entry last, in which formatFailure
-- reports the last stage of that pipeline, whether or not it is the one that failed.
pub format_failure-any :
    (world : World) (before after : Map PipelineResult) (id : String) (res : PipelineResult)
    → Perm (before ++ (id, res) ∷ after) ((before ++ after) ++ (id, res) ∷ [])
      × (format_failure world ((before ++ after) ++ (id, res) ∷ [])
          ≡ failure_of world (last_stage (or_nil res.stages)))
unfolding format_failure
format_failure-any world before after id res = (
  Perm.trans (perm_middle before after)
      (perm_comm.0 (perm_append_singleton (id, res) (before ++ after))),
  ap (failure_in world) (last_result-append_last (before ++ after) id res),
)
