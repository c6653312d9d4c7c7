-- ===== src/Build/Output.antt =====
-- build/output.go and build/export.go: what is reported of a build, and what is copied out of the
-- store. Metadata.Get, which decodes a file of the store, and the copy that Export makes are
-- parameters; an error of Metadata.Get reads as no metadata, as the source has it.
use image_assembler.Base.{
  ℕ, suc, String, Bool, true, false, not, Option, none, some, List, [], ◌∷◌, Map, lookup, insert,
  if◌then◌else◌, get_elem?,
}
use image_assembler.Base.Int.{ℤ}
use image_assembler.Base.Result.{Result, ok, err, panic}
use image_assembler.Value.{
  Value, null, bool, text, arr, obj, Items, nil, cons, Fields, end, field, fields_of,
}
use image_assembler.Manifest.Model.{Stage, Pipeline, Manifest, pipelines, or_nil}
use image_assembler.Manifest.Ident.{stage_id, pipeline_id}
use image_assembler.Store.Model.{Place, Object, Store, Error}
use image_assembler.Store.Cache.{get}
use image_assembler.Build.Action.{World, BuildResult, PipelineResult}
use image_assembler.Build.Pipeline.{succeeded}
use image_assembler.Build.All.{Results, find_pipeline}
pub mod Failed

-- A nil map in an interface marshals to null.
abbrev pub obj_pointer : Option Fields → Value
obj_pointer none = null
obj_pointer (some fs) = obj fs

abbrev pub plain_failure : Fields
plain_failure = field "type" (text "error") (field "success" (bool false) end)

-- lastRes after the range over the results, which are listed in the order of the iteration.
unfoldable pub last_result : Map PipelineResult → Option PipelineResult
last_result [] = none
last_result ((id, res) ∷ []) = some res
last_result ((id, res) ∷ entry ∷ rest) = last_result (entry ∷ rest)

-- stages[len(stages)-1]
unfoldable pub last_stage : List BuildResult → Option BuildResult
last_stage [] = none
last_stage (r ∷ []) = some r
last_stage (r ∷ r' ∷ rs) = last_stage (r' ∷ rs)

module _ (world : World) where
  open world use {lib, faults, now}

  abbrev pub stage_failure : BuildResult → Fields
  stage_failure r = field "type" (text "error") (
      field "success" (bool false) (
        field "error"
          (obj (
            field "type" (text "org.osbuild.error.stage") (
              field "details"
                (obj (
                  field "stage"
                    (obj (
                      field "id" (text (stage_id lib r.stage)) (
                        field "type" (text r.stage.type_name) (
                          field "output" (text r.output)
                            (field "error" (obj_pointer r.error) end)))))
                    end))
                end)))
          end))

  abbrev pub failure_of : Option BuildResult → Fields
  failure_of none = plain_failure
  failure_of (some r) = stage_failure r

  abbrev pub failure_in : Option PipelineResult → Fields
  failure_in none = plain_failure
  failure_in (some res) = failure_of (last_stage (or_nil res.stages))

  -- formatFailure
  unfoldable pub format_failure : Map PipelineResult → Fields
  unfolding last_result last_stage
  format_failure results = failure_in (last_result results)

  -- if !sr.Success() { ... }
  abbrev pub failure_fields : BuildResult → Fields
  failure_fields r =
      if succeeded r
      then end
      else field "success" (bool false)
          (elim r.error [ none ↦ end | some e ↦ field "error" (obj e) end ])

  abbrev pub log_entry_of : BuildResult → Value
  log_entry_of r = obj (
      field "id" (text (stage_id lib r.stage))
        (field "type" (text r.stage.type_name) (field "output" (text r.output) (failure_fields r))))

  unfoldable pub log_entries : List BuildResult → Items
  log_entries [] = nil
  log_entries (r ∷ rs) = cons (log_entry_of r) (log_entries rs)

  -- pipeRes, _ := results[p.ID()]; log[p.Name] = entries
  abbrev pub log_stages : Pipeline → List BuildResult → Map Value → Map Value
  log_stages p [] log = log
  log_stages p (r ∷ rs) log = insert p.name (arr (log_entries (r ∷ rs))) log

  unfoldable pub log_pipeline : Map PipelineResult → Pipeline → Map Value → Map Value
  unfolding log_entries
  log_pipeline results p log = elim (lookup (pipeline_id lib p) results) [
    | none ↦ log
    | some res ↦ log_stages p (or_nil res.stages) log
  ]

  -- `read_metadata` reads the file of a stage's ID in the directory of an object's metadata.
  module _ (read_metadata : Place → String → Option Fields) where
    -- for j := range p.Stages
    unfoldable pub stage_metadata : Object → List Stage → Map Value → Map Value
    stage_metadata o [] found = found
    stage_metadata o (st ∷ sts) found = elim (read_metadata o.meta_path (stage_id lib st)) [
      | none ↦ stage_metadata o sts found
      | some md ↦ stage_metadata o sts (insert st.type_name (obj md) found)
    ]

    -- if len(data) > 0 { metadata[p.Name] = data }
    abbrev pub keep_metadata : Pipeline → Map Value → Map Value → Map Value
    keep_metadata p [] metadata = metadata
    keep_metadata p (entry ∷ found) metadata =
        insert p.name (obj (fields_of (entry ∷ found))) metadata

    abbrev pub metadata_of : Pipeline → Option Object → Map Value → Map Value
    metadata_of p none metadata = metadata
    metadata_of p (some o) metadata = keep_metadata p (stage_metadata o p.stages []) metadata

    -- err == nil && obj != nil
    abbrev pub object_of : Store × Result {0, 0} Error (Option ℕ) → Option Object
    object_of (s, ok (some q)) = get_elem? s.heap q
    object_of (s, ok none) = none
    object_of (s, err e) = none
    object_of (s, panic) = none

    -- The loop over the pipelines, with the tick of its first call of the store.
    unfoldable pub format_pipelines :
        ℕ
        → Map PipelineResult
        → List Pipeline
        → Store
        → Map Value
        → Map Value
        → Store × Map Value × Map Value
    unfolding get log_pipeline stage_metadata
    format_pipelines tick results [] s metadata log = (s, metadata, log)
    format_pipelines tick results (p ∷ ps) s metadata log =
        let r = get (faults tick) (now tick) (pipeline_id lib p) s in
        format_pipelines (suc tick) results ps r.0 (metadata_of p (object_of r) metadata)
          (log_pipeline results p log)

    -- if len(m) > 0 { result[key] = m }
    abbrev pub unless_empty : String → Map Value → Fields → Fields
    unless_empty key [] rest = rest
    unless_empty key (entry ∷ m) rest = field key (obj (fields_of (entry ∷ m))) rest

    abbrev pub success_of : Store × Map Value × Map Value → Store × Fields
    success_of r = (
      r.0,
      field "type" (text "result")
          (field "success" (bool true) (unless_empty "metadata" r.1 (unless_empty "log" r.2 end))),
    )

    -- formatSuccess
    unfoldable pub format_success : ℕ → Manifest → Map PipelineResult → Store → Store × Fields
    unfolding format_pipelines
    format_success tick m results s =
        success_of (format_pipelines tick results (pipelines m) s [] [])

    -- FormatResult
    unfoldable pub format_result : ℕ → Manifest → Results → Store → Store × Fields
    unfolding format_success format_failure
    format_result tick m results s =
        if results.success
        then format_success tick m results.results s
        else (s, format_failure results.results)
