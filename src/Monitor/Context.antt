-- ===== src/Monitor/Context.antt =====
-- monitor/context.go: the position in the build that a log entry names. A context that WithOrigin
-- makes shares the history of the one it came from, so that the history is passed on as a state of
-- its own.
use image_assembler.Base.{
  ℕ, suc, ◌+◌, String, Bool, true, false, not, ◌||◌, ◌&&◌, Option, none, some, List, [], ◌∷◌,
  contains, str_eq, Map, insert, ltb, leb, ◌*◌, ◌^◌, if◌then◌else◌,
}
use mathlib.Core.Option.{map as option_map}
use image_assembler.Base.Int.{ℤ, pos}
use image_assembler.Base.Int64.{add64}
use image_assembler.Value.{Value, text, obj, int, float, number, null, Fields, end, field}
pub mod Correlated

pub record Context : Type 0 where
  pub origin : String
  pub pipeline_name : String
  pub pipeline_id : String
  pub stage_name : String
  pub stage_id : String
  pub id_cache : String

-- NewContext
unfoldable pub new_context : String → Context
new_context origin = record {
  origin = origin;
  pipeline_name = "";
  pipeline_id = "";
  stage_name = "";
  stage_id = "";
  id_cache = "";
}

abbrev pub stage_dict : Context → Value
stage_dict c = obj (field "name" (text c.stage_name) (field "id" (text c.stage_id) end))

-- The map whose JSON text ID hashes.
unfoldable pub position : Context → Value
position c = obj (
    field "origin" (text c.origin) (
      field "pipeline"
        (obj (
          field "name" (text c.pipeline_name)
            (field "id" (text c.pipeline_id) (field "stage" (stage_dict c) end))))
        end))

-- Where AsDict has the stage: only if there is one.
abbrev pub dict_stage : Context → Fields
dict_stage c =
    if not (str_eq c.stage_name "") || not (str_eq c.stage_id "")
    then field "stage" (stage_dict c) end
    else end

unfoldable pub full_dict : String → Context → Value
full_dict id c = obj (
    field "id" (text id) (
      field "origin" (text c.origin) (
        field "pipeline"
          (obj
            (field "name" (text c.pipeline_name) (field "id" (text c.pipeline_id) (dict_stage c))))
          end)))

abbrev pub compact_dict : String → Value
compact_dict id = obj (field "id" (text id) end)

-- SetPipeline, which takes the position out of any stage and clears the cached ID.
unfoldable pub set_pipeline : String → String → Context → Context
set_pipeline name id c = record c {
  pipeline_name = name;
  pipeline_id = id;
  stage_name = "";
  stage_id = "";
  id_cache = "";
}

-- SetStage
unfoldable pub set_stage : String → String → Context → Context
set_stage name id c = record c { stage_name = name; stage_id = id; id_cache = "" }

-- WithOrigin
unfoldable pub with_origin : String → Context → Context
with_origin origin c =
    if str_eq origin "" || str_eq origin c.origin
    then c
    else record c { origin = origin; id_cache = "" }

-- The hash of the JSON text, in hexadecimal digits: encoding/json and crypto/sha256.
module _ (hash : Value → String) where
  -- ID: the context with the cache filled, and the ID.
  unfoldable pub id : Context → Context × String
  id c =
      if str_eq c.id_cache ""
      then (record c { id_cache = hash (position c) }, hash (position c))
      else (c, c.id_cache)

  -- AsDict, with the history of the IDs that were given in full.
  unfoldable pub as_dict : List String → Context → List String × Context × Value
  unfolding id full_dict
  as_dict history c =
      let named = id c in
      if contains history named.1
      then (history, named.0, compact_dict named.1)
      else (named.1 ∷ history, named.0, full_dict named.1 c)

-- A record of progress, and within it, if there is one, that of a part.
pub data Progress : Type 0 where
  flat : String → ℤ → ℤ → Progress
  nested : String → ℤ → ℤ → Progress → Progress

-- Incr
unfoldable pub incr : Progress → Progress
incr (flat name total done) = flat name total (add64 done (pos 1))
incr (nested name total done sub) = flat name total (add64 done (pos 1))

-- Progress.AsDict
unfoldable pub progress_dict : Progress → Value
progress_dict (flat name total done) =
    obj (field "name" (text name) (field "total" (int total) (field "done" (int done) end)))
progress_dict (nested name total done sub) = obj (
    field "name" (text name) (
      field "total" (int total)
        (field "done" (int done) (field "progress" (progress_dict sub) end))))

-- A map entry for what is there.
abbrev pub insert_some : String → Option Value → Map Value → Map Value
insert_some k none m = m
insert_some k (some v) m = insert k v m

abbrev pub insert_if : Bool → String → Value → Map Value → Map Value
insert_if true k v m = insert k v m
insert_if false k v m = m

-- x > 0 of a float64, by its bits: no sign, not zero, not a NaN.
unfoldable pub is_positive : ℕ → Bool
is_positive bits = ltb 0 bits && leb bits (2047 * 2 ^ 52)

module _ (hash : Value → String) where
  abbrev pub context_entry :
      List String → Option Context → Map Value → List String × Option Context × Map Value
  context_entry history none m = (history, none, m)
  context_entry history (some c) m =
      let shown = as_dict hash history c in (shown.0, some shown.1, insert "context" shown.2 m)

  -- LogEntry. The timestamp is an argument.
  unfoldable pub log_entry :
      ℕ
      → String
      → List String
      → Option Context
      → Option Progress
      → List String × Option Context × Map Value
  unfolding as_dict progress_dict
  log_entry now message history c progress =
      let named =
        context_entry history c (insert_if (not (str_eq message "")) "message" (text message) []) in
      (
        named.0,
        named.1,
        insert "timestamp" (float now)
            (insert_some "progress" (option_map progress_dict progress) named.2),
      )

  -- LogEntryWithResult
  unfoldable pub log_entry_with_result :
      ℕ
      → String
      → List String
      → Option Context
      → Option Progress
      → Option Value
      → ℕ
      → Option Value
      → Option Value
      → List String × Option Context × Map Value
  unfolding log_entry is_positive
  log_entry_with_result now message history c progress options duration result metadata =
      let entry = log_entry now message history c progress in
      let timed =
        insert_if (is_positive duration) "duration" (float duration)
          (insert_some "options" options entry.2) in
      (entry.0, entry.1, insert_some "metadata" metadata (insert_some "result" result timed))
