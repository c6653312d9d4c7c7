-- ===== src/Manifest/Parse/Defs.antt =====
-- What the parser's parts share: its errors, what it asks the registry for, and its conversions.
use Prim.Native.String.{slice, len}
use text.Mathlib.Text.{starts_with}
use image_assembler.Base.{
  ℕ, ◌^◌, String, Bool, not, ◌||◌, ◌&&◌, Option, none, some, List, ltb, leb, if◌then◌else◌, insert,
}
use image_assembler.Base.Atoi.{codes, parse_int}
use image_assembler.Base.Int.{ℤ}
use image_assembler.Base.Result.{Result, ok, err}
use image_assembler.Value.{
  Value, number, int, int64, float, Fields, entries_of, fields_of, float_special, float_negative,
  float_magnitude, float_trunc,
}
use image_assembler.Manifest.Model.{Manifest, pipeline}
use image_assembler.Manifest.Ident.{Library, pipeline_id}

pub data ParseError : Type 0 where
  bad_version : String → ParseError
  missing_pipeline_name missing_stage_type missing_mount_type missing_mount_name : ParseError
  missing_device_type missing_input_type : String → ParseError
  from_registry : String → ParseError
  pipeline_not_found : String → ParseError
  parent_not_found source_not_found : String → String → ParseError
  device_cycle : List String → ParseError
  not_an_int : ParseError
  context_done : ParseError
  -- "pipeline x: ...", "stage x: ..." and so on
  within : String → String → ParseError → ParseError

pub record Module : Type 0 where
  pub path : String
  pub caps : List String

-- The registry's Module, DetectRunner (the path of the runner) and DetectHostRunner. An error is its text.
pub record RegistryApi : Type 0 where
  pub module_of : String → String → Result String Module
  pub detect_runner : String → Result String String
  pub detect_host_runner : Result String String

-- strings.HasPrefix(ref, "name:")
unfoldable pub is_name_ref : String → Bool
is_name_ref ref = starts_with ref "name:"

-- resolveRef: `ref[5:]` is the name.
unfoldable pub resolve_ref : Library → String → Manifest → Result ParseError String
resolve_ref lib ref m =
    let name = slice ref 5 (len ref) in
    elim (pipeline m name) [
      | none ↦ err (pipeline_not_found name)
      | some p ↦ ok (pipeline_id lib p)
    ]

-- m[k] = v
unfoldable pub put : String → Value → Fields → Fields
unfolding entries_of fields_of insert
put k v fs = fields_of (insert k v (entries_of fs))

abbrev int_or_error : Option ℤ → Result ParseError ℤ
int_or_error none = err not_an_int
int_or_error (some n) = ok n

-- toInt. Go leaves open what int() gives for a float64 that no int64 holds: `wide_float` says it.
unfoldable pub to_int : (ℕ → ℤ) → Value → Result ParseError ℤ
unfolding parse_int float_special float_negative float_magnitude float_trunc
to_int wide_float (number s) = int_or_error (parse_int (codes s))
to_int wide_float (float bits) =
    if float_special bits
      || ltb (2 ^ 63) (float_magnitude bits)
      || leb (2 ^ 63) (float_magnitude bits) && not (float_negative bits)
    then ok (wide_float bits)
    else ok (float_trunc bits)
to_int wide_float (int n) = ok n
to_int wide_float (int64 n) = ok n
to_int wide_float _ = err not_an_int
