-- ===== src/Manifest/Parse/Devices.antt =====
-- sortDevices: parents before their children.
pub mod Sound
pub mod Complete
use image_assembler.Base.{
  ℕ, zero, suc, String, Bool, true, false, Option, none, some, List, [], ◌∷◌, ◌++◌, ◌==◌,
  if◌then◌else◌, contains, length,
}
use image_assembler.Base.Result.{Result, ok, err, panic}
use image_assembler.Value.{Value, Fields, end, field, at, as_obj, as_text}
use image_assembler.Manifest.Parse.Defs.{ParseError, device_cycle}

unfoldable pub field_keys : Fields → List String
field_keys end = []
field_keys (field k _ fs) = k ∷ field_keys fs

-- Is the device put into the result? Yes if its description is no object, if it has no parent, or if
-- its parent is there.
abbrev parent_ready : List String → Option String → Bool
parent_ready result none = true
parent_ready result (some parent) = contains result parent

abbrev desc_ready : List String → Option Fields → Bool
desc_ready result none = true
desc_ready result (some dd) = parent_ready result (as_text (at "parent" dd))

unfoldable pub ready : Fields → List String → String → Bool
unfolding at contains
ready devices result name = desc_ready result (as_obj (at name devices))

-- One pass over `todo`: the result, and what is left. The source keeps what is left in the array of
-- `todo` itself, at places that the pass has read already.
unfoldable pub pass : Fields → List String → List String → List String → List String × List String
unfolding ready
pass devices [] result next = (result, next)
pass devices (name ∷ todo) result next =
    pass devices todo (if ready devices result name then result ++ name ∷ [] else result)
      (if ready devices result name then next else next ++ name ∷ [])

-- The outer loop; `none` is running out of fuel.
unfoldable pub sort_loop :
    Fields → ℕ → List String → List String → Option (Result ParseError (List String))
unfolding pass
sort_loop devices fuel [] result = some (ok result)
sort_loop devices zero (name ∷ todo) result = none
sort_loop devices (suc fuel) (name ∷ todo) result =
    let (result', next) = pass devices (name ∷ todo) result [] in
    let rest = sort_loop devices fuel next result' in
    if length next == length (name ∷ todo) then some (err (device_cycle next)) else rest

-- Running out of fuel would read as a panic here: `sort_loop_total` shows that it never happens.
abbrev pub settle : Option (Result ParseError (List String)) → Result ParseError (List String)
settle none = panic
settle (some r) = r

-- Each round takes one name at least out of `todo`, so that many rounds are enough.
unfoldable pub sort_devices : Fields → Result ParseError (List String)
unfolding sort_loop field_keys
sort_devices devices =
    settle (sort_loop devices (length (field_keys devices)) (field_keys devices) [])
