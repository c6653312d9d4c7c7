-- ===== src/Value.antt =====
-- The dynamic values that the program passes as `interface{}`: what encoding/json decodes (with
-- `UseNumber`, a number stays its text), and the integers and floats that the program makes itself.
-- A float64 is its IEEE 754 bit pattern.
use image_assembler.Base.{
  ℕ, ◌+◌, ◌-◌, ◌*◌, ◌/◌, ◌%◌, ◌^◌, String, Bool, true, false, ◌&&◌, Option, none, some, List, [],
  ◌∷◌, ltb, leb, ◌==◌, if◌then◌else◌, Map, lookup,
}
use image_assembler.Base.Int.{ℤ, pos, negsuc}

mutual
  pub data Value : Type 0 where
    null : Value
    bool : Bool → Value
    number : String → Value
    int : ℤ → Value
    int64 : ℤ → Value
    float : ℕ → Value
    text : String → Value
    arr : Items → Value
    obj : Fields → Value

  pub data Fields : Type 0 where
    end : Fields
    field : String → Value → Fields → Fields

  pub data Items : Type 0 where
    nil : Items
    cons : Value → Items → Items

abbrev pub items_of : Items → List Value
items_of nil = []
items_of (cons v vs) = v ∷ items_of vs

-- The entries of a map[string]interface{}, in the order of one iteration.
unfoldable pub entries_of : Fields → Map Value
entries_of end = []
entries_of (field k v fs) = (k, v) ∷ entries_of fs

unfoldable pub fields_of : Map Value → Fields
fields_of [] = end
fields_of ((k, v) ∷ m) = field k v (fields_of m)

-- `desc[key]`, with `none` for a missing key.
unfoldable pub at : String → Fields → Option Value
unfolding entries_of lookup
at key fs = lookup key (entries_of fs)

-- `v, ok := x.(string)`, where `x` may be missing.
abbrev pub as_text : Option Value → Option String
as_text (some (text s)) = some s
as_text _ = none

-- `v, _ := x.(string)`
abbrev pub text_or_empty : Option Value → String
text_or_empty (some (text s)) = s
text_or_empty _ = ""

-- `v, ok := x.(map[string]interface{})`
abbrev pub as_obj : Option Value → Option Fields
as_obj (some (obj fs)) = some fs
as_obj _ = none

-- `v, _ := x.(map[string]interface{}); if v == nil { v = make(...) }`
abbrev pub obj_or_empty : Option Value → Fields
obj_or_empty (some (obj fs)) = fs
obj_or_empty _ = end

-- `v, ok := x.([]interface{})`
abbrev pub as_arr : Option Value → Option (List Value)
as_arr (some (arr vs)) = some (items_of vs)
as_arr _ = none

-- The parts of a float64.
unfoldable pub float_negative : ℕ → Bool
float_negative bits = (bits / 2 ^ 63) % 2 == 1

unfoldable pub float_exponent : ℕ → ℕ
float_exponent bits = (bits / 2 ^ 52) % 2048

unfoldable pub float_fraction : ℕ → ℕ
float_fraction bits = bits % 2 ^ 52

-- IsInf || IsNaN
unfoldable pub float_special : ℕ → Bool
unfolding float_exponent
float_special bits = float_exponent bits == 2047

-- |Trunc(x)| of a finite x.
unfoldable pub float_magnitude : ℕ → ℕ
unfolding float_exponent float_fraction
float_magnitude bits =
    let e = float_exponent bits in
    let m = 2 ^ 52 + float_fraction bits in
    if ltb e 1023 then 0 else if leb 1075 e then m * 2 ^ (e - 1075) else m / 2 ^ (1075 - e)

-- x == Trunc(x), for a finite x.
unfoldable pub float_integral : ℕ → Bool
unfolding float_exponent float_fraction
float_integral bits =
    let e = float_exponent bits in
    let m = 2 ^ 52 + float_fraction bits in
    if e == 0
    then float_fraction bits == 0
    else if ltb e 1023
    then false
    else if leb 1075 e
    then true
    else m % 2 ^ (1075 - e) == 0

-- The integer of a sign and a magnitude.
unfoldable pub signed : Bool → ℕ → ℤ
signed negative n = if negative && ltb 0 n then negsuc (n - 1) else pos n

-- Trunc(x) as an integer.
unfoldable pub float_trunc : ℕ → ℤ
unfolding float_negative float_magnitude signed
float_trunc bits = signed (float_negative bits) (float_magnitude bits)
