-- ===== src/Base/Atoi.antt =====
-- strconv.Atoi and strconv.ParseInt(_, 10, 64) over code points.
use Prim.Native.Char.{code}
use Prim.Native.Nat.{ℕ, ◌+◌, ◌-◌, ◌*◌, ◌^◌}
use Prim.Native.String.{String}
use mathlib.Core.Bool.{Bool, true, false, ◌&&◌}
use mathlib.Core.List.{List, [], ◌∷◌}
use mathlib.Core.Option.{Option, none, some}
use image_assembler.Base.Tests.{ltb, leb, ◌==◌, if◌then◌else◌}
use image_assembler.Base.Int.{ℤ, pos, negsuc}

-- A text as its code points.
abbrev pub codes : String → List ℕ
codes String.[] = []
codes (String.◌∷◌ c s) = code c ∷ codes s

unfoldable pub is_digit : ℕ → Bool
is_digit c = leb 48 c && leb c 57

-- The number that the digits continue from acc.
unfoldable pub decimal_onto : ℕ → List ℕ → Option ℕ
unfolding is_digit
decimal_onto acc [] = some acc
decimal_onto acc (c ∷ cs) =
    let rest = decimal_onto (acc * 10 + (c - 48)) cs in if is_digit c then rest else none

unfoldable pub decimal : List ℕ → Option ℕ
unfolding decimal_onto
decimal [] = none
decimal (c ∷ cs) = decimal_onto 0 (c ∷ cs)

-- A value that fits in an int64, and the error otherwise.
abbrev pub in_range : Bool → Option ℕ → Option ℤ
in_range negative none = none
in_range false (some n) = if ltb n (2 ^ 63) then some (pos n) else none
in_range true (some n) =
    if n == 0 then some (pos 0) else if leb n (2 ^ 63) then some (negsuc (n - 1)) else none

unfoldable pub parse_int : List ℕ → Option ℤ
unfolding decimal
parse_int [] = none
parse_int (c ∷ cs) =
    if c == b'-'
    then in_range true (decimal cs)
    else if c == b'+'
    then in_range false (decimal cs)
    else in_range false (decimal (c ∷ cs))

-- `==` of two texts.
abbrev pub same_text : List ℕ → List ℕ → Bool
same_text [] [] = true
same_text [] (d ∷ ds) = false
same_text (c ∷ cs) [] = false
same_text (c ∷ cs) (d ∷ ds) = let rest = same_text cs ds in c == d && rest
