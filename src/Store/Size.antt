-- ===== src/Store/Size.antt =====
-- store/size.go: ParseSize, over the code points of the text, and calculateSpace over the blocks
-- that lstat gives for a tree.
use image_assembler.Base.{
  ℕ, zero, suc, ◌+◌, ◌-◌, ◌*◌, String, Bool, true, false, ◌&&◌, ◌||◌, Option, none, some, List, [],
  ◌∷◌, ltb, leb, ◌==◌, if◌then◌else◌,
}
use image_assembler.Base.Int.{ℤ, pos, negsuc}
use image_assembler.Base.Int64.{mul64, add64}
use image_assembler.Base.Atoi.{codes, is_digit, parse_int, same_text}
pub mod Exact
pub mod Bounds

-- \s of the regexp package.
unfoldable pub is_blank : ℕ → Bool
is_blank c = c == 9 || c == 10 || c == 12 || c == 13 || c == 32

-- White space as strings.TrimSpace has it.
unfoldable pub is_space : ℕ → Bool
is_space c =
    (leb 9 c && leb c 13)
    || c == 32
    || c == 133
    || c == 160
    || c == 5760
    || (leb 8192 c && leb c 8202)
    || c == 8232
    || c == 8233
    || c == 8239
    || c == 8287
    || c == 12288

unfoldable pub trim_left : List ℕ → List ℕ
trim_left [] = []
trim_left (c ∷ cs) = let rest = trim_left cs in if is_space c then rest else c ∷ cs

-- A text's end: nothing, if it is blank.
abbrev pub end_with : Bool → ℕ → List ℕ → List ℕ
end_with true c [] = []
end_with false c [] = c ∷ []
end_with space c (d ∷ ds) = c ∷ d ∷ ds

unfoldable pub trim_right : List ℕ → List ℕ
trim_right [] = []
trim_right (c ∷ cs) = end_with (is_space c) c (trim_right cs)

-- \s*, as many blanks as there are. No pattern goes on with a blank.
unfoldable pub skip_blanks : List ℕ → List ℕ
skip_blanks [] = []
skip_blanks (c ∷ cs) = let rest = skip_blanks cs in if is_blank c then rest else c ∷ cs

abbrev pub onto_first : ℕ → List ℕ × List ℕ → List ℕ × List ℕ
onto_first c (ds, rest) = (c ∷ ds, rest)

-- (\d+), the longest run of digits, and what follows. No pattern goes on with a digit.
unfoldable pub digits : List ℕ → List ℕ × List ℕ
digits [] = ([], [])
digits (c ∷ cs) = let more = onto_first c (digits cs) in if is_digit c then more else ([], c ∷ cs)

pub record Pattern : Type 0 where
  pub suffix : List ℕ
  pub base : ℕ
  pub power : ℕ

abbrev pub pattern_of : String → ℕ → ℕ → Pattern
pattern_of s b p = record { suffix = codes s; base = b; power = p }

abbrev pub size_patterns : List Pattern
size_patterns =
    pattern_of "kB" 1000 1
    ∷ pattern_of "KiB" 1024 1
    ∷ pattern_of "MB" 1000 2
    ∷ pattern_of "MiB" 1024 2
    ∷ pattern_of "GB" 1000 3
    ∷ pattern_of "GiB" 1024 3
    ∷ pattern_of "TB" 1000 4
    ∷ pattern_of "TiB" 1024 4
    ∷ pattern_of "" 1 1
    ∷ []

abbrev pub submatch : Pattern → List ℕ × List ℕ → Option (List ℕ)
submatch p ([], rest) = none
submatch p (d ∷ ds, rest) = if same_text (skip_blanks rest) p.suffix then some (d ∷ ds) else none

-- p.re.FindStringSubmatch(s): the digits, if the pattern matches.
unfoldable pub find_submatch : List ℕ → Pattern → Option (List ℕ)
unfolding digits skip_blanks
find_submatch s p = submatch p (digits (skip_blanks s))

-- for i := 0; i < p.power; i++ { result *= p.base }
unfoldable pub scale : ℕ → ℕ → ℤ → ℤ
scale base zero result = result
scale base (suc power) result = scale base power (mul64 result (pos base))

abbrev pub scaled : Pattern → Option ℤ → Option ℤ
scaled p none = none
scaled p (some n) = some (scale p.base p.power n)

-- for _, p := range sizePatterns
unfoldable pub try_patterns : List Pattern → List ℕ → Option ℤ
try_patterns [] s = none
try_patterns (p ∷ ps) s =
    let rest = try_patterns ps s in
    elim (find_submatch s p) [ none ↦ rest | some ds ↦ scaled p (parse_int ds) ]

-- ParseSize; the error carries no more than the text.
unfoldable pub parse_size : List ℕ → Option ℤ
unfolding trim_left trim_right try_patterns
parse_size s =
    if same_text (trim_right (trim_left s)) (codes "unlimited")
    then some (negsuc 0)
    else try_patterns size_patterns s

-- A file with the blocks of its inode and its content, or a directory with its blocks and its
-- entries by name.
mutual
  pub data Tree : Type 0 where
    leaf : ℕ → String → Tree
    dir : ℕ → Trees → Tree

  pub data Trees : Type 0 where
    done : Trees
    and : String → Tree → Trees → Trees

-- calculateSpace: the blocks of the root and of all that the walk visits, in bytes.
unfoldable mutual
  space_onto : ℤ → Tree → ℤ
  space_onto total (leaf blocks content) = add64 total (pos (blocks * 512))
  space_onto total (dir blocks below) = walk (add64 total (pos (blocks * 512))) below

  walk : ℤ → Trees → ℤ
  walk total done = total
  walk total (and name t ts) = walk (space_onto total t) ts

unfoldable pub calculate_space : Tree → ℤ
unfolding space_onto
calculate_space t = space_onto (pos 0) t
