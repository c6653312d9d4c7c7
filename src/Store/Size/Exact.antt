-- ===== src/Store/Size/Exact.antt =====
-- ParseSize (store/size.go) against the numbers it stands for.
use native.Mathlib.Nat.{pow-zero, pow-succ'}
use image_assembler.Base.{
  ℕ, zero, suc, ◌+◌, ◌-◌, ◌*◌, ◌^◌, ◌<◌, ◌≡◌, refl, ap, sym, subst, Bool-cases, inl, inr, true,
  false, Option, none, some, get_elem?, List, [], ◌∷◌, ◌++◌, All, All-get_elem?, arith,
  if◌then◌else◌,
}
use image_assembler.Base.Int.{ℤ, pos}
use image_assembler.Base.Int64.{mul64_exact}
use image_assembler.Base.Atoi.{is_digit, decimal, decimal_onto, parse_int, codes, same_text}
use image_assembler.Store.Size.{
  scale, digits, skip_blanks, is_blank, is_space, trim_left, trim_right, Pattern, size_patterns,
  find_submatch, submatch, try_patterns, parse_size, scaled,
}

le_of_product : (x m bound : ℕ) → 0 < m → x * m < bound → x < bound
le_of_product x zero bound hm h = omega arith
le_of_product x (suc m) bound hm h = omega arith

power_pos : (b p : ℕ) → 0 < suc b ^ p
power_pos b zero = omega (arith, pow-zero (suc b))
power_pos b (suc p) = grind (arith, pow-succ' (suc b) p, power_pos b p)

product : (b p n : ℕ) → n * b * b ^ p ≡ n * b ^ suc p
product b p n = grind (arith, pow-succ' b p)

-- Scaling multiplies by the base, power times, if the product fits.
scale_exact :
    (base power n : ℕ)
    → n * suc base ^ power < 2 ^ 63
    → scale (suc base) power (pos n) ≡ pos (n * suc base ^ power)
unfolding scale
scale_exact base zero n h = ground (arith, pow-zero (suc base))
scale_exact base (suc power) n h = rw (
  mul64_exact n (suc base) fits,
  scale_exact base power (n * suc base) h',
  product (suc base) power n,
)
  where
    h' : n * suc base * suc base ^ power < 2 ^ 63
    h' = omega (arith, product (suc base) power n)

    fits : n * suc base < 2 ^ 63
    fits = le_of_product (n * suc base) (suc base ^ power) (2 ^ 63) (power_pos base power) h'

-- A text that does not go on with a digit.
abbrev StartsOther : List ℕ → Type 0
StartsOther [] = Unit
StartsOther (c ∷ cs) = is_digit c ≡ false

digits-append :
    (ds rest : List ℕ) (acc n : ℕ)
    → decimal_onto acc ds ≡ some n
    → StartsOther rest
    → digits (ds ++ rest) ≡ (ds, rest)
unfolding digits decimal_onto
digits-append [] [] acc n h s = refl
digits-append [] (c ∷ cs) acc n h s = ground arith
digits-append (d ∷ ds) rest acc n h s = elim (Bool-cases (is_digit d)) [
  | inl y ↦ rw (y, digits-append ds rest (acc * 10 + (d - 48)) n (ground arith) s)
  | inr other ↦ ground arith
]

-- The patterns tried on a text split into its digits and the rest.
try_split : List Pattern → List ℕ × List ℕ → Option ℤ
try_split [] s = none
try_split (p ∷ ps) s = elim (submatch p s) [
  | none ↦ try_split ps s
  | some ds ↦ scaled p (parse_int ds)
]

try_patterns-eq-split :
    (ps : List Pattern) (s : List ℕ) → try_patterns ps s ≡ try_split ps (digits (skip_blanks s))
unfolding try_patterns find_submatch try_split
try_patterns-eq-split [] s = refl
try_patterns-eq-split (p ∷ ps) s =
    ap
      (λ r. elim (submatch p (digits (skip_blanks s))) [
        | none ↦ r
        | some ds ↦ scaled p (parse_int ds)
      ])
      (try_patterns-eq-split ps s)

-- No digit begins the pattern's suffix, its base is not 0, and it is the first pattern that takes the suffix.
abbrev IsFirst : Pattern → Type 0
IsFirst p =
    StartsOther p.suffix
    × ((b : ℕ) × (p.base ≡ suc b))
    × ((d : ℕ) (ds : List ℕ)
        → try_split size_patterns (d ∷ ds, p.suffix) ≡ scaled p (parse_int (d ∷ ds)))

size_patterns-IsFirst : All IsFirst size_patterns
unfolding try_split skip_blanks is_blank is_digit
size_patterns-IsFirst = (
  (refl, (999, refl), λ d ds. refl),
  (
    (refl, (1023, refl), λ d ds. refl),
    (
      (refl, (999, refl), λ d ds. refl),
      (
        (refl, (1023, refl), λ d ds. refl),
        (
          (refl, (999, refl), λ d ds. refl),
          (
            (refl, (1023, refl), λ d ds. refl),
            (
              (refl, (999, refl), λ d ds. refl),
              ((refl, (1023, refl), λ d ds. refl), ((tt, (0, refl), λ d ds. refl), tt)),
            ),
          ),
        ),
      ),
    ),
  ),
)

not_unlimited :
    (d : ℕ) (cs : List ℕ)
    → is_digit d ≡ true
    → same_text (trim_right (trim_left (d ∷ cs))) (codes "unlimited") ≡ false
unfolding trim_left is_space trim_right is_digit
not_unlimited d cs h = go (trim_right cs) refl (trim_left cs)
  where
    go :
        (r : List ℕ)
        → r ≡ trim_right cs
        → (l : List ℕ)
        → same_text (trim_right (if is_space d then l else d ∷ cs)) (codes "unlimited") ≡ false
    go [] e l = ground arith
    go (c ∷ r) e l = ground arith

int_of_digits :
    (d : ℕ) (ds : List ℕ) (n : ℕ)
    → decimal (d ∷ ds) ≡ some n
    → n < 2 ^ 63
    → (is_digit d ≡ true) × (parse_int (d ∷ ds) ≡ some (pos n))
unfolding parse_int decimal decimal_onto is_digit
int_of_digits d ds n h fits = (ground arith, ground arith)

skip-digit : (d : ℕ) (cs : List ℕ) → is_digit d ≡ true → skip_blanks (d ∷ cs) ≡ d ∷ cs
unfolding skip_blanks is_blank is_digit
skip-digit d cs h = ground arith

-- ParseSize is exact: on the digits of a number followed by a pattern's suffix it gives the number
-- times the pattern's base to the pattern's power, if that product is below 2^63.
pub parse_size_exact :
    (i : ℕ) (p : Pattern) (ds : List ℕ) (n : ℕ)
    → get_elem? size_patterns i ≡ some p
    → decimal ds ≡ some n
    → n * p.base ^ p.power < 2 ^ 63
    → parse_size (ds ++ p.suffix) ≡ some (pos (n * p.base ^ p.power))
unfolding parse_size decimal
parse_size_exact i p [] n e h fits = cc
parse_size_exact i p (d ∷ ds) n e h fits = rw (
  not_unlimited d (ds ++ p.suffix) digit,
  try_patterns-eq-split size_patterns (d ∷ ds ++ p.suffix),
  skip-digit d (ds ++ p.suffix) digit,
  digits-append (d ∷ ds) p.suffix 0 n h first.0,
  first.2 d ds,
  number.1,
  scale_at,
)
  where
    first : IsFirst p
    first = All-get_elem? IsFirst size_patterns i p size_patterns-IsFirst e

    b : ℕ
    b = first.1.0

    fits' : n * suc b ^ p.power < 2 ^ 63
    fits' = subst (λ c. n * c ^ p.power < 2 ^ 63) first.1.1 fits

    number : (is_digit d ≡ true) × (parse_int (d ∷ ds) ≡ some (pos n))
    number =
        int_of_digits d ds n h
          (le_of_product n (suc b ^ p.power) (2 ^ 63) (power_pos b p.power) fits')

    digit : is_digit d ≡ true
    digit = number.0

    scale_at : scale p.base p.power (pos n) ≡ pos (n * p.base ^ p.power)
    scale_at =
        subst (λ c. scale c p.power (pos n) ≡ pos (n * c ^ p.power)) (sym first.1.1)
          (scale_exact b p.power n fits')
