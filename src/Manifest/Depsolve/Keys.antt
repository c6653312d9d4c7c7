-- ===== src/Manifest/Depsolve/Keys.antt =====
-- The order in which two keys stand in a list.
use mathlib.Core.List.{reverse, reverse-append}
use image_assembler.Base.{
  String, Bool, true, false, ◌||◌, List, [], ◌∷◌, ◌++◌, ◌≡◌, refl, arith, if◌then◌else◌, str_eq,
  str_eq_iff, str_eq_refl, contains, map, Bool-cases, inl, inr,
}
use image_assembler.Manifest.Depsolve.{without}

-- b stands after the first a.
unfoldable pub after : List String → String → String → Bool
after [] a b = false
after (x ∷ xs) a b = if str_eq x a then contains xs b else after xs a b

pub contains-append :
    (xs ys : List String) (a : String) → contains (xs ++ ys) a ≡ (contains xs a || contains ys a)
unfolding contains
contains-append [] ys a = refl
contains-append (x ∷ xs) ys a = ground (arith, contains-append xs ys a)

pub contains-without :
    (ks : List String) (z a : String)
    → contains (without z ks) a ≡ (if str_eq z a then false else contains ks a)
unfolding contains without
contains-without [] z a = ground arith
contains-without (k ∷ ks) z a =
    ground (arith, contains-without ks z a, str_eq_iff k z, str_eq_iff k a, str_eq_iff z a)

pub after-append_last :
    (ks : List String) (a z : String) → contains ks a ≡ true → after (ks ++ z ∷ []) a z ≡ true
unfolding contains after
after-append_last [] a z h = cc
after-append_last (k ∷ ks) a z h =
    ground (
      arith,
      after-append_last ks a z,
      contains-append ks (z ∷ []) z,
      str_eq_iff k a,
      str_eq_iff z z,
    )

pub after-append :
    (ks ls : List String) (a b : String) → after ks a b ≡ true → after (ks ++ ls) a b ≡ true
unfolding after
after-append [] ls a b h = cc
after-append (k ∷ ks) ls a b h = ground (arith, after-append ks ls a b, contains-append ks ls b)

pub after-without :
    (ks : List String) (z a b : String)
    → after ks a b ≡ true
    → str_eq z a ≡ false
    → str_eq z b ≡ false
    → after (without z ks) a b ≡ true
unfolding after without
after-without [] z a b h p q = cc
after-without (k ∷ ks) z a b h p q = ground (
  arith,
  after-without ks z a b,
  contains-without ks z b,
  str_eq_iff k z,
  str_eq_iff k a,
  str_eq_iff z a,
)

pub after→contains : (ks : List String) (a b : String) → after ks a b ≡ true → contains ks b ≡ true
unfolding after contains
after→contains [] a b h = cc
after→contains (k ∷ ks) a b h = ground (arith, after→contains ks a b)

pub contains-reverse : (ks : List String) (a : String) → contains (reverse ks) a ≡ contains ks a
unfolding contains
contains-reverse [] a = refl
contains-reverse (k ∷ ks) a =
    rw (reverse-append (k ∷ []) ks)
      (ground (arith, contains-append (reverse ks) (k ∷ []) a, contains-reverse ks a))

-- In the reversed list a stands after b.
pub after-reverse :
    (ks : List String) (a b : String) → after ks a b ≡ true → after (reverse ks) b a ≡ true
unfolding after
after-reverse [] a b h = cc
after-reverse (k ∷ ks) a b h = rw (reverse-append (k ∷ []) ks) (
    ground (
      arith,
      after-reverse ks a b,
      after-append_last (reverse ks) b k,
      after-append (reverse ks) (k ∷ []) b a,
      contains-reverse ks b,
      str_eq_iff k a,
    ))

-- What a listed key is mapped to is listed.
pub contains-map :
    (f : String → String) (ks : List String) (k : String)
    → contains ks k ≡ true
    → contains (map f ks) (f k) ≡ true
unfolding contains
contains-map f [] k h = cc
contains-map f (x ∷ ks) k h = elim (Bool-cases (str_eq x k)) [
  | inl e ↦ rw ((str_eq_iff x k).0 e, str_eq_refl (f k)) refl
  | inr e ↦ ground (arith, contains-map f ks k)
]
