-- ===== src/Sandbox/Caps/Granted.antt =====
-- sandbox/caps.go: what the arguments grant, as bubblewrap reads them, one after the other.
use mathlib.Core.Path.{ap₂}
use image_assembler.Base.{
  String, Bool, true, false, ◌||◌, some, List, [], ◌∷◌, if◌then◌else◌, str_eq, ◌≡◌, refl, contains,
  arith, ◌∙◌,
}
use image_assembler.Sandbox.Caps.{insert_sorted, sort_strings, add_args, build_cap_args}

-- --cap-drop ALL takes every capability away, --cap-add gives one, or every one for ALL.
abbrev pub covers : String → String → Bool
covers arg cap = str_eq arg cap || str_eq arg "ALL"

-- Whether the capability is held after the arguments, if `held` says so for before.
unfoldable pub granted : String → Bool → List String → Bool
granted cap held [] = held
granted cap held (flag ∷ []) = held
granted cap held (flag ∷ arg ∷ rest) =
    let dropped = granted cap (if covers arg cap then false else held) rest in
    let added = granted cap (held || covers arg cap) rest in
    let other = granted cap held rest in
    if str_eq flag "--cap-drop" then dropped else if str_eq flag "--cap-add" then added else other

abbrev pub listed : String → List String → Bool
listed cap caps = contains caps cap || contains caps "ALL"

granted-add_args :
    (cap : String) (held : Bool) (cs : List String)
    → granted cap held (add_args cs) ≡ (held || listed cap cs)
unfolding granted add_args contains str_eq
granted-add_args cap held [] = ground arith
granted-add_args cap held (c ∷ cs) = ground (arith, granted-add_args cap (held || covers c cap) cs)

contains-insert_sorted :
    (s a : String) (ts : List String)
    → contains (insert_sorted s ts) a ≡ (str_eq s a || contains ts a)
unfolding contains insert_sorted
contains-insert_sorted s a [] = refl
contains-insert_sorted s a (t ∷ ts) = ground (arith, contains-insert_sorted s a ts)

contains-sort_strings :
    (a : String) (ss : List String) → contains (sort_strings ss) a ≡ contains ss a
unfolding contains sort_strings
contains-sort_strings a [] = refl
contains-sort_strings a (s ∷ ss) =
    contains-insert_sorted s a (sort_strings ss) ∙ ground (arith, contains-sort_strings a ss)

-- A stage with a set of capabilities is granted exactly those of the set, whatever it held before and
-- in whatever order the set is listed; ALL in the set stands for every one.
pub build_cap_args-granted :
    (cap : String) (held : Bool) (caps : List String)
    → granted cap held (build_cap_args (some caps)) ≡ listed cap caps
unfolding build_cap_args granted str_eq
build_cap_args-granted cap held caps =
    dropped (str_eq "ALL" cap)
    ∙ granted-add_args cap false (sort_strings caps)
    ∙ ap₂ ◌||◌ (contains-sort_strings cap caps) (contains-sort_strings "ALL" caps)
  where
    dropped :
        (b : Bool)
        → granted cap (if b || true then false else held) (add_args (sort_strings caps))
          ≡ granted cap false (add_args (sort_strings caps))
    dropped true = refl
    dropped false = refl
