-- ===== src/Sandbox/Caps.antt =====
-- sandbox/caps.go: the capabilities that a stage is granted. A nil map is none; the set is listed in
-- the order of one iteration over it.
use image_assembler.Base.{
  String, Bool, true, false, ◌||◌, Option, none, some, List, [], ◌∷◌, if◌then◌else◌, str_eq,
}
use image_assembler.Base.Order.{text_leb}
pub mod Granted

-- sort.Strings
unfoldable pub insert_sorted : String → List String → List String
unfolding text_leb
insert_sorted s [] = s ∷ []
insert_sorted s (t ∷ ts) =
    let rest = insert_sorted s ts in if text_leb s t then s ∷ t ∷ ts else t ∷ rest

unfoldable pub sort_strings : List String → List String
unfolding insert_sorted
sort_strings [] = []
sort_strings (s ∷ ss) = insert_sorted s (sort_strings ss)

-- args = append(args, "--cap-add", c)
unfoldable pub add_args : List String → List String
add_args [] = []
add_args (c ∷ cs) = "--cap-add" ∷ c ∷ add_args cs

-- BuildCapArgs
unfoldable pub build_cap_args : Option (List String) → List String
unfolding sort_strings add_args
build_cap_args none = []
build_cap_args (some caps) = "--cap-drop" ∷ "ALL" ∷ add_args (sort_strings caps)
