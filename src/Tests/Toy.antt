-- ===== src/Tests/Toy.antt =====
-- Concrete stand-ins for what the model takes as parameters: a small hash, a registry that knows every
-- module, and Go's doubling of a full slice.
use Prim.Native.String.{◌++◌ as ◌<>◌}
use image_assembler.Base.{
  ℕ, zero, suc, ◌+◌, ◌*◌, ◌/◌, ◌%◌, String, List, [], ◌∷◌, ltb, ◌==◌, if◌then◌else◌,
}
use image_assembler.Base.Int.{pos}
use image_assembler.Base.Result.{ok}
use image_assembler.Manifest.Ident.{Library}
use image_assembler.Manifest.Parse.Defs.{RegistryApi}
use image_assembler.Manifest.Parse.Loaders.{Env}

unfoldable pub fold_bytes : List ℕ → ℕ → ℕ
fold_bytes [] acc = acc
fold_bytes (c ∷ cs) acc = fold_bytes cs ((acc * 257 + c + 1) % 999983)

abbrev digit : ℕ → String
digit d =
    if d == 0
    then "0"
    else if d == 1
    then "1"
    else if d == 2
    then "2"
    else if d == 3
    then "3"
    else if d == 4
    then "4"
    else if d == 5
    then "5"
    else if d == 6
    then "6"
    else if d == 7
    then "7"
    else if d == 8
    then "8"
    else "9"

unfoldable pub decimal_text : ℕ → ℕ → String → String
decimal_text zero n acc = acc
decimal_text (suc f) n acc =
    let rest = decimal_text f (n / 10) (digit (n % 10) <> acc) in
    if ltb n 10 then digit n <> acc else rest

unfoldable pub toy_hash : List ℕ → String
unfolding fold_bytes decimal_text
toy_hash bytes = "#" <> decimal_text 7 (fold_bytes bytes 7) ""

abbrev pub toy_library : Library
toy_library = record { sha256_hex = toy_hash; format_float = λ bits. b'f' ∷ [] }

abbrev pub toy_registry : RegistryApi
toy_registry = record {
  module_of = λ kind name. ok (record { path = kind <> ("/" <> name); caps = [] });
  detect_runner = λ name. ok ("runners/" <> name);
  detect_host_runner = ok "runners/host";
}

-- A slice that is full doubles, and an empty one gets one element.
abbrev pub toy_grow : ℕ → ℕ
toy_grow n = if n == 0 then 1 else 2 * n

abbrev pub toy_env : Env
toy_env = record {
  lib = toy_library;
  registry = toy_registry;
  grow = toy_grow;
  wide_float = λ bits. pos 0;
}
