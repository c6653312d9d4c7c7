-- ===== src/Manifest/OrderedMap.antt =====
-- manifest/orderedmap.go: a map that remembers the order in which its keys were first set.
pub mod Valid
pub mod Entries
use image_assembler.Base.{
  String, Bool, true, false, Option, none, some, List, [], ◌∷◌, ◌++◌, ℕ, if◌then◌else◌, str_eq,
  length, Map, lookup, insert, delete,
}

pub record OrderedMap {ℓ} (V : Type ℓ) : Type ℓ where
  pub keys : List String
  pub values : Map V

-- `append(m.keys[:i], m.keys[i+1:]...)` at the first `i` with `m.keys[i] == key`
unfoldable pub drop_first : String → List String → List String
drop_first key [] = []
drop_first key (k ∷ ks) = if str_eq k key then ks else k ∷ drop_first key ks

unfoldable pub new {ℓ} : {V : Type ℓ} → OrderedMap V
new = record { keys = []; values = [] }

module _ {ℓ} {V : Type ℓ} where
  unfoldable pub set : String → V → OrderedMap V → OrderedMap V
  set key value m = record {
    keys = elim (lookup key m.values) [ none ↦ m.keys ++ key ∷ [] | some _ ↦ m.keys ];
    values = insert key value m.values;
  }

  unfoldable pub get : String → OrderedMap V → Option V
  get key m = lookup key m.values

  unfoldable pub remove : String → OrderedMap V → OrderedMap V
  unfolding drop_first
  remove key m = elim (lookup key m.values) [
    | none ↦ m
    | some _ ↦ record { keys = drop_first key m.keys; values = delete key m.values }
  ]

  unfoldable pub len : OrderedMap V → ℕ
  len m = length m.keys

  -- The value that `m.values[k]` is: Go's zero value where the key is missing.
  abbrev pub or_zero : V → Option V → V
  or_zero zero_value none = zero_value
  or_zero zero_value (some v) = v

  -- The loop of `Range`: `fn` returns its new state, and whether to go on.
  unfoldable pub range_keys {κ} :
      {S : Type κ} → V → Map V → (String → V → S → S × Bool) → List String → S → S
  range_keys zero_value values fn [] s = s
  range_keys zero_value values fn (k ∷ ks) s =
      let (s', go_on) = fn k (or_zero zero_value (lookup k values)) s in
      let rest = range_keys zero_value values fn ks s' in if go_on then rest else s'

  unfoldable pub range {κ} : {S : Type κ} → V → (String → V → S → S × Bool) → OrderedMap V → S → S
  unfolding range_keys
  range zero_value fn m s = range_keys zero_value m.values fn m.keys s
