-- ===== src/Json.antt =====
-- internal/jsonutil/pycompat.go: the JSON text that the content hashes are taken of.
pub mod Order
use Prim.Native.Nat.{zero}
use image_assembler.Base.{
  ℕ, suc, ◌+◌, ◌-◌, ◌*◌, ◌/◌, ◌%◌, ◌^◌, String, Bool, true, false, ◌&&◌, ◌||◌, Option, none, some,
  List, [], ◌∷◌, ◌++◌, ltb, leb, ◌==◌, if◌then◌else◌, Map, map,
}
use image_assembler.Base.Int.{ℤ, pos, negsuc}
use image_assembler.Base.Atoi.{codes}
use image_assembler.Base.Order.{text_leb}
use image_assembler.Value.{
  Value, null, bool, number, int, int64, float, text, arr, obj, Items, nil, cons, Fields, end,
  field, float_special, float_integral, float_magnitude, float_trunc,
}

-- The decimal digits of n, in front of acc. A number below 2 ^ 64 has at most 20.
unfoldable pub digits_onto : ℕ → ℕ → List ℕ → List ℕ
digits_onto zero n acc = acc
digits_onto (suc f) n acc =
    let rest = digits_onto f (n / 10) ((48 + n % 10) ∷ acc) in
    if ltb n 10 then (48 + n) ∷ acc else rest

-- strconv.Itoa, strconv.FormatInt(_, 10)
unfoldable pub itoa : ℤ → List ℕ
unfolding digits_onto
itoa (pos n) = digits_onto 20 n []
itoa (negsuc n) = b'-' ∷ digits_onto 20 (suc n) []

abbrev hex_digit : ℕ → ℕ
hex_digit n = if ltb n 10 then 48 + n else 87 + n

-- How encoding/json writes one code point inside a string.
unfoldable pub escape : ℕ → List ℕ
escape c =
    if c == b'"' || c == 92
    then 92 ∷ c ∷ []
    else if c == 8
    then codes "\\b"
    else if c == 12
    then codes "\\f"
    else if c == 10
    then codes "\\n"
    else if c == 13
    then codes "\\r"
    else if c == 9
    then codes "\\t"
    else if ltb c 32 || c == b'<' || c == b'>' || c == b'&'
    then codes "\\u00" ++ hex_digit (c / 16) ∷ hex_digit (c % 16) ∷ []
    else if c == 0x2028
    then codes "\\u2028"
    else if c == 0x2029
    then codes "\\u2029"
    else c ∷ []

unfoldable pub escape_all : List ℕ → List ℕ
unfolding escape
escape_all [] = []
escape_all (c ∷ cs) = escape c ++ escape_all cs

-- marshalString
unfoldable pub marshal_string : String → List ℕ
unfolding escape_all
marshal_string s = b'"' ∷ escape_all (codes s) ++ b'"' ∷ []

-- The loop's separators: ", " before every part but the first.
unfoldable pub join : List (List ℕ) → List ℕ
join [] = []
join (p ∷ []) = p
join (p ∷ q ∷ ps) = p ++ (codes ", " ++ join (q ∷ ps))

-- sort.Strings on the keys of a map, each with its marshalled value. The keys of a map differ, so
-- every sort gives this list.
unfoldable pub insert_key : String → List ℕ → Map (List ℕ) → Map (List ℕ)
insert_key k v [] = (k, v) ∷ []
insert_key k v ((j, w) ∷ m) =
    let rest = insert_key k v m in if text_leb k j then (k, v) ∷ (j, w) ∷ m else (j, w) ∷ rest

unfoldable pub sort_keys : Map (List ℕ) → Map (List ℕ)
unfolding insert_key
sort_keys [] = []
sort_keys ((k, v) ∷ m) = insert_key k v (sort_keys m)

unfoldable pub entry_texts : Map (List ℕ) → List (List ℕ)
unfolding marshal_string
entry_texts [] = []
entry_texts ((k, v) ∷ m) = (marshal_string k ++ (codes ": " ++ v)) ∷ entry_texts m

unfoldable pub map_text : Map (List ℕ) → List ℕ
unfolding join sort_keys entry_texts
map_text m = b'{' ∷ join (entry_texts (sort_keys m)) ++ b'}' ∷ []

unfoldable pub list_text : List (List ℕ) → List ℕ
unfolding join
list_text ps = b'[' ∷ join ps ++ b']' ∷ []

abbrev pub and_then {ℓ κ} : {A : Type ℓ} {B : Type κ} → Option A → (A → Option B) → Option B
and_then none f = none
and_then (some a) f = f a

-- `format_float` is strconv.FormatFloat(_, 'g', -1, 64).
module _ (format_float : ℕ → List ℕ) where
  -- `none` is the error for an infinity or a NaN.
  unfoldable pub marshal_float : ℕ → Option (List ℕ)
  marshal_float bits =
      if float_special bits
      then none
      else if float_integral bits && ltb (float_magnitude bits) (10 ^ 18)
      then some (itoa (float_trunc bits))
      else some (format_float bits)

  -- marshalValue, marshalSlice and marshalMap. An error anywhere is an error of the whole, so the
  -- order in which the values of a map are marshalled does not show.
  unfoldable mutual
    pub marshal : Value → Option (List ℕ)
    marshal null = some (codes "null")
    marshal (bool b) = some (if b then codes "true" else codes "false")
    marshal (number s) = some (codes s)
    marshal (int n) = some (itoa n)
    marshal (int64 n) = some (itoa n)
    marshal (float bits) = marshal_float bits
    marshal (text s) = some (marshal_string s)
    marshal (arr vs) = and_then (marshal_items vs) (λ ps. some (list_text ps))
    marshal (obj fs) = and_then (marshal_fields fs) (λ m. some (map_text m))

    pub marshal_items : Items → Option (List (List ℕ))
    marshal_items nil = some []
    marshal_items (cons v vs) =
        and_then (marshal v) (λ p. and_then (marshal_items vs) (λ ps. some (p ∷ ps)))

    pub marshal_fields : Fields → Option (Map (List ℕ))
    marshal_fields end = some []
    marshal_fields (field k v fs) =
        and_then (marshal v) (λ p. and_then (marshal_fields fs) (λ ps. some ((k, p) ∷ ps)))
