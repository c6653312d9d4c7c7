-- ===== src/Tests/Maps.antt =====
-- The ordered map and the marshalled text at concrete data.
use image_assembler.Base.{
  ℕ, ◌+◌, String, Bool, true, some, [], ◌≡◌, refl, arith, str_eq, str_eq_iff, insert, delete, ◌≢◌,
  not, ◌==◌,
}
use image_assembler.Base.Int.{negsuc}
use image_assembler.Base.Order.{text_leb}
use image_assembler.Base.Atoi.{codes}
use image_assembler.Value.{Value, text, int, arr, obj, nil, cons, end, field, null, bool}
use image_assembler.Json.{marshal, map_text, list_text, marshal_string, itoa}
use image_assembler.Json.Order.{objects, swap, marshal-Same}
use image_assembler.Manifest.OrderedMap
use image_assembler.Manifest.OrderedMap.{OrderedMap}
use image_assembler.Manifest.OrderedMap.Valid.{IsValid, new-IsValid, set-IsValid}
use image_assembler.Manifest.OrderedMap.Entries.{
  entries, run, entries-set, entries-remove, range-eq-run,
}

two : OrderedMap ℕ
unfolding OrderedMap.set
two = OrderedMap.set "b" 2 (OrderedMap.set "a" 1 OrderedMap.new)

two-IsValid : IsValid two
unfolding two
two-IsValid = set-IsValid "b" 2 _ (set-IsValid "a" 1 _ new-IsValid)

entries-set_example : entries (OrderedMap.set "a" 7 two) ≡ insert "a" 7 (entries two)
entries-set_example = entries-set "a" 7 two two-IsValid

entries-remove_example : entries (OrderedMap.remove "a" two) ≡ delete "a" (entries two)
entries-remove_example = entries-remove "a" two two-IsValid

-- Adds the values up, and stops after a value of 2.
add_until_two : String → ℕ → ℕ → ℕ × Bool
add_until_two k v s = (s + v, not (v == 2))

range-eq-run_example : OrderedMap.range 0 add_until_two two 0 ≡ run add_until_two (entries two) 0
range-eq-run_example = range-eq-run 0 add_until_two two 0 two-IsValid

abbrev sample : Value
sample = obj (field "b" (int (negsuc 4)) (field "a" (arr (cons null (cons (text "x<y") nil))) end))

marshal_run : marshal (λ bits. []) sample ≡ some (codes "{\"a\": [null, \"x\\u003cy\"], \"b\": -5}")
unfolding marshal map_text list_text marshal_string itoa text_leb
marshal_run = refl

b_ne_a : ◌≢◌ {A = String} "b" "a"
unfolding str_eq
b_ne_a = ground (arith, str_eq_iff "b" "a")

marshal-Same_example :
    marshal (λ bits. []) (obj (field "b" null (field "a" (bool true) end)))
    ≡ marshal (λ bits. []) (obj (field "a" (bool true) (field "b" null end)))
marshal-Same_example =
    marshal-Same (λ bits. []) (objects (swap "b" "a" null (bool true) end b_ne_a))
