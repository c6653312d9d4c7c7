-- ===== src/Manifest/OrderedMap/Entries.antt =====
-- The ordered map refines a list of entries in insertion order.
use image_assembler.Base.{
  String, Bool, true, false, Option, none, some, List, [], ◌∷◌, ◌++◌, if◌then◌else◌, str_eq_iff,
  Map, lookup, insert, delete, lookup-insert, lookup-delete, ◌≡◌, refl, arith, inl, inr,
  Option-cases, contains,
}
use image_assembler.Manifest.OrderedMap.{
  OrderedMap, drop_first, set, get, remove, range_keys, range,
}
use image_assembler.Manifest.OrderedMap.Valid.{IsValid, Nodup, present}

module _ {ℓ} {V : Type ℓ} where
  abbrev entry_at : String → Option V → List (String × V) → List (String × V)
  entry_at k none rest = rest
  entry_at k (some v) rest = (k, v) ∷ rest

  entries_of : Map V → List String → List (String × V)
  entries_of values [] = []
  entries_of values (k ∷ ks) = entry_at k (lookup k values) (entries_of values ks)

  -- The abstract view: the entries in insertion order.
  pub entries : OrderedMap V → List (String × V)
  unfolding entries_of
  entries m = entries_of m.values m.keys

  -- What `Range` does to the view: call `fn` on each entry until it says stop.
  pub run {κ} : {S : Type κ} → (String → V → S → S × Bool) → List (String × V) → S → S
  run fn [] s = s
  run fn ((k, v) ∷ es) s =
      let (s', go_on) = fn k v s in let rest = run fn es s' in if go_on then rest else s'

  entries_of-insert_absent :
      (values : Map V) (ks : List String) (k : String) (v : V)
      → contains ks k ≡ false
      → entries_of (insert k v values) ks ≡ entries_of values ks
  unfolding entries_of contains
  entries_of-insert_absent values [] k v h = refl
  entries_of-insert_absent values (i ∷ ks) k v h = ground (
    arith,
    entries_of-insert_absent values ks k v,
    lookup-insert k i v values,
    str_eq_iff k i,
    str_eq_iff i k,
  )

  insert-entries_of_absent :
      (values : Map V) (ks : List String) (k : String) (v : V)
      → contains ks k ≡ false
      → insert k v (entries_of values ks) ≡ entries_of values ks ++ (k, v) ∷ []
  unfolding entries_of contains insert
  insert-entries_of_absent values [] k v h = refl
  insert-entries_of_absent values (i ∷ ks) k v h =
      ground (arith, insert-entries_of_absent values ks k v)

  entries_of-append_last :
      (values : Map V) (ks : List String) (k : String) (v : V)
      → lookup k values ≡ some v
      → entries_of values (ks ++ k ∷ []) ≡ entries_of values ks ++ (k, v) ∷ []
  unfolding entries_of
  entries_of-append_last values [] k v h = ground arith
  entries_of-append_last values (i ∷ ks) k v h =
      ground (arith, entries_of-append_last values ks k v h)

  entries_of-insert_found :
      (values : Map V) (ks : List String) (k : String) (v : V)
      → Nodup ks
      → ((j : String) → contains ks j ≡ true → present (lookup j values) ≡ true)
      → contains ks k ≡ true
      → entries_of (insert k v values) ks ≡ insert k v (entries_of values ks)
  unfolding entries_of contains insert
  entries_of-insert_found values [] k v d h c = cc
  entries_of-insert_found values (i ∷ ks) k v d h c = ground (
    arith,
    entries_of-insert_found values ks k v d.1 (λ j q. h j (ground arith)),
    entries_of-insert_absent values ks k v,
    lookup-insert k i v values,
    str_eq_iff k i,
    str_eq_iff i k,
    str_eq_iff i i,
    h i,
  )

  entries_of-delete_absent :
      (values : Map V) (ks : List String) (k : String)
      → contains ks k ≡ false
      → entries_of (delete k values) ks ≡ entries_of values ks
  unfolding entries_of contains
  entries_of-delete_absent values [] k h = refl
  entries_of-delete_absent values (i ∷ ks) k h = ground (
    arith,
    entries_of-delete_absent values ks k,
    lookup-delete k i values,
    str_eq_iff k i,
    str_eq_iff i k,
  )

  delete-entries_of_absent :
      (values : Map V) (ks : List String) (k : String)
      → contains ks k ≡ false
      → delete k (entries_of values ks) ≡ entries_of values ks
  unfolding entries_of contains delete
  delete-entries_of_absent values [] k h = refl
  delete-entries_of_absent values (i ∷ ks) k h =
      ground (arith, delete-entries_of_absent values ks k)

  entries_of-delete :
      (values : Map V) (ks : List String) (k : String)
      → Nodup ks
      → entries_of (delete k values) (drop_first k ks) ≡ delete k (entries_of values ks)
  unfolding entries_of contains delete drop_first
  entries_of-delete values [] k d = refl
  entries_of-delete values (i ∷ ks) k d = ground (
    arith,
    entries_of-delete values ks k d.1,
    entries_of-delete_absent values ks k,
    delete-entries_of_absent values ks k,
    lookup-delete k i values,
    str_eq_iff k i,
    str_eq_iff i k,
  )

  lookup-entries_of :
      (values : Map V) (ks : List String) (k : String)
      → Nodup ks
      → lookup k (entries_of values ks) ≡ (if contains ks k then lookup k values else none)
  unfolding entries_of contains lookup
  lookup-entries_of values [] k d = refl
  lookup-entries_of values (i ∷ ks) k d =
      ground (arith, lookup-entries_of values ks k d.1, str_eq_iff i k)

  run-entries_of {κ} :
      {S : Type κ} (zero_value : V) (fn : String → V → S → S × Bool) (values : Map V)
      (ks : List String) (s : S)
      → ((j : String) → contains ks j ≡ true → present (lookup j values) ≡ true)
      → range_keys zero_value values fn ks s ≡ run fn (entries_of values ks) s
  unfolding entries_of contains range_keys run
  run-entries_of zero_value fn values [] s h = refl
  run-entries_of zero_value fn values (i ∷ ks) s h = elim (Option-cases (lookup i values)) [
    | inl e ↦ ground (arith, h i, str_eq_iff i i)
    | inr (v, e) ↦
        ground
          (arith, run-entries_of zero_value fn values ks (fn i v s).0 (λ j q. h j (ground arith)))
  ]

  -- On a valid map `Set` replaces the value in place if the key is there, and appends the entry if it is not.
  pub entries-set :
      (k : String) (v : V) (m : OrderedMap V)
      → IsValid m
      → entries (set k v m) ≡ insert k v (entries m)
  unfolding entries set
  entries-set k v m h = elim (Option-cases (lookup k m.values)) [
    | inl e ↦
        rw (e, set)
          (ground (
            arith,
            entries_of-append_last (insert k v m.values) m.keys k v,
            lookup-insert k k v m.values,
            str_eq_iff k k,
            entries_of-insert_absent m.values m.keys k v,
            insert-entries_of_absent m.values m.keys k v,
            h.listed k,
          ))
    | inr (w, e) ↦
        rw (e, set)
          (entries_of-insert_found m.values m.keys k v h.distinct
            (λ j q. ground (arith, h.listed j)) (ground (arith, h.listed k)))
  ]

  -- On a valid map `Delete` removes the entry of the key, if there is one, and keeps the order of the others.
  pub entries-remove :
      (k : String) (m : OrderedMap V) → IsValid m → entries (remove k m) ≡ delete k (entries m)
  unfolding entries remove
  entries-remove k m h = elim (Option-cases (lookup k m.values)) [
    | inl e ↦
        rw (e, remove) (ground (arith, delete-entries_of_absent m.values m.keys k, h.listed k))
    | inr (w, e) ↦ rw (e, remove) (entries_of-delete m.values m.keys k h.distinct)
  ]

  -- On a valid map `Get` finds the value that the entries hold for the key.
  pub lookup-entries : (k : String) (m : OrderedMap V) → IsValid m → lookup k (entries m) ≡ get k m
  unfolding entries get
  lookup-entries k m h = ground (arith, lookup-entries_of m.values m.keys k h.distinct, h.listed k)

  -- On a valid map `Range` visits the entries in insertion order and stops when the function says so.
  pub range-eq-run {κ} :
      {S : Type κ} (zero_value : V) (fn : String → V → S → S × Bool) (m : OrderedMap V) (s : S)
      → IsValid m
      → range zero_value fn m s ≡ run fn (entries m) s
  unfolding entries range
  range-eq-run zero_value fn m s h =
      run-entries_of zero_value fn m.values m.keys s (λ j q. ground (arith, h.listed j))
