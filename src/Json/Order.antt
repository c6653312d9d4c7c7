-- ===== src/Json/Order.antt =====
-- The marshalled text does not depend on the order in which Go iterates over a map.
use image_assembler.Base.{
  ℕ, String, Option, none, some, List, [], ◌∷◌, Map, ◌≡◌, ◌≢◌, refl, arith, ◌∙◌, ap, Option-cases,
  inl, inr,
}
use image_assembler.Base.Order.{text_leb_total, text_leb_trans, text_leb_antisymm}
use image_assembler.Value.{Value, arr, obj, Items, nil, cons, Fields, end, field}
use image_assembler.Json.{
  insert_key, sort_keys, and_then, marshal, marshal_items, marshal_fields, map_text,
}

insert_key_comm :
    (j k : String) (v w : List ℕ) (m : Map (List ℕ))
    → j ≢ k
    → insert_key j v (insert_key k w m) ≡ insert_key k w (insert_key j v m)
unfolding insert_key
insert_key_comm j k v w [] h = ground (arith, text_leb_total j k, text_leb_antisymm j k)
insert_key_comm j k v w ((i, x) ∷ m) h = ground (
  arith,
  insert_key_comm j k v w m h,
  text_leb_total j k,
  text_leb_antisymm j k,
  text_leb_total i k,
  text_leb_total i j,
  text_leb_trans j k i,
  text_leb_trans k j i,
  text_leb_trans j i k,
  text_leb_trans k i j,
)

-- The same value, with the entries of its maps in another order.
mutual
  pub data Same : Value → Value → Type 0 where
    same : (v : Value) → Same v v
    arrays : {vs ws : Items} → SameItems vs ws → Same (arr vs) (arr ws)
    objects : {fs gs : Fields} → SameFields fs gs → Same (obj fs) (obj gs)

  pub data SameItems : Items → Items → Type 0 where
    done : SameItems nil nil
    step :
        {v w : Value} {vs ws : Items}
        → Same v w
        → SameItems vs ws
        → SameItems (cons v vs) (cons w ws)

  pub data SameFields : Fields → Fields → Type 0 where
    stop : SameFields end end
    keep :
        (k : String) {v w : Value} {fs gs : Fields}
        → Same v w
        → SameFields fs gs
        → SameFields (field k v fs) (field k w gs)
    swap :
        (j k : String) (v w : Value) (fs : Fields)
        → j ≢ k
        → SameFields (field j v (field k w fs)) (field k w (field j v fs))
    both : {fs gs hs : Fields} → SameFields fs gs → SameFields gs hs → SameFields fs hs

-- Two entries joined to the marshalled rest and sorted, in either order.
sort_keys-swap :
    (j k : String) (a b : Option (List ℕ)) (c : Option (Map (List ℕ)))
    → j ≢ k
    → and_then
        (and_then a (λ p.
          and_then
            (and_then b (λ q. and_then c (λ ps. some ((k, q) ∷ ps))))
            (λ ps. some ((j, p) ∷ ps))))
        (λ m. some (sort_keys m))
      ≡ and_then
          (and_then b (λ q.
            and_then
              (and_then a (λ p. and_then c (λ ps. some ((j, p) ∷ ps))))
              (λ ps. some ((k, q) ∷ ps))))
          (λ m. some (sort_keys m))
unfolding sort_keys
sort_keys-swap j k none none c h = refl
sort_keys-swap j k none (some q) c h = refl
sort_keys-swap j k (some p) none c h = refl
sort_keys-swap j k (some p) (some q) none h = refl
sort_keys-swap j k (some p) (some q) (some m) h = ap some (insert_key_comm j k p q (sort_keys m) h)

module _ (format_float : ℕ → List ℕ) where
  sorted_fields : Fields → Option (Map (List ℕ))
  sorted_fields fs = and_then (marshal_fields format_float fs) (λ m. some (sort_keys m))

  marshal-obj_sorted :
      (fs gs : Fields)
      → sorted_fields fs ≡ sorted_fields gs
      → marshal format_float (obj fs) ≡ marshal format_float (obj gs)
  unfolding sorted_fields marshal map_text
  marshal-obj_sorted fs gs h = elim (Option-cases (marshal_fields format_float fs)) [
    | inl e ↦ elim (Option-cases (marshal_fields format_float gs)) [
      | inl d ↦ rw (e, d)
      | inr (m, d) ↦ cc
    ]
    | inr (m, e) ↦ elim (Option-cases (marshal_fields format_float gs)) [
      | inl d ↦ cc
      | inr (n, d) ↦ ground arith
    ]
  ]

  sorted_fields-cons :
      (k : String) (v w : Value) (fs gs : Fields)
      → marshal format_float v ≡ marshal format_float w
      → sorted_fields fs ≡ sorted_fields gs
      → sorted_fields (field k v fs) ≡ sorted_fields (field k w gs)
  unfolding sorted_fields marshal sort_keys
  sorted_fields-cons k v w fs gs e h = ground arith

  sorted_fields-swap :
      (j k : String) (v w : Value) (fs : Fields)
      → j ≢ k
      → sorted_fields (field j v (field k w fs)) ≡ sorted_fields (field k w (field j v fs))
  unfolding sorted_fields marshal
  sorted_fields-swap j k v w fs h =
      sort_keys-swap j k (marshal format_float v) (marshal format_float w)
        (marshal_fields format_float fs) h

  mutual
    unfolding marshal

    marshal-Same_lem : {v w : Value} → Same v w → marshal format_float v ≡ marshal format_float w
    marshal-Same_lem (same v) = refl
    marshal-Same_lem (arrays h) = rw (marshal_items-Same h)
    marshal-Same_lem (objects {fs} {gs} h) = marshal-obj_sorted fs gs (sorted_fields-Same h)

    marshal_items-Same :
        {vs ws : Items}
        → SameItems vs ws
        → marshal_items format_float vs ≡ marshal_items format_float ws
    marshal_items-Same done = refl
    marshal_items-Same (step h hs) = rw (marshal-Same_lem h, marshal_items-Same hs)

    sorted_fields-Same : {fs gs : Fields} → SameFields fs gs → sorted_fields fs ≡ sorted_fields gs
    sorted_fields-Same stop = refl
    sorted_fields-Same (keep k {v} {w} {fs} {gs} h hs) =
        sorted_fields-cons k v w fs gs (marshal-Same_lem h) (sorted_fields-Same hs)
    sorted_fields-Same (swap j k v w fs h) = sorted_fields-swap j k v w fs h
    sorted_fields-Same (both h k) = sorted_fields-Same h ∙ sorted_fields-Same k

  -- Two values that differ only in the order in which the entries of their maps are listed, at any
  -- depth, marshal to the same text, or both fail.
  pub marshal-Same : {v w : Value} → Same v w → marshal format_float v ≡ marshal format_float w
  marshal-Same h = marshal-Same_lem h
