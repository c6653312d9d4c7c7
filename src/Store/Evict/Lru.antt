-- ===== src/Store/Evict/Lru.antt =====
-- store/store.go: removeLRU evicts the least recently used objects first.
use image_assembler.Base.{
  String, Bool, not, true, false, List, [], ◌∷◌, Option, none, some, ◌≡◌, ◌≢◌, sym, ap, subst, ◌∙◌,
  arith, if◌then◌else◌, Option-cases, Bool-cases, inl, inr, ◌⊎◌, lookup, delete, str_eq, str_eq_iff,
  str_eq_refl, lookup-delete, All,
}
use image_assembler.Base.Int.{ℤ, pos, ltb_ℤ}
use image_assembler.Base.Int64.{add64, mul64}
use image_assembler.Store.Model.{Store, Faults, Entry}
use image_assembler.Store.Evict.{
  update_cache_size, evict, evict_loop, remove_lru, object_infos, ObjectInfo, evictable,
  evicted_size, is_used_at,
}

-- The object is in the list.
abbrev pub IsListed : ObjectInfo → List ObjectInfo → Type 0
IsListed a [] = ⊥
IsListed a (o ∷ os) = (o ≡ a) ⊎ IsListed a os

-- No later object was used earlier, and no two have one name.
abbrev pub IsByUse : List ObjectInfo → Type 0
IsByUse [] = Unit
IsByUse (o ∷ os) =
    All (λ q. (ltb_ℤ q.last_used o.last_used ≡ false) × (o.name ≢ q.name)) os × IsByUse os

All-listed :
    (Q : ObjectInfo → Type 0) (os : List ObjectInfo) (a : ObjectInfo)
    → All Q os
    → IsListed a os
    → Q a
All-listed Q [] a q h = absurd h
All-listed Q (o ∷ os) a q (inl e) = subst Q e q.0
All-listed Q (o ∷ os) a q (inr h) = All-listed Q os a q.1 h

evict-objects :
    (faults : Faults) (name : String) (e : Entry) (s : Store)
    → (evict faults name e s).objects ≡ delete name s.objects
unfolding evict update_cache_size
evict-objects faults name e s = ground arith

evict-objs :
    (faults : Faults) (name : String) (e : Entry) (s : Store)
    → (evict faults name e s).objs ≡ s.objs
unfolding evict update_cache_size
evict-objs faults name e s = ground arith

true_ne_false : true ≢ false
true_ne_false e = cc

some_ne_none : {A : Type 0} {x : A} → some x ≢ none
some_ne_none e = cc

deleted :
    (faults : Faults) (name : String) (e : Entry) (s : Store)
    → lookup name (evict faults name e s).objects ≡ none
deleted faults name e s =
    rw (evict-objects faults name e s, lookup-delete name name s.objects, str_eq_refl name)

deleted_other :
    (faults : Faults) (name n : String) (e : Entry) (s : Store)
    → name ≢ n
    → lookup n (evict faults name e s).objects ≡ lookup n s.objects
deleted_other faults name n e s ne =
    rw (evict-objects faults name e s, lookup-delete name n s.objects, different)
  where
    different : str_eq name n ≡ false
    different = ground (arith, str_eq_iff name n)

still_gone :
    (faults : Faults) (name n : String) (e : Entry) (s : Store)
    → lookup n s.objects ≡ none
    → lookup n (evict faults name e s).objects ≡ none
still_gone faults name n e s h = elim (Bool-cases (str_eq name n)) [
  | inl b ↦ rw (evict-objects faults name e s, lookup-delete name n s.objects, b)
  | inr b ↦ rw (evict-objects faults name e s, lookup-delete name n s.objects, b) h
]

evictable_other :
    (faults : Faults) (a : ObjectInfo) (name : String) (e : Entry) (s : Store)
    → name ≢ a.name
    → evictable a (evict faults name e s) ≡ evictable a s
unfolding evictable
evictable_other faults a name e s ne =
    ap
      (λ p. elim (lookup a.name p) [
        | none ↦ is_used_at a.last_used (lookup a.name (evict faults name e s).objects)
        | some q ↦ none
      ])
      (evict-objs faults name e s)
    ∙ ap (λ x. elim (lookup a.name s.objs) [ none ↦ is_used_at a.last_used x | some q ↦ none ])
        (deleted_other faults name a.name e s ne)

module _ (faults : Faults) (goal : ℤ) where
  -- The loop, by what is found of its first object.
  after : ObjectInfo → List ObjectInfo → ℤ → Store → Option Entry → Store × ℤ
  after o os freed s none = evict_loop faults goal os freed s
  after o os freed s (some e) =
      let total = add64 freed (evicted_size faults o.name e) in
      let rest = evict_loop faults goal os total (evict faults o.name e s) in
      if ltb_ℤ total goal then rest else (evict faults o.name e s, total)

  evict_loop-after :
      (o : ObjectInfo) (os : List ObjectInfo) (freed : ℤ) (s : Store) (found : Option Entry)
      → evictable o s ≡ found
      → evict_loop faults goal (o ∷ os) freed s ≡ after o os freed s found
  unfolding evict_loop after
  evict_loop-after o os freed s found h = ap (after o os freed s) h

  skips :
      (o : ObjectInfo) (os : List ObjectInfo) (freed : ℤ) (s : Store)
      → evictable o s ≡ none
      → evict_loop faults goal (o ∷ os) freed s ≡ evict_loop faults goal os freed s
  unfolding after
  skips o os freed s h = evict_loop-after o os freed s none h

  goes_on :
      (o : ObjectInfo) (os : List ObjectInfo) (freed : ℤ) (s : Store) (e : Entry)
      → evictable o s ≡ some e
      → ltb_ℤ (add64 freed (evicted_size faults o.name e)) goal ≡ true
      → evict_loop faults goal (o ∷ os) freed s
        ≡ evict_loop faults goal os
            (add64 freed (evicted_size faults o.name e))
            (evict faults o.name e s)
  unfolding after
  goes_on o os freed s e h b =
      evict_loop-after o os freed s (some e) h
      ∙ ap
          (λ c.
            if c
            then evict_loop faults goal os (add64 freed (evicted_size faults o.name e))
                (evict faults o.name e s)
            else (evict faults o.name e s, add64 freed (evicted_size faults o.name e)))
          b

  stops :
      (o : ObjectInfo) (os : List ObjectInfo) (freed : ℤ) (s : Store) (e : Entry)
      → evictable o s ≡ some e
      → ltb_ℤ (add64 freed (evicted_size faults o.name e)) goal ≡ false
      → (evict_loop faults goal (o ∷ os) freed s).0 ≡ evict faults o.name e s
  unfolding after
  stops o os freed s e h b =
      ap (λ r. r.0)
        (evict_loop-after o os freed s (some e) h
          ∙ ap
              (λ c.
                if c
                then evict_loop faults goal os (add64 freed (evicted_size faults o.name e))
                    (evict faults o.name e s)
                else (evict faults o.name e s, add64 freed (evicted_size faults o.name e)))
              b)

  -- What is gone does not come back.
  gone_stays :
      (n : String) (os : List ObjectInfo) (freed : ℤ) (s : Store)
      → lookup n s.objects ≡ none
      → lookup n (evict_loop faults goal os freed s).0.objects ≡ none
  unfolding evict_loop
  gone_stays n [] freed s h = h
  gone_stays n (o ∷ os) freed s h = elim (Option-cases (evictable o s)) [
    | inl none' ↦ rw (skips o os freed s none') (gone_stays n os freed s h)
    | inr (e, found) ↦ elim (Bool-cases (ltb_ℤ (add64 freed (evicted_size faults o.name e)) goal)) [
      | inl b ↦ rw (goes_on o os freed s e found b) (
          gone_stays n os (add64 freed (evicted_size faults o.name e)) (evict faults o.name e s)
            (still_gone faults o.name n e s h))
      | inr b ↦ rw (stops o os freed s e found b) (still_gone faults o.name n e s h)
    ]
  ]

  -- The first object goes, if it can.
  first_goes :
      (o : ObjectInfo) (os : List ObjectInfo) (freed : ℤ) (s : Store) (e : Entry)
      → evictable o s ≡ some e
      → lookup o.name (evict_loop faults goal (o ∷ os) freed s).0.objects ≡ none
  first_goes o os freed s e found =
      elim (Bool-cases (ltb_ℤ (add64 freed (evicted_size faults o.name e)) goal)) [
        | inl c ↦ rw (goes_on o os freed s e found c) (
            gone_stays o.name os (add64 freed (evicted_size faults o.name e))
              (evict faults o.name e s) (deleted faults o.name e s))
        | inr c ↦ rw (stops o os freed s e found c) (deleted faults o.name e s)
      ]

  -- An object that the loop evicts drags along every object that could go and was used earlier.
  in_order :
      (os : List ObjectInfo) (freed : ℤ) (s : Store) (a b : ObjectInfo) (ea eb : Entry)
      → IsByUse os
      → IsListed a os
      → IsListed b os
      → ltb_ℤ a.last_used b.last_used ≡ true
      → evictable a s ≡ some ea
      → lookup b.name s.objects ≡ some eb
      → lookup b.name (evict_loop faults goal os freed s).0.objects ≡ none
      → lookup a.name (evict_loop faults goal os freed s).0.objects ≡ none
  in_order [] freed s a b ea eb by la lb lt fa hb gone = absurd la
  in_order (o ∷ os) freed s a b ea eb by (inl oa) lb lt fa hb gone =
      subst (λ n. lookup n (evict_loop faults goal (o ∷ os) freed s).0.objects ≡ none)
        (ap (λ x. x.name) oa)
        (first_goes o os freed s ea (subst (λ x. evictable x s ≡ some ea) (sym oa) fa))
  in_order (o ∷ os) freed s a b ea eb by (inr la) (inl ob) lt fa hb gone =
      let h =
        All-listed (λ q. (ltb_ℤ q.last_used o.last_used ≡ false) × (o.name ≢ q.name)) os a by.0
          la in
      absurd (true_ne_false (sym lt ∙ subst (λ x. ltb_ℤ a.last_used x.last_used ≡ false) ob h.0))
  in_order (o ∷ os) freed s a b ea eb by (inr la) (inr lb) lt fa hb gone =
      elim (Option-cases (evictable o s)) [
        | inl none' ↦ rw (skips o os freed s none') (
            in_order os freed s a b ea eb by.1 la lb lt fa hb
              (subst (λ r. lookup b.name r.0.objects ≡ none) (skips o os freed s none') gone))
        | inr (e, found) ↦
            let o_a =
              (All-listed (λ q. (ltb_ℤ q.last_used o.last_used ≡ false) × (o.name ≢ q.name)) os a
                by.0 la).1 in
            let o_b =
              (All-listed (λ q. (ltb_ℤ q.last_used o.last_used ≡ false) × (o.name ≢ q.name)) os b
                by.0 lb).1 in
            elim (Bool-cases (ltb_ℤ (add64 freed (evicted_size faults o.name e)) goal)) [
              | inl c ↦ rw (goes_on o os freed s e found c) (
                  in_order os (add64 freed (evicted_size faults o.name e)) (evict faults o.name e s)
                    a b ea eb by.1 la lb lt (evictable_other faults a o.name e s o_a ∙ fa)
                    (deleted_other faults o.name b.name e s o_b ∙ hb)
                    (subst (λ r. lookup b.name r.0.objects ≡ none) (goes_on o os freed s e found c)
                      gone))
              | inr c ↦ absurd (
                  some_ne_none (
                    sym (deleted_other faults o.name b.name e s o_b ∙ hb)
                    ∙ subst (λ r. lookup b.name r.objects ≡ none) (stops o os freed s e found c)
                        gone))
            ]
      ]

-- If sort.Slice leaves the listed objects by rising time of use, no name twice, then of two of them
-- that the store has, when removeLRU evicts the one used later, it evicts the one used earlier too,
-- if that one can be evicted: no entry of s.objs has its name and its access time is as listed.
pub remove_lru_in_order :
    (sort_by_use : List ObjectInfo → List ObjectInfo) (faults : Faults) (required : ℤ) (s : Store)
    (a b : ObjectInfo) (ea eb : Entry)
    → IsByUse (sort_by_use (object_infos s.objects))
    → IsListed a (sort_by_use (object_infos s.objects))
    → IsListed b (sort_by_use (object_infos s.objects))
    → ltb_ℤ a.last_used b.last_used ≡ true
    → evictable a s ≡ some ea
    → lookup b.name s.objects ≡ some eb
    → lookup b.name (remove_lru sort_by_use faults required s).0.objects ≡ none
    → lookup a.name (remove_lru sort_by_use faults required s).0.objects ≡ none
unfolding remove_lru
remove_lru_in_order sort_by_use faults required s a b ea eb by la lb lt fa hb gone =
    by_listing faults.read_dir gone
  where
    done : Store × ℤ
    done =
        evict_loop faults (mul64 required (pos 2)) (sort_by_use (object_infos s.objects)) (pos 0) s

    result : Bool → Store × Bool
    result failed = if failed then (s, false) else (done.0, not (ltb_ℤ done.1 required))

    by_listing :
        (failed : Bool)
        → lookup b.name (result failed).0.objects ≡ none
        → lookup a.name (result failed).0.objects ≡ none
    by_listing true e = absurd (some_ne_none (sym hb ∙ e))
    by_listing false e =
        in_order faults (mul64 required (pos 2)) (sort_by_use (object_infos s.objects)) (pos 0) s a
          b ea eb by la lb lt fa hb e
