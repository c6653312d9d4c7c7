-- ===== src/Store/Evict/Limit.antt =====
-- store/store.go: the size that is recorded in cache.size stays within the limit.
use image_assembler.Base.{
  String, ◌&&◌, not, ap, ◌/◌, delete, ℕ, zero, suc, ◌-◌, ◌^◌, ◌<◌, ◌≤◌, ◌≡◌, refl, sym, subst, Bool,
  true, false, List, [], ◌∷◌, Option, none, some, arith, if◌then◌else◌,
}
use image_assembler.Base.Int.{ℤ, pos, negsuc, pos_part, ltb_ℤ, ◌≤ℤ◌}
use image_assembler.Base.Int64.{add64, mul64, neg64, bits64, add64_le, wrap64_ge}
use image_assembler.Store.Model.{
  Store, Written, all_written, not_opened, cut_off, SizeFaults, evicting, Faults, Entry,
}
use image_assembler.Store.Evict.{
  new_size, over_limit, update_cache_size, evict, evict_loop, object_infos, remove_lru, ObjectInfo,
  evictable, evicted_size, without_digits, shortened, size_read, size_left,
}

-- A limit is set, it is an int64, and the size file holds a number from 0 to the limit.
abbrev pub IsWithinLimit : Store → Type 0
IsWithinLimit s =
    (size : ℕ) × (limit : ℕ) × (s.size_file ≡ pos size)
    × (s.maximum_size ≡ pos limit)
    × (0 < limit)
    × (limit < 2 ^ 63)
    × size ≤ limit

-- What is recorded is never below 0.
new_size_pos : (size diff : ℤ) → new_size size diff ≡ pos (pos_part (new_size size diff))
unfolding new_size
new_size_pos size diff = clamped (add64 size diff)
  where
    clamped :
        (z : ℤ)
        → (if ltb_ℤ z (pos 0) then pos 0 else z)
          ≡ pos (pos_part (if ltb_ℤ z (pos 0) then pos 0 else z))
    clamped (pos n) = ground arith
    clamped (negsuc n) = ground arith

-- A change that the limit does not forbid leaves the size at most the limit.
new_size_le :
    (size limit : ℕ) (diff : ℤ)
    → size ≤ limit
    → 0 < limit
    → limit < 2 ^ 63
    → negsuc (2 ^ 63 - 1) ≤ℤ diff
    → over_limit (pos size) (pos limit) diff ≡ false
    → pos_part (new_size (pos size) diff) ≤ limit
unfolding over_limit new_size
new_size_le size limit (pos (suc n)) le lp lb lo h = guarded (add64 (pos size) (pos (suc n))) h
  where
    guarded :
        (z : ℤ)
        → (ltb_ℤ (pos 0) (pos (suc n))
            && ltb_ℤ (pos 0) (pos limit)
            && ltb_ℤ (pos limit) (if ltb_ℤ z (pos 0) then pos 0 else z))
          ≡ false
        → pos_part (if ltb_ℤ z (pos 0) then pos 0 else z) ≤ limit
    guarded (pos m) g = ground arith
    guarded (negsuc m) g = ground arith
new_size_le size limit (pos zero) le lp lb lo h =
    lowered (add64 (pos size) (pos 0)) (add64_le size (pos 0) (omega arith) (omega arith) lo)
  where
    lowered : (z : ℤ) → z ≤ℤ pos size → pos_part (if ltb_ℤ z (pos 0) then pos 0 else z) ≤ limit
    lowered (pos m) g = ground arith
    lowered (negsuc m) g = ground arith
new_size_le size limit (negsuc n) le lp lb lo h =
    lowered (add64 (pos size) (negsuc n)) (add64_le size (negsuc n) (omega arith) (omega arith) lo)
  where
    lowered : (z : ℤ) → z ≤ℤ pos size → pos_part (if ltb_ℤ z (pos 0) then pos 0 else z) ≤ limit
    lowered (pos m) g = ground arith
    lowered (negsuc m) g = ground arith

without_digits_le : (k n : ℕ) → without_digits k n ≤ n
unfolding without_digits
without_digits_le zero n = omega arith
without_digits_le (suc k) n = omega (arith, without_digits_le k (n / 10))

-- A number from 0 to the limit.
abbrev IsBelow : ℕ → ℤ → Type 0
IsBelow limit z = (size : ℕ) × (z ≡ pos size) × size ≤ limit

shortened-IsBelow : (k limit : ℕ) (z : ℤ) → IsBelow limit z → IsBelow limit (shortened k z)
shortened-IsBelow k limit z (size, e, le) =
    (without_digits k size, ap (shortened k) e, omega (arith, without_digits_le k size, le))

size_left-IsBelow :
    (w : Written) (limit : ℕ) (before size : ℤ)
    → IsBelow limit before
    → IsBelow limit size
    → IsBelow limit (size_left w before size)
size_left-IsBelow all_written limit before size b n = n
size_left-IsBelow not_opened limit before size b n = b
size_left-IsBelow (cut_off k) limit before size b n = shortened-IsBelow k limit size n

new_size-IsBelow :
    (size maximum diff : ℤ) (limit : ℕ)
    → IsBelow limit size
    → maximum ≡ pos limit
    → 0 < limit
    → limit < 2 ^ 63
    → negsuc (2 ^ 63 - 1) ≤ℤ diff
    → over_limit size maximum diff ≡ false
    → IsBelow limit (new_size size diff)
new_size-IsBelow size maximum diff limit (n, e, le) el lp lb lo fits = (
  pos_part (new_size size diff),
  new_size_pos size diff,
  subst (λ z. pos_part (new_size z diff) ≤ limit) (sym e)
      (new_size_le n limit diff le lp lb lo (
        subst (λ z. over_limit (pos n) z diff ≡ false) el
          (subst (λ z. over_limit z maximum diff ≡ false) e fits))),
)

pub update_cache_size-IsWithinLimit :
    (faults : SizeFaults) (diff : ℤ) (s : Store)
    → negsuc (2 ^ 63 - 1) ≤ℤ diff
    → IsWithinLimit s
    → IsWithinLimit (update_cache_size faults diff s).0
unfolding update_cache_size
update_cache_size-IsWithinLimit faults diff s lo (size, limit, es, el, lp, lb, le) =
    by_use faults.unusable
  where
    Goal : Store × Bool → Type 0
    Goal r = IsWithinLimit r.0

    before : IsBelow limit s.size_file
    before = (size, es, le)

    counted : Store
    counted = record s {
      size_file = size_left faults.written s.size_file (new_size (size_read faults s) diff);
    }

    by_limit :
        (over : Bool)
        → over_limit (size_read faults s) s.maximum_size diff ≡ over
        → Goal (if over then (s, false) else (counted, true))
    by_limit true e = (size, limit, es, el, lp, lb, le)
    by_limit false e =
        let (n, en, ln) =
          size_left-IsBelow faults.written limit s.size_file (new_size (size_read faults s) diff)
            before
            (new_size-IsBelow (size_read faults s) s.maximum_size diff limit
              (shortened-IsBelow faults.digits_unread limit s.size_file before) el lp lb lo e) in
        (n, limit, en, el, lp, lb, ln)

    by_use :
        (unusable : Bool)
        → Goal (
            if unusable
            then (s, true)
            else if over_limit (size_read faults s) s.maximum_size diff
            then (s, false)
            else (counted, true))
    by_use true = (size, limit, es, el, lp, lb, le)
    by_use false = by_limit (over_limit (size_read faults s) s.maximum_size diff) refl

evict-IsWithinLimit :
    (faults : Faults) (name : String) (e : Entry) (s : Store)
    → IsWithinLimit s
    → IsWithinLimit (evict faults name e s)
unfolding evict neg64
evict-IsWithinLimit faults name e s w =
    update_cache_size-IsWithinLimit (faults.size (evicting name))
      (neg64 (evicted_size faults name e)) (record s { objects = delete name s.objects })
      (wrap64_ge (2 ^ 64 - bits64 (evicted_size faults name e))) w

evict_loop-IsWithinLimit :
    (faults : Faults) (goal : ℤ) (os : List ObjectInfo) (freed : ℤ) (s : Store)
    → IsWithinLimit s
    → IsWithinLimit (evict_loop faults goal os freed s).0
unfolding evict_loop
evict_loop-IsWithinLimit faults goal [] freed s w = w
evict_loop-IsWithinLimit faults goal (o ∷ os) freed s w =
    go (λ total s' w'. evict_loop-IsWithinLimit faults goal os total s' w') (evictable o s)
  where
    Rest : Type 0
    Rest =
        (total : ℤ) (s' : Store)
        → IsWithinLimit s'
        → IsWithinLimit (evict_loop faults goal os total s').0

    stop :
        Rest
        → (e : Entry) (b : Bool) (total : ℤ)
        → IsWithinLimit
            (if b
              then evict_loop faults goal os total (evict faults o.name e s)
              else (evict faults o.name e s, total)).0
    stop rest e true total =
        rest total (evict faults o.name e s) (evict-IsWithinLimit faults o.name e s w)
    stop rest e false total = evict-IsWithinLimit faults o.name e s w

    after : Option Entry → Store × ℤ
    after none = evict_loop faults goal os freed s
    after (some e) =
        let total = add64 freed (evicted_size faults o.name e) in
        let rest = evict_loop faults goal os total (evict faults o.name e s) in
        if ltb_ℤ total goal then rest else (evict faults o.name e s, total)

    go : Rest → (found : Option Entry) → IsWithinLimit (after found).0
    go rest none = rest freed s w
    go rest (some e) =
        stop rest e (ltb_ℤ (add64 freed (evicted_size faults o.name e)) goal)
          (add64 freed (evicted_size faults o.name e))

module _ (sort_by_use : List ObjectInfo → List ObjectInfo) where
  pub remove_lru-IsWithinLimit :
      (faults : Faults) (required : ℤ) (s : Store)
      → IsWithinLimit s
      → IsWithinLimit (remove_lru sort_by_use faults required s).0
  unfolding remove_lru
  remove_lru-IsWithinLimit faults required s w = by_listing faults.read_dir
    where
      done : Store × ℤ
      done =
          evict_loop faults (mul64 required (pos 2)) (sort_by_use (object_infos s.objects)) (pos 0)
            s

      Goal : Store × Bool → Type 0
      Goal r = IsWithinLimit r.0

      by_listing :
          (b : Bool) → Goal (if b then (s, false) else (done.0, not (ltb_ℤ done.1 required)))
      by_listing true = w
      by_listing false =
          evict_loop-IsWithinLimit faults (mul64 required (pos 2))
            (sort_by_use (object_infos s.objects)) (pos 0) s w
