-- ===== src/Store/Evict.antt =====
-- store/store.go: the recorded size of the cache, and the eviction of the least recently used objects.
-- That the directory of an evicted object is removed, and that object.lock and object.info are read if
-- they are there, is taken to work.
use image_assembler.Base.{
  ℕ, zero, suc, ◌/◌, String, Bool, true, false, not, ◌&&◌, Option, none, some, List, [], ◌∷◌, Map,
  lookup, insert, delete, ltb, ◌==◌, if◌then◌else◌,
}
use image_assembler.Base.Int.{ℤ, pos, negsuc, ltb_ℤ}
use image_assembler.Base.Int64.{add64, mul64, neg64}
use image_assembler.Store.Size.{Tree, calculate_space}
use image_assembler.Store.Model.{
  Store, Entry, Written, all_written, not_opened, cut_off, SizeFaults, Counting, evicting, Faults,
}
pub mod Limit
pub mod Lru
pub mod Keeps

abbrev pub equal_ℤ : ℤ → ℤ → Bool
equal_ℤ (pos a) (pos b) = a == b
equal_ℤ (pos a) (negsuc b) = false
equal_ℤ (negsuc a) (pos b) = false
equal_ℤ (negsuc a) (negsuc b) = a == b

-- newSize := size + diff, and 0 if that is below 0
unfoldable pub new_size : ℤ → ℤ → ℤ
new_size size diff = if ltb_ℤ (add64 size diff) (pos 0) then pos 0 else add64 size diff

unfoldable pub over_limit : ℤ → ℤ → ℤ → Bool
unfolding new_size
over_limit size maximum diff =
    ltb_ℤ (pos 0) diff && ltb_ℤ (pos 0) maximum && ltb_ℤ maximum (new_size size diff)

-- A decimal text without its last k digits, of which none may be left.
unfoldable pub without_digits : ℕ → ℕ → ℕ
without_digits zero n = n
without_digits (suc k) n = without_digits k (n / 10)

abbrev pub minus : ℕ → ℤ
minus zero = pos 0
minus (suc n) = negsuc n

abbrev pub shortened : ℕ → ℤ → ℤ
shortened k (pos n) = pos (without_digits k n)
shortened k (negsuc n) = minus (without_digits k (suc n))

-- What json.Unmarshal makes of the data that ReadFile returns, whose error is ignored.
abbrev pub size_read : SizeFaults → Store → ℤ
size_read faults s = shortened faults.digits_unread s.size_file

-- What cache.size holds after WriteFile, whose error is ignored too.
abbrev pub size_left : Written → ℤ → ℤ → ℤ
size_left all_written before size = size
size_left not_opened before size = before
size_left (cut_off k) before size = shortened k size

-- updateCacheSize
unfoldable pub update_cache_size : SizeFaults → ℤ → Store → Store × Bool
unfolding new_size over_limit without_digits
update_cache_size faults diff s =
    if faults.unusable
    then (s, true)
    else if over_limit (size_read faults s) s.maximum_size diff
    then (s, false)
    else (
      record s {
        size_file = size_left faults.written s.size_file (new_size (size_read faults s) diff);
      },
      true,
    )

pub record ObjectInfo : Type 0 where
  pub name : String
  pub last_used : ℤ

-- The directories that have an object.lock, with its access time.
unfoldable pub object_infos : Map Entry → List ObjectInfo
object_infos [] = []
object_infos ((name, e) ∷ es) = elim e.lock [
  | none ↦ object_infos es
  | some used ↦ record { name = name; last_used = used } ∷ object_infos es
]

-- calculateSpace of the data directory, which is 0 when it fails.
abbrev pub space_of : Faults → Counting → Option Tree → ℤ
space_of faults at none = pos 0
space_of faults at (some t) = if faults.space at then pos 0 else calculate_space t

abbrev pub recorded_or_zero : Option ℤ → ℤ
recorded_or_zero none = pos 0
recorded_or_zero (some n) = n

unfoldable pub evicted_size : Faults → String → Entry → ℤ
evicted_size faults name e =
    if equal_ℤ (space_of faults (evicting name) e.data_tree) (pos 0)
    then recorded_or_zero e.recorded
    else space_of faults (evicting name) e.data_tree

-- os.RemoveAll(objDir); s.updateCacheSize(ctx, -size)
unfoldable pub evict : Faults → String → Entry → Store → Store
unfolding update_cache_size evicted_size
evict faults name e s =
    (update_cache_size (faults.size (evicting name)) (neg64 (evicted_size faults name e))
      (record s { objects = delete name s.objects })).0

abbrev pub is_used_at : ℤ → Option Entry → Option Entry
is_used_at used none = none
is_used_at used (some e) = elim e.lock [
  | none ↦ none
  | some at ↦ if equal_ℤ at used then some e else none
]

-- The entry, if no pointer in s.objs holds on to the object and its access time is the one listed.
unfoldable pub evictable : ObjectInfo → Store → Option Entry
evictable o s = elim (lookup o.name s.objs) [
  | none ↦ is_used_at o.last_used (lookup o.name s.objects)
  | some p ↦ none
]

-- for _, obj := range objs: the store after it, and freedSoFar.
unfoldable pub evict_loop : Faults → ℤ → List ObjectInfo → ℤ → Store → Store × ℤ
unfolding evictable evict evicted_size
evict_loop faults goal [] freed s = (s, freed)
evict_loop faults goal (o ∷ os) freed s = elim (evictable o s) [
  | none ↦ evict_loop faults goal os freed s
  | some e ↦
      let total = add64 freed (evicted_size faults o.name e) in
      let rest = evict_loop faults goal os total (evict faults o.name e s) in
      if ltb_ℤ total goal then rest else (evict faults o.name e s, total)
]

-- sort.Slice is not stable and takes any order that the comparison allows: a parameter.
module _ (sort_by_use : List ObjectInfo → List ObjectInfo) where
  -- removeLRU: the store after it, and whether enough was freed.
  unfoldable pub remove_lru : Faults → ℤ → Store → Store × Bool
  unfolding object_infos evict_loop
  remove_lru faults required s =
      let done =
        evict_loop faults (mul64 required (pos 2)) (sort_by_use (object_infos s.objects)) (pos 0)
          s in
      if faults.read_dir then (s, false) else (done.0, not (ltb_ℤ done.1 required))
