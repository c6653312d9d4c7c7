-- ===== src/Store/Cache/Bounded.antt =====
-- store/store.go: Commit keeps the recorded size within the limit.
use image_assembler.Base.{
  ℕ, ◌-◌, ◌^◌, String, Bool, true, false, List, Option, none, some, arith, lookup, get_elem?,
  if◌then◌else◌, Bool-cases, inl, inr,
}
use image_assembler.Base.Int.{ℤ, pos, negsuc, ◌≤ℤ◌}
use image_assembler.Base.Result.{Result, ok, err, panic}
use image_assembler.Store.Size.{Tree, calculate_space}
use image_assembler.Store.Size.Bounds.{calculate_space_ge}
use image_assembler.Store.Model.{
  committing_object, writing_info, store_is_read_only, creating_directory, creating_lock, Object,
  Store, storing, storing_again, Faults, Error,
}
use image_assembler.Store.Evict.{ObjectInfo, update_cache_size, remove_lru, space_of}
use image_assembler.Store.Evict.Limit.{
  IsWithinLimit, update_cache_size-IsWithinLimit, remove_lru-IsWithinLimit,
}
use image_assembler.Store.Cache.{
  commit, commit_object, commit_tree, count_size, installed, tree_at, is_some,
}

space_of_ge : (faults : Faults) (t : Tree) → negsuc (2 ^ 63 - 1) ≤ℤ space_of faults storing (some t)
space_of_ge faults t = by_fault (faults.space storing)
  where
    by_fault : (b : Bool) → negsuc (2 ^ 63 - 1) ≤ℤ (if b then pos 0 else calculate_space t)
    by_fault true = omega arith
    by_fault false = calculate_space_ge t

module _ (sort_by_use : List ObjectInfo → List ObjectInfo) where
  count_size-IsWithinLimit :
      (faults : Faults) (size : ℤ) (s : Store)
      → negsuc (2 ^ 63 - 1) ≤ℤ size
      → IsWithinLimit s
      → IsWithinLimit (count_size sort_by_use faults size s)
  unfolding count_size
  count_size-IsWithinLimit faults size s lo w =
      elim (Bool-cases (update_cache_size (faults.size storing) size s).1) [
        | inl e ↦ rw e (update_cache_size-IsWithinLimit (faults.size storing) size s lo w)
        | inr e ↦ rw e (
            update_cache_size-IsWithinLimit (faults.size storing_again) size
              (remove_lru sort_by_use faults size
                (update_cache_size (faults.size storing) size s).0).0
              lo
              (remove_lru-IsWithinLimit sort_by_use faults size
                (update_cache_size (faults.size storing) size s).0
                (update_cache_size-IsWithinLimit (faults.size storing) size s lo w)))
      ]

  commit_tree-IsWithinLimit :
      (faults : Faults) (now : ℤ) (p : ℕ) (o : Object) (object_id : String) (t : Option Tree)
      (s : Store)
      → IsWithinLimit s
      → IsWithinLimit (commit_tree sort_by_use faults now p o object_id t s).0
  unfolding commit_tree installed
  commit_tree-IsWithinLimit faults now p o object_id none s w = w
  commit_tree-IsWithinLimit faults now p o object_id (some t) s w =
      by_faults faults.copy faults.info
    where
      stored : Store
      stored = installed faults now p o object_id t s

      after : Bool → Bool → Store × Result {0, 0} Error Unit
      after copy info =
          if copy
          then (s, err committing_object)
          else if info
          then (s, err writing_info)
          else (count_size sort_by_use faults (space_of faults storing (some t)) stored, ok tt)

      by_faults : (copy info : Bool) → IsWithinLimit (after copy info).0
      by_faults true info = w
      by_faults false true = w
      by_faults false false =
          count_size-IsWithinLimit faults (space_of faults storing (some t)) stored
            (space_of_ge faults t) w

  commit_object-IsWithinLimit :
      (faults : Faults) (now : ℤ) (p : ℕ) (o : Object) (object_id : String) (s : Store)
      → IsWithinLimit s
      → IsWithinLimit (commit_object sort_by_use faults now p o object_id s).0
  unfolding commit_object
  commit_object-IsWithinLimit faults now p o object_id s w =
      by_faults (is_some (lookup object_id s.objects)) faults.mkdir faults.lock
    where
      after : Bool → Bool → Bool → Store × Result {0, 0} Error Unit
      after there mkdir lock =
          if there
          then (s, ok tt)
          else if mkdir
          then (s, err creating_directory)
          else if lock
          then (s, err creating_lock)
          else commit_tree sort_by_use faults now p o object_id (tree_at o.path s) s

      by_faults : (there mkdir lock : Bool) → IsWithinLimit (after there mkdir lock).0
      by_faults true mkdir lock = w
      by_faults false true lock = w
      by_faults false false true = w
      by_faults false false false =
          commit_tree-IsWithinLimit faults now p o object_id (tree_at o.path s) s w

  -- If a limit is set and cache.size holds a number from 0 to the limit, 0 standing for a file without
  -- a number, then it does so after Commit, whatever Commit returns, and whichever calls fail, each by
  -- itself: the calls that make the object's directory, its files and its copy, ReadDir, each
  -- calculateSpace, and each time that cache.size is opened, locked, read or written, the last two also
  -- by stopping halfway.
  pub commit-IsWithinLimit :
      (faults : Faults) (now : ℤ) (p : ℕ) (object_id : String) (s : Store)
      → IsWithinLimit s
      → IsWithinLimit (commit sort_by_use faults now p object_id s).0
  unfolding commit
  commit-IsWithinLimit faults now p object_id s w = by_heap s.read_only (get_elem? s.heap p)
    where
      after : Option Object → Store × Result {0, 0} Error Unit
      after none = (s, panic)
      after (some o) = commit_object sort_by_use faults now p o object_id s

      by_heap :
          (read_only : Bool) (found : Option Object)
          → IsWithinLimit (if read_only then (s, err store_is_read_only) else after found).0
      by_heap true found = w
      by_heap false none = w
      by_heap false (some o) = commit_object-IsWithinLimit faults now p o object_id s w
