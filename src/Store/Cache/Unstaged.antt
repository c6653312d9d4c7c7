-- ===== src/Store/Cache/Unstaged.antt =====
-- store/store.go: a Commit that stores an object removes its staging directory.
use image_assembler.Base.{
  ℕ, String, Bool, true, false, Option, none, some, List, ◌≡◌, refl, ap, subst, ◌∙◌, lookup,
  get_elem?, if◌then◌else◌, lookup-delete, str_eq_refl, get_elem?-set_self,
}
use image_assembler.Base.Int.{ℤ}
use image_assembler.Base.Result.{Result, ok, err, panic}
use image_assembler.Store.Size.{Tree}
use image_assembler.Store.Model.{
  store_is_read_only, creating_directory, creating_lock, committing_object, writing_info, in_cache,
  mode_read, Object, Entry, Store, storing, storing_again, Faults, Error,
}
use image_assembler.Store.Evict.{ObjectInfo, update_cache_size, remove_lru, space_of}
use image_assembler.Store.Evict.Keeps.{
  Keeps, Keeps-trans, update_cache_size-Keeps, remove_lru-Keeps,
}
use image_assembler.Store.Cache.{
  commit, commit_object, commit_tree, count_size, installed, tree_at, is_some, unstage,
}
use image_assembler.Store.Cache.Committed.{held_below}

-- The object reads from the cache, and its staging directory is gone.
abbrev pub Unstaged : ℕ → Object → String → String → Store → Type 0
Unstaged p o u object_id t =
    (get_elem? t.heap p
      ≡ some (record o { path = in_cache object_id; mode = mode_read; stage_path = none }))
    × (lookup u t.staged ≡ none)

module _ (sort_by_use : List ObjectInfo → List ObjectInfo) where
  count_size-Keeps :
      (faults : Faults) (size : ℤ) (s : Store) → Keeps s (count_size sort_by_use faults size s)
  unfolding count_size
  count_size-Keeps faults size s = by_fit (update_cache_size (faults.size storing) size s).1
    where
      once : Store
      once = (update_cache_size (faults.size storing) size s).0

      freed : Store
      freed = (remove_lru sort_by_use faults size once).0

      by_fit :
          (b : Bool)
          → Keeps s
              (if b then once else (update_cache_size (faults.size storing_again) size freed).0)
      by_fit true = update_cache_size-Keeps (faults.size storing) size s
      by_fit false =
          Keeps-trans s once (update_cache_size (faults.size storing_again) size freed).0
            (update_cache_size-Keeps (faults.size storing) size s)
            (Keeps-trans once freed (update_cache_size (faults.size storing_again) size freed).0
              (remove_lru-Keeps sort_by_use faults size once)
              (update_cache_size-Keeps (faults.size storing_again) size freed))

  installed-Unstaged :
      (faults : Faults) (now : ℤ) (p : ℕ) (o : Object) (u object_id : String) (t : Tree)
      (s s' : Store)
      → get_elem? s.heap p ≡ some o
      → o.stage_path ≡ some u
      → Keeps (installed faults now p o object_id t s) s'
      → Unstaged p o u object_id s'
  unfolding installed
  installed-Unstaged faults now p o u object_id t s s' held stage k = (
    ap (λ x. get_elem? x p) k.0 ∙ get_elem?-set_self s.heap p _ (held_below s.heap p held),
    ap (λ x. lookup u x) (k.1 ∙ ap (λ x. unstage x s.staged) stage)
        ∙ lookup-delete u u s.staged
        ∙ rw (str_eq_refl u) refl,
  )

  commit_tree-Unstaged :
      (faults : Faults) (now : ℤ) (p : ℕ) (o : Object) (u object_id : String) (t : Option Tree)
      (s s' : Store)
      → get_elem? s.heap p ≡ some o
      → o.stage_path ≡ some u
      → commit_tree sort_by_use faults now p o object_id t s ≡ (s', ok tt)
      → Unstaged p o u object_id s'
  unfolding commit_tree
  commit_tree-Unstaged faults now p o u object_id none s s' held stage h = cc
  commit_tree-Unstaged faults now p o u object_id (some t) s s' held stage h =
      by_faults faults.copy faults.info h
    where
      Goal : Store × Result {0, 0} Error Unit → Type 0
      Goal r = r ≡ (s', ok tt)

      stored : Store
      stored = installed faults now p o object_id t s

      counted : Store
      counted = count_size sort_by_use faults (space_of faults storing (some t)) stored

      by_faults :
          (copy info : Bool)
          → Goal (
              if copy
              then (s, err committing_object)
              else if info
              then (s, err writing_info)
              else (counted, ok tt))
          → Unstaged p o u object_id s'
      by_faults true info e = cc
      by_faults false true e = cc
      by_faults false false e = installed-Unstaged faults now p o u object_id t s s' held stage (
          subst (λ x. Keeps stored x) (ap (λ r. r.0) e)
            (count_size-Keeps faults (space_of faults storing (some t)) stored))

  pub commit-Unstaged :
      (faults : Faults) (now : ℤ) (p : ℕ) (o : Object) (u object_id : String) (s s' : Store)
      → get_elem? s.heap p ≡ some o
      → o.stage_path ≡ some u
      → lookup object_id s.objects ≡ none
      → commit sort_by_use faults now p object_id s ≡ (s', ok tt)
      → Unstaged p o u object_id s'
  unfolding commit commit_object
  commit-Unstaged faults now p o u object_id s s' held stage absent h =
      by_mode s.read_only (get_elem? s.heap p) held h
    where
      Goal : Store × Result {0, 0} Error Unit → Type 0
      Goal r = r ≡ (s', ok tt)

      by_dirs :
          (mkdir lock : Bool)
          → Goal (
              if mkdir
              then (s, err creating_directory)
              else if lock
              then (s, err creating_lock)
              else commit_tree sort_by_use faults now p o object_id (tree_at o.path s) s)
          → Unstaged p o u object_id s'
      by_dirs true lock e = cc
      by_dirs false true e = cc
      by_dirs false false e =
          commit_tree-Unstaged faults now p o u object_id (tree_at o.path s) s s' held stage e

      same_object : {a b : Object} → ◌≡◌ {A = Option Object} (some a) (some b) → a ≡ b
      same_object h' = cc

      by_lookup :
          (found : Option Entry)
          → found ≡ none
          → Goal (
              if is_some found
              then (s, ok tt)
              else if faults.mkdir
              then (s, err creating_directory)
              else if faults.lock
              then (s, err creating_lock)
              else commit_tree sort_by_use faults now p o object_id (tree_at o.path s) s)
          → Unstaged p o u object_id s'
      by_lookup (some x) there e = cc
      by_lookup none there e = by_dirs faults.mkdir faults.lock e

      by_mode :
          (read_only : Bool) (found : Option Object)
          → found ≡ some o
          → Goal (
              if read_only
              then (s, err store_is_read_only)
              else elim found as (λ f. Store × Result {0, 0} Error Unit) [
                | none ↦ (s, panic)
                | some o' ↦ commit_object sort_by_use faults now p o' object_id s
              ])
          → Unstaged p o u object_id s'
      by_mode true found same e = cc
      by_mode false none same e = cc
      by_mode false (some o') same e = by_lookup (lookup object_id s.objects) absent (
          subst (λ x. commit_object sort_by_use faults now p x object_id s ≡ (s', ok tt))
            (same_object same) e)
