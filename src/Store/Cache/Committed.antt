-- ===== src/Store/Cache/Committed.antt =====
-- store/store.go: what Commit leaves behind.
use image_assembler.Base.{
  ℕ, zero, suc, String, Bool, true, false, List, [], ◌∷◌, none, some, ◌≡◌, refl, ◌≢◌, arith, lookup,
  insert, get_elem?, set, str_eq, str_eq_iff, lookup-insert, if◌then◌else◌, lookup-insert_self,
  get_elem?-set_self, length, ◌<◌,
}
use image_assembler.Base.Int.{ℤ}
use image_assembler.Base.Result.{ok}
use image_assembler.Store.Size.{Tree}
use image_assembler.Store.Model.{
  in_cache, mode_read, Object, Entry, Store, SizeFaults, storing, Faults,
}
use image_assembler.Store.Evict.{
  ObjectInfo, update_cache_size, over_limit, new_size, space_of, size_read, size_left,
}
use image_assembler.Store.Cache.{commit, commit_object, commit_tree, count_size, installed, tree_at}

update_cache_size_fits :
    (faults : SizeFaults) (size : ℤ) (s : Store)
    → over_limit (size_read faults s) s.maximum_size size ≡ false
    → ((update_cache_size faults size s).1 ≡ true)
      × ((update_cache_size faults size s).0.objects ≡ s.objects)
      × ((update_cache_size faults size s).0.heap ≡ s.heap)
unfolding update_cache_size
update_cache_size_fits faults size s fits = rw fits (by_fault faults.unusable)
  where
    after : Bool → Store × Bool
    after unusable = if unusable then (s, true) else (
      record s {
        size_file = size_left faults.written s.size_file (new_size (size_read faults s) size);
      },
      true,
    )

    by_fault :
        (a : Bool)
        → ((after a).1 ≡ true) × ((after a).0.objects ≡ s.objects) × ((after a).0.heap ≡ s.heap)
    by_fault true = (refl, refl, refl)
    by_fault false = (refl, refl, refl)

pub held_below {ℓ} :
    {A : Type ℓ} (xs : List A) (i : ℕ) {x : A} → get_elem? xs i ≡ some x → i < length xs
held_below [] i h = cc
held_below (x ∷ xs) zero h = omega arith
held_below (x ∷ xs) (suc i) h = omega (arith, held_below xs i h)

module _ (sort_by_use : List ObjectInfo → List ObjectInfo) where
  -- A size that the limit does not forbid is counted without an eviction.
  count_size_keeps :
      (faults : Faults) (size : ℤ) (s : Store)
      → over_limit (size_read (faults.size storing) s) s.maximum_size size ≡ false
      → ((count_size sort_by_use faults size s).objects ≡ s.objects)
        × ((count_size sort_by_use faults size s).heap ≡ s.heap)
  unfolding count_size
  count_size_keeps faults size s fits =
      let counted = update_cache_size_fits (faults.size storing) size s fits in
      rw (counted.0) (counted.1, counted.2)

  commit_installs :
      (faults : Faults) (now : ℤ) (p : ℕ) (o : Object) (object_id : String) (t : Tree) (s : Store)
      → s.read_only ≡ false
      → get_elem? s.heap p ≡ some o
      → tree_at o.path s ≡ some t
      → lookup object_id s.objects ≡ none
      → (faults.mkdir ≡ false)
        × (faults.lock ≡ false)
        × (faults.copy ≡ false)
        × (faults.info ≡ false)
      → commit sort_by_use faults now p object_id s ≡ (
        count_size sort_by_use faults
            (space_of faults storing (some t))
            (installed faults now p o object_id t s),
        ok tt,
      )
  unfolding commit commit_object commit_tree
  commit_installs faults now p o object_id t s writable held at_path fresh (m, l, c, i) =
      simp (writable, held, fresh, m, l, at_path, c, i)

  -- If nothing fails, the object is not there yet and the limit does not forbid its size, added to what
  -- is read from cache.size, then Commit returns nil, and stores under the ID the tree that the object
  -- holds; the store contains the ID then, the object itself reads from the cache, and every other entry
  -- is as it was.
  pub commit_stores :
      (faults : Faults) (now : ℤ) (p : ℕ) (o : Object) (object_id : String) (t : Tree) (s : Store)
      → s.read_only ≡ false
      → get_elem? s.heap p ≡ some o
      → tree_at o.path s ≡ some t
      → lookup object_id s.objects ≡ none
      → (faults.mkdir ≡ false)
        × (faults.lock ≡ false)
        × (faults.copy ≡ false)
        × (faults.info ≡ false)
      → over_limit
          (size_read (faults.size storing) s)
          s.maximum_size
          (space_of faults storing (some t))
        ≡ false
      → let r = commit sort_by_use faults now p object_id s in
        (r.1 ≡ ok tt)
        × (tree_at (in_cache object_id) r.0 ≡ some t)
        × (get_elem? r.0.heap p
            ≡ some (record o { path = in_cache object_id; mode = mode_read; stage_path = none }))
        × ((j : String) → object_id ≢ j → lookup j r.0.objects ≡ lookup j s.objects)
  unfolding installed tree_at
  commit_stores faults now p o object_id t s writable held at_path fresh fine fits =
      rw
        (
          commit_installs faults now p o object_id t s writable held at_path fresh fine,
          kept.0,
          kept.1,
        )
        (
          refl,
          rw (tree_at, lookup-insert_self object_id stored s.objects),
          get_elem?-set_self s.heap p reader (held_below s.heap p held),
          λ j ne. rw (lookup-insert object_id j stored s.objects, other j ne),
        )
    where
      stored : Entry
      stored = record {
        lock = some now;
        data_tree = some t;
        recorded = some (space_of faults storing (some t));
      }

      reader : Object
      reader = record o { path = in_cache object_id; mode = mode_read; stage_path = none }

      kept :
          ((count_size sort_by_use faults
              (space_of faults storing (some t))
              (installed faults now p o object_id t s)).objects
            ≡ insert object_id stored s.objects)
          × ((count_size sort_by_use faults
                (space_of faults storing (some t))
                (installed faults now p o object_id t s)).heap
              ≡ set s.heap p reader)
      kept =
          count_size_keeps faults (space_of faults storing (some t))
            (installed faults now p o object_id t s) fits

      other : (j : String) → object_id ≢ j → str_eq object_id j ≡ false
      other j ne = ground (arith, str_eq_iff object_id j)
