-- ===== src/Store/Cache.antt =====
-- store/store.go and store/object.go: the operations of a store and its objects. The time of a call
-- and the faults that it meets are arguments. Times of modification are no part of the state, so
-- that ClampMtime only decides between success and failure.
use image_assembler.Base.{
  ℕ, suc, String, Bool, true, false, not, ◌&&◌, Option, none, some, List, [], ◌∷◌, ◌++◌, Map,
  lookup, insert, delete, str_eq, length, get_elem?, set, if◌then◌else◌, map,
}
use image_assembler.Base.Int.{ℤ, pos, negsuc, ltb_ℤ}
use image_assembler.Base.Result.{Result, ok, err, panic}
use image_assembler.Value.{Value, text, int, int64}
use image_assembler.Store.Size.{Tree, calculate_space}
use image_assembler.Store.Model.{
  Place, in_stage, in_cache, ObjectMode, mode_read, mode_write, Object, Entry, Store, Faults,
  storing, storing_again, Error, store_is_read_only, creating_directory, creating_lock,
  committing_object, writing_info, loading_metadata, reading_info, clamping_mtime, copying_base,
  not_in_write_mode, making_host_tree, not_in_write_mode,
}
use image_assembler.Store.Evict.{ObjectInfo, update_cache_size, remove_lru, space_of}
pub mod Bounded
pub mod Committed
pub mod Unstaged

abbrev pub is_some {ℓ} : {A : Type ℓ} → Option A → Bool
is_some none = false
is_some (some a) = true

abbrev pub has_lock : Option Entry → Bool
has_lock none = false
has_lock (some e) = is_some e.lock

-- Contains
unfoldable pub contains : String → Store → Bool
contains id s =
    if str_eq id ""
    then false
    else if is_some (lookup id s.objs)
    then true
    else has_lock (lookup id s.objects)

-- UtimesNanoAt on object.lock, whose error is ignored.
abbrev pub touch : ℤ → Entry → Entry
touch now e = record e { lock = elim e.lock [ none ↦ none | some used ↦ some now ] }

abbrev pub allocate : Object → Store → Store
allocate o s = record s { heap = s.heap ++ o ∷ [] }

-- The object that Get makes of an entry.
abbrev pub cached_object : String → Object
cached_object id = record {
  id = id;
  mode = mode_read;
  path = in_cache id;
  stage_path = none;
  meta_path = in_cache id;
  source_epoch = none;
}

unfoldable pub get_data :
    Faults → ℤ → String → Entry → Option Tree → Store → Store × Result Error (Option ℕ)
get_data faults now id e none s = (s, ok none)
get_data faults now id e (some t) s =
    let touched = record s { objects = insert id (touch now e) s.objects } in
    if faults.metadata
    then (touched, err loading_metadata)
    else (allocate (cached_object id) touched, ok (some (length s.heap)))

unfoldable pub get_entry :
    Faults → ℤ → String → Option Entry → Store → Store × Result Error (Option ℕ)
unfolding get_data
get_entry faults now id none s = (s, ok none)
get_entry faults now id (some e) s = get_data faults now id e e.data_tree s

-- Get: a pointer to the object, or none where it returns nil. That the data directory can be there
-- and os.Stat fail on it is left out.
unfoldable pub get : Faults → ℤ → String → Store → Store × Result Error (Option ℕ)
unfolding get_entry
get faults now id s = elim (lookup id s.objs) [
  | some p ↦ (s, ok (some p))
  | none ↦ get_entry faults now id (lookup id s.objects) s
]

-- GetHostTree, with whether NewHostTree fails.
unfoldable pub get_host_tree : Bool → Store → Store × Result {0, 0} Error Unit
get_host_tree fails s =
    if s.host_tree
    then (s, ok tt)
    else if fails
    then (s, err making_host_tree)
    else (record s { host_tree = true }, ok tt)

-- The object that New makes.
abbrev pub staged_object : String → String → Object
staged_object uuid id = record {
  id = id;
  mode = mode_write;
  path = in_stage uuid;
  stage_path = some uuid;
  meta_path = in_stage uuid;
  source_epoch = none;
}

-- New. The identifier of the staging directory and what it occupies when it is made are arguments.
unfoldable pub new : Faults → String → Tree → String → Store → Store × Result Error ℕ
new faults uuid fresh id s =
    if s.read_only
    then (s, err store_is_read_only)
    else if faults.mkdir
    then (s, err creating_directory)
    else if faults.lock
    then (s, err creating_lock)
    else if faults.metadata
    then (s, err loading_metadata)
    else (
      record s {
        staged = insert uuid fresh s.staged;
        heap = s.heap ++ staged_object uuid id ∷ [];
        objs = insert id (length s.heap) s.objs;
      },
      ok (length s.heap),
    )

-- What cp reads below obj.Path().
unfoldable pub tree_at : Place → Store → Option Tree
tree_at (in_stage uuid) s = lookup uuid s.staged
tree_at (in_cache id) s = elim (lookup id s.objects) [ none ↦ none | some e ↦ e.data_tree ]

-- if obj.stagePath != "" { os.RemoveAll(obj.stagePath) }
abbrev pub unstage : Option String → Map Tree → Map Tree
unstage none m = m
unstage (some uuid) m = delete uuid m

-- The files written: object.lock, data and object.info stand, the staging directory is gone, and
-- the object reads from the cache.
unfoldable pub installed : Faults → ℤ → ℕ → Object → String → Tree → Store → Store
installed faults now p o object_id t s = record s {
  objects =
      insert object_id
        (record {
          lock = some now;
          data_tree = some t;
          recorded = some (space_of faults storing (some t));
        })
        s.objects;
  staged = unstage o.stage_path s.staged;
  heap = set s.heap p (record o { path = in_cache object_id; mode = mode_read; stage_path = none });
}

module _ (sort_by_use : List ObjectInfo → List ObjectInfo) where
  -- if !s.updateCacheSize(...) { s.removeLRU(...); s.updateCacheSize(...) }
  unfoldable pub count_size : Faults → ℤ → Store → Store
  count_size faults size s =
      let once = update_cache_size (faults.size storing) size s in
      if once.1
      then once.0
      else (update_cache_size (faults.size storing_again) size
          (remove_lru sort_by_use faults size once.0).0).0

  -- From the copy on, with what cp finds below obj.Path().
  unfoldable pub commit_tree :
      Faults → ℤ → ℕ → Object → String → Option Tree → Store → Store × Result {0, 0} Error Unit
  commit_tree faults now p o object_id none s = (s, err committing_object)
  commit_tree faults now p o object_id (some t) s =
      if faults.copy
      then (s, err committing_object)
      else if faults.info
      then (s, err writing_info)
      else (
        count_size faults (space_of faults storing (some t))
            (installed faults now p o object_id t s),
        ok tt,
      )

  unfoldable pub commit_object :
      Faults → ℤ → ℕ → Object → String → Store → Store × Result {0, 0} Error Unit
  commit_object faults now p o object_id s =
      if is_some (lookup object_id s.objects)
      then (s, ok tt)
      else if faults.mkdir
      then (s, err creating_directory)
      else if faults.lock
      then (s, err creating_lock)
      else commit_tree faults now p o object_id (tree_at o.path s) s

  -- Commit. An error return removes the directory that it made.
  unfoldable pub commit : Faults → ℤ → ℕ → String → Store → Store × Result {0, 0} Error Unit
  commit faults now p object_id s =
      if s.read_only then (s, err store_is_read_only) else elim (get_elem? s.heap p) [
        | none ↦ (s, panic)
        | some o ↦ commit_object faults now p o object_id s
      ]

-- SetMaximumSize, where cache.info is not the JSON text null and the final write succeeds.
unfoldable pub set_maximum_size : ℤ → Store → Store × Result {0, 0} Error Unit
set_maximum_size size s = elim s.info_file [
  | none ↦ (record s { maximum_size = size }, err reading_info)
  | some found ↦
      (record s { maximum_size = size; info_file = some (some (limited (info found))) }, ok tt)
]
  where
    info : Option (Map Value) → Map Value
    info none = ("version", int (pos 1)) ∷ []
    info (some m) = m

    limited : Map Value → Map Value
    limited m =
        if ltb_ℤ size (pos 0)
        then insert "maximum-size" (text "unlimited") m
        else if ltb_ℤ (pos 0) size
        then insert "maximum-size" (int64 size) m
        else delete "maximum-size" m
