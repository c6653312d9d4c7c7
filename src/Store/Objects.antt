-- ===== src/Store/Objects.antt =====
-- store/object.go and the end of a store (store/store.go): filling, finalizing and closing objects.
use image_assembler.Base.{
  ℕ, Bool, true, false, ◌&&◌, Option, none, some, List, [], ◌∷◌, Map, lookup, insert, get_elem?,
  set, if◌then◌else◌,
}
use image_assembler.Base.Result.{Result, ok, err, panic}
use image_assembler.Store.Size.{Tree}
use image_assembler.Store.Model.{
  Place, in_stage, in_cache, ObjectMode, mode_read, mode_write, Object, Store, Faults, Error,
  clamping_mtime, copying_base, not_in_write_mode, not_in_write_mode,
}
use image_assembler.Store.Cache.{is_some, tree_at, unstage}

abbrev pub finalize_object :
    Bool → ℕ → Object → ObjectMode → Store → Store × Result {0, 0} Error Unit
finalize_object clamp_fails p o mode_read s = (s, ok tt)
finalize_object clamp_fails p o mode_write s =
    if is_some o.source_epoch && clamp_fails
    then (s, err clamping_mtime)
    else (record s { heap = set s.heap p (record o { mode = mode_read }) }, ok tt)

-- Object.Finalize
unfoldable pub finalize : Bool → ℕ → Store → Store × Result {0, 0} Error Unit
finalize clamp_fails p s = elim (get_elem? s.heap p) [
  | none ↦ (s, panic)
  | some o ↦ finalize_object clamp_fails p o o.mode s
]

-- The files of a tree that is there are written over.
unfoldable pub write_tree : Place → Tree → Store → Store
write_tree (in_stage uuid) t s =
    if is_some (lookup uuid s.staged) then record s { staged = insert uuid t s.staged } else s
write_tree (in_cache id) t s = elim (lookup id s.objects) [
  | none ↦ s
  | some e ↦ record s { objects = insert id (record e { data_tree = some t }) s.objects }
]

abbrev pub copied : Faults → Place → Option Tree → Store → Store × Result {0, 0} Error Unit
copied faults to none s = (s, err copying_base)
copied faults to (some t) s =
    if faults.copy then (s, err copying_base) else (write_tree to t s, ok tt)

abbrev pub init_object :
    Faults → Object → Object → ObjectMode → Store → Store × Result {0, 0} Error Unit
init_object faults o base mode_read s = (s, err not_in_write_mode)
init_object faults o base mode_write s = copied faults o.path (tree_at base.path s) s

-- Object.Init, on an object whose directory is as New made it: the base's files are all that is
-- there then.
unfoldable pub init : Faults → ℕ → ℕ → Store → Store × Result {0, 0} Error Unit
unfolding write_tree tree_at
init faults p b s = elim (get_elem? s.heap p) [
  | none ↦ (s, panic)
  | some o ↦ elim (get_elem? s.heap b) [
    | none ↦ (s, panic)
    | some base ↦ init_object faults o base o.mode s
  ]
]

abbrev pub is_write : ObjectMode → Bool
is_write mode_read = false
is_write mode_write = true

-- Object.Close
unfoldable pub close_object : Object → Map Tree → Map Tree
close_object o staged = if is_write o.mode then unstage o.stage_path staged else staged

-- for _, obj := range s.objs { obj.Close() }
unfoldable pub close_all : List Object → Map ℕ → Map Tree → Map Tree
unfolding close_object
close_all heap [] staged = staged
close_all heap ((id, p) ∷ objs) staged =
    close_all heap objs (elim (get_elem? heap p) [ none ↦ staged | some o ↦ close_object o staged ])

-- Store.Close. Whether the host tree is there is all that the state has of it.
unfoldable pub close : Store → Store
unfolding close_all
close s = record s {
  staged = close_all s.heap s.objs s.staged;
  objs = [];
  host_tree = false;
  lock_held = false;
}
