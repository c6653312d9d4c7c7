-- ===== src/Build/Export.antt =====
-- build/export.go: the copy of a pipeline's tree out of the store. Whether the calls of the operating
-- system fail is an argument.
use image_assembler.Base.{
  ℕ, suc, String, Bool, true, false, Option, none, some, if◌then◌else◌, get_elem?, str_eq,
}
use image_assembler.Base.Result.{Result, ok, err, panic}
use image_assembler.Manifest.Model.{Pipeline, Manifest}
use image_assembler.Manifest.Ident.{pipeline_id}
use image_assembler.Store.Model.{Place, Object, Store, Error}
use image_assembler.Store.Size.{Tree, Trees, leaf, dir, done, and}
use image_assembler.Store.Cache.{get, tree_at}
use image_assembler.Build.Action.{World}
use image_assembler.Build.All.{find_pipeline}
pub mod Cached

pub data ExportError : Type 0 where
  no_such_pipeline : ExportError
  getting_object : Error → ExportError
  not_in_store : ExportError
  making_directory : ExportError
  copying_tree : ExportError

unfoldable pub entry_named : String → Trees → Option Tree
entry_named name done = none
entry_named name (and n t ts) =
    let rest = entry_named name ts in if str_eq n name then some t else rest

-- What a path that ends in /. leads to.
abbrev pub directory : Option Tree → Option Tree
directory none = none
directory (some (leaf blocks content)) = none
directory (some (dir blocks below)) = some (dir blocks below)

-- obj.Tree() and /.: the directory "tree" of an object's data.
unfoldable pub exported_tree : Option Tree → Option Tree
unfolding entry_named
exported_tree none = none
exported_tree (some (leaf blocks content)) = none
exported_tree (some (dir blocks below)) = directory (entry_named "tree" below)

module _ (world : World) (mkdir_fails copy_fails : Bool) where
  open world use {lib, faults, now}

  -- obj.Export: what cp -a copies, which is the tree as it is.
  abbrev pub copy_out : Option Tree → Result ExportError Tree
  copy_out none = err copying_tree
  copy_out (some t) = if copy_fails then err copying_tree else ok t

  abbrev pub export_object : Option Object → Store → Store × Result ExportError Tree
  export_object none s = (s, panic)
  export_object (some o) s =
      if mkdir_fails
      then (s, err making_directory)
      else (s, copy_out (exported_tree (tree_at o.path s)))

  abbrev pub export_found : Store × Result {0, 0} Error (Option ℕ) → Store × Result ExportError Tree
  export_found (s, ok (some q)) = export_object (get_elem? s.heap q) s
  export_found (s, ok none) = (s, err not_in_store)
  export_found (s, err e) = (s, err (getting_object e))
  export_found (s, panic) = (s, panic)

  abbrev pub export_pipeline : ℕ → Option Pipeline → Store → Store × Result ExportError Tree
  export_pipeline tick none s = (s, err no_such_pipeline)
  export_pipeline tick (some p) s =
      export_found (get (faults tick) (now tick) (pipeline_id lib p) s)

  -- Export: the tree that comes to the output directory.
  unfoldable pub export : ℕ → Manifest → String → Store → Store × Result ExportError Tree
  unfolding find_pipeline get tree_at exported_tree
  export tick m name s = export_pipeline tick (find_pipeline world m name) s
