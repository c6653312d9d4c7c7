-- ===== src/Build/Export/Cached.antt =====
-- build/export.go: Export of a pipeline that was committed in an earlier run.
use image_assembler.Base.{
  ℕ, String, false, Option, none, some, ◌≡◌, refl, ap, ◌∙◌, lookup, insert, get_elem?, length,
  lookup-insert_self, get_elem?-append_last,
}
use image_assembler.Base.Int.{ℤ}
use image_assembler.Base.Result.{Result, ok}
use image_assembler.Manifest.Model.{Pipeline, Manifest}
use image_assembler.Manifest.Ident.{pipeline_id}
use image_assembler.Store.Model.{Object, Entry, Store, Faults, Error}
use image_assembler.Store.Size.{Tree, Trees, dir}
use image_assembler.Store.Cache.{get, get_entry, get_data, tree_at, touch, allocate, cached_object}
use image_assembler.Build.Action.{World}
use image_assembler.Build.All.{find_pipeline}
use image_assembler.Build.Export.{
  export, export_found, export_object, copy_out, exported_tree, entry_named, directory,
}

-- The store after the access time of an entry was set and an object for it was made.
abbrev gotten : ℤ → String → Entry → Store → Store
gotten now id e s =
    allocate (cached_object id) (record s { objects = insert id (touch now e) s.objects })

get-cached :
    (faults : Faults) (now : ℤ) (id : String) (e : Entry) (t : Tree) (s : Store)
    → lookup id s.objs ≡ none
    → lookup id s.objects ≡ some e
    → e.data_tree ≡ some t
    → faults.metadata ≡ false
    → ◌≡◌ {A = Store × Result {0, 0} Error (Option ℕ)}
        (get faults now id s)
        (gotten now id e s, ok (some (length s.heap)))
unfolding get get_entry get_data
get-cached faults now id e t s fresh there holds works =
    rw (get, fresh) (rw (get_entry, there) (by_data e.data_tree holds))
  where
    by_data :
        (d : Option Tree)
        → d ≡ some t
        → ◌≡◌ {A = Store × Result {0, 0} Error (Option ℕ)}
            (get_data faults now id e d s)
            (gotten now id e s, ok (some (length s.heap)))
    by_data none same = cc
    by_data (some d) same = rw works refl

-- A pipeline that the manifest has, under its name or its ID, and whose object is in the cache, with
-- none of this run standing for it in s.objs, is exported, if no call fails, as the directory "tree"
-- of the data that the cache holds for it.
pub export-cached :
    (world : World) (tick : ℕ) (m : Manifest) (name : String) (p : Pipeline) (e : Entry)
    (blocks tree_blocks : ℕ) (below inside : Trees) (s : Store)
    → find_pipeline world m name ≡ some p
    → lookup (pipeline_id world.lib p) s.objs ≡ none
    → lookup (pipeline_id world.lib p) s.objects ≡ some e
    → e.data_tree ≡ some (dir blocks below)
    → entry_named "tree" below ≡ some (dir tree_blocks inside)
    → (world.faults tick).metadata ≡ false
    → (export world false false tick m name s).1 ≡ ok (dir tree_blocks inside)
unfolding export tree_at exported_tree
export-cached world tick m name p e blocks tree_blocks below inside s found fresh there holds within
      works =
    let id = pipeline_id world.lib p in
    rw found (
      ap (λ r. (export_found world false false r).1)
        (get-cached (world.faults tick) (world.now tick) id e (dir blocks below) s fresh there holds
          works)
      ∙ by_heap (get_elem? (gotten (world.now tick) id e s).heap (length s.heap))
          (get_elem?-append_last s.heap (cached_object id)))
  where
    by_heap :
        (o : Option Object)
        → o ≡ some (cached_object (pipeline_id world.lib p))
        → (export_object world false false o
            (gotten (world.now tick) (pipeline_id world.lib p) e s)).1
          ≡ ok (dir tree_blocks inside)
    by_heap o same =
        ap
          (λ x.
            (export_object world false false x
              (gotten (world.now tick) (pipeline_id world.lib p) e s)).1)
          same
        ∙ ap (copy_out world false false) (
            ap exported_tree (
              ap (λ x. elim x as (λ y. Option Tree) [ none ↦ none | some e' ↦ e'.data_tree ])
                (lookup-insert_self (pipeline_id world.lib p) (touch (world.now tick) e) s.objects)
              ∙ holds)
            ∙ ap directory within)
