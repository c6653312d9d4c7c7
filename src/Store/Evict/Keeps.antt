-- ===== src/Store/Evict/Keeps.antt =====
-- store/store.go: counting a size and evicting leave the objects in the process and the staging
-- directories alone.
use image_assembler.Base.{
  Bool, true, false, not, List, [], ◌∷◌, Option, none, some, ◌≡◌, refl, ◌∙◌, if◌then◌else◌, String,
}
use image_assembler.Base.Int.{ℤ, pos}
use image_assembler.Base.Int64.{add64, mul64}
use image_assembler.Store.Model.{Entry, Store, SizeFaults, evicting, Faults}
use image_assembler.Store.Evict.{
  ObjectInfo, update_cache_size, over_limit, new_size, evictable, evict, evicted_size, evict_loop,
  ltb_ℤ, remove_lru, size_read, size_left, object_infos,
}

abbrev pub Keeps : Store → Store → Type 0
Keeps s t = (t.heap ≡ s.heap) × (t.staged ≡ s.staged)

pub Keeps-trans : (s t u : Store) → Keeps s t → Keeps t u → Keeps s u
Keeps-trans s t u h k = (k.0 ∙ h.0, k.1 ∙ h.1)

pub update_cache_size-Keeps :
    (faults : SizeFaults) (diff : ℤ) (s : Store) → Keeps s (update_cache_size faults diff s).0
unfolding update_cache_size
update_cache_size-Keeps faults diff s =
    by_tests faults.unusable (over_limit (size_read faults s) s.maximum_size diff)
  where
    Goal : Store × Bool → Type 0
    Goal r = Keeps s r.0

    by_tests :
        (a b : Bool)
        → Goal (
            if a then (s, true) else if b then (s, false) else (
              record s {
                size_file =
                    size_left faults.written s.size_file (new_size (size_read faults s) diff);
              },
              true,
            ))
    by_tests true b = (refl, refl)
    by_tests false true = (refl, refl)
    by_tests false false = (refl, refl)

evict-Keeps :
    (faults : Faults) (name : String) (e : Entry) (s : Store) → Keeps s (evict faults name e s)
unfolding evict
evict-Keeps faults name e s = update_cache_size-Keeps (faults.size (evicting name)) _ _

evict_loop-Keeps :
    (faults : Faults) (goal : ℤ) (os : List ObjectInfo) (freed : ℤ) (s : Store)
    → Keeps s (evict_loop faults goal os freed s).0
unfolding evict_loop
evict_loop-Keeps faults goal [] freed s = (refl, refl)
evict_loop-Keeps faults goal (o ∷ os) freed s =
    by_entry (evictable o s) (λ total t. evict_loop-Keeps faults goal os total t)
  where
    Goal : Store × ℤ → Type 0
    Goal r = Keeps s r.0

    Rest : Type 0
    Rest = (total : ℤ) (t : Store) → Keeps t (evict_loop faults goal os total t).0

    after : Entry → Store
    after e = evict faults o.name e s

    by_goal :
        (e : Entry) (total : ℤ)
        → Rest
        → (b : Bool)
        → Goal (if b then evict_loop faults goal os total (after e) else (after e, total))
    by_goal e total ih true =
        Keeps-trans s (after e) (evict_loop faults goal os total (after e)).0
          (evict-Keeps faults o.name e s) (ih total (after e))
    by_goal e total ih false = evict-Keeps faults o.name e s

    by_entry :
        (found : Option Entry)
        → Rest
        → Goal (elim found as (λ f. Store × ℤ) [
          | none ↦ evict_loop faults goal os freed s
          | some e ↦
              let total = add64 freed (evicted_size faults o.name e) in
              let rest = evict_loop faults goal os total (after e) in
              if ltb_ℤ total goal then rest else (after e, total)
        ])
    by_entry none ih = ih freed s
    by_entry (some e) ih =
        let total = add64 freed (evicted_size faults o.name e) in
        by_goal e total ih (ltb_ℤ total goal)

module _ (sort_by_use : List ObjectInfo → List ObjectInfo) where
  pub remove_lru-Keeps :
      (faults : Faults) (required : ℤ) (s : Store)
      → Keeps s (remove_lru sort_by_use faults required s).0
  unfolding remove_lru
  remove_lru-Keeps faults required s = by_listing faults.read_dir
    where
      done : Store × ℤ
      done =
          evict_loop faults (mul64 required (pos 2)) (sort_by_use (object_infos s.objects)) (pos 0)
            s

      Goal : Store × Bool → Type 0
      Goal r = Keeps s r.0

      by_listing :
          (b : Bool) → Goal (if b then (s, false) else (done.0, not (ltb_ℤ done.1 required)))
      by_listing true = (refl, refl)
      by_listing false = evict_loop-Keeps faults _ _ _ s
