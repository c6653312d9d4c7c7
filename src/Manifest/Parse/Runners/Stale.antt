-- ===== src/Manifest/Parse/Runners/Stale.antt =====
-- byName after fixupRunners: a pointer into an array that the slice has left keeps the old runner.
use image_assembler.Base.{
  ℕ, ◌≤◌, ◌<◌, String, false, some, List, [], ◌∷◌, ◌++◌, ◌≡◌, refl, ◌∙◌, ap, arith, str_eq, lookup,
  lookup-insert, length, get_elem?, get_elem?-set_ne, get_elem?-append_left, ltb,
}
use image_assembler.Manifest.Model.{
  Runner, Pipeline, Manifest, pipelines, deref, pipeline, register,
}
use image_assembler.Manifest.Ident.{Library}
use image_assembler.Manifest.Parse.Runners.{fix_manifest, fix_all, collect_runners}

module _ (lib : Library) (grow : ℕ → ℕ) where
  register_full :
      (name : String) (q : Pipeline) (m : Manifest)
      → m.capacity ≤ length (pipelines m)
      → (fresh : List Pipeline) × ((register grow name q m).arrays ≡ m.arrays ++ fresh ∷ [])
        × ((register grow name q m).current ≡ length m.arrays)
  unfolding register
  register_full name q m full =
      let e : ltb (length (pipelines m)) m.capacity ≡ false = ground arith in
      (pipelines m ++ q ∷ [], rw e refl, rw e refl)

  by_name-register :
      (name other : String) (q : Pipeline) (m : Manifest)
      → m.capacity ≤ length (pipelines m)
      → str_eq other name ≡ false
      → lookup name (register grow other q m).by_name ≡ lookup name m.by_name
  unfolding register
  by_name-register name other q m full differ =
      let e : ltb (length (pipelines m)) m.capacity ≡ false = ground arith in
      rw e (rw (lookup-insert other name) (rw differ refl))

  -- The array that the pointer is in is neither copied over nor written to.
  array_kept :
      (host : Runner) (other : String) (q : Pipeline) (m : Manifest) (a : ℕ)
      → a < length m.arrays
      → m.capacity ≤ length (pipelines m)
      → get_elem? (fix_manifest lib host (register grow other q m)).arrays a ≡ get_elem? m.arrays a
  unfolding fix_manifest
  array_kept host other q m a allocated full =
      let m' = register grow other q m in
      let (fresh, arrays, current) = register_full other q m full in
      get_elem?-set_ne m'.arrays {j = a}
        (fix_all lib host (collect_runners lib (pipelines m') []) (pipelines m'))
        (omega (arith, current))
      ∙ (ap (λ xs. get_elem? xs a) arrays ∙ get_elem?-append_left m.arrays (fresh ∷ []) a allocated)

  -- Suppose that `name` is registered when the slice of pipelines is full, and that another pipeline is
  -- registered next. After fixupRunners, Pipeline(name) still shows what it showed before the second
  -- pipeline came: its runner is the one that was parsed, whatever runner the fix-up gave to the
  -- element of the same index in m.Pipelines.
  pub stale_runner :
      (host : Runner) (name other : String) (q : Pipeline) (m : Manifest) (a i : ℕ)
      → lookup name m.by_name ≡ some (a, i)
      → a < length m.arrays
      → m.capacity ≤ length (pipelines m)
      → str_eq other name ≡ false
      → pipeline (fix_manifest lib host (register grow other q m)) name ≡ pipeline m name
  unfolding pipeline deref fix_manifest
  stale_runner host name other q m a i known allocated full differ =
      rw (by_name-register name other q m full differ ∙ known, pipeline)
        (rw (known, pipeline) (rw (array_kept host other q m a allocated full) refl))
