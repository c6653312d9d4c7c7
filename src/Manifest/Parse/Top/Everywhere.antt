-- ===== src/Manifest/Parse/Top/Everywhere.antt =====
-- A property of all pipelines in all backing arrays, kept by every write of the parser.
use image_assembler.Base.{
  ℕ, zero, suc, String, some, List, [], ◌∷◌, ◌++◌, ◌≡◌, Bool-cases, inl, inr, All, All-append, set,
  get_elem?, ltb, length, Map,
}
use image_assembler.Manifest.Model.{
  Pipeline, Manifest, Runner, array, pipelines, deref, register, or_nil,
}
use image_assembler.Manifest.Ident.{Library}
use image_assembler.Manifest.Parse.Runners.{fix_all, fixed_runner, fix_manifest, collect_runners}
use image_assembler.Manifest.Parse.Top.{write_pipeline}

pub set-All :
    {A : Type 0} (P : A → Type 0) (xs : List A) (i : ℕ) (v : A)
    → All P xs
    → P v
    → All P (set xs i v)
set-All P [] i v h p = tt
set-All P (x ∷ xs) zero v h p = (p, h.1)
set-All P (x ∷ xs) (suc i) v h p = (h.0, set-All P xs i v h.1 p)

pub get_elem?-All :
    {A : Type 0} (P : A → Type 0) (xs : List A) (i : ℕ) (v : A)
    → All P xs
    → get_elem? xs i ≡ some v
    → P v
get_elem?-All P [] i v h e = absurd (cc)
get_elem?-All P (x ∷ xs) zero v h e = let same : x ≡ v = cc in rw (← same) h.0
get_elem?-All P (x ∷ xs) (suc i) v h e = get_elem?-All P xs i v h.1 e

or_nil-All :
    {A : Type 0} (P : A → Type 0) (xss : List (List A)) (i : ℕ)
    → All (All P) xss
    → All P (or_nil (get_elem? xss i))
or_nil-All P [] i h = tt
or_nil-All P (xs ∷ xss) zero h = h.0
or_nil-All P (xs ∷ xss) (suc i) h = or_nil-All P xss i h.1

module _ (P : Pipeline → Type 0) where
  abbrev pub Everywhere : Manifest → Type 0
  Everywhere m = All (All P) m.arrays

  pub array-All : (m : Manifest) (a : ℕ) → Everywhere m → All P (array m a)
  array-All m a h = or_nil-All P m.arrays a h

  pub deref-All :
      (m : Manifest) (ptr : ℕ × ℕ) (p : Pipeline) → Everywhere m → deref m ptr ≡ some p → P p
  unfolding deref
  deref-All m (a, i) p h e = get_elem?-All P (array m a) i p (array-All m a h) e

  pub register-All :
      (grow : ℕ → ℕ) (name : String) (p : Pipeline) (m : Manifest)
      → Everywhere m
      → P p
      → Everywhere (register grow name p m)
  unfolding register
  register-All grow name p m h q = elim (Bool-cases (ltb (length (pipelines m)) m.capacity)) [
    | inl e ↦ rw (e, All) (set-All (All P) m.arrays m.current (pipelines m ++ p ∷ []) h new)
    | inr e ↦ rw (e, All) (All-append (All P) m.arrays ((pipelines m ++ p ∷ []) ∷ []) h (new, tt))
  ]
    where
      new : All P (pipelines m ++ p ∷ [])
      new = All-append P (pipelines m) (p ∷ []) (array-All m m.current h) (q, tt)

  pub write-All :
      (ptr : ℕ × ℕ) (p : Pipeline) (m : Manifest)
      → Everywhere m
      → P p
      → Everywhere (write_pipeline ptr p m)
  unfolding write_pipeline
  write-All (a, i) p m h q =
      set-All (All P) m.arrays a (set (array m a) i p) h
        (set-All P (array m a) i p (array-All m a h) q)

  module _ (lib : Library)
      (keep : (p : Pipeline) (r : Runner) → P p → P (record p { runner = r })) where
    fix_all-All :
        (host : Runner) (runners : Map Runner) (ps : List Pipeline)
        → All P ps
        → All P (fix_all lib host runners ps)
    unfolding fix_all
    fix_all-All host runners [] h = tt
    fix_all-All host runners (p ∷ ps) h =
        (keep p (fixed_runner lib host runners p) h.0, fix_all-All host runners ps h.1)

    pub fix_manifest-All :
        (host : Runner) (m : Manifest) → Everywhere m → Everywhere (fix_manifest lib host m)
    unfolding fix_manifest
    fix_manifest-All host m h =
        set-All (All P) m.arrays m.current
          (fix_all lib host (collect_runners lib (pipelines m) []) (pipelines m)) h
          (fix_all-All host (collect_runners lib (pipelines m) []) (pipelines m)
            (array-All m m.current h))
