-- ===== src/Manifest/Depsolve/Stack.antt =====
-- What the pushes of Depsolve put on the stack.
use mathlib.Core.List.{reverse}
use image_assembler.Base.{
  String, Bool, Option, none, some, List, [], ◌∷◌, ◌++◌, ◌≡◌, refl, Bool-cases, Option-cases, inl,
  inr, ◌⊎◌,
}
use image_assembler.Manifest.Model.{Stage, Pipeline, Manifest}
use image_assembler.Manifest.Ident.{Library, stage_id, pipeline_by_id, dependencies}
use image_assembler.Manifest.Depsolve.{push_deps, push_stages, push_build, push_children, Stack}

-- The element stands in the list.
abbrev pub MemIn : {A : Type 0} → A → List A → Type 0
MemIn a [] = ⊥
MemIn a (x ∷ xs) = (a ≡ x) ⊎ MemIn a xs

pub MemIn-append_right : {A : Type 0} (a : A) (xs ys : List A) → MemIn a ys → MemIn a (xs ++ ys)
MemIn-append_right a [] ys h = h
MemIn-append_right a (x ∷ xs) ys h = inr (MemIn-append_right a xs ys h)

pub MemIn-append_left : {A : Type 0} (a : A) (xs ys : List A) → MemIn a xs → MemIn a (xs ++ ys)
MemIn-append_left a [] ys h = elim h [ ]
MemIn-append_left a (x ∷ xs) ys (inl e) = inl e
MemIn-append_left a (x ∷ xs) ys (inr h) = inr (MemIn-append_left a xs ys h)

pub MemIn-append_cases :
    {A : Type 0} (a : A) (xs ys : List A) → MemIn a (xs ++ ys) → MemIn a xs ⊎ MemIn a ys
MemIn-append_cases a [] ys h = inr h
MemIn-append_cases a (x ∷ xs) ys (inl e) = inl (inl e)
MemIn-append_cases a (x ∷ xs) ys (inr h) = elim (MemIn-append_cases a xs ys h) [
  | inl l ↦ inl (inr l)
  | inr r ↦ inr r
]

module _ (lib : Library) (m : Manifest) (cached : String → Bool) where
  -- The pipelines that `p` asks for, as they are pushed.
  abbrev pub children : Pipeline → Stack
  children p = push_children lib m cached p []

  push_deps-append :
      (deps : List String) (xs ys : Stack)
      → push_deps lib m cached deps (xs ++ ys) ≡ push_deps lib m cached deps xs ++ ys
  unfolding push_deps
  push_deps-append [] xs ys = refl
  push_deps-append (dep ∷ deps) xs ys = elim (Option-cases (pipeline_by_id lib m dep)) [
    | inl e ↦ rw (e, push_deps-append deps xs ys)
    | inr (p, e) ↦ rw (e, push_deps-append deps (some p ∷ xs) ys)
  ]

  push_stages-append :
      (ss : List Stage) (xs ys : Stack)
      → push_stages lib m cached ss (xs ++ ys) ≡ push_stages lib m cached ss xs ++ ys
  unfolding push_stages
  push_stages-append [] xs ys = refl
  push_stages-append (s ∷ ss) xs ys = elim (Bool-cases (cached (stage_id lib s))) [
    | inl e ↦ rw e refl
    | inr e ↦ rw e (
        rw (push_deps-append (dependencies s) xs ys)
          (push_stages-append ss (push_deps lib m cached (dependencies s) xs) ys))
  ]

  push_build-append :
      (b : Option String) (ys : Stack)
      → push_build lib m cached b ys ≡ push_build lib m cached b [] ++ ys
  unfolding push_build
  push_build-append none ys = refl
  push_build-append (some b) ys = refl

  pub push_children-append :
      (p : Pipeline) (check : Stack) → push_children lib m cached p check ≡ children p ++ check
  unfolding push_children
  push_children-append p check =
      rw (push_build-append p.build check)
        (push_stages-append (reverse p.stages) (push_build lib m cached p.build []) check)
