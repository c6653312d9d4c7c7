-- ===== src/Manifest/Depsolve.antt =====
-- manifest/depsolve.go. `cached` is the object store's Contains, which does not change meanwhile, and
-- `cancelled n` is whether the context is done at its n-th poll.
pub mod Stack
pub mod Terminates
pub mod Keys
pub mod Order
pub mod Needed
use mathlib.Core.List.{reverse}
use image_assembler.Base.{
  ℕ, zero, suc, ◌+◌, String, Bool, true, false, ◌||◌, Option, none, some, List, [], ◌∷◌, ◌++◌,
  if◌then◌else◌, str_eq, contains, Map, lookup, insert, map,
}
use image_assembler.Manifest.Model.{Stage, Pipeline, Manifest, pipeline}
use image_assembler.Manifest.Ident.{Library, stage_id, pipeline_id, pipeline_by_id, dependencies}

-- The keys in the order in which they were appended, and the pipeline of each.
pub record Plan : Type 0 where
  pub build_keys : List String
  pub build_map : Map Pipeline

pub data Outcome : Type 0 where
  cancellation : Outcome
  solved : Plan → Outcome

abbrev pub or_else {ℓ} : {A : Type ℓ} → Option A → Option A → Option A
or_else (some a) _ = some a
or_else none b = b

-- The keys without id.
unfoldable pub without : String → List String → List String
without id [] = []
without id (k ∷ ks) = let rest = without id ks in if str_eq k id then rest else k ∷ rest

-- The stack `check`, its top first. A nil pointer is `none`.
abbrev pub Stack : Type 0
Stack = List (Option Pipeline)

module _ (lib : Library) (m : Manifest) (cached : String → Bool) where
  -- check = append(check, p) for the targets that are found
  unfoldable pub push_targets : List String → Stack → Stack
  push_targets [] check = check
  push_targets (t ∷ ts) check =
      push_targets ts (elim (or_else (pipeline m t) (pipeline_by_id lib m t)) [
        | none ↦ check
        | some p ↦ some p ∷ check
      ])

  unfoldable pub push_deps : List String → Stack → Stack
  push_deps [] check = check
  push_deps (dep ∷ deps) check =
      push_deps deps (elim (pipeline_by_id lib m dep) [ none ↦ check | some p ↦ some p ∷ check ])

  -- The loop over the stages, last first, which stops at one that the store has.
  unfoldable pub push_stages : List Stage → Stack → Stack
  unfolding push_deps
  push_stages [] check = check
  push_stages (s ∷ ss) check =
      let rest = push_stages ss (push_deps (dependencies s) check) in
      if cached (stage_id lib s) then check else rest

  unfoldable pub push_build : Option String → Stack → Stack
  push_build none check = check
  push_build (some b) check = pipeline_by_id lib m b ∷ check

  unfoldable pub push_children : Pipeline → Stack → Stack
  unfolding push_build push_stages
  push_children p check = push_stages (reverse p.stages) (push_build p.build check)

  -- A key that is there already moves to the end.
  unfoldable pub add_key : String → Pipeline → Plan → Plan
  unfolding without
  add_key id p plan = record {
    build_keys = elim (lookup id plan.build_map) [
      | none ↦ plan.build_keys ++ id ∷ []
      | some _ ↦ without id plan.build_keys ++ id ∷ []
    ];
    build_map = insert id p plan.build_map;
  }

  -- id == "" || store.Contains(id)
  abbrev pub skipped : Pipeline → Bool
  skipped p = str_eq (pipeline_id lib p) "" || cached (pipeline_id lib p)

  -- One round: the rest of the stack and the plan after `pl` was taken from the top.
  unfoldable pub visit : Option Pipeline → Stack → Plan → Stack × Plan
  unfolding push_children add_key
  visit none check plan = (check, plan)
  visit (some p) check plan =
      if skipped p
      then (check, plan)
      else (push_children p check, add_key (pipeline_id lib p) p plan)

  module _ (cancelled : ℕ → Bool) where
    -- `none` is running out of fuel. `polls` counts the rounds.
    unfoldable pub loop : ℕ → ℕ → Stack → Plan → Option Outcome
    unfolding visit
    loop fuel polls [] plan = some (solved plan)
    loop zero polls (pl ∷ check) plan = none
    loop (suc fuel) polls (pl ∷ check) plan =
        let rest = loop fuel (polls + 1) (visit pl check plan).0 (visit pl check plan).1 in
        if cancelled polls then some cancellation else rest

    abbrev pub empty_plan : Plan
    empty_plan = record { build_keys = []; build_map = [] }

    unfoldable pub solve : ℕ → List String → Option Outcome
    unfolding loop push_targets
    solve fuel targets = loop fuel 0 (push_targets targets []) empty_plan

  -- result[len(buildKeys)-1-i] = buildMap[k].Name
  abbrev pub name_of : Option Pipeline → String
  name_of none = ""
  name_of (some p) = p.name

  unfoldable pub build_names : Plan → List String
  build_names plan = reverse (map (λ k. name_of (lookup k plan.build_map)) plan.build_keys)

  abbrev pub finish : Option Outcome → Option (Option (List String))
  finish none = none
  finish (some cancellation) = some none
  finish (some (solved plan)) = some (some (build_names plan))

  -- Depsolve: `some none` is the error of a cancelled context, `none` running out of fuel.
  unfoldable pub depsolve : (ℕ → Bool) → ℕ → List String → Option (Option (List String))
  unfolding build_names solve
  depsolve cancelled fuel targets = finish (solve cancelled fuel targets)
