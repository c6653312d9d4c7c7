-- ===== src/Tests/Depsolve.antt =====
-- Depsolve on a manifest of two pipelines, the second with the first for its build root.
use image_assembler.Base.{
  ℕ, ◌<◌, String, Bool, false, Option, none, some, List, [], ◌∷◌, ◌≡◌, refl, arith, ◌⊎◌, inl, inr,
  lookup, insert, str_eq, subst, sym,
}
use image_assembler.Value.{end}
use image_assembler.Json.{marshal, map_text, marshal_string}
use image_assembler.Manifest.OrderedMap
use image_assembler.Manifest.Model.{Manifest, Pipeline, Stage, pipeline, deref}
use image_assembler.Manifest.Ident.{pipeline_id, pipeline_by_id, dependencies, stage_id}
use image_assembler.Manifest.Depsolve.{
  Plan, Outcome, solved, solve, push_targets, push_children, add_key, visit, depsolve,
}
use image_assembler.Manifest.Depsolve.Stack.{MemIn, children}
use image_assembler.Manifest.Depsolve.Terminates.{IsRanked, depsolve_ends}
use image_assembler.Tests.Toy.{toy_hash, toy_library}

stage : String → Option String → Stage
unfolding OrderedMap.new
stage name build = record {
  type_name = name;
  exec_path = "";
  caps = [];
  build = build;
  base = none;
  options = end;
  source_epoch = none;
  checkpoint = false;
  inputs = OrderedMap.new;
  devices = OrderedMap.new;
  mounts = OrderedMap.new;
}

base : Pipeline
base = record {
  name = "base";
  build = none;
  runner = record { name = ""; path = "" };
  stages = stage "rpm" none ∷ [];
  source_epoch = none;
}

base_id : String
unfolding pipeline_id stage toy_hash marshal map_text marshal_string
base_id = pipeline_id toy_library base

os : Pipeline
os = record {
  name = "os";
  build = some base_id;
  runner = record { name = ""; path = "" };
  stages = stage "rpm" (some base_id) ∷ [];
  source_epoch = none;
}

two : Manifest
two = record {
  metadata = end;
  arrays = (base ∷ os ∷ []) ∷ [];
  current = 0;
  capacity = 2;
  by_name = ("base", (0, 0)) ∷ ("os", (0, 1)) ∷ [];
  sources = [];
}

abbrev nothing_cached : String → Bool
nothing_cached id = false

abbrev plan_of : Option Outcome → Plan
plan_of (some (solved plan)) = plan
plan_of _ = record { build_keys = []; build_map = [] }

solution : Option Outcome
unfolding solve add_key visit push_children pipeline deref lookup insert pipeline_by_id dependencies
    pipeline_id stage_id toy_hash marshal map_text marshal_string str_eq stage base base_id os two
solution = solve toy_library two nothing_cached (λ n. false) 5 ("os" ∷ [])

-- The rank by build root: 1 with one, 0 without.
abbrev rank : Pipeline → ℕ
rank p = elim p.build [ none ↦ 0 | some _ ↦ 1 ]

two-IsRanked : IsRanked toy_library two nothing_cached ("os" ∷ []) (λ p. (p ≡ base) ⊎ (p ≡ os)) rank
unfolding solution
two-IsRanked = record { starts = λ q h. starts q h; falls = λ p q i e h. falls p q i h }
  where
    starts :
        (q : Pipeline)
        → MemIn (some q) (push_targets toy_library two nothing_cached ("os" ∷ []) [])
        → (q ≡ base) ⊎ (q ≡ os)
    starts q (inl e) = inr (cc)
    starts q (inr e) = absurd e

    only_base :
        (q : Pipeline) → MemIn (some q) (children toy_library two nothing_cached os) → q ≡ base
    only_base q (inl e) = cc
    only_base q (inr e) = absurd e

    falls :
        (p q : Pipeline)
        → (p ≡ base) ⊎ (p ≡ os)
        → MemIn (some q) (children toy_library two nothing_cached p)
        → ((q ≡ base) ⊎ (q ≡ os)) × (rank q < rank p)
    falls p q (inl e) h =
        absurd (subst (λ x. MemIn (some q) (children toy_library two nothing_cached x)) e h)
    falls p q (inr e) h =
        let b =
          only_base q
            (subst (λ x. MemIn (some q) (children toy_library two nothing_cached x)) e h) in
        (
          inl b,
          subst (λ x. rank x < rank p) (sym b)
              (subst (λ x. rank base < rank x) (sym e) (omega arith)),
        )

depsolve_ends_example :
    (fuel : ℕ) × (names : List String) × (depsolve toy_library two nothing_cached
        (λ n. false)
        fuel
        ("os" ∷ [])
      ≡ some (some names))
depsolve_ends_example =
    depsolve_ends toy_library two nothing_cached (λ n. false) ("os" ∷ [])
      (λ p. (p ≡ base) ⊎ (p ≡ os)) rank two-IsRanked (λ n. refl)
