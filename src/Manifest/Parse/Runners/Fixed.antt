-- ===== src/Manifest/Parse/Runners/Fixed.antt =====
-- m.Pipelines after fixupRunners.
use image_assembler.Base.{
  ℕ, zero, suc, ◌<◌, String, not, ◌&&◌, Option, none, some, List, [], ◌∷◌, ◌≡◌, refl, ◌∙◌, ap,
  arith, if◌then◌else◌, str_eq, str_eq_iff, Map, lookup, insert, lookup-insert, length, get_elem?,
  get_elem?-set_self, Option-cases, inl, inr,
}
use image_assembler.Manifest.Model.{Runner, Pipeline, Manifest, pipelines}
use image_assembler.Manifest.Ident.{Library, pipeline_id}
use image_assembler.Manifest.Parse.Runners.{
  fix_manifest, fix_all, fixed_runner, collect_runners, or_own,
}

module _ (lib : Library) where
  abbrev or_before : Option Runner → Option Runner → Option Runner
  or_before (some r) _ = some r
  or_before none before = before

  -- The runner of the last pipeline with the ID, among those that have one.
  pub last_runner : String → List Pipeline → Option Runner
  last_runner id [] = none
  last_runner id (p ∷ ps) = or_before (last_runner id ps) (
      if str_eq (pipeline_id lib p) id && not (str_eq (pipeline_id lib p) "")
      then some p.runner
      else none)

  lookup-collect_runners :
      (id : String) (ps : List Pipeline) (runners : Map Runner)
      → lookup id (collect_runners lib ps runners)
        ≡ or_before (last_runner id ps) (lookup id runners)
  unfolding collect_runners last_runner
  lookup-collect_runners id [] runners = refl
  lookup-collect_runners id (p ∷ ps) runners = ground (
    arith,
    lookup-collect_runners id ps runners,
    lookup-collect_runners id ps (insert (pipeline_id lib p) p.runner runners),
    lookup-insert (pipeline_id lib p) id p.runner runners,
    str_eq_iff (pipeline_id lib p) "",
    str_eq_iff (pipeline_id lib p) id,
  )

  get_elem?-fix_all :
      (host : Runner) (runners : Map Runner) (ps : List Pipeline) (i : ℕ) (p : Pipeline)
      → get_elem? ps i ≡ some p
      → get_elem? (fix_all lib host runners ps) i
        ≡ some (record p { runner = fixed_runner lib host runners p })
  unfolding fix_all
  get_elem?-fix_all host runners [] i p h = absurd (cc)
  get_elem?-fix_all host runners (q ∷ ps) zero p h = let same : q ≡ p = cc in rw same refl
  get_elem?-fix_all host runners (q ∷ ps) (suc i) p h = get_elem?-fix_all host runners ps i p h

  -- The runner that a pipeline should have: the host's without a build root, and else that of the last
  -- pipeline with the ID of the build root, or its own if there is none.
  abbrev pub right_runner : Runner → List Pipeline → Pipeline → Runner
  right_runner host ps p = elim p.build [
    | none ↦ host
    | some b ↦ or_own lib p.runner (last_runner b ps)
  ]

  right_runner-eq :
      (host : Runner) (ps : List Pipeline) (p : Pipeline)
      → fixed_runner lib host (collect_runners lib ps []) p ≡ right_runner host ps p
  unfolding fixed_runner lookup
  right_runner-eq host ps p = elim (Option-cases p.build) [
    | inl e ↦ ground arith
    | inr (b, e) ↦ ground (arith, lookup-collect_runners b ps [])
  ]

  -- After fixupRunners the i-th pipeline of m.Pipelines is the one that was parsed but for its runner,
  -- which is the host's if it has no build root, and else the parsed runner of the last pipeline whose
  -- ID is the build root's, or its own if no pipeline has that ID.
  pub fix_manifest-runner :
      (host : Runner) (m : Manifest) (i : ℕ) (p : Pipeline)
      → m.current < length m.arrays
      → get_elem? (pipelines m) i ≡ some p
      → get_elem? (pipelines (fix_manifest lib host m)) i
        ≡ some (record p { runner = right_runner host (pipelines m) p })
  unfolding fix_manifest
  fix_manifest-runner host m i p live e =
      rw
        (get_elem?-set_self m.arrays m.current
          (fix_all lib host (collect_runners lib (pipelines m) []) (pipelines m)) live)
        (get_elem?-fix_all host (collect_runners lib (pipelines m) []) (pipelines m) i p e
          ∙ ap (λ (r : Runner). some (record p { runner = r }))
              (right_runner-eq host (pipelines m) p))
