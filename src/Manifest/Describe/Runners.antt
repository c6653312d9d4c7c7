-- ===== src/Manifest/Describe/Runners.antt =====
-- manifest/describe.go: the runners in a description. After Parse, a pipeline with a build root has
-- the runner that the description of the build root named; Describe writes it back to that pipeline,
-- and not to the build root.
use image_assembler.Base.{
  String, Bool, Option, none, some, List, [], ◌∷◌, ◌++◌, ◌≡◌, ◌≢◌, refl, ap, ◌∙◌, Map, lookup,
  insert, if◌then◌else◌, str_eq, str_eq_iff, All, lookup-insert, lookup-insert_self, arith,
}
use image_assembler.Base.Int.{ℤ}
use image_assembler.Value.{Value, text, end, field, at, entries_of}
use image_assembler.Manifest.Model.{Runner, Pipeline, Manifest, pipelines}
use image_assembler.Manifest.Ident.{Library, pipeline_id}
use image_assembler.Manifest.Describe.{
  described_runners, describe_pipeline, with_build, with_runner, with_int,
}

-- The runner that a pipeline is described with.
abbrev pub own_runner : Option String → Runner → Option Value
own_runner none r = none
own_runner (some id) r = if str_eq r.name "" then none else some (text r.name)

module _ (lib : Library) where
  -- The pipelines have other IDs.
  abbrev pub AllOthers : String → List Pipeline → Type 0
  AllOthers id = All (λ q. pipeline_id lib q ≢ id)

  -- The runners after one round of the loop.
  abbrev noted_for : Option String → Pipeline → Map Runner → Map Runner
  noted_for none p runners = runners
  noted_for (some id) p runners = insert (pipeline_id lib p) p.runner runners

  abbrev noted : Pipeline → Map Runner → Map Runner
  noted p runners = noted_for p.build p runners

  described_runners-noted :
      (p : Pipeline) (ps : List Pipeline) (runners : Map Runner)
      → described_runners lib (p ∷ ps) runners ≡ described_runners lib ps (noted p runners)
  unfolding described_runners
  described_runners-noted p ps runners = by_build p.build
    where
      by_build :
          (b : Option String)
          → (elim b as (λ x. Map Runner) [
            | none ↦ described_runners lib ps runners
            | some i ↦ described_runners lib ps (insert (pipeline_id lib p) p.runner runners)
          ])
            ≡ described_runners lib ps (noted_for b p runners)
      by_build none = refl
      by_build (some i) = refl

  lookup-noted_other :
      (id : String) (p : Pipeline) (runners : Map Runner)
      → pipeline_id lib p ≢ id
      → lookup id (noted p runners) ≡ lookup id runners
  lookup-noted_other id p runners other = by_build p.build
    where
      by_build : (b : Option String) → lookup id (noted_for b p runners) ≡ lookup id runners
      by_build none = refl
      by_build (some i) =
          lookup-insert (pipeline_id lib p) id p.runner runners
          ∙ ground (arith, other, str_eq_iff (pipeline_id lib p) id)

  abbrev runner_if : Option String → Runner → Option Runner
  runner_if none r = none
  runner_if (some id) r = some r

  lookup-noted_own :
      (p : Pipeline) (runners : Map Runner)
      → lookup (pipeline_id lib p) runners ≡ none
      → lookup (pipeline_id lib p) (noted p runners) ≡ runner_if p.build p.runner
  lookup-noted_own p runners absent = by_build p.build
    where
      by_build :
          (b : Option String)
          → lookup (pipeline_id lib p) (noted_for b p runners) ≡ runner_if b p.runner
      by_build none = absent
      by_build (some i) = lookup-insert_self (pipeline_id lib p) p.runner runners

  described_runners-others :
      (id : String) (ps : List Pipeline) (runners : Map Runner)
      → AllOthers id ps
      → lookup id (described_runners lib ps runners) ≡ lookup id runners
  unfolding described_runners
  described_runners-others id [] runners others = refl
  described_runners-others id (p ∷ ps) runners (other, others) =
      ap (lookup id) (described_runners-noted p ps runners)
      ∙ described_runners-others id ps (noted p runners) others
      ∙ lookup-noted_other id p runners other

  described_runners-own :
      (before after : List Pipeline) (p : Pipeline) (runners : Map Runner)
      → AllOthers (pipeline_id lib p) before
      → AllOthers (pipeline_id lib p) after
      → lookup (pipeline_id lib p) runners ≡ none
      → lookup (pipeline_id lib p) (described_runners lib (before ++ p ∷ after) runners)
        ≡ runner_if p.build p.runner
  described_runners-own [] after p runners others others' absent =
      ap (lookup (pipeline_id lib p)) (described_runners-noted p after runners)
      ∙ described_runners-others (pipeline_id lib p) after (noted p runners) others'
      ∙ lookup-noted_own p runners absent
  described_runners-own (q ∷ before) after p runners (other, others) others' absent =
      ap (lookup (pipeline_id lib p)) (described_runners-noted q (before ++ p ∷ after) runners)
      ∙ described_runners-own before after p (noted q runners) others others'
          (lookup-noted_other (pipeline_id lib p) q runners other ∙ absent)

  abbrev runner_value : Option Runner → Option Value
  runner_value none = none
  runner_value (some r) = if str_eq r.name "" then none else some (text r.name)

  at-later :
      (stages : Value) (r : Option Runner) (epoch : Option ℤ)
      → lookup "runner" (
          entries_of
            (with_runner lib r (with_int "source-epoch" epoch (field "stages" stages end))))
        ≡ runner_value r
  unfolding entries_of lookup str_eq
  at-later stages none none = refl
  at-later stages none (some n) = refl
  at-later stages (some r') none = ground arith
  at-later stages (some r') (some n) = ground arith

  -- No key of a pipeline's description but its runner's is "runner".
  at-runner :
      (m : Manifest) (with_id : Bool) (name stages : Value) (b : Option String) (r : Option Runner)
      (epoch : Option ℤ)
      → at "runner" (
          field "name" name (
            with_build lib m with_id b
              (with_runner lib r (with_int "source-epoch" epoch (field "stages" stages end)))))
        ≡ runner_value r
  unfolding at entries_of lookup str_eq
  at-runner m with_id name stages none r epoch = at-later stages r epoch
  at-runner m with_id name stages (some id) r epoch = at-later stages r epoch

  abbrev runner_value-if :
      (b : Option String) (r : Runner) → runner_value (runner_if b r) ≡ own_runner b r
  runner_value-if none r = refl
  runner_value-if (some id) r = refl

  -- If no other pipeline of the manifest has a pipeline's ID, then Describe gives the pipeline its own
  -- runner if it has a build root and the runner has a name, and none otherwise, even if it is the
  -- build root of others.
  pub describe_pipeline-runner :
      (m : Manifest) (with_id : Bool) (before after : List Pipeline) (p : Pipeline)
      → pipelines m ≡ before ++ p ∷ after
      → AllOthers (pipeline_id lib p) before
      → AllOthers (pipeline_id lib p) after
      → at "runner" (describe_pipeline lib m (described_runners lib (pipelines m) []) with_id p)
        ≡ own_runner p.build p.runner
  unfolding describe_pipeline lookup
  describe_pipeline-runner m with_id before after p split others others' =
      at-runner m with_id (text p.name) _ p.build
        (lookup (pipeline_id lib p) (described_runners lib (pipelines m) [])) p.source_epoch
      ∙ ap runner_value (
          ap (λ ps. lookup (pipeline_id lib p) (described_runners lib ps [])) split
          ∙ described_runners-own before after p [] others others' refl)
      ∙ runner_value-if p.build p.runner
