-- ===== src/Manifest/Depsolve/Needed.antt =====
-- Depsolve plans the targets, and nothing that they do not need.
use image_assembler.Base.{String, Bool, true, false, Option, some, ◌≡◌, lookup}
use image_assembler.Manifest.Model.{Pipeline, Manifest}
use image_assembler.Manifest.Ident.{Library, pipeline_id}
use image_assembler.Manifest.Depsolve.{Plan, Stack, skipped}
use image_assembler.Manifest.Depsolve.Stack.{MemIn, children}

module _ (lib : Library) (m : Manifest) (cached : String → Bool) where
  -- The pipelines that building the stacked ones calls for.
  pub data Needed (roots : Stack) : Pipeline → Type 0 where
    root : (q : Pipeline) → MemIn (some q) roots → Needed roots q
    asked_by :
        (p q : Pipeline)
        → Needed roots p
        → skipped lib m cached p ≡ false
        → MemIn (some q) (children lib m cached p)
        → Needed roots q

  -- A planned pipeline, under its key.
  pub record IsPlanned (roots : Stack) (k : String) (p : Pipeline) : Type 0 where
    pub id : pipeline_id lib p ≡ k
    pub built : skipped lib m cached p ≡ false
    pub needed : Needed roots p

  record IsSound (roots check : Stack) (plan : Plan) : Type 0 where
    stacked : (q : Pipeline) → MemIn (some q) check → Needed roots q
    planned : (k : String) (p : Pipeline) → lookup k plan.build_map ≡ some p → IsPlanned roots k p

  -- The pipeline is skipped, or waits, or is planned.
  data Kept (check : Stack) (plan : Plan) (q : Pipeline) : Type 0 where
    not_built : skipped lib m cached q ≡ true → Kept check plan q
    pending : MemIn (some q) check → Kept check plan q
    planned :
        (p : Pipeline) → lookup (pipeline_id lib q) plan.build_map ≡ some p → Kept check plan q
