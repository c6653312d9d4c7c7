-- ===== src/Manifest/Checkpoint.antt =====
-- manifest/checkpoint.go: the marks on the stages that are to be committed on the way. filepath.Match
-- is a parameter, which says no for a pattern that is malformed.
use image_assembler.Base.{
  String, Bool, true, false, ◌||◌, Option, none, some, List, [], ◌∷◌, map, Map, insert,
  if◌then◌else◌,
}
use image_assembler.Manifest.Model.{Stage, Pipeline, Manifest, pipelines}
use image_assembler.Manifest.Ident.{Library, stage_id}
pub mod Marked

module _ (lib : Library) (glob : String → String → Bool) where
  -- matching
  unfoldable pub matching : String → List String → Bool
  matching haystack [] = false
  matching haystack (p ∷ ps) =
      let rest = matching haystack ps in if glob p haystack then true else rest

  module _ (patterns : List String) where
    abbrev pub picked : Stage → Bool
    picked s = matching (stage_id lib s) patterns || matching s.type_name patterns

    abbrev pub marked : Stage → Stage
    marked s = record s { checkpoint = true }

    -- last.Checkpoint = true; selected[last.ID()] = struct{}{}
    unfoldable pub mark_last : List Stage → Map (Unit {0}) → List Stage × Map (Unit {0})
    mark_last [] selected = ([], selected)
    mark_last (s ∷ []) selected = (marked s ∷ [], insert (stage_id lib s) tt selected)
    mark_last (s ∷ t ∷ ss) selected = let rest = mark_last (t ∷ ss) selected in (s ∷ rest.0, rest.1)

    -- for j := range p.Stages
    unfoldable pub mark_stages : List Stage → Map (Unit {0}) → List Stage × Map (Unit {0})
    unfolding matching
    mark_stages [] selected = ([], selected)
    mark_stages (s ∷ ss) selected =
        let with_mark = mark_stages ss (insert (stage_id lib s) tt selected) in
        let without_mark = mark_stages ss selected in
        if picked s
        then (marked s ∷ with_mark.0, with_mark.1)
        else (s ∷ without_mark.0, without_mark.1)

    -- What is done with the stages of a pipeline; a pipeline without stages is skipped.
    unfoldable pub mark_pipeline :
        String → List Stage → Map (Unit {0}) → List Stage × Map (Unit {0})
    unfolding mark_last mark_stages
    mark_pipeline name [] selected = ([], selected)
    mark_pipeline name (s ∷ ss) selected =
        let named =
          if matching name patterns then mark_last (s ∷ ss) selected else (s ∷ ss, selected) in
        mark_stages named.0 named.1

    abbrev pub with_marks : Pipeline → Pipeline
    with_marks p = record p { stages = (mark_pipeline p.name p.stages []).0 }

    unfoldable pub select_all : List Pipeline → Map (Unit {0}) → Map (Unit {0})
    unfolding mark_pipeline
    select_all [] selected = selected
    select_all (p ∷ ps) selected = select_all ps (mark_pipeline p.name p.stages selected).1

    -- MarkCheckpoints. The copies of a pipeline in older arrays share its stages, and show the marks.
    unfoldable pub mark_checkpoints : Manifest → Manifest × Map (Unit {0})
    unfolding select_all
    mark_checkpoints m =
        (record m { arrays = map (map with_marks) m.arrays }, select_all (pipelines m) [])
