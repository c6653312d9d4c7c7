-- ===== src/Manifest/Checkpoint/Marked.antt =====
-- manifest/checkpoint.go: which stages are marked, and which IDs are selected.
use image_assembler.Base.{
  String, Bool, true, false, ◌||◌, ◌&&◌, List, [], ◌∷◌, map, if◌then◌else◌, str_eq,
}
use image_assembler.Manifest.Model.{Stage, Pipeline, Manifest}
use image_assembler.Manifest.Ident.{Library, stage_id}
use image_assembler.Manifest.Checkpoint.{matching, picked}

module _ (lib : Library) (glob : String → String → Bool) (patterns : List String) where
  -- Each stage of a pipeline, with whether a pattern asks for it: by its ID, by its type, or, if it
  -- is the last one, by the pipeline's name.
  abbrev pub wanted : String → List Stage → List (Stage × Bool)
  wanted name [] = []
  wanted name (s ∷ []) = (s, picked lib glob patterns s || matching lib glob name patterns) ∷ []
  wanted name (s ∷ t ∷ ss) = (s, picked lib glob patterns s) ∷ wanted name (t ∷ ss)

  abbrev pub mark_if : Stage × Bool → Stage
  mark_if (s, b) = if b then record s { checkpoint = true } else s

  abbrev pub asks_for : String → List (Stage × Bool) → Bool
  asks_for id [] = false
  asks_for id ((s, b) ∷ ss) = (b && str_eq (stage_id lib s) id) || asks_for id ss

  abbrev pub asked : String → List Pipeline → Bool
  asked id [] = false
  asked id (p ∷ ps) = asks_for id (wanted p.name p.stages) || asked id ps

  abbrev pick : Stage → Stage × Bool
  pick s = (s, picked lib glob patterns s)

  abbrev is_last : String → List Stage → Bool
  is_last id [] = false
  is_last id (s ∷ []) = str_eq (stage_id lib s) id
  is_last id (s ∷ t ∷ ss) = is_last id (t ∷ ss)

  abbrev pub as_wanted : Pipeline → Pipeline
  as_wanted p = record p { stages = map mark_if (wanted p.name p.stages) }
