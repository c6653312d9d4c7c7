-- ===== src/Manifest/Parse/Top/Chain.antt =====
-- The stages of a parsed pipeline form a chain: each stage's base is the ID of the stage before it.
use image_assembler.Base.{
  ℕ, String, Bool, true, false, Option, none, some, List, [], ◌∷◌, ◌++◌, ◌≡◌, refl, ◌∙◌, sym, arith,
  if◌then◌else◌, str_eq, Bool-cases, Option-cases, inl, inr, All, lookup, ◌+◌,
}
use image_assembler.Base.Int.{ℤ}
use image_assembler.Base.Result.{Result, ok, err, map_err, >>=-eq-ok, map_err-eq-ok}
use image_assembler.Value.{Value, obj, Fields, at, text_or_empty, as_obj, obj_or_empty}
use image_assembler.Manifest.Model.{Stage, Pipeline, Manifest, Runner, pipelines, deref}
use image_assembler.Manifest.Ident.{Library, stage_id, id_pointer, add_stage}
use image_assembler.Manifest.Parse.Loaders.{Env, load_module}
use image_assembler.Manifest.Parse.Runners.{fix_manifest, fixup_runners}
use image_assembler.Manifest.Parse.Top.{
  devices_of, inputs_of, mounts_of, write_pipeline, parse_stage, parse_stage_at, parse_stages,
  build_of, runner_of, epoch_of, stages_desc, parse_pipeline, parse_pipelines, parse_sources, parse,
}
use image_assembler.Manifest.Parse.Top.Frame.{
  SameFrame, SameFrame-trans, devices_of-SameFrame, inputs_of-SameFrame, mounts_of-SameFrame,
}
use image_assembler.Manifest.Parse.Top.Everywhere.{
  Everywhere, deref-All, register-All, write-All, fix_manifest-All, array-All,
}

module _ (lib : Library) where
  -- Each stage has the pipeline's build root and source epoch, is no checkpoint yet, and has the ID of
  -- the stage before it, or `prev`, for its base.
  abbrev pub ChainFrom : Option String → Option ℤ → Option String → List Stage → Type 0
  ChainFrom build epoch prev [] = Unit
  ChainFrom build epoch prev (s ∷ ss) =
      (s.build ≡ build)
      × (s.source_epoch ≡ epoch)
      × (s.checkpoint ≡ false)
      × (s.base ≡ prev)
      × ChainFrom build epoch (some (stage_id lib s)) ss

  abbrev pub IsChained : Pipeline → Type 0
  IsChained p = ChainFrom p.build p.source_epoch none p.stages

  -- The ID of the last stage, or `prev`.
  last_id : Option String → List Stage → Option String
  last_id prev [] = prev
  last_id prev (s ∷ ss) = last_id (some (stage_id lib s)) ss

  id_pointer-eq-last_id :
      (prev : Option String) (s : Stage) (ss : List Stage)
      → last_id prev (s ∷ ss) ≡ id_pointer lib (s ∷ ss)
  unfolding last_id id_pointer
  id_pointer-eq-last_id prev s [] = refl
  id_pointer-eq-last_id prev s (t ∷ ss) = id_pointer-eq-last_id (some (stage_id lib s)) t ss

  last_id-none : (ss : List Stage) → id_pointer lib ss ≡ last_id none ss
  unfolding last_id id_pointer
  last_id-none [] = refl
  last_id-none (s ∷ ss) = sym (id_pointer-eq-last_id none s ss)

  ChainFrom-append_last :
      (build : Option String) (epoch : Option ℤ) (prev : Option String) (ss : List Stage)
      (s : Stage)
      → ChainFrom build epoch prev ss
      → s.build ≡ build
      → s.source_epoch ≡ epoch
      → s.checkpoint ≡ false
      → s.base ≡ last_id prev ss
      → ChainFrom build epoch prev (ss ++ s ∷ [])
  unfolding last_id
  ChainFrom-append_last build epoch prev [] s c b e k h = (b, e, k, h, tt)
  ChainFrom-append_last build epoch prev (t ∷ ss) s c b e k h = (
    c.0,
    c.1,
    c.2,
    c.3,
    ChainFrom-append_last build epoch (some (stage_id lib t)) ss s c.4 b e k h,
  )

  add_loaded-IsChained :
      (type_name path : String) (caps : List String) (options : Option Fields) (p : Pipeline)
      (s : Stage)
      → IsChained p
      → SameFrame (add_stage lib type_name path caps options p.source_epoch p).1 s
      → IsChained (record p { stages = p.stages ++ s ∷ [] })
  unfolding add_stage
  add_loaded-IsChained type_name path caps options p s c f =
      ChainFrom-append_last p.build p.source_epoch none p.stages s c (sym f.build)
        (sym f.source_epoch) (sym f.checkpoint) (sym f.base ∙ last_id-none p.stages)

-- The early returns: a result that is ok did not take the error branch.
if-eq-ok {ℓ κ} :
    {E : Type ℓ} {A : Type κ} (b : Bool) (e : E) (r : Result E A) {a : A}
    → (if b then err e else r) ≡ ok a
    → r ≡ ok a
if-eq-ok true e r h = cc
if-eq-ok false e r h = h

module _ (env : Env) where
  abbrev pub AllChained : Manifest → Type 0
  AllChained = Everywhere (IsChained env.lib)

  parse_stage-AllChained :
      (desc : Fields) (ptr : ℕ × ℕ) (p : Pipeline) (m m' : Manifest)
      → AllChained m
      → IsChained env.lib p
      → parse_stage env desc ptr p m ≡ ok m'
      → AllChained m'
  unfolding parse_stage
  parse_stage-AllChained desc ptr p m m' h c e =
      let stage_type = text_or_empty (at "type" desc) in
      let body = map_err-eq-ok _ _ (if-eq-ok (str_eq stage_type "") _ _ e) in
      let (module', e1, r1) = >>=-eq-ok (load_module env "Stage" stage_type) _ body in
      let (a, e2, r2) = >>=-eq-ok (devices_of env desc _) _ r1 in
      let (b, e3, r3) = >>=-eq-ok (inputs_of env _ desc a) _ r2 in
      let (s, e4, r4) = >>=-eq-ok (mounts_of env desc b) _ r3 in
      let frame = SameFrame-trans (devices_of-SameFrame env desc _ a e2) (
        SameFrame-trans (inputs_of-SameFrame env _ desc a b e3)
          (mounts_of-SameFrame env desc b s e4)) in
      let chained =
        add_loaded-IsChained env.lib stage_type module'.path module'.caps
          (as_obj (at "options" desc)) p s c frame in
      let same : write_pipeline ptr (record p { stages = p.stages ++ s ∷ [] }) m ≡ m' = cc in
      rw (← same)
        (write-All (IsChained env.lib) ptr (record p { stages = p.stages ++ s ∷ [] }) m h chained)

  parse_stage_at-AllChained :
      (desc : Fields) (ptr : Option (ℕ × ℕ)) (m m' : Manifest)
      → AllChained m
      → parse_stage_at env desc ptr m ≡ ok m'
      → AllChained m'
  parse_stage_at-AllChained desc none m m' h e = absurd (cc)
  parse_stage_at-AllChained desc (some ptr) m m' h e = elim (Option-cases (deref m ptr)) [
    | inl d ↦ absurd (ground arith)
    | inr (p, d) ↦
        parse_stage-AllChained desc ptr p m m' h (deref-All (IsChained env.lib) m ptr p h d)
          (ground arith)
  ]

  parse_stages-AllChained :
      (vs : List Value) (name : String) (m m' : Manifest)
      → AllChained m
      → parse_stages env vs name m ≡ ok m'
      → AllChained m'
  unfolding parse_stages
  parse_stages-AllChained [] name m m' h e = let same : m ≡ m' = cc in rw (← same) h
  parse_stages-AllChained (obj desc ∷ vs) name m m' h e =
      let (m1, e1, e2) =
        >>=-eq-ok (parse_stage_at env desc (lookup name m.by_name) m) (parse_stages env vs name)
          e in
      parse_stages-AllChained vs name m1 m'
        (parse_stage_at-AllChained desc (lookup name m.by_name) m m1 h e1) e2
  parse_stages-AllChained (_ ∷ vs) name m m' h e = parse_stages-AllChained vs name m m' h e

  parse_pipeline-AllChained :
      (desc : Fields) (m m' : Manifest)
      → AllChained m
      → parse_pipeline env desc m ≡ ok m'
      → AllChained m'
  unfolding parse_pipeline
  parse_pipeline-AllChained desc m m' h e =
      let name = text_or_empty (at "name" desc) in
      let body = map_err-eq-ok _ _ (if-eq-ok (str_eq name "") _ _ e) in
      let (build, e1, r1) = >>=-eq-ok (build_of env desc m) _ body in
      let (runner, e2, r2) = >>=-eq-ok (runner_of env desc) _ r1 in
      let (epoch, e3, r3) = >>=-eq-ok (epoch_of env desc) _ r2 in
      parse_stages-AllChained (stages_desc env desc) name _ m'
        (register-All (IsChained env.lib) env.grow name _ m h tt) r3

  parse_pipelines-AllChained :
      (cancelled : ℕ → Bool) (polls : ℕ) (vs : List Value) (m m' : Manifest)
      → AllChained m
      → parse_pipelines env cancelled polls vs m ≡ ok m'
      → AllChained m'
  unfolding parse_pipelines
  parse_pipelines-AllChained cancelled polls [] m m' h e = let same : m ≡ m' = cc in rw (← same) h
  parse_pipelines-AllChained cancelled polls (obj desc ∷ vs) m m' h e =
      let (m1, e1, e2) =
        >>=-eq-ok (parse_pipeline env desc m) (parse_pipelines env cancelled (polls + 1) vs)
          (if-eq-ok (cancelled polls) _ _ e) in
      parse_pipelines-AllChained cancelled (polls + 1) vs m1 m'
        (parse_pipeline-AllChained desc m m1 h e1) e2
  parse_pipelines-AllChained cancelled polls (_ ∷ vs) m m' h e =
      parse_pipelines-AllChained cancelled (polls + 1) vs m m' h (if-eq-ok (cancelled polls) _ _ e)

  -- In the manifest that Parse returns, the stages of every pipeline form a chain: the first has no
  -- base, every other has the ID of the stage before it (its devices, inputs and mounts included) for
  -- its base, and each has the build root and the source epoch of its pipeline and no checkpoint mark.
  pub parse-AllChained :
      (cancelled : ℕ → Bool) (desc : Fields) (m : Manifest)
      → parse env cancelled desc ≡ ok m
      → All (IsChained env.lib) (pipelines m)
  unfolding parse fixup_runners
  parse-AllChained cancelled desc m e =
      elim (Bool-cases (str_eq (text_or_empty (at "version" desc)) "2")) [
        | inl v ↦
            let body = rw (v, parse) at e in
            let (sources, e1, r1) =
              >>=-eq-ok (parse_sources env (obj_or_empty (at "sources" desc)) []) _ body in
            let (m', e2, r2) = >>=-eq-ok (parse_pipelines env cancelled 0 _ _) _ r1 in
            let (path, e3, r3) = >>=-eq-ok (map_err _ env.registry.detect_host_runner) _ r2 in
            let host : Runner = record { name = ""; path = path } in
            let same : fix_manifest env.lib host m' ≡ m = cc in
            let parsed = parse_pipelines-AllChained cancelled 0 _ _ m' ((tt, tt)) e2 in
            array-All (IsChained env.lib) m m.current (
              rw (← same)
                (fix_manifest-All (IsChained env.lib) env.lib (λ p r c. c) host m' parsed))
        | inr v ↦ absurd (ground arith)
      ]
