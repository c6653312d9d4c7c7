-- ===== src/Build/Pipeline/Order.antt =====
-- build/build.go: BuildPipeline runs the stages in order and stops at the first that fails.
use mathlib.Core.List.{append-nil, append_assoc}
use image_assembler.Base.{
  suc, ℕ, Bool, true, false, not, ◌||◌, Option, none, some, List, [], ◌∷◌, ◌++◌, ◌≡◌, refl, ap, sym,
  ◌∙◌, if◌then◌else◌, inl, inr, ◌⊎◌, get_elem?,
}
use image_assembler.Base.Result.{ok, err, panic}
use image_assembler.Manifest.Model.{Stage, Runner}
use image_assembler.Manifest.Ident.{stage_id}
use image_assembler.Store.Model.{Object, Place}
use image_assembler.Store.Cache.{is_some, commit, tree_at}
use image_assembler.Build.Action.{
  continue, calling, committing_checkpoint, opening_metadata_writer, BuildTree, StageRun, not_run,
  ran, BuildResult, Event, staged, resulted, World, State, Action, pure, ◌>>=◌, ◌>>◌, check, emit,
}
use image_assembler.Build.Action.Leads.{
  Leads, Leads-continue, Leads-weaken, Leads-calling, Leads-check, close_tree-events,
}
use image_assembler.Build.Pipeline.{
  succeeded, run_one, run_stages, commit_checkpoint, close_failed, run_in, left_by, open_metadata,
}

-- The stages that ran, what each came to, and whether all succeeded.
pub data Ran : List Stage → List BuildResult → Bool → Type 0 where
  all_done : Ran [] [] true
  went_on :
      (st : Stage) (todo : List Stage) (r : BuildResult) (rs : List BuildResult) (b : Bool)
      → r.stage ≡ st
      → succeeded r ≡ true
      → Ran todo rs b
      → Ran (st ∷ todo) (r ∷ rs) b
  stopped :
      (st : Stage) (todo : List Stage) (r : BuildResult)
      → r.stage ≡ st
      → succeeded r ≡ false
      → Ran (st ∷ todo) (r ∷ []) false

module _ (world : World) where
  open world use {lib}

  -- The calls of the monitor for the stages that ran.
  abbrev pub shown : List BuildResult → List Event
  shown [] = []
  shown (r ∷ rs) = staged r.stage ∷ resulted r ∷ shown rs

  -- A stage was run, or its turn was announced at most.
  abbrev AfterOne : Stage → State → BuildResult → State → Type 0
  AfterOne st s r t = (r.stage ≡ st) × (t.events ≡ s.events ++ shown (r ∷ []))

  abbrev AtMostAnnounced : Stage → State → State → Type 0
  AtMostAnnounced st s t = (t.events ≡ s.events) ⊎ (t.events ≡ s.events ++ staged st ∷ [])

  left_by-Leads :
      (st : Stage) (s t : State) (place : Place) (x : StageRun)
      → t.events ≡ s.events ++ staged st ∷ []
      → Leads
          (AfterOne st s)
          (AtMostAnnounced st s)
          (continue (left_by world st place x t) (λ r. emit (resulted r) >> pure r))
  left_by-Leads st s t place not_run e = inr e
  left_by-Leads st s t place (ran code output error tree) e =
      (refl, rw e (append_assoc s.events (staged st ∷ []) _))

  run_held : Runner → BuildTree → Stage → Object → Action BuildResult
  run_held runner tree st o = do
    open_metadata world o
    r ← run_in world runner tree st o
    emit (resulted r)
    pure r

  run_held-Leads :
      (runner : Runner) (tree : BuildTree) (st : Stage) (o : Object) (s t : State)
      → t.events ≡ s.events ++ staged st ∷ []
      → Leads (AfterOne st s) (AtMostAnnounced st s) (run_held runner tree st o t)
  unfolding run_held
  run_held-Leads runner tree st o s t e =
      by_test ((world.faults t.tick).metadata || not (is_some (tree_at o.meta_path t.store)))
    where
      rest : Unit {0} → Action BuildResult
      rest _ = run_in world runner tree st o >>= λ r. emit (resulted r) >> pure r

      later : State
      later = record t { tick = suc t.tick }

      by_test :
          (b : Bool)
          → Leads (AfterOne st s) (AtMostAnnounced st s) (
              continue {A = Unit {0}}
                (later, if b then err opening_metadata_writer else ok tt)
                rest)
      by_test true = inr e
      by_test false =
          left_by-Leads st s (record t { tick = suc (suc t.tick) }) o.path
            (world.run_stage (suc t.tick) t.store runner tree st o.path) e

  run_one-Leads :
      (p : ℕ) (runner : Runner) (tree : BuildTree) (st : Stage) (s : State)
      → Leads (AfterOne st s) (AtMostAnnounced st s) (run_one world p runner tree st s)
  unfolding run_one run_held
  run_one-Leads p runner tree st s =
      Leads-continue (λ _ t. t.events ≡ s.events) (AfterOne st s) (AtMostAnnounced st s)
        (check world.is_cancelled s) _
        (Leads-check (λ _ t. t.events ≡ s.events) (AtMostAnnounced st s) world.is_cancelled s refl
          (inl refl))
        (λ _ t e. by_heap t e (get_elem? t.store.heap p))
    where
      said : State → State
      said t = record t { events = t.events ++ staged st ∷ [] }

      deref_by : Option Object → Action Object
      deref_by found t = elim found [ none ↦ (t, panic) | some o ↦ (t, ok o) ]

      by_heap :
          (t : State)
          → t.events ≡ s.events
          → (found : Option Object)
          → Leads
              (AfterOne st s)
              (AtMostAnnounced st s)
              (continue (deref_by found (said t)) (run_held runner tree st))
      by_heap t e none = inr (ap (λ x. x ++ staged st ∷ []) e)
      by_heap t e (some o) =
          run_held-Leads runner tree st o s (said t) (ap (λ x. x ++ staged st ∷ []) e)

  -- The stages that ran before an error, and the announcement that the error cut short, if any.
  pub data Broke : List Stage → List BuildResult → List Event → Type 0 where
    quiet : (todo : List Stage) → Broke todo [] []
    announced : (st : Stage) (todo : List Stage) → Broke (st ∷ todo) [] (staged st ∷ [])
    after :
        (st : Stage) (todo : List Stage) (r : BuildResult) (rs : List BuildResult)
        (tail : List Event)
        → r.stage ≡ st
        → succeeded r ≡ true
        → Broke todo rs tail
        → Broke (st ∷ todo) (r ∷ rs) tail

  abbrev pub EndsWith :
      List Stage → List BuildResult → State → Bool × List BuildResult → State → Type 0
  EndsWith todo results s out t =
      (rs : List BuildResult) × (out.1 ≡ results ++ rs)
      × Ran todo rs out.0
      × (t.events ≡ s.events ++ shown rs)

  abbrev pub BreaksOff : List Stage → State → State → Type 0
  BreaksOff todo s t =
      (rs : List BuildResult) × (tail : List Event) × Broke todo rs tail
      × (t.events ≡ s.events ++ (shown rs ++ tail))

  commit_checkpoint-Leads :
      (p : ℕ) (st : Stage) (s : State)
      → Leads
          (λ _ t. t.events ≡ s.events)
          (λ t. t.events ≡ s.events)
          (commit_checkpoint world p st s)
  unfolding commit_checkpoint
  commit_checkpoint-Leads p st s = by_mark st.checkpoint
    where
      committing : Action (Unit {0})
      committing =
          calling committing_checkpoint
            (λ t. commit world.sort_by_use (world.faults t) (world.now t) p (stage_id lib st))

      by_mark :
          (b : Bool)
          → Leads
              (λ _ t. t.events ≡ s.events)
              (λ t. t.events ≡ s.events)
              ((if b then committing else pure tt) s)
      by_mark true =
          Leads-calling (λ _ t. t.events ≡ s.events) (λ t. t.events ≡ s.events)
            committing_checkpoint
            (λ t. commit world.sort_by_use (world.faults t) (world.now t) p (stage_id lib st)) s
            (λ a t e. refl) (λ t. refl)
      by_mark false = refl

  pub run_stages-Leads :
      (p : ℕ) (runner : Runner) (tree : BuildTree) (todo : List Stage) (results : List BuildResult)
      (s : State)
      → Leads
          (EndsWith todo results s)
          (BreaksOff todo s)
          (run_stages world p runner tree todo results s)
  unfolding run_stages
  run_stages-Leads p runner tree [] results s =
      ([], sym (append-nil results), all_done, sym (append-nil s.events))
  run_stages-Leads p runner tree (st ∷ todo) results s =
      Leads-continue (AfterOne st s) (EndsWith (st ∷ todo) results s) (BreaksOff (st ∷ todo) s)
        (run_one world p runner tree st s) _
        (Leads-weaken (AfterOne st s) (AfterOne st s) (AtMostAnnounced st s)
          (BreaksOff (st ∷ todo) s) (run_one world p runner tree st s)
          (run_one-Leads p runner tree st s) (λ r t h. h) cut_short)
        (λ r t h.
          next r t h.0 h.1 (succeeded r) refl
            (λ t'. run_stages-Leads p runner tree todo (results ++ r ∷ []) t'))
    where
      cut_short : (t : State) → AtMostAnnounced st s t → BreaksOff (st ∷ todo) s t
      cut_short t (inl e) = ([], [], quiet (st ∷ todo), e ∙ sym (append-nil s.events))
      cut_short t (inr e) = ([], staged st ∷ [], announced st todo, e)

      joined :
          (r : BuildResult) (t u : State) (es : List Event)
          → t.events ≡ s.events ++ shown (r ∷ [])
          → u.events ≡ t.events ++ es
          → u.events ≡ s.events ++ (shown (r ∷ []) ++ es)
      joined r t u es e f = f ∙ ap (λ x. x ++ es) e ∙ append_assoc s.events (shown (r ∷ [])) es

      next :
          (r : BuildResult) (t : State)
          → r.stage ≡ st
          → t.events ≡ s.events ++ shown (r ∷ [])
          → (b : Bool) → succeeded r ≡ b
          → ((t' : State)
              → Leads
                  (EndsWith todo (results ++ r ∷ []) t')
                  (BreaksOff todo t')
                  (run_stages world p runner tree todo (results ++ r ∷ []) t'))
          → Leads (EndsWith (st ∷ todo) results s) (BreaksOff (st ∷ todo) s) (
              (elim b as (λ b'. Action (Bool × List BuildResult)) [
                | true ↦
                    commit_checkpoint world p st
                    >> run_stages world p runner tree todo (results ++ r ∷ [])
                | false ↦ close_failed world p (false, results ++ r ∷ [])
              ])
                t)
      next r t same e true good ih =
          Leads-continue (λ _ t'. t'.events ≡ t.events) (EndsWith (st ∷ todo) results s)
            (BreaksOff (st ∷ todo) s) (commit_checkpoint world p st t) _
            (Leads-weaken (λ _ t'. t'.events ≡ t.events) (λ _ t'. t'.events ≡ t.events)
              (λ t'. t'.events ≡ t.events) (BreaksOff (st ∷ todo) s)
              (commit_checkpoint world p st t) (commit_checkpoint-Leads p st t) (λ a t' h. h)
              (λ t' h. (r ∷ [], [], after st todo r [] [] same good (quiet todo), h ∙ e)))
            (λ _ t' f.
              Leads-weaken (EndsWith todo (results ++ r ∷ []) t') (EndsWith (st ∷ todo) results s)
                (BreaksOff todo t') (BreaksOff (st ∷ todo) s)
                (run_stages world p runner tree todo (results ++ r ∷ []) t') (ih t')
                (λ out u h. (
                  r ∷ h.0,
                  h.1 ∙ append_assoc results (r ∷ []) h.0,
                  went_on st todo r h.0 out.0 same good h.2,
                  joined r t' u (shown h.0) (f ∙ e) h.3,
                ))
                (λ u h. (
                  r ∷ h.0,
                  h.1,
                  after st todo r h.0 h.1 same good h.2,
                  joined r t' u (shown h.0 ++ h.1) (f ∙ e) h.3,
                )))
      next r t same e false bad ih =
          (r ∷ [], refl, stopped st todo r same bad, close_tree-events p t ∙ e)
