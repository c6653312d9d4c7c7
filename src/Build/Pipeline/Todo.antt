-- ===== src/Build/Pipeline/Todo.antt =====
-- build/build.go: the walk of BuildPipeline over the stages in reverse finds an end of
-- them to run.
use mathlib.Core.List.{reverse, append_assoc, reverse-cons}
use image_assembler.Base.{
  ℕ, Bool, true, false, Option, none, some, List, [], ◌∷◌, ◌++◌, ◌≡◌, refl, ap, ◌∙◌,
}
use image_assembler.Base.Result.{Result}
use image_assembler.Manifest.Model.{Stage}
use image_assembler.Manifest.Ident.{stage_id}
use image_assembler.Store.Cache.{get}
use image_assembler.Store.Objects.{init}
use image_assembler.Build.Action.{
  calling, Failure, World, State, Action, pure, ◌>>◌, checking_checkpoint, init_from_checkpoint,
}
use image_assembler.Build.Action.Leads.{Leads, Leads-continue, Leads-weaken, Leads-calling}
use image_assembler.Build.Pipeline.{find_todo, get_object, readable_at}

-- One list ends with the other.
abbrev pub IsEnd : List Stage → List Stage → Type 0
IsEnd todo stages = (before : List Stage) × (stages ≡ before ++ todo)

module _ (world : World) where
  open world use {lib}

  abbrev pub Found : List Stage → State → List Stage → State → Type 0
  Found stages s todo t = IsEnd todo stages × (t.events ≡ s.events)

  pub find_todo-Leads :
      (p : ℕ) (rev todo : List Stage) (s : State)
      → Leads
          (Found (reverse rev ++ todo) s)
          (λ t. t.events ≡ s.events)
          (find_todo world p rev todo s)
  unfolding find_todo
  find_todo-Leads p [] todo s = (([], refl), refl)
  find_todo-Leads p (st ∷ before) todo s =
      Leads-continue (λ _ t. t.events ≡ s.events) (Found (reverse (st ∷ before) ++ todo) s)
        (λ t. t.events ≡ s.events) (get_object world checking_checkpoint (stage_id lib st) s) _
        (Leads-calling (λ _ t. t.events ≡ s.events) (λ t. t.events ≡ s.events)
          (checking_checkpoint (stage_id lib st))
          (λ t. get (world.faults t) (world.now t) (stage_id lib st)) s (λ a t e. refl) (λ t. refl))
        (λ found t e. next t e found (λ t'. find_todo-Leads p before (st ∷ todo) t'))
    where
      Goal : State × Result {0, 0} Failure (List Stage) → Type 0
      Goal r = Leads (Found (reverse (st ∷ before) ++ todo) s) (λ t. t.events ≡ s.events) r

      moved : reverse (st ∷ before) ++ todo ≡ reverse before ++ (st ∷ todo)
      moved =
          ap (λ x. x ++ todo) (reverse-cons st before)
          ∙ append_assoc (reverse before) (st ∷ []) todo

      Rest : Type 0
      Rest =
          (t' : State)
          → Leads (Found (reverse before ++ (st ∷ todo)) t') (λ u. u.events ≡ t'.events)
              (find_todo world p before (st ∷ todo) t')

      skip :
          Rest → (t : State) → t.events ≡ s.events → Goal (find_todo world p before (st ∷ todo) t)
      skip ih t e =
          Leads-weaken (Found (reverse before ++ (st ∷ todo)) t)
            (Found (reverse (st ∷ before) ++ todo) s) (λ u. u.events ≡ t.events)
            (λ u. u.events ≡ s.events) (find_todo world p before (st ∷ todo) t) (ih t)
            (λ l u h. ((h.0.0, moved ∙ h.0.1), h.1 ∙ e)) (λ u h. h ∙ e)

      by_mode :
          (t : State)
          → t.events ≡ s.events
          → (q : ℕ) → Rest
          → (b : Bool)
          → Goal (elim b as (λ b'. State × Result {0, 0} Failure (List Stage)) [
            | true ↦ (calling init_from_checkpoint (λ k. init (world.faults k) p q) >> pure todo) t
            | false ↦ find_todo world p before (st ∷ todo) t
          ])
      by_mode t e q ih true =
          Leads-continue (λ _ u. u.events ≡ s.events) (Found (reverse (st ∷ before) ++ todo) s)
            (λ u. u.events ≡ s.events)
            (calling init_from_checkpoint (λ k. init (world.faults k) p q) t) _
            (Leads-calling (λ _ u. u.events ≡ s.events) (λ u. u.events ≡ s.events)
              init_from_checkpoint (λ k. init (world.faults k) p q) t (λ a u h. e) (λ u. e))
            (λ _ u h. ((reverse (st ∷ before), refl), h))
      by_mode t e q ih false = skip ih t e

      next :
          (t : State)
          → t.events ≡ s.events
          → (found : Option ℕ) → Rest
          → Goal (
              (elim found as (λ f. Action (List Stage)) [
                | none ↦ find_todo world p before (st ∷ todo)
                | some q ↦ λ u.
                    elim (readable_at world q u)
                      as (λ b'. State × Result {0, 0} Failure (List Stage)) [
                        | true ↦
                            (calling init_from_checkpoint (λ k. init (world.faults k) p q)
                                >> pure todo)
                              u
                        | false ↦ find_todo world p before (st ∷ todo) u
                      ]
              ])
                t)
      next t e none ih = skip ih t e
      next t e (some q) ih = by_mode t e q ih (readable_at world q t)
