-- ===== src/Manifest/Depsolve/Terminates.antt =====
-- Depsolve ends on a manifest whose dependencies have no cycle.
use image_assembler.Base.{
  ℕ, zero, suc, ◌+◌, ◌<◌, String, Bool, false, Option, none, some, List, [], ◌∷◌, ◌++◌, ◌≡◌, refl,
  arith, Bool-cases, inl, inr,
}
use image_assembler.Manifest.Model.{Pipeline, Manifest}
use image_assembler.Manifest.Ident.{Library}
use image_assembler.Manifest.Depsolve.{
  Plan, Outcome, cancellation, solved, Stack, loop, visit, skipped, push_targets, empty_plan,
  depsolve, finish, build_names,
}
use image_assembler.Manifest.Depsolve.Stack.{MemIn, children, push_children-append}

module _ (lib : Library) (m : Manifest) (cached : String → Bool) where
  -- The pipelines that the targets lead to have a rank, which falls from every one that is built to each
  -- that it asks for: the dependencies have no cycle.
  pub record IsRanked (targets : List String) (Inside : Pipeline → Type 0) (rank : Pipeline → ℕ)
      : Type 0 where
    pub starts : (q : Pipeline) → MemIn (some q) (push_targets lib m cached targets []) → Inside q
    pub falls :
        (p q : Pipeline)
        → Inside p
        → skipped lib m cached p ≡ false
        → MemIn (some q) (children lib m cached p)
        → Inside q × (rank q < rank p)

  module _ (cancelled : ℕ → Bool) where
    -- The loop has a result from this stack, whatever the plan, with some fuel.
    Ends : Stack → Type 0
    Ends check =
        (polls : ℕ) (plan : Plan)
        → (fuel : ℕ) × (o : Outcome) × (loop lib m cached cancelled fuel polls check plan ≡ some o)

    Ends-nil : Ends []
    unfolding Ends loop
    Ends-nil polls plan = (0, solved plan, refl)

    Ends-cons :
        (pl : Option Pipeline) (check : Stack)
        → ((plan : Plan) → Ends (visit lib m cached pl check plan).0)
        → Ends (pl ∷ check)
    unfolding Ends loop
    Ends-cons pl check h polls plan =
        let (fuel, o, e) = h plan (polls + 1) (visit lib m cached pl check plan).1 in
        elim (Bool-cases (cancelled polls)) [
          | inl c ↦ (suc fuel, cancellation, rw c refl)
          | inr c ↦ (suc fuel, o, rw c e)
        ]

    Ends-none : (check : Stack) → Ends check → Ends (none ∷ check)
    unfolding visit
    Ends-none check h = Ends-cons none check λ plan. h

    Ends-some :
        (p : Pipeline) (check : Stack)
        → Ends check
        → (skipped lib m cached p ≡ false → Ends (children lib m cached p ++ check))
        → Ends (some p ∷ check)
    unfolding visit
    Ends-some p check h k = Ends-cons (some p) check λ plan.
        elim (Bool-cases (skipped lib m cached p)) [
          | inl e ↦ rw e h
          | inr e ↦ rw e (rw (push_children-append lib m cached p check) (k e))
        ]

    Ends-append :
        (n : ℕ) (Inside : Pipeline → Type 0) (rank : Pipeline → ℕ)
        → ((q : Pipeline) (check : Stack)
            → Inside q
            → rank q < n
            → Ends check
            → Ends (some q ∷ check))
        → (cs check : Stack) → ((q : Pipeline) → MemIn (some q) cs → Inside q × (rank q < n))
        → Ends check
        → Ends (cs ++ check)
    Ends-append n Inside rank each [] check low h = h
    Ends-append n Inside rank each (none ∷ cs) check low h =
        Ends-none (cs ++ check) (Ends-append n Inside rank each cs check (λ q k. low q (inr k)) h)
    Ends-append n Inside rank each (some q ∷ cs) check low h =
        each q (cs ++ check) (low q (inl refl)).0 (low q (inl refl)).1
          (Ends-append n Inside rank each cs check (λ r k. low r (inr k)) h)

    Ends-ranked :
        (targets : List String) (Inside : Pipeline → Type 0) (rank : Pipeline → ℕ)
        → IsRanked targets Inside rank
        → (n : ℕ) (p : Pipeline) (check : Stack) → Inside p
        → rank p < n
        → Ends check
        → Ends (some p ∷ check)
    Ends-ranked targets Inside rank R zero p check i low h = elim low [ ]
    Ends-ranked targets Inside rank R (suc n) p check i low h =
        let below = λ (q : Pipeline) (c : Stack). Ends-ranked targets Inside rank R n q c in
        Ends-some p check h λ e.
          Ends-append n Inside rank below (children lib m cached p) check
            (λ q k. let f = R.falls p q i e k in (f.0, omega (arith, f.1))) h

    Ends-all :
        (targets : List String) (Inside : Pipeline → Type 0) (rank : Pipeline → ℕ)
        → IsRanked targets Inside rank
        → (check : Stack) → ((q : Pipeline) → MemIn (some q) check → Inside q)
        → Ends check
    Ends-all targets Inside rank R [] inside = Ends-nil
    Ends-all targets Inside rank R (none ∷ check) inside =
        Ends-none check (Ends-all targets Inside rank R check (λ q h. inside q (inr h)))
    Ends-all targets Inside rank R (some p ∷ check) inside =
        Ends-ranked targets Inside rank R (suc (rank p)) p check (inside p (inl refl)) (omega arith)
          (Ends-all targets Inside rank R check (λ q h. inside q (inr h)))

    loop-ne-cancellation :
        ((n : ℕ) → cancelled n ≡ false)
        → (fuel polls : ℕ) (check : Stack) (plan : Plan)
        → loop lib m cached cancelled fuel polls check plan ≡ some cancellation
        → ⊥
    unfolding loop
    loop-ne-cancellation never fuel polls [] plan h = cc
    loop-ne-cancellation never zero polls (pl ∷ check) plan h = cc
    loop-ne-cancellation never (suc fuel) polls (pl ∷ check) plan h =
        loop-ne-cancellation never fuel (polls + 1) (visit lib m cached pl check plan).0
          (visit lib m cached pl check plan).1 (rw (never polls) at h)

    finish_found :
        ((n : ℕ) → cancelled n ≡ false)
        → (fuel : ℕ) (check : Stack) (plan : Plan) (o : Outcome)
        → loop lib m cached cancelled fuel 0 check plan ≡ some o
        → (names : List String) × (finish lib m cached
              (loop lib m cached cancelled fuel 0 check plan)
            ≡ some (some names))
    finish_found never fuel check plan cancellation e =
        absurd (loop-ne-cancellation never fuel 0 check plan e)
    finish_found never fuel check plan (solved p) e = (build_names lib m cached p, rw e refl)

    -- If the pipelines that the targets lead to have no cycle among them, witnessed by a rank that falls from
    -- each one that is built to each that it asks for, and the context is never done, then Depsolve
    -- returns a list of names for some fuel.
    pub depsolve_ends :
        (targets : List String) (Inside : Pipeline → Type 0) (rank : Pipeline → ℕ)
        → IsRanked targets Inside rank
        → ((n : ℕ) → cancelled n ≡ false)
        → (fuel : ℕ) × (names : List String) × (depsolve lib m cached cancelled fuel targets
            ≡ some (some names))
    unfolding depsolve Ends
    depsolve_ends targets Inside rank R never =
        let check = push_targets lib m cached targets [] in
        let plan = empty_plan lib m cached cancelled in
        let (fuel, o, e) = Ends-all targets Inside rank R check R.starts 0 plan in
        let (names, f) = finish_found never fuel check plan o e in (fuel, names, f)
