-- ===== src/Manifest/Depsolve/Order.antt =====
-- Depsolve's order: whatever is built comes after all that it asks for.
use image_assembler.Base.{
  ℕ, zero, suc, ◌+◌, String, Bool, true, false, Option, none, some, List, [], ◌∷◌, ◌++◌, ◌≡◌, refl,
  arith, Bool-cases, inl, inr, str_eq, str_eq_iff, contains, lookup, lookup-insert,
}
use image_assembler.Manifest.Model.{Pipeline, Manifest}
use image_assembler.Manifest.Ident.{Library, pipeline_id}
use image_assembler.Manifest.Depsolve.{
  Plan, solved, Stack, loop, visit, skipped, push_targets, solve, add_key, empty_plan, without,
}
use image_assembler.Manifest.Depsolve.Stack.{
  MemIn, children, push_children-append, MemIn-append_left, MemIn-append_right,
}
use image_assembler.Manifest.Depsolve.Keys.{
  after, contains-append, contains-without, after-append_last, after-append, after-without,
}

-- Whether there is one.
abbrev pub present {ℓ} : {A : Type ℓ} → Option A → Bool
present none = false
present (some _) = true

module _ (lib : Library) (m : Manifest) (cached : String → Bool) where
  -- `q` is not built, or waits on the stack, or stands after the key.
  pub data Settled (check : Stack) (keys : List String) (k : String) (q : Pipeline) : Type 0 where
    not_built : skipped lib m cached q ≡ true → Settled check keys k q
    pending : MemIn (some q) check → Settled check keys k q
    later : after keys k (pipeline_id lib q) ≡ true → Settled check keys k q

  -- The invariant of the loop.
  pub record IsOrdered (check : Stack) (plan : Plan) : Type 0 where
    pub listed : (k : String) → contains plan.build_keys k ≡ present (lookup k plan.build_map)
    asked :
        (k : String) (p q : Pipeline)
        → lookup k plan.build_map ≡ some p
        → MemIn (some q) (children lib m cached p)
        → Settled check plan.build_keys k q

  add_key-listed :
      (id : String) (p : Pipeline) (plan : Plan)
      → ((k : String) → contains plan.build_keys k ≡ present (lookup k plan.build_map))
      → (k : String)
      → contains (add_key lib m cached id p plan).build_keys k
        ≡ present (lookup k (add_key lib m cached id p plan).build_map)
  unfolding add_key contains
  add_key-listed id p plan h k = ground (
    arith,
    h k,
    h id,
    contains-append plan.build_keys (id ∷ []) k,
    contains-append (without id plan.build_keys) (id ∷ []) k,
    contains-without plan.build_keys id k,
    lookup-insert id k p plan.build_map,
    str_eq_iff id k,
  )

  -- A key that was there before stands before the one that is added.
  after-add_key_last :
      (id : String) (p : Pipeline) (plan : Plan) (k : String)
      → str_eq id k ≡ false
      → contains plan.build_keys k ≡ true
      → after (add_key lib m cached id p plan).build_keys k id ≡ true
  unfolding add_key
  after-add_key_last id p plan k e h = ground (
    arith,
    after-append_last plan.build_keys k id,
    after-append_last (without id plan.build_keys) k id,
    contains-without plan.build_keys id k,
  )

  after-add_key :
      (id : String) (p : Pipeline) (plan : Plan) (k j : String)
      → str_eq id k ≡ false
      → str_eq id j ≡ false
      → after plan.build_keys k j ≡ true
      → after (add_key lib m cached id p plan).build_keys k j ≡ true
  unfolding add_key
  after-add_key id p plan k j e f h = ground (
    arith,
    after-append plan.build_keys (id ∷ []) k j,
    after-append (without id plan.build_keys) (id ∷ []) k j,
    after-without plan.build_keys id k j,
  )

  some-eq : (q p : Pipeline) → some q ≡ some p → q ≡ p
  some-eq q p e = cc

  Settled-none :
      (check : Stack) (keys : List String) (k : String) (q : Pipeline)
      → Settled (none ∷ check) keys k q
      → Settled check keys k q
  Settled-none check keys k q (not_built e) = not_built e
  Settled-none check keys k q (pending (inl e)) = absurd (cc)
  Settled-none check keys k q (pending (inr h)) = pending h
  Settled-none check keys k q (later e) = later e

  Settled-skipped :
      (p : Pipeline) (check : Stack) (keys : List String) (k : String) (q : Pipeline)
      → skipped lib m cached p ≡ true
      → Settled (some p ∷ check) keys k q
      → Settled check keys k q
  Settled-skipped p check keys k q s (not_built e) = not_built e
  Settled-skipped p check keys k q s (pending (inl e)) = not_built (rw (some-eq q p e) s)
  Settled-skipped p check keys k q s (pending (inr h)) = pending h
  Settled-skipped p check keys k q s (later e) = later e

  -- An older entry, after `p` was taken from the stack and its key put at the end.
  Settled-add_key :
      (p : Pipeline) (cs check : Stack) (plan : Plan) (k : String) (q : Pipeline)
      → str_eq (pipeline_id lib p) k ≡ false
      → contains plan.build_keys k ≡ true
      → Settled (some p ∷ check) plan.build_keys k q
      → Settled (cs ++ check) (add_key lib m cached (pipeline_id lib p) p plan).build_keys k q
  Settled-add_key p cs check plan k q e h (not_built s) = not_built s
  Settled-add_key p cs check plan k q e h (pending (inl s)) =
      later (rw (some-eq q p s) (after-add_key_last (pipeline_id lib p) p plan k e h))
  Settled-add_key p cs check plan k q e h (pending (inr s)) =
      pending (MemIn-append_right (some q) cs check s)
  Settled-add_key p cs check plan k q e h (later s) =
      elim (Bool-cases (str_eq (pipeline_id lib p) (pipeline_id lib q))) [
        | inl f ↦ later (
            rw (← (str_eq_iff (pipeline_id lib p) (pipeline_id lib q)).0 f)
              (after-add_key_last (pipeline_id lib p) p plan k e h))
        | inr f ↦ later (after-add_key (pipeline_id lib p) p plan k (pipeline_id lib q) e f s)
      ]

  asked-add_key :
      (p : Pipeline) (check : Stack) (plan : Plan)
      → IsOrdered (some p ∷ check) plan
      → (k : String) (p' q : Pipeline)
      → lookup k (add_key lib m cached (pipeline_id lib p) p plan).build_map ≡ some p'
      → MemIn (some q) (children lib m cached p')
      → Settled
          (children lib m cached p ++ check)
          (add_key lib m cached (pipeline_id lib p) p plan).build_keys
          k
          q
  unfolding add_key
  asked-add_key p check plan I k p' q e h = elim (Bool-cases (str_eq (pipeline_id lib p) k)) [
    | inl f ↦
        let same : p ≡ p' = ground (arith, lookup-insert (pipeline_id lib p) k p plan.build_map) in
        pending (MemIn-append_left (some q) (children lib m cached p) check (rw same h))
    | inr f ↦
        let old : lookup k plan.build_map ≡ some p' =
          ground (arith, lookup-insert (pipeline_id lib p) k p plan.build_map) in
        Settled-add_key p (children lib m cached p) check plan k q f (ground (arith, I.listed k))
          (I.asked k p' q old h)
  ]

  visit-IsOrdered :
      (pl : Option Pipeline) (check : Stack) (plan : Plan)
      → IsOrdered (pl ∷ check) plan
      → IsOrdered (visit lib m cached pl check plan).0 (visit lib m cached pl check plan).1
  unfolding visit
  visit-IsOrdered none check plan I = record {
    listed = I.listed;
    asked = λ k p q e h. Settled-none check plan.build_keys k q (I.asked k p q e h);
  }
  visit-IsOrdered (some p) check plan I = elim (Bool-cases (skipped lib m cached p)) [
    | inl e ↦ rw e (record {
      listed = I.listed;
      asked = λ k p' q f h. Settled-skipped p check plan.build_keys k q e (I.asked k p' q f h);
    })
    | inr e ↦ rw e (
        rw (push_children-append lib m cached p check) (record {
          listed = add_key-listed (pipeline_id lib p) p plan I.listed;
          asked = asked-add_key p check plan I;
        }))
  ]

  IsOrdered-loop :
      (cancelled : ℕ → Bool) (fuel polls : ℕ) (check : Stack) (plan end_plan : Plan)
      → IsOrdered check plan
      → loop lib m cached cancelled fuel polls check plan ≡ some (solved end_plan)
      → IsOrdered [] end_plan
  unfolding loop
  IsOrdered-loop cancelled fuel polls [] plan end_plan I h =
      let same : plan ≡ end_plan = cc in rw (← same) I
  IsOrdered-loop cancelled zero polls (pl ∷ check) plan end_plan I h = absurd (cc)
  IsOrdered-loop cancelled (suc fuel) polls (pl ∷ check) plan end_plan I h =
      elim (Bool-cases (cancelled polls)) [
        | inl c ↦ absurd (ground arith)
        | inr c ↦
            IsOrdered-loop cancelled fuel (polls + 1) (visit lib m cached pl check plan).0
              (visit lib m cached pl check plan).1 end_plan (visit-IsOrdered pl check plan I)
              (rw c at h)
      ]

  pub solve-IsOrdered :
      (cancelled : ℕ → Bool) (fuel : ℕ) (targets : List String) (plan : Plan)
      → solve lib m cached cancelled fuel targets ≡ some (solved plan)
      → IsOrdered [] plan
  unfolding solve contains lookup
  solve-IsOrdered cancelled fuel targets plan h =
      let start : IsOrdered (push_targets lib m cached targets [])
          (empty_plan lib m cached cancelled) =
        record { listed = λ k. refl; asked = λ k p q e h. absurd (cc) } in
      IsOrdered-loop cancelled fuel 0 (push_targets lib m cached targets []) _ plan start h
