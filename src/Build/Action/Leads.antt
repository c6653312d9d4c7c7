-- ===== src/Build/Action/Leads.antt =====
-- What an action leads to: one condition for its result and the state with it, another for the state
-- that an error or a panic leaves.
use image_assembler.Base.{ℕ, suc, Bool, true, false, ◌≡◌, refl, if◌then◌else◌, arith}
use image_assembler.Base.Result.{Result, ok, err, panic, map_err}
use image_assembler.Store.Model.{Store, Error}
use image_assembler.Build.Action.{
  Failure, cancelled, State, Action, continue, calling, check, closed_on_error, close_tree,
}

abbrev pub Leads :
    {A : Type 0}
    → (A → State → Type 0)
    → (State → Type 0)
    → State × Result {0, 0} Failure A
    → Type 0
Leads Q E (s, ok a) = Q a s
Leads Q E (s, err e) = E s
Leads Q E (s, panic) = E s

pub Leads-continue :
    {A B : Type 0} (Q : A → State → Type 0) (R : B → State → Type 0) (E : State → Type 0)
    (r : State × Result {0, 0} Failure A) (f : A → Action B)
    → Leads Q E r
    → ((a : A) (s : State) → Q a s → Leads R E (f a s))
    → Leads R E (continue r f)
Leads-continue Q R E (s, ok a) f h k = k a s h
Leads-continue Q R E (s, err e) f h k = h
Leads-continue Q R E (s, panic) f h k = h

-- Any call of the store leads to whatever holds of the states with any store and the next tick.
pub Leads-calling :
    {A : Type 0} (Q : A → State → Type 0) (E : State → Type 0) (wrap : Error → Failure)
    (op : ℕ → Store → Store × Result {0, 0} Error A) (s : State)
    → ((a : A) (t : Store)
        → op s.tick s.store ≡ (t, ok a)
        → Q a (record s { store = t; tick = suc s.tick }))
    → ((t : Store) → E (record s { store = t; tick = suc s.tick }))
    → Leads Q E (calling wrap op s)
Leads-calling {A} Q E wrap op s q e = go (op s.tick s.store) refl
  where
    go :
        (r : Store × Result {0, 0} Error A)
        → op s.tick s.store ≡ r
        → Leads Q E (record s { store = r.0; tick = suc s.tick }, map_err wrap r.1)
    go (t, ok a) h = q a t h
    go (t, err x) h = e t
    go (t, panic) h = e t

pub Leads-check :
    (Q : Unit {0} → State → Type 0) (E : State → Type 0) (c : ℕ → Bool) (s : State)
    → Q tt (record s { tick = suc s.tick })
    → E (record s { tick = suc s.tick })
    → Leads Q E (check c s)
Leads-check Q E c s q e = go (c s.tick)
  where
    go : (b : Bool) → Leads Q E (record s { tick = suc s.tick }, if b then err cancelled else ok tt)
    go true = e
    go false = q

pub Leads-closing :
    {A : Type 0} (Q : A → State → Type 0) (E : State → Type 0) (p : ℕ)
    (r : State × Result {0, 0} Failure A)
    → Leads Q E r
    → ((s : State) → E s → E (close_tree p s))
    → Leads Q E (closed_on_error p r)
Leads-closing Q E p (s, ok a) h k = h
Leads-closing Q E p (s, err e) h k = k s h
Leads-closing Q E p (s, panic) h k = h

pub close_tree-events : (p : ℕ) (s : State) → (close_tree p s).events ≡ s.events
unfolding close_tree
close_tree-events p s = ground arith

pub Leads-weaken :
    {A : Type 0} (Q R : A → State → Type 0) (E F : State → Type 0)
    (r : State × Result {0, 0} Failure A)
    → Leads Q E r
    → ((a : A) (s : State) → Q a s → R a s)
    → ((s : State) → E s → F s)
    → Leads R F r
Leads-weaken Q R E F (s, ok a) h q e = q a s h
Leads-weaken Q R E F (s, err x) h q e = e s h
Leads-weaken Q R E F (s, panic) h q e = e s h

-- A call of the store says nothing to the monitor.
pub calling-quiet :
    {A : Type 0} (wrap : Error → Failure) (op : ℕ → Store → Store × Result {0, 0} Error A)
    (s t : State)
    → t.events ≡ s.events
    → Leads (λ _ u. u.events ≡ s.events) (λ u. u.events ≡ s.events) (calling wrap op t)
calling-quiet wrap op s t e =
    Leads-calling (λ _ u. u.events ≡ s.events) (λ u. u.events ≡ s.events) wrap op t (λ a u h. e)
      (λ u. e)
