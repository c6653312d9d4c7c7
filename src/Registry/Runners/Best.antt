-- ===== src/Registry/Runners/Best.antt =====
-- registry/registry.go: DetectRunner chooses the best runner.
use image_assembler.Base.{
  ℕ, zero, suc, ◌≤◌, ◌<◌, ◌≡◌, ◌≢◌, refl, sym, subst, ◌∙◌, Bool, true, false, Option, none, some,
  List, [], ◌∷◌, leb, leb→le, get_elem?, All, All-get_elem?, arith, Bool-cases, inl, inr,
}
use image_assembler.Base.Atoi.{same_text}
use image_assembler.Registry.Runners.{
  RunnerInfo, detect_runner, list_runners, of_distro, last_fitting, parse_runner_name, or_first,
}

same_text-eq : (s t : List ℕ) → same_text s t ≡ true → s ≡ t
same_text-eq [] [] h = refl
same_text-eq [] (d ∷ ds) h = cc
same_text-eq (c ∷ cs) [] h = cc
same_text-eq (c ∷ cs) (d ∷ ds) h = cc (numbers, same_text-eq cs ds (ground arith))
  where
    numbers : c ≡ d
    numbers = ground arith

-- Within a distro, versions rise: what sort.Slice leaves.
abbrev pub IsSorted : List RunnerInfo → Type 0
IsSorted [] = Unit
IsSorted (r ∷ rs) = All (λ q. r.distro ≡ q.distro → r.version ≤ q.version) rs × IsSorted rs

-- Versions rise.
abbrev IsRising : List RunnerInfo → Type 0
IsRising [] = Unit
IsRising (r ∷ rs) = All (λ q. r.version ≤ q.version) rs × IsRising rs

of_distro-All :
    (distro : List ℕ) (r : RunnerInfo) (rs : List RunnerInfo)
    → r.distro ≡ distro
    → All (λ q. r.distro ≡ q.distro → r.version ≤ q.version) rs
    → All (λ q. r.version ≤ q.version) (of_distro distro rs)
unfolding of_distro
of_distro-All distro r [] e h = tt
of_distro-All distro r (q ∷ qs) e h = elim (Bool-cases (same_text q.distro distro)) [
  | inl b ↦ rw b (h.0 (e ∙ sym (same_text-eq q.distro distro b)), of_distro-All distro r qs e h.1)
  | inr b ↦ rw b (of_distro-All distro r qs e h.1)
]

of_distro-IsRising :
    (distro : List ℕ) (rs : List RunnerInfo) → IsSorted rs → IsRising (of_distro distro rs)
unfolding of_distro
of_distro-IsRising distro [] h = tt
of_distro-IsRising distro (r ∷ rs) h = elim (Bool-cases (same_text r.distro distro)) [
  | inl b ↦ rw b (
    of_distro-All distro r rs (same_text-eq r.distro distro b) h.0,
    of_distro-IsRising distro rs h.1,
  )
  | inr b ↦ rw b (of_distro-IsRising distro rs h.1)
]

-- The runner is in the list, fits, and no runner in the list that fits is newer.
abbrev pub IsBest : ℕ → List RunnerInfo → RunnerInfo → Type 0
IsBest version rs r =
    ((i : ℕ) × (get_elem? rs i ≡ some r))
    × (r.version ≤ version)
    × All (λ q. q.version ≤ version → q.version ≤ r.version) rs

-- What the choice is, or that there is none.
abbrev pub IsChoice : ℕ → List RunnerInfo → Option RunnerInfo → Type 0
IsChoice version rs none = All (λ q. version < q.version) rs
IsChoice version rs (some r) = IsBest version rs r

All-map {κ μ} :
    (Q : RunnerInfo → Type κ) (R : RunnerInfo → Type μ) (rs : List RunnerInfo)
    → ((r : RunnerInfo) → Q r → R r)
    → All Q rs
    → All R rs
All-map Q R [] f h = tt
All-map Q R (r ∷ rs) f h = (f r h.0, All-map Q R rs f h.1)

last_fitting-IsChoice :
    (version : ℕ) (rs : List RunnerInfo)
    → IsRising rs
    → IsChoice version rs (last_fitting version rs)
unfolding last_fitting
last_fitting-IsChoice version [] h = tt
last_fitting-IsChoice version (r ∷ rs) h =
    chosen (last_fitting version rs) (last_fitting-IsChoice version rs h.1) (leb r.version version)
      refl
  where
    chosen :
        (o : Option RunnerInfo)
        → IsChoice version rs o
        → (b : Bool) → leb r.version version ≡ b
        → IsChoice version (r ∷ rs) (or_first o b r)
    chosen (some x) c b e = (
      (suc c.0.0, c.0.1),
      c.1,
      ((λ fits. All-get_elem? (λ q. r.version ≤ q.version) rs c.0.0 x h.0 c.0.1), c.2),
    )
    chosen none c true e = (
      (zero, refl),
      leb→le r.version version e,
      (
        (λ fits. omega arith),
        All-map (λ q. version < q.version) (λ q. q.version ≤ version → q.version ≤ r.version) rs
            (λ q newer fits. omega arith) c,
      ),
    )
    chosen none c false e = (ground arith, c)

list_runners_asked :
    (distro : List ℕ) (runners : List RunnerInfo)
    → distro ≢ []
    → list_runners distro runners ≡ of_distro distro runners
unfolding list_runners
list_runners_asked [] runners ne = absurd (ne refl)
list_runners_asked (c ∷ cs) runners ne = refl

-- If the runners are sorted and the name asks for a distro, DetectRunner chooses among the runners
-- of that distro: it returns one whose version is at most the one asked for, and no such runner is
-- newer; it fails only if every runner of the distro is newer than the version asked for.
pub detect_runner-IsChoice :
    (name : List ℕ) (runners : List RunnerInfo)
    → IsSorted runners
    → (parse_runner_name name).0 ≢ []
    → let wanted = parse_runner_name name in
      IsChoice wanted.1 (of_distro wanted.0 runners) (detect_runner name runners)
unfolding detect_runner
detect_runner-IsChoice name runners h asked =
    subst (λ l. IsChoice wanted.1 (of_distro wanted.0 runners) (last_fitting wanted.1 l))
      (sym (list_runners_asked wanted.0 runners asked))
      (last_fitting-IsChoice wanted.1 (of_distro wanted.0 runners)
        (of_distro-IsRising wanted.0 runners h))
  where
    wanted : List ℕ × ℕ
    wanted = parse_runner_name name
