-- ===== src/Registry/Runners.antt =====
-- registry/registry.go: the runners, over the code points of their names. What the directory of the
-- runners holds, in the order that sort.Slice left it, is an argument.
use image_assembler.Base.{
  ℕ, ◌-◌, ◌^◌, String, Bool, true, false, Option, none, some, List, [], ◌∷◌, ltb, leb,
  if◌then◌else◌,
}
use image_assembler.Base.Atoi.{is_digit, decimal, same_text}
pub mod Best

pub record RunnerInfo : Type 0 where
  pub distro : List ℕ
  pub version : ℕ
  pub path : String

abbrev pub cons_digit : ℕ → Bool → List ℕ × List ℕ → List ℕ × List ℕ
cons_digit c true ([], ds) = ([], c ∷ ds)
cons_digit c false ([], ds) = (c ∷ [], ds)
cons_digit c digit (p ∷ ps, ds) = (c ∷ p ∷ ps, ds)

-- The name up to its last run of digits at the end, and that run.
unfoldable pub split_version : List ℕ → List ℕ × List ℕ
unfolding is_digit
split_version [] = ([], [])
split_version (c ∷ cs) = cons_digit c (is_digit c) (split_version cs)

-- strconv.Atoi with its error dropped: the greatest int if the number is too large.
abbrev pub atoi_value : Option ℕ → ℕ
atoi_value none = 0
atoi_value (some n) = if ltb n (2 ^ 63) then n else 2 ^ 63 - 1

-- parseRunnerName
unfoldable pub parse_runner_name : List ℕ → List ℕ × ℕ
unfolding split_version decimal
parse_runner_name name = split (split_version name)
  where
    split : List ℕ × List ℕ → List ℕ × ℕ
    split (distro, []) = (name, 0)
    split (distro, d ∷ ds) = (distro, atoi_value (decimal (d ∷ ds)))

unfoldable pub of_distro : List ℕ → List RunnerInfo → List RunnerInfo
of_distro distro [] = []
of_distro distro (r ∷ rs) =
    let rest = of_distro distro rs in if same_text r.distro distro then r ∷ rest else rest

-- ListRunners
unfoldable pub list_runners : List ℕ → List RunnerInfo → List RunnerInfo
unfolding of_distro
list_runners [] runners = runners
list_runners (c ∷ cs) runners = of_distro (c ∷ cs) runners

abbrev pub or_first : Option RunnerInfo → Bool → RunnerInfo → Option RunnerInfo
or_first (some later) fits r = some later
or_first none true r = some r
or_first none false r = none

-- for i := len(runners) - 1; i >= 0; i--: the last one that fits.
unfoldable pub last_fitting : ℕ → List RunnerInfo → Option RunnerInfo
last_fitting version [] = none
last_fitting version (r ∷ rs) = or_first (last_fitting version rs) (leb r.version version) r

-- DetectRunner; none is the error.
unfoldable pub detect_runner : List ℕ → List RunnerInfo → Option RunnerInfo
unfolding parse_runner_name list_runners last_fitting
detect_runner name runners =
    let wanted = parse_runner_name name in last_fitting wanted.1 (list_runners wanted.0 runners)
