-- ===== src/Build/Action.antt =====
-- The state of a build and its actions. An action may fail, and the state that it leaves comes back
-- with the error. Each call to the outside happens at a tick of its own, which its faults and its
-- time depend on.
pub mod Leads
use image_assembler.Base.{
  ℕ, suc, String, Bool, Option, none, some, List, [], ◌∷◌, ◌++◌, if◌then◌else◌, get_elem?,
}
use image_assembler.Base.Int.{ℤ}
use image_assembler.Base.Result.{Result, ok, err, panic, map_err}
use image_assembler.Value.{Fields}
use image_assembler.Manifest.Model.{Stage, Runner, Pipeline}
use image_assembler.Manifest.Ident.{Library}
use image_assembler.Store.Size.{Tree}
use image_assembler.Store.Model.{Place, Object, Store, Faults, Error}
use image_assembler.Store.Evict.{ObjectInfo}
use image_assembler.Store.Objects.{close_object}

-- The root of the build environment of a stage: the host's tree, or an object's.
pub data BuildTree : Type 0 where
  host_root : BuildTree
  object_root : Place → BuildTree

-- What running a stage comes to: an error, or a return code, the output, the error that the stage
-- reported, and the files that it leaves in the tree.
pub data StageRun : Type 0 where
  not_run : StageRun
  ran : ℤ → String → Option Fields → Tree → StageRun

pub record BuildResult : Type 0 where
  pub stage : Stage
  pub return_code : ℤ
  pub output : String
  pub error : Option Fields

-- The results of a pipeline; a pipeline that was skipped has no list of stages.
pub record PipelineResult : Type 0 where
  pub success : Bool
  pub name : String
  pub stages : Option (List BuildResult)

-- The calls of the monitor: Begin, Stage, Result and Finish.
pub data Event : Type 0 where
  begun : Pipeline → Event
  staged : Stage → Event
  resulted : BuildResult → Event
  finished : PipelineResult → Event

pub data Failure : Type 0 where
  cancelled : Failure
  getting_host_tree : Error → Failure
  getting_build_tree : String → Error → Failure
  build_tree_not_found : String → Failure
  creating_object : Error → Failure
  checking_checkpoint : String → Error → Failure
  init_from_checkpoint : Error → Failure
  opening_metadata_writer : Failure
  running_stage : String → Failure
  committing_checkpoint : Error → Failure
  finalizing_tree : Error → Failure
  pipeline_not_found : String → Failure

-- The world around a build: what fails and when, and what RunStage does with a stage.
pub record World : Type 0 where
  pub lib : Library
  pub sort_by_use : List ObjectInfo → List ObjectInfo
  pub faults : ℕ → Faults
  pub now : ℕ → ℤ
  pub is_cancelled : ℕ → Bool
  pub uuid : ℕ → String
  pub fresh : Tree
  pub host_fails : ℕ → Bool
  pub clamp_fails : ℕ → Bool
  pub run_stage : ℕ → Store → Runner → BuildTree → Stage → Place → StageRun

pub record State : Type 0 where
  pub store : Store
  pub tick : ℕ
  pub events : List Event

abbrev pub Action : Type 0 → Type 0
Action A = State → State × Result Failure A

abbrev pub pure : {A : Type 0} → A → Action A
pure a s = (s, ok a)

abbrev pub raise : {A : Type 0} → Failure → Action A
raise e s = (s, err e)

abbrev pub continue :
    {A B : Type 0} → State × Result Failure A → (A → Action B) → State × Result Failure B
continue (s, ok a) f = f a s
continue (s, err e) f = (s, err e)
continue (s, panic) f = (s, panic)

infixl 5 ◌>>=◌ ◌>>◌
abbrev pub ◌>>=◌ : {A B : Type 0} → Action A → (A → Action B) → Action B
◌>>=◌ m f s = continue (m s) f

abbrev pub ◌>>◌ : {A B : Type 0} → Action A → Action B → Action B
m >> k = m >>= λ _. k

-- A call of the store.
abbrev pub calling :
    {A : Type 0} → (Error → Failure) → (ℕ → Store → Store × Result Error A) → Action A
calling wrap op s =
    let r = op s.tick s.store in (record s { store = r.0; tick = suc s.tick }, map_err wrap r.1)

abbrev pub emit : Event → Action (Unit {0})
emit e s = (record s { events = s.events ++ e ∷ [] }, ok tt)

-- if err := ctx.Err(); err != nil { return err }
abbrev pub check : (ℕ → Bool) → Action (Unit {0})
check is_cancelled s =
    (record s { tick = suc s.tick }, if is_cancelled s.tick then err cancelled else ok tt)

-- tree.Close()
unfoldable pub close_tree : ℕ → State → State
close_tree p s = elim (get_elem? s.store.heap p) [
  | none ↦ s
  | some o ↦ record s { store = record s.store { staged = close_object o s.store.staged } }
]

abbrev pub closed_on_error : {A : Type 0} → ℕ → State × Result Failure A → State × Result Failure A
closed_on_error p (s, ok a) = (s, ok a)
closed_on_error p (s, err e) = (close_tree p s, err e)
closed_on_error p (s, panic) = (s, panic)

-- Every error return closes the tree first.
abbrev pub closing : {A : Type 0} → ℕ → Action A → Action A
closing p m s = closed_on_error p (m s)
