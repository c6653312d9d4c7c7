-- ===== src/Manifest/Model.antt =====
-- manifest/manifest.go: the types of a parsed manifest. `m.Pipelines` is a Go slice and `byName`
-- holds pointers into its backing array: an append beyond the capacity copies the elements to a new
-- array, and the pointers go on showing the old one. So the backing arrays are part of the state.
use image_assembler.Base.{
  ℕ, String, Bool, Option, none, some, List, [], ◌∷◌, ◌++◌, ltb, if◌then◌else◌, length, get_elem?,
  set, Map, lookup, insert,
}
use image_assembler.Base.Int.{ℤ}
use image_assembler.Value.{Fields}
use image_assembler.Manifest.OrderedMap.{OrderedMap}

pub record Runner : Type 0 where
  pub name : String
  pub path : String

pub record Input : Type 0 where
  pub name : String
  pub type_name : String
  pub exec_path : String
  pub origin : String
  pub refs : Fields
  pub options : Fields

-- A device points to its parent device, or to none.
mutual
  pub data Device : Type 0 where
    device : String → String → String → Parent → Fields → Device

  pub data Parent : Type 0 where
    no_parent : Parent
    parent : Device → Parent

abbrev pub device_name : Device → String
device_name (device name _ _ _ _) = name

abbrev pub device_type : Device → String
device_type (device _ type_name _ _ _) = type_name

abbrev pub device_parent : Device → Parent
device_parent (device _ _ _ above _) = above

abbrev pub device_options : Device → Fields
device_options (device _ _ _ _ options) = options

pub record Mount : Type 0 where
  pub name : String
  pub type_name : String
  pub exec_path : String
  pub source : Option Device
  pub partition : Option ℤ
  pub target : String
  pub options : Fields

pub record Stage : Type 0 where
  pub type_name : String
  pub exec_path : String
  pub caps : List String
  pub build : Option String
  pub base : Option String
  pub options : Fields
  pub source_epoch : Option ℤ
  pub checkpoint : Bool
  pub inputs : OrderedMap Input
  pub devices : OrderedMap Device
  pub mounts : OrderedMap Mount

pub record Pipeline : Type 0 where
  pub name : String
  pub build : Option String
  pub runner : Runner
  pub stages : List Stage
  pub source_epoch : Option ℤ

pub record Source : Type 0 where
  pub type_name : String
  pub exec_path : String
  pub items : Fields
  pub options : Fields

-- `arrays` are the backing arrays that `m.Pipelines` has had, `current` the one that it has now.
-- A pointer is the number of an array and an index into it.
pub record Manifest : Type 0 where
  pub metadata : Fields
  pub arrays : List (List Pipeline)
  pub current : ℕ
  pub capacity : ℕ
  pub by_name : Map (ℕ × ℕ)
  pub sources : List Source

abbrev pub or_nil {ℓ} : {A : Type ℓ} → Option (List A) → List A
or_nil none = []
or_nil (some xs) = xs

abbrev pub array : Manifest → ℕ → List Pipeline
array m a = or_nil (get_elem? m.arrays a)

-- m.Pipelines
abbrev pub pipelines : Manifest → List Pipeline
pipelines m = array m m.current

-- What a pointer shows.
unfoldable pub deref : Manifest → ℕ × ℕ → Option Pipeline
deref m (a, i) = get_elem? (array m a) i

abbrev deref_found : Manifest → Option (ℕ × ℕ) → Option Pipeline
deref_found m none = none
deref_found m (some p) = deref m p

-- func (m *Manifest) Pipeline(name string) *Pipeline
unfoldable pub pipeline : Manifest → String → Option Pipeline
pipeline m name = deref_found m (lookup name m.by_name)

-- m.Pipelines = append(m.Pipelines, p); m.byName[name] = &m.Pipelines[len(m.Pipelines)-1].
-- `grow n` is the capacity that the runtime picks for a full slice of length n.
module _ (grow : ℕ → ℕ) where
  unfoldable pub append_pipeline : Pipeline → Manifest → Manifest
  append_pipeline p m =
      let ps = pipelines m in
      if ltb (length ps) m.capacity
      then record m { arrays = set m.arrays m.current (ps ++ p ∷ []) }
      else record m {
        arrays = m.arrays ++ (ps ++ p ∷ []) ∷ [];
        current = length m.arrays;
        capacity = grow (length ps);
      }

  unfoldable pub register : String → Pipeline → Manifest → Manifest
  unfolding append_pipeline
  register name p m =
      let m' = append_pipeline p m in
      record m' { by_name = insert name (m'.current, length (pipelines m)) m'.by_name }
