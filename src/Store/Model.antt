-- ===== src/Store/Model.antt =====
-- store/store.go and store/object.go: the state of a store, on disk and in the process.
use image_assembler.Base.{ℕ, String, Bool, Option, List, Map}
use image_assembler.Base.Int.{ℤ}
use image_assembler.Value.{Value}
use image_assembler.Store.Size.{Tree}

-- Where an object's files are: <root>/stage/uuid-<uuid>/data or <root>/objects/<id>/data.
pub data Place : Type 0 where
  in_stage : String → Place
  in_cache : String → Place

pub data ObjectMode : Type 0 where
  mode_read : ObjectMode
  mode_write : ObjectMode

pub record Object : Type 0 where
  pub id : String
  pub mode : ObjectMode
  pub path : Place
  pub stage_path : Option String
  pub meta_path : Place
  pub source_epoch : Option ℤ

-- A directory <root>/objects/<id>: the access time of its object.lock, its data, and the size in its
-- object.info, each if the file is there.
pub record Entry : Type 0 where
  pub lock : Option ℤ
  pub data_tree : Option Tree
  pub recorded : Option ℤ

-- The heap holds the objects that pointers, such as those in objs, lead to. The info file is none if
-- it cannot be read, and some none if it holds no JSON object. The size file holds a number, 0 standing
-- for anything that json.Unmarshal does not take for one.
pub record Store : Type 0 where
  pub objs : Map ℕ
  pub heap : List Object
  pub read_only : Bool
  pub lock_held : Bool
  pub host_tree : Bool
  pub maximum_size : ℤ
  pub objects : Map Entry
  pub staged : Map Tree
  pub size_file : ℤ
  pub info_file : Option (Option (Map Value))

-- What os.WriteFile comes to: all is written, the file is not opened and stays as it was, or what is
-- in it afterwards lacks some last bytes.
pub data Written : Type 0 where
  all_written : Written
  not_opened : Written
  cut_off : ℕ → Written

-- What one updateCacheSize meets: whether opening or locking cache.size fails, how many of its digits
-- ReadFile fails to read, all of them when it fails at once, and what WriteFile comes to.
pub record SizeFaults : Type 0 where
  pub unusable : Bool
  pub digits_unread : ℕ
  pub written : Written

-- The calls of calculateSpace and updateCacheSize in one Commit.
pub data Counting : Type 0 where
  storing : Counting
  evicting : String → Counting
  storing_again : Counting

-- Which of the calls to the operating system fail.
pub record Faults : Type 0 where
  pub mkdir : Bool
  pub lock : Bool
  pub copy : Bool
  pub info : Bool
  pub metadata : Bool
  pub read_dir : Bool
  pub space : Counting → Bool
  pub size : Counting → SizeFaults

pub data Error : Type 0 where
  store_is_read_only : Error
  creating_directory : Error
  creating_lock : Error
  committing_object : Error
  writing_info : Error
  loading_metadata : Error
  reading_info : Error
  clamping_mtime : Error
  copying_base : Error
  not_in_write_mode : Error
  making_host_tree : Error
