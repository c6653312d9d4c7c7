-- ===== src/Sandbox/Life.antt =====
-- sandbox/sandbox.go: Open and Close, with what they make and take away on the host. Which calls fail,
-- those whose errors Close does not return among them, and the names that os.MkdirTemp picks are
-- arguments. What is inside of the temporary directories is left out, with the calls that make it.
use image_assembler.Base.{
  String, Bool, true, false, not, ◌||◌, ◌&&◌, Option, none, some, List, [], ◌∷◌, ◌++◌,
  if◌then◌else◌, str_eq,
}
use image_assembler.Base.Result.{Result, ok, err, panic}
pub mod Closed
pub mod Clean

-- The fields that Open and Close change, and the endpoints of the registered APIs.
pub record Sandbox : Type 0 where
  pub dev : String
  pub tmp_path : String
  pub apis : List String

-- What is on the host: the temporary directories, the mounts, each with the directory of devices that
-- it is at or below, and the API servers that run.
pub record Host : Type 0 where
  pub dirs : List String
  pub mounts : List (String × String)
  pub running : List String

pub data OpenError : Type 0 where
  creating_dev_dir : OpenError
  mounting_dev : OpenError
  binding_device : String → OpenError
  creating_tmp_dir : OpenError
  starting_api : String → OpenError

-- The mounts, by the names they are bound under, that umount -R does not take away, and the
-- directories that os.RemoveAll does not.
pub record CloseFaults : Type 0 where
  pub still_mounted : String → Bool
  pub not_removed : String → Bool

-- `closing` is what happens when Open takes away what it made.
pub record OpenFaults : Type 0 where
  pub dev_dir : Bool
  pub mount : Bool
  pub bind : String → Bool
  pub tmp_dir : Bool
  pub api : String → Bool
  pub closing : CloseFaults

abbrev pub device_names : List String
device_names = "full" ∷ "null" ∷ "random" ∷ "urandom" ∷ "tty" ∷ "zero" ∷ []

unfoldable pub remove_all : String → List String → List String
remove_all x [] = []
remove_all x (y ∷ ys) = let rest = remove_all x ys in if str_eq y x then rest else y ∷ rest

-- umount -R
unfoldable pub unmount : CloseFaults → String → List (String × String) → List (String × String)
unmount faults dev [] = []
unmount faults dev ((d, name) ∷ ms) =
    let rest = unmount faults dev ms in
    if str_eq d dev && not (faults.still_mounted name) then rest else (d, name) ∷ rest

-- Something is mounted at the directory or below.
unfoldable pub mounted_at : String → List (String × String) → Bool
mounted_at dir [] = false
mounted_at dir ((d, name) ∷ ms) = str_eq d dir || mounted_at dir ms

-- os.RemoveAll, which cannot remove a directory that something is mounted at or below.
unfoldable pub remove_dir : CloseFaults → String → Host → Host
unfolding remove_all mounted_at
remove_dir faults dir h =
    if faults.not_removed dir || mounted_at dir h.mounts
    then h
    else record h { dirs = remove_all dir h.dirs }

-- for _, srv := range s.apis { srv.Stop() }
unfoldable pub stop_apis : List String → List String → List String
unfolding remove_all
stop_apis [] running = running
stop_apis (a ∷ later) running = stop_apis later (remove_all a running)

-- Close: when umount -R fails it goes on, and it forgets the directories that it cannot remove.
unfoldable pub close_dev : CloseFaults → String → Host → Host
unfolding remove_dir unmount
close_dev faults dev h =
    if str_eq dev ""
    then h
    else remove_dir faults dev (record h { mounts = unmount faults dev h.mounts })

unfoldable pub close_tmp : CloseFaults → String → Host → Host
unfolding remove_dir
close_tmp faults tmp h = if str_eq tmp "" then h else remove_dir faults tmp h

unfoldable pub close : CloseFaults → Sandbox → Host → Sandbox × Host
unfolding stop_apis close_dev close_tmp
close faults s h = (
  record s { dev = ""; tmp_path = "" },
  close_tmp faults s.tmp_path
      (close_dev faults s.dev (record h { running = stop_apis s.apis h.running })),
)

abbrev pub Opened : Type 0
Opened = Sandbox × Host × Result OpenError (Unit {0})

-- s.Close(); return err
abbrev pub close_with : OpenError → Sandbox × Host → Opened
close_with e (s, h) = (s, h, err e)

module _ (faults : OpenFaults) where
  -- for _, srv := range s.apis { srv.Start(ctx) }
  unfoldable pub start_apis : Sandbox → List String → Host → Opened
  unfolding close
  start_apis s [] h = (s, h, ok tt)
  start_apis s (a ∷ later) h =
      let rest = start_apis s later (record h { running = h.running ++ a ∷ [] }) in
      if faults.api a then close_with (starting_api a) (close faults.closing s h) else rest

  -- From the second os.MkdirTemp on.
  unfoldable pub make_tmp : String → Sandbox → Host → Opened
  unfolding start_apis close
  make_tmp tmp s h =
      if faults.tmp_dir
      then close_with creating_tmp_dir (close faults.closing s h)
      else start_apis (record s { tmp_path = tmp }) s.apis (record h { dirs = h.dirs ++ tmp ∷ [] })

  -- for _, name := range []string{...} { s.bindDev(name) }
  unfoldable pub bind_devices : String → Sandbox → List String → Host → Opened
  unfolding make_tmp close
  bind_devices tmp s [] h = make_tmp tmp s h
  bind_devices tmp s (name ∷ names) h =
      let rest = bind_devices tmp s names (record h { mounts = h.mounts ++ (s.dev, name) ∷ [] }) in
      if faults.bind name then close_with (binding_device name) (close faults.closing s h) else rest

  -- Open
  unfoldable pub open_sandbox : String → String → Sandbox → Host → Opened
  unfolding bind_devices remove_dir
  open_sandbox dev tmp s h =
      if faults.dev_dir
      then (s, h, err creating_dev_dir)
      else if faults.mount
      then (
        record s { dev = dev },
        remove_dir faults.closing dev (record h { dirs = h.dirs ++ dev ∷ [] }),
        err mounting_dev,
      )
      else bind_devices tmp (record s { dev = dev }) device_names
          (record h { dirs = h.dirs ++ dev ∷ []; mounts = h.mounts ++ (dev, "") ∷ [] })
