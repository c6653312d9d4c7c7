-- ===== src/Service/Manager.antt =====
-- service/manager.go: the manager of the service processes. A client is known by the number of its
-- process; what the calls of the operating system come to is an argument of Start. That os.Pipe fails
-- for the standard input, which the source does not look at, is left out.
use mathlib.Core.List.{reverse}
use image_assembler.Base.{
  ℕ, String, Bool, true, false, Option, none, some, List, [], ◌∷◌, ◌++◌, Map, lookup, insert,
  delete, if◌then◌else◌, ◌==◌,
}
use image_assembler.Base.Result.{Result, ok, err, panic}
use image_assembler.Manifest.OrderedMap.{drop_first}
pub mod Running
pub mod Handles

pub record Manager : Type 0 where
  pub services : Map ℕ
  pub order : List String

-- NewManager
abbrev pub new_manager : Manager
new_manager = record { services = []; order = [] }

pub data ManagerError : Type 0 where
  already_started : ManagerError
  creating_pair : ManagerError
  building_environment : ManagerError
  creating_pipe : ManagerError
  starting_service : ManagerError
  unknown_service : ManagerError

-- The ends of the socket pair and of the two pipes.
pub data Handle : Type 0 where
  ours : Handle
  theirs : Handle
  stdin_r : Handle
  stdin_w : Handle
  stdout_r : Handle
  stdout_w : Handle

abbrev handle_number : Handle → ℕ
handle_number ours = 0
handle_number theirs = 1
handle_number stdin_r = 2
handle_number stdin_w = 3
handle_number stdout_r = 4
handle_number stdout_w = 5

-- h.Close(), on the handles that are open.
unfoldable pub close_handle : Handle → List Handle → List Handle
close_handle h [] = []
close_handle h (held ∷ hs) =
    let rest = close_handle h hs in
    if handle_number held == handle_number h then rest else held ∷ rest

-- What the calls of Start come to, and the process that it starts.
pub record Launch : Type 0 where
  pub pair_fails : Bool
  pub environment_fails : Bool
  pub pipe_fails : Bool
  pub start_fails : Bool
  pub process : ℕ

-- From ipc.Pair to proc.Start and the closing of what the child has: the process, and the handles
-- that are open then.
unfoldable pub launch : Launch → Result ManagerError ℕ × List Handle
unfolding close_handle
launch l =
    let pair = ours ∷ theirs ∷ [] in
    let with_stdin = pair ++ (stdin_r ∷ stdin_w ∷ []) in
    let with_stdout = with_stdin ++ (stdout_r ∷ stdout_w ∷ []) in
    if l.pair_fails
    then (err creating_pair, [])
    else if l.environment_fails
    then (err building_environment, close_handle theirs (close_handle ours pair))
    else if l.pipe_fails
    then (err creating_pipe, close_handle theirs (close_handle ours with_stdin))
    else if l.start_fails
    then (
      err starting_service,
      close_handle stdout_w
          (close_handle stdout_r (close_handle theirs (close_handle ours with_stdout))),
    )
    else (
      ok l.process,
      close_handle stdin_r
          (close_handle stdin_w (close_handle stdout_w (close_handle theirs with_stdout))),
    )

-- m.services[uid] = client; m.order = append(m.order, uid)
unfoldable pub add_client :
    String → Manager → Result ManagerError ℕ → Manager × Result ManagerError ℕ
add_client uid m (ok c) =
    (record { services = insert uid c m.services; order = m.order ++ uid ∷ [] }, ok c)
add_client uid m (err e) = (m, err e)
add_client uid m panic = (m, panic)

-- Start, with nothing between its two critical sections.
unfoldable pub start : String → Launch → Manager → Manager × Result ManagerError ℕ
unfolding add_client launch
start uid l m = elim (lookup uid m.services) [
  | some c ↦ (m, err already_started)
  | none ↦ add_client uid m (launch l).0
]

-- Stop: the manager after it, and the client that was stopped.
unfoldable pub stop : String → Manager → Manager × Result ManagerError ℕ
unfolding drop_first
stop uid m = elim (lookup uid m.services) [
  | none ↦ (m, err unknown_service)
  | some c ↦ (record { services = delete uid m.services; order = drop_first uid m.order }, ok c)
]

-- The loop of Close over the names, from the last on: the clients that are stopped.
unfoldable pub stop_each : Map ℕ → List String → List ℕ
stop_each services [] = []
stop_each services (uid ∷ uids) = elim (lookup uid services) [
  | none ↦ stop_each services uids
  | some c ↦ c ∷ stop_each services uids
]

-- Close: the manager after it, and the clients that it stopped, in that order.
unfoldable pub close : Manager → Manager × List ℕ
unfolding stop_each
close m = (new_manager, stop_each m.services (reverse m.order))
