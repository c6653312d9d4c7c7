-- ===== src/Ipc/FdSet.antt =====
-- ipc/fdset.go: the descriptors of a message, each of which is claimed at most once. A negative
-- number stands for a descriptor that was taken.
use image_assembler.Base.{
  ℕ, zero, suc, ◌+◌, ◌<◌, ◌≡◌, refl, Bool, true, false, Option, none, some, List, [], ◌∷◌, ◌++◌,
  length, get_elem?, set, ltb, if◌then◌else◌, arith,
}
use image_assembler.Base.Int.{ℤ, pos, negsuc}
use image_assembler.Base.Result.{Result, ok, err, panic}
pub mod Owned

pub data FdError : Type 0 where
  out_of_range : FdError
  already_stolen : FdError

-- if fd < 0 { ... } return fd, nil
abbrev pub claimed : ℤ → Result FdError ℕ
claimed (pos fd) = ok fd
claimed (negsuc n) = err already_stolen

abbrev pub at_index : Option ℤ → Result FdError ℕ
at_index none = err out_of_range
at_index (some fd) = claimed fd

-- Get
unfoldable pub get : ℤ → List ℤ → Result FdError ℕ
get (negsuc i) fds = err out_of_range
get (pos i) fds = at_index (get_elem? fds i)

-- Len
unfoldable pub open_count : List ℤ → ℕ
open_count [] = 0
open_count (pos fd ∷ fds) = suc (open_count fds)
open_count (negsuc n ∷ fds) = open_count fds

-- f.fds[i] = -1
abbrev pub take_at : ℤ → List ℤ → List ℤ
take_at (pos i) fds = set fds i (negsuc 0)
take_at (negsuc i) fds = fds

abbrev pub stolen : ℤ → List ℤ → Result FdError ℕ → List ℤ × Result FdError ℕ
stolen i fds (ok fd) = (take_at i fds, ok fd)
stolen i fds (err e) = (fds, err e)
stolen i fds panic = (fds, panic)

-- Steal
unfoldable pub steal : ℤ → List ℤ → List ℤ × Result FdError ℕ
unfolding get
steal i fds = stolen i fds (get i fds)

-- Close: the set after it, and the descriptors that were closed, in that order.
unfoldable pub close : List ℤ → List ℤ × List ℕ
close [] = ([], [])
close (pos fd ∷ fds) = let rest = close fds in (negsuc 0 ∷ rest.0, fd ∷ rest.1)
close (negsuc n ∷ fds) = let rest = close fds in (negsuc n ∷ rest.0, rest.1)
