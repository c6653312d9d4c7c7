-- ===== src/Sandbox/Life/Clean.antt =====
-- sandbox/sandbox.go: an Open that fails, and a Close after one that works, leave nothing behind but
-- what cannot be unmounted or removed.
use image_assembler.Base.{String}
use image_assembler.Base.Result.{ok, err, panic}
use image_assembler.Sandbox.Life.Closed.{IsOwned, IsLeft}
use image_assembler.Sandbox.Life.{Sandbox, Opened, CloseFaults, OpenFaults, close}

-- What Open comes to: the sandbox is open and owns all that is on the host, or all is taken away that
-- can be.
abbrev Kept : CloseFaults → Opened → Type 0
Kept closing (s, h, ok a) = IsOwned s h
Kept closing (s, h, err e) = IsLeft closing h
Kept closing (s, h, panic) = IsLeft closing h

-- What is left of a failed Open, or by a later Close.
abbrev pub IsClean : CloseFaults → CloseFaults → Opened → Type 0
IsClean closing later (s, h, ok a) = IsLeft later (close later s h).1
IsClean closing later (s, h, err e) = IsLeft closing h
IsClean closing later (s, h, panic) = IsLeft closing h

module _ (faults : OpenFaults) where
  abbrev with_tmp : String → Sandbox → Sandbox
  with_tmp tmp s = record s { tmp_path = tmp }
