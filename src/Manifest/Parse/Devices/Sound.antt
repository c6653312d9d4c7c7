-- ===== src/Manifest/Parse/Devices/Sound.antt =====
-- What sortDevices returns: all devices, each once, and no parent behind its child.
use image_assembler.Base.{
  ℕ, zero, suc, ◌+◌, ◌≤◌, String, true, some, List, [], ◌∷◌, ◌++◌, ◌≡◌, refl, ◌==◌, arith, length,
  length-append, Bool-cases, inl, inr,
}
use image_assembler.Base.Result.{Result, ok, err}
use image_assembler.Value.{Fields}
use image_assembler.Manifest.Parse.Defs.{ParseError, device_cycle}
use image_assembler.Manifest.Parse.Devices.{field_keys, ready, pass, sort_loop}

-- Each name is ready when its turn comes: its parent, if it has one, was named before it.
abbrev pub ParentsFirst : Fields → List String → List String → Type 0
ParentsFirst devices done [] = Unit
ParentsFirst devices done (n ∷ ns) =
    (ready devices done n ≡ true) × ParentsFirst devices (done ++ n ∷ []) ns

module _ (devices : Fields) where
  pub pass-length :
      (todo result next : List String)
      → length (pass devices todo result next).0 + length (pass devices todo result next).1
        ≡ length todo + length result + length next
  unfolding pass
  pass-length [] result next = omega arith
  pass-length (n ∷ todo) result next = ground (
    arith,
    pass-length todo (result ++ n ∷ []) next,
    pass-length todo result (next ++ n ∷ []),
    length-append result (n ∷ []),
    length-append next (n ∷ []),
  )

  -- A pass only adds to the result.
  pub length_le-pass :
      (todo result next : List String) → length result ≤ length (pass devices todo result next).0
  unfolding pass
  length_le-pass [] result next = omega arith
  length_le-pass (n ∷ todo) result next = ground (
    arith,
    length_le-pass todo (result ++ n ∷ []) next,
    length_le-pass todo result (next ++ n ∷ []),
    length-append result (n ∷ []),
  )

  -- As many rounds as there are names to place are enough.
  pub sort_loop_total :
      (fuel : ℕ) (todo result : List String)
      → length todo ≤ fuel
      → (r : Result ParseError (List String)) × (sort_loop devices fuel todo result ≡ some r)
  unfolding sort_loop
  sort_loop_total fuel [] result h = (ok result, refl)
  sort_loop_total zero (n ∷ todo) result h = absurd (omega arith)
  sort_loop_total (suc fuel) (n ∷ todo) result h =
      elim (Bool-cases (length (pass devices (n ∷ todo) result []).1 == length (n ∷ todo))) [
        | inl e ↦ (err (device_cycle (pass devices (n ∷ todo) result []).1), ground arith)
        | inr e ↦
            let (r, q) =
              sort_loop_total fuel (pass devices (n ∷ todo) result []).1
                (pass devices (n ∷ todo) result []).0
                (ground
                  (arith, pass-length (n ∷ todo) result [], length_le-pass (n ∷ todo) result [])) in
            (r, rw e q)
      ]

  -- sortDevices always ends.
  pub sort_devices_total :
      (r : Result ParseError (List String)) × (sort_loop devices
          (length (field_keys devices))
          (field_keys devices)
          []
        ≡ some r)
  sort_devices_total =
      sort_loop_total (length (field_keys devices)) (field_keys devices) [] (omega arith)
