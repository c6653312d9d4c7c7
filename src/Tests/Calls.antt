-- ===== src/Tests/Calls.antt =====
-- Calls of services, and their manager, at concrete inputs.
use mathlib.Core.List.{reverse}
use image_assembler.Base.{
  Map, delete, ℕ, Option, String, Bool, true, false, some, none, List, [], ◌∷◌, ◌++◌, ◌≡◌, refl,
  lookup, str_eq, insert,
}
use image_assembler.Base.Int.{ℤ, pos}
use image_assembler.Manifest.OrderedMap.{drop_first}
use image_assembler.Value.{Fields, null, text, end}
use image_assembler.Service.Protocol.{encode_reply, encode_signal}
use image_assembler.Service.Client.{Received, got, broken, returned, replied, call_with_fds}
use image_assembler.Service.Client.Replied.{signals, handed, call_with_fds-answer}
use image_assembler.Service.Manager.{
  starting_service, Manager, Launch, new_manager, start, stop, close,
}
use image_assembler.Service.Manager.Handles.{LeftOpen, launch-open}
use image_assembler.Service.Manager.Running.{
  fresh, started, stopped, start_failed, Represents, clients, close-reverses,
}

abbrev never : ℕ → Bool
never k = false

-- A signal with a descriptor, a message that is none, and more.
abbrev inbox : List Received
inbox =
    got (encode_signal (text "half")) (some (pos 5 ∷ []))
    ∷ got end (some (pos 6 ∷ []))
    ∷ broken
    ∷ []

-- Two messages are received, and the second ends the call.
abbrev two_received : List (Fields × Option (List ℤ))
two_received = (encode_signal (text "half"), some (pos 5 ∷ [])) ∷ (end, some (pos 6 ∷ [])) ∷ []

call_with_fds-answer_example :
    (call_with_fds false true never "open" null (
      signals ((text "half", some (pos 5 ∷ [])) ∷ [])
      ++ got (encode_reply (text "done")) none ∷ [])).1
    ≡ record {
      fates = handed ((text "half", some (pos 5 ∷ [])) ∷ []) ++ returned none ∷ [];
      ending = replied (text "done") none;
    }
call_with_fds-answer_example =
    call_with_fds-answer never "open" null ((text "half", some (pos 5 ∷ [])) ∷ []) (text "done")
      none [] (λ k. refl)

abbrev launching : ℕ → Launch
launching process = record {
  pair_fails = false;
  environment_fails = false;
  pipe_fails = false;
  start_fails = false;
  process = process;
}

launch-open_example : LeftOpen (record (launching 7) { start_fails = true })
launch-open_example = launch-open (record (launching 7) { start_fails = true })

abbrev managing : Map ℕ → List String → Manager
managing services order = record { services = services; order = order }

-- Two services are started, a third that is stopped, and one whose process does not start.
close-reverses_example :
    let m = managing (("a", 1) ∷ ("c", 3) ∷ []) ("a" ∷ "c" ∷ []) in
    Represents m (("a", 1) ∷ ("c", 3) ∷ [])
    × (close m ≡ (new_manager, reverse (clients (("a", 1) ∷ ("c", 3) ∷ []))))
unfolding start stop lookup insert str_eq delete drop_first
close-reverses_example =
    close-reverses (managing (("a", 1) ∷ ("c", 3) ∷ []) ("a" ∷ "c" ∷ [])) (("a", 1) ∷ ("c", 3) ∷ [])
      (start_failed (managing (("a", 1) ∷ ("c", 3) ∷ []) ("a" ∷ "c" ∷ []))
        (managing (("a", 1) ∷ ("c", 3) ∷ []) ("a" ∷ "c" ∷ [])) (("a", 1) ∷ ("c", 3) ∷ []) "d"
        (record (launching 4) { start_fails = true }) starting_service
        (stopped (managing (("a", 1) ∷ ("b", 2) ∷ ("c", 3) ∷ []) ("a" ∷ "b" ∷ "c" ∷ []))
          (managing (("a", 1) ∷ ("c", 3) ∷ []) ("a" ∷ "c" ∷ []))
          (("a", 1) ∷ ("b", 2) ∷ ("c", 3) ∷ []) "b" 2
          (started (managing (("a", 1) ∷ ("b", 2) ∷ []) ("a" ∷ "b" ∷ []))
            (managing (("a", 1) ∷ ("b", 2) ∷ ("c", 3) ∷ []) ("a" ∷ "b" ∷ "c" ∷ []))
            (("a", 1) ∷ ("b", 2) ∷ []) "c" (launching 3) 3
            (started (managing (("a", 1) ∷ []) ("a" ∷ []))
              (managing (("a", 1) ∷ ("b", 2) ∷ []) ("a" ∷ "b" ∷ [])) (("a", 1) ∷ []) "b"
              (launching 2) 2
              (started new_manager (managing (("a", 1) ∷ []) ("a" ∷ [])) [] "a" (launching 1) 1
                fresh refl)
              refl)
            refl)
          refl)
        refl)
