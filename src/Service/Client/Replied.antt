-- ===== src/Service/Client/Replied.antt =====
-- service/manager.go: a call that is answered.
use image_assembler.Base.{
  ℕ, suc, String, Bool, true, false, Option, List, [], ◌∷◌, ◌++◌, ◌≡◌, refl, ap, str_eq,
}
use image_assembler.Base.Int.{ℤ}
use image_assembler.Value.{Value, at, entries_of}
use image_assembler.Service.Protocol.{encode_signal, encode_reply, decode_message, decode_reply}
use image_assembler.Service.Client.{
  Received, got, Fate, delivered, returned, Call, replied, by_kind, exchange, call_with_fds,
}

-- The messages of some signals, each with its descriptors.
abbrev pub signals : List (Value × Option (List ℤ)) → List Received
signals [] = []
signals ((v, fds) ∷ vs) = got (encode_signal v) fds ∷ signals vs

abbrev pub handed : List (Value × Option (List ℤ)) → List Fate
handed [] = []
handed ((v, fds) ∷ vs) = delivered v fds ∷ handed vs

abbrev answer : List (Value × Option (List ℤ)) → Value → Option (List ℤ) → Call
answer vs v fds = record { fates = handed vs ++ returned fds ∷ []; ending = replied v fds }

-- A signal before the rest of a call.
abbrev after_signal : Value → Option (List ℤ) → Call → Call
after_signal u held c = record c { fates = delivered u held ∷ c.fates }

exchange-answer :
    (is_cancelled : ℕ → Bool) (round : ℕ) (vs : List (Value × Option (List ℤ))) (v : Value)
    (fds : Option (List ℤ)) (later : List Received)
    → ((k : ℕ) → is_cancelled k ≡ false)
    → exchange true is_cancelled round (signals vs ++ got (encode_reply v) fds ∷ later)
      ≡ answer vs v fds
unfolding exchange by_kind decode_message decode_reply encode_signal encode_reply at entries_of
    str_eq
exchange-answer is_cancelled round [] v fds later on = rw (on round) refl
exchange-answer is_cancelled round ((u, held) ∷ vs) v fds later on =
    rw (on round)
      (ap (after_signal u held) (exchange-answer is_cancelled (suc round) vs v fds later on))

-- A service that sends any number of signals and then a reply is answered to: if sending works and
-- the context is never done, then the call returns the value of the reply with its descriptors,
-- after it has passed each signal with its descriptors to the handler, in order, and closes none.
pub call_with_fds-answer :
    (is_cancelled : ℕ → Bool) (method : String) (args : Value) (vs : List (Value × Option (List ℤ)))
    (v : Value) (fds : Option (List ℤ)) (later : List Received)
    → ((k : ℕ) → is_cancelled k ≡ false)
    → (call_with_fds false true is_cancelled method args
        (signals vs ++ got (encode_reply v) fds ∷ later)).1
      ≡ record { fates = handed vs ++ returned fds ∷ []; ending = replied v fds }
unfolding call_with_fds
call_with_fds-answer is_cancelled method args vs v fds later on =
    exchange-answer is_cancelled 0 vs v fds later on
