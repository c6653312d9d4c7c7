-- ===== src/Service/Client/Owned.antt =====
-- service/manager.go: CallWithFDs leaks no descriptor.
use image_assembler.Base.{
  ℕ, suc, String, Bool, true, false, Option, List, [], ◌∷◌, ◌++◌, map, ◌≡◌, if◌then◌else◌, str_eq,
  All,
}
use image_assembler.Base.Int.{ℤ}
use image_assembler.Base.Result.{Result, ok, err, panic}
use image_assembler.Value.{Value, Fields}
use image_assembler.Service.Protocol.{ProtocolError, decode_message}
use image_assembler.Service.Client.{
  Ending, replied, Received, broken, nothing, got, Fate, closed, delivered, returned, Call,
  close_received,
}

-- The open descriptors that a fate is about.
abbrev pub descriptors : Fate → List ℕ
descriptors (closed fds) = fds
descriptors (delivered v fds) = close_received fds
descriptors (returned fds) = close_received fds

abbrev pub message_of : Fields × Option (List ℤ) → Received
message_of (msg, fds) = got msg fds

abbrev pub sent_with : Fields × Option (List ℤ) → List ℕ
sent_with (msg, fds) = close_received fds

abbrev goes_on : Result ProtocolError (String × Fields) → Bool
goes_on (ok (kind, payload)) = str_eq kind "signal"
goes_on (err e) = false
goes_on panic = false

-- The messages that Recv returns during a call: one in each round that begins before the context is
-- done, up to an error, the end of the connection, or the first message that is no signal.
unfoldable pub received : (ℕ → Bool) → ℕ → List Received → List (Fields × Option (List ℤ))
unfolding decode_message
received is_cancelled round [] = []
received is_cancelled round (broken ∷ inbox) = []
received is_cancelled round (nothing ∷ inbox) = []
received is_cancelled round (got msg fds ∷ inbox) =
    let later = received is_cancelled (suc round) inbox in
    if is_cancelled round
    then []
    else (msg, fds) ∷ (if goes_on (decode_message msg) then later else [])

-- None, if the call cannot be sent.
abbrev pub received_by : Bool → (ℕ → Bool) → List Received → List (Fields × Option (List ℤ))
received_by send_fails is_cancelled inbox = if send_fails then [] else received is_cancelled 0 inbox

-- Who may have the descriptors: a handler, if there is one, or a caller who gets a reply.
abbrev pub HasTaker : Bool → Ending → Fate → Type 0
HasTaker handles ending (closed fds) = Unit
HasTaker handles ending (delivered v fds) = handles ≡ true
HasTaker handles ending (returned fds) = (v : Value) × (ending ≡ replied v fds)

-- The messages were taken from the front of the inbox, each has its fate, and what is not closed has
-- a taker.
abbrev pub Settled : Bool → List (Fields × Option (List ℤ)) → List Received → Call → Type 0
Settled handles taken inbox c =
    ((left : List Received) × (inbox ≡ map message_of taken ++ left))
    × (map descriptors c.fates ≡ map sent_with taken)
    × All (HasTaker handles c.ending) c.fates
