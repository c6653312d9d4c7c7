-- ===== src/Service/Client.antt =====
-- service/manager.go: CallWithFDs, the exchange of one call with a service. What the socket receives
-- is an argument, in the order of the calls of Recv; when it runs out, the call waits.
use image_assembler.Base.{
  ℕ, suc, String, Bool, true, false, Option, none, some, List, [], ◌∷◌, if◌then◌else◌, str_eq,
}
use image_assembler.Base.Int.{ℤ}
use image_assembler.Base.Result.{Result, ok, err, panic}
use image_assembler.Value.{Value, null, Fields}
use image_assembler.Ipc.FdSet
use image_assembler.Service.Protocol.{
  ProtocolError, RemoteError, decode_message, decode_reply, decode_exception, encode_method,
}
pub mod Owned
pub mod Replied

pub data CallError : Type 0 where
  sending : CallError
  cancelled : CallError
  receiving : CallError
  connection_closed : CallError
  bad_message : ProtocolError → CallError
  remote : RemoteError → CallError
  unknown_kind : String → CallError
  decoder_panic : CallError

-- What Recv returns: an error, nil at the end of the connection, or a message with its descriptors.
pub data Received : Type 0 where
  broken : Received
  nothing : Received
  got : Fields → Option (List ℤ) → Received

-- What becomes of the descriptors of a message: they are closed, or go with a signal to the handler,
-- or to the caller with the reply.
pub data Fate : Type 0 where
  closed : List ℕ → Fate
  delivered : Value → Option (List ℤ) → Fate
  returned : Option (List ℤ) → Fate

pub data Ending : Type 0 where
  replied : Value → Option (List ℤ) → Ending
  failed : CallError → Ending
  waiting : Ending

pub record Call : Type 0 where
  pub fates : List Fate
  pub ending : Ending

-- if retFDs != nil { retFDs.Close() }
unfoldable pub close_received : Option (List ℤ) → List ℕ
unfolding FdSet.close
close_received none = []
close_received (some fds) = (FdSet.close fds).1

abbrev pub ends : Ending → Call
ends e = record { fates = []; ending = e }

-- The descriptors are closed, and the call returns an error.
abbrev pub refused : Option (List ℤ) → CallError → Call
refused fds e = record { fates = closed (close_received fds) ∷ []; ending = failed e }

abbrev pub or_nil_reply : Result ProtocolError Value → Value
or_nil_reply (ok v) = v
or_nil_reply (err e) = null
or_nil_reply panic = null

-- onSignal(reply, retFDs), if there is a handler.
abbrev pub signal_fate : Bool → Fields → Option (List ℤ) → Fate
signal_fate true payload fds = delivered (or_nil_reply (decode_reply payload)) fds
signal_fate false payload fds = closed (close_received fds)

abbrev pub reply_call : Option (List ℤ) → Result ProtocolError Value → Call
reply_call fds (ok v) = record { fates = returned fds ∷ []; ending = replied v fds }
reply_call fds (err e) = refused fds (bad_message e)
reply_call fds panic = refused fds decoder_panic

-- switch kind, with what the rest of the loop comes to.
unfoldable pub by_kind : Bool → String → Fields → Option (List ℤ) → Call → Call
unfolding close_received decode_reply decode_exception
by_kind handles kind payload fds rest =
    if str_eq kind "signal"
    then record rest { fates = signal_fate handles payload fds ∷ rest.fates }
    else if str_eq kind "reply"
    then reply_call fds (decode_reply payload)
    else if str_eq kind "exception"
    then refused fds (remote (decode_exception payload))
    else refused fds (unknown_kind kind)

abbrev pub on_message :
    Bool → Option (List ℤ) → Call → Result ProtocolError (String × Fields) → Call
on_message handles fds rest (ok (kind, payload)) = by_kind handles kind payload fds rest
on_message handles fds rest (err e) = refused fds (bad_message e)
on_message handles fds rest panic = refused fds decoder_panic

-- The loop. `is_cancelled` says whether the context is done when a round begins.
unfoldable pub exchange : Bool → (ℕ → Bool) → ℕ → List Received → Call
unfolding decode_message by_kind
exchange handles is_cancelled round [] =
    if is_cancelled round then ends (failed cancelled) else ends waiting
exchange handles is_cancelled round (broken ∷ inbox) =
    if is_cancelled round then ends (failed cancelled) else ends (failed receiving)
exchange handles is_cancelled round (nothing ∷ inbox) =
    if is_cancelled round then ends (failed cancelled) else ends (failed connection_closed)
exchange handles is_cancelled round (got msg fds ∷ inbox) =
    let rest = exchange handles is_cancelled (suc round) inbox in
    if is_cancelled round
    then ends (failed cancelled)
    else on_message handles fds rest (decode_message msg)

-- CallWithFDs: the message that is sent, and the exchange. `handles` says whether there is a handler
-- of signals.
unfoldable pub call_with_fds :
    Bool → Bool → (ℕ → Bool) → String → Value → List Received → Fields × Call
unfolding exchange encode_method
call_with_fds send_fails handles is_cancelled method args inbox = (
  encode_method method args,
  if send_fails then ends (failed sending) else exchange handles is_cancelled 0 inbox,
)
