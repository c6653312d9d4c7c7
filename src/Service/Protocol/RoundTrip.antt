-- ===== src/Service/Protocol/RoundTrip.antt =====
-- service/protocol.go: what is encoded is decoded.
use image_assembler.Base.{String, ◌≡◌, refl, ap, str_eq}
use image_assembler.Base.Result.{Result, ok, ◌>>=◌}
use image_assembler.Value.{
  Value, null, bool, number, int, int64, float, text, arr, obj, Fields, at, entries_of,
}
use image_assembler.Service.Protocol.{
  encode_method, encode_reply, encode_signal, encode_exception, decode_message, decode_method,
  decode_reply, decode_exception, args_or_empty, ProtocolError,
}

-- A decoded message passed on to the decoder of its kind.
abbrev pub decode_as {ℓ} :
    {A : Type ℓ} → (Fields → Result ProtocolError A) → Fields → Result ProtocolError (String × A)
decode_as decode msg = decode_message msg >>= λ m. decode m.1 >>= λ a. ok (m.0, a)

args_or_empty_again : (v : Value) → args_or_empty (args_or_empty v) ≡ args_or_empty v
args_or_empty_again null = refl
args_or_empty_again (bool b) = refl
args_or_empty_again (number n) = refl
args_or_empty_again (int n) = refl
args_or_empty_again (int64 n) = refl
args_or_empty_again (float n) = refl
args_or_empty_again (text t) = refl
args_or_empty_again (arr vs) = refl
args_or_empty_again (obj fs) = refl

-- Each kind of message that is encoded decodes to what it was made of, under its own kind; a call
-- without arguments (nil) decodes to one with an empty list of them.
pub decode-encode :
    (name value backtrace : String) (v : Value)
    → (decode_as decode_method (encode_method name v) ≡ ok ("method", (name, args_or_empty v)))
      × (decode_as decode_reply (encode_reply v) ≡ ok ("reply", v))
      × (decode_as decode_reply (encode_signal v) ≡ ok ("signal", v))
      × (decode_as (λ d. ok (decode_exception d)) (encode_exception name value backtrace)
          ≡ ok ("exception", record { name = name; value = value; backtrace = backtrace }))
unfolding decode_message encode_method encode_reply encode_signal encode_exception decode_method
    decode_reply decode_exception at entries_of str_eq
decode-encode name value backtrace v =
    (ap (λ a. ok ("method", (name, a))) (args_or_empty_again v), refl, refl, refl)
