-- ===== src/Service/Protocol.antt =====
-- service/protocol.go: the messages between the builder and a service. A nil interface is null; a
-- map and a slice in an interface are obj and arr.
use image_assembler.Base.{String, Option, none, some, List, [], ◌∷◌, Map, lookup, ◌≡◌, refl}
use image_assembler.Base.Result.{Result, ok, err, panic}
use image_assembler.Value.{
  Value, null, text, arr, obj, nil, Fields, end, field, at, as_text, as_obj, text_or_empty,
  fields_of, entries_of,
}
pub mod RoundTrip

pub data ProtocolError : Type 0 where
  missing_type : ProtocolError
  missing_data : ProtocolError
  missing_method_name : ProtocolError
  missing_reply : ProtocolError

pub record RemoteError : Type 0 where
  pub name : String
  pub value : String
  pub backtrace : String

-- if args == nil { args = []interface{}{} }
abbrev pub args_or_empty : Value → Value
args_or_empty null = arr nil
args_or_empty args = args

abbrev pub message : String → Fields → Fields
message kind payload = field "type" (text kind) (field "data" (obj payload) end)

-- EncodeMethod
unfoldable pub encode_method : String → Value → Fields
encode_method name args =
    message "method" (field "name" (text name) (field "args" (args_or_empty args) end))

-- EncodeReply
unfoldable pub encode_reply : Value → Fields
encode_reply reply = message "reply" (field "reply" reply end)

-- EncodeSignal
unfoldable pub encode_signal : Value → Fields
encode_signal sig = message "signal" (field "reply" sig end)

-- EncodeException
unfoldable pub encode_exception : String → String → String → Fields
encode_exception name value backtrace =
    message "exception" (
      field "name" (text name)
        (field "value" (text value) (field "backtrace" (text backtrace) end)))

abbrev pub decode_data : String → Option Fields → Result ProtocolError (String × Fields)
decode_data kind none = err missing_data
decode_data kind (some payload) = ok (kind, payload)

-- DecodeMessage
unfoldable pub decode_message : Fields → Result ProtocolError (String × Fields)
unfolding at
decode_message msg = elim (as_text (at "type" msg)) [
  | none ↦ err missing_type
  | some kind ↦ decode_data kind (as_obj (at "data" msg))
]

abbrev pub or_null : Option Value → Value
or_null none = null
or_null (some v) = v

-- DecodeMethod
unfoldable pub decode_method : Fields → Result ProtocolError (String × Value)
unfolding at
decode_method payload = elim (as_text (at "name" payload)) [
  | none ↦ err missing_method_name
  | some name ↦ ok (name, args_or_empty (or_null (at "args" payload)))
]

-- DecodeReply
unfoldable pub decode_reply : Fields → Result ProtocolError Value
unfolding at
decode_reply payload = elim (at "reply" payload) [
  | none ↦ err missing_reply
  | some reply ↦ ok reply
]

-- DecodeException
unfoldable pub decode_exception : Fields → RemoteError
unfolding at
decode_exception payload = record {
  name = text_or_empty (at "name" payload);
  value = text_or_empty (at "value" payload);
  backtrace = text_or_empty (at "backtrace" payload);
}
