-- ===== src/Protocol.antt =====
-- src/protocol.rs: error kinds, the JSON-RPC envelope and newline-delimited framing.
pub mod Frame
pub mod Kinds
use redis_driver_for_per_wor.Prelude.{
  ℕ, ℤ, negsuc, Bool, List, [], ◌∷◌, ◌++◌, Option, none, some, String, ◌==◌, if◌then◌else◌,
}
use redis_driver_for_per_wor.Json.{Json, Number}

-- Error codes: `negsuc n` is -(n + 1).
abbrev pub err_invalid_request : ℤ
err_invalid_request = negsuc 32599

abbrev pub err_method_not_found : ℤ
err_method_not_found = negsuc 32600

abbrev pub err_invalid_params : ℤ
err_invalid_params = negsuc 32601

abbrev pub err_internal : ℤ
err_internal = negsuc 32602

abbrev pub err_canceled : ℤ
err_canceled = negsuc 32799

pub data ErrorKind : Type 0 where
  validation authentication connection operation unsupported cancelled protocol : ErrorKind
  plugin_crash : ErrorKind

-- `ErrorKind::as_str`, which is also its serialization.
unfoldable pub as_str : ErrorKind → String
as_str ErrorKind.validation = "validation"
as_str ErrorKind.authentication = "authentication"
as_str ErrorKind.connection = "connection"
as_str ErrorKind.operation = "operation"
as_str ErrorKind.unsupported = "unsupported"
as_str ErrorKind.cancelled = "cancelled"
as_str ErrorKind.protocol = "protocol"
as_str ErrorKind.plugin_crash = "plugin_crash"

-- Decoding of a kind: unknown texts are operation errors.
unfoldable pub decode_kind : String → ErrorKind
decode_kind kind =
    if kind == "validation"
    then ErrorKind.validation
    else if kind == "authentication"
    then ErrorKind.authentication
    else if kind == "connection"
    then ErrorKind.connection
    else if kind == "operation"
    then ErrorKind.operation
    else if kind == "unsupported"
    then ErrorKind.unsupported
    else if kind == "cancelled"
    then ErrorKind.cancelled
    else if kind == "protocol"
    then ErrorKind.protocol
    else if kind == "plugin_crash"
    then ErrorKind.plugin_crash
    else ErrorKind.operation

pub record ErrorData : Type 0 where
  pub kind : ErrorKind
  pub plugin : String
  pub method : String
  pub hint : String
  pub suggested_statement : String

-- Terminal violations. An I/O error carries its text.
pub data ServerError : Type 0 where
  io : String → ServerError
  oversized_frame : ServerError
  malformed : String → ServerError

pub record ErrorObject : Type 0 where
  pub code : ℤ
  pub message : String
  pub data_ : Option ErrorData

abbrev pub plain : ℤ → String → ErrorObject
plain code message = record { code = code; message = message; data_ = none }

abbrev pub with_guidance : ℤ → String → ErrorKind → String → String → String → String → ErrorObject
with_guidance code message kind plugin method hint suggested_statement = record {
  code = code;
  message = message;
  data_ = some (record {
    kind = kind;
    plugin = plugin;
    method = method;
    hint = hint;
    suggested_statement = suggested_statement;
  });
}

abbrev pub with_provenance : ℤ → String → ErrorKind → String → String → ErrorObject
with_provenance code message kind plugin method =
    with_guidance code message kind plugin method "" ""

pub record Response : Type 0 where
  pub jsonrpc : String
  pub id : Option Number
  pub result : Option Json
  pub error : Option ErrorObject

-- `Response::result` and `Response::error`; the fields have the plain names.
abbrev pub result_response : Option Number → Json → Response
result_response id value = record { jsonrpc = "2.0"; id = id; result = some value; error = none }

abbrev pub error_response : Option Number → ErrorObject → Response
error_response id e = record { jsonrpc = "2.0"; id = id; result = none; error = some e }

-- One response as a frame: `to_string` is serde_json's serializer, as UTF-8 bytes.
abbrev pub frame_bytes : (Response → List ℕ) → Response → List ℕ
frame_bytes to_string response = to_string response ++ b'\n' ∷ []
