-- ===== src/Broker/Connection.antt =====
-- src/broker/mod.rs: what a connection reads off a line before it is processed. serde_json's parser of
-- bytes is the parameter `from_slice`.
pub mod Ids
pub mod Tests
use julie_semantic_sidecar.Prelude.{
  ℕ, String, str_eq, if◌then◌else◌, List, Option, none, some, Result, ok, err,
}
use julie_semantic_sidecar.Json.{Value, string, object, Serde, get}
use julie_semantic_sidecar.Protocol.Response.{ProtocolReply, internal_error_reply}
use julie_semantic_sidecar.Protocol.Dispatch.{as_string}
use julie_semantic_sidecar.Broker.Queue.{RequestClass, interactive, batch}

-- `Value::get` and `Value::as_str`, on what was parsed.
unfoldable pub text_at : {N : Type 0} → String → Result (Value N) String → Option String
text_at key (ok (object request)) = as_string (get key request)
text_at key parsed = none

unfoldable pub class_of : Option String → RequestClass
class_of none = interactive
class_of (some method) = if str_eq method "embed_batch" then batch else interactive

abbrev or_empty : Option String → String
or_empty none = ""
or_empty (some id) = id

module _ {N : Type 0} (from_slice : List ℕ → Result (Value N) String) where
  unfoldable pub request_id : List ℕ → String
  unfolding text_at
  request_id line = or_empty (text_at "request_id" (from_slice line))

  unfoldable pub request_class : List ℕ → RequestClass
  unfolding text_at class_of
  request_class line = class_of (text_at "method" (from_slice line))

  unfoldable pub failure_reply :
      {F : Type 0} → Serde F N → List ℕ → String → String → Result ProtocolReply String
  unfolding request_id
  failure_reply serde line kind message = internal_error_reply serde (request_id line) kind message
