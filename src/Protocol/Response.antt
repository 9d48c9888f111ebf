-- ===== src/Protocol/Response.antt =====
-- The response envelope. `N` is the type of a JSON number.
use julie_semantic_sidecar.Prelude.{
  ℕ, String, Bool, false, ◌≡◌, ◌⊎◌, List, [], ◌∷◌, ◌++◌, Option, none, some, Result, ok, ◌>>=◌,
}
use julie_semantic_sidecar.Json.{Value, string, number, Serde, json_object}
use julie_semantic_sidecar.EngineTrait.{EngineError, engine_error, display}

abbrev pub schema : String
schema = "julie.embedding.sidecar"

abbrev pub version : ℕ
version = 1

abbrev pub invalid_request : String
invalid_request = "invalid_request"

abbrev pub invalid_json : String
invalid_json = "invalid_json"

abbrev pub unknown_method : String
unknown_method = "unknown_method"

abbrev pub internal_error_code : String
internal_error_code = "internal_error"

pub record ErrorBody : Type 0 where
  pub code : String
  pub message : String

-- The fields `schema` and `version` are the constants.
pub record Response (N : Type 0) : Type 0 where
  pub request_id : String
  pub result : Option (Value N)
  pub error : Option ErrorBody

pub record Outcome (N : Type 0) : Type 0 where
  pub response : Response N
  pub stop : Bool

pub record ProtocolReply : Type 0 where
  pub line : String
  pub stop_connection : Bool

module _ {N : Type 0} where
  unfoldable pub success : String → Value N → Response N
  success request_id result = record { request_id = request_id; result = some result; error = none }

  unfoldable pub failure : String → String → String → Response N
  failure request_id code message = record {
    request_id = request_id;
    result = none;
    error = some (record { code = code; message = message });
  }

  unfoldable pub internal_error : String → EngineError → Response N
  unfolding failure
  internal_error request_id error = failure request_id internal_error_code (display error)

  -- `Outcome { response, stop: false }`, also as `Outcome::reply`.
  abbrev pub reply : Response N → Outcome N
  reply response = record { response = response; stop = false }

  -- Exactly one of `result` and `error`.
  abbrev pub IsOneSided : Response N → Type 0
  IsOneSided r =
      ((v : Value N) × (r.result ≡ some v) × (r.error ≡ none))
      ⊎ ((e : ErrorBody) × (r.result ≡ none) × (r.error ≡ some e))

module _ {F N : Type 0} (serde : Serde F N) where
  abbrev result_field : Option (Value N) → List (String × Value N)
  result_field none = []
  result_field (some v) = ("result", v) ∷ []

  abbrev error_field : Option ErrorBody → List (String × Value N)
  error_field none = []
  error_field (some e) =
      ("error", json_object (("code", string e.code) ∷ ("message", string e.message) ∷ [])) ∷ []

  -- What the derived `Serialize` writes: an absent `result` or `error` is left out.
  unfoldable pub response_value : Response N → Value N
  response_value r = json_object (
      (("schema", string schema)
        ∷ ("version", number (serde.of_usize version))
        ∷ ("request_id", string r.request_id)
        ∷ [])
      ++ (result_field r.result ++ error_field r.error))

  unfoldable pub serialize_outcome : Outcome N → Result ProtocolReply String
  unfolding response_value
  serialize_outcome outcome = do
    line ← serde.to_string (response_value outcome.response)
    ok (record { line = line; stop_connection = outcome.stop })

  unfoldable pub internal_error_reply : String → String → String → Result ProtocolReply String
  unfolding serialize_outcome internal_error
  internal_error_reply request_id kind message =
      serialize_outcome (reply (internal_error request_id (engine_error kind message)))
