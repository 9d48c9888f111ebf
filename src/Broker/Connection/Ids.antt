-- ===== src/Broker/Connection/Ids.antt =====
-- The id that the broker's own refusals carry, against the id that `dispatch` answers with.
use julie_semantic_sidecar.Prelude.{ℕ, String, ◌≡◌, refl, List, none, some, Result, ok}
use julie_semantic_sidecar.Json.{Value, string, object, Fields, get}
use julie_semantic_sidecar.Protocol.Dispatch.{extract_request_id}
use julie_semantic_sidecar.Broker.Connection.{text_at, request_id}

module _ {N : Type 0} (from_slice : List ℕ → Result (Value N) String) where
  -- For a request with a text under `request_id`, a refusal of the broker carries the id that the
  -- request would be answered under.
  pub request_id-own :
      (line : List ℕ) (request : Fields N) (id : String)
      → from_slice line ≡ ok (object request)
      → get "request_id" request ≡ some (string id)
      → extract_request_id request ≡ ok (request_id from_slice line)
  unfolding extract_request_id request_id text_at
  request_id-own line request id parsed own =
      rw (parsed, own, extract_request_id, request_id, text_at) refl

  -- For a request with a text under `id` alone, which it would be answered under, a refusal of the
  -- broker carries no id.
  pub request_id-alias :
      (line : List ℕ) (request : Fields N) (id : String)
      → from_slice line ≡ ok (object request)
      → get "request_id" request ≡ none
      → get "id" request ≡ some (string id)
      → (extract_request_id request ≡ ok id) × (request_id from_slice line ≡ "")
  unfolding extract_request_id request_id text_at
  request_id-alias line request id parsed missing alias =
      (rw (missing, alias, extract_request_id) refl, rw (parsed, missing, request_id, text_at) refl)
