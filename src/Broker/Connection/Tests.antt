-- ===== src/Broker/Connection/Tests.antt =====
-- Requests with an `id` and with a `request_id`.
use julie_semantic_sidecar.Prelude.{ℕ, String, ◌≡◌, refl, List, [], ◌∷◌, Result, ok}
use julie_semantic_sidecar.Json.{Value, string, object, Fields, fields, get}
use julie_semantic_sidecar.Protocol.Dispatch.{extract_request_id}
use julie_semantic_sidecar.Broker.Queue.{batch}
use julie_semantic_sidecar.Broker.Connection.{request_id, request_class}
use julie_semantic_sidecar.Broker.Connection.Ids.{request_id-own, request_id-alias}

abbrev aliased : Fields ℕ
aliased = fields (("id", string "r1") ∷ ("method", string "embed_batch") ∷ [])

abbrev from_slice : List ℕ → Result (Value ℕ) String
from_slice line = ok (object aliased)

batch_class : request_class from_slice [] ≡ batch
unfolding request_class get
batch_class = refl

request_id-alias_example : (extract_request_id aliased ≡ ok "r1") × (request_id from_slice [] ≡ "")
unfolding get
request_id-alias_example = request_id-alias from_slice [] aliased "r1" refl refl refl

abbrev owned : Fields ℕ
owned = fields (("request_id", string "r2") ∷ [])

abbrev from_owned : List ℕ → Result (Value ℕ) String
from_owned line = ok (object owned)

request_id-own_example : extract_request_id owned ≡ ok (request_id from_owned [])
unfolding get
request_id-own_example = request_id-own from_owned [] owned "r2" refl refl
