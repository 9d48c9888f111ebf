-- ===== src/Protocol/Dispatch.antt =====
-- The handling of one request line: `process_line`, `handle_line`, `dispatch` and the embed methods.
-- Each returns the engine's state with its result, since `embed` may change it.
pub mod Laws
pub mod Requests
pub mod Embeds
use julie_semantic_sidecar.Prelude.{
  ℕ, suc, ◌+◌, String, str_eq, concat, decimal, Bool, true, false, not, ltb, ◌==◌, if◌then◌else◌,
  List, [], ◌∷◌, map, Option, none, some, Result, ok, err, ◌>>=◌, ◌>>◌, length,
}
use julie_semantic_sidecar.Json.{
  Value, null, bool, number, string, array, object, Fields, end, Serde, get, elems, json_array,
  json_object,
}
use julie_semantic_sidecar.EngineTrait.{
  Role, query, document, EmbedOutput, EngineError, engine_error, EmbedEngine,
}
use julie_semantic_sidecar.Health.{Limits}
use julie_semantic_sidecar.Sanitize.{trim, is_empty}
use julie_semantic_sidecar.Protocol.Response.{
  schema, version, invalid_request, invalid_json, unknown_method, Response, Outcome, ProtocolReply,
  success, failure, internal_error, reply, serialize_outcome,
}

module _ {N : Type 0} where
  string_or : String → Value N → Result String String
  string_or message (string id) = ok id
  string_or message v = err message

  -- `request_id`, or else `id`, or else the empty id.
  unfoldable pub extract_request_id : Fields N → Result String String
  unfolding string_or
  extract_request_id request = elim (get "request_id" request) [
    | some v ↦ string_or "request_id must be a string" v
    | none ↦ elim (get "id" request) [ some v ↦ string_or "id must be a string" v | none ↦ ok "" ]
  ]

  -- `Some(Value::String(method))`
  abbrev pub as_string : Option (Value N) → Option String
  as_string (some (string s)) = some s
  as_string v = none

  abbrev pub as_array : Option (Value N) → Option (List (Value N))
  as_array (some (array vs)) = some (elems vs)
  as_array v = none

  -- Absent parameters are an empty object.
  abbrev pub as_params : Option (Value N) → Option (Fields N)
  as_params none = some end
  as_params (some (object params)) = some params
  as_params (some v) = none

  -- The loop that collects `texts`, which ends at the first value that is no string.
  unfoldable pub all_strings : List (Value N) → Option (List String)
  all_strings [] = some []
  all_strings (string s ∷ vs) = elim (all_strings vs) [ none ↦ none | some ss ↦ some (s ∷ ss) ]
  all_strings (v ∷ vs) = none

module _ {F : Type 0} where
  -- The first vector that is not `dims` wide, with its place and its width.
  unfoldable pub find_width : ℕ → ℕ → List (List F) → Option (ℕ × ℕ)
  find_width dims index [] = none
  find_width dims index (v ∷ vs) =
      let rest = find_width dims (index + 1) vs in
      if not (length v == dims) then some (index, length v) else rest

module _ {F N : Type 0} (serde : Serde F N) where
  unfoldable pub validate_schema : Fields N → Result (Unit {0}) String
  validate_schema request = check (get "schema" request)
    where
      mismatch : Value N → Result (Unit {0}) String
      mismatch v =
          err (concat ("schema mismatch: expected '" ∷ schema ∷ "', got " ∷ serde.show v ∷ []))

      check : Option (Value N) → Result (Unit {0}) String
      check none = ok tt
      check (some null) = ok tt
      check (some (string s)) = if str_eq s schema then ok tt else mismatch (string s)
      check (some v) = mismatch v

  unfoldable pub validate_version : Fields N → Result (Unit {0}) String
  validate_version request = check (get "version" request)
    where
      mismatch : Value N → Result (Unit {0}) String
      mismatch v = err (
          concat
            ("unsupported version: expected " ∷ decimal version ∷ ", got " ∷ serde.show v ∷ []))

      check : Option (Value N) → Result (Unit {0}) String
      check none = ok tt
      check (some null) = ok tt
      check (some (number n)) = if serde.as_f64_is version n then ok tt else mismatch (number n)
      check (some v) = mismatch v

  abbrev pub vector_value : List F → Value N
  vector_value v = json_array (map serde.of_f32 v)

  -- The answers that `embed_query` and `embed_batch` make of an engine's output.
  unfoldable pub query_response : String → ℕ → List (List F) → Response N
  query_response request_id dims (vector ∷ []) =
      if not (length vector == dims)
      then internal_error request_id (
          engine_error "EmbeddingDimsError"
            (concat ("expected " ∷ decimal dims ∷ " dims, got " ∷ decimal (length vector) ∷ [])))
      else success request_id (
          json_object
            (("dims", number (serde.of_usize dims)) ∷ ("vector", vector_value vector) ∷ []))
  query_response request_id dims vectors = internal_error request_id (
      engine_error "EmbeddingCountError"
        (concat ("expected 1 vector, got " ∷ decimal (length vectors) ∷ [])))

  unfoldable pub batch_response : String → ℕ → EmbedOutput F → Response N
  batch_response request_id count output =
      if not (length output.vectors == count)
      then internal_error request_id (
          engine_error "EmbeddingCountError" (
            concat (
              "expected "
              ∷ decimal count
              ∷ " vectors, got "
              ∷ decimal (length output.vectors)
              ∷ [])))
      else elim (find_width output.dims 0 output.vectors) [
        | some (index, actual) ↦ internal_error request_id (
            engine_error "EmbeddingDimsError" (
              concat (
                "expected "
                ∷ decimal output.dims
                ∷ " dims at index "
                ∷ decimal index
                ∷ ", got "
                ∷ decimal actual
                ∷ [])))
        | none ↦ success request_id (
            json_object (
              ("dims", number (serde.of_usize output.dims))
              ∷ ("vectors", json_array (map vector_value output.vectors))
              ∷ []))
      ]

  module _ {S : Type 0} (engine : EmbedEngine F N S) where
    unfoldable pub embed_query : String → Fields N → S → Response N × S
    unfolding query_response
    embed_query request_id params s = elim (as_string (get "text" params)) [
      | none ↦ (failure request_id invalid_request "embed_query params.text must be a string", s)
      | some text ↦
          let (answer, s') = engine.embed s (text ∷ []) query in
          elim answer [
            | err e ↦ (internal_error request_id e, s')
            | ok output ↦ (query_response request_id output.dims output.vectors, s')
          ]
    ]

    unfoldable pub embed_texts : String → List String → S → Response N × S
    embed_texts request_id texts s =
        let (answer, s') = engine.embed s texts document in
        elim answer [
          | err e ↦ (internal_error request_id e, s')
          | ok output ↦ (batch_response request_id (length texts) output, s')
        ]

    unfoldable pub embed_batch : String → Fields N → Limits → S → Response N × S
    unfolding batch_response
    embed_batch request_id params limits s = elim (as_array (get "texts" params)) [
      | none ↦ (failure request_id invalid_request "embed_batch params.texts must be an array", s)
      | some raw_texts ↦
          if ltb limits.max_batch_items (length raw_texts)
          then (
            failure request_id invalid_request (
                concat (
                  "embed_batch params.texts exceeds max_batch_items ("
                  ∷ decimal limits.max_batch_items
                  ∷ "): got "
                  ∷ decimal (length raw_texts)
                  ∷ [])),
            s,
          )
          else elim (all_strings raw_texts) [
            | none ↦ (
              failure request_id invalid_request
                  "embed_batch params.texts must contain only strings",
              s,
            )
            | some texts ↦ embed_texts request_id texts s
          ]
    ]

    abbrev health_response : String → Result (Value N) EngineError → Response N
    health_response request_id (ok facts) = success request_id facts
    health_response request_id (err e) = internal_error request_id e

    -- `match method.as_str()`
    unfoldable pub call_method : String → String → Fields N → Limits → S → Outcome N × S
    unfolding embed_query embed_batch embed_texts
    call_method method request_id params limits s =
        if str_eq method "health"
        then (reply (health_response request_id (engine.health_facts s)), s)
        else if str_eq method "embed_query"
        then (let (r, s') = embed_query request_id params s in (reply r, s'))
        else if str_eq method "embed_batch"
        then (let (r, s') = embed_batch request_id params limits s in (reply r, s'))
        else if str_eq method "shutdown"
        then (
          record {
            response = success request_id (json_object (("stopping", bool true) ∷ []));
            stop = true;
          },
          s,
        )
        else (
          reply (failure request_id unknown_method (concat ("unknown method: " ∷ method ∷ []))),
          s,
        )

    unfoldable pub dispatch : Fields N → Limits → S → Outcome N × S
    unfolding call_method extract_request_id validate_schema validate_version
    dispatch request limits s = elim (extract_request_id request) [
      | err message ↦ (reply (failure "" invalid_request message), s)
      | ok request_id ↦ elim (validate_schema request >> validate_version request) [
        | err message ↦ (reply (failure request_id invalid_request message), s)
        | ok _ ↦ elim (as_string (get "method" request)) [
          | none ↦ (reply (failure request_id invalid_request "method must be a string"), s)
          | some method ↦ elim (as_params (get "params" request)) [
            | none ↦ (reply (failure request_id invalid_request "params must be an object"), s)
            | some params ↦ call_method method request_id params limits s
          ]
        ]
      ]
    ]

    module _ (from_utf8 : List ℕ → Result String String) where
      of_value : Value N → Limits → S → Outcome N × S
      unfolding dispatch
      of_value (object request) limits s = dispatch request limits s
      of_value v limits s = (reply (failure "" invalid_request "request must be an object"), s)

      of_text : String → Limits → S → Option (Outcome N × S)
      unfolding of_value
      of_text trimmed limits s = if is_empty trimmed then none else elim (serde.from_str trimmed) [
        | err e ↦ some (reply (failure "" invalid_json (concat ("invalid json: " ∷ e ∷ []))), s)
        | ok request ↦ some (of_value request limits s)
      ]

      -- `none` is a blank line, which gets no answer.
      unfoldable pub handle_line : List ℕ → Limits → S → Option (Outcome N × S)
      unfolding of_text
      handle_line raw limits s = elim (from_utf8 raw) [
        | err e ↦ some (reply (failure "" invalid_json "invalid json: line is not valid UTF-8"), s)
        | ok text ↦ of_text (trim text) limits s
      ]

      unfoldable pub process_line : List ℕ → Limits → S → Result (Option ProtocolReply) String × S
      unfolding handle_line serialize_outcome
      process_line line limits s = elim (handle_line line limits s) [
        | none ↦ (ok none, s)
        | some (outcome, s') ↦ (do r ← serialize_outcome serde outcome; ok (some r), s')
      ]
