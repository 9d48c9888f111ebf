-- ===== src/Protocol/Dispatch/Requests.antt =====
-- The answer to a whole request object.
use text.Mathlib.TextEquality.{eq_iff}
use julie_semantic_sidecar.Prelude.{
  ap, ◌⊎◌, false, ◌≡◌, refl, inl, inr, String, str_eq, Bool-cases, Option-cases, Result-cases, some,
  Result, ok, err, ◌>>◌,
}
use julie_semantic_sidecar.Json.{Value, Fields, Serde, get}
use julie_semantic_sidecar.EngineTrait.{EngineError, EmbedEngine}
use julie_semantic_sidecar.Health.{Limits}
use julie_semantic_sidecar.Protocol.Response.{Outcome, failure, internal_error, reply}
use julie_semantic_sidecar.Protocol.Dispatch.{
  extract_request_id, as_string, as_params, call_method, dispatch, health_response, validate_schema,
  validate_version,
}
use julie_semantic_sidecar.Protocol.Dispatch.Laws.{
  IsHandled, handled, untouched, success-Answers, failure-Answers, embed_query-IsHandled,
  embed_batch-IsHandled, Answers,
}

module _ {F N S : Type 0} (serde : Serde F N) (engine : EmbedEngine F N S) where
  health-Answers :
      (id : String) (r : Result (Value N) EngineError)
      → Answers serde engine id (health_response serde engine id r)
  unfolding internal_error
  health-Answers id (ok facts) = success-Answers serde engine id facts
  health-Answers id (err e) = failure-Answers serde engine id _ _

  -- The outcome of a request: a handled answer, which stops the connection only after `shutdown`.
  pub record IsDispatched (limits : Limits) (id : String) (stops : Type 0) (s : S) (o : Outcome N)
      (s' : S) : Type 0 where
    pub answer : IsHandled serde engine limits id s o.response s'
    pub stop : (o.stop ≡ false) ⊎ stops

  call_method-IsDispatched :
      (method id : String) (params : Fields N) (limits : Limits) (s : S)
      → let r = call_method serde engine method id params limits s in
        IsDispatched limits id (method ≡ "shutdown") s r.0 r.1
  unfolding call_method
  call_method-IsDispatched method id params limits s = elim (Bool-cases (str_eq method "health")) [
    | inl e ↦
        rw (e, call_method)
          (record {
            answer =
                handled serde engine limits id s _ _ (health-Answers id (engine.health_facts s))
                  (untouched refl);
            stop = inl refl;
          })
    | inr e₁ ↦ elim (Bool-cases (str_eq method "embed_query")) [
      | inl e ↦
          rw (e₁, e, call_method)
            (record {
              answer = embed_query-IsHandled serde engine limits id params s;
              stop = inl refl;
            })
      | inr e₂ ↦ elim (Bool-cases (str_eq method "embed_batch")) [
        | inl e ↦
            rw (e₁, e₂, e, call_method)
              (record {
                answer = embed_batch-IsHandled serde engine limits id params s;
                stop = inl refl;
              })
        | inr e₃ ↦ elim (Bool-cases (str_eq method "shutdown")) [
          | inl e ↦
              rw (e₁, e₂, e₃, e, call_method)
                (record {
                  answer =
                      handled serde engine limits id s _ _ (success-Answers serde engine id _)
                        (untouched refl);
                  stop = inr ((eq_iff method "shutdown").0 e);
                })
          | inr e ↦
              rw (e₁, e₂, e₃, e, call_method)
                (record {
                  answer =
                      handled serde engine limits id s _ _ (failure-Answers serde engine id _ _)
                        (untouched refl);
                  stop = inl refl;
                })
        ]
      ]
    ]
  ]

  refusal :
      (limits : Limits) (id code message : String) (stops : Type 0) (s : S)
      → IsDispatched limits id stops s (reply (failure id code message)) s
  refusal limits id code message stops s = record {
    answer =
        handled serde engine limits id s _ _ (failure-Answers serde engine id code message)
          (untouched refl);
    stop = inl refl;
  }

  -- Whatever a request holds besides its id, valid or not, the answer carries that id and either a
  -- result or an error, never both and never neither; the engine is left alone or asked once, for at
  -- most `max_batch_items` texts of a batch; and the connection ends only after `shutdown`.
  pub dispatch-IsDispatched :
      (request : Fields N) (limits : Limits) (s : S) (id : String)
      → extract_request_id request ≡ ok id
      → let r = dispatch serde engine request limits s in
        IsDispatched limits id (as_string (get "method" request) ≡ some "shutdown") s r.0 r.1
  unfolding dispatch
  dispatch-IsDispatched request limits s id h =
      elim (Result-cases (validate_schema serde request >> validate_version serde request)) [
        | inr (m, e) ↦ rw (h, e, dispatch) (refusal limits id _ m _ s)
        | inl (u, e) ↦ elim (Option-cases (as_string (get "method" request))) [
          | inl e' ↦ rw (h, e, e', dispatch) (refusal limits id _ _ _ s)
          | inr (method, e') ↦ elim (Option-cases (as_params (get "params" request))) [
            | inl e'' ↦ rw (h, e, e', e'', dispatch) (refusal limits id _ _ _ s)
            | inr (params, e'') ↦
                let c = call_method-IsDispatched method id params limits s in
                rw (h, e, e', e'', dispatch)
                  (record {
                    answer = c.answer;
                    stop = elim c.stop [ inl stays ↦ inl stays | inr m ↦ inr (ap some m) ];
                  })
          ]
        ]
      ]
