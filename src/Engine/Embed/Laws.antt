-- ===== src/Engine/Embed/Laws.antt =====
-- What `embed` answers.
use julie_semantic_sidecar.Prelude.{
  ℕ, ◌≡◌, refl, ap, ◌∙◌, inl, inr, String, not, Result-cases, ◌==◌, List, [], ◌∷◌, ◌++◌, find,
  Option, none, some, Result, ok, err, length, length-append, flatten, All, All-append, arith,
}
use julie_semantic_sidecar.EngineTrait.{Role, EmbedOutput, EngineError, IsComplete}
use julie_semantic_sidecar.Manifest.{ModelPin}
use julie_semantic_sidecar.Engine.Llama.{Llama}
use julie_semantic_sidecar.Engine.Group.{group_by_cell_budget}
use julie_semantic_sidecar.Engine.Group.Laws.{flatten-group_by_cell_budget}
use julie_semantic_sidecar.Engine.Isolate.{systemic}
use julie_semantic_sidecar.Engine.Isolate.Total.{answered, failed, isolate-Outcome}
use julie_semantic_sidecar.Engine.Lane.{Float}
use julie_semantic_sidecar.Engine.Encode.{encode_group}
use julie_semantic_sidecar.Engine.Encode.Laws.{encode_group-AreServed}
use julie_semantic_sidecar.Engine.Embed.{
  LlamaEngine, build_inputs, build_input, encode_groups, checked, group_limits, embed_groups, embed,
}

module _ {F Ctx Batch : Type 0} (float : Float F) (llama : Llama F Ctx Batch)
    (from_utf8 : List ℕ → Result String String) where
  -- Why a request can fail: a text that cannot be tokenized, or a group on which the backend fails.
  pub data Cause (engine : LlamaEngine) (texts : List String) (role : Role) (e : EngineError)
      : Type 0 where
    tokenizing :
        build_inputs float llama from_utf8 engine texts role ≡ err e → Cause engine texts role e
    backend :
        (group : List (List ℕ))
        → encode_group float llama engine.pin.pooling engine.pin.serve_dims group ≡ err (systemic e)
        → Cause engine texts role e

  pub data Answer (engine : LlamaEngine) (texts : List String) (role : Role)
      (r : Option (Result (EmbedOutput F) EngineError)) : Type 0 where
    complete :
        (out : EmbedOutput F)
        → r ≡ some (ok out)
        → IsComplete texts out
        → out.dims ≡ engine.pin.serve_dims
        → Answer engine texts role r
    refused :
        (e : EngineError)
        → r ≡ some (err e)
        → Cause engine texts role e
        → Answer engine texts role r

  data Gathered (pin : ModelPin) (n : ℕ) (r : Option (Result (List (List F)) EngineError))
      : Type 0 where
    vectors :
        (vs : List (List F))
        → r ≡ some (ok vs)
        → length vs ≡ n
        → All (λ v. length v ≡ pin.serve_dims) vs
        → Gathered pin n r
    fault :
        (e : EngineError) (group : List (List ℕ))
        → r ≡ some (err e)
        → encode_group float llama pin.pooling pin.serve_dims group ≡ err (systemic e)
        → Gathered pin n r

  encode_groups-Gathered :
      (pin : ModelPin) (groups : List (List (List ℕ)))
      → Gathered pin (length (flatten groups)) (encode_groups float llama from_utf8 pin groups)
  unfolding encode_groups
  encode_groups-Gathered pin [] = vectors [] refl refl tt
  encode_groups-Gathered pin (group ∷ groups) =
      elim (isolate-Outcome float.zero pin.serve_dims
        (encode_group float llama pin.pooling pin.serve_dims)
        (λ xs vs e. (encode_group-AreServed float llama pin.pooling pin.serve_dims xs vs e).1)
        group) [
          | failed x before slice after e part h ↦ fault x slice (rw (e, encode_groups)) h
          | answered vs e l w ↦ elim (encode_groups-Gathered pin groups) [
            | fault x slice e' h ↦ fault x slice (rw (e, e', encode_groups)) h
            | vectors ws e' l' w' ↦
                vectors (vs ++ ws) (rw (e, e', encode_groups))
                  (omega (arith, length-append vs ws, length-append group (flatten groups), l, l'))
                  (All-append (λ v. length v ≡ pin.serve_dims) vs ws w w')
          ]
        ]

  find-none :
      (n : ℕ) (vs : List (List F))
      → All (λ v. length v ≡ n) vs
      → find (λ v. not (length v == n)) vs ≡ none
  find-none n [] h = refl
  find-none n (v ∷ vs) h = ground (arith, find-none n vs h.1)

  checked_lem :
      (dims count : ℕ) (vs : List (List F))
      → length vs ≡ count
      → All (λ v. length v ≡ dims) vs
      → checked float llama from_utf8 dims count vs ≡ ok (record { dims = dims; vectors = vs })
  unfolding checked
  checked_lem dims count vs l w = ground (arith, find-none dims vs w)

  length-build_inputs :
      (engine : LlamaEngine) (texts : List String) (role : Role) (inputs : List (List ℕ))
      → build_inputs float llama from_utf8 engine texts role ≡ ok inputs
      → length inputs ≡ length texts
  unfolding build_inputs
  length-build_inputs engine [] role inputs e = ground arith
  length-build_inputs engine (text ∷ texts) role inputs e =
      elim (Result-cases (build_input float llama from_utf8 engine text role)) [
        | inr (x, h) ↦ absurd (ground arith)
        | inl (tokens, h) ↦
            elim (Result-cases (build_inputs float llama from_utf8 engine texts role)) [
              | inr (x, h') ↦ absurd (ground arith)
              | inl (rest, h') ↦ ground (arith, length-build_inputs engine texts role rest h')
            ]
      ]

  -- A request is answered in full or refused for a reason: the answer has one vector for each text, all
  -- of the served width; a refusal carries the error of the tokenizer or of a backend that failed on a
  -- group as a whole. The bisection always ends, and the final checks of count and width never fail.
  pub embed-Answer :
      (engine : LlamaEngine) (texts : List String) (role : Role)
      → Answer engine texts role (embed float llama from_utf8 engine texts role)
  unfolding embed embed_groups
  embed-Answer engine [] role =
      complete (record { dims = engine.pin.serve_dims; vectors = [] }) refl
        (record { count = refl; widths = tt }) refl
  embed-Answer engine (text ∷ more) role =
      let texts = text ∷ more in
      elim (Result-cases (build_inputs float llama from_utf8 engine texts role)) [
        | inr (x, h) ↦ refused x (rw (h, embed)) (tokenizing h)
        | inl (inputs, h) ↦
            let limits = group_limits engine.pin.pooling in
            let groups = group_by_cell_budget inputs limits.0 limits.1 in
            elim (encode_groups-Gathered engine.pin groups) [
              | fault x group e bad ↦ refused x (rw (h, e, embed, embed_groups)) (backend group bad)
              | vectors vs e l w ↦
                  let count : length vs ≡ length texts =
                    l
                    ∙ ap length (flatten-group_by_cell_budget inputs limits.0 limits.1)
                    ∙ length-build_inputs engine texts role inputs h in
                  complete (record { dims = engine.pin.serve_dims; vectors = vs })
                    (rw (h, e, embed, embed_groups)
                      (ap some (checked_lem engine.pin.serve_dims (length texts) vs count w)))
                    (record { count = count; widths = w }) refl
            ]
      ]
