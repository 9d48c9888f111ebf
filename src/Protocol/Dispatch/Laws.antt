-- ===== src/Protocol/Dispatch/Laws.antt =====
-- What holds of every answer to a request object.
use julie_semantic_sidecar.Prelude.{
  ℕ, ◌≡◌, refl, ◌⊎◌, inl, inr, String, not, Bool-cases, Option-cases, Result-cases, ◌==◌, List, [],
  ◌∷◌, some, ltb, ◌≤◌, length, arith,
}
use julie_semantic_sidecar.Json.{Value, Fields, Serde, get}
use julie_semantic_sidecar.EngineTrait.{Role, query, document, EmbedOutput, EmbedEngine}
use julie_semantic_sidecar.Health.{Limits}
use julie_semantic_sidecar.Protocol.Response.{
  Response, success, failure, internal_error, IsOneSided,
}
use julie_semantic_sidecar.Protocol.Dispatch.{
  as_string, as_array, all_strings, find_width, query_response, batch_response, embed_query,
  embed_texts, embed_batch,
}

module _ {F N S : Type 0} (serde : Serde F N) (engine : EmbedEngine F N S) where
  -- An envelope that answers this id, with a result or an error and not both.
  abbrev pub Answers : String → Response N → Type 0
  Answers id r = (r.request_id ≡ id) × IsOneSided r

  pub success-Answers : (id : String) (v : Value N) → Answers id (success id v)
  unfolding success
  success-Answers id v = (refl, inl (v, refl, refl))

  pub failure-Answers : (id code message : String) → Answers id (failure {N = N} id code message)
  unfolding failure
  failure-Answers id code message = (refl, inr (_, refl, refl))

  query_response-Answers :
      (id : String) (dims : ℕ) (vs : List (List F)) → Answers id (query_response serde id dims vs)
  unfolding query_response internal_error
  query_response-Answers id dims [] = failure-Answers id _ _
  query_response-Answers id dims (v ∷ []) = elim (Bool-cases (not (length v == dims))) [
    | inl e ↦ rw (e, query_response) (failure-Answers id _ _)
    | inr e ↦ rw (e, query_response) (success-Answers id _)
  ]
  query_response-Answers id dims (v ∷ w ∷ vs) = failure-Answers id _ _

  batch_response-Answers :
      (id : String) (n : ℕ) (out : EmbedOutput F) → Answers id (batch_response serde id n out)
  unfolding batch_response internal_error
  batch_response-Answers id n out = elim (Bool-cases (not (length out.vectors == n))) [
    | inl e ↦ rw (e, batch_response) (failure-Answers id _ _)
    | inr e ↦ elim (Option-cases (find_width out.dims 0 out.vectors)) [
      | inl h ↦ rw (e, h, batch_response) (success-Answers id _)
      | inr (p, h) ↦ rw (e, h, batch_response) (failure-Answers id _ _)
    ]
  ]

  -- The engine is left alone, or is asked once to embed texts within the batch limit.
  pub data Touches (limits : Limits) (s s' : S) : Type 0 where
    untouched : s' ≡ s → Touches limits s s'
    embeds :
        (texts : List String) (role : Role)
        → (length texts ≡ 1) ⊎ (length texts ≤ limits.max_batch_items)
        → s' ≡ (engine.embed s texts role).1
        → Touches limits s s'

  -- An answer to the request `id`: its envelope, and what it costs the engine.
  pub record IsHandled (limits : Limits) (id : String) (s : S) (r : Response N) (s' : S)
      : Type 0 where
    pub echoes : r.request_id ≡ id
    pub one_sided : IsOneSided r
    pub touches : Touches limits s s'

  pub handled :
      (limits : Limits) (id : String) (s : S) (r : Response N) (s' : S)
      → Answers id r
      → Touches limits s s'
      → IsHandled limits id s r s'
  handled limits id s r s' a t = record { echoes = a.0; one_sided = a.1; touches = t }

  pub embed_query-IsHandled :
      (limits : Limits) (id : String) (params : Fields N) (s : S)
      → IsHandled limits id s
          (embed_query serde engine id params s).0
          (embed_query serde engine id params s).1
  unfolding embed_query internal_error
  embed_query-IsHandled limits id params s = elim (Option-cases (as_string (get "text" params))) [
    | inl e ↦
        rw (e, embed_query) (handled limits id s _ _ (failure-Answers id _ _) (untouched refl))
    | inr (text, e) ↦
        let asked = embeds (text ∷ []) query (inl refl) refl in
        elim (Result-cases (engine.embed s (text ∷ []) query).0) [
          | inl (out, h) ↦
              rw (e, h, embed_query)
                (handled limits id s _ _ (query_response-Answers id out.dims out.vectors) asked)
          | inr (x, h) ↦
              rw (e, h, embed_query) (handled limits id s _ _ (failure-Answers id _ _) asked)
        ]
  ]

  embed_texts-IsHandled :
      (limits : Limits) (id : String) (texts : List String) (s : S)
      → length texts ≤ limits.max_batch_items
      → IsHandled limits id s
          (embed_texts serde engine id texts s).0
          (embed_texts serde engine id texts s).1
  unfolding embed_texts internal_error
  embed_texts-IsHandled limits id texts s few =
      let asked = embeds texts document (inr few) refl in
      elim (Result-cases (engine.embed s texts document).0) [
        | inl (out, h) ↦
            rw (h, embed_texts)
              (handled limits id s _ _ (batch_response-Answers id (length texts) out) asked)
        | inr (x, h) ↦ rw (h, embed_texts) (handled limits id s _ _ (failure-Answers id _ _) asked)
      ]

  length-all_strings :
      (vs : List (Value N)) (ss : List String) → all_strings vs ≡ some ss → length ss ≡ length vs
  unfolding all_strings
  length-all_strings [] ss e = ground arith
  length-all_strings (Value.string t ∷ vs) ss e = elim (Option-cases (all_strings vs)) [
    | inl lost ↦ absurd (ground arith)
    | inr (ts, found) ↦ ground (arith, length-all_strings vs ts found)
  ]
  length-all_strings (v ∷ vs) ss e = cc

  pub embed_batch-IsHandled :
      (limits : Limits) (id : String) (params : Fields N) (s : S)
      → IsHandled limits id s
          (embed_batch serde engine id params limits s).0
          (embed_batch serde engine id params limits s).1
  unfolding embed_batch
  embed_batch-IsHandled limits id params s = elim (Option-cases (as_array (get "texts" params))) [
    | inl e ↦
        rw (e, embed_batch) (handled limits id s _ _ (failure-Answers id _ _) (untouched refl))
    | inr (raw, e) ↦ elim (Bool-cases (ltb limits.max_batch_items (length raw))) [
      | inl over ↦
          rw (e, over, embed_batch)
            (handled limits id s _ _ (failure-Answers id _ _) (untouched refl))
      | inr within ↦ elim (Option-cases (all_strings raw)) [
        | inl h ↦
            rw (e, within, h, embed_batch)
              (handled limits id s _ _ (failure-Answers id _ _) (untouched refl))
        | inr (texts, h) ↦
            rw (e, within, h, embed_batch)
              (embed_texts-IsHandled limits id texts s
                (ground (arith, length-all_strings raw texts h)))
      ]
    ]
  ]
