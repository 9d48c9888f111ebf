-- ===== src/Protocol/Dispatch/Embeds.antt =====
-- What a successful `embed_batch` answer carries.
use julie_semantic_sidecar.Prelude.{
  ℕ, ◌+◌, ◌≤◌, ◌≡◌, inl, inr, String, not, Bool-cases, Option-cases, Result-cases, ◌==◌, ltb, List,
  [], ◌∷◌, map, none, some, ok, length, All, arith,
}
use julie_semantic_sidecar.Json.{Value, number, Fields, Serde, get, json_array, json_object}
use julie_semantic_sidecar.EngineTrait.{document, EmbedOutput, EmbedEngine, IsComplete}
use julie_semantic_sidecar.Health.{Limits}
use julie_semantic_sidecar.Protocol.Response.{success, failure, internal_error}
use julie_semantic_sidecar.Protocol.Dispatch.{
  as_array, all_strings, find_width, vector_value, batch_response, embed_texts, embed_batch,
}

find_width-none :
    {F : Type 0} (dims i : ℕ) (vs : List (List F))
    → find_width dims i vs ≡ none
    → All (λ v. length v ≡ dims) vs
unfolding find_width
find_width-none dims i [] h = tt
find_width-none dims i (v ∷ vs) h = ground (arith, find_width-none dims (i + 1) vs)

module _ {F N S : Type 0} (serde : Serde F N) (engine : EmbedEngine F N S) where
  abbrev pub batch_value : EmbedOutput F → Value N
  batch_value out = json_object (
      ("dims", number (serde.of_usize out.dims))
      ∷ ("vectors", json_array (map (vector_value serde) out.vectors))
      ∷ [])

  -- A result stands for what the engine made of exactly the strings that were sent.
  pub record IsEmbedded (params : Fields N) (limits : Limits) (s : S) (v : Value N) : Type 0 where
    pub sent : List (Value N)
    pub texts : List String
    pub out : EmbedOutput F
    pub an_array : as_array (get "texts" params) ≡ some sent
    pub strings : all_strings sent ≡ some texts
    pub within : length sent ≤ limits.max_batch_items
    pub answered : (engine.embed s texts document).0 ≡ ok out
    pub complete : IsComplete texts out
    pub value : v ≡ batch_value out

  batch_response-IsComplete :
      (id : String) (texts : List String) (out : EmbedOutput F) (v : Value N)
      → (batch_response serde id (length texts) out).result ≡ some v
      → IsComplete texts out × (v ≡ batch_value out)
  unfolding batch_response internal_error success failure
  batch_response-IsComplete id texts out v e =
      elim (Bool-cases (not (length out.vectors == length texts))) [
        | inl h ↦ absurd (ground arith)
        | inr h ↦ elim (Option-cases (find_width out.dims 0 out.vectors)) [
          | inr (p, h') ↦ absurd (ground arith)
          | inl h' ↦ (
            record { count = ground arith; widths = find_width-none out.dims 0 out.vectors h' },
            ground arith,
          )
        ]
      ]

  -- An `embed_batch` answer with a result has one vector for each text that was sent, in an array
  -- within the batch limit and of strings alone, and every vector has the declared width.
  pub embed_batch-IsEmbedded :
      (id : String) (params : Fields N) (limits : Limits) (s : S) (v : Value N)
      → (embed_batch serde engine id params limits s).0.result ≡ some v
      → IsEmbedded params limits s v
  unfolding embed_batch embed_texts failure internal_error
  embed_batch-IsEmbedded id params limits s v e =
      elim (Option-cases (as_array (get "texts" params))) [
        | inl h ↦ absurd (ground arith)
        | inr (sent, h) ↦ elim (Bool-cases (ltb limits.max_batch_items (length sent))) [
          | inl over ↦ absurd (ground arith)
          | inr within ↦ elim (Option-cases (all_strings sent)) [
            | inl h' ↦ absurd (ground arith)
            | inr (texts, h') ↦ elim (Result-cases (engine.embed s texts document).0) [
              | inr (x, a) ↦ absurd (ground arith)
              | inl (out, a) ↦
                  let whole = batch_response-IsComplete id texts out v (ground arith) in
                  record {
                    sent = sent;
                    texts = texts;
                    out = out;
                    an_array = h;
                    strings = h';
                    within = ground arith;
                    answered = a;
                    complete = whole.0;
                    value = whole.1;
                  }
            ]
          ]
        ]
      ]
