-- ===== src/Engine/Encode/Laws.antt =====
-- What a context is asked for, and what an encode gives back.
use julie_semantic_sidecar.Prelude.{
  ℕ, zero, suc, ◌+◌, ◌*◌, ◌/◌, ◌≤◌, ◌≡◌, refl, ap, subst, inl, inr, not, Bool-cases, Option-cases,
  Result-cases, ◌==◌, List, [], ◌∷◌, ok, length, All, Among, here, there, arith,
}
use julie_semantic_sidecar.Manifest.{Pooling, last, cls}
use julie_semantic_sidecar.Engine.Llama.{Llama}
use julie_semantic_sidecar.Engine.Lane.{Float, serve_lane, length-serve_lane}
use julie_semantic_sidecar.Engine.Group.Laws.{longest}
use julie_semantic_sidecar.Engine.Encode.{
  sum_lengths, ubatch, context_params, read_vectors, encode_in, encode_group, fits_words,
  fill_batch, run_context, shape_of,
}

Among-longest : (t : List ℕ) (group : List (List ℕ)) → Among t group → length t ≤ longest group
Among-longest t [] m = elim m [ ]
Among-longest t (x ∷ group) (here e) = rw (← e) (omega arith)
Among-longest t (x ∷ group) (there m) = omega (arith, Among-longest t group m)

mul_div : (a n : ℕ) → 1 ≤ n → a * n / n ≡ a
mul_div a n h = grind arith

-- llama.cpp splits a context evenly over the sequences that it may hold: each member of the group
-- fits its share, and no micro-batch is wider than the batch.
pub context_params_lem :
    (pooling : Pooling) (group : List (List ℕ)) (t : List ℕ)
    → Among t group
    → let p = context_params pooling group in
      (length t ≤ p.n_ctx / p.n_seq_max) × (p.n_seq_max ≡ length group) × (p.n_ubatch ≤ p.n_batch)
unfolding context_params ubatch
context_params_lem pooling group t m =
    let some_member : 1 ≤ length group = Among-length t group m in
    let share = mul_div (longest group) (length group) some_member in
    (omega (arith, share, Among-longest t group m), refl, ubatch-le pooling (sum_lengths group))
  where
    Among-length : (t : List ℕ) (group : List (List ℕ)) → Among t group → 1 ≤ length group
    Among-length t [] m = elim m [ ]
    Among-length t (x ∷ group) m = omega arith

    ubatch-le : (p : Pooling) (n : ℕ) → ubatch p n ≤ n
    ubatch-le cls n = omega arith
    ubatch-le last n = omega arith

module _ {F Ctx Batch : Type 0} (float : Float F) (llama : Llama F Ctx Batch) (pooling : Pooling)
    (serve_dims : ℕ) where
  -- As many vectors as asked for, each as wide as the served lane.
  abbrev pub AreServed : ℕ → List (List F) → Type 0
  AreServed n vs = (length vs ≡ n) × All (λ v. length v ≡ serve_dims) vs

  read_vectors-AreServed :
      (context : Ctx) (i n : ℕ) (vs : List (List F))
      → read_vectors float llama pooling serve_dims context i n ≡ ok vs
      → AreServed n vs
  unfolding read_vectors
  read_vectors-AreServed context i zero vs e =
      let same : [] ≡ vs = ground arith in subst (AreServed 0) same (refl, tt)
  read_vectors-AreServed context i (suc n) vs e =
      elim (Result-cases (llama.embeddings_seq_ith context i)) [
        | inr (bad, h) ↦ absurd (ground arith)
        | inl (raw, h) ↦ elim (Option-cases (serve_lane float serve_dims raw)) [
          | inl lost ↦ absurd (ground arith)
          | inr (v, lane) ↦
              elim (Result-cases (read_vectors float llama pooling serve_dims context (i + 1) n)) [
                | inr (bad, h') ↦ absurd (ground arith)
                | inl (rest, more) ↦
                    let ih = read_vectors-AreServed context (i + 1) n rest more in
                    let same : v ∷ rest ≡ vs = ground arith in
                    let wide = length-serve_lane float serve_dims raw v lane in
                    subst (AreServed (suc n)) same (ap suc ih.0, (wide, ih.1))
              ]
        ]
      ]

  encode_in-AreServed :
      (group : List (List ℕ)) (vs : List (List F))
      → encode_in float llama pooling serve_dims group ≡ ok vs
      → AreServed (length group) vs
  unfolding encode_in
  encode_in-AreServed group vs e =
      elim (Result-cases (llama.new_context (context_params pooling group))) [
        | inr (bad, h) ↦ absurd (ground arith)
        | inl (context, h) ↦
            elim (Result-cases (
              fill_batch float llama pooling serve_dims
                (llama.new_batch (sum_lengths group) (length group)) 0 group)) [
                  | inr (bad, h') ↦ absurd (ground arith)
                  | inl (batch, h') ↦
                      elim (Result-cases (
                        run_context float llama pooling serve_dims pooling context batch
                          (shape_of pooling group))) [
                            | inr (bad, h'') ↦ absurd (ground arith)
                            | inl (context', h'') ↦
                                read_vectors-AreServed context' 0 (length group) vs (ground arith)
                          ]
                ]
      ]

  -- A group that is encoded gets one vector for each member, each as wide as the served lane.
  pub encode_group-AreServed :
      (group : List (List ℕ)) (vs : List (List F))
      → encode_group float llama pooling serve_dims group ≡ ok vs
      → AreServed (length group) vs
  unfolding encode_group
  encode_group-AreServed group vs e = elim (Bool-cases (not (fits_words group))) [
    | inl big ↦ absurd (ground (arith, big))
    | inr words ↦ elim (Bool-cases (sum_lengths group == 0)) [
      | inl blank ↦ absurd (ground (arith, words, blank))
      | inr full ↦ encode_in-AreServed group vs (rw (words, full, encode_group) at e)
    ]
  ]
