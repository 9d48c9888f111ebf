-- ===== src/Engine/Lane.antt =====
-- `serve_lane` and `l2_normalize`. Arithmetic on f32 is the parameter `Float`.
use julie_semantic_sidecar.Prelude.{
  ℕ, ◌≤◌, Bool, not, ◌≡◌, sym, subst, Option-cases, inl, inr, ltb, if◌then◌else◌, List, [], ◌∷◌,
  map, Option, none, some, length, length-map, length-take, take, arith,
}

pub record Float (F : Type 0) : Type 0 where
  pub zero : F
  pub add : F → F → F
  pub mul : F → F → F
  pub div : F → F → F
  pub sqrt : F → F
  pub is_finite : F → Bool
  -- `norm <= 0.0`
  pub le_zero : F → Bool

module _ {F : Type 0} (float : Float F) where
  -- `iter().map(|v| v * v).sum()`, from the left.
  unfoldable pub sum_squares : F → List F → F
  sum_squares acc [] = acc
  sum_squares acc (v ∷ vs) = sum_squares (float.add acc (float.mul v v)) vs

  unfoldable pub l2_normalize : List F → Option (List F)
  unfolding sum_squares
  l2_normalize vector =
      let norm = float.sqrt (sum_squares float.zero vector) in
      if not (float.is_finite norm)
      then none
      else if float.le_zero norm
      then none
      else some (map (λ v. float.div v norm) vector)

  -- The second half of `serve_lane`, for a normalized vector.
  unfoldable pub slice_lane : ℕ → Option (List F) → Option (List F)
  unfolding l2_normalize
  slice_lane serve_dims none = none
  slice_lane serve_dims (some vector) = l2_normalize (take serve_dims vector)

  unfoldable pub serve_lane : ℕ → List F → Option (List F)
  unfolding slice_lane
  serve_lane serve_dims raw =
      if ltb (length raw) serve_dims then none else slice_lane serve_dims (l2_normalize raw)

  length-l2_normalize : (v w : List F) → l2_normalize v ≡ some w → length w ≡ length v
  unfolding l2_normalize
  length-l2_normalize v w e =
      let norm = float.sqrt (sum_squares float.zero v) in
      ground (arith, length-map (λ x. float.div x norm) v)

  length-slice_lane :
      (n : ℕ) (o : Option (List F)) (v w : List F)
      → o ≡ some v
      → n ≤ length v
      → slice_lane n o ≡ some w
      → length w ≡ n
  unfolding slice_lane
  length-slice_lane n none v w o h e = cc
  length-slice_lane n (some u) v w o h e =
      let same : u ≡ v = ground arith in
      omega (
        arith,
        length-l2_normalize (take n u) w e,
        length-take n u,
        subst (λ t. n ≤ length t) (sym same) h,
      )

  -- A served vector is exactly as wide as the lane that is served.
  pub length-serve_lane : (n : ℕ) (raw w : List F) → serve_lane n raw ≡ some w → length w ≡ n
  unfolding serve_lane
  length-serve_lane n raw w e = elim (Option-cases (l2_normalize raw)) [
    | inl lost ↦ absurd (ground arith)
    | inr (v, found) ↦
        length-slice_lane n (l2_normalize raw) v w found
          (ground (arith, length-l2_normalize raw v found)) (ground arith)
  ]
