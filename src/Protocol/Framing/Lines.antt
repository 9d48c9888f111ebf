-- ===== src/Protocol/Framing/Lines.antt =====
-- `read_line_capped` against its specification: split the bytes of the input at line feeds, however
-- the reader slices them.
use mathlib.Core.List.{append_assoc, append-nil}
use julie_semantic_sidecar.Prelude.{
  ℕ, suc, ◌+◌, ◌≡◌, refl, ap, ◌∙◌, subst, inl, inr, true, false, ltb, ◌==◌, if◌then◌else◌,
  Bool-cases, Option-cases, List, [], ◌∷◌, ◌++◌, Option, none, some, ok, is_empty, length,
  length-append, take, drop, arith,
}
use julie_semantic_sidecar.Protocol.Framing.{
  Read, chunk, interrupted, broken, LineRead, line, oversized, eof, LineResult, position, consume,
  at_end, absorb, read_from, read_line_capped,
}

-- The first line of some bytes, and what follows its line feed, if it has one.
abbrev pub split_line : List ℕ → List ℕ × Option (List ℕ)
split_line [] = ([], none)
split_line (b ∷ bs) = elim (b == b'\n') [
  | true ↦ ([], some bs)
  | false ↦ (b ∷ (split_line bs).0, (split_line bs).1)
]

-- All bytes that a reader gives.
abbrev pub stream : List Read → List ℕ
stream [] = []
stream (interrupted ∷ source) = stream source
stream (broken e ∷ source) = stream source
stream (chunk bs ∷ source) = bs ++ stream source

-- A reader that does not fail, and gives an empty slice only at its end.
abbrev pub IsClean : List Read → Type 0
IsClean [] = Unit
IsClean (interrupted ∷ source) = IsClean source
IsClean (broken e ∷ source) = ⊥
IsClean (chunk [] ∷ source) = ⊥
IsClean (chunk (b ∷ bs) ∷ source) = IsClean source

abbrev pub following : Option (List ℕ) → List ℕ
following none = []
following (some bs) = bs

-- What a line is reported as, and what of it is buffered.
abbrev pub verdict : ℕ → List ℕ → Option (List ℕ) → LineRead
verdict max_bytes l (some rest) = if ltb max_bytes (length l) then oversized else line
verdict max_bytes [] none = eof
verdict max_bytes (b ∷ bs) none = if ltb max_bytes (length (b ∷ bs)) then oversized else line

abbrev pub kept : ℕ → List ℕ → List ℕ
kept max_bytes l = if ltb max_bytes (length l) then [] else l

split_line-none :
    (bs ys : List ℕ)
    → position bs ≡ none
    → split_line (bs ++ ys) ≡ (bs ++ (split_line ys).0, (split_line ys).1)
unfolding position
split_line-none [] ys e = refl
split_line-none (b ∷ bs) ys e = ground (arith, split_line-none bs ys)

split_line-some :
    (bs ys : List ℕ) (i : ℕ)
    → position bs ≡ some i
    → split_line (bs ++ ys) ≡ (take i bs, some (drop (suc i) bs ++ ys))
unfolding position
split_line-some [] ys i e = cc
split_line-some (b ∷ bs) ys i e = elim (Bool-cases (b == b'\n')) [
  | inl here ↦ let first : 0 ≡ i = ground arith in rw (← first) (ground arith)
  | inr later ↦ elim (Option-cases (position bs)) [
    | inl missing ↦ absurd (ground arith)
    | inr (j, found) ↦
        let next : suc j ≡ i = ground arith in
        rw (← next) (ground (arith, split_line-some bs ys j found))
  ]
]

absorb_lem :
    (m : ℕ) (p content : List ℕ)
    → absorb m (ltb m (length p)) (kept m p) content
      ≡ (ltb m (length (p ++ content)), kept m (p ++ content))
unfolding absorb
absorb_lem m p content = elim (Bool-cases (ltb m (length p))) [
  | inl over ↦
      let still : ltb m (length (p ++ content)) ≡ true = ground (arith, length-append p content) in
      rw (over, still)
  | inr under ↦ ground (arith, length-append p content)
]

-- What is left of a reader after `consume` within its first slice.
stream-consume :
    (n : ℕ) (bs : List ℕ) (rest : List Read) → stream (consume n bs rest) ≡ drop n bs ++ stream rest
unfolding consume
stream-consume n bs rest = go (drop n bs)
  where
    go : (l : List ℕ) → stream (if is_empty l then rest else chunk l ∷ rest) ≡ l ++ stream rest
    go [] = refl
    go (b ∷ l) = refl

consume-IsClean :
    (n : ℕ) (bs : List ℕ) (rest : List Read) → IsClean rest → IsClean (consume n bs rest)
unfolding consume
consume-IsClean n bs rest c = go (drop n bs)
  where
    go : (l : List ℕ) → IsClean (if is_empty l then rest else chunk l ∷ rest)
    go [] = c
    go (b ∷ l) = c

-- A result of the reader that agrees with the line `l` and what follows it.
pub record IsFramed (m : ℕ) (l : List ℕ) (rest : Option (List ℕ)) (r : LineResult) : Type 0 where
  pub outcome : r.outcome ≡ ok (verdict m l rest)
  pub buffer : r.buffer ≡ kept m l
  pub left : stream r.source ≡ following rest
  pub clean : IsClean r.source

at_end_lem : (m : ℕ) (p : List ℕ) → at_end (ltb m (length p)) (kept m p) ≡ verdict m p none
unfolding at_end
at_end_lem m [] = ground arith
at_end_lem m (b ∷ p) = ground arith

read_from-IsFramed :
    (m : ℕ) (p : List ℕ) (source : List Read)
    → IsClean source
    → IsFramed m
        (p ++ (split_line (stream source)).0)
        (split_line (stream source)).1
        (read_from m (ltb m (length p)) (kept m p) source)
unfolding read_from
read_from-IsFramed m p [] c =
    rw (append-nil p)
      (record { outcome = ap ok (at_end_lem m p); buffer = refl; left = refl; clean = tt })
read_from-IsFramed m p (interrupted ∷ source) c = read_from-IsFramed m p source c
read_from-IsFramed m p (broken e ∷ source) c = absurd c
read_from-IsFramed m p (chunk [] ∷ source) c = absurd c
read_from-IsFramed m p (chunk (b ∷ bs) ∷ source) c =
    let available = b ∷ bs in
    elim (Option-cases (position available)) [
      | inl missing ↦
          rw (missing, split_line-none available (stream source) missing, read_from)
            (rw
              (absorb_lem m p available, ← append_assoc p available (split_line (stream source)).0)
              (read_from-IsFramed m (p ++ available) source c))
      | inr (i, found) ↦
          let next : i + 1 ≡ suc i = omega arith in
          rw (found, split_line-some available (stream source) i found, read_from)
            (rw (absorb_lem m p (take i available)) (record {
              outcome = refl;
              buffer = refl;
              left =
                  stream-consume (i + 1) available source
                  ∙ ap (λ k. drop k available ++ stream source) next;
              clean = consume-IsClean (i + 1) available source c;
            }))
    ]

-- However a reader that does not fail slices its bytes, `read_line_capped` answers with its first
-- line: the end of the input if there are no bytes left, else the line without its line feed if it
-- is within the cap, else an oversized line of which nothing is buffered. What follows the line feed
-- is left to be read.
pub read_line_capped-IsFramed :
    (m : ℕ) (source : List Read)
    → IsClean source
    → IsFramed m
        (split_line (stream source)).0
        (split_line (stream source)).1
        (read_line_capped m source)
unfolding read_line_capped
read_line_capped-IsFramed m source c =
    let low : ltb m 0 ≡ false = ground arith in
    subst
      (λ over.
        IsFramed m (split_line (stream source)).0 (split_line (stream source)).1
          (read_from m over (if over then [] else []) source))
      low (read_from-IsFramed m [] source c)
