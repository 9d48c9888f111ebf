-- ===== src/Protocol/Serve/Stream.antt =====
-- The request loop against its specification: the lines of the input, answered one after the other.
use julie_semantic_sidecar.Prelude.{
  ℕ, zero, suc, ◌<◌, ◌≡◌, refl, ap, ◌∙◌, subst, ◌⊎◌, inl, inr, String, true, false, ltb, ◌==◌,
  if◌then◌else◌, Bool-cases, List, [], ◌∷◌, Option, none, some, Result, ok, err, Result-cases,
  ◌>>=◌, length, arith,
}
use julie_semantic_sidecar.Json.{Serde}
use julie_semantic_sidecar.EngineTrait.{EmbedEngine}
use julie_semantic_sidecar.Health.{Limits}
use julie_semantic_sidecar.Protocol.Framing.{Read, line, oversized, LineResult, read_line_capped}
use julie_semantic_sidecar.Protocol.Framing.Lines.{
  split_line, stream, IsClean, verdict, kept, IsFramed, read_line_capped-IsFramed,
}
use julie_semantic_sidecar.Protocol.Dispatch.{process_line}
use julie_semantic_sidecar.Protocol.Serve.{
  Writer, Turn, return, continue, answer, turn_of, oversized_reply, framed, read_request, turn,
  write_reply, conclude, run_loop_with_limits,
}

-- The lines of a text: what follows its last line feed is a line unless it is empty.
abbrev extend : ℕ → List (List ℕ) → List (List ℕ)
extend b [] = (b ∷ []) ∷ []
extend b (l ∷ ls) = (b ∷ l) ∷ ls

abbrev pub lines : List ℕ → List (List ℕ)
lines [] = []
lines (b ∷ bs) = elim (b == b'\n') [ true ↦ [] ∷ lines bs | false ↦ extend b (lines bs) ]

lines_lem :
    (b : ℕ) (bs : List ℕ)
    → ((split_line (b ∷ bs)).1 ≡ none)
        × (lines (b ∷ bs) ≡ (split_line (b ∷ bs)).0 ∷ [])
        × ((m : ℕ)
            → verdict m (split_line (b ∷ bs)).0 none
              ≡ (if ltb m (length (split_line (b ∷ bs)).0) then oversized else line))
      ⊎ ((rest : List ℕ) × ((split_line (b ∷ bs)).1 ≡ some rest)
          × (lines (b ∷ bs) ≡ (split_line (b ∷ bs)).0 ∷ lines rest)
          × (length rest < length (b ∷ bs)))
lines_lem b [] = elim (Bool-cases (b == b'\n')) [
  | inl feed ↦ rw (feed, split_line, lines) (inr ([], refl, refl, omega arith))
  | inr text ↦ rw (text, split_line, lines) (inl (refl, refl, λ m. refl))
]
lines_lem b (c ∷ cs) = elim (Bool-cases (b == b'\n')) [
  | inl feed ↦ rw (feed, split_line, lines) (inr (c ∷ cs, refl, refl, omega arith))
  | inr text ↦ elim (lines_lem c cs) [
    | inl (last, one, _) ↦ rw (text, split_line, lines) (inl (last, ap (extend b) one, λ m. refl))
    | inr (rest, found, more, shorter) ↦
        rw (text, split_line, lines) (inr (rest, found, ap (extend b) more, omega arith))
  ]
]

stream-cases :
    (input : List Read) → (stream input ≡ []) ⊎ ((b : ℕ) × (bs : List ℕ) × (stream input ≡ b ∷ bs))
stream-cases input = go (stream input) refl
  where
    go :
        (all : List ℕ)
        → stream input ≡ all
        → (stream input ≡ []) ⊎ ((b : ℕ) × (bs : List ℕ) × (stream input ≡ b ∷ bs))
    go [] e = inl e
    go (b ∷ bs) e = inr (b, bs, e)

module _ {F N S W : Type 0} (serde : Serde F N) (engine : EmbedEngine F N S)
    (from_utf8 : List ℕ → Result String String) (output : Writer W) (limits : Limits) where
  -- What one line is answered with.
  abbrev pub line_turn : List ℕ → S → Result Turn String × S
  line_turn l s =
      if ltb limits.max_request_bytes (length l)
      then (oversized_reply serde limits >>= (λ r. ok (answer r)), s)
      else (let (processed, s') = process_line serde engine from_utf8 l limits s in
          (processed >>= (λ r. ok (turn_of r)), s'))

  -- What a turn does, before the lines that are left.
  abbrev pub take_turn :
      (S → W → Result (Unit {0}) String × S × W)
      → Result Turn String
      → S
      → W
      → Result (Unit {0}) String × S × W
  take_turn left (err e) s w = (err e, s, w)
  take_turn left (ok return) s w = (ok tt, s, w)
  take_turn left (ok continue) s w = left s w
  take_turn left (ok (answer r)) s w =
      let (sent, w') = write_reply output r w in
      elim sent [
        | err e ↦ (err e, s, w')
        | ok _ ↦ elim r.stop_connection [ true ↦ (ok tt, s, w') | false ↦ left s w' ]
      ]

  -- The lines are answered in order, up to the first that stops the connection or fails.
  abbrev pub answer_lines : List (List ℕ) → S → W → Result (Unit {0}) String × S × W
  answer_lines [] s w = (ok tt, s, w)
  answer_lines (l ∷ ls) s w =
      let (next, s') = line_turn l s in take_turn (answer_lines ls) next s' w

  conclude-take_turn :
      (go_on : S → W → Option (Result (Unit {0}) String × S × W))
      (left : S → W → Result (Unit {0}) String × S × W) (next : Result Turn String) (s : S) (w : W)
      → ((s : S) (w : W) → go_on s w ≡ some (left s w))
      → conclude serde engine from_utf8 output limits go_on next s w
        ≡ some (take_turn left next s w)
  unfolding conclude
  conclude-take_turn go_on left (err e) s w same = refl
  conclude-take_turn go_on left (ok return) s w same = refl
  conclude-take_turn go_on left (ok continue) s w same = same s w
  conclude-take_turn go_on left (ok (answer r)) s w same =
      elim (Result-cases (write_reply output r w).0) [
        | inr (e, failed) ↦ rw (failed, conclude, take_turn) refl
        | inl (u, sent) ↦ elim (Bool-cases r.stop_connection) [
          | inl stop ↦ rw (sent, stop, conclude, take_turn) refl
          | inr more ↦ rw (sent, more, conclude, take_turn) (same s (write_reply output r w).1)
        ]
      ]

  -- The turn for a line that the reader has framed.
  turn_lem :
      (read : LineResult) (l : List ℕ) (s : S)
      → read.outcome ≡ ok (if ltb limits.max_request_bytes (length l) then oversized else line)
      → read.buffer ≡ kept limits.max_request_bytes l
      → turn serde engine from_utf8 output limits
          (read.outcome >>= framed serde limits)
          read.buffer
          s
        ≡ line_turn l s
  unfolding turn framed
  turn_lem read l s o b = elim (Bool-cases (ltb limits.max_request_bytes (length l))) [
    | inr short ↦ rw (o, b, short) refl
    | inl long ↦ elim (Result-cases (oversized_reply serde limits)) [
      | inl (r, e) ↦ rw (o, b, long) (rw e refl)
      | inr (x, e) ↦ rw (o, b, long) (rw e refl)
    ]
  ]

  -- One round of the loop on a line, before lines on which the loop is right.
  round_lem :
      (fuel : ℕ) (input : List Read) (l tail : List ℕ) (s : S) (w : W)
      → (read_line_capped limits.max_request_bytes input).outcome
        ≡ ok (if ltb limits.max_request_bytes (length l) then oversized else line)
      → (read_line_capped limits.max_request_bytes input).buffer ≡ kept limits.max_request_bytes l
      → ((s : S) (w : W)
          → run_loop_with_limits serde engine from_utf8 output limits fuel
              (read_line_capped limits.max_request_bytes input).source
              s
              w
            ≡ some (answer_lines (lines tail) s w))
      → run_loop_with_limits serde engine from_utf8 output limits (suc fuel) input s w
        ≡ some (answer_lines (l ∷ lines tail) s w)
  unfolding run_loop_with_limits read_request
  round_lem fuel input l tail s w o b right =
      let read = read_line_capped limits.max_request_bytes input in
      rw (turn_lem read l s o b) (
        conclude-take_turn
          (run_loop_with_limits serde engine from_utf8 output limits fuel read.source)
          (answer_lines (lines tail)) (line_turn l s).0 (line_turn l s).1 w right)

  -- The loop ends on any input of a reader that does not fail, given more fuel than there are bytes,
  -- and then it has done what the lines of the input, taken one after the other, ask for, however the
  -- reader slices them: each line within the cap is processed, a longer one is answered with the
  -- oversize error, replies are written in order, and the loop ends at the first reply that stops the
  -- connection, at the first failure, or after the last line.
  pub run_loop-answer_lines :
      (fuel : ℕ) (input : List Read) (s : S) (w : W)
      → IsClean input
      → length (stream input) < fuel
      → run_loop_with_limits serde engine from_utf8 output limits fuel input s w
        ≡ some (answer_lines (lines (stream input)) s w)
  unfolding run_loop_with_limits read_request
  run_loop-answer_lines zero input s w c enough = absurd (omega arith)
  run_loop-answer_lines (suc fuel) input s w c enough =
      let read = read_line_capped limits.max_request_bytes input in
      let shape = read_line_capped-IsFramed limits.max_request_bytes input c in
      let m = limits.max_request_bytes in
      elim (stream-cases input) [
        | inl over ↦
            let none_left =
              subst (λ t. IsFramed m (split_line t).0 (split_line t).1 read) over shape in
            rw (none_left.outcome, over, conclude, turn, framed) refl
        | inr (b, bs, some_left) ↦
            let l = (split_line (b ∷ bs)).0 in
            let framed_line =
              subst (λ t. IsFramed m (split_line t).0 (split_line t).1 read) some_left shape in
            let fits = subst (λ t. length t < suc fuel) some_left enough in
            elim (lines_lem b bs) [
              | inl (last, one, whole) ↦
                  let last_line = subst (λ r. IsFramed m l r read) last framed_line in
                  let less : length (stream read.source) < fuel =
                    rw (last_line.left) (omega arith) in
                  rw (some_left, one)
                    (round_lem fuel input l [] s w (last_line.outcome ∙ ap ok (whole m))
                      last_line.buffer
                      (λ s w.
                        subst
                          (λ t.
                            run_loop_with_limits serde engine from_utf8 output limits fuel
                              read.source s w
                            ≡ some (answer_lines (lines t) s w))
                          last_line.left
                          (run_loop-answer_lines fuel read.source s w shape.clean less)))
              | inr (rest, found, more, shorter) ↦
                  let full_line = subst (λ r. IsFramed m l r read) found framed_line in
                  let less : length (stream read.source) < fuel =
                    rw (full_line.left) (omega arith) in
                  rw (some_left, more)
                    (round_lem fuel input l rest s w full_line.outcome full_line.buffer (λ s w.
                      subst
                        (λ t.
                          run_loop_with_limits serde engine from_utf8 output limits fuel read.source
                            s w
                          ≡ some (answer_lines (lines t) s w))
                        full_line.left
                        (run_loop-answer_lines fuel read.source s w shape.clean less)))
            ]
      ]
