-- ===== src/Protocol/Framing.antt =====
-- `read_line_capped`: one line of the input, with a cap on what is buffered. A byte is a number. The
-- reader is the list of what `fill_buf` gives when the data at hand is used up; no data, and an
-- empty slice, is the end of the input.
pub mod Lines
use julie_semantic_sidecar.Prelude.{
  ℕ, suc, ◌+◌, String, Bool, true, false, ltb, ◌==◌, if◌then◌else◌, List, [], ◌∷◌, ◌++◌, Option,
  none, some, Result, ok, err, is_empty, length, take, drop,
}

pub data Read : Type 0 where
  chunk : List ℕ → Read
  interrupted : Read
  broken : String → Read

pub data LineRead : Type 0 where
  line oversized eof : LineRead

-- The result, the caller's buffer, and the reader that is left.
pub record LineResult : Type 0 where
  pub outcome : Result LineRead String
  pub buffer : List ℕ
  pub source : List Read

-- `iter().position(|&byte| byte == b'\n')`
unfoldable pub position : List ℕ → Option ℕ
position [] = none
position (b ∷ bs) = elim (b == b'\n') [
  | true ↦ some 0
  | false ↦ elim (position bs) [ none ↦ none | some i ↦ some (suc i) ]
]

-- `BufRead::consume` of bytes of the slice at hand.
unfoldable pub consume : ℕ → List ℕ → List Read → List Read
consume n bytes rest = let left = drop n bytes in if is_empty left then rest else chunk left ∷ rest

-- What the end of the input is taken for.
unfoldable pub at_end : Bool → List ℕ → LineRead
at_end over buffer = if over then oversized else if is_empty buffer then eof else line

-- The cap: a line over it is dropped and no longer buffered.
unfoldable pub absorb : ℕ → Bool → List ℕ → List ℕ → Bool × List ℕ
absorb max_bytes over buffer content =
    if over
    then (over, buffer)
    else if ltb max_bytes (length buffer + length content)
    then (true, [])
    else (false, buffer ++ content)

-- The end of a line, and the loop for one that goes on in the next slice.
abbrev ended : Bool × List ℕ → List Read → LineResult
ended (over, buffer) source = record {
  outcome = ok (if over then oversized else line);
  buffer = buffer;
  source = source;
}

unfoldable pub read_from : ℕ → Bool → List ℕ → List Read → LineResult
read_from max_bytes over buffer [] = record {
  outcome = ok (at_end over buffer);
  buffer = buffer;
  source = [];
}
read_from max_bytes over buffer (interrupted ∷ source) = read_from max_bytes over buffer source
read_from max_bytes over buffer (broken e ∷ source) = record {
  outcome = err e;
  buffer = buffer;
  source = source;
}
read_from max_bytes over buffer (chunk [] ∷ source) = record {
  outcome = ok (at_end over buffer);
  buffer = buffer;
  source = chunk [] ∷ source;
}
read_from max_bytes over buffer (chunk (b ∷ bs) ∷ source) =
    let available = b ∷ bs in
    elim (position available) [
      | some i ↦
          ended (absorb max_bytes over buffer (take i available)) (consume (i + 1) available source)
      | none ↦
          let next = absorb max_bytes over buffer available in
          read_from max_bytes next.0 next.1 source
    ]

unfoldable pub read_line_capped : ℕ → List Read → LineResult
unfolding read_from consume absorb at_end position
read_line_capped max_bytes source = read_from max_bytes false [] source
