-- ===== src/Protocol/Serve.antt =====
-- src/protocol.rs: `read_request`, and `run_loop_with_limits`, which answers one line after the other.
-- The writer is the library's, a parameter with the state `W`; of what `write_all` is given, text is
-- kept as text. A loop that has used up its fuel is `none`.
pub mod Stream
pub mod Tests
use julie_semantic_sidecar.Prelude.{
  ℕ, zero, suc, String, Bool, true, false, List, [], ◌∷◌, Option, none, some, Result, ok, err,
  ◌>>=◌, ◌>>◌, concat, decimal,
}
use julie_semantic_sidecar.Json.{Serde}
use julie_semantic_sidecar.EngineTrait.{EmbedEngine}
use julie_semantic_sidecar.Health.{Limits}
use julie_semantic_sidecar.Protocol.Framing.{
  Read, LineRead, line, oversized, eof, LineResult, read_line_capped,
}
use julie_semantic_sidecar.Protocol.Response.{
  ProtocolReply, failure, invalid_request, reply, serialize_outcome,
}
use julie_semantic_sidecar.Protocol.Dispatch.{process_line}

-- `std::io::Write`
pub record Writer (W : Type 0) : Type 0 where
  pub write_all : String → W → Result (Unit {0}) String × W
  pub flush : W → Result (Unit {0}) String × W

pub data FramedRequest : Type 0 where
  finished line_read : FramedRequest
  rejected : ProtocolReply → FramedRequest

module _ {F N : Type 0} (serde : Serde F N) where
  unfoldable pub oversized_reply : Limits → Result ProtocolReply String
  oversized_reply limits = serialize_outcome serde (
      reply (
        failure "" invalid_request (
          concat (
            "request line exceeds max_request_bytes ("
            ∷ decimal limits.max_request_bytes
            ∷ ")"
            ∷ []))))

  -- What the framing of a line means for the loop.
  unfoldable pub framed : Limits → LineRead → Result FramedRequest String
  unfolding oversized_reply
  framed limits eof = ok finished
  framed limits line = ok line_read
  framed limits oversized = do r ← oversized_reply limits; ok (rejected r)

  -- The caller's buffer and the reader that is left are those of `read_line_capped`.
  unfoldable pub read_request : List Read → Limits → Result FramedRequest String × LineResult
  unfolding framed
  read_request input limits =
      let read = read_line_capped limits.max_request_bytes input in
      (read.outcome >>= framed limits, read)

-- The writes of one reply, up to the first that fails.
unfoldable pub write_reply :
    {W : Type 0} → Writer W → ProtocolReply → W → Result (Unit {0}) String × W
write_reply output r w =
    let (text, w1) = output.write_all r.line w in
    elim text [
      | err e ↦ (err e, w1)
      | ok _ ↦
          let (feed, w2) = output.write_all "\n" w1 in
          elim feed [ err e ↦ (err e, w2) | ok _ ↦ output.flush w2 ]
    ]

-- The `match` of the loop: to return, to go on without a reply, or to reply.
pub data Turn : Type 0 where
  return continue : Turn
  answer : ProtocolReply → Turn

abbrev pub turn_of : Option ProtocolReply → Turn
turn_of none = continue
turn_of (some r) = answer r

module _ {F N S W : Type 0} (serde : Serde F N) (engine : EmbedEngine F N S)
    (from_utf8 : List ℕ → Result String String) (output : Writer W) (limits : Limits) where
  unfoldable pub turn : Result FramedRequest String → List ℕ → S → Result Turn String × S
  turn (err e) buffer s = (err e, s)
  turn (ok finished) buffer s = (ok return, s)
  turn (ok (rejected r)) buffer s = (ok (answer r), s)
  turn (ok line_read) buffer s =
      let (processed, s') = process_line serde engine from_utf8 buffer limits s in
      (processed >>= (λ r. ok (turn_of r)), s')

  -- The rest of the loop's body, with `go_on` for its next round.
  unfoldable pub conclude :
      (S → W → Option (Result (Unit {0}) String × S × W))
      → Result Turn String
      → S
      → W
      → Option (Result (Unit {0}) String × S × W)
  unfolding write_reply
  conclude go_on (err e) s w = some (err e, s, w)
  conclude go_on (ok return) s w = some (ok tt, s, w)
  conclude go_on (ok continue) s w = go_on s w
  conclude go_on (ok (answer r)) s w =
      let (sent, w') = write_reply output r w in
      elim sent [
        | err e ↦ some (err e, s, w')
        | ok _ ↦ elim r.stop_connection [ true ↦ some (ok tt, s, w') | false ↦ go_on s w' ]
      ]

  unfoldable pub run_loop_with_limits :
      ℕ → List Read → S → W → Option (Result (Unit {0}) String × S × W)
  unfolding turn read_request conclude
  run_loop_with_limits zero input s w = none
  run_loop_with_limits (suc fuel) input s w =
      let (framed, read) = read_request serde input limits in
      let (next, s') = turn framed read.buffer s in
      conclude (run_loop_with_limits fuel read.source) next s' w
