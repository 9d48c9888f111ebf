-- ===== src/Protocol/Serve/Tests.antt =====
-- The protocol on concrete input: a counting engine, and a parser that knows three lines.
use julie_semantic_sidecar.Prelude.{
  ℕ, suc, ◌==◌, ◌≡◌, refl, arith, String, str_eq, false, if◌then◌else◌, List, [], ◌∷◌, some, Result,
  ok, err,
}
use julie_semantic_sidecar.Json.{
  Value, null, number, string, Fields, Serde, get, json_array, fields,
}
use julie_semantic_sidecar.EngineTrait.{EmbedEngine}
use julie_semantic_sidecar.Sanitize.{is_empty, trim}
use julie_semantic_sidecar.Health.{Limits}
use julie_semantic_sidecar.Protocol.Framing.{Read, chunk, interrupted, read_line_capped}
use julie_semantic_sidecar.Protocol.Framing.Lines.{
  split_line, stream, IsFramed, read_line_capped-IsFramed,
}
use julie_semantic_sidecar.Protocol.Dispatch.{
  process_line, all_strings, find_width, extract_request_id, as_string, dispatch, embed_batch,
  embed_texts, batch_response,
}
use julie_semantic_sidecar.Protocol.Dispatch.Requests.{IsDispatched, dispatch-IsDispatched}
use julie_semantic_sidecar.Protocol.Dispatch.Embeds.{
  IsEmbedded, embed_batch-IsEmbedded, batch_value,
}
use julie_semantic_sidecar.Protocol.Response.{success}
use julie_semantic_sidecar.Protocol.Serve.{Writer, run_loop_with_limits}
use julie_semantic_sidecar.Protocol.Serve.Stream.{lines, answer_lines, run_loop-answer_lines}

abbrev shutdown : Fields ℕ
shutdown = fields (
    ("schema", string "julie.embedding.sidecar")
    ∷ ("version", number 1)
    ∷ ("request_id", string "r1")
    ∷ ("method", string "shutdown")
    ∷ [])

abbrev parse : String → Result (Value ℕ) String
parse text = if str_eq text "s" then ok (Value.object shutdown) else err "expected value"

abbrev show : Value ℕ → String
show (Value.object fs) = "{..}"
show v = "null"

abbrev serde : Serde ℕ ℕ
serde = record {
  of_usize = λ n. n;
  of_f32 = λ f. number f;
  as_f64_is = λ n v. n == v;
  from_str = parse;
  to_string = λ v. ok (show v);
  show = show;
}

abbrev ones : List String → List (List ℕ)
ones [] = []
ones (text ∷ texts) = (1 ∷ []) ∷ ones texts

-- Its state counts the calls.
abbrev engine : EmbedEngine ℕ ℕ ℕ
engine = record {
  health_facts = λ s. ok null;
  is_accelerated = λ s. false;
  embed = λ s texts role. (ok (record { dims = 1; vectors = ones texts }), suc s);
}

abbrev from_utf8 : List ℕ → Result String String
from_utf8 [] = ok ""
from_utf8 (b ∷ bs) = if b == 115 then ok "s" else ok "x"

-- The writer keeps what was written.
abbrev output : Writer (List String)
output = record { write_all = λ text w. (ok tt, text ∷ w); flush = λ w. (ok tt, w) }

abbrev limits : Limits
limits = record { max_batch_items = 2; max_request_bytes = 3 }

-- The bytes of "xx\nxxxx\ns\nx", in slices that cut through the lines.
abbrev input : List Read
input =
    chunk (120 ∷ [])
    ∷ chunk (120 ∷ 10 ∷ 120 ∷ [])
    ∷ interrupted
    ∷ chunk (120 ∷ 120 ∷ 120 ∷ 10 ∷ 115 ∷ [])
    ∷ chunk (10 ∷ 120 ∷ [])
    ∷ []

-- The first two lines are refused, the third stops the loop before the fourth.
three_replies :
    run_loop_with_limits serde engine from_utf8 output limits 12 input 0 []
    ≡ some (ok tt, 0, "\n" ∷ "{..}" ∷ "\n" ∷ "{..}" ∷ "\n" ∷ "{..}" ∷ [])
unfolding run_loop_with_limits read_line_capped process_line is_empty trim get
three_replies = refl

run_loop-answer_lines_example :
    run_loop_with_limits serde engine from_utf8 output limits 12 input 0 []
    ≡ some (answer_lines serde engine from_utf8 output limits (lines (stream input)) 0 [])
run_loop-answer_lines_example =
    run_loop-answer_lines serde engine from_utf8 output limits 12 input 0 [] tt (omega arith)

read_line_capped-IsFramed_example :
    IsFramed 3
      (split_line (stream input)).0
      (split_line (stream input)).1
      (read_line_capped 3 input)
read_line_capped-IsFramed_example = read_line_capped-IsFramed 3 input tt

dispatch-IsDispatched_example :
    let r = dispatch serde engine shutdown limits 0 in
    IsDispatched serde engine limits "r1"
      (as_string (get "method" shutdown) ≡ some "shutdown")
      0
      r.0
      r.1
unfolding extract_request_id get
dispatch-IsDispatched_example = dispatch-IsDispatched serde engine shutdown limits 0 "r1" refl

abbrev two_texts : Fields ℕ
two_texts = fields (("texts", json_array (string "a" ∷ string "b" ∷ [])) ∷ [])

embed_batch-IsEmbedded_example :
    IsEmbedded serde engine two_texts limits 0
      (batch_value serde engine (record { dims = 1; vectors = ones ("a" ∷ "b" ∷ []) }))
unfolding embed_batch embed_texts batch_response get all_strings find_width success
embed_batch-IsEmbedded_example =
    embed_batch-IsEmbedded serde engine "r2" two_texts limits 0
      (batch_value serde engine (record { dims = 1; vectors = ones ("a" ∷ "b" ∷ []) })) refl
