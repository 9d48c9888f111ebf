-- ===== src/Prepare/Acquire/Tests.antt =====
-- A download in two reads, after another process had the lock.
use julie_semantic_sidecar.Prelude.{
  ℕ, String, true, false, ◌==◌, if◌then◌else◌, ◌≡◌, refl, List, [], ◌∷◌, length, some, Result, ok,
}
use julie_semantic_sidecar.Prelude.Str.{eq_ignore_ascii_case}
use julie_semantic_sidecar.Prepare.Acquire.{
  PrepareRequest, Prepared, waiting, progress, done, Io, State, acquire,
}
use julie_semantic_sidecar.Prepare.Acquire.Laws.{IsAcquired, acquire-IsAcquired}

abbrev request : PrepareRequest
request = record {
  model_id = "tiny";
  file_name = "tiny.gguf";
  source_url = "https://models/tiny";
  sha256 = "ab";
  size_bytes = 3;
}

-- A digest that tells three bytes from any other number of them.
abbrev sha256 : List ℕ → String
sha256 bytes = if length bytes == 3 then "AB" else "cd"

abbrev io : Io
io = record {
  create_dir_all = ok tt;
  open_lock = ok tt;
  try_lock = false;
  lock = ok tt;
  while_waiting = λ file. file;
  read_final = ok tt;
  remove_file = ok tt;
  available_space = ok 1000;
  fetch = λ seconds.
      ok (record { content_length = some 3; reads = ok (1 ∷ 2 ∷ []) ∷ ok (3 ∷ []) ∷ [] });
  create_partial = ok tt;
  write_all = λ received. ok tt;
  is_due = λ received. received == 2;
  flush = ok tt;
  persist = ok tt;
}

abbrev start : State
start = record { final_file = some (7 ∷ []); lock_held = false; events = [] }

abbrev end : Result Prepared String × State
end = acquire sha256 io request "/cache" "/cache/tiny.gguf" start

two_reads : end.1 ≡ record {
  final_file = some (1 ∷ 2 ∷ 3 ∷ []);
  lock_held = false;
  events =
      waiting "tiny"
      ∷ progress "tiny" 0 3
      ∷ progress "tiny" 2 3
      ∷ progress "tiny" 3 3
      ∷ done "tiny" "/cache/tiny.gguf" "ab"
      ∷ [];
}
unfolding acquire eq_ignore_ascii_case
two_reads = refl

-- The other process has downloaded the model: this one finds it, and downloads nothing.
shared : Result Prepared String × State
unfolding acquire eq_ignore_ascii_case
shared =
    acquire sha256 (record io { while_waiting = λ file. some (4 ∷ 5 ∷ 6 ∷ []) }) request "/cache"
      "/cache/tiny.gguf" start

downloaded_once : shared ≡ (
  ok (record { path = "/cache/tiny.gguf"; already_cached = true }),
  record {
    final_file = some (4 ∷ 5 ∷ 6 ∷ []);
    lock_held = false;
    events = waiting "tiny" ∷ done "tiny" "/cache/tiny.gguf" "ab" ∷ [];
  },
)
unfolding shared
downloaded_once = refl

acquire-IsAcquired_example : IsAcquired sha256 io request "/cache" "/cache/tiny.gguf" start end
acquire-IsAcquired_example =
    acquire-IsAcquired sha256 io request "/cache" "/cache/tiny.gguf" start refl
