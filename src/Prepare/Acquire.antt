-- ===== src/Prepare/Acquire.antt =====
-- `acquire`: check, download, verify and rename, under the lock of the model. The final file is bytes
-- or absent; what each call of the file system and of the HTTP client answers is the parameter `Io`,
-- and the digest, in hexadecimal, the parameter `sha256`. A partial file is deleted when it is dropped,
-- so that it is a variable of the download.
pub mod Steps
pub mod Laws
pub mod Tests
use julie_semantic_sidecar.Prelude.{
  ℕ, ◌+◌, ◌*◌, ◌/◌, ◌-◌, max, String, concat, decimal, Bool, true, false, not, ◌==◌, ltb,
  if◌then◌else◌, List, [], ◌∷◌, ◌++◌, map, length, Option, none, some, Result, ok, err, ok_or,
}
use julie_semantic_sidecar.Prelude.Str.{join, eq_ignore_ascii_case}
use julie_semantic_sidecar.Manifest.{ModelPin, pins, by_id, default_model}

pub record PrepareRequest : Type 0 where
  pub model_id : String
  pub file_name : String
  pub source_url : String
  pub sha256 : String
  pub size_bytes : ℕ

-- `PrepareRequest::from_pin`
unfoldable pub from_pin : ModelPin → PrepareRequest
from_pin pin = record {
  model_id = pin.id;
  file_name = pin.file;
  source_url = pin.url;
  sha256 = pin.sha256;
  size_bytes = pin.size_bytes;
}

pub record Prepared : Type 0 where
  pub path : String
  pub already_cached : Bool

-- The lines that are written to the sink, each with the model's id.
pub data Event : Type 0 where
  waiting : String → Event
  progress : String → (received_bytes total_bytes : ℕ) → Event
  done : String → (path sha256 : String) → Event
  error : String → (message : String) → (expected_path source_url : Option String) → Event

abbrev pinned : Option ModelPin → Option (Result ModelPin String)
pinned none = none
pinned (some pin) = some (ok pin)

-- `resolve`; `none` is the panic of a manifest without a default model.
unfoldable pub resolve : Option String → Option (Result ModelPin String)
unfolding by_id default_model
resolve none = pinned default_model
resolve (some id) = some (
    ok_or (by_id id) (
      concat (
        "unknown model id '"
        ∷ id
        ∷ "'; known ids: "
        ∷ join ", " (map (λ (pin : ModelPin). pin.id) pins)
        ∷ [])))

-- `u64::div_ceil` by a number above 0.
abbrev div_ceil : ℕ → ℕ → ℕ
div_ceil n d = (n + (d - 1)) / d

-- In seconds.
unfoldable pub download_total_timeout : ℕ → ℕ
download_total_timeout size_bytes = max (div_ceil size_bytes (64 * 1024)) 2700

-- The body of a response, read by read; the list's end is the end of the body.
pub record Response : Type 0 where
  pub content_length : Option ℕ
  pub reads : List (Result (List ℕ) String)

pub record Io : Type 0 where
  pub create_dir_all : Result (Unit {0}) String
  pub open_lock : Result (Unit {0}) String
  pub try_lock : Bool
  pub lock : Result (Unit {0}) String
  -- What the final file is after the wait for another process, given what it was before.
  pub while_waiting : Option (List ℕ) → Option (List ℕ)
  -- Whether the final file can be read to its end.
  pub read_final : Result (Unit {0}) String
  pub remove_file : Result (Unit {0}) String
  pub available_space : Result ℕ String
  -- The answer to a request with this limit in seconds.
  pub fetch : ℕ → Result Response String
  pub create_partial : Result (Unit {0}) String
  -- The write after so many bytes, and whether a second has passed since the last report then.
  pub write_all : ℕ → Result (Unit {0}) String
  pub is_due : ℕ → Bool
  pub flush : Result (Unit {0}) String
  pub persist : Result (Unit {0}) String

pub record State : Type 0 where
  pub final_file : Option (List ℕ)
  pub lock_held : Bool
  pub events : List Event

unfoldable pub emit : Event → State → State
emit e s = record s { events = s.events ++ e ∷ [] }

module _ (sha256 : List ℕ → String) (io : Io) (request : PrepareRequest)
    (cache_dir final_path : String) where
  -- `report`
  unfoldable pub report : String → State → Result Prepared String × State
  unfolding emit
  report message s = (
    err message,
    emit (error request.model_id message (some final_path) (some request.source_url)) s,
  )

  unfoldable pub preflight_disk : Result (Unit {0}) String
  preflight_disk = elim io.available_space [
    | err reason ↦ err (concat ("cannot measure free space in " ∷ cache_dir ∷ ": " ∷ reason ∷ []))
    | ok available ↦
        if ltb available request.size_bytes
        then err (
            concat (
              "insufficient disk space in "
              ∷ cache_dir
              ∷ ": need "
              ∷ decimal request.size_bytes
              ∷ " bytes, "
              ∷ decimal available
              ∷ " available"
              ∷ []))
        else ok tt
  ]

  -- The size that the server offers, if it offers one, against the pinned one.
  unfoldable pub check_length : Option ℕ → Result (Unit {0}) String
  check_length none = ok tt
  check_length (some offered) =
      if not (offered == request.size_bytes)
      then err (
          concat (
            "declared size mismatch for "
            ∷ request.model_id
            ∷ ": the pin declares "
            ∷ decimal request.size_bytes
            ∷ " bytes, "
            ∷ request.source_url
            ∷ " offers "
            ∷ decimal offered
            ∷ []))
      else ok tt

  abbrev report_if : Bool → ℕ → State → State
  report_if false received s = s
  report_if true received s = emit (progress request.model_id received request.size_bytes) s

  -- The loop of the download, with the partial file as it grows; a read of no bytes is the end.
  unfoldable pub copy :
      List (Result (List ℕ) String) → List ℕ → State → Result (List ℕ) String × State
  unfolding emit
  copy [] partial s = (ok partial, s)
  copy (err reason ∷ reads) partial s = (
    err (concat ("cannot read " ∷ request.source_url ∷ ": " ∷ reason ∷ "; retry prepare" ∷ [])),
    s,
  )
  copy (ok [] ∷ reads) partial s = (ok partial, s)
  copy (ok (b ∷ bs) ∷ reads) partial s =
      elim (ltb request.size_bytes (length partial + length (b ∷ bs))) [
        | true ↦ (
          err (
              concat (
                "oversized response for "
                ∷ request.model_id
                ∷ ": "
                ∷ request.source_url
                ∷ " sent more than the pinned "
                ∷ decimal request.size_bytes
                ∷ " bytes"
                ∷ [])),
          s,
        )
        | false ↦ elim (io.write_all (length partial)) [
          | err reason ↦ (err (concat ("cannot write the partial download: " ∷ reason ∷ [])), s)
          | ok written ↦
              let longer = partial ++ b ∷ bs in
              copy reads longer (report_if (io.is_due (length longer)) (length longer) s)
        ]
      ]

  -- From the end of the loop on: the partial file is renamed only if its digest is the pinned one.
  unfoldable pub place : List ℕ → State → Result (Unit {0}) String × State
  unfolding emit
  place partial s = elim io.flush [
    | err reason ↦ (err (concat ("cannot flush the partial download: " ∷ reason ∷ [])), s)
    | ok flushed ↦
        let s₁ = emit (progress request.model_id (length partial) request.size_bytes) s in
        if not (eq_ignore_ascii_case (sha256 partial) request.sha256)
        then (
          err (
              concat (
                "sha256 mismatch for "
                ∷ request.model_id
                ∷ ": expected "
                ∷ request.sha256
                ∷ ", downloaded "
                ∷ sha256 partial
                ∷ [])),
          s₁,
        )
        else elim io.persist [
          | err reason ↦ (err (concat ("cannot place " ∷ final_path ∷ ": " ∷ reason ∷ [])), s₁)
          | ok placed ↦ (ok tt, record s₁ { final_file = some partial })
        ]
  ]

  abbrev copied : Result (List ℕ) String × State → Result (Unit {0}) String × State
  copied (err message, s) = (err message, s)
  copied (ok partial, s) = place partial s

  unfoldable pub receive : Response → State → Result (Unit {0}) String × State
  unfolding check_length copy place
  receive response s = elim (check_length response.content_length) [
    | err message ↦ (err message, s)
    | ok fits ↦ elim io.create_partial [
      | err reason ↦
          (err (concat ("cannot create a partial file in " ∷ cache_dir ∷ ": " ∷ reason ∷ [])), s)
      | ok created ↦
          copied (copy response.reads [] (emit (progress request.model_id 0 request.size_bytes) s))
    ]
  ]

  unfoldable pub download_verified : State → Result (Unit {0}) String × State
  unfolding receive download_total_timeout
  download_verified s = elim (io.fetch (download_total_timeout request.size_bytes)) [
    | err reason ↦ (
      err (concat ("cannot fetch " ∷ request.source_url ∷ ": " ∷ reason ∷ "; retry prepare" ∷ [])),
      s,
    )
    | ok response ↦ receive response s
  ]

  abbrev finished : Bool → State → Result Prepared String × State
  finished already_cached s = (
    ok (record { path = final_path; already_cached = already_cached }),
    emit (done request.model_id final_path request.sha256) s,
  )

  abbrev downloaded : Result (Unit {0}) String × State → Result Prepared String × State
  downloaded (err message, s) = (err message, s)
  downloaded (ok placed, s) = finished false s

  -- From the preflight on.
  unfoldable pub fetch_model : State → Result Prepared String × State
  unfolding preflight_disk download_verified emit
  fetch_model s = elim preflight_disk [
    | err message ↦ (err message, s)
    | ok enough ↦ downloaded (download_verified s)
  ]

  unfoldable pub acquire_present : List ℕ → State → Result Prepared String × State
  unfolding fetch_model
  acquire_present bytes s = elim io.read_final [
    | err reason ↦ (err (concat ("cannot read cached " ∷ final_path ∷ ": " ∷ reason ∷ [])), s)
    | ok readable ↦ elim (eq_ignore_ascii_case (sha256 bytes) request.sha256) [
      | true ↦ finished true s
      | false ↦ elim io.remove_file [
        | err reason ↦ (err (concat ("cannot remove stale " ∷ final_path ∷ ": " ∷ reason ∷ [])), s)
        | ok removed ↦ fetch_model (record s { final_file = none })
      ]
    ]
  ]

  unfoldable pub acquire_locked : State → Result Prepared String × State
  unfolding acquire_present
  acquire_locked s = elim s.final_file [
    | none ↦ fetch_model s
    | some bytes ↦ acquire_present bytes s
  ]

  -- The answer with the lock taken, `waiting` if another process had it.
  unfoldable pub hold_cache_lock : State → Result (Unit {0}) String × State
  unfolding emit
  hold_cache_lock s = elim io.open_lock [
    | err reason ↦ (
      err (
          concat (
            "cannot open the cache lock " ∷ cache_dir ∷ "/" ∷ request.model_id ∷ ".lock: " ∷ reason
            ∷ [])),
      s,
    )
    | ok opened ↦
        if io.try_lock
        then (ok tt, record s { lock_held = true })
        else (let told = emit (waiting request.model_id) s in
            let s₁ = record told { final_file = io.while_waiting told.final_file } in
            elim io.lock [
              | err reason ↦ (
                err (
                    concat (
                      "cannot take the cache lock " ∷ cache_dir ∷ "/" ∷ request.model_id ∷ ".lock: "
                      ∷ reason ∷ [])),
                s₁,
              )
              | ok taken ↦ (ok tt, record s₁ { lock_held = true })
            ])
  ]

  abbrev concluded : Result Prepared String × State → Result Prepared String × State
  concluded (ok prepared, s) = (ok prepared, record s { lock_held = false })
  concluded (err message, s) = report message (record s { lock_held = false })

  abbrev held : Result (Unit {0}) String × State → Result Prepared String × State
  held (err message, s) = report message s
  held (ok taken, s) = concluded (acquire_locked s)

  -- From the answer of `create_dir_all` on.
  unfoldable pub begun : Result (Unit {0}) String → State → Result Prepared String × State
  unfolding hold_cache_lock acquire_locked report
  begun (err reason) s =
      report (concat ("cannot create cache directory " ∷ cache_dir ∷ ": " ∷ reason ∷ [])) s
  begun (ok created) s = held (hold_cache_lock s)

  unfoldable pub acquire : State → Result Prepared String × State
  unfolding begun
  acquire s = begun io.create_dir_all s
