-- ===== src/Cli.antt =====
-- src/main.rs: the reading of the command line. An argument is a text.
pub mod Laws
pub mod Tests
use julie_semantic_sidecar.Prelude.{
  String, str_eq, concat, Bool, true, false, ◌||◌, if◌then◌else◌, List, [], ◌∷◌, Option, none, some,
  Result, ok, err, ◌>>=◌, ok_or,
}
use julie_semantic_sidecar.Manifest.{default_model_id}

pub data Cli : Type 0 where
  serve : String → Cli
  prepare : Option String → Cli
  broker : (model endpoint service_lock accelerator_lock : String) → Cli
  version : Cli

-- The four variables of `parse_broker`.
pub record Slots : Type 0 where
  pub model : Option String
  pub endpoint : Option String
  pub service_lock : Option String
  pub accelerator_lock : Option String

abbrev pub no_slots : Slots
no_slots = record { model = none; endpoint = none; service_lock = none; accelerator_lock = none }

-- `target.replace(value).is_some()`: the old value of the slot, and the slots with the new one.
unfoldable pub replace : String → Option String → Slots → Result Slots String
replace flag none s = ok s
replace flag (some old) s = err (concat ("duplicate argument: " ∷ flag ∷ []))

unfoldable pub fill : String → String → Slots → Result Slots String
unfolding replace
fill flag value s =
    if str_eq flag "--model"
    then replace flag s.model (record s { model = some value })
    else if str_eq flag "--endpoint"
    then replace flag s.endpoint (record s { endpoint = some value })
    else if str_eq flag "--lock"
    then replace flag s.service_lock (record s { service_lock = some value })
    else if str_eq flag "--accelerator-lock"
    then replace flag s.accelerator_lock (record s { accelerator_lock = some value })
    else err (concat ("unexpected argument: " ∷ flag ∷ []))

abbrev no_value : String → String
no_value flag = concat (flag ∷ " requires a value" ∷ [])

-- The loop over `index`, two arguments at a time.
unfoldable pub parse_flags : List String → Slots → Result Slots String
unfolding fill
parse_flags [] s = ok s
parse_flags (flag ∷ []) s = err (no_value flag)
parse_flags (flag ∷ value ∷ rest) s = elim (str_eq value "") [
  | true ↦ err (no_value flag)
  | false ↦ elim (fill flag value s) [ err e ↦ err e | ok s' ↦ parse_flags rest s' ]
]

unfoldable pub parse_broker : List String → Result Cli String
unfolding parse_flags
parse_broker args = do
  s ← parse_flags args no_slots
  model ← ok_or s.model "broker requires --model"
  endpoint ← ok_or s.endpoint "broker requires --endpoint"
  service_lock ← ok_or s.service_lock "broker requires --lock"
  accelerator_lock ← ok_or s.accelerator_lock "broker requires --accelerator-lock"
  ok (broker model endpoint service_lock accelerator_lock)

abbrev no_id : String
no_id = "--model requires a manifest model id"

unfoldable pub parse_model : List String → Result (Option String) String
parse_model [] = ok none
parse_model (flag ∷ []) =
    if str_eq flag "--model" then err no_id else err (concat ("unexpected argument: " ∷ flag ∷ []))
parse_model (flag ∷ value ∷ []) =
    if str_eq flag "--model"
    then if str_eq value "" then err no_id else ok (some value)
    else err (concat ("unexpected argument: " ∷ flag ∷ []))
parse_model (first ∷ second ∷ third ∷ rest) = err (concat ("unexpected argument: " ∷ first ∷ []))

abbrev or_default : Option String → String
or_default none = default_model_id
or_default (some id) = id

abbrev only_verb : List String → Result Cli String
only_verb [] = ok version
only_verb (arg ∷ rest) = err (concat ("unexpected argument: " ∷ arg ∷ []))

unfoldable pub parse : List String → Result Cli String
unfolding parse_model parse_broker
parse [] = ok (serve default_model_id)
parse (verb ∷ rest) =
    if str_eq verb "--version" || str_eq verb "-V" || str_eq verb "version"
    then only_verb rest
    else if str_eq verb "serve"
    then (do id ← parse_model rest; ok (serve (or_default id)))
    else if str_eq verb "prepare"
    then (do id ← parse_model rest; ok (prepare id))
    else if str_eq verb "broker"
    then parse_broker rest
    else err (concat ("unknown verb: " ∷ verb ∷ []))
