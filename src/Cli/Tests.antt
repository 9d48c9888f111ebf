-- ===== src/Cli/Tests.antt =====
-- Command lines, after the unit tests of src/main.rs.
use julie_semantic_sidecar.Prelude.{String, ◌≡◌, refl, List, [], ◌∷◌, some, ok, err}
use julie_semantic_sidecar.Cli.{broker, parse, parse_broker, parse_flags, fill, replace}
use julie_semantic_sidecar.Cli.Laws.{value_of, parse_broker_sound, to_args, parse-to_args}

abbrev flags : List String
flags = "--lock" ∷ "l" ∷ "--model" ∷ "m" ∷ "--accelerator-lock" ∷ "a" ∷ "--endpoint" ∷ "e" ∷ []

twice :
    parse ("broker" ∷ "--model" ∷ "m" ∷ "--model" ∷ "n" ∷ []) ≡ err "duplicate argument: --model"
unfolding parse parse_broker parse_flags fill replace
twice = refl

unknown : parse ("embed" ∷ []) ≡ err "unknown verb: embed"
unfolding parse
unknown = refl

parse_broker_sound_example :
    (value_of "--model" flags ≡ some "m")
    × (value_of "--endpoint" flags ≡ some "e")
    × (value_of "--lock" flags ≡ some "l")
    × (value_of "--accelerator-lock" flags ≡ some "a")
unfolding parse parse_broker parse_flags fill replace
parse_broker_sound_example = parse_broker_sound flags "m" "e" "l" "a" refl

parse-to_args_example : parse (to_args (broker "m" "e" "l" "a")) ≡ ok (broker "m" "e" "l" "a")
parse-to_args_example = parse-to_args (broker "m" "e" "l" "a") (refl, refl, refl, refl)
