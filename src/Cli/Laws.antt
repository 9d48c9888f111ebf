-- ===== src/Cli/Laws.antt =====
-- Command lines and the commands that they stand for.
use text.Mathlib.TextEquality.{eq_iff}
use julie_semantic_sidecar.Prelude.{
  String, str_eq, Bool, true, false, Bool-cases, inl, inr, ◌≡◌, refl, ◌∙◌, sym, ap, subst,
  if◌then◌else◌, List, [], ◌∷◌, Option, none, some, Option-cases, ok, Result-cases, arith,
}
use julie_semantic_sidecar.Cli.{
  Cli, serve, prepare, broker, version, Slots, no_slots, replace, fill, parse_flags, parse_broker,
  parse_model, parse,
}

-- The value after the first mention of a flag, at the places of flags.
abbrev pub value_of : String → List String → Option String
value_of k [] = none
value_of k (flag ∷ []) = none
value_of k (flag ∷ value ∷ rest) = if str_eq flag k then some value else value_of k rest

-- A slot that was empty and is filled from the arguments, or was full and has stayed.
abbrev orelse : Option String → Option String → Option String
orelse none o = o
orelse (some v) o = some v

-- The slots `t` are `s` with the value put where the flag says.
Filled : String → String → Slots → Slots → Type 0
Filled flag value s t =
    (t.model ≡ (if str_eq flag "--model" then orelse s.model (some value) else s.model))
    × (t.endpoint
        ≡ (if str_eq flag "--endpoint" then orelse s.endpoint (some value) else s.endpoint))
    × (t.service_lock
        ≡ (if str_eq flag "--lock" then orelse s.service_lock (some value) else s.service_lock))
    × (t.accelerator_lock ≡ (
        if str_eq flag "--accelerator-lock"
        then orelse s.accelerator_lock (some value)
        else s.accelerator_lock))

replace-eq :
    (flag : String) (old : Option String) (s t : Slots)
    → replace flag old s ≡ ok t
    → (s ≡ t) × (old ≡ none)
unfolding replace
replace-eq flag none s t e = (ground arith, refl)
replace-eq flag (some v) s t e = absurd (ground arith)

fill-Filled : (flag value : String) (s t : Slots) → fill flag value s ≡ ok t → Filled flag value s t
unfolding fill Filled
fill-Filled flag value s t e = elim (Bool-cases (str_eq flag "--model")) [
  | inl h ↦
      let read = replace-eq flag s.model (record s { model = some value }) t (rw (h, fill) at e) in
      subst (λ f. Filled f value s t) (sym ((eq_iff flag "--model").0 h))
        (subst (Filled "--model" value s) read.0
          (sym (ap (λ o. orelse o (some value)) read.1), refl, refl, refl))
  | inr h₁ ↦ elim (Bool-cases (str_eq flag "--endpoint")) [
    | inl h ↦
        let read =
          (replace-eq flag s.endpoint (record s { endpoint = some value }) t
            (rw (h₁, h, fill) at e)) in
        subst (λ f. Filled f value s t) (sym ((eq_iff flag "--endpoint").0 h))
          (subst (Filled "--endpoint" value s) read.0
            (refl, sym (ap (λ o. orelse o (some value)) read.1), refl, refl))
    | inr h₂ ↦ elim (Bool-cases (str_eq flag "--lock")) [
      | inl h ↦
          let read =
            (replace-eq flag s.service_lock (record s { service_lock = some value }) t
              (rw (h₁, h₂, h, fill) at e)) in
          subst (λ f. Filled f value s t) (sym ((eq_iff flag "--lock").0 h))
            (subst (Filled "--lock" value s) read.0
              (refl, refl, sym (ap (λ o. orelse o (some value)) read.1), refl))
      | inr h₃ ↦ elim (Bool-cases (str_eq flag "--accelerator-lock")) [
        | inl h ↦
            let read =
              (replace-eq flag s.accelerator_lock (record s { accelerator_lock = some value }) t
                (rw (h₁, h₂, h₃, h, fill) at e)) in
            subst (λ f. Filled f value s t) (sym ((eq_iff flag "--accelerator-lock").0 h))
              (subst (Filled "--accelerator-lock" value s) read.0
                (refl, refl, refl, sym (ap (λ o. orelse o (some value)) read.1)))
        | inr h₄ ↦ absurd (ground (arith, h₁, h₂, h₃, h₄, e))
      ]
    ]
  ]
]

-- The same of all arguments: a slot is filled with the first value of its flag.
Reads : List String → Slots → Slots → Type 0
Reads args s t =
    (t.model ≡ orelse s.model (value_of "--model" args))
    × (t.endpoint ≡ orelse s.endpoint (value_of "--endpoint" args))
    × (t.service_lock ≡ orelse s.service_lock (value_of "--lock" args))
    × (t.accelerator_lock ≡ orelse s.accelerator_lock (value_of "--accelerator-lock" args))

orelse-none : (o : Option String) → o ≡ orelse o none
orelse-none none = refl
orelse-none (some v) = refl

orelse_step :
    (b : Bool) (o r : Option String) (v : String)
    → orelse (if b then orelse o (some v) else o) r ≡ orelse o (if b then some v else r)
orelse_step true none r v = refl
orelse_step true (some w) r v = refl
orelse_step false o r v = refl

read_slot :
    (b : Bool) (o o' r t : Option String) (v : String)
    → o' ≡ (if b then orelse o (some v) else o)
    → t ≡ orelse o' r
    → t ≡ orelse o (if b then some v else r)
read_slot b o o' r t v e f = f ∙ ap (λ k. orelse k r) e ∙ orelse_step b o r v

parse_flags-Reads : (args : List String) (s t : Slots) → parse_flags args s ≡ ok t → Reads args s t
unfolding parse_flags Filled Reads
parse_flags-Reads [] s t e =
    let same : s ≡ t = ground arith in
    subst (Reads [] s) same (
      orelse-none s.model,
      orelse-none s.endpoint,
      orelse-none s.service_lock,
      orelse-none s.accelerator_lock,
    )
parse_flags-Reads (flag ∷ []) s t e = absurd (ground arith)
parse_flags-Reads (flag ∷ value ∷ rest) s t e = elim (Bool-cases (str_eq value "")) [
  | inl blank ↦ absurd (ground arith)
  | inr full ↦ elim (Result-cases (fill flag value s)) [
    | inr (x, h) ↦ absurd (ground arith)
    | inl (s₁, h) ↦
        let (a, b, c, d) = fill-Filled flag value s s₁ h in
        let (a', b', c', d') = parse_flags-Reads rest s₁ t (ground arith) in
        (
          read_slot _ _ _ _ _ _ a a',
          read_slot _ _ _ _ _ _ b b',
          read_slot _ _ _ _ _ _ c c',
          read_slot _ _ _ _ _ _ d d',
        )
  ]
]

-- What `broker` is started with is what the command line gives after its flags, in whatever order
-- they stand: a command that is accepted has a value for each of the four flags, and that of its
-- first mention is taken.
pub parse_broker_sound :
    (args : List String) (model endpoint service_lock accelerator_lock : String)
    → parse ("broker" ∷ args) ≡ ok (broker model endpoint service_lock accelerator_lock)
    → (value_of "--model" args ≡ some model)
      × (value_of "--endpoint" args ≡ some endpoint)
      × (value_of "--lock" args ≡ some service_lock)
      × (value_of "--accelerator-lock" args ≡ some accelerator_lock)
unfolding parse parse_broker Reads
parse_broker_sound args model endpoint service_lock accelerator_lock e =
    elim (Result-cases (parse_flags args no_slots)) [
      | inr (x, h) ↦ absurd (ground arith)
      | inl (s, h) ↦
          let (a, b, c, d) = parse_flags-Reads args no_slots s h in
          elim (Option-cases s.model) [
            | inl missing ↦ absurd (ground arith)
            | inr (m, hm) ↦ elim (Option-cases s.endpoint) [
              | inl missing ↦ absurd (ground arith)
              | inr (p, hp) ↦ elim (Option-cases s.service_lock) [
                | inl missing ↦ absurd (ground arith)
                | inr (l, hl) ↦ elim (Option-cases s.accelerator_lock) [
                  | inl missing ↦ absurd (ground arith)
                  | inr (k, hk) ↦ (ground arith, ground arith, ground arith, ground arith)
                ]
              ]
            ]
          ]
    ]

-- The arguments of a command.
abbrev model_args : Option String → List String
model_args none = []
model_args (some id) = "--model" ∷ id ∷ []

abbrev pub to_args : Cli → List String
to_args (serve id) = "serve" ∷ "--model" ∷ id ∷ []
to_args (prepare id) = "prepare" ∷ model_args id
to_args (broker m e l a) =
    "broker" ∷ "--accelerator-lock" ∷ a ∷ "--lock" ∷ l ∷ "--endpoint" ∷ e ∷ "--model" ∷ m ∷ []
to_args version = "--version" ∷ []

-- Every value of a command that is written out is one that the command line can carry.
abbrev pub HasValues : Cli → Type 0
HasValues (serve id) = str_eq id "" ≡ false
HasValues (prepare none) = Unit
HasValues (prepare (some id)) = str_eq id "" ≡ false
HasValues (broker m e l a) =
    (str_eq m "" ≡ false) × (str_eq e "" ≡ false) × (str_eq l "" ≡ false) × (str_eq a "" ≡ false)
HasValues version = Unit

parse_flags_step :
    (flag value : String) (rest : List String) (s t : Slots)
    → str_eq value "" ≡ false
    → fill flag value s ≡ ok t
    → parse_flags (flag ∷ value ∷ rest) s ≡ parse_flags rest t
unfolding parse_flags
parse_flags_step flag value rest s t full h = ground arith

parse_broker_of :
    (args : List String) (m e l a : String)
    → parse_flags args no_slots
      ≡ ok (record {
        model = some m;
        endpoint = some e;
        service_lock = some l;
        accelerator_lock = some a;
      })
    → parse_broker args ≡ ok (broker m e l a)
unfolding parse_broker
parse_broker_of args m e l a h = rw h refl

-- Every command whose values are not empty can be given: the arguments written out for it are read
-- back as that command.
pub parse-to_args : (c : Cli) → HasValues c → parse (to_args c) ≡ ok c
unfolding parse parse_model parse_broker parse_flags fill replace
parse-to_args (serve id) h = rw h refl
parse-to_args (prepare none) h = refl
parse-to_args (prepare (some id)) h = rw h refl
parse-to_args (broker m e l a) (hm, he, hl, ha) =
    let r3 = "--model" ∷ m ∷ [] in
    let r2 = "--endpoint" ∷ e ∷ r3 in
    let r1 = "--lock" ∷ l ∷ r2 in
    let s1 : Slots = record no_slots { accelerator_lock = some a } in
    let s2 : Slots = record s1 { service_lock = some l } in
    let s3 : Slots = record s2 { endpoint = some e } in
    let s4 : Slots = record s3 { model = some m } in
    parse_broker_of ("--accelerator-lock" ∷ a ∷ r1) m e l a (
      parse_flags_step "--accelerator-lock" a r1 no_slots s1 ha refl
      ∙ parse_flags_step "--lock" l r2 s1 s2 hl refl
      ∙ parse_flags_step "--endpoint" e r3 s2 s3 he refl
      ∙ parse_flags_step "--model" m [] s3 s4 hm refl)
parse-to_args version h = refl
