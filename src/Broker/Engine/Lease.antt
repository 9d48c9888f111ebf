-- ===== src/Broker/Engine/Lease.antt =====
-- The lease and the engine, through the requests of a broker.
use julie_semantic_sidecar.Prelude.{
  ◌≡◌, refl, sym, ◌∙◌, inl, inr, String, Bool, true, false, ◌&&◌, Bool-cases, Option-cases,
  Result-cases, List, [], ◌∷◌, none, some, Result, ok, err, arith,
}
use julie_semantic_sidecar.EngineTrait.{Role, EmbedOutput, EngineError, EmbedEngine}
use julie_semantic_sidecar.Health.{accelerator_resource_exhausted}
use julie_semantic_sidecar.Broker.Engine.{
  BackendPolicy, auto, cpu_only, BrokerEngineState, load_with, policy_error, is_exhausted, is_some,
  take_over, demote, embed, serve,
}

module _ {F N E L : Type 0} (engine : EmbedEngine F N E)
    (load : BackendPolicy → L → Result E EngineError × L)
    (steady : (e : E) (texts : List String) (role : Role)
      → engine.is_accelerated (engine.embed e texts role).1 ≡ engine.is_accelerated e) where
  -- There is an engine or a terminal failure, and the lease is held exactly while the engine that
  -- answers runs on an accelerator.
  pub data IsSound (s : BrokerEngineState E L) : Type 0 where
    live :
        (e : E)
        → s.inner ≡ some e
        → s.terminal_failure ≡ none
        → s.accelerator_lease ≡ engine.is_accelerated e
        → IsSound s
    dead :
        (e : EngineError)
        → s.inner ≡ none
        → s.terminal_failure ≡ some e
        → s.accelerator_lease ≡ false
        → IsSound s

  -- A broker that starts is sound; one that may not use the accelerator never does.
  pub load_with-IsSound :
      (lease : Bool) (loader : L) (s : BrokerEngineState E L)
      → load_with engine load lease loader ≡ ok s
      → IsSound s
  unfolding load_with
  load_with-IsSound true loader s h = elim (Result-cases (load auto loader).0) [
    | inr (x, e) ↦ absurd (ground arith)
    | inl (i, e) ↦ live i (ground arith) (ground arith) (ground arith)
  ]
  load_with-IsSound false loader s h = elim (Result-cases (load cpu_only loader).0) [
    | inr (x, e) ↦ absurd (ground arith)
    | inl (i, e) ↦ live i (ground arith) (ground arith) (ground arith)
  ]

  take_over-IsSound :
      (s : BrokerEngineState E L) (r : Result E EngineError) (texts : List String) (role : Role)
      → s.inner ≡ none
      → s.terminal_failure ≡ none
      → s.accelerator_lease ≡ false
      → IsSound (take_over engine load s r texts role).1
  unfolding take_over
  take_over-IsSound s (err x) texts role i t l = dead x i refl l
  take_over-IsSound s (ok cpu) texts role i t l = elim (Bool-cases (engine.is_accelerated cpu)) [
    | inl fast ↦ rw (fast, take_over) (dead policy_error i refl l)
    | inr slow ↦
        rw (slow, take_over)
          (live (engine.embed cpu texts role).1 refl t (l ∙ sym slow ∙ sym (steady cpu texts role)))
  ]

  demote-IsSound :
      (s : BrokerEngineState E L) (loader : L) (texts : List String) (role : Role)
      → s.loader ≡ some loader
      → s.terminal_failure ≡ none
      → (answer : Result (EmbedOutput F) EngineError) × (s' : BrokerEngineState E L) × (demote
            engine load s texts role
          ≡ some (answer, s'))
        × IsSound s'
  unfolding demote
  demote-IsSound s loader texts role found t =
      let loaded = load cpu_only loader in
      let dropped = record s {
        inner = none;
        accelerator_lease = false;
        loader = some loaded.1;
        degraded_reason = some accelerator_resource_exhausted;
      } in
      let end = take_over engine load dropped loaded.0 texts role in
      (end.0, end.1, rw (found) refl, take_over-IsSound dropped loaded.0 texts role refl t refl)

  -- A request never meets a state without an engine or a failure, so it gets an answer, and leaves a
  -- sound state.
  pub embed-IsSound :
      (s : BrokerEngineState E L) (texts : List String) (role : Role)
      → IsSound s
      → (answer : Result (EmbedOutput F) EngineError) × (s' : BrokerEngineState E L) × (embed engine
            load s texts role
          ≡ some (answer, s'))
        × IsSound s'
  unfolding embed
  embed-IsSound s texts role (dead e i t l) = (err e, s, ground arith, dead e i t l)
  embed-IsSound s texts role (live e i t l) =
      let first = engine.embed e texts role in
      elim (Bool-cases (
        is_exhausted first.0
        && engine.is_accelerated first.1
        && s.accelerator_lease
        && is_some s.loader)) [
          | inr keep ↦ (
            first.0,
            record s { inner = some first.1 },
            ground arith,
            live first.1 refl t (l ∙ sym (steady e texts role)),
          )
          | inl recover ↦ elim (Option-cases s.loader) [
            | inl lost ↦ absurd (ground arith)
            | inr (loader, found) ↦
                let (answer, s', eq, sound) = demote-IsSound s loader texts role found t in
                (answer, s', ground arith, sound)
          ]
        ]

  serve-IsSound :
      (requests : List (List String × Role)) (s : BrokerEngineState E L)
      → IsSound s
      → (s' : BrokerEngineState E L) × (serve engine load s requests ≡ some s') × IsSound s'
  unfolding serve
  serve-IsSound [] s sound = (s, refl, sound)
  serve-IsSound ((texts, role) ∷ rest) s sound =
      let (answer, s1, eq, sound1) = embed-IsSound s texts role sound in
      let (s2, eq2, sound2) = serve-IsSound rest s1 sound1 in (s2, rw (eq, serve) eq2, sound2)

  -- Where an engine stays on its device while it embeds, a broker that loaded answers every sequence of requests without a panic, and in the state that it
  -- reaches it has an engine or a terminal failure, and holds the accelerator lease exactly while the
  -- engine that answers runs on an accelerator.
  pub broker_never_panics :
      (lease : Bool) (loader : L) (s : BrokerEngineState E L) (requests : List (List String × Role))
      → load_with engine load lease loader ≡ ok s
      → (s' : BrokerEngineState E L) × (serve engine load s requests ≡ some s') × IsSound s'
  broker_never_panics lease loader s requests h =
      serve-IsSound requests s (load_with-IsSound lease loader s h)
