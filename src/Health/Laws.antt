-- ===== src/Health/Laws.antt =====
-- The health result that a broker sends: the model's facts, with those of the broker put in.
use text.Mathlib.TextEquality.{eq_iff}
use julie_semantic_sidecar.Prelude.{
  String, str_eq, ◌≡◌, ◌≢◌, refl, inl, inr, Bool, true, false, Bool-cases, sym, ◌∙◌, Option-cases,
  Option, none, some, arith,
}
use julie_semantic_sidecar.Json.{
  Value, bool, string, object, Fields, Serde, get, insert, get-insert, null, number, array, field,
  end,
}
use julie_semantic_sidecar.Health.{
  EngineFacts, ModelState, ready, not_prepared, Limits, resolve_degraded_reason, build_fields,
  build, opt_string, mirror_reason, apply_reason, apply_broker_runtime_facts, dims_of, pin_of,
}

-- The reason that is shown: the broker's before the model's.
abbrev pub shown_reason : Option String → ModelState → EngineFacts → Option String
shown_reason (some reason) model engine = some reason
shown_reason none model engine = resolve_degraded_reason model engine

abbrev pub is_prepared : ModelState → Bool
is_prepared (ready pin dims) = true
is_prepared (not_prepared pin) = false

-- An engine that is not degraded serves a prepared model on the backend that was asked for.
pub resolve_degraded_reason-none :
    (model : ModelState) (engine : EngineFacts)
    → resolve_degraded_reason model engine ≡ none
    → (engine.degraded_reason ≡ none)
      × (engine.requested_backend ≡ engine.resolved_backend)
      × (dims_of model ≢ none)
unfolding resolve_degraded_reason dims_of
resolve_degraded_reason-none (not_prepared pin) engine e = absurd (ground arith)
resolve_degraded_reason-none (ready pin dims) engine e =
    elim (Option-cases engine.degraded_reason) [
      | inr (x, h) ↦ absurd (ground arith)
      | inl h ↦ elim (Bool-cases (str_eq engine.requested_backend engine.resolved_backend)) [
        | inr other ↦ absurd (ground arith)
        | inl same ↦ (
          h,
          (eq_iff engine.requested_backend engine.resolved_backend).0 same,
          λ k. absurd (ground arith),
        )
      ]
    ]

module _ {N : Type 0} where
  get-insert_other :
      (j k : String) (v : Value N) (fs : Fields N) → k ≢ j → get k (insert j v fs) ≡ get k fs
  get-insert_other j k v fs h = elim (Bool-cases (str_eq j k)) [
    | inl same ↦ absurd (h (sym ((eq_iff j k).0 same)))
    | inr differ ↦ get-insert j k v fs ∙ rw differ refl
  ]

module _ {F N : Type 0} (serde : Serde F N) where
  -- The policy of the model's own health.
  abbrev pub policy_of : ModelState → EngineFacts → Fields N
  policy_of model engine = field "requested_device_backend" (string engine.requested_backend) (
      field "resolved_device_backend" (string engine.resolved_backend) (
        field "accelerated" (bool engine.accelerated)
          (field "degraded_reason" (opt_string serde (resolve_degraded_reason model engine)) end)))

  -- What a broker's health says, against the model's own: under every other key what that says.
  pub record IsBrokerHealth (model : ModelState) (engine : EngineFacts) (limits : Limits)
      (version : String) (held : Bool) (reason : Option String) (v : Value N) : Type 0 where
    pub result : Fields N
    pub policy : Fields N
    pub kept :
        (k : String)
        → k ≢ "accelerator_lease_held"
        → k ≢ "degraded_reason"
        → k ≢ "load_policy"
        → get k result ≡ get k (build_fields serde model engine limits version)
    pub kept_policy :
        (k : String) → k ≢ "degraded_reason" → get k policy ≡ get k (policy_of model engine)
    pub model_id : get "model_id" result ≡ some (string (pin_of model).id)
    pub is_ready : get "ready" result ≡ some (bool (is_prepared model))
    pub accelerated : get "accelerated" result ≡ some (bool engine.accelerated)
    pub an_object : v ≡ object result
    pub a_policy : get "load_policy" result ≡ some (object policy)
    pub lease : get "accelerator_lease_held" result ≡ some (bool held)
    pub shown :
        get "degraded_reason" result ≡ some (opt_string serde (shown_reason reason model engine))
    pub mirrored : get "degraded_reason" policy ≡ get "degraded_reason" result
    pub device : get "resolved_backend" result ≡ some (string engine.resolved_backend)
    pub same_device : get "resolved_device_backend" policy ≡ get "resolved_backend" result

  -- Whatever a value is under a key, the mirror changes one key alone.
  get-mirror_reason :
      (reason : String) (o : Option (Value N)) (fs : Fields N) (k : String)
      → k ≢ "load_policy"
      → get k (mirror_reason reason o fs) ≡ get k fs
  unfolding mirror_reason
  get-mirror_reason reason (some (object policy)) fs k h =
      get-insert_other "load_policy" k (object (insert "degraded_reason" (string reason) policy)) fs
        h
  get-mirror_reason reason none fs k h = refl
  get-mirror_reason reason (some null) fs k h = refl
  get-mirror_reason reason (some (bool b)) fs k h = refl
  get-mirror_reason reason (some (number n)) fs k h = refl
  get-mirror_reason reason (some (string s)) fs k h = refl
  get-mirror_reason reason (some (array vs)) fs k h = refl

  get-apply_reason :
      (reason : Option String) (fs : Fields N) (k : String)
      → k ≢ "degraded_reason"
      → k ≢ "load_policy"
      → get k (apply_reason reason fs) ≡ get k fs
  unfolding apply_reason
  get-apply_reason none fs k h g = refl
  get-apply_reason (some reason) fs k h g =
      get-mirror_reason reason (get "load_policy" (insert "degraded_reason" (string reason) fs))
        (insert "degraded_reason" (string reason) fs) k g
      ∙ get-insert_other "degraded_reason" k (string reason) fs h

  -- Only three keys of the health are the broker's to change.
  get-broker :
      (reason : Option String) (held : Bool) (fs : Fields N) (k : String)
      → k ≢ "accelerator_lease_held"
      → k ≢ "degraded_reason"
      → k ≢ "load_policy"
      → get k (apply_reason reason (insert "accelerator_lease_held" (bool held) fs)) ≡ get k fs
  get-broker reason held fs k l h g =
      get-apply_reason reason (insert "accelerator_lease_held" (bool held) fs) k h g
      ∙ get-insert_other "accelerator_lease_held" k (bool held) fs l

  -- The health of a broker is the model's with the lease put in, and says under every key but that,
  -- the reason and the policy what the model's says, and so in the policy but for the reason there. It
  -- shows one reason for a degradation, in two places: the broker's own if there is one, else that of
  -- the model and the engine. The model, whether it is ready, and whether it is accelerated are those
  -- of the model and of the engine; the backend that is reported is the engine's, in two places.
  pub apply_broker_runtime_facts-build :
      (model : ModelState) (engine : EngineFacts) (limits : Limits) (version : String) (held : Bool)
      (reason : Option String)
      → IsBrokerHealth model engine limits version held reason
          (apply_broker_runtime_facts (build serde model engine limits version) held reason)
  unfolding build build_fields apply_broker_runtime_facts apply_reason mirror_reason insert get
      dims_of pin_of resolve_degraded_reason
  apply_broker_runtime_facts-build (ready pin dims) engine limits version held none = record {
    result = _;
    policy = _;
    kept = get-broker none held (build_fields serde (ready pin dims) engine limits version);
    kept_policy = λ k h. refl;
    model_id = refl;
    is_ready = refl;
    accelerated = refl;
    an_object = refl;
    a_policy = refl;
    lease = refl;
    shown = refl;
    mirrored = refl;
    device = refl;
    same_device = refl;
  }
  apply_broker_runtime_facts-build (ready pin dims) engine limits version held (some reason) =
      record {
        result = _;
        policy = _;
        kept =
            get-broker (some reason) held
              (build_fields serde (ready pin dims) engine limits version);
        kept_policy = λ k h.
            get-insert_other "degraded_reason" k (string reason) (policy_of (ready pin dims) engine)
              h;
        model_id = refl;
        is_ready = refl;
        accelerated = refl;
        an_object = refl;
        a_policy = refl;
        lease = refl;
        shown = refl;
        mirrored = refl;
        device = refl;
        same_device = refl;
      }
  apply_broker_runtime_facts-build (not_prepared pin) engine limits version held none = record {
    result = _;
    policy = _;
    kept = get-broker none held (build_fields serde (not_prepared pin) engine limits version);
    kept_policy = λ k h. refl;
    model_id = refl;
    is_ready = refl;
    accelerated = refl;
    an_object = refl;
    a_policy = refl;
    lease = refl;
    shown = refl;
    mirrored = refl;
    device = refl;
    same_device = refl;
  }
  apply_broker_runtime_facts-build (not_prepared pin) engine limits version held (some reason) =
      record {
        result = _;
        policy = _;
        kept =
            get-broker (some reason) held
              (build_fields serde (not_prepared pin) engine limits version);
        kept_policy = λ k h.
            get-insert_other "degraded_reason" k (string reason)
              (policy_of (not_prepared pin) engine) h;
        model_id = refl;
        is_ready = refl;
        accelerated = refl;
        an_object = refl;
        a_policy = refl;
        lease = refl;
        shown = refl;
        mirrored = refl;
        device = refl;
        same_device = refl;
      }
