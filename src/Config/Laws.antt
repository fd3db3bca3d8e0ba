-- ===== src/Config/Laws.antt =====
-- What the rest of the program may rely on in a configuration that was accepted.
use native.Mathlib.Decide.{dec_lt}
use sms_gateway.Common.{
  ℕ, ◌*◌, ◌≤◌, ◌<◌, ◌≡◌, refl, ◌⊎◌, ◌%◌, max, Bool, true, false, ◌&&◌, Option, none, some, List, [],
  ◌∷◌, ◌++◌, any, leb, ltb, arith, Bool-cases, inl, inr,
}
use sms_gateway.Common.Int.{ℤ, pos, negsuc}
use sms_gateway.Common.Text.{Text, codes, text_eq}
use sms_gateway.Config.{
  Env, value, int_within, parsed_int, int_of, int, positive_duration, parsed_duration, duration_of,
  duration, check, required,
}
use sms_gateway.Config.Gateway.{
  Provider, GatewayConfig, valid_name, cut, entry, covers_thrice, names_with, listed, entries,
  entries_of, parse_providers, read_api, read_dispatch, read_class, validate_gateway, load_gateway,
}

int_bounds :
    (env : Env) (key : Text) (def lo hi : ℕ)
    → (lo ≤ def) × (def ≤ hi)
    → (lo ≤ (int env key def lo hi).got) × ((int env key def lo hi).got ≤ hi)
unfolding int
int_bounds env key def lo hi h = at (value env key)
  where
    within :
        (n : ℤ) → (lo ≤ (int_within key def lo hi n).got) × ((int_within key def lo hi n).got ≤ hi)
    within (negsuc n) = h
    within (pos n) = elim (Bool-cases (leb lo n && leb n hi)) [
      | inl e ↦ rw e (ground (arith, e), ground (arith, e))
      | inr e ↦ rw e h
    ]

    parsed :
        (o : Option ℤ)
        → (lo ≤ (parsed_int key def lo hi o).got) × ((parsed_int key def lo hi o).got ≤ hi)
    parsed none = h
    parsed (some n) = within n

    at :
        (o : Option Text)
        → (lo ≤ (int_of env key def lo hi o).got) × ((int_of env key def lo hi o).got ≤ hi)
    at none = h
    at (some v) = parsed (env.atoi v)

duration_positive : (env : Env) (key : Text) (def : ℕ) → 0 < def → 0 < (duration env key def).got
unfolding duration
duration_positive env key def h = at (value env key)
  where
    within : (n : ℤ) → 0 < (positive_duration key def n).got
    within (negsuc n) = h
    within (pos n) = elim (Bool-cases (ltb 0 n)) [
      | inl e ↦ rw e (ground (arith, e))
      | inr e ↦ rw e h
    ]

    parsed : (o : Option ℤ) → 0 < (parsed_duration key def o).got
    parsed none = h
    parsed (some n) = within n

    at : (o : Option Text) → 0 < (duration_of env key def o).got
    at none = h
    at (some v) = parsed (env.parse_duration v)

both_empty : {A : Type 0} (a b : List A) → a ++ b ≡ [] → (a ≡ []) × (b ≡ [])
both_empty [] b h = (refl, h)
both_empty (x ∷ a) b h = cc

check-true : (b : Bool) (key : Text) → check b key ≡ [] → b ≡ true
check-true true key h = refl
check-true false key h = cc

-- No two providers share a name, and none has one of those seen.
abbrev Named : List Text → List Provider → Type 0
Named seen [] = Unit
Named seen (p ∷ ps) =
    (valid_name p.name ≡ true)
    × (any (λ n. text_eq n p.name) seen ≡ false)
    × Named (p.name ∷ seen) ps

entries-Named :
    (env : Env) (valid_url : Text → Bool) (trim_slash : Text → Text) (key : Text)
    (seen es : List Text)
    → Named seen (entries env valid_url trim_slash key seen es).got
unfolding entries
entries-Named env valid_url trim_slash key seen [] = tt
entries-Named env valid_url trim_slash key seen (e ∷ es) =
    go (cut (env.trim e)) (λ seen'. entries-Named env valid_url trim_slash key seen' es)
  where
    go :
        (o : Option (Text × Text))
        → ((seen' : List Text) → Named seen' (entries env valid_url trim_slash key seen' es).got)
        → Named seen (
            listed env valid_url trim_slash
              (entry env valid_url trim_slash key seen o).got
              (entries env valid_url trim_slash key
                (names_with env valid_url trim_slash
                  (entry env valid_url trim_slash key seen o).got
                  seen)
                es).got)
    go none k = k seen
    go (some (name, url)) k = elim (Bool-cases (valid_name name)) [
      | inr a ↦ rw a (k seen)
      | inl a ↦ elim (Bool-cases (any (λ n. text_eq n name) seen)) [
        | inl b ↦ rw (a, b) (k seen)
        | inr b ↦ elim (Bool-cases (valid_url url)) [
          | inl c ↦ rw (a, b, c) (a, b, k (name ∷ seen))
          | inr c ↦ rw (a, b, c) (k seen)
        ]
      ]
    ]

parse_providers-Named :
    (env : Env) (valid_url : Text → Bool) (trim_slash : Text → Text) (key : Text)
    → Named [] (parse_providers env valid_url trim_slash key).got
unfolding parse_providers
parse_providers-Named env valid_url trim_slash key = go (required env key).got
  where
    go : (s : Text) → Named [] (entries_of env valid_url trim_slash key s).got
    go [] = tt
    go (c ∷ s) = entries-Named env valid_url trim_slash key [] _

-- The lease covers three times the timeouts, or three times a timeout is past the largest int64.
abbrev pub Leased : GatewayConfig → Type 0
Leased c =
    (3 * c.normal.timeout ≤ c.dispatch.lease_duration)
      × (3 * c.express.timeout ≤ c.dispatch.lease_duration)
    ⊎ (9223372036854775808 ≤ 3 * max c.normal.timeout c.express.timeout)

-- The limits that the other parts of the gateway rely on.
pub record Sound (c : GatewayConfig) : Type 0 where
  pub instances : 1 ≤ c.api.instances
  pub price_normal : 1 ≤ c.api.price_normal
  pub price_express : 1 ≤ c.api.price_express
  pub max_segments : (1 ≤ c.api.max_segments) × (c.api.max_segments ≤ 10)
  pub normal_lanes : 1 ≤ c.dispatch.normal_lanes
  pub completer_batch : 1 ≤ c.dispatch.completer_batch_size
  pub failure_threshold : 1 ≤ c.dispatch.circuit_failure_threshold
  pub lease : Leased c
  pub normal_backoff : (0 < c.normal.backoff_base) × (c.normal.backoff_base ≤ c.normal.backoff_max)
  pub express_backoff :
      (0 < c.express.backoff_base) × (c.express.backoff_base ≤ c.express.backoff_max)
  pub in_sla : c.express.timeout ≤ c.express_sla
  pub providers : Named [] c.providers

leased :
    (env : Env) (valid_url : Text → Bool) (trim_slash : Text → Text) (lease a b : ℕ)
    → covers_thrice env valid_url trim_slash lease (max a b) ≡ true
    → (3 * a ≤ lease) × (3 * b ≤ lease) ⊎ (9223372036854775808 ≤ 3 * max a b)
leased env valid_url trim_slash lease a b h = elim (dec_lt (3 * max a b) 9223372036854775808) [
  | yes small ↦
      let whole : (3 * max a b) % 18446744073709551616 ≡ 3 * max a b = omega arith in
      let fits : 3 * max a b ≤ lease = ground (arith, whole, h) in
      inl (omega (arith, fits), omega (arith, fits))
  | no large ↦ inr (omega (arith, large))
]

-- What the checks of several variables say.
abbrev Related : GatewayConfig → Type 0
Related c =
    Leased c
    × (c.normal.backoff_base ≤ c.normal.backoff_max)
    × (c.express.backoff_base ≤ c.express.backoff_max)
    × (c.express.timeout ≤ c.express_sla)

-- What the relations between variables amount to.
validated :
    (env : Env) (valid_url : Text → Bool) (trim_slash : Text → Text) (c : GatewayConfig)
    → validate_gateway env valid_url trim_slash c ≡ []
    → Related c
unfolding validate_gateway
validated env valid_url trim_slash c h =
    let a = both_empty _ _ h in
    let b = both_empty _ _ a.0 in
    let d = both_empty _ _ b.0 in
    (
      leased env valid_url trim_slash c.dispatch.lease_duration c.normal.timeout c.express.timeout
          (check-true _ _ d.0),
      ground (arith, check-true (leb c.normal.backoff_base c.normal.backoff_max) _ d.1),
      ground (arith, check-true (leb c.express.backoff_base c.express.backoff_max) _ b.1),
      ground (arith, check-true (leb c.express.timeout c.express_sla) _ a.1),
    )

loaded-validated :
    (env : Env) (valid_url : Text → Bool) (trim_slash : Text → Text)
    → (load_gateway env valid_url trim_slash).problems ≡ []
    → validate_gateway env valid_url trim_slash (load_gateway env valid_url trim_slash).got ≡ []
unfolding load_gateway
loaded-validated env valid_url trim_slash h = (both_empty _ _ h).1

-- A configuration that is accepted, whatever the variables hold: the numbers of API instances, lanes,
-- outcomes in a batch and counted failures, and the prices, are at least one; a message may take one to ten
-- segments; a lease covers three times each provider
-- timeout, unless three times the longest one is past the largest int64, where the check does not see that it
-- does not; each backoff base is above zero and at
-- most its maximum; the express timeout is within the SLA; and the providers have well-formed names, no two
-- of them the same.
pub load_gateway-Sound :
    (env : Env) (valid_url : Text → Bool) (trim_slash : Text → Text)
    → (load_gateway env valid_url trim_slash).problems ≡ []
    → Sound (load_gateway env valid_url trim_slash).got
unfolding load_gateway read_api read_dispatch read_class
load_gateway-Sound env valid_url trim_slash h =
    let v : Related (load_gateway env valid_url trim_slash).got =
      validated env valid_url trim_slash (load_gateway env valid_url trim_slash).got
        (loaded-validated env valid_url trim_slash h) in
    record {
      instances = (int_bounds env (codes "API_INSTANCES") 1 1 10000 (omega arith)).0;
      price_normal = (int_bounds env (codes "PRICE_NORMAL") 1 1 1000000 (omega arith)).0;
      price_express = (int_bounds env (codes "PRICE_EXPRESS") 3 1 1000000 (omega arith)).0;
      max_segments = int_bounds env (codes "MAX_SEGMENTS") 10 1 10 (omega arith);
      normal_lanes = (int_bounds env (codes "NORMAL_LANES") 16 1 1024 (omega arith)).0;
      completer_batch = (int_bounds env (codes "COMPLETER_BATCH_SIZE") 200 1 10000 (omega arith)).0;
      failure_threshold =
          (int_bounds env (codes "CIRCUIT_FAILURE_THRESHOLD") 20 1 100000 (omega arith)).0;
      lease = v.0;
      normal_backoff = (duration_positive env _ _ (omega arith), v.1);
      express_backoff = (duration_positive env _ _ (omega arith), v.2);
      in_sla = v.3;
      providers = parse_providers-Named env valid_url trim_slash (codes "PROVIDERS");
    }
