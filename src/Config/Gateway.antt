-- ===== src/Config/Gateway.antt =====
-- internal/config/gateway.go: the configuration of the gateway. The addresses, the log level and the ratio
-- of the budget that is reserved for express messages, a float64, are left out. `valid_url` says whether
-- url.Parse yields an absolute http or https URL; `trim_slash` is strings.TrimSuffix of "/".
use sms_gateway.Common.{
  ℕ, ◌*◌, ◌%◌, max, Bool, true, ◌&&◌, ◌||◌, not, Option, none, some, List, [], ◌∷◌, ◌++◌, any, leb,
  length, ◌==◌, if◌then◌else◌,
}
use sms_gateway.Common.Text.{Text, codes, text_eq}
use sms_gateway.Config.{Env, Read, fine, fails, required, int, duration, check}

pub record Provider : Type 0 where
  pub name : Text
  pub url : Text

pub record Api : Type 0 where
  pub instances : ℕ
  pub default_rate_limit_rps : ℕ
  pub key_cache_ttl : ℕ
  pub price_normal : ℕ
  pub price_express : ℕ
  pub max_segments : ℕ

pub record Dispatch : Type 0 where
  pub normal_lanes : ℕ
  pub claim_batch_size : ℕ
  pub lease_duration : ℕ
  pub completer_batch_size : ℕ
  pub circuit_failure_threshold : ℕ
  pub circuit_open_duration : ℕ
  pub dlr_batch_size : ℕ

pub record ClassPolicy : Type 0 where
  pub max_attempts : ℕ
  pub backoff_base : ℕ
  pub backoff_max : ℕ
  pub ttl : ℕ
  pub timeout : ℕ

pub record GatewayConfig : Type 0 where
  pub api : Api
  pub dispatch : Dispatch
  pub normal : ClassPolicy
  pub express : ClassPolicy
  pub express_sla : ℕ
  pub providers : List Provider

-- strings.Split at a comma: the first part and the others.
unfoldable pub split_from : Text → Text → List Text
split_from part [] = part ∷ []
split_from part (c ∷ s) =
    let ended = split_from [] s in
    let longer = split_from (part ++ c ∷ []) s in if c == 44 then part ∷ ended else longer

abbrev pub cons_first : ℕ → Option (Text × Text) → Option (Text × Text)
cons_first c none = none
cons_first c (some (a, b)) = some (c ∷ a, b)

-- strings.Cut at an equals sign
unfoldable pub cut : Text → Option (Text × Text)
cut [] = none
cut (c ∷ s) = let rest = cut s in if c == 61 then some ([], s) else cons_first c rest

-- [A-Za-z0-9_-]
abbrev pub name_char : ℕ → Bool
name_char c =
    (leb 65 c && leb c 90)
    || ((leb 97 c && leb c 122) || ((leb 48 c && leb c 57) || (c == 95 || c == 45)))

unfoldable pub all_name_chars : Text → Bool
all_name_chars [] = true
all_name_chars (c ∷ s) = name_char c && all_name_chars s

-- ^[A-Za-z0-9_-]{1,32}$
unfoldable pub valid_name : Text → Bool
valid_name s = all_name_chars s && (leb 1 (length s) && leb (length s) 32)

module _ (env : Env) (valid_url : Text → Bool) (trim_slash : Text → Text) where
  -- One entry of the list, where `seen` has the names before it.
  abbrev pub entry : Text → List Text → Option (Text × Text) → Read (Option Provider)
  entry key seen none = fails key none
  entry key seen (some (name, url)) =
      if not (valid_name name)
      then fails key none
      else if any (λ n. text_eq n name) seen
      then fails key none
      else if not (valid_url url)
      then fails key none
      else fine (some (record { name = name; url = trim_slash url }))

  abbrev pub names_with : Option Provider → List Text → List Text
  names_with none seen = seen
  names_with (some p) seen = p.name ∷ seen

  abbrev pub listed : Option Provider → List Provider → List Provider
  listed none ps = ps
  listed (some p) ps = p ∷ ps

  unfoldable pub entries : Text → List Text → List Text → Read (List Provider)
  unfolding cut
  entries key seen [] = fine []
  entries key seen (e ∷ es) =
      let one = entry key seen (cut (env.trim e)) in
      let rest = entries key (names_with one.got seen) es in
      record { got = listed one.got rest.got; problems = one.problems ++ rest.problems }

  abbrev pub entries_of : Text → Text → Read (List Provider)
  entries_of key [] = fine []
  entries_of key (c ∷ s) = entries key [] (split_from [] (c ∷ s))

  -- `parseProviders`
  unfoldable pub parse_providers : Text → Read (List Provider)
  unfolding entries split_from
  parse_providers key =
      let raw = required env key in
      let ps = entries_of key raw.got in
      record { got = ps.got; problems = raw.problems ++ ps.problems }

  abbrev pub second : ℕ
  second = 1000000000

  unfoldable pub read_api : Read Api
  read_api =
      let a = int env (codes "API_INSTANCES") 1 1 10000 in
      let b = int env (codes "DEFAULT_RATE_LIMIT_RPS") 100 1 100000 in
      let c = duration env (codes "KEY_CACHE_TTL") (30 * second) in
      let d = int env (codes "PRICE_NORMAL") 1 1 1000000 in
      let e = int env (codes "PRICE_EXPRESS") 3 1 1000000 in
      let f = int env (codes "MAX_SEGMENTS") 10 1 10 in
      record {
        got = record {
          instances = a.got;
          default_rate_limit_rps = b.got;
          key_cache_ttl = c.got;
          price_normal = d.got;
          price_express = e.got;
          max_segments = f.got;
        };
        problems = a.problems ++ b.problems ++ c.problems ++ d.problems ++ e.problems ++ f.problems;
      }

  unfoldable pub read_dispatch : Read Dispatch
  read_dispatch =
      let t = int env (codes "CIRCUIT_FAILURE_THRESHOLD") 20 1 100000 in
      let o = duration env (codes "CIRCUIT_OPEN_DURATION") (10 * second) in
      let a = int env (codes "NORMAL_LANES") 16 1 1024 in
      let b = int env (codes "CLAIM_BATCH_SIZE") 200 1 10000 in
      let c = duration env (codes "LEASE_DURATION") (30 * second) in
      let d = int env (codes "COMPLETER_BATCH_SIZE") 200 1 10000 in
      let e = int env (codes "DLR_BATCH_SIZE") 500 1 10000 in
      record {
        got = record {
          normal_lanes = a.got;
          claim_batch_size = b.got;
          lease_duration = c.got;
          completer_batch_size = d.got;
          circuit_failure_threshold = t.got;
          circuit_open_duration = o.got;
          dlr_batch_size = e.got;
        };
        problems =
            t.problems ++ o.problems ++ a.problems ++ b.problems ++ c.problems ++ d.problems
            ++ e.problems;
      }

  -- The settings of one class, whose variables begin with `prefix`.
  unfoldable pub read_class : Text → ℕ → ℕ → ℕ → ℕ → ℕ → Read ClassPolicy
  read_class prefix attempts base top ttl timeout =
      let a = int env (prefix ++ codes "_MAX_ATTEMPTS") attempts 1 100 in
      let b = duration env (prefix ++ codes "_BACKOFF_BASE") base in
      let c = duration env (prefix ++ codes "_BACKOFF_MAX") top in
      let d = duration env (prefix ++ codes "_TTL") ttl in
      let e = duration env (prefix ++ codes "_TIMEOUT") timeout in
      record {
        got = record {
          max_attempts = a.got;
          backoff_base = b.got;
          backoff_max = c.got;
          ttl = d.got;
          timeout = e.got;
        };
        problems = a.problems ++ b.problems ++ c.problems ++ d.problems ++ e.problems;
      }

  -- lease >= 3 * timeout, where the product is an int64: it wraps around, and may be negative.
  abbrev pub covers_thrice : ℕ → ℕ → Bool
  covers_thrice lease timeout =
      let product = (3 * timeout) % 18446744073709551616 in
      leb 9223372036854775808 product || leb product lease

  -- `validateGateway`
  unfoldable pub validate_gateway : GatewayConfig → List Text
  validate_gateway c =
      check (covers_thrice c.dispatch.lease_duration (max c.normal.timeout c.express.timeout))
        (codes "LEASE_DURATION")
      ++ check (leb c.normal.backoff_base c.normal.backoff_max) (codes "NORMAL_BACKOFF_BASE")
      ++ check (leb c.express.backoff_base c.express.backoff_max) (codes "EXPRESS_BACKOFF_BASE")
      ++ check (leb c.express.timeout c.express_sla) (codes "EXPRESS_TIMEOUT")

  -- `LoadGateway`: the configuration, and the problems, of which there are none if it is accepted.
  unfoldable pub load_gateway : Read GatewayConfig
  unfolding read_api read_dispatch read_class parse_providers validate_gateway
  load_gateway =
      let api = read_api in
      let ps = parse_providers (codes "PROVIDERS") in
      let dispatch = read_dispatch in
      let normal =
        read_class (codes "NORMAL") 8 (5 * second) (600 * second) (86400 * second) (5 * second) in
      let express =
        read_class (codes "EXPRESS") 5 (1 * second) (10 * second) (300 * second) (2 * second) in
      let sla = duration env (codes "EXPRESS_SLA") (30 * second) in
      let c : GatewayConfig = record {
        api = api.got;
        dispatch = dispatch.got;
        normal = normal.got;
        express = express.got;
        express_sla = sla.got;
        providers = ps.got;
      } in
      record {
        got = c;
        problems =
            api.problems
            ++ ps.problems
            ++ dispatch.problems
            ++ normal.problems
            ++ express.problems
            ++ sla.problems
            ++ validate_gateway c;
      }
