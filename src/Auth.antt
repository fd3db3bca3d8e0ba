-- ===== src/Auth.antt =====
-- internal/auth: API keys (key.go) and the authenticator with its cache (authenticator.go). `hash` is
-- SHA-256 of a key, `lookup` what the query finds for a hash; `text62` is the base-62 number of 32 random
-- bytes, from math/big.
pub mod Fresh
pub mod Keys
use sms_gateway.Common.{
  ℕ, ◌+◌, ◌-◌, ◌≤◌, Bool, true, false, ◌&&◌, ◌||◌, not, Option, none, some, List, [], ◌∷◌, ◌++◌,
  keep, ltb, leb, length, ◌==◌, zero, suc, if◌then◌else◌,
}
use sms_gateway.Common.Text.{Text, codes, text_eq}

abbrev pub key_prefix : Text
key_prefix = codes "sk_"

abbrev pub key_body_length : ℕ
key_body_length = 43

-- strings.Repeat("0", n)
abbrev pub zeros : ℕ → Text
zeros zero = []
zeros (suc n) = 48 ∷ zeros n

-- `GenerateKey`
unfoldable pub generate_key : Text → Text
generate_key text62 = key_prefix ++ (zeros (key_body_length - length text62) ++ text62)

-- [0-9A-Za-z]
abbrev pub alphanumeric : ℕ → Bool
alphanumeric c = (leb 48 c && leb c 57) || ((leb 65 c && leb c 90) || (leb 97 c && leb c 122))

unfoldable pub all_alphanumeric : Text → Bool
all_alphanumeric [] = true
all_alphanumeric (c ∷ s) = alphanumeric c && all_alphanumeric s

-- What follows a prefix of the text.
abbrev pub after_prefix : Text → Text → Option Text
after_prefix [] s = some s
after_prefix (c ∷ p) [] = none
after_prefix (c ∷ p) (d ∷ s) = if d == c then after_prefix p s else none

abbrev pub valid_body : Option Text → Bool
valid_body none = false
valid_body (some s) = length s == key_body_length && all_alphanumeric s

-- `ValidKeyFormat`: ^sk_[0-9A-Za-z]{43}$
unfoldable pub valid_key_format : Text → Bool
valid_key_format key = valid_body (after_prefix key_prefix key)

-- `Customer` of this package
pub record Identity : Type 0 where
  pub id : ℕ
  pub name : Text
  pub rate_limit_rps : ℕ

pub record CacheEntry : Type 0 where
  pub customer : Identity
  pub expires : ℕ

pub record Authenticator : Type 0 where
  pub ttl : ℕ
  pub entries : List (Text × CacheEntry)
  pub last_purge : ℕ

-- `NewAuthenticator`; the zero time of lastPurge is 0.
abbrev pub new_authenticator : ℕ → Authenticator
new_authenticator ttl = record { ttl = ttl; entries = []; last_purge = 0 }

unfoldable pub cached : Text → List (Text × CacheEntry) → Option CacheEntry
cached h [] = none
cached h ((k, e) ∷ rest) = if text_eq k h then some e else cached h rest

-- entries[hash] = e
unfoldable pub store_entry : Text → CacheEntry → List (Text × CacheEntry) → List (Text × CacheEntry)
store_entry h e entries = (h, e) ∷ keep (λ p. not (text_eq p.0 h)) entries

-- `purgeExpiredLocked`
unfoldable pub purge_expired : ℕ → Authenticator → Authenticator
purge_expired now a =
    if ltb now (a.last_purge + a.ttl)
    then a
    else record a { entries = keep (λ p. ltb now p.1.expires) a.entries; last_purge = now }

-- The result of a call; a database error is no result and changes nothing.
abbrev pub from_database :
    ℕ → Text → Option Identity → Authenticator → Option Identity × Authenticator
from_database now h none a = (none, a)
from_database now h (some c) a =
    let a' = purge_expired now a in
    (
      some c,
      record a' {
        entries = store_entry h (record { customer = c; expires = now + a.ttl }) a'.entries;
      },
    )

abbrev pub from_cache :
    ℕ → Text → Option Identity → Option CacheEntry → Authenticator → Option Identity × Authenticator
from_cache now h found none a = from_database now h found a
from_cache now h found (some e) a =
    if ltb now e.expires then (some e.customer, a) else from_database now h found a

-- `Authenticate`; `none` is ErrUnauthorized.
unfoldable pub authenticate :
    (Text → Text)
    → (Text → Option Identity)
    → ℕ
    → Text
    → Authenticator
    → Option Identity × Authenticator
unfolding cached store_entry purge_expired
authenticate hash lookup now key a =
    if not (valid_key_format key)
    then (none, a)
    else from_cache now (hash key) (lookup (hash key)) (cached (hash key) a.entries) a
