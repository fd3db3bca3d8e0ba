-- ===== src/Config.antt =====
-- internal/config/env.go: reading variables. A reader's problems are known by their variables; their text is
-- left out. `trim` is strings.TrimSpace, `atoi` strconv.Atoi and `parse_duration` time.ParseDuration, in
-- nanoseconds.
pub mod Gateway
pub mod Laws
use sms_gateway.Common.{
  ℕ, Bool, true, false, ◌&&◌, not, Option, none, some, List, [], ◌∷◌, ◌++◌, any, leb, ltb,
  if◌then◌else◌,
}
use sms_gateway.Common.Int.{ℤ, pos, negsuc}
use sms_gateway.Common.Text.{Text, text_eq}

pub record Env : Type 0 where
  pub lookup : Text → Option Text
  pub trim : Text → Text
  pub atoi : Text → Option ℤ
  pub parse_duration : Text → Option ℤ

-- A value that was read, and the problems that reading it recorded.
pub record Read (A : Type 0) : Type 0 where
  pub got : A
  pub problems : List Text

abbrev pub non_empty : Text → Option Text
non_empty [] = none
non_empty (c ∷ s) = some (c ∷ s)

abbrev pub trimmed : (Text → Text) → Option Text → Option Text
trimmed trim none = none
trimmed trim (some v) = non_empty (trim v)

-- `value`
unfoldable pub value : Env → Text → Option Text
value env key = trimmed env.trim (env.lookup key)

module _ {A : Type 0} where
  abbrev pub fine : A → Read A
  fine v = record { got = v; problems = [] }

  abbrev pub fails : Text → A → Read A
  fails key v = record { got = v; problems = key ∷ [] }

-- `required`
abbrev pub required_of : Text → Option Text → Read Text
required_of key none = fails key []
required_of key (some v) = fine v

unfoldable pub required : Env → Text → Read Text
required env key = required_of key (value env key)

-- `string`
abbrev pub or_default : Text → Option Text → Text
or_default def none = def
or_default def (some v) = v

unfoldable pub string_value : Env → Text → Text → Text
string_value env key def = or_default def (value env key)

-- `oneOf`
unfoldable pub one_of : Env → Text → Text → List Text → Read Text
unfolding string_value
one_of env key def allowed =
    let v = string_value env key def in
    if any (λ a. text_eq v a) allowed then fine v else fails key def

-- n < min || n > max
abbrev pub int_within : Text → ℕ → ℕ → ℕ → ℤ → Read ℕ
int_within key def lo hi (pos n) = if leb lo n && leb n hi then fine n else fails key def
int_within key def lo hi (negsuc n) = fails key def

abbrev pub parsed_int : Text → ℕ → ℕ → ℕ → Option ℤ → Read ℕ
parsed_int key def lo hi none = fails key def
parsed_int key def lo hi (some n) = int_within key def lo hi n

abbrev pub int_of : Env → Text → ℕ → ℕ → ℕ → Option Text → Read ℕ
int_of env key def lo hi none = fine def
int_of env key def lo hi (some v) = parsed_int key def lo hi (env.atoi v)

-- `int`, for bounds that are not negative
unfoldable pub int : Env → Text → ℕ → ℕ → ℕ → Read ℕ
int env key def lo hi = int_of env key def lo hi (value env key)

-- d <= 0
abbrev pub positive_duration : Text → ℕ → ℤ → Read ℕ
positive_duration key def (pos n) = if ltb 0 n then fine n else fails key def
positive_duration key def (negsuc n) = fails key def

abbrev pub parsed_duration : Text → ℕ → Option ℤ → Read ℕ
parsed_duration key def none = fails key def
parsed_duration key def (some n) = positive_duration key def n

abbrev pub duration_of : Env → Text → ℕ → Option Text → Read ℕ
duration_of env key def none = fine def
duration_of env key def (some v) = parsed_duration key def (env.parse_duration v)

-- `duration`
unfoldable pub duration : Env → Text → ℕ → Read ℕ
duration env key def = duration_of env key def (value env key)

-- `check`
abbrev pub check : Bool → Text → List Text
check true key = []
check false key = key ∷ []
