-- ===== src/Auth/Keys.antt =====
-- Generated keys have the format that the authenticator accepts.
use sms_gateway.Common.{ℕ, zero, suc, ◌-◌, ◌≤◌, ◌≡◌, refl, true, ◌++◌, length, length-append, arith}
use sms_gateway.Common.Text.{Text}
use sms_gateway.Auth.{zeros, generate_key, all_alphanumeric, valid_key_format}

length-zeros : (n : ℕ) → length (zeros n) ≡ n
length-zeros zero = refl
length-zeros (suc n) = omega (arith, length-zeros n)

all_alphanumeric-append :
    (n : ℕ) (s : Text) → all_alphanumeric s ≡ true → all_alphanumeric (zeros n ++ s) ≡ true
unfolding all_alphanumeric
all_alphanumeric-append zero s h = h
all_alphanumeric-append (suc n) s h = rw (all_alphanumeric-append n s h) refl

-- Every generated key is accepted as well-formed, whatever the random bytes: provided their base-62 number
-- has only letters and digits and at most 43 of them.
pub generate_key-valid :
    (text62 : Text)
    → all_alphanumeric text62 ≡ true
    → length text62 ≤ 43
    → valid_key_format (generate_key text62) ≡ true
unfolding valid_key_format generate_key
generate_key-valid text62 h few = ground (
  arith,
  length-append (zeros (43 - length text62)) text62,
  length-zeros (43 - length text62),
  all_alphanumeric-append (43 - length text62) text62 h,
)
