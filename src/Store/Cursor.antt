-- ===== src/Store/Cursor.antt =====
-- Pagination cursors (internal/store/cursor.go). The encoding RawURLEncoding of encoding/base64 is a
-- parameter: `encode` prints bytes and `decode` reads them back.
use sms_gateway.Common.{
  ℕ, zero, suc, ◌+◌, ◌*◌, ◌/◌, ◌%◌, ◌<◌, ◌≡◌, ◌≢◌, refl, ap, ◌∙◌, Option, none, some, List, [], ◌∷◌,
  ◌++◌, length, length-append, ◌==◌, if◌then◌else◌, arith,
}
use sms_gateway.Common.Text.{Text}
use sms_gateway.Store.Ids.{be_value, be_value_from}

-- `id[:]`: the lowest `k` bytes of a number, the highest first.
abbrev pub be_bytes : ℕ → ℕ → List ℕ
be_bytes zero n = []
be_bytes (suc k) n = be_bytes k (n / 256) ++ n % 256 ∷ []

-- `EncodeCursor`
unfoldable pub encode_cursor : (List ℕ → Text) → ℕ → Text
encode_cursor encode id = encode (be_bytes 16 id)

-- The conversion of the decoded bytes, if there are sixteen of them.
unfoldable pub cursor_id : Option (List ℕ) → Option ℕ
cursor_id none = none
cursor_id (some b) = if length b == 16 then some (be_value b) else none

-- `DecodeCursor`; `none` is ErrInvalidCursor.
unfoldable pub decode_cursor : (Text → Option (List ℕ)) → Text → Option ℕ
unfolding cursor_id
decode_cursor decode [] = some 0
decode_cursor decode (c ∷ s) = cursor_id (decode (c ∷ s))

be_value_from-append :
    (acc : ℕ) (bs : List ℕ) (b : ℕ)
    → be_value_from acc (bs ++ b ∷ []) ≡ be_value_from acc bs * 256 + b
be_value_from-append acc [] b = refl
be_value_from-append acc (x ∷ bs) b = be_value_from-append (acc * 256 + x) bs b

length-be_bytes : (k n : ℕ) → length (be_bytes k n) ≡ k
length-be_bytes zero n = refl
length-be_bytes (suc k) n =
    omega (arith, length-append (be_bytes k (n / 256)) (n % 256 ∷ []), length-be_bytes k (n / 256))

-- 256 ^ k
abbrev byte_range : ℕ → ℕ
byte_range zero = 1
byte_range (suc k) = byte_range k * 256

be_value-be_bytes : (k n : ℕ) → n < byte_range k → be_value (be_bytes k n) ≡ n
be_value-be_bytes zero n h = omega (arith, h)
be_value-be_bytes (suc k) n h =
    be_value_from-append 0 (be_bytes k (n / 256)) (n % 256)
    ∙ omega (arith, be_value-be_bytes k (n / 256) (omega (arith, h)))

decode_nonempty :
    (decode : Text → Option (List ℕ)) (s : Text)
    → s ≢ []
    → decode_cursor decode s ≡ cursor_id (decode s)
unfolding decode_cursor
decode_nonempty decode [] h = absurd (h refl)
decode_nonempty decode (c ∷ s) h = refl

cursor_id-some : (b : List ℕ) → length b ≡ 16 → cursor_id (some b) ≡ some (be_value b)
unfolding cursor_id
cursor_id-some b h = rw h refl

-- Provided base64 reads back the bytes that it printed, and prints something for an identifier's
-- bytes: a cursor decodes to the identifier that it was made of.
pub decode_cursor-encode_cursor :
    (encode : List ℕ → Text) (decode : Text → Option (List ℕ))
    → ((bs : List ℕ) → decode (encode bs) ≡ some bs)
    → ((bs : List ℕ) → encode bs ≡ [] → bs ≡ [])
    → (id : ℕ) → id < 340282366920938463463374607431768211456
    → decode_cursor decode (encode_cursor encode id) ≡ some id
unfolding encode_cursor
decode_cursor-encode_cursor encode decode reads prints id h =
    decode_nonempty decode (encode (be_bytes 16 id))
      (λ e. omega (arith, length-be_bytes 16 id, ap (λ l. length l) (prints (be_bytes 16 id) e)))
    ∙ ap (cursor_id) (reads (be_bytes 16 id))
    ∙ cursor_id-some (be_bytes 16 id) (length-be_bytes 16 id)
    ∙ ap (λ v. some v) (be_value-be_bytes 16 id h)
