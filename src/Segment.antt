-- ===== src/Segment.antt =====
-- internal/segment: the encoding of a text and the number of SMS segments that it occupies.
pub mod Split
mod Examples
use sms_gateway.Common.{ℕ, ◌+◌, Bool, ◌&&◌, not, [], ◌∷◌, ltb, leb, ◌==◌, if◌then◌else◌, any}
use sms_gateway.Common.Text.{Text, codes}

pub data Encoding : Type 0 where
  gsm7 ucs2 : Encoding

abbrev pub gsm7_single : ℕ
gsm7_single = 160

abbrev pub gsm7_part : ℕ
gsm7_part = 153

abbrev pub ucs2_single : ℕ
ucs2_single = 70

abbrev pub ucs2_part : ℕ
ucs2_part = 67

pub record Result : Type 0 where
  pub encoding : Encoding
  pub units : ℕ
  pub segments : ℕ

-- The maps that `runeSet` builds are read only for membership.
rune_set : Text → ℕ → Bool
rune_set s r = any (λ c. c == r) s

unfoldable pub gsm7_basic : ℕ → Bool
unfolding rune_set
gsm7_basic = rune_set (
    codes
      "@£$¥èéùìòÇ\nØø\rÅåΔ_ΦΓΛΩΠΨΣΘΞÆæßÉ !\"#¤%&'()*+,-./0123456789:;<=>?¡ABCDEFGHIJKLMNOPQRSTUVWXYZÄÖÑÜ§¿abcdefghijklmnopqrstuvwxyzäöñüà")

unfoldable pub gsm7_extension : ℕ → Bool
unfolding rune_set
gsm7_extension = rune_set (codes "\u{c}^{}\\[~]|€")

unfoldable pub detect : Text → Encoding
detect [] = gsm7
detect (r ∷ rs) = if not (gsm7_basic r) && not (gsm7_extension r) then ucs2 else detect rs

-- An invalid byte is ranged over as U+FFFD, which is one unit of UCS-2 as this code is read.
abbrev pub rune_of : ℕ → ℕ
rune_of c = if ltb c 0x110000 then c else 0xFFFD

unfoldable pub width : Encoding → ℕ → ℕ
width gsm7 r = if gsm7_extension r then 2 else 1
width ucs2 r = if ltb 0xFFFF (rune_of r) then 2 else 1

unfoldable pub total_width : Encoding → ℕ → Text → ℕ
total_width enc total [] = total
total_width enc total (r ∷ rs) = total_width enc (total + width enc r) rs

-- The loop that fills parts greedily, over the variables `segments` and `used`.
pub fill : Encoding → ℕ → ℕ → ℕ → Text → ℕ
fill enc part segments used [] = segments
fill enc part segments used (r ∷ rs) =
    let w = width enc r in
    let full = ltb part (used + w) in
    fill enc part (if full then segments + 1 else segments) ((if full then 0 else used) + w) rs

abbrev pub single_of : Encoding → ℕ
single_of gsm7 = gsm7_single
single_of ucs2 = ucs2_single

abbrev pub part_of : Encoding → ℕ
part_of gsm7 = gsm7_part
part_of ucs2 = ucs2_part

unfoldable pub count : Text → Result
unfolding detect total_width fill
count text =
    let enc = detect text in
    let total = total_width enc 0 text in
    if total == 0
    then record { encoding = enc; units = 0; segments = 0 }
    else if leb total (single_of enc)
    then record { encoding = enc; units = total; segments = 1 }
    else record { encoding = enc; units = total; segments = fill enc (part_of enc) 1 0 text }
