-- ===== src/Segment/Examples.antt =====
-- Runs of the segment counter and the witnesses of its theorems.
use sms_gateway.Common.{ℕ, ◌≡◌, ◌≤◌, refl, List, [], ◌∷◌, zero, suc, arith, ◌++◌, All, length}
use sms_gateway.Common.Text.{Text, codes}
use sms_gateway.Segment.{gsm7, ucs2, count, detect, gsm7_basic, gsm7_extension, width}
use sms_gateway.Segment.Split.{weight, concat, Fits, count_splits, count_least, detect_iff}

abbrev repeat : ℕ → Text → Text
repeat zero s = []
repeat (suc n) s = s ++ repeat n s

count-hello : count (codes "hello [x]") ≡ record { encoding = gsm7; units = 11; segments = 1 }
unfolding count width gsm7_basic gsm7_extension
count-hello = refl

count-ucs2 : count (codes "Ωδή!") ≡ record { encoding = ucs2; units = 4; segments = 1 }
unfolding count width gsm7_basic gsm7_extension
count-ucs2 = refl

abbrev long_text : Text
long_text = repeat 81 (codes "{}")

-- 162 escape sequences are 324 septets; no sequence is split, so a part holds 152 of them.
count-long : count long_text ≡ record { encoding = gsm7; units = 324; segments = 3 }
unfolding count width gsm7_basic gsm7_extension
count-long = refl

count_splits_example :
    (ps : List Text) × (concat ps ≡ long_text)
    × All (Fits (detect long_text)) ps
    × (length ps ≡ (count long_text).segments)
unfolding count width gsm7_basic gsm7_extension
count_splits_example = count_splits long_text (omega arith)

abbrev pieces : List Text
pieces = repeat 27 (codes "{}") ∷ repeat 27 (codes "{}") ∷ repeat 27 (codes "{}") ∷ []

count_least_example : (count (concat pieces)).segments ≤ 3
unfolding weight count width gsm7_basic gsm7_extension
count_least_example = count_least pieces (omega arith) (omega arith)

detect_iff_example : detect (codes "ok") ≡ gsm7
unfolding gsm7_basic gsm7_extension
detect_iff_example = (detect_iff (codes "ok")).1 (refl, (refl, tt))
