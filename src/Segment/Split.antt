-- ===== src/Segment/Split.antt =====
-- internal/segment: the greedy loop of `Count` against splits of the text into parts.
use sms_gateway.Common.{
  ℕ, ◌+◌, ◌≤◌, ◌<◌, ◌≡◌, refl, ap, ◌⊎◌, inl, inr, true, List, [], ◌∷◌, ◌++◌, ◌↔◌, ◌||◌, ltb, leb,
  ◌==◌, if◌then◌else◌, arith, All, length, Bool-cases,
}
use sms_gateway.Common.Text.{Text}
use sms_gateway.Segment.{
  Encoding, gsm7, ucs2, gsm7_basic, gsm7_extension, detect, width, total_width, fill, single_of,
  part_of, count,
}

-- The units of a text, from the right.
unfoldable pub weight : Encoding → Text → ℕ
weight enc [] = 0
weight enc (r ∷ rs) = width enc r + weight enc rs

abbrev pub concat : List Text → Text
concat [] = []
concat (p ∷ ps) = p ++ concat ps

abbrev pub Fits : Encoding → Text → Type 0
Fits enc p = weight enc p ≤ part_of enc

width_bounds : (enc : Encoding) (r : ℕ) → (1 ≤ width enc r) × (width enc r ≤ part_of enc)
unfolding width
width_bounds gsm7 r = ground arith
width_bounds ucs2 r = ground arith

pub total_width-eq-weight :
    (enc : Encoding) (n : ℕ) (s : Text) → total_width enc n s ≡ n + weight enc s
unfolding total_width weight
total_width-eq-weight enc n [] = omega arith
total_width-eq-weight enc n (r ∷ rs) = omega (arith, total_width-eq-weight enc (n + width enc r) rs)

-- From `u` used units the loop completes the current part with `c` and adds one part for each of
-- `ps`.
record Filled (enc : Encoding) (s u : ℕ) (text : Text) : Type 0 where
  current : Text
  later : List Text
  joined : current ++ concat later ≡ text
  room : u + weight enc current ≤ part_of enc
  fitting : All (Fits enc) later
  counted : fill enc (part_of enc) s u text ≡ s + length later

fill_splits : (enc : Encoding) (s u : ℕ) (text : Text) → u ≤ part_of enc → Filled enc s u text
unfolding fill weight
fill_splits enc s u [] h = record {
  current = [];
  later = [];
  joined = refl;
  room = omega arith;
  fitting = tt;
  counted = omega arith;
}
fill_splits enc s u (r ∷ rs) h = elim (Bool-cases (ltb (part_of enc) (u + width enc r))) [
  | inl full ↦
      let g = fill_splits enc (s + 1) (0 + width enc r) rs (omega (arith, width_bounds enc r)) in
      record {
        current = [];
        later = (r ∷ g.current) ∷ g.later;
        joined = ap (λ t. r ∷ t) g.joined;
        room = omega arith;
        fitting = (omega (arith, g.room), g.fitting);
        counted = rw full (omega (arith, g.counted));
      }
  | inr free ↦
      let g = fill_splits enc s (u + width enc r) rs (ground arith) in
      record {
        current = r ∷ g.current;
        later = g.later;
        joined = ap (λ t. r ∷ t) g.joined;
        room = omega (arith, g.room);
        fitting = g.fitting;
        counted = rw free (omega (arith, g.counted));
      }
]

-- The loop is never behind a split whose current part has `c` to come.
fill_least :
    (enc : Encoding) (s u s' u' : ℕ) (ps : List Text) (c : Text)
    → All (Fits enc) ps
    → u' + weight enc c ≤ part_of enc
    → (s < s') ⊎ ((s ≡ s') × (u ≤ u'))
    → fill enc (part_of enc) s u (c ++ concat ps) ≤ s' + length ps
unfolding fill weight
fill_least enc s u s' u' [] [] fits room ahead = omega arith
fill_least enc s u s' u' (p ∷ ps) [] fits room ahead =
    omega
      (arith, fill_least enc s u (s' + 1) 0 ps p fits.1 (omega (arith, fits.0)) (inl (omega arith)))
fill_least enc s u s' u' ps (r ∷ c) fits room ahead =
    elim (Bool-cases (ltb (part_of enc) (u + width enc r))) [
      | inl full ↦
          rw (full, fill)
            (fill_least enc (s + 1) (0 + width enc r) s' (u' + width enc r) ps c fits (omega arith)
              (behind full))
      | inr free ↦
          rw (free, fill)
            (fill_least enc s (u + width enc r) s' (u' + width enc r) ps c fits (omega arith)
              (level ahead))
    ]
  where
    behind :
        ltb (part_of enc) (u + width enc r) ≡ true
        → (s + 1 < s') ⊎ ((s + 1 ≡ s') × (0 + width enc r ≤ u' + width enc r))
    behind full = ground arith

    level :
        (s < s') ⊎ ((s ≡ s') × (u ≤ u'))
        → (s < s') ⊎ ((s ≡ s') × (u + width enc r ≤ u' + width enc r))
    level (inl lt) = inl lt
    level (inr (e, le)) = inr (e, omega arith)

count_fields :
    (text : Text)
    → ((count text).encoding ≡ detect text) × ((count text).units ≡ weight (detect text) text)
unfolding count
count_fields text =
    let e = total_width-eq-weight (detect text) 0 text in
    elim (Bool-cases (total_width (detect text) 0 text == 0)) [
      | inl empty ↦ rw empty (refl, ground (arith, e))
      | inr nonempty ↦
          elim (Bool-cases (leb (total_width (detect text) 0 text) (single_of (detect text)))) [
            | inl short ↦ rw (nonempty, short) (refl, omega (arith, e))
            | inr long ↦ rw (nonempty, long) (refl, omega (arith, e))
          ]
    ]

count_long :
    (text : Text)
    → single_of (detect text) < weight (detect text) text
    → (count text).segments ≡ fill (detect text) (part_of (detect text)) 1 0 text
unfolding count
count_long text h = ground (arith, total_width-eq-weight (detect text) 0 text)

-- A text longer than one segment has a split into exactly the counted number of segments, none of
-- which holds more units than a part of its encoding.
pub count_splits :
    (text : Text)
    → single_of (detect text) < (count text).units
    → (ps : List Text) × (concat ps ≡ text)
      × All (Fits (detect text)) ps
      × (length ps ≡ (count text).segments)
count_splits text h =
    let f = fill_splits (detect text) 1 0 text (omega arith) in
    let u = (count_fields text).1 in
    (
      f.current ∷ f.later,
      f.joined,
      (omega (arith, f.room), f.fitting),
      omega (arith, f.counted, count_long text (omega (arith, u))),
    )

-- No split of such a text into parts that fit has fewer parts than the counted segments.
pub count_least :
    (ps : List Text)
    → single_of (detect (concat ps)) < (count (concat ps)).units
    → All (Fits (detect (concat ps))) ps
    → (count (concat ps)).segments ≤ length ps
unfolding weight
count_least [] h fits = absurd (omega (arith, count_fields []))
count_least (p ∷ ps) h fits =
    let enc = detect (p ++ concat ps) in
    omega (
      arith,
      count_long (p ++ concat ps) (omega (arith, count_fields (p ++ concat ps))),
      fill_least enc 1 0 1 0 ps p fits.1 (omega (arith, fits.0)) (inr (refl, omega arith)),
    )

weight_pos : (enc : Encoding) (r : ℕ) (rs : Text) → 1 ≤ weight enc (r ∷ rs)
unfolding weight
weight_pos enc r rs = omega (arith, width_bounds enc r)

fill_grows : (enc : Encoding) (s u : ℕ) (text : Text) → s ≤ fill enc (part_of enc) s u text
unfolding fill
fill_grows enc s u [] = omega arith
fill_grows enc s u (r ∷ rs) = elim (Bool-cases (ltb (part_of enc) (u + width enc r))) [
  | inl e ↦ rw e (
      let ih : s + 1 ≤ fill enc (part_of enc) (s + 1) (0 + width enc r) rs =
        fill_grows enc (s + 1) (0 + width enc r) rs in
      omega (arith, ih))
  | inr e ↦ rw e (fill_grows enc s (u + width enc r) rs)
]

-- A text that is not empty takes a segment at least.
pub count_pos : (r : ℕ) (rs : Text) → 1 ≤ (count (r ∷ rs)).segments
unfolding count
count_pos r rs = ground (
  arith,
  total_width-eq-weight (detect (r ∷ rs)) 0 (r ∷ rs),
  weight_pos (detect (r ∷ rs)) r rs,
  fill_grows (detect (r ∷ rs)) 1 0 (r ∷ rs),
)

-- A text whose weight fits a single segment has the detected encoding, its weight as units, and one
-- segment, or none if it is empty.
pub count_short :
    (text : Text)
    → weight (detect text) text ≤ single_of (detect text)
    → count text ≡ record {
      encoding = detect text;
      units = weight (detect text) text;
      segments = if length text == 0 then 0 else 1;
    }
unfolding count weight
count_short [] h = refl
count_short (r ∷ rs) h =
    ground
      (arith, total_width-eq-weight (detect (r ∷ rs)) 0 (r ∷ rs), weight_pos (detect (r ∷ rs)) r rs)

-- GSM-7 is detected exactly when every character is in the basic alphabet or the extension table.
pub detect_iff :
    (text : Text) → (detect text ≡ gsm7) ↔ All (λ r. (gsm7_basic r || gsm7_extension r) ≡ true) text
unfolding detect
detect_iff [] = (λ _. tt, λ _. refl)
detect_iff (r ∷ rs) = ground (arith, detect_iff rs)
