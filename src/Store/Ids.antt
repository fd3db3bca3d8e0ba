-- ===== src/Store/Ids.antt =====
-- Identifiers and the optional arguments of filters (internal/store/ids.go and null.go). A UUID is the
-- number that its sixteen bytes spell; a time is in nanoseconds from the Unix epoch, `none` is the zero
-- time.
use sms_gateway.Common.{
  ℕ, ◌+◌, ◌*◌, ◌/◌, ◌%◌, ◌<◌, ◌≡◌, refl, Bool, true, ◌&&◌, Option, none, some, List, [], ◌∷◌, ◌++◌,
  ltb, leb, ◌==◌, if◌then◌else◌, arith,
}

-- The number that big-endian bytes spell.
abbrev pub be_value_from : ℕ → List ℕ → ℕ
be_value_from acc [] = acc
be_value_from acc (b ∷ bs) = be_value_from (acc * 256 + b) bs

abbrev pub be_value : List ℕ → ℕ
be_value = be_value_from 0

-- binary.BigEndian.PutUint64
abbrev pub put_uint64 : ℕ → List ℕ
put_uint64 n =
    n / 72057594037927936 % 256
    ∷ n / 281474976710656 % 256
    ∷ n / 1099511627776 % 256
    ∷ n / 4294967296 % 256
    ∷ n / 16777216 % 256
    ∷ n / 65536 % 256
    ∷ n / 256 % 256
    ∷ n % 256
    ∷ []

abbrev drop_two : List ℕ → List ℕ
drop_two (x ∷ y ∷ rest) = rest
drop_two _ = []

-- `LowerBound`, at a time of which `UnixMilli` is `t / 1000000`.
unfoldable pub lower_bound : ℕ → ℕ
lower_bound t =
    be_value (drop_two (put_uint64 (t / 1000000)) ++ 112 ∷ 0 ∷ 128 ∷ 0 ∷ 0 ∷ 0 ∷ 0 ∷ 0 ∷ 0 ∷ 0 ∷ [])

-- `NullID`
unfoldable pub null_id : ℕ → Option ℕ
null_id id = if id == 0 then none else some id

-- `NullLowerBound`
unfoldable pub null_lower_bound : Option ℕ → Option ℕ
null_lower_bound none = none
null_lower_bound (some t) = some (lower_bound t)

-- ($n::uuid IS NULL OR id >= $n) AND ($m::uuid IS NULL OR id < $m)
abbrev pub not_below : Option ℕ → ℕ → Bool
not_below none id = true
not_below (some a) id = leb a id

abbrev pub below : Option ℕ → ℕ → Bool
below none id = true
below (some a) id = ltb id a

-- A UUIDv7 with its 48-bit timestamp in milliseconds and its 12 and 62 random bits.
abbrev pub uuid_v7 : ℕ → ℕ → ℕ → ℕ
uuid_v7 ms rand_a rand_b =
    ms * 1208925819614629174706176
    + 7 * 75557863725914323419136
    + rand_a * 18446744073709551616
    + 9223372036854775808
    + rand_b

lower_bound_lem :
    (t : ℕ)
    → t / 1000000 < 281474976710656
    → lower_bound t
      ≡ t / 1000000 * 1208925819614629174706176 + 7 * 75557863725914323419136 + 9223372036854775808
unfolding lower_bound
lower_bound_lem t h = omega (arith, h)

abbrev pub in_time : Option ℕ → (ℕ → Bool) → Bool
in_time none test = true
in_time (some t) test = test (t / 1000000)

abbrev pub Fits : Option ℕ → Type 0
Fits none = Unit
Fits (some t) = t / 1000000 < 281474976710656

since_exact :
    (since : Option ℕ) (ms rand_a rand_b : ℕ)
    → Fits since
    → rand_a < 4096
    → rand_b < 4611686018427387904
    → not_below (null_lower_bound since) (uuid_v7 ms rand_a rand_b) ≡ in_time since (λ s. leb s ms)
unfolding null_lower_bound
since_exact none ms a b h ha hb = refl
since_exact (some t) ms a b h ha hb = rw (lower_bound_lem t h) (ground (arith, ha, hb))

until_exact :
    (until : Option ℕ) (ms rand_a rand_b : ℕ)
    → Fits until
    → rand_a < 4096
    → rand_b < 4611686018427387904
    → below (null_lower_bound until) (uuid_v7 ms rand_a rand_b) ≡ in_time until (λ u. ltb ms u)
unfolding null_lower_bound
until_exact none ms a b h ha hb = refl
until_exact (some t) ms a b h ha hb = rw (lower_bound_lem t h) (ground (arith, ha, hb))

-- For times whose milliseconds fit 48 bits, the filter by `LowerBound` of two times, either of which may
-- be missing, selects exactly the UUIDv7s whose timestamps are from the first one's millisecond on and
-- before the second one's, whatever their random bits.
pub time_filter_exact :
    (since until : Option ℕ) (ms rand_a rand_b : ℕ)
    → Fits since
    → Fits until
    → rand_a < 4096
    → rand_b < 4611686018427387904
    → (not_below (null_lower_bound since) (uuid_v7 ms rand_a rand_b)
        && below (null_lower_bound until) (uuid_v7 ms rand_a rand_b))
      ≡ (in_time since (λ s. leb s ms) && in_time until (λ u. ltb ms u))
time_filter_exact since until ms a b hs hu ha hb =
    rw (since_exact since ms a b hs ha hb, until_exact until ms a b hu ha hb) refl
