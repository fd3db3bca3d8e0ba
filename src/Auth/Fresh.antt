-- ===== src/Auth/Fresh.antt =====
-- How old an answer of the authenticator can be.
use sms_gateway.Common.{
  ℕ, ◌+◌, ◌<◌, ◌≡◌, ◌⊎◌, inl, inr, refl, ap, subst, Bool, not, Option, none, some, List, [], ◌∷◌,
  keep, ltb, arith, All, Bool-cases,
}
use sms_gateway.Common.Text.{Text, text_eq, eq_of-text_eq}
use sms_gateway.Auth.{
  valid_key_format, Identity, CacheEntry, Authenticator, new_authenticator, cached, store_entry,
  purge_expired, from_database, from_cache, authenticate,
}

-- One call: its time, what the database holds then, and the key.
pub record KeyCheck : Type 0 where
  pub now : ℕ
  pub lookup : Text → Option Identity
  pub key : Text

module _ (hash : Text → Text) (ttl : ℕ) where
  -- The state after calls, of which the list has the latest first.
  unfoldable pub after_checks : List KeyCheck → Authenticator
  after_checks [] = new_authenticator ttl
  after_checks (c ∷ cs) = (authenticate hash c.lookup c.now c.key (after_checks cs)).1

  -- One of the calls asked the database for the hash, got the customer, and was made `ttl` before
  -- `expires`.
  abbrev pub Answered : Text → Identity → ℕ → List KeyCheck → Type 0
  Answered h who expires [] = ⊥
  Answered h who expires (c ∷ cs) =
      ((c.lookup h ≡ some who) × (expires ≡ c.now + ttl)) ⊎ Answered h who expires cs

  abbrev Backed : List KeyCheck → Text × CacheEntry → Type 0
  Backed cs p = Answered p.0 p.1.customer p.1.expires cs

  abbrev AllBacked : List KeyCheck → Authenticator → Type 0
  AllBacked cs a = (a.ttl ≡ ttl) × All (Backed cs) a.entries

  All-kept :
      (P : Text × CacheEntry → Type 0) (q : Text × CacheEntry → Bool)
      (es : List (Text × CacheEntry))
      → All P es
      → All P (keep q es)
  All-kept P q [] h = tt
  All-kept P q (e ∷ es) h = elim (Bool-cases (q e)) [
    | inl b ↦ rw b (h.0, All-kept P q es h.1)
    | inr b ↦ rw b (All-kept P q es h.1)
  ]

  later :
      (c : KeyCheck) (cs : List KeyCheck) (es : List (Text × CacheEntry))
      → All (Backed cs) es
      → All (Backed (c ∷ cs)) es
  later c cs [] h = tt
  later c cs (e ∷ es) h = (inr h.0, later c cs es h.1)

  purge_expired-AllBacked :
      (cs : List KeyCheck) (now : ℕ) (a : Authenticator)
      → AllBacked cs a
      → AllBacked cs (purge_expired now a)
  unfolding purge_expired
  purge_expired-AllBacked cs now a h = elim (Bool-cases (ltb now (a.last_purge + a.ttl))) [
    | inl e ↦ rw e h
    | inr e ↦ rw e (h.0, All-kept (Backed cs) (λ p. ltb now p.1.expires) a.entries h.1)
  ]

  database-AllBacked :
      (c : KeyCheck) (cs : List KeyCheck) (a : Authenticator) (h : Text)
      → AllBacked cs a
      → AllBacked (c ∷ cs) (from_database c.now h (c.lookup h) a).1
  unfolding store_entry
  database-AllBacked c cs a h b = go (c.lookup h) refl
    where
      go : (o : Option Identity) → c.lookup h ≡ o → AllBacked (c ∷ cs) (from_database c.now h o a).1
      go none e = (b.0, later c cs a.entries b.1)
      go (some who) e =
          let p = purge_expired-AllBacked cs c.now a b in
          (
            p.0,
            (
              inl (e, ap (λ t. c.now + t) b.0),
              All-kept (Backed (c ∷ cs)) (λ x. not (text_eq x.0 h)) (purge_expired c.now a).entries
                  (later c cs (purge_expired c.now a).entries p.1),
            ),
          )

  cache-AllBacked :
      (c : KeyCheck) (cs : List KeyCheck) (a : Authenticator) (h : Text) (o : Option CacheEntry)
      → AllBacked cs a
      → AllBacked (c ∷ cs) (from_cache c.now h (c.lookup h) o a).1
  cache-AllBacked c cs a h none b = database-AllBacked c cs a h b
  cache-AllBacked c cs a h (some e) b = elim (Bool-cases (ltb c.now e.expires)) [
    | inl f ↦ rw f (b.0, later c cs a.entries b.1)
    | inr f ↦ rw f (database-AllBacked c cs a h b)
  ]

  after_checks-AllBacked : (cs : List KeyCheck) → AllBacked cs (after_checks cs)
  unfolding after_checks authenticate valid_key_format
  after_checks-AllBacked [] = (refl, tt)
  after_checks-AllBacked (c ∷ cs) = elim (Bool-cases (valid_key_format c.key)) [
    | inl e ↦ rw e (
        cache-AllBacked c cs (after_checks cs) (hash c.key)
          (cached (hash c.key) (after_checks cs).entries) (after_checks-AllBacked cs))
    | inr e ↦ rw e (
      (after_checks-AllBacked cs).0,
      later c cs (after_checks cs).entries (after_checks-AllBacked cs).1,
    )
  ]

  abbrev Hit : List KeyCheck → Text → Option CacheEntry → Type 0
  Hit cs h none = Unit
  Hit cs h (some e) = Answered h e.customer e.expires cs

  cached-Hit :
      (cs : List KeyCheck) (h : Text) (es : List (Text × CacheEntry))
      → All (Backed cs) es
      → Hit cs h (cached h es)
  unfolding cached
  cached-Hit cs h [] b = tt
  cached-Hit cs h ((k, x) ∷ es) b = elim (Bool-cases (text_eq k h)) [
    | inl g ↦ rw g (subst (λ t. Answered t x.customer x.expires cs) (eq_of-text_eq k h g) b.0)
    | inr g ↦ rw g (cached-Hit cs h es b.1)
  ]

  -- What a result rests on.
  abbrev pub Justified : KeyCheck → List KeyCheck → Option Identity → Type 0
  Justified c cs none = Unit
  Justified c cs (some who) =
      (c.lookup (hash c.key) ≡ some who)
      ⊎ ((expires : ℕ) × (c.now < expires) × Answered (hash c.key) who expires cs)

  cache-Justified :
      (c : KeyCheck) (cs : List KeyCheck) (a : Authenticator) (o : Option CacheEntry)
      → Hit cs (hash c.key) o
      → Justified c cs (from_cache c.now (hash c.key) (c.lookup (hash c.key)) o a).0
  cache-Justified c cs a o h = go (c.lookup (hash c.key)) refl o h
    where
      asked :
          (f : Option Identity)
          → c.lookup (hash c.key) ≡ f
          → Justified c cs (from_database c.now (hash c.key) f a).0
      asked none e = tt
      asked (some who) e = inl e

      go :
          (f : Option Identity)
          → c.lookup (hash c.key) ≡ f
          → (o : Option CacheEntry) → Hit cs (hash c.key) o
          → Justified c cs (from_cache c.now (hash c.key) f o a).0
      go f e none h = asked f e
      go f e (some x) h = elim (Bool-cases (ltb c.now x.expires)) [
        | inl b ↦ rw b (inr (x.expires, ground (arith, b), h))
        | inr b ↦ rw b (asked f e)
      ]

  -- Whatever calls came before, with whatever keys, times and contents of the database: a customer that
  -- `authenticate` returns is the one whom the database holds under the key's hash at that call, or held at
  -- an earlier call that was made less than the cache lifetime before.
  pub authenticate_fresh :
      (c : KeyCheck) (cs : List KeyCheck)
      → Justified c cs (authenticate hash c.lookup c.now c.key (after_checks cs)).0
  unfolding authenticate valid_key_format
  authenticate_fresh c cs = elim (Bool-cases (valid_key_format c.key)) [
    | inl e ↦ rw e (
        cache-Justified c cs (after_checks cs) (cached (hash c.key) (after_checks cs).entries)
          (cached-Hit cs (hash c.key) (after_checks cs).entries (after_checks-AllBacked cs).1))
    | inr e ↦ rw e tt
  ]
