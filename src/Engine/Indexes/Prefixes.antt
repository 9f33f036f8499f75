-- ===== src/Engine/Indexes/Prefixes.antt =====
-- The counts of the AnyTLS prefixes: no entry is zero, and each operation moves one count by one.
use node_agent_rs.Base.{
  ℕ, ◌+◌, ◌-◌, ◌≡◌, ◌≢◌, refl, true, Option, none, some, List, if◌then◌else◌, Text, text_eq,
  text_eq_iff, lookup, lookup-insert, lookup-remove, ok, Bool-cases, inl, inr, arith,
}
use node_agent_rs.Engine.Shoes.{Shoes}
use node_agent_rs.Engine.Credentials.{is_some}
use node_agent_rs.Engine.Indexes.{
  count_of, claim, lower, release, claim_anytls_prefix, release_anytls_prefix, release_dropped,
  claim_filed, Index, owner,
}

abbrev pub Prefixes : Type 0
Prefixes = Option (List (Text × ℕ))

-- The count of a prefix.
abbrev pub counted : Prefixes → Text → ℕ
counted none p = 0
counted (some m) p = count_of (lookup p m)

abbrev pub HasNoZero : Prefixes → Type 0
HasNoZero none = Unit
HasNoZero (some m) = (p : Text) → lookup p m ≢ some 0

module _ (s : Shoes) where
  -- Whether a hash has the prefix, as a number.
  abbrev pub weight : Option Text → Text → ℕ
  weight none p = 0
  weight (some hash) p = if text_eq (s.password_sha256_prefix hash) p then 1 else 0

  pub claim_counts :
      (q : Text) (m : List (Text × ℕ)) (p : Text)
      → counted (some (claim q m)) p ≡ counted (some m) p + (if text_eq q p then 1 else 0)
  unfolding claim
  claim_counts q m p =
      ground (arith, lookup-insert p q (count_of (lookup q m) + 1) m, text_eq_iff q p)

  pub claim-HasNoZero :
      (q : Text) (m : List (Text × ℕ)) → HasNoZero (some m) → HasNoZero (some (claim q m))
  unfolding claim
  claim-HasNoZero q m h p e =
      ground (arith, lookup-insert p q (count_of (lookup q m) + 1) m, text_eq_iff q p, h p)

  pub release_counts :
      (q : Text) (m : List (Text × ℕ)) (p : Text)
      → counted (some (release q m)) p ≡ counted (some m) p - (if text_eq q p then 1 else 0)
  unfolding release lower
  release_counts q m p =
      ground (
        arith,
        lookup-remove p q m,
        lookup-insert p q (count_of (lookup q m) - 1) m,
        text_eq_iff q p,
      )

  pub release-HasNoZero :
      (q : Text) (m : List (Text × ℕ)) → HasNoZero (some m) → HasNoZero (some (release q m))
  unfolding release lower
  release-HasNoZero q m h p e = ground (
    arith,
    lookup-remove p q m,
    lookup-insert p q (count_of (lookup q m) - 1) m,
    text_eq_iff q p,
    h p,
  )

  -- The counts after one operation: `up` is claimed and `down` is released.
  pub record Counts (up down : Option Text) (before after : Prefixes) : Type 0 where
    pub as_allocated : is_some after ≡ is_some before
    pub no_zero : HasNoZero after
    pub counts : (p : Text) → counted after p ≡ counted before p + weight up p - weight down p

  pub Counts-refl : (pre : Prefixes) → HasNoZero pre → Counts none none pre pre
  Counts-refl pre h = record { as_allocated = refl; no_zero = h; counts = λ p. omega arith }

  pub release_dropped-Counts :
      (gone : Option Text) (pre : Prefixes)
      → (is_some gone ≡ true → is_some pre ≡ true)
      → HasNoZero pre
      → (after : Prefixes) × (release_dropped s gone pre ≡ ok after) × Counts none gone pre after
  unfolding release_dropped release_anytls_prefix
  release_dropped-Counts none pre a h = (pre, refl, Counts-refl pre h)
  release_dropped-Counts (some hash) none a h = absurd (ground (arith, a refl))
  release_dropped-Counts (some hash) (some m) a h =
      let q : Text = s.password_sha256_prefix hash in
      (
        some (release q m),
        refl,
        record {
          as_allocated = refl;
          no_zero = release-HasNoZero q m h;
          counts = λ p. omega (arith, release_counts q m p);
        },
      )

  claim_anytls_prefix-Counts :
      (hash : Text) (m : List (Text × ℕ))
      → HasNoZero (some m)
      → (after : Prefixes) × (claim_anytls_prefix s hash (some m) ≡ ok after)
        × Counts (some hash) none (some m) after
  unfolding claim_anytls_prefix
  claim_anytls_prefix-Counts hash m h =
      let q : Text = s.password_sha256_prefix hash in
      (
        some (claim q m),
        refl,
        record {
          as_allocated = refl;
          no_zero = claim-HasNoZero q m h;
          counts = λ p. omega (arith, claim_counts q m p);
        },
      )

  -- The hash whose prefix `claim_filed` claims.
  abbrev pub claimed_key : Option Text → Index s.VmessAuthKey → Option Text
  claimed_key none ix = none
  claimed_key (some hash) ix = if is_some (owner ix hash) then none else some hash

  pub claim_filed-Counts :
      (new : Option Text) (ix : Index s.VmessAuthKey) (pre : Prefixes)
      → (is_some new ≡ true → is_some pre ≡ true)
      → HasNoZero pre
      → (after : Prefixes) × (claim_filed s new ix pre ≡ ok after)
        × Counts (claimed_key new ix) none pre after
  unfolding claim_filed claim_anytls_prefix
  claim_filed-Counts none ix pre a h = (pre, refl, Counts-refl pre h)
  claim_filed-Counts (some hash) ix none a h = absurd (ground (arith, a refl))
  claim_filed-Counts (some hash) ix (some m) a h = elim (Bool-cases (is_some (owner ix hash))) [
    | inl filed ↦ rw filed (some m, refl, Counts-refl (some m) h)
    | inr fresh ↦ rw fresh (claim_anytls_prefix-Counts hash m h)
  ]
