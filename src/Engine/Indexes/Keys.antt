-- ===== src/Engine/Indexes/Keys.antt =====
-- One index under each of its operations, with no panic where the index is allocated.
use node_agent_rs.Base.{
  ◌≡◌, refl, true, Option, none, some, if◌then◌else◌, Text, lookup, insert, remove, lookup-insert,
  lookup-remove, ok, Bool-cases, inl, inr, arith,
}
use node_agent_rs.Engine.Credentials.{Entry, is_some}
use node_agent_rs.Engine.Indexes.{Index, opt_eq, drop_key, retire_key, file_key}

-- The key that is dropped when a user's key changes.
abbrev pub retired_key : Option Text → Option Text → Option Text
retired_key old new = if opt_eq old new then none else old

module _ {K : Type 0} where
  abbrev pub indexed : Index K → Text → Option (Entry K)
  indexed none k = none
  indexed (some m) k = lookup k m

  -- The index is left as it is but for a key that is dropped.
  pub record Without (gone : Option Text) (before after : Index K) : Type 0 where
    pub as_allocated : is_some after ≡ is_some before
    pub left :
        (k : Text) → indexed after k ≡ (if opt_eq gone (some k) then none else indexed before k)

  -- The index is left as it is but for a key that is filed.
  pub record With (new : Option Text) (e : Entry K) (before after : Index K) : Type 0 where
    pub as_allocated : is_some after ≡ is_some before
    pub left :
        (k : Text) → indexed after k ≡ (if opt_eq new (some k) then some e else indexed before k)

  pub drop_key-Without :
      (old : Option Text) (ix : Index K)
      → (is_some old ≡ true → is_some ix ≡ true)
      → (after : Index K) × (drop_key old ix ≡ ok after) × Without old ix after
  unfolding drop_key opt_eq
  drop_key-Without none ix h = (ix, refl, record { as_allocated = refl; left = λ k. refl })
  drop_key-Without (some old) none h = absurd (ground (arith, h refl))
  drop_key-Without (some old) (some m) h =
      (some (remove old m), refl, record { as_allocated = refl; left = λ k. lookup-remove k old m })

  pub retire_key-Without :
      (old new : Option Text) (ix : Index K)
      → (is_some old ≡ true → is_some ix ≡ true)
      → (after : Index K) × (retire_key old new ix ≡ ok after)
        × Without (retired_key old new) ix after
  unfolding retire_key
  retire_key-Without old new ix h = elim (Bool-cases (opt_eq old new)) [
    | inl same ↦ rw same (drop_key-Without none ix λ e. absurd (ground arith))
    | inr changed ↦ rw changed (drop_key-Without old ix h)
  ]

  pub file_key-With :
      (new : Option Text) (e : Entry K) (ix : Index K)
      → (is_some new ≡ true → is_some ix ≡ true)
      → (after : Index K) × (file_key new e ix ≡ ok after) × With new e ix after
  unfolding file_key opt_eq
  file_key-With none e ix h = (ix, refl, record { as_allocated = refl; left = λ k. refl })
  file_key-With (some new) e none h = absurd (ground (arith, h refl))
  file_key-With (some new) e (some m) h = (
    some (insert new e m),
    refl,
    record { as_allocated = refl; left = λ k. lookup-insert k new e m },
  )
