-- ===== src/Engine/Users/Consistent.antt =====
-- The invariant of the registry: each index holds exactly the users that have its credential.
use node_agent_rs.Base.{
  ℕ, ◌+◌, ◌≡◌, refl, Option, none, some, List, [], ◌∷◌, Text, text_eq, text_eq_iff, lookup, insert,
  remove, lookup-remove, Bool-cases, inl, inr, arith,
}
use node_agent_rs.Engine.Kinds.{CredentialKinds}
use node_agent_rs.Engine.Shoes.{Shoes}
use node_agent_rs.Engine.Credentials.{Entry, is_some}
use node_agent_rs.Engine.Indexes.{Indexes}
use node_agent_rs.Engine.Indexes.Owned.{IsSound, IsComplete}
use node_agent_rs.Engine.Indexes.Keys.{indexed}
use node_agent_rs.Engine.Indexes.Prefixes.{HasNoZero, counted, weight}
use node_agent_rs.Engine.Indexes.Forms.{Form, key_of, index_of, wanted}

module _ {V : Type 0} where
  abbrev pub HasDistinctKeys : List (Text × V) → Type 0
  HasDistinctKeys [] = Unit
  HasDistinctKeys ((k, v) ∷ m) = (lookup k m ≡ none) × HasDistinctKeys m

  pub remove-HasDistinctKeys :
      (id : Text) (m : List (Text × V)) → HasDistinctKeys m → HasDistinctKeys (remove id m)
  unfolding remove
  remove-HasDistinctKeys id [] h = tt
  remove-HasDistinctKeys id ((k, v) ∷ m) (fresh, h) = elim (Bool-cases (text_eq k id)) [
    | inl same ↦ rw same (remove-HasDistinctKeys id m h)
    | inr other ↦ rw other (ground (arith, lookup-remove k id m), remove-HasDistinctKeys id m h)
  ]

  pub insert-HasDistinctKeys :
      (id : Text) (v : V) (m : List (Text × V))
      → HasDistinctKeys m
      → HasDistinctKeys (insert id v m)
  unfolding insert
  insert-HasDistinctKeys id v m h =
      (ground (arith, lookup-remove id id m, text_eq_iff id id), remove-HasDistinctKeys id m h)

  -- The sum of a measure over the values.
  abbrev pub total : (V → ℕ) → List (Text × V) → ℕ
  total f [] = 0
  total f ((k, v) ∷ m) = f v + total f m

  abbrev pub measured : (V → ℕ) → Option V → ℕ
  measured f none = 0
  measured f (some v) = f v

  pub remove_absent : (id : Text) (m : List (Text × V)) → lookup id m ≡ none → remove id m ≡ m
  unfolding remove lookup
  remove_absent id [] h = refl
  remove_absent id ((k, v) ∷ m) h = elim (Bool-cases (text_eq k id)) [
    | inl same ↦ absurd (ground arith)
    | inr other ↦ rw (other, remove_absent id m (ground arith)) refl
  ]

  pub total-remove :
      (f : V → ℕ) (id : Text) (m : List (Text × V))
      → HasDistinctKeys m
      → total f (remove id m) + measured f (lookup id m) ≡ total f m
  unfolding remove lookup
  total-remove f id [] h = omega arith
  total-remove f id ((k, v) ∷ m) (fresh, h) = elim (Bool-cases (text_eq k id)) [
    | inl same ↦
        rw same (rw (remove_absent id m (rw (← (text_eq_iff k id).0 same) fresh)) (omega arith))
    | inr other ↦ rw other (omega (arith, total-remove f id m h))
  ]

module _ {K : Type 0} where
  abbrev pub id_of : Entry K → Text
  id_of e = e.context.id

  abbrev pub entry_key : Form → Entry K → Option Text
  entry_key f e = key_of f e.credentials

module _ (s : Shoes) where
  abbrev pub entry_weight : Text → Entry s.VmessAuthKey → ℕ
  entry_weight p e = weight s e.credentials.anytls_hash p

  -- The indexes of the kinds are those of the users.
  pub record IsConsistent (kinds : CredentialKinds) (users : List (Text × Entry s.VmessAuthKey))
      (ix : Indexes s.VmessAuthKey) : Type 0 where
    pub distinct : HasDistinctKeys users
    pub named : (i : Text) (e : Entry s.VmessAuthKey) → lookup i users ≡ some e → id_of e ≡ i
    pub sound :
        (f : Form) → IsSound id_of (entry_key f) (λ i. lookup i users) (indexed (index_of f ix))
    pub complete :
        (f : Form) → IsComplete id_of (entry_key f) (λ i. lookup i users) (indexed (index_of f ix))
    pub allocated : (f : Form) → is_some (index_of f ix) ≡ wanted f kinds
    pub prefixes_allocated : is_some ix.anytls_prefixes ≡ kinds.anytls_password
    pub no_zero : HasNoZero ix.anytls_prefixes
    pub prefixes_counted : (p : Text) → counted ix.anytls_prefixes p ≡ total (entry_weight p) users
