-- ===== src/Engine/Users/Adds.antt =====
-- Adding or updating a user keeps the indexes consistent, and does not panic.
use node_agent_rs.Base.{
  ℕ, ◌+◌, ◌-◌, ◌≡◌, refl, sym, true, Option, none, some, if◌then◌else◌, Text, text_eq_iff, ok,
  Bool-cases, inl, inr, arith,
}
use node_agent_rs.Engine.Shoes.{Shoes}
use node_agent_rs.Engine.Credentials.{Entry, Credentials, is_some}
use node_agent_rs.Engine.Indexes.{Index, Indexes, opt_eq, owner, claimed_by_other}
use node_agent_rs.Engine.Indexes.Owned.{old_key, opt_eq_iff}
use node_agent_rs.Engine.Indexes.Keys.{indexed, retired_key, Without, With}
use node_agent_rs.Engine.Indexes.Prefixes.{HasNoZero, Counts, weight, claimed_key}
use node_agent_rs.Engine.Indexes.Forms.{Form, key_of, index_of, Fits, retire_keys_total}
use node_agent_rs.Engine.Users.{retire_previous}
use node_agent_rs.Engine.Users.Consistent.{id_of, entry_key}

abbrev no_credentials : Credentials
no_credentials = record {
  uuid = none;
  trojan_hash = none;
  password = none;
  shadowsocks = none;
  tuic_password = none;
  anytls_hash = none;
  naive_encoded = none;
}

module _ {K : Type 0} where
  abbrev pub old_credentials : Option (Entry K) → Credentials
  old_credentials none = no_credentials
  old_credentials (some e) = e.credentials

  pub old_key_lem :
      (f : Form) (o : Option (Entry K)) → old_key (entry_key f) o ≡ key_of f (old_credentials o)
  old_key_lem Form.by_uuid none = refl
  old_key_lem Form.by_trojan_hash none = refl
  old_key_lem Form.by_password none = refl
  old_key_lem Form.by_psk_hash none = refl
  old_key_lem Form.by_anytls_hash none = refl
  old_key_lem Form.by_naive_encoded none = refl
  old_key_lem f (some e) = refl

  -- A key that is not claimed by another is at most the user's own.
  pub unclaimed :
      (id : Text) (ix : Index K) (key : Option Text)
      → claimed_by_other id ix key ≡ none
      → (k : Text) (e : Entry K) → key ≡ some k
      → indexed ix k ≡ some e
      → id_of e ≡ id
  unfolding claimed_by_other owner
  unclaimed id none key h k e kk found = ground arith
  unclaimed id (some m) none h k e kk found = ground arith
  unclaimed id (some m) (some key) h k e kk found = ground (arith, text_eq_iff (id_of e) id)

  -- What retiring and filing do to one index together.
  pub moved :
      (old new : Option Text) (e : Entry K) (before middle after : Index K)
      → Without (retired_key old new) before middle
      → With new e middle after
      → (k : Text)
      → indexed after k ≡ (
          if opt_eq new (some k)
          then some e
          else if opt_eq old (some k)
          then none
          else indexed before k)
  moved old new e before middle after w f k = ground (
    arith,
    w.left k,
    f.left k,
    opt_eq_iff old new,
    opt_eq_iff old (some k),
    opt_eq_iff new (some k),
    opt_eq_iff none (some k),
  )

module _ (s : Shoes) where
  pub retire_previous_total :
      (previous : Option (Entry s.VmessAuthKey)) (new : Credentials) (ix : Indexes s.VmessAuthKey)
      → Fits (old_credentials previous) ix
      → HasNoZero ix.anytls_prefixes
      → (after : Indexes s.VmessAuthKey) × (retire_previous s previous new ix ≡ ok after)
        × ((f : Form)
            → Without
                (retired_key (key_of f (old_credentials previous)) (key_of f new))
                (index_of f ix)
                (index_of f after))
        × Counts s none
            (retired_key (old_credentials previous).anytls_hash new.anytls_hash)
            ix.anytls_prefixes
            after.anytls_prefixes
  unfolding retire_previous
  retire_previous_total none new ix fits no_zero = (
    ix,
    refl,
    λ f. record {
      as_allocated = refl;
      left = λ k.
          nothing (key_of f no_credentials) (key_of f new) k (indexed (index_of f ix) k)
            (sym (old_key_lem {K = s.VmessAuthKey} f none));
    },
    record { as_allocated = refl; no_zero = no_zero; counts = λ p. ground arith },
  )
    where
      nothing :
          (old new' : Option Text) (k : Text) (at : Option (Entry s.VmessAuthKey))
          → old ≡ none
          → at ≡ (if opt_eq (retired_key old new') (some k) then none else at)
      nothing old new' k at e = ground (arith, opt_eq_iff none (some k), opt_eq_iff old (some k))
  retire_previous_total (some previous) new ix fits no_zero =
      retire_keys_total s previous.credentials new ix fits no_zero

  pub owner_found :
      (ix : Index s.VmessAuthKey) (key : Text) → is_some (owner ix key) ≡ is_some (indexed ix key)
  unfolding owner
  owner_found none key = refl
  owner_found (some m) key = ground arith

  -- A prefix is claimed for a hash that the user did not have.
  pub claimed_key_lem :
      (old new : Option Text) (ix middle : Index s.VmessAuthKey)
      → Without (retired_key old new) ix middle
      → ((k : Text) → old ≡ some k → is_some (indexed ix k) ≡ true)
      → ((k : Text) → new ≡ some k → is_some (indexed ix k) ≡ true → old ≡ some k)
      → claimed_key s new middle ≡ (if opt_eq old new then none else new)
  claimed_key_lem old none ix middle w held own = ground arith
  claimed_key_lem old (some key) ix middle w held own = ground (
    arith,
    owner_found middle key,
    w.left key,
    held key,
    own key,
    opt_eq_iff old (some key),
    opt_eq_iff none (some key),
  )

  -- The count of a prefix after a user's hash went from `old` to `new`.
  pub recounted :
      (old new : Option Text) (p : Text) (c before after rest : ℕ)
      → rest + weight s old p ≡ before
      → c ≡ before + 0 - weight s (retired_key old new) p
      → after ≡ c + weight s (if opt_eq old new then none else new) p - 0
      → after ≡ rest + weight s new p
  recounted old new p c before after rest h k l = elim (Bool-cases (opt_eq old new)) [
    | inl same ↦ ground (arith, opt_eq_iff old new)
    | inr changed ↦ ground arith
  ]
