-- ===== src/Engine/Users/Reports/Sweeps.antt =====
-- A sweep reports of every user what stood before it, and leaves nothing to report again.
use mathlib.Core.Path.{subst}
use node_agent_rs.Base.{
  ℕ, ◌≡◌, ◌≢◌, refl, sym, ap, ◌∙◌, some, List, [], ◌∷◌, All, ◌==◌, ==_iff, Text, text_eq,
  text_eq_iff, lookup, arith, Bool-cases, inl, inr,
}
use node_agent_rs.Engine.Kinds.{CredentialKinds}
use node_agent_rs.Engine.Shoes.{Shoes, UserContext, write_cell}
use node_agent_rs.Engine.Credentials.{Entry}
use node_agent_rs.Engine.Users.{Registry, new_registry}
use node_agent_rs.Engine.Users.Consistent.{HasDistinctKeys}
use node_agent_rs.Engine.Users.Initial.{new_registry-IsValid}
use node_agent_rs.Engine.Users.Runs.{Reach, Reach-IsValid}
use node_agent_rs.Engine.Users.Reports.{
  info_of, taken_user_info, taken_user_info_with_counters, take_each, take_all_traffic, infos,
  list_users, sort_by_id,
}

-- What `take_traffic` is documented to do: it answers the counters and zeroes them.
pub record TakeLaws (s : Shoes) : Type 0 where
  pub takes_tx : (c : s.Cell) → (s.take_traffic c).0.0 ≡ (s.stats c).tx
  pub takes_rx : (c : s.Cell) → (s.take_traffic c).0.1 ≡ (s.stats c).rx
  pub leaves_zero :
      (c : s.Cell) → s.stats (s.take_traffic c).1 ≡ record (s.stats c) { tx = 0; rx = 0 }

-- What holds of each value under its key holds of each entry of a map with distinct keys.
All-of_lookup :
    {V : Type 0} (P : V → Type 0) (m : List (Text × V))
    → HasDistinctKeys m
    → ((k : Text) (v : V) → lookup k m ≡ some v → P v)
    → All (λ (p : Text × V). P p.1) m
unfolding lookup
All-of_lookup P [] d h = tt
All-of_lookup P ((k, v) ∷ m) (fresh, d) h = (
  h k v (ground (arith, text_eq_iff k k)),
  All-of_lookup P m d λ j w at. h j w (ground (arith, text_eq_iff k j)),
)

All-lookup :
    {V : Type 0} (P : V → Type 0) (m : List (Text × V)) (k : Text) (v : V)
    → All (λ (p : Text × V). P p.1) m
    → lookup k m ≡ some v
    → P v
unfolding lookup
All-lookup P [] k v h at = ground arith
All-lookup {V} P ((j, w) ∷ m) k v (first, h) at = elim (Bool-cases (text_eq j k)) [
  | inl same ↦ subst P (ground arith) first
  | inr differs ↦ All-lookup P m k v h (ground arith)
]

write_cell_other :
    {C : Type 0} (a b : ℕ) (c : C) (heap : ℕ → C) → a ≢ b → write_cell b c heap a ≡ heap a
write_cell_other a b c heap differs = ground (arith, ==_iff a b)

module _ (s : Shoes) where
  abbrev Users : Type 0
  Users = List (Text × Entry s.VmessAuthKey)

  -- The record at the address belongs to none of the users.
  abbrev pub Avoids : ℕ → Users → Type 0
  Avoids a users = All (λ (p : Text × Entry s.VmessAuthKey). p.1.context.address ≢ a) users

  abbrev HasOwnCells : Users → Type 0
  HasOwnCells [] = Unit
  HasOwnCells ((k, e) ∷ users) = Avoids e.context.address users × HasOwnCells users

  own_cells :
      (users : Users)
      → HasDistinctKeys users
      → ((i j : Text) (e d : Entry s.VmessAuthKey)
          → lookup i users ≡ some e
          → lookup j users ≡ some d
          → e.context.address ≡ d.context.address
          → i ≡ j)
      → HasOwnCells users
  unfolding lookup
  own_cells [] d h = tt
  own_cells ((k, e) ∷ users) (fresh, d) h = (
    All-of_lookup (λ (x : Entry s.VmessAuthKey). x.context.address ≢ e.context.address) users d
        λ j x at same. ground (
          arith,
          h j k x e,
          text_eq_iff k j,
          text_eq_iff k k,
          ap (λ i. lookup i users)
              (h j k x e (ground (arith, text_eq_iff k j)) (ground (arith, text_eq_iff k k)) same),
        ),
    own_cells users d λ i j x y at_i at_j same.
        h i j x y (ground (arith, text_eq_iff k i)) (ground (arith, text_eq_iff k j)) same,
  )

  infos_write :
      (heap : ℕ → s.Cell) (a : ℕ) (c : s.Cell) (users : Users)
      → Avoids a users
      → infos s (write_cell a c heap) users ≡ infos s heap users
  unfolding infos
  infos_write heap a c [] h = refl
  infos_write heap a c ((k, e) ∷ users) (other, h) = elim (Bool-cases (e.context.address == a)) [
    | inl same ↦ absurd (other ((==_iff e.context.address a).0 same))
    | inr differs ↦
        rw differs
          (ap (◌∷◌ (info_of s e.context (heap e.context.address))) (infos_write heap a c users h))
  ]

module _ (s : Shoes) (laws : TakeLaws s) where
  taken_user_info_lem :
      (context : UserContext) (cell : s.Cell)
      → taken_user_info s context cell ≡ (info_of s context cell, (s.take_traffic cell).1)
  unfolding taken_user_info taken_user_info_with_counters
  taken_user_info_lem context cell =
      rw (laws.leaves_zero cell, laws.takes_tx cell, laws.takes_rx cell) refl

  -- The reports of a sweep are those that a list gives before it.
  take_each-infos :
      (users : Users s) (heap : ℕ → s.Cell)
      → HasOwnCells s users
      → (take_each s heap users).0 ≡ infos s heap users
  unfolding take_each infos
  take_each-infos [] heap h = refl
  take_each-infos ((k, e) ∷ users) heap (other, h) =
      rw (taken_user_info_lem e.context (heap e.context.address)) (
        ap (◌∷◌ (info_of s e.context (heap e.context.address)))
          (take_each-infos users _ h ∙ infos_write s heap e.context.address _ users other))

  -- A sweep leaves the records of others.
  take_each_others :
      (users : Users s) (heap : ℕ → s.Cell) (a : ℕ)
      → Avoids s a users
      → (take_each s heap users).1 a ≡ heap a
  unfolding take_each
  take_each_others [] heap a h = refl
  take_each_others ((k, e) ∷ users) heap a (other, h) = elim (Bool-cases (a == e.context.address)) [
    | inl same ↦ absurd (other (sym ((==_iff a e.context.address).0 same)))
    | inr differs ↦ take_each_others users _ a h ∙ rw differs refl
  ]

  taken_user_info_cell :
      (context : UserContext) (cell : s.Cell)
      → s.stats (taken_user_info s context cell).1 ≡ record (s.stats cell) { tx = 0; rx = 0 }
  taken_user_info_cell context cell = rw (taken_user_info_lem context cell) (laws.leaves_zero cell)

  -- The record of the first user, after the sweep.
  take_each_empties_first :
      (d : Entry s.VmessAuthKey) (users : Users s) (heap : ℕ → s.Cell)
      → Avoids s d.context.address users
      → s.stats (
          (take_each s
              (write_cell d.context.address
                (taken_user_info s d.context (heap d.context.address)).1
                heap)
              users).1
            d.context.address)
        ≡ record (s.stats (heap d.context.address)) { tx = 0; rx = 0 }
  take_each_empties_first d users heap other =
      ap s.stats (take_each_others users _ d.context.address other)
      ∙ rw ((==_iff d.context.address d.context.address).1 refl)
          (taken_user_info_cell d.context (heap d.context.address))

  take_each_empties :
      (users : Users s) (heap : ℕ → s.Cell)
      → HasOwnCells s users
      → (k : Text) (e : Entry s.VmessAuthKey) → lookup k users ≡ some e
      → s.stats ((take_each s heap users).1 e.context.address)
        ≡ record (s.stats (heap e.context.address)) { tx = 0; rx = 0 }
  unfolding take_each lookup
  take_each_empties [] heap h k e at = ground arith
  take_each_empties ((j, d) ∷ users) heap (other, h) k e at = elim (Bool-cases (text_eq j k)) [
    | inl same ↦
        let found : e ≡ d = ground arith in
        rw (ap (λ (x : Entry s.VmessAuthKey). x.context.address) found)
          (take_each_empties_first d users heap other)
    | inr differs ↦
        let later : lookup k users ≡ some e = ground arith in
        take_each_empties users _ h k e later
        ∙ rw
            (write_cell_other e.context.address d.context.address _ heap (
              All-lookup (λ (x : Entry s.VmessAuthKey). x.context.address ≢ d.context.address) users
                k e other later))
            refl
  ]

module _ (s : Shoes) (laws : TakeLaws s) (kinds : CredentialKinds) (r : Registry s)
    (reached : Reach s (new_registry s kinds) r) where
  live_cells : HasOwnCells s r.users
  live_cells =
      let valid = Reach-IsValid s (new_registry-IsValid s kinds) reached in
      own_cells s r.users valid.agree.distinct valid.separate.own_cells

  -- On a registry that was reached from a new one, if the counters of a record are taken as
  -- documented, `take_all_traffic` reports what `list` does, zeroes the counters of every live user
  -- and nothing else of theirs, and leaves every other record.
  pub take_all_traffic-list_users :
      ((take_all_traffic s r).0 ≡ list_users s r)
      × ((id : Text) (e : Entry s.VmessAuthKey)
          → lookup id r.users ≡ some e
          → s.stats ((take_all_traffic s r).1.heap e.context.address)
            ≡ record (s.stats (r.heap e.context.address)) { tx = 0; rx = 0 })
      × ((a : ℕ) → Avoids s a r.users → (take_all_traffic s r).1.heap a ≡ r.heap a)
  unfolding take_all_traffic list_users
  take_all_traffic-list_users = (
    ap sort_by_id (take_each-infos s laws r.users r.heap live_cells),
    take_each_empties s laws r.users r.heap live_cells,
    take_each_others s laws r.users r.heap,
  )
