-- ===== src/Engine/Users/Reports/Nonzero.antt =====
-- The sweep that allocates no report for an idle user takes what the full sweep takes.
use node_agent_rs.Base.{
  ℕ, ◌≡◌, refl, ap, ◌∙◌, Bool, true, not, ◌||◌, List, [], ◌∷◌, All, ◌==◌, if◌then◌else◌, Text,
  text_le, text_le_total, text_le_trans, arith, Bool-cases, inl, inr,
}
use node_agent_rs.Engine.Shoes.{Shoes}
use node_agent_rs.Engine.Credentials.{Entry}
use node_agent_rs.Engine.Users.{Registry, UserInfo}
use node_agent_rs.Engine.Users.Reports.{
  taken_user_info, taken_user_info_with_counters, insert_by_id, sort_by_id, take_each,
  take_all_traffic, take_each_nonzero, take_nonzero_traffic,
}

abbrev moved : UserInfo → Bool
moved info = not (info.stats.tx == 0) || not (info.stats.rx == 0)

-- The reports that show traffic.
unfoldable pub with_traffic : List UserInfo → List UserInfo
with_traffic [] = []
with_traffic (info ∷ infos) =
    let rest = with_traffic infos in if moved info then info ∷ rest else rest

abbrev IsLeast : UserInfo → List UserInfo → Type 0
IsLeast info = All (λ (other : UserInfo). text_le info.id other.id ≡ true)

abbrev IsSorted : List UserInfo → Type 0
IsSorted [] = Unit
IsSorted (info ∷ infos) = IsLeast info infos × IsSorted infos

IsLeast-trans :
    (a b : UserInfo) (infos : List UserInfo)
    → text_le a.id b.id ≡ true
    → IsLeast b infos
    → IsLeast a infos
IsLeast-trans a b [] le h = tt
IsLeast-trans a b (c ∷ infos) le (first, h) =
    (text_le_trans a.id b.id c.id le first, IsLeast-trans a b infos le h)

IsLeast-insert_by_id :
    (a b : UserInfo) (infos : List UserInfo)
    → text_le a.id b.id ≡ true
    → IsLeast a infos
    → IsLeast a (insert_by_id b infos)
unfolding insert_by_id
IsLeast-insert_by_id a b [] le h = (le, tt)
IsLeast-insert_by_id a b (c ∷ infos) le (first, h) = elim (Bool-cases (text_le b.id c.id)) [
  | inl before ↦ rw before (le, (first, h))
  | inr after ↦ rw after (first, IsLeast-insert_by_id a b infos le h)
]

insert_by_id-IsSorted :
    (a : UserInfo) (infos : List UserInfo) → IsSorted infos → IsSorted (insert_by_id a infos)
unfolding insert_by_id
insert_by_id-IsSorted a [] h = (tt, tt)
insert_by_id-IsSorted a (b ∷ infos) (least, h) = elim (Bool-cases (text_le a.id b.id)) [
  | inl before ↦ rw before ((before, IsLeast-trans a b infos before least), (least, h))
  | inr after ↦ rw after (
    IsLeast-insert_by_id b a infos (text_le_total a.id b.id after) least,
    insert_by_id-IsSorted a infos h,
  )
]

sort_by_id-IsSorted : (infos : List UserInfo) → IsSorted (sort_by_id infos)
unfolding sort_by_id
sort_by_id-IsSorted [] = tt
sort_by_id-IsSorted (a ∷ infos) =
    insert_by_id-IsSorted a (sort_by_id infos) (sort_by_id-IsSorted infos)

insert_by_id_least :
    (a : UserInfo) (infos : List UserInfo) → IsLeast a infos → insert_by_id a infos ≡ a ∷ infos
unfolding insert_by_id
insert_by_id_least a [] h = refl
insert_by_id_least a (b ∷ infos) (first, h) = rw first refl

with_traffic-IsLeast :
    (a : UserInfo) (infos : List UserInfo) → IsLeast a infos → IsLeast a (with_traffic infos)
unfolding with_traffic
with_traffic-IsLeast a [] h = tt
with_traffic-IsLeast a (b ∷ infos) (first, h) = elim (Bool-cases (moved b)) [
  | inl has ↦ rw has (first, with_traffic-IsLeast a infos h)
  | inr idle ↦ rw idle (with_traffic-IsLeast a infos h)
]

with_traffic-insert_by_id :
    (a : UserInfo) (infos : List UserInfo)
    → IsSorted infos
    → with_traffic (insert_by_id a infos)
      ≡ (if moved a then insert_by_id a (with_traffic infos) else with_traffic infos)
unfolding with_traffic insert_by_id
with_traffic-insert_by_id a [] h = refl
with_traffic-insert_by_id a (b ∷ infos) (least, h) = elim (Bool-cases (text_le a.id b.id)) [
  | inl before ↦
      let least_of_all =
        with_traffic-IsLeast a (b ∷ infos) (before, IsLeast-trans a b infos before least) in
      rw (before, insert_by_id_least a (with_traffic (b ∷ infos)) least_of_all) refl
  | inr after ↦ rw (after, with_traffic-insert_by_id a infos h) (ground arith)
]

sort_by_id-with_traffic :
    (infos : List UserInfo) → sort_by_id (with_traffic infos) ≡ with_traffic (sort_by_id infos)
unfolding sort_by_id with_traffic
sort_by_id-with_traffic [] = refl
sort_by_id-with_traffic (a ∷ infos) =
    rw (with_traffic-insert_by_id a (sort_by_id infos) (sort_by_id-IsSorted infos))
      (elim (Bool-cases (moved a)) [
        | inl has ↦ rw has (ap (insert_by_id a) (sort_by_id-with_traffic infos))
        | inr idle ↦ rw idle (sort_by_id-with_traffic infos)
      ])

module _ (s : Shoes) where
  take_each_nonzero-with_traffic :
      (users : List (Text × Entry s.VmessAuthKey)) (heap : ℕ → s.Cell)
      → ((take_each_nonzero s heap users).0 ≡ with_traffic (take_each s heap users).0)
        × ((take_each_nonzero s heap users).1 ≡ (take_each s heap users).1)
  unfolding take_each take_each_nonzero with_traffic taken_user_info taken_user_info_with_counters
  take_each_nonzero-with_traffic [] heap = (refl, refl)
  take_each_nonzero-with_traffic ((id, e) ∷ users) heap =
      let (same_infos, same_heap) = take_each_nonzero-with_traffic users _ in
      (rw same_infos refl, same_heap)

  -- `take_nonzero_traffic` reports what `take_all_traffic` reports less the users who moved no byte,
  -- in the same order, and leaves the registry that it leaves.
  pub take_nonzero_traffic-take_all_traffic :
      (r : Registry s)
      → ((take_nonzero_traffic s r).0 ≡ with_traffic (take_all_traffic s r).0)
        × ((take_nonzero_traffic s r).1 ≡ (take_all_traffic s r).1)
  unfolding take_nonzero_traffic take_all_traffic
  take_nonzero_traffic-take_all_traffic r =
      let (same_infos, same_heap) = take_each_nonzero-with_traffic r.users r.heap in
      (
        ap sort_by_id same_infos ∙ sort_by_id-with_traffic (take_each s r.heap r.users).0,
        ap (λ (heap : ℕ → s.Cell). record r { heap = heap }) same_heap,
      )
