-- ===== src/PortHopping/Plan/Conflicts.antt =====
-- What the two conflict checks of `build_plan` establish, and that sorting loses no redirect.
use node_agent_rs.Base.{
  ℕ, ◌≡◌, refl, inl, inr, true, false, ◌&&◌, Option, none, some, List, [], ◌∷◌, ◌++◌, All,
  All-split, arith, Text, text_eq, text_eq_iff, text_le, text_le_total, ok, >>=-eq-ok, Bool-cases,
  lookup, Has,
}
use node_agent_rs.PortHopping.Ranges.{PortRange, contains, covers}
use node_agent_rs.PortHopping.Plan.{Redirect, first_overlap}
use node_agent_rs.PortHopping.Plan.Redirects.{first_overlap-none}
use node_agent_rs.PortHopping.Plan.Build.{
  insert_redirect, sort_redirects, check_listen_port, check_ranges, check_listen_ports,
  overlap_error, check_lefts, check_overlaps,
}

-- Two redirects that share no port.
abbrev pub Disjoint : Redirect → Redirect → Type 0
Disjoint r s = (p : ℕ) → (covers r.ports p && covers s.ports p) ≡ false

abbrev pub AllDisjoint : List Redirect → Type 0
AllDisjoint [] = Unit
AllDisjoint (r ∷ rs) = All (Disjoint r) rs × AllDisjoint rs

-- Redirects in the order of their node ids.
abbrev pub Ordered : Text → List Redirect → Type 0
Ordered id [] = Unit
Ordered id (r ∷ rs) = (text_le id r.node_id ≡ true) × Ordered r.node_id rs

lefts-split :
    (before : List Redirect) (right : Redirect) (rest : List Redirect)
    → All (λ r. All (λ left. Disjoint left r) (before ++ right ∷ [])) rest
    → All (λ r. All (λ left. Disjoint left r) before) rest × All (Disjoint right) rest
lefts-split before right [] h = (tt, tt)
lefts-split before right (r ∷ rest) h =
    let (olds, new) = All-split (λ left. Disjoint left r) before (right ∷ []) h.0 in
    let (ih, ih') = lefts-split before right rest h.1 in ((olds, ih), (new.0, ih'))

insert_redirect-All :
    (P : Redirect → Type 0) (r : Redirect) (rs : List Redirect)
    → P r
    → All P rs
    → All P (insert_redirect r rs)
unfolding insert_redirect
insert_redirect-All P r [] h k = (h, tt)
insert_redirect-All P r (x ∷ xs) h k = elim (Bool-cases (text_le r.node_id x.node_id)) [
  | inl first ↦ rw first (h, k)
  | inr later ↦ rw later (k.0, insert_redirect-All P r xs h k.1)
]

pub sort_redirects-All :
    (P : Redirect → Type 0) (rs : List Redirect) → All P rs → All P (sort_redirects rs)
unfolding sort_redirects
sort_redirects-All P [] h = tt
sort_redirects-All P (r ∷ rs) h =
    insert_redirect-All P r (sort_redirects rs) h.0 (sort_redirects-All P rs h.1)

insert_redirect-Has_self : (r : Redirect) (rs : List Redirect) → Has r (insert_redirect r rs)
unfolding insert_redirect
insert_redirect-Has_self r [] = inl refl
insert_redirect-Has_self r (x ∷ xs) = elim (Bool-cases (text_le r.node_id x.node_id)) [
  | inl first ↦ rw first (inl refl)
  | inr later ↦ rw later (inr (insert_redirect-Has_self r xs))
]

insert_redirect-Has_other :
    (r s : Redirect) (rs : List Redirect) → Has s rs → Has s (insert_redirect r rs)
unfolding insert_redirect
insert_redirect-Has_other r s [] h = elim h [ ]
insert_redirect-Has_other r s (x ∷ xs) h = elim (Bool-cases (text_le r.node_id x.node_id)) [
  | inl first ↦ rw first (inr h)
  | inr later ↦
      rw later (elim h [ inl e ↦ inl e | inr k ↦ inr (insert_redirect-Has_other r s xs k) ])
]

pub sort_redirects-Has : (s : Redirect) (rs : List Redirect) → Has s rs → Has s (sort_redirects rs)
unfolding sort_redirects
sort_redirects-Has s [] h = elim h [ ]
sort_redirects-Has s (r ∷ rs) (inl e) = rw e (insert_redirect-Has_self r (sort_redirects rs))
sort_redirects-Has s (r ∷ rs) (inr h) =
    insert_redirect-Has_other r s (sort_redirects rs) (sort_redirects-Has s rs h)

insert_redirect-Ordered :
    (id : Text) (r : Redirect) (rs : List Redirect)
    → text_le id r.node_id ≡ true
    → Ordered id rs
    → Ordered id (insert_redirect r rs)
unfolding insert_redirect
insert_redirect-Ordered id r [] h k = (h, tt)
insert_redirect-Ordered id r (x ∷ xs) h k = elim (Bool-cases (text_le r.node_id x.node_id)) [
  | inl first ↦ rw first (h, (first, k.1))
  | inr later ↦
      rw later
        (k.0, insert_redirect-Ordered x.node_id r xs (text_le_total r.node_id x.node_id later) k.1)
]

pub sort_redirects-Ordered : (rs : List Redirect) → Ordered [] (sort_redirects rs)
unfolding sort_redirects text_le
sort_redirects-Ordered [] = tt
sort_redirects-Ordered (r ∷ rs) =
    insert_redirect-Ordered [] r (sort_redirects rs) refl (sort_redirects-Ordered rs)

module _ {E : Type 0} where
  check_listen_port_sound :
      (id other : Text) (range : PortRange) (port : ℕ) (m : List (Text × ℕ))
      → check_listen_port {E = E} id range m ≡ ok tt
      → lookup other m ≡ some port
      → text_eq id other ≡ false
      → contains range port ≡ false
  unfolding check_listen_port lookup
  check_listen_port_sound id other range port [] e found ne = ground arith
  check_listen_port_sound id other range port ((j, p) ∷ rest) e found ne = ground (
    arith,
    text_eq_iff id j,
    text_eq_iff j other,
    text_eq_iff id other,
    check_listen_port_sound id other range port rest,
  )

  check_ranges_sound :
      (id other : Text) (ranges : List PortRange) (port : ℕ) (m : List (Text × ℕ))
      → check_ranges {E = E} id ranges m ≡ ok tt
      → lookup other m ≡ some port
      → text_eq id other ≡ false
      → covers ranges port ≡ false
  unfolding check_ranges
  check_ranges_sound id other [] port m e found ne = refl
  check_ranges_sound id other (r ∷ rs) port m e found ne =
      let (_, p, q) = >>=-eq-ok (check_listen_port id r m) _ e in
      ground (
        arith,
        check_listen_port_sound id other r port m p found ne,
        check_ranges_sound id other rs port m q found ne,
      )

  -- After the second check no node's original ranges cover another node's listen port.
  pub check_listen_ports_sound :
      (id other : Text) (ranges : List PortRange) (port : ℕ)
      (hopping : List (Text × List PortRange)) (m : List (Text × ℕ))
      → check_listen_ports {E = E} hopping m ≡ ok tt
      → lookup id hopping ≡ some ranges
      → lookup other m ≡ some port
      → text_eq id other ≡ false
      → covers ranges port ≡ false
  unfolding check_listen_ports lookup
  check_listen_ports_sound id other ranges port [] m e h found ne = ground arith
  check_listen_ports_sound id other ranges port ((j, rs) ∷ rest) m e h found ne =
      let (_, p, q) = >>=-eq-ok (check_ranges j rs m) _ e in
      elim (Bool-cases (text_eq j id)) [
        | inl same ↦
            let same_ranges : rs ≡ ranges = cc (rw same at h) in
            rw (← same_ranges)
              (check_ranges_sound j other rs port m p found (rw ((text_eq_iff j id).0 same) ne))
        | inr differs ↦
            check_listen_ports_sound id other ranges port rest m q (rw differs at h) found ne
      ]

  overlap_error_sound :
      (left right : Redirect) (o : Option PortRange)
      → overlap_error {E = E} left right o ≡ ok tt
      → o ≡ none
  unfolding overlap_error
  overlap_error_sound left right none e = refl
  overlap_error_sound left right (some range) e = cc

  check_lefts_sound :
      (lefts : List Redirect) (right : Redirect)
      → check_lefts {E = E} lefts right ≡ ok tt
      → All (λ left. Disjoint left right) lefts
  unfolding check_lefts
  check_lefts_sound [] right e = tt
  check_lefts_sound (left ∷ rest) right e =
      let (_, p, q) =
        >>=-eq-ok (overlap_error left right (first_overlap left.ports right.ports)) _ e in
      (
        λ port. first_overlap-none left.ports right.ports port (overlap_error_sound left right _ p),
        check_lefts_sound rest right q,
      )

  check_overlaps-lefts :
      (before rest : List Redirect)
      → check_overlaps {E = E} before rest ≡ ok tt
      → All (λ right. All (λ left. Disjoint left right) before) rest × AllDisjoint rest
  unfolding check_overlaps
  check_overlaps-lefts before [] e = (tt, tt)
  check_overlaps-lefts before (right ∷ rest) e =
      let (_, p, q) = >>=-eq-ok (check_lefts before right) _ e in
      let (lefts, disjoint) = check_overlaps-lefts (before ++ right ∷ []) rest q in
      let (olds, news) = lefts-split before right rest lefts in
      ((check_lefts_sound before right p, olds), (news, disjoint))

  -- After the third check no two redirects share a port.
  pub check_overlaps_sound :
      (rs : List Redirect) → check_overlaps {E = E} [] rs ≡ ok tt → AllDisjoint rs
  check_overlaps_sound rs e = (check_overlaps-lefts [] rs e).1
