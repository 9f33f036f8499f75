-- ===== src/PortHopping/Plan/Redirects.antt =====
-- `remove_self_redirects` and `first_overlap` as operations on sets of ports.
use node_agent_rs.Base.{
  ℕ, ◌+◌, ◌-◌, ◌≤◌, ◌≡◌, refl, ◌∙◌, inl, inr, true, false, ◌&&◌, not, none, some, List, [], ◌∷◌,
  ◌==◌, any-append, arith, Option-cases, Bool-cases,
}
use node_agent_rs.PortHopping.Ranges.{PortRange, contains, covers, IsNormalized}
use node_agent_rs.PortHopping.Ranges.Canonical.{IsNormalized-mono}
use node_agent_rs.PortHopping.Plan.{
  split_off, remove_self_redirects, first_overlap_with, first_overlap,
}

covers-split_off :
    (r : PortRange) (listen_port p : ℕ)
    → contains r listen_port ≡ true
    → covers (split_off r listen_port) p ≡ (contains r p && not (p == listen_port))
unfolding split_off contains
covers-split_off r l p h = ground arith

contains_ne :
    (r : PortRange) (l p : ℕ) → contains r l ≡ false → contains r p ≡ (contains r p && not (p == l))
unfolding contains
contains_ne r l p h = ground arith

-- Removing a node's own listen port from its ranges removes that port and no other.
pub covers-remove_self_redirects :
    (rs : List PortRange) (listen_port p : ℕ)
    → covers (remove_self_redirects rs listen_port) p ≡ (covers rs p && not (p == listen_port))
unfolding remove_self_redirects
covers-remove_self_redirects [] l p = refl
covers-remove_self_redirects (r ∷ rs) l p = elim (Bool-cases (contains r l)) [
  | inl inside ↦
      rw
        (
          inside,
          any-append (λ x. contains x p) (split_off r l) (remove_self_redirects rs l),
          covers-split_off r l p inside,
          covers-remove_self_redirects rs l p,
        )
        (ground arith)
  | inr outside ↦
      rw (outside, covers-remove_self_redirects rs l p) (ground (arith, contains_ne r l p outside))
]

-- What is left is normalized again.
pub remove_self_redirects-IsNormalized :
    (lo : ℕ) (rs : List PortRange) (listen_port : ℕ)
    → IsNormalized lo rs
    → IsNormalized lo (remove_self_redirects rs listen_port)
unfolding remove_self_redirects contains split_off
remove_self_redirects-IsNormalized lo [] l v = tt
remove_self_redirects-IsNormalized lo (r ∷ rs) l v =
    let rest = remove_self_redirects rs l in
    let ih = remove_self_redirects-IsNormalized (r.end + 2) rs l v.3 in
    ground (
      arith,
      ih,
      IsNormalized-mono lo (r.end + 2) rest,
      IsNormalized-mono (l - 1 + 2) (r.end + 2) rest,
    )

first_overlap_with-none :
    (r : PortRange) (rs : List PortRange) (p : ℕ)
    → first_overlap_with r rs ≡ none
    → (contains r p && covers rs p) ≡ false
unfolding first_overlap_with contains
first_overlap_with-none r [] p h = ground arith
first_overlap_with-none r (s ∷ rs) p h = ground (arith, first_overlap_with-none r rs p)

first_overlap_with-some :
    (r o : PortRange) (rs : List PortRange) (p : ℕ)
    → first_overlap_with r rs ≡ some o
    → contains o p ≡ true
    → (contains r p ≡ true) × (covers rs p ≡ true)
unfolding first_overlap_with contains
first_overlap_with-some r o [] p h k = ground arith
first_overlap_with-some r o (s ∷ rs) p h k = ground (arith, first_overlap_with-some r o rs p)

-- `first_overlap` finds nothing exactly where the two lists share no port.
pub first_overlap-none :
    (xs ys : List PortRange) (p : ℕ)
    → first_overlap xs ys ≡ none
    → (covers xs p && covers ys p) ≡ false
unfolding first_overlap
first_overlap-none [] ys p h = refl
first_overlap-none (x ∷ xs) ys p h =
    ground (arith, first_overlap_with-none x ys p, first_overlap-none xs ys p)

-- What it finds is a range that is not reversed.
first_overlap_with-some_bounds :
    (r o : PortRange) (rs : List PortRange) → first_overlap_with r rs ≡ some o → o.start ≤ o.end
unfolding first_overlap_with
first_overlap_with-some_bounds r o [] h = ground arith
first_overlap_with-some_bounds r o (s ∷ rs) h =
    ground (arith, first_overlap_with-some_bounds r o rs)

-- What `first_overlap` finds is not empty, and both lists cover every port of it.
pub first_overlap-some :
    (xs ys : List PortRange) (o : PortRange)
    → first_overlap xs ys ≡ some o
    → (o.start ≤ o.end)
      × ((p : ℕ) → contains o p ≡ true → (covers xs p ≡ true) × (covers ys p ≡ true))
unfolding first_overlap
first_overlap-some [] ys o h = ground arith
first_overlap-some (x ∷ xs) ys o h = elim (Option-cases (first_overlap_with x ys)) [
  | inl missed ↦
      let (b, f) = first_overlap-some xs ys o (rw missed at h) in (b, λ p k. ground (arith, f p k))
  | inr (o', found) ↦
      let found' : first_overlap_with x ys ≡ some o = found ∙ (rw found at h) in
      (
        first_overlap_with-some_bounds x o ys found',
        λ p k. ground (arith, first_overlap_with-some x o ys p found' k),
      )
]
