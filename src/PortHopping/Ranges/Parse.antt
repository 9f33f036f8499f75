-- ===== src/PortHopping/Ranges/Parse.antt =====
-- What `parse_port_ranges` returns when it succeeds.
use mathlib.Core.Path.{subst}
use node_agent_rs.Base.{
  ℕ, ◌+◌, ◌*◌, ◌-◌, ◌≤◌, ◌≡◌, refl, Option, none, some, List, [], ◌∷◌, All, arith, inl, inr, Text,
  ok, Bool-cases, map_err, map_err-eq-ok, >>=-eq-ok, ok-injective,
}
use node_agent_rs.PortHopping.Ranges.{
  PortRange, invalid_item, parse_u16, parse_port, make_range, parse_bounds, parse_item, parse_items,
  parse_port_ranges, IsNormalized, u16_max, is_empty, trim, split, nonzero_port,
}
use node_agent_rs.PortHopping.Ranges.Merge.{IsRange, merge_port_ranges-IsNormalized}
use node_agent_rs.PortHopping.Ranges.Canonical.{IsNormalized-unique, SamePorts}

parse_u16-le :
    (value : ℕ) (s : Text) (n : ℕ) → value ≤ u16_max → parse_u16 value s ≡ some n → n ≤ u16_max
unfolding parse_u16
parse_u16-le value [] n h e = ground arith
parse_u16-le value (c ∷ s) n h e = ground (arith, parse_u16-le (value * 10 + (c - b'0')) s n)

nonzero_port_bounds :
    (o : Option ℕ) (n : ℕ)
    → ((m : ℕ) → o ≡ some m → m ≤ u16_max)
    → nonzero_port o ≡ ok n
    → (1 ≤ n) × (n ≤ u16_max)
unfolding nonzero_port
nonzero_port_bounds none n h e = ground arith
nonzero_port_bounds (some m) n h e = ground (arith, h m refl)

-- A port that parses is nonzero and in u16.
pub parse_port_bounds : (s : Text) (n : ℕ) → parse_port s ≡ ok n → (1 ≤ n) × (n ≤ u16_max)
unfolding parse_port
parse_port_bounds s n e =
    ground (arith, nonzero_port_bounds (parse_u16 0 s) n (λ m. parse_u16-le 0 s m (omega arith)))

make_range-IsRange :
    (item : Text) (a b : ℕ) (r : PortRange)
    → (1 ≤ a) × (a ≤ u16_max)
    → (1 ≤ b) × (b ≤ u16_max)
    → make_range item a b ≡ ok r
    → IsRange 1 r
unfolding make_range
make_range-IsRange item a b r ha hb e = ground arith

parse_bounds-IsRange :
    (item : Text) (parts : List Text) (r : PortRange) → parse_bounds item parts ≡ ok r → IsRange 1 r
unfolding parse_bounds
parse_bounds-IsRange item [] r e = ground arith
parse_bounds-IsRange item (a ∷ []) r e =
    let (m, p, q) = >>=-eq-ok (map_err (invalid_item item) (parse_port (trim a))) _ e in
    let h = parse_port_bounds (trim a) m (map_err-eq-ok _ _ p) in
    make_range-IsRange item m m r h h q
parse_bounds-IsRange item (a ∷ b ∷ []) r e =
    let (m, p, q) = >>=-eq-ok (map_err (invalid_item item) (parse_port (trim a))) _ e in
    let (n, p', q') = >>=-eq-ok (map_err (invalid_item item) (parse_port (trim b))) _ q in
    make_range-IsRange item m n r (parse_port_bounds (trim a) m (map_err-eq-ok _ _ p))
      (parse_port_bounds (trim b) n (map_err-eq-ok _ _ p')) q'
parse_bounds-IsRange item (a ∷ b ∷ c ∷ rest) r e = ground arith

parse_item-IsRange : (raw : Text) (r : PortRange) → parse_item raw ≡ ok r → IsRange 1 r
unfolding parse_item
parse_item-IsRange raw r e =
    ground (arith, parse_bounds-IsRange (trim raw) (split b'-' (trim raw)) r)

parse_items-All :
    (items : List Text) (rs : List PortRange) → parse_items items ≡ ok rs → All (IsRange 1) rs
unfolding parse_items
parse_items-All [] rs e = subst (All (IsRange 1)) (ok-injective e) tt
parse_items-All (x ∷ items) rs e =
    let (r, p, q) = >>=-eq-ok (parse_item x) _ e in
    let (rest, p', q') = >>=-eq-ok (parse_items items) _ q in
    subst (All (IsRange 1)) (ok-injective q')
      (parse_item-IsRange x r p, parse_items-All items rest p')

-- A successful parse is normalized: ports from 1 to 65535, ascending ranges that are not reversed,
-- and a free port between any two of them.
pub parse_port_ranges-IsNormalized :
    (expression : Text) (rs : List PortRange)
    → parse_port_ranges expression ≡ ok rs
    → IsNormalized 1 rs
unfolding parse_port_ranges
parse_port_ranges-IsNormalized s rs e = elim (Bool-cases (is_empty (trim s))) [
  | inl blank ↦ subst (IsNormalized 1) (ok-injective (rw blank at e)) tt
  | inr text ↦
      let (items, p, q) = >>=-eq-ok (parse_items (split b',' s)) _ (rw text at e) in
      subst (IsNormalized 1) (ok-injective q)
        (merge_port_ranges-IsNormalized 1 items (parse_items-All (split b',' s) items p))
]

-- Two expressions that stand for the same ports parse to the same ranges.
parse_port_ranges_canonical :
    (s t : Text) (xs ys : List PortRange)
    → parse_port_ranges s ≡ ok xs
    → parse_port_ranges t ≡ ok ys
    → SamePorts xs ys
    → xs ≡ ys
parse_port_ranges_canonical s t xs ys p q same =
    IsNormalized-unique 1 1 xs ys (parse_port_ranges-IsNormalized s xs p)
      (parse_port_ranges-IsNormalized t ys q) same
