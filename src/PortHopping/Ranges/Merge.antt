-- ===== src/PortHopping/Ranges/Merge.antt =====
-- `merge_port_ranges` keeps the set of ports and brings it into one canonical form.
use node_agent_rs.Base.{ℕ, ◌+◌, ◌≤◌, ◌≡◌, refl, ◌∙◌, ◌||◌, max, List, [], ◌∷◌, All, arith}
use node_agent_rs.PortHopping.Ranges.{
  PortRange, contains, range_le, insert_range, sort_ranges, merge_from, merge_sorted,
  merge_port_ranges, covers, IsNormalized, u16_max,
}

covers-insert_range :
    (r : PortRange) (rs : List PortRange) (p : ℕ)
    → covers (insert_range r rs) p ≡ (contains r p || covers rs p)
unfolding insert_range
covers-insert_range r [] p = refl
covers-insert_range r (x ∷ xs) p = ground (arith, covers-insert_range r xs p)

covers-sort_ranges : (rs : List PortRange) (p : ℕ) → covers (sort_ranges rs) p ≡ covers rs p
unfolding sort_ranges
covers-sort_ranges [] p = refl
covers-sort_ranges (r ∷ rs) p =
    ground (arith, covers-insert_range r (sort_ranges rs) p, covers-sort_ranges rs p)

-- Starts do not fall along the list.
abbrev Ascends : ℕ → List PortRange → Type 0
Ascends lo [] = Unit
Ascends lo (r ∷ rs) = (lo ≤ r.start) × Ascends r.start rs

Ascends-mono : (m n : ℕ) (rs : List PortRange) → m ≤ n → Ascends n rs → Ascends m rs
Ascends-mono m n [] h a = tt
Ascends-mono m n (r ∷ rs) h a = (omega arith, a.1)

insert_range-Ascends :
    (lo : ℕ) (r : PortRange) (rs : List PortRange)
    → lo ≤ r.start
    → Ascends lo rs
    → Ascends lo (insert_range r rs)
unfolding insert_range range_le
insert_range-Ascends lo r [] h a = (h, tt)
insert_range-Ascends lo r (x ∷ xs) h a =
    ground (arith, insert_range-Ascends x.start r xs, Ascends-mono r.start x.start xs)

sort_ranges-Ascends : (rs : List PortRange) → Ascends 0 (sort_ranges rs)
unfolding sort_ranges
sort_ranges-Ascends [] = tt
sort_ranges-Ascends (r ∷ rs) =
    insert_range-Ascends 0 r (sort_ranges rs) (omega arith) (sort_ranges-Ascends rs)

covers-merge_from :
    (last : PortRange) (rs : List PortRange) (p : ℕ)
    → Ascends last.start rs
    → covers (merge_from last rs) p ≡ (contains last p || covers rs p)
unfolding merge_from contains
covers-merge_from last [] p a = refl
covers-merge_from last (c ∷ rs) p a = ground (
  arith,
  covers-merge_from (record last { end = max last.end c.end }) rs p,
  covers-merge_from c rs p,
  Ascends-mono last.start c.start rs,
)

covers-merge_sorted :
    (rs : List PortRange) (p : ℕ) → Ascends 0 rs → covers (merge_sorted rs) p ≡ covers rs p
unfolding merge_sorted
covers-merge_sorted [] p a = refl
covers-merge_sorted (r ∷ rs) p a = covers-merge_from r rs p a.1

-- Merging keeps the set of ports, whatever ranges it is given.
pub covers-merge_port_ranges :
    (rs : List PortRange) (p : ℕ) → covers (merge_port_ranges rs) p ≡ covers rs p
unfolding merge_port_ranges
covers-merge_port_ranges rs p =
    covers-merge_sorted (sort_ranges rs) p (sort_ranges-Ascends rs) ∙ covers-sort_ranges rs p

-- A range that starts at `lo` or later, is not reversed, and lies in u16.
abbrev pub IsRange : ℕ → PortRange → Type 0
IsRange lo r = (lo ≤ r.start) × (r.start ≤ r.end) × (r.end ≤ u16_max)

merge_from-IsNormalized :
    (lo : ℕ) (last : PortRange) (rs : List PortRange)
    → IsRange lo last
    → Ascends last.start rs
    → All (IsRange 0) rs
    → IsNormalized lo (merge_from last rs)
unfolding merge_from
merge_from-IsNormalized lo last [] v a h = ground arith
merge_from-IsNormalized lo last (c ∷ rs) v a h = ground (
  arith,
  merge_from-IsNormalized lo (record last { end = max last.end c.end }) rs,
  merge_from-IsNormalized (last.end + 2) c rs,
  Ascends-mono last.start c.start rs,
)

insert_range-All :
    (lo : ℕ) (r : PortRange) (rs : List PortRange)
    → IsRange lo r
    → All (IsRange lo) rs
    → All (IsRange lo) (insert_range r rs)
unfolding insert_range
insert_range-All lo r [] v h = (v, tt)
insert_range-All lo r (x ∷ xs) v h = ground (arith, insert_range-All lo r xs v h.1)

sort_ranges-All :
    (lo : ℕ) (rs : List PortRange) → All (IsRange lo) rs → All (IsRange lo) (sort_ranges rs)
unfolding sort_ranges
sort_ranges-All lo [] h = tt
sort_ranges-All lo (r ∷ rs) h =
    insert_range-All lo r (sort_ranges rs) h.0 (sort_ranges-All lo rs h.1)

All-IsRange-weaken : (lo : ℕ) (rs : List PortRange) → All (IsRange lo) rs → All (IsRange 0) rs
All-IsRange-weaken lo [] h = tt
All-IsRange-weaken lo (r ∷ rs) h = (omega arith, All-IsRange-weaken lo rs h.1)

merge_sorted-IsNormalized :
    (lo : ℕ) (rs : List PortRange)
    → Ascends 0 rs
    → All (IsRange lo) rs
    → IsNormalized lo (merge_sorted rs)
unfolding merge_sorted
merge_sorted-IsNormalized lo [] a h = tt
merge_sorted-IsNormalized lo (r ∷ rs) a h =
    merge_from-IsNormalized lo r rs h.0 a.1 (All-IsRange-weaken lo rs h.1)

-- Of ranges in u16 that are not reversed and start at `lo` or later, merging makes a normalized
-- list: from `lo` up, in order, with a free port between any two neighbours.
pub merge_port_ranges-IsNormalized :
    (lo : ℕ) (rs : List PortRange) → All (IsRange lo) rs → IsNormalized lo (merge_port_ranges rs)
unfolding merge_port_ranges
merge_port_ranges-IsNormalized lo rs h =
    merge_sorted-IsNormalized lo (sort_ranges rs) (sort_ranges-Ascends rs) (sort_ranges-All lo rs h)
