-- ===== src/PortHopping/Ranges/RoundTrip.antt =====
-- Printed ranges parse back, one by one and as a whole expression.
use node_agent_rs.Base.{
  ℕ, ◌+◌, ◌≤◌, ◌≡◌, refl, ap, ◌∙◌, ◌≢◌, false, List, [], ◌∷◌, map, All, All-append, arith,
  Bool-cases, ◌==◌, inl, inr, Text, ok, >>=-eq-ok, ok-injective,
}
use node_agent_rs.PortHopping.Ranges.{
  PortRange, trim_start, trim, is_empty, split, u16_max, make_range, parse_bounds, parse_item,
  parse_items, parse_port_ranges, decimal, u16_digits, format_range, join, normalize_port_ranges,
  IsNormalized, merge_port_ranges,
}
use node_agent_rs.PortHopping.Ranges.Merge.{
  IsRange, merge_port_ranges-IsNormalized, covers-merge_port_ranges,
}
use node_agent_rs.PortHopping.Ranges.Canonical.{IsNormalized-unique}
use node_agent_rs.PortHopping.Ranges.Parse.{parse_port_ranges-IsNormalized}
use node_agent_rs.PortHopping.Ranges.Decimal.{
  Digit, Plain, Printed, Plain-Printed, decimal-Digit, append-ne-nil, decimal-ne-nil, trim-Printed,
  split_at, split_last, decimal-Plain, All-ne, parse_port-trim-decimal,
}

format_range-Plain : (r : PortRange) → All Plain (format_range r)
unfolding format_range
format_range-Plain r = ground (
  arith,
  decimal-Plain u16_digits r.start,
  All-append Plain (decimal u16_digits r.start) (b'-' ∷ decimal u16_digits r.end)
      (decimal-Plain u16_digits r.start) (omega arith, decimal-Plain u16_digits r.end),
)

format_range-ne-nil : (r : PortRange) → is_empty (format_range r) ≡ false
unfolding format_range
format_range-ne-nil r = ground (
  arith,
  decimal-ne-nil 4 r.start,
  append-ne-nil (decimal u16_digits r.start) b'-' (decimal u16_digits r.end),
)

Digit-ne-dash : (s : Text) → All Digit s → All (λ c. c ≢ b'-') s
Digit-ne-dash s = All-ne Digit b'-' s (λ c h. omega arith)

decimal-ne-dash : (n : ℕ) → All (λ c. c ≢ b'-') (decimal u16_digits n)
decimal-ne-dash n = Digit-ne-dash (decimal u16_digits n) (decimal-Digit u16_digits n)

module _ (item : Text) where
  parse_bounds_one :
      (n : ℕ)
      → 1 ≤ n
      → n ≤ u16_max
      → parse_bounds item (decimal u16_digits n ∷ []) ≡ ok (record { start = n; end = n })
  unfolding parse_bounds make_range
  parse_bounds_one n h k = rw (parse_port-trim-decimal n h k) (ground arith)

  parse_bounds_two :
      (m n : ℕ)
      → 1 ≤ m
      → m ≤ n
      → n ≤ u16_max
      → parse_bounds item (decimal u16_digits m ∷ decimal u16_digits n ∷ [])
        ≡ ok (record { start = m; end = n })
  unfolding parse_bounds make_range
  parse_bounds_two m n h k l =
      rw (parse_port-trim-decimal m h (omega arith), parse_port-trim-decimal n (omega arith) l)
        (ground arith)

parse_bounds-format_range :
    (item : Text) (r : PortRange)
    → IsRange 1 r
    → parse_bounds item (split b'-' (format_range r)) ≡ ok r
unfolding format_range
parse_bounds-format_range item r v = elim (Bool-cases (r.start == r.end)) [
  | inl single ↦
      rw (single, split_last b'-' (decimal u16_digits r.start) (decimal-ne-dash r.start))
        (parse_bounds_one item r.start v.0 (omega arith) ∙ ground arith)
  | inr double ↦
      rw
        (
          double,
          split_at b'-' (decimal u16_digits r.start) (decimal u16_digits r.end)
              (decimal-ne-dash r.start),
          split_last b'-' (decimal u16_digits r.end) (decimal-ne-dash r.end),
        )
        (parse_bounds_two item r.start r.end v.0 v.1 v.2)
]

-- A printed range parses to itself.
pub parse_item-format_range : (r : PortRange) → IsRange 1 r → parse_item (format_range r) ≡ ok r
unfolding parse_item
parse_item-format_range r v =
    rw
      (
        trim-Printed (format_range r) (Plain-Printed _ (format_range-Plain r)),
        format_range-ne-nil r,
      )
      (parse_bounds-format_range (format_range r) r v)

parse_items-format_range :
    (rs : List PortRange) → All (IsRange 1) rs → parse_items (map format_range rs) ≡ ok rs
unfolding parse_items
parse_items-format_range [] h = refl
parse_items-format_range (r ∷ rs) h =
    rw (parse_item-format_range r h.0, parse_items-format_range rs h.1)

IsNormalized-All : (lo : ℕ) (rs : List PortRange) → 1 ≤ lo → IsNormalized lo rs → All (IsRange 1) rs
IsNormalized-All lo [] h v = tt
IsNormalized-All lo (r ∷ rs) h v =
    ((omega arith, v.1, v.2), IsNormalized-All (r.end + 2) rs (omega arith) v.3)

-- Merging leaves a normalized list as it is.
pub merge_port_ranges-IsNormalized_id :
    (rs : List PortRange) → IsNormalized 1 rs → merge_port_ranges rs ≡ rs
merge_port_ranges-IsNormalized_id rs v =
    IsNormalized-unique 1 1 (merge_port_ranges rs) rs
      (merge_port_ranges-IsNormalized 1 rs (IsNormalized-All 1 rs (omega arith) v)) v
      (covers-merge_port_ranges rs)

format_range-ne-comma : (r : PortRange) → All (λ c. c ≢ b',') (format_range r)
format_range-ne-comma r =
    All-ne Plain b',' (format_range r) (λ c h. omega arith) (format_range-Plain r)

abbrev formatted : List PortRange → Text
formatted rs = join (map format_range rs)

split-join :
    (r : PortRange) (rs : List PortRange)
    → split b',' (formatted (r ∷ rs)) ≡ map format_range (r ∷ rs)
unfolding join
split-join r [] = split_last b',' (format_range r) (format_range-ne-comma r)
split-join r (s ∷ rs) =
    split_at b',' (format_range r) (formatted (s ∷ rs)) (format_range-ne-comma r)
    ∙ ap (◌∷◌ (format_range r)) (split-join s rs)

formatted-Printed : (rs : List PortRange) → All Printed (formatted rs)
unfolding join
formatted-Printed [] = tt
formatted-Printed (r ∷ []) = Plain-Printed _ (format_range-Plain r)
formatted-Printed (r ∷ s ∷ rs) =
    All-append Printed (format_range r) (b',' ∷ formatted (s ∷ rs))
      (Plain-Printed _ (format_range-Plain r))
      ((omega arith, omega arith), formatted-Printed (s ∷ rs))

formatted-ne-nil : (r : PortRange) (rs : List PortRange) → is_empty (formatted (r ∷ rs)) ≡ false
unfolding join
formatted-ne-nil r [] = format_range-ne-nil r
formatted-ne-nil r (s ∷ rs) = append-ne-nil (format_range r) b',' (formatted (s ∷ rs))

-- Every normalized list of ranges in 1 to 65535, the empty one too, is printed in a form that
-- parses back to it.
pub parse_port_ranges-join :
    (rs : List PortRange)
    → IsNormalized 1 rs
    → parse_port_ranges (join (map format_range rs)) ≡ ok rs
unfolding parse_port_ranges
parse_port_ranges-join [] v = unfold join trim trim_start in refl
parse_port_ranges-join (r ∷ rs) v =
    rw
      (
        trim-Printed (formatted (r ∷ rs)) (formatted-Printed (r ∷ rs)),
        formatted-ne-nil r rs,
        split-join r rs,
        parse_items-format_range (r ∷ rs) (IsNormalized-All 1 (r ∷ rs) (omega arith) v),
      )
      (ap ok (merge_port_ranges-IsNormalized_id (r ∷ rs) v))

-- Normalizing is idempotent: a normalized expression normalizes to itself.
pub normalize_port_ranges_idem :
    (expression result : Text)
    → normalize_port_ranges expression ≡ ok result
    → normalize_port_ranges result ≡ ok result
unfolding normalize_port_ranges
normalize_port_ranges_idem s t e =
    let (rs, p, q) = >>=-eq-ok (parse_port_ranges s) _ e in
    let printed : formatted rs ≡ t = ok-injective q in
    rw (← printed) (rw (parse_port_ranges-join rs (parse_port_ranges-IsNormalized s rs p)) refl)
