-- ===== src/PortHopping/Ranges.antt =====
-- crates/node-agent/src/porthopping/port_ranges.rs: the panel's port range syntax.
-- Text is a list of code points; a u16 is a number, its range stated where it matters.
pub mod Merge
pub mod Canonical
pub mod Parse
pub mod Decimal
pub mod RoundTrip
use mathlib.Core.List.{reverse}
use node_agent_rs.Base.{
  ℕ, zero, suc, ◌+◌, ◌-◌, ◌*◌, ◌/◌, ◌%◌, ◌≤◌, max, Bool, true, false, ◌&&◌, ◌||◌, Option, none,
  some, List, [], ◌∷◌, ◌++◌, map, ltb, leb, ◌==◌, if◌then◌else◌, any, all, Text, Result, ok, err,
  ◌>>=◌, map_err, not,
}

pub record PortRange : Type 0 where
  pub start : ℕ
  pub end : ℕ

unfoldable pub contains : PortRange → ℕ → Bool
contains r port = leb r.start port && leb port r.end

-- `PortRangeError`, a constructor for each message; `invalid_item` wraps the cause of a bad port.
pub data PortRangeError : Type 0 where
  empty_item : PortRangeError
  invalid_range : Text → PortRangeError
  invalid_item : Text → PortRangeError → PortRangeError
  reversed_range : Text → PortRangeError
  port_required : PortRangeError
  digits_only : PortRangeError
  out_of_range : PortRangeError

-- The derived order of `PortRange`: by start, then by end.
unfoldable pub range_le : PortRange → PortRange → Bool
range_le a b = ltb a.start b.start || ((a.start == b.start) && leb a.end b.end)

unfoldable pub insert_range : PortRange → List PortRange → List PortRange
insert_range r [] = r ∷ []
insert_range r (x ∷ xs) = if range_le r x then r ∷ x ∷ xs else x ∷ insert_range r xs

-- `sort_unstable`: equal ranges are identical, so any sorting algorithm has this result.
unfoldable pub sort_ranges : List PortRange → List PortRange
sort_ranges [] = []
sort_ranges (r ∷ rs) = insert_range r (sort_ranges rs)

-- The loop of `merge_port_ranges`: `last` is the last range of `merged`.
unfoldable pub merge_from : PortRange → List PortRange → List PortRange
merge_from last [] = last ∷ []
merge_from last (current ∷ rest) = elim (leb current.start (last.end + 1)) [
  | true ↦ merge_from (record last { end = max last.end current.end }) rest
  | false ↦ last ∷ merge_from current rest
]

unfoldable pub merge_sorted : List PortRange → List PortRange
merge_sorted [] = []
merge_sorted (r ∷ rs) = merge_from r rs

unfoldable pub merge_port_ranges : List PortRange → List PortRange
merge_port_ranges ranges = merge_sorted (sort_ranges ranges)

-- `char::is_whitespace`
unfoldable pub is_whitespace : ℕ → Bool
is_whitespace c =
    (leb 9 c && leb c 13)
    || (c == 32)
    || (c == 0x85)
    || (c == 0xa0)
    || (c == 0x1680)
    || (leb 0x2000 c && leb c 0x200a)
    || (c == 0x2028)
    || (c == 0x2029)
    || (c == 0x202f)
    || (c == 0x205f)
    || (c == 0x3000)

unfoldable pub trim_start : Text → Text
trim_start [] = []
trim_start (c ∷ s) = if is_whitespace c then trim_start s else c ∷ s

unfoldable pub trim : Text → Text
trim s = reverse (trim_start (reverse (trim_start s)))

abbrev pub is_empty : Text → Bool
is_empty [] = true
is_empty (c ∷ s) = false

abbrev pub cons_head : ℕ → List Text → List Text
cons_head c [] = (c ∷ []) ∷ []
cons_head c (s ∷ rest) = (c ∷ s) ∷ rest

-- `str::split` at a character.
unfoldable pub split : ℕ → Text → List Text
split sep [] = [] ∷ []
split sep (c ∷ s) = let rest = split sep s in if c == sep then [] ∷ rest else cons_head c rest

unfoldable pub is_ascii_digit : ℕ → Bool
is_ascii_digit c = leb b'0' c && leb c b'9'

abbrev pub u16_max : ℕ
u16_max = 65535

-- `parse::<u16>` on decimal digits, with its overflow check at each digit.
unfoldable pub parse_u16 : ℕ → Text → Option ℕ
parse_u16 value [] = some value
parse_u16 value (c ∷ s) =
    let next = value * 10 + (c - b'0') in
    let rest = parse_u16 next s in if leb next u16_max then rest else none

unfoldable pub nonzero_port : Option ℕ → Result PortRangeError ℕ
nonzero_port none = err out_of_range
nonzero_port (some port) = if port == 0 then err out_of_range else ok port

unfoldable pub parse_port : Text → Result PortRangeError ℕ
unfolding nonzero_port
parse_port value =
    if is_empty value
    then err port_required
    else if not (all is_ascii_digit value)
    then err digits_only
    else nonzero_port (parse_u16 0 value)

unfoldable pub make_range : Text → ℕ → ℕ → Result PortRangeError PortRange
make_range item start end =
    if ltb end start then err (reversed_range item) else ok (record { start = start; end = end })

-- `split` gives at least one part; more than two are refused.
unfoldable pub parse_bounds : Text → List Text → Result PortRangeError PortRange
parse_bounds item (first ∷ []) = do
  start ← map_err (invalid_item item) (parse_port (trim first))
  make_range item start start
parse_bounds item (first ∷ second ∷ []) = do
  start ← map_err (invalid_item item) (parse_port (trim first))
  end ← map_err (invalid_item item) (parse_port (trim second))
  make_range item start end
parse_bounds item _ = err (invalid_range item)

unfoldable pub parse_item : Text → Result PortRangeError PortRange
parse_item raw_item =
    let item = trim raw_item in
    if is_empty item then err empty_item else parse_bounds item (split b'-' item)

unfoldable pub parse_items : List Text → Result PortRangeError (List PortRange)
parse_items [] = ok []
parse_items (raw_item ∷ rest) = do
  range ← parse_item raw_item
  ranges ← parse_items rest
  ok (range ∷ ranges)

unfoldable pub parse_port_ranges : Text → Result PortRangeError (List PortRange)
parse_port_ranges expression =
    if is_empty (trim expression)
    then ok []
    else (parse_items (split b',' expression) >>= λ ranges. ok (merge_port_ranges ranges))

-- `u16`'s `Display`: decimal digits, on fuel; a u16 has at most five.
unfoldable pub decimal : ℕ → ℕ → Text
decimal zero n = []
decimal (suc fuel) n =
    let front = decimal fuel (n / 10) in
    if ltb n 10 then (n + b'0') ∷ [] else front ++ (n % 10 + b'0') ∷ []

abbrev pub u16_digits : ℕ
u16_digits = 5

-- `PortRange`'s `Display`.
unfoldable pub format_range : PortRange → Text
format_range r =
    if r.start == r.end
    then decimal u16_digits r.start
    else decimal u16_digits r.start ++ (b'-' ∷ decimal u16_digits r.end)

-- `collect` and `join(",")`.
unfoldable pub join : List Text → Text
join [] = []
join (s ∷ []) = s
join (s ∷ t ∷ rest) = s ++ (b',' ∷ join (t ∷ rest))

unfoldable pub normalize_port_ranges : Text → Result PortRangeError Text
normalize_port_ranges expression = do
  ranges ← parse_port_ranges expression
  ok (join (map format_range ranges))

-- A port that some range contains.
abbrev pub covers : List PortRange → ℕ → Bool
covers rs port = any (λ r. contains r port) rs

-- Ranges from `lo` up, each nonempty and in u16, with a free port between any two neighbours.
abbrev pub IsNormalized : ℕ → List PortRange → Type 0
IsNormalized lo [] = Unit
IsNormalized lo (r ∷ rs) =
    (lo ≤ r.start) × (r.start ≤ r.end) × (r.end ≤ u16_max) × IsNormalized (r.end + 2) rs
