-- ===== src/PortHopping/Ranges/Decimal.antt =====
-- Decimal ports and separators: what is printed is found again by `trim`, `split` and `parse`.
use mathlib.Core.List.{reverse, reverse-cons, reverse-reverse, append_assoc, append-nil}
use node_agent_rs.Base.{
  ℕ, zero, suc, ◌+◌, ◌-◌, ◌*◌, ◌/◌, ◌%◌, ◌≤◌, ◌<◌, ◌≡◌, refl, ap, ◌∙◌, ◌≢◌, true, false, [], ◌∷◌,
  ◌++◌, All, All-append, all, arith, le→leb, ltb, ltb→lt, Bool-cases, inl, inr, Text, ok,
}
use node_agent_rs.PortHopping.Ranges.{
  is_whitespace, trim_start, trim, is_empty, split, is_ascii_digit, u16_max, parse_u16,
  nonzero_port, parse_port, decimal, u16_digits,
}

abbrev pub Digit : ℕ → Type 0
Digit c = (b'0' ≤ c) × (c ≤ b'9')

-- The characters of a printed range.
abbrev pub Plain : ℕ → Type 0
Plain c = (b'-' ≤ c) × (c ≤ b'9')

pub Digit-Plain : (s : Text) → All Digit s → All Plain s
Digit-Plain [] h = tt
Digit-Plain (c ∷ s) h = (omega arith, Digit-Plain s h.1)

-- The characters of a list of printed ranges.
abbrev pub Printed : ℕ → Type 0
Printed c = (b',' ≤ c) × (c ≤ b'9')

pub Plain-Printed : (s : Text) → All Plain s → All Printed s
Plain-Printed [] h = tt
Plain-Printed (c ∷ s) h = (omega arith, Plain-Printed s h.1)

-- 10 ^ k
abbrev power : ℕ → ℕ
power zero = 1
power (suc k) = 10 * power k

pub decimal-Digit : (fuel n : ℕ) → All Digit (decimal fuel n)
unfolding decimal
decimal-Digit zero n = tt
decimal-Digit (suc fuel) n = ground (
  arith,
  All-append Digit (decimal fuel (n / 10)) ((n % 10 + b'0') ∷ []) (decimal-Digit fuel (n / 10)),
)

pub append-ne-nil : (s : Text) (c : ℕ) (t : Text) → is_empty (s ++ c ∷ t) ≡ false
append-ne-nil [] c t = refl
append-ne-nil (d ∷ s) c t = refl

pub decimal-ne-nil : (fuel n : ℕ) → is_empty (decimal (suc fuel) n) ≡ false
unfolding decimal
decimal-ne-nil fuel n = ground (arith, append-ne-nil (decimal fuel (n / 10)) (n % 10 + b'0') [])

-- One digit more.
pub parse_u16-digit :
    (value d n : ℕ) (s : Text)
    → d < 10
    → value * 10 + d ≡ n
    → n ≤ u16_max
    → parse_u16 value ((d + b'0') ∷ s) ≡ parse_u16 n s
unfolding parse_u16
parse_u16-digit value d n s h e k =
    let next : value * 10 + (d + b'0' - b'0') ≡ n = omega arith in rw (next, le→leb n u16_max k)

pub parse_u16-decimal :
    (fuel n : ℕ) (s : Text)
    → n < power fuel
    → n ≤ u16_max
    → parse_u16 0 (decimal fuel n ++ s) ≡ parse_u16 n s
unfolding decimal
parse_u16-decimal zero n s h k = ap (λ m. parse_u16 m s) (omega arith)
parse_u16-decimal (suc fuel) n s h k = elim (Bool-cases (ltb n 10)) [
  | inl last ↦ rw last (parse_u16-digit 0 n n s (omega (arith, ltb→lt)) (omega arith) k)
  | inr more ↦
      rw (more, append_assoc (decimal fuel (n / 10)) ((n % 10 + b'0') ∷ []) s)
        (parse_u16-decimal fuel (n / 10) ((n % 10 + b'0') ∷ s) (omega arith) (omega arith)
          ∙ parse_u16-digit (n / 10) (n % 10) n s (omega arith) (omega arith) k)
]

pub trim_start-Printed : (s : Text) → All Printed s → trim_start s ≡ s
unfolding trim_start is_whitespace
trim_start-Printed [] h = refl
trim_start-Printed (c ∷ s) h = ground arith

pub reverse-All : (P : ℕ → Type 0) (s : Text) → All P s → All P (reverse s)
reverse-All P [] h = tt
reverse-All P (c ∷ s) h =
    rw (reverse-cons c s) (All-append P (reverse s) (c ∷ []) (reverse-All P s h.1) (h.0, tt))

pub trim-Printed : (s : Text) → All Printed s → trim s ≡ s
unfolding trim
trim-Printed s h =
    rw (trim_start-Printed s h, trim_start-Printed (reverse s) (reverse-All Printed s h))
      (reverse-reverse s)

pub split_at :
    (sep : ℕ) (s t : Text) → All (λ c. c ≢ sep) s → split sep (s ++ (sep ∷ t)) ≡ s ∷ split sep t
unfolding split
split_at sep [] t h = ground arith
split_at sep (c ∷ s) t h = ground (arith, split_at sep s t h.1)

pub split_last : (sep : ℕ) (s : Text) → All (λ c. c ≢ sep) s → split sep s ≡ s ∷ []
unfolding split
split_last sep [] h = refl
split_last sep (c ∷ s) h = ground (arith, split_last sep s h.1)

pub decimal-Plain : (fuel n : ℕ) → All Plain (decimal fuel n)
decimal-Plain fuel n = Digit-Plain (decimal fuel n) (decimal-Digit fuel n)

pub all-is_ascii_digit : (s : Text) → All Digit s → all is_ascii_digit s ≡ true
unfolding is_ascii_digit
all-is_ascii_digit [] h = refl
all-is_ascii_digit (c ∷ s) h = ground (arith, all-is_ascii_digit s h.1)

pub All-ne :
    (P : ℕ → Type 0) (sep : ℕ) (s : Text)
    → ((c : ℕ) → P c → c ≢ sep)
    → All P s
    → All (λ c. c ≢ sep) s
All-ne P sep [] f h = tt
All-ne P sep (c ∷ s) f h = (f c h.0, All-ne P sep s f h.1)

pub nonzero_port-nil : (n : ℕ) → 1 ≤ n → nonzero_port (parse_u16 n []) ≡ ok n
unfolding nonzero_port parse_u16
nonzero_port-nil n h = ground arith

-- A nonzero u16 is printed in a form that parses to it.
pub parse_port-decimal : (n : ℕ) → 1 ≤ n → n ≤ u16_max → parse_port (decimal u16_digits n) ≡ ok n
unfolding parse_port
parse_port-decimal n h k =
    let digits =
      rw (append-nil (decimal u16_digits n)) at
        (parse_u16-decimal u16_digits n [] (omega arith) k) in
    rw (
      decimal-ne-nil 4 n,
      all-is_ascii_digit (decimal u16_digits n) (decimal-Digit u16_digits n),
      digits,
      nonzero_port-nil n h,
    )

pub parse_port-trim-decimal :
    (n : ℕ) → 1 ≤ n → n ≤ u16_max → parse_port (trim (decimal u16_digits n)) ≡ ok n
parse_port-trim-decimal n h k =
    rw (trim-Printed (decimal u16_digits n) (Plain-Printed _ (decimal-Plain u16_digits n)))
      (parse_port-decimal n h k)
