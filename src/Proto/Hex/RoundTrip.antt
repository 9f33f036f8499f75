-- ===== src/Proto/Hex/RoundTrip.antt =====
-- Encoding and decoding undo each other.
use node_agent_rs.Base.{
  ℕ, suc, ◌+◌, ◌*◌, ◌/◌, ◌%◌, ◌≡◌, ◌<◌, refl, ap, ◌∙◌, ◌&&◌, Option, none, some, List, [], ◌∷◌, leb,
  ◌==◌, if◌then◌else◌, length, arith, All, map, some-injective, inl, inr, Bool-cases, ◌↔◌, sym,
}
use node_agent_rs.Proto.Hex.{digit, encode, nibble, join, decode_pairs, decode}

nibble-digit : (n : ℕ) → n < 16 → nibble (digit n) ≡ some n
unfolding nibble digit
nibble-digit n h = ground arith

length-encode : (bytes : List ℕ) → length (encode bytes) ≡ 2 * length bytes
unfolding encode
length-encode [] = omega arith
length-encode (byte ∷ bytes) = omega (arith, length-encode bytes)

decode_pairs-encode :
    (bytes : List ℕ) → All (λ b. b < 256) bytes → decode_pairs (encode bytes) ≡ some bytes
unfolding decode_pairs encode join
decode_pairs-encode [] h = refl
decode_pairs-encode (byte ∷ bytes) h =
    let whole : byte / 16 * 16 + byte % 16 ≡ byte = omega arith in
    rw
      (
        nibble-digit (byte / 16) (omega (arith, h.0)),
        nibble-digit (byte % 16) (omega arith),
        decode_pairs-encode bytes h.1,
        whole,
      )
      refl

-- Decoding what was encoded gives the bytes back.
pub decode-encode : (bytes : List ℕ) → All (λ b. b < 256) bytes → decode (encode bytes) ≡ some bytes
unfolding decode
decode-encode bytes h = ground (arith, length-encode bytes, decode_pairs-encode bytes h)

-- The lowercase of an ASCII letter.
unfoldable pub lower : ℕ → ℕ
lower c = if leb 65 c && leb c 90 then c + 32 else c

nibble-digit-lower : (c n : ℕ) → nibble c ≡ some n → (digit n ≡ lower c) × (n < 16)
unfolding nibble digit lower
nibble-digit-lower c n h = ground arith

join-some :
    (a b : Option ℕ) (rest : Option (List ℕ)) (bytes : List ℕ)
    → join a b rest ≡ some bytes
    → (hi : ℕ) × (lo : ℕ) × (tail : List ℕ) × (a ≡ some hi)
      × (b ≡ some lo)
      × (rest ≡ some tail)
      × (bytes ≡ (hi * 16 + lo) ∷ tail)
unfolding join
join-some (some hi) (some lo) (some tail) bytes h =
    (hi, lo, tail, refl, refl, refl, sym (some-injective h))
join-some (some hi) (some lo) none bytes h = ground arith
join-some (some hi) none rest bytes h = ground arith
join-some none b rest bytes h = ground arith

encode-decode_pairs :
    (text bytes : List ℕ)
    → length text % 2 ≡ 0
    → decode_pairs text ≡ some bytes
    → (encode bytes ≡ map lower text) × All (λ b. b < 256) bytes
unfolding decode_pairs encode
encode-decode_pairs [] bytes e h = rw (← some-injective h) (refl, tt)
encode-decode_pairs (a ∷ []) bytes e h = ground arith
encode-decode_pairs (a ∷ b ∷ text) bytes e h =
    let (hi, lo, tail, ea, eb, er, whole) =
      join-some (nibble a) (nibble b) (decode_pairs text) bytes h in
    let (da, la) = nibble-digit-lower a hi ea in
    let (db, lb) = nibble-digit-lower b lo eb in
    let (rest, small) = encode-decode_pairs text tail (omega (arith, e)) er in
    let high : (hi * 16 + lo) / 16 ≡ hi = omega (arith, lb) in
    let low : (hi * 16 + lo) % 16 ≡ lo = omega (arith, lb) in
    rw (whole, high, low, da, db, rest) (refl, (omega (arith, la, lb), small))

nibble-lower : (c : ℕ) → nibble (lower c) ≡ nibble c
unfolding nibble lower
nibble-lower c = ground arith

length-map-lower : (text : List ℕ) → length (map lower text) ≡ length text
length-map-lower [] = refl
length-map-lower (c ∷ text) = ap suc (length-map-lower text)

decode_pairs-lower : (text : List ℕ) → decode_pairs (map lower text) ≡ decode_pairs text
unfolding decode_pairs
decode_pairs-lower [] = refl
decode_pairs-lower (a ∷ []) = refl
decode_pairs-lower (a ∷ b ∷ text) =
    rw (nibble-lower a, nibble-lower b, decode_pairs-lower text) refl

-- A text decodes to the bytes exactly where these are bytes whose encoding is the text in lowercase.
pub decode_iff :
    (text bytes : List ℕ)
    → (decode text ≡ some bytes) ↔ ((encode bytes ≡ map lower text) × All (λ b. b < 256) bytes)
unfolding decode
decode_iff text bytes = (
  λ h. elim (Bool-cases (length text % 2 == 0)) [
    | inl even ↦
        encode-decode_pairs text bytes (ground (arith, even))
          (rw (← ap (λ b. if b then decode_pairs text else none) even) h)
    | inr odd ↦ ground arith
  ],
  λ h.
      ap (λ n. if n % 2 == 0 then decode_pairs text else none) (sym (length-map-lower text))
      ∙ ap (λ o. if length (map lower text) % 2 == 0 then o else none)
          (sym (decode_pairs-lower text))
      ∙ ap decode (sym h.0)
      ∙ decode-encode bytes h.1,
)
