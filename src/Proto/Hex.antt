-- ===== src/Proto/Hex.antt =====
-- crates/acp-proto/src/hex.rs: lowercase hexadecimal. A byte is a number below 256, a text its bytes.
pub mod RoundTrip
use node_agent_rs.Base.{
  ℕ, suc, ◌+◌, ◌-◌, ◌*◌, ◌/◌, ◌%◌, Bool, true, false, ◌&&◌, Option, none, some, List, [], ◌∷◌, leb,
  ltb, ◌==◌, if◌then◌else◌, length,
}

-- The entry of DIGITS.
unfoldable pub digit : ℕ → ℕ
digit n = if ltb n 10 then 48 + n else 87 + n

-- `byte >> 4` and `byte & 0x0f`
unfoldable pub encode : List ℕ → List ℕ
encode [] = []
encode (byte ∷ bytes) = digit (byte / 16) ∷ digit (byte % 16) ∷ encode bytes

unfoldable pub nibble : ℕ → Option ℕ
nibble byte =
    if leb 48 byte && leb byte 57
    then some (byte - 48)
    else if leb 97 byte && leb byte 102
    then some (byte - 97 + 10)
    else if leb 65 byte && leb byte 70
    then some (byte - 65 + 10)
    else none

-- `(hi << 4) | lo`, pushed in front of the decoded rest.
unfoldable pub join : Option ℕ → Option ℕ → Option (List ℕ) → Option (List ℕ)
join (some hi) (some lo) (some rest) = some ((hi * 16 + lo) ∷ rest)
join (some hi) (some lo) none = none
join (some hi) none rest = none
join none lo rest = none

-- The loop over the pairs.
unfoldable pub decode_pairs : List ℕ → Option (List ℕ)
decode_pairs [] = some []
decode_pairs (a ∷ []) = some []
decode_pairs (a ∷ b ∷ text) = join (nibble a) (nibble b) (decode_pairs text)

unfoldable pub decode : List ℕ → Option (List ℕ)
decode text = if length text % 2 == 0 then decode_pairs text else none
