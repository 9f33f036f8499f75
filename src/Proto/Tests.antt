-- ===== src/Proto/Tests.antt =====
-- Runs of the protocol helpers on concrete inputs, and their theorems at such inputs.
use node_agent_rs.Base.{◌≡◌, ◌↔◌, ◌<◌, refl, some, none, [], ◌∷◌, All, map, codes}
use node_agent_rs.Proto.Hex.{encode, decode, decode_pairs, digit, nibble, join}
use node_agent_rs.Proto.Hex.RoundTrip.{decode_iff, lower}

encodes_padded : encode (0 ∷ 15 ∷ 255 ∷ 165 ∷ []) ≡ codes "000fffa5"
unfolding encode digit
encodes_padded = refl

decodes_uppercase : decode (codes "ABCD") ≡ some (171 ∷ 205 ∷ [])
unfolding decode decode_pairs nibble join
decodes_uppercase = refl

refuses_odd : decode (codes "abc") ≡ none
unfolding decode
refuses_odd = refl

refuses_letters : decode (codes "zz") ≡ none
unfolding decode decode_pairs nibble join
refuses_letters = refl

decode_iff_example :
    (decode (codes "Ab") ≡ some (171 ∷ []))
    ↔ ((encode (171 ∷ []) ≡ map lower (codes "Ab")) × All (λ b. b < 256) (171 ∷ []))
decode_iff_example = decode_iff (codes "Ab") (171 ∷ [])
