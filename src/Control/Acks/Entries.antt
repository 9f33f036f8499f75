-- ===== src/Control/Acks/Entries.antt =====
-- The cache's specification: a bounded queue of keys with their acknowledgements.
use node_agent_rs.Base.{
  ℕ, zero, suc, ◌-◌, ◌≡◌, refl, ap, ◌∙◌, none, some, List, [], ◌∷◌, ◌++◌, length, Text, text_eq,
  text_eq_iff, lookup, arith, Bool-cases, inl, inr,
}
use node_agent_rs.Control.Acks.{Ack}

-- Oldest first.
abbrev pub Entries : Type 0
Entries = List (Text × Ack)

abbrev pub keys : Entries → List Text
keys [] = []
keys ((k, ack) ∷ m) = k ∷ keys m

abbrev pub DistinctKeys : Entries → Type 0
DistinctKeys [] = Unit
DistinctKeys ((k, ack) ∷ m) = (lookup k m ≡ none) × DistinctKeys m

abbrev pub drop {ℓ} : {A : Type ℓ} → ℕ → List A → List A
drop zero xs = xs
drop (suc n) [] = []
drop (suc n) (x ∷ xs) = drop n xs

-- The last `capacity` entries.
unfoldable pub newest : ℕ → Entries → Entries
newest capacity m = drop (length m - capacity) m

pub lookup-append_found :
    (k : Text) (a : Ack) (m n : Entries) → lookup k m ≡ some a → lookup k (m ++ n) ≡ some a
unfolding lookup
lookup-append_found k a [] n h = ground arith
lookup-append_found k a ((j, b) ∷ m) n h = ground (arith, lookup-append_found k a m n)

pub lookup-append_none :
    (k : Text) (m n : Entries) → lookup k m ≡ none → lookup k (m ++ n) ≡ lookup k n
unfolding lookup
lookup-append_none k [] n h = refl
lookup-append_none k ((j, b) ∷ m) n h = ground (arith, lookup-append_none k m n)

pub keys-append_last :
    (m : Entries) (k : Text) (a : Ack) → keys (m ++ (k, a) ∷ []) ≡ keys m ++ k ∷ []
keys-append_last [] k a = refl
keys-append_last ((j, b) ∷ m) k a = ap (◌∷◌ j) (keys-append_last m k a)

pub DistinctKeys-append_last :
    (m : Entries) (k : Text) (a : Ack)
    → DistinctKeys m
    → lookup k m ≡ none
    → DistinctKeys (m ++ (k, a) ∷ [])
unfolding lookup
DistinctKeys-append_last [] k a d h = (refl, tt)
DistinctKeys-append_last ((j, b) ∷ m) k a (fresh, d) h = elim (Bool-cases (text_eq j k)) [
  | inl same ↦ ground arith
  | inr differs ↦ (
    lookup-append_none j m ((k, a) ∷ []) fresh ∙ ground (arith, text_eq_iff k j, text_eq_iff j k),
    DistinctKeys-append_last m k a d (ground arith),
  )
]
