-- ===== src/PortHopping/Ranges/Canonical.antt =====
-- A normalized list is determined by the ports that it covers.
use node_agent_rs.Base.{ℕ, ◌+◌, ◌≤◌, ◌<◌, ◌≡◌, refl, sym, false, ◌&&◌, List, [], ◌∷◌, arith, ltb}
use node_agent_rs.PortHopping.Ranges.{PortRange, contains, covers, IsNormalized}

pub IsNormalized-mono :
    (m n : ℕ) (rs : List PortRange) → m ≤ n → IsNormalized n rs → IsNormalized m rs
IsNormalized-mono m n [] h v = tt
IsNormalized-mono m n (r ∷ rs) h v = (omega arith, v.1, v.2, v.3)

-- Nothing below the bound is covered.
pub covers_below :
    (lo : ℕ) (rs : List PortRange) (p : ℕ) → IsNormalized lo rs → p < lo → covers rs p ≡ false
unfolding contains
covers_below lo [] p v h = refl
covers_below lo (r ∷ rs) p v h = ground (arith, covers_below (r.end + 2) rs p v.3)

covers-tail :
    (lo : ℕ) (r : PortRange) (rs : List PortRange) (p : ℕ)
    → IsNormalized lo (r ∷ rs)
    → covers rs p ≡ (covers (r ∷ rs) p && ltb r.end p)
unfolding contains
covers-tail lo r rs p v = ground (arith, covers_below (r.end + 2) rs p v.3)

-- Two lists that cover the same ports.
abbrev pub SamePorts : List PortRange → List PortRange → Type 0
SamePorts xs ys = (p : ℕ) → covers xs p ≡ covers ys p

heads_start-le :
    (m n : ℕ) (x y : PortRange) (xs ys : List PortRange)
    → IsNormalized m (x ∷ xs)
    → IsNormalized n (y ∷ ys)
    → SamePorts (x ∷ xs) (y ∷ ys)
    → y.start ≤ x.start
unfolding contains
heads_start-le m n x y xs ys v w same =
    ground (arith, same x.start, covers_below (y.end + 2) ys x.start w.3)

heads_end-le :
    (m n : ℕ) (x y : PortRange) (xs ys : List PortRange)
    → IsNormalized m (x ∷ xs)
    → IsNormalized n (y ∷ ys)
    → SamePorts (x ∷ xs) (y ∷ ys)
    → x.start ≡ y.start
    → y.end ≤ x.end
unfolding contains
heads_end-le m n x y xs ys v w same e =
    ground (arith, same (x.end + 1), covers_below (x.end + 2) xs (x.end + 1) v.3)

-- Two normalized lists that cover the same ports are equal.
pub IsNormalized-unique :
    (m n : ℕ) (xs ys : List PortRange)
    → IsNormalized m xs
    → IsNormalized n ys
    → SamePorts xs ys
    → xs ≡ ys
unfolding contains
IsNormalized-unique m n [] [] v w same = refl
IsNormalized-unique m n [] (y ∷ ys) v w same = ground (arith, same y.start)
IsNormalized-unique m n (x ∷ xs) [] v w same = ground (arith, same x.start)
IsNormalized-unique m n (x ∷ xs) (y ∷ ys) v w same =
    let starts : x.start ≡ y.start = omega (
      arith,
      heads_start-le m n x y xs ys v w same,
      heads_start-le n m y x ys xs w v (λ p. sym (same p)),
    ) in
    let ends : x.end ≡ y.end = omega (
      arith,
      heads_end-le m n x y xs ys v w same starts,
      heads_end-le n m y x ys xs w v (λ p. sym (same p)) (sym starts),
    ) in
    let tails : SamePorts xs ys =
      λ p. ground (arith, covers-tail m x xs p v, covers-tail n y ys p w, same p) in
    ground (arith, IsNormalized-unique (x.end + 2) (y.end + 2) xs ys v.3 w.3 tails)
