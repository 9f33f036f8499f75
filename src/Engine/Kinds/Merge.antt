-- ===== src/Engine/Kinds/Merge.antt =====
-- Credential forms of several targets together: what their one `password` can mean.
use node_agent_rs.Base.{
  ℕ, Bool, false, none, List, [], ◌∷◌, All, ◌≡◌, refl, ◌⊎◌, inl, inr, ◌↔◌, arith,
}
use node_agent_rs.Engine.Kinds.{
  CredentialKinds, ShadowsocksPsk, no_psk, len, mixed, no_kinds, merge, merge_psk, conflict,
  psk_conflict, takes_cleartext,
}

-- The forms of all targets of an inbound.
abbrev pub merge_all : List CredentialKinds → CredentialKinds
merge_all [] = no_kinds
merge_all (k ∷ ks) = merge k (merge_all ks)

pub merge_psk_comm : (a b : ShadowsocksPsk) → merge_psk a b ≡ merge_psk b a
unfolding merge_psk
merge_psk_comm no_psk no_psk = refl
merge_psk_comm no_psk (len b) = refl
merge_psk_comm no_psk mixed = refl
merge_psk_comm (len a) no_psk = refl
merge_psk_comm (len a) (len b) = ground arith
merge_psk_comm (len a) mixed = refl
merge_psk_comm mixed no_psk = refl
merge_psk_comm mixed (len b) = refl
merge_psk_comm mixed mixed = refl

pub merge_psk_assoc :
    (a b c : ShadowsocksPsk) → merge_psk (merge_psk a b) c ≡ merge_psk a (merge_psk b c)
unfolding merge_psk
merge_psk_assoc no_psk b c = refl
merge_psk_assoc (len x) no_psk c = refl
merge_psk_assoc (len x) (len y) no_psk = ground arith
merge_psk_assoc (len x) (len y) (len z) = ground arith
merge_psk_assoc (len x) (len y) mixed = ground arith
merge_psk_assoc (len x) mixed no_psk = refl
merge_psk_assoc (len x) mixed (len z) = refl
merge_psk_assoc (len x) mixed mixed = refl
merge_psk_assoc mixed no_psk c = refl
merge_psk_assoc mixed (len y) no_psk = refl
merge_psk_assoc mixed (len y) (len z) = ground arith
merge_psk_assoc mixed (len y) mixed = refl
merge_psk_assoc mixed mixed no_psk = refl
merge_psk_assoc mixed mixed (len z) = refl
merge_psk_assoc mixed mixed mixed = refl

-- What a user's `password` is read as.
pub data Meaning : Type 0 where
  cleartext : Meaning
  psk : ℕ → Meaning

-- Every target of these forms that reads `password` reads it so.
abbrev pub Reads : Meaning → CredentialKinds → Type 0
Reads cleartext k = k.shadowsocks_psk ≡ no_psk
Reads (psk n) k =
    (takes_cleartext k ≡ false) × ((k.shadowsocks_psk ≡ no_psk) ⊎ (k.shadowsocks_psk ≡ len n))

merge_psk-eq-no_psk :
    (a b : ShadowsocksPsk) → (merge_psk a b ≡ no_psk) ↔ ((a ≡ no_psk) × (b ≡ no_psk))
unfolding merge_psk
merge_psk-eq-no_psk no_psk b = ground arith
merge_psk-eq-no_psk (len x) no_psk = ground arith
merge_psk-eq-no_psk (len x) (len y) = ground arith
merge_psk-eq-no_psk (len x) mixed = ground arith
merge_psk-eq-no_psk mixed no_psk = ground arith
merge_psk-eq-no_psk mixed (len y) = ground arith
merge_psk-eq-no_psk mixed mixed = ground arith

abbrev Within : ℕ → ShadowsocksPsk → Type 0
Within n p = (p ≡ no_psk) ⊎ (p ≡ len n)

Within-merge_psk :
    (n : ℕ) (a b : ShadowsocksPsk) → Within n (merge_psk a b) ↔ (Within n a × Within n b)
unfolding merge_psk
Within-merge_psk n no_psk b = ground arith
Within-merge_psk n (len x) no_psk = ground arith
Within-merge_psk n (len x) (len y) = ground arith
Within-merge_psk n (len x) mixed = ground arith
Within-merge_psk n mixed no_psk = ground arith
Within-merge_psk n mixed (len y) = ground arith
Within-merge_psk n mixed mixed = ground arith

Reads-merge : (m : Meaning) (k l : CredentialKinds) → Reads m (merge k l) ↔ (Reads m k × Reads m l)
unfolding merge takes_cleartext
Reads-merge cleartext k l = merge_psk-eq-no_psk k.shadowsocks_psk l.shadowsocks_psk
Reads-merge (psk n) k l = ground (arith, Within-merge_psk n k.shadowsocks_psk l.shadowsocks_psk)

Reads-merge_all :
    (m : Meaning) (ks : List CredentialKinds) → Reads m (merge_all ks) ↔ All (Reads m) ks
unfolding takes_cleartext
Reads-merge_all cleartext [] = ground arith
Reads-merge_all (psk n) [] = ground arith
Reads-merge_all m (k ∷ ks) =
    let step = Reads-merge m k (merge_all ks) in
    let rest = Reads-merge_all m ks in
    (λ h. ((step.0 h).0, rest.0 (step.0 h).1), λ h. step.1 (h.0, rest.1 h.1))

conflict_cases :
    (p : ShadowsocksPsk) (c : Bool)
    → (psk_conflict p c ≡ none) ↔ ((p ≡ no_psk) ⊎ ((n : ℕ) × (c ≡ false) × (p ≡ len n)))
unfolding psk_conflict
conflict_cases no_psk c = (λ h. inl refl, λ h. refl)
conflict_cases (len n) c = (λ h. inr (n, ground arith, refl), ground arith)
conflict_cases mixed c = (ground arith, ground arith)

conflict-Reads : (k : CredentialKinds) → (conflict k ≡ none) ↔ ((m : Meaning) × Reads m k)
unfolding conflict
conflict-Reads k =
    let cases = conflict_cases k.shadowsocks_psk (takes_cleartext k) in
    (λ h. meaning (cases.0 h), λ h. clear h.0 h.1)
  where
    meaning :
        (k.shadowsocks_psk ≡ no_psk)
          ⊎ ((n : ℕ) × (takes_cleartext k ≡ false) × (k.shadowsocks_psk ≡ len n))
        → (m : Meaning) × Reads m k
    meaning (inl e) = (cleartext, e)
    meaning (inr (n, c, e)) = (psk n, (c, inr e))

    clear : (m : Meaning) → Reads m k → psk_conflict k.shadowsocks_psk (takes_cleartext k) ≡ none
    clear cleartext h = (conflict_cases k.shadowsocks_psk (takes_cleartext k)).1 (inl h)
    clear (psk n) (c, inl e) = (conflict_cases k.shadowsocks_psk (takes_cleartext k)).1 (inl e)
    clear (psk n) (c, inr e) =
        (conflict_cases k.shadowsocks_psk (takes_cleartext k)).1 (inr (n, c, e))

-- The forms of several targets together have no conflict exactly when there is one meaning of
-- `password`, cleartext or a key of one length, by which every target that reads it reads it.
pub conflict-merge_all :
    (ks : List CredentialKinds)
    → (conflict (merge_all ks) ≡ none) ↔ ((m : Meaning) × All (Reads m) ks)
conflict-merge_all ks =
    let one = conflict-Reads (merge_all ks) in
    (
      λ h. let (m, r) = one.0 h in (m, (Reads-merge_all m ks).0 r),
      λ h. one.1 (h.0, (Reads-merge_all h.0 ks).1 h.1),
    )
