-- ===== src/Engine/Indexes/Owned.antt =====
-- When an index agrees with the users, over any two maps read as functions.
use node_agent_rs.Base.{
  ◌≡◌, ◌↔◌, ap, true, Option, none, some, if◌then◌else◌, Text, text_eq, text_eq_iff, Option-cases,
  inl, inr, arith,
}
use node_agent_rs.Engine.Indexes.{opt_eq}

pub opt_eq_iff : (a b : Option Text) → (opt_eq a b ≡ true) ↔ (a ≡ b)
unfolding opt_eq
opt_eq_iff none none = ground arith
opt_eq_iff none (some b) = ground arith
opt_eq_iff (some a) none = ground arith
opt_eq_iff (some a) (some b) = ground (arith, text_eq_iff a b)

module _ {E : Type 0} (key : E → Option Text) where
  -- The key that the user had.
  abbrev pub old_key : Option E → Option Text
  old_key none = none
  old_key (some e) = key e

module _ {E : Type 0} (id_of : E → Text) (key : E → Option Text) where
  -- Who has a key is a user, under the key of that user.
  abbrev pub IsSound : (Text → Option E) → (Text → Option E) → Type 0
  IsSound users find =
      (k : Text) (e : E) → find k ≡ some e → (key e ≡ some k) × (users (id_of e) ≡ some e)

  -- Every user is found under its key.
  abbrev pub IsComplete : (Text → Option E) → (Text → Option E) → Type 0
  IsComplete users find = (i k : Text) (e : E) → users i ≡ some e → key e ≡ some k → find k ≡ some e

  module _ (users find users' find' : Text → Option E) (sound : IsSound users find)
      (complete : IsComplete users find) where
    module _ (new : E)
        (set : (i : Text) → users' i ≡ (if text_eq (id_of new) i then some new else users i))
        (moved : (k : Text)
          → find' k ≡ (
              if opt_eq (key new) (some k)
              then some new
              else if opt_eq (old_key key (users (id_of new))) (some k)
              then none
              else find k)) where
      pub IsSound-replace : IsSound users' find'
      IsSound-replace k e h = ground (
        arith,
        moved k,
        opt_eq_iff (key new) (some k),
        opt_eq_iff (old_key key (users (id_of new))) (some k),
        sound k e,
        set (id_of e),
        text_eq_iff (id_of new) (id_of e),
      )

      pub IsComplete-replace :
          ((k : Text) (e : E) → key new ≡ some k → find k ≡ some e → id_of e ≡ id_of new)
          → ((i : Text) (e : E) → users i ≡ some e → id_of e ≡ i)
          → IsComplete users' find'
      IsComplete-replace unclaimed named i k e h kk = elim (Option-cases (users (id_of new))) [
        | inl fresh ↦ ground (
          arith,
          moved k,
          set i,
          text_eq_iff (id_of new) i,
          opt_eq_iff (key new) (some k),
          ap (old_key key) fresh,
          opt_eq_iff none (some k),
          complete i k e,
          unclaimed k e,
          named i e,
        )
        | inr (old, was) ↦ ground (
          arith,
          moved k,
          set i,
          text_eq_iff (id_of new) i,
          opt_eq_iff (key new) (some k),
          ap (old_key key) was,
          opt_eq_iff (key old) (some k),
          complete i k e,
          complete (id_of new) k old,
          unclaimed k e,
          named i e,
          named (id_of new) old,
        )
      ]

    module _ (gone : E) (was : users (id_of gone) ≡ some gone)
        (set : (i : Text) → users' i ≡ (if text_eq (id_of gone) i then none else users i))
        (moved : (k : Text) → find' k ≡ (if opt_eq (key gone) (some k) then none else find k)) where
      pub IsSound-remove : IsSound users' find'
      IsSound-remove k e h = ground (
        arith,
        moved k,
        opt_eq_iff (key gone) (some k),
        sound k e,
        set (id_of e),
        text_eq_iff (id_of gone) (id_of e),
      )

      pub IsComplete-remove :
          ((i : Text) (e : E) → users i ≡ some e → id_of e ≡ i) → IsComplete users' find'
      IsComplete-remove named i k e h kk = ground (
        arith,
        moved k,
        set i,
        text_eq_iff (id_of gone) i,
        opt_eq_iff (key gone) (some k),
        complete i k e,
        complete (id_of gone) k gone,
        named i e,
      )
