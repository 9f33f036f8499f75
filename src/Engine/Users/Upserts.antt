-- ===== src/Engine/Users/Upserts.antt =====
-- Replacing a user's entry keeps the indexes consistent, and does not panic.
use mathlib.Core.Path.{subst}
use node_agent_rs.Base.{
  ◌+◌, ◌≡◌, refl, sym, ap, ◌∙◌, true, Option, none, some, List, if◌then◌else◌, Text, text_eq,
  text_eq_iff, lookup, insert, remove, lookup-insert, ok, Option-cases, inl, inr, arith,
}
use node_agent_rs.Engine.Kinds.{CredentialKinds}
use node_agent_rs.Engine.Shoes.{Shoes}
use node_agent_rs.Engine.Credentials.{Entry, is_some}
use node_agent_rs.Engine.Indexes.{Index, Indexes, opt_eq, claimed_by_other, file_keys}
use node_agent_rs.Engine.Indexes.Owned.{old_key, IsSound-replace, IsComplete-replace}
use node_agent_rs.Engine.Indexes.Keys.{indexed, retired_key, Without, With}
use node_agent_rs.Engine.Indexes.Prefixes.{Counts, counted, weight, claimed_key}
use node_agent_rs.Engine.Indexes.Forms.{
  Form, by_anytls_hash, key_of, index_of, wanted, Fits, file_keys_total,
}
use node_agent_rs.Engine.Users.{retire_previous}
use node_agent_rs.Engine.Users.Consistent.{
  insert-HasDistinctKeys, total, measured, total-remove, id_of, entry_key, entry_weight,
  IsConsistent,
}
use node_agent_rs.Engine.Users.Adds.{
  old_credentials, old_key_lem, unclaimed, moved, retire_previous_total, claimed_key_lem, recounted,
}

pub measured-weight :
    (s : Shoes) (p : Text) (o : Option (Entry s.VmessAuthKey))
    → measured (entry_weight s p) o ≡ weight s (old_credentials o).anytls_hash p
measured-weight s p none = refl
measured-weight s p (some e) = refl

module _ (s : Shoes) (kinds : CredentialKinds) (users : List (Text × Entry s.VmessAuthKey))
    (ix : Indexes s.VmessAuthKey) (c : IsConsistent s kinds users ix) where
  -- The key that a user has leads to the user.
  pub held :
      (f : Form) (id k : Text)
      → key_of f (old_credentials (lookup id users)) ≡ some k
      → (e : Entry s.VmessAuthKey) × (lookup id users ≡ some e)
        × (indexed (index_of f ix) k ≡ some e)
  held f id k h = elim (Option-cases (lookup id users)) [
    | inl absent ↦
        let gone : old_key (entry_key f) (lookup id users) ≡ some k =
          old_key_lem f (lookup id users) ∙ h in
        absurd (ground (arith, ap (old_key (entry_key {K = s.VmessAuthKey} f)) absent))
    | inr (e, was) ↦
        let has : old_key (entry_key f) (lookup id users) ≡ some k =
          old_key_lem f (lookup id users) ∙ h in
        (e, was, c.complete f id k e was (ground (arith, ap (old_key (entry_key f)) was)))
  ]

  allocated_of_found :
      (i : Index s.VmessAuthKey) (k : Text) (e : Entry s.VmessAuthKey)
      → indexed i k ≡ some e
      → is_some i ≡ true
  allocated_of_found none k e h = ground arith
  allocated_of_found (some m) k e h = refl

  -- The keys of a user have their indexes.
  pub Fits-old : (id : Text) → Fits (old_credentials (lookup id users)) ix
  Fits-old id =
      let fits : (f : Form)
          → is_some (key_of f (old_credentials (lookup id users))) ≡ true
          → is_some (index_of f ix) ≡ true =
        λ f h. elim (Option-cases (key_of f (old_credentials (lookup id users)))) [
          | inl no_key ↦ absurd (ground arith)
          | inr (k, e) ↦
              let (entry, was, found) = held f id k e in
              allocated_of_found (index_of f ix) k entry found
        ] in
      (fits, λ h. c.prefixes_allocated ∙ sym (c.allocated by_anytls_hash) ∙ fits by_anytls_hash h)

  -- A new entry of a user, whose keys the kinds want and no other user has.
  module _ (e : Entry s.VmessAuthKey)
      (free : (f : Form) → claimed_by_other (id_of e) (index_of f ix) (entry_key f e) ≡ none)
      (wants : (f : Form) → is_some (entry_key f e) ≡ true → wanted f kinds ≡ true) where
    Fits-new :
        (middle : Indexes s.VmessAuthKey)
        → ((f : Form) → is_some (index_of f middle) ≡ is_some (index_of f ix))
        → is_some middle.anytls_prefixes ≡ is_some ix.anytls_prefixes
        → Fits e.credentials middle
    Fits-new middle same same_prefixes = (
      λ f h. same f ∙ c.allocated f ∙ wants f h,
      λ h. same_prefixes ∙ c.prefixes_allocated ∙ wants by_anytls_hash h,
    )

    -- A key of the new entry that some user has is the old key of the same user.
    own :
        (f : Form) (k : Text)
        → entry_key f e ≡ some k
        → is_some (indexed (index_of f ix) k) ≡ true
        → key_of f (old_credentials (lookup (id_of e) users)) ≡ some k
    own f k kk h = elim (Option-cases (indexed (index_of f ix) k)) [
      | inl nobody ↦ absurd (ground arith)
      | inr (other, found) ↦
          let (has, user) = c.sound f k other found in
          let same =
            unclaimed (id_of e) (index_of f ix) (entry_key f e) (free f) k other kk found in
          rw (← same, user) has
    ]

    module _ (retired filed : Indexes s.VmessAuthKey)
        (without : (f : Form)
          → Without
              (retired_key (key_of f (old_credentials (lookup (id_of e) users))) (entry_key f e))
              (index_of f ix)
              (index_of f retired))
        (filing : (f : Form) → With (entry_key f e) e (index_of f retired) (index_of f filed))
        (down : Counts s none
          (retired_key
            (old_credentials (lookup (id_of e) users)).anytls_hash
            e.credentials.anytls_hash)
          ix.anytls_prefixes
          retired.anytls_prefixes)
        (up : Counts s
          (claimed_key s e.credentials.anytls_hash retired.by_anytls_hash)
          none
          retired.anytls_prefixes
          filed.anytls_prefixes) where
      moves :
          (f : Form) (k : Text)
          → indexed (index_of f filed) k ≡ (
              if opt_eq (entry_key f e) (some k)
              then some e
              else if opt_eq (old_key (entry_key f) (lookup (id_of e) users)) (some k)
              then none
              else indexed (index_of f ix) k)
      moves f k = rw (old_key_lem f (lookup (id_of e) users)) (
          moved (key_of f (old_credentials (lookup (id_of e) users))) (entry_key f e) e
            (index_of f ix) (index_of f retired) (index_of f filed) (without f) (filing f) k)

      held_hash :
          (k : Text)
          → (old_credentials (lookup (id_of e) users)).anytls_hash ≡ some k
          → is_some (indexed ix.by_anytls_hash k) ≡ true
      held_hash k h = let (entry, was, found) = held by_anytls_hash (id_of e) k h in rw found refl

      before :
          (p : Text)
          → total (entry_weight s p) (remove (id_of e) users)
              + weight s (old_credentials (lookup (id_of e) users)).anytls_hash p
            ≡ counted ix.anytls_prefixes p
      before p =
          rw (← measured-weight s p (lookup (id_of e) users)) (
            total-remove (entry_weight s p) (id_of e) users c.distinct ∙ sym (c.prefixes_counted p))

      counts :
          (p : Text)
          → counted filed.anytls_prefixes p ≡ total (entry_weight s p) (insert (id_of e) e users)
      unfolding insert
      counts p =
          let old = (old_credentials (lookup (id_of e) users)).anytls_hash in
          let new = e.credentials.anytls_hash in
          let claimed =
            claimed_key_lem s old new ix.by_anytls_hash retired.by_anytls_hash
              (without by_anytls_hash) held_hash (own by_anytls_hash) in
          let after =
            recounted s old new p (counted retired.anytls_prefixes p) (counted ix.anytls_prefixes p)
              (counted filed.anytls_prefixes p) (total (entry_weight s p) (remove (id_of e) users))
              (before p) (down.counts p) (rw claimed at (up.counts p)) in
          omega (arith, after)

      inserted :
          (i : Text)
          → lookup i (insert (id_of e) e users)
            ≡ (if text_eq (id_of e) i then some e else lookup i users)
      inserted i = lookup-insert i (id_of e) e users

      kept : IsConsistent s kinds (insert (id_of e) e users) filed
      kept = record {
        distinct = insert-HasDistinctKeys (id_of e) e users c.distinct;
        named = λ i entry h. ground (arith, inserted i, text_eq_iff (id_of e) i, c.named i entry);
        sound = λ f.
            IsSound-replace id_of (entry_key f) (λ i. lookup i users) (indexed (index_of f ix))
              (λ i. lookup i (insert (id_of e) e users)) (indexed (index_of f filed)) (c.sound f)
              (c.complete f) e inserted (moves f);
        complete = λ f.
            IsComplete-replace id_of (entry_key f) (λ i. lookup i users) (indexed (index_of f ix))
              (λ i. lookup i (insert (id_of e) e users)) (indexed (index_of f filed)) (c.sound f)
              (c.complete f) e inserted (moves f)
              (λ k other kk found.
                unclaimed (id_of e) (index_of f ix) (entry_key f e) (free f) k other kk found)
              c.named;
        allocated = λ f. (filing f).as_allocated ∙ (without f).as_allocated ∙ c.allocated f;
        prefixes_allocated = up.as_allocated ∙ down.as_allocated ∙ c.prefixes_allocated;
        no_zero = up.no_zero;
        prefixes_counted = counts;
      }

    -- Replacing the entry does not panic, and the indexes are those of the users after it.
    pub replace_total :
        (retired : Indexes s.VmessAuthKey) × (filed : Indexes s.VmessAuthKey) × (retire_previous s
            (lookup (id_of e) users)
            e.credentials
            ix
          ≡ ok retired)
        × (file_keys s e retired ≡ ok filed)
        × IsConsistent s kinds (insert (id_of e) e users) filed
    replace_total =
        let (retired, retire_ok, without, down) =
          retire_previous_total s (lookup (id_of e) users) e.credentials ix (Fits-old (id_of e))
            c.no_zero in
        let (filed, file_ok, filing, up) =
          file_keys_total s e retired
            (Fits-new retired (λ f. (without f).as_allocated) down.as_allocated) down.no_zero in
        (retired, filed, retire_ok, file_ok, kept retired filed without filing down up)

  -- The same under the id of the entry.
  pub replace_total_at :
      (id : Text) (e : Entry s.VmessAuthKey)
      → id_of e ≡ id
      → ((f : Form) → claimed_by_other id (index_of f ix) (entry_key f e) ≡ none)
      → ((f : Form) → is_some (entry_key f e) ≡ true → wanted f kinds ≡ true)
      → (retired : Indexes s.VmessAuthKey) × (filed : Indexes s.VmessAuthKey) × (retire_previous s
            (lookup id users)
            e.credentials
            ix
          ≡ ok retired)
        × (file_keys s e retired ≡ ok filed)
        × IsConsistent s kinds (insert id e users) filed
  replace_total_at id e is free wants =
      subst
        (λ i.
          ((f : Form) → claimed_by_other i (index_of f ix) (entry_key f e) ≡ none)
          → (retired : Indexes s.VmessAuthKey) × (filed : Indexes s.VmessAuthKey) × (retire_previous
                s (lookup i users) e.credentials ix
              ≡ ok retired)
            × (file_keys s e retired ≡ ok filed)
            × IsConsistent s kinds (insert i e users) filed)
        is (λ own_free. replace_total e own_free wants) free
