-- ===== src/Engine/Users/Initial.antt =====
-- A new registry is valid, and `from_users` adds its users one by one.
use node_agent_rs.Base.{ℕ, ◌≡◌, refl, Bool, true, false, none, [], Text, lookup, arith}
use node_agent_rs.Engine.Kinds.{CredentialKinds}
use node_agent_rs.Engine.Shoes.{Shoes}
use node_agent_rs.Engine.Credentials.{Entry, is_some}
use node_agent_rs.Engine.Indexes.{allocate, new_indexes}
use node_agent_rs.Engine.Indexes.Keys.{indexed}
use node_agent_rs.Engine.Indexes.Prefixes.{HasNoZero, counted}
use node_agent_rs.Engine.Indexes.Forms.{Form, index_of, wanted}
use node_agent_rs.Engine.Users.{new_registry, candidates}
use node_agent_rs.Engine.Users.Consistent.{IsConsistent}
use node_agent_rs.Engine.Users.Valid.{IsValid}

allocate_some : (A : Type 0) (b : Bool) → is_some (allocate {A = A} b) ≡ b
allocate_some A true = refl
allocate_some A false = refl

module _ {K : Type 0} where
  allocate_empty : (b : Bool) (k : Text) → indexed {K = K} (allocate b) k ≡ none
  unfolding lookup
  allocate_empty true k = refl
  allocate_empty false k = refl

  index_of-new_indexes :
      (f : Form) (kinds : CredentialKinds)
      → index_of {K = K} f (new_indexes kinds) ≡ allocate (wanted f kinds)
  unfolding new_indexes
  index_of-new_indexes Form.by_uuid kinds = refl
  index_of-new_indexes Form.by_trojan_hash kinds = refl
  index_of-new_indexes Form.by_password kinds = refl
  index_of-new_indexes Form.by_psk_hash kinds = refl
  index_of-new_indexes Form.by_anytls_hash kinds = refl
  index_of-new_indexes Form.by_naive_encoded kinds = refl

no_zero_allocate : (b : Bool) → HasNoZero (allocate b)
unfolding lookup
no_zero_allocate true = λ p h. ground arith
no_zero_allocate false = tt

counted-allocate : (b : Bool) (p : Text) → counted (allocate b) p ≡ 0
unfolding lookup
counted-allocate true p = refl
counted-allocate false p = refl

module _ (s : Shoes) (kinds : CredentialKinds) where
  new-IsConsistent : IsConsistent s kinds [] (new_indexes kinds)
  unfolding lookup
  new-IsConsistent = record {
    distinct = tt;
    named = λ i e h. absurd (ground arith);
    sound = λ f k e h.
        absurd (
          ground
            (arith, rw (index_of-new_indexes f kinds, allocate_empty (wanted f kinds) k) at h));
    complete = λ f i k e h has. absurd (ground arith);
    allocated = λ f.
        rw (index_of-new_indexes f kinds)
          (allocate_some (Text × Entry s.VmessAuthKey) (wanted f kinds));
    prefixes_allocated = unfold new_indexes in allocate_some (Text × ℕ) kinds.anytls_password;
    no_zero = unfold new_indexes in no_zero_allocate kinds.anytls_password;
    prefixes_counted = λ p. unfold new_indexes in counted-allocate kinds.anytls_password p;
  }

  pub new_registry-IsValid : IsValid s (new_registry s kinds)
  unfolding new_registry candidates lookup
  new_registry-IsValid = record {
    agree = new-IsConsistent;
    snapshot = refl;
    separate = record {
      apart = λ i e h. absurd (ground arith);
      drains_named = λ i g h. absurd (ground arith);
      cells = λ i e h. absurd (ground arith);
      drained_cells = λ i g h. absurd (ground arith);
      own_cells = λ i j e d h k same. absurd (ground arith);
      apart_cells = λ i j e g h k same. absurd (ground arith);
      generations = λ i g h. absurd (ground arith);
    };
  }
