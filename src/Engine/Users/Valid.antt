-- ===== src/Engine/Users/Valid.antt =====
-- The invariant of a whole registry: its indexes, its snapshot, and who shares what.
use node_agent_rs.Base.{
  ℕ, ◌+◌, ◌≡◌, ◌≢◌, ◌<◌, none, some, List, if◌then◌else◌, Text, text_eq, text_eq_iff, lookup,
  insert, lookup-insert, ◌⊎◌, inl, inr, arith,
}
use node_agent_rs.Engine.Shoes.{Shoes}
use node_agent_rs.Engine.Credentials.{Entry}
use node_agent_rs.Engine.Users.{Registry, DrainingUser, candidates}
use node_agent_rs.Engine.Users.Consistent.{id_of, IsConsistent}

module _ (s : Shoes) where
  -- An id is live or draining, never both, and no two of them share a record.
  pub record IsSeparate (users : List (Text × Entry s.VmessAuthKey))
      (draining : List (Text × DrainingUser s.VmessAuthKey)) (next_cell next_generation : ℕ)
      : Type 0 where
    pub apart :
        (i : Text) (e : Entry s.VmessAuthKey) → lookup i users ≡ some e → lookup i draining ≡ none
    pub drains_named :
        (i : Text) (g : DrainingUser s.VmessAuthKey)
        → lookup i draining ≡ some g
        → id_of g.entry ≡ i
    pub cells :
        (i : Text) (e : Entry s.VmessAuthKey)
        → lookup i users ≡ some e
        → e.context.address < next_cell
    pub drained_cells :
        (i : Text) (g : DrainingUser s.VmessAuthKey)
        → lookup i draining ≡ some g
        → g.entry.context.address < next_cell
    pub own_cells :
        (i j : Text) (e d : Entry s.VmessAuthKey)
        → lookup i users ≡ some e
        → lookup j users ≡ some d
        → e.context.address ≡ d.context.address
        → i ≡ j
    pub apart_cells :
        (i j : Text) (e : Entry s.VmessAuthKey) (g : DrainingUser s.VmessAuthKey)
        → lookup i users ≡ some e
        → lookup j draining ≡ some g
        → e.context.address ≢ g.entry.context.address
    pub generations :
        (i : Text) (g : DrainingUser s.VmessAuthKey)
        → lookup i draining ≡ some g
        → g.address < next_generation

  pub record IsValid (r : Registry s) : Type 0 where
    pub agree : IsConsistent s r.kinds r.users r.indexes
    pub snapshot : r.vmess_candidates ≡ candidates s r.users
    pub separate : IsSeparate r.users r.draining r.next_cell r.next_generation

  -- The record of the entry is new, or that of the entry it replaces.
  abbrev pub HasRecord :
      Text → Entry s.VmessAuthKey → List (Text × Entry s.VmessAuthKey) → ℕ → ℕ → Type 0
  HasRecord id e users next next' =
      ((lookup id users ≡ none) × (e.context.address ≡ next) × (next' ≡ next + 1))
      ⊎ ((old : Entry s.VmessAuthKey) × (lookup id users ≡ some old)
          × (e.context.address ≡ old.context.address)
          × (next' ≡ next))

  module _ (users : List (Text × Entry s.VmessAuthKey))
      (draining : List (Text × DrainingUser s.VmessAuthKey)) (next next' generation : ℕ) (id : Text)
      (e : Entry s.VmessAuthKey) (h : IsSeparate users draining next generation)
      (idle : lookup id draining ≡ none) where
    pub inserted :
        (i : Text)
        → lookup i (insert id e users) ≡ (if text_eq id i then some e else lookup i users)
    inserted i = lookup-insert i id e users

    own_cells_insert :
        HasRecord id e users next next'
        → (i j : Text) (c d : Entry s.VmessAuthKey) → lookup i (insert id e users) ≡ some c
        → lookup j (insert id e users) ≡ some d
        → c.context.address ≡ d.context.address
        → i ≡ j
    own_cells_insert (inl (fresh, at, up)) i j c d hi hj same = ground (
      arith,
      inserted i,
      inserted j,
      text_eq_iff id i,
      text_eq_iff id j,
      h.own_cells i j c d,
      h.cells i c,
      h.cells j d,
    )
    own_cells_insert (inr (old, was, at, up)) i j c d hi hj same = ground (
      arith,
      inserted i,
      inserted j,
      text_eq_iff id i,
      text_eq_iff id j,
      h.own_cells i j c d,
      h.own_cells i id c old,
      h.own_cells id j old d,
    )

    apart_cells_insert :
        HasRecord id e users next next'
        → (i j : Text) (c : Entry s.VmessAuthKey) (g : DrainingUser s.VmessAuthKey)
        → lookup i (insert id e users) ≡ some c
        → lookup j draining ≡ some g
        → c.context.address ≢ g.entry.context.address
    apart_cells_insert (inl (fresh, at, up)) i j c g hi hj same =
        ground (arith, inserted i, text_eq_iff id i, h.apart_cells i j c g, h.drained_cells j g)
    apart_cells_insert (inr (old, was, at, up)) i j c g hi hj same =
        ground
          (arith, inserted i, text_eq_iff id i, h.apart_cells i j c g, h.apart_cells id j old g)

    pub IsSeparate-insert :
        HasRecord id e users next next' → IsSeparate (insert id e users) draining next' generation
    IsSeparate-insert record_of = record {
      apart = λ i c hi. ground (arith, inserted i, text_eq_iff id i, h.apart i c);
      drains_named = h.drains_named;
      cells = λ i c hi. elim record_of [
        | inl (fresh, at, up) ↦ ground (arith, inserted i, text_eq_iff id i, h.cells i c)
        | inr (old, was, at, up) ↦
            ground (arith, inserted i, text_eq_iff id i, h.cells i c, h.cells id old)
      ];
      drained_cells = λ i g hi. ground (arith, h.drained_cells i g);
      own_cells = own_cells_insert record_of;
      apart_cells = apart_cells_insert record_of;
      generations = h.generations;
    }
