-- ===== src/Engine/Users.antt =====
-- crates/shoes-engine/src/users.rs: `MemoryUserRegistry`, the users of one inbound, and how users
-- are added. `writer` serializes the mutations, so each is one function of the registry; a context
-- is a cell of `heap`, and what connections do to a cell is a step of its own.
pub mod Removal
pub mod Lookups
pub mod Sealers
pub mod Identities
pub mod Reports
pub mod Consistent
pub mod Adds
pub mod Upserts
pub mod Admitted
pub mod Valid
pub mod Upserted
pub mod Removes
pub mod Found
pub mod Ends
pub mod Runs
pub mod Listed
pub mod Generations
pub mod Reached
pub mod Rotated
pub mod Initial
use mathlib.Core.Option
use node_agent_rs.Base.{
  ℕ, ◌+◌, Bool, true, false, Option, none, some, List, [], ◌∷◌, ◌==◌, if◌then◌else◌, Text, lookup,
  insert, Result, ok, err, ◌>>=◌, ◌>>◌, map_err, refuse_if,
}
use node_agent_rs.PortHopping.Ranges.{trim}
use node_agent_rs.Engine.Kinds.{CredentialKinds}
use node_agent_rs.Engine.Shoes.{Shoes, UserStats, UserContext, write_cell}
use node_agent_rs.Engine.Credentials.{
  UserSpec, resolved_id, EngineError, invalid_user, needs_an_id, not_collected, still_disconnecting,
  listed_twice, Credentials, Entry, is_some, parse_credentials,
}
use node_agent_rs.Engine.Indexes.{
  Failure, refused, Indexes, new_indexes, check_credentials_unclaimed, retire_keys, file_keys,
}

-- A status report: the counters of a user, with its id.
pub record UserInfo : Type 0 where
  pub id : Text
  pub stats : UserStats

-- An `Arc<DrainingUser>`; its result stands under its address.
pub record DrainingUser (K : Type 0) : Type 0 where
  pub address : ℕ
  pub entry : Entry K

abbrev pub is_blank : Text → Bool
is_blank [] = true
is_blank (c ∷ cs) = false

-- The id in the loop of `from_users`.
abbrev pub required_id : Option Text → Result Failure Text
required_id none = err (refused (invalid_user needs_an_id))
required_id (some id) = ok id

-- The id at the head of `upsert_locked`.
unfoldable pub id_of_spec : Option Text → Result EngineError Text
id_of_spec none = err (invalid_user needs_an_id)
id_of_spec (some id) = if is_blank (trim id) then err (invalid_user needs_an_id) else ok id

abbrev pub or_zero : Option ℕ → ℕ
or_zero none = 0
or_zero (some n) = n

module _ (s : Shoes) where
  -- Cells and generations are allocated in the order of their addresses.
  pub record Registry : Type 0 where
    pub analysis : Option s.Analysis
    pub kinds : CredentialKinds
    pub heap : ℕ → s.Cell
    pub next_cell : ℕ
    pub users : List (Text × Entry s.VmessAuthKey)
    pub draining : List (Text × DrainingUser s.VmessAuthKey)
    pub results : ℕ → Option UserInfo
    pub next_generation : ℕ
    pub indexes : Indexes s.VmessAuthKey
    pub vmess_candidates : List (Entry s.VmessAuthKey)

  -- `new`
  unfoldable pub new_registry : CredentialKinds → Registry
  new_registry kinds = record {
    analysis = none;
    kinds = kinds;
    heap = λ a. s.new_cell;
    next_cell = 0;
    users = [];
    draining = [];
    results = λ a. none;
    next_generation = 0;
    indexes = new_indexes kinds;
    vmess_candidates = [];
  }

  unfoldable pub user_info : Registry → UserContext → UserInfo
  user_info r context = record { id = context.id; stats = s.stats (r.heap context.address) }

  unfoldable pub candidates : List (Text × Entry s.VmessAuthKey) → List (Entry s.VmessAuthKey)
  candidates [] = []
  candidates ((id, entry) ∷ users) =
      if is_some entry.vmess then entry ∷ candidates users else candidates users

  unfoldable pub republish_vmess : Registry → Registry
  republish_vmess r = record r { vmess_candidates = candidates r.users }

  unfoldable pub refuse_draining :
      Registry → Text → Option (DrainingUser s.VmessAuthKey) → Result EngineError (Unit {0})
  refuse_draining r id none = ok tt
  refuse_draining r id (some draining) = err (
      invalid_user (
        if (s.stats (r.heap draining.entry.context.address)).conns == 0
        then not_collected id
        else still_disconnecting id))

  -- The record that an update keeps, or a new one.
  unfoldable pub context_of : Registry → Text → Option (Entry s.VmessAuthKey) → UserContext
  context_of r id none = record { id = id; address = r.next_cell }
  context_of r id (some previous) = previous.context

  -- The cell of the record: as it was, or a new one.
  unfoldable pub cell_of : Registry → Option (Entry s.VmessAuthKey) → s.Cell
  cell_of r none = s.new_cell
  cell_of r (some previous) = r.heap previous.context.address

  unfoldable pub next_cell_after : Registry → Option (Entry s.VmessAuthKey) → ℕ
  next_cell_after r none = r.next_cell + 1
  next_cell_after r (some previous) = r.next_cell

  abbrev pub with_analysis : Option s.Analysis → s.Cell → s.Cell
  with_analysis none cell = cell
  with_analysis (some analysis) cell = s.set_analysis_context analysis cell

  -- The settings that every upsert writes.
  unfoldable pub configure : Option s.Analysis → UserSpec → s.Cell → s.Cell
  configure analysis spec cell =
      s.set_speed_limits (or_zero spec.upload_limit_bps) (or_zero spec.download_limit_bps) (
        s.set_max_conns (or_zero spec.max_conns)
          (s.set_enabled spec.enabled (with_analysis analysis cell)))

  unfoldable pub new_entry : UserContext → Credentials → Entry s.VmessAuthKey
  new_entry context credentials = record {
    context = context;
    credentials = credentials;
    vmess = Option.map s.new_vmess_auth_key credentials.uuid;
  }

  unfoldable pub retire_previous :
      Option (Entry s.VmessAuthKey)
      → Credentials
      → Indexes s.VmessAuthKey
      → Result Failure (Indexes s.VmessAuthKey)
  retire_previous none new ix = ok ix
  retire_previous (some previous) new ix = retire_keys s previous.credentials new ix

  -- `upsert_locked` past its checks.
  unfoldable pub replace_user :
      Registry → Text → UserSpec → Credentials → Result Failure (Entry s.VmessAuthKey × Registry)
  replace_user r id spec credentials =
      let previous = lookup id r.users in
      let context = context_of r id previous in
      let entry = new_entry context credentials in
      do
        retired ← retire_previous previous credentials r.indexes
        filed ← file_keys s entry retired
        ok (
          entry,
          record r {
            heap =
                write_cell context.address (configure r.analysis spec (cell_of r previous)) r.heap;
            next_cell = next_cell_after r previous;
            indexes = filed;
            users = insert id entry r.users;
          },
        )

  -- The checks of `upsert_locked`.
  unfoldable pub admit : Registry → UserSpec → Result EngineError (Text × Credentials)
  admit r spec = do
    id ← id_of_spec (resolved_id spec)
    refuse_draining r id (lookup id r.draining)
    credentials ← parse_credentials s r.kinds id spec
    check_credentials_unclaimed r.indexes id credentials
    ok (id, credentials)

  unfoldable pub upsert_locked :
      Registry → UserSpec → Result Failure (Entry s.VmessAuthKey × Registry)
  upsert_locked r spec = do
    (id, credentials) ← map_err refused (admit r spec)
    replace_user r id spec credentials

  unfoldable pub upsert : Registry → UserSpec → Result Failure (UserInfo × Registry)
  upsert r spec = do
    (entry, changed) ← upsert_locked r spec
    ok (user_info (republish_vmess changed) entry.context, republish_vmess changed)

  -- The loop of `from_users`.
  unfoldable pub add_users : Registry → List UserSpec → Result Failure Registry
  add_users r [] = ok r
  add_users r (user ∷ users) = do
    id ← required_id (resolved_id user)
    refuse_if (is_some (lookup id r.users)) (refused (invalid_user (listed_twice id)))
    (entry, added) ← upsert_locked r user
    add_users added users

  unfoldable pub from_users : CredentialKinds → List UserSpec → Result Failure Registry
  from_users kinds users = do r ← add_users (new_registry kinds) users; ok (republish_vmess r)
