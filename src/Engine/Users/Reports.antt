-- ===== src/Engine/Users/Reports.antt =====
-- crates/shoes-engine/src/users.rs: the reports on users, and the sweeps that take their traffic. The
-- sort of a list by id is a sort by insertion: the ids of a registry are distinct.
pub mod Nonzero
pub mod Sweeps
use mathlib.Core.Option
use node_agent_rs.Base.{
  ℕ, Bool, true, false, ◌||◌, not, Option, none, some, List, [], ◌∷◌, length, ◌==◌, if◌then◌else◌,
  Text, text_le, lookup, Result, ok, err,
}
use node_agent_rs.Engine.Shoes.{Shoes, UserStats, UserContext, write_cell}
use node_agent_rs.Engine.Credentials.{EngineError, unknown_user, Entry}
use node_agent_rs.Engine.Users.{Registry, UserInfo, user_info}

unfoldable pub insert_by_id : UserInfo → List UserInfo → List UserInfo
insert_by_id info [] = info ∷ []
insert_by_id info (other ∷ infos) =
    if text_le info.id other.id then info ∷ other ∷ infos else other ∷ insert_by_id info infos

-- `sort_unstable_by(|a, b| a.id.cmp(&b.id))`
unfoldable pub sort_by_id : List UserInfo → List UserInfo
sort_by_id [] = []
sort_by_id (info ∷ infos) = insert_by_id info (sort_by_id infos)

module _ (s : Shoes) where
  -- The report of a context whose cell is given.
  abbrev pub info_of : UserContext → s.Cell → UserInfo
  info_of context cell = record { id = context.id; stats = s.stats cell }

  -- `taken_user_info_with_counters`
  unfoldable pub taken_user_info_with_counters : UserContext → s.Cell → ℕ → ℕ → UserInfo
  taken_user_info_with_counters context cell tx rx =
      let info = info_of context cell in
      record info { stats = record info.stats { tx = tx; rx = rx } }

  -- `taken_user_info`, with the cell that it leaves.
  unfoldable pub taken_user_info : UserContext → s.Cell → UserInfo × s.Cell
  taken_user_info context cell =
      let ((tx, rx), after) = s.take_traffic cell in
      (taken_user_info_with_counters context after tx rx, after)

  unfoldable pub get : Registry s → Text → Option UserInfo
  get r id =
      Option.map (λ (entry : Entry s.VmessAuthKey). user_info s r entry.context) (lookup id r.users)

  unfoldable pub kick_entry :
      Registry s → Text → Text → Option (Entry s.VmessAuthKey) → Result EngineError ℕ × Registry s
  kick_entry r tag id none = (err (unknown_user tag id), r)
  kick_entry r tag id (some entry) =
      let address = entry.context.address in
      let (kicked, cell) = s.kick_connections (r.heap address) in
      (ok kicked, record r { heap = write_cell address cell r.heap })

  unfoldable pub kick : Registry s → Text → Text → Result EngineError ℕ × Registry s
  unfolding kick_entry
  kick r tag id = kick_entry r tag id (lookup id r.users)

  unfoldable pub take_entry :
      Registry s
      → Text
      → Text
      → Option (Entry s.VmessAuthKey)
      → Result EngineError UserInfo × Registry s
  take_entry r tag id none = (err (unknown_user tag id), r)
  take_entry r tag id (some entry) =
      let address = entry.context.address in
      let (info, cell) = taken_user_info entry.context (r.heap address) in
      (ok info, record r { heap = write_cell address cell r.heap })

  unfoldable pub take_traffic : Registry s → Text → Text → Result EngineError UserInfo × Registry s
  unfolding take_entry
  take_traffic r tag id = take_entry r tag id (lookup id r.users)

  -- The sweep over the users, one after the other.
  unfoldable pub take_each :
      (ℕ → s.Cell) → List (Text × Entry s.VmessAuthKey) → List UserInfo × (ℕ → s.Cell)
  take_each heap [] = ([], heap)
  take_each heap ((id, entry) ∷ users) =
      let address = entry.context.address in
      let (info, cell) = taken_user_info entry.context (heap address) in
      let (infos, after) = take_each (write_cell address cell heap) users in (info ∷ infos, after)

  unfoldable pub take_all_traffic : Registry s → List UserInfo × Registry s
  take_all_traffic r =
      let (infos, heap) = take_each r.heap r.users in (sort_by_id infos, record r { heap = heap })

  -- The sweep that reports only the users whose traffic was not zero.
  unfoldable pub take_each_nonzero :
      (ℕ → s.Cell) → List (Text × Entry s.VmessAuthKey) → List UserInfo × (ℕ → s.Cell)
  take_each_nonzero heap [] = ([], heap)
  take_each_nonzero heap ((id, entry) ∷ users) =
      let address = entry.context.address in
      let ((tx, rx), cell) = s.take_traffic (heap address) in
      let (infos, after) = take_each_nonzero (write_cell address cell heap) users in
      (
        (if not (tx == 0) || not (rx == 0)
            then taken_user_info_with_counters entry.context cell tx rx ∷ infos
            else infos),
        after,
      )

  unfoldable pub take_nonzero_traffic : Registry s → List UserInfo × Registry s
  take_nonzero_traffic r =
      let (infos, heap) = take_each_nonzero r.heap r.users in
      (sort_by_id infos, record r { heap = heap })

  unfoldable pub infos : (ℕ → s.Cell) → List (Text × Entry s.VmessAuthKey) → List UserInfo
  infos heap [] = []
  infos heap ((id, entry) ∷ users) =
      info_of entry.context (heap entry.context.address) ∷ infos heap users

  -- `list`
  unfoldable pub list_users : Registry s → List UserInfo
  list_users r = sort_by_id (infos r.heap r.users)

  -- The contexts of the users, each with the analysis context.
  unfoldable pub set_each :
      s.Analysis → (ℕ → s.Cell) → List (Text × Entry s.VmessAuthKey) → ℕ → s.Cell
  set_each analysis heap [] = heap
  set_each analysis heap ((id, entry) ∷ users) =
      let address = entry.context.address in
      set_each analysis (write_cell address (s.set_analysis_context analysis (heap address)) heap)
        users

  -- `OnceLock::set`: the first value stays.
  abbrev pub set_once : Option s.Analysis → s.Analysis → Option s.Analysis
  set_once none analysis = some analysis
  set_once (some first) analysis = some first

  unfoldable pub set_analysis_context : Registry s → s.Analysis → Registry s
  set_analysis_context r analysis = record r {
    analysis = set_once r.analysis analysis;
    heap = set_each analysis r.heap r.users;
  }
