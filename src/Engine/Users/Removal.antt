-- ===== src/Engine/Users/Removal.antt =====
-- crates/shoes-engine/src/users.rs: how users are removed. `remove` has two parts: the one under
-- `writer`, and the one after the connections have closed, which other calls may come between. A
-- finalizer that waits answers `none`; `wait_for_connections_closed` is done at no connections.
use node_agent_rs.Base.{
  ℕ, ◌+◌, Bool, true, false, Option, none, some, List, ◌==◌, if◌then◌else◌, Text, codes, ◌++◌,
  lookup, insert, remove, Result, ok, err, ◌>>=◌,
}
use node_agent_rs.Engine.Shoes.{Shoes, write_cell}
use node_agent_rs.Engine.Credentials.{EngineError, unknown_user, io, Entry}
use node_agent_rs.Engine.Indexes.{Failure, refused, drop_keys}
use node_agent_rs.Engine.Users.{UserInfo, DrainingUser, Registry, user_info, republish_vmess}

-- How the task of a finalizer ended.
pub data Joined : Type 0 where
  joined : Joined
  join_failed : Text → Joined

-- `OnceLock::get_or_init`
abbrev pub write_once : ℕ → UserInfo → (ℕ → Option UserInfo) → ℕ → Option UserInfo
write_once address info results a = elim (results a) [
  | some first ↦ some first
  | none ↦ if a == address then some info else none
]

abbrev pub stored_or : Option UserInfo → UserInfo → UserInfo
stored_or none info = info
stored_or (some first) info = first

module _ (s : Shoes) where
  -- The part of `remove` under the lock, for a user that is there.
  unfoldable pub revoke_user :
      Registry s
      → Text
      → Entry s.VmessAuthKey
      → Result Failure ((DrainingUser s.VmessAuthKey × Bool) × Registry s)
  revoke_user r id entry =
      let address = entry.context.address in
      let generation : DrainingUser s.VmessAuthKey = record {
        address = r.next_generation;
        entry = entry;
      } in
      do
        indexes ← drop_keys s entry.credentials r.indexes
        ok (
          (generation, true),
          republish_vmess s (record r {
            heap = write_cell address (s.revoke_connections (r.heap address)) r.heap;
            users = remove id r.users;
            draining = insert entry.context.id generation r.draining;
            next_generation = r.next_generation + 1;
            indexes = indexes;
          }),
        )

  -- For a user that is not: a repeated removal attaches to its generation.
  unfoldable pub attach :
      Registry s
      → Text
      → Text
      → Option (DrainingUser s.VmessAuthKey)
      → Result Failure ((DrainingUser s.VmessAuthKey × Bool) × Registry s)
  attach r tag id none = err (refused (unknown_user tag id))
  attach r tag id (some generation) = ok ((generation, false), r)

  unfoldable pub begin_remove :
      Registry s → Text → Text → Result Failure ((DrainingUser s.VmessAuthKey × Bool) × Registry s)
  begin_remove r tag id = elim (lookup id r.users) [
    | some entry ↦ revoke_user r id entry
    | none ↦ attach r tag id (lookup id r.draining)
  ]

  -- `DrainingUser::complete`
  unfoldable pub complete : Registry s → DrainingUser s.VmessAuthKey → UserInfo × Registry s
  complete r g =
      let info = user_info s r g.entry.context in
      (
        stored_or (r.results g.address) info,
        record r { results = write_once g.address info r.results },
      )

  -- Whether every connection of the generation has closed.
  unfoldable pub is_drained : Registry s → DrainingUser s.VmessAuthKey → Bool
  is_drained r g = (s.stats (r.heap g.entry.context.address)).conns == 0

  unfoldable pub finish_unstored :
      Registry s → DrainingUser s.VmessAuthKey → Option UserInfo → Option (UserInfo × Registry s)
  finish_unstored r g (some info) = some (info, r)
  finish_unstored r g none = if is_drained r g then some (complete r g) else none

  -- `DrainingUser::finish`
  unfoldable pub finish : Registry s → DrainingUser s.VmessAuthKey → Option (UserInfo × Registry s)
  finish r g = finish_unstored r g (r.results g.address)

  -- `remove_if` with `Arc::ptr_eq`
  unfoldable pub remove_same :
      Option (DrainingUser s.VmessAuthKey)
      → DrainingUser s.VmessAuthKey
      → List (Text × DrainingUser s.VmessAuthKey)
      → List (Text × DrainingUser s.VmessAuthKey)
  remove_same none g draining = draining
  remove_same (some current) g draining =
      if current.address == g.address then remove g.entry.context.id draining else draining

  unfoldable pub clear_draining_generation : Registry s → DrainingUser s.VmessAuthKey → Registry s
  clear_draining_generation r g = record r {
    draining = remove_same (lookup g.entry.context.id r.draining) g r.draining;
  }

  unfoldable pub collect :
      Option (UserInfo × Registry s)
      → DrainingUser s.VmessAuthKey
      → Option (Result EngineError UserInfo × Registry s)
  collect none g = none
  collect (some (info, r)) g = some (ok info, clear_draining_generation r g)

  -- The rest of `remove`: with the finalizer's task, or inline for a repeated removal.
  unfoldable pub end_remove :
      Registry s
      → DrainingUser s.VmessAuthKey
      → Joined
      → Option (Result EngineError UserInfo × Registry s)
  end_remove r g joined = collect (finish r g) g
  end_remove r g (join_failed error) = some (
    err (io (codes "user removal finalizer failed: " ++ error)),
    (if is_drained r g then (complete r g).1 else r),
  )
