-- ===== src/Lib.antt =====
-- node-agent-rs: a node agent that takes its configuration from a control panel and runs a proxy
-- engine. This library models its decision logic and proves what that logic promises.
--
-- PortHopping (crates/node-agent/src/porthopping): Ranges is port_ranges.rs, Plan is plan.rs with
--   `build_plan` in Plan/Build, Manager is manager.rs. The plan reads the topology's nodes, the
--   manager installs a plan through a platform backend.
-- Traffic (crates/node-agent/src/traffic.rs and traffic/stream.rs): Time has its clock functions,
--   Aggregator the counters of each user and hour, Queue the bounded queue of reports, its consumer and
--   the loop that queues a batch. A flush moves counters from the aggregator into the queue, and what
--   the queue does not take goes back.
-- Topology (crates/node-agent/src/topology/manager.rs): Adapter has the data of the transaction adapter,
--   Adapter/Failure what a failed step restores, Adapter/Operations the apply, Adapter/Reloading the
--   forced reload, Adapter/Upkeep the repair and the close. Adapter/Live says what is live and what the
--   port router and the runtime are documented to do. Manager has the revision fence and the
--   publication; what the mutations of a partial command make of a topology is a parameter of it. Users
--   compares the users of a node and finds those to disconnect.
-- Control (crates/node-agent/src/control/ack.rs): Acks is the replay cache of acknowledgements.
-- Engine (crates/shoes-engine/src/users.rs and protocol.rs, crates/shoes-api/src/lib.rs): Kinds has the
--   credential forms of an inbound, Credentials the parsing of a user's credentials, Indexes the six maps
--   from a credential to its user with the counts of AnyTLS prefixes, Users the registry: adding in Users,
--   removing in Users/Removal, the lookups of the handlers in Users/Lookups, the reports and the traffic
--   sweeps, each one step, in Users/Reports. Users/Runs has a registry's courses as a step relation.
--   Protocol is the tree of protocols of an inbound with the two walks over it. The crate shoes is the
--   record Shoes, a parameter: its `UserContext` cells and its credential derivations.
-- Backoff (crates/node-agent/src/backoff.rs) is the reconnect delay.
-- Proto (crates/acp-proto/src/hex.rs): Hex is the lowercase hexadecimal encoding.
--
-- How they interact: Topology reads the plan of PortHopping (here a parameter of the adapter, as the
-- compiler is), and serializes every change of the live state; Traffic takes the counters that the runtime
-- has drained; the registry of Engine holds the counters of each user, and a removed user's last ones
-- until they are collected; Control decides whether a command of the panel is carried out or its answer replayed.
--
-- Bounds: a u16 prints in five decimal digits and a u64 in twenty, which is the fuel of `decimal`; a byte
-- counter and the publication generation wrap at 2^64; the theorems on times assume that the whole minute
-- of a time lies in the i64 seconds. No other definition runs on fuel.
--
-- A panic of the registry's code is a value, `panicked`; a message of an error of Engine is its reason. In
-- Engine an unfinished `await` answers none, and other steps may come before it is tried again.
--
-- Not modelled: I/O, timers, the gRPC session, the external proxy engine and its protocols, the topology
-- compiler, the inbounds of the engine, what connections do in the middle of a traffic sweep of its
-- registry, logging, telemetry and traffic analysis.
pub mod Base
pub mod PortHopping
pub mod Traffic
pub mod Control
pub mod Proto
pub mod Topology
pub mod Backoff
pub mod Engine
