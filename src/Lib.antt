-- ===== src/Lib.antt =====
-- channeld: a messaging server that connects game servers and clients through channels. A
-- connection authenticates, subscribes to channels, sends messages to them and receives the
-- updates of their data; a channel has an owner, settings that say who may do what, and a queue
-- of messages that it handles one at a time.
--
-- The parts, and the files that model them:
-- - Ids: the search for free ids and the small helpers of pkg/channeld/util.go
--   (`GetNextIdTyped` is `get_next_id`).
-- - Fsm: the state machine that says which messages a connection may send (pkg/fsm/fsm.go):
--   `Load`, `IsAllowed`, `OnReceived`, `ChangeState` and `MoveToNextState`.
-- - World: the state of the process, one record `World` with a heap of connections, one of
--   channels, the registries of both, the id counters, the blacklists and the events that were
--   broadcast (World.Types); the lookups, owners and `Send` (World.Access); `CheckACL` of
--   pkg/channeld/channel_acl.go (World.Acl).
-- - Subscription: `SubscribeToChannel`, `UnsubscribeFromChannel` and their answers
--   (pkg/channeld/subscription.go).
-- - Channel: `CreateChannel`, `RemoveChannel`, `PutMessageContext` and `Broadcast`,
--   and in Channel.Ticks `tickConnections` (pkg/channeld/channel.go); Channel.Recovering has
--   `tickRecoverableSubscriptions` of pkg/channeld/connection_recovery.go, with the broadcasts that
--   follow it in goroutines listed beside the world.
-- - Connection: `Close`, `OnAuthenticated` and the recovery handles, and in Connection.Recovery the tick
--   that ends recoveries (pkg/channeld/connection.go and connection_recovery.go).
-- - Accept: `generateNextConnId`, `AddConnection` and what `StartListening` does with a socket
--   (pkg/channeld/connection.go).
-- - Ddos: the listeners that count failures and ban, and `checkUnauthConns` (pkg/channeld/ddos.go).
-- - Wire: `receive`, `readPacket` and `flush` (pkg/channeld/connection.go). The read buffer, the
--   compression and what was written form a record `Wire` beside the connection; `readPacket` gets
--   the bytes from its position on.
-- - Receive: `receiveMessage`, which asks the state machine and puts a message to its channel.
-- - Events: the slice of listeners of an event and the array behind it (pkg/channeld/event.go).
-- - Entity: the groups of entities, shared sets at addresses of their own
--   (`FlatEntityGroupController` of pkg/channeld/entity.go).
-- - Spatial: the grid of `StaticGrid2DSpatialController` and its channels (Spatial, Spatial.Servers),
--   `CreateChannels` with `subToAdjacentChannels` (Spatial.Creating), `Notify`, which hands entities
--   over (Spatial.Handover), and `QueryChannelIds` (Spatial.Interest and Spatial.Interest.Queries), all
--   of pkg/channeld/spatial.go; Spatial.Interest.Update has `handleUpdateSpatialInterest` of
--   pkg/channeld/message_spatial.go. The data of the application that a handover moves are behind
--   `HandoverEnv`; what `Execute` gives to a channel is listed beside the world.
-- - Data: `OnUpdate`, the merge and the buffer of updates, and in Data.FanOut the loop of `tickData`
--   that fans them out (pkg/channeld/data.go). The loop keeps the elements that it has passed and
--   those from its position on.
-- - Handlers: the handlers of pkg/channeld/message.go, one file for each group; Handlers.Groups has
--   those of pkg/channeld/entity.go, Handlers.Spatial those of pkg/channeld/message_spatial.go that
--   create and query spatial channels, and of pkg/channeld/message_debug.go. `handle_create` takes the
--   handler of spatial channels as an argument, which `handle_create_spatial` fills.
-- - Client: the library for clients in Go, which runs in a process of its own (pkg/client/client.go):
--   its state and handlers (Client), what it reads and writes (Client.Traffic). Protobuf, snappy and
--   the handlers of the application are the fields of `ClientEnv`. The read buffer has no limit here.
-- - Examples: a small process on which the theorems are applied.
--
-- How the code is read. A pointer is a number, an address into a heap of `World`. A call that
-- changes state takes the world and returns the next one; what is locked, or runs in the goroutine
-- of one channel, is one step. A panic is `none`. A Go map is an association list, whose order
-- stands for the order of iteration, which Go leaves open. Identifiers and enumerations are
-- numbers; `uint32` arithmetic wraps at `u32_mod` where the code can reach it. Times are integers
-- of nanoseconds without the overflow of `int64`. Text that is inspected (metadata, the
-- configuration of a state machine) is a list of byte values; tokens, IP addresses and messages of
-- the application are only compared or passed on, and are numbers. The operations of other
-- packages (protobuf, snappy, the authentication provider) and the settings are the fields of `Env`.
-- A `float64` is the number of its bits, and the arithmetic on them are the records `Floats` and
-- `Geometry`. What a connection sends is kept in `send_queue`, which has no limit here.
--
-- Fuel: the search for an id runs on `u32_mod` rounds or fewer: one for each id of the range and
-- one to leave the loop. The loop of `startGoroutines` around `receive` is `read_all` of
-- Wire.Chunks. The loop over the read buffer runs on as many rounds as there are bytes, since
-- every packet takes bytes away. The search for the id of a connection has the tries that the code
-- has. The fan-out loop has its fuel as an argument; a round moves on in the queue or brings an
-- element closer to the time of the channel by its interval. So have the loops over an area of
-- interest, which may not end. Spatial.Interest.Covered says which points an area has. The search
-- for a stub id has a round for each callback and one more. Other loops are recursion on the list
-- that the code walks.
--
-- Not modelled: what `Close` does beside the registries and the recovery (the close handlers of
-- pkg/channeld/connection.go, the recording of the session, its `recover`), the closing of the
-- queue of a channel and the end of its listener in `RemoveChannel`, the size of the read buffer,
-- sockets, the recording of packets, the other parts of the tick of a channel,
-- the creation of entity channels, logging, metrics, replay and the command line.
pub mod Base
pub mod Ids
pub mod Fsm
pub mod World
pub mod Entity
pub mod Subscription
pub mod Channel
pub mod Connection
pub mod Ddos
pub mod Receive
pub mod Accept
pub mod Spatial
pub mod Wire
pub mod Client
pub mod Events
pub mod Data
pub mod Handlers
pub mod Examples
