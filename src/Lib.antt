-- ===== src/Lib.antt =====
-- A model of the multiplayer framework under Multiplayer/ (Multiplayer/src/*.cpp and
-- Multiplayer/include/stalkermp/*.h): its networking and world layers, its players, the deltas that it
-- sends and the inputs that a client keeps, with the theorems about them.
--
-- The program is a host that admits peers over an unreliable transport. A datagram carries a packet
-- header (net/PacketHeader) that is read and written field by field (net/ByteCursor). The host keeps
-- its peers in a connection table (net/ConnectionTable), takes each through a handshake
-- (net/Handshake), admits it to the session (net/Session), gives its messages to registered handlers
-- (net/MessageRegistry), sends again what is not acknowledged (net/Reliability), queues datagrams in
-- each direction (net/PacketQueues) and cuts long payloads into fragments (net/Fragmentation). The
-- world layer names each entity by its id and a generation (world/EntityRegistry), so that a handle of
-- an entity that is gone is told from one of its successor. In each tick the bubble
-- (world/BubbleManager) decides which entities are near enough to a player, with a wider radius for
-- leaving than for entering, and the transitions (world/TransitionManager) turn its lists into
-- commands for the engine, remember what is wanted of each entity (world/TransitionIntentStore) and
-- confirm it when the engine reports it. Replication (replication/DeltaEncoder) compares what a client
-- has with what it should have, entity by entity, and its queues (replication/ReplicationQueues) hold
-- what waits to be sent. A client keeps its inputs until the host acknowledges them
-- (prediction/InputBuffer). Players are kept by id with indexes by connection, session member and
-- entity (player/PlayerRegistry), and their lifecycle follows fixed rules (player/PlayerLifecycle).
--
-- Files. Base: numbers, lists, results (core/Error.h, core/Expected.h) and fallible operations on a
-- mutable object, with the helpers that all share. Keyed: the vector in ascending id order with a hash
-- index beside it that the session, the connection table and the message registry each keep; its laws
-- are proved once, for any record and key. Net/Types: identifiers and enumerations. Net/Bytes,
-- Net/Header, Net/Handshake, Net/Session, Net/Table, Net/Messages, Net/Reliability, Net/Queues,
-- Net/Fragments: one component each. World/Types: handles, metadata and records. World/Registry: the
-- entity registry, with its scans in Queries and its subscribers in Subscriptions. World/Intents,
-- World/Transition and World/Bubble: the intent store, the transition manager (its report in Report)
-- and the bubble manager; World/Bubble/Pipeline composes the last two. Replication/Merge and
-- Replication/Delta: the merge over two sorted lists and the encoders that use it. Replication/Queues:
-- the queues of records. Ring and Prediction/Inputs: the ring storage and the input buffer.
-- Player/Types, Player/Lifecycle and Player/Registry: the players. All keep the C++ names in snake
-- case (`ConnectionTable::BeginDisconnect` is `Net.Table.begin_disconnect`). The child modules of a
-- component hold its laws, and Tests its examples.
--
-- State is passed explicitly: an operation takes the object and gives the object after it. Results are
-- `Result`, the text of error messages is not kept. Machine integers are natural numbers with their
-- wrap-around written out where the source computes on them; sizes and positions of containers are
-- taken not to wrap. An unordered_map is an association list. Pointers to observers and handlers are
-- numbers, 0 the null pointer; what an observer is told is a list of notices. The authenticator and
-- the handlers' results are parameters, and so are the engine behind the transition gateway, the
-- spatial queries, and floating-point numbers with their operations; what a theorem needs of them (a
-- comparison that is transitive, a gateway that answers every command) is a hypothesis that it names.
-- Loops are over lists or a fixed number of rounds, but for the search of `ReserveEntity` for an
-- unused id: it gets 2^32 rounds, one for each id there is, and a theorem says that it ends wherever
-- an unused id is left before the counter wraps round. The binary search of the player registry gets
-- one round more than there are records, and gives no result where that does not end it; the pruning
-- of inputs gets as many rounds as there are inputs. Theorems say that this is enough. `std::sort` is insertion sort, which on distinct keys gives the same list
-- as any other.
--
-- Not modelled: logging, files, sockets, threads, the engine adapters, scripts and plugins, saves,
-- snapshots, the host server and the managers of replication, prediction and players, the textual
-- dumps, and the services that only forward calls.
pub mod Base
pub mod Keyed
pub mod Net
pub mod Player
pub mod Prediction
pub mod Replication
pub mod Ring
pub mod World
