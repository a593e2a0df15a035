-- ===== src/Lib.antt =====
-- A model of the wire, media, replication and session layers of the Crowdy C++ SDK, and what is proved
-- of it.
--
-- The SDK exchanges datagrams with a replication server. A game fills in parameters, the codec
-- writes and signs a message, a bundle writer may join several messages in one datagram, and the
-- receiver walks the datagram, verifies each tag and parses each message into views. Video frames
-- travel as fragments in the payloads of such messages and are put together by the receiver. The chunk
-- store caches voxels, applies local edits before the server has seen them, matches their echoes, and
-- writes dirty chunks back to a durable source. The connection owns a socket and a token: it bundles what is
-- sent, checks and queues what arrives, and moves to another server on request. The session's stores
-- keep the actors, messages, events and errors that it hears of, and send the player's own actor.
--
-- Parts and files:
--
-- Base: shared names, lists indexed by native numbers, signed integers and their words, writes into
--   buffers, maps as association lists.
-- Core/Result: include/crowdy/core/result.hpp (Errc, Status, Result).
-- Core/Le: include/crowdy/core/bytes.hpp, the little-endian stores and loads.
-- Core/Crypto: include/crowdy/core/crypto.hpp and src/core/crypto_unavailable.cpp. The provider is a
--   parameter; IsProvider and IsMacFor say what crypto.hpp documents of one.
-- Core/Uuid: include/crowdy/core/uuid.hpp and src/core/uuid.cpp, actor uuids. Core/Base64:
--   src/core/base64.cpp.
-- Wire/Protocol, Wire/MessageType: include/crowdy/wire/protocol.hpp.
-- Wire/Hmac, Wire/Spatial: spatialHmac, encodeLongSpatial, parseLongSpatial and verifyLongSpatial of
--   include/crowdy/wire/codec.hpp.
-- Wire/Payload: the voxel and event payloads. Wire/Channel: channel requests, ranged requests and
--   notifications. Wire/Control: generic errors, reconnect commands, signed bundles.
-- Wire/Bundle: BundleWriter and forEachMessage.
-- Media/Video: include/crowdy/media/video_frames.hpp, fragmentFrame and VideoFrameAssembler.
-- Media/Voice: include/crowdy/media/voice_frames.hpp, the packets and VoicePacketizer. Media/Voice/Stream,
--   Pull and Jitter: VoiceJitterBuffer, whose state is a record and whose push, pull, poll and forget
--   are functions to the next state.
-- Core/Spsc: SpscRing of include/crowdy/core/spsc.hpp, and the interleavings of its two threads.
-- Session/Keys: include/crowdy/session/keys.hpp and voxelKey. Session/Chunk: ChunkData of
--   include/crowdy/session/chunk_store.hpp, its dense grid and overlay.
-- Session/Outcome: GraphQLOutcome of include/crowdy/graphql/graphql_client.hpp, and writeBackRetryable
--   of src/session/world_session.cpp.
-- Session/ChunkStore: ChunkStore of include/crowdy/session/chunk_store.hpp. Edits: setVoxel, ingest and
--   the pending edits. WriteBack: attemptWriteBack, flush, tick, pruneBeyond and ensureAround (the
--   definitions in src/session/world_session.cpp). Counted: the counter of dirty chunks. Reach: the
--   states that the operations reach.
-- Session/Actors: RemoteActorLane of include/crowdy/session/stores.hpp. Registry: RemoteActorStore, its
--   default lane and its named lanes. Session/Errors, Session/Inbox, Session/Events: ErrorStore, Inbox
--   and EventRouter. Session/Presence: LocalActorStore, the player's own actor.
-- Replication/Sender: transmit, flushSends and what they call in src/replication/connection.cpp, on the
--   writer of Wire/Bundle. Replication/Receiver: handleDatagram, over the walk, the parsers and the
--   ring. Replication/Lifecycle: connect, disconnect and housekeeping, the connection's state machine.
-- The children of a module hold its theorems; Core/Examples, Core/Spsc/Examples, Wire/Examples,
-- Media/Examples, Session/ChunkStore/Examples, Session/Examples, Session/Presence/Examples,
-- Replication/Examples and Replication/Lifecycle/Examples hold concrete runs.
--
-- A span of bytes is the list of its bytes, and a call that writes to the caller's buffer returns the
-- buffer after the call beside its result. Reads past the end of a list, which the guards exclude,
-- give 0. A 64-bit signed field is an integer whose bounds are hypotheses where they matter.
--
-- The walk over a bundle runs on fuel, as many rounds as the datagram has bytes: each round moves
-- the offset on by two or more. The loop of VoiceJitterBuffer::pull runs on two rounds more than the
-- milliseconds by which its stream is due: each round moves the stream on by a frame's duration. The
-- loops of ChunkStore::flush and of SpscRing's constructor run on fuel too; all others are structural
-- recursion.
--
-- The loop of ChunkStore::flush over one chunk runs on one round more than the attempts that a write
-- may take: a round that goes on has counted one more attempt. The chunk store's source is a pair of
-- functions on a state of any type; the connection's answer to a send and the clock's reading, one for
-- each call, are arguments; the callbacks are logs, and do not call back into the store. The order of
-- a hash map is the order of its list, and the durations are integers without the bounds of int64.
--
-- The doubling of SpscRing's constructor runs on 65 rounds, enough for capacities up to 2^63. Its two
-- threads take turns step by step, and an atomic load reads the last value stored.
--
-- A connection is three records, for its send path, its receive path and its state machine; the sends
-- of the state machine are a parameter of it. The socket is a function from a datagram to its status.
-- The sequences of calls are lists with the latest first.
--
-- Not modelled: the primitives of the crypto provider, floats, sockets, the weak orders of
-- atomic operations, the hash functions, the threads, the waits for an echo and the dispatch of events of the
-- connection, the world session, GraphQL, kit, studio and
-- player-host layers, and generated code.
pub mod Base
pub mod Core
pub mod Wire
pub mod Media
pub mod Session
pub mod Replication
