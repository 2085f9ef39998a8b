-- ===== src/Lib.antt =====
-- Verification library of seed-origin: the wire protocol between client and server, and the world
-- that the server runs.
--
-- Parts. A client sends commands as frames over TCP. The server's runtime puts the frames together
-- again from what it reads and hands the commands to the dispatcher, which opens a session for a
-- login, limits the rate of commands, and turns the others into inputs of the world, which wait in
-- a queue. Each world tick takes the queue and applies it to the field. What happened goes back to
-- the clients as world updates, which carry sequence numbers, wait in an outbound queue, and are
-- put together again and put in sequence by the client. The client predicts its own movements and
-- reconciles them with what the server tells it.
--
-- Files, with the code that each is about:
--   Base            shared types and lemmas: native numbers, int64_t, std::map, errors, bytes
--   Net/Command     include/seed/NetworkCommand.h, src/NetworkCommand.cpp (validateCommand)
--   Net/Bytes       include/seed/FrameHeaderBinary.h (writeFrameU16, readFrameU64 and the others)
--   Net/Plain       what the codecs of commands and responses share
--   Net/Frame       src/NetworkFrameCodec.cpp (encodeFrame, decodeFrame)
--   Net/Reassembly  src/FrameAccumulator.cpp and src/WorldUpdateAccumulator.cpp (append, reset), and
--                   the calls that ClientSession::receive of src/ClientSession.cpp makes of append
--   Net/Update      src/WorldUpdate.cpp, src/WorldUpdateFrameCodec.cpp
--   Net/Sequence    src/WorldUpdateSequence.cpp, src/WorldUpdateSync.cpp
--   Net/Login       src/LoginResponse.cpp, src/LoginResponseCodec.cpp
--   Net/Disconnect  src/DisconnectResponse.cpp, src/DisconnectResponseCodec.cpp
--   Net/RateLimit   src/CommandRateLimiter.cpp
--   Net/Outbound    src/OutboundFrameQueue.cpp
--   World/Float     the float operations, as an interface
--   World/Status    src/Status.cpp
--   World/Entities  src/Position.cpp, src/Player.cpp, src/Npc.cpp, src/Action.cpp, src/Buff.cpp,
--                   include/seed/PlayerName.h
--   World/Ether     src/EnvironmentEther.cpp
--   World/Movement  src/MovementSimulation.cpp, isValidMovementDelta of src/MovementIntentQueue.cpp
--   World/Input     the inputs of include/seed/WorldInputQueue.h
--   World/InputSequence, World/InputQueue
--                   ClientInputSequenceTracker of src/ClientInputSequence.cpp, src/WorldInputQueue.cpp
--   World/Field     src/Field.cpp: players, NPCs and sessions; below it Bindings and Calls (what stays
--                   consistent), Combat (attacks, spells, actions), Frame (processFrame), Check and
--                   Inputs (the two passes of processInputs, and below it what each is held to)
--   World/MovementText
--                   parsers and printers of src/ClientInputSequence.cpp
--   World/ActionQueue
--                   src/ActionQueue.cpp, src/ServerTick.cpp, src/WorldInputTick.cpp
--   World/IntentQueue
--                   src/MovementIntentQueue.cpp, src/NpcAi.cpp
--   World/UpdateText, World/Updates
--                   src/WorldFrameUpdateBuilder.cpp: the texts of events, and their numbers
--   World/Snapshot  src/WorldSnapshotBuilder.cpp
--   World/Applier   src/WorldFrameApplier.cpp: frames of inputs, and below it those of actions
--   Session         src/IdentityAliasStore.cpp, src/SessionRegistry.cpp, src/SessionLifecycle.cpp; below
--                   Lifecycle the calls that src/ServerRuntime.cpp makes of them (Steps) and the abstract
--                   table of sessions that these implement
--   Server/Handlers src/MovementCommandHandler.cpp, src/CombatCommandHandler.cpp,
--                   src/ChatCommandHandler.cpp
--   Server/Challenge
--                   src/ChallengeSessionLogin.cpp, src/ChallengeLoginCommandHandler.cpp
--   Server/Dispatcher
--                   src/ServerCommandDispatcher.cpp, src/DisconnectCommandHandler.cpp
--   Server/Presence src/FieldSessionPresence.cpp, src/InMemoryAuthenticatedPlayerIdStub.cpp,
--                   include/seed/LoginFieldSpawnSettings.h
--   Server/ClientSession
--                   src/ClientSession.cpp
--   Server/Runtime  src/ServerRuntime.cpp: clients and their removal, and below it Commands (the queue of
--                   commands), Answers and Frame (processClientFrames, processFrame), Publish
--   Client/Pending, Client/Predictor
--                   src/PendingInputBuffer.cpp, src/LocalMovementPredictor.cpp
--   Client/Demux    src/ClientInboundDemux.cpp
--   Client/Hazards  src/ClientHazardEffectQueue.cpp
--   Client/Poses    src/RemotePlayerPoseStore.cpp
--   Client/Snapshot src/ClientWorldSnapshotApplier.cpp, src/ClientEnvironmentState.cpp
--   Client/Receiver src/ClientWorldUpdateReceiver.cpp
--   Tests           runs on concrete values
--
-- Names are the source's, in snake case. A call that changes its object takes the object and
-- returns it; one that returns false and an error text returns a Result, and one that returns a
-- null pointer an Option. A std::map is a list of entries in key order, a std::string and a byte
-- vector are lists of numbers. The global Field is passed and returned. Numbers are unbounded,
-- with the wrap-around of a machine word written out where the code relies on it; the range of
-- what comes from outside is a hypothesis.
--
-- Parameters. Types and operations of float and double are FloatOps, and what streams print and
-- read of them is FloatText. No law of rounding is assumed. The ports for challenges, session keys,
-- stored sessions and the clock are ChallengePorts. The port that gives a session its player is an
-- argument of the calls that ask it; the runtime uses the stand-in. What accept, recv and send
-- return is an argument too.
--
-- Fuel. The loop of append runs on the length of its buffer, which every frame shortens by at
-- least a header; allocateGameplayId runs on the numbers that are left below the largest int64_t;
-- a decimal has at most 20 digits. The client's demultiplexer runs on the length of its buffer
-- too, and flushOutbound on what the calls of send return: where that list ends, the socket takes no
-- more. Each bound is that of the loop itself.
--
-- Undefined behaviour. Where processInputs uses a pointer or an iterator that it has not tested,
-- the model has an outcome of its own, crashed.
--
-- Not modelled: sockets, the database, the clock, threads and mutexes (each operation of a queue
-- holds its mutex throughout and is one step), logging, the transport shell and the main programs,
-- the administration server and its stores, files of binary records.
pub mod Base
pub mod Net
pub mod World
pub mod Session
pub mod Client
pub mod Server
mod Tests
