-- ===== src/Lib.antt =====
-- Verification library of SignalScope: a two-bus CAN gateway that forwards frames between two
-- controllers, mutates and decodes them on the way, and replays recorded ones.
--
-- Parts. The gateway (core/gateway.hpp, core/gateway.cpp) owns one ingress ring and one egress
-- ring for each direction. `pollRx` first retries the egress rings (`flushEgressFair`), then takes
-- frames from the ingress rings; `forwardFrame` prepares a frame by calling the mutation engine,
-- the observation manager, the signal cache and the frame caches, and hands it to the driver or
-- keeps it in its egress ring. The codec (core/signal_codec.cpp) reads and writes the bits of a
-- signal in a frame for the mutation engine and the decoder. core/types.hpp has the types that
-- they share. The trace queue (core/can_trace.cpp) takes copies of frames from the CAN task to the
-- application task. The mutation engine (core/mutation_engine.hpp, core/mutation_engine.cpp) keeps
-- the rules that rewrite frames: rules are staged, a commit compiles them into the inactive of two
-- tables and swaps, and each frame passes the rules of its group; core/runtime_values.cpp and
-- core/runtime_tables.cpp are the named inputs of rules. The frame cache (core/frame_cache.cpp)
-- keeps the last frame of every identity, and the replay engine (core/replay_engine.cpp) plays a
-- recording. The observation manager (core/observation_manager.cpp) keeps the set of frames to
-- decode. The parked-power controller (core/parked_power.cpp) decides when a parked host may go to
-- sleep.
--
-- Files. `Base` has the shared helpers: tests, lists, integers, ring windows, bit operations.
-- `Frame` is core/types.hpp. `Gateway` is GatewayCore: `Gateway.State` its fields, with a pair of
-- fields for the two directions as one field of `Lanes`; `Gateway.Queues` the rings;
-- `Gateway.Forward` forwardFrame, dispatchPrepared and injectReplayFrame; `Gateway.Poll` pollRx
-- and flushEgressFair; `Gateway.Settings` init, the setters and publishStats; `Gateway.Latency`
-- updateRunningAverageLatency; `Gateway.Snapshots` publishStats and snapshotStats as they
-- interleave. `Codec` is core/signal_codec.cpp: bits and fields, `Codec.Integer` the sign and the
-- range of a field, `Codec.Physical` scaled values and mutations. `Mutation` is MutationEngine:
-- its types, `Mutation.Registry` the two registries, `Mutation.Rules` and `Mutation.Table` one
-- rule and its compilation, `Mutation.Staging` and `Mutation.Commit` the candidate rules and
-- applyCommit, `Mutation.Apply`, `Mutation.Dispatch` and `Mutation.Frames` the rules on a frame,
-- `Mutation.Control` the calls with a handle and the lists, `Mutation.Gate` the read gate as
-- interleaved atomic operations. Its other children are proofs: `Mutation.Fields` the masks
-- against the codec, `Mutation.Handles` stale handles, `Mutation.Failure` a commit that fails,
-- `Mutation.Counting` counters over many frames, `Mutation.Outputs` checksums and their receiver,
-- `Mutation.Identity` the engine under the gateway. `FrameCache` is core/frame_cache.cpp, with
-- `FrameCache.Views` its reads and snapshots, and `Replay` core/replay_engine.cpp, with
-- `Replay.Lines` the lines of a log. `CanTrace` is core/can_trace.cpp, `ParkedPower`
-- core/parked_power.cpp, with the runs of its calls, and `Observation`
-- core/observation_manager.cpp, with its hash table as a set of keys. A function of the source has
-- its name in the model, in lower case with underscores; a method takes and returns the state.
-- `Tests` applies the theorems to concrete values.
--
-- Interfaces. What the gateway calls is the record `Peers`: an abstract world that each call takes
-- and returns. The law `KeepsIdentity` says that the rules change neither identifier nor direction
-- of a frame; `Mutation.Identity` puts the engine in the place of those calls and shows it. The
-- operations of float and double are the records `Floats` and `RuleFloats`, without laws. A sent
-- frame is one that the driver has accepted; the model keeps them in order for each direction.
--
-- Bounds. The numbers are unbounded; what the source computes in a w-bit type is reduced modulo 2
-- ^ w where it can wrap. An array is a function of its index, and the invariants of the rings keep
-- each index in range. The loops of pollRx and flushEgressFair take fuel: 17 rounds, one more than
-- the frames of their budget, and every round that does not end the loop spends at least one. The
-- probing of the frame cache meets each of its 512 entries once. A walk along a chain of a hash
-- table takes one step more than the table has entries or groups. A char array is the list of its
-- characters before the first '\0', and a pointer to memory of the engine is whether it was
-- allocated.
--
-- Not modelled: the other parts of the core (signal cache, catalog, parsers, rule packages,
-- diagnostics), of which the gateway's model keeps the calls; drivers, web interface and files,
-- which are input and output. The counts of readers, 32 and 16 bits wide in the source, are
-- unbounded: the one of the mutation engine is at most the number of its readers. Flags and
-- pointers that other tasks write are taken as constant during one call, and the switch of
-- decoding is read once.
pub mod Base
pub mod Frame
pub mod Gateway
pub mod Codec
pub mod CanTrace
pub mod FrameCache
pub mod Mutation
pub mod Observation
pub mod ParkedPower
pub mod Replay
pub mod Tests
