-- ===== src/Lib.antt =====
-- Verification of the message path of iTantra, an app that sends speech as text over Bluetooth LE and
-- over a mesh of such links.
--
-- A text becomes a V6A packet. A packet that is too long for one frame is split into V7 fragments
-- (src/protocol/FragmentCodec.ts) and put together again by the receiver (Reassembler.ts). Packets for
-- the mesh travel in an envelope (src/BITCHAT/core/BitChatPacketCodec.ts), which the relay engine
-- (src/BITCHAT/mesh/RelayEngine.ts) delivers and floods, with the help of a deduplication cache, a
-- router and a peer registry. All of it is carried in V6B frames (src/protocol/V6BFrameCodec.ts), with a
-- sequence number that the receiver validates.
--
-- Base        numbers, texts, lists, results, JavaScript's Map as a list of entries (Base/Dict) and
--             signed 32-bit numbers (Base/Int)
-- Bytes       byte buffers and the big-endian helpers that several codecs declare
-- Frame       src/protocol/V6BFrameTypes.ts and V6BFrameCodec.ts: encode, decode, safe_decode,
--             validate_frame
-- Sequence    src/protocol/SequenceManager.ts and SequenceValidator.ts
-- NodeId      src/BITCHAT/core/BitChatPacket.ts: normalizeNodeId, normalizePacketId, isValidNodeId,
--             writeUInt64BE, readUInt64BE
-- NodeStore   src/BITCHAT/NodeIdStore.ts
-- Packet      src/BITCHAT/core/BitChatPacketCodec.ts, src/BITCHAT/AnnounceCodec.ts and
--             DiscoveryPacketCodec.ts
-- Mesh        src/BITCHAT/mesh and src/BITCHAT/peer: Mesh/Ttl, Mesh/Dedup, Mesh/Peers, Mesh/Router,
--             Mesh/Discovery and Mesh/Relay, one file per class, with the laws below each
-- Fragment    src/protocol/V7FragmentTypes.ts and FragmentCodec.ts
-- Reassembly  src/protocol/Reassembler.ts
-- Delivery    src/protocol/DeliveredMessageCache.ts and CompletedGroupCache.ts
-- TxControl   src/protocol/TxControlCodec.ts
-- Chat        src/messages/ChatMessageStore.ts; Chat/Service src/messages/ChatMessageService.ts, its
--             `sendChatMessage` in Chat/Service/Sending
-- AppState    src/state/appReducer.ts
-- Semantic    src/semantic/SemanticMessageTypes.ts and SemanticMessageCodec.ts
-- Message     src/protocol/BinaryMessageTypes.ts and BinaryMessageCodec.ts: Message/Utf8 the UTF-8
--             helpers, Message/Registry the registries, the file itself the codec
-- Reliability src/protocol/ReliabilityTypes.ts and ReliabilityManager.ts: State the objects and the
--             manager, Sender and Retransmit its methods, System what can happen to it step by step,
--             Payloads the ACK and NACK payloads and the NACK limit
-- Adapter     src/BITCHAT/BitChatBLEAdapter.ts: the indexes of links, and Adapter/Traffic what is
--             received and sent
-- Tests       theorems at concrete inputs
--
-- How code and model correspond. An object with state is a record, and a method takes the record and
-- returns the new one with the method's result; a Map is the list of its entries in the order in
-- which their keys were set. `Date.now()` is an argument `now`, read once per call; a comparison `now
-- - t > d` is written `t + d < now`, which is the same on whole numbers. An exception is the `err` of
-- a Result, with one constructor per error; that of `register_peer` carries the adapter that it
-- leaves. What the relay engine does to the outside is the list of its outputs, and the transport is
-- a function that says which sends it accepts. Checks that an argument is an integer or a Uint8Array
-- have no counterpart, since the types say so.
--
-- Numbers are the native natural numbers; a 32-bit wrap is written `% 2 ^ 32`. The frame codec and
-- the validator work on signed numbers, as JavaScript's `|` and `&` give them. Bounds of loops: 16
-- rounds for the hex digits of a number below 2 ^ 64, 12 for the base-36 digits of a time or a
-- counter below 36 ^ 12, and 10 for the decimal digits of one below 2 ^ 32, which is all that these
-- functions are given; all other loops run over a list or a counted number of rounds.
--
-- The reliability manager shares message objects with the retransmissions that await a send: objects
-- stand in a store and are held by reference, an awaited send is an entry of a list, and the step
-- relation takes calls, timeouts and ends of sends in any order. A callback calls the manager again only
-- after the method has returned. UTF-8 decoding takes a byte in every round, so the number of bytes is
-- fuel enough. JSON.parse, JSON.stringify and the native transport are parameters.
--
-- A chat message is sent with two parameters: the transport's answers, and a function that stands for
-- whatever the rest of the program does to the service while the sender waits for them.
--
-- Not modelled: the hooks, screens and native bridges, which are glue around platform calls.
pub mod Base
pub mod Bytes
pub mod Frame
pub mod Sequence
pub mod NodeId
pub mod NodeStore
pub mod Packet
pub mod Mesh
pub mod Fragment
pub mod Reassembly
pub mod Delivery
pub mod TxControl
pub mod AppState
pub mod Chat
pub mod Semantic
pub mod Message
pub mod Reliability
pub mod Adapter
pub mod Tests
