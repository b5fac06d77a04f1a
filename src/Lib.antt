-- ===== src/Lib.antt =====
-- TickSynchronizer is a module for the Godot engine that keeps the objects of a networked game in
-- step. Its messages are bit-packed: `TickBitArray` stores bits in bytes, `TickDataBuffer` writes
-- and reads typed values over it, once from its beginning to its end, and all that the
-- synchronizers and transports send goes through it. `TickCodec` says how a variable of an object
-- is written in it, and `TickSchema` lists the variables. Its frames are on a shared timeline:
-- `TickClock` estimates the offset to the clock of the master from the pings, and gives each local
-- time a frame; `TickFixedStepper` makes frames of the time of the engine, and the indices of
-- frames wrap around. A `TickTransport` carries the packets: `TickLocalNetwork` is the one inside
-- the process, with its own clock, latency and loss. `TickSyncCore` synchronizes the objects of a
-- network with one server. This development models these parts, the last for the inputs that a
-- server gets, each translated from its source.
--
-- The files, and the code they are about:
--
-- - BitArray.antt: source/common/tick_bit_array.h and tick_bit_array.cpp. `TickBitArray` is the
--   list of its bytes; `store_bits` and `read_bits` are the two paths of the source with
--   `store_window` and `load_le64` for the 64-bit window and `store_bits_slow` and
--   `read_bits_slow` byte by byte. Its children have the window and the byte loop bit by bit, what
--   a write and a read do, their agreement, and the resize.
-- - DataBuffer.antt: source/common/tick_data_buffer.h and tick_data_buffer.cpp. The record
--   `TickDataBuffer` has the fields of the class; `begin_write`, `write_bits`, `fetch_bits` and
--   the others are the functions of these names, each from a buffer to a buffer with the value
--   where there is one. DataBuffer/Values.antt has the booleans and integers and the table
--   `get_bit_taken`, DataBuffer/Strings.antt the raw bits (the class's own `read_bits` is
--   `read_raw_bits`, with the bytes that it writes as its result) and the strings,
--   DataBuffer/Utf8.antt the check `is_valid_utf8`, DataBuffer/Skips.antt the skips,
--   DataBuffer/Reals.antt, DataBuffer/Vectors.antt and DataBuffer/Nested.antt the reals, the
--   vectors and the nested buffers. DataBuffer/Carries.antt is the interface between a writer and
--   a reader of the same value. The other children are about bits written and read as sequences,
--   about whole messages and strings, about the texts that the check takes, and about malformed
--   data.
-- - Clock.antt: source/tick/tick_clock.h and tick_clock.cpp. The record `TickClock` has the fields
--   of the class, and each operation has its name. Its children are about the slew, the sample
--   window over any sequence of calls, and the timeline.
-- - Codec.antt: source/codec/tick_codec.h and tick_codec.cpp. The record `TickCodec` has the
--   fields of the class; the constructors that can fail give an option. Codec/Coding.antt has
--   `encode`, `decode` and `quantize`, the switch over the kinds as `add_kind` and `read_kind`;
--   Codec/Comparing.antt `is_equal` and `interpolate`; Codec/Sendable.antt `is_sendable`, with the
--   depth that is left as its fuel, since the source refuses a value that is deeper.
--   Codec/Layout.antt is about what the readers get, and Codec/Contents.antt about what
--   `is_sendable` takes, which Codec/Meaning.antt says apart from the code.
-- - Schema.antt: source/sync/tick_sync_object.h and tick_sync_object.cpp, `TickSchema`.
-- - Frames.antt: source/sync/tick_protocol.h, `tick_frame_after` and `tick_frame_at`, and
--   source/sync/tick_net_ids.h, `tick_prune_quarantine`. Frames/Stepper.antt:
--   source/tick/tick_fixed_stepper.h and tick_fixed_stepper.cpp.
-- - Transport.antt: source/transport/tick_transport.h, the packets, events and errors.
--   LocalNetwork.antt: source/transport/tick_local_transport.h and tick_local_transport.cpp. The
--   record `LocalNetwork` has the fields of the class with every endpoint it made, by its id,
--   since an endpoint is a shared object that its user keeps; LocalNetwork/Traffic.antt has
--   sending, the clock and the queues. LocalNetwork/Calls.antt has the calls of a program as data,
--   and `calls` makes them one after another; the other children are about the links and the order
--   of the packets.
-- - SyncCore.antt: source/sync/tick_sync_core.h and tick_sync_core.cpp, the inputs of the clients
--   on the server of `TickSyncCore`: `server_handle_inputs`, with its loops as `receive_groups`,
--   `receive_copies` and `receive_input`, and `RateLimiter::take` as `take_token`.
--   SyncCore/Resolve.antt has `server_resolve_input` and `parse_frame_input`; SyncCore/Inputs.antt
--   and SyncCore/Ring.antt are about the ring of inputs.
-- - Floats.antt and Variants.antt: the engine's floating point, vectors, and `Variant`, as
--   parameters.
-- - Bits.antt and Prelude.antt: the bits of a number and what the operators do to them; lists,
--   integers and machine words over the native numbers.
-- - Examples.antt: the definitions on concrete inputs, and each theorem with hypotheses applied to
--   an input where they hold.
--
-- Numbers. A `uint64_t` is a natural number below 2 ^ 64, and its wrap is written out as a
-- remainder; a byte is a number below 256. An `int` that the source tests for its sign is an
-- integer, and so is an `int64_t`; a size or an offset that stays at least 0 is a natural number.
-- Buffers are taken to be shorter than 2 ^ 31 bits, so an `int` does not overflow, but for the sum
-- in `fits_window`, which overflows for a count near 2 ^ 31: it wraps around in the model. The
-- sums of `TickClock` on `int64_t` are exact, as they are in C++ for the times that its guards
-- take. `x & ~7` is `x` less its low three bits.
--
-- Loops. The loops over bytes and samples are structural. The byte-by-byte paths and the raw bits
-- take as fuel the number of bits, and slice and comparison one more: each round moves at least
-- one bit, so the fuel lasts until none is left, which the theorems on these paths include. The
-- UTF-8 check takes the number of bytes.
--
-- The engine. The bytes that `LocalVector::resize` puts in a grown array are the engine's: the
-- parameter `ByteVector` is any function that keeps the old bytes, has the new size and gives
-- bytes, and Examples.antt has one that fills with zeros. Its `String`, with its UTF-8 encoder and
-- decoder, is the parameter `EngineString`; Examples/Strings.antt has one of two texts; its
-- decoder skips a byte order mark in front, so its law is about the texts without one. `Floats` is
-- the arithmetic of `double`, `float` and `real_t` with the functions of `Math`, `FloatLaws` what
-- the encodings rely on, `Variants` and `SerializerLaws` the same for `Variant`: the serializer
-- gives back the values that may be sent and are plain, of which the law leaves out texts that
-- UTF-8 does not give back, freed objects and containers typed by a class; `Names` for
-- `StringName`; `Engine` is the generator of random numbers and the sort of the local network. A
-- map or a set with numbers for keys is its contents in ascending order. A null pointer in place
-- of bytes is not modelled: bytes are a list. The error messages that the source prints are left
-- out; the value or failure that comes with them is not. A buffer added into itself is not
-- modelled.
--
-- Not modelled: the frame time as a double in `TickClock`; the rest of `TickSyncCore`, and
-- `TickMeshCore`; the transports over ENet, and the nodes, which bind them to the engine. A peer's
-- id in the local network is a natural number, since it counts from 1 and is taken to stay below 2
-- ^ 31.
pub mod Prelude
pub mod Bits
pub mod BitArray
pub mod DataBuffer
pub mod Clock
pub mod Floats
pub mod Variants
pub mod Codec
pub mod Schema
pub mod Frames
pub mod Transport
pub mod LocalNetwork
pub mod SyncCore
pub mod Examples
