-- ===== src/DataBuffer.antt =====
-- source/common/tick_data_buffer.h and tick_data_buffer.cpp: `TickDataBuffer`, the bit-packed buffer
-- of the messages. This file has its state, the private helpers and the operations that move
-- through the buffer; the children have the values that are written and read.
-- Sizes and offsets are `int` fields that no operation makes negative: they are natural numbers, and
-- a buffer is taken to be below 2 ^ 31 bits, where `int` does not overflow. An `int` argument is an
-- integer. A method returns the new state, then its result.
pub mod Values
pub mod Write
pub mod Stream
pub mod Ints
pub mod Messages
pub mod Safety
pub mod Utf8
pub mod Sequences
pub mod Unicode
pub mod Texts
pub mod Strings
pub mod Raw
pub mod SentStrings
pub mod Skips
pub mod Slices
pub mod Reals
pub mod Vectors
pub mod Nested
pub mod Carries
pub mod RealRoundTrip
use tick_synchronizer.Prelude.{
  ℕ, zero, suc, ◌+◌, ◌-◌, ◌*◌, ◌<◌, ◌≤◌, min, max, bit_and, Bool, true, false, ◌||◌, ◌&&◌, not,
  ◌==◌, leb, ltb, if◌then◌else◌, [],
}
use tick_synchronizer.Prelude.Int.{ℤ, pos, pos_part, ltb_ℤ, ◌-ℤ◌}
use tick_synchronizer.BitArray.{
  ByteVector, TickBitArray, size_in_bits, store_bits, read_bits, resize_in_bits, zero_bytes,
}

pub record TickDataBuffer : Type 0 where
  pub metadata_size : ℕ
  pub bit_offset : ℕ
  pub bit_size : ℕ
  pub is_reading : Bool
  pub buffer_failed : Bool
  pub buffer : TickBitArray

-- The default constructor.
abbrev pub empty_buffer : TickDataBuffer
empty_buffer = record {
  metadata_size = 0;
  bit_offset = 0;
  bit_size = 0;
  is_reading = false;
  buffer_failed = false;
  buffer = record { bytes = [] };
}

unfoldable pub total_size : TickDataBuffer → ℕ
total_size s = s.metadata_size + s.bit_size

unfoldable pub mark_failed : TickDataBuffer → TickDataBuffer
mark_failed s = record s { buffer_failed = true }

-- The constructor over a bit array, ready to be read.
unfoldable pub of_bit_array : TickBitArray → TickDataBuffer
unfolding size_in_bits
of_bit_array a = record empty_buffer { bit_size = size_in_bits a; is_reading = true; buffer = a }

-- `copy` of a buffer, and of a bit array.
unfoldable pub copy : TickDataBuffer → TickDataBuffer → TickDataBuffer
copy s other = record s {
  metadata_size = other.metadata_size;
  bit_offset = other.bit_offset;
  bit_size = other.bit_size;
  is_reading = other.is_reading;
  buffer_failed = other.buffer_failed;
  buffer = other.buffer;
}

unfoldable pub copy_bits : TickDataBuffer → TickBitArray → TickDataBuffer
unfolding size_in_bits
copy_bits s a = record s {
  metadata_size = 0;
  bit_offset = 0;
  bit_size = size_in_bits a;
  is_reading = true;
  buffer_failed = false;
  buffer = a;
}

unfoldable pub begin_read : TickDataBuffer → TickDataBuffer
begin_read s = record s { bit_offset = 0; is_reading = true; buffer_failed = false }

unfoldable pub is_end_of_buffer : TickDataBuffer → Bool
unfolding total_size
is_end_of_buffer s = s.is_reading && leb (total_size s) s.bit_offset

unfoldable pub seek : TickDataBuffer → ℤ → TickDataBuffer
unfolding total_size
seek s bits =
    if ltb_ℤ bits (pos 0) || ltb_ℤ (pos (total_size s)) bits
    then record s { buffer_failed = true }
    else record s { bit_offset = pos_part bits }

unfoldable pub shrink_to : TickDataBuffer → ℤ → ℤ → TickDataBuffer
unfolding size_in_bits ◌-ℤ◌
shrink_to s metadata_bits bits =
    if ltb_ℤ metadata_bits (pos 0)
    then s
    else if ltb_ℤ bits (pos 0)
    then s
    else if ltb_ℤ (pos (size_in_bits s.buffer) -ℤ metadata_bits) bits
    then record s { buffer_failed = true }
    else record s { metadata_size = pos_part metadata_bits; bit_size = pos_part bits }

unfoldable pub skip : TickDataBuffer → ℤ → TickDataBuffer
unfolding total_size ◌-ℤ◌
skip s bits =
    if ltb_ℤ bits (pos 0) || ltb_ℤ (pos (total_size s) -ℤ bits) (pos s.bit_offset)
    then record s { buffer_failed = true }
    else record s { bit_offset = s.bit_offset + pos_part bits }

unfoldable pub zero_buffer : TickDataBuffer → TickDataBuffer
unfolding zero_bytes
zero_buffer s = record s { buffer = zero_bytes s.buffer }

unfoldable pub check_writing : TickDataBuffer → TickDataBuffer × Bool
check_writing s = if s.is_reading then (record s { buffer_failed = true }, false) else (s, true)

unfoldable pub check_reading : TickDataBuffer → ℤ → TickDataBuffer × Bool
unfolding total_size ◌-ℤ◌
check_reading s bits =
    if not s.is_reading
    then (record s { buffer_failed = true }, false)
    else if s.buffer_failed
        || ltb_ℤ bits (pos 0)
        || ltb_ℤ (pos (total_size s) -ℤ bits) (pos s.bit_offset)
    then (record s { buffer_failed = true }, false)
    else (s, true)

-- `uint64_t value = 0`, which `read_bits` fills in.
unfoldable pub fetch_bits : TickDataBuffer → ℕ → TickDataBuffer × ℕ
fetch_bits s n =
    let (value, done) = read_bits s.buffer (pos s.bit_offset) (pos n) 0 in
    (record s { bit_offset = s.bit_offset + n; buffer_failed = s.buffer_failed || not done }, value)

-- `((offset + 7) & ~7) - offset`: on a number `x & ~7` takes off the bits that 7 has.
unfoldable pub bits_to_next_byte : ℕ → ℕ
bits_to_next_byte offset = offset + 7 - bit_and (offset + 7) 7 - offset

unfoldable pub pad_to_next_byte : TickDataBuffer → TickDataBuffer × Bool
unfolding total_size bits_to_next_byte
pad_to_next_byte s =
    if ltb (total_size s) (s.bit_offset + bits_to_next_byte s.bit_offset)
    then (s, false)
    else (record s { bit_offset = s.bit_offset + bits_to_next_byte s.bit_offset }, true)

-- The comparison of `operator==`, in chunks of 64 bits; at most one round for each bit.
equal_loop : ℕ → ℕ → TickDataBuffer → TickDataBuffer → Bool
equal_loop zero offset s t = true
equal_loop (suc fuel) offset s t =
    let bits = min 64 (s.bit_size - offset) in
    let a = (read_bits s.buffer (pos (s.metadata_size + offset)) (pos bits) 0).0 in
    let b = (read_bits t.buffer (pos (t.metadata_size + offset)) (pos bits) 0).0 in
    let rest = equal_loop fuel (offset + 64) s t in
    if ltb offset s.bit_size then if not (a == b) then false else rest else true

unfoldable pub is_equal : TickDataBuffer → TickDataBuffer → Bool
unfolding equal_loop
is_equal s t = if not (s.bit_size == t.bit_size) then false else equal_loop (suc s.bit_size) 0 s t

module _ (v : ByteVector) where
  unfoldable pub make_room_in_bits : TickDataBuffer → ℕ → TickDataBuffer
  unfolding size_in_bits
  make_room_in_bits s bits =
      let min_size = s.bit_offset + bits in
      let size = size_in_bits s.buffer in
      let room =
        if ltb size min_size
        then (resize_in_bits v s.buffer (pos (max (min_size + 64) (size * 2)))).0
        else s.buffer in
      let payload = min_size - s.metadata_size in
      record s { buffer = room; bit_size = if ltb s.bit_size payload then payload else s.bit_size }

  unfoldable pub begin_write : TickDataBuffer → ℤ → TickDataBuffer
  unfolding make_room_in_bits
  begin_write s metadata =
      if ltb_ℤ metadata (pos 0)
      then s
      else make_room_in_bits
          (record s {
            metadata_size = pos_part metadata;
            bit_size = 0;
            bit_offset = 0;
            is_reading = false;
            buffer_failed = false;
          })
          0

  unfoldable pub dry : TickDataBuffer → TickDataBuffer
  unfolding total_size
  dry s = record s { buffer = (resize_in_bits v s.buffer (pos (total_size s))).0 }

  unfoldable pub write_bits : TickDataBuffer → ℕ → ℕ → TickDataBuffer
  write_bits s value n =
      let room = make_room_in_bits s n in
      let (written, done) = store_bits room.buffer (pos room.bit_offset) value (pos n) in
      record room {
        buffer = written;
        buffer_failed = room.buffer_failed || not done;
        bit_offset = room.bit_offset + n;
      }

  unfoldable pub make_room_pad_to_next_byte : TickDataBuffer → TickDataBuffer
  unfolding make_room_in_bits bits_to_next_byte
  make_room_pad_to_next_byte s =
      let bits = bits_to_next_byte s.bit_offset in
      let room = make_room_in_bits s bits in record room { bit_offset = room.bit_offset + bits }

  -- The rounds of `slice`, at `offset`: 64 bits each, or what is left.
  unfoldable pub slice_loop : ℕ → ℕ → TickDataBuffer → TickDataBuffer → ℕ → ℕ → TickDataBuffer
  slice_loop zero offset s destination from count = destination
  slice_loop (suc fuel) offset s destination from count =
      let bits = min 64 (count - offset) in
      let value = (read_bits s.buffer (pos (from + offset)) (pos bits) 0).0 in
      let rest = slice_loop fuel (offset + 64) s (write_bits destination value bits) from count in
      if ltb offset count then rest else destination

  -- Returns the destination and whether it was written to.
  unfoldable pub slice : TickDataBuffer → TickDataBuffer → ℤ → ℤ → TickDataBuffer × Bool
  unfolding total_size check_writing slice_loop ◌-ℤ◌
  slice s destination from count =
      if ltb_ℤ count (pos 1)
      then (destination, false)
      else if ltb_ℤ from (pos 0) || ltb_ℤ (pos (total_size s) -ℤ count) from
      then (destination, false)
      else let (checked, writing) = check_writing destination in
        if not writing
        then (checked, false)
        else (slice_loop (suc (pos_part count)) 0 s checked (pos_part from) (pos_part count), true)
