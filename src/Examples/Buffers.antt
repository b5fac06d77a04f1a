-- ===== src/Examples/Buffers.antt =====
-- `TickDataBuffer` on concrete messages.
use tick_synchronizer.Prelude.{
  ◌<◌, ◌^◌, ◌≡◌, refl, true, false, List, [], ◌∷◌, ◌⊎◌, arith, map, zero, suc,
}
use tick_synchronizer.Prelude.Int.{pos, negsuc}
use tick_synchronizer.Prelude.Words.{to_word, of_word, clamp_ℤ}
use tick_synchronizer.Bits.Stream.{bits_from, word_bits}
use tick_synchronizer.BitArray.{IsBytes, resize_in_bits, store_bits, read_bits}
use tick_synchronizer.DataBuffer.{
  TickDataBuffer, empty_buffer, begin_write, begin_read, write_bits, fetch_bits, is_end_of_buffer,
  total_size, check_reading, check_writing, make_room_in_bits, slice,
}
use tick_synchronizer.DataBuffer.Values.{
  extend_int_bits, is_valid_compression_level, add_bool, add_int, add_uint, add_int_bits,
  add_uint_bits, read_bool, read_int, read_uint, read_int_bits, read_uint_bits, get_bit_taken,
  is_bad_width, clamp_int, clamp_uint, extend_int, clamp_int_bits, max_uint_bits,
}
use tick_synchronizer.DataBuffer.Stream.{
  IsAppending, Appends, IsReadable, Takes, write_bits-Appends, fetch_bits-Takes,
}
use tick_synchronizer.DataBuffer.Ints.{signed_word, extend_int_bits-signed_word}
use tick_synchronizer.DataBuffer.Messages.{
  Field, bool, int, uint, int_bits, uint_bits, Value, truth, signed, unsigned, delivered, add_field,
  add_all, read_all, read_field, read_all-add_all,
}
use tick_synchronizer.DataBuffer.Skips.{skip_field, skip_field-read_field}
use tick_synchronizer.DataBuffer.Slices.{slice-Appends}
use tick_synchronizer.BitArray.Window.{bit_at}
use tick_synchronizer.DataBuffer.Safety.{IsSafe, default, read_field-IsSafe}
use tick_synchronizer.Examples.{zero_vector}

-- Values in range and out of it, at several widths.
abbrev message : List Field
message =
    bool true
    ∷ int_bits (negsuc 4) 6
    ∷ uint 70000 (pos 2)
    ∷ int (negsuc 999) (pos 3)
    ∷ uint_bits 5 64
    ∷ []

abbrev values : List Value
values = truth true ∷ signed (negsuc 4) ∷ unsigned 65535 ∷ signed (negsuc 127) ∷ unsigned 5 ∷ []

-- The message, sent and received.
message_runs :
    (read_all
      (begin_read (add_all zero_vector (begin_write zero_vector empty_buffer (pos 0)) message).0)
      message).1
    ≡ values
unfolding add_all add_field read_all read_field begin_write begin_read add_bool add_int add_uint
    add_int_bits add_uint_bits read_bool read_int read_uint read_int_bits read_uint_bits write_bits
    fetch_bits check_reading check_writing get_bit_taken is_bad_width clamp_int clamp_uint
    extend_int clamp_int_bits extend_int_bits max_uint_bits make_room_in_bits resize_in_bits
    store_bits read_bits to_word of_word clamp_ℤ
message_runs = refl

nil-IsBytes : IsBytes []
nil-IsBytes j = omega arith

empty-IsAppending : IsAppending empty_buffer
empty-IsAppending = record {
  writable = record { writing = refl; in_range = nil-IsBytes; inside = omega arith };
  sound = refl;
  at_end = refl;
}

-- Two bytes to read, the first four bits already read.
abbrev two_bytes : TickDataBuffer
two_bytes = record empty_buffer {
  bit_offset = 4;
  bit_size = 16;
  is_reading = true;
  buffer = record { bytes = 0xab ∷ 0xcd ∷ [] };
}

two_bytes-IsReadable : IsReadable two_bytes
unfolding total_size
two_bytes-IsReadable = record {
  reading = refl;
  sound = refl;
  in_range = bytes;
  ahead = omega arith;
  stored = omega arith;
}
  where
    bytes : IsBytes two_bytes.buffer.bytes
    bytes zero = omega arith
    bytes (suc zero) = omega arith
    bytes (suc (suc j)) = omega arith

read_all-add_all_example :
    let sent = add_all zero_vector (begin_write zero_vector empty_buffer (pos 0)) message in
    let received = read_all (begin_read sent.0) message in
    (received.1 ≡ sent.1)
    × (received.1 ≡ map delivered message)
    × (received.0.buffer_failed ≡ false)
    × (is_end_of_buffer received.0 ≡ true)
unfolding is_valid_compression_level
read_all-add_all_example = read_all-add_all zero_vector empty_buffer message nil-IsBytes (
  tt,
  (
    (omega arith, omega arith, omega arith),
    ((refl, omega arith), ((refl, omega arith), ((omega arith, omega arith), tt))),
  ),
)

read_field-IsSafe_example :
    IsSafe two_bytes (read_field two_bytes (uint_bits 0 13)).0
    × (((read_field two_bytes (uint_bits 0 13)).0.buffer_failed ≡ false)
        ⊎ ((read_field two_bytes (uint_bits 0 13)).1 ≡ default (uint_bits 0 13)))
read_field-IsSafe_example = read_field-IsSafe two_bytes (uint_bits 0 13)

write_bits-Appends_example :
    Appends empty_buffer (word_bits 9 77) (write_bits zero_vector empty_buffer 77 9)
write_bits-Appends_example =
    write_bits-Appends zero_vector empty_buffer 77 9 empty-IsAppending (omega arith) (omega arith)

fetch_bits-Takes_example :
    Takes two_bytes (word_bits 12 (fetch_bits two_bytes 12).1) (fetch_bits two_bytes 12).0
    × ((fetch_bits two_bytes 12).1 < 2 ^ 12)
unfolding total_size
fetch_bits-Takes_example =
    fetch_bits-Takes two_bytes 12 two_bytes-IsReadable (omega arith) (omega arith) (omega arith)

extend_int_bits-signed_word_example : extend_int_bits 6 (signed_word 6 (negsuc 4)) ≡ negsuc 4
extend_int_bits-signed_word_example =
    extend_int_bits-signed_word 6 (negsuc 4) (omega arith) (omega arith) (omega arith)

skip_field-read_field_example :
    skip_field two_bytes (int_bits (pos 0) 13) ≡ (read_field two_bytes (int_bits (pos 0) 13)).0
skip_field-read_field_example =
    skip_field-read_field two_bytes (int_bits (pos 0) 13)
      (omega arith, omega arith, (omega arith, omega arith)) two_bytes-IsReadable

slice-Appends_example :
    Appends empty_buffer
      (bits_from (bit_at two_bytes.buffer.bytes) 3 10)
      (slice zero_vector two_bytes empty_buffer (pos 3) (pos 10)).0
    × ((slice zero_vector two_bytes empty_buffer (pos 3) (pos 10)).1 ≡ true)
unfolding total_size
slice-Appends_example =
    slice-Appends zero_vector two_bytes empty_buffer 3 10 two_bytes-IsReadable.in_range
      (omega arith) empty-IsAppending (omega arith) (omega arith)
