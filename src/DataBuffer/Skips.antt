-- ===== src/DataBuffer/Skips.antt =====
-- `TickDataBuffer`: the skip of each type. One that is not fixed in size reads its size first.
use tick_synchronizer.Prelude.{
  ℕ, ◌+◌, ◌*◌, ◌≤◌, ◌<◌, ◌≡◌, true, not, if◌then◌else◌, arith, leb, Bool-cases, inl, inr,
}
use tick_synchronizer.Prelude.Int.{pos, ◌-ℤ◌}
use tick_synchronizer.BitArray.Read.{read_bits-Reads}
use tick_synchronizer.DataBuffer.{
  TickDataBuffer, skip, pad_to_next_byte, mark_failed, total_size, check_reading, fetch_bits,
}
use tick_synchronizer.DataBuffer.Values.{
  CompressionLevel, compression_level_2, get_bit_taken, is_valid_compression_level, data_type_bool,
  data_type_int, data_type_uint, data_type_real, data_type_positive_unit_real, data_type_unit_real,
  data_type_vector2, data_type_normalized_vector2, data_type_vector3, data_type_normalized_vector3,
  read_uint, bit_sizes,
}
use tick_synchronizer.DataBuffer.Stream.{IsReadable}
use tick_synchronizer.DataBuffer.Messages.{
  Field, bool, int, uint, int_bits, uint_bits, IsSendable, width_bounds, width_ok, read_field,
}
use tick_synchronizer.DataBuffer.Safety.{
  fetch_if_ready, read_bool_lem, read_int_lem, read_uint_lem, read_int_bits_lem, read_uint_bits_lem,
}

unfoldable pub skip_bool : TickDataBuffer → TickDataBuffer
skip_bool s = skip s (pos (get_bit_taken data_type_bool (pos 0)))

unfoldable pub skip_int : TickDataBuffer → CompressionLevel → TickDataBuffer
skip_int s level = skip s (pos (get_bit_taken data_type_int level))

unfoldable pub skip_uint : TickDataBuffer → CompressionLevel → TickDataBuffer
skip_uint s level = skip s (pos (get_bit_taken data_type_uint level))

unfoldable pub skip_real : TickDataBuffer → CompressionLevel → TickDataBuffer
skip_real s level = skip s (pos (get_bit_taken data_type_real level))

unfoldable pub skip_positive_unit_real : TickDataBuffer → CompressionLevel → TickDataBuffer
skip_positive_unit_real s level = skip s (pos (get_bit_taken data_type_positive_unit_real level))

unfoldable pub skip_unit_real : TickDataBuffer → CompressionLevel → TickDataBuffer
skip_unit_real s level = skip s (pos (get_bit_taken data_type_unit_real level))

unfoldable pub skip_vector2 : TickDataBuffer → CompressionLevel → TickDataBuffer
skip_vector2 s level = skip s (pos (get_bit_taken data_type_vector2 level))

unfoldable pub skip_normalized_vector2 : TickDataBuffer → CompressionLevel → TickDataBuffer
skip_normalized_vector2 s level = skip s (pos (get_bit_taken data_type_normalized_vector2 level))

unfoldable pub skip_vector3 : TickDataBuffer → CompressionLevel → TickDataBuffer
skip_vector3 s level = skip s (pos (get_bit_taken data_type_vector3 level))

unfoldable pub skip_normalized_vector3 : TickDataBuffer → CompressionLevel → TickDataBuffer
skip_normalized_vector3 s level = skip s (pos (get_bit_taken data_type_normalized_vector3 level))

unfoldable pub skip_string : TickDataBuffer → TickDataBuffer
skip_string s = let (s, len) = read_uint s compression_level_2 in skip s (pos (len * 8))

unfoldable pub skip_data_buffer : TickDataBuffer → TickDataBuffer
skip_data_buffer s =
    let (s, input_bits) = read_uint s compression_level_2 in
    let (padded, done) = pad_to_next_byte s in
    if s.buffer_failed
    then mark_failed s
    else if not done
    then mark_failed padded
    else skip padded (pos input_bits)

-- Skipping bits that are there leaves a sound reader where fetching them does.
skip-fetch_bits :
    (s : TickDataBuffer) (n : ℕ)
    → IsReadable s
    → 0 < n
    → n ≤ 64
    → s.bit_offset + n ≤ total_size s
    → skip s (pos n) ≡ (fetch_bits s n).0
unfolding skip fetch_bits total_size ◌-ℤ◌
skip-fetch_bits s n r p q fits =
    let h =
      read_bits-Reads s.buffer s.bit_offset n 0 r.in_range
        (record { some_bits = p; word = q; fits = omega (arith, r.stored) }) in
    ground (arith, h.done, r.sound)

-- And past the data both fail the buffer and stay where they are.
skip-fetch_if_ready :
    (s : TickDataBuffer) (n : ℕ)
    → IsReadable s
    → 0 < n
    → n ≤ 64
    → skip s (pos n) ≡ (fetch_if_ready s (pos n)).0
unfolding fetch_if_ready
skip-fetch_if_ready s n r p q = elim (Bool-cases (leb (s.bit_offset + n) (total_size s))) [
  | inl e ↦
      let fits : s.bit_offset + n ≤ total_size s = ground arith in
      rw (check_ready fits) (skip-fetch_bits s n r p q fits)
  | inr e ↦ past (ground arith)
]
  where
    check_ready : s.bit_offset + n ≤ total_size s → check_reading s (pos n) ≡ (s, true)
    check_ready fits = unfold check_reading total_size ◌-ℤ◌ in ground (arith, r.reading, r.sound)

    past :
        total_size s < s.bit_offset + n
        → skip s (pos n)
          ≡ (if not (check_reading s (pos n)).1
              then ((check_reading s (pos n)).0, 0)
              else fetch_bits (check_reading s (pos n)).0 n).0
    past h = unfold skip check_reading total_size ◌-ℤ◌ in ground (arith, r.reading, r.sound)

-- The skip that matches the read of a field.
unfoldable pub skip_field : TickDataBuffer → Field → TickDataBuffer
skip_field s (bool b) = skip_bool s
skip_field s (int x level) = skip_int s level
skip_field s (uint x level) = skip_uint s level
skip_field s (int_bits x n) = skip s (pos n)
skip_field s (uint_bits x n) = skip s (pos n)

-- On a buffer that is being read, has not failed and has its data inside its storage, the skip of
-- a boolean, an integer, or 1 to 64 bits leaves the buffer just as the matching read does, also
-- where the data ends before.
pub skip_field-read_field :
    (s : TickDataBuffer) (f : Field)
    → IsSendable f
    → IsReadable s
    → skip_field s f ≡ (read_field s f).0
unfolding skip_field read_field
skip_field-read_field s (bool b) h r =
    unfold skip_bool get_bit_taken bit_sizes is_valid_compression_level in
    rw (read_bool_lem s) (skip-fetch_if_ready s 1 r (omega arith) (omega arith))
skip_field-read_field s (int x level) h r =
    unfold skip_int in
    let w = width_bounds (int x level) h in
    rw (read_int_lem s level, h.0) (skip-fetch_if_ready s _ r w.0 w.1)
skip_field-read_field s (uint x level) h r =
    unfold skip_uint in
    let w = width_bounds (uint x level) h in
    rw (read_uint_lem s level, h.0) (skip-fetch_if_ready s _ r w.0 w.1)
skip_field-read_field s (int_bits x n) h r =
    rw (read_int_bits_lem s (pos n), width_ok n h.0 h.1) (skip-fetch_if_ready s n r h.0 h.1)
skip_field-read_field s (uint_bits x n) h r =
    rw (read_uint_bits_lem s (pos n), width_ok n h.0 h.1) (skip-fetch_if_ready s n r h.0 h.1)
