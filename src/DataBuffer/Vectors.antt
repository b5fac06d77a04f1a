-- ===== src/DataBuffer/Vectors.antt =====
-- `TickDataBuffer`: the vectors and the directions that are written and read.
use tick_synchronizer.Prelude.{ℕ, ◌-◌, not, ◌==◌, if◌then◌else◌}
use tick_synchronizer.Prelude.Int.{pos}
use tick_synchronizer.BitArray.{ByteVector}
use tick_synchronizer.Floats.{Floats, Vector2, Vector3, vector2_zero, vector3_zero}
use tick_synchronizer.DataBuffer.{
  TickDataBuffer, check_writing, check_reading, write_bits, fetch_bits,
}
use tick_synchronizer.DataBuffer.Values.{
  data_type_normalized_vector2, CompressionLevel, is_valid_compression_level, get_bit_taken,
}
use tick_synchronizer.DataBuffer.Reals.{
  all_ones, compress_unit_float, decompress_unit_float, read_real, add_real, read_unit_real,
  add_unit_real,
}

module _ (f : Floats) where
  unfoldable pub read_vector2 :
      TickDataBuffer → CompressionLevel → TickDataBuffer × Vector2 f.Scalar
  read_vector2 s level =
      let (s, x) = read_real f s level in
      let (s, y) = read_real f s level in (s, record { x = f.scalar x; y = f.scalar y })

  unfoldable pub read_vector3 :
      TickDataBuffer → CompressionLevel → TickDataBuffer × Vector3 f.Scalar
  read_vector3 s level =
      let (s, x) = read_real f s level in
      let (s, y) = read_real f s level in
      let (s, z) = read_real f s level in
      (s, record { x = f.scalar x; y = f.scalar y; z = f.scalar z })

  unfoldable pub read_normalized_vector3 :
      TickDataBuffer → CompressionLevel → TickDataBuffer × Vector3 f.Scalar
  read_normalized_vector3 s level =
      let (s, x) = read_unit_real f s level in
      let (s, y) = read_unit_real f s level in
      let (s, z) = read_unit_real f s level in
      (s, record { x = f.scalar_of_single x; y = f.scalar_of_single y; z = f.scalar_of_single z })

  -- The direction of a compressed angle.
  unfoldable pub direction : ℕ → f.Double → Vector2 f.Scalar
  unfolding decompress_unit_float
  direction compressed_angle max_value =
      let angle = f.sub (f.mul (decompress_unit_float f compressed_angle max_value) f.tau) f.pi in
      record { x = f.scalar (f.cos angle); y = f.scalar (f.sin angle) }

  unfoldable pub read_normalized_vector2 :
      TickDataBuffer → CompressionLevel → TickDataBuffer × Vector2 f.Scalar
  unfolding direction
  read_normalized_vector2 s level =
      let bits = get_bit_taken data_type_normalized_vector2 level in
      let angle_bits = bits - 1 in
      let max_value = f.of_nat (all_ones angle_bits) in
      if not (is_valid_compression_level level)
      then (s, vector2_zero f)
      else let (s, ready) = check_reading s (pos bits) in
        let (t, is_not_zero) = fetch_bits s 1 in
        let (u, compressed_angle) = fetch_bits t angle_bits in
        if not ready
        then (s, vector2_zero f)
        else (u, if is_not_zero == 0 then vector2_zero f else direction compressed_angle max_value)

  module _ (v : ByteVector) where
    unfoldable pub add_vector2 :
        TickDataBuffer → Vector2 f.Scalar → CompressionLevel → TickDataBuffer × Vector2 f.Scalar
    add_vector2 s p level =
        let (s, x) = add_real f v s (f.of_scalar p.x) level in
        let (s, y) = add_real f v s (f.of_scalar p.y) level in
        (s, record { x = f.scalar x; y = f.scalar y })

    unfoldable pub add_vector3 :
        TickDataBuffer → Vector3 f.Scalar → CompressionLevel → TickDataBuffer × Vector3 f.Scalar
    add_vector3 s p level =
        let (s, x) = add_real f v s (f.of_scalar p.x) level in
        let (s, y) = add_real f v s (f.of_scalar p.y) level in
        let (s, z) = add_real f v s (f.of_scalar p.z) level in
        (s, record { x = f.scalar x; y = f.scalar y; z = f.scalar z })

    unfoldable pub add_normalized_vector3 :
        TickDataBuffer → Vector3 f.Scalar → CompressionLevel → TickDataBuffer × Vector3 f.Scalar
    add_normalized_vector3 s p level =
        let input = if f.vector3_is_zero_approx p then vector3_zero f else f.vector3_normalized p in
        let (s, x) = add_unit_real f v s (f.single_of_scalar input.x) level in
        let (s, y) = add_unit_real f v s (f.single_of_scalar input.y) level in
        let (s, z) = add_unit_real f v s (f.single_of_scalar input.z) level in
        (s, record { x = f.scalar_of_single x; y = f.scalar_of_single y; z = f.scalar_of_single z })

    unfoldable pub add_normalized_vector2 :
        TickDataBuffer → Vector2 f.Scalar → CompressionLevel → TickDataBuffer × Vector2 f.Scalar
    unfolding direction
    add_normalized_vector2 s p level =
        let bits = get_bit_taken data_type_normalized_vector2 level in
        let angle_bits = bits - 1 in
        let max_value = f.of_nat (all_ones angle_bits) in
        let is_not_zero = not (f.vector2_is_zero_approx p) in
        let angle = if is_not_zero then f.atan2 (f.of_scalar p.y) (f.of_scalar p.x) else f.nought in
        let compressed_angle = compress_unit_float f (f.div (f.add angle f.pi) f.tau) max_value in
        if not (is_valid_compression_level level)
        then (s, p)
        else let (s, writing) = check_writing s in
          if not writing then (s, p) else (
            write_bits v (write_bits v s (if is_not_zero then 1 else 0) 1) compressed_angle
                angle_bits,
            if is_not_zero then direction compressed_angle max_value else vector2_zero f,
          )
