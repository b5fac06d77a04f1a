-- ===== src/DataBuffer/Reals.antt =====
-- `TickDataBuffer`: the reals that are written and read, and the errors of their encodings. What the
-- engine prints is left out.
use tick_synchronizer.Prelude.{
  ℕ, ◌-◌, ◌*◌, ◌%◌, ◌^◌, ◌&&◌, not, ◌==◌, [], ◌∷◌, get_or, if◌then◌else◌,
}
use tick_synchronizer.Prelude.Int.{pos, pos_part}
use tick_synchronizer.BitArray.{ByteVector}
use tick_synchronizer.Floats.{Floats}
use tick_synchronizer.DataBuffer.{
  TickDataBuffer, check_writing, check_reading, write_bits, fetch_bits, mark_failed,
}
use tick_synchronizer.DataBuffer.Values.{
  DataType, data_type_bool, data_type_int, data_type_uint, data_type_real,
  data_type_positive_unit_real, data_type_unit_real, data_type_vector2,
  data_type_normalized_vector2, data_type_vector3, data_type_normalized_vector3, data_type_bits,
  data_type_databuffer, CompressionLevel, is_valid_compression_level, get_bit_taken,
}

-- `double((uint64_t(1) << bits) - 1)`
abbrev pub all_ones : ℕ → ℕ
all_ones bits = 1 * 2 ^ bits - 1

module _ (f : Floats) where
  unfoldable pub compress_unit_float : f.Double → f.Double → ℕ
  compress_unit_float x scale_factor =
      let value = if f.lt f.nought x then f.min x f.one else f.nought in
      f.to_nat (f.round (f.mul value scale_factor))

  unfoldable pub decompress_unit_float : ℕ → f.Double → f.Double
  decompress_unit_float x scale_factor = f.min (f.div (f.of_nat x) scale_factor) f.one

  -- The value that `add_real` writes at a level: the word, its bits, and the value it stands for.
  unfoldable pub real_word : CompressionLevel → f.Double → ℕ
  real_word level x =
      if pos_part level == 0
      then f.double_bits x
      else if pos_part level == 1
      then f.single_bits (f.single (f.clamp x (f.neg f.float_max) f.float_max))
      else f.make_half_float (f.single (f.clamp x (f.neg f.half_max) f.half_max))

  unfoldable pub sent_real : CompressionLevel → f.Double → f.Double
  sent_real level x =
      if pos_part level == 0
      then x
      else if pos_part level == 1
      then f.of_single (f.single (f.clamp x (f.neg f.float_max) f.float_max))
      else f.of_single
          (f.half_to_float (f.make_half_float (f.single (f.clamp x (f.neg f.half_max) f.half_max))))

  -- A real that is not finite is sent as 0.
  abbrev pub finite_or_nought : f.Double → f.Double
  finite_or_nought x = if f.is_finite x then x else f.nought

  -- The conversion of `read_real`.
  unfoldable pub real_of_word : CompressionLevel → ℕ → f.Double
  real_of_word level value =
      if pos_part level == 0
      then f.of_double_bits value
      else if pos_part level == 1
      then f.of_single (f.of_single_bits (value % 2 ^ 32))
      else f.of_single (f.half_to_float (value % 2 ^ 16))

  unfoldable pub read_real : TickDataBuffer → CompressionLevel → TickDataBuffer × f.Double
  unfolding mark_failed real_of_word
  read_real s level =
      let bits = get_bit_taken data_type_real level in
      if not (is_valid_compression_level level)
      then (s, f.nought)
      else let (s, ready) = check_reading s (pos bits) in
        let (s', value) = fetch_bits s bits in
        let output = real_of_word level value in
        if not ready
        then (s, f.nought)
        else if not (f.is_finite output)
        then (mark_failed s', f.nought)
        else (s', output)

  unfoldable pub read_positive_unit_real :
      TickDataBuffer → CompressionLevel → TickDataBuffer × f.Single
  read_positive_unit_real s level =
      let bits = get_bit_taken data_type_positive_unit_real level in
      let max_value = f.of_nat (all_ones bits) in
      if not (is_valid_compression_level level)
      then (s, f.single_zero)
      else let (s, ready) = check_reading s (pos bits) in
        let (s', value) = fetch_bits s bits in
        if not ready
        then (s, f.single_zero)
        else (s', f.single (decompress_unit_float value max_value))

  unfoldable pub read_unit_real : TickDataBuffer → CompressionLevel → TickDataBuffer × f.Single
  read_unit_real s level =
      if not (is_valid_compression_level level)
      then (s, f.single_zero)
      else let (s, ready) = check_reading s (pos (get_bit_taken data_type_unit_real level)) in
        let (t, magnitude) = read_positive_unit_real s level in
        let (u, sign) = fetch_bits t 1 in
        if not ready
        then (s, f.single_zero)
        else (u, if not (sign == 0) then f.single_neg magnitude else magnitude)

  -- The error of the encoding of a type at a level.
  unfoldable pub get_real_epsilon : DataType → CompressionLevel → f.Double
  get_real_epsilon t level = if not (is_valid_compression_level level) then f.nought else epsilon t
    where
      relative : f.Double
      relative =
          f.pow f.two (f.neg (f.of_nat (get_or (53 ∷ 24 ∷ 11 ∷ 11 ∷ []) (pos_part level) 0 - 1)))

      half_step : f.Double
      half_step =
          f.div f.half (f.of_nat (all_ones (get_bit_taken data_type_positive_unit_real level)))

      half_angle : f.Double
      half_angle =
          f.div f.pi (f.of_nat (all_ones (get_bit_taken data_type_normalized_vector2 level - 1)))

      epsilon : DataType → f.Double
      epsilon data_type_real = relative
      epsilon data_type_vector2 = relative
      epsilon data_type_vector3 = relative
      epsilon data_type_positive_unit_real = half_step
      epsilon data_type_unit_real = half_step
      epsilon data_type_normalized_vector3 = half_step
      epsilon data_type_normalized_vector2 = half_angle
      epsilon data_type_bool = f.nought
      epsilon data_type_int = f.nought
      epsilon data_type_uint = f.nought
      epsilon data_type_bits = f.nought
      epsilon data_type_databuffer = f.nought

  module _ (v : ByteVector) where
    unfoldable pub add_real :
        TickDataBuffer → f.Double → CompressionLevel → TickDataBuffer × f.Double
    unfolding real_word sent_real
    add_real s x level =
        if not (is_valid_compression_level level)
        then (s, x)
        else let (s, writing) = check_writing s in
          let input = if f.is_finite x then x else f.nought in
          if not writing then (s, x) else (
            write_bits v s (real_word level input) (get_bit_taken data_type_real level),
            sent_real level input,
          )

    unfoldable pub add_positive_unit_real :
        TickDataBuffer → f.Single → CompressionLevel → TickDataBuffer × f.Single
    add_positive_unit_real s x level =
        let bits = get_bit_taken data_type_positive_unit_real level in
        let max_value = f.of_nat (all_ones bits) in
        if not (is_valid_compression_level level)
        then (s, x)
        else let (s, writing) = check_writing s in
          let compressed = compress_unit_float (f.of_single x) max_value in
          if not writing then (s, x) else (
            write_bits v s compressed bits,
            f.single (decompress_unit_float compressed max_value),
          )

    unfoldable pub add_unit_real :
        TickDataBuffer → f.Single → CompressionLevel → TickDataBuffer × f.Single
    add_unit_real s x level =
        if not (is_valid_compression_level level)
        then (s, x)
        else let (s, writing) = check_writing s in
          let (t, magnitude) = add_positive_unit_real s (f.single_abs x) level in
          let is_negative = f.single_lt x f.single_zero && f.single_lt f.single_zero magnitude in
          if not writing then (s, x) else (
            write_bits v t (if is_negative then 1 else 0) 1,
            if is_negative then f.single_neg magnitude else magnitude,
          )
