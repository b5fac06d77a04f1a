-- ===== src/DataBuffer/Values.antt =====
-- `TickDataBuffer`: the types of the values, their sizes in bits, and the booleans and integers that
-- are written and read. An `int64_t` is an integer of that range, a `uint64_t` a number below 2 ^ 64.
use tick_synchronizer.Prelude.{
  ℕ, ◌+◌, ◌-◌, ◌*◌, ◌%◌, ◌^◌, min, bit_or, bit_and, Bool, false, ◌||◌, ◌&&◌, not, ◌==◌, [], ◌∷◌,
  get_or, if◌then◌else◌,
}
use tick_synchronizer.Prelude.Int.{ℤ, pos, pos_part, ltb_ℤ, leb_ℤ, ◌-ℤ◌}
use tick_synchronizer.Prelude.Words.{to_word, of_word, clamp_ℤ, int_min, int_max}
use tick_synchronizer.BitArray.{ByteVector}
use tick_synchronizer.DataBuffer.{
  TickDataBuffer, check_writing, check_reading, write_bits, fetch_bits,
}

pub data DataType : Type 0 where
  data_type_bool data_type_int data_type_uint data_type_real data_type_positive_unit_real
        data_type_unit_real data_type_vector2 data_type_normalized_vector2 data_type_vector3
        data_type_normalized_vector3 data_type_bits data_type_databuffer :
      DataType

-- The value of a `CompressionLevel`: a caller may cast any `int` to one.
abbrev pub CompressionLevel : Type 0
CompressionLevel = ℤ

abbrev pub compression_level_2 : CompressionLevel
compression_level_2 = pos 2

abbrev pub max_nested_buffer_bits : ℕ
max_nested_buffer_bits = 2 ^ 16 - 1

abbrev pub max_string_bytes : ℕ
max_string_bytes = 2 ^ 16 - 1

unfoldable pub is_valid_compression_level : CompressionLevel → Bool
is_valid_compression_level level = leb_ℤ (pos 0) level && leb_ℤ level (pos 3)

-- The `sizes` tables of `get_bit_taken`, each at a valid level.
unfoldable pub bit_sizes : DataType → ℕ → ℕ
bit_sizes data_type_bool l = 1
bit_sizes data_type_int l = get_or (64 ∷ 32 ∷ 16 ∷ 8 ∷ []) l 0
bit_sizes data_type_uint l = get_or (64 ∷ 32 ∷ 16 ∷ 8 ∷ []) l 0
bit_sizes data_type_real l = get_or (64 ∷ 32 ∷ 16 ∷ 16 ∷ []) l 0
bit_sizes data_type_positive_unit_real l = get_or (10 ∷ 8 ∷ 6 ∷ 4 ∷ []) l 0
bit_sizes data_type_unit_real l = get_or (10 ∷ 8 ∷ 6 ∷ 4 ∷ []) l 0 + 1
bit_sizes data_type_vector2 l = get_or (64 ∷ 32 ∷ 16 ∷ 16 ∷ []) l 0 * 2
bit_sizes data_type_normalized_vector2 l = get_or (12 ∷ 11 ∷ 10 ∷ 9 ∷ []) l 0
bit_sizes data_type_vector3 l = get_or (64 ∷ 32 ∷ 16 ∷ 16 ∷ []) l 0 * 3
bit_sizes data_type_normalized_vector3 l = (get_or (10 ∷ 8 ∷ 6 ∷ 4 ∷ []) l 0 + 1) * 3
bit_sizes data_type_bits l = 0
bit_sizes data_type_databuffer l = 0

unfoldable pub get_bit_taken : DataType → CompressionLevel → ℕ
unfolding is_valid_compression_level bit_sizes
get_bit_taken t level =
    if not (is_valid_compression_level level) then 0 else bit_sizes t (pos_part level)

-- The clamps of `add_int` and `add_uint`.
unfoldable pub clamp_int : ℕ → ℤ → ℤ
clamp_int bits value =
    if bits == 8
    then clamp_ℤ value (int_min 7) (int_max 7)
    else if bits == 16
    then clamp_ℤ value (int_min 15) (int_max 15)
    else if bits == 32
    then clamp_ℤ value (int_min 31) (int_max 31)
    else value

unfoldable pub clamp_uint : ℕ → ℕ → ℕ
clamp_uint bits value =
    if bits == 8
    then min value (2 ^ 8 - 1)
    else if bits == 16
    then min value (2 ^ 16 - 1)
    else if bits == 32
    then min value (2 ^ 32 - 1)
    else value

-- The casts of `read_int`.
unfoldable pub extend_int : ℕ → ℕ → ℤ
extend_int bits value =
    if bits == 8
    then of_word 7 (value % 2 ^ 8)
    else if bits == 16
    then of_word 15 (value % 2 ^ 16)
    else if bits == 32
    then of_word 31 (value % 2 ^ 32)
    else of_word 63 value

-- `p_bits < 1 || p_bits > 64`
unfoldable pub is_bad_width : ℤ → Bool
is_bad_width bits = ltb_ℤ bits (pos 1) || ltb_ℤ (pos 64) bits

-- The largest value of `add_uint_bits`: all ones.
unfoldable pub max_uint_bits : ℕ → ℕ
max_uint_bits n = if n == 64 then 2 ^ 64 - 1 else 1 * 2 ^ n - 1

-- The clamp of `add_int_bits`.
unfoldable pub clamp_int_bits : ℕ → ℤ → ℤ
unfolding ◌-ℤ◌
clamp_int_bits n value =
    let max_value : ℤ = pos (1 * 2 ^ (n - 1) - 1) in
    if not (n == 64) then clamp_ℤ value (pos 0 -ℤ max_value -ℤ pos 1) max_value else value

-- The sign extension of `read_int_bits`, with `UINT64_MAX << p_bits` cut to 64 bits.
unfoldable pub extend_int_bits : ℕ → ℕ → ℤ
extend_int_bits n value =
    if not (n == 64) && not (bit_and value (1 * 2 ^ (n - 1)) == 0)
    then of_word 63 (bit_or value ((2 ^ 64 - 1) * 2 ^ n % 2 ^ 64))
    else of_word 63 value

unfoldable pub read_bool : TickDataBuffer → TickDataBuffer × Bool
read_bool s =
    let (s, ready) = check_reading s (pos 1) in
    if not ready then (s, false) else let (s', value) = fetch_bits s 1 in (s', not (value == 0))

unfoldable pub read_int : TickDataBuffer → CompressionLevel → TickDataBuffer × ℤ
read_int s level =
    let bits = get_bit_taken data_type_int level in
    if not (is_valid_compression_level level)
    then (s, pos 0)
    else let (s, ready) = check_reading s (pos bits) in
      if not ready
      then (s, pos 0)
      else let (s', value) = fetch_bits s bits in (s', extend_int bits value)

unfoldable pub read_uint : TickDataBuffer → CompressionLevel → TickDataBuffer × ℕ
read_uint s level =
    let bits = get_bit_taken data_type_uint level in
    if not (is_valid_compression_level level)
    then (s, 0)
    else let (s, ready) = check_reading s (pos bits) in
      if not ready then (s, 0) else fetch_bits s bits

unfoldable pub read_uint_bits : TickDataBuffer → ℤ → TickDataBuffer × ℕ
read_uint_bits s bits =
    if is_bad_width bits
    then (s, 0)
    else let (s, ready) = check_reading s bits in
      if not ready then (s, 0) else fetch_bits s (pos_part bits)

unfoldable pub read_int_bits : TickDataBuffer → ℤ → TickDataBuffer × ℤ
read_int_bits s bits =
    if is_bad_width bits
    then (s, pos 0)
    else let (s, ready) = check_reading s bits in
      if not ready
      then (s, pos 0)
      else let (s', value) = fetch_bits s (pos_part bits) in
        (s', extend_int_bits (pos_part bits) value)

module _ (v : ByteVector) where
  unfoldable pub add_bool : TickDataBuffer → Bool → TickDataBuffer × Bool
  add_bool s input =
      let (s, writing) = check_writing s in
      if not writing then (s, input) else (write_bits v s (if input then 1 else 0) 1, input)

  unfoldable pub add_int : TickDataBuffer → ℤ → CompressionLevel → TickDataBuffer × ℤ
  add_int s input level =
      if not (is_valid_compression_level level)
      then (s, input)
      else let (s, writing) = check_writing s in
        let bits = get_bit_taken data_type_int level in
        let value = clamp_int bits input in
        if not writing then (s, input) else (write_bits v s (to_word 64 value) bits, value)

  unfoldable pub add_uint : TickDataBuffer → ℕ → CompressionLevel → TickDataBuffer × ℕ
  add_uint s input level =
      if not (is_valid_compression_level level)
      then (s, input)
      else let (s, writing) = check_writing s in
        let bits = get_bit_taken data_type_uint level in
        let value = clamp_uint bits input in
        if not writing then (s, input) else (write_bits v s value bits, value)

  unfoldable pub add_uint_bits : TickDataBuffer → ℕ → ℤ → TickDataBuffer × ℕ
  add_uint_bits s input bits =
      if is_bad_width bits
      then (s, input)
      else let (s, writing) = check_writing s in
        let value = min input (max_uint_bits (pos_part bits)) in
        if not writing then (s, input) else (write_bits v s value (pos_part bits), value)

  unfoldable pub add_int_bits : TickDataBuffer → ℤ → ℤ → TickDataBuffer × ℤ
  add_int_bits s input bits =
      if is_bad_width bits
      then (s, input)
      else let (s, writing) = check_writing s in
        let value = clamp_int_bits (pos_part bits) input in
        if not writing
        then (s, input)
        else (write_bits v s (to_word 64 value) (pos_part bits), value)
