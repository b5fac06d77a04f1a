-- ===== src/BitArray.antt =====
-- source/common/tick_bit_array.h and tick_bit_array.cpp: `TickBitArray`, a growable array of bits.
-- An `int` that the source tests for its sign is an integer here; a byte is a number below 256. The
-- one sum of `int`s here that can overflow, in `fits_window`, is taken to wrap around.
-- `LocalVector::resize` belongs to the engine: it is the parameter `ByteVector`.
pub mod Window
pub mod Slow
pub mod Store
pub mod Read
pub mod Paths
pub mod Resize
use tick_synchronizer.Prelude.{
  ℕ, zero, suc, ◌+◌, ◌-◌, ◌*◌, ◌/◌, ◌%◌, ◌^◌, ◌<◌, min, bit_and, bit_or, ◌≡◌, Bool, true, false,
  ◌&&◌, ◌||◌, List, [], length, get_or, set, replicate, ltb, leb, ◌==◌, not, if◌then◌else◌,
}
use tick_synchronizer.Prelude.Int.{ℤ, pos, pos_part, sub_ℕ, ltb_ℤ, leb_ℤ}
use tick_synchronizer.Prelude.Words.{of_word}

-- Every byte is in range; past the end a read gives 0.
abbrev pub IsBytes : List ℕ → Type 0
IsBytes bs = (j : ℕ) → get_or bs j 0 < 256

-- What the engine's `LocalVector<uint8_t>::resize` promises: the new size, and the elements that
-- both sizes have. New bytes hold anything.
pub record ByteVector : Type 0 where
  pub resize : List ℕ → ℕ → List ℕ
  pub resized : (bs : List ℕ) (n : ℕ) → length (resize bs n) ≡ n
  pub kept :
      (bs : List ℕ) (n j : ℕ) → j < n → j < length bs → get_or (resize bs n) j 0 ≡ get_or bs j 0
  pub in_range : (bs : List ℕ) (n : ℕ) → IsBytes bs → IsBytes (resize bs n)

pub record TickBitArray : Type 0 where
  pub bytes : List ℕ

-- The eight rounds of `load_le64`, from byte `i`.
unfoldable pub load_loop : ℕ → ℕ → ℕ → List ℕ → ℕ → ℕ
load_loop zero i value bs o = value
load_loop (suc rounds) i value bs o =
    load_loop rounds (i + 1) (bit_or value (get_or bs (o + i) 0 * 2 ^ (8 * i) % 2 ^ 64)) bs o

unfoldable pub load_le64 : List ℕ → ℕ → ℕ
unfolding load_loop
load_le64 bs o = load_loop 8 0 0 bs o

-- The eight rounds of `store_le64`, from byte `i`.
unfoldable pub store_le_loop : ℕ → ℕ → List ℕ → ℕ → ℕ → List ℕ
store_le_loop zero i bs o value = bs
store_le_loop (suc rounds) i bs o value =
    store_le_loop rounds (i + 1) (set bs (o + i) (value / 2 ^ (8 * i) % 2 ^ 8)) o value

unfoldable pub store_le64 : List ℕ → ℕ → ℕ → List ℕ
unfolding store_le_loop
store_le64 bs o value = store_le_loop 8 0 bs o value

unfoldable pub low_bits_mask : ℕ → ℕ
low_bits_mask n = if leb 64 n then 2 ^ 64 - 1 else 1 * 2 ^ n - 1

unfoldable pub size_in_bytes : TickBitArray → ℕ
size_in_bytes a = length a.bytes

unfoldable pub size_in_bits : TickBitArray → ℕ
size_in_bits a = length a.bytes * 8

-- The sum is an `int`: it overflows for a count near 2 ^ 31.
unfoldable pub fits_window : TickBitArray → ℤ → ℤ → Bool
unfolding of_word
fits_window a bit_offset bits =
    leb_ℤ (pos 0) bit_offset
    && ltb_ℤ (pos 0) bits
    && leb_ℤ (of_word 31 ((pos_part bit_offset % 8 + pos_part bits) % 2 ^ 32)) (pos 64)
    && leb (pos_part bit_offset / 8 + 8) (length a.bytes)

-- One byte of `store_bits_slow`: `n` bits of `value` put at bit `jump` of `byte`.
unfoldable pub store_byte : ℕ → ℕ → ℕ → ℕ → ℕ
store_byte byte value jump n =
    let byte_mask : ℕ = (2 ^ n - 1) * 2 ^ jump % 2 ^ 8 in
    let byte_value : ℕ = bit_and (bit_and value 0xFF * 2 ^ jump) byte_mask % 2 ^ 8 in
    bit_or (bit_and byte (2 ^ 32 - 1 - byte_mask)) byte_value % 2 ^ 8

-- The loop of `store_bits_slow`: at most one round for each bit that is left.
unfoldable pub store_slow_loop : ℕ → List ℕ → ℕ → ℕ → ℕ → List ℕ
store_slow_loop zero bs bits bit_offset value = bs
store_slow_loop (suc fuel) bs bits bit_offset value =
    let jump = bit_offset % 8 in
    let n = min bits (8 - jump) in
    let o = bit_offset / 8 in
    let rest =
      store_slow_loop fuel (set bs o (store_byte (get_or bs o 0) value jump n)) (bits - n)
        (bit_offset + n) (value / 2 ^ n) in
    if ltb 0 bits then rest else bs

-- The three guards of both slow paths: the offset, the count, the end of the array.
unfoldable pub is_refused : TickBitArray → ℤ → ℤ → Bool
unfolding size_in_bits
is_refused a bit_offset bits =
    ltb_ℤ bit_offset (pos 0)
    || (leb_ℤ bits (pos 0) || ltb_ℤ (pos 64) bits)
    || ltb_ℤ (sub_ℕ (size_in_bits a) (pos_part bits)) bit_offset

unfoldable pub store_bits_slow : TickBitArray → ℤ → ℕ → ℤ → TickBitArray × Bool
unfolding is_refused store_slow_loop store_byte
store_bits_slow a bit_offset value bits = if is_refused a bit_offset bits then (a, false) else (
  record {
    bytes = store_slow_loop (pos_part bits) a.bytes (pos_part bits) (pos_part bit_offset) value;
  },
  true,
)

-- The window of the fast path with `n` bits of `value` put at bit `shift`.
unfoldable pub store_window : ℕ → ℕ → ℕ → ℕ → ℕ
unfolding low_bits_mask
store_window window value shift n =
    let mask : ℕ = low_bits_mask n * 2 ^ shift % 2 ^ 64 in
    bit_or (bit_and window (2 ^ 64 - 1 - mask)) (bit_and (value * 2 ^ shift % 2 ^ 64) mask)

unfoldable pub store_bits : TickBitArray → ℤ → ℕ → ℤ → TickBitArray × Bool
unfolding fits_window store_window load_le64 store_le64 store_bits_slow
store_bits a bit_offset value bits =
    if fits_window a bit_offset bits
    then (
      let o = pos_part bit_offset / 8 in
          record {
            bytes = store_le64 a.bytes o (
                store_window (load_le64 a.bytes o) value (pos_part bit_offset % 8) (pos_part bits));
          },
      true,
    )
    else store_bits_slow a bit_offset value bits

-- The loop of `read_bits_slow`.
unfoldable pub read_slow_loop : ℕ → List ℕ → ℕ → ℕ → ℕ → ℕ → ℕ
read_slow_loop zero bs bits bit_offset value_shift value = value
read_slow_loop (suc fuel) bs bits bit_offset value_shift value =
    let jump = bit_offset % 8 in
    let n = min bits (8 - jump) in
    let byte_value = bit_and (get_or bs (bit_offset / 8) 0 / 2 ^ jump) (2 ^ n - 1) in
    let rest =
      read_slow_loop fuel bs (bits - n) (bit_offset + n) (value_shift + n)
        (bit_or value (byte_value * 2 ^ value_shift % 2 ^ 64)) in
    if ltb 0 bits then rest else value

-- A read is given what `r_out` holds, and leaves that in place when it fails.
unfoldable pub read_bits_slow : TickBitArray → ℤ → ℤ → ℕ → ℕ × Bool
unfolding is_refused read_slow_loop
read_bits_slow a bit_offset bits out =
    if is_refused a bit_offset bits
    then (out, false)
    else (read_slow_loop (pos_part bits) a.bytes (pos_part bits) (pos_part bit_offset) 0 0, true)

unfoldable pub read_bits : TickBitArray → ℤ → ℤ → ℕ → ℕ × Bool
unfolding fits_window load_le64 low_bits_mask read_bits_slow
read_bits a bit_offset bits out =
    if fits_window a bit_offset bits
    then (
      bit_and (load_le64 a.bytes (pos_part bit_offset / 8) / 2 ^ (pos_part bit_offset % 8))
          (low_bits_mask (pos_part bits)),
      true,
    )
    else read_bits_slow a bit_offset bits out

unfoldable pub zero_bytes : TickBitArray → TickBitArray
zero_bytes a = record { bytes = replicate (length a.bytes) 0 }

module _ (v : ByteVector) where
  unfoldable pub resize_in_bytes : TickBitArray → ℤ → TickBitArray × Bool
  resize_in_bytes a count =
      if ltb_ℤ count (pos 0)
      then (a, false)
      else (record { bytes = v.resize a.bytes (pos_part count) }, true)

  unfoldable pub resize_in_bits : TickBitArray → ℤ → TickBitArray × Bool
  resize_in_bits a count = if ltb_ℤ count (pos 0) then (a, false) else (
    record {
      bytes =
          v.resize a.bytes (pos_part count / 8 + (if not (pos_part count % 8 == 0) then 1 else 0));
    },
    true,
  )

  -- The constructor that takes a size in bits.
  unfoldable pub of_size_in_bits : ℤ → TickBitArray
  unfolding resize_in_bits
  of_size_in_bits count = (resize_in_bits (record { bytes = [] }) count).0
