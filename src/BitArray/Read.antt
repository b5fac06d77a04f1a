-- ===== src/BitArray/Read.antt =====
-- `TickBitArray::read_bits`, both paths: what a read finds.
use tick_synchronizer.Prelude.{
  ℕ, ◌+◌, ◌*◌, ◌/◌, ◌%◌, ◌^◌, ◌≤◌, ◌<◌, ◌≡◌, refl, true, Bool, length, ltb, if◌then◌else◌, arith,
  Bool-cases, inl, inr, ◌↔◌, ◌⊎◌, bit_and,
}
use tick_synchronizer.Prelude.Int.{ℤ, pos, ◌≤ℤ◌}
use tick_synchronizer.Bits.{testbit, testbit-zero, lt_of_testbit}
use tick_synchronizer.BitArray.{
  TickBitArray, IsBytes, load_le64, low_bits_mask, fits_window, is_refused, read_slow_loop,
  read_bits, read_bits_slow,
}
use tick_synchronizer.BitArray.Window.{bit_at, load_le64-testbit, read_window-testbit}
use tick_synchronizer.BitArray.Slow.{read_slow_loop-testbit}
use tick_synchronizer.BitArray.Store.{
  Inside, is_refused-Inside, fits_window_lem, Accepts, guards_iff, guards_kept, max_count,
  fits_window-Accepts, is_refused_iff,
}

-- The read succeeded: its value has the `n` bits at `off`, and no other.
pub record Reads (a : TickBitArray) (off n : ℕ) (r : ℕ × Bool) : Type 0 where
  pub done : r.1 ≡ true
  pub fits_word : r.0 < 2 ^ n
  pub bits : (i : ℕ) → testbit r.0 i ≡ (if ltb i n then bit_at a.bytes (off + i) else 0)

Reads-of_bits :
    (a : TickBitArray) (off n x : ℕ)
    → ((i : ℕ) → testbit x i ≡ (if ltb i n then bit_at a.bytes (off + i) else 0))
    → Reads a off n (x, true)
Reads-of_bits a off n x h = record {
  done = refl;
  fits_word = lt_of_testbit n x (λ i k. ground (arith, h i));
  bits = h;
}

pub read_bits_slow-Reads :
    (a : TickBitArray) (off n out : ℕ)
    → Inside a off n
    → Reads a off n (read_bits_slow a (pos off) (pos n) out)
unfolding read_bits_slow
read_bits_slow-Reads a off n out i = rw (is_refused-Inside a off n i) (
    Reads-of_bits a off n (read_slow_loop n a.bytes n off 0 0) (λ j. ground (
      arith,
      read_slow_loop-testbit n a.bytes n off 0 0 j (omega arith) (omega arith),
      testbit-zero j,
    )))

-- A read of 1 to 64 bits inside an array of bytes succeeds, and its value has those bits and no
-- other.
pub read_bits-Reads :
    (a : TickBitArray) (off n out : ℕ)
    → IsBytes a.bytes
    → Inside a off n
    → Reads a off n (read_bits a (pos off) (pos n) out)
unfolding read_bits
read_bits-Reads a off n out b i = elim (Bool-cases (fits_window a (pos off) (pos n))) [
  | inl fast ↦
      let f = fits_window_lem a off n (omega (arith, i.word)) fast in
      rw fast (
        Reads-of_bits a off n
          (bit_and (load_le64 a.bytes (off / 8) / 2 ^ (off % 8)) (low_bits_mask n))
          (λ j. window_bits j (fits_window_lem a off n (omega (arith, i.word)) fast)))
  | inr slow ↦ rw slow (read_bits_slow-Reads a off n out i)
]
  where
    window_bits :
        (j : ℕ)
        → (0 < n) × (off % 8 + n ≤ 64) × (off / 8 + 8 ≤ length a.bytes)
        → testbit (bit_and (load_le64 a.bytes (off / 8) / 2 ^ (off % 8)) (low_bits_mask n)) j
          ≡ (if ltb j n then bit_at a.bytes (off + j) else 0)
    window_bits j f =
        let place : 8 * (off / 8) + (off % 8 + j) ≡ off + j = omega arith in
        ground (
          arith,
          read_window-testbit (load_le64 a.bytes (off / 8)) (off % 8) n j i.word,
          load_le64-testbit a.bytes (off / 8) (off % 8 + j) b,
          place,
        )

-- With any arguments, a read that does not succeed leaves `r_out` as it was.
pub read_bits_kept :
    (a : TickBitArray) (off bits : ℤ) (out : ℕ)
    → ((read_bits a off bits out).1 ≡ true) ⊎ ((read_bits a off bits out).0 ≡ out)
unfolding read_bits read_bits_slow
read_bits_kept a off bits out = guards_kept out _ _ (fits_window a off bits) (is_refused a off bits)

-- For any offset and a count of at most 2 ^ 31 - 8, where the sum of the window test cannot
-- overflow: a read succeeds exactly when it has 1 to 64 bits that lie inside the array, and when
-- it does not succeed it leaves `r_out` as it was.
pub read_bits_guards :
    (a : TickBitArray) (off bits : ℤ) (out : ℕ)
    → bits ≤ℤ pos max_count
    → (((read_bits a off bits out).1 ≡ true) ↔ Accepts a off bits)
      × (((read_bits a off bits out).1 ≡ true) ⊎ ((read_bits a off bits out).0 ≡ out))
unfolding read_bits read_bits_slow
read_bits_guards a off bits out m = (
  guards_iff out _ _ (fits_window a off bits) (is_refused a off bits) (Accepts a off bits)
      (fits_window-Accepts a off bits m) (is_refused_iff a off bits),
  read_bits_kept a off bits out,
)
