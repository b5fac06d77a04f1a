-- ===== src/DataBuffer/Slices.antt =====
-- `TickDataBuffer::slice`: the bits of one buffer appended to another, 64 at a time.
use mathlib.Core.List.{append-nil}
use tick_synchronizer.Prelude.{
  ℕ, zero, suc, ◌+◌, ◌-◌, ◌*◌, ◌≤◌, ◌<◌, min, ◌≡◌, refl, sym, ap, ap₂, ◌∙◌, subst, true, false,
  ◌||◌, [], ◌++◌, length, ltb, arith, Bool-cases, inl, inr,
}
use tick_synchronizer.Prelude.Int.{pos, ltb_ℤ, ◌-ℤ◌}
use tick_synchronizer.Bits.{testbit}
use tick_synchronizer.Bits.Stream.{bits_from, word_bits, bits_from-append, bits_from_ext}
use tick_synchronizer.BitArray.{ByteVector, IsBytes, read_bits}
use tick_synchronizer.BitArray.Window.{bit_at}
use tick_synchronizer.BitArray.Read.{read_bits-Reads}
use tick_synchronizer.DataBuffer.{TickDataBuffer, total_size, slice, slice_loop, write_bits}
use tick_synchronizer.DataBuffer.Stream.{written, IsAppending, Appends, write_bits-Appends}
use tick_synchronizer.DataBuffer.SentStrings.{Appends-trans, check_writing-ready}

-- The bits read at an index are the low bits of the value.
read_bits-word_bits :
    (s : TickDataBuffer) (from n : ℕ)
    → IsBytes s.buffer.bytes
    → 0 < n
    → n ≤ 64
    → from + n ≤ 8 * length s.buffer.bytes
    → word_bits n (read_bits s.buffer (pos from) (pos n) 0).0
      ≡ bits_from (bit_at s.buffer.bytes) from n
unfolding word_bits
read_bits-word_bits s from n b p q fits =
    let x = (read_bits s.buffer (pos from) (pos n) 0).0 in
    let h = read_bits-Reads s.buffer from n 0 b (record { some_bits = p; word = q; fits = fits }) in
    bits_from_ext (testbit x) (bit_at s.buffer.bytes) 0 from n
      (λ k lt. ground (arith, h.bits (0 + k)))

-- Bits from an offset on: those of one round, then those of the next rounds.
bits_from_round :
    (f : ℕ → ℕ) (from offset count : ℕ)
    → bits_from f (from + offset) (count - offset)
      ≡ bits_from f (from + offset) (min 64 (count - offset))
        ++ bits_from f (from + (offset + 64)) (count - (offset + 64))
bits_from_round f from offset count =
    let n = min 64 (count - offset) in
    let m = count - (offset + 64) in
    ap (bits_from f (from + offset)) {y = n + m} (omega arith)
    ∙ bits_from-append f (from + offset) n m
    ∙ ap (λ xs. bits_from f (from + offset) n ++ xs)
        (bits_from_ext f f (from + offset + n) (from + (offset + 64)) m
          (λ k lt. ap f (omega arith)))

Appends-refl : (s : TickDataBuffer) → IsAppending s → Appends s [] s
Appends-refl s a = record {
  appending = a;
  same_metadata = refl;
  moved = omega arith;
  more = sym (append-nil (written s));
}

module _ (v : ByteVector) (s : TickDataBuffer) (from count : ℕ) (b : IsBytes s.buffer.bytes)
    (fits : from + count ≤ 8 * length s.buffer.bytes) where
  -- The rounds from an offset on append all that is left.
  slice_loop-Appends :
      (fuel offset : ℕ) (t : TickDataBuffer)
      → count - offset < fuel
      → IsAppending t
      → Appends t
          (bits_from (bit_at s.buffer.bytes) (from + offset) (count - offset))
          (slice_loop v fuel offset s t from count)
  unfolding slice_loop
  slice_loop-Appends zero offset t l a = absurd (omega arith)
  slice_loop-Appends (suc fuel) offset t l a = elim (Bool-cases (ltb offset count)) [
    | inl e ↦
        let n = min 64 (count - offset) in
        let some : 0 < n = ground arith in
        let x = (read_bits s.buffer (pos (from + offset)) (pos n) 0).0 in
        let same = read_bits-word_bits s (from + offset) n b some (omega arith) (ground arith) in
        let one = write_bits-Appends v t x n a some (omega arith) in
        let rest =
          slice_loop-Appends fuel (offset + 64) (write_bits v t x n) (ground arith) one.appending in
        rw (e, bits_from_round (bit_at s.buffer.bytes) from offset count)
          (Appends-trans (subst (λ xs. Appends t xs (write_bits v t x n)) same one) rest)
    | inr e ↦
        let none : count - offset ≡ 0 = ground arith in
        rw (e, none) (unfold bits_from in Appends-refl t a)
  ]

-- Slicing a positive number of bits that lie inside the data of a buffer of bytes, its data inside
-- its storage, into a buffer that has been written from its beginning on and has not failed,
-- succeeds and appends exactly those bits in order.
pub slice-Appends :
    (v : ByteVector) (s destination : TickDataBuffer) (from count : ℕ)
    → IsBytes s.buffer.bytes
    → total_size s ≤ 8 * length s.buffer.bytes
    → IsAppending destination
    → 0 < count
    → from + count ≤ total_size s
    → Appends destination
        (bits_from (bit_at s.buffer.bytes) from count)
        (slice v s destination (pos from) (pos count)).0
      × ((slice v s destination (pos from) (pos count)).1 ≡ true)
unfolding slice ◌-ℤ◌
slice-Appends v s destination from count b stored a p inside =
    let few : ltb_ℤ (pos count) (pos 1) ≡ false = ground arith in
    let fits : (ltb_ℤ (pos from) (pos 0) || ltb_ℤ (pos (total_size s) -ℤ pos count) (pos from))
        ≡ false =
      ground arith in
    let e : from + 0 ≡ from = omega arith in
    let e' : count - 0 ≡ count = omega arith in
    let h =
      slice_loop-Appends v s from count b (omega arith) (suc count) 0 destination (omega arith) a in
    rw (few, fits, check_writing-ready destination a.writable.writing)
      (
        subst (λ xs. Appends destination xs (slice_loop v (suc count) 0 s destination from count))
            (ap₂ (bits_from (bit_at s.buffer.bytes)) e e') h,
        refl,
      )
