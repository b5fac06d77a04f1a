-- ===== src/BitArray/Resize.antt =====
-- `TickBitArray::resize_in_bits`: whole bytes, the bits of both sizes kept.
use tick_synchronizer.Prelude.{
  ℕ, ◌+◌, ◌*◌, ◌/◌, ◌%◌, ◌<◌, ◌≡◌, true, length, ◌==◌, not, if◌then◌else◌, arith, Bool, false,
}
use tick_synchronizer.Prelude.Int.{pos, negsuc}
use tick_synchronizer.BitArray.{ByteVector, TickBitArray, IsBytes, resize_in_bits}
use tick_synchronizer.BitArray.Window.{bit_at}

-- Room for `n` bits, rounded up to whole bytes, with the bits below `n` that were there.
pub record Resizes (a : TickBitArray) (n : ℕ) (r : TickBitArray × Bool) : Type 0 where
  pub done : r.1 ≡ true
  pub size : length r.0.bytes ≡ (n + 7) / 8
  pub in_range : IsBytes r.0.bytes
  pub kept : (k : ℕ) → k < n → k < 8 * length a.bytes → bit_at r.0.bytes k ≡ bit_at a.bytes k

module _ (v : ByteVector) where
  -- Resizing an array of bytes to a number of bits that is not negative gives that number rounded
  -- up to whole bytes, and keeps the bits that both sizes have, whatever the engine's array puts
  -- in new bytes.
  pub resize_in_bits-Resizes :
      (a : TickBitArray) (n : ℕ) → IsBytes a.bytes → Resizes a n (resize_in_bits v a (pos n))
  unfolding resize_in_bits bit_at
  resize_in_bits-Resizes a n b = record {
    done = ground arith;
    size = ground (arith, v.resized a.bytes (n / 8 + (if not (n % 8 == 0) then 1 else 0)));
    in_range =
        λ j. ground (arith, v.in_range a.bytes (n / 8 + (if not (n % 8 == 0) then 1 else 0)) b j);
    kept = λ k p q.
        ground (arith, v.kept a.bytes (n / 8 + (if not (n % 8 == 0) then 1 else 0)) (k / 8));
  }

  -- A negative size changes nothing.
  pub resize_in_bits_negative :
      (a : TickBitArray) (n : ℕ) → resize_in_bits v a (negsuc n) ≡ (a, false)
  unfolding resize_in_bits
  resize_in_bits_negative a n = ground arith
