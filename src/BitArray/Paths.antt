-- ===== src/BitArray/Paths.antt =====
-- The fast and the slow path of `TickBitArray` are one function, and a read gives what a write put.
use tick_synchronizer.Prelude.{
  ℕ, ◌+◌, ◌-◌, ◌*◌, ◌/◌, ◌%◌, ◌^◌, ◌≤◌, ◌≡◌, refl, sym, ◌∙◌, true, Bool, List, length, get_or,
  get_or_ext, arith, Bool-cases, inl, inr, ◌⊎◌,
}
use tick_synchronizer.Prelude.Int.{ℤ, pos, negsuc, ◌+ℤ◌, ◌≤ℤ◌}
use tick_synchronizer.Bits.{testbit_ext, testbit-mod, mod_two_pow-lt}
use tick_synchronizer.BitArray.{
  TickBitArray, IsBytes, fits_window, store_bits, store_bits_slow, read_bits, read_bits_slow,
  size_in_bits,
}
use tick_synchronizer.BitArray.Window.{bit_at}
use tick_synchronizer.BitArray.Store.{
  Inside, Stores, Accepts, store_bits-Stores, store_bits_slow-Stores, fits_window-Accepts,
  max_count,
}
use tick_synchronizer.BitArray.Read.{Reads, read_bits-Reads, read_bits_slow-Reads}

-- Arrays of one size with the same bits are equal.
pub bit_at_ext :
    (xs ys : List ℕ)
    → length xs ≡ length ys
    → IsBytes xs
    → IsBytes ys
    → ((k : ℕ) → bit_at xs k ≡ bit_at ys k)
    → xs ≡ ys
unfolding bit_at
bit_at_ext xs ys e bx by h = get_or_ext 0 xs ys e λ j.
    testbit_ext 8 (get_or xs j 0) (get_or ys j 0) (bx j) (by j) λ i p.
      let index : (8 * j + i) / 8 ≡ j = omega arith in
      let place : (8 * j + i) % 8 ≡ i = omega arith in ground (arith, h (8 * j + i), index, place)

Stores-unique :
    (a : TickBitArray) (off value n : ℕ) (r s : TickBitArray × Bool)
    → Stores a off value n r
    → Stores a off value n s
    → r ≡ s
Stores-unique a off value n r s p q =
    let same =
      bit_at_ext r.0.bytes s.0.bytes (omega (arith, p.same_size, q.same_size)) p.in_range q.in_range
        (λ k. p.bits k ∙ sym (q.bits k)) in
    ground (arith, same, p.done, q.done)

-- A call that the guards accept has an offset and a count that are natural numbers.
Accepts_cases :
    (P : ℤ → ℤ → Type 0) (a : TickBitArray) (off bits : ℤ)
    → Accepts a off bits
    → ((o n : ℕ) → Inside a o n → P (pos o) (pos n))
    → P off bits
unfolding ◌+ℤ◌ size_in_bits
Accepts_cases P a (pos o) (pos n) h p =
    p o n (record { some_bits = omega arith; word = omega arith; fits = ground arith })
Accepts_cases P a (negsuc o) bits h p = absurd (omega arith)
Accepts_cases P a (pos o) (negsuc n) h p = absurd (omega arith)

-- Over an array of bytes, a write with any offset, any value and a count of at most 2 ^ 31 - 8,
-- where the sum of the window test cannot overflow, does the same with the 64-bit window of the
-- fast path as byte by byte: the same array and the same success.
pub store_bits-eq-store_bits_slow :
    (a : TickBitArray) (off : ℤ) (value : ℕ) (bits : ℤ)
    → IsBytes a.bytes
    → bits ≤ℤ pos max_count
    → store_bits a off value bits ≡ store_bits_slow a off value bits
store_bits-eq-store_bits_slow a off value bits b m = elim (Bool-cases (fits_window a off bits)) [
  | inl fast ↦
      Accepts_cases (λ off bits. store_bits a off value bits ≡ store_bits_slow a off value bits) a
        off bits (fits_window-Accepts a off bits m fast)
        (λ o n inside.
          Stores-unique a o value n _ _ (store_bits-Stores a o value n b inside)
            (store_bits_slow-Stores a o value n b inside))
  | inr slow ↦ unfold store_bits in rw slow
]

Reads-unique :
    (a : TickBitArray) (off n : ℕ) (r s : ℕ × Bool) → Reads a off n r → Reads a off n s → r ≡ s
Reads-unique a off n r s p q =
    let same = testbit_ext n r.0 s.0 p.fits_word q.fits_word (λ i h. p.bits i ∙ sym (q.bits i)) in
    ground (arith, same, p.done, q.done)

-- Over an array of bytes, a read with any offset and a count of at most 2 ^ 31 - 8, where the sum
-- of the window test cannot overflow, gives the same value and the same success by the fast path
-- as byte by byte.
pub read_bits-eq-read_bits_slow :
    (a : TickBitArray) (off bits : ℤ) (out : ℕ)
    → IsBytes a.bytes
    → bits ≤ℤ pos max_count
    → read_bits a off bits out ≡ read_bits_slow a off bits out
read_bits-eq-read_bits_slow a off bits out b m = elim (Bool-cases (fits_window a off bits)) [
  | inl fast ↦
      Accepts_cases (λ off bits. read_bits a off bits out ≡ read_bits_slow a off bits out) a off
        bits (fits_window-Accepts a off bits m fast)
        (λ o n inside.
          Reads-unique a o n _ _ (read_bits-Reads a o n out b inside)
            (read_bits_slow-Reads a o n out inside))
  | inr slow ↦ unfold read_bits in rw slow
]

Inside-resized :
    (a b : TickBitArray) (off n : ℕ)
    → length b.bytes ≡ length a.bytes
    → Inside a off n
    → Inside b off n
Inside-resized a b off n e i = record {
  some_bits = i.some_bits;
  word = i.word;
  fits = ground arith;
}

-- Over an array of bytes, reading 1 to 64 bits inside the array after writing them gives the value
-- written, cut to that many bits.
pub read_bits-store_bits :
    (a : TickBitArray) (off value n out : ℕ)
    → IsBytes a.bytes
    → Inside a off n
    → read_bits (store_bits a (pos off) value (pos n)).0 (pos off) (pos n) out
      ≡ (value % 2 ^ n, true)
read_bits-store_bits a off value n out b i =
    let w = store_bits-Stores a off value n b i in
    let stored = (store_bits a (pos off) value (pos n)).0 in
    let r =
      read_bits-Reads stored off n out w.in_range (Inside-resized a stored off n w.same_size i) in
    let there : (j : ℕ) → off + j - off ≡ j = λ j. omega arith in
    Reads-unique stored off n _ _ r (record {
      done = refl;
      fits_word = mod_two_pow-lt value n;
      bits = λ j. ground (arith, w.bits (off + j), testbit-mod n value j, there j);
    })

-- Over an array of bytes, a write of 1 to 64 bits inside the array does not change what is read
-- from 1 to 64 bits of the array that it does not overlap.
pub read_bits-store_bits_apart :
    (a : TickBitArray) (off value n off' n' out : ℕ)
    → IsBytes a.bytes
    → Inside a off n
    → Inside a off' n'
    → (off' + n' ≤ off) ⊎ (off + n ≤ off')
    → read_bits (store_bits a (pos off) value (pos n)).0 (pos off') (pos n') out
      ≡ read_bits a (pos off') (pos n') out
read_bits-store_bits_apart a off value n off' n' out b i i' apart =
    let w = store_bits-Stores a off value n b i in
    let stored = (store_bits a (pos off) value (pos n)).0 in
    let r =
      read_bits-Reads stored off' n' out w.in_range
        (Inside-resized a stored off' n' w.same_size i') in
    let old = read_bits-Reads a off' n' out b i' in
    Reads-unique a off' n' _ _
      (record {
        done = r.done;
        fits_word = r.fits_word;
        bits = λ j. ground (arith, r.bits j, w.bits (off' + j));
      })
      old
