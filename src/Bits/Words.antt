-- ===== src/Bits/Words.antt =====
-- Signed words: cutting a word to its low bits and extending the sign gives the integer back.
use native.Mathlib.Nat.{mod-eq_of_lt, pow-suc, one-le-pow}
use tick_synchronizer.Prelude.{
  ℕ, suc, ◌-◌, ◌*◌, ◌%◌, ◌^◌, ◌≤◌, ◌<◌, max, bit_and, bit_or, ◌≡◌, ◌≢◌, refl, ap, arith, ltb, leb,
  ◌&&◌, if◌then◌else◌,
}
use tick_synchronizer.Prelude.Int.{ℤ, pos, negsuc}
use tick_synchronizer.Prelude.Words.{to_word, of_word, IsInt}
use tick_synchronizer.Bits.{
  testbit, testbit-zero, testbit_ext, testbit-mod, testbit_complement, testbit_above,
  testbit-bit_and, testbit-bit_or, mod_two_pow-lt, two_pow_mono, bit_and-lt, lt_of_testbit,
  testbit-le_one, testbit_ones_at,
}

pub two_pow-pos : (w : ℕ) → 0 < 2 ^ w
two_pow-pos w = one-le-pow w 2 (omega arith)

-- The low bits of a complement are the complement at fewer bits.
complement-mod : (w m : ℕ) → w ≤ 64 → m < 2 ^ w → (2 ^ 64 - 1 - m) % 2 ^ w ≡ 2 ^ w - 1 - m
complement-mod w m h lt =
    testbit_ext w ((2 ^ 64 - 1 - m) % 2 ^ w) (2 ^ w - 1 - m) (mod_two_pow-lt (2 ^ 64 - 1 - m) w)
      (omega (arith, two_pow-pos w))
      (λ i k. ground (
        arith,
        testbit-mod w (2 ^ 64 - 1 - m) i,
        testbit_complement 64 m i (omega (arith, two_pow_mono w 64 h)) (omega arith),
        testbit_complement w m i lt k,
      ))

-- Cutting the 64-bit pattern of an integer that fits `w + 1` bits to its low `w + 1` bits.
pub to_word-mod :
    (w : ℕ) (a : ℤ) → w < 64 → IsInt w a → to_word 64 a % 2 ^ suc w ≡ to_word (suc w) a
unfolding to_word
to_word-mod w (pos n) h r =
    let fits : n < 2 ^ 64 = omega (arith, two_pow_mono w 64 (omega arith)) in
    rw (mod-eq_of_lt fits) refl
to_word-mod w (negsuc n) h r =
    let fits : n < 2 ^ 64 = omega (arith, two_pow_mono w 64 (omega arith)) in
    let fits' : n < 2 ^ suc w = omega (arith, pow-suc 2 w) in
    rw (mod-eq_of_lt fits, mod-eq_of_lt fits') (complement-mod (suc w) n (omega arith) fits')

pub of_word-to_word : (w : ℕ) (a : ℤ) → IsInt w a → of_word w (to_word (suc w) a) ≡ a
unfolding of_word to_word
of_word-to_word w (pos n) r =
    rw (mod-eq_of_lt {n = n} {m = 2 ^ suc w} (omega (arith, pow-suc 2 w))) (ground arith)
of_word-to_word w (negsuc n) r =
    rw (mod-eq_of_lt {n = n} {m = 2 ^ suc w} (omega (arith, pow-suc 2 w)))
      (ground (arith, pow-suc 2 w))

-- The test of one bit by a mask.
pub bit_and-two_pow-zero : (x k : ℕ) → testbit x k ≡ 0 → bit_and x (1 * 2 ^ k) ≡ 0
bit_and-two_pow-zero x k h =
    testbit_ext (suc k) (bit_and x (1 * 2 ^ k)) 0
      (bit_and-lt (suc k) x (1 * 2 ^ k) (omega (arith, pow-suc 2 k, two_pow-pos k)))
      (two_pow-pos (suc k))
      (λ i p.
        ground (arith, testbit-bit_and x (1 * 2 ^ k) i, testbit_ones_at 1 k i, testbit-zero i))

pub bit_and-two_pow-ne : (x k : ℕ) → testbit x k ≡ 1 → bit_and x (1 * 2 ^ k) ≢ 0
bit_and-two_pow-ne x k h e =
    omega (arith, ap (λ t. testbit t k) e, testbit-bit_and x (1 * 2 ^ k) k, one_at, testbit-zero k)
  where
    one_at : testbit (1 * 2 ^ k) k ≡ 1
    one_at = ground (arith, testbit_ones_at 1 k k)

-- `x | (~0 << n)` at 64 bits, for an `x` whose low bits are the complement of `m`'s.
pub sign_extension :
    (n m : ℕ)
    → n ≤ 64
    → m < 2 ^ n
    → bit_or (2 ^ n - 1 - m) ((2 ^ 64 - 1) * 2 ^ n % 2 ^ 64) ≡ 2 ^ 64 - 1 - m
sign_extension n m h lt =
    testbit_ext 64 (bit_or (2 ^ n - 1 - m) ((2 ^ 64 - 1) * 2 ^ n % 2 ^ 64)) (2 ^ 64 - 1 - m)
      (lt_of_testbit 64 _ (λ i k.
        ground
          (arith, extended i, testbit_above n (2 ^ n - 1 - m) i (omega (arith, two_pow-pos n)))))
      (omega arith)
      (λ i k. ground (
        arith,
        extended i,
        testbit_complement 64 m i (omega (arith, two_pow_mono n 64 h)) k,
        testbit_complement n m i lt,
        testbit_above n m i lt,
        testbit_above n (2 ^ n - 1 - m) i (omega (arith, two_pow-pos n)),
        testbit-le_one (2 ^ n - 1 - m) i,
      ))
  where
    extended :
        (i : ℕ)
        → testbit (bit_or (2 ^ n - 1 - m) ((2 ^ 64 - 1) * 2 ^ n % 2 ^ 64)) i
          ≡ max (testbit (2 ^ n - 1 - m) i) (if leb n i && ltb i 64 then 1 else 0)
    extended i = ground (
      arith,
      testbit-bit_or (2 ^ n - 1 - m) ((2 ^ 64 - 1) * 2 ^ n % 2 ^ 64) i,
      testbit-mod 64 ((2 ^ 64 - 1) * 2 ^ n) i,
      testbit_ones_at 64 n i,
    )
