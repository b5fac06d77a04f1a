-- ===== src/Bits.antt =====
-- The bits of a number, and what `|`, `&`, `<<`, `>>`, `~` and a low mask do to each of them.
pub mod Step
pub mod Stream
pub mod Words
use Step.{bit_or_step, bit_and_step}
use native.Mathlib.Nat.{
  pow-suc, one-le-pow, div-div-eq-div-mul, mul-div-le, mod_def, mod-eq_of_lt, mod-lt,
  pow-le-pow_right,
}
use tick_synchronizer.Prelude.{
  ℕ, zero, suc, ◌+◌, ◌-◌, ◌*◌, ◌/◌, ◌%◌, ◌^◌, ◌≤◌, ◌<◌, min, max, bit_and, bit_or, ◌≡◌, refl, sym,
  ap, ap₂, ◌∙◌, arith, ltb, leb, ◌==◌, ◌&&◌, if◌then◌else◌,
}

-- Bit `i` of `x`, 0 or 1.
unfoldable pub testbit : ℕ → ℕ → ℕ
testbit x zero = x % 2
testbit x (suc i) = testbit (x / 2) i

pub testbit-le_one : (x i : ℕ) → testbit x i ≤ 1
unfolding testbit
testbit-le_one x zero = omega arith
testbit-le_one x (suc i) = testbit-le_one (x / 2) i

pub testbit-zero : (i : ℕ) → testbit 0 i ≡ 0
unfolding testbit
testbit-zero zero = refl
testbit-zero (suc i) = testbit-zero i

pub testbit-bit_or : (a b i : ℕ) → testbit (bit_or a b) i ≡ max (testbit a i) (testbit b i)
unfolding testbit
testbit-bit_or a b zero = omega (arith, bit_or_step a b)
testbit-bit_or a b (suc i) =
    let e : bit_or a b / 2 ≡ bit_or (a / 2) (b / 2) = omega (arith, bit_or_step a b) in
    rw e (testbit-bit_or (a / 2) (b / 2) i)

pub testbit-bit_and : (a b i : ℕ) → testbit (bit_and a b) i ≡ min (testbit a i) (testbit b i)
unfolding testbit
testbit-bit_and a b zero = omega (arith, bit_and_step a b)
testbit-bit_and a b (suc i) =
    let e : bit_and a b / 2 ≡ bit_and (a / 2) (b / 2) = omega (arith, bit_and_step a b) in
    rw e (testbit-bit_and (a / 2) (b / 2) i)

-- x << s
pub testbit-shift_left :
    (s x i : ℕ) → testbit (x * 2 ^ s) i ≡ (if ltb i s then 0 else testbit x (i - s))
unfolding testbit
testbit-shift_left zero x zero = ground arith
testbit-shift_left zero x (suc i) = ground arith
testbit-shift_left (suc s) x zero = ground (arith, ap (λ (t : ℕ). x * t) (pow-suc 2 s))
testbit-shift_left (suc s) x (suc i) =
    let e : x * 2 ^ suc s / 2 ≡ x * 2 ^ s = omega (arith, ap (λ (t : ℕ). x * t) (pow-suc 2 s)) in
    rw e (ground (arith, testbit-shift_left s x i))

-- One digit off the quotient and the remainder by a power of two.
div-pow-suc : (s x : ℕ) → x / 2 ^ suc s ≡ x / 2 / 2 ^ s
div-pow-suc s x =
    let e : 2 ^ suc s ≡ 2 * 2 ^ s = omega (arith, pow-suc 2 s) in
    rw e (sym (div-div-eq-div-mul x 2 (2 ^ s)))

mod-pow-suc : (w x : ℕ) → x % 2 ^ suc w ≡ x / 2 % 2 ^ w * 2 + x % 2
mod-pow-suc w x = omega (
  arith,
  mod_def x (2 ^ suc w),
  mod_def (x / 2) (2 ^ w),
  div-pow-suc w x,
  ap (λ (t : ℕ). t * (x / 2 / 2 ^ w)) (pow-suc 2 w),
  ap (λ (t : ℕ). 2 ^ suc w * t) (div-pow-suc w x),
  mul-div-le (x / 2) (2 ^ w),
)

-- x >> s
pub testbit-shift_right : (s x i : ℕ) → testbit (x / 2 ^ s) i ≡ testbit x (s + i)
testbit-shift_right zero x i = ap₂ testbit (omega arith) (omega arith)
testbit-shift_right (suc s) x i =
    rw (div-pow-suc s x) (testbit-shift_right s (x / 2) i ∙ sym (testbit-suc_add s x i))
  where
    testbit-suc_add : (s x i : ℕ) → testbit x (suc s + i) ≡ testbit (x / 2) (s + i)
    testbit-suc_add s x i =
        let e : suc s + i ≡ suc (s + i) = omega arith in rw e (unfold testbit in refl)

-- x % 2 ^ w keeps the bits below w.
pub testbit-mod : (w x i : ℕ) → testbit (x % 2 ^ w) i ≡ (if ltb i w then testbit x i else 0)
unfolding testbit
testbit-mod zero x i = let e : x % 1 ≡ 0 = omega arith in rw e (ground (arith, testbit-zero i))
testbit-mod (suc w) x zero = ground (arith, mod-pow-suc w x)
testbit-mod (suc w) x (suc i) =
    let e : x % 2 ^ suc w / 2 ≡ x / 2 % 2 ^ w = omega (arith, mod-pow-suc w x) in
    rw e (ground (arith, testbit-mod w (x / 2) i))

-- A number below 2 ^ w has no bit from w on.
pub testbit_above : (w x i : ℕ) → x < 2 ^ w → w ≤ i → testbit x i ≡ 0
testbit_above w x i h k =
    let e : x % 2 ^ w ≡ x = mod-eq_of_lt h in ap (λ t. testbit t i) (sym e) ∙ above
  where
    above : testbit (x % 2 ^ w) i ≡ 0
    above = ground (arith, testbit-mod w x i)

-- (1 << n) - 1
pub testbit-low_mask : (n i : ℕ) → testbit (2 ^ n - 1) i ≡ (if ltb i n then 1 else 0)
unfolding testbit
testbit-low_mask zero i = ground (arith, testbit-zero i)
testbit-low_mask (suc n) zero = ground (arith, pow-suc 2 n, one-le-pow n 2)
testbit-low_mask (suc n) (suc i) =
    let e : (2 ^ suc n - 1) / 2 ≡ 2 ^ n - 1 = omega (arith, pow-suc 2 n, one-le-pow n 2) in
    rw e (ground (arith, testbit-low_mask n i))

-- ~m at w bits
pub testbit_complement :
    (w m i : ℕ) → m < 2 ^ w → i < w → testbit (2 ^ w - 1 - m) i ≡ 1 - testbit m i
unfolding testbit
testbit_complement zero m i h k = absurd (omega arith)
testbit_complement (suc w) m zero h k = omega (arith, pow-suc 2 w, one-le-pow w 2)
testbit_complement (suc w) m (suc i) h k =
    let e : (2 ^ suc w - 1 - m) / 2 ≡ 2 ^ w - 1 - m / 2 =
      omega (arith, pow-suc 2 w, one-le-pow w 2) in
    rw e (testbit_complement w (m / 2) i (omega (arith, pow-suc 2 w, one-le-pow w 2)) (omega arith))

-- Numbers below 2 ^ w with the same bits are equal.
pub testbit_ext :
    (w a b : ℕ) → a < 2 ^ w → b < 2 ^ w → ((i : ℕ) → i < w → testbit a i ≡ testbit b i) → a ≡ b
unfolding testbit
testbit_ext zero a b ha hb h = omega arith
testbit_ext (suc w) a b ha hb h =
    let halves : a / 2 ≡ b / 2 =
      testbit_ext w (a / 2) (b / 2) (omega (arith, pow-suc 2 w)) (omega (arith, pow-suc 2 w))
        (λ i k. h (suc i) (omega arith)) in
    omega (arith, h 0 (omega arith))

pub lt_two_pow : (n : ℕ) → n < 2 ^ n
lt_two_pow zero = omega arith
lt_two_pow (suc n) = omega (arith, lt_two_pow n, pow-suc 2 n)

lt_of_lt_le : {a b c : ℕ} → a < b → b ≤ c → a < c
lt_of_lt_le p q = omega arith

pub two_pow_mono : (a b : ℕ) → a ≤ b → 2 ^ a ≤ 2 ^ b
two_pow_mono a b k = pow-le-pow_right (omega arith) k

pub mod_two_pow-lt : (x w : ℕ) → x % 2 ^ w < 2 ^ w
mod_two_pow-lt x w = mod-lt x (one-le-pow w 2 (omega arith))

-- A number all of whose bits from w on are 0 is below 2 ^ w.
pub lt_of_testbit : (w x : ℕ) → ((i : ℕ) → w ≤ i → testbit x i ≡ 0) → x < 2 ^ w
lt_of_testbit w x z =
    let e : x ≡ x % 2 ^ w =
      testbit_ext (x + w) x (x % 2 ^ w)
        (lt_of_lt_le (lt_two_pow x) (two_pow_mono x (x + w) (omega arith)))
        (lt_of_lt_le (mod_two_pow-lt x w) (two_pow_mono w (x + w) (omega arith)))
        (λ i k. ground (arith, testbit-mod w x i, z i)) in
    rw e (mod_two_pow-lt x w)

-- Where the mask has a 1, `(old & ~mask) | (new & mask)` has the bit of `new`, and else that of `old`.
pub testbit_merge :
    (w old new mask j : ℕ)
    → mask < 2 ^ w
    → j < w
    → testbit (bit_or (bit_and old (2 ^ w - 1 - mask)) (bit_and new mask)) j
      ≡ (if testbit mask j == 1 then testbit new j else testbit old j)
testbit_merge w old new mask j h k = ground (
  arith,
  testbit-bit_or (bit_and old (2 ^ w - 1 - mask)) (bit_and new mask) j,
  testbit-bit_and old (2 ^ w - 1 - mask) j,
  testbit-bit_and new mask j,
  testbit_complement w mask j h k,
  testbit-le_one old j,
  testbit-le_one new j,
  testbit-le_one mask j,
)

-- `n` ones from bit `s` on.
pub testbit_ones_at :
    (n s j : ℕ) → testbit ((2 ^ n - 1) * 2 ^ s) j ≡ (if leb s j && ltb j (s + n) then 1 else 0)
testbit_ones_at n s j =
    ground (arith, testbit-shift_left s (2 ^ n - 1) j, testbit-low_mask n (j - s))

pub bit_and-lt : (w a m : ℕ) → m < 2 ^ w → bit_and a m < 2 ^ w
bit_and-lt w a m h =
    lt_of_testbit w (bit_and a m)
      (λ i k. omega (arith, testbit-bit_and a m i, testbit_above w m i h k))
