-- ===== src/BitArray/Window.antt =====
-- The fast path of `TickBitArray`, bit by bit: the 64-bit window loaded, changed and stored.
use tick_synchronizer.Prelude.{
  ℕ, zero, suc, ◌+◌, ◌-◌, ◌*◌, ◌/◌, ◌%◌, ◌^◌, ◌≤◌, ◌<◌, max, bit_and, bit_or, ◌≡◌, refl, ◌∙◌, true,
  List, length, get_or, set, length-set, get_or-set, ltb, leb, ◌&&◌, if◌then◌else◌, arith,
}
use native.Mathlib.Decide.{ℕ_discrete}
use tick_synchronizer.Bits.{
  testbit, testbit-le_one, testbit-zero, testbit-bit_or, testbit-bit_and, testbit-shift_left,
  testbit-shift_right, testbit-mod, testbit_above, testbit-low_mask, mod_two_pow-lt, testbit_merge,
  testbit_ones_at,
}
use tick_synchronizer.BitArray.{
  IsBytes, load_loop, load_le64, store_le_loop, store_le64, low_bits_mask, store_window,
}

-- Bit `k` of the array: bit 0 is the least significant bit of byte 0.
unfoldable pub bit_at : List ℕ → ℕ → ℕ
bit_at bs k = testbit (get_or bs (k / 8) 0) (k % 8)

-- One byte that `load_le64` adds.
byte_shifted :
    (byte i j : ℕ)
    → byte < 256
    → testbit (byte * 2 ^ (8 * i) % 2 ^ 64) j
      ≡ (if ltb j 64 && (leb (8 * i) j && ltb j (8 * i + 8)) then testbit byte (j - 8 * i) else 0)
byte_shifted byte i j h = ground (
  arith,
  testbit-mod 64 (byte * 2 ^ (8 * i)) j,
  testbit-shift_left (8 * i) byte j,
  testbit_above 8 byte (j - 8 * i) h,
)

load_loop-testbit :
    (rounds i value : ℕ) (bs : List ℕ) (o j : ℕ)
    → IsBytes bs
    → i + rounds ≡ 8
    → j < 64
    → testbit (load_loop rounds i value bs o) j
      ≡ max (testbit value j) (if leb (8 * i) j then bit_at bs (8 * o + j) else 0)
unfolding load_loop bit_at
load_loop-testbit zero i value bs o j b e h = ground (arith)
load_loop-testbit (suc rounds) i value bs o j b e h =
    let index : leb (8 * i) j && ltb j (8 * i + 8) ≡ true → (8 * o + j) / 8 ≡ o + i =
      λ t. ground arith in
    ground (
      arith,
      load_loop-testbit rounds (i + 1) (bit_or value (get_or bs (o + i) 0 * 2 ^ (8 * i) % 2 ^ 64))
          bs o j b (omega arith) h,
      testbit-bit_or value (get_or bs (o + i) 0 * 2 ^ (8 * i) % 2 ^ 64) j,
      byte_shifted (get_or bs (o + i) 0) i j (b (o + i)),
      index,
    )

-- A loaded window holds the 64 bits from byte `o` on.
pub load_le64-testbit :
    (bs : List ℕ) (o j : ℕ)
    → IsBytes bs
    → j < 64
    → testbit (load_le64 bs o) j ≡ bit_at bs (8 * o + j)
unfolding load_le64
load_le64-testbit bs o j b h =
    ground (arith, load_loop-testbit 8 0 0 bs o j b (omega arith) h, testbit-zero j)

-- What `store_le64` leaves at each byte.
length-store_le_loop :
    (rounds i : ℕ) (bs : List ℕ) (o value : ℕ)
    → length (store_le_loop rounds i bs o value) ≡ length bs
unfolding store_le_loop
length-store_le_loop zero i bs o value = refl
length-store_le_loop (suc rounds) i bs o value =
    length-store_le_loop rounds (i + 1) (set bs (o + i) (value / 2 ^ (8 * i) % 2 ^ 8)) o value
    ∙ length-set bs (o + i) (value / 2 ^ (8 * i) % 2 ^ 8)

store_le_loop-get_or :
    (rounds i : ℕ) (bs : List ℕ) (o value j : ℕ)
    → o + i + rounds ≤ length bs
    → get_or (store_le_loop rounds i bs o value) j 0 ≡ (
        if leb (o + i) j && ltb j (o + i + rounds)
        then value / 2 ^ (8 * (j - o)) % 2 ^ 8
        else get_or bs j 0)
unfolding store_le_loop
store_le_loop-get_or zero i bs o value j h = ground arith
store_le_loop-get_or (suc rounds) i bs o value j h =
    let hit : o + i ≡ j → j - o ≡ i = λ e. omega arith in
    ground (
      arith,
      store_le_loop-get_or rounds (i + 1) (set bs (o + i) (value / 2 ^ (8 * i) % 2 ^ 8)) o value j
          (rw length-set (omega arith)),
      get_or-set bs (o + i) j (value / 2 ^ (8 * i) % 2 ^ 8) 0,
      hit,
    )

pub length-store_le64 : (bs : List ℕ) (o value : ℕ) → length (store_le64 bs o value) ≡ length bs
unfolding store_le64
length-store_le64 bs o value = length-store_le_loop 8 0 bs o value

pub store_le64-IsBytes :
    (bs : List ℕ) (o value : ℕ) → o + 8 ≤ length bs → IsBytes bs → IsBytes (store_le64 bs o value)
unfolding store_le64
store_le64-IsBytes bs o value h b j =
    ground (arith, store_le_loop-get_or 8 0 bs o value j (omega arith), b j)

-- A stored window sets the 64 bits from byte `o` on, and no other.
pub store_le64-bit_at :
    (bs : List ℕ) (o value k : ℕ)
    → o + 8 ≤ length bs
    → bit_at (store_le64 bs o value) k
      ≡ (if leb (8 * o) k && ltb k (8 * o + 64) then testbit value (k - 8 * o) else bit_at bs k)
unfolding store_le64 bit_at
store_le64-bit_at bs o value k h =
    let place : 8 * o ≤ k → 8 * (k / 8 - o) + k % 8 ≡ k - 8 * o = λ p. omega arith in
    ground (
      arith,
      store_le_loop-get_or 8 0 bs o value (k / 8) (omega arith),
      testbit-mod 8 (value / 2 ^ (8 * (k / 8 - o))) (k % 8),
      testbit-shift_right (8 * (k / 8 - o)) value (k % 8),
      place,
    )

low_bits_mask_lem : (n : ℕ) → n ≤ 64 → low_bits_mask n ≡ 2 ^ n - 1
unfolding low_bits_mask
low_bits_mask_lem n h = elim (ℕ_discrete n 64) [ yes e ↦ rw e refl | no e ↦ ground arith ]

-- The new window: `n` bits of the value from bit `shift` on, the other bits as they were.
pub store_window-testbit :
    (window value shift n j : ℕ)
    → shift + n ≤ 64
    → j < 64
    → testbit (store_window window value shift n) j
      ≡ (if leb shift j && ltb j (shift + n) then testbit value (j - shift) else testbit window j)
unfolding store_window
store_window-testbit window value shift n j fits h = rw (low_bits_mask_lem n (omega arith)) (
    ground (
      arith,
      testbit_merge 64 window (value * 2 ^ shift % 2 ^ 64) ((2 ^ n - 1) * 2 ^ shift % 2 ^ 64) j
          (mod_two_pow-lt ((2 ^ n - 1) * 2 ^ shift) 64) h,
      testbit-mod 64 ((2 ^ n - 1) * 2 ^ shift) j,
      testbit-mod 64 (value * 2 ^ shift) j,
      testbit_ones_at n shift j,
      testbit-shift_left shift value j,
    ))

-- The bits that the fast read takes from a window.
pub read_window-testbit :
    (window shift n i : ℕ)
    → n ≤ 64
    → testbit (bit_and (window / 2 ^ shift) (low_bits_mask n)) i
      ≡ (if ltb i n then testbit window (shift + i) else 0)
read_window-testbit window shift n i h = rw (low_bits_mask_lem n h) (
    ground (
      arith,
      testbit-bit_and (window / 2 ^ shift) (2 ^ n - 1) i,
      testbit-shift_right shift window i,
      testbit-low_mask n i,
      testbit-le_one window (shift + i),
    ))
