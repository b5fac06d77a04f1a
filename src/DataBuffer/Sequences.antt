-- ===== src/DataBuffer/Sequences.antt =====
-- One round of `TickDataBuffer::is_valid_utf8`: which bytes it takes.
use tick_synchronizer.Prelude.{
  ℕ, zero, suc, ◌+◌, ◌-◌, ◌*◌, ◌/◌, ◌%◌, ◌≤◌, ◌<◌, ◌≡◌, refl, ap, ◌==◌, ◌&&◌, ◌≢◌, leb, List, ◌++◌,
  length, length-append, get_or, get_or-append, bit_and, arith, ◌⊎◌,
}
use tick_synchronizer.Bits.{bit_and-lt}
use tick_synchronizer.Bits.Step.{bit_and_step}
use tick_synchronizer.BitArray.{IsBytes}
use tick_synchronizer.DataBuffer.Utf8.{lead_size, second_min, second_max, tail_loop, sequence_size}

-- A mask with a 0 at its lowest digit, and with a 1.
bit_and_even : (x m : ℕ) → bit_and x (2 * m) ≡ bit_and (x / 2) m * 2
bit_and_even x m =
    let half : 2 * m / 2 ≡ m = omega arith in
    omega (arith, bit_and_step x (2 * m), ap (bit_and (x / 2)) half)

bit_and_three : (x : ℕ) → bit_and x 3 ≡ x % 4
bit_and_three x =
    omega
      (arith, bit_and_step x 3, bit_and_step (x / 2) 1, bit_and-lt 0 (x / 2 / 2) 0 (omega arith))

-- `(b & 0xC0) == 0x80` is a test of the range.
bit_and_high : (x : ℕ) → bit_and x 0xC0 ≡ x / 64 % 4 * 64
bit_and_high x = omega (
  arith,
  bit_and_even x 96,
  bit_and_even (x / 2) 48,
  bit_and_even (x / 2 / 2) 24,
  bit_and_even (x / 2 / 2 / 2) 12,
  bit_and_even (x / 2 / 2 / 2 / 2) 6,
  bit_and_even (x / 2 / 2 / 2 / 2 / 2) 3,
  bit_and_three (x / 2 / 2 / 2 / 2 / 2 / 2),
)

abbrev pub IsTail : ℕ → Type 0
IsTail b = (0x80 ≤ b) × (b ≤ 0xBF)

is_tail_lem : (b : ℕ) → b < 256 → (bit_and b 0xC0 == 0x80) ≡ (leb 0x80 b && leb b 0xBF)
is_tail_lem b h = ground (arith, bit_and_high b)

-- Looking at a suffix: an index past the prefix.
pub get_or_suffix :
    (xs ys : List ℕ) (i : ℕ) → get_or (xs ++ ys) (length xs + i) 0 ≡ get_or ys (0 + i) 0
get_or_suffix xs ys i = ground (arith, get_or-append xs ys (length xs + i) 0)

pub tail_loop_suffix :
    (rounds i : ℕ) (xs ys : List ℕ)
    → tail_loop rounds i (xs ++ ys) (length xs) ≡ tail_loop rounds i ys 0
unfolding tail_loop
tail_loop_suffix zero i xs ys = refl
tail_loop_suffix (suc rounds) i xs ys =
    rw (get_or_suffix xs ys i, tail_loop_suffix rounds (i + 1) xs ys) refl

pub sequence_size_suffix :
    (xs ys : List ℕ)
    → sequence_size (xs ++ ys) (length (xs ++ ys)) (length xs) ≡ sequence_size ys (length ys) 0
unfolding sequence_size
sequence_size_suffix xs ys =
    let here : get_or (xs ++ ys) (length xs) 0 ≡ get_or ys 0 0 =
      ground (arith, get_or-append xs ys (length xs) 0) in
    let left : length (xs ++ ys) - length xs ≡ length ys - 0 = omega (arith, length-append xs ys) in
    rw (here, get_or_suffix xs ys 1, left, tail_loop_suffix _ 2 xs ys) refl

-- The bytes that one round takes, by their number.
unfoldable pub IsSequence : List ℕ → ℕ → Type 0
IsSequence ys n =
    let a = get_or ys 0 0 in
    let b = get_or ys 1 0 in
    let c = get_or ys 2 0 in
    let d = get_or ys 3 0 in
    ((n ≡ 1) × (0 < a) × (a < 0x80))
    ⊎ ((n ≡ 2) × (2 ≤ length ys) × (0xC2 ≤ a) × (a ≤ 0xDF) × IsTail b)
    ⊎ ((n ≡ 3)
        × (3 ≤ length ys)
        × (0xE0 ≤ a)
        × (a ≤ 0xEF)
        × ((a ≢ 0xE0) ⊎ (0xA0 ≤ b))
        × ((a ≢ 0xED) ⊎ (b ≤ 0x9F))
        × IsTail b
        × IsTail c)
    ⊎ ((n ≡ 4)
        × (4 ≤ length ys)
        × (0xF0 ≤ a)
        × (a ≤ 0xF4)
        × ((a ≢ 0xF0) ⊎ (0x90 ≤ b))
        × ((a ≢ 0xF4) ⊎ (b ≤ 0x8F))
        × IsTail b
        × IsTail c
        × IsTail d)

-- The bytes of a round: none, or as many as the source goes on by.
pub sequence_size_lem :
    (ys : List ℕ)
    → IsBytes ys
    → (sequence_size ys (length ys) 0 ≡ 0) ⊎ IsSequence ys (sequence_size ys (length ys) 0)
unfolding sequence_size lead_size second_min second_max tail_loop IsSequence
sequence_size_lem ys h = ground (
  arith,
  h 0,
  h 1,
  h 2,
  h 3,
  is_tail_lem (get_or ys 2 0) (h 2),
  is_tail_lem (get_or ys 3 0) (h 3),
)

pub sequence_size-IsSequence :
    (ys : List ℕ) (n : ℕ) → IsBytes ys → IsSequence ys n → sequence_size ys (length ys) 0 ≡ n
unfolding sequence_size lead_size second_min second_max tail_loop IsSequence
sequence_size-IsSequence ys n h s = ground (
  arith,
  h 0,
  h 1,
  h 2,
  h 3,
  is_tail_lem (get_or ys 2 0) (h 2),
  is_tail_lem (get_or ys 3 0) (h 3),
)
