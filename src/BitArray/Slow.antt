-- ===== src/BitArray/Slow.antt =====
-- The slow paths of `TickBitArray`, bit by bit: one byte a round, until no bit is left.
use native.Mathlib.Nat.{mod-eq_of_lt}
use native.Mathlib.Decide.{dec_lt}
use tick_synchronizer.Prelude.{
  ℕ, zero, suc, ◌+◌, ◌-◌, ◌*◌, ◌/◌, ◌%◌, ◌^◌, ◌≤◌, ◌<◌, min, max, bit_and, bit_or, ◌≡◌, refl, true,
  List, length, get_or, set, length-set, get_or-set, ltb, leb, ◌&&◌, if◌then◌else◌, arith,
}
use tick_synchronizer.Bits.{
  testbit, testbit-le_one, testbit-bit_or, testbit-bit_and, testbit-shift_left, testbit-shift_right,
  testbit-mod, testbit-low_mask, mod_two_pow-lt, testbit_merge, testbit_ones_at, bit_and-lt,
}
use tick_synchronizer.BitArray.{IsBytes, store_byte, store_slow_loop, read_slow_loop}
use tick_synchronizer.BitArray.Window.{bit_at}

-- One round of the loop on one byte.
store_byte-testbit :
    (byte value jump n j : ℕ)
    → jump + n ≤ 8
    → j < 8
    → testbit (store_byte byte value jump n) j
      ≡ (if leb jump j && ltb j (jump + n) then testbit value (j - jump) else testbit byte j)
unfolding store_byte
store_byte-testbit byte value jump n j fits h =
    let mask : ℕ = (2 ^ n - 1) * 2 ^ jump % 2 ^ 8 in
    let kept : bit_and (bit_and value 0xFF * 2 ^ jump) mask % 2 ^ 8
        ≡ bit_and (bit_and value 0xFF * 2 ^ jump) mask =
      mod-eq_of_lt (
        bit_and-lt 8 (bit_and value 0xFF * 2 ^ jump) mask
          (mod_two_pow-lt ((2 ^ n - 1) * 2 ^ jump) 8)) in
    rw kept (
      ground (
        arith,
        testbit-mod 8
            (bit_or (bit_and byte (2 ^ 32 - 1 - mask))
              (bit_and (bit_and value 0xFF * 2 ^ jump) mask))
            j,
        testbit_merge 32 byte (bit_and value 0xFF * 2 ^ jump) mask j (omega arith) (omega arith),
        testbit-mod 8 ((2 ^ n - 1) * 2 ^ jump) j,
        testbit_ones_at n jump j,
        testbit-shift_left jump (bit_and value 0xFF) j,
        testbit-bit_and value 0xFF (j - jump),
        testbit-low_mask 8 (j - jump),
        testbit-le_one value (j - jump),
      ))

store_byte-lt : (byte value jump n : ℕ) → store_byte byte value jump n < 256
unfolding store_byte
store_byte-lt byte value jump n = omega arith

-- One round of the loop on the whole array.
round-bit_at :
    (bs : List ℕ) (off n value k : ℕ)
    → off % 8 + n ≤ 8
    → off / 8 < length bs
    → bit_at (set bs (off / 8) (store_byte (get_or bs (off / 8) 0) value (off % 8) n)) k
      ≡ (if leb off k && ltb k (off + n) then testbit value (k - off) else bit_at bs k)
unfolding bit_at
round-bit_at bs off n value k fits h =
    let same : k / 8 ≡ off / 8 → leb off k ≡ true → k % 8 - off % 8 ≡ k - off =
      λ e p. ground arith in
    ground (
      arith,
      get_or-set bs (off / 8) (k / 8) (store_byte (get_or bs (off / 8) 0) value (off % 8) n) 0,
      store_byte-testbit (get_or bs (off / 8) 0) value (off % 8) n (k % 8) fits (omega arith),
      same,
    )

round-IsBytes :
    (bs : List ℕ) (o byte value jump n : ℕ)
    → IsBytes bs
    → IsBytes (set bs o (store_byte byte value jump n))
round-IsBytes bs o byte value jump n b j = ground (
  arith,
  get_or-set bs o j (store_byte byte value jump n) 0,
  store_byte-lt byte value jump n,
  b j,
)

pub length-store_slow_loop :
    (fuel : ℕ) (bs : List ℕ) (bits off value : ℕ)
    → length (store_slow_loop fuel bs bits off value) ≡ length bs
unfolding store_slow_loop
length-store_slow_loop zero bs bits off value = refl
length-store_slow_loop (suc fuel) bs bits off value =
    let bs' =
      set bs (off / 8)
        (store_byte (get_or bs (off / 8) 0) value (off % 8) (min bits (8 - off % 8))) in
    ground (
      arith,
      length-store_slow_loop fuel bs' (bits - min bits (8 - off % 8)) (off + min bits (8 - off % 8))
          (value / 2 ^ min bits (8 - off % 8)),
      length-set bs (off / 8)
          (store_byte (get_or bs (off / 8) 0) value (off % 8) (min bits (8 - off % 8))),
    )

pub store_slow_loop-IsBytes :
    (fuel : ℕ) (bs : List ℕ) (bits off value : ℕ)
    → IsBytes bs
    → IsBytes (store_slow_loop fuel bs bits off value)
unfolding store_slow_loop
store_slow_loop-IsBytes zero bs bits off value b j = b j
store_slow_loop-IsBytes (suc fuel) bs bits off value b j =
    let n = min bits (8 - off % 8) in
    let bs' = set bs (off / 8) (store_byte (get_or bs (off / 8) 0) value (off % 8) n) in
    ground (
      arith,
      store_slow_loop-IsBytes fuel bs' (bits - n) (off + n) (value / 2 ^ n)
          (round-IsBytes bs (off / 8) (get_or bs (off / 8) 0) value (off % 8) n b) j,
      b j,
    )

-- With a round for each bit the loop stores them all, and no other.
pub store_slow_loop-bit_at :
    (fuel : ℕ) (bs : List ℕ) (bits off value k : ℕ)
    → bits ≤ fuel
    → off + bits ≤ 8 * length bs
    → bit_at (store_slow_loop fuel bs bits off value) k
      ≡ (if leb off k && ltb k (off + bits) then testbit value (k - off) else bit_at bs k)
unfolding store_slow_loop
store_slow_loop-bit_at zero bs bits off value k enough fits = ground arith
store_slow_loop-bit_at (suc fuel) bs bits off value k enough fits = elim (dec_lt 0 bits) [
  | no none_left ↦ ground arith
  | yes some_left ↦ ground (
    arith,
    store_slow_loop-bit_at fuel
        (set bs (off / 8)
          (store_byte (get_or bs (off / 8) 0) value (off % 8) (min bits (8 - off % 8))))
        (bits - min bits (8 - off % 8)) (off + min bits (8 - off % 8))
        (value / 2 ^ min bits (8 - off % 8)) k (omega arith) (rw length-set (omega arith)),
    round-bit_at bs off (min bits (8 - off % 8)) value k (omega arith) (omega arith),
    testbit-shift_right (min bits (8 - off % 8)) value (k - (off + min bits (8 - off % 8))),
  )
]

-- What a round of the read takes from one byte.
read_byte-testbit :
    (byte jump n i : ℕ)
    → testbit (bit_and (byte / 2 ^ jump) (2 ^ n - 1)) i
      ≡ (if ltb i n then testbit byte (jump + i) else 0)
read_byte-testbit byte jump n i = ground (
  arith,
  testbit-bit_and (byte / 2 ^ jump) (2 ^ n - 1) i,
  testbit-shift_right jump byte i,
  testbit-low_mask n i,
  testbit-le_one byte (jump + i),
)

-- What a round adds to the value.
round_value-testbit :
    (bs : List ℕ) (off n shift value i : ℕ)
    → off % 8 + n ≤ 8
    → shift + n ≤ 64
    → testbit
        (bit_or value
          (bit_and (get_or bs (off / 8) 0 / 2 ^ (off % 8)) (2 ^ n - 1) * 2 ^ shift % 2 ^ 64))
        i
      ≡ max
          (testbit value i)
          (if leb shift i && ltb i (shift + n) then bit_at bs (off + (i - shift)) else 0)
unfolding bit_at
round_value-testbit bs off n shift value i fits h =
    let byte = get_or bs (off / 8) 0 in
    let taken = bit_and (byte / 2 ^ (off % 8)) (2 ^ n - 1) in
    let index : ltb (i - shift) n ≡ true → (off + (i - shift)) / 8 ≡ off / 8 = λ p. ground arith in
    let place : ltb (i - shift) n ≡ true → (off + (i - shift)) % 8 ≡ off % 8 + (i - shift) =
      λ p. ground arith in
    ground (
      arith,
      testbit-bit_or value (taken * 2 ^ shift % 2 ^ 64) i,
      testbit-mod 64 (taken * 2 ^ shift) i,
      testbit-shift_left shift taken i,
      read_byte-testbit byte (off % 8) n (i - shift),
      index,
      place,
    )

-- With a round for each bit the loop reads them all.
pub read_slow_loop-testbit :
    (fuel : ℕ) (bs : List ℕ) (bits off shift value i : ℕ)
    → bits ≤ fuel
    → shift + bits ≤ 64
    → testbit (read_slow_loop fuel bs bits off shift value) i
      ≡ max
          (testbit value i)
          (if leb shift i && ltb i (shift + bits) then bit_at bs (off + (i - shift)) else 0)
unfolding read_slow_loop
read_slow_loop-testbit zero bs bits off shift value i enough fits = ground arith
read_slow_loop-testbit (suc fuel) bs bits off shift value i enough fits = elim (dec_lt 0 bits) [
  | no none_left ↦ ground arith
  | yes some_left ↦
      let n = min bits (8 - off % 8) in
      let regroup : leb (shift + n) i ≡ true → off + n + (i - (shift + n)) ≡ off + (i - shift) =
        λ p. ground arith in
      ground (
        arith,
        read_slow_loop-testbit fuel bs (bits - n) (off + n) (shift + n)
            (bit_or value
              (bit_and (get_or bs (off / 8) 0 / 2 ^ (off % 8)) (2 ^ n - 1) * 2 ^ shift % 2 ^ 64))
            i (omega arith) (omega arith),
        round_value-testbit bs off n shift value i (omega arith) (omega arith),
        regroup,
      )
]
