-- ===== src/Examples.antt =====
-- Tests of the definitions on concrete inputs, and each theorem with hypotheses applied where they
-- hold. This file has the engine's array as a concrete function; the children have the tests.
pub mod Arrays
pub mod Buffers
pub mod Clocks
pub mod Strings
pub mod Servers
pub mod Numbers
pub mod Codecs
pub mod Networks
use tick_synchronizer.Prelude.{
  ℕ, ◌-◌, ◌<◌, ◌≡◌, List, ◌++◌, length, get_or, take, replicate, length-append, length-take,
  length-replicate, get_or-append, get_or-take, get_or-replicate, get_or_past, ltb, if◌then◌else◌,
  arith,
}
use tick_synchronizer.BitArray.{ByteVector, IsBytes}

-- A resize that fills the new bytes with 0.
abbrev pub zero_fill : List ℕ → ℕ → List ℕ
zero_fill bs n = take n bs ++ replicate (n - length bs) 0

zero_fill-get_or :
    (bs : List ℕ) (n j : ℕ) → get_or (zero_fill bs n) j 0 ≡ (if ltb j n then get_or bs j 0 else 0)
zero_fill-get_or bs n j = ground (
  arith,
  get_or-append (take n bs) (replicate (n - length bs) 0) j 0,
  get_or-take n bs j 0,
  get_or-replicate {A = ℕ} (n - length bs) 0 (j - length (take n bs)),
  length-take n bs,
  get_or_past bs j 0,
)

pub length-zero_fill : (bs : List ℕ) (n : ℕ) → length (zero_fill bs n) ≡ n
length-zero_fill bs n = omega (
  arith,
  length-append (take n bs) (replicate (n - length bs) 0),
  length-take n bs,
  length-replicate {A = ℕ} (n - length bs) 0,
)

pub zero_fill-kept :
    (bs : List ℕ) (n j : ℕ) → j < n → j < length bs → get_or (zero_fill bs n) j 0 ≡ get_or bs j 0
zero_fill-kept bs n j h k = ground (arith, zero_fill-get_or bs n j)

pub zero_fill-IsBytes : (bs : List ℕ) (n : ℕ) → IsBytes bs → IsBytes (zero_fill bs n)
zero_fill-IsBytes bs n b j = ground (arith, zero_fill-get_or bs n j, b j)

abbrev pub zero_vector : ByteVector
zero_vector = record {
  resize = zero_fill;
  resized = length-zero_fill;
  kept = zero_fill-kept;
  in_range = zero_fill-IsBytes;
}
