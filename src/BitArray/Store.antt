-- ===== src/BitArray/Store.antt =====
-- `TickBitArray::store_bits`, both paths: which calls it takes and what it leaves in the array.
use tick_synchronizer.Prelude.{
  ℕ, ◌+◌, ◌-◌, ◌*◌, ◌/◌, ◌%◌, ◌^◌, ◌≤◌, ◌<◌, ◌≡◌, refl, sym, true, false, Bool, List, length, ltb,
  leb, ◌&&◌, if◌then◌else◌, arith, Bool-cases, inl, inr, ◌↔◌, ◌⊎◌,
}
use tick_synchronizer.Prelude.Int.{ℤ, pos, negsuc, ◌≤ℤ◌, ◌+ℤ◌}
use tick_synchronizer.Prelude.Words.{of_word}
use tick_synchronizer.Bits.{testbit}
use tick_synchronizer.BitArray.{
  TickBitArray, IsBytes, load_le64, store_le64, store_window, fits_window, is_refused,
  store_bits_slow, store_bits, size_in_bits,
}
use tick_synchronizer.BitArray.Window.{
  bit_at, load_le64-testbit, length-store_le64, store_le64-IsBytes, store_le64-bit_at,
  store_window-testbit,
}
use tick_synchronizer.BitArray.Slow.{
  length-store_slow_loop, store_slow_loop-IsBytes, store_slow_loop-bit_at,
}

-- The bits from `off` on, `n` of them, lie inside the array.
pub record Inside (a : TickBitArray) (off n : ℕ) : Type 0 where
  pub some_bits : 0 < n
  pub word : n ≤ 64
  pub fits : off + n ≤ 8 * length a.bytes

-- The write succeeded: `n` bits of `value` at `off`, every other bit and the size as they were.
pub record Stores (a : TickBitArray) (off value n : ℕ) (r : TickBitArray × Bool) : Type 0 where
  pub done : r.1 ≡ true
  pub same_size : length r.0.bytes ≡ length a.bytes
  pub in_range : IsBytes r.0.bytes
  pub bits :
      (k : ℕ)
      → bit_at r.0.bytes k
        ≡ (if leb off k && ltb k (off + n) then testbit value (k - off) else bit_at a.bytes k)

pub is_refused-Inside :
    (a : TickBitArray) (off n : ℕ) → Inside a off n → is_refused a (pos off) (pos n) ≡ false
unfolding is_refused
is_refused-Inside a off n i = ground arith

pub store_bits_slow-Stores :
    (a : TickBitArray) (off value n : ℕ)
    → IsBytes a.bytes
    → Inside a off n
    → Stores a off value n (store_bits_slow a (pos off) value (pos n))
unfolding store_bits_slow
store_bits_slow-Stores a off value n b i = rw (is_refused-Inside a off n i) (record {
  done = refl;
  same_size = length-store_slow_loop n a.bytes n off value;
  in_range = store_slow_loop-IsBytes n a.bytes n off value b;
  bits = λ k. store_slow_loop-bit_at n a.bytes n off value k (omega arith) i.fits;
})

module _ (bs : List ℕ) (off value n : ℕ) (b : IsBytes bs) (narrow : off % 8 + n ≤ 64)
    (room : off / 8 + 8 ≤ length bs) where
  window : ℕ
  window = store_window (load_le64 bs (off / 8)) value (off % 8) n

  -- Bit `j` of the window is bit `8 * (off / 8) + j` of the array.
  window-testbit :
      (k : ℕ)
      → 8 * (off / 8) ≤ k
      → k - 8 * (off / 8) < 64
      → testbit window (k - 8 * (off / 8))
        ≡ (if leb off k && ltb k (off + n) then testbit value (k - off) else bit_at bs k)
  unfolding window
  window-testbit k p q =
      let place : off ≤ k → k - 8 * (off / 8) - off % 8 ≡ k - off = λ h. omega arith in
      let back : 8 * (off / 8) + (k - 8 * (off / 8)) ≡ k = omega arith in
      ground (
        arith,
        store_window-testbit (load_le64 bs (off / 8)) value (off % 8) n (k - 8 * (off / 8)) narrow
            q,
        load_le64-testbit bs (off / 8) (k - 8 * (off / 8)) b q,
        place,
        back,
      )

  window-bit_at :
      (k : ℕ)
      → bit_at (store_le64 bs (off / 8) window) k
        ≡ (if leb off k && ltb k (off + n) then testbit value (k - off) else bit_at bs k)
  window-bit_at k = ground (arith, store_le64-bit_at bs (off / 8) window k room, window-testbit k)

  window-Stores :
      Stores
        (record { bytes = bs })
        off
        value
        n
        (record { bytes = store_le64 bs (off / 8) window }, true)
  window-Stores = record {
    done = refl;
    same_size = length-store_le64 bs (off / 8) window;
    in_range = store_le64-IsBytes bs (off / 8) window room b;
    bits = window-bit_at;
  }

-- The largest count for which the sum in `fits_window` cannot overflow, with any offset.
abbrev pub max_count : ℕ
max_count = 2 ^ 31 - 8

pub fits_window_lem :
    (a : TickBitArray) (off n : ℕ)
    → n ≤ max_count
    → fits_window a (pos off) (pos n) ≡ true
    → (0 < n) × (off % 8 + n ≤ 64) × (off / 8 + 8 ≤ length a.bytes)
unfolding fits_window of_word
fits_window_lem a off n m h = ground arith

-- A write of 1 to 64 bits inside an array of bytes succeeds, sets those bits to the low bits of
-- the value, and keeps every other bit and the size.
pub store_bits-Stores :
    (a : TickBitArray) (off value n : ℕ)
    → IsBytes a.bytes
    → Inside a off n
    → Stores a off value n (store_bits a (pos off) value (pos n))
unfolding store_bits window
store_bits-Stores a off value n b i = elim (Bool-cases (fits_window a (pos off) (pos n))) [
  | inl fast ↦
      let f = fits_window_lem a off n (omega (arith, i.word)) fast in
      rw fast (window-Stores a.bytes off value n b f.1 f.2)
  | inr slow ↦ rw slow (store_bits_slow-Stores a off value n b i)
]

-- Any `int` arguments: the offset is not negative, there are 1 to 64 bits, and they end in the array.
abbrev pub Accepts : TickBitArray → ℤ → ℤ → Type 0
Accepts a off bits =
    (pos 0 ≤ℤ off) × (pos 1 ≤ℤ bits) × (bits ≤ℤ pos 64) × (off +ℤ bits ≤ℤ pos (size_in_bits a))

pub fits_window-Accepts :
    (a : TickBitArray) (off bits : ℤ)
    → bits ≤ℤ pos max_count
    → fits_window a off bits ≡ true
    → Accepts a off bits
unfolding fits_window of_word ◌+ℤ◌ size_in_bits
fits_window-Accepts a (pos off) (pos n) m h = ground arith
fits_window-Accepts a (negsuc off) bits m h = ground arith
fits_window-Accepts a (pos off) (negsuc n) m h = ground arith

pub is_refused_iff :
    (a : TickBitArray) (off bits : ℤ) → (is_refused a off bits ≡ false) ↔ Accepts a off bits
unfolding is_refused ◌+ℤ◌ size_in_bits
is_refused_iff a (pos off) (pos n) = ground arith
is_refused_iff a (pos off) (negsuc n) = ground arith
is_refused_iff a (negsuc off) (pos n) = ground arith
is_refused_iff a (negsuc off) (negsuc n) = ground arith

-- A test made of two, of which the first, when it passes, implies that the second does not refuse.
pub guards_iff {ℓ} :
    {A : Type ℓ} (a b c : A) (fast refused : Bool) (P : Type 0)
    → (fast ≡ true → P)
    → ((refused ≡ false) ↔ P)
    → let r : A × Bool = if fast then (b, true) else if refused then (a, false) else (c, true) in
      (r.1 ≡ true) ↔ P
guards_iff a b c true refused P f g = (λ _. f refl, λ _. refl)
guards_iff a b c false true P f g = (λ e. cc, λ p. sym (g.1 p))
guards_iff a b c false false P f g = (λ _. g.0 refl, λ _. refl)

-- Of the same two tests: what is refused stays as it was.
pub guards_kept {ℓ} :
    {A : Type ℓ} (a b c : A) (fast refused : Bool)
    → let r : A × Bool = if fast then (b, true) else if refused then (a, false) else (c, true) in
      (r.1 ≡ true) ⊎ (r.0 ≡ a)
guards_kept a b c true refused = inl refl
guards_kept a b c false true = inr refl
guards_kept a b c false false = inl refl

-- For any offset, any value and a count of at most 2 ^ 31 - 8, where the sum of the window test
-- cannot overflow: a write succeeds exactly when it has 1 to 64 bits that lie inside the array,
-- and when it does not succeed it leaves the array as it was.
pub store_bits_guards :
    (a : TickBitArray) (off : ℤ) (value : ℕ) (bits : ℤ)
    → bits ≤ℤ pos max_count
    → (((store_bits a off value bits).1 ≡ true) ↔ Accepts a off bits)
      × (((store_bits a off value bits).1 ≡ true) ⊎ ((store_bits a off value bits).0 ≡ a))
unfolding store_bits store_bits_slow
store_bits_guards a off value bits m =
    let fast = fits_window a off bits in
    (
      guards_iff a _ _ fast (is_refused a off bits) (Accepts a off bits)
          (fits_window-Accepts a off bits m) (is_refused_iff a off bits),
      guards_kept a _ _ fast (is_refused a off bits),
    )
