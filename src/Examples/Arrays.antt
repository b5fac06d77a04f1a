-- ===== src/Examples/Arrays.antt =====
-- `TickBitArray` on concrete arrays.
use tick_synchronizer.Prelude.{
  ℕ, ◌<◌, ◌%◌, ◌^◌, ◌≡◌, refl, inr, true, false, [], ◌∷◌, ◌↔◌, ◌⊎◌, arith, get_or, zero, suc,
}
use tick_synchronizer.Prelude.Int.{pos, negsuc}
use tick_synchronizer.BitArray.{
  fits_window, TickBitArray, IsBytes, store_bits, store_bits_slow, read_bits, read_bits_slow,
  resize_in_bits,
}
use tick_synchronizer.BitArray.Store.{Inside, Stores, Accepts, store_bits-Stores, store_bits_guards}
use tick_synchronizer.BitArray.Read.{read_bits_guards, Reads, read_bits-Reads}
use tick_synchronizer.BitArray.Paths.{
  store_bits-eq-store_bits_slow, read_bits-eq-read_bits_slow, read_bits-store_bits,
  read_bits-store_bits_apart,
}
use tick_synchronizer.BitArray.Resize.{Resizes, resize_in_bits-Resizes}
use tick_synchronizer.Examples.{zero_vector}

-- Ten bytes: the fast path is taken below bit 16, and the slow one from there on.
abbrev ten_bytes : TickBitArray
ten_bytes = record { bytes = 0xff ∷ 1 ∷ 2 ∷ 3 ∷ 4 ∷ 5 ∷ 6 ∷ 7 ∷ 8 ∷ 0x9a ∷ [] }

ten_bytes-IsBytes : IsBytes ten_bytes.bytes
ten_bytes-IsBytes zero = omega arith
ten_bytes-IsBytes (suc zero) = omega arith
ten_bytes-IsBytes (suc (suc zero)) = omega arith
ten_bytes-IsBytes (suc (suc (suc zero))) = omega arith
ten_bytes-IsBytes (suc (suc (suc (suc zero)))) = omega arith
ten_bytes-IsBytes (suc (suc (suc (suc (suc zero))))) = omega arith
ten_bytes-IsBytes (suc (suc (suc (suc (suc (suc zero)))))) = omega arith
ten_bytes-IsBytes (suc (suc (suc (suc (suc (suc (suc zero))))))) = omega arith
ten_bytes-IsBytes (suc (suc (suc (suc (suc (suc (suc (suc zero)))))))) = omega arith
ten_bytes-IsBytes (suc (suc (suc (suc (suc (suc (suc (suc (suc j))))))))) = last j
  where
    last : (j : ℕ) → get_or (0x9a ∷ []) j 0 < 256
    last zero = omega arith
    last (suc j) = omega arith

fast-Inside : Inside ten_bytes 3 40
fast-Inside = record { some_bits = omega arith; word = omega arith; fits = omega arith }

slow-Inside : Inside ten_bytes 61 13
slow-Inside = record { some_bits = omega arith; word = omega arith; fits = omega arith }

-- A fast write and a slow one.
store_runs :
    (store_bits ten_bytes (pos 4) 0xabc (pos 12)
      ≡ (record { bytes = 0xcf ∷ 0xab ∷ 2 ∷ 3 ∷ 4 ∷ 5 ∷ 6 ∷ 7 ∷ 8 ∷ 0x9a ∷ [] }, true))
    × (store_bits ten_bytes (pos 68) 0xabc (pos 12)
        ≡ (record { bytes = 0xff ∷ 1 ∷ 2 ∷ 3 ∷ 4 ∷ 5 ∷ 6 ∷ 7 ∷ 0xc8 ∷ 0xab ∷ [] }, true))
    × (store_bits ten_bytes (pos 69) 0xabc (pos 12) ≡ (ten_bytes, false))
    × (read_bits ten_bytes (pos 68) (pos 12) 7 ≡ (0x9a0, true))
unfolding store_bits read_bits
store_runs = (refl, refl, refl, refl)

-- Where the sum in `fits_window` overflows: the fast path takes a count that the slow one refuses.
overflow_runs :
    (fits_window ten_bytes (pos 1) (pos 2147483647) ≡ true)
    × ((store_bits_slow ten_bytes (pos 1) 5 (pos 2147483647)).1 ≡ false)
unfolding fits_window store_bits_slow
overflow_runs = (refl, refl)

store_bits-Stores_example :
    Stores ten_bytes 3 0x12345678 40 (store_bits ten_bytes (pos 3) 0x12345678 (pos 40))
store_bits-Stores_example =
    store_bits-Stores ten_bytes 3 0x12345678 40 ten_bytes-IsBytes fast-Inside

read_bits-Reads_example : Reads ten_bytes 61 13 (read_bits ten_bytes (pos 61) (pos 13) 7)
read_bits-Reads_example = read_bits-Reads ten_bytes 61 13 7 ten_bytes-IsBytes slow-Inside

store_bits_guards_example :
    (((store_bits ten_bytes (negsuc 0) 5 (pos 3)).1 ≡ true) ↔ Accepts ten_bytes (negsuc 0) (pos 3))
    × (((store_bits ten_bytes (negsuc 0) 5 (pos 3)).1 ≡ true)
        ⊎ ((store_bits ten_bytes (negsuc 0) 5 (pos 3)).0 ≡ ten_bytes))
store_bits_guards_example = store_bits_guards ten_bytes (negsuc 0) 5 (pos 3) (omega arith)

read_bits_guards_example :
    (((read_bits ten_bytes (pos 70) (pos 11) 9).1 ≡ true) ↔ Accepts ten_bytes (pos 70) (pos 11))
    × (((read_bits ten_bytes (pos 70) (pos 11) 9).1 ≡ true)
        ⊎ ((read_bits ten_bytes (pos 70) (pos 11) 9).0 ≡ 9))
read_bits_guards_example = read_bits_guards ten_bytes (pos 70) (pos 11) 9 (omega arith)

store_bits-eq-store_bits_slow_example :
    store_bits ten_bytes (pos 3) 77 (pos 40) ≡ store_bits_slow ten_bytes (pos 3) 77 (pos 40)
store_bits-eq-store_bits_slow_example =
    store_bits-eq-store_bits_slow ten_bytes (pos 3) 77 (pos 40) ten_bytes-IsBytes (omega arith)

read_bits-eq-read_bits_slow_example :
    read_bits ten_bytes (pos 3) (pos 40) 7 ≡ read_bits_slow ten_bytes (pos 3) (pos 40) 7
read_bits-eq-read_bits_slow_example =
    read_bits-eq-read_bits_slow ten_bytes (pos 3) (pos 40) 7 ten_bytes-IsBytes (omega arith)

read_bits-store_bits_example :
    read_bits (store_bits ten_bytes (pos 3) (2 ^ 60) (pos 40)).0 (pos 3) (pos 40) 7
    ≡ (2 ^ 60 % 2 ^ 40, true)
read_bits-store_bits_example =
    read_bits-store_bits ten_bytes 3 (2 ^ 60) 40 7 ten_bytes-IsBytes fast-Inside

read_bits-store_bits_apart_example :
    read_bits (store_bits ten_bytes (pos 3) 77 (pos 40)).0 (pos 61) (pos 13) 7
    ≡ read_bits ten_bytes (pos 61) (pos 13) 7
read_bits-store_bits_apart_example =
    read_bits-store_bits_apart ten_bytes 3 77 40 61 13 7 ten_bytes-IsBytes fast-Inside slow-Inside
      (inr (omega arith))

resize_in_bits-Resizes_example :
    Resizes ten_bytes 19 (resize_in_bits zero_vector ten_bytes (pos 19))
resize_in_bits-Resizes_example = resize_in_bits-Resizes zero_vector ten_bytes 19 ten_bytes-IsBytes
