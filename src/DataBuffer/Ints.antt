-- ===== src/DataBuffer/Ints.antt =====
-- The booleans and integers of `TickDataBuffer`: the word that each `add_*` appends, and that the
-- matching `read_*` gives the integer of such a word back.
use native.Mathlib.Nat.{pow-suc, mod-eq_of_lt, mod-mod}
use native.Mathlib.Decide.{ℕ_discrete}
use tick_synchronizer.Prelude.{
  ℕ, zero, suc, ◌-◌, ◌*◌, ◌%◌, ◌^◌, ◌≤◌, ◌<◌, min, ◌≡◌, ◌≢◌, refl, sym, subst, ap, bit_and, true,
  ◌==◌, arith, Bool-cases, inl, inr, ◌⊎◌,
}
use tick_synchronizer.Prelude.Int.{ℤ, pos, negsuc, ◌-ℤ◌}
use tick_synchronizer.Prelude.Words.{to_word, of_word, clamp_ℤ, IsInt, int_min, int_max}
use tick_synchronizer.Bits.{testbit, testbit_above, testbit_complement, two_pow_mono}
use tick_synchronizer.Bits.Words.{
  two_pow-pos, to_word-mod, of_word-to_word, bit_and-two_pow-zero, bit_and-two_pow-ne,
  sign_extension,
}
use tick_synchronizer.DataBuffer.Values.{
  clamp_int, clamp_uint, extend_int, max_uint_bits, clamp_int_bits, extend_int_bits,
  is_valid_compression_level, get_bit_taken, data_type_int, data_type_uint, CompressionLevel,
}

-- The sizes of the integers.
abbrev pub IsIntSize : ℕ → Type 0
IsIntSize n = (n ≡ 8) ⊎ ((n ≡ 16) ⊎ ((n ≡ 32) ⊎ (n ≡ 64)))

pub get_bit_taken-IsIntSize :
    (level : CompressionLevel)
    → is_valid_compression_level level ≡ true
    → IsIntSize (get_bit_taken data_type_int level)
      × (get_bit_taken data_type_uint level ≡ get_bit_taken data_type_int level)
unfolding get_bit_taken
get_bit_taken-IsIntSize (pos zero) h = (inr (inr (inr refl)), refl)
get_bit_taken-IsIntSize (pos (suc zero)) h = (inr (inr (inl refl)), refl)
get_bit_taken-IsIntSize (pos (suc (suc zero))) h = (inr (inl refl), refl)
get_bit_taken-IsIntSize (pos (suc (suc (suc zero)))) h = (inl refl, refl)
get_bit_taken-IsIntSize (pos (suc (suc (suc (suc n))))) h = absurd (ground arith)
get_bit_taken-IsIntSize (negsuc n) h = absurd (ground arith)

-- `clamp_uint` keeps a value that fits, and takes any other to the largest that does.
pub clamp_uint_lem : (n x : ℕ) → IsIntSize n → x < 2 ^ 64 → clamp_uint n x ≡ min x (2 ^ n - 1)
unfolding clamp_uint
clamp_uint_lem n x (inl e) h = rw e refl
clamp_uint_lem n x (inr (inl e)) h = rw e refl
clamp_uint_lem n x (inr (inr (inl e))) h = rw e refl
clamp_uint_lem n x (inr (inr (inr e))) h = rw e (omega arith)

pub max_uint_bits_lem : (n : ℕ) → n ≤ 64 → max_uint_bits n ≡ 2 ^ n - 1
unfolding max_uint_bits
max_uint_bits_lem n h = elim (Bool-cases (n == 64)) [
  | inl e ↦ let e' : n ≡ 64 = ground arith in rw e' refl
  | inr e ↦ ground arith
]

-- The range of an `n`-bit signed integer, and the clamp to it.
abbrev pub clamp_signed : ℕ → ℤ → ℤ
clamp_signed n x = clamp_ℤ x (int_min (n - 1)) (int_max (n - 1))

pub clamp_signed-IsInt : (n : ℕ) (x : ℤ) → IsInt (n - 1) (clamp_signed n x)
unfolding clamp_ℤ
clamp_signed-IsInt n (pos m) = ground (arith, two_pow-pos (n - 1))
clamp_signed-IsInt n (negsuc m) = ground (arith, two_pow-pos (n - 1))

clamp_ℤ_fits : (w : ℕ) (x : ℤ) → IsInt w x → clamp_ℤ x (int_min w) (int_max w) ≡ x
unfolding clamp_ℤ
clamp_ℤ_fits w (pos m) h = ground (arith, two_pow-pos w)
clamp_ℤ_fits w (negsuc m) h = ground (arith, two_pow-pos w)

pub clamp_signed_fits : (n : ℕ) (x : ℤ) → IsInt (n - 1) x → clamp_signed n x ≡ x
clamp_signed_fits n x h = clamp_ℤ_fits (n - 1) x h

pub clamp_int_lem : (n : ℕ) (x : ℤ) → IsIntSize n → IsInt 63 x → clamp_int n x ≡ clamp_signed n x
unfolding clamp_int
clamp_int_lem n x (inl e) h = rw e refl
clamp_int_lem n x (inr (inl e)) h = rw e refl
clamp_int_lem n x (inr (inr (inl e))) h = rw e refl
clamp_int_lem n x (inr (inr (inr e))) h = rw e (sym (clamp_ℤ_fits 63 x h))

-- The bounds of `add_int_bits` are those of an `n`-bit integer.
min_value_lem : (k : ℕ) → pos 0 -ℤ pos (1 * 2 ^ k - 1) -ℤ pos 1 ≡ int_min k
unfolding ◌-ℤ◌
min_value_lem k = ground (arith, two_pow-pos k)

max_value_lem : (k : ℕ) → pos (1 * 2 ^ k - 1) ≡ int_max k
max_value_lem k = ap pos (omega arith)

pub clamp_int_bits_lem :
    (n : ℕ) (x : ℤ) → 0 < n → n ≤ 64 → IsInt 63 x → clamp_int_bits n x ≡ clamp_signed n x
unfolding clamp_int_bits
clamp_int_bits_lem n x p h r = elim (Bool-cases (n == 64)) [
  | inl e ↦ let e' : n ≡ 64 = ground arith in rw e' (sym (clamp_ℤ_fits 63 x r))
  | inr e ↦ rw (e, min_value_lem (n - 1), max_value_lem (n - 1)) refl
]

-- The `n`-bit word that carries an integer.
abbrev pub signed_word : ℕ → ℤ → ℕ
signed_word n x = to_word 64 x % 2 ^ n

signed_word_lem : (n : ℕ) (x : ℤ) → 0 < n → n ≤ 64 → IsInt (n - 1) x → signed_word n x ≡ to_word n x
signed_word_lem zero x p h r = absurd (omega arith)
signed_word_lem (suc w) x p h r = to_word-mod w x (omega arith) (rw' r)
  where
    rw' : IsInt (suc w - 1) x → IsInt w x
    rw' r = let e : suc w - 1 ≡ w = omega arith in rw e at r

narrow_word : (w : ℕ) (x : ℤ) → w < 64 → IsInt w x → of_word w (to_word 64 x % 2 ^ suc w) ≡ x
narrow_word w x h r = rw (to_word-mod w x h r) (of_word-to_word w x r)

-- `read_int` extends the sign of the word that `add_int` wrote.
pub extend_int-signed_word :
    (n : ℕ) (x : ℤ) → IsIntSize n → IsInt (n - 1) x → extend_int n (signed_word n x) ≡ x
unfolding extend_int
extend_int-signed_word n x size r = elim size [
  | inl e ↦ cases 8 e (λ r. rw (mod-mod (to_word 64 x) (2 ^ 8)) (narrow_word 7 x (omega arith) r))
  | inr (inl e) ↦
      cases 16 e (λ r. rw (mod-mod (to_word 64 x) (2 ^ 16)) (narrow_word 15 x (omega arith) r))
  | inr (inr (inl e)) ↦
      cases 32 e (λ r. rw (mod-mod (to_word 64 x) (2 ^ 32)) (narrow_word 31 x (omega arith) r))
  | inr (inr (inr e)) ↦ cases 64 e (λ r. narrow_word 63 x (omega arith) r)
]
  where
    cases :
        (k : ℕ)
        → n ≡ k
        → (IsInt (k - 1) x → extend_int k (signed_word k x) ≡ x)
        → extend_int n (signed_word n x) ≡ x
    cases k e f =
        subst
          (λ k.
            (IsInt (k - 1) x → extend_int k (signed_word k x) ≡ x)
            → extend_int n (signed_word n x) ≡ x)
          e (λ g. g r) f

-- The sign extension of a word of fewer than 64 bits.
extend_bits_pos : (w m : ℕ) → suc w < 64 → m < 2 ^ w → extend_int_bits (suc w) m ≡ pos m
unfolding extend_int_bits of_word
extend_bits_pos w m h fits =
    let k : suc w - 1 ≡ w = omega arith in
    let wide : m < 2 ^ 63 = omega (arith, two_pow_mono w 63 (omega arith)) in
    rw (k, bit_and-two_pow-zero m w (testbit_above w m w fits (omega arith))) (ground arith)

extend_bits_negsuc :
    (w m : ℕ) → suc w < 64 → m < 2 ^ w → extend_int_bits (suc w) (2 ^ suc w - 1 - m) ≡ negsuc m
unfolding extend_int_bits of_word
extend_bits_negsuc w m h fits =
    let k : suc w - 1 ≡ w = omega arith in
    let fits' : m < 2 ^ suc w = omega (arith, pow-suc 2 w) in
    let wide : m < 2 ^ 63 = omega (arith, two_pow_mono w 63 (omega arith)) in
    let high : testbit (2 ^ suc w - 1 - m) w ≡ 1 = omega (
      arith,
      testbit_complement (suc w) m w fits' (omega arith),
      testbit_above w m w fits (omega arith),
    ) in
    let set : bit_and (2 ^ suc w - 1 - m) (1 * 2 ^ w) ≢ 0 =
      bit_and-two_pow-ne (2 ^ suc w - 1 - m) w high in
    rw (k, sign_extension (suc w) m (omega arith) fits') (ground arith)

-- The word of 1 to 64 bits that carries a signed integer of that range, read with its sign
-- extended as `read_int_bits` does, is the integer.
pub extend_int_bits-signed_word :
    (n : ℕ) (x : ℤ) → 0 < n → n ≤ 64 → IsInt (n - 1) x → extend_int_bits n (signed_word n x) ≡ x
extend_int_bits-signed_word n x p h r = elim (ℕ_discrete n 64) [
  | yes e ↦ whole e
  | no ne ↦ rw (signed_word_lem n x p h r) (part n x p (omega arith) r)
]
  where
    whole : n ≡ 64 → extend_int_bits n (signed_word n x) ≡ x
    whole e =
        subst (λ k. IsInt (k - 1) x → extend_int_bits k (signed_word k x) ≡ x) (sym e)
          (unfold extend_int_bits in narrow_word 63 x (omega arith)) r

    part : (n : ℕ) (x : ℤ) → 0 < n → n < 64 → IsInt (n - 1) x → extend_int_bits n (to_word n x) ≡ x
    part zero x p h r = absurd (omega arith)
    part (suc w) (pos m) p h r =
        let e : suc w - 1 ≡ w = omega arith in
        let fits : m < 2 ^ w = rw e at (r.0) in
        let small : m % 2 ^ suc w ≡ m =
          mod-eq_of_lt {n = m} {m = 2 ^ suc w} (omega (arith, pow-suc 2 w)) in
        unfold to_word in rw small (extend_bits_pos w m h fits)
    part (suc w) (negsuc m) p h r =
        let e : suc w - 1 ≡ w = omega arith in
        let fits : suc m ≤ 2 ^ w = rw e at (r.1) in
        let small : m % 2 ^ suc w ≡ m =
          mod-eq_of_lt {n = m} {m = 2 ^ suc w} (omega (arith, pow-suc 2 w)) in
        unfold to_word in rw small (extend_bits_negsuc w m h fits)
