-- ===== src/Bits/Stream.antt =====
-- Sequences of bits: what a function of the index gives from an index on, and the bits of a word.
use tick_synchronizer.Prelude.{
  ℕ, zero, suc, ◌+◌, ◌%◌, ◌^◌, ◌<◌, ◌≡◌, refl, ap, ap₂, ◌∙◌, List, [], ◌∷◌, ◌++◌, length, arith,
}
use tick_synchronizer.Bits.{testbit, testbit_ext, testbit-mod}

-- f i, f (i + 1), …: `n` of them.
unfoldable pub bits_from : (ℕ → ℕ) → ℕ → ℕ → List ℕ
bits_from f i zero = []
bits_from f i (suc n) = f i ∷ bits_from f (i + 1) n

-- The `n` low bits of a word, the least significant first.
unfoldable pub word_bits : ℕ → ℕ → List ℕ
unfolding bits_from
word_bits n x = bits_from (testbit x) 0 n

pub length-bits_from : (f : ℕ → ℕ) (i n : ℕ) → length (bits_from f i n) ≡ n
unfolding bits_from
length-bits_from f i zero = refl
length-bits_from f i (suc n) = ap suc (length-bits_from f (i + 1) n)

pub length-word_bits : (n x : ℕ) → length (word_bits n x) ≡ n
unfolding word_bits
length-word_bits n x = length-bits_from (testbit x) 0 n

pub bits_from-append :
    (f : ℕ → ℕ) (i m n : ℕ) → bits_from f i (m + n) ≡ bits_from f i m ++ bits_from f (i + m) n
unfolding bits_from
bits_from-append f i zero n = ap₂ (bits_from f) (omega arith) (omega arith)
bits_from-append f i (suc m) n =
    let e : suc m + n ≡ suc (m + n) = omega arith in
    let e' : i + suc m ≡ i + 1 + m = omega arith in
    rw (e, e') (ap (◌∷◌ (f i)) (bits_from-append f (i + 1) m n))

pub bits_from_ext :
    (f g : ℕ → ℕ) (i j n : ℕ)
    → ((k : ℕ) → k < n → f (i + k) ≡ g (j + k))
    → bits_from f i n ≡ bits_from g j n
unfolding bits_from
bits_from_ext f g i j zero h = refl
bits_from_ext f g i j (suc n) h =
    ap₂ ◌∷◌ (first (h 0 (omega arith)))
      (bits_from_ext f g (i + 1) (j + 1) n (λ k p. later k (h (suc k) (omega arith))))
  where
    first : f (i + 0) ≡ g (j + 0) → f i ≡ g j
    first e = ap f (omega arith) ∙ e ∙ ap g (omega arith)

    later : (k : ℕ) → f (i + suc k) ≡ g (j + suc k) → f (i + 1 + k) ≡ g (j + 1 + k)
    later k e = ap f (omega arith) ∙ e ∙ ap g (omega arith)

-- Equal sequences are equal at each index.
pub bits_from_inj :
    (f g : ℕ → ℕ) (i j n : ℕ) (xs ys : List ℕ)
    → bits_from f i n ++ xs ≡ bits_from g j n ++ ys
    → ((k : ℕ) → k < n → f (i + k) ≡ g (j + k)) × (xs ≡ ys)
unfolding bits_from
bits_from_inj f g i j zero xs ys e = ((λ k p. absurd (omega arith)), e)
bits_from_inj f g i j (suc n) xs ys e =
    let rest = bits_from_inj f g (i + 1) (j + 1) n xs ys (cc) in (at (cc) rest.0, rest.1)
  where
    at :
        f i ≡ g j
        → ((k : ℕ) → k < n → f (i + 1 + k) ≡ g (j + 1 + k))
        → (k : ℕ) → k < suc n
        → f (i + k) ≡ g (j + k)
    at e h zero p = ap f (omega arith) ∙ e ∙ ap g (omega arith)
    at e h (suc k) p = ap f (omega arith) ∙ h k (omega arith) ∙ ap g (omega arith)

-- Words that fit their bits are read off a sequence in one way.
pub word_bits_inj :
    (n x y : ℕ) (xs ys : List ℕ)
    → x < 2 ^ n
    → y < 2 ^ n
    → word_bits n x ++ xs ≡ word_bits n y ++ ys
    → (x ≡ y) × (xs ≡ ys)
unfolding word_bits
word_bits_inj n x y xs ys hx hy e =
    let h = bits_from_inj (testbit x) (testbit y) 0 0 n xs ys e in
    (testbit_ext n x y hx hy (λ i p. shift i (h.0 i p)), h.1)
  where
    shift : (i : ℕ) → testbit x (0 + i) ≡ testbit y (0 + i) → testbit x i ≡ testbit y i
    shift i e = ap (testbit x) (omega arith) ∙ e ∙ ap (testbit y) (omega arith)

-- The bits above the `n` low ones do not count.
pub word_bits-mod : (n x : ℕ) → word_bits n (x % 2 ^ n) ≡ word_bits n x
unfolding word_bits
word_bits-mod n x =
    bits_from_ext (testbit (x % 2 ^ n)) (testbit x) 0 0 n
      (λ k p. ground (arith, testbit-mod n x (0 + k)))
