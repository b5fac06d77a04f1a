-- ===== src/Bits/Step.antt =====
-- The lowest binary digit of `a | b` and of `a & b`, and the digits above it. The native operations
-- are a recursion on the digits whose fuel is the number itself.
use Prim.Native.Nat.{digits, bit_and-bitwise, bit_or-bitwise}
use tick_synchronizer.Prelude.{
  ℕ, zero, suc, ◌+◌, ◌-◌, ◌*◌, ◌/◌, ◌%◌, ◌≤◌, min, max, bit_and, bit_or, ◌≡◌, refl, ap, ◌∙◌, arith,
}

module _ (rest : ℕ → ℕ) (digit : ℕ → ℕ → ℕ) where
  -- One more round than the number needs changes nothing, and so do any number of them.
  digits-suc :
      (fuel x y : ℕ) → x ≤ fuel → digits rest digit (suc fuel) x y ≡ digits rest digit fuel x y
  digits-suc zero zero y q = refl
  digits-suc zero (suc x) y q = absurd (omega arith)
  digits-suc (suc fuel) zero y q = refl
  digits-suc (suc fuel) (suc x) y q =
      omega (arith, digits-suc fuel (suc x / 2) (y / 2) (omega arith))

  digits_add :
      (more fuel x y : ℕ)
      → x ≤ fuel
      → digits rest digit (more + fuel) x y ≡ digits rest digit fuel x y
  digits_add zero fuel x y q = ap (λ k. digits rest digit k x y) (omega arith)
  digits_add (suc more) fuel x y q =
      ap (λ k. digits rest digit k x y) {y = suc (more + fuel)} (omega arith)
      ∙ digits-suc (more + fuel) x y (omega arith)
      ∙ digits_add more fuel x y q

  digits_half :
      (x y : ℕ) → digits rest digit x (suc x / 2) y ≡ digits rest digit (suc x / 2) (suc x / 2) y
  digits_half x y =
      ap (λ k. digits rest digit k (suc x / 2) y) (omega arith)
      ∙ digits_add (x - suc x / 2) (suc x / 2) (suc x / 2) y (omega arith)

pub bit_and_step : (x y : ℕ) → bit_and x y ≡ min (x % 2) (y % 2) + bit_and (x / 2) (y / 2) * 2
bit_and_step zero y = simp bit_and-bitwise (omega arith)
bit_and_step (suc x) y = simp bit_and-bitwise (omega (arith, digits_half (λ k. 0) min x (y / 2)))

pub bit_or_step : (x y : ℕ) → bit_or x y ≡ max (x % 2) (y % 2) + bit_or (x / 2) (y / 2) * 2
bit_or_step zero y = simp bit_or-bitwise (omega arith)
bit_or_step (suc x) y = simp bit_or-bitwise (omega (arith, digits_half (λ k. k) max x (y / 2)))
