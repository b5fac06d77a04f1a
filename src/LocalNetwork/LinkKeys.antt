-- ===== src/LocalNetwork/LinkKeys.antt =====
-- `TickLocalNetwork::make_link_key`: different links have different keys.
use tick_synchronizer.Prelude.{
  ℕ, zero, suc, ◌+◌, ◌-◌, ◌*◌, ◌/◌, ◌%◌, ◌^◌, ◌<◌, bit_and, bit_or, ◌≡◌, refl, ap, ◌∙◌, arith,
}
use native.Mathlib.Nat.{pow-suc}
use tick_synchronizer.Bits.{
  testbit_ext, testbit-le_one, testbit-bit_and, testbit-mod, testbit-low_mask, bit_and-lt,
  mod_two_pow-lt, lt_two_pow,
}
use tick_synchronizer.Bits.Words.{two_pow-pos}
use tick_synchronizer.Bits.Step.{bit_or_step}
use tick_synchronizer.LocalNetwork.{make_link_key}

bit_and-low_mask : (w x : ℕ) → bit_and x (2 ^ w - 1) ≡ x % 2 ^ w
bit_and-low_mask w x =
    testbit_ext w (bit_and x (2 ^ w - 1)) (x % 2 ^ w)
      (bit_and-lt w x (2 ^ w - 1) (omega (arith, two_pow-pos w))) (mod_two_pow-lt x w)
      (λ i h. ground (
        arith,
        testbit-bit_and x (2 ^ w - 1) i,
        testbit-mod w x i,
        testbit-low_mask w i,
        testbit-le_one x i,
      ))

bit_or-zero : (w x : ℕ) → x < 2 ^ w → bit_or x 0 ≡ x
bit_or-zero zero x h = let e : x ≡ 0 = omega arith in rw e refl
bit_or-zero (suc w) x h =
    omega (arith, bit_or_step x 0, bit_or-zero w (x / 2) (omega (arith, pow-suc 2 w)))

-- A number of low bits set beside the rest.
bit_or-disjoint : (w x y : ℕ) → y < 2 ^ w → bit_or (x * 2 ^ w) y ≡ x * 2 ^ w + y
bit_or-disjoint zero x y h =
    let e : y ≡ 0 = omega arith in
    let e' : x * 1 ≡ x = omega arith in rw (e, e') (bit_or-zero x x (lt_two_pow x) ∙ omega arith)
bit_or-disjoint (suc w) x y h =
    let half : x * 2 ^ suc w / 2 ≡ x * 2 ^ w = omega (arith, ap (λ (t : ℕ). x * t) (pow-suc 2 w)) in
    let rest = bit_or-disjoint w x (y / 2) (omega (arith, pow-suc 2 w)) in
    omega (
      arith,
      bit_or_step (x * 2 ^ suc w) y,
      ap (λ t. bit_or t (y / 2)) half,
      rest,
      ap (λ (t : ℕ). x * t) (pow-suc 2 w),
    )

-- The key by its three fields.
pub make_link_key_lem :
    (from to channel : ℕ)
    → make_link_key from to channel
      ≡ from % 2 ^ 24 * 2 ^ 40 + to % 2 ^ 24 * 2 ^ 16 + channel % 2 ^ 16
unfolding make_link_key
make_link_key_lem from to channel =
    let e = bit_and-low_mask 24 from in
    let e' = bit_and-low_mask 24 to in
    let e'' = bit_and-low_mask 16 channel in
    let high = bit_or-disjoint 40 (from % 2 ^ 24) (to % 2 ^ 24 * 2 ^ 16) (omega arith) in
    let shift : from % 2 ^ 24 * 2 ^ 40 + to % 2 ^ 24 * 2 ^ 16
        ≡ (from % 2 ^ 24 * 2 ^ 24 + to % 2 ^ 24) * 2 ^ 16 =
      omega arith in
    let low =
      bit_or-disjoint 16 (from % 2 ^ 24 * 2 ^ 24 + to % 2 ^ 24) (channel % 2 ^ 16) (omega arith) in
    rw (e, e', e'', high, shift, low) (omega arith)

-- For senders and recipients below 2 ^ 24 and channels below 2 ^ 16, links that differ in any of
-- the three have different keys.
pub make_link_key_inj :
    (from to channel from' to' channel' : ℕ)
    → from < 2 ^ 24
    → to < 2 ^ 24
    → channel < 2 ^ 16
    → from' < 2 ^ 24
    → to' < 2 ^ 24
    → channel' < 2 ^ 16
    → make_link_key from to channel ≡ make_link_key from' to' channel'
    → (from ≡ from') × (to ≡ to') × (channel ≡ channel')
make_link_key_inj from to channel from' to' channel' a b c a' b' c' e =
    let h = make_link_key_lem from to channel in
    let h' = make_link_key_lem from' to' channel' in omega arith
