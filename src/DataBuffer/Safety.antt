-- ===== src/DataBuffer/Safety.antt =====
-- Reading untrusted data: what every `read_*` and `skip` does on any buffer, however malformed.
use tick_synchronizer.Prelude.{
  ℕ, ◌-◌, ◌≤◌, max, ◌≡◌, refl, ap, ◌∙◌, true, false, not, ◌==◌, if◌then◌else◌, arith, Bool-cases,
  inl, inr, ◌⊎◌,
}
use tick_synchronizer.Prelude.Int.{ℤ, pos, pos_part, ◌-ℤ◌}
use tick_synchronizer.Prelude.Words.{of_word}
use tick_synchronizer.Bits.{testbit-zero}
use tick_synchronizer.Bits.Words.{bit_and-two_pow-zero}
use tick_synchronizer.BitArray.Read.{read_bits_kept}
use tick_synchronizer.DataBuffer.{TickDataBuffer, check_reading, fetch_bits, total_size}
use tick_synchronizer.DataBuffer.Values.{
  is_valid_compression_level, get_bit_taken, data_type_int, data_type_uint, extend_int,
  extend_int_bits, is_bad_width, read_bool, read_int, read_uint, read_uint_bits, read_int_bits,
}
use tick_synchronizer.DataBuffer.Messages.{
  Field, bool, int, uint, int_bits, uint_bits, Value, truth, signed, unsigned, read_field,
}

-- Nothing of the data changes, the offset goes forward and never past the data, and a failed buffer
-- stays failed, where it was.
pub record IsSafe (s t : TickDataBuffer) : Type 0 where
  pub same_buffer : t.buffer ≡ s.buffer
  pub same_metadata : t.metadata_size ≡ s.metadata_size
  pub same_size : t.bit_size ≡ s.bit_size
  pub same_mode : t.is_reading ≡ s.is_reading
  pub forward : s.bit_offset ≤ t.bit_offset
  pub inside : t.bit_offset ≤ max s.bit_offset (total_size t)
  pub sticky :
      (s.buffer_failed ≡ false) ⊎ ((t.buffer_failed ≡ true) × (t.bit_offset ≡ s.bit_offset))

-- What a value is when nothing could be read.
abbrev pub default : Field → Value
default (bool b) = truth false
default (int x level) = signed (pos 0)
default (uint x level) = unsigned 0
default (int_bits x n) = signed (pos 0)
default (uint_bits x n) = unsigned 0

IsSafe-refl : (s : TickDataBuffer) → IsSafe s s
IsSafe-refl s = record {
  same_buffer = refl;
  same_metadata = refl;
  same_size = refl;
  same_mode = refl;
  forward = omega arith;
  inside = omega arith;
  sticky = ground arith;
}

-- The pattern of every read: `n` bits are fetched if they are there.
unfoldable pub fetch_if_ready : TickDataBuffer → ℤ → TickDataBuffer × ℕ
fetch_if_ready s bits =
    let (s, ready) = check_reading s bits in
    if not ready then (s, 0) else fetch_bits s (pos_part bits)

pub record IsSafeFetch (s : TickDataBuffer) (r : TickDataBuffer × ℕ) : Type 0 where
  pub safe : IsSafe s r.0
  pub nothing : (r.0.buffer_failed ≡ false) ⊎ (r.1 ≡ 0)

fetch_if_ready-IsSafeFetch : (s : TickDataBuffer) (bits : ℤ) → IsSafeFetch s (fetch_if_ready s bits)
unfolding fetch_if_ready check_reading fetch_bits total_size ◌-ℤ◌
fetch_if_ready-IsSafeFetch s bits =
    let g = read_bits_kept s.buffer (pos s.bit_offset) (pos (pos_part bits)) 0 in
    record {
      safe = record {
        same_buffer = ground arith;
        same_metadata = ground arith;
        same_size = ground arith;
        same_mode = ground arith;
        forward = ground arith;
        inside = ground arith;
        sticky = ground arith;
      };
      nothing = ground (arith, g);
    }

-- The reads are that pattern, then a conversion that takes 0 to the default.
pub read_bool_lem :
    (s : TickDataBuffer) → read_bool s ≡ (let r = fetch_if_ready s (pos 1) in (r.0, not (r.1 == 0)))
unfolding read_bool fetch_if_ready
read_bool_lem s = elim (Bool-cases (check_reading s (pos 1)).1) [
  | inl e ↦ rw e refl
  | inr e ↦ rw e refl
]

extend_int_zero : (n : ℕ) → extend_int n 0 ≡ pos 0
unfolding extend_int of_word
extend_int_zero n = ground arith

extend_int_bits_zero : (n : ℕ) → extend_int_bits n 0 ≡ pos 0
unfolding extend_int_bits of_word
extend_int_bits_zero n = rw (bit_and-two_pow-zero 0 (n - 1) (testbit-zero (n - 1))) (ground arith)

pub read_int_lem :
    (s : TickDataBuffer) (level : ℤ)
    → read_int s level ≡ (
        if not (is_valid_compression_level level)
        then (s, pos 0)
        else let bits = get_bit_taken data_type_int level in
          let r = fetch_if_ready s (pos bits) in (r.0, extend_int bits r.1))
unfolding read_int fetch_if_ready
read_int_lem s level =
    let zero_int = extend_int_zero (get_bit_taken data_type_int level) in
    elim (Bool-cases (check_reading s (pos (get_bit_taken data_type_int level))).1) [
      | inl e ↦ rw e refl
      | inr e ↦ rw (e, zero_int) refl
    ]

pub read_uint_lem :
    (s : TickDataBuffer) (level : ℤ)
    → read_uint s level ≡ (
        if not (is_valid_compression_level level)
        then (s, 0)
        else fetch_if_ready s (pos (get_bit_taken data_type_uint level)))
unfolding read_uint fetch_if_ready
read_uint_lem s level = refl

pub read_uint_bits_lem :
    (s : TickDataBuffer) (bits : ℤ)
    → read_uint_bits s bits ≡ (if is_bad_width bits then (s, 0) else fetch_if_ready s bits)
unfolding read_uint_bits fetch_if_ready
read_uint_bits_lem s bits = refl

pub read_int_bits_lem :
    (s : TickDataBuffer) (bits : ℤ)
    → read_int_bits s bits ≡ (
        if is_bad_width bits
        then (s, pos 0)
        else let r = fetch_if_ready s bits in (r.0, extend_int_bits (pos_part bits) r.1))
unfolding read_int_bits fetch_if_ready
read_int_bits_lem s bits = elim (Bool-cases (check_reading s bits).1) [
  | inl e ↦ rw e refl
  | inr e ↦ rw (e, extend_int_bits_zero (pos_part bits)) refl
]

-- Safety of a conversion after the pattern, where it takes 0 to the default `d`.
converted {ℓ} :
    {A : Type ℓ} (s : TickDataBuffer) (r : TickDataBuffer × ℕ) (f : ℕ → A) (d : A)
    → f 0 ≡ d
    → IsSafeFetch s r
    → IsSafe s r.0 × ((r.0.buffer_failed ≡ false) ⊎ (f r.1 ≡ d))
converted s r f d e h = (h.safe, either h.nothing)
  where
    either : (r.0.buffer_failed ≡ false) ⊎ (r.1 ≡ 0) → (r.0.buffer_failed ≡ false) ⊎ (f r.1 ≡ d)
    either (inl p) = inl p
    either (inr p) = inr (ap f p ∙ e)

-- Any boolean or integer read, at any compression level and any number of bits that is not
-- negative, on any buffer: it leaves the data and the mode as they were, moves the offset forward
-- and never past the data, leaves a failed buffer failed and where it was, and unless the buffer
-- is sound after it returns the default value.
pub read_field-IsSafe :
    (s : TickDataBuffer) (f : Field)
    → IsSafe s (read_field s f).0
      × (((read_field s f).0.buffer_failed ≡ false) ⊎ ((read_field s f).1 ≡ default f))
unfolding read_field
read_field-IsSafe s (bool b) = rw (read_bool_lem s) (
    converted s _ (λ x. truth (not (x == 0))) (truth false) refl
      (fetch_if_ready-IsSafeFetch s (pos 1)))
read_field-IsSafe s (int x level) =
    let bits = get_bit_taken data_type_int level in
    rw (read_int_lem s level) (elim (Bool-cases (is_valid_compression_level level)) [
      | inl e ↦ rw e (
          converted s _ (λ x. signed (extend_int bits x)) (signed (pos 0))
            (ap signed (extend_int_zero bits)) (fetch_if_ready-IsSafeFetch s (pos bits)))
      | inr e ↦ rw e (IsSafe-refl s, inr refl)
    ])
read_field-IsSafe s (uint x level) =
    rw (read_uint_lem s level) (elim (Bool-cases (is_valid_compression_level level)) [
      | inl e ↦ rw e (
          converted s _ unsigned (unsigned 0) refl
            (fetch_if_ready-IsSafeFetch s (pos (get_bit_taken data_type_uint level))))
      | inr e ↦ rw e (IsSafe-refl s, inr refl)
    ])
read_field-IsSafe s (int_bits x n) =
    rw (read_int_bits_lem s (pos n)) (elim (Bool-cases (is_bad_width (pos n))) [
      | inl e ↦ rw e (IsSafe-refl s, inr refl)
      | inr e ↦ rw e (
          converted s _ (λ x. signed (extend_int_bits n x)) (signed (pos 0))
            (ap signed (extend_int_bits_zero n)) (fetch_if_ready-IsSafeFetch s (pos n)))
    ])
read_field-IsSafe s (uint_bits x n) =
    rw (read_uint_bits_lem s (pos n)) (elim (Bool-cases (is_bad_width (pos n))) [
      | inl e ↦ rw e (IsSafe-refl s, inr refl)
      | inr e ↦
          rw e (converted s _ unsigned (unsigned 0) refl (fetch_if_ready-IsSafeFetch s (pos n)))
    ])
