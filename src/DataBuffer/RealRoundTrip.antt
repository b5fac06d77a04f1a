-- ===== src/DataBuffer/RealRoundTrip.antt =====
-- `add_real` and `read_real`: what the readers get of a real.
use tick_synchronizer.Prelude.{
  ℕ, zero, suc, ◌^◌, ◌≤◌, ◌<◌, ◌≡◌, refl, sym, ap, ◌∙◌, true, false, arith, Bool-cases, inl, inr,
}
use native.Mathlib.Nat.{mod-eq_of_lt}
use tick_synchronizer.Prelude.Int.{pos, negsuc}
use tick_synchronizer.Bits.Stream.{word_bits}
use tick_synchronizer.BitArray.{ByteVector, IsBytes}
use tick_synchronizer.Floats.{Floats, FloatLaws}
use tick_synchronizer.DataBuffer.{TickDataBuffer, begin_write, begin_read, is_end_of_buffer}
use tick_synchronizer.DataBuffer.Values.{
  CompressionLevel, is_valid_compression_level, get_bit_taken, bit_sizes, data_type_real,
}
use tick_synchronizer.DataBuffer.Stream.{
  write_bits-Appends, begin_write-IsAppending, check_reading-ready, fetch_bits-Delivers,
}
use tick_synchronizer.DataBuffer.SentStrings.{check_writing-ready}
use tick_synchronizer.DataBuffer.Reals.{
  real_word, sent_real, finite_or_nought, real_of_word, add_real, read_real,
}
use tick_synchronizer.DataBuffer.Carries.{Carries, Carries-message}

module _ (f : Floats) (l : FloatLaws f) where
  -- The word of a real fits its width, stands for what is sent, and that is finite.
  record SoundWord (level : CompressionLevel) (x : f.Double) : Type 0 where
    some_bits : 0 < get_bit_taken data_type_real level
    word_size : get_bit_taken data_type_real level ≤ 64
    fits : real_word f level x < 2 ^ get_bit_taken data_type_real level
    back : real_of_word f level (real_word f level x) ≡ sent_real f level x
    finite : f.is_finite (sent_real f level x) ≡ true

  half-SoundWord :
      (n : ℕ) (x : f.Double) → n ≤ 1 → f.is_finite x ≡ true → SoundWord (pos (suc (suc n))) x
  unfolding real_word real_of_word sent_real get_bit_taken bit_sizes is_valid_compression_level
  half-SoundWord zero x h e = record {
    some_bits = omega arith;
    word_size = omega arith;
    fits = l.make_half_float_lt _;
    back = ap (λ n. f.of_single (f.half_to_float n)) (mod-eq_of_lt (l.make_half_float_lt _));
    finite = l.half_finite x e;
  }
  half-SoundWord (suc zero) x h e = record {
    some_bits = omega arith;
    word_size = omega arith;
    fits = l.make_half_float_lt _;
    back = ap (λ n. f.of_single (f.half_to_float n)) (mod-eq_of_lt (l.make_half_float_lt _));
    finite = l.half_finite x e;
  }
  half-SoundWord (suc (suc n)) x h e = absurd (omega arith)

  any-SoundWord :
      (level : CompressionLevel) (x : f.Double)
      → is_valid_compression_level level ≡ true
      → f.is_finite x ≡ true
      → SoundWord level x
  unfolding real_word real_of_word sent_real get_bit_taken bit_sizes is_valid_compression_level
  any-SoundWord (pos zero) x h e = record {
    some_bits = omega arith;
    word_size = omega arith;
    fits = l.double_bits_lt x;
    back = l.double_bits_back x;
    finite = e;
  }
  any-SoundWord (pos (suc zero)) x h e = record {
    some_bits = omega arith;
    word_size = omega arith;
    fits = l.single_bits_lt _;
    back =
        ap (λ n. f.of_single (f.of_single_bits n)) (mod-eq_of_lt (l.single_bits_lt _))
        ∙ ap f.of_single (l.single_bits_back _);
    finite = l.single_finite x e;
  }
  any-SoundWord (pos (suc (suc n))) x h e = half-SoundWord n x (ground arith) e
  any-SoundWord (negsuc n) x h e = absurd (ground arith)

  finite_or_nought-finite : (x : f.Double) → f.is_finite (finite_or_nought f x) ≡ true
  finite_or_nought-finite x = elim (Bool-cases (f.is_finite x)) [
    | inl e ↦ rw e e
    | inr e ↦ rw e l.nought_finite
  ]

  module _ (v : ByteVector) where
    pub real-Carries :
        (x : f.Double) (level : CompressionLevel)
        → is_valid_compression_level level ≡ true
        → Carries
            (λ s. (add_real f v s x level).0)
            (λ s. read_real f s level)
            (sent_real f level (finite_or_nought f x))
    unfolding add_real read_real
    real-Carries x level h =
        let input = finite_or_nought f x in
        let i = any-SoundWord level input h (finite_or_nought-finite x) in
        let n = get_bit_taken data_type_real level in
        let word = real_word f level input in
        record {
          bits = word_bits n word;
          appends = λ s a.
              rw (h, check_writing-ready s a.writable.writing)
                (write_bits-Appends v s word n a i.some_bits i.word_size);
          delivers = λ s rest r e.
              let d = fetch_bits-Delivers s n word rest r i.some_bits i.word_size i.fits e in
              rw (h, check_reading-ready s n word rest r e, d.1, i.back, i.finite) (d.0, refl);
        }

    add_real-returns :
        (s : TickDataBuffer) (x : f.Double) (level : CompressionLevel)
        → is_valid_compression_level level ≡ true
        → s.is_reading ≡ false
        → (add_real f v s x level).1 ≡ sent_real f level (finite_or_nought f x)
    unfolding add_real
    add_real-returns s x level h w = rw (h, check_writing-ready s w) refl

    -- For floating point with its laws, any buffer of bytes, any real and any valid compression
    -- level: a real that is added after `begin_write` and read after `begin_read` is what the
    -- writer was told, which is finite even where the real is not; the reader does not fail and
    -- ends at the end of the data.
    pub read_real-add_real :
        (s : TickDataBuffer) (x : f.Double) (level : CompressionLevel)
        → IsBytes s.buffer.bytes
        → is_valid_compression_level level ≡ true
        → let sent = add_real f v (begin_write v s (pos 0)) x level in
          let received = read_real f (begin_read sent.0) level in
          (received.1 ≡ sent.1)
          × (f.is_finite received.1 ≡ true)
          × (received.0.buffer_failed ≡ false)
          × (is_end_of_buffer received.0 ≡ true)
    read_real-add_real s x level b h =
        let c = real-Carries x level h in
        let m =
          Carries-message v s (λ s. (add_real f v s x level).0) (λ s. read_real f s level) b c in
        let start = begin_write-IsAppending v s b in
        let i = any-SoundWord level (finite_or_nought f x) h (finite_or_nought-finite x) in
        let e = add_real-returns (begin_write v s (pos 0)) x level h start.0.writable.writing in
        (m.0 ∙ sym e, ap f.is_finite m.0 ∙ i.finite, m.1, m.2)
