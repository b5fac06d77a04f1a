-- ===== src/Codec/Layout.antt =====
-- `TickCodec`: what the readers get of a value, wherever it stands in a message.
use tick_synchronizer.Prelude.{ℕ, ◌-◌, ◌^◌, ◌≤◌, ◌<◌, min, ◌≡◌, true, arith, if◌then◌else◌}
use tick_synchronizer.Prelude.Int.{pos}
use tick_synchronizer.Prelude.Words.{clamp_ℤ}
use tick_synchronizer.BitArray.{ByteVector}
use tick_synchronizer.Floats.{Floats, FloatLaws, Vector2, Vector3}
use tick_synchronizer.Variants.{Variants}
use tick_synchronizer.DataBuffer.{TickDataBuffer, empty_buffer}
use tick_synchronizer.DataBuffer.Values.{
  CompressionLevel, is_valid_compression_level, add_uint_bits, read_uint_bits,
}
use tick_synchronizer.DataBuffer.Reals.{add_real, read_real, sent_real, finite_or_nought}
use tick_synchronizer.DataBuffer.Vectors.{add_vector2, read_vector2, add_vector3, read_vector3}
use tick_synchronizer.DataBuffer.Carries.{
  Carries, Carries-both, Carries-map, Carries-message, bool-Carries, uint_bits-Carries,
  int_bits-Carries,
}
use tick_synchronizer.DataBuffer.Ints.{clamp_signed}
use tick_synchronizer.DataBuffer.RealRoundTrip.{real-Carries}
use tick_synchronizer.Codec.{
  TickCodec, Kind, Precision, kind_bool, kind_int, kind_real, kind_real_ranged, kind_vector2,
  kind_vector2_ranged, kind_normalized_vector2, kind_vector3, kind_vector3_ranged,
  kind_normalized_vector3, kind_quaternion, kind_variant, get_compression_level, default_value,
  check_type,
}
use tick_synchronizer.Codec.Sendable.{is_sendable}
use tick_synchronizer.Codec.SentVariants.{SerializerLaws, delivered_variant, variant-Carries}
use tick_synchronizer.Codec.Coding.{
  quantize_ranged, dequantize_ranged, add_ranged, read_ranged, add_kind, read_kind, encode, decode,
  quantize,
}

-- A precision always gives a valid level.
get_compression_level-valid :
    (p : Precision) → is_valid_compression_level (get_compression_level p) ≡ true
unfolding get_compression_level clamp_ℤ is_valid_compression_level
get_compression_level-valid p = ground arith

-- The kinds whose fields are booleans, integers, reals, numbers of a range and variants, with the
-- widths that the constructors give.
abbrev pub HasLayout : Kind → ℕ → Type 0
HasLayout kind_bool n = Unit {0}
HasLayout kind_int n = (0 < n) × (n ≤ 64)
HasLayout kind_real n = Unit {0}
HasLayout kind_real_ranged n = (0 < n) × (n ≤ 32)
HasLayout kind_vector2 n = Unit {0}
HasLayout kind_vector2_ranged n = (0 < n) × (n ≤ 32)
HasLayout kind_vector3 n = Unit {0}
HasLayout kind_vector3_ranged n = (0 < n) × (n ≤ 32)
HasLayout kind_normalized_vector2 n = 1 ≤ 0
HasLayout kind_normalized_vector3 n = 1 ≤ 0
HasLayout kind_quaternion n = 1 ≤ 0
HasLayout kind_variant n = Unit {0}

-- What the serializer needs of the value that is encoded: if it may be sent, it is plain.
abbrev pub IsGivenBack :
    {f : Floats} (w : Variants f) → SerializerLaws w → Kind → w.Variant → Type 0
IsGivenBack w r kind_variant x = is_sendable w x ≡ true → r.is_plain x ≡ true
IsGivenBack w r _ x = Unit {0}

module _ (f : Floats) where
  -- A number of a range.
  abbrev pub ranged : TickCodec f → f.Double → f.Double
  ranged c x =
      dequantize_ranged f
        (min (quantize_ranged f x c.range_min c.range_max c.bits) (2 ^ c.bits - 1)) c.range_min
        c.range_max c.bits

  -- A real at the precision of a codec.
  abbrev pub rounded : TickCodec f → f.Double → f.Double
  rounded c x = sent_real f (get_compression_level c.precision) (finite_or_nought f x)

  -- The components of a vector, each encoded.
  abbrev pub each2 : (f.Double → f.Double) → Vector2 f.Scalar → Vector2 f.Scalar
  each2 sent p = record {
    x = f.scalar (sent (f.of_scalar p.x));
    y = f.scalar (sent (f.of_scalar p.y));
  }

  abbrev pub each3 : (f.Double → f.Double) → Vector3 f.Scalar → Vector3 f.Scalar
  each3 sent p = record {
    x = f.scalar (sent (f.of_scalar p.x));
    y = f.scalar (sent (f.of_scalar p.y));
    z = f.scalar (sent (f.of_scalar p.z));
  }

  -- What the readers get of a value that has the type of the kind.
  unfoldable pub delivered_value : (w : Variants f) → TickCodec f → Kind → w.Variant → w.Variant
  delivered_value w c kind_bool x = w.of_bool (w.to_bool x)
  delivered_value w c kind_int x = w.of_int (clamp_signed c.bits (w.to_int x))
  delivered_value w c kind_real x = w.of_real (rounded c (w.to_real x))
  delivered_value w c kind_real_ranged x = w.of_real (ranged c (w.to_real x))
  delivered_value w c kind_vector2 x = w.of_vector2 (each2 (rounded c) (w.to_vector2 x))
  delivered_value w c kind_vector2_ranged x = w.of_vector2 (each2 (ranged c) (w.to_vector2 x))
  delivered_value w c kind_vector3 x = w.of_vector3 (each3 (rounded c) (w.to_vector3 x))
  delivered_value w c kind_vector3_ranged x = w.of_vector3 (each3 (ranged c) (w.to_vector3 x))
  delivered_value w c kind_variant x = delivered_variant w x
  delivered_value w c _ x = x

module _ (f : Floats) (l : FloatLaws f) (v : ByteVector) where
  ranged-Carries :
      (c : TickCodec f) (x : f.Double)
      → (0 < c.bits) × (c.bits ≤ 32)
      → Carries (λ s. add_ranged f v c s x) (λ s. read_ranged f c s) (ranged f c x)
  unfolding add_ranged read_ranged
  ranged-Carries c x h =
      let n = quantize_ranged f x c.range_min c.range_max c.bits in
      Carries-map (λ s. (add_uint_bits v s n (pos c.bits)).0) (λ s. read_uint_bits s (pos c.bits))
        (λ k. dequantize_ranged f k c.range_min c.range_max c.bits)
        (uint_bits-Carries v n c.bits h.0 (omega arith))

  -- Two or three numbers that are written the same way.
  two-Carries :
      (write : TickDataBuffer → f.Double → TickDataBuffer)
      (read : TickDataBuffer → TickDataBuffer × f.Double) (sent : f.Double → f.Double)
      → ((x : f.Double) → Carries (λ s. write s x) read (sent x))
      → (x y : f.Double)
      → Carries {A = Vector2 f.Scalar}
          (λ s. write (write s x) y)
          (λ s.
            let (s, x) = read s in
            let (s, y) = read s in (s, record { x = f.scalar x; y = f.scalar y }))
          (record { x = f.scalar (sent x); y = f.scalar (sent y) })
  two-Carries write read sent h x y =
      Carries-both {C = Vector2 f.Scalar} (λ s. write s x) (λ s. write s y) read read
        (λ x y. record { x = f.scalar x; y = f.scalar y }) (h x) (h y)

  three-Carries :
      (write : TickDataBuffer → f.Double → TickDataBuffer)
      (read : TickDataBuffer → TickDataBuffer × f.Double) (sent : f.Double → f.Double)
      → ((x : f.Double) → Carries (λ s. write s x) read (sent x))
      → (x y z : f.Double)
      → Carries {A = Vector3 f.Scalar}
          (λ s. write (write (write s x) y) z)
          (λ s.
            let (s, x) = read s in
            let (s, y) = read s in
            let (s, z) = read s in (s, record { x = f.scalar x; y = f.scalar y; z = f.scalar z }))
          (record { x = f.scalar (sent x); y = f.scalar (sent y); z = f.scalar (sent z) })
  three-Carries write read sent h x y z =
      Carries-both {C = Vector3 f.Scalar} (λ s. write (write s x) y) (λ s. write s z)
        (λ s. let (s, x) = read s in let (s, y) = read s in (s, (x, y))) read
        (λ p z. record { x = f.scalar p.0; y = f.scalar p.1; z = f.scalar z })
        (Carries-both {C = f.Double × f.Double} (λ s. write s x) (λ s. write s y) read read
          (λ x y. (x, y)) (h x) (h y))
        (h z)

  module _ (w : Variants f) (r : SerializerLaws w) (c : TickCodec f) where
    abbrev level : CompressionLevel
    level = get_compression_level c.precision

    real-Sent :
        (x : f.Double)
        → Carries
            (λ s. (add_real f v s x level).0)
            (λ s. read_real f s level)
            (sent_real f level (finite_or_nought f x))
    real-Sent x = real-Carries f l v x level (get_compression_level-valid c.precision)

    carried :
        (k : Kind) (x : w.Variant)
        → HasLayout k c.bits
        → IsGivenBack w r k x
        → Carries (λ s. add_kind v w c k s x) (λ s. read_kind w c k s) (delivered_value f w c k x)
    unfolding add_kind read_kind add_vector2 read_vector2 add_vector3 read_vector3 delivered_value
    carried kind_bool x h p = Carries-map _ _ w.of_bool (bool-Carries v (w.to_bool x))
    carried kind_int x h p =
        Carries-map _ _ w.of_int (int_bits-Carries v (w.to_int x) c.bits h.0 h.1 (w.int_in_range x))
    carried kind_real x h p = Carries-map _ _ w.of_real (real-Sent (w.to_real x))
    carried kind_real_ranged x h p = Carries-map _ _ w.of_real (ranged-Carries c (w.to_real x) h)
    carried kind_vector2 x h _ =
        let p = w.to_vector2 x in
        Carries-map _ _ w.of_vector2 (
          two-Carries (λ s x. (add_real f v s x level).0) (λ s. read_real f s level) (rounded f c)
            real-Sent (f.of_scalar p.x) (f.of_scalar p.y))
    carried kind_vector2_ranged x h _ =
        let p = w.to_vector2 x in
        Carries-map _ _ w.of_vector2 (
          two-Carries (λ s x. add_ranged f v c s x) (λ s. read_ranged f c s) (ranged f c)
            (λ x. ranged-Carries c x h) (f.of_scalar p.x) (f.of_scalar p.y))
    carried kind_vector3 x h _ =
        let p = w.to_vector3 x in
        Carries-map _ _ w.of_vector3 (
          three-Carries (λ s x. (add_real f v s x level).0) (λ s. read_real f s level) (rounded f c)
            real-Sent (f.of_scalar p.x) (f.of_scalar p.y) (f.of_scalar p.z))
    carried kind_vector3_ranged x h _ =
        let p = w.to_vector3 x in
        Carries-map _ _ w.of_vector3 (
          three-Carries (λ s x. add_ranged f v c s x) (λ s. read_ranged f c s) (ranged f c)
            (λ x. ranged-Carries c x h) (f.of_scalar p.x) (f.of_scalar p.y) (f.of_scalar p.z))
    carried kind_normalized_vector2 x h p = absurd (omega arith)
    carried kind_normalized_vector3 x h p = absurd (omega arith)
    carried kind_quaternion x h p = absurd (omega arith)
    carried kind_variant x h p = variant-Carries w r v x p

    -- For a codec of booleans, of integers of 1 to 64 bits, of reals, of numbers of a range of 1
    -- to 32 bits, of vectors of either, or of variants, over floating point and a serializer with
    -- their laws, and for any value, which for a codec of variants is plain if it may be sent, so
    -- that the serializer gives it back: `encode` appends bits that depend on the codec and the
    -- value alone to any buffer that is written in order, and `decode` of any readable buffer that
    -- goes on with these bits does not fail, reads just these bits, and returns what the kind
    -- delivers of the value, or of its default if the value has the wrong type: the truth value,
    -- the integer clamped to its width, each real at the precision or at the steps of the range,
    -- and a variant itself if it may be sent and its encoding is not too long, and otherwise nil.
    pub decode-encode :
        (x : w.Variant)
        → HasLayout c.kind c.bits
        → IsGivenBack w r c.kind (if check_type w c x then x else default_value w c.kind)
        → Carries
            (λ s. encode v w c s x)
            (λ s. decode w c s)
            (delivered_value f w c c.kind (if check_type w c x then x else default_value w c.kind))
    unfolding encode decode
    decode-encode x h p =
        carried c.kind (if check_type w c x then x else default_value w c.kind) h p

    -- For a codec of booleans, of integers of 1 to 64 bits, of reals, of numbers of a range of 1
    -- to 32 bits, of vectors of either, or of variants, over floating point and a serializer with
    -- their laws, and for any value, which for a codec of variants is plain if it may be sent, so
    -- that the serializer gives it back: `quantize` returns what the kind delivers to the readers
    -- of a message of the value, or of its default if the value has the wrong type.
    pub quantize_lem :
        (x : w.Variant)
        → HasLayout c.kind c.bits
        → IsGivenBack w r c.kind (if check_type w c x then x else default_value w c.kind)
        → quantize v w c x
          ≡ delivered_value f w c c.kind (if check_type w c x then x else default_value w c.kind)
    unfolding quantize
    quantize_lem x h p =
        (Carries-message v empty_buffer (λ s. encode v w c s x) (λ s. decode w c s)
          (λ j. omega arith) (decode-encode x h p)).0
