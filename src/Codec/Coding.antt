-- ===== src/Codec/Coding.antt =====
-- `TickCodec`: writing a value, reading it, and what the readers get of it.
use tick_synchronizer.Prelude.{
  ℕ, zero, suc, ◌*◌, ◌==◌, ◌||◌, ltb, length, not, Option, none, some, List, [], ◌∷◌, if◌then◌else◌,
}
use tick_synchronizer.Prelude.Int.{pos}
use tick_synchronizer.BitArray.{ByteVector}
use tick_synchronizer.Floats.{Floats, Quaternion, quaternion_identity}
use tick_synchronizer.Variants.{Variants}
use tick_synchronizer.DataBuffer.{
  TickDataBuffer, empty_buffer, begin_write, begin_read, mark_failed,
}
use tick_synchronizer.DataBuffer.Values.{
  add_bool, add_int_bits, add_uint_bits, read_bool, read_int_bits, read_uint_bits,
}
use tick_synchronizer.DataBuffer.Strings.{add_bits, read_raw_bits}
use tick_synchronizer.DataBuffer.Reals.{all_ones, add_real, read_real}
use tick_synchronizer.DataBuffer.Vectors.{
  add_vector2, read_vector2, add_vector3, read_vector3, add_normalized_vector2,
  read_normalized_vector2, add_normalized_vector3, read_normalized_vector3,
}
use tick_synchronizer.Codec.{
  TickCodec, Kind, kind_bool, kind_int, kind_real, kind_real_ranged, kind_vector2,
  kind_vector2_ranged, kind_normalized_vector2, kind_vector3, kind_vector3_ranged,
  kind_normalized_vector3, kind_quaternion, kind_variant, max_variant_bytes, get_compression_level,
  default_value, check_type,
}
use tick_synchronizer.Codec.Sendable.{is_sendable}

-- `q[i]`, and `q[i]` assigned.
abbrev pub component : {S : Type 0} → Quaternion S → ℕ → S
component q zero = q.x
component q (suc zero) = q.y
component q (suc (suc zero)) = q.z
component q (suc (suc (suc _))) = q.w

abbrev pub set_component : {S : Type 0} → Quaternion S → ℕ → S → Quaternion S
set_component q zero x = record q { x = x }
set_component q (suc zero) x = record q { y = x }
set_component q (suc (suc zero)) x = record q { z = x }
set_component q (suc (suc (suc _))) x = record q { w = x }

module _ (f : Floats) where
  unfoldable pub quantize_ranged : f.Double → f.Double → f.Double → ℕ → ℕ
  quantize_ranged x low high bits =
      let max_value = f.of_nat (all_ones bits) in
      let value = if f.is_nan x then low else f.clamp x low high in
      let unit = f.div (f.sub value low) (f.sub high low) in
      f.to_nat (f.round (f.mul unit max_value))

  unfoldable pub dequantize_ranged : ℕ → f.Double → f.Double → ℕ → f.Double
  dequantize_ranged x low high bits =
      let max_value = f.of_nat (all_ones bits) in
      f.add low (f.mul (f.div (f.of_nat x) max_value) (f.sub high low))

  -- The larger of two components, the first if neither is.
  abbrev larger : Quaternion f.Scalar → ℕ → ℕ → ℕ
  larger q i largest =
      if f.scalar_lt (f.scalar_abs (component q largest)) (f.scalar_abs (component q i))
      then i
      else largest

  unfoldable pub largest_component : Quaternion f.Scalar → ℕ
  largest_component q = larger q 3 (larger q 2 (larger q 1 0))

  -- `read_uint_bits` and `dequantize_ranged` of a component.
  unfoldable pub read_ranged : TickCodec f → TickDataBuffer → TickDataBuffer × f.Double
  unfolding dequantize_ranged
  read_ranged c s =
      let (s, x) = read_uint_bits s (pos c.bits) in
      (s, dequantize_ranged x c.range_min c.range_max c.bits)

  -- The loop over the components other than the largest: the rotation and the sum of the squares.
  unfoldable pub read_components :
      TickCodec f
      → TickDataBuffer
      → ℕ
      → List ℕ
      → Quaternion f.Scalar
      → f.Double
      → TickDataBuffer × (Quaternion f.Scalar × f.Double)
  read_components c s largest [] q sum = (s, (q, sum))
  read_components c s largest (i ∷ is) q sum =
      let (t, x) = read_ranged c s in
      let others = read_components c s largest is q sum in
      let rest =
        read_components c t largest is (set_component q i (f.scalar x)) (f.add sum (f.mul x x)) in
      if i == largest then others else rest

  unfoldable pub read_quaternion :
      TickCodec f → TickDataBuffer → TickDataBuffer × Quaternion f.Scalar
  unfolding read_components
  read_quaternion c s =
      let (s, largest) = read_uint_bits s (pos 2) in
      let (t, (q, sum)) =
        read_components c s largest (0 ∷ 1 ∷ 2 ∷ 3 ∷ []) (quaternion_identity f) f.nought in
      let whole = set_component q largest (f.scalar (f.sqrt (f.max f.nought (f.sub f.one sum)))) in
      (t, if t.buffer_failed then quaternion_identity f else f.quaternion_normalized whole)

  module _ (v : ByteVector) where
    -- `add_uint_bits` of `quantize_ranged`.
    unfoldable pub add_ranged : TickCodec f → TickDataBuffer → f.Double → TickDataBuffer
    unfolding quantize_ranged
    add_ranged c s x =
        (add_uint_bits v s (quantize_ranged x c.range_min c.range_max c.bits) (pos c.bits)).0

    -- The loop over the components other than the largest.
    unfoldable pub add_components :
        TickCodec f → TickDataBuffer → ℕ → List ℕ → Quaternion f.Scalar → f.Double → TickDataBuffer
    unfolding add_ranged
    add_components c s largest [] q sign = s
    add_components c s largest (i ∷ is) q sign =
        let others = add_components c s largest is q sign in
        let rest =
          add_components c (add_ranged c s (f.mul (f.of_scalar (component q i)) sign)) largest is q
            sign in
        if i == largest then others else rest

    unfoldable pub add_quaternion :
        TickCodec f → TickDataBuffer → Quaternion f.Scalar → TickDataBuffer
    unfolding largest_component add_components
    add_quaternion c s p =
        let q =
          if f.lt f.nought (f.of_scalar (f.quaternion_length_squared p))
          then f.quaternion_normalized p
          else quaternion_identity f in
        let largest = largest_component q in
        let sign =
          if f.lt (f.of_scalar (component q largest)) f.nought then f.neg f.one else f.one in
        add_components c (add_uint_bits v s largest (pos 2)).0 largest (0 ∷ 1 ∷ 2 ∷ 3 ∷ []) q sign

module _ {f : Floats} (w : Variants f) where
  -- A variant of `length` bytes, with whether it could be decoded.
  unfoldable pub read_variant : TickDataBuffer → TickDataBuffer × w.Variant
  read_variant s =
      let (s, len) = read_uint_bits s (pos 16) in
      let (t, bytes) = read_raw_bits s (pos (len * 8)) in
      if s.buffer_failed || (len == 0)
      then (s, w.nil)
      else if t.buffer_failed
      then (t, w.nil)
      else elim (w.decode_variant bytes) [
        | none ↦ (mark_failed t, w.nil)
        | some (value, used) ↦
            if not (used == len) || not (is_sendable w value)
            then (mark_failed t, w.nil)
            else (t, value)
      ]

  -- The `switch` of `decode`.
  unfoldable pub read_kind : TickCodec f → Kind → TickDataBuffer → TickDataBuffer × w.Variant
  unfolding read_ranged read_quaternion read_variant get_compression_level
  read_kind c kind_bool s = let (s, x) = read_bool s in (s, w.of_bool x)
  read_kind c kind_int s = let (s, x) = read_int_bits s (pos c.bits) in (s, w.of_int x)
  read_kind c kind_real s =
      let (s, x) = read_real f s (get_compression_level c.precision) in (s, w.of_real x)
  read_kind c kind_real_ranged s = let (s, x) = read_ranged f c s in (s, w.of_real x)
  read_kind c kind_vector2 s =
      let (s, p) = read_vector2 f s (get_compression_level c.precision) in (s, w.of_vector2 p)
  read_kind c kind_vector2_ranged s =
      let (s, x) = read_ranged f c s in
      let (s, y) = read_ranged f c s in
      (s, w.of_vector2 (record { x = f.scalar x; y = f.scalar y }))
  read_kind c kind_normalized_vector2 s =
      let (s, p) = read_normalized_vector2 f s (get_compression_level c.precision) in
      (s, w.of_vector2 p)
  read_kind c kind_vector3 s =
      let (s, p) = read_vector3 f s (get_compression_level c.precision) in (s, w.of_vector3 p)
  read_kind c kind_vector3_ranged s =
      let (s, x) = read_ranged f c s in
      let (s, y) = read_ranged f c s in
      let (s, z) = read_ranged f c s in
      (s, w.of_vector3 (record { x = f.scalar x; y = f.scalar y; z = f.scalar z }))
  read_kind c kind_normalized_vector3 s =
      let (s, p) = read_normalized_vector3 f s (get_compression_level c.precision) in
      (s, w.of_vector3 p)
  read_kind c kind_quaternion s = let (s, q) = read_quaternion f c s in (s, w.of_quaternion q)
  read_kind c kind_variant s = read_variant s

  unfoldable pub decode : TickCodec f → TickDataBuffer → TickDataBuffer × w.Variant
  unfolding read_kind
  decode c s = read_kind c c.kind s

module _ {f : Floats} (v : ByteVector) (w : Variants f) where
  -- The bytes of a value, if they are few enough.
  unfoldable pub short_encoding : w.Variant → Option (List ℕ)
  short_encoding x = elim (w.encode_variant x) [
    | none ↦ none
    | some bytes ↦ if ltb max_variant_bytes (length bytes) then none else some bytes
  ]

  unfoldable pub add_bytes : TickDataBuffer → List ℕ → TickDataBuffer
  add_bytes s bytes =
      add_bits v (add_uint_bits v s (length bytes) (pos 16)).0 bytes (pos (length bytes * 8))

  unfoldable pub add_variant : TickDataBuffer → w.Variant → TickDataBuffer
  unfolding short_encoding add_bytes
  add_variant s x =
      let value = if is_sendable w x then x else w.nil in
      elim (short_encoding value) [
        | some bytes ↦ add_bytes s bytes
        | none ↦ elim (w.encode_variant w.nil) [ none ↦ s | some bytes ↦ add_bytes s bytes ]
      ]

  -- The `switch` of `encode`.
  unfoldable pub add_kind : TickCodec f → Kind → TickDataBuffer → w.Variant → TickDataBuffer
  unfolding get_compression_level add_ranged add_quaternion add_variant
  add_kind c kind_bool s value = (add_bool v s (w.to_bool value)).0
  add_kind c kind_int s value = (add_int_bits v s (w.to_int value) (pos c.bits)).0
  add_kind c kind_real s value =
      (add_real f v s (w.to_real value) (get_compression_level c.precision)).0
  add_kind c kind_real_ranged s value = add_ranged f v c s (w.to_real value)
  add_kind c kind_vector2 s value =
      (add_vector2 f v s (w.to_vector2 value) (get_compression_level c.precision)).0
  add_kind c kind_vector2_ranged s value =
      let p = w.to_vector2 value in
      let t = add_ranged f v c s (f.of_scalar p.x) in add_ranged f v c t (f.of_scalar p.y)
  add_kind c kind_normalized_vector2 s value =
      (add_normalized_vector2 f v s (w.to_vector2 value) (get_compression_level c.precision)).0
  add_kind c kind_vector3 s value =
      (add_vector3 f v s (w.to_vector3 value) (get_compression_level c.precision)).0
  add_kind c kind_vector3_ranged s value =
      let p = w.to_vector3 value in
      let t = add_ranged f v c s (f.of_scalar p.x) in
      let u = add_ranged f v c t (f.of_scalar p.y) in add_ranged f v c u (f.of_scalar p.z)
  add_kind c kind_normalized_vector3 s value =
      (add_normalized_vector3 f v s (w.to_vector3 value) (get_compression_level c.precision)).0
  add_kind c kind_quaternion s value = add_quaternion f v c s (w.to_quaternion value)
  add_kind c kind_variant s value = add_variant s value

  unfoldable pub encode : TickCodec f → TickDataBuffer → w.Variant → TickDataBuffer
  unfolding check_type default_value add_kind
  encode c s x = add_kind c c.kind s (if check_type w c x then x else default_value w c.kind)

  unfoldable pub quantize : TickCodec f → w.Variant → w.Variant
  unfolding encode decode
  quantize c x = (decode w c (begin_read (encode c (begin_write v empty_buffer (pos 0)) x))).1
