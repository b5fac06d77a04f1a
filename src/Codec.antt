-- ===== src/Codec.antt =====
-- source/codec/tick_codec.h and tick_codec.cpp: `TickCodec`, how a variable is written on the wire.
-- This file has its state, the constructors, the tolerance and the types; the children have the rest.
-- A null reference is `none`. A precision is an integer, since a caller may cast any `int` to one. What
-- the engine prints is left out.
pub mod Coding
pub mod Comparing
pub mod Sendable
pub mod SentVariants
pub mod Every
pub mod Meaning
pub mod Contents
pub mod Layout
use tick_synchronizer.Prelude.{
  ℕ, ◌*◌, ◌-◌, ◌^◌, ◌==◌, ◌+◌, ◌%◌, Bool, true, false, ◌&&◌, ◌||◌, not, Option, none, some,
  if◌then◌else◌,
}
use mathlib.Core.Option.{map}
use tick_synchronizer.Prelude.Int.{ℤ, pos, pos_part, ltb_ℤ}
use tick_synchronizer.Prelude.Words.{clamp_ℤ, to_word}
use tick_synchronizer.Floats.{Floats, vector2_zero, vector3_zero, quaternion_identity}
use tick_synchronizer.Variants.{
  Variants, VariantType, nil_type, bool_type, int_type, float_type, vector2_type, vector3_type,
  quaternion_type,
}
use tick_synchronizer.DataBuffer.Values.{
  CompressionLevel, data_type_real, data_type_normalized_vector2, data_type_normalized_vector3,
}
use tick_synchronizer.DataBuffer.Reals.{all_ones, get_real_epsilon}

pub data Kind : Type 0 where
  kind_bool kind_int kind_real kind_real_ranged kind_vector2 kind_vector2_ranged
        kind_normalized_vector2 kind_vector3 kind_vector3_ranged kind_normalized_vector3
        kind_quaternion kind_variant :
      Kind

abbrev pub Precision : Type 0
Precision = ℤ

abbrev pub precision_full : Precision
precision_full = pos 0

abbrev pub max_variant_bytes : ℕ
max_variant_bytes = 2 ^ 16 - 1

pub record TickCodec (f : Floats) : Type 0 where
  pub kind : Kind
  pub precision : Precision
  pub bits : ℕ
  pub range_min : f.Double
  pub range_max : f.Double
  pub tolerance : f.Double
  pub tolerance_overridden : Bool

-- The type that a codec writes.
unfoldable pub value_type : Kind → VariantType
value_type kind_bool = bool_type
value_type kind_int = int_type
value_type kind_real = float_type
value_type kind_real_ranged = float_type
value_type kind_vector2 = vector2_type
value_type kind_vector2_ranged = vector2_type
value_type kind_normalized_vector2 = vector2_type
value_type kind_vector3 = vector3_type
value_type kind_vector3_ranged = vector3_type
value_type kind_normalized_vector3 = vector3_type
value_type kind_quaternion = quaternion_type
value_type kind_variant = nil_type

-- `==` of the types that `check_type` compares; a variant codec expects `nil_type`.
unfoldable pub is_expected : VariantType → VariantType → Bool
is_expected bool_type bool_type = true
is_expected int_type int_type = true
is_expected float_type float_type = true
is_expected vector2_type vector2_type = true
is_expected vector3_type vector3_type = true
is_expected quaternion_type quaternion_type = true
is_expected nil_type _ = true
is_expected _ _ = false

unfoldable pub is_number : VariantType → Bool
is_number int_type = true
is_number float_type = true
is_number bool_type = true
is_number _ = false

unfoldable pub get_compression_level : Precision → CompressionLevel
get_compression_level p = clamp_ℤ p (pos 0) (pos 3)

module _ {f : Floats} where
  -- The fields of a codec that was just made.
  abbrev pub new_codec : TickCodec f
  new_codec = record {
    kind = kind_variant;
    precision = precision_full;
    bits = 0;
    range_min = f.nought;
    range_max = f.nought;
    tolerance = f.nought;
    tolerance_overridden = false;
  }

  abbrev with_kind : Kind → TickCodec f → TickCodec f
  with_kind k c = record c { kind = k }

  unfoldable pub boolean : TickCodec f
  boolean = record new_codec { kind = kind_bool; bits = 1 }

  unfoldable pub integer : ℤ → Option (TickCodec f)
  integer bits =
      if ltb_ℤ bits (pos 1) || ltb_ℤ (pos 64) bits
      then none
      else some (record new_codec { kind = kind_int; bits = pos_part bits })

  unfoldable pub real : Precision → TickCodec f
  real p = record new_codec { kind = kind_real; precision = p }

  unfoldable pub real_ranged : f.Double → f.Double → ℤ → Option (TickCodec f)
  real_ranged low high bits =
      if not (f.lt low high)
      then none
      else if ltb_ℤ bits (pos 1) || ltb_ℤ (pos 32) bits
      then none
      else some (record new_codec {
        kind = kind_real_ranged;
        range_min = low;
        range_max = high;
        bits = pos_part bits;
      })

  unfoldable pub vector2 : Precision → TickCodec f
  unfolding real
  vector2 p = with_kind kind_vector2 (real p)

  unfoldable pub vector2_ranged : f.Double → f.Double → ℤ → Option (TickCodec f)
  unfolding real_ranged
  vector2_ranged low high bits = map (with_kind kind_vector2_ranged) (real_ranged low high bits)

  unfoldable pub normalized_vector2 : Precision → TickCodec f
  unfolding real
  normalized_vector2 p = with_kind kind_normalized_vector2 (real p)

  unfoldable pub vector3 : Precision → TickCodec f
  unfolding real
  vector3 p = with_kind kind_vector3 (real p)

  unfoldable pub vector3_ranged : f.Double → f.Double → ℤ → Option (TickCodec f)
  unfolding real_ranged
  vector3_ranged low high bits = map (with_kind kind_vector3_ranged) (real_ranged low high bits)

  unfoldable pub normalized_vector3 : Precision → TickCodec f
  unfolding real
  normalized_vector3 p = with_kind kind_normalized_vector3 (real p)

  unfoldable pub quaternion : ℤ → Option (TickCodec f)
  quaternion bits =
      if ltb_ℤ bits (pos 2) || ltb_ℤ (pos 32) bits
      then none
      else some (record new_codec {
        kind = kind_quaternion;
        bits = pos_part bits;
        range_min = f.neg f.component_max;
        range_max = f.component_max;
      })

  unfoldable pub variant : TickCodec f
  variant = record new_codec { kind = kind_variant }

  unfoldable pub set_tolerance : TickCodec f → f.Double → TickCodec f
  set_tolerance c t =
      if not (f.le f.nought t) then c else record c { tolerance = t; tolerance_overridden = true }

  unfoldable pub compute_default_tolerance : TickCodec f → f.Double
  unfolding get_real_epsilon get_compression_level
  compute_default_tolerance c = by_kind c.kind
    where
      half_step : f.Double
      half_step = f.mul (f.div (f.sub c.range_max c.range_min) (f.of_nat (all_ones c.bits))) f.half

      by_kind : Kind → f.Double
      by_kind kind_real = get_real_epsilon f data_type_real (get_compression_level c.precision)
      by_kind kind_vector2 = get_real_epsilon f data_type_real (get_compression_level c.precision)
      by_kind kind_vector3 = get_real_epsilon f data_type_real (get_compression_level c.precision)
      by_kind kind_real_ranged = half_step
      by_kind kind_vector2_ranged = half_step
      by_kind kind_vector3_ranged = half_step
      by_kind kind_quaternion = half_step
      by_kind kind_normalized_vector2 =
          get_real_epsilon f data_type_normalized_vector2 (get_compression_level c.precision)
      by_kind kind_normalized_vector3 =
          get_real_epsilon f data_type_normalized_vector3 (get_compression_level c.precision)
      by_kind kind_bool = f.nought
      by_kind kind_int = f.nought
      by_kind kind_variant = f.nought

  unfoldable pub get_tolerance : TickCodec f → f.Double
  unfolding compute_default_tolerance
  get_tolerance c = if c.tolerance_overridden then c.tolerance else compute_default_tolerance c

  module _ (w : Variants f) where
    unfoldable pub default_value : Kind → w.Variant
    default_value kind_bool = w.of_bool false
    default_value kind_int = w.of_int (pos 0)
    default_value kind_real = w.of_real f.nought
    default_value kind_real_ranged = w.of_real f.nought
    default_value kind_vector2 = w.of_vector2 (vector2_zero f)
    default_value kind_vector2_ranged = w.of_vector2 (vector2_zero f)
    default_value kind_normalized_vector2 = w.of_vector2 (vector2_zero f)
    default_value kind_vector3 = w.of_vector3 (vector3_zero f)
    default_value kind_vector3_ranged = w.of_vector3 (vector3_zero f)
    default_value kind_normalized_vector3 = w.of_vector3 (vector3_zero f)
    default_value kind_quaternion = w.of_quaternion (quaternion_identity f)
    default_value kind_variant = w.nil

    unfoldable pub check_type : TickCodec f → w.Variant → Bool
    unfolding value_type is_expected is_number
    check_type c x =
        is_expected (value_type c.kind) (w.get_type x)
        || is_number (w.get_type x) && is_number (value_type c.kind)

    unfoldable pub hash : TickCodec f → ℕ → ℕ
    hash c seed =
        let h = w.hash_murmur3_one_32 (kind_index c.kind) seed in
        let h = w.hash_murmur3_one_32 (to_word 32 c.precision) h in
        let h = w.hash_murmur3_one_32 (c.bits % 2 ^ 32) h in
        let h = w.hash_murmur3_one_double c.range_min h in w.hash_murmur3_one_double c.range_max h
      where
        kind_index : Kind → ℕ
        kind_index kind_bool = 0
        kind_index kind_int = 1
        kind_index kind_real = 2
        kind_index kind_real_ranged = 3
        kind_index kind_vector2 = 4
        kind_index kind_vector2_ranged = 5
        kind_index kind_normalized_vector2 = 6
        kind_index kind_vector3 = 7
        kind_index kind_vector3_ranged = 8
        kind_index kind_normalized_vector3 = 9
        kind_index kind_quaternion = 10
        kind_index kind_variant = 11
