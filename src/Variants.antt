-- ===== src/Variants.antt =====
-- What the program uses of the engine's `Variant`: its types, its conversions, its serializer and its
-- hashes.
use tick_synchronizer.Prelude.{ℕ, Bool, Option, List}
use tick_synchronizer.Prelude.Int.{ℤ}
use tick_synchronizer.Prelude.Words.{IsInt}
use tick_synchronizer.Floats.{Floats, Vector2, Vector3, Quaternion}

-- `Variant::Type`, with one name for those that the program treats alike.
pub data VariantType : Type 0 where
  nil_type bool_type int_type float_type vector2_type vector3_type quaternion_type : VariantType
  object_type callable_type signal_type rid_type : VariantType
  rect2_type transform2d_type vector4_type plane_type aabb_type basis_type transform3d_type :
      VariantType
  projection_type color_type : VariantType
  packed_real_array_type packed_vector_array_type packed_color_array_type : VariantType
  array_type dictionary_type other_type : VariantType

pub record Variants (f : Floats) : Type 1 where
  pub Variant : Type 0
  pub get_type : Variant → VariantType
  pub nil : Variant
  pub of_bool : Bool → Variant
  pub of_int : ℤ → Variant
  pub of_real : f.Double → Variant
  pub of_vector2 : Vector2 f.Scalar → Variant
  pub of_vector3 : Vector3 f.Scalar → Variant
  pub of_quaternion : Quaternion f.Scalar → Variant
  pub to_bool : Variant → Bool
  pub to_int : Variant → ℤ
  -- an `int64_t`
  pub int_in_range : (x : Variant) → IsInt 63 (to_int x)
  pub to_real : Variant → f.Double
  pub to_vector2 : Variant → Vector2 f.Scalar
  pub to_vector3 : Variant → Vector3 f.Scalar
  pub to_quaternion : Variant → Quaternion f.Scalar
  -- operator==
  pub equals : Variant → Variant → Bool
  -- `encode_variant` and `decode_variant` without objects: the bytes, and the value with the number
  -- of bytes used; nothing on an error.
  pub encode_variant : Variant → Option (List ℕ)
  pub decode_variant : List ℕ → Option (Variant × ℕ)
  -- `get_validated_object() == nullptr`
  pub is_null_object : Variant → Bool
  -- `is_finite()` of a vector, a rectangle, a plane or a transform
  pub is_finite_geometry : Variant → Bool
  pub projection_columns : Variant → List Variant
  pub color_components : Variant → List f.Double
  -- The elements of an array of each kind, and the keys and the values of a dictionary.
  pub packed_reals : Variant → List f.Double
  pub packed_vectors : Variant → List Variant
  pub packed_colors : Variant → List Variant
  pub elements : Variant → List Variant
  pub keys : Variant → List Variant
  pub values : Variant → List Variant
  pub max_recursion_depth : ℕ
  -- `hash_murmur3_one_32`, `hash_murmur3_one_double` and `hash_fmix32`: the seed comes last.
  pub hash_murmur3_one_32 : ℕ → ℕ → ℕ
  pub hash_murmur3_one_double : f.Double → ℕ → ℕ
  pub hash_fmix32 : ℕ → ℕ
