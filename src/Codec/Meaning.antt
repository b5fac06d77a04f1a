-- ===== src/Codec/Meaning.antt =====
-- What `TickCodec::is_sendable` is for: the values that mean the same in another process, apart from
-- the code.
use tick_synchronizer.Prelude.{ℕ, suc, ◌≡◌, Bool, true, false, some, get_elem?, All, ◌≢◌}
use tick_synchronizer.Floats.{Floats}
use tick_synchronizer.Variants.{
  Variants, VariantType, float_type, vector2_type, vector3_type, quaternion_type, object_type,
  callable_type, signal_type, rid_type, rect2_type, transform2d_type, vector4_type, plane_type,
  aabb_type, basis_type, transform3d_type, projection_type, color_type, packed_real_array_type,
  packed_vector_array_type, packed_color_array_type, array_type, dictionary_type,
}

-- The types that have `is_finite()`.
abbrev pub is_geometry : VariantType → Bool
is_geometry vector2_type = true
is_geometry vector3_type = true
is_geometry vector4_type = true
is_geometry rect2_type = true
is_geometry plane_type = true
is_geometry quaternion_type = true
is_geometry aabb_type = true
is_geometry basis_type = true
is_geometry transform2d_type = true
is_geometry transform3d_type = true
is_geometry _ = false

module _ {f : Floats} (w : Variants f) where
  -- The value `z` is at a depth of `n` containers in `x`.
  pub data Held : ℕ → w.Variant → w.Variant → Type 0 where
    itself : (x : w.Variant) → Held 0 x x
    in_array :
        (n : ℕ) (x y z : w.Variant) (i : ℕ)
        → w.get_type x ≡ array_type
        → get_elem? (w.elements x) i ≡ some y
        → Held n y z
        → Held (suc n) x z
    in_keys :
        (n : ℕ) (x y z : w.Variant) (i : ℕ)
        → w.get_type x ≡ dictionary_type
        → get_elem? (w.keys x) i ≡ some y
        → Held n y z
        → Held (suc n) x z
    in_values :
        (n : ℕ) (x y z : w.Variant) (i : ℕ)
        → w.get_type x ≡ dictionary_type
        → get_elem? (w.values x) i ≡ some y
        → Held n y z
        → Held (suc n) x z

  abbrev pub IsFinite : f.Double → Type 0
  IsFinite x = f.is_finite x ≡ true

  abbrev pub IsFiniteGeometry : w.Variant → Type 0
  IsFiniteGeometry z = w.is_finite_geometry z ≡ true

  -- What a value is apart from the values inside it: nothing that belongs to one process, and no
  -- real that is not finite.
  pub record MeansTheSame (z : w.Variant) : Type 0 where
    pub no_callable : w.get_type z ≢ callable_type
    pub no_signal : w.get_type z ≢ signal_type
    pub no_rid : w.get_type z ≢ rid_type
    pub no_live_object : w.get_type z ≡ object_type → w.is_null_object z ≡ true
    pub finite_real : w.get_type z ≡ float_type → IsFinite (w.to_real z)
    pub geometry : is_geometry (w.get_type z) ≡ true → IsFiniteGeometry z
    pub projection :
        w.get_type z ≡ projection_type → All (λ c. IsFiniteGeometry c) (w.projection_columns z)
    pub color : w.get_type z ≡ color_type → All (λ x. IsFinite x) (w.color_components z)
    pub reals : w.get_type z ≡ packed_real_array_type → All (λ x. IsFinite x) (w.packed_reals z)
    pub vectors :
        w.get_type z ≡ packed_vector_array_type → All (λ c. IsFiniteGeometry c) (w.packed_vectors z)
    pub colors :
        w.get_type z ≡ packed_color_array_type
        → All (λ c. All (λ x. IsFinite x) (w.color_components c)) (w.packed_colors z)
