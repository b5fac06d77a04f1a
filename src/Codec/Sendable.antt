-- ===== src/Codec/Sendable.antt =====
-- `TickCodec::is_sendable`: whether a value means the same in another process.
use tick_synchronizer.Prelude.{ℕ, zero, suc, ◌+◌, Bool, true, false, ◌&&◌, List, [], ◌∷◌}
use tick_synchronizer.Floats.{Floats}
use tick_synchronizer.Variants.{
  Variants, VariantType, nil_type, bool_type, int_type, float_type, vector2_type, vector3_type,
  quaternion_type, object_type, callable_type, signal_type, rid_type, rect2_type, transform2d_type,
  vector4_type, plane_type, aabb_type, basis_type, transform3d_type, projection_type, color_type,
  packed_real_array_type, packed_vector_array_type, packed_color_array_type, array_type,
  dictionary_type, other_type,
}

-- A loop that returns false at the first element that fails the test.
unfoldable pub every : {A : Type 0} → (A → Bool) → List A → Bool
every p [] = true
every p (x ∷ xs) = p x && every p xs

-- A key and its value, one after another.
abbrev pub interleave : {A : Type 0} → List A → List A → List A
interleave [] _ = []
interleave (k ∷ ks) [] = []
interleave (k ∷ ks) (y ∷ ys) = k ∷ y ∷ interleave ks ys

module _ {f : Floats} (w : Variants f) where
  unfoldable pub is_color_finite : w.Variant → Bool
  is_color_finite x = every f.is_finite (w.color_components x)

  -- What does not depend on the values inside an array or a dictionary, which are true here.
  unfoldable pub is_sendable_alone : VariantType → w.Variant → Bool
  unfolding is_color_finite every
  is_sendable_alone object_type x = w.is_null_object x
  is_sendable_alone callable_type x = false
  is_sendable_alone signal_type x = false
  is_sendable_alone rid_type x = false
  is_sendable_alone float_type x = f.is_finite (w.to_real x)
  is_sendable_alone vector2_type x = w.is_finite_geometry x
  is_sendable_alone rect2_type x = w.is_finite_geometry x
  is_sendable_alone vector3_type x = w.is_finite_geometry x
  is_sendable_alone transform2d_type x = w.is_finite_geometry x
  is_sendable_alone vector4_type x = w.is_finite_geometry x
  is_sendable_alone plane_type x = w.is_finite_geometry x
  is_sendable_alone quaternion_type x = w.is_finite_geometry x
  is_sendable_alone aabb_type x = w.is_finite_geometry x
  is_sendable_alone basis_type x = w.is_finite_geometry x
  is_sendable_alone transform3d_type x = w.is_finite_geometry x
  is_sendable_alone projection_type x = every w.is_finite_geometry (w.projection_columns x)
  is_sendable_alone color_type x = is_color_finite x
  is_sendable_alone packed_real_array_type x = every f.is_finite (w.packed_reals x)
  is_sendable_alone packed_vector_array_type x = every w.is_finite_geometry (w.packed_vectors x)
  is_sendable_alone packed_color_array_type x = every is_color_finite (w.packed_colors x)
  is_sendable_alone array_type x = true
  is_sendable_alone dictionary_type x = true
  is_sendable_alone nil_type x = true
  is_sendable_alone bool_type x = true
  is_sendable_alone int_type x = true
  is_sendable_alone other_type x = true

  -- The values inside a value, in the order that they are visited.
  abbrev pub inside : VariantType → w.Variant → List w.Variant
  inside array_type x = w.elements x
  inside dictionary_type x = interleave (w.keys x) (w.values x)
  inside _ x = []

  -- The depths that are left, the value's own included.
  unfoldable pub is_sendable_within : ℕ → w.Variant → Bool
  unfolding is_sendable_alone every
  is_sendable_within zero x = false
  is_sendable_within (suc depth) x =
      is_sendable_alone (w.get_type x) x
      && every (λ y. is_sendable_within depth y) (inside (w.get_type x) x)

  unfoldable pub is_sendable : w.Variant → Bool
  unfolding is_sendable_within
  is_sendable x = is_sendable_within (w.max_recursion_depth + 1) x
