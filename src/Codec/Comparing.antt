-- ===== src/Codec/Comparing.antt =====
-- `TickCodec`: comparing two values, and the values between them.
use tick_synchronizer.Prelude.{Bool, true, false, ◌&&◌, not, ℕ, List, [], ◌∷◌, if◌then◌else◌}
use tick_synchronizer.Prelude.Int.{eqb_ℤ}
use tick_synchronizer.Floats.{Floats, Vector2, Vector3, Quaternion}
use tick_synchronizer.Variants.{Variants, VariantType, vector2_type, vector3_type, quaternion_type}
use tick_synchronizer.Codec.{
  TickCodec, Kind, kind_bool, kind_int, kind_real, kind_real_ranged, kind_vector2,
  kind_vector2_ranged, kind_normalized_vector2, kind_vector3, kind_vector3_ranged,
  kind_normalized_vector3, kind_quaternion, kind_variant, get_tolerance, is_expected,
}
use tick_synchronizer.Codec.Coding.{component}

module _ (f : Floats) where
  -- Whether two components differ by no more than a bound.
  unfoldable pub is_near : f.Double → f.Scalar → f.Scalar → Bool
  is_near bound a b = f.le (f.abs (f.of_scalar (f.scalar_sub a b))) bound

  unfoldable pub is_equal_real : f.Double → f.Double → f.Double → Bool
  is_equal_real tol a b =
      f.le (f.abs (f.sub a b)) (f.mul tol (f.max f.one (f.max (f.abs a) (f.abs b))))

  unfoldable pub is_equal_vector2 : Bool → f.Double → Vector2 f.Scalar → Vector2 f.Scalar → Bool
  unfolding is_near
  is_equal_vector2 relative tol a b =
      let largest =
        f.scalar_max (f.scalar_max (f.scalar_abs a.x) (f.scalar_abs a.y))
          (f.scalar_max (f.scalar_abs b.x) (f.scalar_abs b.y)) in
      let scale = if relative then f.max f.one (f.of_scalar largest) else f.one in
      is_near (f.mul tol scale) a.x b.x && is_near (f.mul tol scale) a.y b.y

  unfoldable pub is_equal_vector3 : Bool → f.Double → Vector3 f.Scalar → Vector3 f.Scalar → Bool
  unfolding is_near
  is_equal_vector3 relative tol a b =
      let largest = f.scalar_max (f.max_axis (f.vector3_abs a)) (f.max_axis (f.vector3_abs b)) in
      let scale = if relative then f.max f.one (f.of_scalar largest) else f.one in
      is_near (f.mul tol scale) a.x b.x
      && is_near (f.mul tol scale) a.y b.y
      && is_near (f.mul tol scale) a.z b.z

  -- The loop over the components of two rotations.
  unfoldable pub are_near :
      f.Double → f.Double → Quaternion f.Scalar → Quaternion f.Scalar → List ℕ → Bool
  are_near tol sign a b [] = true
  are_near tol sign a b (i ∷ is) =
      let difference =
        f.sub (f.of_scalar (component a i)) (f.mul sign (f.of_scalar (component b i))) in
      let rest = are_near tol sign a b is in
      if f.lt (f.mul tol f.two) (f.abs difference) then false else rest

  unfoldable pub is_equal_quaternion : f.Double → Quaternion f.Scalar → Quaternion f.Scalar → Bool
  unfolding are_near
  is_equal_quaternion tol a b =
      let sign =
        if f.lt (f.of_scalar (f.quaternion_dot a b)) f.nought then f.neg f.one else f.one in
      are_near tol sign a b (0 ∷ 1 ∷ 2 ∷ 3 ∷ [])

module _ {f : Floats} (w : Variants f) where
  unfoldable pub is_equal : TickCodec f → w.Variant → w.Variant → Bool
  unfolding get_tolerance is_expected is_equal_real is_equal_vector2 is_equal_vector3
      is_equal_quaternion
  is_equal c a b = by_kind c.kind
    where
      tol : f.Double
      tol = get_tolerance c

      both : VariantType → Bool
      both t = is_expected t (w.get_type a) && is_expected t (w.get_type b)

      equal_vector2 : Bool → Bool
      equal_vector2 relative =
          if not (both vector2_type)
          then false
          else is_equal_vector2 f relative tol (w.to_vector2 a) (w.to_vector2 b)

      equal_vector3 : Bool → Bool
      equal_vector3 relative =
          if not (both vector3_type)
          then false
          else is_equal_vector3 f relative tol (w.to_vector3 a) (w.to_vector3 b)

      by_kind : Kind → Bool
      by_kind kind_bool = if w.to_bool a then w.to_bool b else not (w.to_bool b)
      by_kind kind_int = eqb_ℤ (w.to_int a) (w.to_int b)
      by_kind kind_real = is_equal_real f tol (w.to_real a) (w.to_real b)
      by_kind kind_real_ranged = f.le (f.abs (f.sub (w.to_real a) (w.to_real b))) tol
      by_kind kind_vector2 = equal_vector2 true
      by_kind kind_vector2_ranged = equal_vector2 false
      by_kind kind_normalized_vector2 = equal_vector2 false
      by_kind kind_vector3 = equal_vector3 true
      by_kind kind_vector3_ranged = equal_vector3 false
      by_kind kind_normalized_vector3 = equal_vector3 false
      by_kind kind_quaternion =
          if not (both quaternion_type)
          then false
          else is_equal_quaternion f tol (w.to_quaternion a) (w.to_quaternion b)
      by_kind kind_variant = w.equals a b

  unfoldable pub interpolate : TickCodec f → w.Variant → w.Variant → f.Double → w.Variant
  interpolate c from to weight = by_kind c.kind
    where
      lerp2 : Vector2 f.Scalar
      lerp2 = f.vector2_lerp (w.to_vector2 from) (w.to_vector2 to) (f.scalar weight)

      lerp3 : Vector3 f.Scalar
      lerp3 = f.vector3_lerp (w.to_vector3 from) (w.to_vector3 to) (f.scalar weight)

      rotation : Quaternion f.Scalar
      rotation =
          f.quaternion_slerp (f.quaternion_normalized (w.to_quaternion from))
            (f.quaternion_normalized (w.to_quaternion to)) (f.scalar weight)

      step : w.Variant
      step = if f.lt weight f.one then from else to

      by_kind : Kind → w.Variant
      by_kind kind_real = w.of_real (f.lerp (w.to_real from) (w.to_real to) weight)
      by_kind kind_real_ranged = w.of_real (f.lerp (w.to_real from) (w.to_real to) weight)
      by_kind kind_vector2 = w.of_vector2 lerp2
      by_kind kind_vector2_ranged = w.of_vector2 lerp2
      by_kind kind_normalized_vector2 =
          w.of_vector2
            (if f.vector2_is_zero_approx lerp2 then lerp2 else f.vector2_normalized lerp2)
      by_kind kind_vector3 = w.of_vector3 lerp3
      by_kind kind_vector3_ranged = w.of_vector3 lerp3
      by_kind kind_normalized_vector3 =
          w.of_vector3
            (if f.vector3_is_zero_approx lerp3 then lerp3 else f.vector3_normalized lerp3)
      by_kind kind_quaternion = w.of_quaternion rotation
      by_kind kind_bool = step
      by_kind kind_int = step
      by_kind kind_variant = step
