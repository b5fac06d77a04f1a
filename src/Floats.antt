-- ===== src/Floats.antt =====
-- What the program uses of floating point: the types `double`, `float` and `real_t` (the scalars of
-- the engine's vectors, `float` or `double` by the build), the functions of the language and of the
-- engine's `Math` on them, and `Vector2`, `Vector3` and `Quaternion`.
use tick_synchronizer.Prelude.{ℕ, ◌^◌, ◌<◌, ◌≡◌, Bool, true}

pub record Vector2 (S : Type 0) : Type 0 where
  pub x : S
  pub y : S

pub record Vector3 (S : Type 0) : Type 0 where
  pub x : S
  pub y : S
  pub z : S

pub record Quaternion (S : Type 0) : Type 0 where
  pub x : S
  pub y : S
  pub z : S
  pub w : S

pub record Floats : Type 1 where
  pub Double : Type 0
  pub Single : Type 0
  pub Scalar : Type 0
  -- The casts.
  pub of_nat : ℕ → Double
  pub to_nat : Double → ℕ
  pub single : Double → Single
  pub of_single : Single → Double
  pub scalar : Double → Scalar
  pub of_scalar : Scalar → Double
  pub scalar_of_single : Single → Scalar
  pub single_of_scalar : Scalar → Single
  -- `memcpy` to and from an integer.
  pub double_bits : Double → ℕ
  pub of_double_bits : ℕ → Double
  pub single_bits : Single → ℕ
  pub of_single_bits : ℕ → Single
  pub make_half_float : Single → ℕ
  pub half_to_float : ℕ → Single
  -- The constants: 0, 0.5, 1, 2, pi, tau, `FLT_MAX`, `HALF_MAX` and `QUATERNION_COMPONENT_MAX`.
  pub nought : Double
  pub half : Double
  pub one : Double
  pub two : Double
  pub pi : Double
  pub tau : Double
  pub float_max : Double
  pub half_max : Double
  pub component_max : Double
  pub single_zero : Single
  pub scalar_zero : Scalar
  pub scalar_one : Scalar
  -- The operators.
  pub add : Double → Double → Double
  pub sub : Double → Double → Double
  pub mul : Double → Double → Double
  pub div : Double → Double → Double
  pub neg : Double → Double
  pub lt : Double → Double → Bool
  pub le : Double → Double → Bool
  pub single_neg : Single → Single
  pub single_lt : Single → Single → Bool
  pub scalar_sub : Scalar → Scalar → Scalar
  pub scalar_lt : Scalar → Scalar → Bool
  -- `MIN`, `MAX`, `CLAMP` and `Math`
  pub min : Double → Double → Double
  pub max : Double → Double → Double
  pub scalar_max : Scalar → Scalar → Scalar
  pub clamp : Double → Double → Double → Double
  pub abs : Double → Double
  pub single_abs : Single → Single
  pub scalar_abs : Scalar → Scalar
  pub round : Double → Double
  pub floor : Double → Double
  pub pow : Double → Double → Double
  pub sqrt : Double → Double
  pub fmod : Double → Double → Double
  pub lerp : Double → Double → Double → Double
  pub atan2 : Double → Double → Double
  pub cos : Double → Double
  pub sin : Double → Double
  pub is_nan : Double → Bool
  pub is_finite : Double → Bool
  -- The vectors and the rotations of the engine.
  pub vector2_is_zero_approx : Vector2 Scalar → Bool
  pub vector2_normalized : Vector2 Scalar → Vector2 Scalar
  pub vector2_lerp : Vector2 Scalar → Vector2 Scalar → Scalar → Vector2 Scalar
  pub vector3_is_zero_approx : Vector3 Scalar → Bool
  pub vector3_normalized : Vector3 Scalar → Vector3 Scalar
  pub vector3_lerp : Vector3 Scalar → Vector3 Scalar → Scalar → Vector3 Scalar
  pub vector3_abs : Vector3 Scalar → Vector3 Scalar
  pub max_axis : Vector3 Scalar → Scalar
  pub quaternion_length_squared : Quaternion Scalar → Scalar
  pub quaternion_normalized : Quaternion Scalar → Quaternion Scalar
  pub quaternion_dot : Quaternion Scalar → Quaternion Scalar → Scalar
  pub quaternion_slerp : Quaternion Scalar → Quaternion Scalar → Scalar → Quaternion Scalar

-- What the encodings rely on: the bits of a number are as many as its format has and give it back,
-- and a finite number clamped to the range of a smaller format is finite there. 0 is finite.
pub record FloatLaws (f : Floats) : Type 0 where
  pub double_bits_lt : (x : f.Double) → f.double_bits x < 2 ^ 64
  pub double_bits_back : (x : f.Double) → f.of_double_bits (f.double_bits x) ≡ x
  pub single_bits_lt : (x : f.Single) → f.single_bits x < 2 ^ 32
  pub single_bits_back : (x : f.Single) → f.of_single_bits (f.single_bits x) ≡ x
  pub make_half_float_lt : (x : f.Single) → f.make_half_float x < 2 ^ 16
  pub nought_finite : f.is_finite f.nought ≡ true
  pub single_finite :
      (x : f.Double)
      → f.is_finite x ≡ true
      → f.is_finite (f.of_single (f.single (f.clamp x (f.neg f.float_max) f.float_max))) ≡ true
  pub half_finite :
      (x : f.Double)
      → f.is_finite x ≡ true
      → f.is_finite (
          f.of_single (
            f.half_to_float
              (f.make_half_float (f.single (f.clamp x (f.neg f.half_max) f.half_max)))))
        ≡ true

module _ (f : Floats) where
  abbrev pub vector2_zero : Vector2 f.Scalar
  vector2_zero = record { x = f.scalar_zero; y = f.scalar_zero }

  abbrev pub vector3_zero : Vector3 f.Scalar
  vector3_zero = record { x = f.scalar_zero; y = f.scalar_zero; z = f.scalar_zero }

  abbrev pub quaternion_identity : Quaternion f.Scalar
  quaternion_identity = record {
    x = f.scalar_zero;
    y = f.scalar_zero;
    z = f.scalar_zero;
    w = f.scalar_one;
  }
