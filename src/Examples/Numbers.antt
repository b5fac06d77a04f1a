-- ===== src/Examples/Numbers.antt =====
-- A number line of 0, 1 and infinity in place of the engine's floating point, and values of it in
-- place of the engine's `Variant`.
use tick_synchronizer.Prelude.{
  ℕ, zero, suc, ◌+◌, ◌*◌, ◌^◌, ◌<◌, ◌≡◌, refl, ap, subst, Bool, true, false, not, Option, none,
  some, List, [], ◌∷◌, length, ◌==◌, ltb, arith, if◌then◌else◌,
}
use tick_synchronizer.Prelude.Int.{ℤ, pos, pos_part}
use tick_synchronizer.Prelude.Words.{IsInt}
use tick_synchronizer.BitArray.{IsBytes}
use tick_synchronizer.Floats.{Floats, FloatLaws, Vector2, Vector3, Quaternion}
use tick_synchronizer.Variants.{
  Variants, VariantType, nil_type, bool_type, float_type, vector2_type, vector3_type,
  quaternion_type,
}
use tick_synchronizer.Codec.SentVariants.{SerializerLaws}

pub data Amount : Type 0 where
  nothing unity infinite : Amount

abbrev pub code : Amount → ℕ
code nothing = 0
code unity = 1
code infinite = 2

abbrev pub decode_amount : ℕ → Amount
decode_amount zero = nothing
decode_amount (suc zero) = unity
decode_amount (suc (suc n)) = infinite

abbrev is_finite_amount : Amount → Bool
is_finite_amount infinite = false
is_finite_amount _ = true

abbrev clamp_amount : Amount → Amount
clamp_amount infinite = unity
clamp_amount x = x

abbrev pub samples : Floats
samples = record {
  Double = Amount;
  Single = Amount;
  Scalar = Amount;
  of_nat = λ n. decode_amount n;
  to_nat = code;
  single = λ x. x;
  of_single = λ x. x;
  scalar = λ x. x;
  of_scalar = λ x. x;
  scalar_of_single = λ x. x;
  single_of_scalar = λ x. x;
  double_bits = code;
  of_double_bits = decode_amount;
  single_bits = code;
  of_single_bits = decode_amount;
  make_half_float = code;
  half_to_float = decode_amount;
  nought = nothing;
  half = nothing;
  one = unity;
  two = infinite;
  pi = infinite;
  tau = infinite;
  float_max = unity;
  half_max = unity;
  component_max = unity;
  single_zero = nothing;
  scalar_zero = nothing;
  scalar_one = unity;
  add = λ x y. decode_amount (code x + code y);
  sub = λ x y. x;
  mul = λ x y. decode_amount (code x * code y);
  div = λ x y. x;
  neg = λ x. nothing;
  lt = λ x y. ltb (code x) (code y);
  le = λ x y. not (ltb (code y) (code x));
  single_neg = λ x. nothing;
  single_lt = λ x y. ltb (code x) (code y);
  scalar_sub = λ x y. x;
  scalar_lt = λ x y. ltb (code x) (code y);
  min = λ x y. if ltb (code x) (code y) then x else y;
  max = λ x y. if ltb (code y) (code x) then x else y;
  scalar_max = λ x y. if ltb (code y) (code x) then x else y;
  clamp = λ x low high. clamp_amount x;
  abs = λ x. x;
  single_abs = λ x. x;
  scalar_abs = λ x. x;
  round = λ x. x;
  floor = λ x. x;
  pow = λ x y. x;
  sqrt = λ x. x;
  fmod = λ x y. x;
  lerp = λ x y z. x;
  atan2 = λ x y. x;
  cos = λ x. x;
  sin = λ x. x;
  is_nan = λ x. false;
  is_finite = is_finite_amount;
  vector2_is_zero_approx = λ p. code p.x + code p.y == 0;
  vector2_normalized = λ p. p;
  vector2_lerp = λ p q t. p;
  vector3_is_zero_approx = λ p. code p.x + code p.y + code p.z == 0;
  vector3_normalized = λ p. p;
  vector3_lerp = λ p q t. p;
  vector3_abs = λ p. p;
  max_axis = λ p. p.x;
  quaternion_length_squared = λ q. q.w;
  quaternion_normalized = λ q. q;
  quaternion_dot = λ p q. p.w;
  quaternion_slerp = λ p q t. p;
}

code-lt : (n : ℕ) → 2 < 2 ^ n → (x : Amount) → code x < 2 ^ n
code-lt n h nothing = omega arith
code-lt n h unity = omega arith
code-lt n h infinite = omega arith

decode_amount-code : (x : Amount) → decode_amount (code x) ≡ x
decode_amount-code nothing = refl
decode_amount-code unity = refl
decode_amount-code infinite = refl

clamped-finite :
    (x : Amount)
    → is_finite_amount x ≡ true
    → is_finite_amount (decode_amount (code (clamp_amount x))) ≡ true
clamped-finite nothing e = refl
clamped-finite unity e = refl
clamped-finite infinite e = refl

clamp_amount-finite : (x : Amount) → is_finite_amount (clamp_amount x) ≡ true
clamp_amount-finite nothing = refl
clamp_amount-finite unity = refl
clamp_amount-finite infinite = refl

pub samples-FloatLaws : FloatLaws samples
samples-FloatLaws = record {
  double_bits_lt = code-lt 64 (omega arith);
  double_bits_back = decode_amount-code;
  single_bits_lt = code-lt 32 (omega arith);
  single_bits_back = decode_amount-code;
  make_half_float_lt = code-lt 16 (omega arith);
  nought_finite = refl;
  single_finite = λ x e. clamp_amount-finite x;
  half_finite = clamped-finite;
}

pub data Thing : Type 0 where
  empty : Thing
  flag : Bool → Thing
  measure : Amount → Thing
  pair : Vector2 Amount → Thing
  triple : Vector3 Amount → Thing
  rotation : Quaternion Amount → Thing

abbrev pub type_of : Thing → VariantType
type_of empty = nil_type
type_of (flag b) = bool_type
type_of (measure x) = float_type
type_of (pair p) = vector2_type
type_of (triple p) = vector3_type
type_of (rotation q) = quaternion_type

abbrev int_of : Thing → ℤ
int_of (flag true) = pos 1
int_of (measure unity) = pos 1
int_of _ = pos 0

pub int_of-IsInt : (x : Thing) → IsInt 63 (int_of x)
int_of-IsInt empty = (omega arith, omega arith)
int_of-IsInt (flag true) = (omega arith, omega arith)
int_of-IsInt (flag false) = (omega arith, omega arith)
int_of-IsInt (measure nothing) = (omega arith, omega arith)
int_of-IsInt (measure unity) = (omega arith, omega arith)
int_of-IsInt (measure infinite) = (omega arith, omega arith)
int_of-IsInt (pair p) = (omega arith, omega arith)
int_of-IsInt (triple p) = (omega arith, omega arith)
int_of-IsInt (rotation q) = (omega arith, omega arith)

abbrev encode_thing : Thing → Option (List ℕ)
encode_thing empty = some (0 ∷ [])
encode_thing (flag true) = some (1 ∷ [])
encode_thing (flag false) = some (2 ∷ [])
encode_thing _ = none

abbrev decode_thing : List ℕ → Option (Thing × ℕ)
decode_thing (zero ∷ []) = some (empty, 1)
decode_thing (suc zero ∷ []) = some (flag true, 1)
decode_thing (suc (suc zero) ∷ []) = some (flag false, 1)
decode_thing _ = none

abbrev real_of : Thing → Amount
real_of (measure x) = x
real_of (flag true) = unity
real_of _ = nothing

abbrev pair_of : Thing → Vector2 Amount
pair_of (pair p) = p
pair_of _ = record { x = nothing; y = nothing }

abbrev triple_of : Thing → Vector3 Amount
triple_of (triple p) = p
triple_of _ = record { x = nothing; y = nothing; z = nothing }

abbrev rotation_of : Thing → Quaternion Amount
rotation_of (rotation q) = q
rotation_of _ = record { x = nothing; y = nothing; z = nothing; w = unity }

abbrev pub things : Variants samples
things = record {
  Variant = Thing;
  get_type = type_of;
  nil = empty;
  of_bool = flag;
  of_int = λ x. flag (ltb 0 (pos_part x));
  of_real = measure;
  of_vector2 = pair;
  of_vector3 = triple;
  of_quaternion = rotation;
  to_bool = λ x. ltb 0 (pos_part (int_of x));
  to_int = int_of;
  int_in_range = int_of-IsInt;
  to_real = real_of;
  to_vector2 = pair_of;
  to_vector3 = triple_of;
  to_quaternion = rotation_of;
  equals = λ x y. true;
  encode_variant = encode_thing;
  decode_variant = decode_thing;
  is_null_object = λ x. true;
  is_finite_geometry = λ x. true;
  projection_columns = λ x. [];
  color_components = λ x. [];
  packed_reals = λ x. [];
  packed_vectors = λ x. [];
  packed_colors = λ x. [];
  elements = λ x. [];
  keys = λ x. [];
  values = λ x. [];
  max_recursion_depth = 100;
  hash_murmur3_one_32 = λ x seed. x + seed;
  hash_murmur3_one_double = λ x seed. code x + seed;
  hash_fmix32 = λ x. x;
}

abbrev bytes_of : Option (List ℕ) → List ℕ
bytes_of none = []
bytes_of (some bs) = bs

abbrev IsEncoding : Thing → List ℕ → Type 0
IsEncoding x bs = IsBytes bs × (0 < length bs) × (decode_thing bs ≡ some (x, length bs))

one_byte : (n : ℕ) → n < 256 → IsBytes (n ∷ [])
one_byte n h zero = h
one_byte n h (suc j) = omega arith

encode_thing-IsEncoding : (x : Thing) (bs : List ℕ) → encode_thing x ≡ some bs → IsEncoding x bs
encode_thing-IsEncoding empty bs e =
    subst (IsEncoding empty) (ap bytes_of e) (one_byte 0 (omega arith), omega arith, refl)
encode_thing-IsEncoding (flag true) bs e =
    subst (IsEncoding (flag true)) (ap bytes_of e) (one_byte 1 (omega arith), omega arith, refl)
encode_thing-IsEncoding (flag false) bs e =
    subst (IsEncoding (flag false)) (ap bytes_of e) (one_byte 2 (omega arith), omega arith, refl)
encode_thing-IsEncoding (measure y) bs e = absurd (ground (arith, e))
encode_thing-IsEncoding (pair p) bs e = absurd (ground (arith, e))
encode_thing-IsEncoding (triple p) bs e = absurd (ground (arith, e))
encode_thing-IsEncoding (rotation q) bs e = absurd (ground (arith, e))

pub things-SerializerLaws : SerializerLaws things
things-SerializerLaws = record {
  encoded_bytes = λ x bs e. (encode_thing-IsEncoding x bs e).0;
  encoded_some = λ x bs e. (encode_thing-IsEncoding x bs e).1;
  is_plain = λ x. true;
  decoded = λ x bs g p e. (encode_thing-IsEncoding x bs e).2;
  nil_bytes = 0 ∷ [];
  nil_encoded = refl;
  nil_short = omega arith;
  nil_plain = refl;
  type_of_nil = refl;
}
