-- ===== src/Codec/Contents.antt =====
-- `TickCodec::is_sendable`: what it takes, said of every value inside a value.
use tick_synchronizer.Prelude.{
  ℕ, zero, suc, ◌+◌, ◌≤◌, ◌≡◌, ◌↔◌, refl, sym, ◌∙◌, Bool, true, List, length, All, All-weaken, ◌<◌,
  subst, arith,
}
use tick_synchronizer.Floats.{Floats}
use tick_synchronizer.Variants.{
  Variants, VariantType, nil_type, bool_type, int_type, float_type, vector2_type, vector3_type,
  quaternion_type, object_type, callable_type, signal_type, rid_type, rect2_type, transform2d_type,
  vector4_type, plane_type, aabb_type, basis_type, transform3d_type, projection_type, color_type,
  packed_real_array_type, packed_vector_array_type, packed_color_array_type, array_type,
  dictionary_type, other_type,
}
use tick_synchronizer.Codec.Sendable.{
  every, is_color_finite, inside, is_sendable_alone, is_sendable_within, is_sendable,
}
use tick_synchronizer.Codec.Every.{
  every-get_elem, every_of_elems, every-All, every_of_All, every-interleave, every_of_interleave,
}
use tick_synchronizer.Codec.Meaning.{
  is_geometry, Held, itself, in_array, in_keys, in_values, IsFinite, MeansTheSame,
}

module _ {f : Floats} (w : Variants f) where
  geometry-sendable :
      (t : VariantType) (z : w.Variant)
      → is_geometry t ≡ true
      → is_sendable_alone w t z ≡ w.is_finite_geometry z
  unfolding is_sendable_alone
  geometry-sendable vector2_type z e = refl
  geometry-sendable vector3_type z e = refl
  geometry-sendable vector4_type z e = refl
  geometry-sendable rect2_type z e = refl
  geometry-sendable plane_type z e = refl
  geometry-sendable quaternion_type z e = refl
  geometry-sendable aabb_type z e = refl
  geometry-sendable basis_type z e = refl
  geometry-sendable transform2d_type z e = refl
  geometry-sendable transform3d_type z e = refl
  geometry-sendable _ z e = absurd (ground (arith, e))

  colors_of_every :
      (cs : List w.Variant)
      → every (λ c. is_color_finite w c) cs ≡ true
      → All (λ c. All (λ x. IsFinite w x) (w.color_components c)) cs
  unfolding is_color_finite
  colors_of_every cs h =
      All-weaken (λ c. is_color_finite w c ≡ true)
        (λ c. All (λ x. IsFinite w x) (w.color_components c)) cs
        (λ c e. every-All f.is_finite (w.color_components c) e)
        (every-All (λ c. is_color_finite w c) cs h)

  every_of_colors :
      (cs : List w.Variant)
      → All (λ c. All (λ x. IsFinite w x) (w.color_components c)) cs
      → every (λ c. is_color_finite w c) cs ≡ true
  unfolding is_color_finite
  every_of_colors cs h =
      every_of_All (λ c. is_color_finite w c) cs
        (All-weaken (λ c. All (λ x. IsFinite w x) (w.color_components c))
          (λ c. is_color_finite w c ≡ true) cs
          (λ c e. every_of_All f.is_finite (w.color_components c) e) h)

  alone-MeansTheSame :
      (z : w.Variant) → is_sendable_alone w (w.get_type z) z ≡ true → MeansTheSame w z
  unfolding is_sendable_alone is_color_finite
  alone-MeansTheSame z h =
      let at : (t : VariantType) → w.get_type z ≡ t → is_sendable_alone w t z ≡ true =
        λ t e. subst (λ t. is_sendable_alone w t z ≡ true) e h in
      record {
        no_callable = λ e. absurd (ground (arith, at callable_type e));
        no_signal = λ e. absurd (ground (arith, at signal_type e));
        no_rid = λ e. absurd (ground (arith, at rid_type e));
        no_live_object = λ e. at object_type e;
        finite_real = λ e. at float_type e;
        geometry = λ e. sym (geometry-sendable (w.get_type z) z e) ∙ h;
        projection =
            λ e. every-All w.is_finite_geometry (w.projection_columns z) (at projection_type e);
        color = λ e. every-All f.is_finite (w.color_components z) (at color_type e);
        reals = λ e. every-All f.is_finite (w.packed_reals z) (at packed_real_array_type e);
        vectors = λ e.
            every-All w.is_finite_geometry (w.packed_vectors z) (at packed_vector_array_type e);
        colors = λ e. colors_of_every (w.packed_colors z) (at packed_color_array_type e);
      }

  alone_of_MeansTheSame :
      (t : VariantType) (z : w.Variant)
      → w.get_type z ≡ t
      → MeansTheSame w z
      → is_sendable_alone w t z ≡ true
  unfolding is_sendable_alone is_color_finite
  alone_of_MeansTheSame object_type z e m = m.no_live_object e
  alone_of_MeansTheSame callable_type z e m = absurd (m.no_callable e)
  alone_of_MeansTheSame signal_type z e m = absurd (m.no_signal e)
  alone_of_MeansTheSame rid_type z e m = absurd (m.no_rid e)
  alone_of_MeansTheSame float_type z e m = m.finite_real e
  alone_of_MeansTheSame projection_type z e m =
      every_of_All w.is_finite_geometry (w.projection_columns z) (m.projection e)
  alone_of_MeansTheSame color_type z e m =
      every_of_All f.is_finite (w.color_components z) (m.color e)
  alone_of_MeansTheSame packed_real_array_type z e m =
      every_of_All f.is_finite (w.packed_reals z) (m.reals e)
  alone_of_MeansTheSame packed_vector_array_type z e m =
      every_of_All w.is_finite_geometry (w.packed_vectors z) (m.vectors e)
  alone_of_MeansTheSame packed_color_array_type z e m =
      every_of_colors (w.packed_colors z) (m.colors e)
  alone_of_MeansTheSame array_type z e m = refl
  alone_of_MeansTheSame dictionary_type z e m = refl
  alone_of_MeansTheSame nil_type z e m = refl
  alone_of_MeansTheSame bool_type z e m = refl
  alone_of_MeansTheSame int_type z e m = refl
  alone_of_MeansTheSame other_type z e m = refl
  alone_of_MeansTheSame _ z e m = m.geometry (rw e refl)

  -- Every key is paired with a value.
  abbrev pub IsPaired : w.Variant → Type 0
  IsPaired x = length (w.keys x) ≡ length (w.values x)

  inner :
      (depth : ℕ) (x : w.Variant) (t : VariantType)
      → is_sendable_within w (suc depth) x ≡ true
      → w.get_type x ≡ t
      → every (λ y. is_sendable_within w depth y) (inside w t x) ≡ true
  unfolding is_sendable_within
  inner depth x t h e =
      subst (λ t. every (λ y. is_sendable_within w depth y) (inside w t x) ≡ true) e
        (ground (arith, h))

  within-Held :
      (depth n : ℕ) (x z : w.Variant)
      → ((y : w.Variant) → IsPaired y)
      → is_sendable_within w depth x ≡ true
      → Held w n x z
      → (n < depth) × MeansTheSame w z
  unfolding is_sendable_within
  within-Held zero n x z paired h k = absurd (ground (arith, h))
  within-Held (suc depth) _ x _ paired h (itself _) =
      (omega arith, alone-MeansTheSame x (ground (arith, h)))
  within-Held (suc depth) _ x z paired h (in_array n _ y _ i t e k) =
      let rest =
        within-Held depth n y z paired
          (every-get_elem (λ y. is_sendable_within w depth y) (w.elements x) i y
            (inner depth x array_type h t) e)
          k in
      (omega (arith, rest.0), rest.1)
  within-Held (suc depth) _ x z paired h (in_keys n _ y _ i t e k) =
      let p : w.Variant → Bool = λ y. is_sendable_within w depth y in
      let both =
        every_of_interleave p (w.keys x) (w.values x) (paired x)
          (inner depth x dictionary_type h t) in
      let rest = within-Held depth n y z paired (every-get_elem p (w.keys x) i y both.0 e) k in
      (omega (arith, rest.0), rest.1)
  within-Held (suc depth) _ x z paired h (in_values n _ y _ i t e k) =
      let p : w.Variant → Bool = λ y. is_sendable_within w depth y in
      let both =
        every_of_interleave p (w.keys x) (w.values x) (paired x)
          (inner depth x dictionary_type h t) in
      let rest = within-Held depth n y z paired (every-get_elem p (w.values x) i y both.1 e) k in
      (omega (arith, rest.0), rest.1)

  inside-every :
      (p : w.Variant → Bool) (t : VariantType) (x : w.Variant)
      → (t ≡ array_type → every p (w.elements x) ≡ true)
      → (t ≡ dictionary_type → (every p (w.keys x) ≡ true) × (every p (w.values x) ≡ true))
      → every p (inside w t x) ≡ true
  unfolding every
  inside-every p array_type x a d = a refl
  inside-every p dictionary_type x a d =
      every-interleave p (w.keys x) (w.values x) (d refl).0 (d refl).1
  inside-every p _ x a d = refl

  within_of_Held :
      (depth : ℕ) (x : w.Variant)
      → ((n : ℕ) (z : w.Variant) → Held w n x z → (n < depth) × MeansTheSame w z)
      → is_sendable_within w depth x ≡ true
  unfolding is_sendable_within
  within_of_Held zero x h = absurd (omega (arith, (h 0 x (itself x)).0))
  within_of_Held (suc depth) x h =
      let p : w.Variant → Bool = λ y. is_sendable_within w depth y in
      let alone = alone_of_MeansTheSame (w.get_type x) x refl (h 0 x (itself x)).1 in
      let shallower : (n : ℕ) (z : w.Variant)
          → (suc n < suc depth) × MeansTheSame w z
          → (n < depth) × MeansTheSame w z =
        λ n z r. (omega (arith, r.0), r.1) in
      let contents =
        inside-every p (w.get_type x) x
          (λ t. every_of_elems p (w.elements x) λ i y e.
            within_of_Held depth y λ n z k. shallower n z (h (suc n) z (in_array n x y z i t e k)))
          (λ t. (
            every_of_elems p (w.keys x) λ i y e.
                within_of_Held depth y
                  λ n z k. shallower n z (h (suc n) z (in_keys n x y z i t e k)),
            every_of_elems p (w.values x) λ i y e.
                within_of_Held depth y
                  λ n z k. shallower n z (h (suc n) z (in_values n x y z i t e k)),
          )) in
      ground (arith, alone, contents)

  -- Where every dictionary has as many values as keys, `is_sendable` takes a value exactly when
  -- each value inside it, itself and the keys of dictionaries included, is at most
  -- `MAX_RECURSION_DEPTH` containers deep, is no callable, signal, RID or live object, and has no
  -- real that is not finite: as a real, in a vector, rectangle, plane, rotation, box, transform or
  -- projection, in a color, or in a packed array of these.
  pub is_sendable_iff :
      ((y : w.Variant) → IsPaired y)
      → (x : w.Variant)
      → (is_sendable w x ≡ true)
        ↔ ((n : ℕ) (z : w.Variant) → Held w n x z → (n ≤ w.max_recursion_depth) × MeansTheSame w z)
  unfolding is_sendable
  is_sendable_iff paired x = (
    λ h n z k.
        let r = within-Held (w.max_recursion_depth + 1) n x z paired h k in
        (omega (arith, r.0), r.1),
    λ h.
        within_of_Held (w.max_recursion_depth + 1) x
          λ n z k. let r = h n z k in (omega (arith, r.0), r.1),
  )
