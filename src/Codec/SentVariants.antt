-- ===== src/Codec/SentVariants.antt =====
-- `TickCodec`: a variant is sent by its length in 16 bits, then its bytes.
use tick_synchronizer.Prelude.{
  Bool, if◌then◌else◌, subst, ℕ, suc, ◌+◌, ◌-◌, ◌^◌, ◌≤◌, ◌<◌, min, ◌≡◌, refl, ◌∙◌, true, false,
  ◌==◌, ltb, List, ◌++◌, length, none, some, Option-cases, Bool-cases, inl, inr, arith,
}
use mathlib.Core.List.{append_assoc}
use tick_synchronizer.Prelude.Int.{pos}
use tick_synchronizer.BitArray.{ByteVector, IsBytes}
use tick_synchronizer.Floats.{Floats}
use tick_synchronizer.Variants.{Variants, nil_type}
use tick_synchronizer.DataBuffer.Values.{read_uint_bits}
use tick_synchronizer.DataBuffer.Raw.{byte_bits, add_bits-Appends, read_raw_bits-Delivers}
use tick_synchronizer.DataBuffer.SentStrings.{Appends-trans, Delivers-trans}
use tick_synchronizer.DataBuffer.Carries.{Carries, uint_bits-Carries}
use tick_synchronizer.Codec.{max_variant_bytes}
use tick_synchronizer.DataBuffer.{TickDataBuffer}
use tick_synchronizer.Codec.Sendable.{is_sendable, is_sendable_within, is_sendable_alone, every}
use tick_synchronizer.Codec.Coding.{short_encoding, add_bytes, add_variant, read_variant}

-- What the engine's serializer promises: bytes, at least one, and that it reads back a value that
-- may be sent and is plain: every text in it is well-formed, has no NUL and no byte order mark in
-- front, no object in it was freed, and no array or dictionary in it is typed by a class. Nil is
-- plain and has few bytes.
pub record SerializerLaws {f : Floats} (w : Variants f) : Type 0 where
  pub encoded_bytes : (x : w.Variant) (bs : List ℕ) → w.encode_variant x ≡ some bs → IsBytes bs
  pub encoded_some : (x : w.Variant) (bs : List ℕ) → w.encode_variant x ≡ some bs → 0 < length bs
  pub is_plain : w.Variant → Bool
  pub decoded :
      (x : w.Variant) (bs : List ℕ)
      → is_sendable w x ≡ true
      → is_plain x ≡ true
      → w.encode_variant x ≡ some bs
      → w.decode_variant bs ≡ some (x, length bs)
  pub nil_bytes : List ℕ
  pub nil_encoded : w.encode_variant w.nil ≡ some nil_bytes
  pub nil_short : length nil_bytes ≤ max_variant_bytes
  pub nil_plain : is_plain w.nil ≡ true
  pub type_of_nil : w.get_type w.nil ≡ nil_type

module _ {f : Floats} (w : Variants f) where
  -- A value that has a short encoding, or nil.
  abbrev pub if_short : w.Variant → w.Variant
  if_short z = elim (w.encode_variant z) [
    | none ↦ w.nil
    | some bytes ↦ if ltb max_variant_bytes (length bytes) then w.nil else z
  ]

  -- What the readers get of a variant: itself, if it may be sent and is short enough.
  abbrev pub delivered_variant : w.Variant → w.Variant
  delivered_variant x = if is_sendable w x then if_short x else w.nil

module _ {f : Floats} (w : Variants f) (l : SerializerLaws w) (v : ByteVector) where
  nil-sendable : is_sendable w w.nil ≡ true
  unfolding is_sendable is_sendable_within is_sendable_alone every
  nil-sendable =
      let e = l.type_of_nil in
      let one_more : w.max_recursion_depth + 1 ≡ suc w.max_recursion_depth = omega arith in
      rw (one_more, e) refl

  bytes-Carries :
      (x : w.Variant) (bs : List ℕ)
      → w.encode_variant x ≡ some bs
      → length bs ≤ max_variant_bytes
      → is_sendable w x ≡ true
      → l.is_plain x ≡ true
      → Carries (λ s. add_bytes v w s bs) (read_variant w) x
  unfolding add_bytes read_variant
  bytes-Carries x bs e h g plain =
      let k = uint_bits-Carries v (length bs) 16 (omega arith) (omega arith) in
      let fits : min (length bs) (2 ^ 16 - 1) ≡ length bs = omega arith in
      let some_bytes : (length bs == 0) ≡ false = let p = l.encoded_some x bs e in ground arith in
      let whole : (length bs == length bs) ≡ true = ground arith in
      record {
        bits = k.bits ++ byte_bits bs;
        appends = λ s a.
            let one = k.appends s a in Appends-trans one (add_bits-Appends v _ bs one.appending);
        delivers = λ s rest r q.
            let one =
              k.delivers s (byte_bits bs ++ rest) r (q ∙ append_assoc k.bits (byte_bits bs) rest) in
            let more =
              read_raw_bits-Delivers (read_uint_bits s (pos 16)).0 bs rest (l.encoded_bytes x bs e)
                one.0.readable one.0.left in
            let len = one.1 ∙ fits in
            rw
              (
                len,
                one.0.readable.sound,
                some_bytes,
                more.0.readable.sound,
                more.1,
                l.decoded x bs g plain e,
                len,
                whole,
                g,
              )
              (Delivers-trans one.0 more.0, refl);
      }

  -- The bytes of a value that may be sent, or of nil.
  abbrev sent_as : w.Variant → TickDataBuffer → TickDataBuffer
  sent_as z s = elim (short_encoding v w z) [
    | some bytes ↦ add_bytes v w s bytes
    | none ↦ elim (w.encode_variant w.nil) [ none ↦ s | some bytes ↦ add_bytes v w s bytes ]
  ]

  value-Carries :
      (z : w.Variant)
      → is_sendable w z ≡ true
      → l.is_plain z ≡ true
      → Carries (sent_as z) (read_variant w) (if_short w z)
  unfolding short_encoding
  value-Carries z g plain =
      let nil_sent =
        bytes-Carries w.nil l.nil_bytes l.nil_encoded l.nil_short nil-sendable l.nil_plain in
      elim (Option-cases (w.encode_variant z)) [
        | inl e ↦ rw (e, sent_as, if_short, l.nil_encoded) nil_sent
        | inr (bs, e) ↦ elim (Bool-cases (ltb max_variant_bytes (length bs))) [
          | inl t ↦ rw (e, sent_as, if_short, t, l.nil_encoded) nil_sent
          | inr t ↦ rw (e, sent_as, if_short, t) (bytes-Carries z bs e (ground arith) g plain)
        ]
      ]

  if_short-nil : if_short w w.nil ≡ w.nil
  if_short-nil =
      let few : ltb max_variant_bytes (length l.nil_bytes) ≡ false = ground (arith, l.nil_short) in
      rw (l.nil_encoded, if_short, few) refl

  pub variant-Carries :
      (x : w.Variant)
      → (is_sendable w x ≡ true → l.is_plain x ≡ true)
      → Carries (λ s. add_variant v w s x) (read_variant w) (delivered_variant w x)
  unfolding add_variant
  variant-Carries x plain = elim (Bool-cases (is_sendable w x)) [
    | inl e ↦ rw (e, add_variant) (value-Carries x e (plain e))
    | inr e ↦
        let c = value-Carries w.nil nil-sendable l.nil_plain in
        rw (e, add_variant) (subst (λ y. Carries (sent_as w.nil) (read_variant w) y) if_short-nil c)
  ]
