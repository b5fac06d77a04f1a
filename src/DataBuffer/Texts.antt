-- ===== src/DataBuffer/Texts.antt =====
-- What `TickDataBuffer::is_valid_utf8` accepts: the UTF-8 encodings of texts.
use mathlib.Core.List.{append_assoc}
use tick_synchronizer.Prelude.{
  ℕ, zero, suc, ◌+◌, ◌≤◌, ◌<◌, ◌≡◌, refl, sym, ap, ◌∙◌, subst, true, false, ◌==◌, ltb, List, [],
  ◌∷◌, ◌++◌, length, length-append, get_or, arith, inl, inr, ◌↔◌,
}
use tick_synchronizer.Prelude.Int.{pos}
use tick_synchronizer.BitArray.{IsBytes}
use tick_synchronizer.DataBuffer.Utf8.{sequence_size, utf8_loop, is_valid_utf8}
use tick_synchronizer.DataBuffer.Sequences.{
  get_or_suffix, sequence_size_suffix, sequence_size_lem, sequence_size-IsSequence,
}
use tick_synchronizer.DataBuffer.Unicode.{
  encode, encode_all, AllScalar, Decoded, decode, encode-IsSequence,
}

suffix-IsBytes : (xs ys : List ℕ) → IsBytes (xs ++ ys) → IsBytes ys
suffix-IsBytes xs ys h j =
    omega (arith, get_or_suffix xs ys j, h (length xs + j), ap (λ k. get_or ys k 0) (zero_add j))
  where
    zero_add : (j : ℕ) → 0 + j ≡ j
    zero_add j = omega arith

-- One round of the main loop, seen from the bytes that are left.
loop_end :
    (fuel : ℕ) (xs : List ℕ) → utf8_loop fuel (xs ++ []) (length (xs ++ [])) (length xs) ≡ true
unfolding utf8_loop
loop_end zero xs = refl
loop_end (suc fuel) xs = ground (arith, length-append xs [])

loop_bad :
    (fuel : ℕ) (xs ys : List ℕ)
    → 0 < length ys
    → sequence_size ys (length ys) 0 ≡ 0
    → utf8_loop (suc fuel) (xs ++ ys) (length (xs ++ ys)) (length xs) ≡ false
unfolding utf8_loop
loop_bad fuel xs ys p e =
    let size = sequence_size_suffix xs ys ∙ e in ground (arith, length-append xs ys, size)

loop_round :
    (fuel : ℕ) (xs zs ws : List ℕ)
    → 0 < length zs
    → sequence_size (zs ++ ws) (length (zs ++ ws)) 0 ≡ length zs
    → utf8_loop (suc fuel) (xs ++ (zs ++ ws)) (length (xs ++ (zs ++ ws))) (length xs)
      ≡ utf8_loop fuel (xs ++ zs ++ ws) (length (xs ++ zs ++ ws)) (length (xs ++ zs))
unfolding utf8_loop
loop_round fuel xs zs ws p e =
    let size = sequence_size_suffix xs (zs ++ ws) ∙ e in
    let inside : ltb (length xs) (length (xs ++ (zs ++ ws))) ≡ true =
      ground (arith, length-append xs (zs ++ ws), length-append zs ws) in
    let some : (length zs == 0) ≡ false = ground arith in
    rw (size, inside, some, append_assoc xs zs ws, length-append xs zs) refl

-- What is left of the bytes is the encoding of some characters.
record IsEncoded (ys : List ℕ) : Type 0 where
  chars : List ℕ
  scalars : AllScalar chars
  encoded : ys ≡ encode_all chars

encode-length : (c : ℕ) → 0 < length (encode c)
unfolding encode
encode-length c = ground arith

abbrev IsAccepted : ℕ → List ℕ → List ℕ → Type 0
IsAccepted fuel xs ys = utf8_loop fuel (xs ++ ys) (length (xs ++ ys)) (length xs) ≡ true

-- Where the loop goes on, the next bytes are a character.
accepted :
    (fuel : ℕ) (xs ys : List ℕ)
    → 0 < length ys
    → IsBytes ys
    → IsAccepted (suc fuel) xs ys
    → Decoded ys (sequence_size ys (length ys) 0)
accepted fuel xs ys p b h = elim (sequence_size_lem ys b) [
  | inl e ↦ absurd (ground (arith, h, loop_bad fuel xs ys p e))
  | inr s ↦ decode ys _ s
]

-- With a round for each byte that is left, only encodings are accepted.
loop-IsEncoded :
    (fuel : ℕ) (xs ys : List ℕ)
    → length ys ≤ fuel
    → IsBytes ys
    → utf8_loop fuel (xs ++ ys) (length (xs ++ ys)) (length xs) ≡ true
    → IsEncoded ys
loop-IsEncoded fuel xs [] l b h = record { chars = []; scalars = tt; encoded = refl }
loop-IsEncoded zero xs (y ∷ ys) l b h = absurd (omega arith)
loop-IsEncoded (suc fuel) xs (y ∷ ys) l b h =
    let d = accepted fuel xs (y ∷ ys) (omega arith) b h in
    let round = loop_round fuel xs (encode d.char) d.rest (encode-length d.char) (
      subst (λ zs. sequence_size zs (length zs) 0 ≡ length (encode d.char)) d.split (sym d.size)) in
    let shorter : length d.rest ≤ fuel =
      omega
        (arith, l, ap length d.split, length-append (encode d.char) d.rest, encode-length d.char) in
    let rest =
      loop-IsEncoded fuel (xs ++ encode d.char) d.rest shorter
        (suffix-IsBytes (encode d.char) d.rest (subst IsBytes d.split b))
        (sym round ∙ subst (IsAccepted (suc fuel) xs) d.split h) in
    record {
      chars = d.char ∷ rest.chars;
      scalars = (d.scalar, rest.scalars);
      encoded = d.split ∙ ap (λ zs. encode d.char ++ zs) rest.encoded;
    }

-- Encodings are accepted, whatever the number of rounds.
loop-encode_all :
    (fuel : ℕ) (xs cs : List ℕ)
    → AllScalar cs
    → IsBytes (encode_all cs)
    → utf8_loop fuel (xs ++ encode_all cs) (length (xs ++ encode_all cs)) (length xs) ≡ true
loop-encode_all fuel xs [] h b = loop_end fuel xs
loop-encode_all zero xs (c ∷ cs) h b = unfold utf8_loop in refl
loop-encode_all (suc fuel) xs (c ∷ cs) h b =
    loop_round fuel xs (encode c) (encode_all cs) (encode-length c) (
      sequence_size-IsSequence (encode c ++ encode_all cs) _ b
        (encode-IsSequence c (encode_all cs) h.0))
    ∙ loop-encode_all fuel (xs ++ encode c) cs h.1 (suffix-IsBytes (encode c) (encode_all cs) b)

-- For any bytes, at their length: `is_valid_utf8` takes them exactly when they are the UTF-8
-- encodings, one after another, of Unicode scalar values other than NUL.
pub is_valid_utf8_lem :
    (bs : List ℕ)
    → IsBytes bs
    → (is_valid_utf8 bs (pos (length bs)) ≡ true)
      ↔ ((cs : List ℕ) × AllScalar cs × (bs ≡ encode_all cs))
unfolding is_valid_utf8
is_valid_utf8_lem bs b = (
  λ h.
      let e = loop-IsEncoded (length bs) [] bs (omega arith) b (ground (arith, h)) in
      (e.chars, e.scalars, e.encoded),
  λ (cs, h, e).
      let loop : utf8_loop (length bs) bs (length bs) 0 ≡ true =
        subst (λ zs. utf8_loop (length bs) zs (length zs) 0 ≡ true) (sym e)
          (loop-encode_all (length bs) [] cs h (subst IsBytes e b)) in
      ground (arith, loop),
)
