-- ===== src/DataBuffer/Unicode.antt =====
-- The UTF-8 encoding of a character by the definition of the standard, and which bytes are one.
use tick_synchronizer.Prelude.{
  ℕ, ◌+◌, ◌-◌, ◌*◌, ◌/◌, ◌%◌, ◌≤◌, ◌<◌, ◌≡◌, refl, sym, ap, ap₂, ◌∙◌, true, false, ◌≢◌, ltb,
  if◌then◌else◌, List, [], ◌∷◌, ◌++◌, length, arith, ◌⊎◌, inl, inr, Bool-cases,
}
use tick_synchronizer.DataBuffer.Sequences.{IsTail, IsSequence}

-- A character that a string can hold: a Unicode scalar value other than NUL.
abbrev pub IsScalar : ℕ → Type 0
IsScalar c = (0 < c) × (c < 0x110000) × ((c < 0xD800) ⊎ (0xE000 ≤ c))

-- Its UTF-8 encoding, by the definition of the standard.
unfoldable pub encode : ℕ → List ℕ
encode c =
    if ltb c 0x80
    then c ∷ []
    else if ltb c 0x800
    then (0xC0 + c / 64) ∷ (0x80 + c % 64) ∷ []
    else if ltb c 0x10000
    then (0xE0 + c / 4096) ∷ (0x80 + c / 64 % 64) ∷ (0x80 + c % 64) ∷ []
    else (0xF0 + c / 262144) ∷ (0x80 + c / 4096 % 64) ∷ (0x80 + c / 64 % 64) ∷ (0x80 + c % 64) ∷ []

abbrev pub encode_all : List ℕ → List ℕ
encode_all [] = []
encode_all (c ∷ cs) = encode c ++ encode_all cs

abbrev pub AllScalar : List ℕ → Type 0
AllScalar [] = Unit {0}
AllScalar (c ∷ cs) = IsScalar c × AllScalar cs

-- A character and what follows it.
pub record Decoded (ys : List ℕ) (n : ℕ) : Type 0 where
  pub char : ℕ
  pub rest : List ℕ
  pub scalar : IsScalar char
  pub split : ys ≡ encode char ++ rest
  pub size : length (encode char) ≡ n

encode_one : (c : ℕ) → c < 0x80 → encode c ≡ c ∷ []
unfolding encode
encode_one c h = let e : ltb c 0x80 ≡ true = ground arith in rw e refl

encode_two : (c : ℕ) → 0x80 ≤ c → c < 0x800 → encode c ≡ (0xC0 + c / 64) ∷ (0x80 + c % 64) ∷ []
unfolding encode
encode_two c p q =
    let e : ltb c 0x80 ≡ false = ground arith in
    let e' : ltb c 0x800 ≡ true = ground arith in rw (e, e') refl

encode_three :
    (c : ℕ)
    → 0x800 ≤ c
    → c < 0x10000
    → encode c ≡ (0xE0 + c / 4096) ∷ (0x80 + c / 64 % 64) ∷ (0x80 + c % 64) ∷ []
unfolding encode
encode_three c p q =
    let e : ltb c 0x80 ≡ false = ground arith in
    let e' : ltb c 0x800 ≡ false = ground arith in
    let e'' : ltb c 0x10000 ≡ true = ground arith in rw (e, e', e'') refl

encode_four :
    (c : ℕ)
    → 0x10000 ≤ c
    → encode c
      ≡ (0xF0 + c / 262144) ∷ (0x80 + c / 4096 % 64) ∷ (0x80 + c / 64 % 64) ∷ (0x80 + c % 64) ∷ []
unfolding encode
encode_four c p =
    let e : ltb c 0x80 ≡ false = ground arith in
    let e' : ltb c 0x800 ≡ false = ground arith in
    let e'' : ltb c 0x10000 ≡ false = ground arith in rw (e, e', e'') refl

decode_one : (a : ℕ) (zs : List ℕ) → 0 < a → a < 0x80 → Decoded (a ∷ zs) 1
decode_one a zs p q =
    let e = encode_one a q in
    record {
      char = a;
      rest = zs;
      scalar = (p, omega arith, inl (omega arith));
      split = ap (λ xs. xs ++ zs) (sym e);
      size = ap length e;
    }

decode_two : (a b : ℕ) (zs : List ℕ) → 0xC2 ≤ a → a ≤ 0xDF → IsTail b → Decoded (a ∷ b ∷ zs) 2
decode_two a b zs p q t =
    let c = (a - 0xC0) * 64 + (b - 0x80) in
    let e = encode_two c (omega (arith, t.0, t.1)) (omega (arith, t.0, t.1)) in
    let high : 0xC0 + c / 64 ≡ a = omega (arith, t.0, t.1) in
    let low : 0x80 + c % 64 ≡ b = omega (arith, t.0, t.1) in
    record {
      char = c;
      rest = zs;
      scalar = (omega (arith, t.0), omega (arith, t.1), inl (omega (arith, t.1)));
      split = ap₂ (λ x y. x ∷ y ∷ zs) (sym high) (sym low) ∙ ap (λ xs. xs ++ zs) (sym e);
      size = ap length e;
    }

three_scalar :
    (a b x y : ℕ)
    → 0xE0 ≤ a
    → a ≤ 0xEF
    → (a ≢ 0xE0) ⊎ (0xA0 ≤ b)
    → (a ≢ 0xED) ⊎ (b ≤ 0x9F)
    → IsTail b
    → IsTail x
    → y ≡ (a - 0xE0) * 4096 + (b - 0x80) * 64 + (x - 0x80)
    → (0x800 ≤ y) × (y < 0x10000) × ((y < 0xD800) ⊎ (0xE000 ≤ y))
three_scalar a b x y p q u w tb tx e = ground arith

decode_three :
    (a b x : ℕ) (zs : List ℕ)
    → 0xE0 ≤ a
    → a ≤ 0xEF
    → (a ≢ 0xE0) ⊎ (0xA0 ≤ b)
    → (a ≢ 0xED) ⊎ (b ≤ 0x9F)
    → IsTail b
    → IsTail x
    → Decoded (a ∷ b ∷ x ∷ zs) 3
decode_three a b x zs p q u w tb tx =
    let c = (a - 0xE0) * 4096 + (b - 0x80) * 64 + (x - 0x80) in
    let (low, high, scalar) = three_scalar a b x c p q u w tb tx refl in
    let e = encode_three c low high in
    let one : 0xE0 + c / 4096 ≡ a = omega (arith, tb.0, tb.1, tx.0, tx.1) in
    let two : 0x80 + c / 64 % 64 ≡ b = omega (arith, tb.0, tb.1, tx.0, tx.1) in
    let three : 0x80 + c % 64 ≡ x = omega (arith, tb.0, tb.1, tx.0, tx.1) in
    record {
      char = c;
      rest = zs;
      scalar = (omega (arith, low), omega (arith, high), scalar);
      split = sym (
          ap (λ xs. xs ++ zs) e
          ∙ ap (λ k. k ∷ (0x80 + c / 64 % 64) ∷ (0x80 + c % 64) ∷ zs) one
          ∙ ap₂ (λ k l. a ∷ k ∷ l ∷ zs) two three);
      size = ap length e;
    }

four_scalar :
    (a b x y c : ℕ)
    → 0xF0 ≤ a
    → a ≤ 0xF4
    → (a ≢ 0xF0) ⊎ (0x90 ≤ b)
    → (a ≢ 0xF4) ⊎ (b ≤ 0x8F)
    → IsTail b
    → IsTail x
    → IsTail y
    → c ≡ (a - 0xF0) * 262144 + (b - 0x80) * 4096 + (x - 0x80) * 64 + (y - 0x80)
    → (0x10000 ≤ c) × (c < 0x110000)
four_scalar a b x y c p q u w tb tx ty e = ground arith

decode_four :
    (a b x y : ℕ) (zs : List ℕ)
    → 0xF0 ≤ a
    → a ≤ 0xF4
    → (a ≢ 0xF0) ⊎ (0x90 ≤ b)
    → (a ≢ 0xF4) ⊎ (b ≤ 0x8F)
    → IsTail b
    → IsTail x
    → IsTail y
    → Decoded (a ∷ b ∷ x ∷ y ∷ zs) 4
decode_four a b x y zs p q u w tb tx ty =
    let c = (a - 0xF0) * 262144 + (b - 0x80) * 4096 + (x - 0x80) * 64 + (y - 0x80) in
    let (low, high) = four_scalar a b x y c p q u w tb tx ty refl in
    let e = encode_four c low in
    let one : 0xF0 + c / 262144 ≡ a = omega (arith, tb.0, tb.1, tx.0, tx.1, ty.0, ty.1) in
    let two : 0x80 + c / 4096 % 64 ≡ b = omega (arith, tb.0, tb.1, tx.0, tx.1, ty.0, ty.1) in
    let three : 0x80 + c / 64 % 64 ≡ x = omega (arith, tb.0, tb.1, tx.0, tx.1, ty.0, ty.1) in
    let four : 0x80 + c % 64 ≡ y = omega (arith, tb.0, tb.1, tx.0, tx.1, ty.0, ty.1) in
    record {
      char = c;
      rest = zs;
      scalar = (omega (arith, low), high, inr (omega (arith, low)));
      split = sym (
          ap (λ xs. xs ++ zs) e
          ∙ ap₂ (λ k l. k ∷ l ∷ (0x80 + c / 64 % 64) ∷ (0x80 + c % 64) ∷ zs) one two
          ∙ ap₂ (λ k l. a ∷ b ∷ k ∷ l ∷ zs) three four);
      size = ap length e;
    }

-- The bytes of a sequence decode to a character.
pub decode : (ys : List ℕ) (n : ℕ) → IsSequence ys n → Decoded ys n
unfolding IsSequence
decode [] n (inl (e, p, q)) = absurd (omega arith)
decode (a ∷ zs) n (inl (e, p, q)) = rw e (decode_one a zs p q)
decode [] n (inr (inl h)) = absurd (omega arith)
decode (a ∷ []) n (inr (inl h)) = absurd (omega arith)
decode (a ∷ b ∷ zs) n (inr (inl (e, l, p, q, t))) = rw e (decode_two a b zs p q t)
decode [] n (inr (inr (inl h))) = absurd (omega arith)
decode (a ∷ []) n (inr (inr (inl h))) = absurd (omega arith)
decode (a ∷ b ∷ []) n (inr (inr (inl h))) = absurd (omega arith)
decode (a ∷ b ∷ x ∷ zs) n (inr (inr (inl (e, l, p, q, u, w, tb, tx)))) =
    rw e (decode_three a b x zs p q u w tb tx)
decode [] n (inr (inr (inr h))) = absurd (omega arith)
decode (a ∷ []) n (inr (inr (inr h))) = absurd (omega arith)
decode (a ∷ b ∷ []) n (inr (inr (inr h))) = absurd (omega arith)
decode (a ∷ b ∷ x ∷ []) n (inr (inr (inr h))) = absurd (omega arith)
decode (a ∷ b ∷ x ∷ y ∷ zs) n (inr (inr (inr (e, l, p, q, u, w, tb, tx, ty)))) =
    rw e (decode_four a b x y zs p q u w tb tx ty)

pub encode-IsSequence :
    (c : ℕ) (zs : List ℕ) → IsScalar c → IsSequence (encode c ++ zs) (length (encode c))
unfolding IsSequence
encode-IsSequence c zs h = elim (Bool-cases (ltb c 0x80)) [
  | inl e ↦ rw (encode_one c (ground arith)) (inl (refl, h.0, ground arith))
  | inr e ↦ elim (Bool-cases (ltb c 0x800)) [
    | inl e' ↦ rw (encode_two c (ground arith) (ground arith)) (ground arith)
    | inr e' ↦ elim (Bool-cases (ltb c 0x10000)) [
      | inl e'' ↦ rw (encode_three c (ground arith) (ground arith)) (ground arith)
      | inr e'' ↦ rw (encode_four c (ground arith)) (ground arith)
    ]
  ]
]
