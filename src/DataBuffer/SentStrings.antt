-- ===== src/DataBuffer/SentStrings.antt =====
-- Strings sent with `TickDataBuffer::add_string` and read with `read_string`.
use mathlib.Core.List.{append_assoc, append-nil}
use tick_synchronizer.Prelude.{
  ℕ, ◌-◌, ◌*◌, ◌^◌, ◌≤◌, ◌<◌, min, ◌≡◌, refl, sym, ap, ◌∙◌, subst, true, false, ◌==◌, List, [],
  ◌++◌, length, length-append, nil_of_length, arith, ltb, Bool-cases, inl, inr,
}
use tick_synchronizer.Prelude.Int.{pos, ltb_ℤ}
use tick_synchronizer.Bits.Stream.{word_bits}
use tick_synchronizer.BitArray.{ByteVector, IsBytes}
use tick_synchronizer.DataBuffer.{
  TickDataBuffer, check_writing, check_reading, begin_write, begin_read, is_end_of_buffer,
}
use tick_synchronizer.DataBuffer.Values.{
  get_bit_taken, bit_sizes, is_valid_compression_level, add_uint, read_uint, compression_level_2,
  max_string_bytes,
}
use tick_synchronizer.DataBuffer.Stream.{
  written, remaining, IsAppending, Appends, IsReadable, Delivers, begin_write-IsAppending,
  begin_read-IsReadable,
}
use tick_synchronizer.DataBuffer.Messages.{
  Value, truth, signed, uint, unsigned, read_field, read_field-Delivers, add_field,
  add_field-Appends, written_nil, at_end,
}
use tick_synchronizer.DataBuffer.Utf8.{is_valid_utf8}
use tick_synchronizer.DataBuffer.Strings.{EngineString, begins_with_bom, add_string, read_string}
use tick_synchronizer.DataBuffer.Raw.{
  byte_bits, add_bits-Appends, check_bytes-ready, read_raw_bits-Delivers,
}

-- What a string is in a buffer: its length in 16 bits, then its bytes.
abbrev pub string_bits : List ℕ → List ℕ
string_bits bs = word_bits 16 (length bs) ++ byte_bits bs

add_length-Appends :
    (v : ByteVector) (s : TickDataBuffer) (n : ℕ)
    → n < 2 ^ 16
    → IsAppending s
    → Appends s (word_bits 16 n) (add_uint v s n compression_level_2).0
unfolding get_bit_taken bit_sizes is_valid_compression_level add_field
add_length-Appends v s n h a =
    let e : min n (2 ^ 16 - 1) ≡ n = omega arith in
    subst (λ k. Appends s (word_bits 16 k) (add_uint v s n compression_level_2).0) e
      (add_field-Appends v s (uint n compression_level_2) (refl, omega arith) a).0

-- The number that a read of an unsigned integer gave.
abbrev number : Value → ℕ
number (truth b) = 0
number (signed x) = 0
number (unsigned n) = n

read_length-Delivers :
    (s : TickDataBuffer) (n : ℕ) (rest : List ℕ)
    → n < 2 ^ 16
    → IsReadable s
    → remaining s ≡ word_bits 16 n ++ rest
    → Delivers s rest (read_uint s compression_level_2).0
      × ((read_uint s compression_level_2).1 ≡ n)
unfolding get_bit_taken bit_sizes is_valid_compression_level read_field
read_length-Delivers s n rest h r e =
    let k : min n (2 ^ 16 - 1) ≡ n = omega arith in
    let d =
      read_field-Delivers s (uint n compression_level_2) rest (refl, omega arith) r
        (e ∙ ap (λ m. word_bits 16 m ++ rest) (sym k)) in
    (d.0, ap number d.1 ∙ k)

pub Appends-trans :
    {s t u : TickDataBuffer} {xs ys : List ℕ}
    → Appends s xs t
    → Appends t ys u
    → Appends s (xs ++ ys) u
Appends-trans {s = s} {xs = xs} {ys = ys} h k = record {
  appending = k.appending;
  same_metadata = k.same_metadata ∙ h.same_metadata;
  moved = omega (arith, h.moved, k.moved, length-append xs ys);
  more = k.more ∙ ap (λ zs. zs ++ ys) h.more ∙ append_assoc (written s) xs ys;
}

pub Delivers-trans :
    {s t u : TickDataBuffer} {xs ys : List ℕ} → Delivers s xs t → Delivers t ys u → Delivers s ys u
Delivers-trans h k = record {
  readable = k.readable;
  same_data = (k.same_data.0 ∙ h.same_data.0, k.same_data.1 ∙ h.same_data.1);
  left = k.left;
}

pub check_writing-ready : (s : TickDataBuffer) → s.is_reading ≡ false → check_writing s ≡ (s, true)
unfolding check_writing
check_writing-ready s e = ground arith

module _ (e : EngineString) where
  -- A text that `add_string` takes: its UTF-8 is well-formed and not too long.
  abbrev pub IsSendableText : e.Text → Type 0
  IsSendableText t =
      (length (e.utf8 t) ≤ max_string_bytes)
      × (is_valid_utf8 (e.utf8 t) (pos (length (e.utf8 t))) ≡ true)

  add_string-Appends :
      (v : ByteVector) (s : TickDataBuffer) (t : e.Text)
      → IsSendableText t
      → IsAppending s
      → Appends s (string_bits (e.utf8 t)) (add_string e v s t)
  unfolding add_string
  add_string-Appends v s t h a =
      let short : ltb max_string_bytes (length (e.utf8 t)) ≡ false = ground (arith, h.0) in
      let one = add_length-Appends v s (length (e.utf8 t)) (omega (arith, h.0)) a in
      rw (check_writing-ready s a.writable.writing, short, h.1)
        (Appends-trans one (add_bits-Appends v _ (e.utf8 t) one.appending))

  read_string-Delivers :
      (s : TickDataBuffer) (t : e.Text) (rest : List ℕ) (max_bytes : ℕ)
      → IsSendableText t
      → begins_with_bom (e.utf8 t) ≡ false
      → length (e.utf8 t) ≤ max_bytes
      → IsReadable s
      → remaining s ≡ string_bits (e.utf8 t) ++ rest
      → Delivers s rest (read_string e s (pos max_bytes)).0
        × ((read_string e s (pos max_bytes)).1 ≡ t)
  unfolding read_string
  read_string-Delivers s t rest max_bytes h p m r q =
      let u = e.utf8 t in
      let one =
        read_length-Delivers s (length u) (byte_bits u ++ rest) (omega (arith, h.0)) r
          (q ∙ append_assoc (word_bits 16 (length u)) (byte_bits u) rest) in
      let bytes =
        read_raw_bits-Delivers (read_uint s compression_level_2).0 u rest (e.in_range t)
          one.0.readable one.0.left in
      let ready : check_reading (read_uint s compression_level_2).0 (pos (length u * 8))
          ≡ ((read_uint s compression_level_2).0, true) =
        ap (λ k. check_reading (read_uint s compression_level_2).0 (pos k)) {y = 8 * length u}
          (omega arith)
        ∙ check_bytes-ready (read_uint s compression_level_2).0 u rest one.0.readable one.0.left in
      let short : ltb_ℤ (pos max_bytes) (pos (length u)) ≡ false = ground arith in
      elim (Bool-cases (length u == 0)) [
        | inl z ↦
            let nil = nil_of_length u (ground (arith, z)) in
            rw (one.1, z)
              (
                record {
                  readable = one.0.readable;
                  same_data = one.0.same_data;
                  left = one.0.left ∙ ap (λ zs. byte_bits zs ++ rest) nil;
                },
                sym e.no_bytes ∙ ap e.of_utf8 (sym nil) ∙ e.decoded t h.1 p,
              )
        | inr z ↦
            rw (one.1, z, one.0.readable.sound, short, ready, bytes.1, h.1)
              (Delivers-trans one.0 bytes.0, e.decoded t h.1 p)
      ]

  -- For any buffer of bytes and any text whose UTF-8 is well-formed, has no NUL and no byte order
  -- mark in front and is at most 65535 bytes: adding it after `begin_write` and reading it after
  -- `begin_read`, with a limit of at least its length, gives the text back; the reader does not
  -- fail and ends at the end of the data.
  pub read_string-add_string :
      (v : ByteVector) (s : TickDataBuffer) (t : e.Text) (max_bytes : ℕ)
      → IsBytes s.buffer.bytes
      → IsSendableText t
      → begins_with_bom (e.utf8 t) ≡ false
      → length (e.utf8 t) ≤ max_bytes
      → let received =
          read_string e (begin_read (add_string e v (begin_write v s (pos 0)) t)) (pos max_bytes) in
        (received.1 ≡ t) × (received.0.buffer_failed ≡ false) × (is_end_of_buffer received.0 ≡ true)
  read_string-add_string v s t max_bytes b h p m =
      let start = begin_write-IsAppending v s b in
      let sent = add_string e v (begin_write v s (pos 0)) t in
      let w = add_string-Appends v (begin_write v s (pos 0)) t h start.0 in
      let r = begin_read-IsReadable sent w.appending (omega (arith, w.same_metadata, start.2)) in
      let q =
        r.2
        ∙ w.more
        ∙ ap (λ xs. xs ++ string_bits (e.utf8 t)) (written_nil v (begin_write v s (pos 0)) start.1)
        ∙ sym (append-nil (string_bits (e.utf8 t))) in
      let d = read_string-Delivers (begin_read sent) t [] max_bytes h p m r.0 q in
      (d.1, d.0.readable.sound, at_end v _ d.0)
