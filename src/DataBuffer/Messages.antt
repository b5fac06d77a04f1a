-- ===== src/DataBuffer/Messages.antt =====
-- A message: values added one after another, then read in the same order.
use tick_synchronizer.Prelude.{
  ℕ, ◌-◌, ◌^◌, ◌≤◌, ◌<◌, min, ◌≡◌, refl, sym, ap, ap₂, ◌∙◌, Bool, true, false, List, [], ◌∷◌, ◌++◌,
  length, length-append, nil_of_length, map, if◌then◌else◌, arith,
}
use mathlib.Core.List.{append_assoc, append-nil}
use tick_synchronizer.Prelude.Int.{ℤ, pos}
use tick_synchronizer.Prelude.Words.{to_word, IsInt}
use tick_synchronizer.Bits.{mod_two_pow-lt}
use tick_synchronizer.Bits.Stream.{word_bits, word_bits-mod}
use tick_synchronizer.Bits.Words.{two_pow-pos}
use tick_synchronizer.BitArray.{ByteVector, IsBytes}
use tick_synchronizer.DataBuffer.{
  TickDataBuffer, check_writing, check_reading, write_bits, fetch_bits, begin_write, begin_read,
  total_size, is_end_of_buffer,
}
use tick_synchronizer.DataBuffer.Values.{
  CompressionLevel, is_valid_compression_level, get_bit_taken, data_type_int, data_type_uint,
  extend_int, extend_int_bits, is_bad_width, add_bool, add_int, add_uint, add_uint_bits,
  add_int_bits, read_bool, read_int, read_uint, read_uint_bits, read_int_bits,
}
use tick_synchronizer.DataBuffer.Ints.{
  IsIntSize, get_bit_taken-IsIntSize, clamp_uint_lem, max_uint_bits_lem, clamp_signed,
  clamp_signed-IsInt, clamp_int_lem, clamp_int_bits_lem, signed_word, extend_int-signed_word,
  extend_int_bits-signed_word,
}
use tick_synchronizer.DataBuffer.Stream.{
  written, remaining, length-written, length-remaining, IsAppending, Appends, IsReadable, Delivers,
  write_bits-Appends, begin_write-IsAppending, begin_read-IsReadable, check_reading-ready,
  fetch_bits-Delivers,
}

-- A value and how it is written.
pub data Field : Type 0 where
  bool : Bool → Field
  int : ℤ → CompressionLevel → Field
  uint : ℕ → CompressionLevel → Field
  int_bits : ℤ → ℕ → Field
  uint_bits : ℕ → ℕ → Field

-- The calls that the source takes: a valid level or width, and values of the C++ types.
abbrev pub IsSendable : Field → Type 0
IsSendable (bool b) = Unit {0}
IsSendable (int x level) = (is_valid_compression_level level ≡ true) × IsInt 63 x
IsSendable (uint x level) = (is_valid_compression_level level ≡ true) × (x < 2 ^ 64)
IsSendable (int_bits x n) = (0 < n) × (n ≤ 64) × IsInt 63 x
IsSendable (uint_bits x n) = (0 < n) × (n ≤ 64)

pub data Value : Type 0 where
  truth : Bool → Value
  signed : ℤ → Value
  unsigned : ℕ → Value

-- The number of bits that a value takes.
abbrev pub width : Field → ℕ
width (bool b) = 1
width (int x level) = get_bit_taken data_type_int level
width (uint x level) = get_bit_taken data_type_uint level
width (int_bits x n) = n
width (uint_bits x n) = n

-- What the readers are to get: the value clamped to the range of its width.
abbrev pub delivered : Field → Value
delivered (bool b) = truth b
delivered (int x level) = signed (clamp_signed (get_bit_taken data_type_int level) x)
delivered (uint x level) = unsigned (min x (2 ^ get_bit_taken data_type_uint level - 1))
delivered (int_bits x n) = signed (clamp_signed n x)
delivered (uint_bits x n) = unsigned (min x (2 ^ n - 1))

-- The word that carries the value.
abbrev pub word : Field → ℕ
word (bool b) = if b then 1 else 0
word (int x level) =
    signed_word (get_bit_taken data_type_int level)
      (clamp_signed (get_bit_taken data_type_int level) x)
word (uint x level) = min x (2 ^ get_bit_taken data_type_uint level - 1)
word (int_bits x n) = signed_word n (clamp_signed n x)
word (uint_bits x n) = min x (2 ^ n - 1)

abbrev tag {ℓ} : {A : Type ℓ} → (A → Value) → TickDataBuffer × A → TickDataBuffer × Value
tag f (s, a) = (s, f a)

-- The `read_*` call that matches the `add_*` call of a field; it does not see the value.
unfoldable pub read_field : TickDataBuffer → Field → TickDataBuffer × Value
read_field s (bool b) = tag truth (read_bool s)
read_field s (int x level) = tag signed (read_int s level)
read_field s (uint x level) = tag unsigned (read_uint s level)
read_field s (int_bits x n) = tag signed (read_int_bits s (pos n))
read_field s (uint_bits x n) = tag unsigned (read_uint_bits s (pos n))

size_bounds : (n : ℕ) → IsIntSize n → (0 < n) × (n ≤ 64)
size_bounds n h = (omega arith, omega arith)

pub width_bounds : (f : Field) → IsSendable f → (0 < width f) × (width f ≤ 64)
width_bounds (bool b) h = (omega arith, omega arith)
width_bounds (int x level) h = size_bounds _ (get_bit_taken-IsIntSize level h.0).0
width_bounds (uint x level) h =
    let e = get_bit_taken-IsIntSize level h.0 in rw e.1 (size_bounds _ e.0)
width_bounds (int_bits x n) h = (h.0, h.1)
width_bounds (uint_bits x n) h = h

word-lt : (f : Field) → word f < 2 ^ width f
word-lt (bool true) = omega arith
word-lt (bool false) = omega arith
word-lt (int x level) = mod_two_pow-lt _ (get_bit_taken data_type_int level)
word-lt (uint x level) = omega (arith, two_pow-pos (get_bit_taken data_type_uint level))
word-lt (int_bits x n) = mod_two_pow-lt _ n
word-lt (uint_bits x n) = omega (arith, two_pow-pos n)

pub width_ok : (n : ℕ) → 0 < n → n ≤ 64 → is_bad_width (pos n) ≡ false
unfolding is_bad_width
width_ok n p q = ground arith

-- A read whose bits are next returns the value and leaves what follows.
pub read_field-Delivers :
    (s : TickDataBuffer) (f : Field) (rest : List ℕ)
    → IsSendable f
    → IsReadable s
    → remaining s ≡ word_bits (width f) (word f) ++ rest
    → Delivers s rest (read_field s f).0 × ((read_field s f).1 ≡ delivered f)
unfolding read_field
read_field-Delivers s f rest h r e = go f h (check_reading-ready s (width f) (word f) rest r e) (
    fetch_bits-Delivers s (width f) (word f) rest r (width_bounds f h).0 (width_bounds f h).1
      (word-lt f) e)
  where
    go :
        (f : Field)
        → IsSendable f
        → check_reading s (pos (width f)) ≡ (s, true)
        → Delivers s rest (fetch_bits s (width f)).0 × ((fetch_bits s (width f)).1 ≡ word f)
        → Delivers s rest (read_field s f).0 × ((read_field s f).1 ≡ delivered f)
    go (bool true) h c d = unfold read_bool in rw c (d.0, rw (d.1) refl)
    go (bool false) h c d = unfold read_bool in rw c (d.0, rw (d.1) refl)
    go (int x level) h c d =
        unfold read_int in
        rw (c, h.0)
          (
            d.0,
            ap signed (
                ap (extend_int _) d.1
                ∙ extend_int-signed_word _ _ (get_bit_taken-IsIntSize level h.0).0
                    (clamp_signed-IsInt _ x)),
          )
    go (uint x level) h c d = unfold read_uint in rw (c, h.0) (d.0, ap unsigned d.1)
    go (int_bits x n) h c d =
        unfold read_int_bits in
        rw (c, width_ok n h.0 h.1)
          (
            d.0,
            ap signed (
                ap (extend_int_bits n) d.1
                ∙ extend_int_bits-signed_word n _ h.0 h.1 (clamp_signed-IsInt n x)),
          )
    go (uint_bits x n) h c d =
        unfold read_uint_bits in rw (c, width_ok n h.0 h.1) (d.0, ap unsigned d.1)

-- The bits of a message.
abbrev pub message_bits : List Field → List ℕ
message_bits [] = []
message_bits (f ∷ fs) = word_bits (width f) (word f) ++ message_bits fs

abbrev pub AllSendable : List Field → Type 0
AllSendable [] = Unit {0}
AllSendable (f ∷ fs) = IsSendable f × AllSendable fs

unfoldable pub read_all : TickDataBuffer → List Field → TickDataBuffer × List Value
read_all s [] = (s, [])
read_all s (f ∷ fs) = let (t, x) = read_field s f in let (u, xs) = read_all t fs in (u, x ∷ xs)

read_all-Delivers :
    (s : TickDataBuffer) (fs : List Field) (rest : List ℕ)
    → AllSendable fs
    → IsReadable s
    → remaining s ≡ message_bits fs ++ rest
    → Delivers s rest (read_all s fs).0 × ((read_all s fs).1 ≡ map delivered fs)
unfolding read_all
read_all-Delivers s [] rest h r e =
    (record { readable = r; same_data = (refl, refl); left = e }, refl)
read_all-Delivers s (f ∷ fs) rest h r e =
    let one =
      read_field-Delivers s f (message_bits fs ++ rest) h.0 r
        (e ∙ append_assoc (word_bits (width f) (word f)) (message_bits fs) rest) in
    let more = read_all-Delivers (read_field s f).0 fs rest h.1 one.0.readable one.0.left in
    (
      record {
        readable = more.0.readable;
        same_data =
            (more.0.same_data.0 ∙ one.0.same_data.0, more.0.same_data.1 ∙ one.0.same_data.1);
        left = more.0.left;
      },
      ap₂ ◌∷◌ one.1 more.1,
    )

module _ (v : ByteVector) where
  -- The `add_*` call of a field.
  unfoldable pub add_field : TickDataBuffer → Field → TickDataBuffer × Value
  add_field s (bool b) = tag truth (add_bool v s b)
  add_field s (int x level) = tag signed (add_int v s x level)
  add_field s (uint x level) = tag unsigned (add_uint v s x level)
  add_field s (int_bits x n) = tag signed (add_int_bits v s x (pos n))
  add_field s (uint_bits x n) = tag unsigned (add_uint_bits v s x (pos n))

  unfoldable pub add_all : TickDataBuffer → List Field → TickDataBuffer × List Value
  add_all s [] = (s, [])
  add_all s (f ∷ fs) = let (t, x) = add_field s f in let (u, xs) = add_all t fs in (u, x ∷ xs)

  -- The call appends the word of the field, and returns what the readers get.
  pub add_field-Appends :
      (s : TickDataBuffer) (f : Field)
      → IsSendable f
      → IsAppending s
      → Appends s (word_bits (width f) (word f)) (add_field s f).0
        × ((add_field s f).1 ≡ delivered f)
  unfolding add_field check_writing
  add_field-Appends s f h a = go f h (ready a.writable.writing) (width_bounds f h)
    where
      ready : s.is_reading ≡ false → check_writing s ≡ (s, true)
      ready e = ground arith

      append : (x n : ℕ) → (0 < n) × (n ≤ 64) → Appends s (word_bits n x) (write_bits v s x n)
      append x n b = write_bits-Appends v s x n a b.0 b.1

      append_signed :
          (x : ℤ) (n : ℕ)
          → (0 < n) × (n ≤ 64)
          → Appends s (word_bits n (signed_word n x)) (write_bits v s (to_word 64 x) n)
      append_signed x n b = rw (word_bits-mod n (to_word 64 x)) (append (to_word 64 x) n b)

      go :
          (f : Field)
          → IsSendable f
          → check_writing s ≡ (s, true)
          → (0 < width f) × (width f ≤ 64)
          → Appends s (word_bits (width f) (word f)) (add_field s f).0
            × ((add_field s f).1 ≡ delivered f)
      go (bool b) h c w = unfold add_bool in rw c (append _ 1 w, refl)
      go (int x level) h c w =
          let e = clamp_int_lem _ x (get_bit_taken-IsIntSize level h.0).0 h.1 in
          unfold add_int in rw (h.0, c, e) (append_signed _ _ w, refl)
      go (uint x level) h c w =
          let n = get_bit_taken-IsIntSize level h.0 in
          let e = clamp_uint_lem (get_bit_taken data_type_uint level) x (rw (n.1) (n.0)) h.1 in
          unfold add_uint in rw (h.0, c, e) (append _ _ w, refl)
      go (int_bits x n) h c w =
          let e = clamp_int_bits_lem n x h.0 h.1 h.2 in
          unfold add_int_bits in rw (width_ok n h.0 h.1, c, e) (append_signed _ n w, refl)
      go (uint_bits x n) h c w =
          let e = max_uint_bits_lem n h.1 in
          unfold add_uint_bits in rw (width_ok n h.0 h.1, c, e) (append _ n w, refl)

  add_all-Appends :
      (s : TickDataBuffer) (fs : List Field)
      → AllSendable fs
      → IsAppending s
      → Appends s (message_bits fs) (add_all s fs).0 × ((add_all s fs).1 ≡ map delivered fs)
  unfolding add_all
  add_all-Appends s [] h a = (
    record {
      appending = a;
      same_metadata = refl;
      moved = omega arith;
      more = sym (append-nil (written s));
    },
    refl,
  )
  add_all-Appends s (f ∷ fs) h a =
      let one = add_field-Appends s f h.0 a in
      let t = (add_field s f).0 in
      let more = add_all-Appends t fs h.1 one.0.appending in
      (
        record {
          appending = more.0.appending;
          same_metadata = more.0.same_metadata ∙ one.0.same_metadata;
          moved = omega (
            arith,
            more.0.moved,
            one.0.moved,
            length-append (word_bits (width f) (word f)) (message_bits fs),
          );
          more =
              more.0.more
              ∙ ap (λ xs. xs ++ message_bits fs) one.0.more
              ∙ append_assoc (written s) (word_bits (width f) (word f)) (message_bits fs);
        },
        ap₂ ◌∷◌ one.1 more.1,
      )

  pub written_nil : (s : TickDataBuffer) → s.bit_offset ≡ 0 → written s ≡ []
  written_nil s e = nil_of_length (written s) (length-written s ∙ e)

  pub at_end :
      (s : TickDataBuffer) {t : TickDataBuffer} → Delivers t [] s → is_end_of_buffer s ≡ true
  at_end s d = ended d.readable.reading (omega (arith, ap length d.left, length-remaining s))
    where
      ended : s.is_reading ≡ true → total_size s ≤ s.bit_offset → is_end_of_buffer s ≡ true
      ended r h = unfold is_end_of_buffer in ground arith

  -- For any buffer of bytes and any list of booleans and integers, each with a valid compression
  -- level or 1 to 64 bits and in the range of its C++ type: adding them in order after
  -- `begin_write` and reading them in the same order after `begin_read` delivers each value as the
  -- writer was told, which is the value clamped to its width; the reader does not fail and ends at
  -- the end of the data.
  pub read_all-add_all :
      (s : TickDataBuffer) (fs : List Field)
      → IsBytes s.buffer.bytes
      → AllSendable fs
      → let sent = add_all (begin_write v s (pos 0)) fs in
        let received = read_all (begin_read sent.0) fs in
        (received.1 ≡ sent.1)
        × (received.1 ≡ map delivered fs)
        × (received.0.buffer_failed ≡ false)
        × (is_end_of_buffer received.0 ≡ true)
  read_all-add_all s fs b h =
      let start = begin_write-IsAppending v s b in
      let w = add_all-Appends (begin_write v s (pos 0)) fs h start.0 in
      let r =
        begin_read-IsReadable (add_all (begin_write v s (pos 0)) fs).0 w.0.appending
          (omega (arith, w.0.same_metadata, start.2)) in
      let e =
        r.2
        ∙ w.0.more
        ∙ ap (λ xs. xs ++ message_bits fs) (written_nil _ start.1)
        ∙ sym (append-nil (message_bits fs)) in
      let d =
        read_all-Delivers (begin_read (add_all (begin_write v s (pos 0)) fs).0) fs [] h r.0 e in
      (d.1 ∙ sym w.1, d.1, d.0.readable.sound, at_end _ d.0)
