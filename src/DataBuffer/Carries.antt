-- ===== src/DataBuffer/Carries.antt =====
-- What a writer and a reader of `TickDataBuffer` agree on: the bits of a value, which are the same
-- wherever it stands in a message.
use mathlib.Core.List.{append_assoc, append-nil}
use tick_synchronizer.Prelude.{
  ℕ, ◌-◌, ◌^◌, ◌≤◌, ◌<◌, min, ◌≡◌, sym, ap, ap₂, ◌∙◌, Bool, true, false, List, [], ◌++◌, arith,
  if◌then◌else◌,
}
use tick_synchronizer.Prelude.Int.{ℤ, pos}
use tick_synchronizer.Prelude.Words.{IsInt}
use tick_synchronizer.Bits.Stream.{word_bits}
use tick_synchronizer.BitArray.{ByteVector, IsBytes}
use tick_synchronizer.DataBuffer.{TickDataBuffer, begin_write, begin_read, is_end_of_buffer}
use tick_synchronizer.DataBuffer.Values.{
  add_bool, add_int_bits, add_uint_bits, read_bool, read_int_bits, read_uint_bits,
}
use tick_synchronizer.DataBuffer.Ints.{clamp_signed}
use tick_synchronizer.DataBuffer.Stream.{
  remaining, IsAppending, Appends, IsReadable, Delivers, begin_write-IsAppending,
  begin_read-IsReadable,
}
use tick_synchronizer.DataBuffer.Messages.{
  bool, int_bits, uint_bits, Value, truth, signed, unsigned, word, add_field, add_field-Appends,
  read_field, read_field-Delivers, written_nil, at_end,
}
use tick_synchronizer.DataBuffer.SentStrings.{Appends-trans, Delivers-trans}

pub record Carries {A : Type 0} (write : TickDataBuffer → TickDataBuffer)
    (read : TickDataBuffer → TickDataBuffer × A) (x : A) : Type 0 where
  pub bits : List ℕ
  pub appends : (s : TickDataBuffer) → IsAppending s → Appends s bits (write s)
  pub delivers :
      (s : TickDataBuffer) (rest : List ℕ)
      → IsReadable s
      → remaining s ≡ bits ++ rest
      → Delivers s rest (read s).0 × ((read s).1 ≡ x)

-- One value, then another.
pub Carries-both :
    {A B C : Type 0} (write write' : TickDataBuffer → TickDataBuffer)
    (read : TickDataBuffer → TickDataBuffer × A) (read' : TickDataBuffer → TickDataBuffer × B)
    (f : A → B → C) {x : A} {y : B}
    → Carries write read x
    → Carries write' read' y
    → Carries
        (λ s. write' (write s))
        (λ s. let (t, a) = read s in let (u, b) = read' t in (u, f a b))
        (f x y)
Carries-both write write' read read' f h k = record {
  bits = h.bits ++ k.bits;
  appends = λ s a. let one = h.appends s a in Appends-trans one (k.appends (write s) one.appending);
  delivers = λ s rest r e.
      let one = h.delivers s (k.bits ++ rest) r (e ∙ append_assoc h.bits k.bits rest) in
      let more = k.delivers (read s).0 rest one.0.readable one.0.left in
      (Delivers-trans one.0 more.0, ap₂ f one.1 more.1);
}

pub Carries-map :
    {A B : Type 0} (write : TickDataBuffer → TickDataBuffer)
    (read : TickDataBuffer → TickDataBuffer × A) (f : A → B) {x : A}
    → Carries write read x
    → Carries write (λ s. let (t, a) = read s in (t, f a)) (f x)
Carries-map write read f h = record {
  bits = h.bits;
  appends = h.appends;
  delivers = λ s rest r e. let d = h.delivers s rest r e in (d.0, ap f d.1);
}

-- After `begin_write`, `begin_read` finds the value and nothing after it.
pub Carries-message :
    {A : Type 0} (v : ByteVector) (s : TickDataBuffer) (write : TickDataBuffer → TickDataBuffer)
    (read : TickDataBuffer → TickDataBuffer × A) {x : A}
    → IsBytes s.buffer.bytes
    → Carries write read x
    → ((read (begin_read (write (begin_write v s (pos 0))))).1 ≡ x)
      × ((read (begin_read (write (begin_write v s (pos 0))))).0.buffer_failed ≡ false)
      × (is_end_of_buffer (read (begin_read (write (begin_write v s (pos 0))))).0 ≡ true)
Carries-message v s write read b h =
    let start = begin_write-IsAppending v s b in
    let w = h.appends (begin_write v s (pos 0)) start.0 in
    let r =
      begin_read-IsReadable (write (begin_write v s (pos 0))) w.appending
        (omega (arith, w.same_metadata, start.2)) in
    let e =
      r.2 ∙ w.more ∙ ap (λ xs. xs ++ h.bits) (written_nil v _ start.1) ∙ sym (append-nil h.bits) in
    let d = h.delivers (begin_read (write (begin_write v s (pos 0)))) [] r.0 e in
    (d.1, d.0.readable.sound, at_end v _ d.0)

abbrev truth_of : Value → Bool
truth_of (truth b) = b
truth_of (signed x) = false
truth_of (unsigned n) = false

abbrev signed_of : Value → ℤ
signed_of (truth b) = pos 0
signed_of (signed x) = x
signed_of (unsigned n) = pos 0

abbrev unsigned_of : Value → ℕ
unsigned_of (truth b) = 0
unsigned_of (signed x) = 0
unsigned_of (unsigned n) = n

module _ (v : ByteVector) where
  pub bool-Carries : (b : Bool) → Carries (λ s. (add_bool v s b).0) read_bool b
  unfolding add_field read_field
  bool-Carries b = record {
    bits = word_bits 1 (if b then 1 else 0);
    appends = λ s a. (add_field-Appends v s (bool b) tt a).0;
    delivers =
        λ s rest r e. let d = read_field-Delivers s (bool b) rest tt r e in (d.0, ap truth_of d.1);
  }

  pub uint_bits-Carries :
      (x n : ℕ)
      → 0 < n
      → n ≤ 64
      → Carries
          (λ s. (add_uint_bits v s x (pos n)).0)
          (λ s. read_uint_bits s (pos n))
          (min x (2 ^ n - 1))
  unfolding add_field read_field
  uint_bits-Carries x n p q = record {
    bits = word_bits n (min x (2 ^ n - 1));
    appends = λ s a. (add_field-Appends v s (uint_bits x n) (p, q) a).0;
    delivers = λ s rest r e.
        let d = read_field-Delivers s (uint_bits x n) rest (p, q) r e in (d.0, ap unsigned_of d.1);
  }

  pub int_bits-Carries :
      (x : ℤ) (n : ℕ)
      → 0 < n
      → n ≤ 64
      → IsInt 63 x
      → Carries
          (λ s. (add_int_bits v s x (pos n)).0)
          (λ s. read_int_bits s (pos n))
          (clamp_signed n x)
  unfolding add_field read_field
  int_bits-Carries x n p q h = record {
    bits = word_bits n (word (int_bits x n));
    appends = λ s a. (add_field-Appends v s (int_bits x n) (p, q, h) a).0;
    delivers = λ s rest r e.
        let d = read_field-Delivers s (int_bits x n) rest (p, q, h) r e in (d.0, ap signed_of d.1);
  }
