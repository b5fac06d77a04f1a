-- ===== src/DataBuffer/Raw.antt =====
-- The raw bits of `TickDataBuffer`, in whole bytes: `add_bits` appends them to what was written, and
-- `read_bits` finds them in what is left to read.
use mathlib.Core.List.{append_assoc, append-nil}
use tick_synchronizer.Prelude.{
  ℕ, zero, suc, ◌+◌, ◌-◌, ◌*◌, ◌%◌, ◌^◌, ◌≤◌, ◌<◌, min, max, ◌≡◌, refl, sym, ap, ap₂, ◌∙◌, subst,
  true, false, List, [], ◌∷◌, ◌++◌, length, length-append, get_or, get_or-append, arith, ltb,
}
use native.Mathlib.Nat.{mod-eq_of_lt}
use tick_synchronizer.Prelude.Int.{pos, ◌-ℤ◌}
use tick_synchronizer.Bits.Stream.{word_bits, length-word_bits, bits_from, bits_from_ext}
use tick_synchronizer.BitArray.{ByteVector, IsBytes}
use tick_synchronizer.BitArray.Window.{bit_at}
use tick_synchronizer.DataBuffer.{
  TickDataBuffer, write_bits, fetch_bits, check_writing, check_reading, make_room_in_bits,
  total_size,
}
use tick_synchronizer.DataBuffer.Write.{IsWritable, write_bits-Writes, make_room_in_bits-HasRoom}
use tick_synchronizer.DataBuffer.Stream.{
  written, remaining, IsAppending, Appends, IsReadable, Delivers, write_bits-written,
  fetch_bits-Delivers, length-remaining,
}
use tick_synchronizer.DataBuffer.Strings.{add_bits_loop, add_bits, read_bits_loop, read_raw_bits}

-- The bits of bytes.
abbrev pub byte_bits : List ℕ → List ℕ
byte_bits [] = []
byte_bits (b ∷ bs) = word_bits 8 b ++ byte_bits bs

pub length-byte_bits : (bs : List ℕ) → length (byte_bits bs) ≡ 8 * length bs
length-byte_bits [] = refl
length-byte_bits (b ∷ bs) =
    omega (
      arith,
      length-append (word_bits 8 b) (byte_bits bs),
      length-word_bits 8 b,
      length-byte_bits bs,
    )

-- Bits were put at the offset: unlike `Appends`, the payload may already reach further.
record Extends (s : TickDataBuffer) (xs : List ℕ) (t : TickDataBuffer) : Type 0 where
  writable : IsWritable t
  same_failed : t.buffer_failed ≡ s.buffer_failed
  same_metadata : t.metadata_size ≡ s.metadata_size
  moved : t.bit_offset ≡ s.bit_offset + length xs
  grown : t.bit_size ≡ max s.bit_size (s.bit_offset + length xs - s.metadata_size)
  more : written t ≡ written s ++ xs

module _ (v : ByteVector) where
  write_bits-Extends :
      (s : TickDataBuffer) (value n : ℕ)
      → IsWritable s
      → 0 < n
      → n ≤ 64
      → Extends s (word_bits n value) (write_bits v s value n)
  write_bits-Extends s value n w p q =
      let h = write_bits-Writes v s value n w p q in
      record {
        writable = h.writable;
        same_failed = h.same_failed;
        same_metadata = h.same_metadata;
        moved = omega (arith, h.moved, length-word_bits n value);
        grown = omega (arith, h.grown, length-word_bits n value);
        more = write_bits-written v s value n w p q;
      }

  Extends-refl :
      (s : TickDataBuffer)
      → IsWritable s
      → s.bit_offset - s.metadata_size ≤ s.bit_size
      → Extends s [] s
  Extends-refl s w g = record {
    writable = w;
    same_failed = refl;
    same_metadata = refl;
    moved = omega arith;
    grown = omega arith;
    more = sym (append-nil (written s));
  }

  Extends-trans :
      {s t u : TickDataBuffer} {xs ys : List ℕ}
      → Extends s xs t
      → Extends t ys u
      → Extends s (xs ++ ys) u
  Extends-trans {s = s} {xs = xs} {ys = ys} h k = record {
    writable = k.writable;
    same_failed = k.same_failed ∙ h.same_failed;
    same_metadata = k.same_metadata ∙ h.same_metadata;
    moved = omega (arith, h.moved, k.moved, length-append xs ys);
    grown = omega (arith, h.moved, h.grown, h.same_metadata, k.grown, length-append xs ys);
    more = k.more ∙ ap (λ zs. zs ++ ys) h.more ∙ append_assoc (written s) xs ys;
  }

  -- A round of the loop that has a whole byte to write.
  add_bits_loop_round :
      (fuel : ℕ) (xs ys : List ℕ) (y : ℕ) (s : TickDataBuffer)
      → add_bits_loop v (suc fuel) (xs ++ (y ∷ ys)) (length xs) (8 * suc (length ys)) s
        ≡ add_bits_loop v fuel
            (xs ++ y ∷ [] ++ ys)
            (length (xs ++ y ∷ []))
            (8 * length ys)
            (write_bits v s y 8)
  unfolding add_bits_loop
  add_bits_loop_round fuel xs ys y s =
      let some : ltb 0 (8 * suc (length ys)) ≡ true = ground arith in
      let whole : min (8 * suc (length ys)) 8 ≡ 8 = omega arith in
      let left : 8 * suc (length ys) - 8 ≡ 8 * length ys = omega arith in
      let here : get_or (xs ++ (y ∷ ys)) (length xs) 0 ≡ y =
        ground (arith, get_or-append xs (y ∷ ys) (length xs) 0) in
      let next : length (xs ++ y ∷ []) ≡ length xs + 1 = length-append xs (y ∷ []) in
      rw (some, whole, left, here, next, append_assoc xs (y ∷ []) ys) refl

  -- The loop, at the bytes that are left.
  add_bits_loop-Extends :
      (fuel : ℕ) (xs ys : List ℕ) (s : TickDataBuffer)
      → length ys ≤ fuel
      → IsWritable s
      → s.bit_offset - s.metadata_size ≤ s.bit_size
      → Extends s (byte_bits ys) (add_bits_loop v fuel (xs ++ ys) (length xs) (8 * length ys) s)
  add_bits_loop-Extends zero xs [] s l w g = unfold add_bits_loop in Extends-refl s w g
  add_bits_loop-Extends (suc fuel) xs [] s l w g = unfold add_bits_loop in Extends-refl s w g
  add_bits_loop-Extends zero xs (y ∷ ys) s l w g = absurd (omega arith)
  add_bits_loop-Extends (suc fuel) xs (y ∷ ys) s l w g =
      let h = write_bits-Extends s y 8 w (omega arith) (omega arith) in
      let r =
        add_bits_loop-Extends fuel (xs ++ y ∷ []) ys (write_bits v s y 8) (omega arith) h.writable
          (omega (arith, h.moved, h.grown, h.same_metadata)) in
      subst (Extends s (word_bits 8 y ++ byte_bits ys)) (sym (add_bits_loop_round fuel xs ys y s))
        (Extends-trans h r)

  -- Making room changes no bit that was written.
  room-written :
      (s : TickDataBuffer) (n : ℕ) → IsWritable s → written (make_room_in_bits v s n) ≡ written s
  unfolding written
  room-written s n w =
      let h = make_room_in_bits-HasRoom v s n w.in_range in
      let room = make_room_in_bits v s n in
      ap (bits_from (bit_at room.buffer.bytes) 0) h.same_offset
      ∙ bits_from_ext (bit_at room.buffer.bytes) (bit_at s.buffer.bytes) 0 0 s.bit_offset
          (λ k p. h.kept (0 + k) (omega (arith, w.inside)))

  add_bits_lem :
      (s : TickDataBuffer) (bs : List ℕ)
      → s.is_reading ≡ false
      → add_bits v s bs (pos (length bs * 8))
        ≡ add_bits_loop v
            (8 * length bs)
            bs
            0
            (8 * length bs)
            (make_room_in_bits v s (8 * length bs))
  unfolding add_bits check_writing
  add_bits_lem s bs e =
      let count : length bs * 8 ≡ 8 * length bs = omega arith in
      let sign : ltb (8 * length bs + 0) 0 ≡ false = ground arith in rw (count, sign, e) refl

  -- The bits are appended in whole bytes.
  pub add_bits-Appends :
      (s : TickDataBuffer) (bs : List ℕ)
      → IsAppending s
      → Appends s (byte_bits bs) (add_bits v s bs (pos (length bs * 8)))
  add_bits-Appends s bs a =
      let room = make_room_in_bits v s (8 * length bs) in
      let h = make_room_in_bits-HasRoom v s (8 * length bs) a.writable.in_range in
      let w : IsWritable room = record {
        writing = h.same_reading ∙ a.writable.writing;
        in_range = h.in_range;
        inside = omega (arith, h.room, h.same_offset);
      } in
      let r =
        add_bits_loop-Extends (8 * length bs) [] bs room (omega arith) w
          (omega (arith, h.grown, h.same_offset, h.same_metadata)) in
      subst (Appends s (byte_bits bs)) (sym (add_bits_lem s bs a.writable.writing)) (record {
        appending = record {
          writable = r.writable;
          sound = r.same_failed ∙ h.same_failed ∙ a.sound;
          at_end = omega (
            arith,
            r.grown,
            r.moved,
            r.same_metadata,
            h.grown,
            h.same_offset,
            h.same_metadata,
            length-byte_bits bs,
            a.at_end,
          );
        };
        same_metadata = r.same_metadata ∙ h.same_metadata;
        moved = omega (arith, r.moved, h.same_offset);
        more = r.more ∙ ap (λ zs. zs ++ byte_bits bs) (room-written s (8 * length bs) a.writable);
      })

-- The loop of `read_bits`, with a round for each byte.
read_bits_loop-Delivers :
    (fuel : ℕ) (s : TickDataBuffer) (bs : List ℕ) (rest : List ℕ)
    → length bs ≤ fuel
    → IsBytes bs
    → IsReadable s
    → remaining s ≡ byte_bits bs ++ rest
    → Delivers s rest (read_bits_loop fuel (8 * length bs) s).0
      × ((read_bits_loop fuel (8 * length bs) s).1 ≡ bs)
unfolding read_bits_loop
read_bits_loop-Delivers zero s [] rest l b r e =
    (record { readable = r; same_data = (refl, refl); left = e }, refl)
read_bits_loop-Delivers (suc fuel) s [] rest l b r e =
    (record { readable = r; same_data = (refl, refl); left = e }, refl)
read_bits_loop-Delivers zero s (y ∷ ys) rest l b r e = absurd (omega arith)
read_bits_loop-Delivers (suc fuel) s (y ∷ ys) rest l b r e =
    let one =
      fetch_bits-Delivers s 8 y (byte_bits ys ++ rest) r (omega arith) (omega arith) (b 0)
        (e ∙ append_assoc (word_bits 8 y) (byte_bits ys) rest) in
    let more =
      read_bits_loop-Delivers fuel (fetch_bits s 8).0 ys rest (omega arith) (λ j. b (suc j))
        one.0.readable one.0.left in
    let some : ltb 0 (8 * suc (length ys)) ≡ true = ground arith in
    let whole : min (8 * suc (length ys)) 8 ≡ 8 = omega arith in
    let left : 8 * suc (length ys) - 8 ≡ 8 * length ys = omega arith in
    rw (some, whole, left)
      (
        record {
          readable = more.0.readable;
          same_data =
              (more.0.same_data.0 ∙ one.0.same_data.0, more.0.same_data.1 ∙ one.0.same_data.1);
          left = more.0.left;
        },
        ap₂ ◌∷◌ (ap (λ x. x % 2 ^ 8) one.1 ∙ mod-eq_of_lt {n = y} {m = 2 ^ 8} (b 0)) more.1,
      )

-- The bytes are there.
pub check_bytes-ready :
    (s : TickDataBuffer) (bs : List ℕ) (rest : List ℕ)
    → IsReadable s
    → remaining s ≡ byte_bits bs ++ rest
    → check_reading s (pos (8 * length bs)) ≡ (s, true)
check_bytes-ready s bs rest r e = check_ready (
    omega (
      arith,
      r.ahead,
      length-remaining s,
      ap length e,
      length-append (byte_bits bs) rest,
      length-byte_bits bs,
    ))
  where
    check_ready :
        s.bit_offset + 8 * length bs ≤ total_size s
        → check_reading s (pos (8 * length bs)) ≡ (s, true)
    check_ready fits = unfold check_reading total_size ◌-ℤ◌ in ground (arith, r.reading, r.sound)

-- The bytes that are next are read.
pub read_raw_bits-Delivers :
    (s : TickDataBuffer) (bs : List ℕ) (rest : List ℕ)
    → IsBytes bs
    → IsReadable s
    → remaining s ≡ byte_bits bs ++ rest
    → Delivers s rest (read_raw_bits s (pos (length bs * 8))).0
      × ((read_raw_bits s (pos (length bs * 8))).1 ≡ bs)
unfolding read_raw_bits
read_raw_bits-Delivers s bs rest b r e =
    let count : length bs * 8 ≡ 8 * length bs = omega arith in
    let sign : ltb (8 * length bs + 0) 0 ≡ false = ground arith in
    let ready = check_bytes-ready s bs rest r e in
    rw (count, sign, ready) (read_bits_loop-Delivers (8 * length bs) s bs rest (omega arith) b r e)
