-- ===== src/DataBuffer/Stream.antt =====
-- A buffer as a sequence of bits: what has been written, and what is left to read. `write_bits`
-- appends to the one and `fetch_bits` takes from the other.
use tick_synchronizer.Prelude.{
  ℕ, ◌+◌, ◌-◌, ◌*◌, ◌^◌, ◌≤◌, ◌<◌, ◌≡◌, refl, sym, ap, ap₂, ◌∙◌, true, false, List, ◌++◌, length,
  length-append, arith, inl,
}
use tick_synchronizer.Prelude.Int.{pos, ◌-ℤ◌}
use tick_synchronizer.Bits.{testbit}
use tick_synchronizer.Bits.Stream.{
  bits_from, word_bits, length-bits_from, length-word_bits, bits_from-append, bits_from_ext,
  word_bits_inj,
}
use tick_synchronizer.BitArray.{ByteVector, IsBytes, read_bits}
use tick_synchronizer.BitArray.Window.{bit_at}
use tick_synchronizer.BitArray.Read.{read_bits-Reads}
use tick_synchronizer.DataBuffer.{
  TickDataBuffer, write_bits, fetch_bits, check_reading, total_size, begin_write, begin_read,
  make_room_in_bits,
}
use tick_synchronizer.DataBuffer.Write.{IsWritable, write_bits-Writes}

-- The bits written so far, the metadata first.
unfoldable pub written : TickDataBuffer → List ℕ
written s = bits_from (bit_at s.buffer.bytes) 0 s.bit_offset

-- A buffer written from its beginning on, with no seek: its data ends at the offset.
pub record IsAppending (s : TickDataBuffer) : Type 0 where
  pub writable : IsWritable s
  pub sound : s.buffer_failed ≡ false
  pub at_end : s.bit_size ≡ s.bit_offset - s.metadata_size

-- The buffer `t` is `s` with some bits appended.
pub record Appends (s : TickDataBuffer) (xs : List ℕ) (t : TickDataBuffer) : Type 0 where
  pub appending : IsAppending t
  pub same_metadata : t.metadata_size ≡ s.metadata_size
  pub moved : t.bit_offset ≡ s.bit_offset + length xs
  pub more : written t ≡ written s ++ xs

-- The bits left to read.
unfoldable pub remaining : TickDataBuffer → List ℕ
unfolding total_size
remaining s = bits_from (bit_at s.buffer.bytes) s.bit_offset (total_size s - s.bit_offset)

-- A buffer that is being read and has not failed, its data inside its storage.
pub record IsReadable (s : TickDataBuffer) : Type 0 where
  pub reading : s.is_reading ≡ true
  pub sound : s.buffer_failed ≡ false
  pub in_range : IsBytes s.buffer.bytes
  pub ahead : s.bit_offset ≤ total_size s
  pub stored : total_size s ≤ 8 * length s.buffer.bytes

-- The buffer `t` is `s` with some bits taken off what is left.
pub record Takes (s : TickDataBuffer) (xs : List ℕ) (t : TickDataBuffer) : Type 0 where
  pub readable : IsReadable t
  pub same_data : (t.buffer ≡ s.buffer) × (total_size t ≡ total_size s)
  pub moved : t.bit_offset ≡ s.bit_offset + length xs
  pub fewer : remaining s ≡ xs ++ remaining t

module _ (v : ByteVector) where
  -- The bits written are those from before, then the low bits of the value.
  pub write_bits-written :
      (s : TickDataBuffer) (value n : ℕ)
      → IsWritable s
      → 0 < n
      → n ≤ 64
      → written (write_bits v s value n) ≡ written s ++ word_bits n value
  unfolding written word_bits
  write_bits-written s value n a p q =
      let t = write_bits v s value n in
      let w = write_bits-Writes v s value n a p q in
      ap (bits_from (bit_at t.buffer.bytes) 0) w.moved
      ∙ bits_from-append (bit_at t.buffer.bytes) 0 s.bit_offset n
      ∙ ap₂ ◌++◌
          (bits_from_ext (bit_at t.buffer.bytes) (bit_at s.buffer.bytes) 0 0 s.bit_offset
            (λ k h. w.kept (0 + k) (inl (omega arith)) (omega (arith, a.inside))))
          (bits_from_ext (bit_at t.buffer.bytes) (testbit value) (0 + s.bit_offset) 0 n (λ k h.
            w.written (0 + s.bit_offset + k) (omega arith) (omega arith)
            ∙ ap (testbit value) (omega arith)))

  -- Writing 1 to 64 bits to a buffer that has been written from its beginning on and has not
  -- failed appends exactly the low bits of the value to the bits written so far, and leaves it
  -- such a buffer.
  pub write_bits-Appends :
      (s : TickDataBuffer) (value n : ℕ)
      → IsAppending s
      → 0 < n
      → n ≤ 64
      → Appends s (word_bits n value) (write_bits v s value n)
  write_bits-Appends s value n a p q =
      let w = write_bits-Writes v s value n a.writable p q in
      record {
        appending = record {
          writable = w.writable;
          sound = w.same_failed ∙ a.sound;
          at_end = omega (arith, w.grown, w.moved, w.same_metadata, a.at_end);
        };
        same_metadata = w.same_metadata;
        moved = omega (arith, w.moved, length-word_bits n value);
        more = write_bits-written s value n a.writable p q;
      }

-- The two sequences have the lengths of the buffer.
pub length-remaining : (s : TickDataBuffer) → length (remaining s) ≡ total_size s - s.bit_offset
unfolding remaining
length-remaining s =
    length-bits_from (bit_at s.buffer.bytes) s.bit_offset (total_size s - s.bit_offset)

pub length-written : (s : TickDataBuffer) → length (written s) ≡ s.bit_offset
unfolding written
length-written s = length-bits_from (bit_at s.buffer.bytes) 0 s.bit_offset

-- Fetching 1 to 64 bits that are there, from a buffer that is being read, has not failed and has
-- its data inside its storage, takes exactly the bits of the value returned off what is left to
-- read, and the value fits that many bits.
pub fetch_bits-Takes :
    (s : TickDataBuffer) (n : ℕ)
    → IsReadable s
    → 0 < n
    → n ≤ 64
    → s.bit_offset + n ≤ total_size s
    → Takes s (word_bits n (fetch_bits s n).1) (fetch_bits s n).0 × ((fetch_bits s n).1 < 2 ^ n)
unfolding fetch_bits total_size remaining word_bits
fetch_bits-Takes s n r p q fits =
    let x = (read_bits s.buffer (pos s.bit_offset) (pos n) 0).0 in
    let h =
      read_bits-Reads s.buffer s.bit_offset n 0 r.in_range
        (record { some_bits = p; word = q; fits = omega (arith, r.stored) }) in
    (
      record {
        readable = record {
          reading = r.reading;
          sound = ground (arith, h.done, r.sound);
          in_range = r.in_range;
          ahead = fits;
          stored = r.stored;
        };
        same_data = (refl, refl);
        moved = omega (arith, length-word_bits n x);
        fewer =
            ap (bits_from (bit_at s.buffer.bytes) s.bit_offset) (omega arith)
            ∙ bits_from-append (bit_at s.buffer.bytes) s.bit_offset n
                (total_size s - (s.bit_offset + n))
            ∙ ap
                (λ xs.
                  xs
                  ++ bits_from (bit_at s.buffer.bytes) (s.bit_offset + n)
                      (total_size s - (s.bit_offset + n)))
                (bits_from_ext (bit_at s.buffer.bytes) (testbit x) s.bit_offset 0 n
                  (λ k lt. ground (arith, h.bits (0 + k))));
      },
      h.fits_word,
    )

-- `begin_write` with no metadata starts an empty sequence, whatever the buffer was.
pub begin_write-IsAppending :
    (v : ByteVector) (s : TickDataBuffer)
    → IsBytes s.buffer.bytes
    → IsAppending (begin_write v s (pos 0))
      × ((begin_write v s (pos 0)).bit_offset ≡ 0)
      × ((begin_write v s (pos 0)).metadata_size ≡ 0)
unfolding begin_write make_room_in_bits
begin_write-IsAppending v s b = (
  record {
    writable = record { writing = refl; in_range = λ j. ground (arith, b j); inside = omega arith };
    sound = refl;
    at_end = ground arith;
  },
  refl,
  refl,
)

-- Once its metadata is written, a buffer is read from the first bit to the last that was written.
pub begin_read-IsReadable :
    (s : TickDataBuffer)
    → IsAppending s
    → s.metadata_size ≤ s.bit_offset
    → IsReadable (begin_read s)
      × (total_size (begin_read s) ≡ s.bit_offset)
      × (remaining (begin_read s) ≡ written s)
unfolding begin_read total_size remaining written
begin_read-IsReadable s a h = (
  record {
    reading = refl;
    sound = refl;
    in_range = a.writable.in_range;
    ahead = omega arith;
    stored = omega (arith, a.at_end, a.writable.inside);
  },
  omega (arith, a.at_end),
  ap (bits_from (bit_at s.buffer.bytes) 0) (omega (arith, a.at_end)),
)

-- A read that finds the bits of `x` returns `x` and goes on to what follows.
pub record Delivers (s : TickDataBuffer) (rest : List ℕ) (t : TickDataBuffer) : Type 0 where
  pub readable : IsReadable t
  pub same_data : (t.buffer ≡ s.buffer) × (total_size t ≡ total_size s)
  pub left : remaining t ≡ rest

remaining-length :
    (s : TickDataBuffer) (n x : ℕ) (rest : List ℕ)
    → IsReadable s
    → remaining s ≡ word_bits n x ++ rest
    → s.bit_offset + n ≤ total_size s
remaining-length s n x rest r e = omega (
  arith,
  r.ahead,
  length-remaining s,
  ap length e,
  length-append (word_bits n x) rest,
  length-word_bits n x,
)

pub check_reading-ready :
    (s : TickDataBuffer) (n x : ℕ) (rest : List ℕ)
    → IsReadable s
    → remaining s ≡ word_bits n x ++ rest
    → check_reading s (pos n) ≡ (s, true)
check_reading-ready s n x rest r e = check_ready (remaining-length s n x rest r e)
  where
    check_ready : s.bit_offset + n ≤ total_size s → check_reading s (pos n) ≡ (s, true)
    check_ready fits = unfold check_reading total_size ◌-ℤ◌ in ground (arith, r.reading, r.sound)

pub fetch_bits-Delivers :
    (s : TickDataBuffer) (n x : ℕ) (rest : List ℕ)
    → IsReadable s
    → 0 < n
    → n ≤ 64
    → x < 2 ^ n
    → remaining s ≡ word_bits n x ++ rest
    → Delivers s rest (fetch_bits s n).0 × ((fetch_bits s n).1 ≡ x)
fetch_bits-Delivers s n x rest r p q lt e =
    let (t, fits) = fetch_bits-Takes s n r p q (remaining-length s n x rest r e) in
    let same = word_bits_inj n (fetch_bits s n).1 x _ _ fits lt (sym t.fewer ∙ e) in
    (record { readable = t.readable; same_data = t.same_data; left = same.1 }, same.0)
