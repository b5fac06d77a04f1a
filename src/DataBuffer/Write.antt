-- ===== src/DataBuffer/Write.antt =====
-- What `TickDataBuffer::write_bits` does to the bits of a buffer that is being written.
use tick_synchronizer.Prelude.{
  ℕ, ◌+◌, ◌-◌, ◌*◌, ◌/◌, ◌≤◌, ◌<◌, max, ◌≡◌, refl, ◌∙◌, false, length, arith, ◌⊎◌,
}
use tick_synchronizer.Bits.{testbit}
use tick_synchronizer.BitArray.{ByteVector, IsBytes}
use tick_synchronizer.BitArray.Window.{bit_at}
use tick_synchronizer.BitArray.Resize.{resize_in_bits-Resizes}
use tick_synchronizer.BitArray.Store.{store_bits-Stores}
use tick_synchronizer.DataBuffer.{TickDataBuffer, make_room_in_bits, write_bits}

-- A buffer that is being written, at an offset inside its storage.
pub record IsWritable (s : TickDataBuffer) : Type 0 where
  pub writing : s.is_reading ≡ false
  pub in_range : IsBytes s.buffer.bytes
  pub inside : s.bit_offset ≤ 8 * length s.buffer.bytes

-- `n` bits of `value` were put at the offset, which moved past them: no other bit of the storage
-- changed, and the payload grew just as far as the bits written.
pub record Writes (s : TickDataBuffer) (value n : ℕ) (t : TickDataBuffer) : Type 0 where
  pub writable : IsWritable t
  pub moved : t.bit_offset ≡ s.bit_offset + n
  pub same_metadata : t.metadata_size ≡ s.metadata_size
  pub same_failed : t.buffer_failed ≡ s.buffer_failed
  pub grown : t.bit_size ≡ max s.bit_size (s.bit_offset + n - s.metadata_size)
  pub written :
      (k : ℕ)
      → s.bit_offset ≤ k
      → k < s.bit_offset + n
      → bit_at t.buffer.bytes k ≡ testbit value (k - s.bit_offset)
  pub kept :
      (k : ℕ)
      → (k < s.bit_offset) ⊎ (s.bit_offset + n ≤ k)
      → k < 8 * length s.buffer.bytes
      → bit_at t.buffer.bytes k ≡ bit_at s.buffer.bytes k

module _ (v : ByteVector) where
  -- The storage after `make_room_in_bits` has room for the bits, and the old bits.
  pub record HasRoom (s : TickDataBuffer) (n : ℕ) (t : TickDataBuffer) : Type 0 where
    pub same_metadata : t.metadata_size ≡ s.metadata_size
    pub same_offset : t.bit_offset ≡ s.bit_offset
    pub same_reading : t.is_reading ≡ s.is_reading
    pub same_failed : t.buffer_failed ≡ s.buffer_failed
    pub grown : t.bit_size ≡ max s.bit_size (s.bit_offset + n - s.metadata_size)
    pub in_range : IsBytes t.buffer.bytes
    pub room : s.bit_offset + n ≤ 8 * length t.buffer.bytes
    pub kept :
        (k : ℕ) → k < 8 * length s.buffer.bytes → bit_at t.buffer.bytes k ≡ bit_at s.buffer.bytes k

  pub make_room_in_bits-HasRoom :
      (s : TickDataBuffer) (n : ℕ) → IsBytes s.buffer.bytes → HasRoom s n (make_room_in_bits v s n)
  unfolding make_room_in_bits
  make_room_in_bits-HasRoom s n b =
      let size = length s.buffer.bytes * 8 in
      let bits = max (s.bit_offset + n + 64) (size * 2) in
      let r = resize_in_bits-Resizes v s.buffer bits b in
      let has_room : bits ≤ (bits + 7) / 8 * 8 = omega arith in
      record {
        same_metadata = refl;
        same_offset = refl;
        same_reading = refl;
        same_failed = refl;
        grown = ground arith;
        in_range = λ j. ground (arith, r.in_range j, b j);
        room = ground (arith, r.size);
        kept = λ k p. ground (arith, r.kept k (omega arith) p);
      }

  -- Writing 1 to 64 bits at any offset inside the storage of a buffer that is being written puts
  -- the low bits of the value there, keeps every other bit of the storage, the metadata and the
  -- failure as they were, moves the offset past the bits and grows the payload just as far as they
  -- reach.
  pub write_bits-Writes :
      (s : TickDataBuffer) (value n : ℕ)
      → IsWritable s
      → 0 < n
      → n ≤ 64
      → Writes s value n (write_bits v s value n)
  unfolding write_bits
  write_bits-Writes s value n w p q =
      let t = make_room_in_bits v s n in
      let h = make_room_in_bits-HasRoom s n w.in_range in
      let r =
        store_bits-Stores t.buffer t.bit_offset value n h.in_range
          (record { some_bits = p; word = q; fits = omega (arith, h.same_offset, h.room) }) in
      record {
        writable = record {
          writing = h.same_reading ∙ w.writing;
          in_range = r.in_range;
          inside = omega (arith, h.same_offset, h.room, r.same_size);
        };
        moved = omega (arith, h.same_offset);
        same_metadata = h.same_metadata;
        same_failed = ground (arith, r.done, h.same_failed);
        grown = h.grown;
        written = λ k from to. ground (arith, r.bits k, h.same_offset);
        kept = λ k out old. ground (arith, r.bits k, h.same_offset, h.kept k);
      }
