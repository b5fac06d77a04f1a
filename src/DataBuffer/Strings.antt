-- ===== src/DataBuffer/Strings.antt =====
-- `TickDataBuffer`: raw bits, and strings as their UTF-8 bytes. The engine's `String` is a parameter.
use tick_synchronizer.Prelude.{
  ℕ, zero, suc, ◌+◌, ◌-◌, ◌*◌, ◌%◌, ◌^◌, ◌≡◌, min, Bool, true, false, ◌&&◌, ◌||◌, not, ◌==◌, List,
  [], ◌∷◌, length, get_or, ltb, if◌then◌else◌,
}
use tick_synchronizer.Prelude.Int.{ℤ, pos, pos_part, ltb_ℤ}
use tick_synchronizer.BitArray.{ByteVector, IsBytes}
use tick_synchronizer.DataBuffer.{
  TickDataBuffer, check_writing, check_reading, write_bits, fetch_bits, make_room_in_bits,
  mark_failed,
}
use tick_synchronizer.DataBuffer.Values.{add_uint, read_uint, compression_level_2, max_string_bytes}
use tick_synchronizer.DataBuffer.Utf8.{is_valid_utf8}

-- A byte order mark, U+FEFF, in front: the engine's decoder skips it.
unfoldable pub begins_with_bom : List ℕ → Bool
begins_with_bom bs = get_or bs 0 0 == 0xEF && (get_or bs 1 0 == 0xBB && (get_or bs 2 0 == 0xBF))

-- What the engine's `String` promises: its UTF-8 is made of bytes, and a text whose UTF-8 is
-- well-formed, without a byte order mark in front, is what its decoder makes of it.
pub record EngineString : Type 1 where
  pub Text : Type 0
  pub empty : Text
  pub utf8 : Text → List ℕ
  pub of_utf8 : List ℕ → Text
  pub in_range : (t : Text) → IsBytes (utf8 t)
  pub decoded :
      (t : Text)
      → is_valid_utf8 (utf8 t) (pos (length (utf8 t))) ≡ true
      → begins_with_bom (utf8 t) ≡ false
      → of_utf8 (utf8 t) ≡ t
  pub no_bytes : of_utf8 [] ≡ empty

-- The loop of `read_bits`, to the bytes of `r_data`: at most one round for each bit.
unfoldable pub read_bits_loop : ℕ → ℕ → TickDataBuffer → TickDataBuffer × List ℕ
read_bits_loop zero count s = (s, [])
read_bits_loop (suc fuel) count s =
    let n = min count 8 in
    let (t, value) = fetch_bits s n in
    let (u, bytes) = read_bits_loop fuel (count - n) t in
    if ltb 0 count then (u, value % 2 ^ 8 ∷ bytes) else (s, [])

-- `read_bits`: the bytes that it writes to `r_data`.
unfoldable pub read_raw_bits : TickDataBuffer → ℤ → TickDataBuffer × List ℕ
unfolding read_bits_loop
read_raw_bits s count =
    if ltb_ℤ count (pos 0)
    then (s, [])
    else let (s, ready) = check_reading s count in
      if not ready then (s, []) else read_bits_loop (pos_part count) (pos_part count) s

module _ (v : ByteVector) where
  -- The loop of `add_bits`, from byte `i`: at most one round for each bit.
  unfoldable pub add_bits_loop : ℕ → List ℕ → ℕ → ℕ → TickDataBuffer → TickDataBuffer
  add_bits_loop zero source i count s = s
  add_bits_loop (suc fuel) source i count s =
      let n = min count 8 in
      let rest =
        add_bits_loop fuel source (i + 1) (count - n) (write_bits v s (get_or source i 0) n) in
      if ltb 0 count then rest else s

  unfoldable pub add_bits : TickDataBuffer → List ℕ → ℤ → TickDataBuffer
  unfolding add_bits_loop
  add_bits s source count =
      if ltb_ℤ count (pos 0)
      then s
      else let (s, writing) = check_writing s in
        if not writing
        then s
        else add_bits_loop (pos_part count) source 0 (pos_part count)
            (make_room_in_bits v s (pos_part count))

module _ (e : EngineString) where
  unfoldable pub add_string : ByteVector → TickDataBuffer → e.Text → TickDataBuffer
  unfolding mark_failed
  add_string v s input =
      let (s, writing) = check_writing s in
      let utf8 = e.utf8 input in
      if not writing
      then s
      else if ltb max_string_bytes (length utf8)
      then mark_failed s
      else if not (is_valid_utf8 utf8 (pos (length utf8)))
      then mark_failed s
      else add_bits v (add_uint v s (length utf8) compression_level_2).0 utf8
          (pos (length utf8 * 8))

  unfoldable pub read_string : TickDataBuffer → ℤ → TickDataBuffer × e.Text
  unfolding mark_failed
  read_string s max_bytes =
      let (s, len) = read_uint s compression_level_2 in
      if len == 0 || s.buffer_failed
      then (s, e.empty)
      else if ltb_ℤ max_bytes (pos len)
      then (mark_failed s, e.empty)
      else let (s, ready) = check_reading s (pos (len * 8)) in
        if not ready
        then (mark_failed s, e.empty)
        else let (s, chars) = read_raw_bits s (pos (len * 8)) in
          if not (is_valid_utf8 chars (pos len))
          then (mark_failed s, e.empty)
          else (s, e.of_utf8 chars)
