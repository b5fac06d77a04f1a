-- ===== src/DataBuffer/Nested.antt =====
-- `TickDataBuffer`: a buffer nested in another, from a byte on.
use tick_synchronizer.Prelude.{◌+◌, not, ltb, if◌then◌else◌}
use tick_synchronizer.Prelude.Int.{pos}
use tick_synchronizer.BitArray.{ByteVector}
use tick_synchronizer.DataBuffer.{
  TickDataBuffer, total_size, check_writing, check_reading, mark_failed, make_room_pad_to_next_byte,
  pad_to_next_byte, slice, begin_write, begin_read,
}
use tick_synchronizer.DataBuffer.Values.{
  compression_level_2, max_nested_buffer_bits, add_uint, read_uint,
}

module _ (v : ByteVector) where
  unfoldable pub add_data_buffer : TickDataBuffer → TickDataBuffer → TickDataBuffer
  add_data_buffer s input =
      let (s, writing) = check_writing s in
      let input_bits = total_size input in
      let padded = make_room_pad_to_next_byte v (add_uint v s input_bits compression_level_2).0 in
      if not writing
      then s
      else if ltb max_nested_buffer_bits input_bits
      then mark_failed s
      else if ltb 0 input_bits
      then (slice v input padded (pos 0) (pos input_bits)).0
      else padded

  -- Returns the buffer and the output, of which only the storage was used.
  unfoldable pub read_data_buffer :
      TickDataBuffer → TickDataBuffer → TickDataBuffer × TickDataBuffer
  read_data_buffer s output =
      let output = begin_write v output (pos 0) in
      let (s, input_bits) = read_uint s compression_level_2 in
      let (padded, done) = pad_to_next_byte s in
      let (checked, ready) = check_reading padded (pos input_bits) in
      if s.buffer_failed
      then (mark_failed s, begin_read output)
      else if not done
      then (mark_failed padded, begin_read output)
      else if not ready
      then (mark_failed checked, begin_read output)
      else if ltb 0 input_bits
      then (
        record checked { bit_offset = checked.bit_offset + input_bits },
        begin_read (slice v checked output (pos checked.bit_offset) (pos input_bits)).0,
      )
      else (checked, begin_read output)
