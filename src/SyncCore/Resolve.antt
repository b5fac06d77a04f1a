-- ===== src/SyncCore/Resolve.antt =====
-- source/sync/tick_sync_core.cpp: `TickSyncCore`, the input that a client gets for a frame, and its
-- split by object.
use tick_synchronizer.Prelude.{
  ℕ, zero, suc, ◌%◌, Bool, true, false, List, [], ◌∷◌, get_or, set, ltb, ◌==◌, if◌then◌else◌,
}
use tick_synchronizer.Prelude.Int.{pos}
use tick_synchronizer.Prelude.Maps.{Map, insert, erase}
use tick_synchronizer.BitArray.{ByteVector}
use tick_synchronizer.DataBuffer.{TickDataBuffer, empty_buffer, total_size, begin_read}
use tick_synchronizer.DataBuffer.Values.{read_uint_bits}
use tick_synchronizer.DataBuffer.Nested.{read_data_buffer}
use tick_synchronizer.Floats.{Floats}
use tick_synchronizer.Frames.{tick_frame_none}
use tick_synchronizer.SyncCore.{no_input, Settings, Stats, PeerState, one_more}

-- The loop of `parse_frame_input`.
unfoldable pub parse_inputs :
    ByteVector → ℕ → TickDataBuffer → Map TickDataBuffer → TickDataBuffer × Map TickDataBuffer
unfolding insert
parse_inputs v zero frame_input inputs = (frame_input, inputs)
parse_inputs v (suc count) frame_input inputs =
    let (read, net_id) = read_uint_bits frame_input (pos 16) in
    let (read, input) = read_data_buffer v read empty_buffer in
    let rest = parse_inputs v count read (insert net_id input inputs) in
    if frame_input.buffer_failed then (frame_input, inputs) else rest

unfoldable pub parse_frame_input : ByteVector → TickDataBuffer → Map TickDataBuffer × Bool
unfolding parse_inputs
parse_frame_input v frame_input =
    let (frame_input, count) = read_uint_bits frame_input (pos 8) in
    let (frame_input, inputs) = parse_inputs v count frame_input [] in
    if frame_input.buffer_failed then ([], false) else (inputs, true)

unfoldable pub oversized_ids : ℕ → Map TickDataBuffer → List ℕ
oversized_ids limit [] = []
oversized_ids limit ((net_id, input) ∷ m) =
    let rest = oversized_ids limit m in if ltb limit (total_size input) then net_id ∷ rest else rest

unfoldable pub reject_inputs : List ℕ → Stats → Map TickDataBuffer → Stats × Map TickDataBuffer
unfolding erase
reject_inputs [] stats m = (stats, m)
reject_inputs (net_id ∷ ids) stats m =
    reject_inputs ids (record stats { rejected_inputs = one_more stats.rejected_inputs })
      (erase net_id m)

module _ {f : Floats} where
  -- What follows the choice of the input in `server_resolve_input`: its split by object.
  unfoldable pub split_input : ByteVector → Settings → Stats → PeerState f → Stats × PeerState f
  unfolding parse_frame_input oversized_ids reject_inputs
  split_input v settings stats peer =
      let (inputs, ok) = parse_frame_input v (begin_read peer.last_input) in
      let stats =
        if ok
        then stats
        else record stats { malformed_packets = one_more stats.malformed_packets } in
      let (kept_stats, kept) =
        reject_inputs (oversized_ids settings.max_input_bits inputs) stats inputs in
      if settings.trusted
      then (stats, record peer { tick_inputs = inputs })
      else (kept_stats, record peer { tick_inputs = kept })

  unfoldable pub server_resolve_input :
      ByteVector → Settings → Stats → PeerState f → ℕ → Stats × PeerState f
  unfolding split_input
  server_resolve_input v settings stats peer frame =
      let slot = frame % settings.history_size in
      let found = get_or peer.inputs slot no_input in
      if found.frame == frame
      then split_input v settings stats (record peer {
        tick_inputs = [];
        last_input = found.input;
        has_last_input = true;
        inputs = set peer.inputs slot (record found { frame = tick_frame_none });
      })
      else if peer.has_last_input
      then split_input v settings (record stats { ghost_inputs = one_more stats.ghost_inputs })
          (record peer { tick_inputs = [] })
      else (stats, record peer { tick_inputs = [] })
