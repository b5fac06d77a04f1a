-- ===== src/SyncCore.antt =====
-- source/sync/tick_sync_core.h and tick_sync_core.cpp: what the server of `TickSyncCore` does with the
-- inputs that its clients send: their limit, the ring of the frames to come, and their split by
-- object when a frame is simulated. The records have the fields that this uses. The settings that
-- limit the inputs are taken not to be negative.
pub mod Resolve
pub mod Inputs
pub mod Ring
use tick_synchronizer.Prelude.{
  ℕ, zero, suc, ◌+◌, ◌-◌, ◌%◌, ◌^◌, Bool, true, false, ◌||◌, ◌&&◌, not, Option, none, some, List,
  [], ◌∷◌, get_or, set, ltb, ◌==◌, if◌then◌else◌,
}
use tick_synchronizer.Prelude.Int.{pos}
use tick_synchronizer.Prelude.Maps.{Map, lookup, insert, erase}
use tick_synchronizer.BitArray.{ByteVector}
use tick_synchronizer.DataBuffer.{TickDataBuffer, empty_buffer, total_size, begin_read}
use tick_synchronizer.DataBuffer.Values.{read_bool, read_uint_bits}
use tick_synchronizer.DataBuffer.Nested.{read_data_buffer}
use tick_synchronizer.Floats.{Floats}
use tick_synchronizer.Frames.{tick_frame_none, tick_frame_after}
use tick_synchronizer.Frames.Stepper.{TickFixedStepper}

pub record InputRecord : Type 0 where
  pub frame : ℕ
  pub input : TickDataBuffer

abbrev pub no_input : InputRecord
no_input = record { frame = tick_frame_none; input = empty_buffer }

pub record RateLimiter (f : Floats) : Type 0 where
  pub tokens : f.Double
  pub last_usec : ℕ

pub record Settings : Type 0 where
  pub history_size : ℕ
  pub trusted : Bool
  pub max_input_packets_per_second : ℕ
  pub max_input_bits : ℕ

pub record Stats : Type 0 where
  pub ghost_inputs : ℕ
  pub late_inputs : ℕ
  pub rejected_inputs : ℕ
  pub malformed_packets : ℕ
  pub rate_limited_packets : ℕ

pub record PeerState (f : Floats) : Type 0 where
  pub accepted : Bool
  pub acked_snapshot : ℕ
  pub needs_full : Bool
  pub full_resend_usec : ℕ
  pub last_ack_usec : ℕ
  pub inputs : List InputRecord
  pub last_input : TickDataBuffer
  pub has_last_input : Bool
  pub last_received_frame : ℕ
  pub tick_inputs : Map TickDataBuffer
  pub input_limiter : RateLimiter f

pub record TickSyncCore (f : Floats) : Type 0 where
  pub settings : Settings
  pub stats : Stats
  pub now_usec : ℕ
  pub stepper : TickFixedStepper f
  pub peers : Map (PeerState f)

abbrev pub full_snapshot_resend_usec : ℕ
full_snapshot_resend_usec = 500000

abbrev pub tick_max_input_frames : ℕ
tick_max_input_frames = 64

abbrev pub one_more : ℕ → ℕ
one_more n = (n + 1) % 2 ^ 64

-- `RateLimiter::take`
unfoldable pub take_token : (f : Floats) → RateLimiter f → f.Double → ℕ → RateLimiter f × Bool
take_token f r rate now =
    let started = if f.lt r.tokens f.nought then record { tokens = rate; last_usec = now } else r in
    let since = f.of_nat ((now + 2 ^ 64 - started.last_usec) % 2 ^ 64) in
    let refilled =
      f.min rate (f.add started.tokens (f.div (f.mul since rate) (f.of_nat 1000000))) in
    if f.lt refilled f.one
    then (record { tokens = refilled; last_usec = now }, false)
    else (record { tokens = f.sub refilled f.one; last_usec = now }, true)

module _ {f : Floats} where
  -- The body of the innermost loop of `server_handle_inputs`: the input of one frame.
  unfoldable pub receive_input :
      ℕ → ℕ → ℕ → TickDataBuffer → Stats → PeerState f → Stats × PeerState f
  receive_input ring current frame input stats peer =
      let is_new =
        (peer.last_received_frame == tick_frame_none)
        || tick_frame_after frame peer.last_received_frame in
      let newest = if is_new then frame else peer.last_received_frame in
      if tick_frame_after current frame
      then (if is_new
          then (
            record stats { late_inputs = one_more stats.late_inputs },
            record peer { last_received_frame = frame },
          )
          else (stats, peer))
      else if not (tick_frame_after ((current + ring) % 2 ^ 32) frame)
      then (record stats { rejected_inputs = one_more stats.rejected_inputs }, peer)
      else if (get_or peer.inputs (frame % ring) no_input).frame == frame
      then (stats, peer)
      else (
        stats,
        record peer {
          inputs = set peer.inputs (frame % ring) (record { frame = frame; input = input });
          last_received_frame = newest;
        },
      )

  -- The loop over the copies of an input, from the frame `first_frame + index` on.
  unfoldable pub receive_copies :
      ℕ → ℕ → ℕ → ℕ → TickDataBuffer → ℕ → Stats → PeerState f → Stats × PeerState f
  unfolding receive_input
  receive_copies ring current first_frame zero input index stats peer = (stats, peer)
  receive_copies ring current first_frame (suc copies) input index stats peer =
      let (stats, peer) =
        receive_input ring current ((first_frame + index) % 2 ^ 32) input stats peer in
      receive_copies ring current first_frame copies input (index + 1) stats peer

  -- The loop over the groups of a message. What is left of the message is dropped.
  unfoldable pub receive_groups :
      ByteVector → ℕ → ℕ → ℕ → ℕ → TickDataBuffer → ℕ → Stats → PeerState f → Stats × PeerState f
  unfolding receive_copies
  receive_groups v ring current first_frame zero message index stats peer = (stats, peer)
  receive_groups v ring current first_frame (suc groups) message index stats peer =
      let (message, duplicates) = read_uint_bits message (pos 8) in
      let (message, input) = read_data_buffer v message empty_buffer in
      let (stats', peer') =
        receive_copies ring current first_frame (duplicates + 1) input index stats peer in
      let rest =
        receive_groups v ring current first_frame groups message (index + duplicates + 1) stats'
          peer' in
      if message.buffer_failed || ltb tick_max_input_frames (index + duplicates + 1)
      then (record stats { malformed_packets = one_more stats.malformed_packets }, peer)
      else rest

  -- What a client acknowledges, and whether it asks for a full snapshot.
  unfoldable pub acknowledge : ℕ → Bool → ℕ → PeerState f → PeerState f
  acknowledge ack wants_full now peer =
      let is_newer =
        not (ack == tick_frame_none)
        && (peer.acked_snapshot == tick_frame_none || tick_frame_after ack peer.acked_snapshot) in
      let acked =
        if is_newer
        then record peer {
          acked_snapshot = ack;
          last_ack_usec = now;
          full_resend_usec = full_snapshot_resend_usec;
        }
        else peer in
      if wants_full then record acked { needs_full = true } else acked

  -- What follows the limit: the message is read.
  unfoldable pub read_inputs :
      ByteVector → TickSyncCore f → TickDataBuffer → Stats → PeerState f → Stats × PeerState f
  unfolding acknowledge receive_groups
  read_inputs v core message stats peer =
      let (message, ack) = read_uint_bits message (pos 32) in
      let (message, wants_full) = read_bool message in
      let (message, group_count) = read_uint_bits message (pos 8) in
      let (message, first_frame) = read_uint_bits message (pos 32) in
      if message.buffer_failed || ltb tick_max_input_frames group_count
      then (record stats { malformed_packets = one_more stats.malformed_packets }, peer)
      else receive_groups v core.settings.history_size core.stepper.next_frame_index first_frame
          group_count message 0 stats (acknowledge ack wants_full core.now_usec peer)

  unfoldable pub server_handle_peer_inputs :
      ByteVector → TickSyncCore f → TickDataBuffer → PeerState f → Stats × PeerState f
  unfolding take_token read_inputs
  server_handle_peer_inputs v core message peer =
      let (limiter, taken) =
        take_token f peer.input_limiter (f.of_nat core.settings.max_input_packets_per_second)
          core.now_usec in
      let limited = record peer { input_limiter = limiter } in
      let limited_stats = record core.stats {
        rate_limited_packets = one_more core.stats.rate_limited_packets;
      } in
      if core.settings.trusted
      then read_inputs v core message core.stats peer
      else if not taken
      then (limited_stats, limited)
      else read_inputs v core message core.stats limited

  unfoldable pub server_handle_inputs :
      ByteVector → TickSyncCore f → ℕ → TickDataBuffer → TickSyncCore f
  unfolding lookup insert server_handle_peer_inputs
  server_handle_inputs v core p message = elim (lookup p core.peers) [
    | none ↦ core
    | some peer ↦
        let (stats, peer') = server_handle_peer_inputs v core message peer in
        if not peer.accepted
        then core
        else record core { stats = stats; peers = insert p peer' core.peers }
  ]
