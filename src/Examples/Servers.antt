-- ===== src/Examples/Servers.antt =====
-- `TickSyncCore` on a concrete server with one client.
use tick_synchronizer.Prelude.{
  ltb, not, ◌&&◌, ℕ, zero, suc, ◌≡◌, refl, ap, true, false, [], get_or, replicate, inl, arith,
  if◌then◌else◌,
}
use tick_synchronizer.Prelude.Int.{pos}
use tick_synchronizer.Prelude.Maps.{lookup, insert}
use tick_synchronizer.DataBuffer.{TickDataBuffer, empty_buffer, begin_write, begin_read}
use tick_synchronizer.DataBuffer.Values.{add_bool, add_uint_bits}
use tick_synchronizer.DataBuffer.Nested.{add_data_buffer}
use tick_synchronizer.Frames.{tick_frame_after}
use tick_synchronizer.Frames.Stepper.{new_stepper}
use tick_synchronizer.SyncCore.{
  InputRecord, no_input, Settings, Stats, PeerState, TickSyncCore, receive_input,
  server_handle_inputs,
}
use tick_synchronizer.SyncCore.Resolve.{server_resolve_input}
use tick_synchronizer.SyncCore.Inputs.{has_input, server_resolve_input-receive_input}
use tick_synchronizer.SyncCore.Ring.{
  IsRing, HasRings, store-HasRings, server_handle_inputs-HasRings,
}
use tick_synchronizer.Examples.{zero_vector}
use tick_synchronizer.Examples.Numbers.{nothing, samples}

abbrev history : Settings
history = record {
  history_size = 8;
  trusted = true;
  max_input_packets_per_second = 180;
  max_input_bits = 1024;
}

abbrev no_counts : Stats
no_counts = record {
  ghost_inputs = 0;
  late_inputs = 0;
  rejected_inputs = 0;
  malformed_packets = 0;
  rate_limited_packets = 0;
}

abbrev client : PeerState samples
client = record {
  accepted = true;
  acked_snapshot = 4294967295;
  needs_full = true;
  full_resend_usec = 0;
  last_ack_usec = 0;
  inputs = replicate 8 no_input;
  last_input = empty_buffer;
  has_last_input = false;
  last_received_frame = 4294967295;
  tick_inputs = [];
  input_limiter = record { tokens = nothing; last_usec = 0 };
}

abbrev new_server : TickSyncCore samples
new_server = record {
  settings = history;
  stats = no_counts;
  now_usec = 1000;
  stepper = new_stepper;
  peers = [];
}

abbrev server : TickSyncCore samples
server = record new_server { stats = no_counts; peers = insert 2 client [] }

abbrev some_input : TickDataBuffer
some_input = (add_uint_bits zero_vector (begin_write zero_vector empty_buffer (pos 0)) 5 (pos 3)).0

-- No acknowledgment, and one input for the frames 0, 1 and 2.
abbrev message : TickDataBuffer
message =
    let s =
      (add_uint_bits zero_vector (begin_write zero_vector empty_buffer (pos 0)) 4294967295
        (pos 32)).0 in
    let s = (add_uint_bits zero_vector (add_bool zero_vector s false).0 1 (pos 8)).0 in
    let s = (add_uint_bits zero_vector s 0 (pos 32)).0 in
    let s = (add_uint_bits zero_vector s 2 (pos 8)).0 in
    begin_read (add_data_buffer zero_vector s some_input)

get_or-replicate : (n i : ℕ) (a : InputRecord) → get_or (replicate n a) i a ≡ a
get_or-replicate zero i a = refl
get_or-replicate (suc n) zero a = refl
get_or-replicate (suc n) (suc i) a = get_or-replicate n i a

client-IsRing : IsRing 8 client.inputs
unfolding IsRing
client-IsRing = (refl, λ i. inl (ap (λ r. r.frame) (get_or-replicate 8 i no_input)))

new_server-HasRings : HasRings new_server
unfolding HasRings lookup
new_server-HasRings p peer e = absurd (ground (arith, e))

server_handle_inputs-HasRings_example : HasRings (server_handle_inputs zero_vector server 2 message)
server_handle_inputs-HasRings_example =
    server_handle_inputs-HasRings zero_vector server 2 message
      (store-HasRings new_server 2 client no_counts new_server-HasRings client-IsRing)

-- A frame past the wrap-around, 2.
server_resolve_input-receive_input_example :
    let received = receive_input 8 4294967293 2 some_input no_counts client in
    (server_resolve_input zero_vector history received.0 received.1 2).1.last_input ≡ (
      if ltb 5 8 && not (has_input 8 2 client)
      then some_input
      else (server_resolve_input zero_vector history no_counts client 2).1.last_input)
server_resolve_input-receive_input_example =
    server_resolve_input-receive_input zero_vector history no_counts 4294967293 5 some_input client
      (omega arith) (omega arith) (omega arith) (omega arith) refl (omega arith)

-- The frame whose index is `tick_frame_none`: the input is dropped, and an input is resolved to
-- from an empty slot.
none_frame_runs :
    (receive_input 8 4294967293 4294967295 some_input no_counts client ≡ (no_counts, client))
    × ((server_resolve_input zero_vector history no_counts client 4294967295).1.has_last_input
        ≡ true)
unfolding receive_input server_resolve_input tick_frame_after
none_frame_runs = (refl, refl)
