-- ===== src/Transport.antt =====
-- source/transport/tick_transport.h: what the engines and the transports have in common.
use tick_synchronizer.Prelude.{ℕ, ◌+◌, ◌*◌, Bool, true, false, ◌&&◌, List, ltb, leb}

pub data TransferMode : Type 0 where
  unreliable unreliable_ordered reliable : TransferMode

pub data EventType : Type 0 where
  peer_connected peer_disconnected host_migrated : EventType

pub record Event : Type 0 where
  pub event_type : EventType
  pub peer : ℕ

pub record Packet : Type 0 where
  pub from_peer : ℕ
  pub channel : ℕ
  pub mode : TransferMode
  pub bytes : List ℕ

-- The codes of the engine's `Error` that the transports return.
pub data ErrorCode : Type 0 where
  ok unavailable unconfigured invalid_parameter does_not_exist already_exists : ErrorCode

abbrev pub max_queued_packets : ℕ
max_queued_packets = 16384

abbrev pub max_queued_bytes : ℕ
max_queued_bytes = 8 * 1024 * 1024

abbrev pub peer_broadcast : ℕ
peer_broadcast = 0

abbrev pub peer_server : ℕ
peer_server = 1

unfoldable pub queue_has_room : ℕ → ℕ → ℕ → Bool
queue_has_room count bytes size =
    ltb count max_queued_packets && leb (bytes + size) max_queued_bytes

abbrev pub is_reliable : TransferMode → Bool
is_reliable reliable = true
is_reliable _ = false

abbrev pub is_ordered : TransferMode → Bool
is_ordered unreliable_ordered = true
is_ordered _ = false

abbrev pub is_ok : ErrorCode → Bool
is_ok ok = true
is_ok _ = false
