-- ===== src/LocalNetwork.antt =====
-- source/transport/tick_local_transport.h and tick_local_transport.cpp: `TickLocalNetwork`, the
-- network inside the process, and `TickLocalTransport`, the endpoint of one peer in it.
-- An endpoint is a shared object: all that the network has made are in `endpoints`, by their ids,
-- and those with `attached` are in the `peers` of the source. A peer's id is a number, since
-- `add_peer` counts from 1.
pub mod Traffic
pub mod LinkKeys
pub mod Links
pub mod Linking
pub mod Moving
pub mod Calls
pub mod Order
pub mod Arrivals
pub mod Deliveries
pub mod InOrder
pub mod Due
use tick_synchronizer.Prelude.{
  ℕ, zero, suc, ◌+◌, ◌-◌, ◌*◌, ◌%◌, ◌^◌, ◌<◌, ◌≡◌, min, max, bit_and, bit_or, Bool, true, false,
  not, ◌&&◌, ◌||◌, Option, none, some, List, [], ◌∷◌, ◌++◌, length, get_elem?, filter, All,
  Pairwise, ltb, leb, ◌==◌, if◌then◌else◌,
}
use tick_synchronizer.Prelude.Int.{ℤ, pos, pos_part, ltb_ℤ, leb_ℤ}
use tick_synchronizer.Prelude.Maps.{Map, lookup, insert, erase, keys, Keys, has, include, exclude}
use tick_synchronizer.Transport.{
  TransferMode, reliable, unreliable_ordered, is_reliable, is_ordered, EventType, peer_connected,
  peer_disconnected, Event, Packet, ErrorCode, ok, unavailable, unconfigured, invalid_parameter,
  does_not_exist, already_exists,
}

pub record InFlightPacket : Type 0 where
  pub deliver_at_usec : ℕ
  pub sequence : ℕ
  pub to_peer : ℕ
  pub packet : Packet

-- `operator<` of `InFlightPacket`
unfoldable pub earlier : InFlightPacket → InFlightPacket → Bool
earlier p q =
    if not (p.deliver_at_usec == q.deliver_at_usec)
    then ltb p.deliver_at_usec q.deliver_at_usec
    else ltb p.sequence q.sequence

-- What the network uses of the engine: `RandomPCG`, doubles, and the sort of `LocalVector`, which
-- leaves the same elements with none before one that is less.
pub record Engine : Type 1 where
  pub Rng : Type 0
  pub Real : Type 0
  pub seed : ℕ → Rng
  pub rand : Rng → Rng × ℕ
  pub randf : Rng → Rng × Real
  pub nought : Real
  pub one : Real
  pub real_lt : Real → Real → Bool
  pub real_le : Real → Real → Bool
  -- uint64_t(p_delta * 1000000.0 + 0.5)
  pub usec_of_seconds : Real → ℕ
  pub sort : List InFlightPacket → List InFlightPacket
  pub sorted : (ps : List InFlightPacket) → Pairwise (λ p q. earlier q p ≡ false) (sort ps)
  pub sort_all :
      (P : InFlightPacket → Type 0) (ps : List InFlightPacket) → All P ps → All P (sort ps)

pub record Endpoint : Type 0 where
  pub attached : Bool
  pub connected_peers : Keys
  pub events : List Event
  pub inbox : List Packet
  pub next_event : ℕ
  pub next_packet : ℕ

abbrev pub new_endpoint : Endpoint
new_endpoint = record {
  attached = true;
  connected_peers = [];
  events = [];
  inbox = [];
  next_event = 0;
  next_packet = 0;
}

pub record LocalNetwork (g : Engine) : Type 0 where
  pub endpoints : Map Endpoint
  pub next_peer_id : ℕ
  pub channel_count : ℕ
  pub max_payload_size : ℕ
  pub time_usec : ℕ
  pub latency_usec : ℕ
  pub link_latencies : Map ℕ
  pub jitter_usec : ℕ
  pub packet_loss : g.Real
  pub rng : g.Rng
  pub next_sequence : ℕ
  pub in_flight : List InFlightPacket
  pub last_reliable_arrival : Map ℕ
  pub last_ordered_sequence : Map ℕ
  pub sent_packets : ℕ
  pub sent_bytes : ℕ
  pub lost_packets : ℕ

unfoldable pub make_link_key : ℕ → ℕ → ℕ → ℕ
make_link_key from to channel =
    bit_or (bit_or (bit_and from 0xFFFFFF * 2 ^ 40) (bit_and to 0xFFFFFF * 2 ^ 16))
      (bit_and channel 0xFFFF)

unfoldable pub is_between : ℕ → ℕ → InFlightPacket → Bool
is_between a b p =
    p.packet.from_peer == a && p.to_peer == b || p.packet.from_peer == b && p.to_peer == a

-- The loop over the channels of `drop_in_flight_between`, on one of the two maps.
unfoldable pub forget_channels : ℕ → ℕ → ℕ → ℕ → Map ℕ → Map ℕ
forget_channels zero channel a b m = m
forget_channels (suc rounds) channel a b m =
    forget_channels rounds (channel + 1) a b
      (erase (make_link_key b a channel) (erase (make_link_key a b channel) m))

-- Both ends of `connect_peers` and `disconnect_peers`.
unfoldable pub linked_to : ℕ → Endpoint → Endpoint
linked_to other e = record e {
  connected_peers = include other e.connected_peers;
  events = e.events ++ record { event_type = peer_connected; peer = other } ∷ [];
}

unfoldable pub unlinked_from : ℕ → Endpoint → Endpoint
unlinked_from other e = record e {
  connected_peers = exclude other e.connected_peers;
  events = e.events ++ record { event_type = peer_disconnected; peer = other } ∷ [];
}

abbrev pub attached_ids : Map Endpoint → List ℕ
attached_ids [] = []
attached_ids ((p, e) ∷ m) = let rest = attached_ids m in if e.attached then p ∷ rest else rest

abbrev pub detach_all : Map Endpoint → Map Endpoint
detach_all [] = []
detach_all ((p, e) ∷ m) = (p, record e { attached = false }) ∷ detach_all m

-- An object that the network has made: its fields changed.
unfoldable pub update_endpoint : ℕ → (Endpoint → Endpoint) → Map Endpoint → Map Endpoint
update_endpoint p f m = elim (lookup p m) [ none ↦ m | some e ↦ insert p (f e) m ]

module _ {g : Engine} where
  unfoldable pub get_peer : LocalNetwork g → ℕ → Option Endpoint
  get_peer n p = elim (lookup p n.endpoints) [
    | none ↦ none
    | some e ↦ if e.attached then some e else none
  ]

  unfoldable pub is_peer_connected : LocalNetwork g → ℕ → ℕ → Bool
  is_peer_connected n p other = elim (lookup p n.endpoints) [
    | none ↦ false
    | some e ↦ has other e.connected_peers
  ]

  unfoldable pub add_peer : LocalNetwork g → LocalNetwork g × ℕ
  add_peer n = (
    record n {
      next_peer_id = n.next_peer_id + 1;
      endpoints = insert n.next_peer_id new_endpoint n.endpoints;
    },
    n.next_peer_id,
  )

  unfoldable pub drop_in_flight_between : LocalNetwork g → ℕ → ℕ → LocalNetwork g
  unfolding forget_channels is_between
  drop_in_flight_between n a b = record n {
    in_flight = filter (λ p. not (is_between a b p)) n.in_flight;
    last_reliable_arrival = forget_channels n.channel_count 0 a b n.last_reliable_arrival;
    last_ordered_sequence = forget_channels n.channel_count 0 a b n.last_ordered_sequence;
  }

  unfoldable pub connect_peers : LocalNetwork g → ℕ → ℕ → LocalNetwork g × ErrorCode
  unfolding get_peer linked_to update_endpoint
  connect_peers n a b = if a == b then (n, invalid_parameter) else elim (get_peer n a) [
    | none ↦ (n, does_not_exist)
    | some e ↦ elim (get_peer n b) [
      | none ↦ (n, does_not_exist)
      | some _ ↦ if has b e.connected_peers then (n, already_exists) else (
        record n {
          endpoints = update_endpoint b (linked_to a) (update_endpoint a (linked_to b) n.endpoints);
        },
        ok,
      )
    ]
  ]

  unfoldable pub disconnect_peers : LocalNetwork g → ℕ → ℕ → LocalNetwork g
  unfolding get_peer unlinked_from update_endpoint drop_in_flight_between
  disconnect_peers n a b = elim (get_peer n a) [
    | none ↦ n
    | some e ↦ elim (get_peer n b) [
      | none ↦ n
      | some _ ↦
          if not (has b e.connected_peers)
          then n
          else drop_in_flight_between
              (record n {
                endpoints =
                    update_endpoint b (unlinked_from a)
                      (update_endpoint a (unlinked_from b) n.endpoints);
              })
              a b
    ]
  ]

  -- The loop of `remove_peer` over the peers that it was linked to.
  unfoldable pub disconnect_each : LocalNetwork g → ℕ → List ℕ → LocalNetwork g
  disconnect_each n p [] = n
  disconnect_each n p (other ∷ others) = disconnect_each (disconnect_peers n p other) p others

  unfoldable pub remove_peer : LocalNetwork g → ℕ → LocalNetwork g
  unfolding get_peer disconnect_each update_endpoint
  remove_peer n p = elim (get_peer n p) [
    | none ↦ n
    | some e ↦
        let m = disconnect_each n p e.connected_peers in
        record m { endpoints = update_endpoint p (λ e. record e { attached = false }) m.endpoints }
  ]

  -- The inner and the outer loop of `connect_all`.
  unfoldable pub connect_row : LocalNetwork g → ℕ → List ℕ → LocalNetwork g
  connect_row n i [] = n
  connect_row n i (j ∷ js) =
      connect_row (if not (is_peer_connected n i j) then (connect_peers n i j).0 else n) i js

  unfoldable pub connect_rows : LocalNetwork g → List ℕ → LocalNetwork g
  unfolding connect_row
  connect_rows n [] = n
  connect_rows n (i ∷ is) = connect_rows (connect_row n i is) is

  unfoldable pub connect_all : LocalNetwork g → LocalNetwork g
  unfolding connect_rows
  connect_all n = connect_rows n (attached_ids n.endpoints)

  -- The destructor: the endpoints may outlive the network.
  unfoldable pub close : LocalNetwork g → LocalNetwork g
  close n = record n { endpoints = detach_all n.endpoints }

  unfoldable pub set_channel_count : LocalNetwork g → ℤ → LocalNetwork g
  set_channel_count n count =
      if leb_ℤ count (pos 0) || ltb_ℤ (pos 255) count
      then n
      else record n { channel_count = pos_part count }

  unfoldable pub set_packet_loss : LocalNetwork g → g.Real → LocalNetwork g
  set_packet_loss n loss =
      if not (g.real_le g.nought loss && g.real_le loss g.one)
      then n
      else record n { packet_loss = loss }

  unfoldable pub set_link_latency_usec : LocalNetwork g → ℕ → ℕ → ℕ → LocalNetwork g
  unfolding make_link_key
  set_link_latency_usec n a b latency = record n {
    link_latencies = insert (make_link_key (min a b) (max a b) 0) latency n.link_latencies;
  }

  unfoldable pub set_seed : LocalNetwork g → ℕ → LocalNetwork g
  set_seed n seed = record n { rng = g.seed seed }

  unfoldable pub initial_network : LocalNetwork g
  initial_network = record {
    endpoints = [];
    next_peer_id = 1;
    channel_count = 5;
    max_payload_size = 1200;
    time_usec = 0;
    latency_usec = 0;
    link_latencies = [];
    jitter_usec = 0;
    packet_loss = g.nought;
    rng = g.seed 1;
    next_sequence = 0;
    in_flight = [];
    last_reliable_arrival = [];
    last_ordered_sequence = [];
    sent_packets = 0;
    sent_bytes = 0;
    lost_packets = 0;
  }
