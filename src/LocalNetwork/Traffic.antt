-- ===== src/LocalNetwork/Traffic.antt =====
-- `TickLocalNetwork`: sending, the virtual clock that delivers, and the queues of an endpoint.
use tick_synchronizer.Prelude.{
  ℕ, ◌+◌, ◌%◌, ◌^◌, min, max, Bool, false, not, ◌&&◌, ◌||◌, Option, none, some, List, [], ◌∷◌, ◌++◌,
  length, get_elem?, ltb, leb, ◌==◌, if◌then◌else◌,
}
use tick_synchronizer.Prelude.Int.{ℤ, pos, pos_part, ltb_ℤ, leb_ℤ}
use tick_synchronizer.Prelude.Maps.{lookup, insert, has}
use tick_synchronizer.Transport.{
  TransferMode, is_reliable, is_ordered, is_ok, Event, Packet, ErrorCode, ok, unavailable,
  unconfigured, invalid_parameter,
}
use tick_synchronizer.LocalNetwork.{
  InFlightPacket, Engine, Endpoint, LocalNetwork, make_link_key, get_peer, update_endpoint,
  disconnect_peers,
}

-- The arrival that a reliable packet is put off to, so that none overtakes another of its channel.
unfoldable pub in_order : Option ℕ → ℕ → ℕ
in_order none at = at
in_order (some last) at = max at last

unfoldable pub push_packet : Packet → Endpoint → Endpoint
push_packet p e = record e { inbox = e.inbox ++ p ∷ [] }

module _ {g : Engine} where
  -- The draw of `send` that loses a packet; none is drawn for a reliable packet or without loss.
  unfoldable pub draw_loss : LocalNetwork g → TransferMode → LocalNetwork g × Bool
  draw_loss n mode =
      if not (is_reliable mode) && g.real_lt g.nought n.packet_loss
      then (let (rng, value) = g.randf n.rng in
          (record n { rng = rng }, g.real_lt value n.packet_loss))
      else (n, false)

  -- The latency of the link, or the network's.
  unfoldable pub latency_of : LocalNetwork g → ℕ → ℕ → ℕ
  unfolding make_link_key
  latency_of n from to =
      elim (lookup (make_link_key (min from to) (max from to) 0) n.link_latencies) [
        | none ↦ n.latency_usec
        | some latency ↦ latency
      ]

  -- The latency and the random delay.
  unfoldable pub draw_delay : LocalNetwork g → ℕ → ℕ → LocalNetwork g × ℕ
  unfolding latency_of
  draw_delay n from to =
      let delay = latency_of n from to in
      if ltb 0 n.jitter_usec
      then (let (rng, value) = g.rand n.rng in
          (record n { rng = rng }, (delay + value % ((n.jitter_usec + 1) % 2 ^ 64)) % 2 ^ 64))
      else (n, delay)

  -- The rest of `send`, for a packet that is not lost.
  unfoldable pub launch : LocalNetwork g → ℕ → ℕ → ℕ → TransferMode → List ℕ → LocalNetwork g
  unfolding draw_delay make_link_key in_order
  launch n from to channel mode bytes =
      let (m, delay) = draw_delay n from to in
      let key = make_link_key from to channel in
      let arrival = (m.time_usec + delay) % 2 ^ 64 in
      let at =
        if is_reliable mode
        then in_order (lookup key m.last_reliable_arrival) arrival
        else arrival in
      record m {
        next_sequence = (m.next_sequence + 1) % 2 ^ 64;
        last_reliable_arrival =
            if is_reliable mode
            then insert key at m.last_reliable_arrival
            else m.last_reliable_arrival;
        in_flight =
            m.in_flight
            ++ record {
              deliver_at_usec = at;
              sequence = m.next_sequence;
              to_peer = to;
              packet = record { from_peer = from; channel = channel; mode = mode; bytes = bytes };
            }
              ∷ [];
      }

  -- The bytes are a list, whose size is not negative and which is not null.
  unfoldable pub send :
      LocalNetwork g → ℕ → ℕ → ℤ → TransferMode → List ℕ → LocalNetwork g × ErrorCode
  unfolding draw_loss launch
  send n from to channel mode bytes =
      if ltb_ℤ channel (pos 0) || leb_ℤ (pos n.channel_count) channel
      then (n, invalid_parameter)
      else let (m, lost) =
          draw_loss
            (record n {
              sent_packets = (n.sent_packets + 1) % 2 ^ 64;
              sent_bytes = (n.sent_bytes + length bytes) % 2 ^ 64;
            })
            mode in
        if lost
        then (record m { lost_packets = (m.lost_packets + 1) % 2 ^ 64 }, ok)
        else (launch m from to (pos_part channel) mode bytes, ok)

  -- The loop of `TickLocalTransport::send` over the targets of a broadcast.
  unfoldable pub send_each :
      LocalNetwork g → ℕ → List ℕ → ℤ → TransferMode → List ℕ → LocalNetwork g × ErrorCode
  send_each n from [] channel mode bytes = (n, ok)
  send_each n from (to ∷ tos) channel mode bytes =
      let (m, code) = send n from to channel mode bytes in
      let rest = send_each m from tos channel mode bytes in if is_ok code then rest else (m, code)

  -- `TickLocalTransport::send` of the endpoint `from`.
  unfoldable pub transport_send :
      LocalNetwork g → ℕ → ℤ → ℤ → TransferMode → List ℕ → LocalNetwork g × ErrorCode
  unfolding get_peer send_each
  transport_send n from target channel mode bytes = elim (get_peer n from) [
    | none ↦ (n, unconfigured)
    | some e ↦
        if ltb_ℤ target (pos 0)
        then (n, invalid_parameter)
        else if pos_part target == 0
        then send_each n from e.connected_peers channel mode bytes
        else if not (has (pos_part target) e.connected_peers)
        then (n, unavailable)
        else send n from (pos_part target) channel mode bytes
  ]

  -- `TickLocalTransport::disconnect_peer` of the endpoint `p`.
  unfoldable pub disconnect_peer : LocalNetwork g → ℕ → ℕ → LocalNetwork g
  unfolding get_peer
  disconnect_peer n p other = elim (get_peer n p) [ none ↦ n | some _ ↦ disconnect_peers n p other ]

  -- A packet put in the inbox of its recipient.
  unfoldable pub hand_over : LocalNetwork g → InFlightPacket → LocalNetwork g
  unfolding push_packet update_endpoint
  hand_over n p = record n {
    endpoints = update_endpoint p.to_peer (push_packet p.packet) n.endpoints;
  }

  -- An unreliable ordered packet, unless a newer one already arrived.
  unfoldable pub hand_over_newer : LocalNetwork g → InFlightPacket → LocalNetwork g
  unfolding hand_over make_link_key
  hand_over_newer n p =
      let key = make_link_key p.packet.from_peer p.to_peer p.packet.channel in
      let newest =
        hand_over
          (record n { last_ordered_sequence = insert key p.sequence n.last_ordered_sequence }) p in
      elim (lookup key n.last_ordered_sequence) [
        | none ↦ newest
        | some last ↦ if ltb p.sequence last then n else newest
      ]

  -- One round of the loop of `process_usec`.
  unfoldable pub deliver : LocalNetwork g → InFlightPacket → LocalNetwork g
  unfolding get_peer hand_over_newer hand_over
  deliver n p = elim (get_peer n p.to_peer) [
    | none ↦ n
    | some e ↦
        if not (has p.packet.from_peer e.connected_peers)
        then n
        else if is_ordered p.packet.mode
        then hand_over_newer n p
        else hand_over n p
  ]

  -- The loop, over the packets in order, and what it leaves on the way.
  unfoldable pub deliver_loop : LocalNetwork g → List InFlightPacket → LocalNetwork g
  deliver_loop n [] = record n { in_flight = [] }
  deliver_loop n (p ∷ ps) =
      let rest = deliver_loop (deliver n p) ps in
      if leb p.deliver_at_usec n.time_usec then rest else record n { in_flight = p ∷ ps }

  unfoldable pub process_usec : LocalNetwork g → ℕ → LocalNetwork g
  unfolding deliver_loop deliver
  process_usec n delta =
      let m = record n { time_usec = (n.time_usec + delta) % 2 ^ 64 } in
      if length m.in_flight == 0 then m else deliver_loop m (g.sort m.in_flight)

  unfoldable pub process : LocalNetwork g → g.Real → LocalNetwork g
  unfolding process_usec
  process n delta =
      if not (g.real_le g.nought delta) then n else process_usec n (g.usec_of_seconds delta)

-- `pop_event` and `pop_packet` of an endpoint.
unfoldable pub pop_event : Endpoint → Endpoint × Option Event
pop_event e = elim (get_elem? e.events e.next_event) [
  | none ↦ (record e { events = []; next_event = 0 }, none)
  | some x ↦ (record e { next_event = e.next_event + 1 }, some x)
]

unfoldable pub pop_packet : Endpoint → Endpoint × Option Packet
pop_packet e = elim (get_elem? e.inbox e.next_packet) [
  | none ↦ (record e { inbox = []; next_packet = 0 }, none)
  | some x ↦ (record e { next_packet = e.next_packet + 1 }, some x)
]
