-- ===== src/LocalNetwork/InOrder.antt =====
-- `TickLocalNetwork`: whatever is called, the reliable packets of a link are handed over in the order
-- they were sent.
use tick_synchronizer.Prelude.{
  ℕ, ◌+◌, ◌^◌, ◌≤◌, ◌<◌, ◌≡◌, true, false, ◌&&◌, ◌||◌, leb, sym, Option-cases, Bool-cases, List, [],
  ◌∷◌, All, All-weaken, All-both, Pairwise, inl, inr, arith,
}
use tick_synchronizer.Prelude.Int.{ℤ, pos, ltb_ℤ, leb_ℤ}
use tick_synchronizer.Transport.{is_reliable}
use tick_synchronizer.LocalNetwork.{
  InFlightPacket, Engine, LocalNetwork, earlier, initial_network, add_peer, get_peer,
  set_channel_count, set_packet_loss, set_link_latency_usec, set_seed,
}
use tick_synchronizer.LocalNetwork.Linking.{Linked}
use tick_synchronizer.LocalNetwork.Traffic.{disconnect_peer, process}
use tick_synchronizer.LocalNetwork.Calls.{
  NetworkCall, adds, connects_all, removes, connects, disconnects, asks_disconnect, sends,
  processes, processes_usec, pops_event, pops_packet, sets_channel_count, sets_max_payload_size,
  sets_latency_usec, sets_jitter_usec, sets_seed, sets_packet_loss, sets_link_latency_usec, call,
  calls, call-Linked, initial-Linked,
}
use tick_synchronizer.LocalNetwork.Order.{key_of, Ordered, nil-InOrder, sort-InOrder}
use tick_synchronizer.LocalNetwork.Arrivals.{
  Flows, disconnect_peers-Flows, remove_peer-Flows, connect_peers-Flows, connect_all-Flows,
}
use tick_synchronizer.LocalNetwork.Deliveries.{most_sent, transport_send-Flows, process_usec-Flows}

not_before :
    (p q : InFlightPacket)
    → earlier q p ≡ false
    → (q.sequence < p.sequence → q.deliver_at_usec ≤ p.deliver_at_usec)
    → p.sequence ≤ q.sequence
unfolding earlier
not_before p q e h = elim (Bool-cases (leb p.sequence q.sequence)) [
  | inl s ↦ ground arith
  | inr s ↦ let l = h (ground arith) in absurd (ground (arith, l, e))
]

-- The pairs of a sorted list of packets that are in order.
sorted-Pairwise :
    (ps : List InFlightPacket)
    → All (λ p. All (Ordered p) ps) ps
    → Pairwise (λ p q. earlier q p ≡ false) ps
    → Pairwise
        (λ p q.
          is_reliable p.packet.mode ≡ true
          → is_reliable q.packet.mode ≡ true
          → key_of p ≡ key_of q
          → p.sequence ≤ q.sequence)
        ps
unfolding Ordered earlier
sorted-Pairwise [] o h = tt
sorted-Pairwise (p ∷ ps) o h = (
  All-weaken (λ q. (earlier q p ≡ false) × All (Ordered q) (p ∷ ps))
      (λ q.
        is_reliable p.packet.mode ≡ true
        → is_reliable q.packet.mode ≡ true
        → key_of p ≡ key_of q
        → p.sequence ≤ q.sequence)
      ps (λ q s r r' k. not_before p q s.0 (s.1.0 r' r (sym k)))
      (All-both (λ q. earlier q p ≡ false) (λ q. All (Ordered q) (p ∷ ps)) ps h.0 o.1),
  sorted-Pairwise ps
      (All-weaken (λ q. All (Ordered q) (p ∷ ps)) (λ q. All (Ordered q) ps) ps (λ q s. s.1) o.1)
      h.1,
)

module _ {g : Engine} where
  -- Room for a call: the ids fit 24 bits, and the counter of the packets does not wrap around.
  abbrev pub packets_of : LocalNetwork g → NetworkCall g → ℕ
  packets_of n (sends from target channel mode bytes) = most_sent n from
  packets_of n _ = 0

  abbrev pub HasRoom : LocalNetwork g → List (NetworkCall g) → Type 0
  HasRoom n [] = Unit {0}
  HasRoom n (c ∷ cs) =
      (n.next_peer_id ≤ 2 ^ 24)
      × (n.next_sequence + packets_of n c < 2 ^ 64)
      × HasRoom (call n c) cs

  disconnect_peer-Flows :
      (n : LocalNetwork g) (p other : ℕ)
      → n.next_peer_id ≤ 2 ^ 24
      → Linked n
      → Flows n
      → Flows (disconnect_peer n p other)
  unfolding disconnect_peer
  disconnect_peer-Flows n p other l k h = elim (Option-cases (get_peer n p)) [
    | inl e ↦ rw (e, disconnect_peer) h
    | inr (x, e) ↦ rw (e, disconnect_peer) (disconnect_peers-Flows n p other l k h)
  ]

  process-Flows : (n : LocalNetwork g) (delta : g.Real) → Flows n → Flows (process n delta)
  unfolding process
  process-Flows n delta h = elim (Bool-cases (g.real_le g.nought delta)) [
    | inl e ↦ rw e (process_usec-Flows n (g.usec_of_seconds delta) h)
    | inr e ↦ rw e h
  ]

  set_channel_count-Flows :
      (n : LocalNetwork g) (count : ℤ) → Flows n → Flows (set_channel_count n count)
  unfolding set_channel_count
  set_channel_count-Flows n count h =
      elim (Bool-cases (leb_ℤ count (pos 0) || ltb_ℤ (pos 255) count)) [
        | inl e ↦ rw e h
        | inr e ↦ rw e (record { arranged = h.arranged; channels = ground arith })
      ]

  set_packet_loss-Flows :
      (n : LocalNetwork g) (loss : g.Real) → Flows n → Flows (set_packet_loss n loss)
  unfolding set_packet_loss
  set_packet_loss-Flows n loss h =
      elim (Bool-cases (g.real_le g.nought loss && g.real_le loss g.one)) [
        | inl e ↦ rw e (record { arranged = h.arranged; channels = h.channels })
        | inr e ↦ rw e h
      ]

  call-Flows :
      (n : LocalNetwork g) (c : NetworkCall g)
      → n.next_peer_id ≤ 2 ^ 24
      → n.next_sequence + packets_of n c < 2 ^ 64
      → Linked n
      → Flows n
      → Flows (call n c)
  unfolding call add_peer set_seed set_link_latency_usec
  call-Flows n adds l r k h = record { arranged = h.arranged; channels = h.channels }
  call-Flows n connects_all l r k h = connect_all-Flows n h
  call-Flows n (removes p) l r k h = remove_peer-Flows n p l k h
  call-Flows n (connects a b) l r k h = connect_peers-Flows n a b h
  call-Flows n (disconnects a b) l r k h = disconnect_peers-Flows n a b l k h
  call-Flows n (asks_disconnect p other) l r k h = disconnect_peer-Flows n p other l k h
  call-Flows n (sends from target channel mode bytes) l r k h =
      transport_send-Flows n from target channel mode bytes l r k h
  call-Flows n (processes delta) l r k h = process-Flows n delta h
  call-Flows n (processes_usec delta) l r k h = process_usec-Flows n delta h
  call-Flows n (pops_event p) l r k h = record { arranged = h.arranged; channels = h.channels }
  call-Flows n (pops_packet p) l r k h = record { arranged = h.arranged; channels = h.channels }
  call-Flows n (sets_channel_count count) l r k h = set_channel_count-Flows n count h
  call-Flows n (sets_max_payload_size size) l r k h = record {
    arranged = h.arranged;
    channels = h.channels;
  }
  call-Flows n (sets_latency_usec latency) l r k h = record {
    arranged = h.arranged;
    channels = h.channels;
  }
  call-Flows n (sets_jitter_usec jitter) l r k h = record {
    arranged = h.arranged;
    channels = h.channels;
  }
  call-Flows n (sets_seed seed) l r k h = record { arranged = h.arranged; channels = h.channels }
  call-Flows n (sets_packet_loss loss) l r k h = set_packet_loss-Flows n loss h
  call-Flows n (sets_link_latency_usec a b latency) l r k h = record {
    arranged = h.arranged;
    channels = h.channels;
  }

  calls-Flows :
      (n : LocalNetwork g) (cs : List (NetworkCall g))
      → HasRoom n cs
      → Linked n
      → Flows n
      → Flows (calls n cs)
  unfolding calls
  calls-Flows n [] r k h = h
  calls-Flows n (c ∷ cs) r k h =
      calls-Flows (call n c) cs r.2 (call-Linked n c k) (call-Flows n c r.0 r.1 k h)

  -- For any calls made on a new network and its endpoints, where before each call the ids given
  -- fit 24 bits and the packets that the call may send do not make the counter of the packets wrap
  -- around: in the order that `process_usec` goes over the packets in flight, of two reliable
  -- packets of one sender, recipient and channel the one that was sent first comes first, whatever
  -- the latencies, the random delays, and the links made and cut in between.
  pub calls-in_order :
      (cs : List (NetworkCall g))
      → HasRoom initial_network cs
      → Pairwise
          (λ p q.
            is_reliable p.packet.mode ≡ true
            → is_reliable q.packet.mode ≡ true
            → key_of p ≡ key_of q
            → p.sequence ≤ q.sequence)
          (g.sort (calls initial_network cs).in_flight)
  unfolding initial_network
  calls-in_order cs r =
      let n = calls initial_network cs in
      let flows =
        calls-Flows initial_network cs r (initial-Linked g)
          (record { arranged = nil-InOrder [] (2 ^ 24) 0; channels = omega arith }) in
      let sorted =
        sort-InOrder g n.last_reliable_arrival (2 ^ 24) n.next_sequence n.in_flight
          flows.arranged in
      sorted-Pairwise (g.sort n.in_flight) sorted.ordered (g.sorted n.in_flight)
